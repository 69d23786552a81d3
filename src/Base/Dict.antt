-- ===== src/Base/Dict.antt =====
-- A map keyed by text (`HashMap`, `DashMap`) as an association list: the first entry of a key
-- counts, `insert` keeps the place of a key that is there, and no statement reads the order.
use sodp.Base.Tests.{if◌then◌else◌, Bool-cases}
use sodp.Base.Lists.{All}
use mathlib.Core.Path.{◌≡◌, refl, subst}
use mathlib.Core.Logic.{inl, inr}
use mathlib.Core.Option.{Option, none, some}
use mathlib.Core.List.{List, [], ◌∷◌}
use native.Mathlib.Omega.{arith}
use Prim.Native.String.{String}
use text.Mathlib.Text.{◌==◌ as str_eq}
use text.Mathlib.TextEquality.{eq_iff}

abbrev pub Dict {ℓ} : Type ℓ → Type ℓ
Dict V = List (String × V)

module _ {ℓ} {V : Type ℓ} where
  unfoldable pub get : Dict V → String → Option V
  get [] k = none
  get ((j, v) ∷ m) k = if str_eq j k then some v else get m k

  unfoldable pub insert : Dict V → String → V → Dict V
  insert [] k v = (k, v) ∷ []
  insert ((j, w) ∷ m) k v = if str_eq j k then (k, v) ∷ m else (j, w) ∷ insert m k v

  unfoldable pub remove : Dict V → String → Dict V
  remove [] k = []
  remove ((j, w) ∷ m) k = let rest = remove m k in if str_eq j k then rest else (j, w) ∷ rest

  pub get-insert :
      (m : Dict V) (k j : String) (v : V)
      → get (insert m k v) j ≡ (if str_eq k j then some v else get m j)
  unfolding get insert
  get-insert [] k j v = refl
  get-insert ((i, w) ∷ m) k j v =
      ground (arith, eq_iff k j, eq_iff i k, eq_iff i j, get-insert m k j v)

  pub get-remove :
      (m : Dict V) (k j : String) → get (remove m k) j ≡ (if str_eq k j then none else get m j)
  unfolding get remove
  get-remove [] k j = ground arith
  get-remove ((i, w) ∷ m) k j = ground (arith, eq_iff k j, eq_iff i k, eq_iff i j, get-remove m k j)

  -- Each key stands once.
  abbrev pub IsUnique : Dict V → Type ℓ
  IsUnique [] = Unit
  IsUnique ((k, v) ∷ m) = (get m k ≡ none) × IsUnique m

  pub insert-IsUnique : (m : Dict V) (k : String) (v : V) → IsUnique m → IsUnique (insert m k v)
  unfolding get insert
  insert-IsUnique [] k v u = (refl, tt)
  insert-IsUnique ((j, w) ∷ m) k v u = elim (Bool-cases (str_eq j k)) [
    | inl same ↦ rw (same, insert) (ground (arith, u.0, eq_iff j k), u.1)
    | inr other ↦
        rw (other, insert)
          (
            ground (arith, u.0, eq_iff j k, eq_iff k j, get-insert m k j v),
            insert-IsUnique m k v u.1,
          )
  ]

  pub remove-IsUnique : (m : Dict V) (k : String) → IsUnique m → IsUnique (remove m k)
  unfolding get remove
  remove-IsUnique [] k u = tt
  remove-IsUnique ((j, w) ∷ m) k u = elim (Bool-cases (str_eq j k)) [
    | inl same ↦ rw (same, remove) (remove-IsUnique m k u.1)
    | inr other ↦
        rw (other, remove) (ground (arith, u.0, get-remove m k j), remove-IsUnique m k u.1)
  ]

  module _ {κ} (P : String × V → Type κ) where
    pub All-insert : (m : Dict V) (k : String) (v : V) → P (k, v) → All P m → All P (insert m k v)
    unfolding insert
    All-insert [] k v p h = (p, tt)
    All-insert ((j, w) ∷ m) k v p h = elim (Bool-cases (str_eq j k)) [
      | inl same ↦ rw (same, insert) (p, h.1)
      | inr other ↦ rw (other, insert) (h.0, All-insert m k v p h.1)
    ]

    pub All-remove : (m : Dict V) (k : String) → All P m → All P (remove m k)
    unfolding remove
    All-remove [] k h = tt
    All-remove ((j, w) ∷ m) k h = elim (Bool-cases (str_eq j k)) [
      | inl same ↦ rw (same, remove) (All-remove m k h.1)
      | inr other ↦ rw (other, remove) (h.0, All-remove m k h.1)
    ]

  pub All-get {κ} :
      (P : V → Type κ) (m : Dict V) (k : String) (v : V)
      → All (λ e. P e.1) m
      → get m k ≡ some v
      → P v
  unfolding get
  All-get P [] k v h e = ground arith
  All-get P ((j, w) ∷ m) k v h e = elim (Bool-cases (str_eq j k)) [
    | inl same ↦ let is : w ≡ v = ground arith in subst P is h.0
    | inr other ↦ All-get P m k v h.1 (ground arith)
  ]
