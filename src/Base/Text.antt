-- ===== src/Base/Text.antt =====
-- Text as the program uses it: equality, byte order, `split`, `format!` and prefixes.
-- Rust orders strings by their UTF-8 bytes, which is the order of their code points.
use Prim.Native.Nat.{ℕ, compare, Ordering}
use Prim.Native.Char.{Char, code}
use Prim.Native.String.{String}
use mathlib.Core.Path.{◌≡◌, refl, ap, ap₂}
use mathlib.Core.Bool.{Bool, true, false, ◌||◌, false≢true}
use mathlib.Core.Logic.{◌↔◌}
use text.Mathlib.Text.{◌==◌ as str_eq}
use mathlib.Core.List.{List, [], ◌∷◌}
use native.Mathlib.Omega.{arith}
use text.Mathlib.TextEquality.{Char-path, eq_iff}
use sodp.Base.Tests.{◌==◌, if◌then◌else◌}

-- `format!("{s}{t}")`
infixr 66 ◌⧺◌
abbrev pub ◌⧺◌ : String → String → String
String.[] ⧺ t = t
String.◌∷◌ c s ⧺ t = String.◌∷◌ c (s ⧺ t)

abbrev Dec_of_iff : {P : Type 0} (b : Bool) → (b ≡ true) ↔ P → Dec P
Dec_of_iff true e = yes (e.0 refl)
Dec_of_iff false e = no (λ p. false≢true (e.1 p))

unfoldable pub String-discrete : Discrete String
String-discrete s t = Dec_of_iff (str_eq s t) (eq_iff s t)

-- `s < t`
unfoldable pub key_lt : String → String → Bool
key_lt s String.[] = false
key_lt String.[] (String.◌∷◌ d t) = true
key_lt (String.◌∷◌ c s) (String.◌∷◌ d t) = elim (compare (code c) (code d)) [
  | Ordering.lt ↦ true
  | Ordering.eq ↦ key_lt s t
  | Ordering.gt ↦ false
]

pub key_lt_irrefl : (s : String) → key_lt s s ≡ false
unfolding key_lt
key_lt_irrefl String.[] = refl
key_lt_irrefl (String.◌∷◌ c s) = ground (arith, key_lt_irrefl s)

pub key_lt_trans : (s t u : String) → key_lt s t ≡ true → key_lt t u ≡ true → key_lt s u ≡ true
unfolding key_lt
key_lt_trans s t String.[] p q = q
key_lt_trans String.[] t (String.◌∷◌ e u) p q = refl
key_lt_trans (String.◌∷◌ c s) String.[] (String.◌∷◌ e u) p q = ground arith
key_lt_trans (String.◌∷◌ c s) (String.◌∷◌ d t) (String.◌∷◌ e u) p q =
    ground (arith, key_lt_trans s t u)

pub key_lt_total : (s t : String) → key_lt s t ≡ false → key_lt t s ≡ false → s ≡ t
unfolding key_lt
key_lt_total String.[] String.[] p q = refl
key_lt_total String.[] (String.◌∷◌ d t) p q = ground arith
key_lt_total (String.◌∷◌ c s) String.[] p q = ground arith
key_lt_total (String.◌∷◌ c s) (String.◌∷◌ d t) p q =
    ap₂ String.◌∷◌ (Char-path c d (ground arith)) (key_lt_total s t (ground arith) (ground arith))

abbrev cons_head : Char → List String → List String
cons_head c [] = String.◌∷◌ c String.[] ∷ []
cons_head c (h ∷ t) = String.◌∷◌ c h ∷ t

-- `s.split(c)`: a text without the separator is its only part.
unfoldable pub split : ℕ → String → List String
split c String.[] = String.[] ∷ []
split c (String.◌∷◌ x s) =
    let rest = split c s in if code x == c then String.[] ∷ rest else cons_head x rest

-- `s.contains(c)`
unfoldable pub contains : ℕ → String → Bool
contains c String.[] = false
contains c (String.◌∷◌ x s) = code x == c || contains c s

-- `s.trim_start_matches(c)`
unfoldable pub trim_start_matches : ℕ → String → String
trim_start_matches c String.[] = String.[]
trim_start_matches c (String.◌∷◌ x s) =
    let rest = trim_start_matches c s in if code x == c then rest else String.◌∷◌ x s

-- `s.starts_with(c)`
unfoldable pub starts_with : ℕ → String → Bool
starts_with c String.[] = false
starts_with c (String.◌∷◌ x s) = code x == c

pub split_one : (c : ℕ) (s : String) → contains c s ≡ false → split c s ≡ s ∷ []
unfolding split contains
split_one c String.[] h = refl
split_one c (String.◌∷◌ x s) h = ground (arith, split_one c s)

-- A separator after a text that has none splits there.
pub split-append :
    (c : ℕ) (d : Char) (s t : String)
    → code d ≡ c
    → contains c s ≡ false
    → split c (s ⧺ String.◌∷◌ d t) ≡ s ∷ split c t
unfolding split contains
split-append c d String.[] t e h = ground arith
split-append c d (String.◌∷◌ x s) t e h = ground (arith, split-append c d s t)

pub trim_start_matches_id :
    (c : ℕ) (s : String) → starts_with c s ≡ false → trim_start_matches c s ≡ s
unfolding trim_start_matches starts_with
trim_start_matches_id c String.[] h = refl
trim_start_matches_id c (String.◌∷◌ x s) h = ground arith

pub ⧺-assoc : (s t u : String) → (s ⧺ t) ⧺ u ≡ s ⧺ (t ⧺ u)
⧺-assoc String.[] t u = refl
⧺-assoc (String.◌∷◌ c s) t u = ap (String.◌∷◌ c) (⧺-assoc s t u)

pub ⧺-nil : (s : String) → s ⧺ "" ≡ s
⧺-nil String.[] = refl
⧺-nil (String.◌∷◌ c s) = ap (String.◌∷◌ c) (⧺-nil s)

pub split-cons : (c : ℕ) (s : String) → (h : String) × (t : List String) × (split c s ≡ h ∷ t)
unfolding split
split-cons c String.[] = (String.[], [], refl)
split-cons c (String.◌∷◌ x s) = head_of (code x == c) (split c s)
  where
    head_of :
        (b : Bool) (rest : List String)
        → (h : String) × (t : List String) × ((if b then String.[] ∷ rest else cons_head x rest)
            ≡ h ∷ t)
    head_of true rest = (String.[], rest, refl)
    head_of false [] = (String.◌∷◌ x String.[], [], refl)
    head_of false (h ∷ t) = (String.◌∷◌ x h, t, refl)
