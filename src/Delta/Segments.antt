-- ===== src/Delta/Segments.antt =====
-- The path texts that `diff_at` builds, read back by the path functions.
use sodp.Base.{String, ◌≡◌, ◌≢◌, refl, false, true, List, [], ◌∷◌, ◌++◌, arith, All, str_eq, eq_iff}
use sodp.Base.Text.{
  ◌⧺◌, ⧺-assoc, ⧺-nil, contains, split, split_one, split-append, starts_with, trim_start_matches,
  trim_start_matches_id,
}
use text.Mathlib.TextLemmas.{cons≢nil, tail-eq_of_cons-eq}
use sodp.Json.{Value}
use sodp.Paths.{
  slash, path_parts, set_in_recursive, remove_in_recursive, json_set_in, json_remove_in, SetResult,
}
use sodp.Delta.{join_path}

-- A key that a path can name: it is not empty and holds no slash.
pub record IsSafeKey (k : String) : Type 0 where
  pub nonempty : k ≢ ""
  pub slash_free : contains slash k ≡ false

joined : List String → String
joined [] = ""
joined (k ∷ p) = "/" ⧺ (k ⧺ joined p)

-- The path text of a list of keys.
unfoldable pub path_of : List String → String
unfolding joined
path_of [] = "/"
path_of (k ∷ p) = joined (k ∷ p)

joined-snoc : (p : List String) (k : String) → joined (p ++ k ∷ []) ≡ joined p ⧺ ("/" ⧺ k)
unfolding joined
joined-snoc [] k = rw ⧺-nil
joined-snoc (j ∷ p) k = rw (joined-snoc p k, ⧺-assoc j (joined p) ("/" ⧺ k))

split-joined :
    (k : String) (p : List String)
    → IsSafeKey k
    → All IsSafeKey p
    → split slash (k ⧺ joined p) ≡ k ∷ p
unfolding joined
split-joined k [] s h = rw (⧺-nil, split_one slash k s.slash_free)
split-joined k (j ∷ p) s h =
    rw (split-append slash _ k (j ⧺ joined p) refl s.slash_free, split-joined j p h.0 h.1)

starts_with_safe : (k t : String) → IsSafeKey k → starts_with slash (k ⧺ t) ≡ false
unfolding starts_with contains
starts_with_safe String.[] t s = absurd (s.nonempty refl)
starts_with_safe (String.◌∷◌ c k) t s = ground (arith, s.slash_free)

path_parts-path_of :
    (k : String) (p : List String)
    → IsSafeKey k
    → All IsSafeKey p
    → path_parts (path_of (k ∷ p)) ≡ k ∷ p
unfolding path_of trim_start_matches
path_parts-path_of k p s h =
    rw (trim_start_matches_id slash (k ⧺ joined p) (starts_with_safe k (joined p) s))
      (split-joined k p s h)

str_eq-false : (s t : String) → s ≢ t → str_eq s t ≡ false
str_eq-false s t h = ground (arith, eq_iff s t)

-- `path_of (k ∷ p)` is not the root's path.
path_of-ne-root :
    (k : String) (p : List String) → IsSafeKey k → str_eq (path_of (k ∷ p)) "/" ≡ false
unfolding path_of
path_of-ne-root String.[] p s = absurd (s.nonempty refl)
path_of-ne-root (String.◌∷◌ c k) p s =
    str_eq-false (path_of (String.◌∷◌ c k ∷ p)) "/" (λ e. cons≢nil (tail-eq_of_cons-eq e))

path_of-ne-empty : (p : List String) → str_eq (path_of p) "" ≡ false
unfolding path_of
path_of-ne-empty [] = refl
path_of-ne-empty (k ∷ p) = str_eq-false (path_of (k ∷ p)) "" (λ e. cons≢nil e)

starts_with-path_of : (p : List String) → starts_with slash (path_of p) ≡ true
unfolding path_of starts_with
starts_with-path_of [] = refl
starts_with-path_of (k ∷ p) = refl

-- `join_path` adds a key at the end.
pub join_path-path_of :
    (p : List String) (k : String)
    → All IsSafeKey p
    → join_path (path_of p) k ≡ path_of (p ++ k ∷ [])
unfolding path_of
join_path-path_of [] k h = rw (⧺-nil k)
join_path-path_of (j ∷ p) k h = rw (path_of-ne-root j p h.0) (rw (joined-snoc (j ∷ p) k))

-- On such texts the path functions follow the keys.
pub json_set_in-path_of :
    (v x : Value) (p : List String)
    → All IsSafeKey p
    → json_set_in v (path_of p) x ≡ SetResult.ok (set_in_recursive v p x)
json_set_in-path_of v x [] h = unfold json_set_in set_in_recursive path_of in refl
json_set_in-path_of v x (k ∷ p) h =
    unfold json_set_in in
    rw (path_of-ne-root k p h.0, starts_with-path_of (k ∷ p), path_parts-path_of k p h.0 h.1)

pub json_remove_in-path_of :
    (v : Value) (k : String) (p : List String)
    → All IsSafeKey (k ∷ p)
    → json_remove_in v (path_of (k ∷ p)) ≡ remove_in_recursive v (k ∷ p)
json_remove_in-path_of v k p h =
    unfold json_remove_in in
    rw (
      path_of-ne-empty (k ∷ p),
      path_of-ne-root k p h.0,
      starts_with-path_of (k ∷ p),
      path_parts-path_of k p h.0 h.1,
    )
