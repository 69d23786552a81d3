-- ===== src/Paths/Laws.antt =====
-- How the path functions compose, on the parts of a path.
use sodp.Base.{
  String, ◌≡◌, ◌≢◌, refl, ap, subst, inl, inr, some, List, [], ◌∷◌, ◌++◌, eq_refl, Option-cases,
}
use sodp.Json.{
  Value, Fields, null, bool, num, str, arr, obj, get, insert, remove, unwrap_or_null, IsSorted,
  WellFormed, WellFormedFields,
}
use sodp.Json.Map.{
  get-insert, insert-IsSorted, insert-remove, insert_twice, get-WellFormed, insert-WellFormed,
}
use sodp.Paths.{as_map, set_in_recursive, remove_in_recursive}

pub as_map-IsSorted : (v : Value) → WellFormed v → IsSorted (as_map v)
unfolding WellFormed
as_map-IsSorted (obj m) w = w.0
as_map-IsSorted null w = tt
as_map-IsSorted (bool b) w = tt
as_map-IsSorted (num n) w = tt
as_map-IsSorted (str s) w = tt
as_map-IsSorted (arr xs) w = tt

pub as_map-WellFormed : (v : Value) → WellFormed v → WellFormedFields (as_map v)
unfolding WellFormed
as_map-WellFormed (obj m) w = w.1
as_map-WellFormed null w = tt
as_map-WellFormed (bool b) w = tt
as_map-WellFormed (num n) w = tt
as_map-WellFormed (str s) w = tt
as_map-WellFormed (arr xs) w = tt

child-WellFormed :
    (m : Fields) (k : String) → WellFormedFields m → WellFormed (unwrap_or_null (get m k))
unfolding WellFormed
child-WellFormed m k w = elim (Option-cases (get m k)) [
  | inl e ↦ rw e tt
  | inr (v, e) ↦ rw e (get-WellFormed m k v w e)
]

-- One step of `set_in_recursive`, whatever the rest of the path.
pub set_in_step :
    (v x : Value) (k : String) (p : List String)
    → WellFormed v
    → set_in_recursive v (k ∷ p) x
      ≡ obj (insert (as_map v) k (set_in_recursive (unwrap_or_null (get (as_map v) k)) p x))
unfolding set_in_recursive
set_in_step v x k [] w = refl
set_in_step v x k (j ∷ p) w = ap obj (insert-remove (as_map v) k _ (as_map-IsSorted v w))

-- The value that is set is well formed if the parts are.
pub set_in-WellFormed :
    (v x : Value) (p : List String)
    → WellFormed v
    → WellFormed x
    → WellFormed (set_in_recursive v p x)
unfolding set_in_recursive WellFormed
set_in-WellFormed v x [] w y = y
set_in-WellFormed v x (k ∷ p) w y =
    let m = as_map v in
    let s = as_map-IsSorted v w in
    let f = as_map-WellFormed v w in
    let rest = set_in-WellFormed (unwrap_or_null (get m k)) x p (child-WellFormed m k f) y in
    rw (set_in_step v x k p w) (insert-IsSorted m k _ s, insert-WellFormed m k _ f rest)

-- Two writes below one key, seen from that key.
set_in-set_in :
    (v x y : Value) (k : String) (p q : List String)
    → WellFormed v
    → WellFormed x
    → set_in_recursive (set_in_recursive v (k ∷ p) x) (k ∷ q) y
      ≡ obj (
          insert
            (as_map v)
            k
            (set_in_recursive (set_in_recursive (unwrap_or_null (get (as_map v) k)) p x) q y))
set_in-set_in v x y k p q w wx =
    let m = as_map v in
    let c = set_in_recursive (unwrap_or_null (get m k)) p x in
    let s = as_map-IsSorted v w in
    let w' = subst WellFormed (set_in_step v x k p w) (set_in-WellFormed v x (k ∷ p) w wx) in
    rw (
      set_in_step v x k p w,
      set_in_step (obj (insert m k c)) y k q w',
      get-insert m k k c,
      eq_refl k,
      insert_twice m k c _ s,
    )

-- In a well-formed value, setting a well-formed value and then another one at the same path leaves
-- exactly what setting the second one alone leaves.
pub set_in_twice :
    (v x y : Value) (p : List String)
    → WellFormed v
    → WellFormed x
    → set_in_recursive (set_in_recursive v p x) p y ≡ set_in_recursive v p y
set_in_twice v x y [] w wx = unfold set_in_recursive in refl
set_in_twice v x y (k ∷ p) w wx =
    let c = unwrap_or_null (get (as_map v) k) in
    let wc = child-WellFormed (as_map v) k (as_map-WellFormed v w) in
    rw (set_in-set_in v x y k p p w wx, set_in_twice c x y p wc wx, set_in_step v y k p w)

-- Setting below a path is setting at the path, one field changed.
pub set_in_below :
    (v x : Value) (m : Fields) (p : List String) (k : String)
    → WellFormed v
    → WellFormed (obj m)
    → set_in_recursive (set_in_recursive v p (obj m)) (p ++ k ∷ []) x
      ≡ set_in_recursive v p (obj (insert m k x))
set_in_below v x m [] k w wm = unfold set_in_recursive in refl
set_in_below v x m (j ∷ p) k w wm =
    let c = unwrap_or_null (get (as_map v) j) in
    let wc = child-WellFormed (as_map v) j (as_map-WellFormed v w) in
    rw (
      set_in-set_in v (obj m) x j p (p ++ k ∷ []) w wm,
      set_in_below c x m p k wc wm,
      set_in_step v (obj (insert m k x)) j p w,
    )

remove_in_found :
    (m : Fields) (j n : String) (c : Value) (r : List String)
    → get m j ≡ some c
    → remove_in_recursive (obj m) (j ∷ n ∷ r)
      ≡ obj (insert (remove m j) j (remove_in_recursive c (n ∷ r)))
unfolding remove_in_recursive
remove_in_found m j n c r e = rw (e, remove_in_recursive)

get-insert_self : (m : Fields) (j : String) (c : Value) → get (insert m j c) j ≡ some c
get-insert_self m j c = rw (get-insert m j j c, eq_refl j)

remove_in_step :
    (m : Fields) (j : String) (c : Value) (q : List String)
    → IsSorted m
    → q ≢ []
    → remove_in_recursive (obj (insert m j c)) (j ∷ q) ≡ obj (insert m j (remove_in_recursive c q))
remove_in_step m j c [] s h = absurd (h refl)
remove_in_step m j c (n ∷ r) s h =
    let d = remove_in_recursive c (n ∷ r) in
    rw (
      remove_in_found (insert m j c) j n c r (get-insert_self m j c),
      insert-remove (insert m j c) j d (insert-IsSorted m j c s),
      insert_twice m j c d s,
    )

pub snoc-ne-nil : (p : List String) (k : String) → p ++ k ∷ [] ≢ []
snoc-ne-nil [] k e = cc
snoc-ne-nil (j ∷ p) k e = cc

-- In a well-formed value, setting a well-formed object at a path and then removing one of its keys
-- by the longer path leaves exactly what setting the object without that key leaves.
pub remove_in_below :
    (v : Value) (m : Fields) (p : List String) (k : String)
    → WellFormed v
    → WellFormed (obj m)
    → remove_in_recursive (set_in_recursive v p (obj m)) (p ++ k ∷ [])
      ≡ set_in_recursive v p (obj (remove m k))
remove_in_below v m [] k w wm = unfold set_in_recursive remove_in_recursive in refl
remove_in_below v m (j ∷ p) k w wm =
    let c = unwrap_or_null (get (as_map v) j) in
    let wc = child-WellFormed (as_map v) j (as_map-WellFormed v w) in
    let s = as_map-IsSorted v w in
    rw (
      set_in_step v (obj m) j p w,
      remove_in_step (as_map v) j (set_in_recursive c p (obj m)) (p ++ k ∷ []) s (snoc-ne-nil p k),
      remove_in_below c m p k wc wm,
      set_in_step v (obj (remove m k)) j p w,
    )
