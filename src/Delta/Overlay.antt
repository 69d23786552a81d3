-- ===== src/Delta/Overlay.antt =====
-- What the two loops of `diff_at` make of a map, and that together they make the new one.
use sodp.Base.{String, ◌≡◌, refl, inl, inr, none, some, arith, eq_iff, Bool-cases, if◌then◌else◌}
use sodp.Json.{
  Value, Fields, Items, end, field, null, bool, num, str, arr, obj, get, insert, IsSorted,
  WellFormed, WellFormedFields, Value-discrete, is_object, contains_key, Above,
}
use sodp.Json
use sodp.Json.Map.{
  get-Above, get-insert, get-remove, insert-IsSorted, remove-IsSorted, eq_of_get, insert-WellFormed,
}

-- What the first loop and the second loop of `diff_at` make of a map.
unfoldable pub overlay : Fields → Fields → Fields
overlay m end = m
overlay m (field k v rest) = overlay (insert m k v) rest

unfoldable pub prune : Fields → Fields → Fields → Fields
prune n end m = m
prune n (field k v rest) m = prune n rest (if contains_key n k then m else Json.remove m k)

pub overlay-IsSorted : (m n : Fields) → IsSorted m → IsSorted (overlay m n)
unfolding overlay
overlay-IsSorted m end s = s
overlay-IsSorted m (field k v rest) s =
    overlay-IsSorted (insert m k v) rest (insert-IsSorted m k v s)

prune-IsSorted : (n o m : Fields) → IsSorted m → IsSorted (prune n o m)
unfolding prune
prune-IsSorted n end m s = s
prune-IsSorted n (field k v rest) m s =
    prune-IsSorted n rest _ (ground (arith, remove-IsSorted m k s))

get-overlay :
    (m n : Fields) (j : String)
    → IsSorted n
    → get (overlay m n) j ≡ (elim (get n j) [ none ↦ get m j | some v ↦ some v ])
unfolding overlay get
get-overlay m end j s = refl
get-overlay m (field k v rest) j s =
    ground (
      arith,
      get-overlay (insert m k v) rest j s.1,
      get-insert m k j v,
      eq_iff k j,
      get-Above k rest,
    )

get-prune :
    (n o m : Fields) (j : String)
    → IsSorted m
    → get (prune n o m) j
      ≡ (if contains_key n j then get m j else if contains_key o j then none else get m j)
unfolding prune get
get-prune n end m j s = ground arith
get-prune n (field k v rest) m j s = elim (Bool-cases (contains_key n k)) [
  | inl e ↦ rw e (ground (arith, get-prune n rest m j s, eq_iff k j))
  | inr e ↦ rw e (
      ground (
        arith,
        get-prune n rest (Json.remove m k) j (remove-IsSorted m k s),
        get-remove m k j s,
        eq_iff k j,
      ))
]

pub prune-overlay : (o n : Fields) → IsSorted o → IsSorted n → prune n o (overlay o n) ≡ n
prune-overlay o n s t =
    let r = overlay-IsSorted o n s in
    eq_of_get _ _ (prune-IsSorted n o _ r) t
      λ j. ground (arith, get-prune n o (overlay o n) j, get-overlay o n j)

pub overlay-WellFormed :
    (m n : Fields) → WellFormed (obj m) → WellFormed (obj n) → WellFormed (obj (overlay m n))
unfolding overlay WellFormed
overlay-WellFormed m end wm wn = wm
overlay-WellFormed m (field k v n) wm wn =
    overlay-WellFormed (insert m k v) n
      (insert-IsSorted m k v wm.0, insert-WellFormed m k v wm.1 wn.1.0) (wn.0.1, wn.1.1)
