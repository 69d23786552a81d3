-- ===== src/Json/Map.antt =====
-- The laws of a sorted map: what `get` sees after each operation, and equality by lookups.
use sodp.Base.{
  String, ◌≡◌, subst, refl, inl, inr, true, none, some, arith, str_eq, eq_iff, eq_refl, Bool-cases,
  if◌then◌else◌,
}
use sodp.Base.Text.{key_lt, key_lt_irrefl, key_lt_trans, key_lt_total}
use sodp.Json.{
  Value, Fields, end, field, get, insert, remove, Above, IsSorted, WellFormed, WellFormedFields,
}

-- A key below all keys of a map is not in it.
pub get-Above : (k : String) (m : Fields) → Above k m → IsSorted m → get m k ≡ none
unfolding get
get-Above k end a s = refl
get-Above k (field j v end) a s = ground (arith, eq_iff j k, key_lt_irrefl k)
get-Above k (field j v (field i w m)) a s =
    ground (arith, eq_iff j k, key_lt_irrefl k, key_lt_trans k j i, get-Above k (field i w m))

-- No order is needed to read what was written.
pub get-insert :
    (m : Fields) (k j : String) (v : Value)
    → get (insert m k v) j ≡ (if str_eq k j then some v else get m j)
unfolding get insert
get-insert end k j v = refl
get-insert (field i w m) k j v =
    ground (arith, eq_iff k j, eq_iff i k, eq_iff i j, get-insert m k j v)

pub get-remove :
    (m : Fields) (k j : String)
    → IsSorted m
    → get (remove m k) j ≡ (if str_eq k j then none else get m j)
unfolding get remove
get-remove end k j s = ground arith
get-remove (field i w m) k j s =
    ground (arith, eq_iff k j, eq_iff i k, eq_iff i j, get-Above i m, get-remove m k j)

insert-Above :
    (h : String) (m : Fields) (k : String) (v : Value)
    → key_lt h k ≡ true
    → Above h m
    → Above h (insert m k v)
unfolding insert
insert-Above h end k v p a = p
insert-Above h (field i w m) k v p a = ground arith

pub insert-IsSorted : (m : Fields) (k : String) (v : Value) → IsSorted m → IsSorted (insert m k v)
unfolding insert
insert-IsSorted end k v s = (tt, tt)
insert-IsSorted (field i w m) k v s =
    ground (arith, eq_iff i k, key_lt_total i k, insert-Above i m k v, insert-IsSorted m k v s.1)

Above-trans : (h k : String) (m : Fields) → key_lt h k ≡ true → Above k m → Above h m
Above-trans h k end p a = tt
Above-trans h k (field i w m) p a = key_lt_trans h k i p a

remove-Above : (h k : String) (m : Fields) → Above h m → IsSorted m → Above h (remove m k)
unfolding remove
remove-Above h k end a s = tt
remove-Above h k (field i w m) a s = ground (arith, Above-trans h i m)

pub remove-IsSorted : (m : Fields) (k : String) → IsSorted m → IsSorted (remove m k)
unfolding remove
remove-IsSorted end k s = tt
remove-IsSorted (field i w m) k s = ground (arith, remove-Above i k m, remove-IsSorted m k s.1)

-- Sorted maps with the same lookups are equal.
same_head :
    (j k : String) (v w : Value) (m n : Fields)
    → IsSorted (field j v m)
    → IsSorted (field k w n)
    → get (field j v m) j ≡ get (field k w n) j
    → get (field j v m) k ≡ get (field k w n) k
    → j ≡ k
unfolding get
same_head j k v w m n s t p q =
    key_lt_total j k
      (elim (Bool-cases (key_lt j k)) [
        | inl below ↦ ground (arith, eq_refl j, get-Above j (field k w n))
        | inr above ↦ above
      ])
      (elim (Bool-cases (key_lt k j)) [
        | inl below ↦ ground (arith, eq_refl k, get-Above k (field j v m))
        | inr above ↦ above
      ])

same_tail :
    (j k i : String) (v w : Value) (m n : Fields)
    → j ≡ k
    → IsSorted (field j v m)
    → IsSorted (field k w n)
    → get (field j v m) i ≡ get (field k w n) i
    → get m i ≡ get n i
unfolding get
same_tail j k i v w m n e s t p =
    ground (arith, eq_iff j i, eq_iff k i, get-Above j m, get-Above k n)

same_value :
    (j k : String) (v w : Value) (m n : Fields)
    → j ≡ k
    → get (field j v m) j ≡ get (field k w n) j
    → v ≡ w
unfolding get
same_value j k v w m n e p = ground (arith, eq_refl j, eq_iff k j)

pub eq_of_get :
    (m n : Fields) → IsSorted m → IsSorted n → ((k : String) → get m k ≡ get n k) → m ≡ n
unfolding get
eq_of_get end end s t h = refl
eq_of_get end (field k w n) s t h = ground (arith, eq_refl k, h k)
eq_of_get (field j v m) end s t h = ground (arith, eq_refl j, h j)
eq_of_get (field j v m) (field k w n) s t h =
    let same = same_head j k v w m n s t (h j) (h k) in
    let rest = eq_of_get m n s.1 t.1 (λ i. same_tail j k i v w m n same s t (h i)) in
    cc (same, same_value j k v w m n same (h j), rest)

-- Writing again what was removed, and writing what is there.
pub insert-remove :
    (m : Fields) (k : String) (v : Value) → IsSorted m → insert (remove m k) k v ≡ insert m k v
insert-remove m k v s =
    eq_of_get _ _ (insert-IsSorted _ k v (remove-IsSorted m k s)) (insert-IsSorted m k v s)
      λ j. ground (arith, get-insert (remove m k) k j v, get-insert m k j v, get-remove m k j)

pub insert_same :
    (m : Fields) (k : String) (v : Value) → IsSorted m → get m k ≡ some v → insert m k v ≡ m
insert_same m k v s h =
    eq_of_get _ _ (insert-IsSorted m k v s) s λ j. ground (arith, get-insert m k j v, eq_iff k j)

pub insert_twice :
    (m : Fields) (k : String) (v w : Value) → IsSorted m → insert (insert m k v) k w ≡ insert m k w
insert_twice m k v w s =
    eq_of_get _ _ (insert-IsSorted _ k w (insert-IsSorted m k v s)) (insert-IsSorted m k w s)
      λ j. ground (arith, get-insert (insert m k v) k j w, get-insert m k j v, get-insert m k j w)

-- The values inside stay well formed.
pub get-WellFormed :
    (m : Fields) (k : String) (v : Value) → WellFormedFields m → get m k ≡ some v → WellFormed v
unfolding get WellFormed
get-WellFormed end k v f h = ground arith
get-WellFormed (field j w m) k v f h = elim (Bool-cases (str_eq j k)) [
  | inl e ↦ subst WellFormed (ground arith) f.0
  | inr e ↦ get-WellFormed m k v f.1 (ground arith)
]

pub insert-WellFormed :
    (m : Fields) (k : String) (v : Value)
    → WellFormedFields m
    → WellFormed v
    → WellFormedFields (insert m k v)
unfolding insert WellFormed
insert-WellFormed end k v f h = (h, tt)
insert-WellFormed (field j w m) k v f h = elim (Bool-cases (str_eq j k)) [
  | inl e ↦ rw e (h, f.1)
  | inr e ↦ rw e (elim (Bool-cases (key_lt k j)) [
    | inl l ↦ rw l (h, f)
    | inr l ↦ rw l (f.0, insert-WellFormed m k v f.1 h)
  ])
]

pub remove-WellFormed :
    (m : Fields) (k : String) → WellFormedFields m → WellFormedFields (remove m k)
unfolding remove WellFormed
remove-WellFormed end k f = tt
remove-WellFormed (field j w m) k f = elim (Bool-cases (str_eq j k)) [
  | inl e ↦ rw e f.1
  | inr e ↦ rw e (f.0, remove-WellFormed m k f.1)
]
