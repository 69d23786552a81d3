-- ===== src/Delta/FieldOps.antt =====
-- The ops for the fields of one map, applied where the map stands in a value.
use sodp.Base.{
  String, ◌≡◌, refl, ◌⊎◌, ap, subst, sym, ◌∙◌, inl, inr, Bool, true, false, Option, none, some,
  List, [], ◌∷◌, ◌++◌, arith, All, All-append, str_eq, eq_iff, eq_refl, Bool-cases, ◌&&◌,
}
use sodp.Json.{
  Value, Fields, Items, end, field, null, bool, num, str, arr, obj, get, insert, IsSorted,
  WellFormed, WellFormedFields, Value-discrete, is_object, contains_key, Above,
}
use sodp.Json
use sodp.Json.Map.{get-Above, get-insert, remove-IsSorted, insert_same, remove-WellFormed}
use sodp.Paths.{set_in_recursive}
use sodp.Paths.Laws.{set_in-WellFormed, set_in_twice, set_in_below, remove_in_below, snoc-ne-nil}
use sodp.Delta.{
  DeltaOp, add, update, remove, value_ne, join_path, removed_keys, replaced, field_ops,
}
use sodp.Delta.Segments.{IsSafeKey, path_of, join_path-path_of}
use sodp.Delta.Apply.{
  apply_ops, apply_ops-append, apply-add, apply-update, apply-remove, SafeKeys, SafeFields,
}
use sodp.Delta.Overlay.{prune}

test_cases :
    {a b : Value} (d : Dec (a ≡ b))
    → let ne : Bool = elim d [ yes e ↦ false | no n ↦ true ] in
      (ne ≡ true) ⊎ ((ne ≡ false) × (a ≡ b))
test_cases (yes e) = inr (refl, e)
test_cases (no n) = inl refl

value_ne-cases : (a b : Value) → (value_ne a b ≡ true) ⊎ ((value_ne a b ≡ false) × (a ≡ b))
value_ne-cases a b = test_cases (Value-discrete a b)

-- The value `r` with the map `m` at the keys `p`.
unfoldable pub at : Value → List String → Fields → Value
at r p m = set_in_recursive r p (obj m)

pub at-WellFormed :
    (r : Value) (p : List String) (m : Fields)
    → WellFormed r
    → WellFormed (obj m)
    → WellFormed (at r p m)
unfolding at
at-WellFormed r p m wr wm = set_in-WellFormed r (obj m) p wr wm

-- The op for one field `k` of that map.
module _ (r : Value) (p : List String) (m : Fields) (k : String) (wr : WellFormed r)
    (wm : WellFormed (obj m)) (safe : All IsSafeKey p) (s : IsSafeKey k) where
  safe-snoc : All IsSafeKey (p ++ k ∷ [])
  safe-snoc = All-append IsSafeKey p (k ∷ []) safe (s, tt)

  field-add :
      (v : Value)
      → apply_ops (at r p m) (add (join_path (path_of p) k) v ∷ []) ≡ at r p (insert m k v)
  unfolding at
  field-add v =
      rw (join_path-path_of p k safe, apply-add (at r p m) v (p ++ k ∷ []) safe-snoc)
        (set_in_below r v m p k wr wm)

  field-update :
      (v : Value)
      → apply_ops (at r p m) (update (join_path (path_of p) k) v ∷ []) ≡ at r p (insert m k v)
  unfolding at
  field-update v =
      rw (join_path-path_of p k safe, apply-update (at r p m) v (p ++ k ∷ []) safe-snoc)
        (set_in_below r v m p k wr wm)

  field-remove :
      apply_ops (at r p m) (remove (join_path (path_of p) k) ∷ []) ≡ at r p (Json.remove m k)
  unfolding at
  field-remove =
      rw
        (
          join_path-path_of p k safe,
          apply-remove (at r p m) (p ++ k ∷ []) (snoc-ne-nil p k) safe-snoc,
        )
        (remove_in_below r m p k wr wm)

  -- `nested` turns the old value of the field into the new one, where it stands.
  pub field_ops-apply :
      (nested : Value → List DeltaOp) (old : Option Value) (v : Value)
      → get m k ≡ old
      → ((w : Value)
          → old ≡ some w
          → apply_ops (set_in_recursive (at r p m) (p ++ k ∷ []) w) (nested w)
            ≡ set_in_recursive (at r p m) (p ++ k ∷ []) v)
      → apply_ops (at r p m) (field_ops nested (join_path (path_of p) k) old v)
        ≡ at r p (insert m k v)
  unfolding apply_ops at WellFormed
  field_ops-apply nested none v e ih = field-add v
  field_ops-apply nested (some w) v e ih =
      let stay = insert_same m k w wm.0 e in
      elim (value_ne-cases w v) [
        | inr (same, q) ↦ rw (same, ← q, stay)
        | inl differ ↦ rw differ (elim (Bool-cases (is_object w && is_object v)) [
          | inr flat ↦ rw flat (field-update v)
          | inl both ↦ rw both (
              ap (λ z. apply_ops z (nested w))
                (sym (set_in_below r w m p k wr wm ∙ ap (at r p) stay))
              ∙ (ih w refl ∙ set_in_below r v m p k wr wm))
        ])
      ]

pub removed_keys-apply :
    (r : Value) (p : List String) (n o m : Fields)
    → WellFormed r
    → WellFormed (obj m)
    → All IsSafeKey p
    → SafeFields o
    → apply_ops (at r p m) (removed_keys (path_of p) n o) ≡ at r p (prune n o m)
unfolding apply_ops removed_keys prune SafeKeys WellFormed
removed_keys-apply r p n end m wr wm safe so = refl
removed_keys-apply r p n (field k v o) m wr wm safe so = elim (Bool-cases (contains_key n k)) [
  | inl e ↦ rw e (removed_keys-apply r p n o m wr wm safe so.2)
  | inr e ↦ rw e (
      rw
        (
          apply_ops-append (at r p m) (remove (join_path (path_of p) k) ∷ [])
              (removed_keys (path_of p) n o),
          field-remove r p m k wr wm safe so.0,
        )
        (removed_keys-apply r p n o (Json.remove m k) wr
          (remove-IsSorted m k wm.0, remove-WellFormed m k wm.1) safe so.2))
]

-- A value that is replaced whole.
pub replaced-apply :
    (r ov nv : Value) (p : List String)
    → WellFormed r
    → WellFormed ov
    → All IsSafeKey p
    → apply_ops (set_in_recursive r p ov) (replaced (path_of p) ov nv) ≡ set_in_recursive r p nv
unfolding apply_ops
replaced-apply r ov nv p wr wo safe = elim (value_ne-cases ov nv) [
  | inl differ ↦
      rw differ (apply-update (set_in_recursive r p ov) nv p safe ∙ set_in_twice r ov nv p wr wo)
  | inr (same, q) ↦ rw (same, q)
]

-- The fields of `n` that are still to come have their old values in `m`.
abbrev pub Untouched : Fields → Fields → Fields → Type 0
Untouched n o m = (j : String) → contains_key n j ≡ true → get m j ≡ get o j

pub Untouched-insert :
    (k : String) (v : Value) (n o m : Fields)
    → IsSorted (field k v n)
    → Untouched (field k v n) o m
    → Untouched n o (insert m k v)
unfolding get
Untouched-insert k v n o m s h j e =
    ground (arith, get-insert m k j v, get-Above k n, eq_iff k j, h j)

pub contains_key_head : (k : String) (v : Value) (n : Fields) → contains_key (field k v n) k ≡ true
unfolding get
contains_key_head k v n = ground (arith, eq_refl k)

pub get-SafeKeys :
    (m : Fields) (k : String) (v : Value) → SafeFields m → get m k ≡ some v → SafeKeys v
unfolding get SafeKeys
get-SafeKeys end k v f h = ground arith
get-SafeKeys (field j w m) k v f h = elim (Bool-cases (str_eq j k)) [
  | inl e ↦ subst SafeKeys (ground arith) f.1
  | inr e ↦ get-SafeKeys m k v f.2 (ground arith)
]
