-- ===== src/Delta/Apply.antt =====
-- Applying ops: one that carries a value sets it at its path, one that carries none removes.
use sodp.Base.{String, ◌≡◌, ◌≢◌, refl, none, some, List, [], ◌∷◌, ◌++◌, All}
use sodp.Json.{Value, Fields, end, field, null, bool, num, str, arr, obj}
use sodp.Paths.{set_in_recursive, remove_in_recursive, json_set_in, json_remove_in, SetResult}
use sodp.Delta.{DeltaOp, add, update, remove}
use sodp.Delta.Segments.{IsSafeKey, path_of, json_set_in-path_of, json_remove_in-path_of}

abbrev pub set_or_keep : Value → SetResult → Value
set_or_keep v (SetResult.ok w) = w
set_or_keep v (SetResult.err m) = v

abbrev pub apply_op : Value → DeltaOp → Value
apply_op v d = elim d.value [
  | none ↦ json_remove_in v d.path
  | some x ↦ set_or_keep v (json_set_in v d.path x)
]

unfoldable pub apply_ops : Value → List DeltaOp → Value
apply_ops v [] = v
apply_ops v (d ∷ ds) = apply_ops (apply_op v d) ds

pub apply_ops-append :
    (v : Value) (ds es : List DeltaOp) → apply_ops v (ds ++ es) ≡ apply_ops (apply_ops v ds) es
unfolding apply_ops
apply_ops-append v [] es = refl
apply_ops-append v (d ∷ ds) es = apply_ops-append (apply_op v d) ds es

-- Every key of every object that a diff can go into is one that a path can name.
unfoldable mutual
  pub SafeKeys : Value → Type 0
  SafeKeys (obj m) = SafeFields m
  SafeKeys null = Unit
  SafeKeys (bool b) = Unit
  SafeKeys (num n) = Unit
  SafeKeys (str s) = Unit
  SafeKeys (arr xs) = Unit

  pub SafeFields : Fields → Type 0
  SafeFields end = Unit
  SafeFields (field k v m) = IsSafeKey k × SafeKeys v × SafeFields m

-- An op built on a safe path acts on the keys.
module _ (v x : Value) (p : List String) (safe : All IsSafeKey p) where
  pub apply-add : apply_ops v (add (path_of p) x ∷ []) ≡ set_in_recursive v p x
  unfolding apply_ops
  apply-add = rw (json_set_in-path_of v x p safe)

  pub apply-update : apply_ops v (update (path_of p) x ∷ []) ≡ set_in_recursive v p x
  unfolding apply_ops
  apply-update = rw (json_set_in-path_of v x p safe)

pub apply-remove :
    (v : Value) (p : List String)
    → p ≢ []
    → All IsSafeKey p
    → apply_ops v (remove (path_of p) ∷ []) ≡ remove_in_recursive v p
unfolding apply_ops
apply-remove v [] h safe = absurd (h refl)
apply-remove v (k ∷ p) h safe = rw (json_remove_in-path_of v k p safe)
