-- ===== src/Delta.antt =====
-- src/delta.rs: the structural diff of two JSON values.
pub mod Segments
pub mod Apply
pub mod Overlay
pub mod FieldOps
pub mod RoundTrip
use sodp.Base.{
  String, Bool, true, false, Option, none, some, List, [], ◌∷◌, ◌++◌, str_eq, if◌then◌else◌, ◌&&◌,
}
use sodp.Base.Text.{◌⧺◌}
use sodp.Json.{
  Value, Fields, end, field, null, bool, num, str, arr, obj, get, is_object, contains_key,
  Value-discrete,
}

pub data DeltaOpKind : Type 0 where
  add_op update_op remove_op : DeltaOpKind

pub record DeltaOp : Type 0 where
  pub op : DeltaOpKind
  pub path : String
  pub value : Option Value

-- `DeltaOp::add`, `DeltaOp::update`, `DeltaOp::remove`
abbrev pub add : String → Value → DeltaOp
add path value = record { op = add_op; path = path; value = some value }

abbrev pub update : String → Value → DeltaOp
update path value = record { op = update_op; path = path; value = some value }

abbrev pub remove : String → DeltaOp
remove path = record { op = remove_op; path = path; value = none }

-- `old != new`
abbrev pub value_ne : Value → Value → Bool
value_ne a b = elim (Value-discrete a b) [ yes e ↦ false | no n ↦ true ]

abbrev pub join_path : String → String → String
join_path base key = if str_eq base "/" then "/" ⧺ key else base ⧺ ("/" ⧺ key)

-- The second loop of `diff_at`: the keys that the new map lacks.
unfoldable pub removed_keys : String → Fields → Fields → List DeltaOp
removed_keys path new_map end = []
removed_keys path new_map (field key v rest) =
    (if contains_key new_map key then [] else remove (join_path path key) ∷ [])
    ++ removed_keys path new_map rest

abbrev pub replaced : String → Value → Value → List DeltaOp
replaced path old new = if value_ne old new then update path new ∷ [] else []

-- The ops for one field of the new map; `nested` is the recursive call on its old value.
abbrev pub field_ops : (Value → List DeltaOp) → String → Option Value → Value → List DeltaOp
field_ops nested child none new_val = add child new_val ∷ []
field_ops nested child (some old_val) new_val =
    if value_ne old_val new_val
    then (if is_object old_val && is_object new_val
        then nested old_val
        else update child new_val ∷ [])
    else []

-- The ops that `diff_at` pushes, in order; `diff_fields` is its first loop.
unfoldable mutual
  pub diff_at : String → Value → Value → List DeltaOp
  diff_at path old null = replaced path old null
  diff_at path old (bool b) = replaced path old (bool b)
  diff_at path old (num n) = replaced path old (num n)
  diff_at path old (str s) = replaced path old (str s)
  diff_at path old (arr xs) = replaced path old (arr xs)
  diff_at path (obj old_map) (obj new_map) =
      diff_fields path old_map new_map ++ removed_keys path new_map old_map
  diff_at path old (obj new_map) = replaced path old (obj new_map)

  pub diff_fields : String → Fields → Fields → List DeltaOp
  diff_fields path old_map end = []
  diff_fields path old_map (field key new_val rest) =
      let child = join_path path key in
      field_ops (λ old_val. diff_at child old_val new_val) child (get old_map key) new_val
      ++ diff_fields path old_map rest

unfoldable pub diff : Value → Value → List DeltaOp
diff old new = diff_at "/" old new
