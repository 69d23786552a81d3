-- ===== src/Schema.antt =====
-- src/schema.rs: validation of a value against the schema of its key.
pub mod Conforms
use sodp.Base.{
  String, Bool, true, false, Option, none, some, List, [], ◌∷◌, str_eq, if◌then◌else◌, ◌||◌,
}
use sodp.Base.Text.{◌⧺◌}
use sodp.Base.Dict
use sodp.Base.Dict.{Dict}
use sodp.Json.{
  Value, Number, pos_int, neg_int, float, null, bool, num, str, arr, obj, get, unwrap_or_null,
}
use sodp.Json

mutual
  pub data SchemaNode : Type 0 where
    simple : String → SchemaNode
    full : String → Bool → SchemaFields → SchemaNode

  pub data SchemaFields : Type 0 where
    no_fields : SchemaFields
    field_schema : String → SchemaNode → SchemaFields → SchemaFields

abbrev pub type_name : SchemaNode → String
type_name (simple t) = t
type_name (full t _ _) = t

abbrev pub nullable : SchemaNode → Bool
nullable (simple t) = false
nullable (full _ n _) = n

pub data Validation : Type 0 where
  ok : Validation
  err : String → Validation

unfoldable pub kind : Value → String
kind null = "null"
kind (bool b) = "Bool"
kind (num (float x)) = "Float"
kind (num (pos_int n)) = "Int"
kind (num (neg_int n)) = "Int"
kind (str s) = "String"
kind (arr xs) = "Array"
kind (obj m) = "Object"

abbrev pub is_string : Value → Bool
is_string (str s) = true
is_string _ = false

-- `is_i64() || is_u64()`
abbrev pub is_int : Value → Bool
is_int (num (pos_int n)) = true
is_int (num (neg_int n)) = true
is_int _ = false

abbrev pub is_number : Value → Bool
is_number (num n) = true
is_number _ = false

abbrev pub is_boolean : Value → Bool
is_boolean (bool b) = true
is_boolean _ = false

abbrev pub is_array : Value → Bool
is_array (arr xs) = true
is_array _ = false

abbrev expected : String → String → Value → Validation
expected path type_text value = err (path ⧺ (": expected " ⧺ (type_text ⧺ (", got " ⧺ kind value))))

abbrev require : Bool → String → String → Value → Validation
require holds path type_text value = if holds then ok else expected path type_text value

abbrev check_null : String → Bool → Validation
check_null path can_be_null =
    if can_be_null then ok else err (path ⧺ ": unexpected null (field is not nullable)")

-- The types other than `Object`, of a value that is not null.
abbrev check_plain : Value → String → String → Validation
check_plain value t path =
    if str_eq t "Any"
    then ok
    else if str_eq t "String"
    then require (is_string value) path "String" value
    else if str_eq t "Int"
    then require (is_int value) path "Int" value
    else if str_eq t "Float"
    then require (is_number value) path "Float" value
    else if str_eq t "Bool"
    then require (is_boolean value) path "Bool" value
    else if str_eq t "Array"
    then require (is_array value) path "Array" value
    else err (path ⧺ (": unknown schema type '" ⧺ (t ⧺ "'")))

-- `in_object` validates the declared fields of an object.
abbrev check_type : Value → String → String → (Json.Fields → Validation) → Validation
check_type value t path in_object =
    if str_eq t "Object"
    then elim value [ obj m ↦ in_object m | other ↦ expected path "Object" other ]
    else check_plain value t path

abbrev pub and_then : Validation → Validation → Validation
and_then ok next = next
and_then (err m) next = err m

unfoldable mutual
  pub validate_node : Value → SchemaNode → String → Validation
  validate_node null node path = check_null path (nullable node)
  validate_node value (simple t) path = check_type value t path (λ m. ok)
  validate_node value (full t n declared) path =
      check_type value t path (λ m. validate_fields m declared path)

  pub validate_fields : Json.Fields → SchemaFields → String → Validation
  validate_fields m no_fields path = ok
  validate_fields m (field_schema name node rest) path =
      and_then (validate_node (unwrap_or_null (get m name)) node (path ⧺ ("." ⧺ name)))
        (validate_fields m rest path)

pub record SchemaRegistry : Type 0 where
  pub states : Dict SchemaNode

-- A key without a schema takes any value.
unfoldable pub validate : SchemaRegistry → String → Value → Validation
validate registry key value = elim (Dict.get registry.states key) [
  | none ↦ ok
  | some node ↦ validate_node value node key
]
