-- ===== src/Schema/Conforms.antt =====
-- src/schema.rs: which values a schema takes, said of the value first and without the order of
-- the tests.
use sodp.Base.{
  ◌≡◌, ◌↔◌, refl, sym, ap, ap₂, Option-cases, ◌∙◌, subst, String, Bool, true, false, List, [], ◌∷◌,
  arith, Bool-cases, inl, inr, str_eq, eq_iff, if◌then◌else◌, ◌&&◌, none, some,
}
use sodp.Base.Dict
use sodp.Base.Text.{◌⧺◌}
use sodp.Json.{
  Value, Fields, pos_int, neg_int, float, null, bool, num, str, arr, obj, get, unwrap_or_null,
}
use sodp.Schema.{
  SchemaNode, SchemaFields, simple, full, no_fields, field_schema, nullable, Validation, ok, err,
  check_type, and_then, validate_node, validate_fields, SchemaRegistry, validate,
}

-- The names of the types that a value has. A null is tested apart.
types_of : Value → List String
types_of null = "Any" ∷ []
types_of (bool b) = "Any" ∷ "Bool" ∷ []
types_of (num (float x)) = "Any" ∷ "Float" ∷ []
types_of (num (pos_int n)) = "Any" ∷ "Int" ∷ "Float" ∷ []
types_of (num (neg_int n)) = "Any" ∷ "Int" ∷ "Float" ∷ []
types_of (str s) = "Any" ∷ "String" ∷ []
types_of (arr xs) = "Any" ∷ "Array" ∷ []
types_of (obj m) = "Any" ∷ "Object" ∷ []

abbrev is_one_of : String → List String → Bool
is_one_of t [] = false
is_one_of t (name ∷ names) = if str_eq t name then true else is_one_of t names

unfoldable pub has_type : Value → String → Bool
unfolding types_of
has_type v t = is_one_of t (types_of v)

-- Null conforms where the schema is nullable, another value where it has the schema's type and, in
-- an object of type Object, each declared field conforms; a field that is absent counts as null.
unfoldable mutual
  unfolding has_type

  pub conforms : Value → SchemaNode → Bool
  conforms null node = nullable node
  conforms value (simple t) = has_type value t
  conforms (obj m) (full t n declared) =
      let inside = fields_conform m declared in
      has_type (obj m) t && (if str_eq t "Object" then inside else true)
  conforms value (full t n declared) = has_type value t

  pub fields_conform : Fields → SchemaFields → Bool
  fields_conform m no_fields = true
  fields_conform m (field_schema name node rest) =
      let here = conforms (unwrap_or_null (get m name)) node in here && fields_conform m rest

abbrev pub is_ok : Validation → Bool
is_ok ok = true
is_ok (err m) = false

inside_ok : (Fields → Validation) → Value → Bool
inside_ok f (obj m) = is_ok (f m)
inside_ok f _ = true

module _ (path : String) (f : Fields → Validation) (v : Value) where
  -- The verdict of one node, by the name of its type.
  Sound : String → Type 0
  Sound t =
      is_ok (check_type v t path f)
      ≡ (has_type v t && (if str_eq t "Object" then inside_ok f v else true))

  at_any : Sound "Any"
  unfolding has_type types_of Sound inside_ok
  at_any = ground arith

  at_string : Sound "String"
  unfolding has_type types_of Sound inside_ok
  at_string = ground arith

  at_int : Sound "Int"
  unfolding has_type types_of Sound inside_ok
  at_int = ground arith

  at_float : Sound "Float"
  unfolding has_type types_of Sound inside_ok
  at_float = ground arith

  at_bool : Sound "Bool"
  unfolding has_type types_of Sound inside_ok
  at_bool = ground arith

  at_array : Sound "Array"
  unfolding has_type types_of Sound inside_ok
  at_array = ground arith

  at_object : Sound "Object"
  unfolding has_type types_of Sound inside_ok
  at_object = ground arith

  module _ (t : String) where
    at_unknown :
        str_eq t "Any" ≡ false
        → str_eq t "String" ≡ false
        → str_eq t "Int" ≡ false
        → str_eq t "Float" ≡ false
        → str_eq t "Bool" ≡ false
        → str_eq t "Array" ≡ false
        → str_eq t "Object" ≡ false
        → Sound t
    unfolding has_type types_of Sound inside_ok
    at_unknown h0 h1 h2 h3 h4 h5 h6 = ground arith

    named : (name : String) → Sound name → str_eq t name ≡ true → Sound t
    named name at_name e = subst Sound (sym ((eq_iff t name).0 e)) at_name

    is_ok-check_type : Sound t
    is_ok-check_type = elim (Bool-cases (str_eq t "Any")) [
      | inl e ↦ named "Any" at_any e
      | inr h0 ↦ elim (Bool-cases (str_eq t "String")) [
        | inl e ↦ named "String" at_string e
        | inr h1 ↦ elim (Bool-cases (str_eq t "Int")) [
          | inl e ↦ named "Int" at_int e
          | inr h2 ↦ elim (Bool-cases (str_eq t "Float")) [
            | inl e ↦ named "Float" at_float e
            | inr h3 ↦ elim (Bool-cases (str_eq t "Bool")) [
              | inl e ↦ named "Bool" at_bool e
              | inr h4 ↦ elim (Bool-cases (str_eq t "Array")) [
                | inl e ↦ named "Array" at_array e
                | inr h5 ↦ elim (Bool-cases (str_eq t "Object")) [
                  | inl e ↦ named "Object" at_object e
                  | inr h6 ↦ at_unknown h0 h1 h2 h3 h4 h5 h6
                ]
              ]
            ]
          ]
        ]
      ]
    ]

is_ok-and_then : (a b : Validation) → is_ok (and_then a b) ≡ (is_ok a && is_ok b)
is_ok-and_then ok b = refl
is_ok-and_then (err m) b = refl

both : {a b c d : Bool} → a ≡ b → c ≡ d → (a && c) ≡ (b && d)
both p q = ap₂ (λ x y. x && y) p q

and_true : (a b : Bool) → (a && (if b then true else true)) ≡ a
and_true a b = ground arith

mutual
  unfolding validate_node validate_fields conforms inside_ok Sound

  validate_node-conforms :
      (value : Value) (node : SchemaNode) (path : String)
      → is_ok (validate_node value node path) ≡ conforms value node
  validate_node-conforms null node path = ground arith
  validate_node-conforms (bool b) (simple t) path =
      is_ok-check_type path (λ m. ok) (bool b) t ∙ and_true _ _
  validate_node-conforms (num n) (simple t) path =
      is_ok-check_type path (λ m. ok) (num n) t ∙ and_true _ _
  validate_node-conforms (str s) (simple t) path =
      is_ok-check_type path (λ m. ok) (str s) t ∙ and_true _ _
  validate_node-conforms (arr xs) (simple t) path =
      is_ok-check_type path (λ m. ok) (arr xs) t ∙ and_true _ _
  validate_node-conforms (obj m) (simple t) path =
      is_ok-check_type path (λ m. ok) (obj m) t ∙ and_true _ _
  validate_node-conforms (bool b) (full t n declared) path =
      is_ok-check_type path (λ m. validate_fields m declared path) (bool b) t ∙ and_true _ _
  validate_node-conforms (num b) (full t n declared) path =
      is_ok-check_type path (λ m. validate_fields m declared path) (num b) t ∙ and_true _ _
  validate_node-conforms (str b) (full t n declared) path =
      is_ok-check_type path (λ m. validate_fields m declared path) (str b) t ∙ and_true _ _
  validate_node-conforms (arr b) (full t n declared) path =
      is_ok-check_type path (λ m. validate_fields m declared path) (arr b) t ∙ and_true _ _
  validate_node-conforms (obj m) (full t n declared) path =
      is_ok-check_type path (λ m'. validate_fields m' declared path) (obj m) t
      ∙ ap (λ b. has_type (obj m) t && (if str_eq t "Object" then b else true))
          (validate_fields-conform m declared path)

  validate_fields-conform :
      (m : Fields) (declared : SchemaFields) (path : String)
      → is_ok (validate_fields m declared path) ≡ fields_conform m declared
  validate_fields-conform m no_fields path = refl
  validate_fields-conform m (field_schema name node rest) path =
      let value = unwrap_or_null (get m name) in
      is_ok-and_then (validate_node value node (path ⧺ ("." ⧺ name))) (validate_fields m rest path)
      ∙ both (validate_node-conforms value node (path ⧺ ("." ⧺ name)))
          (validate_fields-conform m rest path)

is_ok_iff : (v : Validation) → (v ≡ ok) ↔ (is_ok v ≡ true)
is_ok_iff ok = (λ e. refl, λ e. refl)
is_ok_iff (err m) = ground arith

-- A write passes the schema exactly when the key has no schema or the value conforms to it.
pub validate_iff :
    (registry : SchemaRegistry) (key : String) (value : Value)
    → (validate registry key value ≡ ok) ↔ (
        (elim (Dict.get registry.states key) [ none ↦ true | some node ↦ conforms value node ])
        ≡ true)
unfolding validate
validate_iff registry key value = elim (Option-cases (Dict.get registry.states key)) [
  | inl e ↦ rw (e, validate) (is_ok_iff ok)
  | inr (node, e) ↦
      rw (e, validate)
        (rw (sym (validate_node-conforms value node key))
          (is_ok_iff (validate_node value node key)))
]
