-- ===== src/Packed.antt =====
-- src/delta.rs and src/log.rs: what the derived `Serialize` and `Deserialize` of `DeltaOp` give with
-- `rmp_serde::to_vec` and `rmp_serde::from_slice`, for which a struct is an array of its fields.
use sodp.Base.{
  ◌≡◌, ◌⊎◌, refl, ap, String, Option, none, some, List, [], ◌∷◌, All, map, Option-cases, inl, inr,
}
use sodp.Json.{Value, null}
use sodp.Delta.{DeltaOpKind, DeltaOp}

-- An element of the array of an op.
pub data Item : Type 0 where
  kind : DeltaOpKind → Item
  text : String → Item
  json : Value → Item

-- `skip_serializing_if = "Option::is_none"`: without a value the array has two elements.
unfoldable pub serialize_op : DeltaOp → List Item
serialize_op d = kind d.op ∷ text d.path ∷ elim d.value [ none ↦ [] | some v ↦ json v ∷ [] ]

-- An `Option<Value>` is written as its value, and null is read as `None`.
unfoldable pub deserialize_option : Value → Option Value
deserialize_option null = none
deserialize_option v = some v

-- A struct is read from an array with all its fields: no field has a serde default.
unfoldable pub deserialize_op : List Item → Option DeltaOp
deserialize_op (kind k ∷ text path ∷ json v ∷ []) =
    some (record { op = k; path = path; value = deserialize_option v })
deserialize_op _ = none

unfoldable pub deserialize_ops : List (List Item) → Option (List DeltaOp)
deserialize_ops [] = some []
deserialize_ops (items ∷ rest) = elim (deserialize_op items) [
  | none ↦ none
  | some d ↦ elim (deserialize_ops rest) [ none ↦ none | some ds ↦ some (d ∷ ds) ]
]

-- An op with a value that is not null.
unfoldable pub IsPlainOp : DeltaOp → Type 0
IsPlainOp d = (v : Value) × (d.value ≡ some v) × (deserialize_option v ≡ some v)

deserialize_op-serialize : (d : DeltaOp) → IsPlainOp d → deserialize_op (serialize_op d) ≡ some d
unfolding deserialize_op serialize_op IsPlainOp
deserialize_op-serialize d (v, has, plain) =
    rw has (ap (λ o. some (record { op = d.op; path = d.path; value = o })) plain)

pub deserialize_ops-serialize :
    (ops : List DeltaOp) → All IsPlainOp ops → deserialize_ops (map serialize_op ops) ≡ some ops
unfolding deserialize_ops
deserialize_ops-serialize [] h = refl
deserialize_ops-serialize (d ∷ ds) h =
    rw (deserialize_op-serialize d h.0, deserialize_ops)
      (rw (deserialize_ops-serialize ds h.1) refl)

-- One of the ops has no value, as `DeltaOp::remove` makes it.
unfoldable pub HasRemoval : List DeltaOp → Type 0
HasRemoval [] = ⊥
HasRemoval (d ∷ ds) = (d.value ≡ none) ⊎ HasRemoval ds

pub deserialize_ops-removal :
    (ops : List DeltaOp) → HasRemoval ops → deserialize_ops (map serialize_op ops) ≡ none
unfolding deserialize_ops deserialize_op serialize_op HasRemoval
deserialize_ops-removal [] h = absurd h
deserialize_ops-removal (d ∷ ds) (inl e) = rw (e, deserialize_ops) refl
deserialize_ops-removal (d ∷ ds) (inr later) =
    elim (Option-cases (deserialize_op (serialize_op d))) [
      | inl fails ↦ rw (fails, deserialize_ops) refl
      | inr (op, reads) ↦ rw (reads, deserialize_ops) (rw (deserialize_ops-removal ds later) refl)
    ]
