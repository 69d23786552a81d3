-- ===== src/Frame/Wire.antt =====
-- The wire bytes of a DELTA, read back by the MessagePack rules for unsigned integers.
use sodp.Base.{
  ℕ, zero, suc, ◌+◌, ◌*◌, ◌<◌, ◌^◌, ◌≡◌, ◌++◌, Option, none, some, [], ◌∷◌, arith, ltb, ◌==◌,
  if◌then◌else◌,
}
use sodp.Frame.{Bytes, write_uint, delta_bytes, delta_type}

-- `n` bytes, the highest first, after the number read so far.
read_be : ℕ → ℕ → Bytes → Option (ℕ × Bytes)
read_be zero acc rest = some (acc, rest)
read_be (suc n) acc [] = none
read_be (suc n) acc (b ∷ rest) = read_be n (acc * 256 + b) rest

-- The formats positive fixint, uint 8, uint 16, uint 32 and uint 64.
unfoldable pub read_uint : Bytes → Option (ℕ × Bytes)
unfolding read_be
read_uint [] = none
read_uint (tag ∷ rest) =
    if ltb tag 0x80
    then some (tag, rest)
    else if tag == 0xcc
    then read_be 1 0 rest
    else if tag == 0xcd
    then read_be 2 0 rest
    else if tag == 0xce
    then read_be 4 0 rest
    else if tag == 0xcf
    then read_be 8 0 rest
    else none

read_uint-write_uint :
    (v : ℕ) (rest : Bytes) → v < 2 ^ 64 → read_uint (write_uint v ++ rest) ≡ some (v, rest)
unfolding read_uint write_uint
read_uint-write_uint v rest h = ground arith

-- The four parts of a frame's array, the body left encoded.
unfoldable pub read_frame : Bytes → Option (ℕ × ℕ × ℕ × Bytes)
read_frame (array ∷ frame_type ∷ rest) =
    if array == 0x94
    then elim (read_uint rest) [
      | none ↦ none
      | some (stream_id, rest') ↦ elim (read_uint rest') [
        | none ↦ none
        | some (seq, body) ↦ some (frame_type, stream_id, seq, body)
      ]
    ]
    else none
read_frame _ = none

-- The bytes of a DELTA read back as an array of four: the type code of DELTA, the stream's id and
-- the sequence number that were given, and then exactly the bytes of the encoded body, for an id
-- of 32 bits and a number of 64 bits.
pub read_frame-delta_bytes :
    (stream_id seq : ℕ) (body_mp : Bytes)
    → stream_id < 2 ^ 32
    → seq < 2 ^ 64
    → read_frame (delta_bytes stream_id seq body_mp) ≡ some (delta_type, stream_id, seq, body_mp)
unfolding read_frame delta_bytes
read_frame-delta_bytes stream_id seq body_mp h k =
    rw (read_uint-write_uint stream_id (write_uint seq ++ body_mp) (omega arith), read_frame)
      (rw (read_uint-write_uint seq body_mp k, read_frame))
