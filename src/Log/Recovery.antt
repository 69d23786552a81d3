-- ===== src/Log/Recovery.antt =====
-- What a segment file gives back: whole records, and a cut at the first one that is not whole.
use sodp.Base.{
  ℕ, zero, suc, ◌+◌, ◌-◌, ◌/◌, ◌%◌, inl, inr, ◌⊎◌, map, All, ◌≤◌, ◌<◌, ◌^◌, ◌≡◌, refl, ap, sym,
  false, some, List, [], ◌∷◌, ◌++◌, arith, length, take, drop, length-append, append_assoc,
  append-nil, ltb, lt→ltb, length-take,
}
use sodp.Frame.{Bytes}
use sodp.Packed.{IsPlainOp, deserialize_ops-serialize}
use sodp.Log.{
  to_vec, from_slice, serialize, deserialize, LogEntry, Codec, entry, end_of_file, bad_record,
  to_le_bytes, from_le_bytes, read_entry, replay_loop, replay_segment,
}

module _ {ℓ} {A : Type ℓ} where
  pub take-append : (xs ys : List A) → take (length xs) (xs ++ ys) ≡ xs
  take-append [] ys = refl
  take-append (x ∷ xs) ys = ap (λ l. x ∷ l) (take-append xs ys)

  pub drop-append : (xs ys : List A) → drop (length xs) (xs ++ ys) ≡ ys
  drop-append [] ys = refl
  drop-append (x ∷ xs) ys = drop-append xs ys

pub from-to_le_bytes :
    (n : ℕ)
    → n < 2 ^ 32
    → from_le_bytes (n % 256) ((n / 2 ^ 8) % 256) ((n / 2 ^ 16) % 256) ((n / 2 ^ 24) % 256) ≡ n
from-to_le_bytes n h = omega arith

pub not_short : (a b : ℕ) → ltb (a + b) a ≡ false
not_short a b = ground arith

loop_length :
    (b bs tail : Bytes)
    → (length ((b ++ bs) ++ tail) - length (bs ++ tail)) + length bs ≡ length (b ++ bs)
loop_length b bs tail =
    omega (arith, length-append (b ++ bs) tail, length-append bs tail, length-append b bs)

module _ (codec : Codec) where
  -- The entry has an encoding, decodes from it, and the encoding is shorter than 4 GiB.
  pub record Encodes (e : LogEntry) (payload : Bytes) : Type 0 where
    pub encodes : to_vec codec e ≡ some payload
    pub decodes : from_slice codec payload ≡ some e
    pub fits : length payload < 2 ^ 32

  -- What is asked of `rmp_serde`: it writes the arrays of an entry in fewer than 4 GiB, and reads
  -- what it wrote.
  pub record Writes (e : LogEntry) (payload : Bytes) : Type 0 where
    pub written : codec.write (serialize e) ≡ some payload
    pub read_back : codec.read payload ≡ some (serialize e)
    pub fits : length payload < 2 ^ 32

  -- Each op of the entry has a value, and not null.
  abbrev pub IsPlain : LogEntry → Type 0
  IsPlain e = All IsPlainOp e.ops

  -- An entry without a REMOVE op decodes.
  pub Writes-Encodes :
      (e : LogEntry) (payload : Bytes) → IsPlain e → Writes e payload → Encodes e payload
  unfolding to_vec from_slice serialize deserialize
  Writes-Encodes e payload plain w = record {
    encodes = w.written;
    decodes =
        rw (w.read_back, from_slice) (rw (deserialize_ops-serialize e.ops plain, deserialize) refl);
    fits = w.fits;
  }

  abbrev pub record_of : Bytes → Bytes
  record_of payload = to_le_bytes (length payload) ++ payload

  -- A record that `write_entry` wrote is read back, with what follows it left.
  read_entry-record :
      (e : LogEntry) (payload rest : Bytes)
      → Encodes e payload
      → read_entry codec (record_of payload ++ rest) ≡ entry e rest
  unfolding read_entry
  read_entry-record e payload rest h =
      rw
        (
          from-to_le_bytes (length payload) h.fits,
          length-append payload rest,
          take-append payload rest,
          drop-append payload rest,
          h.decodes,
        )
        (rw (not_short (length payload) (length rest)))

  -- A record that was cut off is no entry.
  pub read_entry-torn :
      (n : ℕ) (payload : Bytes)
      → length payload < 2 ^ 32
      → n < length (record_of payload)
      → (read_entry codec (take n (record_of payload)) ≡ end_of_file)
        ⊎ (read_entry codec (take n (record_of payload)) ≡ bad_record)
  unfolding read_entry
  read_entry-torn zero payload h k = inl refl
  read_entry-torn (suc zero) payload h k = inl refl
  read_entry-torn (suc (suc zero)) payload h k = inl refl
  read_entry-torn (suc (suc (suc zero))) payload h k = inl refl
  read_entry-torn (suc (suc (suc (suc n)))) payload h k = inr (
      rw (from-to_le_bytes (length payload) h) (
        rw (
          lt→ltb (length (take n payload)) (length payload)
            (omega (arith, length-take n payload)))))

  -- The entries of a file, each with its encoding, and the bytes of the file.
  abbrev pub records : List (LogEntry × Bytes) → Bytes
  records [] = []
  records ((e, payload) ∷ es) = record_of payload ++ records es

  abbrev pub Encoded : List (LogEntry × Bytes) → Type 0
  Encoded es = All (λ r. Encodes r.0 r.1) es

  abbrev pub entries : List (LogEntry × Bytes) → List LogEntry
  entries = map (λ r. r.0)

  -- The loop stops at the first bytes that are no entry, and has counted what it read.
  replay_loop-records :
      (fuel : ℕ) (es : List (LogEntry × Bytes)) (tail : Bytes)
      → length es ≤ fuel
      → Encoded es
      → (read_entry codec tail ≡ end_of_file) ⊎ (read_entry codec tail ≡ bad_record)
      → replay_loop codec fuel (records es ++ tail) ≡ (entries es, length (records es))
  unfolding replay_loop
  replay_loop-records zero [] tail f h t = refl
  replay_loop-records zero (r ∷ es) tail f h t = absurd (omega arith)
  replay_loop-records (suc fuel) [] tail f h (inl t) = rw (t, replay_loop)
  replay_loop-records (suc fuel) [] tail f h (inr t) = rw (t, replay_loop)
  replay_loop-records (suc fuel) ((e, payload) ∷ es) tail f h t =
      let rest = records es ++ tail in
      rw
        (
          append_assoc (record_of payload) (records es) tail,
          read_entry-record e payload rest h.0,
          replay_loop,
        )
        (rw (replay_loop-records fuel es tail (omega arith) h.1 t)
          (ap (λ n. (e ∷ entries es, n)) (loop_length (record_of payload) (records es) tail)))

  length-records : (es : List (LogEntry × Bytes)) → length es ≤ length (records es)
  length-records [] = omega arith
  length-records ((e, payload) ∷ es) =
      omega (arith, length-append payload (records es), length-records es)

  pub replay_segment-records :
      (es : List (LogEntry × Bytes)) (tail : Bytes)
      → Encoded es
      → (read_entry codec tail ≡ end_of_file) ⊎ (read_entry codec tail ≡ bad_record)
      → replay_segment codec (records es ++ tail) ≡ (entries es, records es)
  unfolding replay_segment
  replay_segment-records es tail h t =
      rw
        (replay_loop-records (length (records es ++ tail)) es tail
          (omega (arith, length-records es, length-append (records es) tail)) h t)
        (ap (λ b. (entries es, b)) (take-append (records es) tail))

  -- Crash recovery: of a file that ends in the first `n` bytes of a record, `n` fewer than the
  -- record has, the replay returns exactly the entries whose records are whole, and cuts the file
  -- to those records. It relies on each entry decoding from its encoding.
  pub replay_segment-torn :
      (es : List (LogEntry × Bytes)) (payload : Bytes) (n : ℕ)
      → Encoded es
      → length payload < 2 ^ 32
      → n < length (record_of payload)
      → replay_segment codec (records es ++ take n (record_of payload)) ≡ (entries es, records es)
  replay_segment-torn es payload n h k l =
      replay_segment-records es (take n (record_of payload)) h (read_entry-torn n payload k l)

  pub replay_segment_whole :
      (es : List (LogEntry × Bytes))
      → Encoded es
      → replay_segment codec (records es) ≡ (entries es, records es)
  replay_segment_whole es h =
      rw append-nil at (replay_segment-records es [] h (inl (unfold read_entry in refl)))

  pub records-append :
      (es fs : List (LogEntry × Bytes)) → records (es ++ fs) ≡ records es ++ records fs
  records-append [] fs = refl
  records-append ((e, payload) ∷ es) fs =
      rw (records-append es fs) (sym (append_assoc (record_of payload) (records es) (records fs)))

  pub entries-append :
      (es fs : List (LogEntry × Bytes)) → entries (es ++ fs) ≡ entries es ++ entries fs
  entries-append [] fs = refl
  entries-append (r ∷ es) fs = ap (λ l. r.0 ∷ l) (entries-append es fs)
