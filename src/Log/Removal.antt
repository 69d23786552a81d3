-- ===== src/Log/Removal.antt =====
-- What the replay makes of an entry with a REMOVE op.
use sodp.Base.{inr, ◌≡◌, refl, none, List, ◌++◌, length, length-append}
use sodp.Frame.{Bytes}
use sodp.Packed.{HasRemoval, deserialize_ops-removal}
use sodp.Log.{
  from_slice, serialize, deserialize, LogEntry, Codec, bad_record, read_entry, replay_segment,
}
use sodp.Log.Recovery.{
  Writes, Encoded, record_of, records, entries, from-to_le_bytes, not_short, take-append,
  drop-append, replay_segment-records,
}

module _ (codec : Codec) where
  -- The bytes of an entry with a REMOVE op do not decode.
  from_slice-removal :
      (e : LogEntry) (payload : Bytes)
      → HasRemoval e.ops
      → Writes codec e payload
      → from_slice codec payload ≡ none
  unfolding from_slice serialize deserialize
  from_slice-removal e payload h w =
      rw (w.read_back, from_slice) (rw (deserialize_ops-removal e.ops h, deserialize) refl)

  -- The record of an entry with a REMOVE op is whole, and no entry.
  pub read_entry-removal :
      (e : LogEntry) (payload rest : Bytes)
      → HasRemoval e.ops
      → Writes codec e payload
      → read_entry codec (record_of codec payload ++ rest) ≡ bad_record
  unfolding read_entry
  read_entry-removal e payload rest h w =
      rw
        (
          from-to_le_bytes (length payload) w.fits,
          length-append payload rest,
          take-append payload rest,
          drop-append payload rest,
          from_slice-removal e payload h w,
        )
        (rw (not_short (length payload) (length rest)))

  -- A REMOVE op is not read back: of a segment in which the record of an entry with such an op
  -- follows whole records of other entries, the replay returns exactly those before it, and cuts the
  -- file there: the entry, and all that was appended after it, is lost.
  pub replay_segment-removal :
      (es : List (LogEntry × Bytes)) (e : LogEntry) (payload later : Bytes)
      → Encoded codec es
      → HasRemoval e.ops
      → Writes codec e payload
      → replay_segment codec (records codec es ++ (record_of codec payload ++ later))
        ≡ (entries codec es, records codec es)
  replay_segment-removal es e payload later h removal w =
      replay_segment-records codec es (record_of codec payload ++ later) h
        (inr (read_entry-removal e payload later removal w))
