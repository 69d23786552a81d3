-- ===== src/Log.antt =====
-- src/log.rs: the segmented log. `files` is the contents of the log's directory, a file known by
-- its segment's number; reads and writes of the file system succeed.
pub mod Recovery
pub mod Removal
pub mod Replaying
pub mod Segments
pub mod Opening
pub mod Appending
pub mod Compaction
use sodp.Base.{
  ℕ, zero, suc, ◌+◌, ◌-◌, ◌*◌, ◌/◌, ◌%◌, ◌^◌, ◌<◌, String, Bool, true, false, Option, none, some,
  List, [], ◌∷◌, ◌++◌, ltb, leb, length, take, drop, is_empty, max, map, ◌==◌, if◌then◌else◌,
}
use sodp.Base.IdMap
use sodp.Base.IdMap.{IdMap}
use sodp.Json.{Value}
use sodp.Frame.{Bytes}
use sodp.Delta.{DeltaOp}
use sodp.Packed.{Item, serialize_op, deserialize_ops}

pub record LogEntry : Type 0 where
  pub version : ℕ
  pub key : String
  pub ops : List DeltaOp
  pub value : Value

-- An entry as the derived `Serialize` gives it: an array of its four fields.
pub record Packed : Type 0 where
  pub version : ℕ
  pub key : String
  pub ops : List (List Item)
  pub value : Value

unfoldable pub serialize : LogEntry → Packed
serialize e = record {
  version = e.version;
  key = e.key;
  ops = map serialize_op e.ops;
  value = e.value;
}

-- The derived `Deserialize`, which fails where it does for one of the ops.
unfoldable pub deserialize : Packed → Option LogEntry
deserialize p = elim (deserialize_ops p.ops) [
  | none ↦ none
  | some ops ↦ some (record { version = p.version; key = p.key; ops = ops; value = p.value })
]

-- The bytes that `rmp_serde` writes for an array, and the array that it reads; `none` is an error.
pub record Codec : Type 0 where
  pub write : Packed → Option Bytes
  pub read : Bytes → Option Packed

-- `rmp_serde::to_vec` and `rmp_serde::from_slice` at `LogEntry`
unfoldable pub to_vec : Codec → LogEntry → Option Bytes
to_vec codec e = codec.write (serialize e)

unfoldable pub from_slice : Codec → Bytes → Option LogEntry
from_slice codec b = elim (codec.read b) [ none ↦ none | some p ↦ deserialize p ]

-- `(len as u32).to_le_bytes()` and `u32::from_le_bytes`
abbrev pub to_le_bytes : ℕ → Bytes
to_le_bytes n = n % 256 ∷ (n / 2 ^ 8) % 256 ∷ (n / 2 ^ 16) % 256 ∷ (n / 2 ^ 24) % 256 ∷ []

abbrev pub from_le_bytes : ℕ → ℕ → ℕ → ℕ → ℕ
from_le_bytes a b c d = a + 2 ^ 8 * b + 2 ^ 16 * c + 2 ^ 24 * d

-- What `read_entry` returns: an entry and the bytes after it, the end of the file between two
-- records, or an error (a record cut off, or bytes that are no entry).
pub data ReadResult : Type 0 where
  entry : LogEntry → Bytes → ReadResult
  end_of_file : ReadResult
  bad_record : ReadResult

pub record SegmentedLog : Type 0 where
  pub files : IdMap Bytes
  pub current_seg : ℕ
  -- The segment that the writer has open: an older one where a rotation or a compaction failed.
  pub writer : ℕ
  pub entry_count : ℕ
  pub segment_count : ℕ

abbrev pub max_entries_per_segment : ℕ
max_entries_per_segment = 100_000

abbrev pub max_segments_before_compact : ℕ
max_segments_before_compact = 3

module _ (codec : Codec) where
  -- The bytes that `write_entry` writes, or none if the entry cannot be encoded.
  unfoldable pub write_entry : LogEntry → Option Bytes
  write_entry e = elim (to_vec codec e) [
    | none ↦ none
    | some payload ↦ some (to_le_bytes (length payload) ++ payload)
  ]

  abbrev decoded : Option LogEntry → Bytes → ReadResult
  decoded none rest = bad_record
  decoded (some e) rest = entry e rest

  abbrev read_payload : ℕ → Bytes → ReadResult
  read_payload len rest =
      if ltb (length rest) len
      then bad_record
      else decoded (from_slice codec (take len rest)) (drop len rest)

  -- Fewer than four bytes, also none, read as the end of the file.
  unfoldable pub read_entry : Bytes → ReadResult
  read_entry (a ∷ b ∷ c ∷ d ∷ rest) = read_payload (from_le_bytes a b c d) rest
  read_entry _ = end_of_file

  -- The loop of `replay_segment`: the entries, and the length of the bytes that they take.
  unfoldable pub replay_loop : ℕ → Bytes → List LogEntry × ℕ
  replay_loop zero file = ([], 0)
  replay_loop (suc fuel) file = elim (read_entry file) [
    | entry e rest ↦
        (let (es, valid) = replay_loop fuel rest in (e ∷ es, (length file - length rest) + valid))
    | end_of_file ↦ ([], 0)
    | bad_record ↦ ([], 0)
  ]

  -- The entries of a file, and the file cut to its last whole record. A record takes four bytes
  -- at least, so the length of the file is fuel enough.
  unfoldable pub replay_segment : Bytes → List LogEntry × Bytes
  unfolding replay_loop
  replay_segment file = let (es, valid) = replay_loop (length file) file in (es, take valid file)

  -- All files in turn, each cut to its whole records, and their entries.
  unfoldable pub replay_all : IdMap Bytes → List ℕ → IdMap Bytes × List LogEntry
  unfolding replay_segment
  replay_all files [] = (files, [])
  replay_all files (seg ∷ segs) = elim (IdMap.get files seg) [
    | none ↦ replay_all files segs
    | some file ↦
        (let (es, valid) = replay_segment file in
          let (files', rest) = replay_all (IdMap.insert files seg valid) segs in
          (files', es ++ rest))
  ]

  -- The bytes of a snapshot segment, up to the first entry that cannot be encoded.
  unfoldable pub write_all : List LogEntry → Bytes × Bool
  write_all [] = ([], true)
  write_all (e ∷ es) = elim (write_entry e) [
    | none ↦ ([], false)
    | some b ↦ (let (rest, done) = write_all es in (b ++ rest, done))
  ]

  -- `File::create_new` at the next segment; `false` is the error that it is there.
  unfoldable pub rotate : SegmentedLog → SegmentedLog × Bool
  rotate log =
      let seg = log.current_seg + 1 in
      elim (IdMap.get log.files seg) [
        | some file ↦ (record log { current_seg = seg }, false)
        | none ↦ (
          record {
            files = IdMap.insert log.files seg [];
            current_seg = seg;
            writer = seg;
            entry_count = 0;
            segment_count = log.segment_count + 1;
          },
          true,
        )
      ]

  abbrev pub file_of : SegmentedLog → Bytes
  file_of log = elim (IdMap.get log.files log.writer) [ none ↦ [] | some file ↦ file ]

  -- `write_entry` and the flush, at the end of the file that the writer has open.
  unfoldable pub write_current : SegmentedLog → LogEntry → SegmentedLog × Bool
  write_current log e = elim (write_entry e) [
    | none ↦ (log, false)
    | some b ↦ (
      record log {
        files = IdMap.insert log.files log.writer (file_of log ++ b);
        entry_count = log.entry_count + 1;
      },
      true,
    )
  ]

  unfoldable pub append : SegmentedLog → LogEntry → SegmentedLog × Bool
  unfolding rotate write_current
  append log e =
      if leb max_entries_per_segment log.entry_count
      then (let (log', rotated) = rotate log in
          if rotated then write_current log' e else (log', false))
      else write_current log e

-- `list_segments`: the numbers in rising order.
unfoldable pub insert_sorted : ℕ → List ℕ → List ℕ
insert_sorted n [] = n ∷ []
insert_sorted n (m ∷ l) = if leb n m then n ∷ m ∷ l else m ∷ insert_sorted n l

unfoldable pub list_segments : IdMap Bytes → List ℕ
unfolding insert_sorted
list_segments [] = []
list_segments ((n, file) ∷ files) = insert_sorted n (list_segments files)

abbrev pub last_or : ℕ → List ℕ → ℕ
last_or d [] = d
last_or d (n ∷ l) = last_or n l

abbrev pub length_of_last : IdMap (List LogEntry) → ℕ
length_of_last [] = 0
length_of_last ((n, es) ∷ []) = length es
length_of_last ((n, es) ∷ rest) = length_of_last rest

abbrev pub create : IdMap Bytes → ℕ → IdMap Bytes
create files seg = elim (IdMap.get files seg) [
  | none ↦ IdMap.insert files seg []
  | some file ↦ files
]

unfoldable pub needs_compact : SegmentedLog → Bool
needs_compact log = ltb max_segments_before_compact log.segment_count

unfoldable pub remove_segments : IdMap Bytes → List ℕ → IdMap Bytes
remove_segments files [] = files
remove_segments files (n ∷ l) = remove_segments (IdMap.remove files n) l

module _ (codec : Codec) where
  -- The entries of the last segment, for `last_seg_count`.
  abbrev pub last_entries : IdMap Bytes → List ℕ → List LogEntry
  last_entries files [] = []
  last_entries files (n ∷ l) = elim (IdMap.get files (last_or n l)) [
    | none ↦ []
    | some file ↦ (replay_segment codec file).0
  ]

  unfoldable pub open_log : IdMap Bytes → SegmentedLog × List LogEntry
  unfolding replay_all
  open_log files =
      let segments = list_segments files in
      let (files', all_entries) = replay_all codec files segments in
      let current_seg = last_or 0 segments in
      (
        record {
          files = create files' current_seg;
          current_seg = current_seg;
          writer = current_seg;
          entry_count = length (last_entries files segments);
          segment_count = max (length segments) 1;
        },
        all_entries,
      )

  -- The fresh segment for later writes, and the end of the older ones.
  abbrev pub switch_over : SegmentedLog → List ℕ → SegmentedLog × Bool
  switch_over log old_segs =
      let seg = log.current_seg + 1 in
      elim (IdMap.get log.files seg) [
        | some file ↦ (record log { current_seg = seg }, false)
        | none ↦ (
          record {
            files = remove_segments (IdMap.insert log.files seg []) old_segs;
            current_seg = seg;
            writer = seg;
            entry_count = 0;
            segment_count = 2;
          },
          true,
        )
      ]

  unfoldable pub compact : SegmentedLog → List LogEntry → SegmentedLog × Bool
  unfolding write_all
  compact log snapshot =
      let old_segs = list_segments log.files in
      let snap = log.current_seg + 1 in
      elim (IdMap.get log.files snap) [
        | some file ↦ (record log { current_seg = snap }, false)
        | none ↦
            (let (written, done) = write_all codec snapshot in
              let log' = record log {
                files = IdMap.insert log.files snap written;
                current_seg = snap;
              } in
              if done then switch_over log' old_segs else (log', false))
      ]
