-- ===== src/State/Sorting.antt =====
-- `StateStore::open`: the replayed entries sorted by version, and the store that they make.
use sodp.Base.{
  ℕ, ◌≤◌, ◌≡◌, refl, ◌∙◌, subst, String, Option, none, some, List, [], ◌∷◌, arith, All, Bool-cases,
  Option-cases, inl, inr, leb, str_eq, eq_iff, if◌then◌else◌, is_empty,
}
use sodp.Base.Dict
use sodp.Base.Dict.{Dict, get-insert, IsUnique, insert-IsUnique, All-insert}
use sodp.Log.{LogEntry}
use sodp.State.{
  StateEntry, DeltaLog, insert_by_version, sort_by_version, restore, snapshot_of, last_version,
  log_append,
}
use sodp.State.Newest.{entry_of, newest, VersionsTo, newest-sort_by_version}

-- Each version is at most the ones that follow.
abbrev pub IsSorted : List LogEntry → Type 0
IsSorted [] = Unit
IsSorted (e ∷ es) = All (λ f. e.version ≤ f.version) es × IsSorted es

module _ {ℓ} (P : LogEntry → Type ℓ) where
  All-insert_by_version :
      (e : LogEntry) (es : List LogEntry) → P e → All P es → All P (insert_by_version e es)
  unfolding insert_by_version
  All-insert_by_version e [] p h = (p, tt)
  All-insert_by_version e (f ∷ es) p h = elim (Bool-cases (leb e.version f.version)) [
    | inl below ↦ rw (below, insert_by_version) (p, h)
    | inr above ↦ rw (above, insert_by_version) (h.0, All-insert_by_version e es p h.1)
  ]

  pub All-sort_by_version : (es : List LogEntry) → All P es → All P (sort_by_version es)
  unfolding sort_by_version
  All-sort_by_version [] h = tt
  All-sort_by_version (e ∷ es) h =
      All-insert_by_version e (sort_by_version es) h.0 (All-sort_by_version es h.1)

module _ {ℓ} (P : LogEntry → Type ℓ) where
  All-of_insert_by_version :
      (e : LogEntry) (es : List LogEntry) → All P (insert_by_version e es) → P e × All P es
  unfolding insert_by_version
  All-of_insert_by_version e [] h = h
  All-of_insert_by_version e (f ∷ es) h = elim (Bool-cases (leb e.version f.version)) [
    | inl below ↦
        let is : insert_by_version e (f ∷ es) ≡ e ∷ f ∷ es = rw (below, insert_by_version) refl in
        subst (All P) is h
    | inr above ↦
        let is : insert_by_version e (f ∷ es) ≡ f ∷ insert_by_version e es =
          rw (above, insert_by_version) refl in
        let h' = subst (All P) is h in
        let rest = All-of_insert_by_version e es h'.1 in (rest.0, (h'.0, rest.1))
  ]

  pub All-of_sort_by_version : (es : List LogEntry) → All P (sort_by_version es) → All P es
  unfolding sort_by_version
  All-of_sort_by_version [] h = tt
  All-of_sort_by_version (e ∷ es) h =
      let parts = All-of_insert_by_version e (sort_by_version es) h in
      (parts.0, All-of_sort_by_version es parts.1)

All-above :
    (m n : ℕ) (es : List LogEntry)
    → m ≤ n
    → All (λ f. n ≤ f.version) es
    → All (λ f. m ≤ f.version) es
All-above m n [] l h = tt
All-above m n (e ∷ es) l h = (omega (arith, h.0), All-above m n es l h.1)

insert_by_version-IsSorted :
    (e : LogEntry) (es : List LogEntry) → IsSorted es → IsSorted (insert_by_version e es)
unfolding insert_by_version
insert_by_version-IsSorted e [] s = (tt, tt)
insert_by_version-IsSorted e (f ∷ es) s = elim (Bool-cases (leb e.version f.version)) [
  | inl below ↦
      let l : e.version ≤ f.version = ground arith in
      rw (below, insert_by_version) ((l, All-above e.version f.version es l s.0), s)
  | inr above ↦
      rw (above, insert_by_version)
        (
          All-insert_by_version (λ g. f.version ≤ g.version) e es (ground arith) s.0,
          insert_by_version-IsSorted e es s.1,
        )
]

pub sort_by_version-IsSorted : (es : List LogEntry) → IsSorted (sort_by_version es)
unfolding sort_by_version
sort_by_version-IsSorted [] = tt
sort_by_version-IsSorted (e ∷ es) =
    insert_by_version-IsSorted e (sort_by_version es) (sort_by_version-IsSorted es)

-- The counter after `open` is no less than any version that was read, and is one of them, or 0.
pub last_version-above :
    (n : ℕ) (es : List LogEntry)
    → All (λ f. n ≤ f.version) es
    → IsSorted es
    → VersionsTo (last_version n es) es × (n ≤ last_version n es)
last_version-above n [] a s = (tt, omega arith)
last_version-above n (e ∷ es) a s =
    let after = last_version-above e.version es s.0 s.1 in
    ((after.1, after.0), omega (arith, after.1, a.0))

pub last_version-VersionsTo :
    (n m : ℕ) (es : List LogEntry) → n ≤ m → VersionsTo m es → last_version n es ≤ m
last_version-VersionsTo n m [] l v = l
last_version-VersionsTo n m (e ∷ es) l v = last_version-VersionsTo e.version m es v.0 v.1

module _ (key : String) where
  newest_above :
      (n : ℕ) (es : List LogEntry) (f : StateEntry)
      → All (λ g. n ≤ g.version) es
      → newest key es ≡ some f
      → n ≤ f.version
  unfolding newest
  newest_above n [] f a h = ground arith
  newest_above n (e ∷ es) f a h = elim (Option-cases (newest key es)) [
    | inl absent ↦ ground (arith, a.0)
    | inr (g, found) ↦ ground (arith, a.0, newest_above n es g a.1 found)
  ]

  abbrev or_else : Option StateEntry → Option StateEntry → Option StateEntry
  or_else none d = d
  or_else (some e) d = some e

  get-restore :
      (entries : Dict StateEntry) (delta_log : DeltaLog) (es : List LogEntry)
      → IsSorted es
      → Dict.get (restore entries delta_log es).0 key
        ≡ or_else (newest key es) (Dict.get entries key)
  unfolding newest restore
  get-restore entries delta_log [] s = refl
  get-restore entries delta_log (e ∷ es) s =
      rw
        (
          get-restore (Dict.insert entries e.key (entry_of e))
              (if is_empty e.ops then delta_log else log_append delta_log e.key e.version e.ops) es
              s.1,
          get-insert entries e.key key (entry_of e),
        )
        (elim (Option-cases (newest key es)) [
          | inl absent ↦ rw absent (ground arith)
          | inr (g, found) ↦
              let above = newest_above e.version es g s.0 found in rw found (ground arith)
        ])

  or_else-none : (o : Option StateEntry) → or_else o none ≡ o
  or_else-none none = refl
  or_else-none (some e) = refl

  -- What `open` puts under a key.
  pub get-restore_sorted :
      (es : List LogEntry) → Dict.get (restore [] [] (sort_by_version es)).0 key ≡ newest key es
  unfolding Dict.get
  get-restore_sorted es =
      get-restore [] [] (sort_by_version es) (sort_by_version-IsSorted es)
      ∙ (or_else-none (newest key (sort_by_version es)) ∙ newest-sort_by_version key es)

  -- A snapshot has the entry of the store under each key.
  pub newest-snapshot_of :
      (entries : Dict StateEntry)
      → IsUnique entries
      → newest key (snapshot_of entries) ≡ Dict.get entries key
  unfolding newest Dict.get
  newest-snapshot_of [] u = refl
  newest-snapshot_of ((k, e) ∷ entries) u =
      rw (newest-snapshot_of entries u.1) (elim (Bool-cases (str_eq k key)) [
        | inl same ↦
            rw (same, subst (λ j. Dict.get entries j ≡ none) ((eq_iff k key).0 same) u.0) refl
        | inr other ↦ rw other refl
      ])

-- The entries after `open`: each key once, and each entry as it was logged.
pub restore-IsUnique :
    (entries : Dict StateEntry) (delta_log : DeltaLog) (es : List LogEntry)
    → IsUnique entries
    → IsUnique (restore entries delta_log es).0
unfolding restore
restore-IsUnique entries delta_log [] u = u
restore-IsUnique entries delta_log (e ∷ es) u =
    restore-IsUnique (Dict.insert entries e.key (entry_of e)) _ es
      (insert-IsUnique entries e.key (entry_of e) u)

pub restore-All {ℓ} :
    (P : StateEntry → Type ℓ) (entries : Dict StateEntry) (delta_log : DeltaLog)
    (es : List LogEntry)
    → All (λ e. P e.1) entries
    → All (λ e. P (entry_of e)) es
    → All (λ e. P e.1) (restore entries delta_log es).0
unfolding restore
restore-All P entries delta_log [] h k = h
restore-All P entries delta_log (e ∷ es) h k =
    restore-All P (Dict.insert entries e.key (entry_of e)) _ es
      (All-insert (λ f. P f.1) entries e.key (entry_of e) k.0 h) k.1
