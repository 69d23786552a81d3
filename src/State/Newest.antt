-- ===== src/State/Newest.antt =====
-- The newest entry that a log has for each key, and what `StateStore::open` makes of it.
use sodp.Base.{
  ℕ, ◌≤◌, ◌<◌, ◌≡◌, refl, ap, ◌∙◌, String, Option, none, some, List, [], ◌∷◌, ◌++◌, arith, All,
  Option-cases, inl, inr, leb, str_eq, if◌then◌else◌,
}
use sodp.Log.{LogEntry}
use sodp.State.{StateEntry, insert_by_version, sort_by_version}

abbrev pub entry_of : LogEntry → StateEntry
entry_of e = record { version = e.version; value = e.value }

-- Of two entries of a key the later one in the log counts, unless its version is less.
abbrev pub newer : LogEntry → Option StateEntry → StateEntry
newer e none = entry_of e
newer e (some f) = if leb e.version f.version then f else entry_of e

unfoldable pub newest : String → List LogEntry → Option StateEntry
newest key [] = none
newest key (e ∷ es) =
    let later = newest key es in if str_eq e.key key then some (newer e later) else later

abbrev pub VersionsTo : ℕ → List LogEntry → Type 0
VersionsTo n = All (λ e. e.version ≤ n)

module _ (key : String) where
  pub newest-VersionsTo :
      (n : ℕ) (es : List LogEntry) (f : StateEntry)
      → VersionsTo n es
      → newest key es ≡ some f
      → f.version ≤ n
  unfolding newest
  newest-VersionsTo n [] f v h = ground arith
  newest-VersionsTo n (e ∷ es) f v h = elim (Option-cases (newest key es)) [
    | inl absent ↦ ground (arith, v.0)
    | inr (g, found) ↦ ground (arith, v.0, newest-VersionsTo n es g v.1 found)
  ]

  -- An entry that is newer than all others, at the end of the log.
  pub newest-snoc :
      (n : ℕ) (es : List LogEntry) (e : LogEntry)
      → VersionsTo n es
      → n < e.version
      → newest key (es ++ e ∷ []) ≡ (if str_eq e.key key then some (entry_of e) else newest key es)
  unfolding newest
  newest-snoc n [] e v l = refl
  newest-snoc n (f ∷ es) e v l = ground (arith, v.0, newest-snoc n es e v.1 l)

  newest-insert_by_version :
      (e : LogEntry) (es : List LogEntry)
      → newest key (insert_by_version e es) ≡ newest key (e ∷ es)
  unfolding newest insert_by_version
  newest-insert_by_version e [] = refl
  newest-insert_by_version e (f ∷ es) = elim (Option-cases (newest key es)) [
    | inl absent ↦ ground (arith, newest-insert_by_version e es)
    | inr (g, found) ↦ ground (arith, newest-insert_by_version e es)
  ]

  pub newest-sort_by_version :
      (es : List LogEntry) → newest key (sort_by_version es) ≡ newest key es
  unfolding newest sort_by_version
  newest-sort_by_version [] = refl
  newest-sort_by_version (e ∷ es) =
      newest-insert_by_version e (sort_by_version es)
      ∙ ap (λ o. if str_eq e.key key then some (newer e o) else o) (newest-sort_by_version es)
