-- ===== src/State/Loading.antt =====
-- `load_entries`: what a node keeps of its own entries and of those that it loads.
use sodp.Base.{
  ℕ, ◌≤◌, max, String, ◌≡◌, refl, sym, ◌∙◌, subst, true, ◌⊎◌, inl, inr, Bool-cases, Option, some,
  List, [], ◌∷◌, arith, str_eq, eq_iff, ltb, if◌then◌else◌,
}
use sodp.Base.Dict
use sodp.Base.Dict.{Dict, get-insert}
use sodp.Json.{Value}
use sodp.State
use sodp.State.{StateEntry, StateStore, version_of, load_loop, load_entries}

pub data IsLoaded (key : String) (e : StateEntry) : List (String × ℕ × Value) → Type 0 where
  first : {rest : List (String × ℕ × Value)} → IsLoaded key e ((key, e.version, e.value) ∷ rest)
  next :
      {entry : String × ℕ × Value} {rest : List (String × ℕ × Value)}
      → IsLoaded key e rest
      → IsLoaded key e (entry ∷ rest)

-- `after` is the newest of `before` and of what is loaded under the key.
pub record IsNewest (key : String) (before after : Option StateEntry)
    (loaded : List (String × ℕ × Value)) : Type 0 where
  pub not_older : version_of before ≤ version_of after
  pub not_older_loaded : (e : StateEntry) → IsLoaded key e loaded → e.version ≤ version_of after
  pub origin : (after ≡ before) ⊎ ((e : StateEntry) × (after ≡ some e) × IsLoaded key e loaded)

abbrev loaded_one : Dict StateEntry → String → ℕ → Value → Dict StateEntry
loaded_one entries key version value =
    if ltb (version_of (Dict.get entries key)) version
    then Dict.insert entries key (record { version = version; value = value })
    else entries

IsLoaded-cases :
    {key k : String} {version : ℕ} {value : Value} {rest : List (String × ℕ × Value)}
    {e : StateEntry}
    → IsLoaded key e ((k, version, value) ∷ rest)
    → ((k ≡ key) × (e.version ≡ version)) ⊎ IsLoaded key e rest
IsLoaded-cases first = inl (refl, refl)
IsLoaded-cases (next h) = inr h

lone :
    {key : String} {e : StateEntry} {entry : String × ℕ × Value} (rest : List (String × ℕ × Value))
    → IsLoaded key e (entry ∷ [])
    → IsLoaded key e (entry ∷ rest)
lone rest first = first
lone rest (next h) = elim h [ ]

split-IsLoaded :
    {key : String} {e : StateEntry} {entry : String × ℕ × Value} {rest : List (String × ℕ × Value)}
    → IsLoaded key e (entry ∷ rest)
    → IsLoaded key e (entry ∷ []) ⊎ IsLoaded key e rest
split-IsLoaded first = inl first
split-IsLoaded (next h) = inr h

module _ (key : String) where
  -- What was there stays, since the loaded entry is of another key or is not newer.
  stays :
      (before : Option StateEntry) (k : String) (version : ℕ) (value : Value)
      → (k ≡ key → version ≤ version_of before)
      → IsNewest key before before ((k, version, value) ∷ [])
  stays before k version value h = record {
    not_older = omega arith;
    not_older_loaded = λ e l. elim (IsLoaded-cases l) [
      | inl (same, v) ↦ ground (arith, h same)
      | inr none_left ↦ elim none_left [ ]
    ];
    origin = inl refl;
  }

  loaded_one-IsNewest :
      (entries : Dict StateEntry) (k : String) (version : ℕ) (value : Value)
      → IsNewest key
          (Dict.get entries key)
          (Dict.get (loaded_one entries k version value) key)
          ((k, version, value) ∷ [])
  loaded_one-IsNewest entries k version value =
      elim (Bool-cases (ltb (version_of (Dict.get entries k)) version)) [
        | inr old ↦
            rw (old, loaded_one)
              (stays (Dict.get entries key) k version value (λ same.
                let here : version ≤ version_of (Dict.get entries k) = ground arith in
                subst (λ j. version ≤ version_of (Dict.get entries j)) same here))
        | inl newer ↦
            rw (newer, loaded_one)
              (rw (get-insert entries k key (record { version = version; value = value }))
                (elim (Bool-cases (str_eq k key)) [
                  | inr other ↦ rw other (
                      stays (Dict.get entries key) k version value
                        (λ same. ground (arith, (eq_iff k key).1 same)))
                  | inl same ↦ rw same (replaced ((eq_iff k key).0 same) newer)
                ]))
      ]
    where
      replaced :
          k ≡ key
          → ltb (version_of (Dict.get entries k)) version ≡ true
          → IsNewest key
              (Dict.get entries key)
              (some (record { version = version; value = value }))
              ((k, version, value) ∷ [])
      replaced same newer =
          subst
            (λ j.
              IsNewest key (Dict.get entries key)
                (some (record { version = version; value = value })) ((j, version, value) ∷ []))
            (sym same)
            (record {
              not_older =
                  let now : ltb (version_of (Dict.get entries key)) version ≡ true =
                    subst (λ j. ltb (version_of (Dict.get entries j)) version ≡ true) same newer in
                  ground arith;
              not_older_loaded = λ e l. elim (IsLoaded-cases l) [
                | inl (same', v) ↦ ground arith
                | inr none_left ↦ elim none_left [ ]
              ];
              origin = inr (record { version = version; value = value }, refl, first);
            })

  IsNewest-trans :
      {a b c : Option StateEntry} {entry : String × ℕ × Value} {rest : List (String × ℕ × Value)}
      → IsNewest key a b (entry ∷ [])
      → IsNewest key b c rest
      → IsNewest key a c (entry ∷ rest)
  IsNewest-trans {a} {b} {c} {entry} {rest} p q = record {
    not_older = omega (arith, p.not_older, q.not_older);
    not_older_loaded = λ e l. elim (split-IsLoaded l) [
      | inl now ↦ omega (arith, p.not_older_loaded e now, q.not_older)
      | inr after ↦ q.not_older_loaded e after
    ];
    origin = elim q.origin [
      | inr (e, is, l) ↦ inr (e, is, next l)
      | inl same ↦ elim p.origin [
        | inl kept ↦ inl (same ∙ kept)
        | inr (e, is, l) ↦ inr (e, same ∙ is, lone rest l)
      ]
    ];
  }

  load_loop-IsNewest :
      (entries : Dict StateEntry) (max_version : ℕ) (loaded : List (String × ℕ × Value))
      → IsNewest key
          (Dict.get entries key)
          (Dict.get (load_loop entries max_version loaded).0 key)
          loaded
  unfolding load_loop
  load_loop-IsNewest entries max_version [] = record {
    not_older = omega arith;
    not_older_loaded = λ e h. elim h [ ];
    origin = inl refl;
  }
  load_loop-IsNewest entries max_version ((k, version, value) ∷ rest) =
      IsNewest-trans (loaded_one-IsNewest entries k version value)
        (load_loop-IsNewest (loaded_one entries k version value) (max max_version version) rest)

-- After `load_entries` the entry of a key is the newest: either the one from before or one that was
-- loaded under the key, and no older than any of them.
pub load_entries-IsNewest :
    (st : StateStore) (loaded : List (String × ℕ × Value)) (key : String)
    → IsNewest key (State.get st key) (State.get (load_entries st loaded) key) loaded
unfolding State.get load_entries
load_entries-IsNewest st loaded key = load_loop-IsNewest key st.entries 0 loaded

load_loop-max :
    (entries : Dict StateEntry) (max_version : ℕ) (loaded : List (String × ℕ × Value))
    → max_version ≤ (load_loop entries max_version loaded).1
unfolding load_loop
load_loop-max entries max_version [] = omega arith
load_loop-max entries max_version ((k, version, value) ∷ rest) =
    ground
      (arith, load_loop-max (loaded_one entries k version value) (max max_version version) rest)

loaded-max :
    (entries : Dict StateEntry) (max_version : ℕ) (loaded : List (String × ℕ × Value))
    {key : String} {e : StateEntry}
    → IsLoaded key e loaded
    → e.version ≤ (load_loop entries max_version loaded).1
unfolding load_loop
loaded-max entries max_version [] h = elim h [ ]
loaded-max entries max_version ((k, version, value) ∷ rest) h = elim (IsLoaded-cases h) [
  | inl (same, v) ↦
      ground
        (arith, load_loop-max (loaded_one entries k version value) (max max_version version) rest)
  | inr after ↦ loaded-max (loaded_one entries k version value) (max max_version version) rest after
]

abbrev pub IsBounded : StateStore → Type 0
IsBounded st = (key : String) → version_of (State.get st key) ≤ st.global_version

-- If no entry is newer than the global version, then none is after `load_entries`, and the global
-- version has not gone back.
pub load_entries-IsBounded :
    (st : StateStore) (loaded : List (String × ℕ × Value))
    → IsBounded st
    → IsBounded (load_entries st loaded)
      × (st.global_version ≤ (load_entries st loaded).global_version)
unfolding State.get load_entries
load_entries-IsBounded st loaded bounded = (
  (λ key. elim (load_loop-IsNewest key st.entries 0 loaded).origin [
    | inl same ↦ rw same (omega (arith, bounded key))
    | inr (e, is, l) ↦ rw is (omega (arith, loaded-max st.entries 0 loaded l))
  ]),
  omega arith,
)
