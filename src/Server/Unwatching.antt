-- ===== src/Server/Unwatching.antt =====
-- UNWATCH: what is left of the session on the bus under the keys that it names.
use sodp.Base.{
  ℕ, String, ◌≡◌, refl, ◌≢◌, sym, ◌∙◌, subst, Bool, true, false, none, some, List, [], ◌∷◌, All,
  arith, retain, str_eq, eq_iff, eq_refl, ◌==◌, ==_iff, if◌then◌else◌, Bool-cases, Option-cases,
  inl, inr,
}
use sodp.Base.Dict
use sodp.Base.IdMap
use sodp.Base.IdMap.{IdMap}
use sodp.Frame.{Frame}
use sodp.Session.{WatchEntry, find_watch, watch_stream_id, remove_watch}
use sodp.Fanout.{Subscriber, FanoutBus, subscribers, is_other, mem_text, unsubscribe}
use sodp.Server.{Connection}
use sodp.Server.Watch.{keys_of, unwatch_key, unwatch_keys, handle_unwatch}
use sodp.Server.Departure.{All-retain}

-- Each stream id stands once.
abbrev pub IsUniqueIds : IdMap WatchEntry → Type 0
IsUniqueIds [] = Unit
IsUniqueIds ((i, e) ∷ ws) = (IdMap.get ws i ≡ none) × IsUniqueIds ws

remove_absent : (ws : IdMap WatchEntry) (i : ℕ) → IdMap.get ws i ≡ none → IdMap.remove ws i ≡ ws
unfolding IdMap.get IdMap.remove
remove_absent [] i h = refl
remove_absent ((j, e) ∷ ws) i h = ground (arith, remove_absent ws i)

remove-IsUniqueIds :
    (ws : IdMap WatchEntry) (i : ℕ) → IsUniqueIds ws → IsUniqueIds (IdMap.remove ws i)
unfolding IdMap.remove
remove-IsUniqueIds [] i u = tt
remove-IsUniqueIds ((j, e) ∷ ws) i u = elim (Bool-cases (j == i)) [
  | inl same ↦ rw same (remove-IsUniqueIds ws i u.1)
  | inr other ↦ rw other (ground (arith, u.0, IdMap.get-remove ws i j), remove-IsUniqueIds ws i u.1)
]

-- The stream that is found has an entry.
found_there :
    (k : String) (ws : IdMap WatchEntry) (i : ℕ) → find_watch k ws ≡ some i → IdMap.get ws i ≢ none
unfolding find_watch IdMap.get
found_there k [] i h = ground arith
found_there k ((j, e) ∷ ws) i h = ground (arith, found_there k ws i)

-- The end of a stream of one key leaves the streams of another.
find_watch-remove_other :
    (k key : String) (ws : IdMap WatchEntry) (i : ℕ)
    → str_eq k key ≡ false
    → IsUniqueIds ws
    → find_watch k ws ≡ some i
    → find_watch key (IdMap.remove ws i) ≡ find_watch key ws
unfolding find_watch IdMap.remove IdMap.get
find_watch-remove_other k key [] i ne u h = refl
find_watch-remove_other k key ((j, e) ∷ ws) i ne u h = elim (Bool-cases (str_eq e.state_key k)) [
  | inl same ↦
      let here : j ≡ i = ground arith in
      let gone : IdMap.remove ws i ≡ ws =
        remove_absent ws i (subst (λ n. IdMap.get ws n ≡ none) here u.0) in
      let not_key : str_eq e.state_key key ≡ false =
        subst (λ t. str_eq t key ≡ false) (sym ((eq_iff e.state_key k).0 same)) ne in
      rw ((==_iff j i).1 here, gone, not_key) refl
  | inr other ↦
      let later : find_watch k ws ≡ some i = ground arith in
      let apart : (j == i) ≡ false = ground (arith, u.0, found_there k ws i later) in
      rw (apart, find_watch) (rw (find_watch-remove_other k key ws i ne u.1 later) refl)
]

-- No subscriber of the key is of the session.
abbrev pub Quiet : Connection → String → Type 0
Quiet c key = All (λ s. is_other c.session.id s ≡ true) (subscribers c.fanout key)

-- A session that has no watch of the key has no subscription.
pub record IsWatched (c : Connection) (key : String) : Type 0 where
  pub unique : IsUniqueIds c.session.watches
  pub quiet : watch_stream_id c.session key ≡ none → Quiet c key

subscribers-unsubscribe :
    (bus : FanoutBus) (k id key : String)
    → subscribers (unsubscribe bus k id) key
      ≡ (if str_eq k key then retain (is_other id) (subscribers bus key) else subscribers bus key)
unfolding unsubscribe
subscribers-unsubscribe bus k id key = elim (Option-cases (Dict.get bus.subscriptions k)) [
  | inl absent ↦
      rw (absent, unsubscribe)
        (elim (Bool-cases (str_eq k key)) [
          | inr other ↦ rw other refl
          | inl same ↦
              let here : Dict.get bus.subscriptions key ≡ none =
                subst (λ j. Dict.get bus.subscriptions j ≡ none) ((eq_iff k key).0 same) absent in
              rw (same, here) refl
        ])
  | inr (subs, found) ↦
      rw (found, unsubscribe)
        (rw (Dict.get-insert bus.subscriptions k key (retain (is_other id) subs))
          (elim (Bool-cases (str_eq k key)) [
            | inr other ↦ rw other refl
            | inl same ↦
                let here : Dict.get bus.subscriptions key ≡ some subs =
                  subst (λ j. Dict.get bus.subscriptions j ≡ some subs) ((eq_iff k key).0 same)
                    found in
                rw (same, here) refl
          ]))
]

All-retain_kept :
    (p q : Subscriber → Bool) (subs : List Subscriber)
    → All (λ s. p s ≡ true) subs
    → All (λ s. p s ≡ true) (retain q subs)
All-retain_kept p q [] h = tt
All-retain_kept p q (s ∷ subs) h = elim (Bool-cases (q s)) [
  | inl kept ↦ rw kept (h.0, All-retain_kept p q subs h.1)
  | inr left ↦ rw left (All-retain_kept p q subs h.1)
]

module _ (c : Connection) (k key : String) where
  unwatch_key-Quiet : Quiet c key → Quiet (unwatch_key c k) key
  unfolding remove_watch
  unwatch_key-Quiet q = elim (Option-cases (watch_stream_id c.session k)) [
    | inl nothing_there ↦ rw (nothing_there, unwatch_key) q
    | inr (i, found) ↦
        rw (found, unwatch_key)
          (rw (subscribers-unsubscribe c.fanout k c.session.id key)
            (elim (Bool-cases (str_eq k key)) [
              | inl same ↦ rw same (All-retain (is_other c.session.id) (subscribers c.fanout key))
              | inr other ↦ rw other q
            ]))
  ]

  unwatch_key-IsWatched : str_eq k key ≡ false → IsWatched c key → IsWatched (unwatch_key c k) key
  unfolding remove_watch watch_stream_id
  unwatch_key-IsWatched ne w = elim (Option-cases (watch_stream_id c.session k)) [
    | inl nothing_there ↦ rw (nothing_there, unwatch_key) w
    | inr (i, found) ↦
        rw (found, unwatch_key)
          (record {
            unique = remove-IsUniqueIds c.session.watches i w.unique;
            quiet = λ e.
                rw (subscribers-unsubscribe c.fanout k c.session.id key, ne)
                  (w.quiet (
                    sym (find_watch-remove_other k key c.session.watches i ne w.unique found) ∙ e));
          })
  ]

unwatch_key_self : (c : Connection) (key : String) → IsWatched c key → Quiet (unwatch_key c key) key
unfolding remove_watch
unwatch_key_self c key w = elim (Option-cases (watch_stream_id c.session key)) [
  | inl nothing_there ↦ rw (nothing_there, unwatch_key) (w.quiet nothing_there)
  | inr (i, found) ↦
      rw (found, unwatch_key)
        (rw (subscribers-unsubscribe c.fanout key c.session.id key, eq_refl key)
          (All-retain (is_other c.session.id) (subscribers c.fanout key)))
]

session_id-unwatch_key : (c : Connection) (k : String) → (unwatch_key c k).session.id ≡ c.session.id
unfolding remove_watch
session_id-unwatch_key c k = elim (Option-cases (watch_stream_id c.session k)) [
  | inl nothing_there ↦ rw (nothing_there, unwatch_key) refl
  | inr (i, found) ↦ rw (found, unwatch_key) refl
]

session_id-unwatch_keys :
    (c : Connection) (keys : List String) → (unwatch_keys c keys).session.id ≡ c.session.id
unfolding unwatch_keys
session_id-unwatch_keys c [] = refl
session_id-unwatch_keys c (k ∷ rest) =
    session_id-unwatch_keys (unwatch_key c k) rest ∙ session_id-unwatch_key c k

unwatch_keys-Quiet :
    (c : Connection) (keys : List String) (key : String)
    → Quiet c key
    → Quiet (unwatch_keys c keys) key
unfolding unwatch_keys
unwatch_keys-Quiet c [] key q = q
unwatch_keys-Quiet c (k ∷ rest) key q =
    unwatch_keys-Quiet (unwatch_key c k) rest key (unwatch_key-Quiet c k key q)

unwatch_keys_named :
    (c : Connection) (keys : List String) (key : String)
    → IsWatched c key
    → mem_text keys key ≡ true
    → Quiet (unwatch_keys c keys) key
unfolding unwatch_keys
unwatch_keys_named c [] key w m = ground arith
unwatch_keys_named c (k ∷ rest) key w m = elim (Bool-cases (str_eq k key)) [
  | inl same ↦ unwatch_keys-Quiet (unwatch_key c k) rest key (
      subst (λ j. Quiet (unwatch_key c j) key) (sym ((eq_iff k key).0 same))
        (unwatch_key_self c key w))
  | inr other ↦
      unwatch_keys_named (unwatch_key c k) rest key (unwatch_key-IsWatched c k key other w)
        (ground arith)
]

-- After an UNWATCH no subscriber of a key that it names is of the session, so that no broadcast of
-- the key reaches it, however often it had watched the key, if it had no subscription without a
-- watch and its stream ids were distinct.
pub handle_unwatch-Quiet :
    (f : Frame) (c : Connection) (keys : List String) (key : String)
    → keys_of f.body ≡ some keys
    → mem_text keys key ≡ true
    → IsWatched c key
    → All (λ s. is_other c.session.id s ≡ true) (subscribers (handle_unwatch f c).fanout key)
unfolding handle_unwatch
handle_unwatch-Quiet f c keys key e m w =
    rw (e, handle_unwatch)
      (subst (λ id. All (λ s. is_other id s ≡ true) (subscribers (unwatch_keys c keys).fanout key))
        (session_id-unwatch_keys c keys) (unwatch_keys_named c keys key w m))
