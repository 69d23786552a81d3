-- ===== src/Fanout/Broadcasts.antt =====
-- src/fanout.rs: what a whole broadcast leaves of a handle and of the bus.
use sodp.Base.{
  ℕ, ◌≡◌, refl, sym, ap, ◌∙◌, subst, String, true, false, Bool, Option, some, List, [], ◌∷◌, retain,
  not, str_eq, eq_iff, Bool-cases, inl, inr, ◌⊎◌, Option-cases, is_empty,
}
use sodp.Base.Dict
use sodp.Base.IdMap
use sodp.Base.IdMap.{get-insert}
use sodp.Frame.{Bytes, OutboundMsg}
use sodp.Fanout.{
  WriteHandle, Handles, Subscriber, FanoutBus, subscribers, is_included, mem_text, deliver,
  broadcast_encoded, drop_slow,
}
use sodp.Fanout.Delivery.{messages_to}
use sodp.Fanout.Slow.{Sent, IsOwn, IsOwn-retain, deliver-Delivered}

retain_all_true : (subs : List Subscriber) → retain (λ t. true) subs ≡ subs
retain_all_true [] = refl
retain_all_true (s ∷ rest) = ap (λ l. s ∷ l) (retain_all_true rest)

-- A bus that has lost none of the session's subscribers, and gained none of anyone's.
pub record Kept (session : String) (bus bus' : FanoutBus) (key : String) : Type 0 where
  pub test : Subscriber → Bool
  pub retained : subscribers bus' key ≡ retain test (subscribers bus key)
  pub spares : (t : Subscriber) → t.session_id ≡ session → test t ≡ true

pub Kept-refl : (session : String) (bus : FanoutBus) (key : String) → Kept session bus bus key
Kept-refl session bus key = record {
  test = λ t. true;
  retained = sym (retain_all_true (subscribers bus key));
  spares = λ t e. refl;
}

Kept-drop_slow :
    (session : String) (bus : FanoutBus) (state_key : String) (slow : List String) (key : String)
    → mem_text slow session ≡ false
    → Kept session bus (drop_slow bus state_key slow) key
Kept-drop_slow session bus state_key slow key n =
    elim (Option-cases (Dict.get bus.subscriptions state_key)) [
      | inl none_there ↦ rw (none_there, drop_slow) (Kept-refl session bus key)
      | inr (subs, found) ↦
          rw (found, drop_slow)
            (elim (Bool-cases (str_eq state_key key)) [
              | inr other ↦ record {
                test = λ t. true;
                retained =
                    rw (Dict.get-insert bus.subscriptions state_key key (left subs), other)
                      (sym (retain_all_true (subscribers bus key)));
                spares = λ t e. refl;
              }
              | inl same ↦ record {
                test = λ t. not (mem_text slow t.session_id);
                retained =
                    let here : Dict.get bus.subscriptions key ≡ some subs =
                      subst (λ j. Dict.get bus.subscriptions j ≡ some subs)
                        ((eq_iff state_key key).0 same) found in
                    rw (Dict.get-insert bus.subscriptions state_key key (left subs), same, here)
                      refl;
                spares = λ t e. ap not (ap (mem_text slow) e ∙ n);
              }
            ])
    ]
  where
    left : List Subscriber → List Subscriber
    left subs = retain (λ t. not (mem_text slow t.session_id)) subs

-- What a broadcast leaves of a handle: it took its messages, and no subscriber of its session is
-- dropped, or its session is cancelled.
pub record Broadcasted (session : String) (bus bus' : FanoutBus) (hs' : Handles) (id : ℕ)
    (h : WriteHandle) (msgs : List OutboundMsg) : Type 0 where
  pub sent : Sent hs' id h msgs
  pub kept : (sent.now.cancelled ≡ true) ⊎ ((key : String) → Kept session bus bus' key)

pub broadcast_encoded-Broadcasted :
    (session : String) (bus : FanoutBus) (hs : Handles) (key : String) (body_mp : Bytes)
    (exclude_session : Option String) (id : ℕ) (h : WriteHandle)
    → IdMap.get hs id ≡ some h
    → IsOwn session id (subscribers bus key)
    → let (bus', hs') = broadcast_encoded bus hs key body_mp exclude_session in
      Broadcasted session bus bus' hs' id h
        (messages_to id body_mp (retain (is_included exclude_session) (subscribers bus key)))
unfolding broadcast_encoded
broadcast_encoded-Broadcasted session bus hs key body_mp ex id h e own =
    let subs = retain (is_included ex) (subscribers bus key) in
    let d =
      deliver-Delivered session id body_mp hs subs h e
        (IsOwn-retain session id (is_included ex) (subscribers bus key) own) in
    record {
      sent = d.sent;
      kept = elim d.not_slow [
        | inl c ↦ inl c
        | inr n ↦ inr (λ k. elim (Bool-cases (is_empty (deliver hs body_mp subs).1)) [
          | inl nobody ↦ rw nobody (Kept-refl session bus k)
          | inr some_slow ↦ rw some_slow (Kept-drop_slow session bus key _ k n)
        ])
      ];
    }
