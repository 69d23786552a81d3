-- ===== src/Fanout.antt =====
-- src/fanout.rs and the `send` of src/write_pool.rs: who watches a key, and the queues to them.
-- A write handle is known by a number; `Handles` holds the channel behind each.
pub mod Delivery
pub mod Slow
pub mod Broadcasts
use sodp.Base.{
  ℕ, zero, suc, ◌+◌, String, Bool, true, false, Option, none, some, List, [], ◌∷◌, ◌++◌, not, ◌&&◌,
  ltb, length, retain, is_empty, str_eq, if◌then◌else◌,
}
use sodp.Base.Dict
use sodp.Base.Dict.{Dict}
use sodp.Base.IdMap
use sodp.Base.IdMap.{IdMap}
use sodp.Frame.{Bytes, OutboundMsg, arc_delta}

-- The bounded channel of a handle and its cancellation token; `closed` is a receiver that is gone.
pub record WriteHandle : Type 0 where
  pub capacity : ℕ
  pub outbound : List OutboundMsg
  pub closed : Bool
  pub cancelled : Bool

abbrev pub Handles : Type 0
Handles = IdMap WriteHandle

-- `outbound_tx.try_send(msg)` fails on a full or closed channel, and then the session is cancelled.
unfoldable pub try_send : WriteHandle → OutboundMsg → WriteHandle × Bool
try_send h msg =
    if not h.closed && ltb (length h.outbound) h.capacity
    then (record h { outbound = h.outbound ++ msg ∷ [] }, true)
    else (record h { cancelled = true }, false)

unfoldable pub send : Handles → ℕ → OutboundMsg → Handles × Bool
unfolding try_send
send hs id msg = elim (IdMap.get hs id) [
  | none ↦ (hs, false)
  | some h ↦ (let (h', sent) = try_send h msg in (IdMap.insert hs id h', sent))
]

pub record Subscriber : Type 0 where
  pub session_id : String
  pub stream_id : ℕ
  pub write : ℕ

pub record FanoutBus : Type 0 where
  pub subscriptions : Dict (List Subscriber)

abbrev pub empty_bus : FanoutBus
empty_bus = record { subscriptions = [] }

abbrev pub or_empty {ℓ} : {A : Type ℓ} → Option (List A) → List A
or_empty none = []
or_empty (some l) = l

abbrev pub subscribers : FanoutBus → String → List Subscriber
subscribers bus key = or_empty (Dict.get bus.subscriptions key)

-- `entry(state_key).or_default().push(sub)`
unfoldable pub subscribe : FanoutBus → String → Subscriber → FanoutBus
subscribe bus state_key sub = record {
  subscriptions = Dict.insert bus.subscriptions state_key (subscribers bus state_key ++ sub ∷ []);
}

abbrev pub is_other : String → Subscriber → Bool
is_other session_id s = not (str_eq s.session_id session_id)

unfoldable pub unsubscribe : FanoutBus → String → String → FanoutBus
unsubscribe bus state_key session_id = elim (Dict.get bus.subscriptions state_key) [
  | none ↦ bus
  | some subs ↦ record {
    subscriptions = Dict.insert bus.subscriptions state_key (retain (is_other session_id) subs);
  }
]

unfoldable pub retain_all : String → Dict (List Subscriber) → Dict (List Subscriber)
retain_all session_id [] = []
retain_all session_id ((k, subs) ∷ m) =
    (k, retain (is_other session_id) subs) ∷ retain_all session_id m

unfoldable pub remove_session : FanoutBus → String → FanoutBus
unfolding retain_all
remove_session bus session_id = record { subscriptions = retain_all session_id bus.subscriptions }

-- `exclude_session.is_none_or(|ex| s.session_id != ex)`
abbrev pub is_included : Option String → Subscriber → Bool
is_included none s = true
is_included (some ex) s = not (str_eq s.session_id ex)

abbrev pub mem_text : List String → String → Bool
mem_text [] k = false
mem_text (j ∷ l) k = if str_eq j k then true else mem_text l k

-- The loop over the snapshot: the handles after the sends, and the slow sessions in order.
unfoldable pub deliver : Handles → Bytes → List Subscriber → Handles × List String
deliver hs body_mp [] = (hs, [])
deliver hs body_mp (s ∷ rest) =
    let (hs', sent) = send hs s.write (arc_delta s.stream_id body_mp) in
    let (hs'', slow) = deliver hs' body_mp rest in
    (hs'', if sent then slow else s.session_id ∷ slow)

abbrev pub drop_slow : FanoutBus → String → List String → FanoutBus
drop_slow bus state_key slow = elim (Dict.get bus.subscriptions state_key) [
  | none ↦ bus
  | some subs ↦ record {
    subscriptions =
        Dict.insert bus.subscriptions state_key
          (retain (λ s. not (mem_text slow s.session_id)) subs);
  }
]

unfoldable pub broadcast_encoded :
    FanoutBus → Handles → String → Bytes → Option String → FanoutBus × Handles
unfolding deliver
broadcast_encoded bus hs state_key body_mp exclude_session =
    let snapshot = retain (is_included exclude_session) (subscribers bus state_key) in
    let (hs', slow) = deliver hs body_mp snapshot in
    (if is_empty slow then bus else drop_slow bus state_key slow, hs')

unfoldable pub subscriber_count : FanoutBus → String → ℕ
subscriber_count bus state_key = length (subscribers bus state_key)
