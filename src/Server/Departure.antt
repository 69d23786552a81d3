-- ===== src/Server/Departure.antt =====
-- The end of a session (src/server.rs, and `remove_session` of src/fanout.rs): what is left of it
-- on the bus.
use sodp.Base.{
  String, ◌≡◌, refl, Bool, true, List, [], ◌∷◌, All, retain, str_eq, Bool-cases, inl, inr,
}
use sodp.Base.Dict
use sodp.Base.Dict.{Dict}
use sodp.Fanout.{Subscriber, FanoutBus, subscribers, or_empty, is_other, retain_all, remove_session}
use sodp.Server.{Config, Connection}
use sodp.Server.Frames.{end_session, remove_presences}

pub All-retain :
    (p : Subscriber → Bool) (subs : List Subscriber) → All (λ s. p s ≡ true) (retain p subs)
All-retain p [] = tt
All-retain p (s ∷ subs) = elim (Bool-cases (p s)) [
  | inl e ↦ rw e (e, All-retain p subs)
  | inr e ↦ rw e (All-retain p subs)
]

subscribers-retain_all :
    (id : String) (m : Dict (List Subscriber)) (key : String)
    → or_empty (Dict.get (retain_all id m) key) ≡ retain (is_other id) (or_empty (Dict.get m key))
unfolding retain_all Dict.get
subscribers-retain_all id [] key = refl
subscribers-retain_all id ((k, subs) ∷ m) key = elim (Bool-cases (str_eq k key)) [
  | inl e ↦ rw e refl
  | inr e ↦ rw e (subscribers-retain_all id m key)
]

-- Removing a session leaves, under each key, exactly the subscribers of other sessions, in order.
pub subscribers-remove_session :
    (bus : FanoutBus) (id key : String)
    → subscribers (remove_session bus id) key ≡ retain (is_other id) (subscribers bus key)
unfolding remove_session
subscribers-remove_session bus id key = subscribers-retain_all id bus.subscriptions key

-- After the end of a session, presence cleaned up, no subscriber of any key is of that session.
pub end_session-departs :
    (cfg : Config) (c : Connection) (key : String)
    → All (λ s. is_other c.session.id s ≡ true) (subscribers (end_session cfg c).fanout key)
unfolding end_session
end_session-departs cfg c key =
    let bus = (remove_presences cfg c c.session.presence).fanout in
    rw (subscribers-remove_session bus c.session.id key)
      (All-retain (is_other c.session.id) (subscribers bus key))
