-- ===== src/Server/Reading.antt =====
-- What a session may come to watch: only keys that the ACL lets it read.
use sodp.Base.{
  ℕ, String, ◌≡◌, sym, refl, ◌∙◌, subst, true, false, Bool, Option, some, Option-cases, inl, inr,
  ◌==◌, some-injective, none-ne-some, if◌then◌else◌, ◌⊎◌,
}
use sodp.Base.IdMap
use sodp.Base.IdMap.{get-insert, get-remove}
use sodp.Json.{Value}
use sodp.Frame.{Frame}
use sodp.Session.{Session, WatchEntry, add_watch, allocate_stream, remove_watch, ack_stream}
use sodp.Server.{Config, Connection, may_read}
use sodp.Server.Watch.{handle_resume}
use sodp.Server.Frames.{handle_frame}
use sodp.Server.Identity.{IsSame}
use sodp.Server.Streams.{IsKept, opened, handle_resume-keeps, handle_frame-keeps}

-- Every stream of the session is on a key that it may read.
pub record IsReadable (cfg : Config) (s : Session) : Type 0 where
  pub on_stream :
      (stream_id : ℕ) (w : WatchEntry)
      → IdMap.get s.watches stream_id ≡ some w
      → may_read cfg s w.state_key ≡ true

-- What a key finds in a map after one entry is set or removed.
found_at :
    (b : Bool) {new old : Option WatchEntry} {w : WatchEntry}
    → (if b then new else old) ≡ some w
    → ((b ≡ true) × (new ≡ some w)) ⊎ (old ≡ some w)
found_at true h = inl (refl, h)
found_at false h = inr h

module _ (cfg : Config) where
  may_read-IsSame :
      (s t : Session) (key : String) → IsSame s t → may_read cfg t key ≡ may_read cfg s key
  may_read-IsSame s t key e = rw (e.sub, e.claims) refl

  IsReadable-IsSame : (s t : Session) → IsSame s t → IsReadable cfg s → IsReadable cfg t
  IsReadable-IsSame s t e r = record {
    on_stream = λ id w h.
        may_read-IsSame s t w.state_key e
        ∙ r.on_stream id w (subst (λ m. IdMap.get m id ≡ some w) e.watches h);
  }

  IsReadable-opened :
      (s : Session) (key : String) (params : Option Value)
      → may_read cfg s key ≡ true
      → IsReadable cfg s
      → IsReadable cfg (opened s key params)
  unfolding allocate_stream add_watch
  IsReadable-opened s key params granted r = record {
    on_stream = λ id w h.
        let entry : WatchEntry = record { state_key = key; last_seq = 0; params = params } in
        elim (found_at (s.next_stream_id == id)
          (sym (get-insert s.watches s.next_stream_id id entry) ∙ h)) [
            | inr old ↦ r.on_stream id w old
            | inl (e, new) ↦
                subst (λ v. may_read cfg s v.state_key ≡ true) (some-injective _ _ new) granted
          ];
  }

  IsReadable-remove_watch :
      (s : Session) (gone : ℕ) → IsReadable cfg s → IsReadable cfg (remove_watch s gone).0
  unfolding remove_watch
  IsReadable-remove_watch s gone r = record {
    on_stream = λ id w h. elim (found_at (gone == id) (sym (get-remove s.watches gone id) ∙ h)) [
      | inr old ↦ r.on_stream id w old
      | inl (e, new) ↦ absurd (none-ne-some _ new)
    ];
  }

  IsReadable-ack_stream :
      (s : Session) (acked seq : ℕ) → IsReadable cfg s → IsReadable cfg (ack_stream s acked seq)
  unfolding ack_stream
  IsReadable-ack_stream s acked seq r = elim (Option-cases (IdMap.get s.watches acked)) [
    | inl e ↦ rw (e, ack_stream) r
    | inr (v, e) ↦
        rw (e, ack_stream)
          (record {
            on_stream = λ id w h.
                let entry : WatchEntry = record v { last_seq = seq } in
                elim (found_at (acked == id) (sym (get-insert s.watches acked id entry) ∙ h)) [
                  | inr old ↦ r.on_stream id w old
                  | inl (same, new) ↦
                      subst (λ u. may_read cfg s u.state_key ≡ true) (some-injective _ _ new)
                        (r.on_stream acked v e)
                ];
          })
  ]

  pub IsReadable-IsKept : IsKept cfg (IsReadable cfg)
  IsReadable-IsKept = record {
    same = IsReadable-IsSame;
    open_readable = IsReadable-opened;
    remove = IsReadable-remove_watch;
    ack = IsReadable-ack_stream;
  }

  -- A RESUME leaves the session with streams on keys that the ACL lets it read, if it had no other
  -- ones before.
  pub handle_resume-IsReadable :
      (now : ℕ) (f : Frame) (c : Connection)
      → IsReadable cfg c.session
      → IsReadable cfg (handle_resume cfg now f c).session
  handle_resume-IsReadable = handle_resume-keeps cfg (IsReadable cfg) IsReadable-IsKept

  pub handle_frame-IsReadable :
      (now : ℕ) (f : Frame) (c : Connection)
      → IsReadable cfg c.session
      → IsReadable cfg (handle_frame cfg now f c).session
  handle_frame-IsReadable = handle_frame-keeps cfg (IsReadable cfg) IsReadable-IsKept
