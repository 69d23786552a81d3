-- ===== src/Server/Tracking.antt =====
-- A watcher's copy of a key while other sessions write: where its queue leads.
use sodp.Base.{
  ℕ, ◌≡◌, refl, Bool, ◌&&◌, Option, some, List, [], ◌∷◌, ◌++◌, arith, retain, ◌==◌, inl, inr,
  Bool-cases, Option-cases,
}
use sodp.Json.{Value}
use sodp.Delta.{DeltaOp}
use sodp.Delta.Apply.{apply_ops}
use sodp.Frame.{Bytes, OutboundMsg, arc_delta, frame, bytes, ping, pong}
use sodp.Fanout.{Subscriber}
use sodp.Fanout.Delivery.{messages_to}
use sodp.Server.Following.{follow}

pub follow-append :
    (decode : Bytes → Option (List DeltaOp)) (sid : ℕ) (x : Value) (ms ns : List OutboundMsg)
    → follow decode sid x (ms ++ ns) ≡ follow decode sid (follow decode sid x ms) ns
unfolding follow
follow-append decode sid x [] ns = refl
follow-append decode sid x (arc_delta id body_mp ∷ ms) ns = elim (Bool-cases (id == sid)) [
  | inr other ↦ rw (other, follow) (follow-append decode sid x ms ns)
  | inl same ↦ elim (Option-cases (decode body_mp)) [
    | inl bad ↦ rw (same, follow) (rw (bad, follow) (follow-append decode sid x ms ns))
    | inr (ops, e) ↦
        rw (same, follow) (rw (e, follow) (follow-append decode sid (apply_ops x ops) ms ns))
  ]
]
follow-append decode sid x (frame f ∷ ms) ns = follow-append decode sid x ms ns
follow-append decode sid x (bytes b ∷ ms) ns = follow-append decode sid x ms ns
follow-append decode sid x (ping ∷ ms) ns = follow-append decode sid x ms ns
follow-append decode sid x (pong b ∷ ms) ns = follow-append decode sid x ms ns

-- The subscribers that a handle's stream is.
abbrev pub is_stream : ℕ → ℕ → Subscriber → Bool
is_stream id sid t = t.write == id && t.stream_id == sid

module _ (decode : Bytes → Option (List DeltaOp)) (id sid : ℕ) (body_mp : Bytes) where
  -- Messages of other streams are passed over.
  pub follow_elsewhere :
      (x : Value) (subs : List Subscriber)
      → retain (is_stream id sid) subs ≡ []
      → follow decode sid x (messages_to id body_mp subs) ≡ x
  unfolding follow
  follow_elsewhere x [] h = refl
  follow_elsewhere x (t ∷ rest) h = elim (Bool-cases (t.write == id)) [
    | inr other ↦ rw other (follow_elsewhere x rest (ground arith))
    | inl here ↦ elim (Bool-cases (t.stream_id == sid)) [
      | inr stream ↦ rw here (rw (stream, follow) (follow_elsewhere x rest (ground arith)))
      | inl same ↦ ground arith
    ]
  ]

  -- The one message of the stream is applied.
  pub follow_stream :
      (x : Value) (subs : List Subscriber) (s : Subscriber) (ops : List DeltaOp)
      → retain (is_stream id sid) subs ≡ s ∷ []
      → decode body_mp ≡ some ops
      → follow decode sid x (messages_to id body_mp subs) ≡ apply_ops x ops
  unfolding follow
  follow_stream x [] s ops h e = ground arith
  follow_stream x (t ∷ rest) s ops h e = elim (Bool-cases (t.write == id)) [
    | inr other ↦ rw other (follow_stream x rest s ops (ground arith) e)
    | inl here ↦ elim (Bool-cases (t.stream_id == sid)) [
      | inr stream ↦ rw here (rw (stream, follow) (follow_stream x rest s ops (ground arith) e))
      | inl same ↦
          let none_left : retain (is_stream id sid) rest ≡ [] = ground arith in
          rw here
            (rw (same, follow) (rw (e, follow) (follow_elsewhere (apply_ops x ops) rest none_left)))
    ]
  ]
