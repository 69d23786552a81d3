-- ===== src/Examples/Values.antt =====
-- Documents, frames on the wire, rate limiters and broadcasts.
use sodp.Base.{
  String, ◌≡◌, sym, ◌∙◌, str_eq, eq_iff, false≢true, refl, some, [], ◌∷◌, false, arith, ◌≤◌, ◌+◌,
}
use sodp.Base.Text.{contains, key_lt}
use sodp.Json.{Value, num, str, obj, field, end, pos_int, WellFormed}
use sodp.Delta.{diff}
use sodp.Delta.Segments.{IsSafeKey}
use sodp.Delta.Apply.{apply_ops, SafeKeys}
use sodp.Delta.RoundTrip.{diff-apply}
use sodp.Paths.{slash}
use sodp.Frame.{delta_bytes, delta_type, arc_delta}
use sodp.Frame.Wire.{read_frame, read_frame-delta_bytes}
use sodp.Middleware.{new_window}
use sodp.Middleware.Agreement.{verdicts, window_verdicts, limiters_agree}
use sodp.Session.{new_limiter, RateLimiter}
use sodp.Session.Rate.{IsWithin, passed, passed_in_second}
use sodp.Base.IdMap
use sodp.Base.Dict
use sodp.Fanout.{WriteHandle, Handles, FanoutBus, broadcast_encoded}
use sodp.Fanout.Delivery.{broadcast_encoded-delivers}

abbrev pub old_doc : Value
old_doc = obj (field "count" (num (pos_int 1)) (field "name" (str "a") end))

abbrev pub new_doc : Value
new_doc =
    obj
      (field "count" (num (pos_int 2)) (field "user" (obj (field "id" (num (pos_int 7)) end)) end))

pub old_doc-WellFormed : WellFormed old_doc
unfolding WellFormed key_lt
old_doc-WellFormed = ((refl, (tt, tt)), (tt, (tt, tt)))

pub new_doc-WellFormed : WellFormed new_doc
unfolding WellFormed key_lt
new_doc-WellFormed = ((refl, (tt, tt)), (tt, (((tt, tt), (tt, tt)), tt)))

safe_key : (k : String) → str_eq k "" ≡ false → contains slash k ≡ false → IsSafeKey k
safe_key k n f = record { nonempty = λ e. false≢true (sym n ∙ (eq_iff k "").1 e); slash_free = f }

pub old_doc-SafeKeys : SafeKeys old_doc
unfolding SafeKeys contains
old_doc-SafeKeys = (safe_key "count" refl refl, tt, (safe_key "name" refl refl, tt, tt))

pub new_doc-SafeKeys : SafeKeys new_doc
unfolding SafeKeys contains
new_doc-SafeKeys = (
  safe_key "count" refl refl,
  tt,
  (safe_key "user" refl refl, (safe_key "id" refl refl, tt, tt), tt),
)

-- The first document with one field changed and one more.
abbrev pub longer_doc : Value
longer_doc =
    obj (field "count" (num (pos_int 2)) (field "name" (str "a") (field "user" (str "b") end)))

pub longer_doc-WellFormed : WellFormed longer_doc
unfolding WellFormed key_lt
longer_doc-WellFormed = ((refl, (refl, (tt, tt))), (tt, (tt, (tt, tt))))

pub longer_doc-SafeKeys : SafeKeys longer_doc
unfolding SafeKeys contains
longer_doc-SafeKeys = (
  safe_key "count" refl refl,
  tt,
  (safe_key "name" refl refl, tt, (safe_key "user" refl refl, tt, tt)),
)

diff-apply_example : apply_ops old_doc (diff old_doc new_doc) ≡ new_doc
diff-apply_example =
    diff-apply old_doc new_doc old_doc-WellFormed new_doc-WellFormed old_doc-SafeKeys
      new_doc-SafeKeys

read_frame-delta_bytes_example :
    read_frame (delta_bytes 70_000 300 (1 ∷ 2 ∷ [])) ≡ some (delta_type, 70_000, 300, 1 ∷ 2 ∷ [])
read_frame-delta_bytes_example =
    read_frame-delta_bytes 70_000 300 (1 ∷ 2 ∷ []) (omega arith) (omega arith)

-- A limiter that has let one request pass of two.
abbrev limiter : RateLimiter
limiter = record { max_per_sec = 2; count = 1; window_start = 0 }

limiter-IsWithin : IsWithin limiter
limiter-IsWithin = record { bounded = omega arith }

passed_in_second_example : passed limiter (5 ∷ 1_000_000_000 ∷ 1_000_000_001 ∷ []) + 1 ≤ 4
passed_in_second_example =
    passed_in_second limiter 5 (5 ∷ 1_000_000_000 ∷ 1_000_000_001 ∷ []) limiter-IsWithin
      ((omega arith, omega arith), ((omega arith, omega arith), ((omega arith, omega arith), tt)))

limiters_agree_example :
    verdicts (new_limiter 0 1) (5 ∷ 6 ∷ 1_000_000_000 ∷ [])
    ≡ window_verdicts (new_window 0 1) (5 ∷ 6 ∷ 1_000_000_000 ∷ [])
limiters_agree_example = limiters_agree 0 1 (5 ∷ 6 ∷ 1_000_000_000 ∷ []) (omega arith)

abbrev pub idle : WriteHandle
idle = record { capacity = 4; outbound = []; closed = false; cancelled = false }

abbrev pub handles : Handles
handles = (1, idle) ∷ (2, idle) ∷ []

abbrev pub bus : FanoutBus
bus = record {
  subscriptions =
      (
        "doc",
        record { session_id = "alice"; stream_id = 10; write = 1 }
            ∷ record { session_id = "bob"; stream_id = 12; write = 2 }
            ∷ record { session_id = "bob"; stream_id = 13; write = 2 }
            ∷ [],
      )
      ∷ [];
}

-- The writer's own session gets nothing; bob's two streams get the delta.
broadcast_encoded-delivers_example :
    IdMap.get (broadcast_encoded bus handles "doc" (9 ∷ []) (some "alice")).1 2
    ≡ some (record idle { outbound = arc_delta 12 (9 ∷ []) ∷ arc_delta 13 (9 ∷ []) ∷ [] })
unfolding Dict.get
broadcast_encoded-delivers_example =
    broadcast_encoded-delivers bus handles "doc" (9 ∷ []) (some "alice") 2 idle
      (unfold IdMap.get in refl) refl (unfold Dict.get in omega arith)
