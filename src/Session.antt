-- ===== src/Session.antt =====
-- src/session.rs: what one connection keeps. A time is in nanoseconds, as `Instant` counts it.
pub mod Rate
use sodp.Base.{
  ℕ, ◌+◌, ◌-◌, ◌/◌, ◌%◌, ◌^◌, String, Bool, true, false, Option, none, some, List, [], ◌∷◌, ◌++◌,
  ◌&&◌, ltb, leb, str_eq, if◌then◌else◌,
}
use sodp.Base.IdMap
use sodp.Base.IdMap.{IdMap}
use sodp.Json.{Value, obj, end}

pub record WatchEntry : Type 0 where
  pub state_key : String
  pub last_seq : ℕ
  pub params : Option Value

pub record PresenceEntry : Type 0 where
  pub state_key : String
  pub path : String

pub record RateLimiter : Type 0 where
  pub max_per_sec : ℕ
  pub count : ℕ
  pub window_start : ℕ

abbrev pub nanos_per_sec : ℕ
nanos_per_sec = 1_000_000_000

unfoldable pub new_limiter : ℕ → ℕ → RateLimiter
new_limiter now max_per_sec = record { max_per_sec = max_per_sec; count = 0; window_start = now }

-- `self.window_start.elapsed().as_secs()`; a clock that went back counts as no time.
abbrev pub elapsed_secs : ℕ → ℕ → ℕ
elapsed_secs now start = (now - start) / nanos_per_sec

abbrev open_window : ℕ → RateLimiter → RateLimiter
open_window now l =
    if leb 1 (elapsed_secs now l.window_start)
    then record l { count = 0; window_start = now }
    else l

abbrev take_slot : RateLimiter → RateLimiter × Bool
take_slot l =
    if ltb l.count l.max_per_sec then (record l { count = l.count + 1 }, true) else (l, false)

unfoldable pub allow : ℕ → RateLimiter → RateLimiter × Bool
allow now l = take_slot (open_window now l)

-- `Option<RateLimiter>`: no limiter lets everything pass.
unfoldable pub allow_optional : ℕ → Option RateLimiter → Option RateLimiter × Bool
unfolding allow
allow_optional now none = (none, true)
allow_optional now (some l) = let (l', passed) = allow now l in (some l', passed)

pub record Session : Type 0 where
  pub id : String
  pub sub : Option String
  pub claims : Value
  pub watches : IdMap WatchEntry
  pub presence : List PresenceEntry
  pub write_limiter : Option RateLimiter
  pub watch_limiter : Option RateLimiter
  pub next_stream_id : ℕ
  pub seq_counter : ℕ

abbrev map_limiter : ℕ → Option ℕ → Option RateLimiter
map_limiter now none = none
map_limiter now (some m) = some (new_limiter now m)

-- The fresh UUID is an argument.
unfoldable pub new : String → ℕ → Option ℕ → Option ℕ → Session
unfolding new_limiter
new uuid now write_limit watch_limit = record {
  id = uuid;
  sub = none;
  claims = obj end;
  watches = [];
  presence = [];
  write_limiter = map_limiter now write_limit;
  watch_limiter = map_limiter now watch_limit;
  next_stream_id = 10;
  seq_counter = 0;
}

-- Counters wrap, as in a build without overflow checks.
unfoldable pub next_seq : Session → Session × ℕ
next_seq s = let n = (s.seq_counter + 1) % 2 ^ 64 in (record s { seq_counter = n }, n)

unfoldable pub allocate_stream : Session → Session × ℕ
allocate_stream s =
    (record s { next_stream_id = (s.next_stream_id + 1) % 2 ^ 32 }, s.next_stream_id)

unfoldable pub add_watch : Session → ℕ → String → Option Value → Session
add_watch s stream_id state_key params = record s {
  watches =
      IdMap.insert s.watches stream_id
        (record { state_key = state_key; last_seq = 0; params = params });
}

unfoldable pub remove_watch : Session → ℕ → Session × Option WatchEntry
remove_watch s stream_id =
    (record s { watches = IdMap.remove s.watches stream_id }, IdMap.get s.watches stream_id)

unfoldable pub ack_stream : Session → ℕ → ℕ → Session
ack_stream s stream_id seq = elim (IdMap.get s.watches stream_id) [
  | none ↦ s
  | some w ↦ record s { watches = IdMap.insert s.watches stream_id (record w { last_seq = seq }) }
]

-- The first entry on the key, in the order of the map.
unfoldable pub find_watch : String → IdMap WatchEntry → Option ℕ
find_watch state_key [] = none
find_watch state_key ((id, e) ∷ rest) =
    if str_eq e.state_key state_key then some id else find_watch state_key rest

unfoldable pub watch_stream_id : Session → String → Option ℕ
unfolding find_watch
watch_stream_id s state_key = find_watch state_key s.watches

unfoldable pub has_presence : String → String → List PresenceEntry → Bool
has_presence state_key path [] = false
has_presence state_key path (e ∷ rest) =
    if str_eq e.state_key state_key && str_eq e.path path
    then true
    else has_presence state_key path rest

unfoldable pub add_presence : Session → String → String → Session
unfolding has_presence
add_presence s state_key path =
    if has_presence state_key path s.presence
    then s
    else record s { presence = s.presence ++ (record { state_key = state_key; path = path } ∷ []) }
