-- ===== src/Server/Startup.antt =====
-- src/server.rs: the server's configuration from the environment, and its construction.
pub mod Keys
use sodp.Base.{
  ℕ, ◌+◌, ◌-◌, ◌*◌, ◌^◌, String, Bool, true, false, Option, none, some, ltb, leb, ◌==◌, ◌&&◌,
  if◌then◌else◌,
}
use sodp.Base.Text.{◌⧺◌, starts_with}
use sodp.Base.IdMap.{IdMap}
use sodp.Frame.{Bytes}
use Prim.Native.Char.{code}
use sodp.Acl.{AclRegistry}
use sodp.Schema.{SchemaRegistry}
use sodp.Log.{Codec}
use sodp.Fanout.{FanoutBus, empty_bus}
use sodp.State
use sodp.State.{StateStore, open_store}
use sodp.Server.Handshake.{JwtConfig, hs256, rs256}
use sodp.Server.Lifecycle.{Settings}

-- `std::env::var(name).ok()`
abbrev pub Env : Type 0
Env = String → Option String

abbrev digit_of : ℕ → Option ℕ
digit_of c = if leb 0x30 c && leb c 0x39 then some (c - 0x30) else none

-- The digits of a number below `bound`, after those that make `acc`.
unfoldable pub parse_digits : ℕ → ℕ → String → Option ℕ
parse_digits bound acc String.[] = some acc
parse_digits bound acc (String.◌∷◌ c s) = elim (digit_of (code c)) [
  | none ↦ none
  | some d ↦ elim (ltb (acc * 10 + d) bound) [
    | true ↦ parse_digits bound (acc * 10 + d) s
    | false ↦ none
  ]
]

-- `s.parse::<u…>().ok()`: digits, after a plus sign or not.
unfoldable pub parse_uint : ℕ → String → Option ℕ
unfolding parse_digits
parse_uint bound String.[] = none
parse_uint bound (String.◌∷◌ c String.[]) = parse_digits bound 0 (String.◌∷◌ c String.[])
parse_uint bound (String.◌∷◌ c (String.◌∷◌ d s)) =
    if code c == 0x2B
    then parse_digits bound 0 (String.◌∷◌ d s)
    else parse_digits bound 0 (String.◌∷◌ c (String.◌∷◌ d s))

abbrev pub number_var : Env → ℕ → String → Option ℕ
number_var env bound name = elim (env name) [ none ↦ none | some s ↦ parse_uint bound s ]

abbrev pub unwrap_or : Option ℕ → ℕ → ℕ
unwrap_or none d = d
unwrap_or (some n) d = n

abbrev pub default_backpressure_limit : ℕ
default_backpressure_limit = 1024

-- The limits that `read_limits` gives; `usize` has 64 bits.
pub record Limits : Type 0 where
  pub max_connections : Option ℕ
  pub max_frame_bytes : ℕ
  pub ws_ping_interval : ℕ
  pub rate_writes : Option ℕ
  pub rate_watches : Option ℕ
  pub backpressure_limit : ℕ

unfoldable pub read_limits : Env → Limits
unfolding parse_uint
read_limits env = record {
  max_connections = number_var env (2 ^ 64) "SODP_MAX_CONNECTIONS";
  max_frame_bytes = unwrap_or (number_var env (2 ^ 64) "SODP_MAX_FRAME_BYTES") 1_048_576;
  ws_ping_interval = unwrap_or (number_var env (2 ^ 64) "SODP_WS_PING_INTERVAL") 25;
  rate_writes = number_var env (2 ^ 32) "SODP_RATE_WRITES_PER_SEC";
  rate_watches = number_var env (2 ^ 32) "SODP_RATE_WATCHES_PER_SEC";
  backpressure_limit =
      unwrap_or (number_var env (2 ^ 64) "SODP_BACKPRESSURE_LIMIT") default_backpressure_limit;
}

-- `pem.replace("\\n", "\n")`; `skip` stands after a backslash that was replaced.
unfoldable pub unescape : Bool → String → String
unescape skip String.[] = String.[]
unescape true (String.◌∷◌ c s) = unescape false s
unescape false (String.◌∷◌ c s) = elim (code c == 0x5C && starts_with 0x6E s) [
  | true ↦ "\n" ⧺ unescape true s
  | false ↦ String.◌∷◌ c (unescape false s)
]

-- The second source of a key; a file that cannot be read is logged and passed over.
abbrev pub key_file : Env → (String → Option String) → Option String
key_file env read_to_string = elim (env "SODP_JWT_PUBLIC_KEY_FILE") [
  | none ↦ none
  | some path ↦ read_to_string path
]

-- `read_to_string` is the file system: the contents of a file, or none where it cannot be read.
unfoldable pub read_jwt_config : Env → (String → Option String) → Option JwtConfig
unfolding unescape
read_jwt_config env read_to_string = elim (env "SODP_JWT_PUBLIC_KEY") [
  | some pem ↦ some (rs256 (unescape false pem))
  | none ↦ elim (key_file env read_to_string) [
    | some pem ↦ some (rs256 pem)
    | none ↦ elim (env "SODP_JWT_SECRET") [ some secret ↦ some (hs256 secret) | none ↦ none ]
  ]
]

-- `AclRegistry::from_file` with its reading and parsing; an error leaves the server without ACL.
unfoldable pub read_acl : Env → (String → Option AclRegistry) → Option AclRegistry
read_acl env from_file = elim (env "SODP_ACL_FILE") [ none ↦ none | some path ↦ from_file path ]

-- In seconds; `now` is the time since the epoch.
unfoldable pub exp_remaining : ℕ → ℕ → ℕ
exp_remaining now exp = if ltb now exp then exp - now else 0

-- The fields of `SodpServer`, without the write mode; of the cluster, whether there is one.
pub record SodpServer : Type 0 where
  pub state : StateStore
  pub fanout : FanoutBus
  pub schema : Option SchemaRegistry
  pub acl : Option AclRegistry
  pub jwt_config : Option JwtConfig
  pub connections : ℕ
  pub cluster : Bool
  pub limits : Limits

-- What the constructors share.
module _ (env : Env) (read_to_string : String → Option String)
    (from_file : String → Option AclRegistry) where
  abbrev build : StateStore → Option SchemaRegistry → SodpServer
  build state schema = record {
    state = state;
    fanout = empty_bus;
    schema = schema;
    acl = read_acl env from_file;
    jwt_config = read_jwt_config env read_to_string;
    connections = 0;
    cluster = false;
    limits = read_limits env;
  }

  unfoldable pub new : SodpServer
  unfolding read_limits read_acl read_jwt_config
  new = build State.new none

  -- `files` are the contents of the log directory.
  unfoldable pub new_persistent : Codec → IdMap Bytes → SodpServer
  unfolding read_limits read_acl read_jwt_config
  new_persistent codec files = build (open_store codec files) none

  abbrev pub store_at : Codec → Option (IdMap Bytes) → StateStore
  store_at codec none = State.new
  store_at codec (some files) = open_store codec files

  -- `schema` is what the schema file says; a file that cannot be read or parsed is an error.
  unfoldable pub with_schema :
      Codec → Option (IdMap Bytes) → Option SchemaRegistry → Option SodpServer
  unfolding read_limits read_acl read_jwt_config
  with_schema codec log_dir none = none
  with_schema codec log_dir (some schema) = some (build (store_at codec log_dir) (some schema))

-- What a connection reads of the server.
abbrev pub settings_of : SodpServer → Settings
settings_of server = record {
  jwt_config = server.jwt_config;
  max_frame_bytes = server.limits.max_frame_bytes;
  ws_ping_interval = server.limits.ws_ping_interval;
  rate_writes_per_sec = server.limits.rate_writes;
  rate_watches_per_sec = server.limits.rate_watches;
  backpressure_limit = server.limits.backpressure_limit;
}
