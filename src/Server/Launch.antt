-- ===== src/Server/Launch.antt =====
-- src/main.rs: the server that is started, before it listens.
use sodp.Base.{
  ℕ, String, ◌≡◌, ◌↔◌, refl, sym, ap, ◌∙◌, Option, true, none, some, none-ne-some, some-injective,
  List, Option-cases, inl, inr,
}
use sodp.Base.IdMap.{IdMap}
use sodp.Json.{Value}
use sodp.Frame.{Bytes}
use sodp.Acl.{AclRegistry}
use sodp.Schema.{SchemaRegistry}
use sodp.Log.{Codec}
use sodp.State.{load_entries}
use sodp.Server.Startup.{Env, SodpServer, new, new_persistent, with_schema, read_jwt_config}
use sodp.Server.Startup.Keys.{read_jwt_config-none}

-- What comes of `SODP_REDIS_URL`: unset, no connection, no state, or the state that is there.
pub data Redis : Type 0 where
  unset : Redis
  connect_failed : Redis
  load_failed : Redis
  loaded : List (String × ℕ × Value) → Redis

-- `.filter(|s| !s.is_empty())`
abbrev pub nonempty : Option String → Option String
nonempty (some (String.◌∷◌ c s)) = some (String.◌∷◌ c s)
nonempty _ = none

-- Without Redis the server stays as it is; with it, the subscriber is started.
unfoldable pub join_cluster : Redis → SodpServer → SodpServer
join_cluster (loaded entries) server = record server {
  state = load_entries server.state entries;
  cluster = true;
}
join_cluster unset server = server
join_cluster connect_failed server = server
join_cluster load_failed server = server

-- The file system: the contents of a log directory, and of a schema file that can be read.
module _ (env : Env) (read_to_string : String → Option String)
    (acl_file : String → Option AclRegistry) (codec : Codec) (log_files : String → IdMap Bytes)
    (schema_file : String → Option SchemaRegistry) where
  abbrev files_at : Option String → Option (IdMap Bytes)
  files_at none = none
  files_at (some dir) = some (log_files dir)

  abbrev chosen : Option String → Option String → Option SodpServer
  chosen log_dir (some schema) =
      with_schema env read_to_string acl_file codec (files_at log_dir) (schema_file schema)
  chosen none none = some (new env read_to_string acl_file)
  chosen (some dir) none = some (new_persistent env read_to_string acl_file codec (log_files dir))

  -- The arguments of the program are the directory and the schema file; none is an error exit.
  unfoldable pub launch : Option String → Option String → Redis → Option SodpServer
  unfolding join_cluster
  launch log_dir schema redis = elim (chosen (nonempty log_dir) (nonempty schema)) [
    | none ↦ none
    | some server ↦ some (join_cluster redis server)
  ]

  join_cluster-jwt_config :
      (redis : Redis) (server : SodpServer)
      → (join_cluster redis server).jwt_config ≡ server.jwt_config
  unfolding join_cluster
  join_cluster-jwt_config (loaded entries) server = refl
  join_cluster-jwt_config unset server = refl
  join_cluster-jwt_config connect_failed server = refl
  join_cluster-jwt_config load_failed server = refl

  with_schema-jwt_config :
      (log_dir : Option (IdMap Bytes)) (schema : Option SchemaRegistry) (server : SodpServer)
      → with_schema env read_to_string acl_file codec log_dir schema ≡ some server
      → server.jwt_config ≡ read_jwt_config env read_to_string
  unfolding with_schema
  with_schema-jwt_config log_dir none server e = absurd (none-ne-some _ e)
  with_schema-jwt_config log_dir (some schema) server e =
      ap (λ s. s.jwt_config) (sym (some-injective _ _ e))

  chosen-jwt_config :
      (log_dir schema : Option String) (server : SodpServer)
      → chosen log_dir schema ≡ some server
      → server.jwt_config ≡ read_jwt_config env read_to_string
  unfolding new new_persistent
  chosen-jwt_config log_dir (some schema) server e = with_schema-jwt_config _ _ server e
  chosen-jwt_config none none server e = ap (λ s. s.jwt_config) (sym (some-injective _ _ e))
  chosen-jwt_config (some dir) none server e = ap (λ s. s.jwt_config) (sym (some-injective _ _ e))

  -- However the server is started, it asks for tokens as the environment says.
  pub launch-jwt_config :
      (log_dir schema : Option String) (redis : Redis) (server : SodpServer)
      → launch log_dir schema redis ≡ some server
      → server.jwt_config ≡ read_jwt_config env read_to_string
  unfolding launch
  launch-jwt_config log_dir schema redis server e =
      elim (Option-cases (chosen (nonempty log_dir) (nonempty schema))) [
        | inl failed ↦ absurd (none-ne-some _ (rw (failed, launch) at e))
        | inr (built, c) ↦
            ap (λ s. s.jwt_config) (sym (some-injective _ _ (rw (c, launch) at e)))
            ∙ join_cluster-jwt_config redis built
            ∙ chosen-jwt_config (nonempty log_dir) (nonempty schema) built c
      ]

  -- A server, however it is started, asks for no tokens exactly when the environment has neither a
  -- public key nor a secret, and names no key file or one that cannot be read.
  pub launch_open :
      (log_dir schema : Option String) (redis : Redis) (server : SodpServer)
      → launch log_dir schema redis ≡ some server
      → (server.jwt_config ≡ none) ↔ (
          (env "SODP_JWT_PUBLIC_KEY" ≡ none)
          × ((path : String)
              → env "SODP_JWT_PUBLIC_KEY_FILE" ≡ some path
              → read_to_string path ≡ none)
          × (env "SODP_JWT_SECRET" ≡ none))
  launch_open log_dir schema redis server e =
      rw (launch-jwt_config log_dir schema redis server e) (read_jwt_config-none env read_to_string)
