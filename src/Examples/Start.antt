-- ===== src/Examples/Start.antt =====
-- A server without keys in its environment, and a listener that lets two clients in.
use sodp.Base.{String, ◌≡◌, ◌↔◌, refl, none, some, Option, true}
use sodp.Base.{[]}
use sodp.Base.IdMap.{IdMap}
use sodp.Frame.{Bytes}
use sodp.Acl.{AclRegistry}
use sodp.Schema.{SchemaRegistry}
use sodp.Server.Startup.{Env, SodpServer, new}
use sodp.Server.Launch.{unset, launch, launch_open}
use sodp.Examples.Stores.{codec}
use sodp.Server.Listener.{Listener, idle}

abbrev bare : Env
bare name = none

abbrev no_file : String → Option String
no_file path = none

abbrev no_acl : String → Option AclRegistry
no_acl path = none

abbrev no_logs : String → IdMap Bytes
no_logs dir = []

abbrev no_schema : String → Option SchemaRegistry
no_schema path = none

-- Started without arguments.
abbrev started : SodpServer
started = new bare no_file no_acl

launch-started : launch bare no_file no_acl codec no_logs no_schema none none unset ≡ some started
unfolding launch
launch-started = refl

launch_open_example : (started.jwt_config ≡ none) ↔ (
    (bare "SODP_JWT_PUBLIC_KEY" ≡ none)
    × ((path : String) → bare "SODP_JWT_PUBLIC_KEY_FILE" ≡ some path → no_file path ≡ none)
    × (bare "SODP_JWT_SECRET" ≡ none))
launch_open_example =
    launch_open bare no_file no_acl codec no_logs no_schema none none unset started launch-started

-- One client is served, and the second and last one is let in.
abbrev busy : Listener
busy = record (idle (some 2)) { connections = 1; admitting = true; serving = 1 }
