-- ===== src/Examples/Peers.antt =====
-- Two nodes that share Redis, and the access rules of the middleware.
use sodp.Base.{
  All, ℕ, String, ◌≡◌, ◌↔◌, refl, none, some, Option, Bool, true, false, List, [], ◌∷◌, ◌==◌,
  if◌then◌else◌, str_eq, arith,
}
use sodp.Base.Text.{◌⧺◌}
use sodp.Json.{Value, null, bool}
use sodp.Frame.{Bytes}
use sodp.Server.{SyncMsg, sync, sync_delete}
use sodp.Cluster.{Codecs, run_subscriber_loop}
use sodp.Cluster.Replication.{
  Encodes, notices_of, commands_of, from_others, broadcast_all, run_subscriber_loop-replicates,
}
use sodp.State
use sodp.State.{StateStore, load_entries}
use sodp.State.Loading.{IsNewest, load_entries-IsNewest}
use sodp.Middleware.Acl.{AclRegistry, glob_match, check, can_write}
use sodp.Middleware.Globs.{Fits, IsAscii, IsStarFree, glob_match_iff}
use sodp.Middleware.Rules.{Grants, user_rule, check_returns, can_write_own, can_write_star}
use sodp.Examples.Values.{handles, bus}

-- A message is its body after one byte for the node.
abbrev encode_message : String × Bytes → Option Bytes
encode_message (node, body) = some ((if str_eq node "a" then 1 else 2) ∷ body)

abbrev decode_message : Bytes → Option (String × Bytes)
decode_message [] = none
decode_message (b ∷ body) = some (if b == 1 then "a" else "b", body)

abbrev codecs : Codecs
codecs = record {
  encode_entry = λ e. some (e.0 ∷ []);
  decode_entry = λ b. none;
  encode_message = encode_message;
  decode_message = decode_message;
  from_utf8 = λ b. none;
}

abbrev changes : List (String × SyncMsg)
changes = ("a", sync "doc" 5 null (7 ∷ [])) ∷ ("b", sync_delete "doc" (8 ∷ [])) ∷ []

changes-Encodes : All (Encodes codecs) changes
changes-Encodes = (
  record { entry = (5 ∷ [], refl); msg = 1 ∷ 7 ∷ []; encoded = refl; decoded = refl },
  (record { entry = tt; msg = 2 ∷ 8 ∷ []; encoded = refl; decoded = refl }, tt),
)

run_subscriber_loop-replicates_example :
    run_subscriber_loop codecs "b" (notices_of (commands_of codecs changes)) bus handles
    ≡ broadcast_all (from_others codecs "b" changes) bus handles
run_subscriber_loop-replicates_example =
    run_subscriber_loop-replicates codecs "b" changes bus handles changes-Encodes

abbrev loaded : List (String × ℕ × Value)
loaded = ("doc", 4, null) ∷ ("doc", 9, bool true) ∷ ("other", 2, null) ∷ []

load_entries-IsNewest_example :
    IsNewest "doc"
      (State.get State.new "doc")
      (State.get (load_entries State.new loaded) "doc")
      loaded
load_entries-IsNewest_example = load_entries-IsNewest State.new loaded "doc"

short-IsAscii : IsAscii "user.bo.a"
unfolding IsAscii
short-IsAscii = ground arith

glob_match_iff_example :
    (b : Bool) × (glob_match "user.bo.a" "*.a" ≡ some b) × ((b ≡ true) ↔ Fits "user.bo.a" "*.a")
glob_match_iff_example = glob_match_iff "user.bo.a" "*.a" short-IsAscii

abbrev registry : AclRegistry
registry = record { rules = user_rule ∷ [] }

check_returns_example :
    (b : Bool) × (check registry "user.bo.a" (some "bo") false ≡ some b)
    × ((b ≡ true) ↔ Grants "user.bo.a" (some "bo") false registry.rules)
check_returns_example = check_returns registry "user.bo.a" (some "bo") false short-IsAscii

can_write_own_example :
    (can_write registry "user.bo.a" (some "bo") ≡ some true)
    ↔ ((t : String) × ("user.bo.a" ≡ "user." ⧺ ("bo" ⧺ ("." ⧺ t))))
can_write_own_example =
    can_write_own "bo" "user.bo.a" short-IsAscii (unfold IsStarFree in (refl, (refl, tt)))

can_write_star_example : can_write registry "user.bo.a" (some "*") ≡ some true
can_write_star_example = can_write_star "bo" "a" short-IsAscii
