-- ===== src/Acl.antt =====
-- src/acl.rs: per-key access control.
pub mod Matching
pub mod Decisions
use sodp.Base.{
  ℕ, String, Bool, true, false, Option, none, some, List, [], ◌∷◌, str_eq, if◌then◌else◌, ◌==◌,
}
use sodp.Base.Text.{split, contains}
use sodp.Base.Dict
use sodp.Base.Dict.{Dict}
use sodp.Json.{Value, Items, nil, cons, str, arr, obj, null, bool, num, get, get_field}
use Prim.Native.Char.{code}

unfoldable pub preset_mappings : String → Option (Dict String)
preset_mappings name =
    if str_eq name "keycloak"
    then some (
        ("role", "realm_access.roles")
        ∷ ("group", "groups")
        ∷ ("perm", "permissions")
        ∷ ("tenant", "tenant_id")
        ∷ [])
    else if str_eq name "auth0"
    then some (
        ("role", "roles")
        ∷ ("group", "groups")
        ∷ ("perm", "permissions")
        ∷ ("tenant", "org_id")
        ∷ [])
    else if str_eq name "okta"
    then some (
        ("role", "groups")
        ∷ ("group", "groups")
        ∷ ("perm", "permissions")
        ∷ ("tenant", "tenant_id")
        ∷ [])
    else if str_eq name "cognito"
    then some (
        ("role", "cognito:groups")
        ∷ ("group", "cognito:groups")
        ∷ ("perm", "permissions")
        ∷ ("tenant", "custom:tenant_id")
        ∷ [])
    else if str_eq name "generic"
    then some (
        ("role", "roles")
        ∷ ("group", "groups")
        ∷ ("perm", "permissions")
        ∷ ("tenant", "tenant_id")
        ∷ [])
    else none

pub record AclRule : Type 0 where
  pub key : String
  pub read : String
  pub write : String

pub record AclFile : Type 0 where
  pub preset : Option String
  pub claim_mappings : Dict String
  pub rules : List AclRule

pub record AclRegistry : Type 0 where
  pub rules : List AclRule
  pub mappings : Dict String

abbrev or_no_mappings : Option (Dict String) → Dict String
or_no_mappings none = []
or_no_mappings (some m) = m

abbrev preset_of : Option String → Dict String
preset_of none = []
preset_of (some name) = or_no_mappings (preset_mappings name)

-- `mappings.extend(overrides)`
unfoldable pub extend : Dict String → Dict String → Dict String
extend m [] = m
extend m ((k, v) ∷ rest) = extend (Dict.insert m k v) rest

-- `from_file` once the file is read and parsed; an unknown preset counts as none.
unfoldable pub from_file : AclFile → AclRegistry
unfolding preset_mappings extend
from_file file = record {
  rules = file.rules;
  mappings = extend (preset_of file.preset) file.claim_mappings;
}

-- The loop of `match_pattern`, on the segments that are left of the pattern and of the key.
unfoldable pub match_segments : List String → List String → Option String → Option (Option String)
match_segments [] [] captured = some captured
match_segments [] (k ∷ ks) captured = none
match_segments (p ∷ ps) [] captured = none
match_segments (p ∷ ps) (k ∷ ks) captured =
    let capture = match_segments ps ks (some k) in
    let literal = match_segments ps ks captured in
    if str_eq p "*"
    then some captured
    else if str_eq p "{sub}"
    then capture
    else if str_eq k p
    then literal
    else none

abbrev pub dot : ℕ
dot = b'.'

unfoldable pub match_pattern : String → String → Option (Option String)
match_pattern pattern key = match_segments (split dot pattern) (split dot key) none

-- `current.as_object()?.get(part)?` for each part
unfoldable pub traverse : Value → List String → Option Value
traverse current [] = some current
traverse current (part ∷ parts) = elim (get_field current part) [
  | none ↦ none
  | some next ↦ traverse next parts
]

unfoldable pub resolve_claim : Value → String → Option Value
unfolding traverse
resolve_claim claims path = elim (get_field claims path) [
  | some v ↦ some v
  | none ↦ traverse claims (split dot path)
]

-- `p.split_once(':')`, on a text that holds a colon.
unfoldable pub split_once : ℕ → String → String × String
split_once c String.[] = ("", "")
split_once c (String.◌∷◌ x s) =
    let (prefix, rest) = split_once c s in
    if code x == c then (String.[], s) else (String.◌∷◌ x prefix, rest)

-- `arr.iter().any(|item| item.as_str() == Some(value))`
unfoldable pub any_text : Items → String → Bool
any_text nil value = false
any_text (cons (str s) rest) value = if str_eq s value then true else any_text rest value
any_text (cons _ rest) value = any_text rest value

unfoldable pub claim_has : Option Value → String → Bool
unfolding any_text
claim_has (some (arr items)) value = any_text items value
claim_has (some (str s)) value = str_eq s value
claim_has _ value = false

abbrev text_is : Option String → String → Bool
text_is none t = false
text_is (some s) t = str_eq s t

abbrev same_text : Option String → Option String → Bool
same_text none b = false
same_text (some a) b = text_is b a

abbrev pub colon : ℕ
colon = b':'

-- The value to look for: `{sub}` stands for what the key's pattern captured.
abbrev pub wanted_value : String → Option String → Option String
wanted_value raw_value captured = if str_eq raw_value "{sub}" then captured else some raw_value

abbrev pub look_up : Option String → Option String → Value → Bool
look_up none claim_path claims = false
look_up (some value) none claims = false
look_up (some value) (some claim_path) claims = claim_has (resolve_claim claims claim_path) value

unfoldable pub check_claim : String → Option String → Value → Dict String → Bool
check_claim perm captured claims mappings =
    let (prefix, raw_value) = split_once colon perm in
    look_up (wanted_value raw_value captured) (Dict.get mappings prefix) claims

unfoldable pub check_permission :
    String → Option String → Option String → Value → Dict String → Bool
check_permission perm sub captured claims mappings =
    if str_eq perm "*"
    then true
    else if str_eq perm "{sub}"
    then same_text sub captured
    else if contains colon perm
    then check_claim perm captured claims mappings
    else text_is sub perm

abbrev pub perm_of : AclRule → Bool → String
perm_of rule write = if write then rule.write else rule.read

unfoldable pub check_rules :
    List AclRule → Dict String → String → Option String → Value → Bool → Bool
check_rules [] mappings key sub claims write = false
check_rules (rule ∷ rules) mappings key sub claims write = elim (match_pattern rule.key key) [
  | some captured ↦ check_permission (perm_of rule write) sub captured claims mappings
  | none ↦ check_rules rules mappings key sub claims write
]

unfoldable pub check : AclRegistry → String → Option String → Value → Bool → Bool
check acl key sub claims write = check_rules acl.rules acl.mappings key sub claims write

unfoldable pub can_read : AclRegistry → String → Option String → Value → Bool
can_read acl key sub claims = check acl key sub claims false

unfoldable pub can_write : AclRegistry → String → Option String → Value → Bool
can_write acl key sub claims = check acl key sub claims true
