-- ===== src/Middleware/Acl.antt =====
-- sodp-middleware/src/acl.rs: the access rules of the middleware crate.
use sodp.Base.{
  ℕ, String, Bool, true, false, Option, none, some, List, [], ◌∷◌, map, str_eq, zero, suc, ltb,
  ◌||◌, ◌==◌, if◌then◌else◌,
}
use sodp.Base.Text.{◌⧺◌}
use Prim.Native.Char.{code}

pub data Permission : Type 0 where
  anyone : Permission
  match_sub : Permission
  specific : String → Permission

-- `RawRule`, as it is parsed.
pub record RawRule : Type 0 where
  pub key : String
  pub read : String
  pub write : String

pub record AclRule : Type 0 where
  pub key_pattern : String
  pub read : Permission
  pub write : Permission

pub record AclRegistry : Type 0 where
  pub rules : List AclRule

abbrev pub from_str : String → Permission
from_str s = if str_eq s "*" then anyone else if str_eq s "{sub}" then match_sub else specific s

-- `Some(caller) == key_sub`
abbrev pub same_sub : String → Option String → Bool
same_sub caller none = false
same_sub caller (some s) = str_eq caller s

unfoldable pub allows : Permission → Option String → Option String → Bool
allows permission none key_sub = false
allows anyone (some caller) key_sub = true
allows match_sub (some caller) key_sub = same_sub caller key_sub
allows (specific fixed) (some caller) key_sub = str_eq caller fixed

-- `from_file` once the file is read and parsed.
unfoldable pub from_file : List RawRule → AclRegistry
from_file raw = record {
  rules =
      map (λ r. record { key_pattern = r.key; read = from_str r.read; write = from_str r.write })
        raw;
}

-- `s.starts_with(prefix)`
unfoldable pub begins_with : String → String → Bool
begins_with s String.[] = true
begins_with String.[] (String.◌∷◌ d prefix) = false
begins_with (String.◌∷◌ c s) (String.◌∷◌ d prefix) =
    let rest = begins_with s prefix in if code c == code d then rest else false

-- `s.contains(text)`
unfoldable pub contains_text : String → String → Bool
unfolding begins_with
contains_text String.[] text = begins_with String.[] text
contains_text (String.◌∷◌ c s) text = begins_with (String.◌∷◌ c s) text || contains_text s text

abbrev placeholder : String
placeholder = "{sub}"

-- `s.replace("{sub}", sub)`; `skip` characters are left of a placeholder that was replaced.
unfoldable pub replace_sub : ℕ → String → String → String
unfolding begins_with
replace_sub skip String.[] sub = String.[]
replace_sub (suc skip) (String.◌∷◌ c s) sub = replace_sub skip s sub
replace_sub zero (String.◌∷◌ c s) sub = elim (begins_with (String.◌∷◌ c s) placeholder) [
  | true ↦ sub ⧺ replace_sub 4 s sub
  | false ↦ String.◌∷◌ c (replace_sub 0 s sub)
]

-- `sub.unwrap_or("")`
abbrev pub or_empty : Option String → String
or_empty none = ""
or_empty (some s) = s

unfoldable pub expanded : String → Option String → String
unfolding contains_text replace_sub
expanded pattern sub =
    if contains_text pattern placeholder then replace_sub 0 pattern (or_empty sub) else pattern

unfoldable pub captured : String → Option String → Option String
unfolding contains_text
captured pattern sub = if contains_text pattern placeholder then sub else none

abbrev pub star : ℕ
star = 0x2A

-- The characters of one byte.
abbrev pub ascii_bound : ℕ
ascii_bound = 0x80

abbrev pub is_empty : String → Bool
is_empty String.[] = true
is_empty (String.◌∷◌ c s) = false

-- The loop over `rest_s[i..]`, from the whole text to the empty one. The bound counts bytes: in a
-- character of more than one byte the slice panics, which is `none`.
unfoldable pub try_suffixes : (String → Option Bool) → String → Option Bool
try_suffixes matches String.[] = matches String.[]
try_suffixes matches (String.◌∷◌ c s) = elim (matches (String.◌∷◌ c s)) [
  | none ↦ none
  | some true ↦ some true
  | some false ↦ if ltb (code c) ascii_bound then try_suffixes matches s else none
]

unfoldable pub glob_match : String → String → Option Bool
unfolding try_suffixes
glob_match s String.[] = some (is_empty s)
glob_match s (String.◌∷◌ pc pattern) = elim (code pc == star) [
  | true ↦ elim (is_empty pattern) [
    | true ↦ some true
    | false ↦ try_suffixes (λ t. glob_match t pattern) s
  ]
  | false ↦ elim s [
    | String.[] ↦ some false
    | String.◌∷◌ sc rest ↦ elim (code sc == code pc) [
      | true ↦ glob_match rest pattern
      | false ↦ some false
    ]
  ]
]

-- What `pattern_match` gives: nothing, what the pattern captured, or a panic.
pub data Matched : Type 0 where
  unmatched : Matched
  matched : Option String → Matched
  panicked : Matched

abbrev pub matched_by : Option Bool → Option String → Matched
matched_by none key_sub = panicked
matched_by (some true) key_sub = matched key_sub
matched_by (some false) key_sub = unmatched

unfoldable pub pattern_match : String → String → Option String → Matched
unfolding glob_match expanded captured
pattern_match key pattern sub =
    matched_by (glob_match key (expanded pattern sub)) (captured pattern sub)

abbrev pub perm_of : AclRule → Bool → Permission
perm_of rule true = rule.write
perm_of rule false = rule.read

-- `write` chooses the permission that the callers' closures pick.
unfoldable pub check_rules : List AclRule → String → Option String → Bool → Option Bool
unfolding pattern_match allows
check_rules [] key sub write = some false
check_rules (rule ∷ rules) key sub write = elim (pattern_match key rule.key_pattern sub) [
  | unmatched ↦ check_rules rules key sub write
  | matched key_sub ↦ some (allows (perm_of rule write) sub key_sub)
  | panicked ↦ none
]

unfoldable pub check : AclRegistry → String → Option String → Bool → Option Bool
unfolding check_rules
check registry key sub write = check_rules registry.rules key sub write

unfoldable pub can_read : AclRegistry → String → Option String → Option Bool
unfolding check
can_read registry key sub = check registry key sub false

unfoldable pub can_write : AclRegistry → String → Option String → Option Bool
unfolding check
can_write registry key sub = check registry key sub true
