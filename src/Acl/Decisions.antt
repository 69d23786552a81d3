-- ===== src/Acl/Decisions.antt =====
-- Who is let in: the first rule that matches decides, and what a session without a subject or
-- claims can pass.
use sodp.Base.{
  String, ◌≡◌, ◌↔◌, refl, Bool, true, false, Option, none, some, List, [], ◌∷◌, arith, str_eq,
  eq_iff, Option-cases, inl, inr,
}
use sodp.Base.Text.{split-cons}
use sodp.Base.Dict.{Dict}
use sodp.Json.{Value, obj, end, get}
use sodp.Acl.{
  AclRule, AclRegistry, match_pattern, check_permission, check_claim, look_up, dot, perm_of,
  check_rules, check, claim_has, resolve_claim,
}

-- What it takes to be let in: a rule, none before which matches the key, and its permission.
pub data Grants (acl : AclRegistry) (key : String) (sub : Option String) (claims : Value)
    (write : Bool) : List AclRule → Type 0 where
  here :
      {rule : AclRule} {rules : List AclRule} (captured : Option String)
      → match_pattern rule.key key ≡ some captured
      → check_permission (perm_of rule write) sub captured claims acl.mappings ≡ true
      → Grants acl key sub claims write (rule ∷ rules)
  later :
      {rule : AclRule} {rules : List AclRule}
      → match_pattern rule.key key ≡ none
      → Grants acl key sub claims write rules
      → Grants acl key sub claims write (rule ∷ rules)

module _ (acl : AclRegistry) (key : String) (sub : Option String) (claims : Value)
    (write : Bool) where
  check_rules-Grants :
      (rules : List AclRule)
      → check_rules rules acl.mappings key sub claims write ≡ true
      → Grants acl key sub claims write rules
  unfolding check_rules
  check_rules-Grants [] h = ground arith
  check_rules-Grants (rule ∷ rules) h = elim (Option-cases (match_pattern rule.key key)) [
    | inl e ↦ later e (check_rules-Grants rules (ground arith))
    | inr (captured, e) ↦ here captured e (ground arith)
  ]

  Grants-check_rules :
      (rules : List AclRule)
      → Grants acl key sub claims write rules
      → check_rules rules acl.mappings key sub claims write ≡ true
  unfolding check_rules
  Grants-check_rules [] g = elim g [ ]
  Grants-check_rules (rule ∷ rules) (here captured e h) = rw (e, check_rules) h
  Grants-check_rules (rule ∷ rules) (later e g) = rw (e, check_rules) (Grants-check_rules rules g)

  -- Access is granted exactly when the first rule whose pattern matches the key grants it; with
  -- no such rule it is denied.
  pub check_iff :
      (check acl key sub claims write ≡ true) ↔ Grants acl key sub claims write acl.rules
  unfolding check
  check_iff = (check_rules-Grants acl.rules, Grants-check_rules acl.rules)

-- No path leads anywhere in empty claims.
resolve_empty : (path : String) → resolve_claim (obj end) path ≡ none
unfolding resolve_claim get
resolve_empty path = let (h, t, e) = split-cons dot path in rw e

look_up_empty : (value claim_path : Option String) → look_up value claim_path (obj end) ≡ false
look_up_empty none claim_path = refl
look_up_empty (some value) none = refl
look_up_empty (some value) (some path) = rw (resolve_empty path) (unfold claim_has in refl)

check_claim_empty :
    (perm : String) (captured : Option String) (mappings : Dict String)
    → check_claim perm captured (obj end) mappings ≡ false
unfolding check_claim
check_claim_empty perm captured mappings = look_up_empty _ _

-- A session that is not authenticated, whose claims are empty, passes the permission `*` and no
-- other, whatever the pattern captured and the claim mappings are.
pub check_permission_anonymous :
    (perm : String) (captured : Option String) (mappings : Dict String)
    → check_permission perm none captured (obj end) mappings ≡ str_eq perm "*"
unfolding check_permission
check_permission_anonymous perm captured mappings =
    rw (check_claim_empty perm captured mappings) (ground arith)

-- With the permission `{sub}`, a session passes exactly when it has a subject and the pattern
-- captured that subject.
pub check_permission_sub :
    (sub captured : Option String) (claims : Value) (mappings : Dict String)
    → (check_permission "{sub}" sub captured claims mappings ≡ true)
      ↔ ((s : String) × (sub ≡ some s) × (captured ≡ some s))
unfolding check_permission
check_permission_sub none captured claims mappings = ((λ h. ground arith), (λ e. ground arith))
check_permission_sub (some s) none claims mappings = ((λ h. ground arith), (λ e. ground arith))
check_permission_sub (some s) (some c) claims mappings =
    ((λ h. (s, refl, ground (arith, eq_iff c s))), (λ e. ground (arith, eq_iff c s)))
