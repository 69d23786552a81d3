-- ===== src/Middleware/Rules.antt =====
-- Whom the rules of the middleware let in.
use sodp.Base.{
  String, ◌≡◌, ◌≢◌, ◌↔◌, refl, sym, ◌∙◌, ap, subst, Bool, true, false, inl, inr, Option, none, some,
  List, [], ◌∷◌, arith, Bool-cases, some-injective, eq_iff, false≢true,
}
use sodp.Base.Text.{◌⧺◌, ⧺-assoc, ⧺-nil}
use sodp.Middleware.Acl.{
  Permission, anyone, match_sub, specific, AclRule, AclRegistry, allows, expanded, captured,
  pattern_match, check_rules, check, perm_of, can_write, replace_sub, contains_text, begins_with,
}
use sodp.Middleware.Globs.{Fits, IsAscii, IsStarFree, IsStarFree-⧺, glob_match_iff, Fits-literal}

-- Whom a permission lets in: nobody without a subject.
pub Permits : Permission → Option String → Option String → Type 0
Permits permission none key_sub = ⊥
Permits anyone (some caller) key_sub = Unit
Permits match_sub (some caller) key_sub = key_sub ≡ some caller
Permits (specific fixed) (some caller) key_sub = caller ≡ fixed

allows_iff :
    (p : Permission) (sub key_sub : Option String)
    → (allows p sub key_sub ≡ true) ↔ Permits p sub key_sub
unfolding allows Permits
allows_iff p none key_sub = ((λ h. cc), λ h. absurd h)
allows_iff anyone (some caller) key_sub = ((λ h. tt), λ h. refl)
allows_iff match_sub (some caller) none = ((λ h. cc), λ h. cc)
allows_iff match_sub (some caller) (some s) = (
  (λ h. ap some (sym ((eq_iff caller s).0 h))),
  λ h. (eq_iff caller s).1 (sym (some-injective _ _ h)),
)
allows_iff (specific fixed) (some caller) key_sub = eq_iff caller fixed

-- The first rule whose pattern fits the key decides, and it lets the caller in.
pub data Grants (key : String) (sub : Option String) (write : Bool) : List AclRule → Type 0 where
  here :
      {rule : AclRule} {rules : List AclRule}
      → Fits key (expanded rule.key_pattern sub)
      → Permits (perm_of rule write) sub (captured rule.key_pattern sub)
      → Grants key sub write (rule ∷ rules)
  later :
      {rule : AclRule} {rules : List AclRule}
      → ¬ Fits key (expanded rule.key_pattern sub)
      → Grants key sub write rules
      → Grants key sub write (rule ∷ rules)

granted_here :
    {key : String} {sub : Option String} {write : Bool} {rule : AclRule} {rules : List AclRule}
    → Fits key (expanded rule.key_pattern sub)
    → Grants key sub write (rule ∷ rules)
    → Permits (perm_of rule write) sub (captured rule.key_pattern sub)
granted_here f (here g p) = p
granted_here f (later n g) = absurd (n f)

granted_later :
    {key : String} {sub : Option String} {write : Bool} {rule : AclRule} {rules : List AclRule}
    → ¬ Fits key (expanded rule.key_pattern sub)
    → Grants key sub write (rule ∷ rules)
    → Grants key sub write rules
granted_later n (here g p) = absurd (n g)
granted_later n (later m g) = g

module _ (key : String) (sub : Option String) (write : Bool) (ascii : IsAscii key) where
  check_rules-Grants :
      (rules : List AclRule)
      → (b : Bool) × (check_rules rules key sub write ≡ some b)
        × ((b ≡ true) ↔ Grants key sub write rules)
  unfolding check_rules pattern_match
  check_rules-Grants [] = (false, refl, ((λ h. cc), λ g. elim g [ ]))
  check_rules-Grants (rule ∷ rules) =
      let (fit, e, told) = glob_match_iff key (expanded rule.key_pattern sub) ascii in
      elim (Bool-cases fit) [
        | inl fitting ↦
            let verdict = allows_iff (perm_of rule write) sub (captured rule.key_pattern sub) in
            rw (e ∙ ap some fitting, check_rules, pattern_match)
              (
                _,
                refl,
                (
                  (λ h. here (told.0 fitting) (verdict.0 h)),
                  λ g. verdict.1 (granted_here (told.0 fitting) g),
                ),
              )
        | inr other ↦
            let (b, f, rest) = check_rules-Grants rules in
            rw (e ∙ ap some other, check_rules, pattern_match)
              (
                b,
                f,
                (
                  (λ h. later (λ fits. false≢true (sym other ∙ told.1 fits)) (rest.0 h)),
                  λ g. rest.1 (granted_later (λ fits. false≢true (sym other ∙ told.1 fits)) g),
                ),
              )
      ]

-- On a key of ASCII characters a check returns, and it grants access exactly when there is a rule,
-- none before which fits the key, whose pattern, the subject put in for the placeholder, fits it and
-- whose permission lets the subject in.
pub check_returns :
    (registry : AclRegistry) (key : String) (sub : Option String) (write : Bool)
    → IsAscii key
    → (b : Bool) × (check registry key sub write ≡ some b)
      × ((b ≡ true) ↔ Grants key sub write registry.rules)
unfolding check
check_returns registry key sub write ascii = check_rules-Grants key sub write ascii registry.rules

anonymous_rules :
    (key : String) (write : Bool) (rules : List AclRule)
    → check_rules rules key none write ≢ some true
unfolding check_rules allows
anonymous_rules key write [] h = ground arith
anonymous_rules key write (rule ∷ rules) h = ground (arith, anonymous_rules key write rules)

-- A caller without a subject is never granted access, whatever the rules and the key are.
pub check_anonymous :
    (registry : AclRegistry) (key : String) (write : Bool)
    → check registry key none write ≢ some true
unfolding check
check_anonymous registry key write = anonymous_rules key write registry.rules

abbrev pub user_rule : AclRule
user_rule = record { key_pattern = "user.{sub}.*"; read = match_sub; write = match_sub }

-- The text before the last star of the rule for a user, and the user's keys.
abbrev own_prefix : String → String
own_prefix sub = "user." ⧺ (sub ⧺ ".")

user_rule-expanded :
    (sub : String) → expanded user_rule.key_pattern (some sub) ≡ own_prefix sub ⧺ "*"
unfolding expanded contains_text begins_with replace_sub
user_rule-expanded sub = ap (λ s. "user." ⧺ s) (sym (⧺-assoc sub "." "*"))

user_rule-captured : (sub : String) → captured user_rule.key_pattern (some sub) ≡ some sub
unfolding captured contains_text begins_with
user_rule-captured sub = refl

own_prefix-IsStarFree : (sub : String) → IsStarFree sub → IsStarFree (own_prefix sub)
unfolding IsStarFree
own_prefix-IsStarFree sub free =
    IsStarFree-⧺ "user." (sub ⧺ ".") (refl, (refl, (refl, (refl, (refl, tt)))))
      (IsStarFree-⧺ sub "." free (refl, tt))

only-Fits :
    {key : String} {sub : Option String} {write : Bool} {rule : AclRule}
    → Grants key sub write (rule ∷ [])
    → Fits key (expanded rule.key_pattern sub)
only-Fits (here f p) = f
only-Fits (later n g) = elim g [ ]

user_rule-Fits :
    (sub key : String)
    → IsStarFree sub
    → Fits key (expanded user_rule.key_pattern (some sub))
      ↔ ((t : String) × (key ≡ "user." ⧺ (sub ⧺ ("." ⧺ t))))
user_rule-Fits sub key free =
    let literal = Fits-literal (own_prefix sub) key (own_prefix-IsStarFree sub free) in
    let regroup = λ (t : String). ap (λ s. "user." ⧺ s) (⧺-assoc sub "." t) in
    (
      (λ f.
          let (t, e) = literal.0 (subst (λ p. Fits key p) (user_rule-expanded sub) f) in
          (t, e ∙ regroup t)),
      λ (t, e).
          subst (λ p. Fits key p) (sym (user_rule-expanded sub))
            (literal.1 (t, e ∙ sym (regroup t))),
    )

-- The rule of the documentation, alone: a subject without a star in it may write exactly the keys
-- that begin with its own name after `user.`, among the keys of ASCII characters.
pub can_write_own :
    (sub key : String)
    → IsAscii key
    → IsStarFree sub
    → (can_write (record { rules = user_rule ∷ [] }) key (some sub) ≡ some true)
      ↔ ((t : String) × (key ≡ "user." ⧺ (sub ⧺ ("." ⧺ t))))
unfolding can_write Permits
can_write_own sub key ascii free =
    let (b, e, told) =
      check_returns (record { rules = user_rule ∷ [] }) key (some sub) true ascii in
    let own = user_rule-Fits sub key free in
    (
      (λ h. own.0 (only-Fits (told.0 (some-injective _ _ (sym e ∙ h))))),
      λ k. e ∙ ap some (told.1 (here (own.1 k) (user_rule-captured sub))),
    )

-- A subject that is a star may write every key of every user under this rule, since the star that
-- is put in for the placeholder matches any name.
pub can_write_star :
    (name t : String)
    → IsAscii ("user." ⧺ (name ⧺ ("." ⧺ t)))
    → can_write (record { rules = user_rule ∷ [] }) ("user." ⧺ (name ⧺ ("." ⧺ t))) (some "*")
      ≡ some true
unfolding can_write Permits Fits expanded contains_text begins_with replace_sub captured
can_write_star name t ascii =
    let (b, e, told) =
      check_returns (record { rules = user_rule ∷ [] }) ("user." ⧺ (name ⧺ ("." ⧺ t))) (some "*")
        true ascii in
    e
    ∙ ap some (
        told.1 (
          here
            (
              _,
              refl,
              (
                _,
                refl,
                (
                  _,
                  refl,
                  (_, refl, (_, refl, (name, _, refl, (_, refl, (t, "", sym (⧺-nil t), refl))))),
                ),
              ),
            )
            refl))
