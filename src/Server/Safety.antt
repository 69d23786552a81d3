-- ===== src/Server/Safety.antt =====
-- What a CALL may do to the store: only with permission, only to its own key, and only within the
-- schema.
use sodp.Base.{
  ℕ, String, ◌≡◌, ◌≢◌, refl, sym, false, none, some, str_eq, eq_iff, Bool-cases, inl, inr,
  if◌then◌else◌, false≢true, ◌∙◌, ap, subst, some-injective, none-ne-some,
}
use sodp.Json.{Value, get_field, unwrap_or_null}
use sodp.Frame.{Frame}
use sodp.State.{StateStore, StateEntry, get, next_version, apply, delete}
use sodp.State.Writes.{get-apply, get-delete}
use sodp.Schema.{Validation}
use sodp.Server.{Config, Connection, may_write, check_schema}
use sodp.Server.Call.{state_arg, handle_call}
use sodp.Server.Stores.{handle_call-keeps}

abbrev pub args_of : Frame → Value
args_of f = unwrap_or_null (get_field f.body "args")

-- A CALL whose key the session may not write leaves the store as it was; so does a CALL that
-- names no key. This is so for every method, known or not.
pub handle_call_forbidden :
    (cfg : Config) (now : ℕ) (f : Frame) (c : Connection)
    → ((key : String) → state_arg (args_of f) ≡ some key → may_write cfg c.session key ≡ false)
    → (handle_call cfg now f c).state ≡ c.state
handle_call_forbidden cfg now f c denied =
    handle_call-keeps (λ st. st ≡ c.state) cfg now f c refl
      (λ key value k granted valid. absurd (false≢true (sym (denied key k) ∙ granted)))
      (λ key k granted. absurd (false≢true (sym (denied key k) ∙ granted)))

-- A CALL changes no key but the one that its arguments name.
pub handle_call_other_keys :
    (cfg : Config) (now : ℕ) (f : Frame) (c : Connection) (other : String)
    → state_arg (args_of f) ≢ some other
    → get (handle_call cfg now f c).state other ≡ get c.state other
handle_call_other_keys cfg now f c other ne =
    handle_call-keeps (λ st. get st other ≡ get c.state other) cfg now f c refl
      (λ key value k granted valid.
        let apart = differs key k in rw (get-apply cfg.codec c.state key value other, apart))
      (λ key k granted.
        let apart = differs key k in rw (get-delete cfg.codec c.state key other, apart))
  where
    differs : (key : String) → state_arg (args_of f) ≡ some key → str_eq key other ≡ false
    differs key k = elim (Bool-cases (str_eq key other)) [
      | inr e ↦ e
      | inl e ↦ absurd (ne (k ∙ ap some ((eq_iff key other).0 e)))
    ]

-- Every stored value passes the schema of its key.
pub record IsConforming (cfg : Config) (st : StateStore) : Type 0 where
  pub at_key :
      (key : String) (e : StateEntry)
      → get st key ≡ some e
      → check_schema cfg key e.value ≡ Validation.ok

conforming-write :
    (cfg : Config) (st : StateStore) (key : String) (value : Value)
    → IsConforming cfg st
    → check_schema cfg key value ≡ Validation.ok
    → (other : String) (e : StateEntry) → get (apply cfg.codec st key value).0 other ≡ some e
    → check_schema cfg other e.value ≡ Validation.ok
conforming-write cfg st key value conforming valid other e h =
    let new : StateEntry = record { version = next_version st; value = value } in
    let found = sym (get-apply cfg.codec st key value other) ∙ h in
    elim (Bool-cases (str_eq key other)) [
      | inl same ↦
          let e_new =
            some-injective _ _
              (subst (λ b. (if b then some new else get st other) ≡ some e) same found) in
          subst (λ x. check_schema cfg other x.value ≡ Validation.ok) e_new
            (subst (λ k. check_schema cfg k value ≡ Validation.ok) ((eq_iff key other).0 same)
              valid)
      | inr apart ↦
          conforming.at_key other e
            (subst (λ b. (if b then some new else get st other) ≡ some e) apart found)
    ]

conforming-delete :
    (cfg : Config) (st : StateStore) (key : String)
    → IsConforming cfg st
    → (other : String) (e : StateEntry) → get (delete cfg.codec st key).0 other ≡ some e
    → check_schema cfg other e.value ≡ Validation.ok
conforming-delete cfg st key conforming other e h =
    let found = sym (get-delete cfg.codec st key other) ∙ h in
    elim (Bool-cases (str_eq key other)) [
      | inl same ↦
          absurd
            (none-ne-some _ (subst (λ b. (if b then none else get st other) ≡ some e) same found))
      | inr apart ↦
          conforming.at_key other e
            (subst (λ b. (if b then none else get st other) ≡ some e) apart found)
    ]

-- A CALL keeps the stored values within the schema, whatever its method and arguments are.
pub handle_call-IsConforming :
    (cfg : Config) (now : ℕ) (f : Frame) (c : Connection)
    → IsConforming cfg c.state
    → IsConforming cfg (handle_call cfg now f c).state
handle_call-IsConforming cfg now f c conforming =
    handle_call-keeps (IsConforming cfg) cfg now f c conforming
      (λ key value k granted valid. record {
        at_key = conforming-write cfg c.state key value conforming valid;
      })
      (λ key k granted. record { at_key = conforming-delete cfg c.state key conforming })
