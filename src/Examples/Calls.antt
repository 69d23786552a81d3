-- ===== src/Examples/Calls.antt =====
-- CALL frames against a store with an ACL and a schema.
use sodp.Base.{
  ℕ, String, ◌≡◌, ◌≢◌, ◌↔◌, refl, sym, ◌∙◌, subst, none, some, [], ◌∷◌, true, false, some-injective,
  none-ne-some, false≢true, eq_iff,
}
use sodp.Base.Text.{split}
use sodp.Base.Dict
use sodp.Json.{str, obj, field, end, get}
use sodp.Frame.{Frame}
use sodp.Acl.{
  AclRegistry, check, match_pattern, match_segments, check_rules, can_write, check_permission, dot,
}
use sodp.Acl.Matching.{Matches, match_pattern_iff}
use sodp.Acl.Decisions.{Grants, check_iff, check_permission_anonymous}
use sodp.Schema.{SchemaRegistry, Validation, simple, full, no_fields, field_schema, validate}
use sodp.Schema.Conforms.{conforms, validate_iff}
use sodp.Session
use sodp.State
use sodp.State.{StateStore}
use sodp.Server.{Config, Connection, may_write}
use sodp.Base.IdMap
use sodp.Server.Reading.{IsReadable}
use sodp.Server.Call.{handle_call, state_arg}
use sodp.Server.Safety.{
  args_of, handle_call_forbidden, handle_call_other_keys, IsConforming, handle_call-IsConforming,
}
use sodp.Examples.Values.{handles, bus, new_doc}
use sodp.Examples.Stores.{codec}

abbrev acl : AclRegistry
acl = record {
  rules =
      record { key = "public.*"; read = "*"; write = "*" }
      ∷ record { key = "private.{sub}"; read = "*"; write = "{sub}" }
      ∷ [];
  mappings = [];
}

abbrev schema : SchemaRegistry
schema = record {
  states =
      ("public.doc", full "Object" false (field_schema "user" (simple "Object") no_fields)) ∷ [];
}

abbrev pub config : Config
config = record {
  schema = some schema;
  acl = some acl;
  codec = codec;
  encode_delta_body = λ version ops. version ∷ [];
}

abbrev pub connection : Connection
connection = record {
  state = State.new;
  fanout = bus;
  handles = handles;
  cluster = none;
  session = record (Session.new "alice" 0 none none) { sub = some "alice" };
  handle = 1;
}

abbrev pub set_frame : String → Frame
set_frame key = record {
  frame_type = 6;
  stream_id = 0;
  seq = 0;
  body = obj (
      field "args" (obj (field "state" (str key) (field "value" new_doc end)))
        (field "method" (str "state.set") end));
}

state_arg-set_frame : (key : String) → state_arg (args_of (set_frame key)) ≡ some key
unfolding get
state_arg-set_frame key = refl

may_write_bob : may_write config connection.session "private.bob" ≡ false
unfolding can_write check check_rules match_pattern match_segments split check_permission
    Session.new
may_write_bob = refl

other-ne-doc : state_arg (args_of (set_frame "public.doc")) ≢ some "other"
other-ne-doc e = false≢true (
    (eq_iff "public.doc" "other").1
      (some-injective _ _ (sym (state_arg-set_frame "public.doc") ∙ e)))

no_entry : (key : String) → State.get State.new key ≡ none
unfolding State.get Dict.get
no_entry key = refl

-- Alice sets what only bob may write.
handle_call_forbidden_example :
    (handle_call config 0 (set_frame "private.bob") connection).state ≡ State.new
handle_call_forbidden_example =
    handle_call_forbidden config 0 (set_frame "private.bob") connection (λ key e.
      subst (λ k. may_write config connection.session k ≡ false)
        (some-injective _ _ (sym (state_arg-set_frame "private.bob") ∙ e)) may_write_bob)

handle_call_other_keys_example :
    State.get (handle_call config 0 (set_frame "public.doc") connection).state "other"
    ≡ State.get connection.state "other"
handle_call_other_keys_example =
    handle_call_other_keys config 0 (set_frame "public.doc") connection "other" other-ne-doc

State_new-IsConforming : IsConforming config State.new
State_new-IsConforming = record {
  at_key = λ key e h. absurd (none-ne-some _ (sym (no_entry key) ∙ h));
}

handle_call-IsConforming_example :
    IsConforming config (handle_call config 0 (set_frame "public.doc") connection).state
handle_call-IsConforming_example =
    handle_call-IsConforming config 0 (set_frame "public.doc") connection State_new-IsConforming

abbrev pub watch_frame : ℕ → Frame
watch_frame frame_type = record {
  frame_type = frame_type;
  stream_id = 0;
  seq = 0;
  body = obj (field "state" (str "public.doc") end);
}

connection-IsReadable : IsReadable config connection.session
unfolding Session.new IdMap.get
connection-IsReadable = record { on_stream = λ stream_id w h. absurd (none-ne-some _ h) }

check_iff_example :
    (check acl "private.alice" (some "alice") (obj end) true ≡ true)
    ↔ Grants acl "private.alice" (some "alice") (obj end) true acl.rules
check_iff_example = check_iff acl "private.alice" (some "alice") (obj end) true

match_pattern_iff_example :
    (match_pattern "private.{sub}" "private.alice" ≡ some (some "alice"))
    ↔ Matches (split dot "private.{sub}") (split dot "private.alice") none (some "alice")
match_pattern_iff_example = match_pattern_iff "private.{sub}" "private.alice" (some "alice")

check_permission_anonymous_example : check_permission "role:admin" none none (obj end) [] ≡ false
check_permission_anonymous_example = check_permission_anonymous "role:admin" none []

validate_iff_example : (validate schema "public.doc" new_doc ≡ Validation.ok) ↔ (
    conforms new_doc (full "Object" false (field_schema "user" (simple "Object") no_fields)) ≡ true)
unfolding Dict.get
validate_iff_example = validate_iff schema "public.doc" new_doc
