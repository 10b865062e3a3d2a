-- ===== src/Tests/Handover.antt =====
-- The hand-over of a created deployment.
use triton_control.Prelude.{
  ◌≡◌, refl, normal, String, none, some, List, [], ◌∷◌, ◌==◌, if◌then◌else◌,
}
use triton_control.Prelude.Int.{pos}
use triton_control.Access.{Claims}
use triton_control.Navigation.{consume_deployment_created, claims_key}
use triton_control.Navigation.History.{
  Call, notifies, consumes, after_calls, last_notified, consume-last_notified,
}

abbrev caller : String → Claims
caller email = record {
  sub = none;
  email = some email;
  preferred_username = none;
  name = none;
  role = none;
  auth_provider = none;
  token_use = none;
  credential_version = none;
  user_id = none;
  access_allowed = none;
}

-- the last call stands first
abbrev calls : List Call
calls = consumes (caller "bob@example.com") ∷ notifies (caller "ada@example.com") (pos 7) ∷ []

consume-last_notified_example :
    (consume_deployment_created (caller "Ada@example.com") (after_calls calls)).0 ≡ (
      if claims_key (caller "Ada@example.com") == ""
      then none
      else last_notified (claims_key (caller "Ada@example.com")) calls)
consume-last_notified_example = consume-last_notified (caller "Ada@example.com") calls

handed_over :
    (consume_deployment_created (caller "Ada@example.com") (after_calls calls)).0 ≡ some (pos 7)
unfolding consume_deployment_created after_calls normal
handed_over = refl
