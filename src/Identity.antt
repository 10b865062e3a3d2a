-- ===== src/Identity.antt =====
-- core/identity.py: from the claims of a token to a row of `users`, and back.
use triton_control.Prelude.{
  String, Bool, false, not, ◌&&◌, ◌||◌, Option, none, some, List, [], map, select, or_empty,
  or_none, truthy, normal, strip, is_blank, split, before, has_char, one_of, ◌==◌, if◌then◌else◌,
}
use triton_control.Errors.{unauthorized_error}
use triton_control.Env.{Env, getenv_or}
use triton_control.Store.Data.{UserEntity}
use triton_control.Store.Users
use triton_control.Store.Session.{Action, pure, require, maybe, ◌>>=◌}
use triton_control.Access.{Claims}

unfoldable pub is_pending_role : Option String → Bool
is_pending_role role = normal (or_empty role) == "pending"

-- (value or "local").strip().lower(), or "local" for an unknown provider
unfoldable pub normalize_provider : Option String → String
normalize_provider value =
    let provider = normal (if truthy value then or_empty value else "local") in
    if provider == "local" || provider == "oidc" then provider else "local"

-- email.split("@", 1)[0] if "@" in email else email
unfoldable pub display_name : String → String
display_name email = if has_char b'@' email then before b'@' email else email

module _ ⦃env : Env⦄ where
  -- `_is_oidc_env_config_source`
  unfoldable pub is_oidc_env_config_source : Bool
  is_oidc_env_config_source =
      normal (
        let source = env.getenv "OIDC_CONFIG_SOURCE" in
        if truthy source then or_empty source else "db")
      == "env"

  unfoldable pub oidc_admin_allowlist : List String
  oidc_admin_allowlist =
      map normal
        (select (λ item. not (is_blank item)) (split b',' (getenv_or "OIDC_ADMIN_EMAILS" "")))

  unfoldable pub should_bootstrap_oidc_admin : String → Action Bool
  should_bootstrap_oidc_admin email =
      if is_oidc_env_config_source && one_of email oidc_admin_allowlist
      then (do pure (not (← Users.has_any_admin)))
      else pure false

  -- the look-ups by subject and by e-mail
  unfoldable pub lookup_user : (provider subject email : String) → Action (Option UserEntity)
  lookup_user provider subject email = do
    by_subject ←
        if provider == "oidc" && not (subject == "")
        then Users.find_by_oidc_subject subject
        else pure none
    maybe by_subject (if not (email == "") then Users.find_by_email email else pure none)
        (λ u. pure (some u))

  -- the first login by OIDC leaves the subject in the row
  unfoldable pub link_subject : (provider subject : String) → UserEntity → Action UserEntity
  link_subject provider subject user =
      if provider == "oidc" && not (subject == "") && not (truthy user.oidc_subject)
      then Users.save (record user { oidc_subject = some subject })
      else pure user

  -- the row that a first OIDC login creates
  unfoldable pub create_oidc_user : (subject email name : String) → Action UserEntity
  create_oidc_user subject email name = do
    bootstrap_admin ← should_bootstrap_oidc_admin email
    Users.create email name (if bootstrap_admin then "admin" else "viewer") "oidc" none
        (or_none subject) [] bootstrap_admin

  abbrev pub claimed_email : Claims → String
  claimed_email claims =
      let email = normal (or_empty claims.email) in
      if email == "" then normal (or_empty claims.preferred_username) else email

  unfoldable pub resolve_user : Claims → Bool → Action (Option UserEntity)
  resolve_user claims auto_create_oidc = do
    let provider = normalize_provider claims.auth_provider
    let email = claimed_email claims
    let subject = strip (or_empty claims.sub)
    found ← lookup_user provider subject email
    maybe found
        (if not auto_create_oidc || not (provider == "oidc") || email == "" then pure none else do
          let given = strip (or_empty claims.name)
          created ←
              create_oidc_user subject email (if given == "" then display_name email else given)
          pure (some created))
        (λ user. do linked ← link_subject provider subject user; pure (some linked))

  unfoldable pub require_user_entity : Claims → Action UserEntity
  require_user_entity claims = do
    found ← resolve_user claims false
    require found (unauthorized_error "User mapping not found")

abbrev first_truthy : Option String → Option String → Option String
first_truthy a b = if truthy a then a else b

unfoldable pub claims_from_user : UserEntity → Claims → Claims
claims_from_user user source = record source {
  sub = first_truthy user.oidc_subject (first_truthy source.sub (some user.email));
  email = some user.email;
  name = some user.name;
  role = some user.role;
  auth_provider = some user.auth_provider;
  user_id = some user.id;
  access_allowed = some (user.is_active && not (is_pending_role (some user.role)));
}
