-- ===== src/Auth/Lifecycle/Core.antt =====
-- services/auth/account_lifecycle.py: invitations and password recovery of local accounts. A call
-- runs at one instant, `w.now`.
use triton_control.Prelude.{
  ℕ, ◌+◌, ◌-◌, ◌*◌, ◌%◌, String, Bool, not, ◌&&◌, Option, none, some, List, [], ◌∷◌, is_some, leb,
  ltb, beq, or_empty, normal, rstrip_by, ◌^^◌, ◌==◌, if◌then◌else◌,
}
use triton_control.Env.{Env}
use triton_control.Store.Data.{UserEntity, AccountLifecycleTokenEntity}
use triton_control.Store.Users
use triton_control.Store.Tokens
use triton_control.Store.Session.{Action, pure, gets, modify, utcnow, maybe, ◌>>=◌, ◌>>◌}
use triton_control.Access.{Claims}

pub record InviteUserRequest : Type 0 where
  pub email : String
  pub name : String
  pub role : String
  pub assigned_instances : List String

pub record CompleteLifecycleRequest : Type 0 where
  pub token : String
  pub password : String

pub record LifecycleIssueResponse : Type 0 where
  pub user_id : ℕ
  pub delivery_mode : String
  pub expires_at : ℕ
  pub delivered : Bool
  pub manual_link : Option String

pub record TokenInspectionResponse : Type 0 where
  pub valid : Bool
  pub purpose : Option String
  pub email : Option String
  pub expires_at : Option ℕ

abbrev pub neutral_recovery_message : String
neutral_recovery_message = "If the account is eligible, password reset instructions will be sent."

-- timedelta(minutes=m)
abbrev pub minutes : ℕ → ℕ
minutes m = m * 60000000

-- now.replace(minute=0, second=0, microsecond=0)
abbrev pub hour_of : ℕ → ℕ
hour_of now = now - now % 3600000000

-- `_audit`; the program passes no detail
unfoldable pub audit :
    (event_type outcome target_email actor_email purpose : String) → Action (Unit {0})
audit event_type outcome target_email actor_email purpose = do
  t ← utcnow
  Tokens.add_security_event (record {
    event_type = event_type;
    outcome = outcome;
    target_email = target_email;
    actor_email = actor_email;
    purpose = purpose;
    detail = "";
    created_at = t;
  })

-- `_actor`
unfoldable pub actor : Claims → Action (Option UserEntity)
actor claims =
    let email = normal (or_empty claims.email) in
    if email == "" then pure none else Users.find_by_email email

abbrev pub id_of : Option UserEntity → Option ℕ
id_of none = none
id_of (some u) = some u.id

-- the loop of `_revoke`
unfoldable pub revoke_each : ℕ → List AccountLifecycleTokenEntity → Action (Unit {0})
revoke_each now [] = pure tt
revoke_each now (entity ∷ entities) = do
  Tokens.save_token (record entity { revoked_at = some now })
  revoke_each now entities

-- `_revoke`
unfoldable pub revoke : ℕ → Option String → Action (Unit {0})
unfolding revoke_each
revoke user_id purpose = do
  now ← utcnow
  revoke_each now (← Tokens.list_active_tokens user_id purpose)

-- the test of `_valid_token` on the row that was found
abbrev pub is_valid : ℕ → String → AccountLifecycleTokenEntity → Bool
is_valid now purpose entity =
    entity.purpose == purpose
    && not (is_some entity.consumed_at)
    && not (is_some entity.revoked_at)
    && ltb now entity.expires_at

abbrev pub email_of : Option UserEntity → String
email_of none = ""
email_of (some u) = u.email

-- (entity, user) if user is not None else None
abbrev pub with_account :
    AccountLifecycleTokenEntity
    → Option UserEntity
    → Option (AccountLifecycleTokenEntity × UserEntity)
with_account e none = none
with_account e (some u) = some (e, u)

module _ ⦃env : Env⦄ where
  -- `_token_hash`
  abbrev pub token_hash : String → String
  token_hash raw_token = env.sha256 raw_token

  -- the part of `_issue` behind `_revoke`: a random token, of which the table keeps the hash
  unfoldable pub create_fresh :
      ℕ → String → ℕ → Option ℕ → Action (String × AccountLifecycleTokenEntity)
  create_fresh user_id purpose expires_minutes created_by_user_id = do
    n ← gets λ w. w.drawn
    modify λ w. record w { drawn = w.drawn + 1 }
    now ← utcnow
    let raw = env.token_urlsafe n
    entity ←
        Tokens.create_token user_id purpose (token_hash raw) (now + minutes expires_minutes)
          created_by_user_id
    pure (raw, entity)

  -- `_issue`
  unfoldable pub issue :
      UserEntity → String → ℕ → Option ℕ → Action (String × AccountLifecycleTokenEntity)
  issue user purpose expires_minutes created_by_user_id = do
    revoke user.id (some purpose)
    create_fresh user.id purpose expires_minutes created_by_user_id

  -- the audit of an expired token in `_valid_token`
  unfoldable pub audit_expired : AccountLifecycleTokenEntity → Action (Unit {0})
  audit_expired entity = do
    now ← utcnow
    if leb entity.expires_at now
        then (do
          user ← Users.find_by_id entity.user_id
          audit "lifecycle_token_expired" "expired" (email_of user) "" entity.purpose)
        else pure tt

  -- the part of `_valid_token` on the row that was found
  unfoldable pub check_token :
      String
      → AccountLifecycleTokenEntity
      → Action (Option (AccountLifecycleTokenEntity × UserEntity))
  check_token purpose entity = do
    audit_expired entity
    now ← utcnow
    user ← Users.find_by_id entity.user_id
    pure (if is_valid now purpose entity then with_account entity user else none)

  -- `_valid_token`
  unfoldable pub valid_token :
      String → String → Action (Option (AccountLifecycleTokenEntity × UserEntity))
  valid_token raw_token purpose = do
    found ← Tokens.find_token_by_hash (token_hash raw_token)
    maybe found (pure none) (check_token purpose)

  -- `_link`
  unfoldable pub link : (base_url purpose token : String) → String
  link base_url purpose token =
      let route = if purpose == "invite" then "activate-account" else "reset-password" in
      rstrip_by (beq b'/') base_url ^^ "/" ^^ route ^^ "?token=" ^^ env.quote token
