-- ===== src/Store/Data.antt =====
-- db/entities.py: the rows that account management reads and writes, and the world that a request
-- sees. Times are microseconds. Row ids are numbers that a table hands out in order.
use triton_control.Prelude.{ℕ, String, Bool, Option, List}

pub record UserEntity : Type 0 where
  pub id : ℕ
  pub email : String
  pub name : String
  pub role : String
  pub auth_provider : String
  pub password_hash : Option String
  pub oidc_subject : Option String
  pub assigned_instances : List String
  pub is_active : Bool
  pub credential_version : ℕ
  pub created_at : ℕ

pub record AccountLifecycleTokenEntity : Type 0 where
  pub id : ℕ
  pub user_id : ℕ
  pub purpose : String
  pub token_hash : String
  pub expires_at : ℕ
  pub created_by_user_id : Option ℕ
  pub created_at : ℕ
  pub consumed_at : Option ℕ
  pub revoked_at : Option ℕ

pub record EmailConfigEntity : Type 0 where
  pub delivery_mode : String
  pub smtp_host : String
  pub smtp_tls_mode : String
  pub smtp_allow_insecure : Bool
  pub public_app_url : String
  pub ca_certificate : String
  pub invite_expiry_minutes : ℕ
  pub reset_expiry_minutes : ℕ
  pub invite_subject : String
  pub invite_text_template : String
  pub invite_html_template : String
  pub reset_subject : String
  pub reset_text_template : String
  pub reset_html_template : String
  pub last_status : String
  pub last_status_message : String
  pub last_status_at : Option ℕ

pub record SecurityEventEntity : Type 0 where
  pub event_type : String
  pub outcome : String
  pub target_email : String
  pub actor_email : String
  pub purpose : String
  pub detail : String
  pub created_at : ℕ

pub record RecoveryRateLimitEntity : Type 0 where
  pub bucket_key : String
  pub window_started_at : ℕ
  pub request_count : ℕ

-- The fields of a Triton instance that access control and deployment exposure read.
pub record TritonInstanceEntity : Type 0 where
  pub id : ℕ
  pub name : String
  pub url : String
  pub metrics_url : Option String
  pub is_self_deployed : Bool
  pub deployment_namespace : Option String
  pub deployment_name : Option String
  pub deployment_service_name : Option String

-- The entry `user` of the cookie session of the browser that sends the request.
pub record SessionUser : Type 0 where
  pub email : String
  pub name : String
  pub role : String
  pub access_allowed : Bool
  pub credential_version : ℕ

-- The tables, the clock, how many random values were drawn, and the mails that SMTP accepted,
-- and the session of the browser at hand.
pub record World : Type 0 where
  pub users : List UserEntity
  pub next_user_id : ℕ
  pub tokens : List AccountLifecycleTokenEntity
  pub next_token_id : ℕ
  pub events : List SecurityEventEntity
  pub buckets : List RecoveryRateLimitEntity
  pub instances : List TritonInstanceEntity
  pub email_config : EmailConfigEntity
  pub oidc_enabled : Bool
  pub now : ℕ
  pub drawn : ℕ
  pub smtp_attempts : ℕ
  pub outbox : List (String × String)
  pub session_user : Option SessionUser
