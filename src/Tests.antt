-- ===== src/Tests.antt =====
-- A small world, and the theorems at it.
pub mod Auth
pub mod Passwords
pub mod Payloads
pub mod Handover
pub mod Inference
pub mod Exposure
pub mod WorkflowPolicy
pub mod Credentials
use triton_control.Prelude.{
  ℕ, zero, suc, ◌≤◌, ◌≡◌, refl, String, Bool, true, false, leb, ◌&&◌, ◌||◌, Option, none, some,
  List, [], ◌∷◌, ◌==◌,
}
use triton_control.Env.{Env, SmtpFailure}
use triton_control.Store.Data.{World, UserEntity, AccountLifecycleTokenEntity, EmailConfigEntity}

abbrev first_then : ℕ → String
first_then zero = "first"
first_then (suc n) = "later"

instance abbrev pub test_env : Env
test_env = record {
  getenv = λ name. none;
  is_lower_char = λ n. leb 97 n && leb n 122;
  is_upper_char = λ n. leb 65 n && leb n 90;
  is_digit_char = λ n. leb 48 n && leb n 57;
  is_alnum_char = λ n. (leb 97 n && leb n 122) || (leb 65 n && leb n 90) || (leb 48 n && leb n 57);
  sha256 = λ text. text;
  pbkdf2_sha256 = λ password salt n. password;
  token_urlsafe = first_then;
  token_bytes = first_then;
  quote = λ text. text;
  escape = λ text. text;
  parse_fields = λ template. some [];
  format_map = λ template values. some template;
  loads_ca = λ ca. true;
  smtp_exchange = λ n recipient. none;
}

abbrev pub account : Bool → UserEntity
account active = record {
  id = 1;
  email = "ada@example.com";
  name = "Ada";
  role = "member";
  auth_provider = "local";
  password_hash = none;
  oidc_subject = none;
  assigned_instances = [];
  is_active = active;
  credential_version = 0;
  created_at = 0;
}

abbrev pub token : ℕ → String → String → AccountLifecycleTokenEntity
token i purpose hash = record {
  id = i;
  user_id = 1;
  purpose = purpose;
  token_hash = hash;
  expires_at = 100;
  created_by_user_id = none;
  created_at = 0;
  consumed_at = none;
  revoked_at = none;
}

abbrev config : EmailConfigEntity
config = record {
  delivery_mode = "manual";
  smtp_host = "";
  smtp_tls_mode = "starttls";
  smtp_allow_insecure = false;
  public_app_url = "http://localhost";
  ca_certificate = "";
  invite_expiry_minutes = 60;
  reset_expiry_minutes = 30;
  invite_subject = "";
  invite_text_template = "";
  invite_html_template = "";
  reset_subject = "";
  reset_text_template = "";
  reset_html_template = "";
  last_status = "";
  last_status_message = "";
  last_status_at = none;
}

-- One account with an open invitation and an open reset; one value was drawn.
abbrev pub world : Bool → World
world active = record {
  users = account active ∷ [];
  next_user_id = 2;
  tokens = token 1 "invite" "first" ∷ token 2 "password_reset" "second" ∷ [];
  next_token_id = 3;
  events = [];
  buckets = [];
  instances = [];
  email_config = config;
  oidc_enabled = false;
  now = 10;
  drawn = 1;
  smtp_attempts = 0;
  outbox = [];
  session_user = none;
}
