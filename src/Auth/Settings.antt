-- ===== src/Auth/Settings.antt =====
-- services/auth/email_settings.py: the e-mail configuration, from the database or the environment.
-- Fields that only the SMTP client reads (host port, user, sender, time-outs) are not kept.
use triton_control.Prelude.{
  ℕ, String, Bool, false, not, ◌||◌, Option, none, some, strip, normal, rstrip_by, beq, is_on, ◌==◌,
  if◌then◌else◌,
}
use triton_control.Prelude.Int.{ℤ, pos, int, clamp}
use triton_control.Env.{Env, getenv_or}
use triton_control.Store.Data.{EmailConfigEntity}
use triton_control.Store.Tokens.{get_email_config, save_email_config}
use triton_control.Store.Session.{Action, pure, utcnow, ◌>>=◌}

module _ ⦃env : Env⦄ where
  -- `_bool`, with the default False
  abbrev pub env_bool : String → Bool
  env_bool name = elim (env.getenv name) [ none ↦ false | some raw ↦ is_on raw ]

  -- `_int`
  unfoldable pub env_int : String → ℕ → ℕ → ℕ → ℕ
  unfolding int
  env_int name default minimum maximum =
      let raw : Option ℤ = elim (env.getenv name) [
        | none ↦ some (pos default)
        | some text ↦ int text
      ] in
      elim raw [
        | none ↦ clamp minimum maximum (pos default)
        | some value ↦ clamp minimum maximum value
      ]

  unfoldable pub config_source : String
  config_source =
      let value = normal (getenv_or "EMAIL_CONFIG_SOURCE" "env") in
      if value == "db" || value == "env" then value else "env"

  -- `_env_entity`
  unfoldable pub env_entity : EmailConfigEntity
  env_entity = record {
    delivery_mode = normal (getenv_or "EMAIL_DELIVERY_MODE" "disabled");
    smtp_host = strip (getenv_or "EMAIL_SMTP_HOST" "");
    smtp_tls_mode = normal (getenv_or "EMAIL_SMTP_TLS_MODE" "starttls");
    smtp_allow_insecure = env_bool "EMAIL_SMTP_ALLOW_INSECURE";
    public_app_url = rstrip_by (beq b'/') (strip (getenv_or "EMAIL_PUBLIC_APP_URL" ""));
    ca_certificate = getenv_or "EMAIL_SMTP_CA_CERTIFICATE" "";
    invite_expiry_minutes = env_int "EMAIL_INVITE_EXPIRY_MINUTES" 1440 5 10080;
    reset_expiry_minutes = env_int "EMAIL_RESET_EXPIRY_MINUTES" 30 5 1440;
    invite_subject = getenv_or "EMAIL_INVITE_SUBJECT" "You are invited to Triton Control";
    invite_text_template = getenv_or "EMAIL_INVITE_TEXT_TEMPLATE" "";
    invite_html_template = getenv_or "EMAIL_INVITE_HTML_TEMPLATE" "";
    reset_subject = getenv_or "EMAIL_RESET_SUBJECT" "Reset your Triton Control password";
    reset_text_template = getenv_or "EMAIL_RESET_TEXT_TEMPLATE" "";
    reset_html_template = getenv_or "EMAIL_RESET_HTML_TEMPLATE" "";
    last_status = "not_tested";
    last_status_message = "";
    last_status_at = none;
  }

  unfoldable pub get_runtime_config : Action EmailConfigEntity
  unfolding get_email_config
  get_runtime_config = if config_source == "db" then get_email_config else pure env_entity

  -- Only a configuration of the database remembers the last delivery. The message that the
  -- program passes is shorter than the 500 characters that it keeps.
  unfoldable pub record_delivery_status : (status message : String) → Action (Unit {0})
  unfolding get_email_config save_email_config
  record_delivery_status status message = if not (config_source == "db") then pure tt else do
    entity ← get_email_config
    t ← utcnow
    save_email_config (record entity {
      last_status = status;
      last_status_message = message;
      last_status_at = some t;
    })
