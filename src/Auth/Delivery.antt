-- ===== src/Auth/Delivery.antt =====
-- services/auth/email_delivery.py: rendering a message and handing it to the SMTP server.
use triton_control.Prelude.{
  ◌+◌, String, not, ◌&&◌, List, [], ◌∷◌, ◌++◌, all, select, one_of, is_blank, map, ◌^^◌, ◌==◌,
  if◌then◌else◌,
}
use triton_control.Errors.{
  Result, AppError, ok, err, bad_request_error, uncaught, or_raise, reject_if,
}
use triton_control.Errors
use triton_control.Env.{
  Env, SmtpFailure, authentication, disconnected, tls_error, timed_out, other_failure, escapes,
}
use triton_control.Store.Data.{EmailConfigEntity}
use triton_control.Store.Session.{Action, raise, gets, modify, lift, raise_if, maybe, ◌>>=◌, ◌>>◌}

abbrev default_invite_text : String
default_invite_text =
    "Hello {display_name},\n\nYou are invited to {product_name}. "
    ^^ "Set your password within {expiry_minutes} minutes:\n{link}\n\n"
    ^^ "If you did not expect this invitation, ignore this message."

abbrev default_invite_html : String
default_invite_html =
    "<p>Hello {display_name},</p><p>You are invited to {product_name}.</p>"
    ^^ "<p><a href=\"{link}\">Set your password</a> within {expiry_minutes} minutes.</p>"
    ^^ "<p>If you did not expect this invitation, ignore this message.</p>"

abbrev default_reset_text : String
default_reset_text =
    "Hello {display_name},\n\nReset your {product_name} password within "
    ^^ "{expiry_minutes} minutes:\n{link}\n\n"
    ^^ "If you did not request this reset, ignore this message."

abbrev default_reset_html : String
default_reset_html =
    "<p>Hello {display_name},</p><p><a href=\"{link}\">Reset your "
    ^^ "{product_name} password</a> within {expiry_minutes} minutes.</p>"
    ^^ "<p>If you did not request this reset, ignore this message.</p>"

abbrev allowed_fields : List String
allowed_fields = "display_name" ∷ "product_name" ∷ "link" ∷ "expiry_minutes" ∷ []

pub record RenderedMessage : Type 0 where
  pub subject : String
  pub text : String
  pub html : String

-- (template or DEFAULT)
abbrev or_default : String → String → String
or_default template default = if template == "" then default else template

module _ ⦃env : Env⦄ where
  -- `_validate_template`
  unfoldable pub validate_template : String → Result (Unit {0})
  validate_template template =
      Errors.◌>>=◌ (or_raise (env.parse_fields template) (uncaught "ValueError")) λ names.
        let fields = select (λ name. not (name == "")) names in
        Errors.◌>>◌
          (reject_if (not (all (λ name. one_of name allowed_fields) fields))
            (bad_request_error "Email template contains unsupported placeholders"))
          (reject_if (not (one_of "link" fields))
            (bad_request_error "Email template must contain {link}"))

  -- `expiry` is str(expiry_minutes)
  unfoldable pub render_message :
      EmailConfigEntity → (purpose display_name link expiry : String) → Result RenderedMessage
  unfolding validate_template
  render_message config purpose display_name link expiry =
      let invite = purpose == "invite" in
      let text_template =
        if invite
        then or_default config.invite_text_template default_invite_text
        else or_default config.reset_text_template default_reset_text in
      let html_template =
        if invite
        then or_default config.invite_html_template default_invite_html
        else or_default config.reset_html_template default_reset_html in
      let text_values : List (String × String) =
        ("display_name", display_name)
        ∷ ("product_name", "Triton Control")
        ∷ ("link", link)
        ∷ ("expiry_minutes", expiry)
        ∷ [] in
      let escape_value : String × String → String × String = λ kv. (kv.0, env.escape kv.1) in
      let html_values : List (String × String) = map escape_value text_values in
      Errors.◌>>◌ (validate_template text_template) (
        Errors.◌>>◌ (validate_template html_template) (
          Errors.◌>>=◌ (or_raise (env.format_map text_template text_values) (uncaught "ValueError"))
            λ text.
              Errors.◌>>=◌
                (or_raise (env.format_map html_template html_values) (uncaught "ValueError"))
                λ html. ok (record {
                  subject = if invite then config.invite_subject else config.reset_subject;
                  text = text;
                  html = html;
                })))

  -- `_ssl_context`; it stands outside the `try` of `send_smtp`
  unfoldable pub ssl_context : EmailConfigEntity → Result (Unit {0})
  ssl_context config =
      reject_if (not (is_blank config.ca_certificate) && not (env.loads_ca config.ca_certificate))
        (uncaught "SSLError")

  -- the `except` of `send_smtp`, with `_smtp_failure_message`
  unfoldable pub smtp_failure : SmtpFailure → AppError
  smtp_failure authentication =
      bad_request_error
        "SMTP delivery failed (SMTPAuthenticationError): authentication failed; verify the SMTP username and password"
  smtp_failure disconnected =
      bad_request_error
        "SMTP delivery failed (SMTPServerDisconnected): the server disconnected; verify the SMTP host, port, and TLS mode and ensure this is an SMTP endpoint, not IMAP"
  smtp_failure tls_error =
      bad_request_error
        "SMTP delivery failed (SSLError): TLS negotiation failed; verify the TLS mode and certificate trust"
  smtp_failure timed_out =
      bad_request_error
        "SMTP delivery failed (TimeoutError): the connection timed out; verify the SMTP host, port, and network access"
  smtp_failure (other_failure name) = bad_request_error (
      "SMTP delivery failed (" ^^ name
      ^^ "): verify the SMTP host, port, TLS mode, credentials, and recipient")
  smtp_failure (escapes name) = uncaught name

  -- connecting, logging in and sending
  unfoldable pub exchange : String → RenderedMessage → Action (Unit {0})
  unfolding smtp_failure
  exchange recipient message = do
    n ← gets λ w. w.smtp_attempts
    modify λ w. record w { smtp_attempts = n + 1 }
    maybe (env.smtp_exchange n recipient)
        (modify λ w. record w { outbox = w.outbox ++ (recipient, message.text) ∷ [] })
        (λ failure. raise (smtp_failure failure))

  unfoldable pub send_smtp : EmailConfigEntity → String → RenderedMessage → Action (Unit {0})
  unfolding ssl_context exchange
  send_smtp config recipient message = do
    raise_if (not (config.delivery_mode == "smtp"))
        (bad_request_error "SMTP delivery is not enabled")
    raise_if (config.smtp_tls_mode == "none" && not config.smtp_allow_insecure)
        (bad_request_error "Plain SMTP requires explicit insecure transport opt-in")
    lift (ssl_context config)
    exchange recipient message
