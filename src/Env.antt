-- ===== src/Env.antt =====
-- What the program takes from outside: environment variables, the hash functions, the source of
-- random tokens, `urllib.parse.quote`, `html.escape`, `string.Formatter`, and the SMTP client.
use triton_control.Prelude.{ℕ, String, Bool, Option, List}

-- How an SMTP exchange fails, by the classes that the program tells apart.
pub data SmtpFailure : Type 0 where
  authentication disconnected tls_error timed_out : SmtpFailure
  other_failure : String → SmtpFailure
  -- an exception that `send_smtp` does not catch, such as the `ValueError` of a password that
  -- cannot be decrypted
  escapes : String → SmtpFailure

pub record Env : Type 0 where
  -- os.getenv(name)
  pub getenv : String → Option String
  -- islower(), isupper(), isdigit() and isalnum() of the character with a code point
  pub is_lower_char : ℕ → Bool
  pub is_upper_char : ℕ → Bool
  pub is_digit_char : ℕ → Bool
  pub is_alnum_char : ℕ → Bool
  -- hashlib.sha256(text.encode("utf-8")).hexdigest()
  pub sha256 : String → String
  -- base64 of hashlib.pbkdf2_hmac("sha256", password, salt, iterations), for a salt in base64
  pub pbkdf2_sha256 : String → String → ℕ → String
  -- the n-th draw of secrets.token_urlsafe(48), and of secrets.token_bytes(16) in base64
  pub token_urlsafe : ℕ → String
  pub token_bytes : ℕ → String
  -- urllib.parse.quote(text, safe="")
  pub quote : String → String
  -- html.escape(text, quote=True)
  pub escape : String → String
  -- the field names that string.Formatter().parse(template) yields; none for a ValueError
  pub parse_fields : String → Option (List String)
  -- template.format_map(values); none for a ValueError
  pub format_map : String → List (String × String) → Option String
  -- whether ssl.SSLContext.load_verify_locations accepts a CA certificate
  pub loads_ca : String → Bool
  -- the outcome of connecting and sending the n-th mail to a recipient; none if it was accepted
  pub smtp_exchange : ℕ → String → Option SmtpFailure

module _ ⦃env : Env⦄ where
  -- os.getenv(name, default)
  abbrev pub getenv_or : String → String → String
  getenv_or name default = elim (env.getenv name) [ Option.none ↦ default | Option.some v ↦ v ]
