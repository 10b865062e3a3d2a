-- ===== src/Auth/Password.antt =====
-- The password policy of schemas/user.py and the hashing of core/crypto.py and core/user_auth.py.
-- The classes of characters are parameters.
pub mod Hashes
use Prim.Native.Char.{code}
use Prim.Native.String.{String, count, [], ◌∷◌}
use triton_control.Prelude.{
  ℕ, suc, Bool, false, not, ◌&&◌, ◌||◌, none, some, List, leb, is_space, split, ◌^^◌, ◌==◌,
}
use triton_control.Prelude.Int.{pos, negsuc, int}
use triton_control.Errors.{AppError, bad_request_error}
use triton_control.Env.{Env}
use triton_control.Store.Session.{Action, gets, modify, raise_if, pure, ◌>>=◌, ◌>>◌}

-- any(p(char) for char in password)
unfoldable pub any_char : (ℕ → Bool) → String → Bool
any_char p [] = false
any_char p (c ∷ s) = p (code c) || any_char p s

abbrev pub password_rule_description : String
password_rule_description =
    "password must be 12-128 characters, include uppercase, lowercase, digit, and special character, and must not contain whitespace"

abbrev pub bad_password : AppError
bad_password = bad_request_error password_rule_description

module _ ⦃env : Env⦄ where
  -- The password passes `validate_password_policy` with required=True.
  unfoldable pub meets_policy : String → Bool
  unfolding any_char
  meets_policy s =
      leb 12 (count s)
      && leb (count s) 128
      && not (any_char is_space s)
      && any_char env.is_lower_char s
      && any_char env.is_upper_char s
      && any_char env.is_digit_char s
      && any_char (λ n. not (env.is_alnum_char n)) s

  -- A password that is required and given, and that passes.
  abbrev pub is_accepted : String → Bool
  is_accepted s = not (s == "") && meets_policy s

  -- `validate_password`: the policy's `ValueError` becomes a `BadRequestError`
  unfoldable pub validate_password : String → Action (Unit {0})
  validate_password s = raise_if (not (is_accepted s)) bad_password

abbrev dollar : String → String → String
dollar s t = s ^^ "$" ^^ t

module _ ⦃env : Env⦄ where
  -- the encoding of `hash_password`, for a salt in base64
  unfoldable pub encode_hash : (password salt : String) → String
  encode_hash password salt =
      dollar "pbkdf2_sha256"
        (dollar "120000" (dollar salt (env.pbkdf2_sha256 password salt 120000)))

  unfoldable pub hash_password : String → Action String
  hash_password password = do
    n ← gets λ w. w.drawn
    modify λ w. record w { drawn = suc w.drawn }
    pure (encode_hash password (env.token_bytes n))

  -- the checks of `verify_password` on the fields of the encoded hash; the bytes are compared as
  -- their base64, which is the same for what `hash_password` encodes
  unfoldable pub verify_fields : String → List String → Bool
  unfolding int
  verify_fields password
        (List.◌∷◌ algorithm (List.◌∷◌ iterations (List.◌∷◌ salt (List.◌∷◌ hash List.[])))) =
      elim (int iterations) [
        | none ↦ false
        | some (negsuc n) ↦ false
        | some (pos n) ↦ algorithm == "pbkdf2_sha256" && env.pbkdf2_sha256 password salt n == hash
      ]
  verify_fields password _ = false

  unfoldable pub verify_password : (password encoded_hash : String) → Bool
  unfolding verify_fields split
  verify_password password encoded_hash = verify_fields password (split b'$' encoded_hash)
