-- ===== src/Auth/Lifecycle/Redemption.antt =====
-- What a redemption of an invitation or of a password reset does to the accounts and the tokens.
pub mod Steps
pub mod Activation
pub mod Reset
pub mod Valid
use triton_control.Prelude.{
  ℕ, suc, ◌+◌, ◌≡◌, refl, String, Bool, true, false, not, ◌&&◌, ◌||◌, Option, none, some, List, [],
  ◌∷◌, ◌++◌, ◌⊎◌, inl, inr, find, leb, update_where, arith, Bool-cases, Option-cases, ◌==◌, ap,
  if◌then◌else◌,
}
use triton_control.Errors.{Result, AppError, ok, err, bad_request_error}
use triton_control.Env.{Env}
use triton_control.Store.Data.{World, UserEntity, AccountLifecycleTokenEntity, SecurityEventEntity}
use triton_control.Store.Users
use triton_control.Store.Users.{has_id}
use triton_control.Store.Tokens
use triton_control.Store.Tokens.{has_hash, same_id, is_active_for}
use triton_control.Store.Session.{
  Action, pure, maybe, require, raise_if, utcnow, continue_with, ◌>>=◌, ◌>>◌,
}
use triton_control.Auth.Password.{
  meets_policy, validate_password, password_rule_description, hash_password, encode_hash,
  is_accepted, bad_password,
}
use triton_control.Auth.Lifecycle.Core.{
  CompleteLifecycleRequest, token_hash, is_valid, email_of, with_account, audit, audit_expired,
  check_token, valid_token,
}
use triton_control.Auth.Lifecycle.Redeem.{
  invalid_invitation, invalid_reset, consume, activate_account, activate_invitation, reset_account,
  complete_password_reset,
}
use triton_control.Auth.Lifecycle.Revocation.{Absent, DistinctIds, revoked_at, revoke-eq}

-- the events after `_valid_token` has seen this row
pub expiry_events : AccountLifecycleTokenEntity → World → List SecurityEventEntity
expiry_events e w =
    if leb e.expires_at w.now
    then w.events
      ++ record {
        event_type = "lifecycle_token_expired";
        outcome = "expired";
        target_email = email_of (find (has_id e.user_id) w.users);
        actor_email = "";
        purpose = e.purpose;
        detail = "";
        created_at = w.now;
      }
        ∷ []
    else w.events

-- The account after its password was set; `active` is what becomes of `is_active`.
abbrev pub renewed : Bool → String → UserEntity → UserEntity
renewed active hash user = record user {
  password_hash = some hash;
  is_active = active;
  credential_version = user.credential_version + 1;
}

abbrev pub consumed : ℕ → AccountLifecycleTokenEntity → AccountLifecycleTokenEntity
consumed now e = record e { consumed_at = some now }

-- The table `tokens` after a redemption of a row by its account.
abbrev pub tokens_after :
    AccountLifecycleTokenEntity → UserEntity → World → List AccountLifecycleTokenEntity
tokens_after e u w =
    update_where (is_active_for u.id none) (revoked_at w.now)
      (update_where (same_id e) (λ _. consumed w.now e) w.tokens)

-- the row and account for which an activation is accepted
abbrev pub eligible_for :
    (UserEntity → Bool)
    → Option (AccountLifecycleTokenEntity × UserEntity)
    → Option (AccountLifecycleTokenEntity × UserEntity)
eligible_for test none = none
eligible_for test (some (e, u)) = if test u then some (e, u) else none

abbrev pub redeems :
    String
    → World
    → Option AccountLifecycleTokenEntity
    → Option (AccountLifecycleTokenEntity × UserEntity)
redeems purpose w none = none
redeems purpose w (some e) =
    if is_valid w.now purpose e then with_account e (find (has_id e.user_id) w.users) else none

abbrev pub seen_events : World → Option AccountLifecycleTokenEntity → List SecurityEventEntity
seen_events w none = w.events
seen_events w (some e) = expiry_events e w

abbrev pub seen_row : World → Option AccountLifecycleTokenEntity → World
seen_row w o = record w { events = seen_events w o }

module _ ⦃env : Env⦄ where
  -- The row that a raw token redeems for a purpose, and its account.
  abbrev pub redeemable :
      String → String → World → Option (AccountLifecycleTokenEntity × UserEntity)
  redeemable raw purpose w = redeems purpose w (find (has_hash (token_hash raw)) w.tokens)

  -- `_valid_token` reads: it changes the event log at most.
  abbrev pub seen : String → World → World
  seen raw w = seen_row w (find (has_hash (token_hash raw)) w.tokens)

  -- the row of the account is written
  abbrev pub saved : Bool → String → UserEntity → World → World
  saved active password u w = record w {
    users =
        update_where (has_id u.id)
          (λ _. renewed active (encode_hash password (env.token_bytes w.drawn)) u) w.users;
    drawn = suc w.drawn;
  }

  -- the world after a redemption, but for the event log
  abbrev pub accepted : Bool → String → AccountLifecycleTokenEntity → UserEntity → World → World
  accepted active password e u w = record (saved active password u w) {
    tokens = tokens_after e u w;
  }

  abbrev pub activates :
      CompleteLifecycleRequest → World → Option (AccountLifecycleTokenEntity × UserEntity)
  activates request w =
      if is_accepted request.password
      then eligible_for (λ u. u.auth_provider == "local" && not u.is_active)
          (redeemable request.token "invite" w)
      else none

  abbrev pub resets :
      CompleteLifecycleRequest → World → Option (AccountLifecycleTokenEntity × UserEntity)
  resets request w =
      if is_accepted request.password
      then eligible_for (λ u. u.auth_provider == "local" && u.is_active)
          (redeemable request.token "password_reset" w)
      else none

  -- What a redemption has done, by whether it was accepted; `active` is what becomes of `is_active`.
  abbrev pub Redeemed :
      (UserEntity → Bool)
      → String
      → World
      → Option (AccountLifecycleTokenEntity × UserEntity)
      → Result (Unit {0}) × World
      → Type 0
  Redeemed active password w none (r, w') =
      ((d : String) × (r ≡ err (bad_request_error d)))
      × (w'.users ≡ w.users)
      × (w'.tokens ≡ w.tokens)
  Redeemed active password w (some (e, u)) (r, w') =
      (r ≡ ok tt)
      × (w'.users ≡ (accepted (active u) password e u w).users)
      × (w'.tokens ≡ tokens_after e u w)
