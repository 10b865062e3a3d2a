-- ===== src/Tests/Auth.antt =====
-- Account management at the small world.
use triton_control.Prelude.{
  All, find, Option, normal, or_empty, ℕ, zero, suc, ◌≤◌, ◌≡◌, refl, Bool, true, false, none, some,
  List, [], ◌∷◌, ◌==◌, arith, select, update_where, is_space,
}
use triton_control.Errors.{ok}
use triton_control.Store.Data.{UserEntity, AccountLifecycleTokenEntity, SecurityEventEntity}
use triton_control.Store.Tokens.{is_active_for, has_hash}
use triton_control.Auth.Lifecycle.Core.{
  CompleteLifecycleRequest, token_hash, valid_token, revoke, issue,
}
use triton_control.Auth.Lifecycle.Issuance.{fresh_row}
use triton_control.Auth.Lifecycle.Redeem.{activate_invitation, complete_password_reset}
use triton_control.Auth.Lifecycle.Revocation.{DistinctIds, revoked_at, revoke-eq}
use triton_control.Auth.Lifecycle.Single.{select-issue}
use triton_control.Auth.Lifecycle.Redemption.{Redeemed, activates, resets}
use triton_control.Auth.Lifecycle.Redemption.Activation.{activate_invitation-Redeemed}
use triton_control.Auth.Lifecycle.Redemption.Reset.{complete_password_reset-Redeemed}
use triton_control.Requests.{Request, waits, inspects, run}
use triton_control.Requests.ShutRows.{DistinctHashes}
use triton_control.Auth.Lifecycle.Redemption.Valid.{Answers, Logged, valid_token-Valid}
use triton_control.Auth.Password.{meets_policy}
use triton_control.Access.{Claims}
use triton_control.Requests.Outdated.{Refused, complete_password_reset-Refused}
use triton_control.Requests.SingleUse.{
  activate_invitation-single_use, complete_password_reset-single_use,
}
use triton_control.Tests.{test_env, account, token, world}

abbrev activation : CompleteLifecycleRequest
activation = record { token = "first"; password = "Correct-Horse-1" }

abbrev reset : CompleteLifecycleRequest
reset = record { token = "second"; password = "Correct-Horse-1" }

abbrev later : List Request
later = inspects "first" "invite" ∷ waits 5 ∷ []

fresh_first : (n : ℕ) → 1 ≤ n → (token_hash (test_env.token_urlsafe n) == "first") ≡ false
fresh_first zero k = ground arith
fresh_first (suc n) k = refl

fresh_second : (n : ℕ) → 1 ≤ n → (token_hash (test_env.token_urlsafe n) == "second") ≡ false
fresh_second zero k = refl
fresh_second (suc n) k = refl

ids : (active : Bool) → DistinctIds (world active).tokens
ids active = ((omega arith, tt), (tt, tt))

hashes : (active : Bool) → DistinctHashes (world active).tokens
hashes active = ((refl, tt), (tt, tt))

is_activated : activates activation (world false) ≡ some (token 1 "invite" "first", account false)
unfolding meets_policy is_space
is_activated = refl

is_reset : resets reset (world true) ≡ some (token 2 "password_reset" "second", account true)
unfolding meets_policy is_space
is_reset = refl

activate_invitation-single_use_example :
    (valid_token "first" "invite" (run later (activate_invitation activation (world false)).1)).0
    ≡ ok none
activate_invitation-single_use_example =
    activate_invitation-single_use later "invite" activation (world false)
      (token 1 "invite" "first") (account false) (ids false) (hashes false) fresh_first is_activated

complete_password_reset-single_use_example :
    (valid_token "second" "password_reset"
      (run later (complete_password_reset reset (world true)).1)).0
    ≡ ok none
complete_password_reset-single_use_example =
    complete_password_reset-single_use later "password_reset" reset (world true)
      (token 2 "password_reset" "second") (account true) (ids true) (hashes true) fresh_second
      is_reset

activate_invitation-Redeemed_example :
    Redeemed
      (λ _. true)
      "Correct-Horse-1"
      (world false)
      (activates activation (world false))
      (activate_invitation activation (world false))
activate_invitation-Redeemed_example =
    activate_invitation-Redeemed activation (world false) (ids false)

complete_password_reset-Redeemed_example :
    Redeemed
      (λ u. u.is_active)
      "Correct-Horse-1"
      (world true)
      (resets reset (world true))
      (complete_password_reset reset (world true))
complete_password_reset-Redeemed_example =
    complete_password_reset-Redeemed reset (world true) (ids true)

revoke-eq_example : revoke 1 (some "invite") (world true) ≡ (
  ok tt,
  record (world true) {
    tokens = update_where (is_active_for 1 (some "invite")) (revoked_at 10) (world true).tokens;
  },
)
revoke-eq_example = revoke-eq 1 (some "invite") (world true) (ids true)

select-issue_example :
    select
      (is_active_for 1 (some "invite"))
      (issue (account false) "invite" 60 none (world false)).1.tokens
    ≡ fresh_row 1 "invite" 60 none (world false) ∷ []
select-issue_example = select-issue (account false) "invite" 60 none (world false) (ids false)

valid_token-Valid_example :
    (answer : Option (AccountLifecycleTokenEntity × UserEntity)) × (events : List
      SecurityEventEntity)
    × (valid_token "first" "invite" (world false)
        ≡ (ok answer, record (world false) { events = events }))
    × Answers "first" "invite" (world false) answer
    × Logged (world false) (find (has_hash (token_hash "first")) (world false).tokens) events
valid_token-Valid_example = valid_token-Valid "first" "invite" (world false)

-- claims of a token that was issued before the reset
abbrev early : Claims
early = record {
  sub = none;
  email = some "ada@example.com";
  preferred_username = none;
  name = none;
  role = some "member";
  auth_provider = some "local";
  token_use = none;
  credential_version = some 0;
  user_id = some 1;
  access_allowed = some true;
}

local_claims : (normal (or_empty early.auth_provider) == "local") ≡ true
unfolding normal
local_claims = refl

complete_password_reset-Refused_example :
    All (Refused early 1) (complete_password_reset reset (world true)).1.users
complete_password_reset-Refused_example =
    complete_password_reset-Refused early reset (world true) (token 2 "password_reset" "second")
      (account true) (ids true) is_reset local_claims (omega arith)
