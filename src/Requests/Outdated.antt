-- ===== src/Requests/Outdated.antt =====
-- A password reset outdates the tokens that were issued to the account before.
use triton_control.Prelude.{
  ℕ, ◌+◌, ◌≤◌, ◌≡◌, refl, subst, String, Bool, true, false, Option, none, some, List, [], ◌∷◌, All,
  beq, normal, or_empty, update_where, arith, ◌==◌, if◌then◌else◌,
}
use triton_control.Errors.{ok, err}
use triton_control.Env.{Env}
use triton_control.Store.Data.{World, UserEntity, AccountLifecycleTokenEntity}
use triton_control.Store.Users.{has_id}
use triton_control.Store.Session.{◌>>=◌, continue_with}
use triton_control.Access.{Claims}
use triton_control.Identity.{resolve_user}
use triton_control.RequestAuth.{
  claimed_version, is_outdated, check_version, credentials_changed, resolve_access_claims,
}
use triton_control.Auth.Lifecycle.Core.{CompleteLifecycleRequest}
use triton_control.Auth.Lifecycle.Redeem.{complete_password_reset}
use triton_control.Auth.Lifecycle.Revocation.{DistinctIds}
use triton_control.Auth.Lifecycle.Redemption.{accepted, resets, Redeemed}
use triton_control.Auth.Lifecycle.Redemption.Reset.{complete_password_reset-Redeemed}

-- the claims are of no use for the row, if it is the account
abbrev pub Refused : Claims → ℕ → UserEntity → Type 0
Refused source i u = has_id i u ≡ true → is_outdated source u ≡ true

newer : (claimed version : ℕ) → claimed ≤ version → beq claimed (version + 1) ≡ false
newer claimed version h = ground arith

renewed_choice :
    (source : Claims) (i : ℕ) (b : Bool) (u v : UserEntity)
    → has_id i v ≡ b
    → is_outdated source u ≡ true
    → Refused source i (if b then u else v)
renewed_choice source i true u v p q = λ r. q
renewed_choice source i false u v p q = λ r. cc

renewed-Refused :
    (source : Claims) (i : ℕ) (u : UserEntity) (rows : List UserEntity)
    → is_outdated source u ≡ true
    → All (Refused source i) (update_where (has_id i) (λ _. u) rows)
renewed-Refused source i u [] p = tt
renewed-Refused source i u (v ∷ rows) p =
    (renewed_choice source i (has_id i v) u v refl p, renewed-Refused source i u rows p)

module _ ⦃env : Env⦄ where
  Redeemed-users :
      (active : UserEntity → Bool) (password : String) (w : World)
      (o : Option (AccountLifecycleTokenEntity × UserEntity)) (e : AccountLifecycleTokenEntity)
      (u : UserEntity) (out : _)
      → o ≡ some (e, u)
      → Redeemed active password w o out
      → out.1.users ≡ (accepted (active u) password e u w).users
  Redeemed-users active password w o e u out p r =
      (subst (λ o. Redeemed active password w o out) p r).1

  -- After a password reset that was accepted, local claims with a credential version up to the one
  -- that the account had are outdated for its row, so that `_resolve_access_claims` refuses them.
  pub complete_password_reset-Refused :
      (source : Claims) (request : CompleteLifecycleRequest) (w : World)
      (e : AccountLifecycleTokenEntity) (u : UserEntity)
      → DistinctIds w.tokens
      → resets request w ≡ some (e, u)
      → (normal (or_empty source.auth_provider) == "local") ≡ true
      → claimed_version source ≤ u.credential_version
      → All (Refused source u.id) (complete_password_reset request w).1.users
  unfolding is_outdated
  complete_password_reset-Refused source request w e u ids p local older =
      rw (Redeemed-users _ _ w _ e u _ p (complete_password_reset-Redeemed request w ids))
        (renewed-Refused source u.id _ w.users (rw (local, newer _ _ older) refl))

  -- A request whose claims resolve to an account that outdates them is refused with 401, and the
  -- user of the browser's session is dropped.
  pub resolve_access_claims-outdated :
      (bearer allow_pending : Bool) (source : Claims) (w w' : World) (u : UserEntity)
      → resolve_user source true w ≡ (ok (some u), w')
      → is_outdated source u ≡ true
      → resolve_access_claims bearer allow_pending source w
        ≡ (err credentials_changed, record w' { session_user = none })
  unfolding resolve_access_claims ◌>>=◌ check_version
  resolve_access_claims-outdated bearer allow_pending source w w' u p q =
      rw (p, continue_with, q) refl
