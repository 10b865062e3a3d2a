-- ===== src/Auth/Lifecycle/Redemption/Steps.antt =====
-- What the steps of a redemption compute.
use triton_control.Auth.Lifecycle.Redemption.{
  expiry_events, consumed, tokens_after, redeems, seen_row, redeemable, seen,
}
use triton_control.Prelude.{
  ℕ, suc, ◌≡◌, refl, String, Option, none, some, List, [], ◌∷◌, inl, inr, find, leb, update_where,
  arith, Bool-cases,
}
use triton_control.Errors.{ok}
use triton_control.Env.{Env}
use triton_control.Store.Data.{World, UserEntity, AccountLifecycleTokenEntity}
use triton_control.Store.Users
use triton_control.Store.Users.{has_id}
use triton_control.Store.Tokens
use triton_control.Store.Tokens.{has_hash, same_id, is_active_for}
use triton_control.Store.Session.{pure, maybe, continue_with, ◌>>=◌}
use triton_control.Auth.Password.{hash_password, encode_hash}
use triton_control.Auth.Lifecycle.Core.{token_hash, audit, audit_expired, check_token, valid_token}
use triton_control.Auth.Lifecycle.Redeem.{consume}
use triton_control.Auth.Lifecycle.Revocation.{Absent, DistinctIds, revoke-eq}

pub Absent-save :
    (e : AccountLifecycleTokenEntity) (i : ℕ) (ts : List AccountLifecycleTokenEntity)
    → Absent i ts
    → Absent i (update_where (same_id e) (λ _. e) ts)
Absent-save e i [] h = tt
Absent-save e i (t ∷ ts) h = ground (arith, Absent-save e i ts h.1)

pub DistinctIds-save :
    (e : AccountLifecycleTokenEntity) (ts : List AccountLifecycleTokenEntity)
    → DistinctIds ts
    → DistinctIds (update_where (same_id e) (λ _. e) ts)
DistinctIds-save e [] d = tt
DistinctIds-save e (t ∷ ts) d =
    ground (arith, DistinctIds-save e ts d.1, Absent-save e t.id ts, Absent-save e e.id ts)

module _ ⦃env : Env⦄ where
  audit_expired-eq :
      (e : AccountLifecycleTokenEntity) (w : World)
      → audit_expired e w ≡ (ok tt, record w { events = expiry_events e w })
  unfolding audit_expired expiry_events audit ◌>>=◌ Users.find_by_id Tokens.add_security_event
  audit_expired-eq e w = elim (Bool-cases (leb e.expires_at w.now)) [
    | inl h ↦ rw h refl
    | inr h ↦ rw h refl
  ]

  check_token-eq :
      (purpose : String) (e : AccountLifecycleTokenEntity) (w : World)
      → check_token purpose e w ≡ (ok (redeems purpose w (some e)), seen_row w (some e))
  unfolding check_token ◌>>=◌ Users.find_by_id
  check_token-eq purpose e w = rw (audit_expired-eq e w, ◌>>=◌, continue_with)

  check_found :
      (purpose : String) (o : Option AccountLifecycleTokenEntity) (w : World)
      → maybe o (pure none) (check_token purpose) w ≡ (ok (redeems purpose w o), seen_row w o)
  unfolding pure maybe
  check_found purpose none w = refl
  check_found purpose (some e) w = check_token-eq purpose e w

  -- `_valid_token` answers the row of the hash with its account exactly when the row is for the
  -- purpose, neither consumed nor revoked, not expired and of an account that is there; it adds one
  -- event at most, for an expired row, and changes nothing else.
  pub valid_token-eq :
      (raw purpose : String) (w : World)
      → valid_token raw purpose w ≡ (ok (redeemable raw purpose w), seen raw w)
  unfolding valid_token Tokens.find_token_by_hash ◌>>=◌
  valid_token-eq raw purpose w = check_found purpose (find (has_hash (token_hash raw)) w.tokens) w

  -- `hash_password` draws a salt.
  pub hash_password-eq :
      (password : String) (w : World)
      → hash_password password w
        ≡ (ok (encode_hash password (env.token_bytes w.drawn)), record w { drawn = suc w.drawn })
  unfolding hash_password ◌>>=◌
  hash_password-eq password w = refl

  pub consume-eq :
      (e : AccountLifecycleTokenEntity) (u : UserEntity) (w : World)
      → DistinctIds w.tokens
      → consume e u w ≡ (ok tt, record w { tokens = tokens_after e u w })
  unfolding consume Tokens.save_token ◌>>=◌
  consume-eq e u w d = revoke-eq u.id none _ (DistinctIds-save (consumed w.now e) w.tokens d)
