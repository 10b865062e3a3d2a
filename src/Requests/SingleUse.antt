-- ===== src/Requests/SingleUse.antt =====
-- A token that was redeemed is never valid again.
use triton_control.Prelude.{
  ℕ, ◌≤◌, ◌≡◌, refl, subst, String, Bool, true, false, Option, none, some, List, All, find, arith,
  ◌==◌, ap, if◌then◌else◌,
}
use triton_control.Errors.{ok}
use triton_control.Env.{Env}
use triton_control.Store.Data.{World, UserEntity, AccountLifecycleTokenEntity}
use triton_control.Store.Users
use triton_control.Store.Tokens
use triton_control.Store.Tokens.{has_hash, is_open, same_id, is_active_for}
use triton_control.Store.Keeps.{Keeps-modify}
use triton_control.Auth.Lifecycle.Core.{
  CompleteLifecycleRequest, token_hash, is_valid, valid_token, with_account,
}
use triton_control.Auth.Password.{is_accepted}
use triton_control.Auth.Lifecycle.Revocation.{DistinctIds}
use triton_control.Auth.Lifecycle.Issuance.{create_outcome, create_fresh-eq}
use triton_control.Auth.Lifecycle.Redeem.{activate_invitation, complete_password_reset}
use triton_control.Auth.Lifecycle.Redemption.{
  redeems, redeemable, eligible_for, tokens_after, activates, resets, Redeemed,
}
use triton_control.Auth.Lifecycle.Redemption.Steps.{valid_token-eq}
use triton_control.Auth.Lifecycle.Redemption.Activation.{activate_invitation-Redeemed}
use triton_control.Auth.Lifecycle.Redemption.Reset.{complete_password_reset-Redeemed}
use triton_control.Requests.{Request, run}
use triton_control.Requests.Stable.{IsStable}
use triton_control.Requests.Operations.{activate_invitation-Keeps, complete_password_reset-Keeps}
use triton_control.Requests.Reachable.{run-keeps}
use triton_control.Requests.Spent.{ShutFor, IsSpent, IsSpent-stable}
use triton_control.Requests.ShutRows.{
  DistinctHashes, only_row, consumed-shut, revoked-shut, found_shut,
}

abbrev Token : Type 0
Token = AccountLifecycleTokenEntity

-- the clock of the random draws
abbrev IsLater : ℕ → World → Type 0
IsLater n w = n ≤ w.drawn

when_some {ℓ} :
    {A : Type ℓ} (b : Bool) (a x : A) → (if b then some a else none) ≡ some x → some a ≡ some x
when_some true a x p = p
when_some false a x p = cc

when_redeemed {ℓ} :
    {A : Type ℓ} (b : Bool) (o : Option A) (x : A) → (if b then o else none) ≡ some x → o ≡ some x
when_redeemed true o x p = p
when_redeemed false o x p = cc

eligible_for-some :
    (test : UserEntity → Bool) (o : Option _) (x : Token × UserEntity)
    → eligible_for test o ≡ some x
    → o ≡ some x
eligible_for-some test none x p = p
eligible_for-some test (some (e, u)) x p = when_some (test u) (e, u) x p

account_row :
    (e f : Token) (o : Option UserEntity) (u : UserEntity) → with_account e o ≡ some (f, u) → e ≡ f
account_row e f none u p = cc
account_row e f (some v) u p = cc

redeems_row :
    (purpose : String) (w : World) (o : Option Token) (e : Token) (u : UserEntity)
    → redeems purpose w o ≡ some (e, u)
    → o ≡ some e
redeems_row purpose w none e u p = cc
redeems_row purpose w (some t) e u p =
    ap some (account_row t e _ u (when_redeemed (is_valid w.now purpose t) _ _ p))

closed_row :
    (now : ℕ) (purpose : String) (e : Token) → is_open e ≡ false → is_valid now purpose e ≡ false
closed_row now purpose e closed = ground arith

closed_redeems :
    (purpose : String) (w : World) (o : Option Token)
    → ((e : Token) → o ≡ some e → is_open e ≡ false)
    → redeems purpose w o ≡ none
closed_redeems purpose w none closed = refl
closed_redeems purpose w (some e) closed = rw (closed_row w.now purpose e (closed e refl)) refl

module _ ⦃env : Env⦄ where
  create_later :
      (taken : Bool) (n i : ℕ) (p : String) (m : ℕ) (by : Option ℕ) (w : World)
      → n ≤ w.drawn
      → n ≤ (create_outcome taken i p m by w).1.drawn
  create_later true n i p m by w h = omega arith
  create_later false n i p m by w h = omega arith

  IsLater-stable : (n : ℕ) → IsStable (IsLater n)
  unfolding Tokens.save_token Users.delete
  IsLater-stable n = record {
    silent = λ w w' s h. omega arith;
    creates = λ i p m by. record {
      at = λ w h. rw (create_fresh-eq i p m by w) (create_later _ n i p m by w h);
    };
    closes = λ t closed. Keeps-modify _ λ w h. h;
    deletes = λ u. Keeps-modify _ λ w h. h;
  }

  shut_redeems :
      (raw purpose : String) (w : World)
      → All (ShutFor (token_hash raw)) w.tokens
      → redeemable raw purpose w ≡ none
  shut_redeems raw purpose w shut =
      closed_redeems purpose w _ (λ e f. found_shut _ e w.tokens shut f)

  spent_rows :
      (h : String) (e : Token) (u : UserEntity) (w : World)
      → DistinctHashes w.tokens
      → find (has_hash h) w.tokens ≡ some e
      → All (ShutFor h) (tokens_after e u w)
  spent_rows h e u w d f =
      revoked-shut h w.now _ _ (consumed-shut h w.now e w.tokens (only_row h e w.tokens d f))

  spent_forever :
      (rs : List Request) (raw purpose : String) (w : World)
      → IsSpent raw w
      → (valid_token raw purpose (run rs w)).0 ≡ ok none
  spent_forever rs raw purpose w spent =
      let kept = run-keeps (IsSpent-stable raw) rs w spent in
      rw (valid_token-eq raw purpose (run rs w))
        (ap ok (shut_redeems raw purpose (run rs w) kept.shut))

  Redeemed-tokens :
      (active : UserEntity → Bool) (password : String) (o : Option (Token × UserEntity)) (e : Token)
      (u : UserEntity) (w : World) (out : _)
      → o ≡ some (e, u)
      → Redeemed active password w o out
      → out.1.tokens ≡ tokens_after e u w
  Redeemed-tokens active password o e u w out p r =
      (subst (λ o. Redeemed active password w o out) p r).2

  activates_row :
      (request : CompleteLifecycleRequest) (w : World) (e : Token) (u : UserEntity)
      → activates request w ≡ some (e, u)
      → find (has_hash (token_hash request.token)) w.tokens ≡ some e
  activates_row request w e u p =
      redeems_row "invite" w _ e u
        (eligible_for-some _ _ (e, u) (when_redeemed (is_accepted request.password) _ _ p))

  resets_row :
      (request : CompleteLifecycleRequest) (w : World) (e : Token) (u : UserEntity)
      → resets request w ≡ some (e, u)
      → find (has_hash (token_hash request.token)) w.tokens ≡ some e
  resets_row request w e u p =
      redeems_row "password_reset" w _ e u
        (eligible_for-some _ _ (e, u) (when_redeemed (is_accepted request.password) _ _ p))

  -- An invitation that was accepted once is spent: whatever requests follow, its token is valid for
  -- no purpose again, provided that ids and hashes are the keys of the table and that no later
  -- random draw repeats the hash of the token.
  pub activate_invitation-single_use :
      (rs : List Request) (purpose : String) (request : CompleteLifecycleRequest) (w : World)
      (e : AccountLifecycleTokenEntity) (u : UserEntity)
      → DistinctIds w.tokens
      → DistinctHashes w.tokens
      → ((n : ℕ)
          → w.drawn ≤ n
          → (token_hash (env.token_urlsafe n) == token_hash request.token) ≡ false)
      → activates request w ≡ some (e, u)
      → (valid_token request.token purpose (run rs (activate_invitation request w).1)).0 ≡ ok none
  activate_invitation-single_use rs purpose request w e u ids hashes fresh p =
      let later = (activate_invitation-Keeps (IsLater-stable w.drawn) request).at w (omega arith) in
      spent_forever rs request.token purpose _ (record {
        shut =
            rw (Redeemed-tokens _ _ _ e u w _ p (activate_invitation-Redeemed request w ids))
              (spent_rows _ e u w hashes (activates_row request w e u p));
        unrepeated = λ n k. fresh n (omega arith);
      })

  -- A password reset that was accepted once is spent: whatever requests follow, its token is valid for
  -- no purpose again, provided that ids and hashes are the keys of the table and that no later
  -- random draw repeats the hash of the token.
  pub complete_password_reset-single_use :
      (rs : List Request) (purpose : String) (request : CompleteLifecycleRequest) (w : World)
      (e : AccountLifecycleTokenEntity) (u : UserEntity)
      → DistinctIds w.tokens
      → DistinctHashes w.tokens
      → ((n : ℕ)
          → w.drawn ≤ n
          → (token_hash (env.token_urlsafe n) == token_hash request.token) ≡ false)
      → resets request w ≡ some (e, u)
      → (valid_token request.token purpose (run rs (complete_password_reset request w).1)).0
        ≡ ok none
  complete_password_reset-single_use rs purpose request w e u ids hashes fresh p =
      let later =
        (complete_password_reset-Keeps (IsLater-stable w.drawn) request).at w (omega arith) in
      spent_forever rs request.token purpose _ (record {
        shut =
            rw (Redeemed-tokens _ _ _ e u w _ p (complete_password_reset-Redeemed request w ids))
              (spent_rows _ e u w hashes (resets_row request w e u p));
        unrepeated = λ n k. fresh n (omega arith);
      })
