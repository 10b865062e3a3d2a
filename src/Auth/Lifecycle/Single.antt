-- ===== src/Auth/Lifecycle/Single.antt =====
-- An account has one open token for a purpose at most after `_issue`.
use triton_control.Prelude.{
  ℕ, ◌≡◌, refl, ◌∙◌, String, Bool, true, false, Option, some, List, [], ◌∷◌, ◌++◌, select, any,
  update_where, arith, beq_iff, eq_refl, if◌then◌else◌,
}
use triton_control.Env.{Env}
use triton_control.Store.Data.{World, UserEntity, AccountLifecycleTokenEntity}
use triton_control.Store.Tokens.{has_hash, is_open, is_active_for}
use triton_control.Store.Session.{continue_with, ◌>>=◌}
use triton_control.Auth.Lifecycle.Core.{token_hash, issue}
use triton_control.Auth.Lifecycle.Revocation.{DistinctIds, revoked_at, revoke-eq}
use triton_control.Auth.Lifecycle.Issuance.{fresh_row, create_outcome, create_fresh-eq}

abbrev Token : Type 0
Token = AccountLifecycleTokenEntity

closed_inactive :
    (i : ℕ) (purpose : String) (t : Token)
    → is_open t ≡ false
    → is_active_for i (some purpose) t ≡ false
closed_inactive i purpose t h = ground arith

select-update :
    (i : ℕ) (purpose : String) (now : ℕ) (ts more : List Token)
    → select
        (is_active_for i (some purpose))
        (update_where (is_active_for i (some purpose)) (revoked_at now) ts ++ more)
      ≡ select (is_active_for i (some purpose)) more
select-update i purpose now [] more = refl
select-update i purpose now (t ∷ ts) more =
    ground
      (arith, select-update i purpose now ts more, closed_inactive i purpose (revoked_at now t))

select-update_nil :
    (i : ℕ) (purpose : String) (now : ℕ) (ts : List Token)
    → select
        (is_active_for i (some purpose))
        (update_where (is_active_for i (some purpose)) (revoked_at now) ts)
      ≡ []
select-update_nil i purpose now [] = refl
select-update_nil i purpose now (t ∷ ts) =
    ground (arith, select-update_nil i purpose now ts, closed_inactive i purpose (revoked_at now t))

module _ ⦃env : Env⦄ where
  abbrev pub revoked_all : ℕ → String → World → World
  revoked_all i purpose w = record w {
    tokens = update_where (is_active_for i (some purpose)) (revoked_at w.now) w.tokens;
  }

  issue-eq :
      (u : UserEntity) (purpose : String) (m : ℕ) (by : Option ℕ) (w : World)
      → DistinctIds w.tokens
      → issue u purpose m by w
        ≡ create_outcome
            (any
              (has_hash (token_hash (env.token_urlsafe w.drawn)))
              (revoked_all u.id purpose w).tokens)
            u.id
            purpose
            m
            by
            (revoked_all u.id purpose w)
  unfolding issue ◌>>=◌
  issue-eq u purpose m by w d =
      rw (revoke-eq u.id (some purpose) w d, continue_with) (create_fresh-eq u.id purpose m by _)

  fresh_active :
      (i : ℕ) (purpose : String) (m : ℕ) (by : Option ℕ) (w : World)
      → select (is_active_for i (some purpose)) (fresh_row i purpose m by w ∷ [])
        ≡ fresh_row i purpose m by w ∷ []
  fresh_active i purpose m by w = rw ((beq_iff i i).1 refl, eq_refl purpose) refl

  open_rows :
      (taken : Bool) (i : ℕ) (purpose : String) (m : ℕ) (by : Option ℕ) (w : World)
      → select
          (is_active_for i (some purpose))
          (create_outcome taken i purpose m by (revoked_all i purpose w)).1.tokens
        ≡ (if taken then [] else fresh_row i purpose m by w ∷ [])
  open_rows true i purpose m by w = select-update_nil i purpose w.now w.tokens
  open_rows false i purpose m by w =
      select-update i purpose w.now w.tokens _ ∙ fresh_active i purpose m by w

  -- After `_issue` the open tokens of the account for the purpose are exactly the fresh one, which
  -- the new hash names; none is left when the hash was taken and the insertion raised.
  pub select-issue :
      (u : UserEntity) (purpose : String) (m : ℕ) (by : Option ℕ) (w : World)
      → DistinctIds w.tokens
      → select (is_active_for u.id (some purpose)) (issue u purpose m by w).1.tokens ≡ (
          if any
            (has_hash (token_hash (env.token_urlsafe w.drawn)))
            (revoked_all u.id purpose w).tokens
          then []
          else fresh_row u.id purpose m by w ∷ [])
  select-issue u purpose m by w d =
      rw (issue-eq u purpose m by w d) (open_rows _ u.id purpose m by w)
