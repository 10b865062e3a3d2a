-- ===== src/Auth/Lifecycle/Issuance.antt =====
-- What `_issue` does: the open tokens of the same purpose are revoked, and one row is added.
use triton_control.Prelude.{
  ℕ, suc, ◌+◌, ◌≡◌, refl, String, Bool, true, false, Option, none, [], ◌∷◌, ◌++◌, any, inl, inr,
  Bool-cases,
}
use triton_control.Errors.{Result, ok, err, uncaught}
use triton_control.Env.{Env}
use triton_control.Store.Data.{World, AccountLifecycleTokenEntity}
use triton_control.Store.Tokens
use triton_control.Store.Tokens.{has_hash, is_active_for, is_open}
use triton_control.Store.Session.{◌>>=◌, continue_with}
use triton_control.Auth.Lifecycle.Core.{token_hash, minutes, create_fresh}

module _ ⦃env : Env⦄ where
  -- the row that `create_fresh` adds
  abbrev pub fresh_row : ℕ → String → ℕ → Option ℕ → World → AccountLifecycleTokenEntity
  fresh_row user_id purpose m by w = record {
    id = w.next_token_id;
    user_id = user_id;
    purpose = purpose;
    token_hash = token_hash (env.token_urlsafe w.drawn);
    expires_at = w.now + minutes m;
    created_by_user_id = by;
    created_at = w.now;
    consumed_at = none;
    revoked_at = none;
  }

  abbrev pub with_row : AccountLifecycleTokenEntity → World → World
  with_row row w = record w {
    tokens = w.tokens ++ row ∷ [];
    next_token_id = suc w.next_token_id;
    drawn = w.drawn + 1;
  }

  -- A hash that is taken stops the insertion.
  abbrev pub create_outcome :
      Bool
      → ℕ
      → String
      → ℕ
      → Option ℕ
      → World
      → Result (String × AccountLifecycleTokenEntity) × World
  create_outcome true i p m by w =
      (err (uncaught "IntegrityError"), record w { drawn = w.drawn + 1 })
  create_outcome false i p m by w =
      (ok (env.token_urlsafe w.drawn, fresh_row i p m by w), with_row (fresh_row i p m by w) w)

  pub create_fresh-eq :
      (i : ℕ) (p : String) (m : ℕ) (by : Option ℕ) (w : World)
      → create_fresh i p m by w
        ≡ create_outcome
            (any (has_hash (token_hash (env.token_urlsafe w.drawn))) w.tokens)
            i
            p
            m
            by
            w
  unfolding create_fresh Tokens.create_token ◌>>=◌
  create_fresh-eq i p m by w =
      elim (Bool-cases (any (has_hash (token_hash (env.token_urlsafe w.drawn))) w.tokens)) [
        | inl h ↦ rw (h, ◌>>=◌, continue_with) refl
        | inr h ↦ rw (h, ◌>>=◌, continue_with) refl
      ]
