-- ===== src/Store/Tokens.antt =====
-- repositories/account_lifecycle.py: tokens, the e-mail configuration, events and rate buckets.
-- A commit that would break the uniqueness of `token_hash` raises SQLAlchemy's `IntegrityError`.
use triton_control.Prelude.{
  ℕ, suc, ◌+◌, String, Bool, ◌&&◌, not, Option, none, some, List, [], ◌∷◌, ◌++◌, beq, ltb, any,
  find, select, update_where, is_some, map, ◌==◌,
}
use triton_control.Errors.{uncaught}
use triton_control.Store.Data.{
  AccountLifecycleTokenEntity, EmailConfigEntity, SecurityEventEntity, RecoveryRateLimitEntity,
}
use triton_control.Store.Session.{Action, pure, gets, modify, ◌>>=◌, ◌>>◌, raise_if, maybe}

abbrev pub has_hash : String → AccountLifecycleTokenEntity → Bool
has_hash h t = t.token_hash == h

-- neither consumed nor revoked
abbrev pub is_open : AccountLifecycleTokenEntity → Bool
is_open t = not (is_some t.consumed_at) && not (is_some t.revoked_at)

-- the filter of `list_active_tokens`; without a purpose every purpose passes
abbrev pub is_active_for : ℕ → Option String → AccountLifecycleTokenEntity → Bool
is_active_for i none t = beq t.user_id i && is_open t
is_active_for i (some p) t = beq t.user_id i && is_open t && t.purpose == p

unfoldable pub create_token :
    (user_id : ℕ) (purpose token_hash : String) (expires_at : ℕ) (created_by : Option ℕ)
    → Action AccountLifecycleTokenEntity
create_token user_id purpose token_hash expires_at created_by = do
  raise_if (← gets λ w. any (has_hash token_hash) w.tokens) (uncaught "IntegrityError")
  i ← gets λ w. w.next_token_id
  t ← gets λ w. w.now
  let row : AccountLifecycleTokenEntity = record {
    id = i;
    user_id = user_id;
    purpose = purpose;
    token_hash = token_hash;
    expires_at = expires_at;
    created_by_user_id = created_by;
    created_at = t;
    consumed_at = none;
    revoked_at = none;
  }
  modify λ w. record w { tokens = w.tokens ++ row ∷ []; next_token_id = suc i }
  pure row

unfoldable pub find_token_by_hash : String → Action (Option AccountLifecycleTokenEntity)
find_token_by_hash h = gets λ w. find (has_hash h) w.tokens

unfoldable pub list_active_tokens : ℕ → Option String → Action (List AccountLifecycleTokenEntity)
list_active_tokens i p = gets λ w. select (is_active_for i p) w.tokens

unfoldable pub list_user_ids_with_pending_invitations : Action (List ℕ)
list_user_ids_with_pending_invitations = gets λ w.
    map (λ t. t.user_id)
      (select (λ t. t.purpose == "invite" && ltb w.now t.expires_at && is_open t) w.tokens)

abbrev pub same_id : AccountLifecycleTokenEntity → AccountLifecycleTokenEntity → Bool
same_id t u = beq u.id t.id

-- An UPDATE of the row with this id.
unfoldable pub save_token : AccountLifecycleTokenEntity → Action (Unit {0})
save_token t = modify λ w. record w { tokens = update_where (same_id t) (λ _. t) w.tokens }

unfoldable pub get_email_config : Action EmailConfigEntity
get_email_config = gets λ w. w.email_config

unfoldable pub save_email_config : EmailConfigEntity → Action (Unit {0})
save_email_config c = modify λ w. record w { email_config = c }

unfoldable pub add_security_event : SecurityEventEntity → Action (Unit {0})
add_security_event e = modify λ w. record w { events = w.events ++ e ∷ [] }

abbrev pub is_bucket : String → ℕ → RecoveryRateLimitEntity → Bool
is_bucket key window b = b.bucket_key == key && beq b.window_started_at window

abbrev pub bump : RecoveryRateLimitEntity → RecoveryRateLimitEntity
bump b = record b { request_count = b.request_count + 1 }

-- The count of the bucket after this request; a new bucket starts at 1.
unfoldable pub increment_rate_bucket : String → ℕ → Action ℕ
increment_rate_bucket key window = do
  found ← gets λ w. find (is_bucket key window) w.buckets
  maybe found
      (do
        let fresh : RecoveryRateLimitEntity = record {
          bucket_key = key;
          window_started_at = window;
          request_count = 1;
        }
        modify λ w. record w { buckets = w.buckets ++ fresh ∷ [] }
        pure 1)
      (λ b. do
        modify λ w. record w { buckets = update_where (is_bucket key window) bump w.buckets }
        pure (b.request_count + 1))
