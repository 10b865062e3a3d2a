-- ===== src/Requests/Spent.antt =====
-- A token without an open row stays so: no request opens a row again.
use triton_control.Prelude.{
  ℕ, ◌≤◌, ◌≡◌, refl, String, Bool, true, false, ◌&&◌, Option, none, List, [], ◌∷◌, ◌++◌, All,
  select, update_where, arith, ◌==◌, if◌then◌else◌,
}
use triton_control.Env.{Env}
use triton_control.Store.Data.{World, AccountLifecycleTokenEntity}
use triton_control.Store.Users
use triton_control.Store.Users.{issued_by}
use triton_control.Store.Tokens
use triton_control.Store.Tokens.{has_hash, is_open, same_id}
use triton_control.Store.Keeps.{Keeps, Keeps-modify}
use triton_control.Auth.Lifecycle.Core.{token_hash, create_fresh}
use triton_control.Auth.Lifecycle.Issuance.{fresh_row, create_outcome, create_fresh-eq}
use triton_control.Requests.Stable.{IsStable}

abbrev Token : Type 0
Token = AccountLifecycleTokenEntity

-- not an open row of this hash
abbrev pub ShutFor : String → Token → Type 0
ShutFor h t = (has_hash h t && is_open t) ≡ false

All-append {ℓ κ} :
    {A : Type ℓ} (P : A → Type κ) (xs ys : List A) → All P xs → All P ys → All P (xs ++ ys)
All-append P [] ys h k = k
All-append P (x ∷ xs) ys h k = (h.0, All-append P xs ys h.1 k)

pub and_false : (a b : Bool) → b ≡ false → (a && b) ≡ false
and_false true b h = h
and_false false b h = refl

pub shut_choice :
    (h : String) (t u : Token) (b : Bool)
    → is_open t ≡ false
    → ShutFor h u
    → ShutFor h (if b then t else u)
shut_choice h t u true closed shut = and_false (has_hash h t) (is_open t) closed
shut_choice h t u false closed shut = shut

detached_choice :
    (h : String) (u : Token) (b : Bool)
    → ShutFor h u
    → ShutFor h (if b then record u { created_by_user_id = none } else u)
detached_choice h u true shut = shut
detached_choice h u false shut = shut

ShutFor-save :
    (h : String) (t : Token) (ts : List Token)
    → is_open t ≡ false
    → All (ShutFor h) ts
    → All (ShutFor h) (update_where (same_id t) (λ _. t) ts)
ShutFor-save h t [] closed all = tt
ShutFor-save h t (u ∷ us) closed all =
    (shut_choice h t u (same_id t u) closed all.0, ShutFor-save h t us closed all.1)

ShutFor-select :
    (h : String) (p : Token → Bool) (ts : List Token)
    → All (ShutFor h) ts
    → All (ShutFor h) (select p ts)
ShutFor-select h p [] all = tt
ShutFor-select h p (u ∷ us) all = ground (arith, ShutFor-select h p us all.1)

ShutFor-detach :
    (h : String) (p : Token → Bool) (ts : List Token)
    → All (ShutFor h) ts
    → All (ShutFor h) (update_where p (λ t. record t { created_by_user_id = none }) ts)
ShutFor-detach h p [] all = tt
ShutFor-detach h p (u ∷ us) all = (detached_choice h u (p u) all.0, ShutFor-detach h p us all.1)

module _ ⦃env : Env⦄ where
  -- No open row has the hash of the raw token, and no later draw has its hash.
  pub record IsSpent (raw : String) (w : World) : Type 0 where
    pub shut : All (ShutFor (token_hash raw)) w.tokens
    pub unrepeated :
        (n : ℕ) → w.drawn ≤ n → (token_hash (env.token_urlsafe n) == token_hash raw) ≡ false

  module _ (raw : String) where
    fresh_choice :
        (taken : Bool) (i : ℕ) (p : String) (m : ℕ) (by : Option ℕ) (w : World)
        → IsSpent raw w
        → IsSpent raw (create_outcome taken i p m by w).1
    fresh_choice true i p m by w h = record {
      shut = h.shut;
      unrepeated = λ n k. h.unrepeated n (omega arith);
    }
    fresh_choice false i p m by w h = record {
      shut =
          All-append _ w.tokens (fresh_row i p m by w ∷ []) h.shut
            (rw (h.unrepeated w.drawn (omega arith)) refl, tt);
      unrepeated = λ n k. h.unrepeated n (omega arith);
    }

    create_fresh-IsSpent :
        (i : ℕ) (p : String) (m : ℕ) (by : Option ℕ) → Keeps (IsSpent raw) (create_fresh i p m by)
    create_fresh-IsSpent i p m by = record {
      at = λ w h. rw (create_fresh-eq i p m by w) (fresh_choice _ i p m by w h);
    }

    pub IsSpent-stable : IsStable (IsSpent raw)
    unfolding Tokens.save_token Users.delete
    IsSpent-stable = record {
      silent = λ w w' s h. record {
        shut = rw s.tokens h.shut;
        unrepeated = λ n k. h.unrepeated n (omega arith);
      };
      creates = create_fresh-IsSpent;
      closes = λ t closed. Keeps-modify _ λ w h. record {
        shut = ShutFor-save _ t w.tokens closed h.shut;
        unrepeated = h.unrepeated;
      };
      deletes = λ u. Keeps-modify _ λ w h. record {
        shut = ShutFor-detach _ (issued_by u.id) _ (ShutFor-select _ _ w.tokens h.shut);
        unrepeated = h.unrepeated;
      };
    }
