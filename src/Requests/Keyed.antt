-- ===== src/Requests/Keyed.antt =====
-- The ids of the table of tokens are its primary key in every world that requests reach.
use triton_control.Prelude.{
  ℕ, suc, ◌<◌, ◌≢◌, ◌≡◌, refl, String, Bool, true, false, Option, none, List, [], ◌∷◌, ◌++◌, All,
  select, update_where, arith,
}
use triton_control.Env.{Env}
use triton_control.Store.Data.{World, AccountLifecycleTokenEntity}
use triton_control.Store.Users
use triton_control.Store.Users.{issued_by}
use triton_control.Store.Tokens
use triton_control.Store.Tokens.{same_id}
use triton_control.Store.Keeps.{Keeps-modify}
use triton_control.Auth.Lifecycle.Revocation.{Absent, DistinctIds, Absent-select}
use triton_control.Auth.Lifecycle.Redemption.Steps.{DistinctIds-save}
use triton_control.Auth.Lifecycle.Issuance.{fresh_row, create_outcome, create_fresh-eq}
use triton_control.Requests.{Request, run}
use triton_control.Requests.Stable.{IsStable}
use triton_control.Requests.Reachable.{run-keeps}

abbrev Token : Type 0
Token = AccountLifecycleTokenEntity

abbrev Below : ℕ → List Token → Type 0
Below n ts = All (λ (t : Token). t.id < n) ts

-- The ids differ, and the next one is larger than all of them.
record IsKeyed (w : World) : Type 0 where
  distinct : DistinctIds w.tokens
  below : Below w.next_token_id w.tokens

Absent-append :
    (i : ℕ) (row : Token) (ts : List Token) → Absent i ts → row.id ≢ i → Absent i (ts ++ row ∷ [])
Absent-append i row [] h p = (p, tt)
Absent-append i row (t ∷ ts) h p = (h.0, Absent-append i row ts h.1 p)

DistinctIds-append :
    (row : Token) (ts : List Token)
    → DistinctIds ts
    → Below row.id ts
    → DistinctIds (ts ++ row ∷ [])
DistinctIds-append row [] d b = (tt, tt)
DistinctIds-append row (t ∷ ts) d b =
    (Absent-append t.id row ts d.0 (larger t.id row.id b.0), DistinctIds-append row ts d.1 b.1)
  where
    larger : (i n : ℕ) → i < n → n ≢ i
    larger i n h = omega arith

Below-append :
    (n : ℕ) (row : Token) (ts : List Token)
    → row.id ≡ n
    → Below n ts
    → Below (suc n) (ts ++ row ∷ [])
Below-append n row [] p b = (omega arith, tt)
Below-append n row (t ∷ ts) p b = (omega arith, Below-append n row ts p b.1)

Below-save :
    (n : ℕ) (t : Token) (ts : List Token)
    → Below n ts
    → Below n (update_where (same_id t) (λ _. t) ts)
Below-save n t [] b = tt
Below-save n t (u ∷ us) b = ground (arith, Below-save n t us b.1)

Below-select : (n : ℕ) (p : Token → Bool) (ts : List Token) → Below n ts → Below n (select p ts)
Below-select n p [] b = tt
Below-select n p (t ∷ ts) b = ground (arith, Below-select n p ts b.1)

DistinctIds-select :
    (p : Token → Bool) (ts : List Token) → DistinctIds ts → DistinctIds (select p ts)
DistinctIds-select p [] d = tt
DistinctIds-select p (t ∷ ts) d =
    ground (arith, DistinctIds-select p ts d.1, Absent-select p t.id ts d.0)

-- the foreign key to the account that issued a token is cleared
abbrev detached : Token → Token
detached t = record t { created_by_user_id = none }

Below-detach :
    (n : ℕ) (p : Token → Bool) (ts : List Token) → Below n ts → Below n (update_where p detached ts)
Below-detach n p [] b = tt
Below-detach n p (t ∷ ts) b = ground (arith, Below-detach n p ts b.1)

Absent-detach :
    (i : ℕ) (p : Token → Bool) (ts : List Token)
    → Absent i ts
    → Absent i (update_where p detached ts)
Absent-detach i p [] h = tt
Absent-detach i p (t ∷ ts) h = ground (arith, Absent-detach i p ts h.1)

DistinctIds-detach :
    (p : Token → Bool) (ts : List Token) → DistinctIds ts → DistinctIds (update_where p detached ts)
DistinctIds-detach p [] d = tt
DistinctIds-detach p (t ∷ ts) d =
    ground (arith, DistinctIds-detach p ts d.1, Absent-detach t.id p ts d.0)

module _ ⦃env : Env⦄ where
  fresh-IsKeyed :
      (taken : Bool) (i : ℕ) (p : String) (m : ℕ) (by : Option ℕ) (w : World)
      → IsKeyed w
      → IsKeyed (create_outcome taken i p m by w).1
  fresh-IsKeyed true i p m by w h = record { distinct = h.distinct; below = h.below }
  fresh-IsKeyed false i p m by w h = record {
    distinct = DistinctIds-append (fresh_row i p m by w) w.tokens h.distinct h.below;
    below = Below-append w.next_token_id (fresh_row i p m by w) w.tokens refl h.below;
  }

  IsKeyed-stable : IsStable IsKeyed
  unfolding Tokens.save_token Users.delete
  IsKeyed-stable = record {
    silent = λ w w' s h. record {
      distinct = rw s.tokens h.distinct;
      below = rw (s.tokens, s.next_token_id) h.below;
    };
    creates = λ i p m by. record {
      at = λ w h. rw (create_fresh-eq i p m by w) (fresh-IsKeyed _ i p m by w h);
    };
    closes = λ t closed. Keeps-modify _ λ w h. record {
      distinct = DistinctIds-save t w.tokens h.distinct;
      below = Below-save _ t w.tokens h.below;
    };
    deletes = λ u. Keeps-modify _ λ w h. record {
      distinct = DistinctIds-detach (issued_by u.id) _ (DistinctIds-select _ w.tokens h.distinct);
      below = Below-detach _ (issued_by u.id) _ (Below-select _ _ w.tokens h.below);
    };
  }

  -- Whatever requests come in whatever order, and also when calls raise, the ids of the tokens stay
  -- distinct and below the next id, so that the hypothesis on keys of the other theorems holds in
  -- each world that is reached from a keyed one.
  run-IsKeyed : (rs : List Request) (w : World) → IsKeyed w → IsKeyed (run rs w)
  run-IsKeyed rs w h = run-keeps IsKeyed-stable rs w h
