-- ===== src/Auth/Lifecycle/Revocation.antt =====
-- The read, change and write loop of `_revoke` is one UPDATE of the open tokens.
use triton_control.Prelude.{
  ℕ, ◌≡◌, ◌≢◌, refl, Bool, Option, some, List, [], ◌∷◌, All, select, update_where, arith,
}
use triton_control.Errors.{ok}
use triton_control.Store.Data.{World, AccountLifecycleTokenEntity}
use triton_control.Store.Tokens.{is_active_for, same_id, save_token, list_active_tokens}
use triton_control.Store.Session.{◌>>=◌}
use triton_control.Auth.Lifecycle.Core.{revoke_each, revoke}

abbrev Token : Type 0
Token = AccountLifecycleTokenEntity

-- No row has this id.
abbrev pub Absent : ℕ → List Token → Type 0
Absent i ts = All (λ t. t.id ≢ i) ts

-- The primary key.
abbrev pub DistinctIds : List Token → Type 0
DistinctIds [] = Unit
DistinctIds (t ∷ ts) = Absent t.id ts × DistinctIds ts

abbrev pub revoked_at : ℕ → Token → Token
revoked_at now t = record t { revoked_at = some now }

abbrev write : ℕ → Token → List Token → List Token
write now t ts = update_where (same_id t) (λ _. revoked_at now t) ts

write_all : ℕ → List Token → List Token → List Token
write_all now [] ts = ts
write_all now (e ∷ es) ts = write_all now es (write now e ts)

write-Absent : (now : ℕ) (t : Token) (ts : List Token) → Absent t.id ts → write now t ts ≡ ts
write-Absent now t [] h = refl
write-Absent now t (u ∷ us) h = ground (arith, write-Absent now t us h.1)

write_all-cons :
    (now : ℕ) (es : List Token) (t : Token) (ts : List Token)
    → Absent t.id es
    → write_all now es (t ∷ ts) ≡ t ∷ write_all now es ts
unfolding write_all
write_all-cons now [] t ts h = refl
write_all-cons now (e ∷ es) t ts h = ground (arith, write_all-cons now es t (write now e ts) h.1)

pub Absent-select :
    (p : Token → Bool) (i : ℕ) (ts : List Token) → Absent i ts → Absent i (select p ts)
Absent-select p i [] h = tt
Absent-select p i (t ∷ ts) h = ground (arith, Absent-select p i ts h.1)

write_all-select :
    (now : ℕ) (p : Token → Bool) (ts : List Token)
    → DistinctIds ts
    → write_all now (select p ts) ts ≡ update_where p (revoked_at now) ts
unfolding write_all
write_all-select now p [] d = refl
write_all-select now p (t ∷ ts) d = ground (
  arith,
  write-Absent now t ts d.0,
  write_all-cons now (select p ts) (revoked_at now t) ts (Absent-select p t.id ts d.0),
  write_all-cons now (select p ts) t ts (Absent-select p t.id ts d.0),
  write_all-select now p ts d.1,
)

revoke_each-eq :
    (now : ℕ) (es : List Token) (w : World)
    → revoke_each now es w ≡ (ok tt, record w { tokens = write_all now es w.tokens })
unfolding revoke_each save_token ◌>>=◌ write_all
revoke_each-eq now [] w = refl
revoke_each-eq now (e ∷ es) w = revoke_each-eq now es _

-- With a primary key on the ids, `_revoke` marks exactly the open tokens of the user, of one purpose
-- or of all, as revoked now; every other row and table stays as it was.
pub revoke-eq :
    (i : ℕ) (purpose : Option _) (w : World)
    → DistinctIds w.tokens
    → revoke i purpose w ≡ (
      ok tt,
      record w { tokens = update_where (is_active_for i purpose) (revoked_at w.now) w.tokens },
    )
unfolding revoke list_active_tokens ◌>>=◌
revoke-eq i purpose w d =
    rw (revoke_each-eq, write_all-select w.now (is_active_for i purpose) w.tokens d)
