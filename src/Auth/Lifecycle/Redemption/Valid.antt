-- ===== src/Auth/Lifecycle/Redemption/Valid.antt =====
-- What a token that `_valid_token` accepts is, and that it accepts each such token.
use triton_control.Prelude.{
  ℕ, ◌≡◌, refl, sym, ap, subst, ◌∙◌, ◌<◌, ◌≤◌, leb, [], ◌∷◌, ◌++◌, String, Bool, true, false, not,
  ◌&&◌, Option, none, some, List, is_some, ltb, find, arith, Bool-cases, inl, inr, ◌==◌, eq_iff,
}
use triton_control.Errors.{ok}
use triton_control.Env.{Env}
use triton_control.Store.Data.{World, UserEntity, AccountLifecycleTokenEntity, SecurityEventEntity}
use triton_control.Store.Users.{has_id}
use triton_control.Store.Tokens.{has_hash}
use triton_control.Auth.Lifecycle.Core.{is_valid, with_account, valid_token, token_hash}
use triton_control.Auth.Lifecycle.Redemption.{redeems, redeemable, expiry_events, seen_events}
use triton_control.Auth.Lifecycle.Redemption.Steps.{valid_token-eq}

-- the tests on numbers that the code computes
ltb_lt : (a b : ℕ) → ltb a b ≡ true → a < b
ltb_lt a b p = ground arith

lt_ltb : (a b : ℕ) → a < b → ltb a b ≡ true
lt_ltb a b p = ground arith

leb_lt : (a b : ℕ) → leb a b ≡ true → b < a → ⊥
leb_lt a b p q = ground arith

not_leb : (a b : ℕ) → leb a b ≡ false → a ≤ b → ⊥
not_leb a b p q = ground arith

-- a row that can be redeemed for the purpose at this time
pub record Open (now : ℕ) (purpose : String) (e : AccountLifecycleTokenEntity) : Type 0 where
  pub for_purpose : e.purpose ≡ purpose
  pub not_consumed : e.consumed_at ≡ none
  pub not_revoked : e.revoked_at ≡ none
  pub not_expired : now < e.expires_at

is_none : (o : Option ℕ) → not (is_some o) ≡ true → o ≡ none
is_none none p = refl
is_none (some n) p = cc

all_four :
    (a b c d : Bool) → (a && b && c && d) ≡ true → (a ≡ true) × (b ≡ true) × (c ≡ true) × (d ≡ true)
all_four true true true true p = (refl, refl, refl, refl)
all_four true true true false p = cc
all_four true true false d p = cc
all_four true false c d p = cc
all_four false b c d p = cc

is_valid-Open :
    (now : ℕ) (purpose : String) (e : AccountLifecycleTokenEntity)
    → is_valid now purpose e ≡ true
    → Open now purpose e
is_valid-Open now purpose e p =
    let tests =
      all_four (e.purpose == purpose) (not (is_some e.consumed_at)) (not (is_some e.revoked_at))
        (ltb now e.expires_at) p in
    record {
      for_purpose = (eq_iff e.purpose purpose).0 tests.0;
      not_consumed = is_none e.consumed_at tests.1;
      not_revoked = is_none e.revoked_at tests.2;
      not_expired = ltb_lt now e.expires_at tests.3;
    }

Open-is_valid :
    (now : ℕ) (purpose : String) (e : AccountLifecycleTokenEntity)
    → Open now purpose e
    → is_valid now purpose e ≡ true
Open-is_valid now purpose e o =
    rw ((eq_iff e.purpose purpose).1 o.for_purpose, o.not_consumed, o.not_revoked)
      (lt_ltb now e.expires_at o.not_expired)

abbrev or_row :
    AccountLifecycleTokenEntity → Option AccountLifecycleTokenEntity → AccountLifecycleTokenEntity
or_row e none = e
or_row e (some x) = x

-- the log after a look at the row that was found
abbrev pub Logged : World → Option AccountLifecycleTokenEntity → List SecurityEventEntity → Type 0
Logged w none events = events ≡ w.events
Logged w (some e) events =
    (w.now < e.expires_at → events ≡ w.events)
    × (e.expires_at ≤ w.now
        → (event : SecurityEventEntity) × (events ≡ w.events ++ event ∷ [])
          × (event.event_type ≡ "lifecycle_token_expired"))

expiry_events-Logged :
    (e : AccountLifecycleTokenEntity) (w : World) → Logged w (some e) (expiry_events e w)
unfolding expiry_events
expiry_events-Logged e w = elim (Bool-cases (leb e.expires_at w.now)) [
  | inl p ↦ rw (p) (λ q. absurd (leb_lt e.expires_at w.now p q), λ q. (_, refl, refl))
  | inr p ↦ rw (p) (λ q. refl, λ q. absurd (not_leb e.expires_at w.now p q))
]

seen_events-Logged :
    (w : World) (o : Option AccountLifecycleTokenEntity) → Logged w o (seen_events w o)
seen_events-Logged w none = refl
seen_events-Logged w (some e) = expiry_events-Logged e w

module _ ⦃env : Env⦄ where
  -- the first row with the hash of the token is open, and its account is there
  pub record Accepts (raw purpose : String) (w : World) (e : AccountLifecycleTokenEntity)
      (u : UserEntity) : Type 0 where
    pub row : find (has_hash (token_hash raw)) w.tokens ≡ some e
    pub open_row : Open w.now purpose e
    pub account : find (has_id e.user_id) w.users ≡ some u

  -- what an answer says of the row
  abbrev pub Answers :
      (raw purpose : String) → World → Option (AccountLifecycleTokenEntity × UserEntity) → Type 0
  Answers raw purpose w none =
      (e : AccountLifecycleTokenEntity) (u : UserEntity) → Accepts raw purpose w e u → ⊥
  Answers raw purpose w (some (e, u)) = Accepts raw purpose w e u

  -- only the row that was found can be accepted
  same_row :
      (raw purpose : String) (w : World) (e e' : AccountLifecycleTokenEntity) (u : UserEntity)
      → find (has_hash (token_hash raw)) w.tokens ≡ some e
      → Accepts raw purpose w e' u
      → Accepts raw purpose w e u
  same_row raw purpose w e e' u p a =
      let same = ap (or_row e) (sym a.row ∙ p) in subst (λ x. Accepts raw purpose w x u) same a

  no_row :
      (raw purpose : String) (w : World)
      → find (has_hash (token_hash raw)) w.tokens ≡ none
      → Answers raw purpose w none
  no_row raw purpose w p e u a = let clash = sym p ∙ a.row in cc

  no_account :
      (raw purpose : String) (w : World) (e : AccountLifecycleTokenEntity)
      → find (has_hash (token_hash raw)) w.tokens ≡ some e
      → find (has_id e.user_id) w.users ≡ none
      → Answers raw purpose w none
  no_account raw purpose w e p q e' u a =
      let clash = sym q ∙ (same_row raw purpose w e e' u p a).account in cc

  not_open :
      (raw purpose : String) (w : World) (e : AccountLifecycleTokenEntity)
      → find (has_hash (token_hash raw)) w.tokens ≡ some e
      → is_valid w.now purpose e ≡ false
      → Answers raw purpose w none
  not_open raw purpose w e p q e' u a =
      let valid = Open-is_valid w.now purpose e (same_row raw purpose w e e' u p a).open_row in
      let clash = sym q ∙ valid in cc

  with_account-Answers :
      (raw purpose : String) (w : World) (e : AccountLifecycleTokenEntity) (o : Option UserEntity)
      → find (has_hash (token_hash raw)) w.tokens ≡ some e
      → Open w.now purpose e
      → find (has_id e.user_id) w.users ≡ o
      → Answers raw purpose w (with_account e o)
  with_account-Answers raw purpose w e none p h q = no_account raw purpose w e p q
  with_account-Answers raw purpose w e (some u) p h q = record {
    row = p;
    open_row = h;
    account = q;
  }

  redeems-Answers :
      (raw purpose : String) (w : World) (o : Option AccountLifecycleTokenEntity)
      → find (has_hash (token_hash raw)) w.tokens ≡ o
      → Answers raw purpose w (redeems purpose w o)
  redeems-Answers raw purpose w none p = no_row raw purpose w p
  redeems-Answers raw purpose w (some e) p = elim (Bool-cases (is_valid w.now purpose e)) [
    | inl q ↦
        rw (q) (with_account-Answers raw purpose w e _ p (is_valid-Open w.now purpose e q) refl)
    | inr q ↦ rw (q) (not_open raw purpose w e p q)
  ]

  -- `_valid_token` never raises. It answers a row and an account exactly if the row is the first with
  -- the hash of the token, is for the purpose, neither consumed nor revoked, and expires later, and
  -- the account is there. It changes the event log only, and that only by one event if the row that it
  -- found has expired.
  pub valid_token-Valid :
      (raw purpose : String) (w : World)
      → (answer : Option (AccountLifecycleTokenEntity × UserEntity)) × (events : List
          SecurityEventEntity)
        × (valid_token raw purpose w ≡ (ok answer, record w { events = events }))
        × Answers raw purpose w answer
        × Logged w (find (has_hash (token_hash raw)) w.tokens) events
  valid_token-Valid raw purpose w = (
    redeemable raw purpose w,
    seen_events w (find (has_hash (token_hash raw)) w.tokens),
    valid_token-eq raw purpose w,
    redeems-Answers raw purpose w _ refl,
    seen_events-Logged w (find (has_hash (token_hash raw)) w.tokens),
  )
