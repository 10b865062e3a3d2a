-- ===== src/Requests/ShutRows.antt =====
-- The rows of one hash, which is a key of the table.
use triton_control.Prelude.{
  ℕ, ◌≡◌, refl, String, Bool, true, false, ◌&&◌, some, List, [], ◌∷◌, All, find, update_where,
  arith, eq_iff, inl, inr, Bool-cases, if◌then◌else◌,
}
use triton_control.Store.Data.{AccountLifecycleTokenEntity}
use triton_control.Store.Tokens.{has_hash, is_open, same_id}
use triton_control.Auth.Lifecycle.Revocation.{revoked_at}
use triton_control.Auth.Lifecycle.Redemption.{consumed}
use triton_control.Requests.Spent.{ShutFor, shut_choice, and_false}

abbrev Token : Type 0
Token = AccountLifecycleTokenEntity

-- the unique column `token_hash`
abbrev pub DistinctHashes : List Token → Type 0
DistinctHashes [] = Unit
DistinctHashes (t ∷ ts) = All (λ u. has_hash t.token_hash u ≡ false) ts × DistinctHashes ts

-- each row of the hash has the id of `e`
abbrev OnlyRow : String → Token → Token → Type 0
OnlyRow h e t = has_hash h t ≡ true → same_id e t ≡ true

clash {ℓ} : {A : Type ℓ} {b : Bool} → b ≡ true → b ≡ false → A
clash p q = cc

same_hash :
    (h : String) (t u : Token)
    → has_hash h t ≡ true
    → has_hash h u ≡ true
    → has_hash t.token_hash u ≡ true
same_hash h t u p q = rw ((eq_iff t.token_hash h).0 p) q

others :
    (h : String) (e : Token) (t : Token) (ts : List Token)
    → has_hash h t ≡ true
    → All (λ u. has_hash t.token_hash u ≡ false) ts
    → All (OnlyRow h e) ts
others h e t [] p all = tt
others h e t (u ∷ us) p all = (λ q. clash (same_hash h t u p q) all.0, others h e t us p all.1)

same_row : (e t : Token) → some t ≡ some e → same_id e t ≡ true
same_row e t p = ground arith

pub only_row :
    (h : String) (e : Token) (ts : List Token)
    → DistinctHashes ts
    → find (has_hash h) ts ≡ some e
    → All (OnlyRow h e) ts
only_row h e [] d f = tt
only_row h e (t ∷ ts) d f = elim (Bool-cases (has_hash h t)) [
  | inl p ↦ (λ q. same_row e t (rw p at f), others h e t ts p d.0)
  | inr p ↦ (λ q. clash q p, only_row h e ts d.1 (rw p at f))
]

unmatched : (a b : Bool) → (a ≡ true → false ≡ true) → (a && b) ≡ false
unmatched true b only = clash (only refl) refl
unmatched false b only = refl

kept_choice :
    (h : String) (t u : Token) (b : Bool)
    → is_open t ≡ false
    → (has_hash h u ≡ true → b ≡ true)
    → ShutFor h (if b then t else u)
kept_choice h t u true closed only = and_false (has_hash h t) (is_open t) closed
kept_choice h t u false closed only = unmatched (has_hash h u) (is_open u) only

pub consumed-shut :
    (h : String) (now : ℕ) (e : Token) (ts : List Token)
    → All (OnlyRow h e) ts
    → All (ShutFor h) (update_where (same_id e) (λ _. consumed now e) ts)
consumed-shut h now e [] all = tt
consumed-shut h now e (t ∷ ts) all =
    (kept_choice h (consumed now e) t (same_id e t) refl all.0, consumed-shut h now e ts all.1)

revoked_shut : (t : Token) (now : ℕ) → is_open (revoked_at now t) ≡ false
revoked_shut t now = ground arith

pub revoked-shut :
    (h : String) (now : ℕ) (p : Token → Bool) (ts : List Token)
    → All (ShutFor h) ts
    → All (ShutFor h) (update_where p (revoked_at now) ts)
revoked-shut h now p [] all = tt
revoked-shut h now p (t ∷ ts) all = (
  shut_choice h (revoked_at now t) t (p t) (revoked_shut t now) all.0,
  revoked-shut h now p ts all.1,
)

matched : (a b : Bool) → a ≡ true → (a && b) ≡ false → b ≡ false
matched true b p q = q
matched false b p q = clash p refl

first_shut : (t u : Token) → some u ≡ some t → is_open u ≡ false → is_open t ≡ false
first_shut t u f closed = ground arith

pub found_shut :
    (h : String) (t : Token) (ts : List Token)
    → All (ShutFor h) ts
    → find (has_hash h) ts ≡ some t
    → is_open t ≡ false
found_shut h t [] all f = cc
found_shut h t (u ∷ us) all f = elim (Bool-cases (has_hash h u)) [
  | inl p ↦ first_shut t u (rw p at f) (matched (has_hash h u) (is_open u) p all.0)
  | inr p ↦ found_shut h t us all.1 (rw p at f)
]
