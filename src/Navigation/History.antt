-- ===== src/Navigation/History.antt =====
-- What a consumption answers, from the calls before it.
use triton_control.Prelude.{
  ◌≡◌, refl, sym, ap, subst, ◌∙◌, String, Bool, true, false, not, ◌&&◌, ◌||◌, Option, none, some,
  List, [], ◌∷◌, ◌==◌, eq_iff, eq_refl, Bool-cases, inl, inr, if◌then◌else◌,
}
use triton_control.Prelude.Int.{ℤ}
use triton_control.Access.{Claims}
use triton_control.Navigation.{
  Pending, pending_for, set_pending, without, claims_key, is_positive, notify_deployment_created,
  consume_deployment_created,
}

pub data Call : Type 0 where
  notifies : Claims → ℤ → Call
  consumes : Claims → Call

-- the pending instances after calls, of which the last stands first
unfoldable pub after_calls : List Call → Pending
unfolding notify_deployment_created consume_deployment_created
after_calls [] = []
after_calls (notifies claims i ∷ calls) = notify_deployment_created claims i (after_calls calls)
after_calls (consumes claims ∷ calls) = (consume_deployment_created claims (after_calls calls)).1

-- The instance of the last notification for the key, unless it was consumed since.
unfoldable pub last_notified : String → List Call → Option ℤ
last_notified key [] = none
last_notified key (notifies claims i ∷ calls) =
    if claims_key claims == key && is_positive i then some i else last_notified key calls
last_notified key (consumes claims ∷ calls) =
    if claims_key claims == key then none else last_notified key calls

head : (k : String) (i : ℤ) (rest : Pending) → pending_for k ((k, i) ∷ rest) ≡ some i
unfolding pending_for
head k i rest = rw (eq_refl k) refl

tail :
    (j k : String) (i : ℤ) (rest : Pending)
    → (k == j) ≡ false
    → pending_for j ((k, i) ∷ rest) ≡ pending_for j rest
unfolding pending_for
tail j k i rest p = rw (p) refl

cons :
    (j k : String) (i : ℤ) (a b : Pending)
    → pending_for j a ≡ pending_for j b
    → pending_for j ((k, i) ∷ a) ≡ pending_for j ((k, i) ∷ b)
unfolding pending_for
cons j k i a b h = ap (λ r. if k == j then some i else r) h

single :
    (j k : String) (i : ℤ)
    → pending_for j ((k, i) ∷ []) ≡ (if k == j then some i else pending_for j [])
unfolding pending_for
single j k i = refl

nothing : (j k : String) → pending_for j [] ≡ (if k == j then none else pending_for j [])
unfolding pending_for
nothing j k = elim (Bool-cases (k == j)) [ inl q ↦ rw (q) refl | inr q ↦ rw (q) refl ]

removed :
    (j k l : String) (m : ℤ) (rest : Pending)
    → l ≡ k
    → (if k == j then none else pending_for j rest)
      ≡ (if k == j then none else pending_for j ((l, m) ∷ rest))
removed j k l m rest e = elim (Bool-cases (k == j)) [
  | inl q ↦ rw (q) refl
  | inr q ↦ rw (q) (sym (tail j l m rest (subst (λ x. (x == j) ≡ false) (sym e) q)))
]

kept :
    (j k l : String) (m : ℤ) (rest others : Pending)
    → (l == k) ≡ false
    → pending_for j others ≡ (if k == j then none else pending_for j rest)
    → pending_for j ((l, m) ∷ others) ≡ (if k == j then none else pending_for j ((l, m) ∷ rest))
kept j k l m rest others e h = elim (Bool-cases (k == j)) [
  | inl q ↦
      let same = rw (q) at h in
      rw (q) (tail j l m others (subst (λ x. (l == x) ≡ false) ((eq_iff k j).0 q) e) ∙ same)
  | inr q ↦ let same = rw (q) at h in rw (q) (cons j l m others rest same)
]

-- the value of a key that is overwritten in its place
overwritten :
    (j k l : String) (i m : ℤ) (rest : Pending)
    → l ≡ k
    → pending_for j ((l, i) ∷ rest) ≡ (if k == j then some i else pending_for j ((l, m) ∷ rest))
overwritten j k l i m rest e = elim (Bool-cases (k == j)) [
  | inl q ↦ rw (q) (ap (λ x. pending_for j ((x, i) ∷ rest)) (e ∙ (eq_iff k j).0 q) ∙ head j i rest)
  | inr q ↦
      let other = subst (λ x. (x == j) ≡ false) (sym e) q in
      rw (q) (tail j l i rest other ∙ sym (tail j l m rest other))
]

behind :
    (j k l : String) (i m : ℤ) (rest others : Pending)
    → (l == k) ≡ false
    → pending_for j others ≡ (if k == j then some i else pending_for j rest)
    → pending_for j ((l, m) ∷ others) ≡ (if k == j then some i else pending_for j ((l, m) ∷ rest))
behind j k l i m rest others e h = elim (Bool-cases (k == j)) [
  | inl q ↦
      let same = rw (q) at h in
      rw (q) (tail j l m others (subst (λ x. (l == x) ≡ false) ((eq_iff k j).0 q) e) ∙ same)
  | inr q ↦ let same = rw (q) at h in rw (q) (cons j l m others rest same)
]

pending_for-set_pending :
    (j k : String) (i : ℤ) (p : Pending)
    → pending_for j (set_pending k i p) ≡ (if k == j then some i else pending_for j p)
unfolding set_pending
pending_for-set_pending j k i [] = single j k i
pending_for-set_pending j k i ((l, m) ∷ rest) = elim (Bool-cases (l == k)) [
  | inl q ↦ rw (q) (overwritten j k l i m rest ((eq_iff l k).0 q))
  | inr q ↦
      rw (q) (behind j k l i m rest (set_pending k i rest) q (pending_for-set_pending j k i rest))
]

pending_for-without :
    (j k : String) (p : Pending)
    → pending_for j (without k p) ≡ (if k == j then none else pending_for j p)
unfolding without
pending_for-without j k [] = nothing j k
pending_for-without j k ((l, m) ∷ rest) = elim (Bool-cases (l == k)) [
  | inl q ↦ rw (q) (pending_for-without j k rest ∙ removed j k l m rest ((eq_iff l k).0 q))
  | inr q ↦ rw (q) (kept j k l m rest (without k rest) q (pending_for-without j k rest))
]

-- a key that is not empty is not the empty one
apart : (key c : String) → (c == "") ≡ true → (key == "") ≡ false → (c == key) ≡ false
apart key c q h = elim (Bool-cases (c == key)) [
  | inl e ↦ let empty = sym h ∙ (subst (λ x. (x == "") ≡ true) ((eq_iff c key).0 e) q) in cc
  | inr e ↦ e
]

notified :
    (key c : String) (valid empty : Bool) (i : ℤ) (p : Pending)
    → (c == "") ≡ empty
    → (key == "") ≡ false
    → pending_for key (if empty || not valid then p else set_pending c i p)
      ≡ (if c == key && valid then some i else pending_for key p)
notified key c valid true i p q h = rw (apart key c q h) refl
notified key c true false i p q h = elim (Bool-cases (c == key)) [
  | inl e ↦ rw (e) (rw e at (pending_for-set_pending key c i p))
  | inr e ↦ rw (e) (rw e at (pending_for-set_pending key c i p))
]
notified key c false false i p q h = elim (Bool-cases (c == key)) [
  | inl e ↦ rw (e) refl
  | inr e ↦ rw (e) refl
]

notify-eq :
    (key : String) (claims : Claims) (i : ℤ) (p : Pending)
    → (key == "") ≡ false
    → pending_for key (notify_deployment_created claims i p)
      ≡ (if claims_key claims == key && is_positive i then some i else pending_for key p)
unfolding notify_deployment_created
notify-eq key claims i p h =
    notified key (claims_key claims) (is_positive i) (claims_key claims == "") i p refl h

popped :
    (key c : String) (empty : Bool) (p : Pending)
    → (c == "") ≡ empty
    → (key == "") ≡ false
    → pending_for key
        (if◌then◌else◌ {A = Option ℤ × Pending} empty (none, p) (pending_for c p, without c p)).1
      ≡ (if c == key then none else pending_for key p)
popped key c true p q h = rw (apart key c q h) refl
popped key c false p q h = pending_for-without key c p

consume-eq :
    (key : String) (claims : Claims) (p : Pending)
    → (key == "") ≡ false
    → pending_for key (consume_deployment_created claims p).1
      ≡ (if claims_key claims == key then none else pending_for key p)
unfolding consume_deployment_created
consume-eq key claims p h = popped key (claims_key claims) (claims_key claims == "") p refl h

pending_nothing : (key : String) → pending_for key [] ≡ none
unfolding pending_for
pending_nothing key = refl

pending_for-after_calls :
    (key : String) (calls : List Call)
    → (key == "") ≡ false
    → pending_for key (after_calls calls) ≡ last_notified key calls
unfolding after_calls last_notified
pending_for-after_calls key [] h = pending_nothing key
pending_for-after_calls key (notifies claims i ∷ calls) h =
    notify-eq key claims i (after_calls calls) h
    ∙ ap (λ r. if claims_key claims == key && is_positive i then some i else r)
        (pending_for-after_calls key calls h)
pending_for-after_calls key (consumes claims ∷ calls) h =
    consume-eq key claims (after_calls calls) h
    ∙ ap (λ r. if claims_key claims == key then none else r) (pending_for-after_calls key calls h)

answered :
    (c : String) (empty : Bool) (calls : List Call)
    → (c == "") ≡ empty
    → (if◌then◌else◌ {A = Option ℤ × Pending} empty
        (none, after_calls calls)
        (pending_for c (after_calls calls), without c (after_calls calls))).0
      ≡ (if empty then none else last_notified c calls)
answered c true calls q = refl
answered c false calls q = pending_for-after_calls c calls q

-- A consumption answers the instance of the last notification for the same caller, whatever calls came
-- between, unless it was consumed since; a caller without a key gets nothing.
pub consume-last_notified :
    (claims : Claims) (calls : List Call)
    → (consume_deployment_created claims (after_calls calls)).0
      ≡ (if claims_key claims == "" then none else last_notified (claims_key claims) calls)
unfolding consume_deployment_created
consume-last_notified claims calls =
    answered (claims_key claims) (claims_key claims == "") calls refl
