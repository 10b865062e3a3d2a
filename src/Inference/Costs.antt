-- ===== src/Inference/Costs.antt =====
-- Counting the calls of the proxy of an inference: one rule for each combinator.
use triton_control.Prelude.{
  ℕ, suc, ◌+◌, ◌≤◌, ◌≡◌, refl, Bool, true, false, Option, List, [], ◌∷◌, arith, if◌then◌else◌,
}
use triton_control.Inference.Triton.{
  Call, collect_counters, get_model_config, generate_model_raw, infer_model_raw, HttpAnswer, Reply,
  raised, answered,
}
use triton_control.Errors.{Result, ok, err}
use triton_control.Inference.Proxy.{lift, Ask, pure, fail, call, continue_with, ◌>>=◌}

-- the number of calls
unfoldable pub calls : List Call → ℕ
calls [] = 0
calls (c ∷ log) = suc (calls log)

-- 1 for a call that asks the model for an inference
unfoldable pub asks : Call → ℕ
asks (collect_counters source) = 0
asks (get_model_config model_name version) = 0
asks (generate_model_raw model_name bytes content_type) = 1
asks (infer_model_raw model_name version bytes content_type) = 1

-- the number of inferences that were asked for
unfoldable pub inferences : List Call → ℕ
unfolding asks
inferences [] = 0
inferences (c ∷ log) = asks c + inferences log

-- a step makes so many calls at most, and asks for so many inferences if it does not raise
abbrev pub Spent : {A : Type 0} → (most asked : ℕ) → List Call → Reply A × List Call → Type 0
Spent most asked before (raised response, log) =
    (calls log ≤ most + calls before) × (inferences log ≤ asked + inferences before)
Spent most asked before (answered a, log) =
    (calls log ≤ most + calls before) × (inferences log ≡ asked + inferences before)

pub record Costs {A : Type 0} (most asked : ℕ) (m : Ask A) : Type 0 where
  pub spent : (log : List Call) → Spent most asked log (m log)

module _ {A : Type 0} where
  later :
      (n s k t : ℕ) (before log : List Call) (r : Reply A × List Call)
      → calls log ≤ n + calls before
      → inferences log ≡ s + inferences before
      → Spent k t log r
      → Spent (n + k) (s + t) before r
  later n s k t before log (raised response, l) p q h = (omega arith, omega arith)
  later n s k t before log (answered a, l) p q h = (omega arith, omega arith)

  pub pure-Costs : (a : A) → Costs 0 0 (pure a)
  unfolding pure
  pure-Costs a = record { spent = λ log. (omega arith, omega arith) }

  pub lift-Costs : (r : Result A) → Costs 0 0 (lift r)
  unfolding lift
  lift-Costs (err e) = record { spent = λ log. (omega arith, omega arith) }
  lift-Costs (ok a) = record { spent = λ log. (omega arith, omega arith) }

  pub fail-Costs : (response : Option HttpAnswer) → Costs {A = A} 0 0 (fail response)
  unfolding fail
  fail-Costs response = record { spent = λ log. (omega arith, omega arith) }

  more :
      (n k s : ℕ) (before : List Call) (r : Reply A × List Call)
      → n ≤ k
      → Spent n s before r
      → Spent k s before r
  more n k s before (raised response, l) p h = (omega arith, h.1)
  more n k s before (answered a, l) p h = (omega arith, h.1)

  pub more-Costs : {n s : ℕ} {m : Ask A} (k : ℕ) → n ≤ k → Costs n s m → Costs k s m
  more-Costs {n} {s} {m} k p c = record { spent = λ log. more n k s log (m log) p (c.spent log) }

  call_spent : (c : Call) (log : List Call) (r : Reply A) → Spent 1 (asks c) log (r, c ∷ log)
  unfolding calls inferences
  call_spent c log (raised response) = (omega arith, omega arith)
  call_spent c log (answered a) = (omega arith, refl)

  pub call-Costs : (c : Call) (answer : List Call → Reply A) → Costs 1 (asks c) (call c answer)
  unfolding call
  call-Costs c answer = record { spent = λ log. call_spent c log (answer log) }

  pub if-Costs :
      {n s : ℕ} (b : Bool) (m k : Ask A)
      → Costs n s m
      → Costs n s k
      → Costs n s (if b then m else k)
  if-Costs true m k p q = p
  if-Costs false m k p q = q

module _ {A B : Type 0} where
  pub bind-Costs :
      {n s k t : ℕ} {m : Ask A} {f : A → Ask B}
      → Costs n s m
      → ((a : A) → Costs k t (f a))
      → Costs (n + k) (s + t) (m >>= f)
  unfolding ◌>>=◌ continue_with
  bind-Costs {n} {s} {k} {t} {m} {f} c rest = record {
    spent = λ log. step log (m log) (c.spent log);
  }
    where
      step :
          (log : List Call) (r : Reply A × List Call)
          → Spent n s log r
          → Spent (n + k) (s + t) log (continue_with f r)
      step log (raised response, l) h = (omega arith, omega arith)
      step log (answered a, l) h = later n s k t log l (f a l) h.0 h.1 ((rest a).spent l)

  pub lift_bind-Costs :
      {n s : ℕ} {f : A → Ask B} (r : Result A)
      → ((a : A) → r ≡ ok a → Costs n s (f a))
      → Costs n s (lift r >>= f)
  unfolding ◌>>=◌ continue_with lift
  lift_bind-Costs (err e) rest = record { spent = λ log. (omega arith, omega arith) }
  lift_bind-Costs (ok a) rest = record { spent = λ log. (rest a refl).spent log }
