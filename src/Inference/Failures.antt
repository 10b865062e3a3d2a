-- ===== src/Inference/Failures.antt =====
-- The exceptions of the proxy of an inference: one rule for each combinator.
use triton_control.Prelude.{◌≡◌, refl, Bool, true, false, Option, none, List, if◌then◌else◌}
use triton_control.Errors.{AppError, Result, ok, err}
use triton_control.Inference.Triton.{Call, HttpAnswer, Reply, raised, answered}
use triton_control.Inference.Proxy.{Ask, pure, fail, lift, call, continue_with, ◌>>=◌}

-- the response of an exception passes the predicate
abbrev pub RaisesOnly : {A : Type 0} → (Option HttpAnswer → Type 0) → Reply A → Type 0
RaisesOnly C (raised response) = C response
RaisesOnly C (answered a) = Unit

pub record Fails {A : Type 0} (C : Option HttpAnswer → Type 0) (m : Ask A) : Type 0 where
  pub fails : (log : List Call) → RaisesOnly C (m log).0

pub if-Fails :
    {A : Type 0} {C : Option HttpAnswer → Type 0} (b : Bool) (m k : Ask A)
    → Fails C m
    → Fails C k
    → Fails C (if b then m else k)
if-Fails true m k p q = p
if-Fails false m k p q = q

module _ (C : Option HttpAnswer → Type 0) where
  module _ {A : Type 0} where
    pub pure-Fails : (a : A) → Fails C (pure a)
    unfolding pure
    pure-Fails a = record { fails = λ log. tt }

    pub fail-Fails : (response : Option HttpAnswer) → C response → Fails {A = A} C (fail response)
    unfolding fail
    fail-Fails response c = record { fails = λ log. c }

    pub lift-Fails : (r : Result A) → ((e : AppError) → r ≡ err e → C none) → Fails C (lift r)
    unfolding lift
    lift-Fails (err e) c = record { fails = λ log. c e refl }
    lift-Fails (ok a) c = record { fails = λ log. tt }

    pub call-Fails :
        (c : Call) (answer : List Call → Reply A)
        → ((log : List Call) (response : Option HttpAnswer)
            → answer log ≡ raised response
            → C response)
        → Fails C (call c answer)
    unfolding call
    call-Fails c answer h = record { fails = λ log. only (answer log) (h log) }
      where
        only :
            (r : Reply A)
            → ((response : Option HttpAnswer) → r ≡ raised response → C response)
            → RaisesOnly C r
        only (raised response) k = k response refl
        only (answered a) k = tt

  module _ {A B : Type 0} where
    pub bind-Fails :
        (m : Ask A) (f : A → Ask B) → Fails C m → ((a : A) → Fails C (f a)) → Fails C (m >>= f)
    unfolding ◌>>=◌ continue_with
    bind-Fails m f h rest = record { fails = λ log. step (m log) (h.fails log) }
      where
        step : (r : Reply A × List Call) → RaisesOnly C r.0 → RaisesOnly C (continue_with f r).0
        step (raised response, l) p = p
        step (answered a, l) p = (rest a).fails l

    -- the rest may use that the step has answered
    pub lift_bind-Fails :
        (r : Result A) (f : A → Ask B)
        → ((e : AppError) → r ≡ err e → C none)
        → ((a : A) → r ≡ ok a → Fails C (f a))
        → Fails C (lift r >>= f)
    unfolding ◌>>=◌ continue_with lift
    lift_bind-Fails (err e) f c rest = record { fails = λ log. c e refl }
    lift_bind-Fails (ok a) f c rest = record { fails = λ log. (rest a refl).fails log }
