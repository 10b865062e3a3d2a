-- ===== src/Store/Keeps.antt =====
-- Invariants of actions: one rule for each way to build an action.
use triton_control.Prelude.{
  ◌≡◌, refl, sym, subst, Bool, true, false, Option, none, some, if◌then◌else◌,
}
use triton_control.Errors.{AppError, Result, ok, err, bad_request_error}
use triton_control.Store.Data.{World}
use triton_control.Store.Session.{
  Action, pure, raise, gets, lift, modify, require, raise_if, maybe, on_bad_request, recover,
  utcnow, continue_with, ◌>>=◌,
}

-- The predicate holds behind the step if it held before, also when the step raises.
pub record Keeps {A : Type 0} (P : World → Type 0) (m : Action A) : Type 0 where
  pub at : (w : World) → P w → P (m w).1

-- a step that writes nothing
untouched :
    {A : Type 0} (P : World → Type 0) (m : Action A) → ((w : World) → (m w).1 ≡ w) → Keeps P m
untouched P m same = record { at = λ w h. subst P (sym (same w)) h }

same_after_require : {A : Type 0} (o : Option A) (e : AppError) (w : World) → (require o e w).1 ≡ w
unfolding require
same_after_require none e w = refl
same_after_require (some a) e w = refl

module _ {A : Type 0} {P : World → Type 0} where
  pub Keeps-require : (o : Option A) (e : AppError) → Keeps P (require o e)
  Keeps-require o e = untouched P _ (same_after_require o e)

  pub Keeps-lift : (r : Result A) → Keeps P (lift r)
  unfolding lift
  Keeps-lift r = untouched P _ λ w. refl

  pub Keeps-gets : (f : World → A) → Keeps P (gets f)
  unfolding gets
  Keeps-gets f = untouched P _ λ w. refl

  pub Keeps-raise : (e : AppError) → Keeps P (raise {A = A} e)
  unfolding raise
  Keeps-raise e = untouched P _ λ w. refl

  pub Keeps-pure : (a : A) → Keeps P (pure a)
  unfolding pure
  Keeps-pure a = untouched P _ λ w. refl

  pub Keeps-if : (b : Bool) (m n : Action A) → Keeps P m → Keeps P n → Keeps P (if b then m else n)
  Keeps-if true m n km kn = km
  Keeps-if false m n km kn = kn

  recover_keeps :
      (handler : AppError → Action A) (r : Result A) (w : World)
      → ((e : AppError) → Keeps P (handler e))
      → P w
      → P (recover handler (r, w)).1
  unfolding recover
  recover_keeps handler (ok a) w k h = h
  recover_keeps handler (err (bad_request_error d)) w k h = (k (bad_request_error d)).at w h
  recover_keeps handler (err _) w k h = h

  pub Keeps-on_bad_request :
      (m : Action A) (handler : AppError → Action A)
      → Keeps P m
      → ((e : AppError) → Keeps P (handler e))
      → Keeps P (on_bad_request m handler)
  unfolding on_bad_request
  Keeps-on_bad_request m handler km kh = record {
    at = λ w h. let (r, w') = m w in recover_keeps handler r w' kh (km.at w h);
  }

module _ {P : World → Type 0} where
  pub Keeps-raise_if : (b : Bool) (e : AppError) → Keeps P (raise_if b e)
  unfolding raise_if
  Keeps-raise_if b e = untouched P _ λ w. refl

  pub Keeps-utcnow : Keeps P utcnow
  unfolding utcnow
  Keeps-utcnow = untouched P _ λ w. refl

  pub Keeps-modify : (f : World → World) → ((w : World) → P w → P (f w)) → Keeps P (modify f)
  unfolding modify
  Keeps-modify f k = record { at = k }

module _ {A B : Type 0} {P : World → Type 0} where
  pub Keeps-maybe :
      (o : Option A) (m : Action B) (f : A → Action B)
      → Keeps P m
      → ((a : A) → Keeps P (f a))
      → Keeps P (maybe o m f)
  unfolding maybe
  Keeps-maybe none m f km kf = km
  Keeps-maybe (some a) m f km kf = kf a

  after_result :
      (f : A → Action B) (r : Result A) (w : World)
      → ((a : A) → Keeps P (f a))
      → P w
      → P (continue_with f (r, w)).1
  unfolding continue_with
  after_result f (ok a) w kf h = (kf a).at w h
  after_result f (err e) w kf h = h

  pub Keeps-bind :
      (m : Action A) (f : A → Action B) → Keeps P m → ((a : A) → Keeps P (f a)) → Keeps P (m >>= f)
  unfolding ◌>>=◌
  Keeps-bind m f km kf = record {
    at = λ w h. let (r, w') = m w in after_result f r w' kf (km.at w h);
  }

-- `search` proves an action's invariant by these, from those of the calls that write.
pub ruleset keeps_rules = (
  Keeps-pure, Keeps-raise, Keeps-gets, Keeps-lift, Keeps-require, Keeps-if, Keeps-on_bad_request,
  Keeps-raise_if, Keeps-utcnow, Keeps-maybe, Keeps-bind,
)
