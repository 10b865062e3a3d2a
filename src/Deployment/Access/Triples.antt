-- ===== src/Deployment/Access/Triples.antt =====
-- Triples on steps: from a view that satisfies P, a step that returns leaves one that satisfies Q,
-- and one that fails leaves one that satisfies F.
use triton_control.Prelude.{◌≡◌, refl, sym, subst, Bool, true, false, if◌then◌else◌, ℕ}
use triton_control.Errors.{Result, ok, err}
use triton_control.Store.Data.{World}
use triton_control.Store.Session.{Action}
use triton_control.Deployment.Access.Api.{
  Failure, raised, api_exception, connection_error, config_exception, Outcome, returned, failed,
  Call, Step, done, fail, call, check, database, on_api_exception, handle_api, translated,
  map_failure, outcome_of, after, ◌>>=◌,
}
use triton_control.Deployment.Access.Views.{View, Untouched}

abbrev pub Post :
    {V : Type 0} → (V → View → Type 0) → (Failure → View → Type 0) → Outcome V → View → Type 0
Post Q F (returned v) x = Q v x
Post Q F (failed f) x = F f x

outcome-Post :
    {V : Type 0} (Q : V → View → Type 0) (F : Failure → View → Type 0) (r : Result V) (x : View)
    → ((v : V) → Q v x)
    → ((f : Failure) → F f x)
    → Post Q F (outcome_of r) x
outcome-Post Q F (ok v) x h g = h v
outcome-Post Q F (err e) x h g = g _

translated-Post :
    {V : Type 0} (Q : V → View → Type 0) (E F : Failure → View → Type 0) (f : Failure → Failure)
    (r : Outcome V) (x : View)
    → Post Q E r x
    → ((e : Failure) → E e x → F (f e) x)
    → Post Q F (map_failure f r) x
unfolding map_failure
translated-Post Q E F f (returned v) x p g = p
translated-Post Q E F f (failed e) x p g = g e p

map-Post :
    {V : Type 0} (Q Q' : V → View → Type 0) (F F' : Failure → View → Type 0) (r : Outcome V)
    (x : View)
    → Post Q F r x
    → ((v : V) → Q v x → Q' v x)
    → ((f : Failure) → F f x → F' f x)
    → Post Q' F' r x
map-Post Q Q' F F' (returned v) x p h g = h v p
map-Post Q Q' F F' (failed f) x p h g = g f p

pub same-Post :
    {V : Type 0} (P : View → Type 0) (F : Failure → View → Type 0) (r : Outcome V) (x : View)
    → P x
    → ((f : Failure) → F f x)
    → Post (λ (v : V). P) F r x
same-Post P F (returned v) x p g = p
same-Post P F (failed f) x p g = g f

module _ {C : Type 0} (view : C → View) where
  pub record Triple {V : Type 0} (P : View → Type 0) (m : Step C V) (Q : V → View → Type 0)
      (F : Failure → View → Type 0) : Type 0 where
    pub run : (s : World × C) → P (view s.1) → Post Q F (m s).0 (view (m s).1.1)

module _ {C : Type 0} {view : C → View} where
  pub done-Triple :
      {V : Type 0} {P : View → Type 0} {Q : V → View → Type 0} {F : Failure → View → Type 0} (v : V)
      → ((x : View) → P x → Q v x)
      → Triple view P (done v) Q F
  unfolding done
  done-Triple v h = record { run = λ s p. h _ p }

  pub fail-Triple :
      {V : Type 0} {P : View → Type 0} {Q : V → View → Type 0} {F : Failure → View → Type 0}
      (f : Failure)
      → ((x : View) → P x → F f x)
      → Triple view P (fail f) Q F
  unfolding fail
  fail-Triple f h = record { run = λ s p. h _ p }

  pub call-Triple :
      {V : Type 0} {P : View → Type 0} {Q : V → View → Type 0} {F : Failure → View → Type 0}
      (f : Call C V)
      → ((c : C) → P (view c) → Post Q F (f c).0 (view (f c).1))
      → Triple view P (call f) Q F
  unfolding call
  call-Triple f h = record { run = λ s p. h s.1 p }

  after-Post :
      {V W : Type 0} {Q : V → View → Type 0} {R : W → View → Type 0} {F : Failure → View → Type 0}
      (r : Outcome V) (s : World × C) (k : V → Step C W)
      → Post Q F r (view s.1)
      → ((v : V) → Triple view (Q v) (k v) R F)
      → Post R F (after k (r, s)).0 (view (after k (r, s)).1.1)
  unfolding after
  after-Post (returned v) s k q h = (h v).run s q
  after-Post (failed f) s k q h = q

  pub bind-Triple :
      {V W : Type 0} {P : View → Type 0} {Q : V → View → Type 0} {R : W → View → Type 0}
      {F : Failure → View → Type 0} {m : Step C V} {k : V → Step C W}
      → Triple view P m Q F
      → ((v : V) → Triple view (Q v) (k v) R F)
      → Triple view P (m >>= k) R F
  unfolding ◌>>=◌
  bind-Triple {m = m} {k = k} t h = record {
    run = λ s p. after-Post (m s).0 (m s).1 k (t.run s p) h;
  }

  pub check-Triple :
      {V : Type 0} {P : View → Type 0} {Q : V → View → Type 0} {F : Failure → View → Type 0}
      (r : Result V)
      → ((x : View) → P x → (v : V) → r ≡ ok v → Q v x)
      → ((x : View) → P x → (f : Failure) → F f x)
      → Triple view P (check r) Q F
  unfolding check
  check-Triple (ok v) h g = record { run = λ s p. h _ p v refl }
  check-Triple (err e) h g = record { run = λ s p. g _ p _ }

  pub database-Triple :
      {V : Type 0} {P : View → Type 0} {Q : V → View → Type 0} {F : Failure → View → Type 0}
      (m : Action V)
      → ((x : View) → P x → (v : V) → Q v x)
      → ((x : View) → P x → (f : Failure) → F f x)
      → Triple view P (database m) Q F
  unfolding database
  database-Triple m h g = record { run = λ s p. outcome-Post _ _ (m s.0).0 _ (h _ p) (g _ p) }

  handle-Post :
      {V : Type 0} {Q : V → View → Type 0} {E F : Failure → View → Type 0} (r : Outcome V)
      (s : World × C) (handler : ℕ → Step C V)
      → Post Q E r (view s.1)
      → ((status : ℕ) → Triple view (E (api_exception status)) (handler status) Q F)
      → ((f : Failure) (x : View) → E f x → F f x)
      → Post Q F (handle_api handler (r, s)).0 (view (handle_api handler (r, s)).1.1)
  unfolding handle_api
  handle-Post (returned v) s handler p h g = p
  handle-Post (failed (api_exception n)) s handler p h g = (h n).run s p
  handle-Post (failed (raised e)) s handler p h g = g _ _ p
  handle-Post (failed connection_error) s handler p h g = g _ _ p
  handle-Post (failed config_exception) s handler p h g = g _ _ p

  pub handled-Triple :
      {V : Type 0} {P : View → Type 0} {Q : V → View → Type 0} {E F : Failure → View → Type 0}
      {m : Step C V} {handler : ℕ → Step C V}
      → Triple view P m Q E
      → ((status : ℕ) → Triple view (E (api_exception status)) (handler status) Q F)
      → ((f : Failure) (x : View) → E f x → F f x)
      → Triple view P (on_api_exception m handler) Q F
  unfolding on_api_exception
  handled-Triple {m = m} {handler = handler} t h g = record {
    run = λ s p. handle-Post (m s).0 (m s).1 handler (t.run s p) h g;
  }

  pub translated-Triple :
      {V : Type 0} {P : View → Type 0} {Q : V → View → Type 0} {E F : Failure → View → Type 0}
      (f : Failure → Failure) {m : Step C V}
      → Triple view P m Q E
      → ((e : Failure) (x : View) → E e x → F (f e) x)
      → Triple view P (translated f m) Q F
  unfolding translated
  translated-Triple f {m = m} t g = record {
    run = λ s p. translated-Post _ _ _ f (m s).0 _ (t.run s p) (λ e. g e _);
  }

  pub if-Triple :
      {V : Type 0} {P : View → Type 0} {Q : V → View → Type 0} {F : Failure → View → Type 0}
      (b : Bool) {m n : Step C V}
      → (b ≡ true → Triple view P m Q F)
      → (b ≡ false → Triple view P n Q F)
      → Triple view P (if b then m else n) Q F
  if-Triple true h g = h refl
  if-Triple false h g = g refl

  pub weaker-Triple :
      {V : Type 0} {P P' : View → Type 0} {Q Q' : V → View → Type 0}
      {F F' : Failure → View → Type 0} {m : Step C V}
      → ((x : View) → P' x → P x)
      → Triple view P m Q F
      → ((v : V) (x : View) → Q v x → Q' v x)
      → ((f : Failure) (x : View) → F f x → F' f x)
      → Triple view P' m Q' F'
  weaker-Triple {m = m} h t g k = record {
    run = λ s p. map-Post _ _ _ _ (m s).0 _ (t.run s (h _ p)) (λ v. g v _) (λ f. k f _);
  }

  -- a call that changes nothing
  pub untouched-Triple :
      {V : Type 0} {P : View → Type 0} {F : Failure → View → Type 0} (f : Call C V)
      → Untouched view f
      → ((x : View) → P x → (e : Failure) → F e x)
      → Triple view P (call f) (λ v. P) F
  untouched-Triple {P = P} f u g =
      call-Triple f
        (λ c p. let q = subst P (sym (u c)) p in same-Post _ _ (f c).0 (view (f c).1) q (g _ q))

  -- what the view before a step implies may be used of the step
  pub fact-Triple :
      {V : Type 0} {A : Type 0} {P : View → Type 0} {Q : V → View → Type 0}
      {F : Failure → View → Type 0} {m : Step C V}
      → ((x : View) → P x → A)
      → (A → Triple view P m Q F)
      → Triple view P m Q F
  fact-Triple h t = record { run = λ s p. (t (h _ p)).run s p }
