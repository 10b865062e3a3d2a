-- ===== src/Store/Session.antt =====
-- A service call against the database. Each repository call commits, so what was written before an
-- exception stays written: the state comes back after a raise too. The combinators are shut, so
-- that invariants are proved by one rule for each (Store/Keeps); `◌>>=◌` opens all of them.
use triton_control.Prelude.{ℕ, Bool, Option, none, some, if◌then◌else◌}
use triton_control.Errors.{AppError, Result, ok, err, bad_request_error}
use triton_control.Store.Data.{World}

abbrev pub Action : Type 0 → Type 0
Action A = World → Result A × World

module _ {A : Type 0} where
  unfoldable pub pure : A → Action A
  pure a w = (ok a, w)

  unfoldable pub raise : AppError → Action A
  raise e w = (err e, w)

  unfoldable pub gets : (World → A) → Action A
  gets f w = (ok (f w), w)

  -- a pure step that may raise
  unfoldable pub lift : Result A → Action A
  lift r w = (r, w)

  -- `if not found: raise e`
  unfoldable pub require : Option A → AppError → Action A
  require none e w = (err e, w)
  require (some a) e w = (ok a, w)

  -- `if found: … else: …`
  unfoldable pub maybe : {B : Type 0} → Option A → Action B → (A → Action B) → Action B
  maybe none missing present = missing
  maybe (some a) missing present = present a

  -- the handler runs in the state that the exception left
  unfoldable pub recover : (AppError → Action A) → Result A × World → Result A × World
  recover handler (ok a, w) = (ok a, w)
  recover handler (err (bad_request_error d), w) = handler (bad_request_error d) w
  recover handler (err e, w) = (err e, w)

  -- `try: … except BadRequestError: …`
  unfoldable pub on_bad_request : Action A → (AppError → Action A) → Action A
  unfolding recover
  on_bad_request m handler w = recover handler (m w)

unfoldable pub modify : (World → World) → Action (Unit {0})
modify f w = (ok tt, f w)

-- `if c: raise e`
unfoldable pub raise_if : Bool → AppError → Action (Unit {0})
raise_if c e w = (if c then err e else ok tt, w)

-- datetime.utcnow()
unfoldable pub utcnow : Action ℕ
utcnow w = (ok w.now, w)

-- The rest of a block runs on the value that a step returned, and not after an exception.
unfoldable pub continue_with : {A B : Type 0} → (A → Action B) → Result A × World → Result B × World
continue_with f (ok a, w) = f a w
continue_with f (err e, w) = (err e, w)

infixl 5 ◌>>=◌ ◌>>◌
unfoldable pub ◌>>=◌ : {A B : Type 0} → Action A → (A → Action B) → Action B
unfolding continue_with pure raise gets lift modify raise_if require maybe utcnow
◌>>=◌ m f w = continue_with f (m w)

abbrev pub ◌>>◌ : {B : Type 0} → Action (Unit {0}) → Action B → Action B
m >> k = m >>= λ _. k
