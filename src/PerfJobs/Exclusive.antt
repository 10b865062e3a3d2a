-- ===== src/PerfJobs/Exclusive.antt =====
-- At most one run of a model is active: what a reservation keeps.
use triton_control.Prelude.{
  ℕ, ◌≡◌, refl, sym, ap, String, Bool, true, false, ◌&&◌, Option, none, some, List, [], ◌∷◌, ◌++◌,
  All, find, beq, beq_iff, ◌==◌, eq_iff, Bool-cases, ◌⊎◌, inl, inr, ◌∙◌, and_left, and_right,
  eq_refl,
}
use triton_control.Errors.{Result, ok, err, status_code}
use triton_control.PerfJobs.Runs.{
  Run, is_active, is_reserved_for, active, Commit, committed, integrity_error, add_row, reserve,
}

-- no row behind an active one is active for the same model of the same instance
abbrev pub Exclusive : List Run → Type 0
Exclusive [] = Unit
Exclusive (r ∷ rs) =
    (is_active r.state ≡ true → All (λ u. is_reserved_for r.instance_id r.model_name u ≡ false) rs)
    × Exclusive rs

abbrev Free : ℕ → String → List Run → Type 0
Free i m rows = All (λ u. is_reserved_for i m u ≡ false) rows

taken {ℓ} : {A : Type ℓ} (r : Run) → some r ≡ none → A
taken r p = cc

free :
    (i : ℕ) (m : String) (rows : List Run) → find (is_reserved_for i m) rows ≡ none → Free i m rows
free i m [] p = tt
free i m (r ∷ rows) p = elim (Bool-cases (is_reserved_for i m r)) [
  | inl q ↦ taken r (rw q at p)
  | inr q ↦ (q, free i m rows (rw q at p))
]

Free-append :
    (i : ℕ) (m : String) (row : Run) (rows : List Run)
    → Free i m rows
    → is_reserved_for i m row ≡ false
    → Free i m (rows ++ row ∷ [])
Free-append i m row [] h p = (p, tt)
Free-append i m row (r ∷ rows) h p = (h.0, Free-append i m row rows h.1 p)

same_model :
    (r row : Run)
    → is_reserved_for r.instance_id r.model_name row ≡ true
    → (row.instance_id ≡ r.instance_id) × (row.model_name ≡ r.model_name)
same_model r row p =
    let both =
      and_left (beq row.instance_id r.instance_id && row.model_name == r.model_name)
        (is_active row.state) p in
    (
      (beq_iff _ _).0
          (and_left (beq row.instance_id r.instance_id) (row.model_name == r.model_name) both),
      (eq_iff _ _).0
          (and_right (beq row.instance_id r.instance_id) (row.model_name == r.model_name) both),
    )

meets_itself :
    (r : Run) → is_active r.state ≡ true → is_reserved_for r.instance_id r.model_name r ≡ true
meets_itself r a = rw ((beq_iff r.instance_id r.instance_id).1 refl, eq_refl r.model_name, a) refl

-- an active run that does not stand for the model of another is not met by it
other_model :
    (r row : Run) (b : Bool)
    → is_active r.state ≡ true
    → is_reserved_for row.instance_id row.model_name r ≡ false
    → is_reserved_for r.instance_id r.model_name row ≡ b
    → b ≡ false
other_model r row false a p q = refl
other_model r row true a p q =
    let s = same_model r row q in
    sym (meets_itself r a)
    ∙ (ap (λ i. is_reserved_for i r.model_name r) (sym s.0)
        ∙ (ap (λ m. is_reserved_for row.instance_id m r) (sym s.1) ∙ p))

Exclusive-append :
    (row : Run) (rows : List Run)
    → Free row.instance_id row.model_name rows
    → Exclusive rows
    → Exclusive (rows ++ row ∷ [])
Exclusive-append row [] f h = (λ a. tt, tt)
Exclusive-append row (r ∷ rows) f h = (
  λ a. Free-append _ _ row rows (h.0 a) (other_model r row _ a f.0 refl),
  Exclusive-append row rows f.1 h.1,
)

-- a row is an active run of the model
abbrev pub Occupies : Run → Run → Type 0
Occupies row r =
    (r.instance_id ≡ row.instance_id) × (r.model_name ≡ row.model_name) × (is_active r.state ≡ true)

-- some row is an active run of the model
abbrev pub Occupied : Run → List Run → Type 0
Occupied row [] = ⊥
Occupied row (r ∷ rows) = Occupies row r ⊎ Occupied row rows

occupies : (row r : Run) → is_reserved_for row.instance_id row.model_name r ≡ true → Occupies row r
occupies row r p =
    let same =
      and_left (beq r.instance_id row.instance_id && r.model_name == row.model_name)
        (is_active r.state) p in
    (
      (beq_iff _ _).0
          (and_left (beq r.instance_id row.instance_id) (r.model_name == row.model_name) same),
      (eq_iff _ _).0
          (and_right (beq r.instance_id row.instance_id) (r.model_name == row.model_name) same),
      and_right (beq r.instance_id row.instance_id && r.model_name == row.model_name)
          (is_active r.state) p,
    )

reserves : (row r : Run) → Occupies row r → is_reserved_for row.instance_id row.model_name r ≡ true
reserves row r (p, q, a) = rw ((beq_iff _ _).1 p, (eq_iff _ _).1 q, a) refl

not-Occupied :
    (row : Run) (rows : List Run) → Free row.instance_id row.model_name rows → Occupied row rows → ⊥
not-Occupied row [] f o = o
not-Occupied row (r ∷ rows) f (inl o) = let same = sym f.0 ∙ reserves row r o in cc
not-Occupied row (r ∷ rows) f (inr o) = not-Occupied row rows f.1 o

found_Occupied :
    (row r : Run) (rows : List Run)
    → find (is_reserved_for row.instance_id row.model_name) rows ≡ some r
    → Occupied row rows
found_Occupied row r [] p = cc
found_Occupied row r (u ∷ rows) p =
    elim (Bool-cases (is_reserved_for row.instance_id row.model_name u)) [
      | inl q ↦ inl (occupies row u q)
      | inr q ↦ inr (found_Occupied row r rows (rw q at p))
    ]

-- why a reservation is refused
pub data Refusal (instance_row : Option Bool) (commit : Commit) (row : Run) (rows : List Run)
    : ℕ → Type 0 where
  no_instance : instance_row ≡ none → Refusal instance_row commit row rows 404
  deleting : instance_row ≡ some true → Refusal instance_row commit row rows 409
  occupied :
      instance_row ≡ some false → Occupied row rows → Refusal instance_row commit row rows 409
  occupied_later :
      (seen : List Run)
      → instance_row ≡ some false
      → commit ≡ integrity_error seen
      → Occupied row seen
      → Refusal instance_row commit row rows 409
  violated :
      (seen : List Run)
      → instance_row ≡ some false
      → commit ≡ integrity_error seen
      → (Occupied row seen → ⊥)
      → Refusal instance_row commit row rows 500

-- the outcome of a reservation
abbrev pub Reserved :
    (instance_row : Option Bool) → Commit → Run → List Run → Result (List Run) → Type 0
Reserved instance_row commit row rows (ok rows') =
    (instance_row ≡ some false)
    × (commit ≡ committed)
    × (Occupied row rows → ⊥)
    × (rows' ≡ rows ++ row ∷ [])
    × Exclusive rows'
Reserved instance_row commit row rows (err e) = Refusal instance_row commit row rows (status_code e)

commit_choice :
    (seen : List Run) (row : Run) (rows : List Run) (o : Option Run)
    → active row.instance_id row.model_name seen ≡ o
    → Reserved
        (some false)
        (integrity_error seen)
        row
        rows
        (add_row (integrity_error seen) row rows)
unfolding active add_row status_code
commit_choice seen row rows none p =
    rw (p, add_row) (violated seen refl refl (not-Occupied row seen (free _ _ seen p)))
commit_choice seen row rows (some r) p =
    rw (p, add_row) (occupied_later seen refl refl (found_Occupied row r seen p))

add_row-Reserved :
    (commit : Commit) (row : Run) (rows : List Run)
    → Exclusive rows
    → Free row.instance_id row.model_name rows
    → Reserved (some false) commit row rows (add_row commit row rows)
unfolding add_row
add_row-Reserved committed row rows h f =
    (refl, refl, not-Occupied row rows f, refl, Exclusive-append row rows f h)
add_row-Reserved (integrity_error seen) row rows h f = commit_choice seen row rows _ refl

reserve_choice :
    (commit : Commit) (row : Run) (rows : List Run) (o : Option Run)
    → Exclusive rows
    → active row.instance_id row.model_name rows ≡ o
    → Reserved (some false) commit row rows (reserve (some false) commit row rows)
unfolding reserve active status_code
reserve_choice commit row rows none h p =
    rw (p, reserve) (add_row-Reserved commit row rows h (free _ _ rows p))
reserve_choice commit row rows (some r) h p =
    rw (p, reserve) (occupied refl (found_Occupied row r rows p))

-- A reservation that is accepted adds the row, at an instance that is there and not being deleted,
-- where no run of the model is active, and keeps at most one active run of each model. It is refused
-- with 404 only if the instance is missing, with 409 only if the instance is being deleted or a run of
-- the model is active, also when the commit has shown it, and otherwise only by a violated index.
pub reserve-Reserved :
    (instance_row : Option Bool) (commit : Commit) (row : Run) (rows : List Run)
    → Exclusive rows
    → Reserved instance_row commit row rows (reserve instance_row commit row rows)
unfolding reserve status_code
reserve-Reserved none commit row rows h = no_instance refl
reserve-Reserved (some true) commit row rows h = deleting refl
reserve-Reserved (some false) commit row rows h = reserve_choice commit row rows _ h refl
