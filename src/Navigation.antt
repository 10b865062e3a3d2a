-- ===== src/Navigation.antt =====
-- services/development/navigation.py: the hand-over of a created deployment to the web interface. The
-- state is the dictionary of pending instances; the lock makes each call one step.
pub mod History
use triton_control.Prelude.{
  ℕ, suc, String, Bool, true, false, not, ◌&&◌, ◌||◌, Option, none, some, strip, normal, or_empty,
  List, [], ◌∷◌, ◌^^◌, ◌==◌, if◌then◌else◌,
}
use triton_control.Prelude.Int.{ℤ, pos, negsuc, decimal}
use triton_control.Access.{Claims}

abbrev pub Pending : Type 0
Pending = List (String × ℤ)

-- d.get(key)
unfoldable pub pending_for : String → Pending → Option ℤ
pending_for key [] = none
pending_for key ((k, i) ∷ rest) = if k == key then some i else pending_for key rest

-- d[key] = i
unfoldable pub set_pending : String → ℤ → Pending → Pending
set_pending key i [] = (key, i) ∷ []
set_pending key i ((k, j) ∷ rest) =
    let others = set_pending key i rest in if k == key then (k, i) ∷ rest else (k, j) ∷ others

-- d without the key
unfoldable pub without : String → Pending → Pending
without key [] = []
without key ((k, j) ∷ rest) =
    let others = without key rest in if k == key then others else (k, j) ∷ others

-- `_claims_key`
unfoldable pub claims_key : Claims → String
unfolding decimal normal strip
claims_key claims = elim claims.user_id [
  | some id ↦ "id:" ^^ decimal id
  | none ↦
      let email = normal (or_empty claims.email) in
      let subject = strip (or_empty claims.sub) in
      if not (email == "")
      then "email:" ^^ email
      else if subject == ""
      then ""
      else "sub:" ^^ subject
]

-- instance_id > 0
abbrev pub is_positive : ℤ → Bool
is_positive (pos (suc n)) = true
is_positive _ = false

unfoldable pub notify_deployment_created : Claims → ℤ → Pending → Pending
unfolding claims_key set_pending
notify_deployment_created claims instance_id pending =
    if claims_key claims == "" || not (is_positive instance_id)
    then pending
    else set_pending (claims_key claims) instance_id pending

-- the answer, and what is pending after it
unfoldable pub consume_deployment_created : Claims → Pending → Option ℤ × Pending
unfolding claims_key pending_for without
consume_deployment_created claims pending =
    if claims_key claims == ""
    then (none, pending)
    else (pending_for (claims_key claims) pending, without (claims_key claims) pending)
