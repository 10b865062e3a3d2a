-- ===== src/Json/Entries.antt =====
-- The assignment of an entry of a JSON object.
use triton_control.Prelude.{
  ◌≡◌, inl, inr, refl, sym, ap, subst, ◌∙◌, String, false, some, ◌==◌, eq_iff, eq_refl, Bool-cases,
  if◌then◌else◌,
}
use triton_control.Json.{Json, Fields, end, field, get}

-- d[key] = v
unfoldable pub set : String → Json → Fields → Fields
set key v end = field key v end
set key v (field k w rest) =
    let others = set key v rest in if k == key then field k v rest else field k w others

get-head : (k : String) (v : Json) (fs : Fields) → get k (field k v fs) ≡ some v
unfolding get
get-head k v fs = rw (eq_refl k) refl

get-tail :
    (j k : String) (v : Json) (fs : Fields) → (k == j) ≡ false → get j (field k v fs) ≡ get j fs
unfolding get
get-tail j k v fs p = rw (p) refl

get-field :
    (j k : String) (v : Json) (fs gs : Fields)
    → get j fs ≡ get j gs
    → get j (field k v fs) ≡ get j (field k v gs)
unfolding get
get-field j k v fs gs h = ap (λ r. if k == j then some v else r) h

pub get-set : (k : String) (v : Json) (fs : Fields) → get k (set k v fs) ≡ some v
unfolding set
get-set k v end = get-head k v end
get-set k v (field j w fs) = elim (Bool-cases (j == k)) [
  | inl p ↦ rw (p) (ap (λ i. get k (field i v fs)) ((eq_iff j k).0 p) ∙ get-head k v fs)
  | inr p ↦ rw (p) (get-tail k j w (set k v fs) p ∙ get-set k v fs)
]

pub get-set_other :
    (j k : String) (v : Json) (fs : Fields) → (k == j) ≡ false → get j (set k v fs) ≡ get j fs
unfolding set
get-set_other j k v end q = get-tail j k v end q
get-set_other j k v (field i w fs) q = elim (Bool-cases (i == k)) [
  | inl p ↦
      let other = subst (λ x. (x == j) ≡ false) (sym ((eq_iff i k).0 p)) q in
      rw (p) (get-tail j i v fs other ∙ sym (get-tail j i w fs other))
  | inr p ↦ rw (p) (get-field j i w (set k v fs) fs (get-set_other j k v fs q))
]
