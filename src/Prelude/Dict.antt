-- ===== src/Prelude/Dict.antt =====
-- Python's dictionaries from texts to texts, in the order in which their keys were added.
use mathlib.Core.Path.{◌≡◌, refl, sym, ap, ◌∙◌, subst}
use mathlib.Core.Logic.{inl, inr}
use mathlib.Core.Bool.{Bool, true, false}
use mathlib.Core.Option.{Option, none, some}
use mathlib.Core.List.{List, [], ◌∷◌}
use Prim.Native.String.{String}
use text.Mathlib.Text.{◌==◌}
use text.Mathlib.TextEquality.{eq_iff}
use text.Mathlib.TextPositions.{eq_refl}
use triton_control.Prelude.Tests.{if◌then◌else◌, Bool-cases}

abbrev pub Dict : Type 0
Dict = List (String × String)

-- d.get(key)
unfoldable pub lookup : String → Dict → Option String
lookup key [] = none
lookup key ((k, v) ∷ d) = if k == key then some v else lookup key d

-- d[key] = value
unfoldable pub assign : String → String → Dict → Dict
assign key value [] = (key, value) ∷ []
assign key value ((k, v) ∷ d) =
    let rest = assign key value d in if k == key then (k, value) ∷ d else (k, v) ∷ rest

-- {**d, **e}
unfoldable pub merge : (d e : Dict) → Dict
unfolding assign
merge d [] = d
merge d ((k, v) ∷ e) = merge (assign k v d) e

-- the items whose key passes the test
unfoldable pub filter_keys : (String → Bool) → Dict → Dict
filter_keys p [] = []
filter_keys p ((k, v) ∷ d) = let rest = filter_keys p d in if p k then (k, v) ∷ rest else rest

lookup-head : (k v : String) (d : Dict) → lookup k ((k, v) ∷ d) ≡ some v
unfolding lookup
lookup-head k v d = rw (eq_refl k) refl

lookup-tail : (j k v : String) (d : Dict) → (k == j) ≡ false → lookup j ((k, v) ∷ d) ≡ lookup j d
unfolding lookup
lookup-tail j k v d p = rw (p) refl

lookup-cons :
    (j k v : String) (d e : Dict)
    → lookup j d ≡ lookup j e
    → lookup j ((k, v) ∷ d) ≡ lookup j ((k, v) ∷ e)
unfolding lookup
lookup-cons j k v d e h = ap (λ r. if k == j then some v else r) h

pub lookup-assign : (k v : String) (d : Dict) → lookup k (assign k v d) ≡ some v
unfolding assign
lookup-assign k v [] = lookup-head k v []
lookup-assign k v ((j, w) ∷ d) = elim (Bool-cases (j == k)) [
  | inl p ↦ rw (p) (ap (λ i. lookup k ((i, v) ∷ d)) ((eq_iff j k).0 p) ∙ lookup-head k v d)
  | inr p ↦ rw (p) (lookup-tail k j w (assign k v d) p ∙ lookup-assign k v d)
]

pub lookup-assign_other :
    (j k v : String) (d : Dict) → (k == j) ≡ false → lookup j (assign k v d) ≡ lookup j d
unfolding assign
lookup-assign_other j k v [] q = lookup-tail j k v [] q
lookup-assign_other j k v ((i, w) ∷ d) q = elim (Bool-cases (i == k)) [
  | inl p ↦
      let other = subst (λ x. (x == j) ≡ false) (sym ((eq_iff i k).0 p)) q in
      rw (p) (lookup-tail j i v d other ∙ sym (lookup-tail j i w d other))
  | inr p ↦ rw (p) (lookup-cons j i w (assign k v d) d (lookup-assign_other j k v d q))
]

miss : (j k v : String) (d : Dict) → lookup j ((k, v) ∷ d) ≡ none → (k == j) ≡ false
unfolding lookup
miss j k v d h = elim (Bool-cases (k == j)) [ inl p ↦ let absurd = rw (p) at h in cc | inr p ↦ p ]

-- a key that the second dictionary does not have keeps its value
pub lookup-merge-none :
    (j : String) (d e : Dict) → lookup j e ≡ none → lookup j (merge d e) ≡ lookup j d
unfolding merge
lookup-merge-none j d [] h = refl
lookup-merge-none j d ((k, v) ∷ e) h =
    lookup-merge-none j (assign k v d) e (sym (lookup-tail j k v e (miss j k v e h)) ∙ h)
    ∙ lookup-assign_other j k v d (miss j k v e h)

-- the value of the second dictionary wins
pub lookup-merge :
    (j v : String) (d e : Dict) → lookup j e ≡ none → lookup j (merge d ((j, v) ∷ e)) ≡ some v
unfolding merge
lookup-merge j v d e h = lookup-merge-none j (assign j v d) e h ∙ lookup-assign j v d

lookup-nil : (k : String) → lookup k [] ≡ none
unfolding lookup
lookup-nil k = refl

differs : (p : String → Bool) {i k : String} → p i ≡ true → p k ≡ false → (i == k) ≡ false
differs p {i} {k} r q = elim (Bool-cases (i == k)) [
  | inl e ↦ let same = subst (λ x. p x ≡ true) ((eq_iff i k).0 e) r in cc
  | inr e ↦ e
]

pub lookup-filter_keys :
    (p : String → Bool) (k : String) (d : Dict) → p k ≡ false → lookup k (filter_keys p d) ≡ none
unfolding filter_keys
lookup-filter_keys p k [] q = lookup-nil k
lookup-filter_keys p k ((i, w) ∷ d) q = elim (Bool-cases (p i)) [
  | inl r ↦
      rw (r) (lookup-tail k i w (filter_keys p d) (differs p r q) ∙ lookup-filter_keys p k d q)
  | inr r ↦ rw (r) (lookup-filter_keys p k d q)
]
