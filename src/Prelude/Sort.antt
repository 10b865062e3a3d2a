-- ===== src/Prelude/Sort.antt =====
-- Python's `sorted` with a key, which is stable, and the order of texts.
use Prim.Native.Char.{code}
use Prim.Native.String.{String}
use mathlib.Core.Path.{◌≡◌, refl, sym, subst, ◌∙◌}
use mathlib.Core.Logic.{inl, inr}
use mathlib.Core.Bool.{Bool, true, false}
use mathlib.Core.List.{List, [], ◌∷◌, Perm}
use mathlib.Core.List.Perm
use native.Mathlib.Omega.{arith}
use text.Mathlib.Text.{◌==◌}
use text.Mathlib.TextEquality.{eq_iff}
use text.Mathlib.TextPositions.{eq_refl}
use triton_control.Prelude.Tests.{beq, ltb, if◌then◌else◌, Bool-cases}

-- s <= t
unfoldable pub text_le : (s t : String) → Bool
text_le String.[] t = true
text_le (String.◌∷◌ c s) String.[] = false
text_le (String.◌∷◌ c s) (String.◌∷◌ d t) =
    if beq (code c) (code d) then text_le s t else ltb (code c) (code d)

-- (a, b) <= (c, d)
abbrev pub pair_le : (p q : String × String) → Bool
pair_le p q = if p.0 == q.0 then text_le p.1 q.1 else text_le p.0 q.0

pub text_le-total : (s t : String) → text_le s t ≡ false → text_le t s ≡ true
unfolding text_le
text_le-total String.[] t p = cc
text_le-total (String.◌∷◌ c s) String.[] p = refl
text_le-total (String.◌∷◌ c s) (String.◌∷◌ d t) p = ground (arith, text_le-total s t)

module _ {A : Type 0} (le : A → A → Bool) where
  unfoldable insert : A → List A → List A
  insert x [] = x ∷ []
  insert x (y ∷ ys) = let rest = insert x ys in if le x y then x ∷ y ∷ ys else y ∷ rest

  unfoldable pub sorted : List A → List A
  unfolding insert
  sorted [] = []
  sorted (x ∷ xs) = insert x (sorted xs)

  abbrev Below : A → List A → Type 0
  Below x [] = Unit
  Below x (y ∷ ys) = le x y ≡ true

  -- each element stands before the next
  unfoldable pub Ascending : List A → Type 0
  Ascending [] = Unit
  Ascending (x ∷ xs) = Below x xs × Ascending xs

  insert-Perm : (x : A) (l : List A) → Perm (insert x l) (x ∷ l)
  unfolding insert
  insert-Perm x [] = Perm.rfl
  insert-Perm x (y ∷ ys) = elim (Bool-cases (le x y)) [
    | inl p ↦ rw (p) Perm.rfl
    | inr p ↦ rw (p) (Perm.trans (Perm.cons y (insert-Perm x ys)) (Perm.swap x y ys))
  ]

  pub sorted-Perm : (l : List A) → Perm (sorted l) l
  unfolding sorted
  sorted-Perm [] = Perm.rfl
  sorted-Perm (x ∷ xs) = Perm.trans (insert-Perm x (sorted xs)) (Perm.cons x (sorted-Perm xs))

  module _ (total : (x y : A) → le x y ≡ false → le y x ≡ true) where
    insert-Below : (y x : A) (ys : List A) → le y x ≡ true → Below y ys → Below y (insert x ys)
    unfolding insert
    insert-Below y x [] p q = p
    insert-Below y x (z ∷ zs) p q = elim (Bool-cases (le x z)) [
      | inl r ↦ rw (r) p
      | inr r ↦ rw (r) q
    ]

    insert-Ascending : (x : A) (l : List A) → Ascending l → Ascending (insert x l)
    unfolding insert Ascending
    insert-Ascending x [] h = (tt, tt)
    insert-Ascending x (y ∷ ys) h = elim (Bool-cases (le x y)) [
      | inl p ↦ rw (p) (p, h)
      | inr p ↦ rw (p) (insert-Below y x ys (total x y p) h.0, insert-Ascending x ys h.1)
    ]

    pub sorted-Ascending : (l : List A) → Ascending (sorted l)
    unfolding sorted Ascending
    sorted-Ascending [] = tt
    sorted-Ascending (x ∷ xs) = insert-Ascending x (sorted xs) (sorted-Ascending xs)

flipped : (s t : String) → (s == t) ≡ false → (t == s) ≡ false
flipped s t h = elim (Bool-cases (t == s)) [
  | inl e ↦
      let same = subst (λ u. (u == t) ≡ true) ((eq_iff t s).0 e) (eq_refl t) in
      let absurd = sym same ∙ h in cc
  | inr e ↦ e
]

pub pair_le-total : (p q : String × String) → pair_le p q ≡ false → pair_le q p ≡ true
pair_le-total p q h = elim (Bool-cases (p.0 == q.0)) [
  | inl e ↦
      let back = subst (λ t. (t == p.0) ≡ true) ((eq_iff p.0 q.0).0 e) (eq_refl p.0) in
      let seconds = rw (e) at h in rw (back) (text_le-total p.1 q.1 seconds)
  | inr e ↦ let firsts = rw (e) at h in rw (flipped p.0 q.0 e) (text_le-total p.0 q.0 firsts)
]
