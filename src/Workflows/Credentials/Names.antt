-- ===== src/Workflows/Credentials/Names.antt =====
-- The name of a credential's Secret is a label that Kubernetes accepts.
use triton_control.Prelude.{
  ℕ, zero, suc, ◌≤◌, ◌≡◌, refl, ap, ◌∙◌, String, Bool, true, false, not, ◌&&◌, ◌||◌, lower,
  take_chars, lstrip_by, rstrip_by, beq, leb, size, ◌^^◌, ◌==◌, code, arith, and_left, and_right,
  Bool-cases, inl, inr, if◌then◌else◌,
}
use Prim.Native.Char.{Char}
use Prim.Native.String.{[], ◌∷◌}
use text.Mathlib.TextLemmas.{nil-append, cons-append}
use triton_control.Deployment.Policy.{is_label, is_label_rest}
use triton_control.Workflows.Policy.{is_slug, is_slug_char}
use triton_control.Workflows.Credentials.{
  replace_runs, collapse_dashes, strip_dashes, slug_of, secret_name,
}

both : (a b : Bool) → a ≡ true → b ≡ true → (a && b) ≡ true
both a b p q = rw (p, q) refl

record Clean (s : String) : Type 0 where
  clean : is_slug s ≡ true

is_slug-cons : (c : Char) (s : String) → is_slug_char (code c) ≡ true → Clean s → Clean (c ∷ s)
unfolding is_slug
is_slug-cons c s p q = record { clean = both (is_slug_char (code c)) (is_slug s) p q.clean }

is_slug-head : (c : Char) (s : String) → Clean (c ∷ s) → is_slug_char (code c) ≡ true
unfolding is_slug
is_slug-head c s p = and_left (is_slug_char (code c)) (is_slug s) p.clean

is_slug-tail : (c : Char) (s : String) → Clean (c ∷ s) → Clean s
unfolding is_slug
is_slug-tail c s p = record { clean = and_right (is_slug_char (code c)) (is_slug s) p.clean }

is_slug-nil : Clean []
unfolding is_slug
is_slug-nil = record { clean = refl }

replace_runs-slug : (b : Bool) (s : String) → Clean (replace_runs b s)
unfolding replace_runs
replace_runs-slug b [] = is_slug-nil
replace_runs-slug b (c ∷ s) = elim (Bool-cases (is_slug_char (code c))) [
  | inl p ↦ rw (p) (is_slug-cons c _ p (replace_runs-slug false s))
  | inr p ↦
      rw (p)
        (skipped b (is_slug-cons "-" _ refl (replace_runs-slug true s)) (replace_runs-slug true s))
]
  where
    skipped : (b : Bool) {s t : String} → Clean s → Clean t → Clean (if b then t else s)
    skipped true p q = q
    skipped false p q = p

-- one of two slugs
choice : (b : Bool) {s t : String} → Clean s → Clean t → Clean (if b then s else t)
choice true p q = p
choice false p q = q

collapse_dashes-slug : (b : Bool) (s : String) → Clean s → Clean (collapse_dashes b s)
unfolding collapse_dashes
collapse_dashes-slug b [] p = is_slug-nil
collapse_dashes-slug b (c ∷ s) p =
    let inside = collapse_dashes-slug true s (is_slug-tail c s p) in
    let outside = collapse_dashes-slug false s (is_slug-tail c s p) in
    choice (beq (code c) b'-') (choice b inside (is_slug-cons c _ (is_slug-head c s p) inside))
      (is_slug-cons c _ (is_slug-head c s p) outside)

lstrip_by-slug : (t : ℕ → Bool) (s : String) → Clean s → Clean (lstrip_by t s)
unfolding lstrip_by
lstrip_by-slug t [] p = is_slug-nil
lstrip_by-slug t (c ∷ s) p = choice (t (code c)) (lstrip_by-slug t s (is_slug-tail c s p)) p

rstrip_by-slug : (t : ℕ → Bool) (s : String) → Clean s → Clean (rstrip_by t s)
unfolding rstrip_by
rstrip_by-slug t [] p = is_slug-nil
rstrip_by-slug t (c ∷ s) p =
    choice (t (code c) && rstrip_by t s == "") is_slug-nil
      (is_slug-cons c _ (is_slug-head c s p) (rstrip_by-slug t s (is_slug-tail c s p)))

take_chars-slug : (n : ℕ) (s : String) → Clean s → Clean (take_chars n s)
unfolding take_chars
take_chars-slug n [] p = is_slug-nil
take_chars-slug zero (c ∷ s) p = is_slug-nil
take_chars-slug (suc n) (c ∷ s) p =
    is_slug-cons c _ (is_slug-head c s p) (take_chars-slug n s (is_slug-tail c s p))

strip_dashes-slug : (s : String) → Clean s → Clean (strip_dashes s)
strip_dashes-slug s p = rstrip_by-slug (beq b'-') _ (lstrip_by-slug (beq b'-') s p)

is_slug-joined : (a b : String) → Clean a → Clean b → Clean (a ^^ b)
is_slug-joined [] b p q = record { clean = ap is_slug (nil-append b) ∙ q.clean }
is_slug-joined (c ∷ a) b p q =
    let whole =
      is_slug-cons c (a ^^ b) (is_slug-head c a p) (is_slug-joined a b (is_slug-tail c a p) q) in
    record { clean = ap is_slug (cons-append c a b) ∙ whole.clean }

credential-slug : Clean "credential"
unfolding is_slug
credential-slug = record { clean = refl }

slug_of-slug : (name : String) → Clean (slug_of name)
unfolding slug_of
slug_of-slug name = choice (_ == "") credential-slug (
    strip_dashes-slug _ (
      take_chars-slug 40 _ (
        collapse_dashes-slug false _ (strip_dashes-slug _ (replace_runs-slug false (lower name))))))

may_stand :
    (n : ℕ) (last : Bool)
    → is_slug_char n ≡ true
    → (beq b'-' n && last) ≡ false
    → (((leb 48 n && leb n 57) || (leb 97 n && leb n 122)) || (beq n b'-' && not last)) ≡ true
may_stand n last p q = ground arith

-- a text of these characters that does not end in a dash is the rest of a label
rest-label : (s : String) → Clean s → is_label_rest (rstrip_by (beq b'-') s) ≡ true
unfolding rstrip_by is_label_rest
rest-label [] p = refl
rest-label (c ∷ s) p = elim (Bool-cases (beq b'-' (code c) && rstrip_by (beq b'-') s == "")) [
  | inl q ↦ rw (q) refl
  | inr q ↦ rw (q) (
      both _ (is_label_rest (rstrip_by (beq b'-') s))
        (may_stand (code c) (rstrip_by (beq b'-') s == "") (is_slug-head c s p) q)
        (rest-label s (is_slug-tail c s p)))
]

size-rstrip_by : (t : ℕ → Bool) (s : String) → size (rstrip_by t s) ≤ size s
unfolding rstrip_by size
size-rstrip_by t [] = omega arith
size-rstrip_by t (c ∷ s) = elim (Bool-cases (t (code c) && rstrip_by t s == "")) [
  | inl q ↦ rw (q) (omega arith)
  | inr q ↦ let shorter = size-rstrip_by t s in rw (q) (omega arith)
]

size-take_chars : (n : ℕ) (s : String) → size (take_chars n s) ≤ n
unfolding take_chars size
size-take_chars n [] = omega arith
size-take_chars zero (c ∷ s) = omega arith
size-take_chars (suc n) (c ∷ s) = let shorter = size-take_chars n s in omega arith

-- a letter and at most 62 characters behind it
label : (s : String) → Clean s → is_label (rstrip_by (beq b'-') (take_chars 63 ("w" ∷ s))) ≡ true
unfolding is_label rstrip_by take_chars
label s p =
    both (is_label_rest (rstrip_by (beq b'-') (take_chars 62 s)))
      (leb (size (rstrip_by (beq b'-') (take_chars 62 s))) 62)
      (rest-label (take_chars 62 s) (take_chars-slug 62 s p))
      (let a = size-rstrip_by (beq b'-') (take_chars 62 s) in
        let b = size-take_chars 62 s in ground arith)

-- The name of a Secret is a DNS label: lower-case letters, digits and dashes, of which none stands at
-- an end, and at most 63 of them, if the suffix has such characters only.
pub secret_name-label :
    (suffix name : String) → is_slug suffix ≡ true → is_label (secret_name suffix name) ≡ true
unfolding secret_name is_slug
secret_name-label suffix name p =
    ap (λ t. is_label (rstrip_by (beq b'-') (take_chars 63 t)))
      (cons-append "w" "orkflow-s3-" (slug_of name ^^ ("-" ^^ suffix)))
    ∙ label _ (
        is_slug-joined "orkflow-s3-" _ (record { clean = refl })
          (is_slug-joined (slug_of name) _ (slug_of-slug name)
            (is_slug-joined "-" suffix (record { clean = refl }) (record { clean = p }))))
