-- ===== src/Deployment/Wildcards.antt =====
-- What two hosts that overlap have in common.
use triton_control.Prelude.{
  ◌≡◌, refl, sym, ap, ◌∙◌, String, Bool, true, false, not, ◌||◌, ◌⊎◌, inl, inr, Option, none, some,
  Bool-cases, has_char, eq_iff, and_left, and_right, ◌^^◌, ◌==◌, if◌then◌else◌,
}
use Prim.Native.Char.{Char}
use Prim.Native.String.{[], ◌∷◌}
use text.Mathlib.TextLemmas.{nil-append, cons-append}
use triton_control.Deployment.Hostname.{
  prepend, wildcard_suffix, drop_suffix, is_single, covers_suffix, covers, overlap, hosts_overlap,
  dns_name,
}

-- The host is one label in the domain of the wildcard.
pub record IsUnder (wildcard host : String) : Type 0 where
  pub label : String
  pub suffix : String
  pub wildcard_eq : wildcard ≡ "*." ^^ suffix
  pub host_eq : host ≡ label ^^ "." ^^ suffix
  pub dotless : has_char b'.' label ≡ false
  pub given : (label == "") ≡ false

some_eq : (a b : String) → some a ≡ some b → a ≡ b
some_eq a b p = cc

prepend-some :
    (c : Char) (o : Option String) (r : String)
    → prepend c o ≡ some r
    → (t : String) × (o ≡ some t) × (c ∷ t ≡ r)
prepend-some c none r p = cc
prepend-some c (some t) r p = (t, refl, some_eq (c ∷ t) r p)

-- the rest of the text is the suffix
end_choice :
    (b : Bool) (s suffix r : String)
    → (s == suffix) ≡ b
    → (if b then some "" else none) ≡ some r
    → s ≡ r ^^ suffix
end_choice true s suffix r q p =
    (eq_iff s suffix).0 q ∙ (sym (nil-append suffix) ∙ ap (λ x. x ^^ suffix) (some_eq "" r p))
end_choice false s suffix r q p = cc

empty_choice :
    (b : Bool) (suffix r : String)
    → (suffix == "") ≡ b
    → (if b then some "" else none) ≡ some r
    → "" ≡ r ^^ suffix
empty_choice true suffix r q p =
    sym ((eq_iff suffix "").0 q)
    ∙ (sym (nil-append suffix) ∙ ap (λ x. x ^^ suffix) (some_eq "" r p))
empty_choice false suffix r q p = cc

drop_suffix-append : (suffix s r : String) → drop_suffix suffix s ≡ some r → s ≡ r ^^ suffix
unfolding drop_suffix
drop_suffix-append suffix [] r p = empty_choice (suffix == "") suffix r refl p
drop_suffix-append suffix (c ∷ s) r p = elim (Bool-cases ((c ∷ s) == suffix)) [
  | inl q ↦ end_choice true (c ∷ s) suffix r q (rw q at p)
  | inr q ↦
      let (t, found, whole) = prepend-some c (drop_suffix suffix s) r (rw q at p) in
      ap (λ x. c ∷ x) (drop_suffix-append suffix s t found)
      ∙ (sym (cons-append c t suffix) ∙ ap (λ x. x ^^ suffix) whole)
]

star_choice :
    (b : Bool) (head s t : String)
    → (head == "*.") ≡ b
    → (if b then some s else none) ≡ some t
    → head ^^ s ≡ "*." ^^ t
star_choice true head s t q p =
    ap (λ x. x ^^ s) ((eq_iff head "*.").0 q) ∙ ap (λ x. "*." ^^ x) (some_eq s t p)
star_choice false head s t q p = cc

wildcard_suffix-append : (w t : String) → wildcard_suffix w ≡ some t → w ≡ "*." ^^ t
unfolding wildcard_suffix
wildcard_suffix-append [] t p = cc
wildcard_suffix-append (a ∷ []) t p = cc
wildcard_suffix-append (a ∷ b ∷ s) t p =
    ap (λ x. a ∷ x) (ap (λ x. b ∷ x) (sym (nil-append s)) ∙ sym (cons-append b "" s))
    ∙ (sym (cons-append a (b ∷ "") s) ∙ star_choice _ (a ∷ b ∷ "") s t refl p)

denied : (b : Bool) → not b ≡ true → b ≡ false
denied true p = cc
denied false p = refl

single_IsUnder :
    (w host suffix : String) (o : Option String)
    → w ≡ "*." ^^ suffix
    → drop_suffix ("." ^^ suffix) host ≡ o
    → is_single o ≡ true
    → IsUnder w host
single_IsUnder w host suffix none p q r = cc
single_IsUnder w host suffix (some label) p q r = record {
  label = label;
  suffix = suffix;
  wildcard_eq = p;
  host_eq = drop_suffix-append ("." ^^ suffix) host label q;
  dotless = denied _ (and_right (not (label == "")) (not (has_char b'.' label)) r);
  given = denied _ (and_left (not (label == "")) (not (has_char b'.' label)) r);
}

covered :
    (w host : String) (o : Option String)
    → wildcard_suffix w ≡ o
    → covers_suffix o host ≡ true
    → IsUnder w host
covered w host none p q = cc
covered w host (some suffix) p q =
    single_IsUnder w host suffix _ (wildcard_suffix-append w suffix p) refl q

covers-IsUnder : (w host : String) → covers w host ≡ true → IsUnder w host
covers-IsUnder w host p = covered w host _ refl p

-- why two hosts overlap, without trailing dots and in lower case
pub data Shared (a b : String) : Type 0 where
  first_hostless : a ≡ "" → Shared a b
  second_hostless : b ≡ "" → Shared a b
  same_host : a ≡ b → Shared a b
  first_wildcard : IsUnder a b → Shared a b
  second_wildcard : IsUnder b a → Shared a b

or_case : (p q : Bool) → (p || q) ≡ true → (p ≡ true) ⊎ (q ≡ true)
or_case true q h = inl refl
or_case false q h = inr h

hostless_or_same : (a b : String) → (a == "" || b == "" || a == b) ≡ true → Shared a b
hostless_or_same a b h = elim (or_case (a == "" || b == "") (a == b) h) [
  | inl k ↦ elim (or_case (a == "") (b == "") k) [
    | inl e ↦ first_hostless ((eq_iff a "").0 e)
    | inr e ↦ second_hostless ((eq_iff b "").0 e)
  ]
  | inr e ↦ same_host ((eq_iff a b).0 e)
]

overlap-Shared : (a b : String) → overlap a b ≡ true → Shared a b
overlap-Shared a b h = elim (or_case (a == "" || b == "" || a == b || covers a b) (covers b a) h) [
  | inl k ↦ elim (or_case (a == "" || b == "" || a == b) (covers a b) k) [
    | inl e ↦ hostless_or_same a b e
    | inr e ↦ first_wildcard (covers-IsUnder a b e)
  ]
  | inr e ↦ second_wildcard (covers-IsUnder b a e)
]

-- Two hosts that `hosts_overlap` calls overlapping have requests in common: one accepts every host,
-- they are the same name, or one is a wildcard and the other a single label in its domain, each
-- without trailing dots and in lower case.
pub hosts_overlap-Shared :
    (first second : String)
    → hosts_overlap first second ≡ true
    → Shared (dns_name first) (dns_name second)
unfolding hosts_overlap
hosts_overlap-Shared first second h = overlap-Shared (dns_name first) (dns_name second) h
