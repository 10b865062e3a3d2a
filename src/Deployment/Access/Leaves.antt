-- ===== src/Deployment/Access/Leaves.antt =====
-- What single calls leave of a view.
use triton_control.Prelude.{
  ◌≡◌, ◌≢◌, ◌⊎◌, inl, inr, refl, sym, ap, subst, ◌∙◌, String, Bool, true, false, Option, none, some,
  List, [], ◌∷◌, ◌==◌, eq_iff, if◌then◌else◌, or_empty, truthy, Bool-cases,
}
use triton_control.Deployment.Access.Manifests.{IngressManifest, Manifest}
use triton_control.Deployment.Access.Api.{
  raised, api_exception, connection_error, config_exception, Outcome, returned, failed, Secret,
}
use triton_control.Deployment.Access.Update.{obsolete_of, old_secret}
use triton_control.Deployment.Access.Views.{View, named, referred, set_live, Written, Created}
use triton_control.Deployment.Access.Triples.{Post}
use triton_control.Deployment.Access.Writes.{
  Consistent, Detached, Held, unlinked_Detached, set_live-Consistent,
}

-- the credential that is left to delete is not the one that was kept
pub obsolete-kept :
    (old kept : Option String)
    → truthy (obsolete_of old kept) ≡ true
    → kept ≢ some (or_empty (obsolete_of old kept))
obsolete-kept none none p e = cc
obsolete-kept none (some b) p e = cc
obsolete-kept (some a) none p e = cc
obsolete-kept (some a) (some b) p e = elim (Bool-cases (a == b)) [
  | inl q ↦ let absurd = rw (q) at p in cc
  | inr q ↦
      let other = rw (q) at e in
      let same = ap (λ o. or_empty o) other in let absurd = sym q ∙ (eq_iff a b).1 (sym same) in cc
]

pub named-some : (a : String) → truthy (some a) ≡ true → named (some a) ≡ some a
named-some a p = elim (Bool-cases (a == "")) [
  | inl q ↦ let absurd = rw (q) at p in cc
  | inr q ↦ rw (q) refl
]

-- and it is the old one
pub obsolete-old :
    (old kept : Option String)
    → truthy (obsolete_of old kept) ≡ true
    → named old ≡ some (or_empty (obsolete_of old kept))
obsolete-old none none p = cc
obsolete-old none (some b) p = cc
obsolete-old (some a) none p = named-some a p
obsolete-old (some a) (some b) p = elim (Bool-cases (a == b)) [
  | inl q ↦ let absurd = rw (q) at p in cc
  | inr q ↦ let full = rw (q) at p in rw (q) (named-some a full)
]

-- a Secret that was created was not the one that is referred to
pub Created-apart :
    (name : String) (x y : View)
    → Consistent x
    → Created name x (returned tt) y
    → x.live ≢ some name
Created-apart name x y g c e = let absurd = sym (g.there name e) ∙ (c.2 refl).0 in cc

pub Created-Consistent :
    (name : String) (r : Outcome (Unit {0})) (x y : View)
    → Consistent x
    → Created name x r y
    → Consistent y
Created-Consistent name r x y g c = record {
  there = λ other p. c.1 other (g.there other (sym c.0 ∙ p));
}

pub Created-Post :
    (name : String) (old : Option String) (x y : View) (r : Outcome (Unit {0}))
    → Consistent x
    → x.live ≡ named old
    → Created name x r y
    → Post
        (λ u z.
          Consistent z × (z.present name ≡ true) × (z.live ≡ named old) × (named old ≢ some name))
        (λ f. Consistent)
        r
        y
Created-Post name old x y (returned tt) g l c = (
  Created-Consistent name (returned tt) x y g c,
  (c.2 refl).1,
  c.0 ∙ l,
  λ e. Created-apart name x y g c (l ∙ e),
)
Created-Post name old x y (failed f) g l c = Created-Consistent name (failed f) x y g c

pub settled : {m : Manifest} {ms : List Manifest} {A B : Type 0} → (((m ∷ ms) ≡ []) × A) ⊎ B → B
settled (inl p) = let absurd = p.0 in cc
settled (inr b) = b

pub removed : (x y : View) → Consistent x → (y ≡ x) ⊎ (y ≡ set_live none x) → Consistent y
removed x y g (inl w) = subst Consistent (sym w) g
removed x y g (inr w) =
    subst Consistent (sym w) (set_live-Consistent none x (record { held = λ n e. cc }))

pub removed-Post :
    (o : Option String) (x y : View) (r : Outcome (Unit {0}))
    → Consistent x
    → Written none x r y
    → Post (λ u z. Consistent z × Detached o z) (λ f. Consistent) r y
removed-Post o x y (returned u) g w =
    (removed x y g (inr w), unlinked_Detached o y (ap (λ (z : View). z.live) w))
removed-Post o x y (failed (raised e)) g w = removed x y g w
removed-Post o x y (failed (api_exception n)) g (inl w) = removed x y g (inl w)
removed-Post o x y (failed (api_exception n)) g (inr w) = removed x y g (inr w.1)
removed-Post o x y (failed connection_error) g w = removed x y g w
removed-Post o x y (failed config_exception) g w = removed x y g w

pub read-Post :
    (old : Option String) (x y : View) (r : Outcome Secret)
    → y ≡ x
    → ((s : Secret) → r ≡ returned s → x.present (or_empty old) ≡ true)
    → Consistent x × (x.live ≡ named old)
    → Post
        (λ s z. Consistent z × (z.live ≡ named old) × (z.present (or_empty old) ≡ true))
        (λ f. Consistent)
        r
        y
read-Post old x y (returned s) e h p =
    subst (λ z. Consistent z × (z.live ≡ named old) × (z.present (or_empty old) ≡ true)) (sym e)
      (p.0, p.1, h s refl)
read-Post old x y (failed f) e h p = subst Consistent (sym e) p.0

pub present_Held :
    (b : Bool) (old : Option String) (x : View)
    → x.present (or_empty old) ≡ true
    → Held (if b then old else none) x
present_Held true old x p = record {
  held = λ n e. subst (λ k. x.present k ≡ true) (ap (λ o. or_empty o) e) p;
}
present_Held false old x p = record { held = λ n e. cc }

pub found-Post :
    (x y : View) (r : Outcome IngressManifest)
    → y ≡ x
    → ((i : IngressManifest) → r ≡ returned i → x.live ≡ referred i.annotations)
    → (r ≡ failed (api_exception 404) → x.live ≡ none)
    → Consistent x
    → Post
        (λ i z. Consistent z × (z.live ≡ named (old_secret i.annotations)))
        (λ f z. Consistent z × (f ≡ api_exception 404 → z.live ≡ none))
        r
        y
unfolding referred
found-Post x y (returned i) e h k g =
    subst (λ z. Consistent z × (z.live ≡ named (old_secret i.annotations))) (sym e) (g, h i refl)
found-Post x y (failed f) e h k g =
    subst (λ z. Consistent z × (f ≡ api_exception 404 → z.live ≡ none)) (sym e)
      (g, λ q. k (ap failed q))

pub either_way :
    {V : Type 0} (r : Outcome V) (x : View)
    → Post (λ v. Consistent) (λ f. Consistent) r x
    → Consistent x
either_way (returned v) x p = p
either_way (failed f) x p = p
