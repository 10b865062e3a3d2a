-- ===== src/Deployment/Conflicts.antt =====
-- The table of classes of `validate_hostname_available` is a cache only.
use triton_control.Prelude.{
  String, Bool, true, false, Option, none, some, List, [], ◌∷◌, ◌≡◌, refl, All, Bool-cases, inl,
  inr, or_empty, ◌==◌, eq_iff, sym, ap, if◌then◌else◌,
}
use triton_control.Errors.{Result, ok, err, ◌>>=◌}
use triton_control.Deployment.Hostname.{
  ClassLookup, Ingress, Classes, may_share_controller, cached, route_class, other_class, overlaps,
  shares, conflicting, check_each, overlap_error, validate_hostname_available,
}

module _ (read_class : String → ClassLookup) where
  abbrev Agrees : String × Bool → Type 0
  Agrees (c, b) = may_share_controller read_class c ≡ ok b

  -- the code and the cluster agree on an Ingress, and the table stays right
  abbrev Matches : Result Bool → Result (Bool × Classes) → Type 0
  Matches (ok b) (ok r) = (r.0 ≡ b) × All Agrees r.1
  Matches (err e) (err f) = f ≡ e
  Matches (ok b) (err e) = ⊥
  Matches (err e) (ok r) = ⊥

  head_agrees :
      (c d : String) (x b : Bool)
      → d ≡ c
      → some x ≡ some b
      → may_share_controller read_class d ≡ ok x
      → may_share_controller read_class c ≡ ok b
  head_agrees c d x b p q r = cc

  cached-Agrees :
      (c : String) (b : Bool) (classes : Classes)
      → All Agrees classes
      → cached c classes ≡ some b
      → may_share_controller read_class c ≡ ok b
  unfolding cached
  cached-Agrees c b [] all p = cc
  cached-Agrees c b ((d, x) ∷ rest) all p = elim (Bool-cases (d == c)) [
    | inl q ↦ head_agrees c d x b ((eq_iff d c).0 q) (rw q at p) all.0
    | inr q ↦ cached-Agrees c b rest all.1 (rw q at p)
  ]

  asked :
      (c : String) (classes : Classes) (m : Result Bool)
      → All Agrees classes
      → may_share_controller read_class c ≡ m
      → Matches m (m >>= λ b. ok (b, (c, b) ∷ classes))
  asked c classes (ok b) all p = (refl, (p, all))
  asked c classes (err e) all p = refl

  shares-Matches :
      (c : String) (classes : Classes) (o : Option Bool)
      → All Agrees classes
      → cached c classes ≡ o
      → Matches (may_share_controller read_class c) (shares read_class c classes)
  unfolding shares
  shares-Matches c classes none all p = rw (p, shares) (asked c classes _ all refl)
  shares-Matches c classes (some b) all p =
      rw (p, shares, cached-Agrees c b classes all p) (refl, all)

  module _ (host ingress_class : String) (existing : Option (String × String)) where
    -- whether an Ingress conflicts, by the cluster alone
    unfoldable pub conflicts : Ingress → Result Bool
    conflicts i =
        if overlaps host existing i
        then (if other_class ingress_class i
            then may_share_controller read_class (or_empty (route_class i))
            else ok true)
        else ok false

    unfoldable pub first_conflict : List Ingress → Result (Unit {0})
    first_conflict [] = ok tt
    first_conflict (i ∷ is) =
        conflicts i >>= λ b. if b then err overlap_error else first_conflict is

    choice_Matches :
        (reached other : Bool) (c : String) (classes : Classes)
        → All Agrees classes
        → Matches
            (if reached
              then (if other then may_share_controller read_class c else ok true)
              else ok false)
            (if reached
              then (if other then shares read_class c classes else ok (true, classes))
              else ok (false, classes))
    choice_Matches true true c classes all = shares-Matches c classes _ all refl
    choice_Matches true false c classes all = (refl, all)
    choice_Matches false other c classes all = (refl, all)

    next :
        (is : List Ingress) (m : Result Bool) (r : Result (Bool × Classes))
        → Matches m r
        → ((classes : Classes)
            → All Agrees classes
            → check_each read_class host ingress_class existing is classes ≡ first_conflict is)
        → (r >>= λ r.
            if r.0
            then err overlap_error
            else check_each read_class host ingress_class existing is r.1)
          ≡ (m >>= λ b. if b then err overlap_error else first_conflict is)
    next is (ok b) (ok (true, classes)) (p, all) go = rw (sym p) refl
    next is (ok b) (ok (false, classes)) (p, all) go = rw (sym p) (go classes all)
    next is (err e) (err f) p go = ap err p
    next is (ok b) (err e) p go = absurd p
    next is (err e) (ok r) p go = absurd p

    -- Whatever table of right answers the loop starts with, it raises for the first Ingress that
    -- conflicts by the cluster alone, or the error of the first lookup that fails, and accepts the
    -- host exactly when there is neither.
    pub check_each-eq :
        (is : List Ingress) (classes : Classes)
        → All Agrees classes
        → check_each read_class host ingress_class existing is classes ≡ first_conflict is
    unfolding check_each first_conflict conflicting conflicts
    check_each-eq [] classes all = refl
    check_each-eq (i ∷ is) classes all =
        next is _ _
          (choice_Matches (overlaps host existing i) (other_class ingress_class i)
            (or_empty (route_class i)) classes all)
          (check_each-eq is)

    -- The check before a deployment answers as a search without the table of classes does.
    pub validate_hostname_available-eq :
        (name : Option String) (is : List Ingress)
        → or_empty name ≡ host
        → (host == "") ≡ false
        → validate_hostname_available read_class name ingress_class existing (ok is)
          ≡ first_conflict is
    unfolding validate_hostname_available
    validate_hostname_available-eq name is p q = rw (p, q) (check_each-eq is [] tt)
