-- ===== src/Deployment/Naming.antt =====
-- The name that a user enters, the host that it becomes, and the policy for HTTP.
use triton_control.Prelude.{
  size, ◌≡◌, refl, ap, ◌∙◌, String, Bool, true, false, ◌||◌, Option, none, some, beq, leb, before,
  has_char, or_empty, eq_iff, and_right, ◌^^◌, ◌==◌, if◌then◌else◌,
}
use Prim.Native.Char.{code}
use Prim.Native.String.{[], ◌∷◌}
use text.Mathlib.TextLemmas.{nil-append, cons-append}
use triton_control.Errors.{Result, ok, err, status_code, ◌>>=◌}
use triton_control.Env.{Env}
use triton_control.Deployment.Policy.{
  DeploymentAccessRequest, short_hostname, base_domain, with_domain, keeps_host, resolve_hostname,
}

or_false : (a b : Bool) → (a || b) ≡ false → (a ≡ false) × (b ≡ false)
or_false true b p = cc
or_false false b p = (refl, p)

before-append : (h d : String) → has_char b'.' h ≡ false → before b'.' (h ^^ "." ^^ d) ≡ h
unfolding before has_char
before-append [] d p = rw (nil-append ("." ^^ d), cons-append) refl
before-append (c ∷ h) d p =
    let q = or_false (beq (code c) 46) (has_char 46 h) p in
    rw (cons-append c h ("." ^^ d), q.0, before-append h d q.1) refl

before_self : (h : String) → has_char b'.' h ≡ false → before b'.' h ≡ h
unfolding before has_char
before_self [] p = refl
before_self (c ∷ h) p =
    let q = or_false (beq (code c) 46) (has_char 46 h) p in rw (q.0, before_self h q.1) refl

short_choice :
    (h : String) (b : Bool) → (h == "") ≡ b → short_hostname (some h) ≡ some (before b'.' h)
unfolding short_hostname before
short_choice h true p = rw ((eq_iff h "").0 p) refl
short_choice h false p = rw p refl

shortened : (h : String) → short_hostname (some h) ≡ some (before b'.' h)
shortened h = short_choice h _ refl

-- the resolved host has the short name that was entered, or the request is refused with 400
abbrev pub Resolved : String → Result DeploymentAccessRequest → Type 0
Resolved host (ok r) = short_hostname r.ingress_host ≡ some host
Resolved host (err e) = status_code e ≡ 400

module _ ⦃env : Env⦄ (r : DeploymentAccessRequest) (host : String)
    (entered : r.ingress_host ≡ some host) where
  fitting_choice :
      (fits : Bool) (domain : String) (e : _)
      → has_char b'.' host ≡ false
      → status_code e ≡ 400
      → Resolved host
          (if fits then ok (record r { ingress_host = some (host ^^ "." ^^ domain) }) else err e)
  fitting_choice true domain e p q = shortened _ ∙ ap some (before-append host domain p)
  fitting_choice false domain e p q = q

  domain_choice :
      (bare : Bool) (domain : String)
      → has_char b'.' host ≡ false
      → (domain == "") ≡ bare
      → Resolved host (with_domain r host domain)
  unfolding with_domain status_code
  domain_choice true domain p b = rw (b, entered) (shortened host ∙ ap some (before_self host p))
  domain_choice false domain p b =
      rw b (fitting_choice (leb (size (host ^^ "." ^^ domain)) 253) domain _ p refl)

  based :
      (valid : Bool) (domain : String) (e : _)
      → has_char b'.' host ≡ false
      → status_code e ≡ 400
      → Resolved host ((if valid then err e else ok domain) >>= with_domain r host)
  based true domain e p q = q
  based false domain e p q = domain_choice _ domain p refl

  kept_choice :
      (existing : Option String) (kept : Bool)
      → has_char b'.' host ≡ false
      → keeps_host existing host ≡ kept
      → Resolved host (
          if kept
          then ok (record r { ingress_host = existing })
          else (base_domain >>= with_domain r host))
  unfolding base_domain status_code
  kept_choice none true p q = cc
  kept_choice (some x) true p q =
      shortened x ∙ ap some ((eq_iff (before b'.' x) host).0 (and_right _ _ q))
  kept_choice existing false p q = based _ _ _ p refl

  dotted_choice :
      (existing : Option String) (dotted : Bool) (e : _)
      → has_char b'.' host ≡ dotted
      → status_code e ≡ 400
      → Resolved host (
          if dotted
          then err e
          else (if keeps_host existing host
              then ok (record r { ingress_host = existing })
              else (base_domain >>= with_domain r host)))
  dotted_choice existing true e p q = q
  dotted_choice existing false e p q = kept_choice existing _ p refl

  -- Whatever the domain of the administrator and the host that the deployment had, a host that is
  -- resolved from a name has that name as its first label; all else is refused with status 400.
  pub resolve_hostname-Resolved :
      (existing : Option String)
      → (host == "") ≡ false
      → Resolved host (resolve_hostname r existing)
  unfolding resolve_hostname status_code
  resolve_hostname-Resolved existing p =
      rw (ap or_empty entered, p) (dotted_choice existing _ _ refl refl)
