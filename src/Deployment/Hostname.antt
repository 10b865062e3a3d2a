-- ===== src/Deployment/Hostname.antt =====
-- services/deployment/hostname.py. The cluster is a parameter: the lookup of an ingress class and
-- the list of the existing Ingresses.
use triton_control.Prelude.{
  String, Bool, true, false, not, ◌&&◌, ◌||◌, Option, none, some, List, any, beq, lower, rstrip_by,
  has_char, or_empty, ◌^^◌, ◌==◌, if◌then◌else◌,
}
use Prim.Native.Char.{Char}
use Prim.Native.String.{[], ◌∷◌}
use triton_control.Errors.{AppError, Result, ok, err, conflict_error, uncaught, ◌>>=◌}

-- the answer of `read_ingress_class`, by what the program tells apart
pub data ClassLookup : Type 0 where
  found : (controller : String) → ClassLookup
  missing failed : ClassLookup

-- what the program reads of an Ingress
pub record Ingress : Type 0 where
  pub namespace : String
  pub name : String
  pub hosts : List (Option String)
  pub ingress_class_name : Option String
  pub class_annotation : Option String

abbrev traefik_controller : String
traefik_controller = "traefik.io/ingress-controller"

unfoldable pub may_share_controller : (String → ClassLookup) → String → Result Bool
may_share_controller read_class class_name = elim (read_class class_name) [
  | found c ↦ ok (c == traefik_controller)
  | missing ↦ ok true
  | failed ↦ err (uncaught "ApiException")
]

-- s[2:] of a text that starts with "*."
unfoldable pub wildcard_suffix : String → Option String
wildcard_suffix (a ∷ b ∷ s) = if (a ∷ b ∷ "") == "*." then some s else none
wildcard_suffix _ = none

abbrev pub prepend : Char → Option String → Option String
prepend c none = none
prepend c (some s) = some (c ∷ s)

-- s[: -len(suffix)] of a text that ends with it
unfoldable pub drop_suffix : String → String → Option String
drop_suffix suffix [] = if suffix == "" then some "" else none
drop_suffix suffix (c ∷ s) =
    let rest = drop_suffix suffix s in if (c ∷ s) == suffix then some "" else prepend c rest

-- a single label
abbrev pub is_single : Option String → Bool
is_single none = false
is_single (some label) = not (label == "") && not (has_char b'.' label)

-- the body of the loop of `hosts_overlap`
abbrev pub covers_suffix : Option String → String → Bool
covers_suffix none host = false
covers_suffix (some suffix) host = is_single (drop_suffix ("." ^^ suffix) host)

abbrev pub covers : (wildcard host : String) → Bool
covers wildcard host = covers_suffix (wildcard_suffix wildcard) host

abbrev pub dns_name : String → String
dns_name s = rstrip_by (beq b'.') (lower s)

abbrev pub overlap : (first second : String) → Bool
overlap first second =
    first == "" || second == "" || first == second || covers first second || covers second first

unfoldable pub hosts_overlap : (first second : String) → Bool
hosts_overlap first second = overlap (dns_name first) (dns_name second)

-- shared_classes
abbrev pub Classes : Type 0
Classes = List (String × Bool)

unfoldable pub cached : String → Classes → Option Bool
cached c List.[] = none
cached c (List.◌∷◌ (d, b) rest) = if d == c then some b else cached c rest

-- the class of a route; an empty one counts as none
abbrev pub route_class : Ingress → Option String
route_class i =
    if or_empty i.ingress_class_name == "" then i.class_annotation else i.ingress_class_name

-- existing_ingress == (metadata.namespace, metadata.name)
unfoldable pub is_existing : Option (String × String) → Ingress → Bool
is_existing none i = false
is_existing (some (n, m)) i = n == i.namespace && m == i.name

-- the route is not ours and accepts requests of the host
unfoldable pub overlaps : String → Option (String × String) → Ingress → Bool
unfolding is_existing hosts_overlap
overlaps host existing i =
    not (is_existing existing i) && any (λ h. hosts_overlap host (or_empty h)) i.hosts

-- the route names another class than ours
abbrev pub other_class : String → Ingress → Bool
other_class ingress_class i =
    let c = or_empty (route_class i) in not (c == "") && not (c == ingress_class)

abbrev pub overlap_error : AppError
overlap_error =
    conflict_error "This hostname overlaps an existing Ingress route. Choose a different hostname."

module _ (read_class : String → ClassLookup) where
  -- whether a class may share our controller, by the table of the classes that were asked
  unfoldable pub shares : String → Classes → Result (Bool × Classes)
  unfolding cached
  shares c classes = elim (cached c classes) [
    | some b ↦ ok (b, classes)
    | none ↦ may_share_controller read_class c >>= λ b. ok (b, List.◌∷◌ (c, b) classes)
  ]

  module _ (host ingress_class : String) (existing : Option (String × String)) where
    -- whether an Ingress conflicts, and the table behind it
    unfoldable pub conflicting : Ingress → Classes → Result (Bool × Classes)
    unfolding overlaps shares
    conflicting i classes =
        if overlaps host existing i
        then (if other_class ingress_class i
            then shares (or_empty (route_class i)) classes
            else ok (true, classes))
        else ok (false, classes)

    unfoldable pub check_each : List Ingress → Classes → Result (Unit {0})
    unfolding conflicting
    check_each List.[] classes = ok tt
    check_each (List.◌∷◌ i rest) classes =
        conflicting i classes >>= λ r. if r.0 then err overlap_error else check_each rest r.1

  -- the listing of the Ingresses may raise
  unfoldable pub validate_hostname_available :
      Option String → String → Option (String × String) → Result (List Ingress) → Result (Unit {0})
  unfolding check_each
  validate_hostname_available host ingress_class existing listed =
      if or_empty host == ""
      then ok tt
      else (listed >>= λ is. check_each (or_empty host) ingress_class existing is List.[])
