-- ===== src/Access.antt =====
-- core/access_control.py: the claims of a caller and the guards on the role.
use triton_control.Prelude.{ℕ, String, Bool, not, ◌||◌, Option, or_empty, normal, ◌==◌}
use triton_control.Errors.{forbidden_error}
use triton_control.Store.Session.{Action, raise_if}

-- The entries of the claims dictionary that the backend reads; a missing key is `none`.
pub record Claims : Type 0 where
  pub sub : Option String
  pub email : Option String
  pub preferred_username : Option String
  pub name : Option String
  pub role : Option String
  pub auth_provider : Option String
  pub token_use : Option String
  pub credential_version : Option ℕ
  pub user_id : Option ℕ
  pub access_allowed : Option Bool

-- `_role`
unfoldable pub role_of : Claims → String
role_of claims = normal (or_empty claims.role)

unfoldable pub is_admin : Claims → Bool
unfolding role_of
is_admin claims = role_of claims == "admin"

unfoldable pub is_member_or_admin : Claims → Bool
unfolding role_of
is_member_or_admin claims = role_of claims == "admin" || role_of claims == "member"

unfoldable pub require_admin : Claims → Action (Unit {0})
require_admin claims = raise_if (not (is_admin claims)) (forbidden_error "Admin role required")

unfoldable pub require_member_or_admin : Claims → Action (Unit {0})
require_member_or_admin claims =
    raise_if (not (is_member_or_admin claims)) (forbidden_error "Member or admin role required")
