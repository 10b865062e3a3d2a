-- ===== src/UserAdmin.antt =====
-- services/users.py with mappers/user.py: user management by administrators; services/access.py:
-- the guard on single instances.
use triton_control.Prelude.{
  ℕ, String, Bool, true, false, not, List, map, any, beq, find, one_of, truthy, if◌then◌else◌,
}
use triton_control.Errors.{not_found_error, forbidden_error}
use triton_control.Env.{Env}
use triton_control.Store.Data.{UserEntity, TritonInstanceEntity}
use triton_control.Store.Users
use triton_control.Store.Tokens
use triton_control.Store.Session.{Action, pure, gets, require, raise_if, ◌>>=◌, ◌>>◌}
use triton_control.Access.{Claims, is_admin, require_admin}
use triton_control.Identity.{require_user_entity}

-- `UserDTO`; the status is `account_status`
pub record UserDto : Type 0 where
  pub row : UserEntity
  pub account_status : String

unfoldable pub user_entity_to_dto : UserEntity → Bool → UserDto
user_entity_to_dto entity invitation_pending = record {
  row = entity;
  account_status =
      if entity.is_active
      then "active"
      else if invitation_pending
      then "invitation_pending"
      else if truthy entity.password_hash
      then "approval_pending"
      else "inactive";
}

unfoldable pub get_user_or_404 : ℕ → Action UserEntity
get_user_or_404 user_id = do
  found ← Users.find_by_id user_id
  require found (not_found_error "User not found")

unfoldable pub list_users : Claims → Action (List UserDto)
list_users claims = do
  require_admin claims
  pending ← Tokens.list_user_ids_with_pending_invitations
  rows ← Users.list_all
  pure (map (λ row. user_entity_to_dto row (any (beq row.id) pending)) rows)

unfoldable pub delete_user : Claims → ℕ → Action (Unit {0})
delete_user claims user_id = do
  require_admin claims
  row ← get_user_or_404 user_id
  Users.delete row

unfoldable pub update_user_instances : Claims → ℕ → List String → Action UserDto
update_user_instances claims user_id assigned_instances = do
  require_admin claims
  row ← get_user_or_404 user_id
  saved ← Users.save (record row { assigned_instances = assigned_instances })
  pure (user_entity_to_dto saved false)

-- The role comes from the request, where `UpdateUserRoleRequest` has normalised it.
unfoldable pub update_user_role : Claims → ℕ → String → Action UserDto
update_user_role claims user_id role = do
  require_admin claims
  row ← get_user_or_404 user_id
  saved ← Users.save (record row { role = role; is_active = true })
  pure (user_entity_to_dto saved false)

module _ ⦃env : Env⦄ where
  unfoldable pub ensure_instance_access : Claims → String → Action (Unit {0})
  ensure_instance_access claims instance_name = if is_admin claims then pure tt else do
    user ← require_user_entity claims
    raise_if (not (one_of instance_name user.assigned_instances))
        (forbidden_error "Instance access denied")

  -- with the claims of a caller
  unfoldable pub get_instance_or_404 : ℕ → Claims → Action TritonInstanceEntity
  get_instance_or_404 instance_id claims = do
    found ← gets λ w. find (λ (i : TritonInstanceEntity). beq i.id instance_id) w.instances
    row ← require found (not_found_error "Instance not found")
    ensure_instance_access claims row.name
    pure row
