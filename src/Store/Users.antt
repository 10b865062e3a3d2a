-- ===== src/Store/Users.antt =====
-- repositories/users.py: queries on the table `users`. A commit that would break the uniqueness of
-- `email` raises SQLAlchemy's `IntegrityError`.
use triton_control.Prelude.{
  ℕ, suc, String, Bool, false, ◌&&◌, Option, none, some, List, [], ◌∷◌, ◌++◌, beq, leb, any, find,
  select, update_where, length, truthy, normal, not, ◌==◌, if◌then◌else◌,
}
use triton_control.Errors.{ok, uncaught}
use triton_control.Store.Data.{UserEntity, AccountLifecycleTokenEntity}
use triton_control.Store.Session.{Action, pure, gets, modify, ◌>>=◌, ◌>>◌, raise_if}

abbrev pub has_id : ℕ → UserEntity → Bool
has_id i u = beq u.id i

abbrev pub has_email : String → UserEntity → Bool
has_email e u = u.email == e

abbrev pub has_subject : String → UserEntity → Bool
has_subject s u = elim u.oidc_subject [ none ↦ false | some t ↦ t == s ]

unfoldable pub count : Action ℕ
count = gets λ w. length w.users

unfoldable pub find_by_id : ℕ → Action (Option UserEntity)
find_by_id i = gets λ w. find (has_id i) w.users

unfoldable pub find_by_email : String → Action (Option UserEntity)
find_by_email e = gets λ w. find (has_email e) w.users

unfoldable pub find_by_oidc_subject : String → Action (Option UserEntity)
find_by_oidc_subject s = gets λ w. find (has_subject s) w.users

-- ordered by `created_at`, the newest first
insert_newest : UserEntity → List UserEntity → List UserEntity
insert_newest u [] = u ∷ []
insert_newest u (v ∷ vs) =
    if leb v.created_at u.created_at then u ∷ v ∷ vs else v ∷ insert_newest u vs

newest_first : List UserEntity → List UserEntity
newest_first [] = []
newest_first (u ∷ us) = insert_newest u (newest_first us)

unfoldable pub list_all : Action (List UserEntity)
unfolding insert_newest newest_first
list_all = gets λ w. newest_first w.users

abbrev pub is_admin_row : UserEntity → Bool
is_admin_row u = normal u.role == "admin"

unfoldable pub has_any_admin : Action Bool
has_any_admin = gets λ w. any is_admin_row w.users

abbrev pub is_local_admin_login : UserEntity → Bool
is_local_admin_login u =
    normal u.auth_provider == "local" && truthy u.password_hash && u.is_active && is_admin_row u

unfoldable pub has_active_local_admin_login : Action Bool
has_active_local_admin_login = gets λ w. any is_local_admin_login w.users

-- An UPDATE of the row with this id.
unfoldable pub save : UserEntity → Action UserEntity
save u w = (ok u, record w { users = update_where (has_id u.id) (λ _. u) w.users })

-- An INSERT: the table hands out the id.
unfoldable pub create :
    (email name role auth_provider : String) (password_hash oidc_subject : Option String)
    → List String
    → Bool
    → Action UserEntity
create email name role provider hash subject assigned active = do
  raise_if (← gets λ w. any (has_email email) w.users) (uncaught "IntegrityError")
  i ← gets λ w. w.next_user_id
  t ← gets λ w. w.now
  let row : UserEntity = record {
    id = i;
    email = email;
    name = name;
    role = role;
    auth_provider = provider;
    password_hash = hash;
    oidc_subject = subject;
    assigned_instances = assigned;
    is_active = active;
    credential_version = 0;
    created_at = t;
  }
  modify λ w. record w { users = w.users ++ row ∷ []; next_user_id = suc i }
  pure row

abbrev pub issued_by : ℕ → AccountLifecycleTokenEntity → Bool
issued_by i t = elim t.created_by_user_id [ none ↦ false | some j ↦ beq j i ]

-- The tokens of the account go, and those that it issued forget it.
unfoldable pub delete : UserEntity → Action (Unit {0})
delete u = modify λ w. record w {
  users = select (λ v. not (has_id u.id v)) w.users;
  tokens =
      update_where (issued_by u.id) (λ t. record t { created_by_user_id = none })
        (select (λ t. not (beq t.user_id u.id)) w.tokens);
}
