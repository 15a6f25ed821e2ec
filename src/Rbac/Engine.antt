-- ===== src/Rbac/Engine.antt =====
-- `AccessContext`, `RBACEngine` and `RBACDecorator`. A context holds its user as the user stands when
-- the context is checked.
use universal_cross_shell_ex.Prelude.{
  ℕ, String, Bool, true, false, not, List, [], ◌∷◌, Option, none, some, any, keep, if◌then◌else◌,
}
use universal_cross_shell_ex.Prelude.Dict.{Dict, insert, update, has}
use universal_cross_shell_ex.Prelude.Sets.{empty, insert as add, discard}
use universal_cross_shell_ex.Prelude.Result.{Result, ok, err}
use universal_cross_shell_ex.Rbac.{
  Permission, PredefinedRole, viewer, PredefinedRole-discrete, Permissions, Roles, roles_of, User,
  ServiceAccount, user_permissions, account_permissions, AccessContext,
}

-- The string for the log, before it is formatted.
pub data Identity : Type 0 where
  of_user of_service : String → Identity
  unknown : Identity

abbrev pub identify : Option User → Option ServiceAccount → Identity
identify (some u) a = of_user u.username
identify none (some a) = of_service a.name
identify none none = unknown

unfoldable pub get_identity : AccessContext → Identity
get_identity ctx = identify ctx.user ctx.service_account

abbrev pub permissions_from : Option User → Option ServiceAccount → Permissions
permissions_from (some u) a = user_permissions u
permissions_from none (some a) = account_permissions a
permissions_from none none = empty

unfoldable pub get_permissions : AccessContext → Permissions
get_permissions ctx = permissions_from ctx.user ctx.service_account

-- `RBACEngine`. Its copy of the roles is never read.
pub record RbacEngine : Type 0 where
  pub users : Dict User
  pub service_accounts : Dict ServiceAccount

-- `set(roles or [PredefinedRole.VIEWER])`
abbrev pub roles_or_viewer : Option (List PredefinedRole) → Roles
roles_or_viewer none = roles_of (viewer ∷ [])
roles_or_viewer (some []) = roles_of (viewer ∷ [])
roles_or_viewer (some (r ∷ rs)) = roles_of (r ∷ rs)

pub data ValueError : Type 0 where
  already_exists : String → ValueError

abbrev pub new_user :
    (now : ℕ) (user_id username email : String) → Option (List PredefinedRole) → User
new_user now user_id username email roles = record {
  user_id = user_id;
  username = username;
  email = email;
  roles = roles_or_viewer roles;
  custom_permissions = empty;
  is_active = true;
  created_at = now;
  last_login = none;
  mfa_enabled = false;
  mfa_secret = none;
}

unfoldable pub create_user :
    (now : ℕ) (user_id username email : String)
    → Option (List PredefinedRole)
    → RbacEngine
    → Result ValueError User × RbacEngine
unfolding has insert
create_user now user_id username email roles e =
    let u = new_user now user_id username email roles in
    if has user_id e.users
    then (err (already_exists user_id), e)
    else (ok u, record e { users = insert user_id u e.users })

abbrev pub new_account :
    (now : ℕ) (account_id name hash : String) → Option (List PredefinedRole) → ServiceAccount
new_account now account_id name hash roles = record {
  account_id = account_id;
  name = name;
  roles = roles_or_viewer roles;
  api_key = "";
  api_key_hash = hash;
  is_active = true;
  created_at = now;
  last_used = none;
  allowed_origins = [];
  rate_limit = 1000;
}

-- `sha256` is the hash of hashlib and `api_key` the token drawn from `secrets`.
unfoldable pub create_service_account :
    (sha256 : String → String) (api_key : String) (now : ℕ) (account_id name : String)
    → Option (List PredefinedRole)
    → RbacEngine
    → Result ValueError (ServiceAccount × String) × RbacEngine
unfolding has insert
create_service_account sha256 api_key now account_id name roles e =
    let a = new_account now account_id name (sha256 api_key) roles in
    if has account_id e.service_accounts
    then (err (already_exists account_id), e)
    else (ok (a, api_key), record e { service_accounts = insert account_id a e.service_accounts })

pub data Reason : Type 0 where
  required : Permission → Reason
  one_of_required all_required : List Permission → Reason
  deactivated : Reason

abbrev pub Answer : Type 0
Answer = Bool × Option Reason

unfoldable pub verify_permission : AccessContext → Permission → Answer
unfolding get_permissions
verify_permission ctx required_perm =
    if not (get_permissions ctx required_perm)
    then (false, some (required required_perm))
    else (true, none)

unfoldable pub verify_any_permission : AccessContext → List Permission → Answer
unfolding get_permissions
verify_any_permission ctx required_perms =
    if not (any (get_permissions ctx) required_perms)
    then (false, some (one_of_required required_perms))
    else (true, none)

abbrev pub answer_missing : List Permission → Answer
answer_missing [] = (true, none)
answer_missing (p ∷ ps) = (false, some (all_required (p ∷ ps)))

unfoldable pub verify_all_permissions : AccessContext → List Permission → Answer
unfolding get_permissions
verify_all_permissions ctx required_perms =
    answer_missing (keep (λ p. not (get_permissions ctx p)) required_perms)

abbrev pub change_user : String → (User → User) → RbacEngine → Bool × RbacEngine
change_user user_id f e =
    if not (has user_id e.users)
    then (false, e)
    else (true, record e { users = update user_id f e.users })

abbrev pub add_role : PredefinedRole → User → User
add_role role u = record u { roles = add PredefinedRole-discrete role u.roles }

abbrev pub discard_role : PredefinedRole → User → User
discard_role role u = record u { roles = discard PredefinedRole-discrete role u.roles }

abbrev pub deactivate : User → User
deactivate u = record u { is_active = false }

unfoldable pub grant_role : String → PredefinedRole → RbacEngine → Bool × RbacEngine
unfolding has update PredefinedRole-discrete
grant_role user_id role e = change_user user_id (add_role role) e

unfoldable pub revoke_role : String → PredefinedRole → RbacEngine → Bool × RbacEngine
unfolding has update PredefinedRole-discrete
revoke_role user_id role e = change_user user_id (discard_role role) e

unfoldable pub deactivate_user : String → RbacEngine → Bool × RbacEngine
unfolding has update
deactivate_user user_id e = change_user user_id deactivate e

unfoldable pub check_user_active : User → Answer
check_user_active u = if not u.is_active then (false, some deactivated) else (true, none)

pub record RbacDecorator : Type 0 where
  pub required_perms : List Permission
  pub require_all : Bool

abbrev pub answer_for : RbacDecorator → AccessContext → Answer
answer_for d ctx =
    if d.require_all
    then verify_all_permissions ctx d.required_perms
    else verify_any_permission ctx d.required_perms

-- `RBACDecorator.__call__`: the permission error carries the reason, and the wrapped function is a
-- function of the context.
unfoldable pub guard :
    {A : Type 0} → RbacDecorator → (AccessContext → A) → AccessContext → Result (Option Reason) A
unfolding verify_all_permissions verify_any_permission
guard d func ctx =
    let (allowed, reason) = answer_for d ctx in if not allowed then err reason else ok (func ctx)
