-- ===== src/Rbac.antt =====
-- core/rbac_system.py: permissions, roles, accounts and the engine that checks them.
pub mod Engine
pub mod Grants
pub mod Accounts
pub mod History
use universal_cross_shell_ex.Prelude.{
  ℕ, String, Bool, true, false, not, ◌&&◌, ◌||◌, List, [], ◌∷◌, ◌++◌, Option, none, some, any, all,
  keep, if◌then◌else◌,
}
use universal_cross_shell_ex.Prelude.Dict.{Dict, lookup, insert, update, has}
use universal_cross_shell_ex.Prelude.Sets.{SetOf, empty, union, of_list}
use universal_cross_shell_ex.Prelude.Result.{Result, ok, err}

pub data Permission : Type 0 where
  workflow_create workflow_read workflow_update workflow_delete workflow_execute workflow_stop :
      Permission
  execution_view execution_logs : Permission
  policy_read policy_create policy_update policy_delete : Permission
  audit_read audit_export secrets_read secrets_write : Permission
  admin_users admin_config admin_system : Permission

pub data PredefinedRole : Type 0 where
  viewer operator developer security_admin system_admin : PredefinedRole

unfoldable pub Permission-discrete : Discrete Permission
Permission-discrete = hlevel

unfoldable pub PredefinedRole-discrete : Discrete PredefinedRole
PredefinedRole-discrete = hlevel

abbrev pub Permissions : Type 0
Permissions = SetOf Permission

abbrev pub Roles : Type 0
Roles = SetOf PredefinedRole

unfoldable pub permissions_of : List Permission → Permissions
unfolding Permission-discrete
permissions_of = of_list Permission-discrete

unfoldable pub roles_of : List PredefinedRole → Roles
unfolding PredefinedRole-discrete
roles_of = of_list PredefinedRole-discrete

-- The resource limits are empty in every definition, and the descriptions are left out.
pub record RoleDefinition : Type 0 where
  pub name : String
  pub permissions : Permissions
  pub max_concurrent_executions : ℕ
  pub max_execution_duration_minutes : ℕ

-- `DEFAULT_ROLES`, which has an entry for each role.
unfoldable pub default_roles : PredefinedRole → RoleDefinition
unfolding permissions_of
default_roles viewer = record {
  name = "Viewer";
  permissions = permissions_of (workflow_read ∷ execution_view ∷ execution_logs ∷ audit_read ∷ []);
  max_concurrent_executions = 0;
  max_execution_duration_minutes = 0;
}
default_roles operator = record {
  name = "Operator";
  permissions = permissions_of (
      workflow_read ∷ workflow_execute ∷ workflow_stop ∷ execution_view ∷ execution_logs
      ∷ policy_read ∷ []);
  max_concurrent_executions = 5;
  max_execution_duration_minutes = 30;
}
default_roles developer = record {
  name = "Developer";
  permissions = permissions_of (
      workflow_create ∷ workflow_read ∷ workflow_update ∷ workflow_execute ∷ workflow_stop
      ∷ execution_view ∷ execution_logs ∷ policy_read ∷ secrets_read ∷ []);
  max_concurrent_executions = 10;
  max_execution_duration_minutes = 60;
}
default_roles security_admin = record {
  name = "Security Admin";
  permissions = permissions_of (
      policy_read ∷ policy_create ∷ policy_update ∷ policy_delete ∷ audit_read ∷ audit_export
      ∷ secrets_read ∷ secrets_write ∷ workflow_read ∷ execution_view ∷ []);
  max_concurrent_executions = 0;
  max_execution_duration_minutes = 0;
}
default_roles system_admin = record {
  name = "System Administrator";
  permissions = λ p. true;
  max_concurrent_executions = 100;
  max_execution_duration_minutes = 1440;
}

pub record User : Type 0 where
  pub user_id : String
  pub username : String
  pub email : String
  pub roles : Roles
  pub custom_permissions : Permissions
  pub is_active : Bool
  pub created_at : ℕ
  pub last_login : Option ℕ
  pub mfa_enabled : Bool
  pub mfa_secret : Option String

pub record ServiceAccount : Type 0 where
  pub account_id : String
  pub name : String
  pub roles : Roles
  pub api_key : String
  pub api_key_hash : String
  pub is_active : Bool
  pub created_at : ℕ
  pub last_used : Option ℕ
  pub allowed_origins : List String
  pub rate_limit : ℕ

abbrev pub all_roles : List PredefinedRole
all_roles = viewer ∷ operator ∷ developer ∷ security_admin ∷ system_admin ∷ []

-- `for role_name in roles: perms.update(DEFAULT_ROLES[role_name].permissions)`: the order in which a
-- set is read makes no difference to a union.
unfoldable pub add_roles : Roles → List PredefinedRole → Permissions → Permissions
unfolding default_roles
add_roles roles [] perms = perms
add_roles roles (r ∷ rs) perms =
    add_roles roles rs (if roles r then union perms (default_roles r).permissions else perms)

-- `User.get_all_permissions` and `ServiceAccount.get_all_permissions`
unfoldable pub user_permissions : User → Permissions
unfolding add_roles
user_permissions user = add_roles user.roles all_roles user.custom_permissions

unfoldable pub account_permissions : ServiceAccount → Permissions
unfolding add_roles
account_permissions account = add_roles account.roles all_roles empty

unfoldable pub has_permission : User → Permission → Bool
unfolding user_permissions
has_permission user perm = user_permissions user perm

unfoldable pub has_any_permission : User → List Permission → Bool
unfolding has_permission
has_any_permission user perms = any (has_permission user) perms

unfoldable pub has_all_permissions : User → List Permission → Bool
unfolding has_permission
has_all_permissions user perms = all (has_permission user) perms

pub record AccessContext : Type 0 where
  pub user : Option User
  pub service_account : Option ServiceAccount
  pub ip_address : String
  pub user_agent : String
  pub timestamp : ℕ
  pub request_id : String
