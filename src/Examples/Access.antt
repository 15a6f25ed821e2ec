-- ===== src/Examples/Access.antt =====
-- Roles and accounts.
use universal_cross_shell_ex.Prelude.{
  String, ◌≡◌, ◌≢◌, ◌↔◌, ◌⊎◌, refl, true, false, [], ◌∷◌, Option, none, some, here,
}
use universal_cross_shell_ex.Prelude.Dict.{lookup, has}
use universal_cross_shell_ex.Prelude.Result.{ok, err}
use universal_cross_shell_ex.Rbac.{
  Permission, workflow_execute, workflow_delete, workflow_read, policy_read, operator, developer,
  system_admin, default_roles, User, user_permissions, has_permission, AccessContext,
}
use universal_cross_shell_ex.Rbac.Engine.{
  RbacEngine, already_exists, new_user, roles_or_viewer, create_user, grant_role, revoke_role,
  deactivate_user, Reason, RbacDecorator, guard,
}
use universal_cross_shell_ex.Rbac.Grants.{
  Gives, Granted, user_permissions_iff, has_permission-administration, guard_iff,
}
use universal_cross_shell_ex.Rbac.Accounts.{
  Remains, grant_role_lem, revoke_role_lem, deactivate_user_lem, create_user_lem,
}
use universal_cross_shell_ex.Rbac.History.{Kept, grant, disable, perform_all, perform_all-Kept}

abbrev alice : User
alice = new_user 0 "u1" "alice" "alice@example.com" (some (operator ∷ []))

abbrev engine : RbacEngine
engine = record { users = ("u1", alice) ∷ []; service_accounts = [] }

user_permissions_iff_test :
    (user_permissions alice workflow_execute ≡ true)
    ↔ ((alice.custom_permissions workflow_execute ≡ true) ⊎ Gives alice.roles workflow_execute)
user_permissions_iff_test = user_permissions_iff alice workflow_execute

has_permission-administration_test :
    (has_permission alice workflow_delete ≡ true) ↔ (alice.roles system_admin ≡ true)
has_permission-administration_test = has_permission-administration alice refl here

abbrev request : AccessContext
request = record {
  user = some alice;
  service_account = none;
  ip_address = "";
  user_agent = "";
  timestamp = 0;
  request_id = "r1";
}

abbrev reading : RbacDecorator
reading = record { required_perms = workflow_read ∷ policy_read ∷ []; require_all = true }

guard_iff_example :
    (Granted reading request → guard reading (λ c. c.request_id) request ≡ ok "r1")
    × (¬ Granted reading request
        → (reason : Option Reason) × (guard reading (λ c. c.request_id) request ≡ err reason))
guard_iff_example = guard_iff reading (λ c. c.request_id) request

grant_role_lem_test :
    let (b, e') = grant_role "u1" developer engine in
    (b ≡ true)
    × ((u' : User) × (lookup "u1" e'.users ≡ some u')
        × ((p : Permission)
            → (user_permissions u' p ≡ true) ↔ (
                (user_permissions alice p ≡ true)
                ⊎ ((default_roles developer).permissions p ≡ true))))
    × ((j : String) → "u1" ≢ j → lookup j e'.users ≡ lookup j engine.users)
unfolding lookup
grant_role_lem_test = grant_role_lem "u1" developer engine alice refl

revoke_role_lem_test :
    let (b, e') = revoke_role "u1" operator engine in
    (b ≡ true)
    × ((u' : User) × (lookup "u1" e'.users ≡ some u')
        × ((p : Permission) → (user_permissions u' p ≡ true) ↔ Remains operator alice p))
    × ((j : String) → "u1" ≢ j → lookup j e'.users ≡ lookup j engine.users)
unfolding lookup
revoke_role_lem_test = revoke_role_lem "u1" operator engine alice refl

deactivate_user_lem_test :
    let (b, e') = deactivate_user "u1" engine in
    (b ≡ true)
    × ((u' : User) × (lookup "u1" e'.users ≡ some u')
        × (u'.is_active ≡ false)
        × ((p : Permission) → user_permissions u' p ≡ user_permissions alice p))
    × ((j : String) → "u1" ≢ j → lookup j e'.users ≡ lookup j engine.users)
unfolding lookup
deactivate_user_lem_test = deactivate_user_lem "u1" engine alice refl

abbrev bob : User
bob = new_user 1 "u2" "bob" "bob@example.com" none

create_user_lem_test :
    let (r, e') = create_user 1 "u2" "bob" "bob@example.com" none engine in
    (has "u2" engine.users ≡ true → (r ≡ err (already_exists "u2")) × (e' ≡ engine))
    × (has "u2" engine.users ≡ false
        → (r ≡ ok bob)
          × (lookup "u2" e'.users ≡ some bob)
          × ((p : Permission) → (user_permissions bob p ≡ true) ↔ Gives (roles_or_viewer none) p)
          × ((j : String) → "u2" ≢ j → lookup j e'.users ≡ lookup j engine.users))
create_user_lem_test = create_user_lem 1 "u2" "bob" "bob@example.com" none engine

perform_all-Kept_example :
    Kept "u1" alice (perform_all (disable "u1" ∷ grant "u1" developer ∷ []) engine)
unfolding lookup
perform_all-Kept_example =
    perform_all-Kept (disable "u1" ∷ grant "u1" developer ∷ []) engine "u1" refl
