-- ===== src/Rbac/History.antt =====
-- Sequences of calls to the engine.
use universal_cross_shell_ex.Prelude.{
  ℕ, String, ◌≡◌, ◌⊎◌, inl, inr, refl, ◌∙◌, ap, true, false, List, [], ◌∷◌, Option, some,
  Bool-cases, if◌then◌else◌,
}
use universal_cross_shell_ex.Prelude.Dict.{lookup, has, is_some, same, same→eq, lookup-insert}
use universal_cross_shell_ex.Rbac.{PredefinedRole, User}
use universal_cross_shell_ex.Rbac.Engine.{
  RbacEngine, create_user, create_service_account, change_user, grant_role, revoke_role,
  deactivate_user, new_user, add_role, discard_role, deactivate,
}
use universal_cross_shell_ex.Rbac.Accounts.{change_user-lookup}

-- A call that changes the engine, with its arguments.
pub data Call : Type 0 where
  create : ℕ → (user_id username email : String) → Option (List PredefinedRole) → Call
  create_account :
      (sha256 : String → String)
      → (api_key : String) → ℕ
      → (account_id name : String) → Option (List PredefinedRole)
      → Call
  grant revoke : String → PredefinedRole → Call
  disable : String → Call

unfoldable pub perform : Call → RbacEngine → RbacEngine
unfolding create_user create_service_account grant_role revoke_role deactivate_user
perform (create now user_id username email roles) e =
    (create_user now user_id username email roles e).1
perform (create_account sha256 api_key now account_id name roles) e =
    (create_service_account sha256 api_key now account_id name roles e).1
perform (grant user_id role) e = (grant_role user_id role e).1
perform (revoke user_id role) e = (revoke_role user_id role e).1
perform (disable user_id) e = (deactivate_user user_id e).1

unfoldable pub perform_all : List Call → RbacEngine → RbacEngine
unfolding perform
perform_all [] e = e
perform_all (c ∷ cs) e = perform_all cs (perform c e)

-- What no call changes of a user: identifier, name and custom permissions; and a user that is
-- deactivated stays so.
pub record Follows (u v : User) : Type 0 where
  pub same_id : v.user_id ≡ u.user_id
  pub same_name : v.username ≡ u.username
  pub same_custom : v.custom_permissions ≡ u.custom_permissions
  pub stays_inactive : u.is_active ≡ false → v.is_active ≡ false

Follows-refl : (u : User) → Follows u u
Follows-refl u = record {
  same_id = refl;
  same_name = refl;
  same_custom = refl;
  stays_inactive = λ h. h;
}

Follows-trans : {u v x : User} → Follows u v → Follows v x → Follows u x
Follows-trans a b = record {
  same_id = b.same_id ∙ a.same_id;
  same_name = b.same_name ∙ a.same_name;
  same_custom = b.same_custom ∙ a.same_custom;
  stays_inactive = λ h. b.stays_inactive (a.stays_inactive h);
}

-- A user that follows the given one is stored under the identifier.
abbrev pub Kept : String → User → RbacEngine → Type 0
Kept k u e = (v : User) × (lookup k e.users ≡ some v) × Follows u v

change_user-Kept :
    (j : String) (f : User → User) (e : RbacEngine) (k : String) {u : User}
    → ((v : User) → Follows v (f v))
    → lookup k e.users ≡ some u
    → Kept k u (change_user j f e).1
change_user-Kept j f e k {u} g h = elim (Bool-cases (same j k)) [
  | inl q ↦ (f u, change_user-lookup j f e k ∙ rw (q, h), g u)
  | inr q ↦ (u, change_user-lookup j f e k ∙ rw q h, Follows-refl u)
]

create_user-lookup :
    (now : ℕ) (j name email : String) (roles : Option (List PredefinedRole)) (e : RbacEngine)
    (k : String) {u : User}
    → lookup k e.users ≡ some u
    → lookup k (create_user now j name email roles e).1.users ≡ some u
unfolding create_user has
create_user-lookup now j name email roles e k {u} h = elim (Bool-cases (has j e.users)) [
  | inl q ↦ rw q h
  | inr q ↦
      let v = new_user now j name email roles in
      rw q (lookup-insert j k v e.users ∙ other q (Bool-cases (same j k)))
]
  where
    other :
        is_some (lookup j e.users) ≡ false
        → (same j k ≡ true) ⊎ (same j k ≡ false)
        → (if same j k then some (new_user now j name email roles) else lookup k e.users) ≡ some u
    other q (inl s) = cc (q, ap (λ i. is_some (lookup i e.users)) (same→eq j k s), ap is_some h)
    other q (inr s) = rw s h

create_service_account-lookup :
    (sha256 : String → String) (api_key : String) (now : ℕ) (j name : String)
    (roles : Option (List PredefinedRole)) (e : RbacEngine) (k : String)
    → lookup k (create_service_account sha256 api_key now j name roles e).1.users ≡ lookup k e.users
unfolding create_service_account
create_service_account-lookup sha256 api_key now j name roles e k =
    elim (Bool-cases (has j e.service_accounts)) [ inl q ↦ rw q | inr q ↦ rw q ]

perform-Kept :
    (c : Call) (e : RbacEngine) (k : String) {u : User}
    → lookup k e.users ≡ some u
    → Kept k u (perform c e)
unfolding perform create_user create_service_account grant_role revoke_role deactivate_user has
perform-Kept (create now j name email roles) e k {u} h =
    (u, create_user-lookup now j name email roles e k h, Follows-refl u)
perform-Kept (create_account sha256 api_key now j name roles) e k {u} h =
    (u, create_service_account-lookup sha256 api_key now j name roles e k ∙ h, Follows-refl u)
perform-Kept (grant j role) e k h =
    change_user-Kept j (add_role role) e k
      (λ v. record {
        same_id = refl;
        same_name = refl;
        same_custom = refl;
        stays_inactive = λ h. h;
      })
      h
perform-Kept (revoke j role) e k h =
    change_user-Kept j (discard_role role) e k
      (λ v. record {
        same_id = refl;
        same_name = refl;
        same_custom = refl;
        stays_inactive = λ h. h;
      })
      h
perform-Kept (disable j) e k h =
    change_user-Kept j deactivate e k
      (λ v. record {
        same_id = refl;
        same_name = refl;
        same_custom = refl;
        stays_inactive = λ _. refl;
      })
      h

-- Whatever is called afterwards, a user stays in the engine under its identifier, with its name and
-- custom permissions, and a deactivated user is never active again.
pub perform_all-Kept :
    (cs : List Call) (e : RbacEngine) (k : String) {u : User}
    → lookup k e.users ≡ some u
    → Kept k u (perform_all cs e)
unfolding perform_all
perform_all-Kept [] e k {u} h = (u, h, Follows-refl u)
perform_all-Kept (c ∷ cs) e k h =
    let (v, i, f) = perform-Kept c e k h in
    let (x, j, g) = perform_all-Kept cs (perform c e) k i in (x, j, Follows-trans f g)
