-- ===== src/Rbac/Grants.antt =====
-- Which permissions the roles give, and what a check answers.
use universal_cross_shell_ex.Prelude.{
  ◌≡◌, ◌≢◌, ◌↔◌, ◌⊎◌, inl, inr, refl, sym, Bool, true, not, ◌||◌, ◌&&◌, ◌∙◌, and_iff, List, [], ◌∷◌,
  Option, any, all, keep, arith, In, here, there, In-of_any, any-of_In, All, all_iff, All-get,
  subst, ap, Bool-cases, or_iff, if◌then◌else◌,
}
use universal_cross_shell_ex.Prelude.Sets.{union, empty}
use universal_cross_shell_ex.Prelude.Result.{ok, err}
use universal_cross_shell_ex.Rbac.{
  Permission, admin_users, admin_config, admin_system, workflow_delete, PredefinedRole, viewer,
  operator, developer, security_admin, system_admin, Permissions, Roles, default_roles, User,
  add_roles, all_roles, user_permissions, has_permission, PredefinedRole-discrete, permissions_of,
  Permission-discrete, AccessContext,
}
use universal_cross_shell_ex.Rbac.Engine.{
  get_permissions, verify_any_permission, verify_all_permissions, answer_missing, answer_for,
  RbacDecorator, guard, Reason,
}

-- Some role of the set gives the permission.
abbrev pub Gives : Roles → Permission → Type 0
Gives roles p = (r : PredefinedRole) × (roles r ≡ true) × ((default_roles r).permissions p ≡ true)

-- What a union has, its left part has or its right.
added :
    (b : Bool) (s t : Permissions) (p : Permission)
    → (if b then union s t else s) p ≡ s p || (b && t p)
added b s t p = ground arith

add_roles-keeps :
    (roles : Roles) (rs : List PredefinedRole) (perms : Permissions) (p : Permission)
    → perms p ≡ true
    → add_roles roles rs perms p ≡ true
unfolding add_roles
add_roles-keeps roles [] perms p h = h
add_roles-keeps roles (r ∷ rs) perms p h =
    add_roles-keeps roles rs _ p (added (roles r) perms _ p ∙ rw h)

add_roles-of_In :
    (roles : Roles) {r : PredefinedRole} {rs : List PredefinedRole} (perms : Permissions)
    (p : Permission)
    → In r rs
    → roles r ≡ true
    → (default_roles r).permissions p ≡ true
    → add_roles roles rs perms p ≡ true
unfolding add_roles
add_roles-of_In roles {r} perms p (here {xs = rs}) h k =
    add_roles-keeps roles rs _ p (added (roles r) perms _ p ∙ ground (arith, h, k))
add_roles-of_In roles perms p (there i) h k = add_roles-of_In roles _ p i h k

add_roles-from :
    (roles : Roles) (rs : List PredefinedRole) (perms : Permissions) (p : Permission)
    → add_roles roles rs perms p ≡ true
    → (perms p ≡ true) ⊎ Gives roles p
unfolding add_roles
add_roles-from roles [] perms p h = inl h
add_roles-from roles (r ∷ rs) perms p h = elim (add_roles-from roles rs _ p h) [
  | inr g ↦ inr g
  | inl e ↦ elim ((or_iff (perms p) _).0 (sym (added (roles r) perms _ p) ∙ e)) [
    | inl k ↦ inl k
    | inr k ↦ let (a, b) = (and_iff (roles r) _).0 k in inr (r, a, b)
  ]
]

In-all_roles : (r : PredefinedRole) → In r all_roles
In-all_roles viewer = here
In-all_roles operator = there here
In-all_roles developer = there (there here)
In-all_roles security_admin = there (there (there here))
In-all_roles system_admin = there (there (there (there here)))

add_roles_iff :
    (roles : Roles) (perms : Permissions) (p : Permission)
    → (add_roles roles all_roles perms p ≡ true) ↔ ((perms p ≡ true) ⊎ Gives roles p)
add_roles_iff roles perms p = (
  add_roles-from roles all_roles perms p,
  (λ h. elim h [
    | inl e ↦ add_roles-keeps roles all_roles perms p e
    | inr (r, e, k) ↦ add_roles-of_In roles perms p (In-all_roles r) e k
  ]),
)

-- A user has a permission exactly when it is one of the custom ones or one of the roles gives it.
pub user_permissions_iff :
    (u : User) (p : Permission)
    → (user_permissions u p ≡ true) ↔ ((u.custom_permissions p ≡ true) ⊎ Gives u.roles p)
unfolding user_permissions
user_permissions_iff u p = add_roles_iff u.roles u.custom_permissions p

abbrev pub administration : List Permission
administration = workflow_delete ∷ admin_users ∷ admin_config ∷ admin_system ∷ []

abbrev lacks : PredefinedRole → Permission → Bool
lacks r p = not ((default_roles r).permissions p)

lacking : (r : PredefinedRole) → r ≢ system_admin → all (lacks r) administration ≡ true
unfolding default_roles permissions_of Permission-discrete
lacking viewer h = refl
lacking operator h = refl
lacking developer h = refl
lacking security_admin h = refl
lacking system_admin h = absurd (h refl)

system_admin-gives :
    {p : Permission} {r : PredefinedRole}
    → In p administration
    → (default_roles r).permissions p ≡ true
    → r ≡ system_admin
system_admin-gives {p} {r} i h = elim (PredefinedRole-discrete r system_admin) [
  | yes e ↦ e
  | no n ↦
      let l =
        All-get (λ p. lacks r p ≡ true) i ((all_iff (lacks r) administration).0 (lacking r n)) in
      ground arith
]

-- Least privilege: to delete a workflow and to administer users, configuration or system, a user
-- without custom permissions needs the role of the system administrator, and with it has each.
pub has_permission-administration :
    (u : User) {p : Permission}
    → u.custom_permissions ≡ empty
    → In p administration
    → (has_permission u p ≡ true) ↔ (u.roles system_admin ≡ true)
unfolding has_permission default_roles
has_permission-administration u {p} none_custom i = (
  (λ h. elim ((user_permissions_iff u p).0 h) [
    | inl e ↦ cc (e, ap (λ s. s p) none_custom)
    | inr (r, e, k) ↦ subst (λ r. u.roles r ≡ true) (system_admin-gives i k) e
  ]),
  (λ h. (user_permissions_iff u p).1 (inr (system_admin, h, refl))),
)

-- What a decorated function asks for.
abbrev pub Granted : RbacDecorator → AccessContext → Type 0
Granted d ctx =
    if d.require_all
    then All (λ p. get_permissions ctx p ≡ true) d.required_perms
    else (p : Permission) × In p d.required_perms × (get_permissions ctx p ≡ true)

missing_iff :
    (perms : Permissions) (ps : List Permission)
    → ((answer_missing (keep (λ p. not (perms p)) ps)).0 ≡ true) ↔ All (λ p. perms p ≡ true) ps
missing_iff perms [] = ((λ _. tt), (λ _. refl))
missing_iff perms (p ∷ ps) = elim (Bool-cases (perms p)) [
  | inl e ↦ rw e ((λ h. (refl, (missing_iff perms ps).0 h)), (λ h. (missing_iff perms ps).1 h.1))
  | inr e ↦ rw e ((λ h. cc), (λ h. cc (h.0)))
]

any_answer_iff :
    (ctx : AccessContext) (ps : List Permission)
    → ((verify_any_permission ctx ps).0 ≡ true) ↔ (any (get_permissions ctx) ps ≡ true)
unfolding verify_any_permission
any_answer_iff ctx ps = ground arith

any_iff :
    (perms : Permissions) (ps : List Permission)
    → (any perms ps ≡ true) ↔ ((p : Permission) × In p ps × (perms p ≡ true))
any_iff perms ps = (In-of_any perms ps, (λ h. any-of_In perms h.1 h.2))

answer_for_iff :
    (d : RbacDecorator) (ctx : AccessContext) → ((answer_for d ctx).0 ≡ true) ↔ Granted d ctx
unfolding verify_all_permissions
answer_for_iff d ctx = elim (Bool-cases d.require_all) [
  | inl e ↦ rw e (missing_iff (get_permissions ctx) d.required_perms)
  | inr e ↦ rw e (
    (λ h. (any_iff _ d.required_perms).0 ((any_answer_iff ctx d.required_perms).0 h)),
    (λ h. (any_answer_iff ctx d.required_perms).1 ((any_iff _ d.required_perms).1 h)),
  )
]

-- A decorated function is called, and its value returned, exactly when the context has what the
-- decorator asks for: all of the permissions, or one of them. Otherwise the call raises.
pub guard_iff :
    {A : Type 0} (d : RbacDecorator) (func : AccessContext → A) (ctx : AccessContext)
    → (Granted d ctx → guard d func ctx ≡ ok (func ctx))
      × (¬ Granted d ctx → (reason : Option Reason) × (guard d func ctx ≡ err reason))
unfolding guard
guard_iff d func ctx = (
  (λ h. rw ((answer_for_iff d ctx).1 h)),
  (λ n. elim (Bool-cases (answer_for d ctx).0) [
    | inl e ↦ absurd (n ((answer_for_iff d ctx).0 e))
    | inr e ↦ ((answer_for d ctx).1, rw e)
  ]),
)
