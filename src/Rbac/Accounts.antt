-- ===== src/Rbac/Accounts.antt =====
-- What the operations of the engine change, one by one and in sequence.
use universal_cross_shell_ex.Prelude.{
  ℕ, String, ◌≡◌, ◌≢◌, ◌↔◌, ◌⊎◌, inl, inr, refl, subst, ◌∙◌, true, false, not, List, Option, none,
  some, Bool-cases, or_iff, and_iff, if◌then◌else◌,
}
use universal_cross_shell_ex.Prelude.Dict.{
  lookup, has, is_some, same, same_refl, same→eq, same-eq_false, map_at, lookup-update,
  lookup-insert_ne, lookup-insert_self,
}
use universal_cross_shell_ex.Prelude.Sets.{test, test_iff}
use universal_cross_shell_ex.Prelude.Result.{ok, err}
use universal_cross_shell_ex.Rbac.{
  Permission, PredefinedRole, PredefinedRole-discrete, default_roles, User, user_permissions,
}
use universal_cross_shell_ex.Rbac.Engine.{
  RbacEngine, already_exists, new_user, create_user, change_user, add_role, roles_or_viewer,
  discard_role, deactivate, grant_role, revoke_role, deactivate_user,
}
use universal_cross_shell_ex.Rbac.Grants.{Gives, user_permissions_iff}

map_at-absent : (f : User → User) (o : Option User) → is_some o ≡ false → o ≡ map_at f o
map_at-absent f none h = refl
map_at-absent f (some u) h = cc

-- The user of an identifier after a change of one user.
pub change_user-lookup :
    (k : String) (f : User → User) (e : RbacEngine) (j : String)
    → lookup j (change_user k f e).1.users
      ≡ (if same k j then map_at f (lookup j e.users) else lookup j e.users)
unfolding has
change_user-lookup k f e j = elim (Bool-cases (is_some (lookup k e.users))) [
  | inl h ↦ rw h (lookup-update k j f e.users)
  | inr h ↦ rw h (unchanged h (Bool-cases (same k j)))
]
  where
    unchanged :
        is_some (lookup k e.users) ≡ false
        → (same k j ≡ true) ⊎ (same k j ≡ false)
        → lookup j e.users ≡ (if same k j then map_at f (lookup j e.users) else lookup j e.users)
    unchanged h (inr q) = rw q
    unchanged h (inl q) = rw q (
        map_at-absent f (lookup j e.users)
          (subst (λ i. is_some (lookup i e.users) ≡ false) (same→eq k j q) h))

change_user-own :
    (k : String) (f : User → User) (e : RbacEngine) {u : User}
    → lookup k e.users ≡ some u
    → lookup k (change_user k f e).1.users ≡ some (f u)
change_user-own k f e h = change_user-lookup k f e k ∙ rw (same_refl k, h)

grant_role-permissions :
    (role : PredefinedRole) (u : User) (p : Permission)
    → (user_permissions (add_role role u) p ≡ true)
      ↔ ((user_permissions u p ≡ true) ⊎ ((default_roles role).permissions p ≡ true))
grant_role-permissions role u p = (
  (λ h. elim ((user_permissions_iff (add_role role u) p).0 h) [
    | inl c ↦ inl ((user_permissions_iff u p).1 (inl c))
    | inr (r, e, k) ↦ elim ((or_iff (test (PredefinedRole-discrete r role)) _).0 e) [
      | inl q ↦ inr (subst (λ r. (default_roles r).permissions p ≡ true) ((test_iff _).0 q) k)
      | inr q ↦ inl ((user_permissions_iff u p).1 (inr (r, q, k)))
    ]
  ]),
  (λ h. (user_permissions_iff (add_role role u) p).1 (elim h [
    | inl e ↦ elim ((user_permissions_iff u p).0 e) [
      | inl c ↦ inl c
      | inr (r, q, k) ↦ inr (r, (or_iff _ (u.roles r)).1 (inr q), k)
    ]
    | inr k ↦ inr (role, (or_iff _ (u.roles role)).1 (inl ((test_iff _).1 refl)), k)
  ])),
)

-- `grant_role` on a user of the engine succeeds, and afterwards that user has the permissions it had
-- and those of the role, and no other; every other user stays as it was.
pub grant_role_lem :
    (k : String) (role : PredefinedRole) (e : RbacEngine) (u : User)
    → lookup k e.users ≡ some u
    → let (b, e') = grant_role k role e in
      (b ≡ true)
      × ((u' : User) × (lookup k e'.users ≡ some u')
          × ((p : Permission)
              → (user_permissions u' p ≡ true)
                ↔ ((user_permissions u p ≡ true) ⊎ ((default_roles role).permissions p ≡ true))))
      × ((j : String) → k ≢ j → lookup j e'.users ≡ lookup j e.users)
unfolding grant_role has
grant_role_lem k role e u h = (
  rw h,
  (add_role role u, change_user-own k (add_role role) e h, grant_role-permissions role u),
  (λ j n. change_user-lookup k (add_role role) e j ∙ rw (same-eq_false k j n)),
)

-- What a user still has without the role: the custom permissions and those of the other roles.
abbrev pub Remains : PredefinedRole → User → Permission → Type 0
Remains role u p =
    (u.custom_permissions p ≡ true)
    ⊎ ((r : PredefinedRole) × (r ≢ role)
        × (u.roles r ≡ true)
        × ((default_roles r).permissions p ≡ true))

test-no : {P : Type 0} (d : Dec P) → (not (test d) ≡ true) ↔ (¬ P)
test-no (yes a) = ((λ h. cc), (λ n. absurd (n a)))
test-no (no n) = ((λ _. n), (λ _. refl))

revoke_role-permissions :
    (role : PredefinedRole) (u : User) (p : Permission)
    → (user_permissions (discard_role role u) p ≡ true) ↔ Remains role u p
revoke_role-permissions role u p = (
  (λ h. elim ((user_permissions_iff (discard_role role u) p).0 h) [
    | inl c ↦ inl c
    | inr (r, e, k) ↦
        let (a, b) = (and_iff (not (test (PredefinedRole-discrete r role))) _).0 e in
        inr (r, (test-no _).0 a, b, k)
  ]),
  (λ h. (user_permissions_iff (discard_role role u) p).1 (elim h [
    | inl c ↦ inl c
    | inr (r, n, q, k) ↦ inr (r, (and_iff _ (u.roles r)).1 ((test-no _).1 n, q), k)
  ])),
)

-- `revoke_role` on a user of the engine succeeds, and afterwards that user has exactly the custom
-- permissions and those that another of its roles gives; every other user stays as it was.
pub revoke_role_lem :
    (k : String) (role : PredefinedRole) (e : RbacEngine) (u : User)
    → lookup k e.users ≡ some u
    → let (b, e') = revoke_role k role e in
      (b ≡ true)
      × ((u' : User) × (lookup k e'.users ≡ some u')
          × ((p : Permission) → (user_permissions u' p ≡ true) ↔ Remains role u p))
      × ((j : String) → k ≢ j → lookup j e'.users ≡ lookup j e.users)
unfolding revoke_role has
revoke_role_lem k role e u h = (
  rw h,
  (discard_role role u, change_user-own k (discard_role role) e h, revoke_role-permissions role u),
  (λ j n. change_user-lookup k (discard_role role) e j ∙ rw (same-eq_false k j n)),
)

-- `deactivate_user` clears the flag of the user and takes no permission away: the user has
-- the permissions that it had before.
pub deactivate_user_lem :
    (k : String) (e : RbacEngine) (u : User)
    → lookup k e.users ≡ some u
    → let (b, e') = deactivate_user k e in
      (b ≡ true)
      × ((u' : User) × (lookup k e'.users ≡ some u')
          × (u'.is_active ≡ false)
          × ((p : Permission) → user_permissions u' p ≡ user_permissions u p))
      × ((j : String) → k ≢ j → lookup j e'.users ≡ lookup j e.users)
unfolding deactivate_user has user_permissions
deactivate_user_lem k e u h = (
  rw h,
  (deactivate u, change_user-own k deactivate e h, refl, (λ p. refl)),
  (λ j n. change_user-lookup k deactivate e j ∙ rw (same-eq_false k j n)),
)

-- `create_user` refuses an identifier in use and then changes nothing; for a new one it stores an
-- active user that has the permissions of the given roles, of the viewer if none are given.
pub create_user_lem :
    (now : ℕ) (k name email : String) (roles : Option (List PredefinedRole)) (e : RbacEngine)
    → let u = new_user now k name email roles in
      let (r, e') = create_user now k name email roles e in
      (has k e.users ≡ true → (r ≡ err (already_exists k)) × (e' ≡ e))
      × (has k e.users ≡ false
          → (r ≡ ok u)
            × (lookup k e'.users ≡ some u)
            × ((p : Permission) → (user_permissions u p ≡ true) ↔ Gives (roles_or_viewer roles) p)
            × ((j : String) → k ≢ j → lookup j e'.users ≡ lookup j e.users))
unfolding create_user
create_user_lem now k name email roles e =
    let u = new_user now k name email roles in
    (
      (λ h. (rw h, rw h)),
      (λ h. (
        rw h,
        rw h (lookup-insert_self k u e.users),
        (λ p. (
          (λ g. elim ((user_permissions_iff u p).0 g) [ inl c ↦ cc | inr i ↦ i ]),
          (λ i. (user_permissions_iff u p).1 (inr i)),
        )),
        (λ j n. rw h (lookup-insert_ne k j u e.users n)),
      )),
    )
