-- ===== src/Types.antt =====
-- core/types.py: capabilities and the execution context.
use universal_cross_shell_ex.Prelude.{
  ℕ, String, ◌≡◌, refl, ◌↔◌, Bool, true, false, not, ◌&&◌, ◌||◌, List, [], ◌∷◌, map, all, any, keep,
  all_iff, All-get, All-of, In, here, there,
}
use universal_cross_shell_ex.Prelude.Dict.{Dict}
use universal_cross_shell_ex.Prelude.Sets.{SetOf, Included, test}

pub data Capability : Type 0 where
  delete_root write_fs network exec fs_read env_mutate execute_read : Capability

unfoldable pub Capability-discrete : Discrete Capability
Capability-discrete = hlevel

-- `cap.value`
unfoldable pub value : Capability → String
value delete_root = "delete_root"
value write_fs = "write_fs"
value network = "network"
value exec = "exec"
value fs_read = "fs_read"
value env_mutate = "env_mutate"
value execute_read = "execute_read"

-- All capabilities, in the order of their values, which is the order of `sorted`.
abbrev pub capabilities : List Capability
capabilities = delete_root ∷ env_mutate ∷ exec ∷ execute_read ∷ fs_read ∷ network ∷ write_fs ∷ []

abbrev pub Caps : Type 0
Caps = SetOf Capability

-- `{c1, c2, …}`
unfoldable pub caps_of : List Capability → Caps
unfolding Capability-discrete
caps_of [] c = false
caps_of (x ∷ xs) c = test (Capability-discrete c x) || caps_of xs c

-- `s.issubset(t)`
unfoldable pub issubset : Caps → Caps → Bool
issubset s t = all (λ c. not (s c) || t c) capabilities

-- `bool(s & t)`
unfoldable pub intersects : Caps → Caps → Bool
intersects s t = any (λ c. s c && t c) capabilities

-- `sorted([cap.value for cap in s])`
unfoldable pub sorted_values : Caps → List String
sorted_values s = map value (keep s capabilities)

pub In-capabilities : (c : Capability) → In c capabilities
In-capabilities delete_root = here
In-capabilities env_mutate = there here
In-capabilities exec = there (there here)
In-capabilities execute_read = there (there (there here))
In-capabilities fs_read = there (there (there (there here)))
In-capabilities network = there (there (there (there (there here))))
In-capabilities write_fs = there (there (there (there (there (there here)))))

implies_iff : (a b : Bool) → ((not a || b) ≡ true) ↔ (a ≡ true → b ≡ true)
implies_iff true b = ((λ h _. h), (λ h. h refl))
implies_iff false b = ((λ _ h. cc), (λ _. refl))

abbrev implies : Caps → Caps → Capability → Bool
implies s t c = not (s c) || t c

implies-of_Included : (s t : Caps) → Included s t → (c : Capability) → implies s t c ≡ true
implies-of_Included s t h c = (implies_iff (s c) (t c)).1 (h c)

pub issubset_iff : (s t : Caps) → (issubset s t ≡ true) ↔ Included s t
unfolding issubset
issubset_iff s t = (
  (λ h c. (implies_iff (s c) (t c)).0 (
      All-get (λ c. implies s t c ≡ true) (In-capabilities c)
        ((all_iff (implies s t) capabilities).0 h))),
  (λ h.
      (all_iff (implies s t) capabilities).1
        (All-of capabilities (λ c _. implies-of_Included s t h c))),
)

pub record ExecutionContext : Type 0 where
  pub execution_id : String
  pub user_id : String
  pub environment : Dict String
  pub working_dir : String
  pub created_at : ℕ
  pub capabilities : Caps
