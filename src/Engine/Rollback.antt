-- ===== src/Engine/Rollback.antt =====
-- What a restoration gives back.
use universal_cross_shell_ex.Prelude.{
  ℕ, suc, ◌<◌, ◌≤◌, String, ◌≡◌, refl, ap, ◌∙◌, Bool, true, false, List, [], ◌∷◌, Option, none,
  some, All, Bool-cases, inl, inr, if◌then◌else◌, ◌==◌, arith,
}
use universal_cross_shell_ex.Prelude.Text.{Text}
use universal_cross_shell_ex.Prelude.Dict.{Dict, lookup, same, map_at}
use universal_cross_shell_ex.Prelude.Result.{err, is_ok}
use universal_cross_shell_ex.Types.{exec, ExecutionContext}
use universal_cross_shell_ex.Policy.Gate.{requires_exec}
use universal_cross_shell_ex.Engine.{
  Machine, Step, Fault, type_error, unsupported, cleanup, adapters, is_member, execute_adapter,
  run_step, run_steps, settle, transact, execute_ucer, Disk, capture, write_inode, copytree,
  restore,
}

abbrev pub is_empty : List Step → Bool
is_empty [] = true
is_empty (s ∷ ss) = false

-- The text of a file, by its path.
abbrev pub view : Dict ℕ → (ℕ → Text) → String → Option Text
view files contents path = map_at contents (lookup path files)

abbrev pub Below : ℕ → Dict ℕ → Type 0
Below n files = All (λ f. f.1 < n) files

passed_over : {A : Type 0} (a b : A) (m n : ℕ) → m < n → (if m == n then a else b) ≡ b
passed_over a b m n h = ground (arith, h)

copytree-old :
    (files : Dict ℕ) (contents : ℕ → Text) (next j : ℕ)
    → j < next
    → (copytree files contents next).contents j ≡ contents j
unfolding copytree
copytree-old [] contents next j h = refl
copytree-old ((p, i) ∷ rest) contents next j h =
    copytree-old rest (write_inode next (contents i) contents) (suc next) j (omega (arith, h))
    ∙ passed_over (contents i) (contents j) j next h

-- A new inode is read by no path of before.
view-write :
    (files : Dict ℕ) (contents : ℕ → Text) (n : ℕ) (t : Text) (path : String)
    → Below n files
    → view files (write_inode n t contents) path ≡ view files contents path
unfolding lookup
view-write [] contents n t path h = refl
view-write ((p, i) ∷ rest) contents n t path h = elim (Bool-cases (same p path)) [
  | inl e ↦ rw (e, passed_over t (contents i) i n h.0)
  | inr e ↦ rw e (view-write rest contents n t path h.1)
]

Below-suc : (n : ℕ) (files : Dict ℕ) → Below n files → Below (suc n) files
Below-suc n [] h = tt
Below-suc n (f ∷ files) h = (omega (arith, h.0), Below-suc n files h.1)

-- A copy reads as the files did.
copytree-view :
    (files : Dict ℕ) (contents : ℕ → Text) (next : ℕ) (path : String)
    → Below next files
    → view (copytree files contents next).files (copytree files contents next).contents path
      ≡ view files contents path
unfolding copytree lookup
copytree-view [] contents next path h = refl
copytree-view ((p, i) ∷ rest) contents next path h =
    let written = write_inode next (contents i) contents in
    let new : (copytree rest written (suc next)).contents next ≡ contents i =
      copytree-old rest written (suc next) next (omega arith)
      ∙ own next (contents i) (contents next) in
    elim (Bool-cases (same p path)) [
      | inl e ↦ rw (e, new)
      | inr e ↦ rw e (
          copytree-view rest written (suc next) path (Below-suc next rest h.1)
          ∙ view-write rest contents next (contents i) path h.1)
    ]
  where
    own : {A : Type 0} (n : ℕ) (a b : A) → (if n == n then a else b) ≡ a
    own n a b = ground arith

Below-mono : (m n : ℕ) (files : Dict ℕ) → m ≤ n → Below m files → Below n files
Below-mono m n [] h b = tt
Below-mono m n (f ∷ files) h b = (omega (arith, h, b.0), Below-mono m n files h b.1)

restore-view :
    (e : Disk) (env : Dict String) (files : Dict ℕ) (path : String)
    → e.backup ≡ some files
    → Below e.next_inode files
    → view (restore env e).root (restore env e).contents path ≡ view files e.contents path
unfolding restore
restore-view e env files path b h = rw b (copytree-view files e.contents e.next_inode path h)

-- Restoring a snapshot after any change of the disk that leaves the paths of the backup alone and
-- frees no inode gives each captured path, and no other, the text that its inode has at that time;
-- so a file that was written in place keeps what was written.
pub restore-capture :
    (d : Disk) (f : Disk → Disk) (env : Dict String) (path : String)
    → Below d.next_inode d.root
    → (f (capture d)).backup ≡ (capture d).backup
    → d.next_inode ≤ (f (capture d)).next_inode
    → let e = f (capture d) in
      let r = restore env e in
      (view r.root r.contents path ≡ view d.root e.contents path) × (r.environ ≡ env)
unfolding capture restore
restore-capture d f env path h b n =
    let e = f (capture d) in
    (restore-view e env d.root path b (Below-mono d.next_inode e.next_inode d.root n h), refl)

same_contents :
    (a b : ℕ → Text) (o : Option ℕ) → ((i : ℕ) → o ≡ some i → a i ≡ b i) → map_at a o ≡ map_at b o
same_contents a b none h = refl
same_contents a b (some i) h = ap some (h i refl)

-- Where no inode of the captured files was written in place, restoring gives back every file as it
-- was when the snapshot was taken.
pub restore-unwritten :
    (d : Disk) (f : Disk → Disk) (env : Dict String) (path : String)
    → Below d.next_inode d.root
    → (f (capture d)).backup ≡ (capture d).backup
    → d.next_inode ≤ (f (capture d)).next_inode
    → ((i : ℕ) → lookup path d.root ≡ some i → (f (capture d)).contents i ≡ d.contents i)
    → let r = restore env (f (capture d)) in
      view r.root r.contents path ≡ view d.root d.contents path
restore-unwritten d f env path h b n k =
    (restore-capture d f env path h b n).0
    ∙ same_contents (f (capture d)).contents d.contents (lookup path d.root) k

-- No adapter takes the keyword of the call.
run_step-raises :
    (m : Machine) (command_id : String) (s : Step) (d : Disk)
    → (e : Fault) × (run_step m command_id s d ≡ (err e, d))
unfolding run_step execute_adapter
run_step-raises m command_id s d = elim (Bool-cases (is_member adapters s.adapter)) [
  | inl e ↦ (type_error, rw e)
  | inr e ↦ (unsupported, rw e)
]

transact-steps :
    (m : Machine) (command_id : String) (ss : List Step) (d : Disk) (path : String)
    → Below d.next_inode d.root
    → let (x, e) = transact m command_id ss d in
      (is_ok x ≡ is_empty ss) × (view e.root e.contents path ≡ view d.root d.contents path)
unfolding run_steps settle cleanup capture
transact-steps m command_id [] d path h = (refl, refl)
transact-steps m command_id (s ∷ ss) d path h =
    let (e, f) = run_step-raises m command_id s (capture d) in
    rw f (refl, restore-unwritten d (λ x. x) d.environ path h refl (omega arith) (λ i k. refl))

-- With `EXEC` in the context and a snapshot that is taken, the manager returns only for a record
-- without steps, with no result; any step makes it raise, and every file reads as before.
pub execute_ucer_lem :
    (m : Machine) (ctx : ExecutionContext) (command_id : String) (ss : List Step) (d : Disk)
    (path : String)
    → ctx.capabilities exec ≡ true
    → m.cp d ≡ true
    → Below d.next_inode d.root
    → let (x, e) = execute_ucer m (some ctx) command_id ss d in
      (is_ok x ≡ is_empty ss) × (view e.root e.contents path ≡ view d.root d.contents path)
unfolding execute_ucer
execute_ucer_lem m ctx command_id ss d path g c h =
    rw ((requires_exec ctx).1 g, c) (transact-steps m command_id ss d path h)
