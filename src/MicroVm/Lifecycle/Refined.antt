-- ===== src/MicroVm/Lifecycle/Refined.antt =====
-- What the calls do to one execution, whatever the calls for others between them.
use universal_cross_shell_ex.Prelude.{
  String, ◌≡◌, ◌≢◌, refl, ap, ◌∙◌, Bool, true, false, List, [], ◌∷◌, Option, none, some,
  if◌then◌else◌, Bool-cases, Option-cases, inl, inr,
}
use universal_cross_shell_ex.Prelude.Dict.{
  same, same→eq, same_refl, has, is_some, lookup, lookup-insert_self, lookup-erase, has-insert_self,
}
use universal_cross_shell_ex.MicroVm.{
  Vms, socket_path, mock_socket, create_snapshot, start_vm, cleanup, run,
}
use universal_cross_shell_ex.MicroVm.Lifecycle.{
  Call, snapshot, restoring, running, cleaning, perform, perform_all, perform-others, cleanup-dicts,
  restore-has, restore-missing,
}

-- The socket of the VM of an execution, if it is active, and whether there is a snapshot.
abbrev pub View : Type 0
View = Option String × Bool

abbrev pub view : String → Vms → View
view id s = (lookup id s.active_vms, has id s.snapshots)

abbrev pub socket_of : Bool → String → String
socket_of fc id = if fc then socket_path id else mock_socket

-- What a call should do to the execution that it is for.
abbrev pub expected : String → Call → View → View
expected id (snapshot tmp now) (none, b) = (none, b)
expected id (snapshot tmp now) (some k, b) = (some k, true)
expected id (restoring removable fc) (v, false) = (v, false)
expected id (restoring removable fc) (v, true) = (some (socket_of fc id), true)
expected id (running shell command fc) (none, b) = (some (socket_of fc id), b)
expected id (running shell command fc) (some k, b) = (some k, b)
expected id (cleaning removable) (v, b) = (none, b)

-- The calls for the execution, in order; the others are skipped.
abbrev pub expected_all : String → List (String × Call) → View → View
expected_all id [] v = v
expected_all id ((j, c) ∷ cs) v = expected_all id cs (if same j id then expected id c v else v)

view-cleanup :
    (removable : String → Bool) (id : String) (s : Vms)
    → view id (cleanup removable id s) ≡ (none, has id s.snapshots)
view-cleanup removable id s =
    let (vms, snaps) = cleanup-dicts removable id s in
    let gone : lookup id (cleanup removable id s).active_vms ≡ none =
      ap (lookup id) vms ∙ (lookup-erase id id s.active_vms ∙ rw (same_refl id)) in
    let stays : has id (cleanup removable id s).snapshots ≡ has id s.snapshots =
      ap (has id) snaps in
    λ i. (gone i, stays i)

view-start_vm :
    (fc : Bool) (id : String) (s : Vms)
    → view id (start_vm fc id s) ≡ (some (socket_of fc id), has id s.snapshots)
unfolding start_vm
view-start_vm fc id s =
    λ i. (lookup-insert_self id (socket_of fc id) s.active_vms i, has id s.snapshots)

view-perform :
    (id : String) (c : Call) (s : Vms) → view id (perform id c s) ≡ expected id c (view id s)
unfolding perform run create_snapshot
view-perform id (snapshot tmp now) s = elim (Option-cases (lookup id s.active_vms)) [
  | inl e ↦ rw (e, e)
  | inr (k, e) ↦ rw (e, e) (ap (λ b. (some k, b)) (has-insert_self id _ s.snapshots))
]
view-perform id (restoring removable fc) s = elim (Bool-cases (has id s.snapshots)) [
  | inr e ↦ ap (λ x. view id (x.1)) (restore-missing removable fc id s e) ∙ rw e
  | inl e ↦
      ap (λ x. view id (x.1)) (restore-has removable fc id s e)
      ∙ (view-start_vm fc id (cleanup removable id s)
          ∙ (ap (λ (v : View). (some (socket_of fc id), v.1)) (view-cleanup removable id s) ∙ rw e))
]
view-perform id (running shell command fc) s = elim (Option-cases (lookup id s.active_vms)) [
  | inl e ↦ rw e (view-start_vm fc id s)
  | inr (k, e) ↦ rw (e, e)
]
view-perform id (cleaning removable) s = view-cleanup removable id s

view-others : (j id : String) (c : Call) (s : Vms) → j ≢ id → view id (perform j c s) ≡ view id s
unfolding has
view-others j id c s ne =
    let (vms, snaps) = perform-others j id ne c s in λ i. (vms i, is_some (snaps i))

-- After any sequence of calls, the VM and the snapshot of an execution are those that its own calls
-- give, in order, whatever the calls for others between them: a snapshot is made of an active VM
-- only, restoring does nothing without one and else starts the VM again and keeps the snapshot, a
-- run starts the VM only where it is not active, and a cleanup ends it and keeps the snapshot.
pub perform_all-expected :
    (id : String) (calls : List (String × Call)) (s : Vms)
    → view id (perform_all calls s) ≡ expected_all id calls (view id s)
unfolding perform_all
perform_all-expected id [] s = refl
perform_all-expected id ((j, c) ∷ cs) s =
    perform_all-expected id cs (perform j c s)
    ∙ ap (expected_all id cs) (elim (Bool-cases (same j id)) [
      | inl q ↦ rw (q, same→eq j id q) (view-perform id c s)
      | inr q ↦ rw q (view-others j id c s (λ e. cc (q, ap (same j) e, same_refl j)))
    ])
