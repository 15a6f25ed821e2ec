-- ===== src/MicroVm/Lifecycle.antt =====
-- What any sequence of operations on the microVMs keeps.
pub mod Refined
use universal_cross_shell_ex.Prelude.{
  ℕ, String, ◌≡◌, ◌≢◌, ◌⊎◌, inl, inr, refl, Bool, true, false, List, [], ◌∷◌, Option, none, some,
  if◌then◌else◌, Bool-cases, ap, ◌∙◌, subst, sym,
}
use text.Mathlib.TextEquality.{eq_iff}
use universal_cross_shell_ex.Prelude.Text.{Text}
use universal_cross_shell_ex.Prelude.Dict.{
  same, has, lookup, erase, lookup-insert, lookup-erase, lookup-insert_self, lookup-insert_ne,
  same-eq_false, has-insert_self,
}
use universal_cross_shell_ex.Prelude.Result.{ok, err}
use universal_cross_shell_ex.MicroVm.{
  Vms, socket_path, mock_socket, create_snapshot, start_vm, remove_socket, cleanup,
  restore_snapshot, run, no_snapshot,
}

-- A call of the executor, for the execution that it names.
pub data Call : Type 0 where
  snapshot : (tmp : String) → ℕ → Call
  restoring : (String → Bool) → Bool → Call
  running : (shell command : Text) → Bool → Call
  cleaning : (String → Bool) → Call

pub perform : String → Call → Vms → Vms
unfolding restore_snapshot run
perform id (snapshot tmp now) s = create_snapshot tmp now id s
perform id (restoring removable fc) s = (restore_snapshot removable fc id s).1
perform id (running shell command fc) s = (run shell command fc id s).1
perform id (cleaning removable) s = cleanup removable id s

pub perform_all : List (String × Call) → Vms → Vms
unfolding perform
perform_all [] s = s
perform_all ((id, c) ∷ cs) s = perform_all cs (perform id c s)

-- Each active VM has the mock socket or the socket that is named for its own execution.
pub record OwnSockets (s : Vms) : Type 0 where
  pub own :
      (id socket : String)
      → lookup id s.active_vms ≡ some socket
      → (socket ≡ mock_socket) ⊎ (socket ≡ socket_path id)

start_vm-OwnSockets :
    (fc : Bool) (id : String) (s : Vms) → OwnSockets s → OwnSockets (start_vm fc id s)
unfolding start_vm
start_vm-OwnSockets fc id s h = record {
  own = λ j socket e. elim (Bool-cases (same id j)) [
    | inl q ↦
        let f =
          rw (lookup-insert id j (if fc then socket_path id else mock_socket) s.active_vms, q) at
            e in
        let eq : socket ≡ (if fc then socket_path id else mock_socket) = cc f in
        elim (Bool-cases fc) [
          | inl on ↦ inr (eq ∙ rw (on, (eq_iff id j).0 q))
          | inr off ↦ inl (eq ∙ rw off)
        ]
    | inr q ↦
        h.own j socket (
          rw (lookup-insert id j (if fc then socket_path id else mock_socket) s.active_vms, q) at e)
  ];
}

-- The removal of a file leaves both dicts as they are.
remove_socket-dicts :
    (removable : String → Bool) (o : Option String) (s : Vms)
    → ((remove_socket removable o s).active_vms ≡ s.active_vms)
      × ((remove_socket removable o s).snapshots ≡ s.snapshots)
remove_socket-dicts removable none s = (refl, refl)
remove_socket-dicts removable (some socket) s = elim (Bool-cases (removable socket)) [
  | inl e ↦ rw e (refl, refl)
  | inr e ↦ rw e (refl, refl)
]

module _ (removable : String → Bool) (id : String) (s : Vms) where
  cleanup-dicts :
      ((cleanup removable id s).active_vms ≡ erase id s.active_vms)
      × ((cleanup removable id s).snapshots ≡ s.snapshots)
  unfolding cleanup
  cleanup-dicts =
      remove_socket-dicts removable (lookup id s.active_vms)
        (record s { active_vms = erase id s.active_vms })

  cleanup-OwnSockets : OwnSockets s → OwnSockets (cleanup removable id s)
  cleanup-OwnSockets h = record {
    own = λ j socket e.
        let f : lookup j (erase id s.active_vms) ≡ some socket = rw cleanup-dicts.0 at e in
        elim (Bool-cases (same id j)) [
          | inl q ↦ cc (rw (lookup-erase id j s.active_vms, q) at f)
          | inr q ↦ h.own j socket (rw (lookup-erase id j s.active_vms, q) at f)
        ];
  }

module _ (removable : String → Bool) (fc : Bool) (id : String) (s : Vms) where
  restore-has :
      has id s.snapshots ≡ true
      → restore_snapshot removable fc id s ≡ (ok tt, start_vm fc id (cleanup removable id s))
  unfolding restore_snapshot
  restore-has h = rw h

  restore-missing :
      has id s.snapshots ≡ false → restore_snapshot removable fc id s ≡ (err (no_snapshot id), s)
  unfolding restore_snapshot
  restore-missing h = rw h

perform-OwnSockets : (id : String) (c : Call) (s : Vms) → OwnSockets s → OwnSockets (perform id c s)
unfolding perform restore_snapshot run create_snapshot
perform-OwnSockets id (snapshot tmp now) s h = elim (Bool-cases (has id s.active_vms)) [
  | inl e ↦ rw e (record { own = h.own })
  | inr e ↦ rw e h
]
perform-OwnSockets id (restoring removable fc) s h = elim (Bool-cases (has id s.snapshots)) [
  | inl e ↦
      subst (λ x. OwnSockets x.1) (sym (restore-has removable fc id s e))
        (start_vm-OwnSockets fc id (cleanup removable id s) (cleanup-OwnSockets removable id s h))
  | inr e ↦ subst (λ x. OwnSockets x.1) (sym (restore-missing removable fc id s e)) h
]
perform-OwnSockets id (running shell command fc) s h = elim (Bool-cases (has id s.active_vms)) [
  | inl e ↦ rw e h
  | inr e ↦ rw e (start_vm-OwnSockets fc id s h)
]
perform-OwnSockets id (cleaning removable) s h = cleanup-OwnSockets removable id s h

-- From no active VM on, every sequence of calls leaves each active VM with the mock socket or with
-- the socket of its own execution.
pub perform_all-OwnSockets :
    (calls : List (String × Call)) (s : Vms) → OwnSockets s → OwnSockets (perform_all calls s)
unfolding perform_all
perform_all-OwnSockets [] s h = h
perform_all-OwnSockets ((id, c) ∷ cs) s h =
    perform_all-OwnSockets cs (perform id c s) (perform-OwnSockets id c s h)

-- The VM and the snapshot of an execution.
abbrev pub Same : String → Vms → Vms → Type 0
Same j s t =
    (lookup j t.active_vms ≡ lookup j s.active_vms) × (lookup j t.snapshots ≡ lookup j s.snapshots)

module _ (id j : String) (apart : id ≢ j) where
  start_vm-others : (fc : Bool) (s : Vms) → Same j s (start_vm fc id s)
  unfolding start_vm
  start_vm-others fc s = (lookup-insert_ne id j _ s.active_vms apart, refl)

  cleanup-others : (removable : String → Bool) (s : Vms) → Same j s (cleanup removable id s)
  cleanup-others removable s =
      let (vms, snaps) = cleanup-dicts removable id s in
      (
        ap (lookup j) vms ∙ (lookup-erase id j s.active_vms ∙ rw (same-eq_false id j apart)),
        ap (lookup j) snaps,
      )

  -- A call for one execution leaves the VM and the snapshot of every other as they were.
  pub perform-others : (c : Call) (s : Vms) → Same j s (perform id c s)
  unfolding perform restore_snapshot run create_snapshot
  perform-others (snapshot tmp now) s = elim (Bool-cases (has id s.active_vms)) [
    | inl e ↦ rw e (refl, lookup-insert_ne id j _ s.snapshots apart)
    | inr e ↦ rw e (refl, refl)
  ]
  perform-others (restoring removable fc) s = elim (Bool-cases (has id s.snapshots)) [
    | inl e ↦
        let a = start_vm-others fc (cleanup removable id s) in
        let b = cleanup-others removable s in
        subst (λ x. Same j s x.1) (sym (restore-has removable fc id s e)) (a.0 ∙ b.0, a.1 ∙ b.1)
    | inr e ↦ subst (λ x. Same j s x.1) (sym (restore-missing removable fc id s e)) (refl, refl)
  ]
  perform-others (running shell command fc) s = elim (Bool-cases (has id s.active_vms)) [
    | inl e ↦ rw e (refl, refl)
    | inr e ↦ rw e (start_vm-others fc s)
  ]
  perform-others (cleaning removable) s = cleanup-others removable s

module _ (tmp : String) (now : ℕ) (removable : String → Bool) (fc : Bool) (id : String)
    (s : Vms) where
  created : has id s.active_vms ≡ true → has id (create_snapshot tmp now id s).snapshots ≡ true
  unfolding create_snapshot
  created h = rw h (has-insert_self id _ s.snapshots)

  kept : (t : Vms) → has id t.snapshots ≡ true → has id (cleanup removable id t).snapshots ≡ true
  kept t h = subst (λ d. has id d ≡ true) (sym (cleanup-dicts removable id t).1) h

  restored :
      (t : Vms)
      → has id t.snapshots ≡ true
      → let (x, t') = restore_snapshot removable fc id t in
        (x ≡ ok tt)
        × (lookup id t'.active_vms ≡ some (if fc then socket_path id else mock_socket))
        × (has id t'.snapshots ≡ true)
  unfolding start_vm
  restored t h = rw (restore-has removable fc id t h) (refl, lookup-insert_self id _ _, kept t h)

  -- After a snapshot of an active VM, and whatever cleanup follows, restoring succeeds, and leaves the
  -- VM active with a socket and the snapshot in place.
  pub restore-create_snapshot :
      has id s.active_vms ≡ true
      → let (x, t) =
          restore_snapshot removable fc id (cleanup removable id (create_snapshot tmp now id s)) in
        (x ≡ ok tt)
        × (lookup id t.active_vms ≡ some (if fc then socket_path id else mock_socket))
        × (has id t.snapshots ≡ true)
  restore-create_snapshot h =
      let taken = create_snapshot tmp now id s in
      restored (cleanup removable id taken) (kept taken (created h))
