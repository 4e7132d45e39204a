-- ===== src/Vms/Allowed.antt =====
-- CleanupVM and the table of transitions: an instance that logs the calls of its methods.
use go_pkgs.Common.{
  List, [], ◌∷◌, ◌++◌, Bool, true, false, ◌&&◌, if◌then◌else◌, Option, none, some, ◌≡◌, refl, ap,
  ◌∙◌, inl, inr, Bool-cases,
}
use go_pkgs.Vms.{
  State, initial, running, stopped, suspended, error_unknown, deleted, cloning, starting, stopping,
  suspending, deleting, Action, stop, delete, transition, transition_table, allowed, same_state,
  Instance, after_delete, delete_from, stop_and_delete, cleanup_in, cleanup_vm,
}
use go_pkgs.Vms.Cleanup.{same→eq}

-- The calls, each with the state that it was made in.
abbrev pub Log : Type 0
Log = List (State × Action)

-- The instance, in a world that also has the log.
unfoldable pub logged {ℓ κ} : {W : Type ℓ} {E : Type κ} → Instance W E → Instance (W × Log) E
logged inst = record {
  state = λ w. inst.state w.0;
  stop = λ w. (
    (inst.stop w.0).0,
    (inst.stop w.0).1,
    ((inst.stop w.0).2, w.1 ++ (inst.state w.0, stop) ∷ []),
  );
  delete = λ w. ((inst.delete w.0).0, ((inst.delete w.0).1, w.1 ++ (inst.state w.0, delete) ∷ []));
}

-- The table allows each of the calls.
unfoldable pub all_allowed : Log → Bool
all_allowed [] = true
all_allowed (c ∷ log) = allowed c.0 c.1 && all_allowed log

after_delete-world {ℓ κ} :
    {W : Type ℓ} {E : Type κ} (inst : Instance W E) (s : State) (err : Option E) (w : W)
    → (after_delete inst s err w).1 ≡ w
unfolding after_delete
after_delete-world inst s (some e) w = refl
after_delete-world inst s none w = elim (Bool-cases (same_state (inst.state w) deleted)) [
  | inl is ↦ rw is refl
  | inr isnt ↦ rw isnt refl
]

-- The calls from a state, of an instance that Stop would leave in `t`: Stop once when it runs, and
-- Delete once, from what it is then, when it can be deleted.
unfoldable pub calls_from : State → State → Log
calls_from running t =
    (running, stop) ∷ (if same_state t stopped then (stopped, delete) ∷ [] else [])
calls_from initial t = (initial, delete) ∷ []
calls_from stopped t = (stopped, delete) ∷ []
calls_from suspended t = (suspended, delete) ∷ []
calls_from error_unknown t = (error_unknown, delete) ∷ []
calls_from _ t = []

calls_from-allowed : (s t : State) → all_allowed (calls_from s t) ≡ true
unfolding calls_from all_allowed allowed transition transition_table
calls_from-allowed running t = elim (Bool-cases (same_state t stopped)) [
  | inl is ↦ rw is refl
  | inr isnt ↦ rw isnt refl
]
calls_from-allowed initial t = refl
calls_from-allowed stopped t = refl
calls_from-allowed suspended t = refl
calls_from-allowed error_unknown t = refl
calls_from-allowed deleted t = refl
calls_from-allowed cloning t = refl
calls_from-allowed starting t = refl
calls_from-allowed stopping t = refl
calls_from-allowed suspending t = refl
calls_from-allowed deleting t = refl

module _ {ℓ κ} {W : Type ℓ} {E : Type κ} (inst : Instance W E) where
  log_of : State → W → Log
  log_of s w = (cleanup_in (logged inst) s (w, [])).1.1

  deletes_from :
      (s : State) (w : W) (log : Log)
      → (delete_from (logged inst) s (w, log)).1.1 ≡ log ++ (inst.state w, delete) ∷ []
  unfolding delete_from logged
  deletes_from s w log =
      ap (λ r. r.1)
        (after_delete-world (logged inst) s (inst.delete w).0
          ((inst.delete w).1, log ++ (inst.state w, delete) ∷ []))

  calls_stopped :
      (w : W)
      → same_state (inst.state (inst.stop w).2) stopped ≡ true
      → (stop_and_delete (logged inst) (w, [])).1.1
        ≡ (inst.state w, stop) ∷ (inst.state (inst.stop w).2, delete) ∷ []
  unfolding stop_and_delete logged
  calls_stopped w is =
      rw is (deletes_from (inst.state (inst.stop w).2) (inst.stop w).2 ((inst.state w, stop) ∷ []))

  calls_not_stopped :
      (w : W)
      → same_state (inst.state (inst.stop w).2) stopped ≡ false
      → (stop_and_delete (logged inst) (w, [])).1.1 ≡ (inst.state w, stop) ∷ []
  unfolding stop_and_delete logged
  calls_not_stopped w isnt = rw isnt refl

  log_from :
      (s : State) (w : W)
      → inst.state w ≡ s
      → log_of s w ≡ calls_from s (inst.state (inst.stop w).2)
  unfolding log_of cleanup_in logged calls_from
  log_from deleted w e = refl
  log_from initial w e = rw e refl
  log_from running w e = elim (Bool-cases (same_state (inst.state (inst.stop w).2) stopped)) [
    | inl is ↦ rw (calls_stopped w is, is, e, same→eq (inst.state (inst.stop w).2) stopped is) refl
    | inr isnt ↦ rw (calls_not_stopped w isnt, isnt, e) refl
  ]
  log_from stopped w e = rw (deletes_from stopped w [], e) refl
  log_from suspended w e = rw (deletes_from suspended w [], e) refl
  log_from error_unknown w e = rw (deletes_from error_unknown w [], e) refl
  log_from cloning w e = refl
  log_from starting w e = refl
  log_from stopping w e = refl
  log_from suspending w e = refl
  log_from deleting w e = refl

  -- Whatever the methods do, CleanupVM calls Stop once, of a running instance, and Delete once, of an
  -- instance that is initial, stopped (before, or by that Stop), suspended or in an unknown state, and
  -- makes no other call of them: each only in a state in which the table of transitions allows it.
  pub cleanup_vm-allowed :
      (w : W)
      → ((cleanup_vm (logged inst) (w, [])).1.1
          ≡ calls_from (inst.state w) (inst.state (inst.stop w).2))
        × (all_allowed (cleanup_vm (logged inst) (w, [])).1.1 ≡ true)
  unfolding cleanup_vm log_of logged
  cleanup_vm-allowed w =
      let calls = log_from (inst.state w) w refl in
      (calls, ap all_allowed calls ∙ calls_from-allowed (inst.state w) (inst.state (inst.stop w).2))
