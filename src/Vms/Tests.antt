-- ===== src/Vms/Tests.antt =====
-- A world that is the state of an instance whose operations succeed when the table allows them.
use go_pkgs.Common.{ℕ, [], ◌∷◌, Option, none, some, ◌≡◌, refl, true, false, Bool, ◌⊎◌, ap}
use go_pkgs.Vms.{
  State, initial, running, stopped, deleted, stop, delete, allowed, transition, transition_table,
  Instance, cleanup_vm, cleanup_in, stop_and_delete, delete_from, after_delete, same_state, index,
}
use go_pkgs.Vms.Allowed.{logged, calls_from, all_allowed, cleanup_vm-allowed}
use go_pkgs.Vms.Cleanup.{IsInstance, cleanable, cleanup_vm-none, cleanup_vm-deletes}

abbrev after : Bool → State → State → Option ℕ × State
after true goal s = (none, goal)
after false goal s = (some 1, s)

abbrev sample : Instance State ℕ
sample = record {
  state = λ w. w;
  stop = λ w. (none, (after (allowed w stop) stopped w).0, (after (allowed w stop) stopped w).1);
  delete = λ w. after (allowed w delete) deleted w;
}

sample-IsInstance : IsInstance sample
sample-IsInstance = record {
  stop_done = λ w may ok. rw may refl;
  delete_done = λ w may ok. rw may refl;
}

cleanup_running : cleanup_vm sample running ≡ (none, deleted)
unfolding cleanup_vm cleanup_in stop_and_delete delete_from after_delete same_state index allowed
    transition transition_table
cleanup_running = refl

cleanup_vm-none_example :
    (sample.state (cleanup_vm sample running).1 ≡ deleted) ⊎ (running ≡ initial)
cleanup_vm-none_example = cleanup_vm-none sample running (ap (λ r. r.0) cleanup_running)

cleanup_vm-deletes_example :
    ((cleanup_vm sample running).0 ≡ none) × (sample.state (cleanup_vm sample running).1 ≡ deleted)
unfolding cleanable allowed transition transition_table
cleanup_vm-deletes_example =
    cleanup_vm-deletes sample sample-IsInstance running refl (λ e. refl) (λ w may. rw may refl)

-- Stop, then Delete.
calls_running :
    (cleanup_vm (logged sample) (running, [])).1.1 ≡ (running, stop) ∷ (stopped, delete) ∷ []
unfolding logged cleanup_vm cleanup_in stop_and_delete delete_from after_delete same_state index
    allowed transition transition_table
calls_running = refl

cleanup_vm-allowed_example :
    ((cleanup_vm (logged sample) (running, [])).1.1
      ≡ calls_from running (sample.state (sample.stop running).2))
    × (all_allowed (cleanup_vm (logged sample) (running, [])).1.1 ≡ true)
cleanup_vm-allowed_example = cleanup_vm-allowed sample running
