-- ===== src/Vms.antt =====
-- vms/vms.go: the states of an instance, the table of transitions, and CleanupVM. An Instance is a
-- parameter: what its methods do to the world, of a type `W`, with errors of a type `E`.
pub mod Cleanup
pub mod Allowed
mod Tests
use go_pkgs.Common.{ℕ, ◌==◌, Bool, true, false, List, [], ◌∷◌, Option, none, some, if◌then◌else◌}

pub data State : Type 0 where
  initial cloning starting running stopping stopped suspending suspended deleting deleted
        error_unknown :
      State

pub data Action : Type 0 where
  none_action clone start stop suspend delete : Action

-- transitionTable: `none` for a pair that it does not have.
unfoldable pub transition_table : State → Action → Option State
transition_table initial clone = some cloning
transition_table initial delete = some deleting
transition_table cloning none_action = some cloning
transition_table starting none_action = some starting
transition_table running stop = some stopping
transition_table running suspend = some suspending
transition_table stopping none_action = some stopping
transition_table stopped start = some starting
transition_table stopped delete = some deleting
transition_table stopped stop = some stopped
transition_table suspending none_action = some suspending
transition_table suspended start = some starting
transition_table suspended delete = some deleting
transition_table suspended suspend = some suspended
transition_table deleting none_action = some deleting
transition_table deleted clone = some cloning
transition_table error_unknown delete = some deleting
transition_table _ _ = none

-- State.Transition
unfoldable pub transition : State → Action → State × Bool
transition s a = elim (transition_table s a) [ some next ↦ (next, true) | none ↦ (s, false) ]

-- State.Allowed
unfoldable pub allowed : State → Action → Bool
allowed s a = (transition s a).1

-- The number of a state, from 0 in the order of the constants.
pub index : State → ℕ
index initial = 0
index cloning = 1
index starting = 2
index running = 3
index stopping = 4
index stopped = 5
index suspending = 6
index suspended = 7
index deleting = 8
index deleted = 9
index error_unknown = 10

pub same_state : State → State → Bool
same_state s t = index s == index t

-- The errors that CleanupVM builds, with the state that each names.
pub data CleanupError {ℓ} (E : Type ℓ) : Type ℓ where
  not_stopped : State → Option E → Option E → CleanupError E
  delete_failed : State → E → CleanupError E
  not_deleted : State → CleanupError E
  unexpected_state : State → CleanupError E

-- The methods of Instance that the package calls: State, Stop, with its two errors, and Delete.
pub record Instance {ℓ κ} (W : Type ℓ) (E : Type κ) : Type (ℓ ⊔ κ) where
  pub state : W → State
  pub stop : W → Option E × Option E × W
  pub delete : W → Option E × W

module _ {ℓ κ} {W : Type ℓ} {E : Type κ} (inst : Instance W E) where
  -- After Delete, called in the state `s`, with its error.
  pub after_delete : State → Option E → W → Option (CleanupError E) × W
  after_delete s (some e) w = (some (delete_failed s e), w)
  after_delete s none w =
      if same_state (inst.state w) deleted
      then (none, w)
      else (some (not_deleted (inst.state w)), w)

  -- The last case of the switch, from the state `s`.
  pub delete_from : State → W → Option (CleanupError E) × W
  delete_from s w = after_delete s (inst.delete w).0 (inst.delete w).1

  -- The case of a running instance, which falls through once it is stopped.
  pub stop_and_delete : W → Option (CleanupError E) × W
  stop_and_delete w =
      let (run_err, stop_err, w') = inst.stop w in
      if same_state (inst.state w') stopped
      then delete_from (inst.state w') w'
      else (some (not_stopped (inst.state w') run_err stop_err), w')

  pub cleanup_in : State → W → Option (CleanupError E) × W
  cleanup_in deleted w = (none, w)
  cleanup_in initial w = (none, (inst.delete w).1)
  cleanup_in running w = stop_and_delete w
  cleanup_in stopped w = delete_from stopped w
  cleanup_in suspended w = delete_from suspended w
  cleanup_in error_unknown w = delete_from error_unknown w
  cleanup_in s w = (some (unexpected_state s), w)

  -- CleanupVM of an instance that is not nil.
  pub cleanup_vm : W → Option (CleanupError E) × W
  cleanup_vm w = cleanup_in (inst.state w) w

  -- slices.Contains
  pub contains : List State → State → Bool
  contains [] s = false
  contains (t ∷ states) s = if same_state t s then true else contains states s

  -- WaitForStateFunc: whether to stop waiting, and the unexpected state of its error.
  pub wait_for_state : State → List State → W → Bool × Option State
  wait_for_state final [] w = (same_state (inst.state w) final, none)
  wait_for_state final (t ∷ intermediate) w =
      if same_state (inst.state w) final
      then (true, none)
      else if contains (t ∷ intermediate) (inst.state w)
      then (false, none)
      else (true, some (inst.state w))
