-- ===== src/Vms/Cleanup.antt =====
-- CleanupVM on an instance that behaves as the comments on Instance say.
use mathlib.Core.Option.{some-ne-none}
use mathlib.Core.Bool.{false≢true}
use go_pkgs.Common.{
  ℕ, List, [], ◌∷◌, get_or, arith, Bool, true, false, Option, none, some, if◌then◌else◌, ◌≡◌, refl,
  sym, ap, ◌∙◌, ◌⊎◌, inl, inr,
}
use go_pkgs.Vms.{
  State, initial, cloning, starting, running, stopping, stopped, suspending, suspended, deleting,
  deleted, error_unknown, stop, delete, transition, transition_table, allowed, index, same_state,
  after_delete, not_stopped, not_deleted, Instance, delete_from, stop_and_delete, cleanup_in,
  cleanup_vm,
}

-- Of an action that the table allows: without an error the operation ends in the state that it is for.
pub record IsInstance {ℓ κ} {W : Type ℓ} {E : Type κ} (inst : Instance W E) : Type (ℓ ⊔ κ) where
  pub stop_done :
      (w : W)
      → allowed (inst.state w) stop ≡ true
      → (inst.stop w).1 ≡ none
      → inst.state (inst.stop w).2 ≡ stopped
  pub delete_done :
      (w : W)
      → allowed (inst.state w) delete ≡ true
      → (inst.delete w).0 ≡ none
      → inst.state (inst.delete w).1 ≡ deleted

states : List State
states =
    initial ∷ cloning ∷ starting ∷ running ∷ stopping ∷ stopped ∷ suspending ∷ suspended ∷ deleting
    ∷ deleted ∷ error_unknown ∷ []

state_at : ℕ → State
unfolding states
state_at n = get_or states n initial

state_at-index : (s : State) → state_at (index s) ≡ s
unfolding state_at states index
state_at-index initial = refl
state_at-index cloning = refl
state_at-index starting = refl
state_at-index running = refl
state_at-index stopping = refl
state_at-index stopped = refl
state_at-index suspending = refl
state_at-index suspended = refl
state_at-index deleting = refl
state_at-index deleted = refl
state_at-index error_unknown = refl

pub same→eq : (s t : State) → same_state s t ≡ true → s ≡ t
unfolding same_state
same→eq s t h =
    let e : index s ≡ index t = ground arith in
    sym (state_at-index s) ∙ ap state_at e ∙ state_at-index t

same_state_refl : (s : State) → same_state s s ≡ true
unfolding same_state
same_state_refl s = ground arith

-- The states in which CleanupVM deletes an instance, or finds it deleted.
unfoldable pub cleanable : State → Bool
cleanable initial = true
cleanable running = true
cleanable stopped = true
cleanable suspended = true
cleanable error_unknown = true
cleanable deleted = true
cleanable _ = false

-- A test that must have passed, since there is no error.
passed {ℓ κ} :
    {W : Type ℓ} {E : Type κ} (b : Bool) (r : Option E × W) (err : E) (w : W)
    → (if b then r else (some err, w)).0 ≡ none
    → (b ≡ true) × (r.0 ≡ none) × ((if b then r else (some err, w)).1 ≡ r.1)
passed true r err w h = (refl, h, refl)
passed false r err w h = absurd (some-ne-none _ h)

module _ {ℓ κ} {W : Type ℓ} {E : Type κ} (inst : Instance W E) where
  -- Without an error the instance is deleted.
  after_delete-none :
      (s : State) (err : Option E) (w : W)
      → (after_delete inst s err w).0 ≡ none
      → inst.state (after_delete inst s err w).1 ≡ deleted
  unfolding after_delete
  after_delete-none s (some e) w h = absurd (some-ne-none _ h)
  after_delete-none s none w h =
      let (is, _, same) =
        passed (same_state (inst.state w) deleted) (none, w) (not_deleted (inst.state w)) w h in
      ap inst.state same ∙ same→eq (inst.state w) deleted is

  -- The cases of the switch, by the state.
  in-none :
      (s : State) (w : W)
      → inst.state w ≡ s
      → (cleanup_in inst s w).0 ≡ none
      → (inst.state (cleanup_in inst s w).1 ≡ deleted) ⊎ (s ≡ initial)
  unfolding cleanup_in stop_and_delete delete_from
  in-none deleted w e h = inl e
  in-none initial w e h = inr refl
  in-none running w e h =
      let w' = (inst.stop w).2 in
      let (_, h', same) =
        passed (same_state (inst.state w') stopped) (delete_from inst (inst.state w') w')
          (not_stopped (inst.state w') (inst.stop w).0 (inst.stop w).1) w' h in
      inl (
        ap inst.state same
        ∙ after_delete-none (inst.state w') (inst.delete w').0 (inst.delete w').1 h')
  in-none stopped w e h = inl (after_delete-none stopped (inst.delete w).0 (inst.delete w).1 h)
  in-none suspended w e h = inl (after_delete-none suspended (inst.delete w).0 (inst.delete w).1 h)
  in-none error_unknown w e h =
      inl (after_delete-none error_unknown (inst.delete w).0 (inst.delete w).1 h)
  in-none cloning w e h = absurd (some-ne-none _ h)
  in-none starting w e h = absurd (some-ne-none _ h)
  in-none stopping w e h = absurd (some-ne-none _ h)
  in-none suspending w e h = absurd (some-ne-none _ h)
  in-none deleting w e h = absurd (some-ne-none _ h)

  -- CleanupVM that returns no error has deleted the instance, unless it was in its initial state, whatever
  -- its methods do.
  pub cleanup_vm-none :
      (w : W)
      → (cleanup_vm inst w).0 ≡ none
      → (inst.state (cleanup_vm inst w).1 ≡ deleted) ⊎ (inst.state w ≡ initial)
  unfolding cleanup_vm
  cleanup_vm-none w h = in-none (inst.state w) w refl h

module _ {ℓ κ} {W : Type ℓ} {E : Type κ} (inst : Instance W E) (laws : IsInstance inst) where
  delete_from-done :
      (s : State) (w : W)
      → allowed (inst.state w) delete ≡ true
      → (inst.delete w).0 ≡ none
      → delete_from inst s w ≡ (none, (inst.delete w).1)
  unfolding delete_from after_delete
  delete_from-done s w may ok = rw (ok, laws.delete_done w may ok, same_state_refl deleted)

  cleans_in :
      (s : State) (w : W)
      → inst.state w ≡ s
      → cleanable s ≡ true
      → (s ≡ running → (inst.stop w).1 ≡ none)
      → ((w' : W) → allowed (inst.state w') delete ≡ true → (inst.delete w').0 ≡ none)
      → ((cleanup_in inst s w).0 ≡ none) × (inst.state (cleanup_in inst s w).1 ≡ deleted)
  unfolding cleanup_in stop_and_delete allowed transition transition_table cleanable
  cleans_in stopped w e c ok deletes =
      let may : allowed (inst.state w) delete ≡ true = rw e refl in
      rw (delete_from-done stopped w may (deletes w may))
        (refl, laws.delete_done w may (deletes w may))
  cleans_in suspended w e c ok deletes =
      let may : allowed (inst.state w) delete ≡ true = rw e refl in
      rw (delete_from-done suspended w may (deletes w may))
        (refl, laws.delete_done w may (deletes w may))
  cleans_in error_unknown w e c ok deletes =
      let may : allowed (inst.state w) delete ≡ true = rw e refl in
      rw (delete_from-done error_unknown w may (deletes w may))
        (refl, laws.delete_done w may (deletes w may))
  cleans_in deleted w e c ok deletes = (refl, e)
  cleans_in running w e c ok deletes =
      let w' = (inst.stop w).2 in
      let may_stop : allowed (inst.state w) stop ≡ true = rw e refl in
      let is : inst.state w' ≡ stopped = laws.stop_done w may_stop (ok refl) in
      let may : allowed (inst.state w') delete ≡ true = rw is refl in
      rw (is, same_state_refl stopped, delete_from-done stopped w' may (deletes w' may))
        (refl, laws.delete_done w' may (deletes w' may))
  cleans_in initial w e c ok deletes =
      let may : allowed (inst.state w) delete ≡ true = rw e refl in
      (refl, laws.delete_done w may (deletes w may))
  cleans_in cloning w e c ok deletes = absurd (false≢true c)
  cleans_in starting w e c ok deletes = absurd (false≢true c)
  cleans_in stopping w e c ok deletes = absurd (false≢true c)
  cleans_in suspending w e c ok deletes = absurd (false≢true c)
  cleans_in deleting w e c ok deletes = absurd (false≢true c)

  -- CleanupVM leaves an instance deleted and returns no error, from its initial state, when it runs, is
  -- stopped, suspended or in an unknown state, or is deleted already, if Stop of it, when it runs, returns
  -- no error, Delete returns none where the table allows it, and without an error they end in the state
  -- that they are for.
  pub cleanup_vm-deletes :
      (w : W)
      → cleanable (inst.state w) ≡ true
      → (inst.state w ≡ running → (inst.stop w).1 ≡ none)
      → ((w' : W) → allowed (inst.state w') delete ≡ true → (inst.delete w').0 ≡ none)
      → ((cleanup_vm inst w).0 ≡ none) × (inst.state (cleanup_vm inst w).1 ≡ deleted)
  unfolding cleanup_vm
  cleanup_vm-deletes w c ok deletes = cleans_in (inst.state w) w refl c ok deletes
