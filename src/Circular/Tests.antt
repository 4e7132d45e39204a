-- ===== src/Circular/Tests.antt =====
-- Runs of a buffer, and the theorems at concrete inputs.
use go_pkgs.Common.{
  ℕ, zero, suc, ◌+◌, ◌-◌, ◌<◌, ◌≤◌, arith, inr, get_or, ◌≡◌, refl, List, [], ◌∷◌, some, ◌>>=◌,
}
use go_pkgs.Common.Int.{pos, ◌-ℤ◌}
use go_pkgs.Circular.{
  Buffer, new, append, head, compact, grow, move_to, place, slice, copy_from, take_head,
}
use go_pkgs.Circular.Queue.{IsQueue}
use go_pkgs.Circular.Refine.{Call, append_call, head_call, compact_call, queue, run, run-new}

-- Wraps round, grows while wrapped, and compacts.
abbrev calls : List (Call ℕ)
calls =
    append_call (1 ∷ 2 ∷ 3 ∷ [])
    ∷ head_call 2
    ∷ append_call (4 ∷ 5 ∷ [])
    ∷ append_call (6 ∷ 7 ∷ [])
    ∷ head_call 4
    ∷ compact_call
    ∷ head_call 9
    ∷ []

run_calls :
    (new 0 (pos 4) >>= run 0 calls)
    ≡ some (
      (1 ∷ 2 ∷ []) ∷ (3 ∷ 4 ∷ 5 ∷ 6 ∷ []) ∷ (7 ∷ []) ∷ [],
      record { storage = 7 ∷ []; used = 0; head = 0; tail = pos 0 },
    )
unfolding new run append head compact grow move_to place slice copy_from take_head ◌-ℤ◌
run_calls = refl

run-new_example :
    (b : Buffer ℕ) × ((new 0 (pos 4) >>= run 0 calls) ≡ some ((queue calls []).0, b))
    × IsQueue 0 b (queue calls []).1
run-new_example = run-new 0 4 calls

-- 3, 4 and 5 in four cells, wrapped round.
abbrev sample : Buffer ℕ
sample = record { storage = 5 ∷ 2 ∷ 3 ∷ 4 ∷ []; used = 3; head = 2; tail = pos 0 }

sample-IsQueue : IsQueue 0 sample (3 ∷ 4 ∷ 5 ∷ [])
sample-IsQueue = record {
  next = 1;
  tail = refl;
  used = refl;
  storage = omega arith;
  head_le = omega arith;
  next_le = omega arith;
  ends = inr (inr (omega arith, omega arith, omega arith, refl));
  front = front;
  back = back;
}
  where
    front :
        (i : ℕ) → i < 3 → 2 + i < 4 → get_or sample.storage (2 + i) 0 ≡ get_or (3 ∷ 4 ∷ 5 ∷ []) i 0
    front zero lt within = refl
    front (suc zero) lt within = refl
    front (suc (suc i)) lt within = absurd (omega arith)

    back :
        (i : ℕ)
        → i < 3
        → 4 ≤ 2 + i
        → get_or sample.storage (2 + i - 4) 0 ≡ get_or (3 ∷ 4 ∷ 5 ∷ []) i 0
    back zero lt beyond = absurd (omega arith)
    back (suc zero) lt beyond = absurd (omega arith)
    back (suc (suc zero)) lt beyond = refl
    back (suc (suc (suc i))) lt beyond = absurd (omega arith)
