-- ===== src/Contiguous/Tests.antt =====
-- Runs of the tracker, and the theorems at concrete inputs.
use go_pkgs.Common.{
  ℕ, zero, suc, ◌≤◌, ◌<◌, ◌≡◌, refl, true, false, [], ◌∷◌, none, some, arith, store,
}
use go_pkgs.Common.Int.{pos}
use go_pkgs.Common.Bits.{bit}
use go_pkgs.Bitmap
use go_pkgs.Bitmap.{Bitmap, minus_one}
use go_pkgs.Bitmap.Bits.{contains}
use go_pkgs.Contiguous
use go_pkgs.Contiguous.{Contiguous, Store}
use go_pkgs.Contiguous.Invariant.{IsTracking}
use go_pkgs.Contiguous.Track.{Tracked, set_tracks}
use go_pkgs.Contiguous.Watch.{Notified, notify_lem}

-- Bits 0, 1 and 3 of four, with a channel that somebody waits on.
abbrev world : Store
world = record { bits = 11 ∷ []; channels = false ∷ [] }

abbrev tracker : Contiguous
tracker = record { last = pos 3; start = 0; first_clear = 2; ch = some 0 }

two_set : (j : ℕ) → 0 ≤ j → j < 2 → contains (11 ∷ []) j ≡ true
unfolding contains bit
two_set zero lo hi = refl
two_set (suc zero) lo hi = refl
two_set (suc (suc j)) lo hi = absurd (omega arith)

tracker-IsTracking : IsTracking tracker world
unfolding contains bit
tracker-IsTracking = record {
  room = omega arith;
  lower = omega arith;
  upper = omega arith;
  run_set = two_set;
  stops = λ h. refl;
  channel = λ id e. let here : 0 ≡ id = ground arith in rw (← here) refl;
}

-- Setting bit 2 joins bit 3 to the run, and closes the channel.
set_runs :
    Contiguous.set tracker world (pos 2)
    ≡ some (
      record tracker { first_clear = 4; ch = none },
      record { bits = 15 ∷ []; channels = true ∷ [] },
    )
unfolding Contiguous.set Contiguous.extend Contiguous.signal Bitmap.set_unsafe Bitmap.is_set_unsafe
    store
set_runs = refl

set_tracks_example : Tracked tracker world (pos 2) (Contiguous.set tracker world (pos 2))
set_tracks_example = set_tracks tracker world (pos 2) tracker-IsTracking

notify_lem_example : Notified tracker world (Contiguous.notify tracker world)
notify_lem_example = notify_lem tracker world tracker-IsTracking
