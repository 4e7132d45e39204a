-- ===== src/Contiguous/Track.antt =====
-- What Set makes of a tracked bitmap.
use go_pkgs.Common.{
  ℕ, suc, ◌+◌, ◌-◌, ◌/◌, ◌%◌, ◌^◌, ◌≤◌, ◌<◌, bit_or, ◌≡◌, ◌≢◌, refl, ◌∙◌, ap, inl, inr, Bool, true,
  false, ◌&&◌, ◌||◌, List, Option, none, some, arith, length, get_elem?, set, get_or,
  store-eq_of_lt, length-set, leb, ◌==◌, Bool-cases, ℕ_discrete, dec_lt,
}
use go_pkgs.Common.Int.{ℤ, pos, negsuc, leb_ℤ, ltb_ℤ}
use go_pkgs.Bitmap.{Bitmap}
use go_pkgs.Bitmap.Bits.{contains, names, set_unsafe-eq, contains-set_one}
use go_pkgs.Contiguous
use go_pkgs.Contiguous.{Contiguous, Store, close, signal, make_channel, fresh_channel}
use go_pkgs.Contiguous.Invariant.{IsTracking, get_elem?-lt, ltb_ℤ-bound, leb_ℤ-of-lt, beyond}
use go_pkgs.Contiguous.Extend.{bound, run, run-le, run_all, run_end, extend-run}

-- The channels after the outstanding one is closed.
abbrev pub closed_by : Option ℕ → List Bool → List Bool
closed_by none channels = channels
closed_by (some id) channels = set channels id true

close-open :
    (id : ℕ) (channels : List Bool)
    → get_elem? channels id ≡ some false
    → close id channels ≡ some (set channels id true)
unfolding close
close-open id channels h = rw (h, store-eq_of_lt channels id true (get_elem?-lt channels id h))

signal-moved :
    (last : ℤ) (start fc : ℕ) (ch : Option ℕ) (s : Store)
    → start < fc
    → ((id : ℕ) → ch ≡ some id → get_elem? s.channels id ≡ some false)
    → signal (record { last = last; start = start; first_clear = fc; ch = ch }) s
      ≡ some (
        record { last = last; start = start; first_clear = fc; ch = none },
        record s { channels = closed_by ch s.channels },
      )
unfolding signal
signal-moved last start fc none s h open_ch = refl
signal-moved last start fc (some id) s h open_ch =
    let more : leb fc start ≡ false = ground arith in
    rw (more, close-open id s.channels (open_ch id refl))

-- What Set(i) returns on a tracked bitmap.
pub record Tracked (c : Contiguous) (s : Store) (i : ℤ) (r : Option (Contiguous × Store))
    : Type 0 where
  pub after : Contiguous
  pub world : Store
  pub returned : r ≡ some (after, world)
  pub valid : IsTracking after world
  pub same_last : after.last ≡ c.last
  pub same_start : after.start ≡ c.start
  pub same_length : length world.bits ≡ length s.bits
  pub bits :
      (j : ℕ) → contains world.bits j ≡ (names i j && leb_ℤ (pos j) c.last || contains s.bits j)
  pub forward : c.first_clear ≤ after.first_clear
  pub moved :
      c.first_clear < after.first_clear
      → (after.ch ≡ none) × (world.channels ≡ closed_by c.ch s.channels)
  pub stayed : after.first_clear ≡ c.first_clear → (after.ch ≡ c.ch) × (world.channels ≡ s.channels)

-- An index out of range: nothing changes.
Tracked-same :
    (c : Contiguous) (s : Store) (i : ℤ)
    → IsTracking c s
    → ((j : ℕ) → (names i j && leb_ℤ (pos j) c.last) ≡ false)
    → Tracked c s i (some (c, s))
Tracked-same c s i v out = record {
  after = c;
  world = s;
  returned = refl;
  valid = v;
  same_last = refl;
  same_start = refl;
  same_length = refl;
  bits = λ j. rw (out j);
  forward = omega arith;
  moved = λ h. absurd (omega arith);
  stayed = λ h. (refl, refl);
}

module _ (c : Contiguous) (s : Store) (v : IsTracking c s) (i : ℕ) (within : i < bound c.last) where
  abbrev pub written : Bitmap
  written = set s.bits (i / 64) (bit_or (get_or s.bits (i / 64) 0) (2 ^ (i % 64)))

  written-contains : (j : ℕ) → contains written j ≡ (i == j || contains s.bits j)
  written-contains j = contains-set_one s.bits i (omega (arith, v.room)) j

  written-length : length written ≡ length s.bits
  written-length = length-set s.bits (i / 64) _

  written-bits :
      (j : ℕ) → contains written j ≡ (i == j && leb_ℤ (pos j) c.last || contains s.bits j)
  written-bits j = elim (ℕ_discrete i j) [
    | yes e ↦ rw (written-contains j, leb_ℤ-of-lt c.last j (omega arith)) (ground arith)
    | no n ↦ rw (written-contains j) (ground arith)
  ]

  kept : (j : ℕ) → contains s.bits j ≡ true → contains written j ≡ true
  kept j h = rw (written-contains j, h) (ground arith)

  -- A bit that is not the next one of the run leaves the run as it is.
  Tracked-apart : i ≢ c.first_clear → Tracked c s (pos i) (some (c, record s { bits = written }))
  Tracked-apart apart = record {
    after = c;
    world = record s { bits = written };
    returned = refl;
    valid = record {
      room = omega (arith, v.room, written-length);
      lower = v.lower;
      upper = v.upper;
      run_set = λ j lo hi. kept j (v.run_set j lo hi);
      stops = λ h. rw (written-contains c.first_clear, v.stops h) (ground arith);
      channel = v.channel;
    };
    same_last = refl;
    same_start = refl;
    same_length = written-length;
    bits = written-bits;
    forward = omega arith;
    moved = λ h. absurd (omega arith);
    stayed = λ h. (refl, refl);
  }

  -- The run that starts at the bit just set.
  abbrev gained : ℕ
  gained = run (contains written) c.first_clear (bound c.last - c.first_clear)

  module _ (next : i ≡ c.first_clear) where
    gained_pos : 0 < gained
    unfolding run
    gained_pos =
        let here : contains written c.first_clear ≡ true =
          rw (written-contains c.first_clear) (ground arith) in
        let left : bound c.last - c.first_clear ≡ suc (bound c.last - c.first_clear - 1) =
          omega arith in
        rw (left, here) (omega arith)

    open_before : (id : ℕ) → c.ch ≡ some id → get_elem? s.channels id ≡ some false
    open_before id e =
        let unfinished : leb (bound c.last) c.first_clear ≡ false = ground arith in
        v.channel id e ∙ ap some unfinished

    Tracked-next : Tracked c s (pos i) (
        some (
          record c { first_clear = c.first_clear + gained; ch = none },
          record { bits = written; channels = closed_by c.ch s.channels },
        ))
    Tracked-next = record {
      after = record c { first_clear = c.first_clear + gained; ch = none };
      world = record { bits = written; channels = closed_by c.ch s.channels };
      returned = refl;
      valid = record {
        room = omega (arith, v.room, written-length);
        lower = omega (arith, v.lower);
        upper = omega (
          arith,
          v.upper,
          run-le (contains written) c.first_clear (bound c.last - c.first_clear),
        );
        run_set = λ j lo hi. elim (dec_lt j c.first_clear) [
          | yes old ↦ kept j (v.run_set j lo old)
          | no new ↦
              run_all (contains written) c.first_clear (bound c.last - c.first_clear) j
                (omega arith) hi
        ];
        stops = λ h.
            run_end (contains written) c.first_clear (bound c.last - c.first_clear) (omega arith);
        channel = λ id e. absurd (cc);
      };
      same_last = refl;
      same_start = refl;
      same_length = written-length;
      bits = written-bits;
      forward = omega arith;
      moved = λ h. (refl, refl);
      stayed = λ h. absurd (omega (arith, gained_pos));
    }

-- Set(i) never panics and keeps the tracking right. It sets bit `i` if that is in the tracked size,
-- and no other; the tail never moves back; when the tail moves, the outstanding channel (if any) is
-- closed and forgotten, and otherwise no channel changes.
pub set_tracks :
    (c : Contiguous) (s : Store) (i : ℤ) → IsTracking c s → Tracked c s i (Contiguous.set c s i)
unfolding Contiguous.set
set_tracks c s (negsuc n) v = Tracked-same c s (negsuc n) v (λ j. refl)
set_tracks c s (pos i) v = elim (Bool-cases (ltb_ℤ c.last (pos i))) [
  | inl out ↦ rw out (Tracked-same c s (pos i) v (λ j. beyond c.last i j out))
  | inr within ↦
      let h = ltb_ℤ-bound c.last i within in
      rw (within, set_unsafe-eq s.bits i (omega (arith, v.room)))
        (elim (Bool-cases (i == c.first_clear)) [
          | inl next ↦
              let e : i ≡ c.first_clear = ground arith in
              rw
                (
                  next,
                  extend-run (written c s v i h) c.last
                      (omega (arith, v.room, written-length c s v i h)) c.start c.first_clear
                      c.first_clear c.ch,
                  signal-moved c.last c.start (c.first_clear + gained c s v i h) c.ch
                      (record s { bits = written c s v i h })
                      (omega (arith, v.lower, gained_pos c s v i h e)) (open_before c s v i h e),
                )
                (Tracked-next c s v i h e)
          | inr apart ↦ rw apart (Tracked-apart c s v i h (ground arith))
        ])
]
