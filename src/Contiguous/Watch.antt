-- ===== src/Contiguous/Watch.antt =====
-- Tail, Notify and the constructors of a tracked bitmap.
use go_pkgs.Common.{
  ℕ, suc, ◌+◌, ◌-◌, ◌*◌, ◌≤◌, ◌<◌, ◌≡◌, ◌⊎◌, refl, ap, inl, inr, Bool, true, false, ◌||◌, List, [],
  ◌∷◌, ◌++◌, Option, none, some, arith, length, get_elem?, set, store-eq_of_lt, length-append, leb,
  Bool-cases, dec_lt,
}
use go_pkgs.Common.Int.{ℤ, pos, negsuc, leb_ℤ, ltb_ℤ, ◌-ℤ◌}
use go_pkgs.Bitmap.{Bitmap, minus_one, last_of}
use go_pkgs.Bitmap.Bits.{contains}
use go_pkgs.Contiguous
use go_pkgs.Contiguous.{Contiguous, Store, make_channel, fresh_channel, close}
use go_pkgs.Contiguous.Invariant.{IsTracking, ltb_ℤ-leb}
use go_pkgs.Contiguous.Extend.{bound, run, run-le, run_all, run_end, extend-run}

-- Tail() is the last index of the run of set bits from `start` on, a run that ends at a clear bit or
-- at the end of the range; it is -1 exactly when the run is empty.
pub tail_lem :
    (c : Contiguous) (s : Store)
    → IsTracking c s
    → (Contiguous.tail c ≡ minus_one)
        × (c.first_clear ≡ c.start)
        × (c.start < bound c.last → contains s.bits c.start ≡ false)
      ⊎ ((n : ℕ) × (Contiguous.tail c ≡ pos n)
          × (c.start ≤ n)
          × (n < bound c.last)
          × ((j : ℕ) → c.start ≤ j → j ≤ n → contains s.bits j ≡ true)
          × (n + 1 < bound c.last → contains s.bits (n + 1) ≡ false))
unfolding Contiguous.tail ◌-ℤ◌
tail_lem c s v = elim (dec_lt c.start c.first_clear) [
  | yes more ↦ inr (
    c.first_clear - 1,
    ground arith,
    omega arith,
    omega (arith, v.upper),
    λ j lo hi. v.run_set j lo (omega arith),
    λ h.
        let e : c.first_clear - 1 + 1 ≡ c.first_clear = omega arith in rw e (v.stops (omega arith)),
  )
  | no empty ↦
      let e : c.first_clear ≡ c.start = omega (arith, v.lower) in
      inl (ground arith, e, λ h. rw (← e) (v.stops (omega arith)))
]

-- The channel that is outstanding, or the next one made.
abbrev pub outstanding_or : Option ℕ → ℕ → ℕ
outstanding_or none made = made
outstanding_or (some id) made = id

-- The channels: as they are if one is outstanding, or else with one made, closed or not.
abbrev pub with_channel : Option ℕ → List Bool → Bool → List Bool
with_channel none channels is_closed = channels ++ is_closed ∷ []
with_channel (some id) channels is_closed = channels

-- What Notify returns on a tracked bitmap.
pub record Notified (c : Contiguous) (s : Store) (r : Option (ℕ × Contiguous × Store))
    : Type 0 where
  pub id : ℕ
  pub after : Contiguous
  pub world : Store
  pub returned : r ≡ some (id, after, world)
  pub valid : IsTracking after world
  pub outstanding : after.ch ≡ some id
  pub same_channel : id ≡ outstanding_or c.ch (length s.channels)
  pub channels_eq : world.channels ≡ with_channel c.ch s.channels (leb (bound c.last) c.first_clear)
  pub closed : get_elem? world.channels id ≡ some (leb (bound c.last) c.first_clear)
  pub same_bits : world.bits ≡ s.bits
  pub same_last : after.last ≡ c.last
  pub same_start : after.start ≡ c.start
  pub same_clear : after.first_clear ≡ c.first_clear
  pub same_tail : Contiguous.tail after ≡ Contiguous.tail c

get_elem?-append_end {ℓ} :
    {A : Type ℓ} (xs : List A) (v : A) → get_elem? (xs ++ v ∷ []) (length xs) ≡ some v
get_elem?-append_end [] v = refl
get_elem?-append_end (x ∷ xs) v = get_elem?-append_end xs v

get_elem?-set_end {ℓ} :
    {A : Type ℓ} (xs : List A) (v w : A)
    → get_elem? (set (xs ++ v ∷ []) (length xs) w) (length xs) ≡ some w
get_elem?-set_end [] v w = refl
get_elem?-set_end (x ∷ xs) v w = get_elem?-set_end xs v w

set-append_end {ℓ} :
    {A : Type ℓ} (xs : List A) (v w : A) → set (xs ++ v ∷ []) (length xs) w ≡ xs ++ w ∷ []
set-append_end [] v w = refl
set-append_end (x ∷ xs) v w = ap (λ t. x ∷ t) (set-append_end xs v w)

close-fresh :
    (channels : List Bool)
    → close (length channels) (channels ++ false ∷ [])
      ≡ some (set (channels ++ false ∷ []) (length channels) true)
unfolding close
close-fresh channels = rw (
  get_elem?-append_end channels false,
  store-eq_of_lt (channels ++ false ∷ []) (length channels) true
      (omega (arith, length-append channels (false ∷ []))),
)

-- The same tracking with another channel.
retrack :
    (c : Contiguous) (s : Store) (id : ℕ) (channels : List Bool)
    → IsTracking c s
    → get_elem? channels id ≡ some (leb (bound c.last) c.first_clear)
    → IsTracking (record c { ch = some id }) (record s { channels = channels })
retrack c s id channels v h = record {
  room = v.room;
  lower = v.lower;
  upper = v.upper;
  run_set = v.run_set;
  stops = v.stops;
  channel = λ id' e. let same : id ≡ id' = ground arith in rw (← same) h;
}

notify_fields :
    (last : ℤ) (start fc : ℕ) (ch : Option ℕ) (s : Store)
    → let c : Contiguous = record { last = last; start = start; first_clear = fc; ch = ch } in
      IsTracking c s → Notified c s (Contiguous.notify c s)
unfolding Contiguous.notify Contiguous.tail
notify_fields last start fc (some id) s v = record {
  id = id;
  after = record { last = last; start = start; first_clear = fc; ch = some id };
  world = s;
  returned = refl;
  valid = v;
  outstanding = refl;
  same_channel = refl;
  channels_eq = refl;
  closed = v.channel id refl;
  same_bits = refl;
  same_last = refl;
  same_start = refl;
  same_clear = refl;
  same_tail = refl;
}
notify_fields last start fc none s v = elim (Bool-cases (leb (bound last) fc)) [
  | inl full ↦
      let c : Contiguous = record { last = last; start = start; first_clear = fc; ch = none } in
      let id = length s.channels in
      let channels = set (s.channels ++ false ∷ []) id true in
      let now_closed : get_elem? channels id ≡ some (leb (bound last) fc) =
        rw full (get_elem?-set_end s.channels false true) in
      rw (ltb_ℤ-leb last fc, full, close-fresh s.channels)
        (record {
          id = id;
          after = record c { ch = some id };
          world = record s { channels = channels };
          returned = refl;
          valid = retrack c s id channels v now_closed;
          outstanding = refl;
          same_channel = refl;
          channels_eq = rw full (set-append_end s.channels false true);
          closed = now_closed;
          same_bits = refl;
          same_last = refl;
          same_start = refl;
          same_clear = refl;
          same_tail = refl;
        })
  | inr open_end ↦
      let c : Contiguous = record { last = last; start = start; first_clear = fc; ch = none } in
      let id = length s.channels in
      let channels = s.channels ++ false ∷ [] in
      let still_open : get_elem? channels id ≡ some (leb (bound last) fc) =
        rw open_end (get_elem?-append_end s.channels false) in
      rw (ltb_ℤ-leb last fc, open_end)
        (record {
          id = id;
          after = record c { ch = some id };
          world = record s { channels = channels };
          returned = refl;
          valid = retrack c s id channels v still_open;
          outstanding = refl;
          same_channel = refl;
          channels_eq = rw open_end refl;
          closed = still_open;
          same_bits = refl;
          same_last = refl;
          same_start = refl;
          same_clear = refl;
          same_tail = refl;
        })
]

-- Notify() on a tracked bitmap never panics and keeps the tracking right, bitmap and tail included. It
-- returns the channel that is outstanding, and then no channel changes; or else one that it makes, next
-- to the others, which stay. The channel is closed exactly when the whole range is set.
pub notify_lem :
    (c : Contiguous) (s : Store) → IsTracking c s → Notified c s (Contiguous.notify c s)
notify_lem c s v = notify_fields c.last c.start c.first_clear c.ch s v

last_exact :
    (bm : Bitmap) (size : ℕ)
    → 0 < size
    → size ≤ length bm * 64
    → last_of bm (pos size) -ℤ pos 1 ≡ pos (size - 1)
unfolding ◌-ℤ◌
last_exact bm size positive room = ground arith

-- The tracker of the indices from `start` to `size - 1`.
abbrev started : Bitmap → ℕ → ℕ → Contiguous
started bm start size = record {
  last = pos (size - 1);
  start = start;
  first_clear = start + run (contains bm) start (suc (size - 1) - start);
  ch = none;
}

-- NewContiguousWithBitmap, for a `start` within a `size` above 0 that the bitmap has room for, never
-- panics and returns a tracker of the indices from `start` to `size - 1` with no channel.
pub new_with_bitmap_lem :
    (bm : Bitmap) (start size : ℕ) (channels : List Bool)
    → 0 < size
    → start ≤ size
    → size ≤ length bm * 64
    → (c : Contiguous) × (Contiguous.new_with_bitmap bm (pos start) (pos size) ≡ some (some c))
      × IsTracking c (record { bits = bm; channels = channels })
      × (c.start ≡ start)
      × (bound c.last ≡ size)
      × (c.ch ≡ none)
unfolding Contiguous.new_with_bitmap
new_with_bitmap_lem bm start size channels positive within room =
    let fits : ltb_ℤ (pos (length bm * 64)) (pos size) ≡ false = ground arith in
    let accepted : (leb_ℤ (pos size) (pos 0) || ltb_ℤ (pos size) (pos start)) ≡ false =
      ground arith in
    rw
      (
        fits,
        accepted,
        last_exact bm size positive room,
        extend-run bm (pos (size - 1)) (omega arith) start start start none,
      )
      (
        started bm start size,
        refl,
        record {
          room = omega arith;
          lower = omega arith;
          upper = omega (arith, run-le (contains bm) start (suc (size - 1) - start));
          run_set = run_all (contains bm) start (suc (size - 1) - start);
          stops = λ h. run_end (contains bm) start (suc (size - 1) - start) (omega arith);
          channel = λ id e. absurd (cc);
        },
        refl,
        omega arith,
        refl,
      )

-- NewContiguousWithBitmap returns nil for a size that is not above 0 or larger than the
-- bitmap, and for a start that is negative or past the size.
pub new_with_bitmap-nil :
    (bm : Bitmap) (start size : ℤ)
    → (ltb_ℤ (pos (length bm * 64)) size
        || ltb_ℤ start (pos 0)
        || leb_ℤ size (pos 0)
        || ltb_ℤ size start)
      ≡ true
    → Contiguous.new_with_bitmap bm start size ≡ some none
unfolding Contiguous.new_with_bitmap Contiguous.new_contiguous
new_with_bitmap-nil bm (negsuc n) size h = ground arith
new_with_bitmap-nil bm (pos n) (negsuc m) h = ground arith
new_with_bitmap-nil bm (pos n) (pos m) h = ground arith
