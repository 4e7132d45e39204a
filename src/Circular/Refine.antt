-- ===== src/Circular/Refine.antt =====
-- A sequence of operations on a buffer gives what a queue gives.
use go_pkgs.Common.{
  ℕ, zero, suc, ◌≡◌, refl, inl, List, [], ◌∷◌, ◌++◌, Option, some, arith, take, drop, replicate,
  length-replicate, ◌>>=◌,
}
use go_pkgs.Common.Int.{pos}
use go_pkgs.Circular.{Buffer, new, append, head, compact}
use go_pkgs.Circular.Queue.{IsQueue}
use go_pkgs.Circular.Append.{==-no, append-IsQueue}
use go_pkgs.Circular.Head.{head-IsQueue, compact-IsQueue}

pub data Call {ℓ} (A : Type ℓ) : Type ℓ where
  append_call : List A → Call A
  head_call : ℕ → Call A
  compact_call : Call A

-- The queue that a buffer promises to be: what Head returns, call by call, and what is left.
unfoldable pub queue {ℓ} : {A : Type ℓ} → List (Call A) → List A → List (List A) × List A
queue [] xs = ([], xs)
queue (append_call v ∷ calls) xs = queue calls (xs ++ v)
queue (head_call n ∷ calls) xs =
    let (outs, left) = queue calls (drop n xs) in (take n xs ∷ outs, left)
queue (compact_call ∷ calls) xs = queue calls xs

module _ {ℓ} {A : Type ℓ} (empty : A) where
  unfoldable pub run : List (Call A) → Buffer A → Option (List (List A) × Buffer A)
  run [] b = some ([], b)
  run (append_call v ∷ calls) b = append empty b v >>= λ b'. run calls b'
  run (head_call n ∷ calls) b = do
    (out, b') ← head empty b (pos n)
    (outs, last) ← run calls b'
    some (out ∷ outs, last)
  run (compact_call ∷ calls) b = compact empty b >>= λ b'. run calls b'

  run-queue :
      (calls : List (Call A)) (b : Buffer A) (xs : List A)
      → IsQueue empty b xs
      → (b' : Buffer A) × (run calls b ≡ some ((queue calls xs).0, b'))
        × IsQueue empty b' (queue calls xs).1
  unfolding run queue
  run-queue [] b xs h = (b, refl, h)
  run-queue (append_call v ∷ calls) b xs h =
      let (b₁, e, h₁) = append-IsQueue empty b xs h v in
      let (b₂, e₂, h₂) = run-queue calls b₁ (xs ++ v) h₁ in (b₂, rw e e₂, h₂)
  run-queue (head_call n ∷ calls) b xs h =
      let (b₁, e, h₁) = head-IsQueue empty b xs h n in
      let (b₂, e₂, h₂) = run-queue calls b₁ (drop n xs) h₁ in (b₂, rw (e, e₂), h₂)
  run-queue (compact_call ∷ calls) b xs h =
      let (b₁, e, h₁, _) = compact-IsQueue empty b xs h in
      let (b₂, e₂, h₂) = run-queue calls b₁ xs h₁ in (b₂, rw e e₂, h₂)

  new-IsQueue : (size : ℕ) → (b : Buffer A) × (new empty (pos size) ≡ some b) × IsQueue empty b []
  unfolding new
  new-IsQueue zero = (
    record { storage = empty ∷ []; used = 0; head = 0; tail = pos 0 },
    refl,
    record {
      next = 1;
      tail = refl;
      used = refl;
      storage = omega arith;
      head_le = omega arith;
      next_le = omega arith;
      ends = inl refl;
      front = λ i lt_i within. absurd (omega arith);
      back = λ i lt_i beyond. absurd (omega arith);
    },
  )
  new-IsQueue (suc n) = (
    record { storage = replicate (suc n) empty; used = 0; head = 0; tail = pos 0 },
    rw (==-no (suc n) 0 (omega arith)),
    record {
      next = 1;
      tail = refl;
      used = refl;
      storage = omega (arith, length-replicate (suc n) empty);
      head_le = omega arith;
      next_le = omega (arith, length-replicate (suc n) empty);
      ends = inl refl;
      front = λ i lt_i within. absurd (omega arith);
      back = λ i lt_i beyond. absurd (omega arith);
    },
  )

  -- Any calls of Append, Head (of no negative count) and Compact on a new buffer, of any size that is
  -- not negative, end without a panic; each Head returns what the queue that starts empty returns, and
  -- at the end the buffer holds what that queue holds.
  pub run-new :
      (size : ℕ) (calls : List (Call A))
      → (b : Buffer A) × ((new empty (pos size) >>= run calls) ≡ some ((queue calls []).0, b))
        × IsQueue empty b (queue calls []).1
  run-new size calls =
      let (b, e, h) = new-IsQueue size in
      let (b', e', h') = run-queue calls b [] h in (b', rw e e', h')
