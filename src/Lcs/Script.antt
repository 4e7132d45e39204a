-- ===== src/Lcs/Script.antt =====
-- DP.SES is an edit script from `a` to `b`, Reverse makes one from `b` to `a`, and it keeps what LCS has.
use go_pkgs.Common.{
  ℕ, zero, suc, ◌+◌, ◌≤◌, ◌<◌, ◌≡◌, refl, sym, ◌∙◌, ◌⊎◌, inl, inr, true, false, List, [], ◌∷◌, ◌++◌,
  some, arith, length, take, ltb,
}
use go_pkgs.Common.Equality.{Equality}
use go_pkgs.Lcs.{
  Direction, diagonal, up, left, up_and_left, Dp, is_diagonal, is_up, is_left, keeps, inserts,
  deletes, insert, delete, identical, Edit, diff, diff_round, apply_edits, apply, reverse, new, lcs,
  ses,
}
use go_pkgs.Lcs.Best.{best, same_at}
use go_pkgs.Lcs.Fill.{way, IsSolved, fill-IsSolved}
use go_pkgs.Lcs.Backtrack.{way-cases, same_at-true, not_zero, less_one, lcs-best}
use go_pkgs.Lcs.Edits.{
  Walk, start, inserting, deleting, keeping, IsScript, take_all, elem, kept, insert-IsScript,
  delete-IsScript, keep-IsScript,
}

module _ {ℓ} {A : Type ℓ} (E : Equality A) (a b : List A) where
  module _ (dp : Dp A) (s : IsSolved E a b dp) where
    abbrev Found : ℕ → ℕ → ℕ → Type ℓ
    Found fuel i j =
        (es : List (Edit A)) × (diff fuel dp i j ≡ some es)
        × IsScript a b (take i a) (take j b) (best E a b i j) es
        × Walk a b i j es

    positive : (i : ℕ) → ltb 0 (suc i) ≡ true
    positive i = ground arith

    insert-Found :
        (fuel i j : ℕ)
        → i ≤ length a
        → suc j ≤ length b
        → keeps i (suc j) (way E a b i (suc j)) ≡ false
        → inserts i (suc j) (way E a b i (suc j)) ≡ true
        → best E a b i (suc j) ≡ best E a b i j
        → Found fuel i j
        → Found (suc fuel) i (suc j)
    unfolding diff diff_round
    insert-Found fuel i j hi hj isnt is same (es, run, h, walk) =
        let (x, at_b) = elem b j (omega arith) in
        (
          es ++ record { op = insert; a = i; b = j; val = x } ∷ [],
          rw (s.read_way i (suc j) hi hj, diff_round, isnt, is, less_one j, run, s.right_eq, at_b)
              refl,
          rw same (insert-IsScript a b i j x es _ at_b h),
          inserting x walk at_b,
        )

    delete-Found :
        (fuel i j : ℕ)
        → suc i ≤ length a
        → j ≤ length b
        → keeps (suc i) j (way E a b (suc i) j) ≡ false
        → inserts (suc i) j (way E a b (suc i) j) ≡ false
        → deletes (suc i) j (way E a b (suc i) j) ≡ true
        → best E a b (suc i) j ≡ best E a b i j
        → Found fuel i j
        → Found (suc fuel) (suc i) j
    unfolding diff diff_round
    delete-Found fuel i j hi hj isnt isnt' is same (es, run, h, walk) =
        let (x, at_a) = elem a i (omega arith) in
        (
          es ++ record { op = delete; a = i; b = j; val = x } ∷ [],
          rw
              (
                s.read_way (suc i) j hi hj,
                diff_round,
                isnt,
                isnt',
                is,
                less_one i,
                run,
                s.left_eq,
                at_a,
              )
              refl,
          rw same (delete-IsScript a b i j x es _ at_a h),
          deleting x walk at_a,
        )

    keeps_diagonal : (i j : ℕ) → keeps (suc i) (suc j) diagonal ≡ true
    unfolding keeps is_diagonal
    keeps_diagonal i j = rw (positive i, positive j) refl

    keep-Found :
        (fuel i j : ℕ)
        → suc i ≤ length a
        → suc j ≤ length b
        → way E a b (suc i) (suc j) ≡ diagonal
        → same_at E a b i j ≡ true
        → best E a b (suc i) (suc j) ≡ best E a b i j + 1
        → Found fuel i j
        → Found (suc fuel) (suc i) (suc j)
    unfolding diff diff_round
    keep-Found fuel i j hi hj w is more (es, run, h, walk) =
        let (x, at_a, at_b) = same_at-true E a b i j is in
        (
          es ++ record { op = identical; a = i; b = j; val = x } ∷ [],
          rw
              (
                s.read_way (suc i) (suc j) hi hj,
                w,
                diff_round,
                keeps_diagonal i j,
                less_one i,
                less_one j,
                run,
                s.right_eq,
                at_b,
              )
              refl,
          rw more (keep-IsScript a b i j x es _ at_a at_b h),
          keeping x walk at_a at_b,
        )

    keeps_up :
        (i j : ℕ) (d : Direction) → (d ≡ up) ⊎ (d ≡ up_and_left) → keeps (suc i) (suc j) d ≡ false
    unfolding keeps is_diagonal
    keeps_up i j d (inl e) = rw (positive i, positive j, e) refl
    keeps_up i j d (inr e) = rw (positive i, positive j, e) refl

    inserts_up :
        (i j : ℕ) (d : Direction) → (d ≡ up) ⊎ (d ≡ up_and_left) → inserts (suc i) (suc j) d ≡ true
    unfolding inserts is_up
    inserts_up i j d (inl e) = rw (positive j, not_zero i, e) refl
    inserts_up i j d (inr e) = rw (positive j, not_zero i, e) refl

    left_tests :
        (i j : ℕ)
        → (keeps (suc i) (suc j) left ≡ false)
          × (inserts (suc i) (suc j) left ≡ false)
          × (deletes (suc i) (suc j) left ≡ true)
    unfolding keeps inserts deletes is_diagonal is_up is_left
    left_tests i j = (
      rw (positive i, positive j) refl,
      rw (positive j, not_zero i) refl,
      rw (positive i, not_zero j) refl,
    )

    best_zero : (i : ℕ) → best E a b i 0 ≡ 0
    unfolding best
    best_zero zero = refl
    best_zero (suc i) = refl

    diff-Found : (fuel i j : ℕ) → i + j < fuel → i ≤ length a → j ≤ length b → Found fuel i j
    unfolding diff best way keeps inserts deletes is_diagonal is_up is_left diff_round apply_edits
        reverse kept
    diff-Found zero i j lt hi hj = absurd (omega arith)
    diff-Found (suc fuel) zero zero lt hi hj = (
      [],
      rw (s.read_way 0 0 hi hj) refl,
      record { forward = refl; backward = refl; kept_eq = refl; changes_eq = refl },
      start,
    )
    diff-Found (suc fuel) zero (suc j) lt hi hj =
        insert-Found fuel zero j hi hj refl (rw (positive j) refl) refl
          (diff-Found fuel zero j (omega arith) hi (omega arith))
    diff-Found (suc fuel) (suc i) zero lt hi hj =
        delete-Found fuel i zero hi hj (rw (positive i) refl) refl (rw (positive i) refl)
          (sym (best_zero i)) (diff-Found fuel i zero (omega arith) (omega arith) hj)
    diff-Found (suc fuel) (suc i) (suc j) lt hi hj = elim (way-cases E a b i j) [
      | inl (w, same, more) ↦
          keep-Found fuel i j hi hj w same more
            (diff-Found fuel i j (omega arith) (omega arith) (omega arith))
      | inr (inl (w, same)) ↦
          insert-Found fuel (suc i) j hi hj (keeps_up i j _ w) (inserts_up i j _ w) same
            (diff-Found fuel (suc i) j (omega arith) hi (omega arith))
      | inr (inr (w, same)) ↦
          delete-Found fuel i (suc j) hi hj (rw w (left_tests i j).0) (rw w (left_tests i j).1)
            (rw w (left_tests i j).2) same
            (diff-Found fuel i (suc j) (omega arith) (omega arith) hj)
    ]

  ses-IsScript :
      (es : List (Edit A)) × (ses E (new a b) ≡ some es)
      × IsScript a b a b (best E a b (length a) (length b)) es
      × Walk a b (length a) (length b) es
  unfolding ses
  ses-IsScript =
      let (dp, run, s) = fill-IsSolved E a b in
      let (es, found, h, walk) =
        diff-Found dp s (suc (length a + length b)) (length a) (length b) (omega arith)
          (omega arith) (omega arith) in
      (es, rw (run, s.left_eq, s.right_eq) found, rw (take_all a, take_all b) at h, walk)

  apply_cases :
      (es : List (Edit A)) (n : ℕ)
      → IsScript a b a b n es
      → (apply es a ≡ some b) × (apply (reverse es) b ≡ some a)
  unfolding apply apply_edits reverse
  apply_cases [] n h = (sym h.backward ∙ h.forward, sym h.forward ∙ h.backward)
  apply_cases (e ∷ es) n h = (h.forward, h.backward)

  -- SES of a new DP never panics, and ends; Apply of the script to `a` is `b`, and Apply of its Reverse to
  -- `b` is `a`.
  pub apply-ses :
      (es : List (Edit A)) × (ses E (new a b) ≡ some es)
      × (apply es a ≡ some b)
      × (apply (reverse es) b ≡ some a)
  apply-ses =
      let (es, run, h, walk) = ses-IsScript in
      let (fwd, bwd) = apply_cases es _ h in (es, run, fwd, bwd)

  -- The script of SES of a new DP goes through `a` and `b` in order: each element of `a` is
  -- deleted, or identical with one of `b`, by one edit with its index and value, and each of `b`
  -- inserted, or identical, by one. It keeps as many elements as LCS has, and so has `length a +
  -- length b - length r` edits.
  pub ses-lcs :
      (es : List (Edit A)) × (r : List A) × (ses E (new a b) ≡ some es)
      × (lcs E (new a b) ≡ some r)
      × Walk a b (length a) (length b) es
      × (kept es ≡ length r)
      × (length es + length r ≡ length a + length b)
  ses-lcs =
      let (es, run, h, walk) = ses-IsScript in
      let (r, run', eq) = lcs-best E a b in
      (es, r, run, run', walk, h.kept_eq ∙ sym eq, rw eq h.changes_eq)
