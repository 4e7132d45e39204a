-- ===== src/Lcs/All.antt =====
-- DP.AllLCS gives exactly the longest common subsequences that are not empty.
use go_pkgs.Common.{
  ℕ, zero, suc, ◌+◌, ◌≤◌, ◌<◌, ◌≡◌, refl, sym, ap, ◌∙◌, inl, inr, true, false, Bool-cases, List, [],
  ◌∷◌, ◌++◌, some, arith, length, subst, dec_lt,
}
use go_pkgs.Common.Equality.{Equality}
use go_pkgs.Lcs.{Dp, new, backtrack_round, backtrack_all, all_lcs}
use go_pkgs.Lcs.Members.{In, empty_list, extend-In}
use go_pkgs.Lcs.Best.{Picks, Picks-le-best, best, same_at}
use go_pkgs.Lcs.Fill.{IsSolved, fill-IsSolved}
use go_pkgs.Lcs.Backtrack.{nothing, backtrack-IsLcs, same_at-true, not_zero, less_one}
use go_pkgs.Lcs.Ends.{
  IsAll, best_diagonal, sides, diagonal_way, longer-IsBest, up-IsAll, left-IsAll, both-IsAll,
  empty-IsAll,
}

module _ {ℓ} {A : Type ℓ} (E : Equality A) (a b : List A) where
  module _ (dp : Dp A) (s : IsSolved E a b dp) where
    best_zero : (i j : ℕ) → i ≤ length a → j ≤ length b → IsAll E a b i j [] → best E a b i j ≡ 0
    unfolding In
    best_zero i j hi hj (sound, complete) =
        let (r, run, isbest) = backtrack-IsLcs E a b dp s (suc (i + j)) i j (omega arith) hi hj in
        elim (dec_lt 0 (length r)) [
          | yes pos ↦ absurd (complete r isbest (omega (arith, pos)) refl)
          | no neg ↦ omega (arith, isbest.2, neg)
        ]

    abbrev Found : ℕ → ℕ → ℕ → Type ℓ
    Found fuel i j =
        (rs : List (List A)) × (backtrack_all fuel dp i j ≡ some rs) × IsAll E a b i j rs

    diagonal-Found :
        (fuel i j : ℕ)
        → suc i ≤ length a
        → suc j ≤ length b
        → same_at E a b i j ≡ true
        → Found fuel i j
        → Found (suc fuel) (suc i) (suc j)
    unfolding backtrack_all backtrack_round
    diagonal-Found fuel i j hi hj is (rs, run, (sound, complete)) =
        let (x, at_a, at_b) = same_at-true E a b i j is in
        let (w, more) = diagonal_way E a b i j is in
        let (rs', ext, inv, keep, single) = extend-In a i x rs at_a in
        (
          rs',
          rw
              (
                not_zero i,
                backtrack_all,
                not_zero j,
                s.read_way (suc i) (suc j) hi hj,
                w,
                backtrack_round,
                less_one i,
                less_one j,
                run,
                s.left_eq,
              )
              ext,
          (
            λ t p.
                (let (u, e, q) = inv t p in
                  elim q [
                    | inl m ↦ longer-IsBest E a b i j x t u at_a at_b more e (sound u m).0
                    | inr (none_below, empty) ↦
                        let e₀ =
                          best_zero i j (omega arith) (omega arith)
                            (subst (IsAll E a b i j) none_below (sound, complete)) in
                        longer-IsBest E a b i j x t u at_a at_b more e
                          (rw empty (nothing a i), rw empty (nothing b j), ap length empty ∙ sym e₀)
                  ]),
            λ t isbest h.
                (let (u, e, q) = best_diagonal E a b i j x t at_a at_b more isbest in
                  elim (dec_lt 0 (length u)) [
                    | yes pos ↦
                        subst (λ z. In z rs') (sym e) (keep u (complete u q (omega (arith, pos))))
                    | no neg ↦
                        let empty = empty_list u (omega (arith, neg)) in
                        let none_below =
                          empty-IsAll E a b i j rs (sound, complete) (omega (arith, q.2, neg)) in
                        subst (λ z. In z rs') (sym (e ∙ ap (λ z. z ++ x ∷ []) empty))
                          (single none_below)
                  ]),
          ),
        )

    step-Found :
        (fuel i j : ℕ)
        → suc i ≤ length a
        → suc j ≤ length b
        → same_at E a b i j ≡ false
        → Found fuel (suc i) j
        → Found fuel i (suc j)
        → Found (suc fuel) (suc i) (suc j)
    unfolding backtrack_all backtrack_round
    step-Found fuel i j hi hj differ (us, run_up, all_up) (ls, run_left, all_left) =
        elim (sides E a b i j differ) [
          | inl (w, eq, less) ↦ (
            us,
            rw
                (
                  not_zero i,
                  backtrack_all,
                  not_zero j,
                  s.read_way (suc i) (suc j) hi hj,
                  w,
                  backtrack_round,
                  less_one j,
                )
                run_up,
            up-IsAll E a b i j us differ eq less all_up,
          )
          | inr (inl (w, eq, less)) ↦ (
            ls,
            rw
                (
                  not_zero i,
                  backtrack_all,
                  not_zero j,
                  s.read_way (suc i) (suc j) hi hj,
                  w,
                  backtrack_round,
                  less_one i,
                )
                run_left,
            left-IsAll E a b i j ls differ eq less all_left,
          )
          | inr (inr (w, eq, eq')) ↦ (
            us ++ ls,
            rw
                (
                  not_zero i,
                  backtrack_all,
                  not_zero j,
                  s.read_way (suc i) (suc j) hi hj,
                  w,
                  backtrack_round,
                  less_one i,
                  less_one j,
                  run_up,
                  run_left,
                )
                refl,
            both-IsAll E a b i j us ls differ eq eq' all_up all_left,
          )
        ]

    zero_best : (i : ℕ) → best E a b i 0 ≡ 0
    unfolding best
    zero_best zero = refl
    zero_best (suc i) = refl

    nothing-IsAll : (i j : ℕ) → best E a b i j ≡ 0 → IsAll E a b i j []
    unfolding In
    nothing-IsAll i j e =
        (λ t p. absurd (p refl), λ t (p, q, len) h. absurd (omega (arith, len, e)))

    all-Found : (fuel i j : ℕ) → i + j < fuel → i ≤ length a → j ≤ length b → Found fuel i j
    unfolding backtrack_all backtrack_round best
    all-Found zero i j lt hi hj = absurd (omega arith)
    all-Found (suc fuel) zero j lt hi hj = ([], refl, nothing-IsAll 0 j refl)
    all-Found (suc fuel) (suc i) zero lt hi hj =
        ([], rw (not_zero i, backtrack_all) refl, nothing-IsAll (suc i) 0 refl)
    all-Found (suc fuel) (suc i) (suc j) lt hi hj = elim (Bool-cases (same_at E a b i j)) [
      | inl is ↦
          diagonal-Found fuel i j hi hj is
            (all-Found fuel i j (omega arith) (omega arith) (omega arith))
      | inr isnt ↦
          step-Found fuel i j hi hj isnt (all-Found fuel (suc i) j (omega arith) hi (omega arith))
            (all-Found fuel i (suc j) (omega arith) (omega arith) hj)
    ]

  -- AllLCS of a new DP never panics, and ends. It returns exactly the lists that take elements of `a`, in
  -- order, and of `b`, and than which no list that does is longer, when those are not empty; otherwise it
  -- returns none.
  pub all_lcs_lem :
      (rs : List (List A)) × (all_lcs E (new a b) ≡ some rs)
      × ((t : List A)
          → In t rs
          → Picks a t (length a)
            × Picks b t (length b)
            × ((u : List A) → Picks a u (length a) → Picks b u (length b) → length u ≤ length t)
            × (1 ≤ length t))
      × ((t : List A)
          → Picks a t (length a)
          → Picks b t (length b)
          → ((u : List A) → Picks a u (length a) → Picks b u (length b) → length u ≤ length t)
          → 1 ≤ length t
          → In t rs)
  unfolding all_lcs
  all_lcs_lem =
      let (dp, run, s) = fill-IsSolved E a b in
      let m = length a in
      let n = length b in
      let (rs, found, (sound, complete)) =
        all-Found dp s (suc (m + n)) m n (omega arith) (omega arith) (omega arith) in
      let (r, run', (pr, qr, len)) =
        backtrack-IsLcs E a b dp s (suc (m + n)) m n (omega arith) (omega arith) (omega arith) in
      (
        rs,
        rw (run, s.left_eq, s.right_eq) found,
        λ t i.
            (let ((p, q, e), h) = sound t i in
              (p, q, λ u pu qu. omega (arith, Picks-le-best E a b u m n pu qu, e), h)),
        λ t p q longest h.
            complete t (p, q, omega (arith, longest r pr qr, len, Picks-le-best E a b t m n p q)) h,
      )
