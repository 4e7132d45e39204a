-- ===== src/Lists/Iterate.antt =====
-- What iterating along links gives to the loop's body.
use go_pkgs.Common.{
  ℕ, suc, ◌≡◌, ◌≢◌, refl, Bool, true, false, List, [], ◌∷◌, map, Option, some, arith, length, ◌==◌,
  ◌>>=◌, if◌then◌else◌,
}
use go_pkgs.Common.Int.{pos}
use go_pkgs.Lists.{iterate, is_zero}
use go_pkgs.Lists.Ring.{Runs, count, count_head, count_tail}

-- A loop over `xs` whose body may stop it.
unfoldable pub consume {ℓ κ} : {A : Type ℓ} {S : Type κ} → (S → A → S × Bool) → S → List A → S
consume yield s [] = s
consume yield s (x ∷ xs) = elim ((yield s x).1) [
  | true ↦ consume yield (yield s x).0 xs
  | false ↦ (yield s x).0
]

module _ {ℓ κ} {A : Type ℓ} {S : Type κ} (f : ℕ → Option ℕ) (val : ℕ → A)
    (yield : S → A → S × Bool) where
  pub iterate-Runs :
      (p : ℕ) (ids : List ℕ) (s : S)
      → Runs f p ids 0
      → count 0 ids ≡ 0
      → iterate f val yield (suc (length ids)) (f p) s ≡ some (consume yield s (map val ids))
  unfolding Runs iterate consume
  iterate-Runs p [] s r out = rw r refl
  iterate-Runs p (a ∷ ids) s (e, r) out =
      rw (e, iterate, not_sentinel a (count_head 0 a ids out))
        (go (yield s (val a))
          (λ s'. iterate-Runs a ids s' r (omega (arith, out, count_tail 0 a ids))))
    where
      not_sentinel : (x : ℕ) → 0 ≢ x → (x == 0) ≡ false
      not_sentinel x h = ground arith

      go :
          (t : S × Bool)
          → ((s' : S)
              → iterate f val yield (suc (length ids)) (f a) s'
                ≡ some (consume yield s' (map val ids)))
          → (elim (t.1) as (λ _. Option S) [
            | true ↦ iterate f val yield (suc (length ids)) (f a) t.0
            | false ↦ some t.0
          ])
            ≡ some (elim (t.1) as (λ _. S) [ true ↦ consume yield t.0 (map val ids) | false ↦ t.0 ])
      go (s', true) ih = ih s'
      go (s', false) ih = refl

module _ {ℓ} {A : Type ℓ} where
  -- The first element, or `v`.
  unfoldable pub head_of : A → List A → A
  head_of v [] = v
  head_of v (x ∷ xs) = x

  pub first_element :
      (link : ℕ → Option ℕ) (val : ℕ → A) (ids : List ℕ)
      → Runs link 0 ids 0
      → (if is_zero (pos (length ids)) then some (val 0) else (do n ← link 0; some (val n)))
        ≡ some (head_of (val 0) (map val ids))
  unfolding Runs head_of is_zero
  first_element link val [] r = refl
  first_element link val (i ∷ ids) (e, r) = rw (not_empty (length ids), e) refl
    where
      not_empty : (n : ℕ) → (suc n == 0) ≡ false
      not_empty n = ground arith
