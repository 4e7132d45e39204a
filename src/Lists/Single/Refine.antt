-- ===== src/Lists/Single/Refine.antt =====
-- Any changes of a singly linked list, against the same changes of a sequence of entries.
use go_pkgs.Common.Int.{pos}
use go_pkgs.Common.{
  ℕ, suc, ◌≡◌, refl, ap, ◌∙◌, Bool, List, [], ◌∷◌, ◌++◌, map, Option, some, arith, length, ◌>>=◌,
}
use go_pkgs.Lists.Iterate.{head_of, first_element, consume, iterate-Runs}
use go_pkgs.Lists.Entries.{address, element, length-address, Change, add_last, add_first, drop}
use go_pkgs.Lists.Ring.{update_at, count, last, IsDistinct, IsDistinct-head, Runs}
use go_pkgs.Lists.Single.{Single, head, new, reset, append, prepend, remove_item, forward}
use go_pkgs.Lists.Single.Steps.{
  Keeps, append-Keeps, prepend-Keeps, append-fresh, prepend-fresh, without_entry, drop-Keeps,
}

module _ {ℓ} {A : Type ℓ} (unset : A) where
  -- RemoveItem has a round for each address.
  unfoldable pub change : Change A → Single A → Option (Single A)
  change (add_last v) s = some (append v s).1
  change (add_first v) s = some (prepend v s).1
  change (drop i) s = remove_item unset s.fresh i s

  unfoldable pub run : List (Change A) → Single A → Option (Single A)
  run [] s = some s
  run (c ∷ cs) s = do s' ← change c s; run cs s'

module _ {ℓ} {A : Type ℓ} where
  -- The changes on entries, where `n` is the next address.
  unfoldable pub model : List (Change A) → ℕ → List (ℕ × A) → List (ℕ × A)
  model [] n es = es
  model (add_last v ∷ cs) n es = model cs (suc n) (es ++ (n, v) ∷ [])
  model (add_first v ∷ cs) n es = model cs (suc n) ((n, v) ∷ es)
  model (drop i ∷ cs) n es = model cs n (without_entry i es)

  pub run-Keeps :
      (unset : A) (cs : List (Change A)) (s : Single A) (es : List (ℕ × A))
      → Keeps s es
      → (s' : Single A) × (run unset cs s ≡ some s') × Keeps s' (model cs s.fresh es)
  unfolding run change model
  run-Keeps unset [] s es h = (s, refl, h)
  run-Keeps unset (add_last v ∷ cs) s es h =
      rw (append-fresh v s) at (run-Keeps unset cs (append v s).1 _ (append-Keeps v s es h))
  run-Keeps unset (add_first v ∷ cs) s es h =
      rw (prepend-fresh v s) at (run-Keeps unset cs (prepend v s).1 _ (prepend-Keeps v s es h))
  run-Keeps unset (drop i ∷ cs) s es h =
      let (s₁, step, next, h₁) = drop-Keeps unset s es i h in
      let (s', rest, h') = run-Keeps unset cs s₁ (without_entry i es) h₁ in
      (s', rw step rest, rw next at h')

  pub new-Keeps : (unset : A) → Keeps (new unset) []
  unfolding Keeps new reset Runs IsDistinct count last
  new-Keeps unset = record {
    links = update_at _ 0 (some 0);
    distinct = λ c. ground arith;
    old = λ c above. ground arith;
    vals = refl;
    len_eq = refl;
    tail_eq = refl;
    few = omega arith;
  }

  -- Appends, prepends and removals never panic, also of an item that is not in the list, which changes
  -- nothing. Then Forward gives its body the elements in the order of a sequence that is changed alike, until
  -- the body stops, Len is their number, and Head is the first, or the sentinel's value when there is none.
  pub run_lem {κ} :
      (unset : A) (cs : List (Change A)) {S : Type κ} (yield : S → A → S × Bool) (t : S)
      → let es = model cs 1 [] in
        (s : Single A) × (run unset cs (new unset) ≡ some s)
        × (forward yield (suc (length es)) s t ≡ some (consume yield t (map element es)))
        × (s.len ≡ pos (length es))
        × (head s ≡ some (head_of (s.val 0) (map element es)))
  unfolding Keeps new reset forward head
  run_lem unset cs yield t =
      let es = model cs 1 [] in
      let (s, run, h) = run-Keeps unset cs (new unset) [] (new-Keeps unset) in
      (
        s,
        run,
        rw (length-address es, h.vals) at
            (iterate-Runs s.next s.val yield 0 (map address es) t h.links
              (IsDistinct-head 0 (map address es) h.distinct)),
        h.len_eq ∙ ap pos (length-address es),
        rw h.len_eq (rw h.vals at (first_element s.next s.val (map address es) h.links)),
      )
