-- ===== src/Boolexpr/Build/Terminates.antt =====
-- The fuel of New is enough for any items, and what New builds is guarded at every level.
use go_pkgs.Common.{
  ℕ, zero, suc, ◌<◌, ◌≤◌, arith, Bool, true, false, List, [], ◌∷◌, Option, none, some, length,
  if◌then◌else◌, ◌≡◌, refl, Bool-cases, inl, inr, ◌-◌, ◌==◌, ◌>>=◌,
}
use go_pkgs.Boolexpr.{
  or_op, and_op, not_op, left_bracket, right_bracket, Item, symbol, sub_expression, operand,
  Expression, nil,
}
use go_pkgs.Boolexpr.Build.{
  append, new_binary_op, new_unary_op, may_group, end_sub_expression, and_then, Built, and_then_sub,
  new_operand, new_expression, balanced, incomplete_expression, check_complete, new,
}
use go_pkgs.Boolexpr.Build.Guarded.{
  ends_in_operand, nil-guarded, guarded, Safe, new_binary_op-Safe, new_unary_op-Safe,
  guarded-append_operand, guarded-append_sub, end_sub_expression-ends,
}

module _ {ℓ} {O : Type ℓ} (prepare : O → Option O) where
  -- With open brackets, the expression ends in an operand and the brackets of the rest match.
  Closed : ℕ → Expression O → List (Item O) → Type 0
  Closed zero e rest = 0 ≤ 0
  Closed (suc depth) e rest = (ends_in_operand e ≡ true) × (balanced depth rest ≡ true)

  Good : ℕ → List (Item O) → Option (Built O) → Type 0
  Good depth input none = 0 ≤ 0
  Good depth input (some (e, rest)) =
      (length rest ≤ length input) × (guarded none e ≡ true) × Closed depth e rest

  EndsWell : ℕ → List (Item O) → Option (Option (Built O)) → Type ℓ
  EndsWell depth input result = (r : Option (Built O)) × (result ≡ some r) × Good depth input r

  weaken :
      (depth : ℕ) (rest input : List (Item O)) (result : Option (Option (Built O)))
      → length rest ≤ length input
      → EndsWell depth rest result
      → EndsWell depth input result
  unfolding EndsWell Good
  weaken depth rest input result le (none, e, s) = (none, e, s)
  weaken depth rest input result le (some (t, left), e, (s, g, c)) =
      (some (t, left), e, (omega arith, g, c))

  longer :
      (depth : ℕ) (input : List (Item O)) (it : Item O) (result : Option (Option (Built O)))
      → EndsWell depth input result
      → EndsWell depth (it ∷ input) result
  longer depth input it result = weaken depth input (it ∷ input) result (omega arith)

  fails : (depth : ℕ) (input : List (Item O)) → EndsWell depth input (some none)
  unfolding EndsWell Good
  fails depth input = (none, refl, omega arith)

  after_step :
      (depth : ℕ) (input : List (Item O)) (it : Item O) (step : Option (Expression O))
      (f : Expression O → Option (Option (Built O)))
      → Safe step
      → ((e : Expression O) → guarded none e ≡ true → EndsWell depth input (f e))
      → EndsWell depth (it ∷ input) (and_then step f)
  unfolding and_then Safe
  after_step depth input it none f safe h = fails depth (it ∷ input)
  after_step depth input it (some e) f safe h = longer depth input it (f e) (h e safe)

  after_sub :
      (depth : ℕ) (input : List (Item O)) (result : Option (Option (Built O)))
      (f : Expression O → List (Item O) → Option (Option (Built O)))
      → EndsWell (suc depth) input result
      → ((sub : Expression O) (rest : List (Item O))
          → length rest ≤ length input
          → guarded none sub ≡ true
          → ends_in_operand sub ≡ true
          → balanced depth rest ≡ true
          → EndsWell depth input (f sub rest))
      → EndsWell depth input (and_then_sub result f)
  unfolding EndsWell Good Closed and_then_sub
  after_sub depth input result f (none, e, s) h = (none, rw e refl, s)
  after_sub depth input result f (some (t, rest), e, (s, g, (ends, even))) h =
      let (r, e', s') = h t rest s g ends even in (r, rw e e', s')

  choose :
      (depth : ℕ) (input : List (Item O)) (b : Bool) (result : Option (Option (Built O)))
      → (b ≡ true → EndsWell depth input result)
      → EndsWell depth input (if b then result else some none)
  choose depth input true result h = h refl
  choose depth input false result h = fails depth input

  new_operand-Safe :
      (e : Expression O) (o : O) → guarded none e ≡ true → Safe (new_operand prepare e o)
  unfolding new_operand Safe
  new_operand-Safe e o h = by_prepared (prepare o)
    where
      by_prepared : (p : Option O) → Safe (do o' ← p; some (append e (operand o')))
      by_prepared none = omega arith
      by_prepared (some o') = guarded-append_operand e o' h

  at_end :
      (depth : ℕ) (e : Expression O)
      → balanced {O = O} depth [] ≡ true
      → guarded none e ≡ true
      → EndsWell depth [] (some (some (e, [])))
  unfolding EndsWell Good Closed balanced
  at_end zero e even h = (some (e, []), refl, (omega arith, h, omega arith))
  at_end (suc depth) e even h = absurd (ground arith)

  one_closed :
      (depth : ℕ) (input : List (Item O))
      → balanced (suc depth) (symbol right_bracket ∷ input) ≡ balanced depth input
  unfolding balanced
  one_closed depth input =
      let some_open : (suc depth == 0) ≡ false = ground arith in
      let one_less : suc depth - 1 ≡ depth = omega arith in rw (some_open, one_less) refl

  at_bracket :
      (depth : ℕ) (input : List (Item O)) (e : Expression O)
      → balanced depth (symbol right_bracket ∷ input) ≡ true
      → guarded none e ≡ true
      → EndsWell depth
          (symbol right_bracket ∷ input)
          (and_then (end_sub_expression e) (λ e'. some (some (e', input))))
  unfolding EndsWell Good Closed balanced and_then
  at_bracket zero input e even h = absurd (ground arith)
  at_bracket (suc depth) input e even h = elim (end_sub_expression-ends e) [
    | inl eq ↦ rw eq (fails (suc depth) (symbol right_bracket ∷ input))
    | inr (eq, ends) ↦
        rw eq (some (e, input), refl, (omega arith, h, (ends, rw (one_closed depth input) at even)))
  ]

  ends_well :
      (fuel depth : ℕ) (input : List (Item O)) (e : Expression O)
      → length input < fuel
      → balanced depth input ≡ true
      → guarded none e ≡ true
      → EndsWell depth input (new_expression prepare fuel input e)
  unfolding new_expression balanced
  ends_well zero depth input e lt even h = absurd (omega arith)
  ends_well (suc fuel) depth [] e lt even h = at_end depth e even h
  ends_well (suc fuel) depth (operand o ∷ input) e lt even h =
      after_step depth input (operand o) (new_operand prepare e o)
        (new_expression prepare fuel input) (new_operand-Safe e o h)
        (λ e' h'. ends_well fuel depth input e' (omega arith) even h')
  ends_well (suc fuel) depth (sub_expression s ∷ input) e lt even h =
      longer depth input (sub_expression s) (new_expression prepare fuel input e)
        (ends_well fuel depth input e (omega arith) even h)
  ends_well (suc fuel) depth (symbol or_op ∷ input) e lt even h =
      after_step depth input (symbol or_op) (new_binary_op e (symbol or_op))
        (new_expression prepare fuel input) (new_binary_op-Safe e h).0
        (λ e' h'. ends_well fuel depth input e' (omega arith) even h')
  ends_well (suc fuel) depth (symbol and_op ∷ input) e lt even h =
      after_step depth input (symbol and_op) (new_binary_op e (symbol and_op))
        (new_expression prepare fuel input) (new_binary_op-Safe e h).1
        (λ e' h'. ends_well fuel depth input e' (omega arith) even h')
  ends_well (suc fuel) depth (symbol not_op ∷ input) e lt even h =
      after_step depth input (symbol not_op) (new_unary_op e (symbol not_op))
        (new_expression prepare fuel input) (new_unary_op-Safe e h)
        (λ e' h'. ends_well fuel depth input e' (omega arith) even h')
  ends_well (suc fuel) depth (symbol right_bracket ∷ input) e lt even h =
      at_bracket depth input e even h
  ends_well (suc fuel) depth (symbol left_bracket ∷ input) e lt even h =
      longer depth input (symbol left_bracket) _ (
        choose depth input (may_group e)
          (and_then_sub (new_expression prepare fuel input nil)
            (λ sub rest. new_expression prepare fuel rest (append e (sub_expression sub))))
          (λ opens.
            after_sub depth input (new_expression prepare fuel input nil)
              (λ sub rest. new_expression prepare fuel rest (append e (sub_expression sub)))
              (ends_well fuel (suc depth) input nil (omega arith) even (nil-guarded O))
              (λ sub rest le g ends even'.
                weaken depth rest input
                  (new_expression prepare fuel rest (append e (sub_expression sub))) le
                  (ends_well fuel depth rest (append e (sub_expression sub)) (omega arith) even'
                    (guarded-append_sub e sub h opens ends g)))))

  checked :
      (input : List (Item O)) (r : Option (Built O))
      → Good 0 input r
      → (r' : Option (Expression O)) × (check_complete prepare (some r) ≡ some r') × Safe r'
  unfolding check_complete Good Safe
  checked input none h = (none, refl, omega arith)
  checked input (some (tree, rest)) (le, safe, closed) =
      elim (Bool-cases (incomplete_expression tree)) [
        | inl t ↦ (none, rw t refl, omega arith)
        | inr f ↦ (some tree, rw f refl, safe)
      ]

  -- New ends for any items, whatever Prepare does: its fuel never runs out. What it accepts is
  -- guarded: at each level an && or || follows an operand, a ! starts the level or follows && or ||, a
  -- bracketed expression starts the level or follows &&, || or !, no bracket is left among the items,
  -- and each bracketed expression ends in an operand.
  pub new-Safe :
      (items : List (Item O)) → (r : Option (Expression O)) × (new prepare items ≡ some r) × Safe r
  unfolding new EndsWell Safe
  new-Safe [] = (some nil, refl, nil-guarded O)
  new-Safe (it ∷ items) = elim (Bool-cases (balanced 0 (it ∷ items))) [
    | inr b ↦ (none, rw b refl, omega arith)
    | inl b ↦
        let (r, e, good) =
          ends_well (suc (length (it ∷ items))) 0 (it ∷ items) nil (omega arith) b
            (nil-guarded O) in
        let (r', e', safe) = checked (it ∷ items) r good in (r', rw (b, e) e', safe)
  ]
