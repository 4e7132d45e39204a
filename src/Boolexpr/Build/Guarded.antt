-- ===== src/Boolexpr/Build/Guarded.antt =====
-- Which item may follow which in what New of boolexpr/expression.go builds, by its error messages.
use go_pkgs.Common.{
  Bool, true, false, ◌&&◌, ◌||◌, Option, none, some, if◌then◌else◌, ◌≡◌, refl, sym, ◌∙◌, ◌⊎◌, ◌≤◌,
  arith, Bool-cases, inl, inr,
}
use go_pkgs.Boolexpr.{
  is_operator_symbol, or_op, and_op, not_op, left_bracket, right_bracket, Item, symbol,
  sub_expression, operand, Expression, nil, cons, is_operator, is_operand,
}
use go_pkgs.Boolexpr.Build.{
  append, last_item, last_is, new_binary_op, new_unary_op, is_not_item, may_group,
  end_sub_expression,
}

and-parts : (a b : Bool) → (a && b) ≡ true → (a ≡ true) × (b ≡ true)
and-parts a b h = ground arith

module _ {ℓ} {O : Type ℓ} where
  -- The item before is an operand.
  after_operand : Option (Item O) → Bool
  after_operand (some (operand o)) = true
  after_operand (some (sub_expression e)) = true
  after_operand _ = false

  -- There is no item before, or it is && or ||.
  after_operator : Option (Item O) → Bool
  after_operator none = true
  after_operator (some (symbol and_op)) = true
  after_operator (some (symbol or_op)) = true
  after_operator _ = false

  -- There is no item before, or it is &&, || or !.
  after_symbol : Option (Item O) → Bool
  after_symbol (some (symbol not_op)) = true
  after_symbol before = after_operator before

  -- The last item of an expression that follows `before`.
  last_from : Option (Item O) → Expression O → Option (Item O)
  last_from before nil = before
  last_from before (cons it e) = last_from (some it) e

  pub ends_in_operand : Expression O → Bool
  ends_in_operand e = after_operand (last_from none e)

  mutual
    -- Each && and || follows an operand; a ! starts its level or follows && or ||; a bracketed
    -- expression starts its level or follows &&, || or !; no bracket is left; and each bracketed
    -- expression ends in an operand and is itself guarded.
    pub guarded : Option (Item O) → Expression O → Bool
    guarded before nil = true
    guarded before (cons it e) = may_follow before it && guarded (some it) e

    may_follow : Option (Item O) → Item O → Bool
    may_follow before (operand o) = true
    may_follow before (sub_expression e) =
        after_symbol before && (ends_in_operand e && guarded none e)
    may_follow before (symbol or_op) = after_operand before
    may_follow before (symbol and_op) = after_operand before
    may_follow before (symbol not_op) = after_operator before
    may_follow before (symbol left_bracket) = false
    may_follow before (symbol right_bracket) = false

  guarded-append_from :
      (before : Option (Item O)) (e : Expression O) (it : Item O)
      → guarded before e ≡ true
      → may_follow (last_from before e) it ≡ true
      → guarded before (append e it) ≡ true
  unfolding guarded append last_from
  guarded-append_from before nil it h f = rw f refl
  guarded-append_from before (cons x e) it h f =
      let (now, later) = and-parts (may_follow before x) (guarded (some x) e) h in
      rw (now, guarded-append_from (some x) e it later f) refl

  -- Appending an item that may follow what is there keeps the rest as it is.
  guarded-append :
      (e : Expression O) (it : Item O)
      → guarded none e ≡ true
      → may_follow (last_from none e) it ≡ true
      → guarded none (append e it) ≡ true
  guarded-append e it = guarded-append_from none e it

  last_from-last_item :
      (before : Option (Item O)) (x : Item O) (e : Expression O)
      → last_from before (cons x e) ≡ last_item (cons x e)
  unfolding last_from last_item
  last_from-last_item before x nil = refl
  last_from-last_item before x (cons y e) = last_from-last_item (some x) y e

  last_lem : (e : Expression O) → last_from none e ≡ last_item e
  unfolding last_from last_item
  last_lem nil = refl
  last_lem (cons x e) = last_from-last_item none x e

  operand_test : (before : Option (Item O)) → last_is is_operand false before ≡ after_operand before
  unfolding last_is is_operand after_operand
  operand_test none = refl
  operand_test (some (operand o)) = refl
  operand_test (some (sub_expression e)) = refl
  operand_test (some (symbol s)) = refl

  operator_test :
      (before : Option (Item O)) → last_is is_operator true before ≡ after_operator before
  unfolding last_is is_operator is_operator_symbol after_operator
  operator_test none = refl
  operator_test (some (operand o)) = refl
  operator_test (some (sub_expression e)) = refl
  operator_test (some (symbol or_op)) = refl
  operator_test (some (symbol and_op)) = refl
  operator_test (some (symbol not_op)) = refl
  operator_test (some (symbol left_bracket)) = refl
  operator_test (some (symbol right_bracket)) = refl

  group_test_last :
      (before : Option (Item O))
      → last_is (λ l. is_operator l || is_not_item l) true before ≡ after_symbol before
  unfolding last_is is_operator is_operator_symbol is_not_item after_symbol after_operator
  group_test_last none = refl
  group_test_last (some (operand o)) = refl
  group_test_last (some (sub_expression e)) = refl
  group_test_last (some (symbol or_op)) = refl
  group_test_last (some (symbol and_op)) = refl
  group_test_last (some (symbol not_op)) = refl
  group_test_last (some (symbol left_bracket)) = refl
  group_test_last (some (symbol right_bracket)) = refl

  -- What a step of New returns: an error, or an expression that is guarded.
  unfoldable pub Safe : Option (Expression O) → Type 0
  Safe none = 0 ≤ 0
  Safe (some e) = guarded none e ≡ true

  append-Safe :
      (e : Expression O) (it : Item O) (b : Bool)
      → guarded none e ≡ true
      → b ≡ may_follow (last_from none e) it
      → Safe (if b then some (append e it) else none)
  unfolding Safe
  append-Safe e it false h f = omega arith
  append-Safe e it true h f = guarded-append e it h (sym f)

  pub new_binary_op-Safe :
      (e : Expression O)
      → guarded none e ≡ true
      → Safe (new_binary_op e (symbol or_op)) × Safe (new_binary_op e (symbol and_op))
  unfolding new_binary_op may_follow
  new_binary_op-Safe e h =
      let test : last_is is_operand false (last_item e) ≡ after_operand (last_from none e) =
        rw (last_lem e) (operand_test (last_item e)) in
      (
        append-Safe e (symbol or_op) (last_is is_operand false (last_item e)) h test,
        append-Safe e (symbol and_op) (last_is is_operand false (last_item e)) h test,
      )

  pub new_unary_op-Safe :
      (e : Expression O) → guarded none e ≡ true → Safe (new_unary_op e (symbol not_op))
  unfolding new_unary_op may_follow
  new_unary_op-Safe e h =
      append-Safe e (symbol not_op) (last_is is_operator true (last_item e)) h
        (rw (last_lem e) (operator_test (last_item e)))

  pub guarded-append_operand :
      (e : Expression O) (o : O)
      → guarded none e ≡ true
      → guarded none (append e (operand o)) ≡ true
  unfolding may_follow
  guarded-append_operand e o h = guarded-append e (operand o) h refl

  -- A bracketed expression that may be opened, ends in an operand and is guarded.
  pub guarded-append_sub :
      (e sub : Expression O)
      → guarded none e ≡ true
      → may_group e ≡ true
      → ends_in_operand sub ≡ true
      → guarded none sub ≡ true
      → guarded none (append e (sub_expression sub)) ≡ true
  unfolding may_group may_follow
  guarded-append_sub e sub h opens ends inside =
      let follows : after_symbol (last_from none e) ≡ true =
        rw (last_lem e) (sym (group_test_last (last_item e)) ∙ opens) in
      guarded-append e (sub_expression sub) h (rw (follows, ends, inside) refl)

  -- endSubExpression lets through what ends in an operand, as it is.
  pub end_sub_expression-ends :
      (e : Expression O)
      → (end_sub_expression e ≡ none) ⊎ (end_sub_expression e ≡ some e) × (ends_in_operand e ≡ true)
  unfolding end_sub_expression ends_in_operand
  end_sub_expression-ends e =
      let test : last_is is_operand false (last_item e) ≡ after_operand (last_from none e) =
        rw (last_lem e) (operand_test (last_item e)) in
      elim (Bool-cases (after_operand (last_from none e))) [
        | inl t ↦ inr (rw (test, t) refl, t)
        | inr f ↦ inl (rw (test, f) refl)
      ]

pub nil-guarded {ℓ} : (O : Type ℓ) → guarded {O = O} none nil ≡ true
unfolding guarded
nil-guarded O = refl
