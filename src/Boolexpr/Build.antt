-- ===== src/Boolexpr/Build.antt =====
-- New of boolexpr/expression.go: from a flat list of items, read from a channel, to a tree. Inside, `none`
-- is an error that is returned; outside, it is a loop whose fuel ran out, which `new-Safe` excludes.
pub mod Flat
pub mod Guarded
pub mod Parse
pub mod Terminates
use go_pkgs.Common.{
  ℕ, zero, suc, ◌+◌, ◌-◌, Bool, true, false, not, ◌||◌, List, [], ◌∷◌, Option, none, some, length,
  ◌==◌, if◌then◌else◌, ◌>>=◌,
}
use go_pkgs.Boolexpr.{
  Symbol, or_op, and_op, not_op, left_bracket, right_bracket, Item, symbol, sub_expression, operand,
  Expression, nil, cons, is_operator, is_operand,
}

-- What has been built, and what is left in the channel.
abbrev pub Built {ℓ} : (O : Type ℓ) → Type ℓ
Built O = Expression O × List (Item O)

module _ {ℓ} {O : Type ℓ} where
  -- `append(e, it)`
  pub append : Expression O → Item O → Expression O
  append nil it = cons it nil
  append (cons x e) it = cons x (append e it)

  -- `e[len(e)-1]`, if there is one.
  pub last_item : Expression O → Option (Item O)
  last_item nil = none
  last_item (cons x nil) = some x
  last_item (cons x (cons y e)) = last_item (cons y e)

  -- A test of the last item, or `otherwise` of an empty expression.
  pub last_is : (Item O → Bool) → Bool → Option (Item O) → Bool
  last_is test otherwise none = otherwise
  last_is test otherwise (some l) = test l

  pub new_binary_op : Expression O → Item O → Option (Expression O)
  new_binary_op e cur = if last_is is_operand false (last_item e) then some (append e cur) else none

  pub new_unary_op : Expression O → Item O → Option (Expression O)
  new_unary_op e cur = if last_is is_operator true (last_item e) then some (append e cur) else none

  pub is_not_item : Item O → Bool
  is_not_item (symbol not_op) = true
  is_not_item _ = false

  -- The test of newSubExpression.
  pub may_group : Expression O → Bool
  may_group e = last_is (λ l. is_operator l || is_not_item l) true (last_item e)

  pub end_sub_expression : Expression O → Option (Expression O)
  end_sub_expression e = if last_is is_operand false (last_item e) then some e else none

  pub and_then :
      {A : Type ℓ} → Option (Expression O) → (Expression O → Option (Option A)) → Option (Option A)
  and_then none f = some none
  and_then (some e) f = f e

  pub and_then_sub :
      Option (Option (Built O))
      → (Expression O → List (Item O) → Option (Option (Built O)))
      → Option (Option (Built O))
  and_then_sub none f = none
  and_then_sub (some none) f = some none
  and_then_sub (some (some (sub, rest))) f = f sub rest

module _ {ℓ} {O : Type ℓ} (prepare : O → Option O) where
  pub new_operand : Expression O → O → Option (Expression O)
  new_operand e o = do o' ← prepare o; some (append e (operand o'))

  -- newExpression, one round for each item.
  pub new_expression : ℕ → List (Item O) → Expression O → Option (Option (Built O))
  new_expression zero input e = none
  new_expression (suc fuel) [] e = some (some (e, []))
  new_expression (suc fuel) (operand o ∷ input) e =
      and_then (new_operand e o) (λ e'. new_expression fuel input e')
  new_expression (suc fuel) (sub_expression s ∷ input) e = new_expression fuel input e
  new_expression (suc fuel) (symbol or_op ∷ input) e =
      and_then (new_binary_op e (symbol or_op)) (λ e'. new_expression fuel input e')
  new_expression (suc fuel) (symbol and_op ∷ input) e =
      and_then (new_binary_op e (symbol and_op)) (λ e'. new_expression fuel input e')
  new_expression (suc fuel) (symbol not_op ∷ input) e =
      and_then (new_unary_op e (symbol not_op)) (λ e'. new_expression fuel input e')
  new_expression (suc fuel) (symbol left_bracket ∷ input) e =
      let inner =
        and_then_sub (new_expression fuel input nil)
          (λ sub rest. new_expression fuel rest (append e (sub_expression sub))) in
      if may_group e then inner else some none
  new_expression (suc fuel) (symbol right_bracket ∷ input) e =
      and_then (end_sub_expression e) (λ e'. some (some (e', input)))

module _ {ℓ} {O : Type ℓ} where
  -- The loop that counts brackets, from `depth` open ones.
  pub balanced : ℕ → List (Item O) → Bool
  balanced depth [] = depth == 0
  balanced depth (symbol left_bracket ∷ items) = balanced (suc depth) items
  balanced depth (symbol right_bracket ∷ items) =
      let rest = balanced (depth - 1) items in if depth == 0 then false else rest
  balanced depth (_ ∷ items) = balanced depth items

  pub incomplete_expression : Expression O → Bool
  incomplete_expression nil = false
  incomplete_expression (cons (operand o) nil) = false
  incomplete_expression (cons (sub_expression e) nil) = incomplete_expression e
  incomplete_expression (cons (symbol s) nil) = true
  incomplete_expression (cons it (cons _ nil)) = not (is_not_item it)
  incomplete_expression (cons _ (cons _ (cons _ _))) = false

module _ {ℓ} {O : Type ℓ} (prepare : O → Option O) where
  -- The end of New.
  pub check_complete : Option (Option (Built O)) → Option (Option (Expression O))
  check_complete none = none
  check_complete (some none) = some none
  check_complete (some (some (tree, rest))) =
      some (if incomplete_expression tree then none else some tree)

  pub new : List (Item O) → Option (Option (Expression O))
  new [] = some (some nil)
  new (it ∷ items) =
      let tree =
        check_complete (new_expression prepare (suc (length (it ∷ items))) (it ∷ items) nil) in
      if balanced 0 (it ∷ items) then tree else some none
