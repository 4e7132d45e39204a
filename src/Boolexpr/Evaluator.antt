-- ===== src/Boolexpr/Evaluator.antt =====
-- The evaluator of boolexpr/expression.go. `none` is a panic: of run, when operands are left without an
-- operator, or of an index into no values.
pub mod Meaning
pub mod Uniform
use go_pkgs.Common.{
  Bool, true, false, not, ◌&&◌, ◌||◌, List, [], ◌∷◌, ◌++◌, Option, none, some, if◌then◌else◌, ◌>>=◌,
}
use go_pkgs.Boolexpr.{
  Symbol, or_op, and_op, not_op, left_bracket, right_bracket, Item, symbol, sub_expression, operand,
  Expression, nil, cons,
}

pub record Evaluator : Type 0 where
  pub values : List Bool
  pub operators : List Symbol

pub is_not : Symbol → Bool
is_not not_op = true
is_not _ = false

-- `e.operators[len(e.operators)-1] == notOp`, of at least two operators.
pub ends_in_not : List Symbol → Bool
ends_in_not [] = false
ends_in_not (s ∷ []) = is_not s
ends_in_not (s ∷ t ∷ rest) = ends_in_not (t ∷ rest)

-- `e.operators[:len(e.operators)-1]`
pub without_last : List Symbol → List Symbol
without_last [] = []
without_last (s ∷ []) = []
without_last (s ∷ t ∷ rest) = s ∷ without_last (t ∷ rest)

-- The negation of a single value.
pub negate_single : List Bool → List Symbol → Evaluator
negate_single (a ∷ []) (not_op ∷ []) = record { values = not a ∷ []; operators = [] }
negate_single values operators = record { values = values; operators = operators }

-- The switch on the first operator, for two values: whether it ends the run, and the new evaluator.
pub apply_first : Symbol → Bool → Bool → List Symbol → Bool × Evaluator
apply_first and_op a b ops = (false, record { values = (a && b) ∷ []; operators = ops })
apply_first or_op a b ops = (a || b, record { values = (a || b) ∷ []; operators = ops })
apply_first _ a b ops = (false, record { values = a ∷ b ∷ []; operators = ops })

-- Two values and at least one operator.
pub apply_pair : Bool → Bool → Symbol → List Symbol → Bool × Evaluator
apply_pair a b op [] = apply_first op a b (op ∷ [])
apply_pair a b op (t ∷ rest) =
    if ends_in_not (t ∷ rest)
    then apply_first op a (not b) (op ∷ without_last (t ∷ rest))
    else apply_first op a b (op ∷ t ∷ rest)

pub eval_pair : Evaluator → List Bool → List Symbol → Bool × Evaluator
eval_pair e (a ∷ b ∷ []) (op ∷ ops) = apply_pair a b op ops
eval_pair e values operators = (false, e)

-- Whether the run ends with true, and the new evaluator.
pub eval : Evaluator → Bool × Evaluator
eval e = let e' = negate_single e.values e.operators in eval_pair e' e'.values e'.operators

-- What is left when the items have ended.
pub result : List Bool → Option Bool
result (a ∷ []) = some a
result _ = none

pub push_op : Symbol → Evaluator → Evaluator
push_op or_op e = record e { operators = e.operators ++ or_op ∷ [] }
push_op and_op e = record e { operators = e.operators ++ and_op ∷ [] }
push_op not_op e = record e { operators = e.operators ++ not_op ∷ [] }
push_op _ e = e

pub push_val : Bool → Evaluator → Evaluator
push_val b e = record e { values = e.values ++ b ∷ [] }

module _ {ℓ κ} {O : Type ℓ} {V : Type κ} (value : O → V → Bool) where
  mutual
    -- The evaluator after the item, before eval.
    pub take_item : Item O → V → Evaluator → Option Evaluator
    take_item (symbol s) v e = some (push_op s e)
    take_item (sub_expression sub) v e = do
      b ← run sub v (record { values = []; operators = [] })
      some (push_val b e)
    take_item (operand o) v e = some (push_val (value o v) e)

    pub run : Expression O → V → Evaluator → Option Bool
    run nil v e = result e.values
    run (cons it items) v e = do
      e' ← take_item it v e
      let done = (eval e').0
      let rest = run items v (eval e').1
      if done then some true else rest

  -- T.Eval
  pub evaluate : Expression O → V → Option Bool
  evaluate nil v = some false
  evaluate (cons it items) v = run (cons it items) v (record { values = []; operators = [] })
