-- ===== src/Boolexpr.antt =====
-- cmdutil/boolexpr/expression.go: the items of an expression, and the expressions that items make.
-- An operand is a value of a type `O`; what the callers' Operand methods do is a parameter.
pub mod Tokenizer
pub mod Evaluator
pub mod Build
pub mod Clauses
mod Tests
use go_pkgs.Common.{Bool, true, false}

-- The item types that have no more to them: orOp, andOp, notOp, leftBracket and rightBracket.
pub data Symbol : Type 0 where
  or_op : Symbol
  and_op : Symbol
  not_op : Symbol
  left_bracket : Symbol
  right_bracket : Symbol

-- An Item has a `sub` only as a subExpression, and an `op` only as an operand.
mutual
  pub data Item {ℓ} (O : Type ℓ) : Type ℓ where
    symbol : Symbol → Item O
    sub_expression : Expression O → Item O
    operand : O → Item O

  pub data Expression {ℓ} (O : Type ℓ) : Type ℓ where
    nil : Expression O
    cons : Item O → Expression O → Expression O

pub is_operator_symbol : Symbol → Bool
is_operator_symbol or_op = true
is_operator_symbol and_op = true
is_operator_symbol _ = false

module _ {ℓ} {O : Type ℓ} where
  pub is_operator : Item O → Bool
  is_operator (symbol s) = is_operator_symbol s
  is_operator (sub_expression e) = false
  is_operator (operand o) = false

  pub is_operand : Item O → Bool
  is_operand (symbol s) = false
  is_operand (sub_expression e) = true
  is_operand (operand o) = true
