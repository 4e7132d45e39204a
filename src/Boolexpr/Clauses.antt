-- ===== src/Boolexpr/Clauses.antt =====
-- Well-formed expressions, as trees, and the items that each is written with.
use go_pkgs.Common.{Bool, true, false}
use go_pkgs.Boolexpr.{
  Symbol, or_op, and_op, not_op, Item, symbol, sub_expression, operand, Expression, nil, cons,
}

pub data Operator : Type 0 where
  conj : Operator
  disj : Operator

abbrev pub op_symbol : Operator → Symbol
op_symbol conj = and_op
op_symbol disj = or_op

-- A clause is one or more primaries, each negated or not, with operators in between.
mutual
  pub data Primary {ℓ} (O : Type ℓ) : Type ℓ where
    atom : O → Primary O
    group : Clause O → Primary O

  pub data Clause {ℓ} (O : Type ℓ) : Type ℓ where
    clause : Bool → Primary O → Tail O → Clause O

  pub data Tail {ℓ} (O : Type ℓ) : Type ℓ where
    done : Tail O
    next : Operator → Bool → Primary O → Tail O → Tail O

module _ {ℓ} {O : Type ℓ} where
  unfoldable pub negated : Bool → Item O → Expression O → Expression O
  negated true it rest = cons (symbol not_op) (cons it rest)
  negated false it rest = cons it rest

  unfoldable mutual
    pub item_of : Primary O → Item O
    item_of (atom o) = operand o
    item_of (group c) = sub_expression (items_of c)

    pub items_of : Clause O → Expression O
    items_of (clause neg p t) = negated neg (item_of p) (items_tail t)

    pub items_tail : Tail O → Expression O
    items_tail done = nil
    items_tail (next op neg p t) =
        cons (symbol (op_symbol op)) (negated neg (item_of p) (items_tail t))
