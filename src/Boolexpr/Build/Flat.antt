-- ===== src/Boolexpr/Build/Flat.antt =====
-- The items of well-formed expressions in a row, and the expressions that New builds from them.
use go_pkgs.Common.{
  ℕ, suc, ◌-◌, ◌<◌, ◌≤◌, arith, Bool, true, false, List, ◌∷◌, some, length, ◌==◌, ◌≡◌, refl, sym,
  ap, ◌∙◌, subst,
}
use go_pkgs.Boolexpr.{
  or_op, and_op, not_op, left_bracket, right_bracket, Item, symbol, sub_expression, operand,
  Expression, nil, cons, is_operator, is_operand, is_operator_symbol,
}
use go_pkgs.Boolexpr.Clauses.{
  Operator, conj, disj, op_symbol, Primary, atom, group, Clause, clause, Tail, done, next, negated,
  item_of, items_of, items_tail,
}
use go_pkgs.Boolexpr.Build.{
  append, last_item, last_is, new_binary_op, new_unary_op, is_not_item, may_group,
  end_sub_expression, balanced, incomplete_expression,
}

not_zero : (d : ℕ) → (suc d == 0) ≡ false
not_zero d = ground arith

one_less : (d : ℕ) → suc d - 1 ≡ d
one_less d = omega arith

module _ {ℓ} {O : Type ℓ} where
  unfoldable pub flat_negated : Bool → List (Item O) → List (Item O)
  flat_negated true k = symbol not_op ∷ k
  flat_negated false k = k

  -- The items of a well-formed expression, groups in brackets, before the items `k`.
  unfoldable mutual
    unfolding flat_negated

    pub flat_primary : Primary O → List (Item O) → List (Item O)
    flat_primary (atom o) k = operand o ∷ k
    flat_primary (group c) k = symbol left_bracket ∷ flat_clause c (symbol right_bracket ∷ k)

    pub flat_clause : Clause O → List (Item O) → List (Item O)
    flat_clause (clause neg p t) k = flat_negated neg (flat_primary p (flat_tail t k))

    pub flat_tail : Tail O → List (Item O) → List (Item O)
    flat_tail done k = k
    flat_tail (next op neg p t) k =
        symbol (op_symbol op) ∷ flat_negated neg (flat_primary p (flat_tail t k))

  unfoldable pub joined : Expression O → Expression O → Expression O
  joined nil e = e
  joined (cons x xs) e = cons x (joined xs e)

  pub joined-nil : (e : Expression O) → joined e nil ≡ e
  unfolding joined
  joined-nil nil = refl
  joined-nil (cons x e) = ap (cons x) (joined-nil e)

  pub joined-append :
      (e : Expression O) (it : Item O) (rest : Expression O)
      → joined (append e it) rest ≡ joined e (cons it rest)
  unfolding joined append
  joined-append nil it rest = refl
  joined-append (cons x e) it rest = ap (cons x) (joined-append e it rest)

  pub last-append : (e : Expression O) (it : Item O) → last_item (append e it) ≡ some it
  unfolding last_item append
  last-append nil it = refl
  last-append (cons x nil) it = refl
  last-append (cons x (cons y e)) it = last-append (cons y e) it

  -- What may stand before a primary.
  unfoldable pub Opens : Expression O → Type 0
  Opens e = may_group e ≡ true

  unfoldable pub Starts : Expression O → Type ℓ
  Starts e = (cur : Item O) → new_unary_op e cur ≡ some (append e cur)

  unfoldable pub Ends : Expression O → Type ℓ
  Ends e =
      ((cur : Item O) → new_binary_op e cur ≡ some (append e cur)) × (end_sub_expression e ≡ some e)

  pub Ends-append : (e : Expression O) (p : Primary O) → Ends (append e (item_of p))
  unfolding Ends new_binary_op end_sub_expression last_is is_operand item_of
  Ends-append e (atom o) = (λ cur. rw (last-append e (operand o)), rw (last-append e (operand o)))
  Ends-append e (group c) = (
    λ cur. rw (last-append e (sub_expression (items_of c))),
    rw (last-append e (sub_expression (items_of c))),
  )

  pub Starts-append : (e : Expression O) (op : Operator) → Starts (append e (symbol (op_symbol op)))
  unfolding Starts new_unary_op last_is is_operator is_operator_symbol
  Starts-append e conj cur = rw (last-append e (symbol and_op))
  Starts-append e disj cur = rw (last-append e (symbol or_op))

  pub Opens-append : (e : Expression O) (op : Operator) → Opens (append e (symbol (op_symbol op)))
  unfolding Opens may_group last_is is_operator is_operator_symbol
  Opens-append e conj = rw (last-append e (symbol and_op))
  Opens-append e disj = rw (last-append e (symbol or_op))

  pub Opens-not : (e : Expression O) → Opens (append e (symbol not_op))
  unfolding Opens may_group last_is is_operator is_operator_symbol is_not_item
  Opens-not e = rw (last-append e (symbol not_op))

  unfoldable pub maybe_not : Bool → Expression O → Expression O
  maybe_not true e = append e (symbol not_op)
  maybe_not false e = e

  pub joined-negated :
      (neg : Bool) (e : Expression O) (it : Item O) (rest : Expression O)
      → joined e (negated neg it rest) ≡ joined (append (maybe_not neg e) it) rest
  unfolding maybe_not negated
  joined-negated true e it rest = sym (
      joined-append (append e (symbol not_op)) it rest
      ∙ joined-append e (symbol not_op) (cons it rest))
  joined-negated false e it rest = sym (joined-append e it rest)

  -- The expression with an operator, perhaps a negation, and a primary added.
  unfoldable pub extended : Expression O → Operator → Bool → Primary O → Expression O
  unfolding maybe_not
  extended e op neg p = append (maybe_not neg (append e (symbol (op_symbol op)))) (item_of p)

  pub joined-next :
      (e : Expression O) (op : Operator) (neg : Bool) (p : Primary O) (t : Tail O)
      → joined e (items_tail (next op neg p t)) ≡ joined (extended e op neg p) (items_tail t)
  unfolding extended items_tail
  joined-next e op neg p t =
      sym (joined-append e (symbol (op_symbol op)) (negated neg (item_of p) (items_tail t)))
      ∙ joined-negated neg (append e (symbol (op_symbol op))) (item_of p) (items_tail t)

  pub Ends-extended :
      (e : Expression O) (op : Operator) (neg : Bool) (p : Primary O) → Ends (extended e op neg p)
  unfolding extended
  Ends-extended e op neg p = Ends-append (maybe_not neg (append e (symbol (op_symbol op)))) p

  pub Ends-tail : (t : Tail O) (e : Expression O) → Ends e → Ends (joined e (items_tail t))
  unfolding items_tail
  Ends-tail done e h = subst Ends (sym (joined-nil e)) h
  Ends-tail (next op neg p t) e h =
      subst Ends (sym (joined-next e op neg p t))
        (Ends-tail t (extended e op neg p) (Ends-extended e op neg p))

  pub Ends-clause : (c : Clause O) → Ends (items_of c)
  unfolding items_of negated joined
  Ends-clause (clause neg p t) =
      subst Ends (sym (joined-negated neg nil (item_of p) (items_tail t)))
        (Ends-tail t (append (maybe_not neg nil) (item_of p)) (Ends-append (maybe_not neg nil) p))

  mutual
    unfolding flat_clause flat_negated

    pub length-primary : (p : Primary O) (k : List (Item O)) → length k < length (flat_primary p k)
    length-primary (atom o) k = omega arith
    length-primary (group c) k = omega (arith, length-clause c (symbol right_bracket ∷ k))

    pub length-clause : (c : Clause O) (k : List (Item O)) → length k < length (flat_clause c k)
    length-clause (clause true p t) k =
        omega (arith, length-primary p (flat_tail t k), length-tail t k)
    length-clause (clause false p t) k =
        omega (arith, length-primary p (flat_tail t k), length-tail t k)

    pub length-tail : (t : Tail O) (k : List (Item O)) → length k ≤ length (flat_tail t k)
    length-tail done k = omega arith
    length-tail (next op true p t) k =
        omega (arith, length-primary p (flat_tail t k), length-tail t k)
    length-tail (next op false p t) k =
        omega (arith, length-primary p (flat_tail t k), length-tail t k)

  pub balanced-right :
      (d : ℕ) (k : List (Item O)) → balanced (suc d) (symbol right_bracket ∷ k) ≡ balanced d k
  unfolding balanced
  balanced-right d k = rw (not_zero d) (ap (λ n. balanced n k) (one_less d))

  mutual
    unfolding flat_clause flat_negated balanced

    pub balanced-primary :
        (p : Primary O) (d : ℕ) (k : List (Item O)) → balanced d (flat_primary p k) ≡ balanced d k
    balanced-primary (atom o) d k = refl
    balanced-primary (group c) d k =
        balanced-clause c (suc d) (symbol right_bracket ∷ k) ∙ balanced-right d k

    pub balanced-clause :
        (c : Clause O) (d : ℕ) (k : List (Item O)) → balanced d (flat_clause c k) ≡ balanced d k
    balanced-clause (clause true p t) d k =
        balanced-primary p d (flat_tail t k) ∙ balanced-tail t d k
    balanced-clause (clause false p t) d k =
        balanced-primary p d (flat_tail t k) ∙ balanced-tail t d k

    pub balanced-tail :
        (t : Tail O) (d : ℕ) (k : List (Item O)) → balanced d (flat_tail t k) ≡ balanced d k
    balanced-tail done d k = refl
    balanced-tail (next conj true p t) d k =
        balanced-primary p d (flat_tail t k) ∙ balanced-tail t d k
    balanced-tail (next conj false p t) d k =
        balanced-primary p d (flat_tail t k) ∙ balanced-tail t d k
    balanced-tail (next disj true p t) d k =
        balanced-primary p d (flat_tail t k) ∙ balanced-tail t d k
    balanced-tail (next disj false p t) d k =
        balanced-primary p d (flat_tail t k) ∙ balanced-tail t d k

  pub complete : (c : Clause O) → incomplete_expression (items_of c) ≡ false
  unfolding incomplete_expression items_of item_of negated items_tail is_not_item
  complete (clause false (atom o) done) = refl
  complete (clause false (group c) done) = complete c
  complete (clause true (atom o) done) = refl
  complete (clause true (group c) done) = refl
  complete (clause true p (next op neg q t)) = refl
  complete (clause false (atom o) (next op true q t)) = refl
  complete (clause false (atom o) (next op false q t)) = refl
  complete (clause false (group c) (next op true q t)) = refl
  complete (clause false (group c) (next op false q t)) = refl
