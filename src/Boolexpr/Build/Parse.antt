-- ===== src/Boolexpr/Build/Parse.antt =====
-- New gives back the tree of a well-formed expression from the items that it is written with.
use go_pkgs.Common.{
  ℕ, zero, suc, ◌<◌, ◌≤◌, arith, Bool, true, false, List, [], ◌∷◌, Option, some, length, ◌≡◌, refl,
  sym, ap, ◌∙◌, subst,
}
use go_pkgs.Boolexpr.{
  or_op, and_op, not_op, left_bracket, right_bracket, Item, symbol, sub_expression, operand,
  Expression, nil,
}
use go_pkgs.Boolexpr.Clauses.{
  Operator, conj, disj, op_symbol, Primary, atom, group, Clause, clause, Tail, done, next, item_of,
  items_of, items_tail,
}
use go_pkgs.Boolexpr.Build.{
  append, last_item, last_is, new_unary_op, may_group, and_then, Built, and_then_sub, new_operand,
  new_expression, balanced, incomplete_expression, check_complete, new,
}
use go_pkgs.Boolexpr.Build.Flat.{
  Ends, Ends-append, Ends-clause, Opens, Opens-append, Opens-not, Starts, Starts-append,
  balanced-clause, complete, extended, flat_clause, flat_negated, flat_primary, flat_tail, joined,
  joined-negated, joined-next, joined-nil, length-clause, maybe_not,
}

module _ {ℓ} {O : Type ℓ} (prepare : O → Option O) (ready : O → O)
    (prepared : (o : O) → prepare o ≡ some (ready o)) where
  -- The expression with its operands prepared.
  unfoldable mutual
    ready_primary : Primary O → Primary O
    ready_primary (atom o) = atom (ready o)
    ready_primary (group c) = group (ready_clause c)

    pub ready_clause : Clause O → Clause O
    ready_clause (clause neg p t) = clause neg (ready_primary p) (ready_tail t)

    ready_tail : Tail O → Tail O
    ready_tail done = done
    ready_tail (next op neg p t) = next op neg (ready_primary p) (ready_tail t)

  Reads : List (Item O) → Expression O → Option (Built O) → Type ℓ
  Reads input e r = (fuel : ℕ) → length input < fuel → new_expression prepare fuel input e ≡ some r

  nil-Starts : Starts {O = O} nil
  unfolding Starts new_unary_op last_is last_item
  nil-Starts cur = refl

  nil-Opens : Opens {O = O} nil
  unfolding Opens may_group last_is last_item
  nil-Opens = refl

  balanced-none : balanced {O = O} 0 [] ≡ true
  unfolding balanced
  balanced-none = refl

  read_symbol :
      (op : Operator) (k : List (Item O)) (e : Expression O) (r : Option (Built O))
      → Ends e
      → Reads k (append e (symbol (op_symbol op))) r
      → Reads (symbol (op_symbol op) ∷ k) e r
  unfolding Reads Ends new_expression and_then
  read_symbol op k e r ends h zero lt = absurd (omega arith)
  read_symbol conj k e r (binary, _) h (suc fuel) lt =
      rw (binary (symbol and_op)) (h fuel (omega arith))
  read_symbol disj k e r (binary, _) h (suc fuel) lt =
      rw (binary (symbol or_op)) (h fuel (omega arith))

  read_not :
      (k : List (Item O)) (e : Expression O) (r : Option (Built O))
      → Starts e
      → Reads k (append e (symbol not_op)) r
      → Reads (symbol not_op ∷ k) e r
  unfolding Reads Starts new_expression and_then
  read_not k e r starts h zero lt = absurd (omega arith)
  read_not k e r starts h (suc fuel) lt = rw (starts (symbol not_op)) (h fuel (omega arith))

  read_operand :
      (o : O) (k : List (Item O)) (e : Expression O) (r : Option (Built O))
      → Reads k (append e (operand (ready o))) r
      → Reads (operand o ∷ k) e r
  unfolding Reads new_expression and_then new_operand
  read_operand o k e r h zero lt = absurd (omega arith)
  read_operand o k e r h (suc fuel) lt = rw (prepared o) (h fuel (omega arith))

  read_end :
      (k : List (Item O)) (e : Expression O)
      → Ends e
      → Reads (symbol right_bracket ∷ k) e (some (e, k))
  unfolding Reads Ends new_expression and_then
  read_end k e ends zero lt = absurd (omega arith)
  read_end k e (_, end) (suc fuel) lt = rw end

  read_group :
      (inner k : List (Item O)) (e sub : Expression O) (r : Option (Built O))
      → Opens e
      → length k ≤ length inner
      → Reads inner nil (some (sub, k))
      → Reads k (append e (sub_expression sub)) r
      → Reads (symbol left_bracket ∷ inner) e r
  unfolding Reads Opens new_expression and_then_sub
  read_group inner k e sub r opens shorter first h zero lt = absurd (omega arith)
  read_group inner k e sub r opens shorter first h (suc fuel) lt =
      rw (opens, first fuel (omega arith)) (h fuel (omega arith))

  read_negated :
      (neg : Bool) (k : List (Item O)) (e : Expression O) (r : Option (Built O))
      → Starts e
      → Opens e
      → ((e' : Expression O) → e' ≡ maybe_not neg e → Opens e' → Reads k e' r)
      → Reads (flat_negated neg k) e r
  unfolding flat_negated maybe_not
  read_negated true k e r starts opens h =
      read_not k e r starts (h (append e (symbol not_op)) refl (Opens-not e))
  read_negated false k e r starts opens h = h e refl opens

  mutual
    unfolding flat_clause ready_clause items_of joined extended

    primary-Reads :
        (p : Primary O) (k : List (Item O)) (e : Expression O) (r : Option (Built O))
        → Opens e
        → Reads k (append e (item_of (ready_primary p))) r
        → Reads (flat_primary p k) e r
    primary-Reads (atom o) k e r opens h = read_operand o k e r h
    primary-Reads (group c) k e r opens h =
        let whole = items_of (ready_clause c) in
        read_group (flat_clause c (symbol right_bracket ∷ k)) k e whole r opens
          (omega (arith, length-clause c (symbol right_bracket ∷ k)))
          (clause-Reads c (symbol right_bracket ∷ k) (some (whole, k))
            (read_end k whole (Ends-clause (ready_clause c))))
          h

    clause-Reads :
        (c : Clause O) (k : List (Item O)) (r : Option (Built O))
        → Reads k (items_of (ready_clause c)) r
        → Reads (flat_clause c k) nil r
    clause-Reads (clause neg p t) k r h =
        read_negated neg (flat_primary p (flat_tail t k)) nil r nil-Starts nil-Opens (λ e' e opens.
          primary-Reads p (flat_tail t k) e' r opens (
            tail-Reads t k (append e' (item_of (ready_primary p))) r
              (Ends-append e' (ready_primary p))
              (subst (λ w. Reads k w r)
                (joined-negated neg nil (item_of (ready_primary p)) (items_tail (ready_tail t))
                  ∙ ap
                      (λ w.
                        joined (append w (item_of (ready_primary p))) (items_tail (ready_tail t)))
                      (sym e))
                h)))

    tail-Reads :
        (t : Tail O) (k : List (Item O)) (e : Expression O) (r : Option (Built O))
        → Ends e
        → Reads k (joined e (items_tail (ready_tail t))) r
        → Reads (flat_tail t k) e r
    tail-Reads done k e r ends h = subst (λ w. Reads k w r) (joined-nil e) h
    tail-Reads (next op neg p t) k e r ends h =
        read_symbol op (flat_negated neg (flat_primary p (flat_tail t k))) e r ends (
          read_negated neg (flat_primary p (flat_tail t k)) (append e (symbol (op_symbol op))) r
            (Starts-append e op) (Opens-append e op)
            (λ e' same opens. primary-Reads p (flat_tail t k) e' r opens (
              tail-Reads t k (append e' (item_of (ready_primary p))) r
                (Ends-append e' (ready_primary p))
                (subst (λ w. Reads k w r)
                  (joined-next e op neg (ready_primary p) (ready_tail t)
                    ∙ ap
                        (λ w.
                          joined (append w (item_of (ready_primary p))) (items_tail (ready_tail t)))
                        (sym same))
                  h))))

  end_read : (e : Expression O) → Reads [] e (some (e, []))
  unfolding Reads new_expression
  end_read e zero lt = absurd (omega arith)
  end_read e (suc fuel) lt = refl

  new-eq :
      (items : List (Item O)) (tree : Expression O)
      → 0 < length items
      → balanced 0 items ≡ true
      → incomplete_expression tree ≡ false
      → Reads items nil (some (tree, []))
      → new prepare items ≡ some (some tree)
  unfolding new check_complete Reads
  new-eq [] tree lt b i h = absurd (omega arith)
  new-eq (it ∷ items) tree lt b i h = rw (b, h (suc (length (it ∷ items))) (omega arith), i)

  -- New, given the items of a well-formed expression with its groups in brackets, ends without an error
  -- and returns the tree of that expression with its operands prepared, if Prepare of every operand
  -- returns one.
  pub new-flat_clause :
      (c : Clause O) → new prepare (flat_clause c []) ≡ some (some (items_of (ready_clause c)))
  new-flat_clause c =
      new-eq (flat_clause c []) (items_of (ready_clause c)) (omega (arith, length-clause c []))
        (balanced-clause c 0 [] ∙ balanced-none) (complete (ready_clause c))
        (clause-Reads c [] (some (items_of (ready_clause c), []))
          (end_read (items_of (ready_clause c))))
