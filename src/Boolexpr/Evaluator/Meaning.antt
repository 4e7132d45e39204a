-- ===== src/Boolexpr/Evaluator/Meaning.antt =====
-- The evaluator computes what a clause means when its first operator stands for all of them.
use go_pkgs.Common.{
  Bool, true, false, not, ◌&&◌, ◌||◌, List, [], ◌∷◌, ◌++◌, map, Option, some, if◌then◌else◌, ◌≡◌,
  refl, sym, ap,
}
use go_pkgs.Boolexpr.{or_op, and_op, not_op, Item, symbol, Expression, cons}
use go_pkgs.Boolexpr.Evaluator.{
  Evaluator, ends_in_not, without_last, negate_single, apply_first, apply_pair, eval_pair, eval,
  result, push_op, push_val, take_item, run, evaluate, is_not,
}
use go_pkgs.Boolexpr.Clauses.{
  Operator, conj, disj, op_symbol, Primary, atom, group, Clause, clause, Tail, done, next, negated,
  item_of, items_of, items_tail,
}

abbrev pub combine : Operator → Bool → Bool → Bool
combine conj a b = a && b
combine disj a b = a || b

abbrev pub negate_if : Bool → Bool → Bool
negate_if true b = not b
negate_if false b = b

abbrev pub first_of {ℓ} : {O : Type ℓ} → Tail O → Operator
first_of done = conj
first_of (next op neg p t) = op

module _ {ℓ κ} {O : Type ℓ} {V : Type κ} (value : O → V → Bool) (v : V) where
  unfoldable mutual
    pub primary_meaning : Primary O → Bool
    primary_meaning (atom o) = value o v
    primary_meaning (group c) = clause_meaning c

    pub clause_meaning : Clause O → Bool
    clause_meaning (clause neg p t) = fold (first_of t) (negate_if neg (primary_meaning p)) t

    pub fold : Operator → Bool → Tail O → Bool
    fold op a done = a
    fold op a (next _ neg p t) = fold op (combine op a (negate_if neg (primary_meaning p))) t

map-append :
    (os : List Operator) (o : Operator)
    → map op_symbol (os ++ o ∷ []) ≡ map op_symbol os ++ op_symbol o ∷ []
map-append [] o = refl
map-append (p ∷ os) o = ap (λ rest. op_symbol p ∷ rest) (map-append os o)

ends-of_ops : (os : List Operator) → ends_in_not (map op_symbol os) ≡ false
unfolding ends_in_not is_not
ends-of_ops [] = refl
ends-of_ops (conj ∷ []) = refl
ends-of_ops (disj ∷ []) = refl
ends-of_ops (o ∷ p ∷ os) = ends-of_ops (p ∷ os)

ends_with_not : (os : List Operator) → ends_in_not (map op_symbol os ++ not_op ∷ []) ≡ true
unfolding ends_in_not is_not
ends_with_not [] = refl
ends_with_not (o ∷ []) = refl
ends_with_not (o ∷ p ∷ os) = ends_with_not (p ∷ os)

without_last-op :
    (os : List Operator) → without_last (map op_symbol os ++ not_op ∷ []) ≡ map op_symbol os
unfolding without_last
without_last-op [] = refl
without_last-op (o ∷ []) = refl
without_last-op (o ∷ p ∷ os) = ap (λ rest. op_symbol o ∷ rest) (without_last-op (p ∷ os))

apply-plain :
    (a b : Bool) (o : Operator) (os : List Operator)
    → apply_pair a b (op_symbol o) (map op_symbol os)
      ≡ apply_first (op_symbol o) a b (op_symbol o ∷ map op_symbol os)
unfolding apply_pair
apply-plain a b o [] = refl
apply-plain a b o (p ∷ os) = rw (ends-of_ops (p ∷ os))

apply-negated :
    (a b : Bool) (o : Operator) (os : List Operator)
    → apply_pair a b (op_symbol o) (map op_symbol os ++ not_op ∷ [])
      ≡ apply_first (op_symbol o) a (not b) (op_symbol o ∷ map op_symbol os)
unfolding apply_pair ends_in_not is_not without_last
apply-negated a b o [] = refl
apply-negated a b o (p ∷ os) = rw (ends_with_not (p ∷ os), without_last-op (p ∷ os))

module _ {ℓ κ} {O : Type ℓ} {V : Type κ} (value : O → V → Bool) (v : V) where
  state : Bool → Operator → List Operator → Evaluator
  state a o os = record { values = a ∷ []; operators = op_symbol o ∷ map op_symbol os }

  -- Whatever follows, `true || ...` is true.
  fold-true : (t : Tail O) → fold value v disj true t ≡ true
  unfolding fold
  fold-true done = refl
  fold-true (next op neg p t) = fold-true t

  -- The run after the switch on the first operator.
  after_first :
      (o : Operator) (a b : Bool) (os : List Operator) (t : Tail O)
      → run value (items_tail t) v (state (combine o a b) o os)
        ≡ some (fold value v o (combine o a b) t)
      → (let r = apply_first (op_symbol o) a b (op_symbol o ∷ map op_symbol os) in
          if r.0 then some true else run value (items_tail t) v r.1)
        ≡ some (fold value v o (combine o a b) t)
  unfolding apply_first state
  after_first conj a b os t h = h
  after_first disj true b os t h = ap some (sym (fold-true t))
  after_first disj false true os t h = ap some (sym (fold-true t))
  after_first disj false false os t h = h

  -- A primary, negated or not, after an operator.
  literal_run :
      (neg : Bool) (it : Item O) (x a : Bool) (o : Operator) (os : List Operator) (t : Tail O)
      → ((e : Evaluator) → take_item value it v e ≡ some (push_val x e))
      → run value (items_tail t) v (state (combine o a (negate_if neg x)) o os)
        ≡ some (fold value v o (combine o a (negate_if neg x)) t)
      → run value (negated neg it (items_tail t)) v (state a o os)
        ≡ some (fold value v o (combine o a (negate_if neg x)) t)
  unfolding run state eval eval_pair negate_single push_val negated take_item push_op
  literal_run false it x a o os t taken h =
      rw (taken (state a o os), apply-plain a x o os) (after_first o a x os t h)
  literal_run true it x a conj os t taken h =
      rw
        (
          taken (record { values = a ∷ []; operators = and_op ∷ map op_symbol os ++ not_op ∷ [] }),
          apply-negated a x conj os,
        )
        (after_first conj a (not x) os t h)
  literal_run true it x a disj os t taken h =
      rw
        (
          taken (record { values = a ∷ []; operators = or_op ∷ map op_symbol os ++ not_op ∷ [] }),
          apply-negated a x disj os,
        )
        (after_first disj a (not x) os t h)

  -- The first operator, from a single value.
  first_run :
      (neg : Bool) (it : Item O) (x a : Bool) (o : Operator) (t : Tail O)
      → ((e : Evaluator) → take_item value it v e ≡ some (push_val x e))
      → run value (items_tail t) v (state (combine o a (negate_if neg x)) o [])
        ≡ some (fold value v o (combine o a (negate_if neg x)) t)
      → run value
          (cons (symbol (op_symbol o)) (negated neg it (items_tail t)))
          v
          (record { values = a ∷ []; operators = [] })
        ≡ some (fold value v o (combine o a (negate_if neg x)) t)
  unfolding run state eval eval_pair negate_single take_item push_op
  first_run neg it x a conj t taken h = literal_run neg it x a conj [] t taken h
  first_run neg it x a disj t taken h = literal_run neg it x a disj [] t taken h

  -- A later operator.
  next_run :
      (op : Operator) (neg : Bool) (it : Item O) (x a : Bool) (o : Operator) (os : List Operator)
      (t : Tail O)
      → ((e : Evaluator) → take_item value it v e ≡ some (push_val x e))
      → run value (items_tail t) v (state (combine o a (negate_if neg x)) o (os ++ op ∷ []))
        ≡ some (fold value v o (combine o a (negate_if neg x)) t)
      → run value (cons (symbol (op_symbol op)) (negated neg it (items_tail t))) v (state a o os)
        ≡ some (fold value v o (combine o a (negate_if neg x)) t)
  unfolding run state eval eval_pair negate_single take_item push_op
  next_run conj neg it x a conj os t taken h =
      rw⁻¹ (map-append os conj) (literal_run neg it x a conj (os ++ conj ∷ []) t taken h)
  next_run conj neg it x a disj os t taken h =
      rw⁻¹ (map-append os conj) (literal_run neg it x a disj (os ++ conj ∷ []) t taken h)
  next_run disj neg it x a conj os t taken h =
      rw⁻¹ (map-append os disj) (literal_run neg it x a conj (os ++ disj ∷ []) t taken h)
  next_run disj neg it x a disj os t taken h =
      rw⁻¹ (map-append os disj) (literal_run neg it x a disj (os ++ disj ∷ []) t taken h)

  -- A primary that begins a clause.
  begin :
      (neg : Bool) (it : Item O) (x : Bool) (rest : Expression O) (r : Option Bool)
      → ((e : Evaluator) → take_item value it v e ≡ some (push_val x e))
      → run value rest v (record { values = negate_if neg x ∷ []; operators = [] }) ≡ r
      → run value (negated neg it rest) v (record { values = []; operators = [] }) ≡ r
  unfolding run eval eval_pair negate_single take_item push_op push_val negated
  begin false it x rest r taken h = rw (taken (record { values = []; operators = [] })) h
  begin true it x rest r taken h = rw (taken (record { values = []; operators = not_op ∷ [] })) h

  mutual
    unfolding item_of items_of items_tail primary_meaning clause_meaning fold take_item run result
        state

    primary_run :
        (p : Primary O) (e : Evaluator)
        → take_item value (item_of p) v e ≡ some (push_val (primary_meaning value v p) e)
    primary_run (atom o) e = refl
    primary_run (group c) e = rw (clause_run c)

    clause_run :
        (c : Clause O)
        → run value (items_of c) v (record { values = []; operators = [] })
          ≡ some (clause_meaning value v c)
    clause_run (clause neg p t) =
        begin neg (item_of p) (primary_meaning value v p) (items_tail t)
          (some (clause_meaning value v (clause neg p t))) (primary_run p)
          (single_run t (negate_if neg (primary_meaning value v p)))

    single_run :
        (t : Tail O) (a : Bool)
        → run value (items_tail t) v (record { values = a ∷ []; operators = [] })
          ≡ some (fold value v (first_of t) a t)
    single_run done a = refl
    single_run (next op neg p t) a =
        first_run neg (item_of p) (primary_meaning value v p) a op t (primary_run p)
          (rest_run t (combine op a (negate_if neg (primary_meaning value v p))) op [])

    rest_run :
        (t : Tail O) (a : Bool) (o : Operator) (os : List Operator)
        → run value (items_tail t) v (state a o os) ≡ some (fold value v o a t)
    rest_run done a o os = refl
    rest_run (next op neg p t) a o os =
        next_run op neg (item_of p) (primary_meaning value v p) a o os t (primary_run p)
          (rest_run t (combine o a (negate_if neg (primary_meaning value v p))) o (os ++ op ∷ []))

  -- Eval of the items of a well-formed expression never panics. At each level of brackets it combines
  -- the values of the primaries, in order, by the first operator of that level, whatever the others.
  pub evaluate-items_of :
      (c : Clause O) → evaluate value (items_of c) v ≡ some (clause_meaning value v c)
  unfolding evaluate items_of negated
  evaluate-items_of (clause true p t) = clause_run (clause true p t)
  evaluate-items_of (clause false p t) = clause_run (clause false p t)
