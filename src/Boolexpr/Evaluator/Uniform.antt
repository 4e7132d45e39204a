-- ===== src/Boolexpr/Evaluator/Uniform.antt =====
-- Expressions that use one operator at each level of brackets, as the code needs.
use go_pkgs.Common.{Bool, true, false, ◌&&◌, ◌≡◌, refl, ap, ◌∙◌, some, arith}
use go_pkgs.Boolexpr.Clauses.{
  Operator, conj, disj, Primary, atom, group, Clause, clause, Tail, done, next, items_of,
}
use go_pkgs.Boolexpr.Evaluator.{evaluate}
use go_pkgs.Boolexpr.Evaluator.Meaning.{
  combine, negate_if, first_of, primary_meaning, clause_meaning, fold, evaluate-items_of,
}

abbrev pub same_operator : Operator → Operator → Bool
same_operator conj conj = true
same_operator disj disj = true
same_operator _ _ = false

module _ {ℓ κ} {O : Type ℓ} {V : Type κ} (value : O → V → Bool) (v : V) where
  -- The value with each operator as written, from left to right.
  unfoldable mutual
    primary_value : Primary O → Bool
    primary_value (atom o) = value o v
    primary_value (group c) = clause_value c

    pub clause_value : Clause O → Bool
    clause_value (clause neg p t) = tail_value (negate_if neg (primary_value p)) t

    tail_value : Bool → Tail O → Bool
    tail_value a done = a
    tail_value a (next op neg p t) = tail_value (combine op a (negate_if neg (primary_value p))) t

module _ {ℓ} {O : Type ℓ} where
  -- One operator at each level.
  unfoldable mutual
    uniform_primary : Primary O → Bool
    uniform_primary (atom o) = true
    uniform_primary (group c) = uniform c

    pub uniform : Clause O → Bool
    uniform (clause neg p t) = uniform_primary p && uniform_tail (first_of t) t

    uniform_tail : Operator → Tail O → Bool
    uniform_tail op done = true
    uniform_tail op (next o neg p t) =
        same_operator op o && (uniform_primary p && uniform_tail op t)

left_true : (a b : Bool) → (a && b) ≡ true → a ≡ true
left_true true b h = refl
left_true false b h = h

right_true : (a b : Bool) → (a && b) ≡ true → b ≡ true
right_true true b h = h
right_true false b h = ground arith

same→eq : (a b : Operator) → same_operator a b ≡ true → a ≡ b
same→eq conj conj h = refl
same→eq disj disj h = refl
same→eq conj disj h = ground arith
same→eq disj conj h = ground arith

module _ {ℓ κ} {O : Type ℓ} {V : Type κ} (value : O → V → Bool) (v : V) where
  mutual
    unfolding primary_value primary_meaning uniform

    primary-eq :
        (p : Primary O)
        → uniform_primary p ≡ true
        → primary_meaning value v p ≡ primary_value value v p
    primary-eq (atom o) h = refl
    primary-eq (group c) h = clause-eq c h

    clause-eq :
        (c : Clause O) → uniform c ≡ true → clause_meaning value v c ≡ clause_value value v c
    clause-eq (clause neg p t) h =
        ap (λ b. fold value v (first_of t) (negate_if neg b) t)
          (primary-eq p (left_true (uniform_primary p) (uniform_tail (first_of t) t) h))
        ∙ tail-eq t (first_of t) (negate_if neg (primary_value value v p))
            (right_true (uniform_primary p) (uniform_tail (first_of t) t) h)

    tail-eq :
        (t : Tail O) (op : Operator) (a : Bool)
        → uniform_tail op t ≡ true
        → fold value v op a t ≡ tail_value value v a t
    tail-eq done op a h = refl
    tail-eq (next o neg p t) op a h =
        let rest = right_true (same_operator op o) (uniform_primary p && uniform_tail op t) h in
        ap (λ b. fold value v op (combine op a (negate_if neg b)) t)
          (primary-eq p (left_true (uniform_primary p) (uniform_tail op t) rest))
        ∙ tail-eq t op (combine op a (negate_if neg (primary_value value v p)))
            (right_true (uniform_primary p) (uniform_tail op t) rest)
        ∙ ap (λ w. tail_value value v (combine w a (negate_if neg (primary_value value v p))) t)
            (same→eq op o
              (left_true (same_operator op o) (uniform_primary p && uniform_tail op t) h))

  -- Eval of the items of a well-formed expression with one operator at each level of brackets never
  -- panics and is the value of the expression, with each operator and negation as written.
  pub evaluate-uniform :
      (c : Clause O)
      → uniform c ≡ true
      → evaluate value (items_of c) v ≡ some (clause_value value v c)
  evaluate-uniform c h = evaluate-items_of value v c ∙ ap some (clause-eq c h)
