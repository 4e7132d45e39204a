-- ===== src/Boolexpr/Tests.antt =====
-- Expressions of Boolean operands, and the theorems at concrete inputs.
use go_pkgs.Common.{Bool, true, false, Option, List, [], ◌∷◌, some, ◌≡◌, refl}
use go_pkgs.Boolexpr.{
  left_bracket, right_bracket, and_op, not_op, Item, symbol, operand, Expression,
}
use go_pkgs.Boolexpr.Clauses.{Clause, clause, atom, group, done, next, conj, disj, items_of}
use go_pkgs.Boolexpr.Evaluator.{evaluate}
use go_pkgs.Boolexpr.Evaluator.Meaning.{clause_meaning, evaluate-items_of}
use go_pkgs.Boolexpr.Evaluator.Uniform.{clause_value, uniform, evaluate-uniform}
use go_pkgs.Boolexpr.Build.{new}
use go_pkgs.Boolexpr.Build.Terminates.{new-Safe}
use go_pkgs.Boolexpr.Build.Guarded.{Safe}
use go_pkgs.Boolexpr.Build.Flat.{flat_clause}
use go_pkgs.Boolexpr.Build.Parse.{ready_clause, new-flat_clause}

-- An operand is its own value.
abbrev value : Bool → Bool → Bool
value o v = o

-- false && true || true
abbrev mixed : Clause Bool
mixed = clause false (atom false) (next conj false (atom true) (next disj false (atom true) done))

-- !(false || true) && true && !false
abbrev nested : Clause Bool
nested =
    clause true (group (clause false (atom false) (next disj false (atom true) done)))
      (next conj false (atom true) (next conj true (atom false) done))

mixed-value : clause_value value true mixed ≡ true
unfolding clause_value
mixed-value = refl

evaluate-items_of_example :
    evaluate value (items_of mixed) true ≡ some (clause_meaning value true mixed)
evaluate-items_of_example = evaluate-items_of value true mixed

mixed-meaning : clause_meaning value true mixed ≡ false
unfolding clause_meaning
mixed-meaning = refl

nested-uniform : uniform nested ≡ true
unfolding uniform
nested-uniform = refl

evaluate-uniform_example :
    evaluate value (items_of nested) true ≡ some (clause_value value true nested)
evaluate-uniform_example = evaluate-uniform value true nested nested-uniform

new-flat_clause_example :
    new some (flat_clause nested [])
    ≡ some (some (items_of (ready_clause some (λ o. o) (λ o. refl) nested)))
new-flat_clause_example = new-flat_clause some (λ o. o) (λ o. refl) nested

-- ( a ) && ! b
abbrev bracketed : List (Item Bool)
bracketed =
    symbol left_bracket
    ∷ operand true
    ∷ symbol right_bracket
    ∷ symbol and_op
    ∷ symbol not_op
    ∷ operand false
    ∷ []

new-Safe_example : (r : Option (Expression Bool)) × (new some bracketed ≡ some r) × Safe r
new-Safe_example = new-Safe some bracketed
