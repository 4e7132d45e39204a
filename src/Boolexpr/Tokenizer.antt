-- ===== src/Boolexpr/Tokenizer.antt =====
-- The tokenizer of cmdutil/boolexpr/parser.go: a state machine over the runes of its input. `none` is an
-- error that is returned. The classes of runes are those of the package unicode, a parameter.
pub mod RoundTrip
mod Tests
use go_pkgs.Common.{
  ℕ, Bool, true, false, ◌||◌, List, [], ◌∷◌, ◌++◌, Option, none, some, ◌==◌, if◌then◌else◌, ◌>>=◌,
}

-- unicode.IsSpace, IsLetter and IsNumber.
pub record Classes : Type 0 where
  pub is_space : ℕ → Bool
  pub is_letter : ℕ → Bool
  pub is_number : ℕ → Bool

pub record Token : Type 0 where
  pub text : List ℕ
  pub is_operator : Bool
  pub is_operand_name : Bool
  pub is_operand_value : Bool

pub record Tokenizer : Type 0 where
  pub seen : List ℕ
  pub tokens : List Token

pub data State : Type 0 where
  start : State
  operand_name : State
  operator_and : State
  operator_or : State
  operand_value : State
  quoted_value : State
  escaped_value : State
  escaped_rune : State

abbrev pub operator_token : List ℕ → Token
operator_token text = record {
  text = text;
  is_operator = true;
  is_operand_name = false;
  is_operand_value = false;
}

abbrev pub name_token : List ℕ → Token
name_token text = record {
  text = text;
  is_operator = false;
  is_operand_name = true;
  is_operand_value = false;
}

abbrev pub value_token : List ℕ → Token
value_token text = record {
  text = text;
  is_operator = false;
  is_operand_name = false;
  is_operand_value = true;
}

pub append_operator : List ℕ → Tokenizer → Tokenizer
append_operator text t = record t { tokens = t.tokens ++ operator_token text ∷ [] }

pub append_operand_name : Tokenizer → Tokenizer
append_operand_name t = record { seen = []; tokens = t.tokens ++ name_token t.seen ∷ [] }

pub append_operand_value : Tokenizer → Tokenizer
append_operand_value t = record { seen = []; tokens = t.tokens ++ value_token t.seen ∷ [] }

pub write_rune : ℕ → Tokenizer → Tokenizer
write_rune r t = record t { seen = t.seen ++ r ∷ [] }

-- `r` twice as an operator, with nothing seen.
pub append_double : ℕ → Tokenizer → Tokenizer
append_double r t = record { seen = []; tokens = t.tokens ++ operator_token (r ∷ r ∷ []) ∷ [] }

pub in_operator_and : Tokenizer → ℕ → Option (State × Tokenizer)
in_operator_and t r = if r == 38 then some (start, append_double 38 t) else none

pub in_operator_or : Tokenizer → ℕ → Option (State × Tokenizer)
in_operator_or t r = if r == 124 then some (start, append_double 124 t) else none

pub in_quoted_value : Tokenizer → ℕ → Option (State × Tokenizer)
in_quoted_value t r =
    if r == 39 then some (start, append_operand_value t) else some (quoted_value, write_rune r t)

pub in_escaped_rune : Tokenizer → ℕ → Option (State × Tokenizer)
in_escaped_rune t r = some (escaped_value, write_rune r t)

module _ (U : Classes) where
  -- The runes are ( ) ! & and |.
  pub in_start : Tokenizer → ℕ → Option (State × Tokenizer)
  in_start t r =
      if U.is_space r
      then some (start, t)
      else if r == 40 || r == 41 || r == 33
      then some (start, append_operator (r ∷ []) t)
      else if r == 38
      then some (operator_and, t)
      else if r == 124
      then some (operator_or, t)
      else if U.is_letter r
      then some (operand_name, write_rune r t)
      else none

  -- A rune of a name after its first: a letter, a number, - or _.
  pub is_name_rune : ℕ → Bool
  is_name_rune r = U.is_letter r || U.is_number r || r == 45 || r == 95

  pub in_operand_name : Tokenizer → ℕ → Option (State × Tokenizer)
  in_operand_name t r =
      if r == 61
      then some (operand_value, append_operand_name t)
      else if is_name_rune r
      then some (operand_name, write_rune r t)
      else none

  -- operandValueDone, with what its callers do when it is not done.
  pub operand_value_done : Tokenizer → ℕ → Option (State × Tokenizer)
  operand_value_done t r =
      if U.is_space r
      then some (start, append_operand_value t)
      else if r == 40 || r == 41
      then some (start, append_operator (r ∷ []) (append_operand_value t))
      else if r == 38
      then some (operator_and, append_operand_value t)
      else if r == 124
      then some (operator_or, append_operand_value t)
      else some (escaped_value, write_rune r t)

  -- The runes are ' and \.
  pub in_operand_value : Tokenizer → ℕ → Option (State × Tokenizer)
  in_operand_value t r =
      if r == 39
      then some (quoted_value, t)
      else if r == 92
      then some (escaped_rune, t)
      else operand_value_done t r

  pub in_escaped_value : Tokenizer → ℕ → Option (State × Tokenizer)
  in_escaped_value t r = if r == 92 then some (escaped_rune, t) else operand_value_done t r

  pub step : State → Tokenizer → ℕ → Option (State × Tokenizer)
  step start t r = in_start t r
  step operator_and t r = in_operator_and t r
  step operator_or t r = in_operator_or t r
  step operand_name t r = in_operand_name t r
  step operand_value t r = in_operand_value t r
  step quoted_value t r = in_quoted_value t r
  step escaped_value t r = in_escaped_value t r
  step escaped_rune t r = in_escaped_rune t r

  pub run_state_machine : List ℕ → State → Tokenizer → Option (State × Tokenizer)
  run_state_machine [] s t = some (s, t)
  run_state_machine (r ∷ input) s t = step s t r >>= λ (s', t'). run_state_machine input s' t'

  -- What run does in the state in which the input ends.
  pub finish : State → Tokenizer → Option (List Token)
  finish start t = some t.tokens
  finish operand_name t = some (append_operand_name t).tokens
  finish operand_value t = some (append_operand_value t).tokens
  finish escaped_value t = some (append_operand_value t).tokens
  finish _ t = none

  pub run : List ℕ → Option (List Token)
  run input = do
    (s, t) ← run_state_machine input start (record { seen = []; tokens = [] })
    finish s t

-- What tokenList.String writes for a token, before what it writes for the next ones.
pub write_token : Token → List ℕ → List ℕ
write_token t rest =
    if t.is_operator
    then t.text ++ 32 ∷ rest
    else if t.is_operand_name
    then t.text ++ 61 ∷ rest
    else if t.is_operand_value
    then 39 ∷ t.text ++ 39 ∷ 32 ∷ rest
    else rest

-- tokenList.String, before strings.TrimSpace.
pub write_tokens : List Token → List ℕ
write_tokens [] = []
write_tokens (t ∷ tokens) = write_token t (write_tokens tokens)
