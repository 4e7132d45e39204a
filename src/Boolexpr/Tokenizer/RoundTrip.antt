-- ===== src/Boolexpr/Tokenizer/RoundTrip.antt =====
-- The tokenizer reads back the tokens that are written.
use go_pkgs.Common.{
  ℕ, Bool, true, false, ◌||◌, List, [], ◌∷◌, ◌++◌, some, ◌==◌, ◌≡◌, refl, ap, ◌∙◌, sym, arith,
}
use go_pkgs.Boolexpr.Tokenizer.{
  Classes, Token, Tokenizer, start, operand_name, operand_value, quoted_value, operator_token,
  name_token, value_token, append_operator, append_operand_name, append_operand_value, write_rune,
  append_double, in_operator_and, in_operator_or, in_quoted_value, in_start, is_name_rune,
  in_operand_name, in_operand_value, step, run_state_machine, finish, run, write_token,
  write_tokens,
}

-- What the documentation of unicode says of the runes that the tokenizer tells apart: a space is one,
-- the operators, which are symbols or punctuation, are none, and no letter or number is a space, an
-- operator or an equals sign.
pub record AreUnicode (U : Classes) : Type 0 where
  pub space : U.is_space 32 ≡ true
  pub no_spaces :
      (U.is_space 40 ≡ false)
      × (U.is_space 41 ≡ false)
      × (U.is_space 33 ≡ false)
      × (U.is_space 38 ≡ false)
      × (U.is_space 124 ≡ false)
  pub letters :
      (r : ℕ)
      → U.is_letter r ≡ true
      → (U.is_space r ≡ false)
        × ((r == 40 || r == 41 || r == 33) ≡ false)
        × ((r == 38) ≡ false)
        × ((r == 124) ≡ false)
        × ((r == 61) ≡ false)
  pub numbers : (r : ℕ) → U.is_number r ≡ true → (r == 61) ≡ false

-- An operator, or an operand with its value.
pub data Piece : Type 0 where
  bracket : Piece
  end_bracket : Piece
  negation : Piece
  conjunction : Piece
  disjunction : Piece
  operand : List ℕ → List ℕ → Piece

unfoldable pub tokens_of : List Piece → List Token
tokens_of [] = []
tokens_of (bracket ∷ ps) = operator_token (40 ∷ []) ∷ tokens_of ps
tokens_of (end_bracket ∷ ps) = operator_token (41 ∷ []) ∷ tokens_of ps
tokens_of (negation ∷ ps) = operator_token (33 ∷ []) ∷ tokens_of ps
tokens_of (conjunction ∷ ps) = operator_token (38 ∷ 38 ∷ []) ∷ tokens_of ps
tokens_of (disjunction ∷ ps) = operator_token (124 ∷ 124 ∷ []) ∷ tokens_of ps
tokens_of (operand name value ∷ ps) = name_token name ∷ value_token value ∷ tokens_of ps

append-one : {A : Type 0} (xs : List A) (x : A) (ys : List A) → (xs ++ x ∷ []) ++ ys ≡ xs ++ x ∷ ys
append-one [] x ys = refl
append-one (z ∷ xs) x ys = ap (λ w. z ∷ w) (append-one xs x ys)

not_equals :
    (l n : Bool) (r : ℕ)
    → (l ≡ true → (r == 61) ≡ false)
    → (n ≡ true → (r == 61) ≡ false)
    → (l || n || r == 45 || r == 95) ≡ true
    → (r == 61) ≡ false
not_equals true n r letter number h = letter refl
not_equals false true r letter number h = number refl
not_equals false false r letter number h = ground arith

append-none : {A : Type 0} (xs : List A) → xs ++ [] ≡ xs
append-none [] = refl
append-none (x ∷ xs) = ap (λ w. x ∷ w) (append-none xs)

-- A piece that is written as its tokens are: a name is a letter and then letters, numbers, - or _, and a
-- value has no quote.
module _ (U : Classes) where
  unfoldable pub AreNameRunes : List ℕ → Type 0
  AreNameRunes [] = true ≡ true
  AreNameRunes (r ∷ rs) = (is_name_rune U r ≡ true) × AreNameRunes rs

  unfoldable pub IsName : List ℕ → Type 0
  unfolding AreNameRunes
  IsName [] = false ≡ true
  IsName (r ∷ rs) = (U.is_letter r ≡ true) × AreNameRunes rs

unfoldable pub HasNoQuote : List ℕ → Type 0
HasNoQuote [] = true ≡ true
HasNoQuote (r ∷ rs) = ((r == 39) ≡ false) × HasNoQuote rs

unfoldable pub ArePieces : Classes → List Piece → Type 0
unfolding IsName HasNoQuote
ArePieces U [] = true ≡ true
ArePieces U (operand name value ∷ ps) = IsName U name × HasNoQuote value × ArePieces U ps
ArePieces U (_ ∷ ps) = ArePieces U ps

module _ (U : Classes) (laws : AreUnicode U) where
  name_rune-not_equals : (r : ℕ) → is_name_rune U r ≡ true → (r == 61) ≡ false
  unfolding is_name_rune
  name_rune-not_equals r h =
      not_equals (U.is_letter r) (U.is_number r) r (λ l. (laws.letters r l).4) (laws.numbers r) h

  at_start : List Token → Tokenizer
  at_start ts = record { seen = []; tokens = ts }

  -- The name's loop up to the equals sign.
  read_name :
      (rs : List ℕ) (rest seen : List ℕ) (ts : List Token)
      → AreNameRunes U rs
      → run_state_machine U (rs ++ 61 ∷ rest) operand_name (record { seen = seen; tokens = ts })
        ≡ run_state_machine U rest operand_value (at_start (ts ++ name_token (seen ++ rs) ∷ []))
  unfolding run_state_machine step in_operand_name append_operand_name write_rune AreNameRunes
      at_start
  read_name [] rest seen ts h = rw (append-none seen)
  read_name (r ∷ rs) rest seen ts (n, h) =
      rw (name_rune-not_equals r n, n)
        (read_name rs rest (seen ++ r ∷ []) ts h
          ∙ ap (λ w. run_state_machine U rest operand_value (at_start (ts ++ name_token w ∷ [])))
              (append-one seen r rs))

  read_value :
      (rs : List ℕ) (rest seen : List ℕ) (ts : List Token)
      → HasNoQuote rs
      → run_state_machine U (rs ++ 39 ∷ rest) quoted_value (record { seen = seen; tokens = ts })
        ≡ run_state_machine U rest start (at_start (ts ++ value_token (seen ++ rs) ∷ []))
  unfolding run_state_machine step in_quoted_value append_operand_value write_rune HasNoQuote
      at_start
  read_value [] rest seen ts h = rw (append-none seen)
  read_value (r ∷ rs) rest seen ts (e, h) = rw e (
      read_value rs rest (seen ++ r ∷ []) ts h
      ∙ ap (λ w. run_state_machine U rest start (at_start (ts ++ value_token w ∷ [])))
          (append-one seen r rs))

  read_space :
      (rest : List ℕ) (ts : List Token)
      → run_state_machine U (32 ∷ rest) start (at_start ts)
        ≡ run_state_machine U rest start (at_start ts)
  unfolding run_state_machine step in_start
  read_space rest ts = rw laws.space

  read_operand :
      (name value rest : List ℕ) (ts : List Token)
      → IsName U name
      → HasNoQuote value
      → run_state_machine U
          (write_token (name_token name) (write_token (value_token value) rest))
          start
          (at_start ts)
        ≡ run_state_machine U rest start
            (at_start ((ts ++ name_token name ∷ []) ++ value_token value ∷ []))
  unfolding run_state_machine step in_start in_operand_value write_rune write_token IsName at_start
  read_operand [] value rest ts h q = ground arith
  read_operand (r ∷ rs) value rest ts (l, h) q =
      let (s, b, a, o, _) = laws.letters r l in
      rw (s, b, a, o, l)
        (read_name rs (39 ∷ value ++ 39 ∷ 32 ∷ rest) (r ∷ []) ts h
          ∙ read_value value (32 ∷ rest) [] (ts ++ name_token (r ∷ rs) ∷ []) q
          ∙ read_space rest ((ts ++ name_token (r ∷ rs) ∷ []) ++ value_token value ∷ []))

  read_single :
      (r : ℕ) (rest : List ℕ) (ts : List Token)
      → U.is_space r ≡ false
      → (r == 40 || r == 41 || r == 33) ≡ true
      → run_state_machine U (r ∷ 32 ∷ rest) start (at_start ts)
        ≡ run_state_machine U rest start (at_start (ts ++ operator_token (r ∷ []) ∷ []))
  unfolding run_state_machine step in_start append_operator at_start
  read_single r rest ts s b = rw (s, b) (read_space rest (ts ++ operator_token (r ∷ []) ∷ []))

  read_and :
      (rest : List ℕ) (ts : List Token)
      → run_state_machine U (38 ∷ 38 ∷ 32 ∷ rest) start (at_start ts)
        ≡ run_state_machine U rest start (at_start (ts ++ operator_token (38 ∷ 38 ∷ []) ∷ []))
  unfolding run_state_machine step in_start in_operator_and append_double at_start
  read_and rest ts =
      let (_, _, _, s, _) = laws.no_spaces in
      rw s (read_space rest (ts ++ operator_token (38 ∷ 38 ∷ []) ∷ []))

  read_or :
      (rest : List ℕ) (ts : List Token)
      → run_state_machine U (124 ∷ 124 ∷ 32 ∷ rest) start (at_start ts)
        ≡ run_state_machine U rest start (at_start (ts ++ operator_token (124 ∷ 124 ∷ []) ∷ []))
  unfolding run_state_machine step in_start in_operator_or append_double at_start
  read_or rest ts =
      let (_, _, _, _, s) = laws.no_spaces in
      rw s (read_space rest (ts ++ operator_token (124 ∷ 124 ∷ []) ∷ []))

  more :
      (ts : List Token) (t : Token) (us : List Token) (rest : List ℕ)
      → run_state_machine U rest start (at_start (ts ++ t ∷ []))
        ≡ some (start, at_start ((ts ++ t ∷ []) ++ us))
      → run_state_machine U rest start (at_start (ts ++ t ∷ []))
        ≡ some (start, at_start (ts ++ t ∷ us))
  more ts t us rest h = h ∙ ap (λ w. some (start, at_start w)) (append-one ts t us)

  read_pieces :
      (ps : List Piece) (ts : List Token)
      → ArePieces U ps
      → run_state_machine U (write_tokens (tokens_of ps)) start (at_start ts)
        ≡ some (start, at_start (ts ++ tokens_of ps))
  unfolding write_tokens write_token tokens_of ArePieces run_state_machine
  read_pieces [] ts h = ap (λ w. some (start, at_start w)) (sym (append-none ts))
  read_pieces (bracket ∷ ps) ts h =
      read_single 40 (write_tokens (tokens_of ps)) ts laws.no_spaces.0 refl
      ∙ more ts (operator_token (40 ∷ [])) (tokens_of ps) (write_tokens (tokens_of ps))
          (read_pieces ps (ts ++ operator_token (40 ∷ []) ∷ []) h)
  read_pieces (end_bracket ∷ ps) ts h =
      let (_, s, _, _, _) = laws.no_spaces in
      read_single 41 (write_tokens (tokens_of ps)) ts s refl
      ∙ more ts (operator_token (41 ∷ [])) (tokens_of ps) (write_tokens (tokens_of ps))
          (read_pieces ps (ts ++ operator_token (41 ∷ []) ∷ []) h)
  read_pieces (negation ∷ ps) ts h =
      let (_, _, s, _, _) = laws.no_spaces in
      read_single 33 (write_tokens (tokens_of ps)) ts s refl
      ∙ more ts (operator_token (33 ∷ [])) (tokens_of ps) (write_tokens (tokens_of ps))
          (read_pieces ps (ts ++ operator_token (33 ∷ []) ∷ []) h)
  read_pieces (conjunction ∷ ps) ts h =
      read_and (write_tokens (tokens_of ps)) ts
      ∙ more ts (operator_token (38 ∷ 38 ∷ [])) (tokens_of ps) (write_tokens (tokens_of ps))
          (read_pieces ps (ts ++ operator_token (38 ∷ 38 ∷ []) ∷ []) h)
  read_pieces (disjunction ∷ ps) ts h =
      read_or (write_tokens (tokens_of ps)) ts
      ∙ more ts (operator_token (124 ∷ 124 ∷ [])) (tokens_of ps) (write_tokens (tokens_of ps))
          (read_pieces ps (ts ++ operator_token (124 ∷ 124 ∷ []) ∷ []) h)
  read_pieces (operand name value ∷ ps) ts (n, q, h) =
      let us = ts ++ name_token name ∷ [] in
      read_operand name value (write_tokens (tokens_of ps)) ts n q
      ∙ more us (value_token value) (tokens_of ps) (write_tokens (tokens_of ps))
          (read_pieces ps (us ++ value_token value ∷ []) h)
      ∙ ap (λ w. some (start, at_start w))
          (append-one ts (name_token name) (value_token value ∷ tokens_of ps))

  -- run, given what String writes, before TrimSpace, for the tokens of any operators and operands with
  -- their values, ends without an error and returns those tokens, if each name is a letter and then
  -- letters, numbers, - or _, and no value has a quote.
  pub run-write_tokens :
      (ps : List Piece) → ArePieces U ps → run U (write_tokens (tokens_of ps)) ≡ some (tokens_of ps)
  unfolding run finish at_start
  run-write_tokens ps h = rw (read_pieces ps [] h)
