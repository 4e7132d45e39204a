-- ===== src/Boolexpr/Tokenizer/Tests.antt =====
-- The tokenizer on ASCII text.
use go_pkgs.Common.{ℕ, List, true, false, ◌&&◌, ◌||◌, [], ◌∷◌, some, ◌==◌, leb, ◌≡◌, refl, arith}
use go_pkgs.Boolexpr.Tokenizer.{Classes, run, write_tokens, is_name_rune}
use go_pkgs.Boolexpr.Tokenizer.RoundTrip.{
  AreUnicode, Piece, negation, conjunction, operand, tokens_of, ArePieces, run-write_tokens,
}

abbrev ascii : Classes
ascii = record {
  is_space = λ r. r == 32;
  is_letter = λ r. leb 97 r && leb r 122;
  is_number = λ r. leb 48 r && leb r 57;
}

letter_apart :
    (r : ℕ)
    → (leb 97 r && leb r 122) ≡ true
    → ((r == 32) ≡ false)
      × ((r == 40 || r == 41 || r == 33) ≡ false)
      × ((r == 38) ≡ false)
      × ((r == 124) ≡ false)
      × ((r == 61) ≡ false)
letter_apart r h = (ground arith, ground arith, ground arith, ground arith, ground arith)

number_apart : (r : ℕ) → (leb 48 r && leb r 57) ≡ true → (r == 61) ≡ false
number_apart r h = ground arith

ascii-AreUnicode : AreUnicode ascii
ascii-AreUnicode = record {
  space = refl;
  no_spaces = (refl, refl, refl, refl, refl);
  letters = letter_apart;
  numbers = number_apart;
}

-- ab='x y' && !c=''
abbrev pieces : List Piece
pieces =
    operand (97 ∷ 98 ∷ []) (120 ∷ 32 ∷ 121 ∷ [])
    ∷ conjunction
    ∷ negation
    ∷ operand (99 ∷ []) []
    ∷ []

pieces-ArePieces : ArePieces ascii pieces
unfolding ArePieces is_name_rune
pieces-ArePieces = ((refl, (refl, refl)), (refl, (refl, (refl, refl))), ((refl, refl), refl, refl))

run-write_tokens_example : run ascii (write_tokens (tokens_of pieces)) ≡ some (tokens_of pieces)
run-write_tokens_example = run-write_tokens ascii ascii-AreUnicode pieces pieces-ArePieces
