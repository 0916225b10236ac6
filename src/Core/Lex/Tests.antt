-- ===== src/Core/Lex/Tests.antt =====
-- Runs of the lexer over ASCII text, and its theorems at those runs.
use cuttlefish_vm.Base.{
  leb, ◌==◌, Text, codes, ℕ, ◌≡◌, refl, ◌≢◌, Bool, true, false, ◌&&◌, ◌||◌, List, [], ◌∷◌, arith,
}
use cuttlefish_vm.Core.Lex.{
  Chars, Span, Tok, ident, str, equals, arrow, semicolon, Token, unexpected_char, done, failed, lex,
  bump, start, out_of_fuel, step,
}
use cuttlefish_vm.Core.Lex.Grammar.{Reads}
use cuttlefish_vm.Core.Lex.Loop.{lex-Reads, lex_total}
use cuttlefish_vm.Core.Lex.Errors.{lex-PointsAt}
use cuttlefish_vm.Core.Lex.Print.{lex-render, render, toks}
use cuttlefish_vm.Core.Lex.Causes.{PointsAt}

abbrev pub blank_ascii : ℕ → Bool
blank_ascii c = (leb 9 c && leb c 13) || c == 32

abbrev pub letter_ascii : ℕ → Bool
letter_ascii c =
    (leb b'0' c && leb c b'9') || (leb b'A' c && leb c b'Z') || (leb b'a' c && leb c b'z')

pub apart_ascii : (c : ℕ) → letter_ascii c ≡ true → blank_ascii c ≡ false
apart_ascii c h = ground arith

-- The tables of a text that has no characters beyond ASCII.
abbrev pub ascii : Chars
ascii = record {
  is_whitespace = blank_ascii;
  is_alphanumeric = letter_ascii;
  ascii_whitespace = λ c h. refl;
  ascii_alphanumeric = λ c h. refl;
  alphanumeric_not_whitespace = apart_ascii;
}

abbrev at : ℕ → ℕ → Span
at l c = record { line = l; column = c }

abbrev sample : Text
sample = codes "# note\na = b;"

abbrev sample_tokens : List Token
sample_tokens =
    record { tok = ident (codes "a"); span = at 2 1 }
    ∷ record { tok = equals; span = at 2 3 }
    ∷ record { tok = ident (codes "b"); span = at 2 5 }
    ∷ record { tok = semicolon; span = at 2 6 }
    ∷ []

lex-sample : lex ascii sample ≡ done sample_tokens
unfolding lex bump step
lex-sample = refl

lex-Reads_example : Reads ascii sample start sample_tokens
lex-Reads_example = lex-Reads ascii sample sample_tokens lex-sample

lex_total_example : lex ascii sample ≢ out_of_fuel
lex_total_example = lex_total ascii sample

lex_stray : lex ascii (codes "ab (") ≡ failed (unexpected_char b'(' (at 1 4))
unfolding lex bump step
lex_stray = refl

lex-PointsAt_example : PointsAt ascii (codes "ab (") start (unexpected_char b'(' (at 1 4))
lex-PointsAt_example = lex-PointsAt ascii (codes "ab (") (unexpected_char b'(' (at 1 4)) lex_stray

abbrev written : List Tok
written = ident (codes "in") ∷ equals ∷ str (codes "say; \"hi\"") ∷ arrow ∷ []

lex-render_example :
    (out : List Token) × (lex ascii (render written) ≡ done out) × (toks out ≡ written)
lex-render_example = lex-render ascii written ((refl, refl, refl, refl), (tt, (tt, (tt, tt))))
