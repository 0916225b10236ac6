-- ===== src/Core/Lex.antt =====
-- The lexer of spec files: crates/cuttlefish-core/src/lex.rs.
-- A text is the list of its code points. The Unicode tables behind `char::is_whitespace` and
-- `char::is_alphanumeric` are a parameter (`Chars`), of which only the ASCII part is assumed.
-- One round of the `while` loop is `step`; the loop takes fuel, one more than the length is enough.
pub mod Grammar
pub mod Rounds
pub mod Sound
pub mod Loop
pub mod Causes
pub mod Errors
pub mod Print
pub mod Tests
use cuttlefish_vm.Base.{
  ltb, leb, ◌==◌, if◌then◌else◌, ==_iff, Bool-cases, Option-cases, and_true, or_true, is_some,
  is_some-false, length, get_elem?, take, drop, any, all, length-append, take-append-drop,
  length-take, length-drop, All, All-append, is_empty, Text, codes, text_eq, text_eq_refl,
  text_eq-true, text_eq-false, text_eq_iff, text_eq_comm, mem, filter, AreDistinct, mem-append,
  mem-left, mem-right, mem-filter, length-filter, ℕ, zero, suc, ◌+◌, ◌-◌, ◌*◌, ◌/◌, ◌%◌, ◌^◌, ◌≤◌,
  ◌<◌, min, ◌≡◌, refl, sym, ap, ◌∙◌, subst, ◌≢◌, ◌↔◌, ◌⊎◌, inl, inr, Bool, true, false, not, ◌&&◌,
  ◌||◌, Option, none, some, List, [], ◌∷◌, ◌++◌, map, arith,
}

pub record Chars : Type 0 where
  pub is_whitespace : ℕ → Bool
  pub is_alphanumeric : ℕ → Bool
  pub ascii_whitespace : (c : ℕ) → c < 128 → is_whitespace c ≡ ((leb 9 c && leb c 13) || c == 32)
  pub ascii_alphanumeric :
      (c : ℕ)
      → c < 128
      → is_alphanumeric c
        ≡ ((leb b'0' c && leb c b'9') || (leb b'A' c && leb c b'Z') || (leb b'a' c && leb c b'z'))
  pub alphanumeric_not_whitespace : (c : ℕ) → is_alphanumeric c ≡ true → is_whitespace c ≡ false

-- Both fields are `u32`.
pub record Span : Type 0 where
  pub line : ℕ
  pub column : ℕ

pub data Tok : Type 0 where
  ident str : Text → Tok
  equals open_brace close_brace open_bracket close_bracket comma semicolon arrow : Tok

pub record Token : Type 0 where
  pub tok : Tok
  pub span : Span

pub data LexError : Type 0 where
  unterminated_string : Span → LexError
  unexpected_char unknown_escape : ℕ → Span → LexError

-- `+= 1` on a `u32`.
abbrev add_one32 : ℕ → ℕ
add_one32 n = (n + 1) % 2 ^ 32

-- What `bump!` does to the position when it consumes `c`.
unfoldable pub bump : ℕ → Span → Span
bump c p =
    if c == b'\n'
    then record { line = add_one32 p.line; column = 1 }
    else record { line = p.line; column = add_one32 p.column }

-- `skip_to_end_of_line!`
unfoldable pub skip_to_end_of_line : Text → Span → Text × Span
skip_to_end_of_line [] p = ([], p)
skip_to_end_of_line (c ∷ cs) p =
    if c == b'\n' then (c ∷ cs, p) else skip_to_end_of_line cs (bump c p)

-- What one round of the loop leaves: the text and position it stops at, with the token it pushed.
pub data Round : Type 0 where
  more : Text → Span → Option Token → Round
  stop : LexError → Round

-- The characters after a backslash, and what they stand for.
unfoldable pub unescape : ℕ → Option ℕ
unescape c =
    if c == b'"'
    then some b'"'
    else if c == b'\\'
    then some b'\\'
    else if c == b'n'
    then some b'\n'
    else if c == b't'
    then some b'\t'
    else none

-- The `loop` behind an opening quote at `span`.
unfoldable pub read_string : Span → Text → Span → Text → Round
unfolding unescape
read_string span [] p value = stop (unterminated_string span)
read_string span (c ∷ []) p value =
    if c == b'"'
    then more [] (bump c p) (some (record { tok = str value; span = span }))
    else stop (unterminated_string span)
read_string span (c ∷ e ∷ cs) p value =
    if c == b'"'
    then more (e ∷ cs) (bump c p) (some (record { tok = str value; span = span }))
    else elim (c == b'\\') [
      | true ↦ elim (unescape e) [
        | none ↦ stop (unknown_escape e (bump c p))
        | some v ↦ read_string span cs (bump e (bump c p)) (value ++ v ∷ [])
      ]
      | false ↦ read_string span (e ∷ cs) (bump c p) (value ++ c ∷ [])
    ]

abbrev head_is : ℕ → Text → Bool
head_is d [] = false
head_is d (c ∷ cs) = c == d

-- The `match c` of the last arm.
unfoldable pub punctuation : ℕ → Option Tok
punctuation c =
    if c == b'='
    then some equals
    else if c == b'{'
    then some open_brace
    else if c == b'}'
    then some close_brace
    else if c == b'['
    then some open_bracket
    else if c == b']'
    then some close_bracket
    else if c == b','
    then some comma
    else if c == b';'
    then some semicolon
    else none

-- `'-'`: only `->` begins a token.
unfoldable pub read_arrow : Text → Span → Round
read_arrow [] span = stop (unexpected_char b'-' span)
read_arrow (c ∷ cs) span =
    if c == b'>'
    then more cs (bump c (bump b'-' span)) (some (record { tok = arrow; span = span }))
    else stop (unexpected_char b'-' span)

unfoldable pub read_punctuation : ℕ → Text → Span → Round
unfolding punctuation
read_punctuation c cs span = elim (punctuation c) [
  | none ↦ stop (unexpected_char c span)
  | some t ↦ more cs (bump c span) (some (record { tok = t; span = span }))
]

abbrev pub skipped : Text × Span → Round
skipped (rest, p) = more rest p none

pub data Lexed : Type 0 where
  done : List Token → Lexed
  failed : LexError → Lexed
  out_of_fuel : Lexed

abbrev pub push : List Token → Option Token → List Token
push tokens none = tokens
push tokens (some t) = tokens ++ t ∷ []

abbrev pub start : Span
start = record { line = 1; column = 1 }

module _ (u : Chars) where
  open u use {is_whitespace, is_alphanumeric}

  abbrev pub is_word : ℕ → Bool
  is_word c = is_alphanumeric c || c == b'_' || c == b'.' || c == b'/' || c == b':'

  unfoldable pub read_word : Span → Text → Span → Text → Round
  read_word span [] p word = more [] p (some (record { tok = ident word; span = span }))
  read_word span (c ∷ cs) p word =
      if is_word c
      then read_word span cs (bump c p) (word ++ c ∷ [])
      else more (c ∷ cs) p (some (record { tok = ident word; span = span }))

  -- One round, at the character `c` that `peek` shows and the text `cs` behind it.
  unfoldable pub step : ℕ → Text → Span → Round
  unfolding skip_to_end_of_line read_string read_arrow read_word read_punctuation
  step c cs span =
      if is_whitespace c
      then more cs (bump c span) none
      else if c == b'#'
      then skipped (skip_to_end_of_line (c ∷ cs) span)
      else if c == b'/' && head_is b'/' cs
      then skipped (skip_to_end_of_line (c ∷ cs) span)
      else if c == b'"'
      then read_string span cs (bump c span) []
      else if c == b'-'
      then read_arrow cs span
      else if is_alphanumeric c || c == b'_' || c == b'.' || c == b'/'
      then read_word span (c ∷ cs) span []
      else read_punctuation c cs span

  unfoldable pub lex_loop : ℕ → Text → Span → List Token → Lexed
  lex_loop fuel [] p tokens = done tokens
  lex_loop zero (c ∷ cs) p tokens = out_of_fuel
  lex_loop (suc fuel) (c ∷ cs) p tokens = elim (step c cs p) [
    | stop e ↦ failed e
    | more rest q t ↦ lex_loop fuel rest q (push tokens t)
  ]

  unfoldable pub lex : Text → Lexed
  unfolding lex_loop
  lex src = lex_loop (length src) src start []
