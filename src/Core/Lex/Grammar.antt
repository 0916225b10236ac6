-- ===== src/Core/Lex/Grammar.antt =====
-- What a spec text is made of, stated without the lexer: blanks, comments and spelled tokens,
-- with the position at which each token stands.
use cuttlefish_vm.Base.{
  ◌==◌, all, Text, ℕ, ◌≡◌, refl, ◌≢◌, ◌⊎◌, true, false, not, Option, none, some, List, [], ◌∷◌,
  ◌++◌,
}
use cuttlefish_vm.Core.Lex.{
  Chars, Span, Tok, ident, str, arrow, Token, bump, unescape, punctuation, is_word,
}

-- The position behind a text that begins at `p`.
unfoldable pub advance : Text → Span → Span
advance [] p = p
advance (c ∷ cs) p = advance cs (bump c p)

pub advance-append : (xs ys : Text) (p : Span) → advance (xs ++ ys) p ≡ advance ys (advance xs p)
unfolding advance
advance-append [] ys p = refl
advance-append (c ∷ cs) ys p = advance-append cs ys (bump c p)

-- The text between two quotes, and the value that it stands for.
pub data Quotes : Text → Text → Type 0 where
  nothing : Quotes [] []
  plain :
      {r v : Text} (c : ℕ)
      → (c == b'"') ≡ false
      → (c == b'\\') ≡ false
      → Quotes r v
      → Quotes (c ∷ r) (c ∷ v)
  escaped :
      {r v : Text} (c e d : ℕ)
      → (c == b'\\') ≡ true
      → unescape e ≡ some d
      → Quotes r v
      → Quotes (c ∷ e ∷ r) (d ∷ v)

-- A comment, up to the end of its line.
pub record IsComment (text : Text) : Type 0 where
  pub rest : Text
  pub opened : (text ≡ b'#' ∷ rest) ⊎ (text ≡ b'/' ∷ b'/' ∷ rest)
  pub one_line : all (λ c. not (c == b'\n')) text ≡ true

abbrev pub with_token : Option Token → List Token → List Token
with_token none ts = ts
with_token (some t) ts = t ∷ ts

module _ (u : Chars) where
  open u use {is_whitespace, is_alphanumeric}

  -- The text that a token is written as.
  pub data Spells : Tok → Text → Type 0 where
    word : (w : Text) → w ≢ [] → all (is_word u) w ≡ true → Spells (ident w) w
    quoted :
        {raw value spelled : Text}
        → Quotes raw value
        → spelled ≡ b'"' ∷ (raw ++ b'"' ∷ [])
        → Spells (str value) spelled
    arrowed : {spelled : Text} → spelled ≡ b'-' ∷ b'>' ∷ [] → Spells arrow spelled
    mark : {t : Tok} (c : ℕ) → punctuation c ≡ some t → Spells t (c ∷ [])

  -- One piece of a text, at a position: a blank, a comment, or a token.
  pub data Piece (p : Span) : Option Token → Text → Type 0 where
    blank : (c : ℕ) → is_whitespace c ≡ true → Piece p none (c ∷ [])
    comment : {pre : Text} → IsComment pre → Piece p none pre
    token :
        {pre : Text} (t : Tok) → Spells t pre → Piece p (some (record { tok = t; span = p })) pre

  -- The tokens of a text that begins at a position.
  pub data Reads : Text → Span → List Token → Type 0 where
    finish : {p : Span} → Reads [] p []
    piece :
        {src pre rest : Text} {p q : Span} {t : Option Token} {ts all_ts : List Token}
        → Piece p t pre
        → src ≡ pre ++ rest
        → q ≡ advance pre p
        → Reads rest q ts
        → all_ts ≡ with_token t ts
        → Reads src p all_ts

  -- What a round of the lexer takes off the text.
  pub record Consumed (src : Text) (p : Span) (rest : Text) (q : Span) (t : Option Token)
      : Type 0 where
    pub pre : Text
    pub is_piece : Piece p t pre
    pub splits : src ≡ pre ++ rest
    pub moved : q ≡ advance pre p
