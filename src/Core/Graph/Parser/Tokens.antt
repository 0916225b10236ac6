-- ===== src/Core/Graph/Parser/Tokens.antt =====
-- What the parser's steps on single tokens achieve.
use cuttlefish_vm.Base.{
  is_some, length, get_elem?, Text, parse_u32, parse_u32-lt, ℕ, zero, suc, ◌+◌, ◌^◌, ◌≤◌, ◌<◌, ◌≡◌,
  refl, ◌⊎◌, inl, inr, true, false, Option, none, some, List, [], ◌∷◌, arith,
}
use cuttlefish_vm.Core.Lex.{Tok, Token, semicolon}
use cuttlefish_vm.Core.Parse.{Parse, ◌>>=◌, ◌>>◌, is_tok}
use cuttlefish_vm.Core.Parse.Meets.{
  Meets, Meets-weaken, Meets-ahead, Meets-return, Meets-fail, Meets-ok_or, Meets-if, Meets-bind,
  Meets-option,
}
use cuttlefish_vm.Core.Graph.Parser.{
  look, advance, expect, name, name_of, string, string_of, skip, skip_semi, number,
}

abbrev pub Any : {A : Type 0} → A → Type 0
Any a = Unit

-- How many tokens `look` has seen ahead.
abbrev pub seen : Option Token → ℕ
seen none = 0
seen (some t) = 1

inside_of_some :
    (tokens : List Token) (at : ℕ)
    → at + seen (get_elem? tokens at) ≤ length tokens ⊎ length tokens < at
inside_of_some [] zero = inl (omega arith)
inside_of_some [] (suc at) = inr (omega arith)
inside_of_some (t ∷ ts) zero = inl (omega arith)
inside_of_some (t ∷ ts) (suc at) = grind (arith, inside_of_some ts at)

module _ (tokens : List Token) where
  -- A step that looks at one token first.
  pub look-bind-Meets :
      {A : Type 0} {P : A → Type 0} (h n k : ℕ) {rest : Option Token → Parse A}
      → ((got : Option Token) → Meets (length tokens) (seen got) n k (rest got) P)
      → Meets (length tokens) h n k (look tokens >>= rest) P
  unfolding look ◌>>=◌
  look-bind-Meets h n k w = record {
    fits = λ at inside covered.
        (w (get_elem? tokens at)).fits at (grind (arith, inside_of_some tokens at)) covered;
  }

  -- The same where no token is needed.
  pub look-any-Meets :
      {A : Type 0} {P : A → Type 0} (h n k : ℕ) {rest : Option Token → Parse A}
      → ((got : Option Token) → Meets (length tokens) 0 n k (rest got) P)
      → Meets (length tokens) h n k (look tokens >>= rest) P
  look-any-Meets h n k w = look-bind-Meets h n k (λ got. Meets-ahead (seen got) n k (w got))

  pub advance-Meets :
      (n : ℕ) (got : Option Token)
      → is_some got ≡ true
      → Meets (length tokens) (seen got) n 1 (advance tokens) Any
  unfolding advance
  advance-Meets n none h = cc
  advance-Meets n (some t) h = record { fits = λ at inside covered. (omega arith, inside, tt) }

  pub is_some-is_tok :
      (want : Tok) (got : Option Token) → is_tok want got ≡ true → is_some got ≡ true
  is_some-is_tok want none h = h
  is_some-is_tok want (some t) h = refl

  pub is_some-name_of :
      (got : Option Token) (s : Text) → name_of tokens got ≡ some s → is_some got ≡ true
  is_some-name_of none s h = cc
  is_some-name_of (some t) s h = refl

  pub is_some-string_of :
      (got : Option Token) (s : Text) → string_of tokens got ≡ some s → is_some got ≡ true
  is_some-string_of none s h = cc
  is_some-string_of (some t) s h = refl

  -- A token that is consumed leaves one fuel less to be had.
  pub advance-bind-Meets :
      {A : Type 0} {P : A → Type 0} (m k : ℕ) (got : Option Token) {rest : Parse A}
      → is_some got ≡ true
      → Meets (length tokens) 0 m k rest P
      → Meets (length tokens) (seen got) (suc m) 1 (advance tokens >> rest) P
  advance-bind-Meets m k got h w =
      Meets-bind (seen got) (suc m) 1 m k 1 (omega arith) (omega arith)
        (advance-Meets (suc m) got h) (λ a u. w)

  pub advance-same-Meets :
      {A : Type 0} {P : A → Type 0} (n k : ℕ) (got : Option Token) {rest : Parse A}
      → is_some got ≡ true
      → Meets (length tokens) 0 n k rest P
      → Meets (length tokens) (seen got) n 1 (advance tokens >> rest) P
  advance-same-Meets n k got h w =
      Meets-bind (seen got) n 1 n k 1 (omega arith) (omega arith) (advance-Meets n got h) (λ a u. w)

  pub expect-Meets : (n : ℕ) (want : Tok) → Meets (length tokens) 0 n 1 (expect tokens want) Any
  unfolding expect
  expect-Meets n want = look-bind-Meets 0 n 1 (λ got.
      Meets-if (seen got) n 1 (is_tok want got)
        (λ h. advance-Meets n got (is_some-is_tok want got h)) (λ h. Meets-fail (seen got) n 1 _))

  pub name-Meets : (n : ℕ) → Meets (length tokens) 0 n 1 (name tokens) Any
  unfolding name
  name-Meets n = look-bind-Meets 0 n 1 (λ got.
      Meets-option (seen got) n 1 (name_of tokens got) (Meets-fail (seen got) n 1 _)
        (λ s h. advance-same-Meets n 0 got (is_some-name_of got s h) (Meets-return n s tt)))

  pub string-Meets : (n : ℕ) → Meets (length tokens) 0 n 1 (string tokens) Any
  unfolding string
  string-Meets n = look-bind-Meets 0 n 1 (λ got.
      Meets-option (seen got) n 1 (string_of tokens got) (Meets-fail (seen got) n 1 _)
        (λ s h. advance-same-Meets n 0 got (is_some-string_of got s h) (Meets-return n s tt)))

  pub skip-Meets : (n : ℕ) (want : Tok) → Meets (length tokens) 0 n 0 (skip tokens want) Any
  unfolding skip
  skip-Meets n want = look-bind-Meets 0 n 0 (λ got.
      Meets-if (seen got) n 0 (is_tok want got)
        (λ h.
          Meets-weaken (seen got) (seen got) n 1 0
            (advance-same-Meets n 0 got (is_some-is_tok want got h) (Meets-return n true tt))
            (omega arith) (omega arith) (λ a u. u))
        (λ h. Meets-ahead (seen got) n 0 (Meets-return n false tt)))

  skip_semi-Meets : (n : ℕ) → Meets (length tokens) 0 n 0 (skip_semi tokens) Any
  unfolding skip_semi
  skip_semi-Meets n =
      Meets-bind 0 n 0 n 0 0 (omega arith) (omega arith) (skip-Meets n semicolon)
        (λ a u. Meets-return n tt tt)

  -- What comes behind an optional semicolon.
  pub skip_semi-bind-Meets :
      {A : Type 0} {P : A → Type 0} (n k : ℕ) {rest : Parse A}
      → Meets (length tokens) 0 n k rest P
      → Meets (length tokens) 0 n k (skip_semi tokens >> rest) P
  skip_semi-bind-Meets n k w =
      Meets-bind 0 n 0 n k k (omega arith) (omega arith) (skip_semi-Meets n) (λ a u. w)

  pub number-Meets : (n : ℕ) → Meets (length tokens) 0 n 1 (number tokens) (λ k. k < 2 ^ 32)
  unfolding number
  number-Meets n =
      Meets-bind 0 n 1 n 0 1 (omega arith) (omega arith) (name-Meets n)
        (λ s u. Meets-ok_or n _ (parse_u32 s) (λ k h. parse_u32-lt s k h))
