-- ===== src/Core/Lex/Errors.antt =====
-- Where a lexer error points.
use cuttlefish_vm.Base.{
  ◌==◌, Bool-cases, Option-cases, length, Text, ℕ, zero, suc, ◌≡◌, refl, sym, ap, ◌∙◌, subst, ◌≢◌,
  inl, inr, false, ◌||◌, none, List, [], ◌∷◌, ◌++◌, arith,
}
use cuttlefish_vm.Core.Lex.{
  Chars, Span, LexError, unexpected_char, stop, bump, punctuation, read_arrow, read_punctuation,
  Token, read_word, step, failed, lex_loop, lex, push, start, is_word, head_is,
}
use cuttlefish_vm.Core.Lex.Rounds.{
  step-Branch, on_blank, on_comment, on_quote, on_minus, on_word, on_mark, stop-ne-more,
}
use cuttlefish_vm.Core.Lex.Sound.{step-Consumed}
use cuttlefish_vm.Core.Lex.Loop.{Round-cases, lex_loop-more, lex_loop-stop}
use cuttlefish_vm.Core.Lex.Causes.{
  PointsAt, PointsAt-append, IsStray, StringStop, read_string-stop, quote-PointsAt, stray-PointsAt,
}

read_arrow-stop :
    (cs : Text) (p : Span) {e : LexError}
    → read_arrow cs p ≡ stop e
    → (unexpected_char b'-' p ≡ e) × (head_is b'>' cs ≡ false)
unfolding read_arrow
read_arrow-stop [] p h = (cc, refl)
read_arrow-stop (c ∷ cs) p h = elim (Bool-cases (c == b'>')) [
  | inl yes_ ↦ absurd (stop-ne-more (sym (rw yes_ at h)))
  | inr other ↦ let k = rw other at h in (cc, other)
]

read_punctuation-stop :
    (c : ℕ) (cs : Text) (p : Span) {e : LexError}
    → read_punctuation c cs p ≡ stop e
    → (unexpected_char c p ≡ e) × (punctuation c ≡ none)
unfolding read_punctuation
read_punctuation-stop c cs p h = elim (Option-cases (punctuation c)) [
  | inl none_ ↦ let k = rw (none_, read_punctuation) at h in (cc, none_)
  | inr (t, known) ↦ absurd (stop-ne-more (sym (rw (known, read_punctuation) at h)))
]

minus-IsStray :
    (u : Chars) (c : ℕ) (cs : Text) → c ≡ b'-' → head_is b'>' cs ≡ false → IsStray u c cs
minus-IsStray u c cs minus no_arrow =
    subst (λ d. IsStray u d cs) (sym minus)
      (u.ascii_whitespace 45 (omega arith), u.ascii_alphanumeric 45 (omega arith), refl, no_arrow)

mark-IsStray :
    (u : Chars) (c : ℕ) (cs : Text)
    → u.is_whitespace c ≡ false
    → (c == b'#') ≡ false
    → (c == b'"') ≡ false
    → (c == b'-') ≡ false
    → (u.is_alphanumeric c || c == b'_' || c == b'.' || c == b'/') ≡ false
    → punctuation c ≡ none
    → IsStray u c cs
unfolding punctuation
mark-IsStray u c cs blank hash quote minus letter mark =
    (blank, ground arith, ground arith, ground arith)

module _ (u : Chars) where
  read_word-ne-stop :
      (span : Span) (text : Text) (p : Span) (word : Text) {e : LexError}
      → read_word u span text p word ≢ stop e
  unfolding read_word
  read_word-ne-stop span [] p word h = cc
  read_word-ne-stop span (c ∷ cs) p word h = elim (Bool-cases (is_word u c)) [
    | inl letter ↦ read_word-ne-stop span cs (bump c p) (word ++ c ∷ []) (rw letter at h)
    | inr other ↦ absurd (stop-ne-more (sym (rw other at h)))
  ]

  step-PointsAt :
      (c : ℕ) (cs : Text) (p : Span) {e : LexError}
      → step u c cs p ≡ stop e
      → PointsAt u (c ∷ cs) p e
  step-PointsAt c cs p {e} h = elim (step-Branch u c cs p) [
    | on_blank ws k ↦ absurd (stop-ne-more (sym h ∙ k))
    | on_comment _ k ↦ absurd (stop-ne-more (sym h ∙ k))
    | on_quote quote k ↦
        subst (λ d. PointsAt u (d ∷ cs) p e) (sym quote)
          (quote-PointsAt u cs p (
            subst (λ d. StringStop p cs (bump d p) e) quote
              (read_string-stop p cs (bump c p) [] (sym k ∙ h))))
    | on_minus minus k ↦
        let (same, no_arrow) = read_arrow-stop cs p (sym k ∙ h) in
        stray-PointsAt u c cs p (rw minus same) (minus-IsStray u c cs minus no_arrow)
    | on_word letter k ↦ absurd (read_word-ne-stop p (c ∷ cs) p [] (sym k ∙ h))
    | on_mark blank hash quote minus letter k ↦
        let (same, mark) = read_punctuation-stop c cs p (sym k ∙ h) in
        stray-PointsAt u c cs p same (mark-IsStray u c cs blank hash quote minus letter mark)
  ]

  lex_loop-PointsAt :
      (fuel : ℕ) (src : Text) (p : Span) (tokens : List Token) {e : LexError}
      → lex_loop u fuel src p tokens ≡ failed e
      → PointsAt u src p e
  lex_loop-PointsAt fuel [] p tokens h = unfold lex_loop in cc
  lex_loop-PointsAt zero (c ∷ cs) p tokens h = unfold lex_loop in cc
  lex_loop-PointsAt (suc fuel) (c ∷ cs) p tokens {e} h = elim (Round-cases (step u c cs p)) [
    | inl (e', k) ↦
        let same : e' ≡ e = cc (lex_loop-stop u fuel c cs p tokens k) in
        step-PointsAt c cs p (k ∙ ap stop same)
    | inr (rest, q, t, k) ↦
        let r = step-Consumed u c cs p k in
        PointsAt-append r.pre r.splits r.moved (
          lex_loop-PointsAt fuel rest q (push tokens t)
            (sym (lex_loop-more u fuel c cs p tokens k) ∙ h))
  ]

  -- A lexer error names a character of the text, reports the position of that very character and is
  -- true of it: a quote behind which no quote closes the string before the end of the text; inside
  -- a string, a character behind a backslash that is none of `"`, `\`, `n`, `t`; or a character
  -- that begins no blank, comment, string, word, mark or arrow.
  pub lex-PointsAt : (src : Text) (e : LexError) → lex u src ≡ failed e → PointsAt u src start e
  unfolding lex
  lex-PointsAt src e h = lex_loop-PointsAt (length src) src start [] h
