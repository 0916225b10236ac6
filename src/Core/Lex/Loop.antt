-- ===== src/Core/Lex/Loop.antt =====
-- The lexer ends, and what it returns is a reading of the text, token by token.
use cuttlefish_vm.Base.{
  length, length-append, Text, ℕ, zero, suc, ◌≤◌, ◌<◌, ◌≡◌, refl, sym, ap, ◌∙◌, ◌≢◌, ◌⊎◌, inl, inr,
  Option, none, some, List, [], ◌∷◌, ◌++◌, arith,
}
use mathlib.Core.List.{append_assoc, append-nil}
use cuttlefish_vm.Core.Lex.{
  Chars, Span, Tok, Token, LexError, Round, more, stop, step, done, failed, out_of_fuel, lex_loop,
  lex, push, start,
}
use cuttlefish_vm.Core.Lex.Grammar.{
  Spells, word, quoted, arrowed, mark, IsComment, Piece, blank, comment, token, Consumed, Reads,
  piece, finish, with_token,
}
use cuttlefish_vm.Core.Lex.Sound.{step-Consumed}

failed-ne-done : {e : LexError} {ts : List Token} → failed e ≡ done ts → ⊥
failed-ne-done h = cc

failed-ne-out_of_fuel : {e : LexError} → failed e ≡ out_of_fuel → ⊥
failed-ne-out_of_fuel h = cc

pub Round-cases :
    (r : Round)
    → ((e : LexError) × (r ≡ stop e))
      ⊎ ((rest : Text) × (q : Span) × (t : Option Token) × (r ≡ more rest q t))
Round-cases (stop e) = inl (e, refl)
Round-cases (more rest q t) = inr (rest, q, t, refl)

push-with_token :
    (tokens ts : List Token) (t : Option Token) → push tokens t ++ ts ≡ tokens ++ with_token t ts
push-with_token tokens ts none = refl
push-with_token tokens ts (some t) = append_assoc tokens (t ∷ []) ts

module _ (u : Chars) where
  pub lex_loop-more :
      (fuel c : ℕ) (cs : Text) (p : Span) (tokens : List Token) {rest : Text} {q : Span}
      {t : Option Token}
      → step u c cs p ≡ more rest q t
      → lex_loop u (suc fuel) (c ∷ cs) p tokens ≡ lex_loop u fuel rest q (push tokens t)
  unfolding lex_loop
  lex_loop-more fuel c cs p tokens h = rw (h, lex_loop)

  pub lex_loop-stop :
      (fuel c : ℕ) (cs : Text) (p : Span) (tokens : List Token) {e : LexError}
      → step u c cs p ≡ stop e
      → lex_loop u (suc fuel) (c ∷ cs) p tokens ≡ failed e
  unfolding lex_loop
  lex_loop-stop fuel c cs p tokens h = rw (h, lex_loop)

  lex_loop-Reads :
      (fuel : ℕ) (src : Text) (p : Span) (tokens all_tokens : List Token)
      → lex_loop u fuel src p tokens ≡ done all_tokens
      → (ts : List Token) × (all_tokens ≡ tokens ++ ts) × Reads u src p ts
  lex_loop-Reads fuel [] p tokens all_tokens h = unfold lex_loop in ([], rw append-nil (cc), finish)
  lex_loop-Reads zero (c ∷ cs) p tokens all_tokens h = unfold lex_loop in cc
  lex_loop-Reads (suc fuel) (c ∷ cs) p tokens all_tokens h = elim (Round-cases (step u c cs p)) [
    | inl (e, k) ↦ absurd (failed-ne-done (sym (lex_loop-stop fuel c cs p tokens k) ∙ h))
    | inr (rest, q, t, k) ↦
        let (ts, same, reads) =
          lex_loop-Reads fuel rest q (push tokens t) all_tokens
            (sym (lex_loop-more fuel c cs p tokens k) ∙ h) in
        let r = step-Consumed u c cs p k in
        (
          with_token t ts,
          same ∙ push-with_token tokens ts t,
          piece r.is_piece r.splits r.moved reads refl,
        )
  ]

  -- What the lexer returns is a reading of the whole text: blanks, comments and spelled tokens in
  -- a row, each token with the position of its first character.
  pub lex-Reads :
      (src : Text) (tokens : List Token) → lex u src ≡ done tokens → Reads u src start tokens
  unfolding lex
  lex-Reads src tokens h =
      let (ts, same, reads) = lex_loop-Reads (length src) src start [] tokens h in rw same reads

  Spells-length : {t : Tok} {pre : Text} → Spells u t pre → 0 < length pre
  Spells-length (word [] ne letters) = absurd (ne refl)
  Spells-length (word (c ∷ cs) ne letters) = omega arith
  Spells-length (quoted quotes e) = omega (arith, ap length e)
  Spells-length (arrowed e) = omega (arith, ap length e)
  Spells-length (mark c e) = omega arith

  IsComment-length : {pre : Text} → IsComment pre → 0 < length pre
  IsComment-length c = elim c.opened [
    | inl e ↦ omega (arith, ap length e)
    | inr e ↦ omega (arith, ap length e)
  ]

  Piece-length : {p : Span} {t : Option Token} {pre : Text} → Piece u p t pre → 0 < length pre
  Piece-length (blank c ws) = omega arith
  Piece-length (comment is_comment) = IsComment-length is_comment
  Piece-length (token t spells) = Spells-length spells

  pub Consumed-shorter :
      {src rest : Text} {p q : Span} {t : Option Token}
      → Consumed u src p rest q t
      → length rest < length src
  Consumed-shorter {rest = rest} r =
      omega (arith, Piece-length r.is_piece, ap length r.splits, length-append r.pre rest)

  lex_loop_total :
      (fuel : ℕ) (src : Text) (p : Span) (tokens : List Token)
      → length src ≤ fuel
      → lex_loop u fuel src p tokens ≢ out_of_fuel
  lex_loop_total fuel [] p tokens h k = unfold lex_loop in cc
  lex_loop_total zero (c ∷ cs) p tokens h k = absurd (omega arith)
  lex_loop_total (suc fuel) (c ∷ cs) p tokens h k = elim (Round-cases (step u c cs p)) [
    | inl (e, s) ↦ failed-ne-out_of_fuel (sym (lex_loop-stop fuel c cs p tokens s) ∙ k)
    | inr (rest, q, t, s) ↦
        lex_loop_total fuel rest q (push tokens t)
          (omega (arith, Consumed-shorter (step-Consumed u c cs p s)))
          (sym (lex_loop-more fuel c cs p tokens s) ∙ k)
  ]

  -- The lexer ends on every text: one round for each character is enough.
  pub lex_total : (src : Text) → lex u src ≢ out_of_fuel
  unfolding lex
  lex_total src = lex_loop_total (length src) src start [] (omega arith)
