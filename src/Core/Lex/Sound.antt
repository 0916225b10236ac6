-- ===== src/Core/Lex/Sound.antt =====
-- What one round of the lexer takes off the text is one piece of it.
use cuttlefish_vm.Base.{
  ◌==◌, ==_iff, Bool-cases, Option-cases, Text, ℕ, ◌≡◌, refl, sym, ap, ◌∙◌, subst, inl, inr, true,
  false, Option, none, some, [], ◌∷◌, ◌++◌, arith,
}
use mathlib.Core.List.{append_assoc}
use cuttlefish_vm.Core.Lex.{
  Chars, Span, arrow, Token, more, bump, skip_to_end_of_line, read_string, punctuation, read_arrow,
  read_punctuation, read_word, is_word, step, head_is, skipped,
}
use cuttlefish_vm.Core.Lex.Grammar.{
  advance, word, quoted, arrowed, mark, IsComment, Piece, blank, comment, token, Consumed,
}
use cuttlefish_vm.Core.Lex.Rounds.{
  read_string-StringRead, skip_to_end_of_line-LineSkipped, read_word-WordRead, step-Branch,
  stop-ne-more, on_blank, on_comment, on_quote, on_minus, on_word, on_mark,
}

skip-cons :
    (c : ℕ) (cs : Text) (p : Span)
    → (c == b'\n') ≡ false
    → skip_to_end_of_line (c ∷ cs) p ≡ skip_to_end_of_line cs (bump c p)
unfolding skip_to_end_of_line
skip-cons c cs p h = rw h

module _ (u : Chars) {rest : Text} {q : Span} {t : Option Token} where
  blank-Consumed :
      (c : ℕ) (cs : Text) (p : Span)
      → Chars.is_whitespace u c ≡ true
      → more cs (bump c p) none ≡ more rest q t
      → Consumed u (c ∷ cs) p rest q t
  unfolding advance
  blank-Consumed c cs p ws h =
      let no_token : none ≡ t = cc in
      record {
        pre = c ∷ [];
        is_piece = subst (λ o. Piece u p o (c ∷ [])) no_token (blank c ws);
        splits = cc;
        moved = cc;
      }

  hash-Consumed :
      (c : ℕ) (cs : Text) (p : Span)
      → c ≡ b'#'
      → skipped (skip_to_end_of_line (c ∷ cs) p) ≡ more rest q t
      → Consumed u (c ∷ cs) p rest q t
  unfolding advance
  hash-Consumed c cs p is_hash h =
      let r = skip_to_end_of_line-LineSkipped cs (bump c p) in
      let k = rw (skip-cons c cs p (ground arith)) at h in
      let no_token : none ≡ t = cc in
      let is_comment : IsComment (c ∷ r.pre) = record {
        rest = r.pre;
        opened = inl (cc);
        one_line = ground (arith, r.one_line);
      } in
      record {
        pre = c ∷ r.pre;
        is_piece = subst (λ o. Piece u p o (c ∷ r.pre)) no_token (comment is_comment);
        splits = cc (r.splits);
        moved = cc (r.moved);
      }

  slash-Consumed :
      (c : ℕ) (cs : Text) (p : Span)
      → c ≡ b'/'
      → head_is b'/' cs ≡ true
      → skipped (skip_to_end_of_line (c ∷ cs) p) ≡ more rest q t
      → Consumed u (c ∷ cs) p rest q t
  unfolding advance
  slash-Consumed c [] p is_slash second h = cc
  slash-Consumed c (d ∷ cs) p is_slash second h =
      let r = skip_to_end_of_line-LineSkipped cs (bump d (bump c p)) in
      let k =
        rw (skip-cons c (d ∷ cs) p (ground arith), skip-cons d cs (bump c p) (ground arith)) at h in
      let no_token : none ≡ t = cc in
      let d_is : d ≡ b'/' = (==_iff d b'/').0 second in
      let is_comment : IsComment (c ∷ d ∷ r.pre) = record {
        rest = r.pre;
        opened = inr (cc);
        one_line = ground (arith, r.one_line);
      } in
      record {
        pre = c ∷ d ∷ r.pre;
        is_piece = subst (λ o. Piece u p o (c ∷ d ∷ r.pre)) no_token (comment is_comment);
        splits = cc (r.splits);
        moved = cc (r.moved);
      }

  arrow-Consumed :
      (cs : Text) (p : Span) → read_arrow cs p ≡ more rest q t → Consumed u (b'-' ∷ cs) p rest q t
  unfolding advance read_arrow
  arrow-Consumed [] p h = absurd (stop-ne-more h)
  arrow-Consumed (c ∷ cs) p h = elim (Bool-cases (c == b'>')) [
    | inr other ↦ absurd (stop-ne-more (rw other at h))
    | inl is_arrow ↦
        let k = rw is_arrow at h in
        let pushed : some (record { tok = arrow; span = p }) ≡ t = cc in
        let c_is : c ≡ b'>' = (==_iff c b'>').0 is_arrow in
        record {
          pre = b'-' ∷ b'>' ∷ [];
          is_piece =
              subst (λ o. Piece u p o (b'-' ∷ b'>' ∷ [])) pushed (token arrow (arrowed refl));
          splits = cc;
          moved = cc;
        }
  ]

  mark-Consumed :
      (c : ℕ) (cs : Text) (p : Span)
      → read_punctuation c cs p ≡ more rest q t
      → Consumed u (c ∷ cs) p rest q t
  unfolding advance read_punctuation
  mark-Consumed c cs p h = elim (Option-cases (punctuation c)) [
    | inl other ↦ absurd (stop-ne-more (rw (other, read_punctuation) at h))
    | inr (tok, known) ↦
        let k = rw (known, read_punctuation) at h in
        let pushed : some (record { tok = tok; span = p }) ≡ t = cc in
        record {
          pre = c ∷ [];
          is_piece = subst (λ o. Piece u p o (c ∷ [])) pushed (token tok (mark c known));
          splits = cc;
          moved = cc;
        }
  ]

  quote-Consumed :
      (cs : Text) (p : Span)
      → read_string p cs (bump b'"' p) [] ≡ more rest q t
      → Consumed u (b'"' ∷ cs) p rest q t
  unfolding advance
  quote-Consumed cs p h =
      let r = read_string-StringRead p cs (bump b'"' p) [] h in
      let spelled : Text = b'"' ∷ (r.raw ++ b'"' ∷ []) in
      record {
        pre = spelled;
        is_piece = subst (λ o. Piece u p o spelled) (sym r.pushed) (token _ (quoted r.quotes refl));
        splits = ap (◌∷◌ b'"') (r.splits ∙ rw append_assoc);
        moved = r.moved;
      }

  word-Consumed :
      (c : ℕ) (cs : Text) (p : Span)
      → is_word u c ≡ true
      → read_word u p (c ∷ cs) p [] ≡ more rest q t
      → Consumed u (c ∷ cs) p rest q t
  unfolding advance read_word
  word-Consumed c cs p letter h =
      let r = read_word-WordRead u p cs (bump c p) (c ∷ []) (rw letter at h) in
      record {
        pre = c ∷ r.pre;
        is_piece =
            subst (λ o. Piece u p o (c ∷ r.pre)) (sym r.pushed)
              (token _ (word (c ∷ r.pre) (λ e. cc) (rw letter r.letters)));
        splits = ap (◌∷◌ c) r.splits;
        moved = r.moved;
      }

  -- What a round takes off the text is one piece of it.
  pub step-Consumed :
      (c : ℕ) (cs : Text) (p : Span)
      → step u c cs p ≡ more rest q t
      → Consumed u (c ∷ cs) p rest q t
  step-Consumed c cs p h = elim (step-Branch u c cs p) [
    | on_blank ws e ↦ blank-Consumed c cs p ws (sym e ∙ h)
    | on_comment (inl hash) e ↦ hash-Consumed c cs p hash (sym e ∙ h)
    | on_comment (inr (slash, second)) e ↦ slash-Consumed c cs p slash second (sym e ∙ h)
    | on_quote quote e ↦
        subst (λ d. Consumed u (d ∷ cs) p rest q t) (sym quote)
          (quote-Consumed cs p
            (subst (λ d. read_string p cs (bump d p) [] ≡ more rest q t) quote (sym e ∙ h)))
    | on_minus minus e ↦
        subst (λ d. Consumed u (d ∷ cs) p rest q t) (sym minus) (arrow-Consumed cs p (sym e ∙ h))
    | on_word letter e ↦ word-Consumed c cs p letter (sym e ∙ h)
    | on_mark _ _ _ _ _ e ↦ mark-Consumed c cs p (sym e ∙ h)
  ]
