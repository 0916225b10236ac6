-- ===== src/Core/Lex/Rounds.antt =====
-- One round of the lexer: what it consumes, and what it pushes.
use cuttlefish_vm.Base.{
  ◌==◌, ==_iff, Bool-cases, Option-cases, and_true, all, Text, ℕ, ◌≡◌, refl, sym, ap, ◌∙◌, ◌⊎◌, inl,
  inr, true, false, not, ◌&&◌, ◌||◌, Option, none, some, [], ◌∷◌, ◌++◌, arith,
}
use cuttlefish_vm.Core.Lex.{
  Chars, Span, ident, str, Token, LexError, unterminated_string, unknown_escape, more, stop, bump,
  skip_to_end_of_line, unescape, read_string, read_arrow, read_punctuation, read_word, is_word,
  step, head_is, skipped,
}
use cuttlefish_vm.Core.Lex.Grammar.{advance, Quotes, nothing, plain, escaped}
use mathlib.Core.List.{append_assoc, append-nil}

-- The branches of `read_string`, each as an equation.
pub read_string-quote :
    (span : Span) (c : ℕ) (cs : Text) (p : Span) (value : Text)
    → (c == b'"') ≡ true
    → read_string span (c ∷ cs) p value
      ≡ more cs (bump c p) (some (record { tok = str value; span = span }))
unfolding read_string
read_string-quote span c [] p value h = rw h
read_string-quote span c (e ∷ cs) p value h = rw h

pub read_string-plain :
    (span : Span) (c : ℕ) (cs : Text) (p : Span) (value : Text)
    → (c == b'"') ≡ false
    → (c == b'\\') ≡ false
    → read_string span (c ∷ cs) p value ≡ read_string span cs (bump c p) (value ++ c ∷ [])
unfolding read_string
read_string-plain span c [] p value h k = rw h
read_string-plain span c (e ∷ cs) p value h k = ground arith

pub read_string-escape :
    (span : Span) (c e d : ℕ) (cs : Text) (p : Span) (value : Text)
    → (c == b'\\') ≡ true
    → unescape e ≡ some d
    → read_string span (c ∷ e ∷ cs) p value
      ≡ read_string span cs (bump e (bump c p)) (value ++ d ∷ [])
unfolding read_string
read_string-escape span c e d cs p value h k = ground arith

pub read_string-unclosed :
    (span : Span) (c : ℕ) (p : Span) (value : Text)
    → (c == b'"') ≡ false
    → read_string span (c ∷ []) p value ≡ stop (unterminated_string span)
unfolding read_string
read_string-unclosed span c p value h = rw h

pub read_string-unknown :
    (span : Span) (c e : ℕ) (cs : Text) (p : Span) (value : Text)
    → (c == b'\\') ≡ true
    → unescape e ≡ none
    → read_string span (c ∷ e ∷ cs) p value ≡ stop (unknown_escape e (bump c p))
unfolding read_string
read_string-unknown span c e cs p value h k = ground arith

pub stop-ne-more : {e : LexError} {r : Text} {q : Span} {t : Option Token} → stop e ≡ more r q t → ⊥
stop-ne-more h = cc

pub record StringRead (span : Span) (text : Text) (p : Span) (value rest : Text) (q : Span)
    (t : Option Token) : Type 0 where
  pub raw : Text
  pub meant : Text
  pub quotes : Quotes raw meant
  pub splits : text ≡ raw ++ (b'"' ∷ rest)
  pub pushed : t ≡ some (record { tok = str (value ++ meant); span = span })
  pub moved : q ≡ advance (raw ++ b'"' ∷ []) p

StringRead-quote :
    (span : Span) (c : ℕ) (cs : Text) (p : Span) (value : Text) {rest : Text} {q : Span}
    {t : Option Token}
    → (c == b'"') ≡ true
    → more cs (bump c p) (some (record { tok = str value; span = span })) ≡ more rest q t
    → StringRead span (c ∷ cs) p value rest q t
unfolding advance
StringRead-quote span c cs p value h k =
    let is_quote : c ≡ b'"' = ground arith in
    record {
      raw = [];
      meant = [];
      quotes = nothing;
      splits = cc;
      pushed = rw append-nil (cc);
      moved = cc;
    }

StringRead-plain :
    (span : Span) (c : ℕ) (cs : Text) (p : Span) (value : Text) {rest : Text} {q : Span}
    {t : Option Token}
    → (c == b'"') ≡ false
    → (c == b'\\') ≡ false
    → StringRead span cs (bump c p) (value ++ c ∷ []) rest q t
    → StringRead span (c ∷ cs) p value rest q t
unfolding advance
StringRead-plain span c cs p value h k r = record {
  raw = c ∷ r.raw;
  meant = c ∷ r.meant;
  quotes = plain c h k r.quotes;
  splits = ap (◌∷◌ c) r.splits;
  pushed = r.pushed ∙ rw append_assoc;
  moved = r.moved;
}

StringRead-escape :
    (span : Span) (c e d : ℕ) (cs : Text) (p : Span) (value : Text) {rest : Text} {q : Span}
    {t : Option Token}
    → (c == b'\\') ≡ true
    → unescape e ≡ some d
    → StringRead span cs (bump e (bump c p)) (value ++ d ∷ []) rest q t
    → StringRead span (c ∷ e ∷ cs) p value rest q t
unfolding advance
StringRead-escape span c e d cs p value h k r = record {
  raw = c ∷ e ∷ r.raw;
  meant = d ∷ r.meant;
  quotes = escaped c e d h k r.quotes;
  splits = ap (λ x. c ∷ e ∷ x) r.splits;
  pushed = r.pushed ∙ rw append_assoc;
  moved = r.moved;
}

-- A string that is read to its end is a quoted text with its escapes resolved.
pub read_string-StringRead :
    (span : Span) (text : Text) (p : Span) (value : Text) {rest : Text} {q : Span}
    {t : Option Token}
    → read_string span text p value ≡ more rest q t
    → StringRead span text p value rest q t
read_string-StringRead span [] p value h = unfold read_string in cc
read_string-StringRead span (c ∷ []) p value h = elim (Bool-cases (c == b'"')) [
  | inl quote ↦ StringRead-quote span c [] p value quote (rw read_string-quote at h)
  | inr other ↦ absurd (stop-ne-more (sym (read_string-unclosed span c p value other) ∙ h))
]
read_string-StringRead span (c ∷ e ∷ cs) p value h = elim (Bool-cases (c == b'"')) [
  | inl quote ↦
      StringRead-quote span c (e ∷ cs) p value quote
        (sym (read_string-quote span c (e ∷ cs) p value quote) ∙ h)
  | inr other ↦ elim (Bool-cases (c == b'\\')) [
    | inr ordinary ↦ StringRead-plain span c (e ∷ cs) p value other ordinary (
        read_string-StringRead span (e ∷ cs) (bump c p) (value ++ c ∷ [])
          (sym (read_string-plain span c (e ∷ cs) p value other ordinary) ∙ h))
    | inl backslash ↦ elim (Option-cases (unescape e)) [
      | inl unknown ↦
          absurd
            (stop-ne-more (sym (read_string-unknown span c e cs p value backslash unknown) ∙ h))
      | inr (d, known) ↦ StringRead-escape span c e d cs p value backslash known (
          read_string-StringRead span cs (bump e (bump c p)) (value ++ d ∷ [])
            (sym (read_string-escape span c e d cs p value backslash known) ∙ h))
    ]
  ]
]

-- A line is skipped up to its end.
pub record LineSkipped (text : Text) (p : Span) (rest : Text) (q : Span) : Type 0 where
  pub pre : Text
  pub splits : text ≡ pre ++ rest
  pub moved : q ≡ advance pre p
  pub one_line : all (λ c. not (c == b'\n')) pre ≡ true

pub skip_to_end_of_line-LineSkipped :
    (text : Text) (p : Span)
    → LineSkipped text p (skip_to_end_of_line text p).0 (skip_to_end_of_line text p).1
unfolding skip_to_end_of_line advance
skip_to_end_of_line-LineSkipped [] p = record {
  pre = [];
  splits = refl;
  moved = refl;
  one_line = refl;
}
skip_to_end_of_line-LineSkipped (c ∷ cs) p = elim (Bool-cases (c == b'\n')) [
  | inl newline ↦ rw newline (record { pre = []; splits = refl; moved = refl; one_line = refl })
  | inr other ↦
      let r = skip_to_end_of_line-LineSkipped cs (bump c p) in
      rw other (record {
        pre = c ∷ r.pre;
        splits = ap (◌∷◌ c) r.splits;
        moved = r.moved;
        one_line = ground (arith, r.one_line);
      })
]

module _ (u : Chars) where
  open u use {is_whitespace, is_alphanumeric}

  pub record WordRead (span : Span) (text : Text) (p : Span) (start rest : Text) (q : Span)
      (t : Option Token) : Type 0 where
    pub pre : Text
    pub splits : text ≡ pre ++ rest
    pub moved : q ≡ advance pre p
    pub letters : all (is_word u) pre ≡ true
    pub pushed : t ≡ some (record { tok = ident (start ++ pre); span = span })

  pub read_word-WordRead :
      (span : Span) (text : Text) (p : Span) (start : Text) {rest : Text} {q : Span}
      {t : Option Token}
      → read_word u span text p start ≡ more rest q t
      → WordRead span text p start rest q t
  unfolding read_word advance
  read_word-WordRead span [] p start h = record {
    pre = [];
    splits = cc;
    moved = cc;
    letters = refl;
    pushed = rw append-nil (cc);
  }
  read_word-WordRead span (c ∷ cs) p start h = elim (Bool-cases (is_word u c)) [
    | inl letter ↦
        let r = read_word-WordRead span cs (bump c p) (start ++ c ∷ []) (rw letter at h) in
        record {
          pre = c ∷ r.pre;
          splits = ap (◌∷◌ c) r.splits;
          moved = r.moved;
          letters = rw letter r.letters;
          pushed = r.pushed ∙ rw append_assoc;
        }
    | inr other ↦
        let k = rw other at h in
        record { pre = []; splits = cc; moved = cc; letters = refl; pushed = rw append-nil (cc) }
  ]

  -- The branches of `step`, with the tests that lead to each.
  pub data Branch (c : ℕ) (cs : Text) (p : Span) : Type 0 where
    on_blank : is_whitespace c ≡ true → step u c cs p ≡ more cs (bump c p) none → Branch c cs p
    on_comment :
        (c ≡ b'#') ⊎ ((c ≡ b'/') × (head_is b'/' cs ≡ true))
        → step u c cs p ≡ skipped (skip_to_end_of_line (c ∷ cs) p)
        → Branch c cs p
    on_quote : c ≡ b'"' → step u c cs p ≡ read_string p cs (bump c p) [] → Branch c cs p
    on_minus : c ≡ b'-' → step u c cs p ≡ read_arrow cs p → Branch c cs p
    on_word : is_word u c ≡ true → step u c cs p ≡ read_word u p (c ∷ cs) p [] → Branch c cs p
    on_mark :
        is_whitespace c ≡ false
        → (c == b'#') ≡ false
        → (c == b'"') ≡ false
        → (c == b'-') ≡ false
        → (is_alphanumeric c || c == b'_' || c == b'.' || c == b'/') ≡ false
        → step u c cs p ≡ read_punctuation c cs p
        → Branch c cs p

  pub step-Branch : (c : ℕ) (cs : Text) (p : Span) → Branch c cs p
  unfolding step
  step-Branch c cs p = elim (Bool-cases (is_whitespace c)) [
    | inl ws ↦ on_blank ws (rw ws)
    | inr ws ↦ elim (Bool-cases (c == b'#')) [
      | inl hash ↦ on_comment (inl ((==_iff c b'#').0 hash)) (rw (ws, hash))
      | inr hash ↦ elim (Bool-cases (c == b'/' && head_is b'/' cs)) [
        | inl slash ↦
            let (first, second) = and_true (c == b'/') (head_is b'/' cs) slash in
            on_comment (inr ((==_iff c b'/').0 first, second)) (rw (ws, hash, slash))
        | inr slash ↦ elim (Bool-cases (c == b'"')) [
          | inl quote ↦ on_quote ((==_iff c b'"').0 quote) (rw (ws, hash, slash, quote))
          | inr quote ↦ elim (Bool-cases (c == b'-')) [
            | inl minus ↦ on_minus ((==_iff c b'-').0 minus) (rw (ws, hash, slash, quote, minus))
            | inr minus ↦
                elim (Bool-cases (is_alphanumeric c || c == b'_' || c == b'.' || c == b'/')) [
                  | inl letter ↦ on_word (rw letter) (rw (ws, hash, slash, quote, minus, letter))
                  | inr letter ↦
                      on_mark ws hash quote minus letter
                        (rw (ws, hash, slash, quote, minus, letter))
                ]
          ]
        ]
      ]
    ]
  ]
