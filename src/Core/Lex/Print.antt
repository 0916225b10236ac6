-- ===== src/Core/Lex/Print.antt =====
-- Reading back a text that is written from tokens, each followed by a space.
use cuttlefish_vm.Base.{
  ◌==◌, if◌then◌else◌, Bool-cases, and_true, length, all, length-append, All, Text, ℕ, suc, ◌+◌,
  ◌-◌, ◌≤◌, ◌<◌, ◌≡◌, refl, ap, ◌∙◌, inl, inr, true, false, ◌&&◌, ◌||◌, none, some, List, [], ◌∷◌,
  ◌++◌, map, arith,
}
use mathlib.Core.List.{append_assoc, append-nil, map-append}
use cuttlefish_vm.Core.Lex.{
  Chars, Span, Tok, ident, str, equals, open_brace, close_brace, open_bracket, close_bracket, comma,
  semicolon, arrow, Token, more, bump, unescape, read_string, punctuation, read_arrow,
  read_punctuation, read_word, is_word, step, head_is, done, lex_loop, lex, start,
}
use cuttlefish_vm.Core.Lex.Rounds.{read_string-quote, read_string-plain, read_string-escape}
use cuttlefish_vm.Core.Lex.Loop.{lex_loop-more}

-- A quote and a backslash are written behind a backslash, any other character as it is.
abbrev pub escape : Text → Text
escape [] = []
escape (c ∷ cs) = if c == b'"' || c == b'\\' then b'\\' ∷ c ∷ escape cs else c ∷ escape cs

abbrev pub spell : Tok → Text
spell (ident w) = w
spell (str v) = b'"' ∷ (escape v ++ b'"' ∷ [])
spell equals = b'=' ∷ []
spell open_brace = b'{' ∷ []
spell close_brace = b'}' ∷ []
spell open_bracket = b'[' ∷ []
spell close_bracket = b']' ∷ []
spell comma = b',' ∷ []
spell semicolon = b';' ∷ []
spell arrow = b'-' ∷ b'>' ∷ []

abbrev pub render : List Tok → Text
render [] = []
render (t ∷ ts) = spell t ++ (b' ' ∷ render ts)

-- Rounds that the loop makes: two for each token, and some to spare.
abbrev rounds : List Tok → ℕ → ℕ
rounds [] extra = extra
rounds (t ∷ ts) extra = suc (suc (rounds ts extra))

-- The tokens of a list, without their positions.
abbrev pub toks : List Token → List Tok
toks ts = map (λ t. t.tok) ts

self_escaped : (c : ℕ) → (c == b'"' || c == b'\\') ≡ true → unescape c ≡ some c
unfolding unescape
self_escaped c h = ground arith

module _ (u : Chars) where
  open u use {is_whitespace, is_alphanumeric}

  -- A word that the lexer takes for an identifier: a `:` does not open one, and `//` opens a
  -- comment.
  abbrev pub IsIdent : Text → Type 0
  IsIdent [] = ⊥
  IsIdent (c ∷ cs) =
      (is_word u c ≡ true)
      × ((c == b':') ≡ false)
      × (all (is_word u) cs ≡ true)
      × ((c == b'/' && head_is b'/' cs) ≡ false)

  abbrev pub IsPrintable : Tok → Type 0
  IsPrintable (ident w) = IsIdent w
  IsPrintable _ = Unit

  space_is_blank : is_whitespace b' ' ≡ true
  space_is_blank = u.ascii_whitespace 32 (omega arith)

  step-space : (cs : Text) (p : Span) → step u b' ' cs p ≡ more cs (bump b' ' p) none
  unfolding step
  step-space cs p = rw space_is_blank

  read_string-escape_text :
      (span : Span) (v rest : Text) (p : Span) (value : Text)
      → (q : Span) × (read_string span (escape v ++ (b'"' ∷ rest)) p value
          ≡ more rest q (some (record { tok = str (value ++ v); span = span })))
  read_string-escape_text span [] rest p value =
      (bump b'"' p, read_string-quote span b'"' rest p value refl ∙ rw append-nil)
  read_string-escape_text span (c ∷ cs) rest p value = elim (Bool-cases (c == b'"' || c == b'\\')) [
    | inl special ↦
        let (q, r) =
          read_string-escape_text span cs rest (bump c (bump b'\\' p)) (value ++ c ∷ []) in
        (
          q,
          rw special (
              read_string-escape span b'\\' c c (escape cs ++ (b'"' ∷ rest)) p value refl
                (self_escaped c special)
              ∙ r
              ∙ rw append_assoc),
        )
    | inr ordinary ↦
        let (q, r) = read_string-escape_text span cs rest (bump c p) (value ++ c ∷ []) in
        (
          q,
          rw ordinary (
              read_string-plain span c (escape cs ++ (b'"' ∷ rest)) p value (ground arith)
                (ground arith)
              ∙ r
              ∙ rw append_assoc),
        )
  ]

  -- The token stands in one round, and the loop goes on at the space behind it.
  abbrev ReadsOne : Tok → Type 0
  ReadsOne t =
      (fuel : ℕ) (rest : Text) (p : Span) (tokens : List Token)
      → (q : Span) × (lex_loop u (suc fuel) (spell t ++ (b' ' ∷ rest)) p tokens
          ≡ lex_loop u fuel (b' ' ∷ rest) q (tokens ++ record { tok = t; span = p } ∷ []))

  step-quote : (cs : Text) (p : Span) → step u b'"' cs p ≡ read_string p cs (bump b'"' p) []
  unfolding step
  step-quote cs p = rw (u.ascii_whitespace 34 (omega arith))

  str-ReadsOne : (v : Text) → ReadsOne (str v)
  str-ReadsOne v fuel rest p tokens =
      let (q, r) = read_string-escape_text p v (b' ' ∷ rest) (bump b'"' p) [] in
      let behind : Text = (escape v ++ b'"' ∷ []) ++ b' ' ∷ rest in
      let one : step u b'"' behind p
          ≡ more (b' ' ∷ rest) q (some (record { tok = str v; span = p })) =
        step-quote behind p ∙ rw append_assoc r in
      (q, lex_loop-more u fuel b'"' behind p tokens one)

  step-arrow :
      (cs : Text) (p : Span)
      → step u b'-' (b'>' ∷ cs) p
        ≡ more cs (bump b'>' (bump b'-' p)) (some (record { tok = arrow; span = p }))
  unfolding step read_arrow
  step-arrow cs p = rw (u.ascii_whitespace 45 (omega arith))

  arrow-ReadsOne : ReadsOne arrow
  arrow-ReadsOne fuel rest p tokens = (
    bump b'>' (bump b'-' p),
    lex_loop-more u fuel b'-' (b'>' ∷ b' ' ∷ rest) p tokens (step-arrow (b' ' ∷ rest) p),
  )

  step-mark :
      (c : ℕ) (t : Tok)
      → c < 128
      → punctuation c ≡ some t
      → (cs : Text) (p : Span)
      → step u c cs p ≡ more cs (bump c p) (some (record { tok = t; span = p }))
  unfolding step read_punctuation punctuation
  step-mark c t ascii known cs p =
      ground (arith, u.ascii_whitespace c ascii, u.ascii_alphanumeric c ascii)

  mark-ReadsOne :
      (c : ℕ) (t : Tok) → c < 128 → spell t ≡ c ∷ [] → punctuation c ≡ some t → ReadsOne t
  mark-ReadsOne c t ascii e known fuel rest p tokens = (
    bump c p,
    rw e
        (lex_loop-more u fuel c (b' ' ∷ rest) p tokens (step-mark c t ascii known (b' ' ∷ rest) p)),
  )

  word_stops :
      (span : Span) (w rest : Text) (p : Span) (word : Text)
      → all (is_word u) w ≡ true
      → (q : Span) × (read_word u span (w ++ (b' ' ∷ rest)) p word
          ≡ more (b' ' ∷ rest) q (some (record { tok = ident (word ++ w); span = span })))
  unfolding read_word
  word_stops span [] rest p word h = (p, rw (u.ascii_alphanumeric 32 (omega arith), append-nil))
  word_stops span (c ∷ cs) rest p word h =
      let (letter, letters) = and_true (is_word u c) (all (is_word u) cs) h in
      let (q, r) = word_stops span cs rest (bump c p) (word ++ c ∷ []) letters in
      (q, rw letter (r ∙ rw append_assoc))

  word_start :
      (c : ℕ)
      → is_word u c ≡ true
      → (c == b':') ≡ false
      → (is_whitespace c ≡ false)
        × ((c == b'#') ≡ false)
        × ((c == b'"') ≡ false)
        × ((c == b'-') ≡ false)
        × ((is_alphanumeric c || c == b'_' || c == b'.' || c == b'/') ≡ true)
  word_start c letter colon = (
    blank_free,
    ground (arith, u.ascii_alphanumeric 35 (omega arith)),
    ground (arith, u.ascii_alphanumeric 34 (omega arith)),
    ground (arith, u.ascii_alphanumeric 45 (omega arith)),
    ground arith,
  )
    where
      blank_free : is_whitespace c ≡ false
      blank_free = ground (
        arith,
        u.alphanumeric_not_whitespace c,
        u.ascii_whitespace 95 (omega arith),
        u.ascii_whitespace 46 (omega arith),
        u.ascii_whitespace 47 (omega arith),
      )

  slashes_apart :
      (c : ℕ) (cs rest : Text)
      → (c == b'/' && head_is b'/' cs) ≡ false
      → (c == b'/' && head_is b'/' (cs ++ (b' ' ∷ rest))) ≡ false
  slashes_apart c [] rest h = ground arith
  slashes_apart c (d ∷ cs) rest h = h

  step-ident :
      (c : ℕ) (cs rest : Text) (p : Span)
      → IsIdent (c ∷ cs)
      → step u c (cs ++ (b' ' ∷ rest)) p ≡ read_word u p (c ∷ (cs ++ (b' ' ∷ rest))) p []
  unfolding step
  step-ident c cs rest p (letter, colon, letters, slashes) =
      let (ws, hash, quote, minus, opens) = word_start c letter colon in
      rw (ws, hash, slashes_apart c cs rest slashes, quote, minus, opens)

  ident-ReadsOne : (w : Text) → IsIdent w → ReadsOne (ident w)
  ident-ReadsOne [] ok_ident fuel rest p tokens = absurd ok_ident
  ident-ReadsOne (c ∷ cs) ok_ident fuel rest p tokens =
      let (q, r) = word_stops p (c ∷ cs) rest p [] (rw ok_ident.0 ok_ident.2) in
      (
        q,
        lex_loop-more u fuel c (cs ++ (b' ' ∷ rest)) p tokens (step-ident c cs rest p ok_ident ∙ r),
      )

  spell-ReadsOne : (t : Tok) → IsPrintable t → ReadsOne t
  unfolding punctuation
  spell-ReadsOne (ident w) h = ident-ReadsOne w h
  spell-ReadsOne (str v) h = str-ReadsOne v
  spell-ReadsOne arrow h = arrow-ReadsOne
  spell-ReadsOne equals h = mark-ReadsOne b'=' equals (omega arith) refl refl
  spell-ReadsOne open_brace h = mark-ReadsOne b'{' open_brace (omega arith) refl refl
  spell-ReadsOne close_brace h = mark-ReadsOne b'}' close_brace (omega arith) refl refl
  spell-ReadsOne open_bracket h = mark-ReadsOne b'[' open_bracket (omega arith) refl refl
  spell-ReadsOne close_bracket h = mark-ReadsOne b']' close_bracket (omega arith) refl refl
  spell-ReadsOne comma h = mark-ReadsOne b',' comma (omega arith) refl refl
  spell-ReadsOne semicolon h = mark-ReadsOne b';' semicolon (omega arith) refl refl

  lex_loop-render :
      (ts : List Tok)
      → All IsPrintable ts
      → (extra : ℕ) (p : Span) (tokens : List Token)
      → (all_tokens : List Token) × (lex_loop u (rounds ts extra) (render ts) p tokens
          ≡ done all_tokens)
        × (toks all_tokens ≡ toks tokens ++ ts)
  lex_loop-render [] h extra p tokens = (tokens, unfold lex_loop in refl, rw append-nil)
  lex_loop-render (t ∷ ts) h extra p tokens =
      let (q, one) = spell-ReadsOne t h.0 (suc (rounds ts extra)) (render ts) p tokens in
      let pushed : List Token = tokens ++ record { tok = t; span = p } ∷ [] in
      let space =
        lex_loop-more u (rounds ts extra) b' ' (render ts) q pushed (step-space (render ts) q) in
      let (out, ends, same) = lex_loop-render ts h.1 extra (bump b' ' q) pushed in
      (out, one ∙ space ∙ ends, same ∙ rw (map-append, append_assoc))

  rounds-add : (ts : List Tok) (extra : ℕ) → rounds ts extra ≡ rounds ts 0 + extra
  rounds-add [] extra = omega arith
  rounds-add (t ∷ ts) extra = omega (arith, rounds-add ts extra)

  length-spell : (t : Tok) → IsPrintable t → 0 < length (spell t)
  length-spell (ident []) h = absurd h
  length-spell (ident (c ∷ cs)) h = omega arith
  length-spell equals h = omega arith
  length-spell _ h = omega arith

  rounds-le-length : (ts : List Tok) → All IsPrintable ts → rounds ts 0 ≤ length (render ts)
  rounds-le-length [] h = omega arith
  rounds-le-length (t ∷ ts) h = omega (
    arith,
    length-append (spell t) (b' ' ∷ render ts),
    length-spell t h.0,
    rounds-le-length ts h.1,
  )

  -- Tokens of which the identifiers are words of the lexer (not empty, with no `:` in front and not
  -- the begin of a comment), written out, each followed by a space and strings with their escapes,
  -- are read back by the lexer as the same tokens in the same order.
  pub lex-render :
      (ts : List Tok)
      → All IsPrintable ts
      → (out : List Token) × (lex u (render ts) ≡ done out) × (toks out ≡ ts)
  unfolding lex
  lex-render ts h =
      let spare : ℕ = length (render ts) - rounds ts 0 in
      let (out, ends, same) = lex_loop-render ts h spare start [] in
      let enough : length (render ts) ≡ rounds ts spare =
        omega (arith, rounds-add ts spare, rounds-le-length ts h) in
      (out, ap (λ fuel. lex_loop u fuel (render ts) start []) enough ∙ ends, same)
