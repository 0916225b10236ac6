-- ===== src/Core/Lex/Causes.antt =====
-- What gives cause for a lexer error, and the errors inside a string:
-- crates/cuttlefish-core/src/lex.rs.
use cuttlefish_vm.Base.{
  ◌==◌, ==_iff, Bool-cases, Option-cases, all, Text, codes, ℕ, ◌≡◌, refl, sym, ap, ◌∙◌, subst, ◌≢◌,
  ◌⊎◌, inl, inr, true, false, not, ◌&&◌, none, some, [], ◌∷◌, ◌++◌, arith,
}
use mathlib.Core.List.{append_assoc}
use cuttlefish_vm.Core.Lex.{
  Chars, Span, LexError, unterminated_string, unexpected_char, unknown_escape, stop, bump, unescape,
  read_string, head_is,
}
use cuttlefish_vm.Core.Lex.Grammar.{advance, advance-append}
use cuttlefish_vm.Core.Lex.Rounds.{
  stop-ne-more, read_string-quote, read_string-plain, read_string-escape, read_string-unclosed,
  read_string-unknown,
}

-- The character that an error names, and the position that it reports.
abbrev pub culprit : LexError → ℕ
culprit (unterminated_string s) = b'"'
culprit (unexpected_char c s) = c
culprit (unknown_escape c s) = c

abbrev pub error_span : LexError → Span
error_span (unterminated_string s) = s
error_span (unexpected_char c s) = s
error_span (unknown_escape c s) = s

-- The characters that stand behind a backslash.
abbrev pub IsEscape : ℕ → Type 0
IsEscape c = (c ≡ b'"') ⊎ (c ≡ b'\\') ⊎ (c ≡ b'n') ⊎ (c ≡ b't')

-- A piece of a string's inside, with no quote that closes it.
pub data IsInside : Text → Type 0 where
  no_more : IsInside []
  plain : {c : ℕ} {cs : Text} → c ≢ b'"' → c ≢ b'\\' → IsInside cs → IsInside (c ∷ cs)
  escape : {c : ℕ} {cs : Text} → IsEscape c → IsInside cs → IsInside (b'\\' ∷ c ∷ cs)

-- A text that ends inside a string, at a lone backslash perhaps.
pub record IsOpen (text : Text) : Type 0 where
  pub raw : Text
  pub tail : Text
  pub splits : text ≡ raw ++ tail
  pub inside : IsInside raw
  pub ends : (tail ≡ []) ⊎ (tail ≡ b'\\' ∷ [])

-- A text that ends with a quote, an inside of a string, and a backslash.
pub record IsEscaping (text : Text) : Type 0 where
  pub outer : Text
  pub raw : Text
  pub splits : text ≡ outer ++ (b'"' ∷ raw ++ b'\\' ∷ [])
  pub inside : IsInside raw

-- A character that begins neither a blank, a comment, a string, a word, a mark nor an arrow.
abbrev pub IsStray : Chars → ℕ → Text → Type 0
IsStray u c behind =
    (u.is_whitespace c ≡ false)
    × (u.is_alphanumeric c ≡ false)
    × (all (λ d. not (c == d)) (codes "#\"_./={}[],;") ≡ true)
    × ((c == b'-' && head_is b'>' behind) ≡ false)

-- What is wrong with the text around the character that an error names.
abbrev pub Cause : Chars → Text → LexError → Text → Type 0
Cause u before (unterminated_string s) behind = IsOpen behind
Cause u before (unexpected_char c s) behind = IsStray u c behind
Cause u before (unknown_escape c s) behind = IsEscaping before × (IsEscape c → ⊥)

-- The text splits before the character that the error names, the reported position is that of this
-- character, and the text around it gives cause for the error.
pub record PointsAt (u : Chars) (src : Text) (p : Span) (e : LexError) : Type 0 where
  pub before : Text
  pub behind : Text
  pub splits : src ≡ before ++ (culprit e ∷ behind)
  pub located : error_span e ≡ advance before p
  pub cause : Cause u before e behind

Cause-append :
    (u : Chars) (pre before : Text) (e : LexError) (behind : Text)
    → Cause u before e behind
    → Cause u (pre ++ before) e behind
Cause-append u pre before (unterminated_string s) behind c = c
Cause-append u pre before (unexpected_char d s) behind c = c
Cause-append u pre before (unknown_escape d s) behind (c, unknown) = (
  record {
    outer = pre ++ c.outer;
    raw = c.raw;
    splits = rw (c.splits, append_assoc) refl;
    inside = c.inside;
  },
  unknown,
)

pub PointsAt-append :
    {u : Chars} {src rest : Text} {p q : Span} {e : LexError} (pre : Text)
    → src ≡ pre ++ rest
    → q ≡ advance pre p
    → PointsAt u rest q e
    → PointsAt u src p e
PointsAt-append {u} {p = p} {e = e} pre s m r = record {
  before = pre ++ r.before;
  behind = r.behind;
  splits = rw (s, r.splits, append_assoc) refl;
  located = rw (r.located, m, advance-append) refl;
  cause = Cause-append u pre r.before e r.behind r.cause;
}

unescape-IsEscape : (c v : ℕ) → unescape c ≡ some v → IsEscape c
unfolding unescape
unescape-IsEscape c v h = ground arith

unescape-unknown : (c : ℕ) → unescape c ≡ none → IsEscape c → ⊥
unfolding unescape
unescape-unknown c h (inl k) = ground arith
unescape-unknown c h (inr (inl k)) = ground arith
unescape-unknown c h (inr (inr (inl k))) = ground arith
unescape-unknown c h (inr (inr (inr k))) = ground arith

-- Where the reading of a string stops, behind its quote.
pub data StringStop (span : Span) (text : Text) (p : Span) (e : LexError) : Type 0 where
  open_end : IsOpen text → e ≡ unterminated_string span → StringStop span text p e
  bad_escape :
      (raw : Text) (d : ℕ) (behind : Text)
      → text ≡ raw ++ (b'\\' ∷ d ∷ behind)
      → IsInside raw
      → (IsEscape d → ⊥)
      → e ≡ unknown_escape d (advance (raw ++ b'\\' ∷ []) p)
      → StringStop span text p e

plain_before :
    {span : Span} {c : ℕ} {cs : Text} {p : Span} {e : LexError}
    → c ≢ b'"'
    → c ≢ b'\\'
    → StringStop span cs (bump c p) e
    → StringStop span (c ∷ cs) p e
unfolding advance
plain_before {c = c} no_quote ordinary (open_end o same) =
    open_end
      (record {
        raw = c ∷ o.raw;
        tail = o.tail;
        splits = ap (c ∷◌) o.splits;
        inside = plain no_quote ordinary o.inside;
        ends = o.ends;
      })
      same
plain_before {c = c} no_quote ordinary (bad_escape raw d behind splits inside unknown same) =
    bad_escape (c ∷ raw) d behind (ap (c ∷◌) splits) (plain no_quote ordinary inside) unknown same

escape_before :
    {span : Span} {c : ℕ} {cs : Text} {p : Span} {e : LexError}
    → IsEscape c
    → StringStop span cs (bump c (bump b'\\' p)) e
    → StringStop span (b'\\' ∷ c ∷ cs) p e
unfolding advance
escape_before {c = c} known (open_end o same) =
    open_end
      (record {
        raw = b'\\' ∷ c ∷ o.raw;
        tail = o.tail;
        splits = ap (λ t. b'\\' ∷ c ∷ t) o.splits;
        inside = escape known o.inside;
        ends = o.ends;
      })
      same
escape_before {c = c} known (bad_escape raw d behind splits inside unknown same) =
    bad_escape (b'\\' ∷ c ∷ raw) d behind (ap (λ t. b'\\' ∷ c ∷ t) splits) (escape known inside)
      unknown same

no_tail : {text : Text} → text ≡ [] → IsOpen text
no_tail h = record { raw = []; tail = []; splits = h; inside = no_more; ends = inl refl }

unknown_here :
    (span : Span) (d : ℕ) (cs : Text) (p : Span) (value : Text) {e : LexError}
    → unescape d ≡ none
    → read_string span (b'\\' ∷ d ∷ cs) p value ≡ stop e
    → e ≡ unknown_escape d (advance (b'\\' ∷ []) p)
unfolding advance
unknown_here span d cs p value {e} unknown h =
    let k = sym (read_string-unknown span b'\\' d cs p value refl unknown) ∙ h in cc

pub read_string-stop :
    (span : Span) (text : Text) (p : Span) (value : Text) {e : LexError}
    → read_string span text p value ≡ stop e
    → StringStop span text p e
read_string-stop span [] p value h = unfold read_string in open_end (no_tail refl) (cc)
read_string-stop span (c ∷ []) p value {e} h = elim (Bool-cases (c == b'"')) [
  | inl quote ↦ absurd (stop-ne-more (sym h ∙ read_string-quote span c [] p value quote))
  | inr other ↦
      let k = sym h ∙ read_string-unclosed span c p value other in open_end (last_open c other) (cc)
]
  where
    last_open : (c : ℕ) → (c == b'"') ≡ false → IsOpen (c ∷ [])
    last_open c other = elim (Bool-cases (c == b'\\')) [
      | inl backslash ↦ record {
        raw = [];
        tail = b'\\' ∷ [];
        splits = ap (λ d. d ∷ []) ((==_iff c b'\\').0 backslash);
        inside = no_more;
        ends = inr refl;
      }
      | inr ordinary ↦ record {
        raw = c ∷ [];
        tail = [];
        splits = refl;
        inside = plain (λ k. ground arith) (λ k. ground arith) no_more;
        ends = inl refl;
      }
    ]
read_string-stop span (c ∷ d ∷ cs) p value {e} h = elim (Bool-cases (c == b'"')) [
  | inl quote ↦ absurd (stop-ne-more (sym h ∙ read_string-quote span c (d ∷ cs) p value quote))
  | inr other ↦ elim (Bool-cases (c == b'\\')) [
    | inr ordinary ↦
        plain_before (λ k. ground arith) (λ k. ground arith)
          (read_string-stop span (d ∷ cs) (bump c p) (value ++ c ∷ [])
            (sym (read_string-plain span c (d ∷ cs) p value other ordinary) ∙ h))
    | inl backslash ↦
        let is_backslash = (==_iff c b'\\').0 backslash in
        subst (λ b. StringStop span (b ∷ d ∷ cs) p e) (sym is_backslash)
          (elim (Option-cases (unescape d)) [
            | inl unknown ↦ bad_escape [] d cs refl no_more (unescape-unknown d unknown) (
                unknown_here span d cs p value unknown
                  (subst (λ b. read_string span (b ∷ d ∷ cs) p value ≡ stop e) is_backslash h))
            | inr (v, known) ↦ escape_before (unescape-IsEscape d v known) (
                read_string-stop span cs (bump d (bump b'\\' p)) (value ++ v ∷ []) (
                  sym (read_string-escape span b'\\' d v cs p value refl known)
                  ∙ subst (λ b. read_string span (b ∷ d ∷ cs) p value ≡ stop e) is_backslash h))
          ])
  ]
]

-- A string that is not read to its end, from its quote on.
pub quote-PointsAt :
    (u : Chars) (cs : Text) (p : Span) {e : LexError}
    → StringStop p cs (bump b'"' p) e
    → PointsAt u (b'"' ∷ cs) p e
unfolding advance
quote-PointsAt u cs p (open_end o same) =
    subst (PointsAt u (b'"' ∷ cs) p) (sym same)
      (record { before = []; behind = cs; splits = refl; located = refl; cause = o })
quote-PointsAt u cs p (bad_escape raw d behind splits inside unknown same) =
    subst (PointsAt u (b'"' ∷ cs) p) (sym same) (record {
      before = b'"' ∷ raw ++ b'\\' ∷ [];
      behind = behind;
      splits = ap (b'"' ∷◌) (rw (splits, append_assoc) refl);
      located = refl;
      cause = (record { outer = []; raw = raw; splits = refl; inside = inside }, unknown);
    })

-- A stray character at the front of the text.
pub stray-PointsAt :
    (u : Chars) (c : ℕ) (cs : Text) (p : Span) {e : LexError}
    → unexpected_char c p ≡ e
    → IsStray u c cs
    → PointsAt u (c ∷ cs) p e
unfolding advance
stray-PointsAt u c cs p same stray =
    subst (PointsAt u (c ∷ cs) p) same
      (record { before = []; behind = cs; splits = refl; located = refl; cause = stray })
