-- ===== src/Core/Parse.antt =====
-- What the two recursive-descent parsers share: the errors of a spec, `SpecError` of
-- crates/cuttlefish-core/src/spec.rs, and a parser as a function of its position in the tokens.
-- The text inside `SpecError::Malformed` is a value of `Complaint`, one constructor for each
-- message, with what `here` shows as the token or the end of the input.
pub mod Meets
use cuttlefish_vm.Base.{
  ltb, leb, ◌==◌, if◌then◌else◌, ==_iff, Bool-cases, Option-cases, and_true, or_true, is_some,
  is_some-false, length, get_elem?, take, drop, any, all, length-append, take-append-drop,
  length-take, length-drop, All, All-append, is_empty, Text, codes, text_eq, text_eq_refl,
  text_eq-true, text_eq-false, text_eq_iff, text_eq_comm, text_lt, strip_suffix, starts_with,
  parse_digits, parse_u32, parse_u32-lt, mem, filter, AreDistinct, mem-append, mem-left, mem-right,
  mem-filter, length-filter, ℕ, zero, suc, ◌+◌, ◌-◌, ◌*◌, ◌/◌, ◌%◌, ◌^◌, ◌≤◌, ◌<◌, min, ◌≡◌, refl,
  sym, ap, ◌∙◌, subst, ◌≢◌, ◌↔◌, ◌⊎◌, inl, inr, Bool, true, false, not, ◌&&◌, ◌||◌, Option, none,
  some, List, [], ◌∷◌, ◌++◌, map, arith,
}
use cuttlefish_vm.Core.Lex.{
  Tok, Token, LexError, ident, str, equals, open_brace, close_brace, open_bracket, close_bracket,
  comma, semicolon, arrow,
}

pub data Complaint : Type 0 where
  expected_token : Tok → Option Token → Complaint
  expected_name expected_string expected_input : Option Token → Complaint
  expected_field_string : Text → Option Token → Complaint
  unknown_check unknown_rung not_a_number not_a_reference : Text → Complaint
  no_nodes unbounded_repeat over_and_repeat escalate_not_last retry_zero : Complaint
  not_a_spec unknown_policy bad_provider not_a_url_prefix : Text → Complaint
  not_tokens : LexError → Complaint
  manifest_outside schema_outside : Text → Text → List Text → Complaint

pub data SpecError : Type 0 where
  missing_field unknown_field unsupported_capability : Text → SpecError
  malformed : Complaint → SpecError

-- A result, with the position that the parser has reached.
pub data Parsed (A : Type 0) : Type 0 where
  parsed : A → ℕ → Parsed A
  failed : SpecError → Parsed A
  out_of_fuel : Parsed A

abbrev pub Parse : Type 0 → Type 0
Parse A = ℕ → Parsed A

-- The continuation of a step, shut so that the lemmas about it apply to parsers as written.
infixl 5 ◌>>=◌ ◌>>◌
unfoldable pub ◌>>=◌ : {A B : Type 0} → Parse A → (A → Parse B) → Parse B
(p >>= rest) at = elim (p at) [
  | out_of_fuel ↦ out_of_fuel
  | failed why ↦ failed why
  | parsed value next ↦ rest value next
]

abbrev pub ◌>>◌ : {B : Type 0} → Parse (Unit {0}) → Parse B → Parse B
p >> rest = p >>= λ _. rest

unfoldable pub return : {A : Type 0} → A → Parse A
return value at = parsed value at

unfoldable pub fail : {A : Type 0} → SpecError → Parse A
fail why at = failed why

-- A loop or a call that has no fuel left.
unfoldable pub exhausted : {A : Type 0} → Parse A
exhausted at = out_of_fuel

-- `ok_or(error)?`
unfoldable pub ok_or : {A : Type 0} → SpecError → Option A → Parse A
unfolding fail return
ok_or why none = fail why
ok_or why (some value) = return value

-- The derived `==` of `Tok`.
unfoldable pub tok_eq : Tok → Tok → Bool
tok_eq (ident a) (ident b) = text_eq a b
tok_eq (str a) (str b) = text_eq a b
tok_eq equals equals = true
tok_eq open_brace open_brace = true
tok_eq close_brace close_brace = true
tok_eq open_bracket open_bracket = true
tok_eq close_bracket close_bracket = true
tok_eq comma comma = true
tok_eq semicolon semicolon = true
tok_eq arrow arrow = true
tok_eq a b = false

abbrev pub is_tok : Tok → Option Token → Bool
is_tok want none = false
is_tok want (some t) = tok_eq t.tok want
