-- ===== src/Core/Graph/Parser.antt =====
-- The parser of `nodes = {...}` and `branches = {...}`: `GraphParser` of
-- crates/cuttlefish-core/src/graph.rs, over the tokens that it is given.
-- Each round of a loop and each call of `input_expr` takes fuel; twice the tokens that are left,
-- and one more, is enough.
pub mod Tokens
pub mod Expr
pub mod Checks
pub mod Bodies
pub mod Graphs
pub mod Accepted
pub mod Tests
use cuttlefish_vm.Base.{
  ltb, leb, ◌==◌, if◌then◌else◌, ==_iff, Bool-cases, Option-cases, and_true, or_true, is_some,
  is_some-false, length, get_elem?, take, drop, any, all, length-append, take-append-drop,
  length-take, length-drop, All, All-append, is_empty, Text, codes, text_eq, text_eq_refl,
  text_eq-true, text_eq-false, text_eq_iff, text_eq_comm, text_lt, strip_suffix, starts_with,
  parse_digits, parse_u32, parse_u32-lt, mem, filter, AreDistinct, mem-append, mem-left, mem-right,
  mem-filter, length-filter, ℕ, zero, suc, ◌+◌, ◌-◌, ◌*◌, ◌/◌, ◌%◌, ◌^◌, ◌≤◌, ◌<◌, min, ◌≡◌, refl,
  sym, ap, ◌∙◌, subst, ◌≢◌, ◌↔◌, ◌⊎◌, inl, inr, Bool, true, false, not, ◌&&◌, ◌||◌, Option, none,
  some, List, [], ◌∷◌, ◌++◌, map, arith,
}
use cuttlefish_vm.Core.Lex.{
  Tok, Token, ident, str, equals, open_brace, close_brace, open_bracket, close_bracket, comma,
  semicolon, arrow,
}
use cuttlefish_vm.Core.Parse.{
  Complaint, SpecError, malformed, missing_field, unknown_field, expected_token, expected_name,
  expected_string, expected_input, unknown_check, unknown_rung, not_a_number, not_a_reference,
  no_nodes, unbounded_repeat, over_and_repeat, escalate_not_last, retry_zero, Parsed, parsed,
  failed, Parse, ◌>>=◌, ◌>>◌, return, fail, exhausted, ok_or, tok_eq, is_tok,
}
use cuttlefish_vm.Core.Graph.{
  ModelRef, InputExpr, from_node, record_of, list_of, Inputs, end, field, Items, nil, item,
  AcceptCheck, schema, judge, Rung, retry, reroute, escalate, Node, Nodes, NodeGraph, Branches,
}

-- `BTreeMap::insert`
unfoldable pub insert_field : Text → InputExpr → Inputs → Inputs
insert_field name e end = field name e end
insert_field name e (field k old rest) =
    if text_lt name k
    then field name e (field k old rest)
    else if text_eq name k
    then field k e rest
    else field k old (insert_field name e rest)

-- Whether a loop that runs to `close` goes on; at the end of the tokens it does not.
abbrev pub is_inside : Tok → Option Token → Bool
is_inside close got = is_some got && not (is_tok close got)

module _ (tokens : List Token) where
  -- `self.tokens.get(self.at)`
  unfoldable pub look : Parse (Option Token)
  look at = parsed (get_elem? tokens at) at

  -- `self.at += 1`
  unfoldable pub advance : Parse (Unit {0})
  advance at = parsed tt (at + 1)

  unfoldable pub expect : Tok → Parse (Unit {0})
  expect want = look >>= λ got.
      if is_tok want got then advance else fail (malformed (expected_token want got))

  abbrev pub name_of : Option Token → Option Text
  name_of none = none
  name_of (some t) = elim t.tok [ ident name ↦ some name | _ ↦ none ]

  abbrev pub string_of : Option Token → Option Text
  string_of none = none
  string_of (some t) = elim t.tok [ str s ↦ some s | _ ↦ none ]

  -- The method `ident`.
  unfoldable pub name : Parse Text
  name = look >>= λ got. elim (name_of got) [
    | none ↦ fail (malformed (expected_name got))
    | some s ↦ advance >> return s
  ]

  unfoldable pub string : Parse Text
  string = look >>= λ got. elim (string_of got) [
    | none ↦ fail (malformed (expected_string got))
    | some s ↦ advance >> return s
  ]

  -- `if self.peek() == Some(want) { self.at += 1; }`, with what it found.
  unfoldable pub skip : Tok → Parse Bool
  skip want = look >>= λ got. if is_tok want got then advance >> return true else return false

  unfoldable pub skip_semi : Parse (Unit {0})
  skip_semi = skip semicolon >>= λ found. return tt

  -- `string_or_field` is `string`.
  unfoldable pub string_or_field : Parse Text
  string_or_field = string

  unfoldable pub number : Parse ℕ
  number = name >>= λ s. ok_or (malformed (not_a_number s)) (parse_u32 s)

  -- The last two arms of `input_expr`.
  unfoldable pub reference : Option Token → Parse InputExpr
  reference got = elim (name_of got) [
    | none ↦ fail (malformed (expected_input got))
    | some s ↦
        advance
        >> (ok_or (malformed (not_a_reference s)) (strip_suffix (codes ".out") s) >>= λ node.
            return (from_node node))
  ]

  unfoldable mutual
    pub input_expr : ℕ → Parse InputExpr
    input_expr zero = exhausted
    input_expr (suc fuel) = look >>= λ got.
        if is_tok open_brace got
        then (advance >> (input_fields fuel end >>= λ fields. return (record_of fields)))
        else if is_tok open_bracket got
        then (advance >> (input_items fuel >>= λ items. return (list_of items)))
        else reference got

    -- The loop of a record, with its `CloseBrace`.
    pub input_fields : ℕ → Inputs → Parse Inputs
    input_fields zero fields = exhausted
    input_fields (suc fuel) fields = look >>= λ got.
        if is_tok close_brace got
        then expect close_brace >> return fields
        else name >>= λ key.
            expect equals
            >> (input_expr fuel >>= λ e. skip_semi >> input_fields fuel (insert_field key e fields))

    -- The loop of a list, with its `CloseBracket`.
    pub input_items : ℕ → Parse Items
    input_items zero = exhausted
    input_items (suc fuel) = look >>= λ got.
        if is_tok close_bracket got
        then expect close_bracket >> return nil
        else input_expr fuel >>= λ e. skip comma >>= λ more.
            if more
            then (input_items fuel >>= λ rest. return (item e rest))
            else expect close_bracket >> return (item e nil)
