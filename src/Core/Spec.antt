-- ===== src/Core/Spec.antt =====
-- The parser of a spec file: `parse_spec` and `Parser` of crates/cuttlefish-core/src/spec.rs.
-- `Parser::expect` is the same as that of `GraphParser`, which this one hands its position to and
-- takes it back from. A round of a loop takes fuel; twice the tokens and one more is enough.
pub mod Fields
pub mod Parsing
pub mod Accepted
pub mod Paths
pub mod Granted
pub mod Tests
use cuttlefish_vm.Base.{
  ltb, leb, ◌==◌, if◌then◌else◌, ==_iff, Bool-cases, Option-cases, and_true, or_true, is_some,
  is_some-false, length, get_elem?, take, drop, any, all, length-append, take-append-drop,
  length-take, length-drop, All, All-append, is_empty, Text, codes, text_eq, text_eq_refl,
  text_eq-true, text_eq-false, text_eq_iff, text_eq_comm, text_lt, strip_suffix, starts_with,
  parse_digits, parse_u32, parse_u32-lt, mem, filter, AreDistinct, mem-append, mem-left, mem-right,
  mem-filter, length-filter, ℕ, zero, suc, ◌+◌, ◌-◌, ◌*◌, ◌/◌, ◌%◌, ◌^◌, ◌≤◌, ◌<◌, min, ◌≡◌, refl,
  sym, ap, ◌∙◌, subst, ◌≢◌, ◌↔◌, ◌⊎◌, inl, inr, Bool, true, false, not, ◌&&◌, ◌||◌, Option, none,
  some, List, [], ◌∷◌, ◌++◌, map, arith,
}
use cuttlefish_vm.Core.Lex.{
  Tok, Token, Chars, Lexed, lex, done, ident, str, equals, open_brace, close_brace, open_bracket,
  close_bracket, comma, semicolon,
}
use cuttlefish_vm.Core.Parse.{
  Complaint, SpecError, malformed, missing_field, unknown_field, unsupported_capability,
  expected_name, expected_field_string, not_a_spec, unknown_policy, bad_provider, not_a_url_prefix,
  not_tokens, Parsed, parsed, failed, out_of_fuel, Parse, ◌>>=◌, ◌>>◌, return, fail, exhausted,
  ok_or, tok_eq, is_tok,
}
use cuttlefish_vm.Core.Graph.{ModelRef, NodeGraph, Branches, single}
use cuttlefish_vm.Core.Graph.Parser.{
  look, advance, expect, skip, skip_semi, is_inside, name_of, string_of,
}
use cuttlefish_vm.Core.Graph.Parser.Bodies.{node_graph, branches as parse_branches}

pub data DataPolicy : Type 0 where
  local_only any_policy : DataPolicy

pub record Spec : Type 0 where
  pub name : Text
  pub description : Text
  pub model : ModelRef
  pub data_policy : DataPolicy
  pub read_roots : List Text
  pub fetch_prefixes : List Text
  pub embedding_model : Option ModelRef
  pub warehouse : Option Text
  pub nodes : NodeGraph
  pub branches : Branches

-- The locals of `Parser::spec`.
pub record SpecDraft : Type 0 where
  pub description : Option Text
  pub model : Option ModelRef
  pub data_policy : Option DataPolicy
  pub read_roots : Option (List Text)
  pub fetch_prefixes : List Text
  pub embedding_model : Option ModelRef
  pub warehouse : Option Text
  pub nodes : Option NodeGraph
  pub branches : Option Branches

abbrev pub empty_spec : SpecDraft
empty_spec = record {
  description = none;
  model = none;
  data_policy = none;
  read_roots = none;
  fetch_prefixes = [];
  embedding_model = none;
  warehouse = none;
  nodes = none;
  branches = none;
}

-- `branches.unwrap_or_default()`
abbrev or_no_branches : Option Branches → Branches
or_no_branches none = record { decisions = [] }
or_no_branches (some b) = b

-- What `spec` makes of its locals.
unfoldable pub finish_spec : Text → SpecDraft → Parse Spec
finish_spec name d = ok_or (missing_field (codes "capabilities")) d.read_roots >>= λ read_roots.
    ok_or (missing_field (codes "block")) d.nodes >>= λ nodes.
    ok_or (missing_field (codes "description")) d.description >>= λ description.
    ok_or (missing_field (codes "model")) d.model >>= λ model.
    ok_or (missing_field (codes "data_policy")) d.data_policy >>= λ data_policy. return (record {
      name = name;
      description = description;
      model = model;
      data_policy = data_policy;
      read_roots = read_roots;
      fetch_prefixes = d.fetch_prefixes;
      embedding_model = d.embedding_model;
      warehouse = d.warehouse;
      nodes = nodes;
      branches = or_no_branches d.branches;
    })

abbrev pub is_url_prefix : Text → Bool
is_url_prefix s = starts_with (codes "http://") s || starts_with (codes "https://") s

-- A non-empty name of letters, digits and underscores.
abbrev pub is_provider : Chars → Text → Bool
is_provider u s = not (is_empty s) && all (λ c. u.is_alphanumeric c || c == b'_') s

module _ (u : Chars) (to_lowercase : Text → Text) (tokens : List Token) where
  -- The error of `ident` and `string`: `advance` does not move at the end of the tokens, but
  -- `saturating_sub(1)` steps back all the same, so `here` then shows the token before.
  unfoldable pub fail_back : {A : Type 0} → (Option Token → Complaint) → Option Token → Parse A
  fail_back complaint none at = failed (malformed (complaint (get_elem? tokens (at - 1))))
  fail_back complaint (some t) at = failed (malformed (complaint (some t)))

  -- The method `ident`.
  unfoldable pub name : Parse Text
  name = look tokens >>= λ got. elim (name_of tokens got) [
    | none ↦ fail_back expected_name got
    | some s ↦ advance tokens >> return s
  ]

  unfoldable pub string : Text → Parse Text
  string key = look tokens >>= λ got. elim (string_of tokens got) [
    | none ↦ fail_back (expected_field_string key) got
    | some s ↦ advance tokens >> return s
  ]

  -- The method `model`.
  unfoldable pub model : Parse ModelRef
  model = name >>= λ provider.
      if is_provider u provider
      then (string (codes "model") >>= λ target.
          return (record { provider = to_lowercase provider; target = target }))
      else fail (malformed (bad_provider provider))

  -- The `match kind.as_str()` of `capabilities`, on the two lists.
  unfoldable pub capability : Text → List Text × List Text → Parse (List Text × List Text)
  capability kind (roots, fetch) =
      if text_eq kind (codes "Read")
      then (string (codes "capabilities") >>= λ s. return (roots ++ s ∷ [], fetch))
      else if text_eq kind (codes "Fetch")
      then (string (codes "capabilities") >>= λ prefix.
          if is_url_prefix prefix
          then return (roots, fetch ++ prefix ∷ [])
          else fail (malformed (not_a_url_prefix prefix)))
      else fail (unsupported_capability kind)

  -- The loop of `capabilities`, with its `CloseBracket`.
  unfoldable pub capabilities_loop : ℕ → List Text × List Text → Parse (List Text × List Text)
  capabilities_loop zero lists = exhausted
  capabilities_loop (suc fuel) lists = look tokens >>= λ got.
      if is_tok close_bracket got
      then expect tokens close_bracket >> return lists
      else name >>= λ kind. capability kind lists >>= λ longer. skip tokens comma >>= λ more.
          if more
          then capabilities_loop fuel longer
          else expect tokens close_bracket >> return longer

  unfoldable pub capabilities : ℕ → Parse (List Text × List Text)
  capabilities fuel = expect tokens open_bracket >> capabilities_loop fuel ([], [])

  unfoldable pub policy : Parse DataPolicy
  policy = name >>= λ s.
      if text_eq s (codes "Local_only")
      then return local_only
      else if text_eq s (codes "Any")
      then return any_policy
      else fail (malformed (unknown_policy s))

  -- The `match key.as_str()` of `spec`.
  unfoldable pub spec_field : ℕ → Text → SpecDraft → Parse SpecDraft
  spec_field fuel key d =
      if text_eq key (codes "description")
      then (string (codes "description") >>= λ s. return (record d { description = some s }))
      else if text_eq key (codes "block")
      then (string (codes "block") >>= λ s. return (record d { nodes = some (single s) }))
      else if text_eq key (codes "nodes")
      then (node_graph to_lowercase tokens fuel >>= λ g. return (record d { nodes = some g }))
      else if text_eq key (codes "branches")
      then (parse_branches to_lowercase tokens fuel >>= λ b.
          return (record d { branches = some b }))
      else if text_eq key (codes "embedding_model")
      then (model >>= λ m. return (record d { embedding_model = some m }))
      else if text_eq key (codes "warehouse")
      then (string (codes "warehouse") >>= λ s. return (record d { warehouse = some s }))
      else if text_eq key (codes "capabilities")
      then (capabilities fuel >>= λ lists.
          return (record d { read_roots = some lists.0; fetch_prefixes = lists.1 }))
      else if text_eq key (codes "model")
      then (model >>= λ m. return (record d { model = some m }))
      else if text_eq key (codes "data_policy")
      then (policy >>= λ p. return (record d { data_policy = some p }))
      else fail (unknown_field key)

  -- The loop of `spec`, and what follows it.
  unfoldable pub spec_fields : ℕ → Text → SpecDraft → Parse Spec
  spec_fields zero title d = exhausted
  spec_fields (suc fuel) title d = look tokens >>= λ got.
      if is_inside close_brace got
      then (name >>= λ key.
          expect tokens equals
          >> (spec_field fuel key d >>= λ d'. skip_semi tokens >> spec_fields fuel title d'))
      else expect tokens close_brace >> finish_spec title d

  -- The method `spec`.
  unfoldable pub spec : ℕ → Parse Spec
  spec fuel = name >>= λ first.
      if text_eq first (codes "spec")
      then (name >>= λ title.
          expect tokens equals >> expect tokens open_brace >> spec_fields fuel title empty_spec)
      else fail (malformed (not_a_spec first))

-- `lex`, its error as a `Malformed`, and the parser from position 0.
abbrev pub parse_lexed : Chars → (Text → Text) → Lexed → Parsed Spec
parse_lexed u low (done tokens) = spec u low tokens (length tokens * 2 + 1) 0
parse_lexed u low (Lexed.failed e) = failed (malformed (not_tokens e))
parse_lexed u low Lexed.out_of_fuel = out_of_fuel

unfoldable pub parse_spec : Chars → (Text → Text) → Text → Parsed Spec
parse_spec u low src = parse_lexed u low (lex u src)
