-- ===== src/Core/Graph/Parser/Bodies.antt =====
-- Nodes, their checks and ladders, and branches: the rest of `GraphParser`.
-- `to_lowercase` is `str::to_lowercase`.
use cuttlefish_vm.Base.{
  ◌==◌, if◌then◌else◌, is_some, is_empty, Text, codes, text_eq, ℕ, zero, suc, Bool, true, false,
  not, ◌&&◌, Option, none, some, List, [], ◌∷◌, ◌++◌,
}
use cuttlefish_vm.Core.Lex.{
  Token, equals, open_brace, close_brace, open_bracket, close_bracket, comma, arrow,
}
use cuttlefish_vm.Core.Parse.{
  malformed, missing_field, unknown_field, unknown_check, unknown_rung, no_nodes, unbounded_repeat,
  over_and_repeat, escalate_not_last, retry_zero, Parse, ◌>>=◌, ◌>>◌, return, fail, exhausted,
  ok_or, is_tok,
}
use cuttlefish_vm.Core.Graph.{
  ModelRef, InputExpr, AcceptCheck, schema, judge, Rung, retry, reroute, escalate, Node, Nodes,
  NodeGraph, Branches,
}
use cuttlefish_vm.Core.Graph.Parser.{
  look, advance, expect, name, string, skip, skip_semi, string_or_field, number, input_expr,
  is_inside,
}

-- The locals of `node_body`.
pub record Draft : Type 0 where
  pub block : Option Text
  pub input : Option InputExpr
  pub repeat_until : Option Text
  pub max_iterations : Option ℕ
  pub over : Option Text
  pub accept : List AcceptCheck
  pub on_fail : List Rung

abbrev pub empty_draft : Draft
empty_draft = record {
  block = none;
  input = none;
  repeat_until = none;
  max_iterations = none;
  over = none;
  accept = [];
  on_fail = [];
}

-- `rungs.last() == Some(&Rung::Escalate)`
unfoldable pub ends_in_escalate : List Rung → Bool
ends_in_escalate [] = false
ends_in_escalate (escalate ∷ []) = true
ends_in_escalate (rung ∷ []) = false
ends_in_escalate (rung ∷ next ∷ rest) = ends_in_escalate (next ∷ rest)

-- What `node_body` makes of its locals.
unfoldable pub finish_node : Draft → Parse Node
finish_node d =
    if is_some d.repeat_until && not (is_some d.max_iterations)
    then fail (malformed unbounded_repeat)
    else if is_some d.over && is_some d.repeat_until
    then fail (malformed over_and_repeat)
    else ok_or (missing_field (codes "block")) d.block >>= λ block. return (record {
      block = block;
      input = d.input;
      repeat_until = d.repeat_until;
      max_iterations = d.max_iterations;
      over = d.over;
      accept = d.accept;
      on_fail = d.on_fail;
    })

module _ (to_lowercase : Text → Text) (tokens : List Token) where
  -- `ModelRef::new(self.ident()?, self.string()?)`
  unfoldable pub model_ref : Parse ModelRef
  model_ref = name tokens >>= λ provider. string tokens >>= λ target.
      return (record { provider = to_lowercase provider; target = target })

  -- The loop of `judge`, at the locals `model` and `prompt`.
  unfoldable pub judge_fields : ℕ → Option ModelRef → Option Text → Parse AcceptCheck
  judge_fields zero model prompt = exhausted
  judge_fields (suc fuel) model prompt = look tokens >>= λ got.
      if is_inside close_brace got
      then (name tokens >>= λ key.
          expect tokens equals
          >> (if text_eq key (codes "model")
              then (model_ref >>= λ m. skip_semi tokens >> judge_fields fuel (some m) prompt)
              else if text_eq key (codes "prompt")
              then (string tokens >>= λ s. skip_semi tokens >> judge_fields fuel model (some s))
              else fail (unknown_field key)))
      else expect tokens close_brace
        >> (ok_or (missing_field (codes "prompt")) prompt >>= λ p. return (judge model p))

  -- The method `judge`.
  unfoldable pub judge_check : ℕ → Parse AcceptCheck
  judge_check fuel = look tokens >>= λ got.
      if is_tok open_brace got
      then advance tokens >> judge_fields fuel none none
      else string tokens >>= λ prompt. return (judge none prompt)

  unfoldable pub accept_check : ℕ → Text → Parse AcceptCheck
  accept_check fuel kind =
      if text_eq kind (codes "Schema")
      then (string tokens >>= λ path. return (schema path))
      else if text_eq kind (codes "Judge")
      then judge_check fuel
      else fail (malformed (unknown_check kind))

  -- The loop of `accept_checks`, with its `CloseBracket`.
  unfoldable pub checks_loop : ℕ → List AcceptCheck → Parse (List AcceptCheck)
  checks_loop zero checks = exhausted
  checks_loop (suc fuel) checks = look tokens >>= λ got.
      if is_tok close_bracket got
      then expect tokens close_bracket >> return checks
      else name tokens >>= λ kind. accept_check fuel kind >>= λ check. skip tokens comma >>= λ more.
          if more
          then checks_loop fuel (checks ++ check ∷ [])
          else expect tokens close_bracket >> return (checks ++ check ∷ [])

  unfoldable pub accept_checks : ℕ → Parse (List AcceptCheck)
  accept_checks fuel = expect tokens open_bracket >> checks_loop fuel []

  -- The `match kind.as_str()` of `ladder`.
  unfoldable pub rung : Text → Parse Rung
  rung kind =
      if text_eq kind (codes "retry")
      then (number tokens >>= λ n. if n == 0 then fail (malformed retry_zero) else return (retry n))
      else if text_eq kind (codes "reroute")
      then (model_ref >>= λ m. return (reroute m))
      else if text_eq kind (codes "escalate")
      then return escalate
      else fail (malformed (unknown_rung kind))

  -- The loop of `ladder`, with its `CloseBracket`.
  unfoldable pub rungs_loop : ℕ → List Rung → Parse (List Rung)
  rungs_loop zero rungs = exhausted
  rungs_loop (suc fuel) rungs = look tokens >>= λ got.
      if is_tok close_bracket got
      then expect tokens close_bracket >> return rungs
      else if ends_in_escalate rungs
      then fail (malformed escalate_not_last)
      else name tokens >>= λ kind. rung kind >>= λ r. skip tokens comma >>= λ more.
          if more
          then rungs_loop fuel (rungs ++ r ∷ [])
          else expect tokens close_bracket >> return (rungs ++ r ∷ [])

  unfoldable pub ladder : ℕ → Parse (List Rung)
  ladder fuel = expect tokens open_bracket >> rungs_loop fuel []

  -- The `match key.as_str()` of `node_body`.
  unfoldable pub node_field : ℕ → Text → Draft → Parse Draft
  node_field fuel key d =
      if text_eq key (codes "block")
      then (string tokens >>= λ s. return (record d { block = some s }))
      else if text_eq key (codes "in")
      then (input_expr tokens fuel >>= λ e. return (record d { input = some e }))
      else if text_eq key (codes "over")
      then (string tokens >>= λ s. return (record d { over = some s }))
      else if text_eq key (codes "accept")
      then (accept_checks fuel >>= λ checks. return (record d { accept = checks }))
      else if text_eq key (codes "on_fail")
      then (ladder fuel >>= λ rungs. return (record d { on_fail = rungs }))
      else if text_eq key (codes "repeat_until")
      then (string_or_field tokens >>= λ s. return (record d { repeat_until = some s }))
      else if text_eq key (codes "max_iterations")
      then (number tokens >>= λ n. return (record d { max_iterations = some n }))
      else fail (unknown_field key)

  -- The loop of `node_body`, and what follows it.
  unfoldable pub node_fields : ℕ → Draft → Parse Node
  node_fields zero d = exhausted
  node_fields (suc fuel) d = look tokens >>= λ got.
      if is_inside close_brace got
      then (name tokens >>= λ key.
          expect tokens equals
          >> (node_field fuel key d >>= λ d'. skip_semi tokens >> node_fields fuel d'))
      else expect tokens close_brace >> finish_node d

  unfoldable pub node_body : ℕ → Parse Node
  node_body fuel = expect tokens open_brace >> node_fields fuel empty_draft

  -- The loop of `node_graph`, and what follows it.
  unfoldable pub nodes_loop : ℕ → Nodes → Parse NodeGraph
  nodes_loop zero nodes = exhausted
  nodes_loop (suc fuel) nodes = look tokens >>= λ got.
      if is_inside close_brace got
      then (name tokens >>= λ key.
          expect tokens equals
          >> (node_body fuel >>= λ node.
              skip_semi tokens >> nodes_loop fuel (nodes ++ (key, node) ∷ [])))
      else expect tokens close_brace
        >> (if is_empty nodes then fail (malformed no_nodes) else return (record { nodes = nodes }))

  unfoldable pub node_graph : ℕ → Parse NodeGraph
  node_graph fuel = expect tokens open_brace >> nodes_loop fuel []

  -- The inner loop of `branches`, with its `CloseBrace`.
  unfoldable pub labels_loop : ℕ → List (Text × Text) → Parse (List (Text × Text))
  labels_loop zero labels = exhausted
  labels_loop (suc fuel) labels = look tokens >>= λ got.
      if is_tok close_brace got
      then expect tokens close_brace >> return labels
      else string tokens >>= λ label.
          expect tokens arrow
          >> (name tokens >>= λ target.
              skip_semi tokens >> labels_loop fuel (labels ++ (label, target) ∷ []))

  unfoldable pub decisions_loop : ℕ → List (Text × List (Text × Text)) → Parse Branches
  decisions_loop zero decisions = exhausted
  decisions_loop (suc fuel) decisions = look tokens >>= λ got.
      if is_inside close_brace got
      then (name tokens >>= λ node_name.
          expect tokens equals
          >> expect tokens open_brace
          >> (labels_loop fuel [] >>= λ labels.
              skip_semi tokens >> decisions_loop fuel (decisions ++ (node_name, labels) ∷ [])))
      else expect tokens close_brace >> return (record { decisions = decisions })

  -- The method `branches`.
  unfoldable pub branches : ℕ → Parse Branches
  branches fuel = expect tokens open_brace >> decisions_loop fuel []
