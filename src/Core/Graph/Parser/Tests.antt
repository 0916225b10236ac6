-- ===== src/Core/Graph/Parser/Tests.antt =====
-- A small graph parsed, and the theorems about the parser at it.
use cuttlefish_vm.Base.{
  leb, if◌then◌else◌, length, Text, codes, text_eq, strip_suffix, parse_digits, parse_u32, ◌+◌, ◌≤◌,
  ◌<◌, ◌≡◌, refl, ◌≢◌, ◌&&◌, none, some, List, [], ◌∷◌, map, arith,
}
use cuttlefish_vm.Core.Lex.{
  Tok, Token, ident, str, equals, open_brace, close_brace, open_bracket, close_bracket, comma,
  semicolon,
}
use cuttlefish_vm.Core.Parse.{parsed, out_of_fuel, ◌>>=◌, return, fail, ok_or, tok_eq}
use cuttlefish_vm.Core.Graph.{retry, escalate, NodeGraph, from_node}
use cuttlefish_vm.Core.Graph.Parser.{
  look, advance, expect, name, string, skip, skip_semi, string_or_field, number, input_expr,
  reference,
}
use cuttlefish_vm.Core.Graph.Parser.Bodies.{
  finish_node, ends_in_escalate, rung, rungs_loop, ladder, node_field, node_fields, node_body,
  nodes_loop, node_graph, branches,
}
use cuttlefish_vm.Core.Graph.Parser.Graphs.{IsCheckedGraph}
use cuttlefish_vm.Core.Graph.Parser.Accepted.{node_graph-IsCheckedGraph, node_graph_total}

abbrev lower : Text → Text
lower s = map (λ c. if leb b'A' c && leb c b'Z' then c + 32 else c) s

abbrev tokens_of : List Tok → List Token
tokens_of toks = map (λ t. record { tok = t; span = record { line = 1; column = 1 } }) toks

-- `{ b = { block = "x"; in = a.out; on_fail = [retry 2, escalate] } }`
abbrev source : List Token
source = tokens_of (
    open_brace
    ∷ ident (codes "b")
    ∷ equals
    ∷ open_brace
    ∷ ident (codes "block")
    ∷ equals
    ∷ str (codes "x")
    ∷ semicolon
    ∷ ident (codes "in")
    ∷ equals
    ∷ ident (codes "a.out")
    ∷ semicolon
    ∷ ident (codes "on_fail")
    ∷ equals
    ∷ open_bracket
    ∷ ident (codes "retry")
    ∷ ident (codes "2")
    ∷ comma
    ∷ ident (codes "escalate")
    ∷ close_bracket
    ∷ close_brace
    ∷ close_brace
    ∷ [])

abbrev graph : NodeGraph
graph = record {
  nodes =
      (
        codes "b",
        record {
          block = codes "x";
          input = some (from_node (codes "a"));
          repeat_until = none;
          max_iterations = none;
          over = none;
          accept = [];
          on_fail = retry 2 ∷ escalate ∷ [];
        },
      )
      ∷ [];
}

source_parses : node_graph lower source 45 0 ≡ parsed graph 22
unfolding ◌>>=◌ return fail ok_or tok_eq look advance expect name string skip skip_semi
    string_or_field number input_expr reference finish_node ends_in_escalate rung rungs_loop ladder
    node_field node_fields node_body nodes_loop node_graph text_eq strip_suffix parse_u32
    parse_digits
source_parses = refl

node_graph-IsCheckedGraph_example : IsCheckedGraph graph × (0 < 22) × (22 ≤ length source)
node_graph-IsCheckedGraph_example =
    node_graph-IsCheckedGraph lower source 45 0 graph 22 (omega arith) (omega arith) source_parses

node_graph_total_example :
    (node_graph lower source 45 0 ≢ out_of_fuel) × (branches lower source 45 0 ≢ out_of_fuel)
node_graph_total_example = node_graph_total lower source 45 0 (omega arith) (omega arith)
