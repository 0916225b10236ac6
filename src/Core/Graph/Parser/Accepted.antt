-- ===== src/Core/Graph/Parser/Accepted.antt =====
-- What an accepted graph is, and that the parser ends.
use cuttlefish_vm.Base.{length, Text, ℕ, ◌+◌, ◌*◌, ◌≤◌, ◌<◌, ◌≡◌, subst, ◌≢◌, List, arith}
use cuttlefish_vm.Core.Lex.{Token}
use cuttlefish_vm.Core.Parse.{parsed, out_of_fuel}
use cuttlefish_vm.Core.Parse.Meets.{Fits}
use cuttlefish_vm.Core.Graph.{NodeGraph}
use cuttlefish_vm.Core.Graph.Parser.Bodies.{node_graph, branches}
use cuttlefish_vm.Core.Graph.Parser.Graphs.{IsCheckedGraph, node_graph-Meets, branches-Meets}

-- A graph that the parser accepts, with fuel of twice the tokens left and one more, has a node, and
-- each of its nodes has a limit where it repeats, does not both repeat and fan out, and a ladder
-- whose retries are at least one and where nothing follows an `escalate`; the parser stops behind
-- where it began, within the tokens.
pub node_graph-IsCheckedGraph :
    (to_lowercase : Text → Text) (tokens : List Token) (fuel at : ℕ) (graph : NodeGraph) (next : ℕ)
    → at ≤ length tokens
    → length tokens * 2 < at * 2 + fuel
    → node_graph to_lowercase tokens fuel at ≡ parsed graph next
    → IsCheckedGraph graph × (at < next) × (next ≤ length tokens)
node_graph-IsCheckedGraph low tokens fuel at graph next inside covered runs =
    let f =
      subst (Fits (length tokens) (at + 1) IsCheckedGraph) runs
        ((node_graph-Meets low tokens fuel).fits at (omega arith) covered) in
    (f.2, omega arith, f.1)

-- With fuel of twice the tokens left and one more, neither the parser of a graph nor that of
-- branches runs out of it, on any tokens.
pub node_graph_total :
    (to_lowercase : Text → Text) (tokens : List Token) (fuel at : ℕ)
    → at ≤ length tokens
    → length tokens * 2 < at * 2 + fuel
    → (node_graph to_lowercase tokens fuel at ≢ out_of_fuel)
      × (branches to_lowercase tokens fuel at ≢ out_of_fuel)
node_graph_total low tokens fuel at inside covered = (
  λ runs.
      subst (Fits (length tokens) (at + 1) IsCheckedGraph) runs
        ((node_graph-Meets low tokens fuel).fits at (omega arith) covered),
  λ runs.
      subst (Fits (length tokens) (at + 1) (λ b. Unit {0})) runs
        ((branches-Meets low tokens fuel).fits at (omega arith) covered),
)
