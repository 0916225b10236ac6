-- ===== src/Host/Dag/Tests.antt =====
-- Small graphs ordered, and the theorems about `topological_order` at them.
use cuttlefish_vm.Base.{
  length, Text, codes, text_eq, text_eq-true, text_lt, mem, AreDistinct, ℕ, ◌≡◌, refl, ◌≢◌, none,
  some, List, [], ◌∷◌, arith,
}
use cuttlefish_vm.Core.Graph.{from_node, Node, NodeGraph, plain_node, find_node}
use cuttlefish_vm.Host.Dag.{
  ok, err, panicked, out_of_fuel, topological_order, unmarked_cycle, collect_deps, order_loop,
  check_complete, first_missing, ready_of, settle, sort, insert_sorted, add_references, or_default,
  insert_dep, insert, referenced_nodes,
}
use cuttlefish_vm.Host.Dag.Collect.{names, requires}
use cuttlefish_vm.Host.Dag.Order.{IsOrdered}
use cuttlefish_vm.Host.Dag.Topological.{IsRanked}
use cuttlefish_vm.Host.Dag.Sorted.{
  topological_order-sorted, topological_order_total, topological_order-IsTrueOf, IsTrueOf,
  topological_order-acyclic, topological_order-repeated_name, IsClosed,
}

abbrev after : Text → Node
after name = plain_node (codes "x") (some (from_node name))

abbrev entry : Node
entry = plain_node (codes "x") none

abbrev chain : NodeGraph
chain = record { nodes = (codes "b", after (codes "a")) ∷ (codes "a", entry) ∷ [] }

abbrev chain_order : List Text
chain_order = codes "a" ∷ codes "b" ∷ []

chain_runs : topological_order chain ≡ ok chain_order
unfolding topological_order collect_deps order_loop check_complete first_missing ready_of settle
    sort insert_sorted text_lt add_references or_default insert_dep insert referenced_nodes text_eq
    find_node
chain_runs = refl

topological_order-sorted_example :
    IsOrdered (requires chain.nodes) [] chain_order
    × AreDistinct chain_order
    × ((x : Text) → mem x chain_order ≡ mem x (names chain.nodes))
    × (length chain_order ≡ length chain.nodes)
topological_order-sorted_example = topological_order-sorted chain chain_order chain_runs

topological_order_total_example : topological_order chain ≢ out_of_fuel
topological_order_total_example = topological_order_total chain

abbrev loop : NodeGraph
loop = record { nodes = (codes "a", after (codes "a")) ∷ [] }

loop_runs : topological_order loop ≡ err (unmarked_cycle (codes "a"))
unfolding topological_order collect_deps order_loop check_complete first_missing ready_of settle
    sort insert_sorted text_lt add_references or_default insert_dep insert referenced_nodes text_eq
    find_node
loop_runs = refl

topological_order-IsTrueOf_example : IsTrueOf loop (unmarked_cycle (codes "a"))
topological_order-IsTrueOf_example =
    topological_order-IsTrueOf loop (unmarked_cycle (codes "a")) loop_runs

abbrev rank : Text → ℕ
rank [] = 0
rank (c ∷ cs) = c

chain_distinct : AreDistinct (names chain.nodes)
unfolding text_eq
chain_distinct = (refl, (refl, tt))

chain-IsClosed : IsClosed chain.nodes
unfolding referenced_nodes
chain-IsClosed x d h = ground arith

chain-IsRanked : IsRanked chain.nodes rank
unfolding referenced_nodes
chain-IsRanked x d h = ground (arith, text_eq-true (codes "b") x, text_eq-true d (codes "a"))

topological_order-acyclic_example : (order : List Text) × (topological_order chain ≡ ok order)
topological_order-acyclic_example =
    topological_order-acyclic chain rank chain-IsClosed chain-IsRanked chain_distinct

abbrev twins : NodeGraph
twins = record { nodes = (codes "a", entry) ∷ (codes "a", entry) ∷ [] }

twins-IsClosed : IsClosed twins.nodes
twins-IsClosed x d h = ground arith

twins-IsRanked : IsRanked twins.nodes rank
twins-IsRanked x d h = ground arith

twins_repeat : ¬ AreDistinct (names twins.nodes)
unfolding text_eq
twins_repeat h = cc (h.0)

topological_order-repeated_name_example : topological_order twins ≡ panicked
topological_order-repeated_name_example =
    topological_order-repeated_name twins rank twins-IsClosed twins-IsRanked twins_repeat
