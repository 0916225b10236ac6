-- ===== src/Core/Graph/Tests.antt =====
-- Chains and near-chains, and the theorems about them.
use cuttlefish_vm.Base.{
  Text, codes, text_eq, AreDistinct, ◌≡◌, refl, ◌↔◌, true, false, none, some, [], ◌∷◌,
}
use cuttlefish_vm.Core.Graph.{
  from_node, Node, NodeGraph, Branches, plain_node, is_simple_chain, chain_from,
}
use cuttlefish_vm.Core.Graph.Chain.{
  IsChain, names, is_simple_chain_iff, is_simple_chain-repeated_name,
}

abbrev after : Text → Node
after name = plain_node (codes "blocks/x") (some (from_node name))

abbrev entry : Node
entry = plain_node (codes "blocks/x") none

abbrev no_branches : Branches
no_branches = record { decisions = [] }

abbrev three : NodeGraph
three = record {
  nodes = (codes "a", entry) ∷ (codes "b", after (codes "a")) ∷ (codes "c", after (codes "b")) ∷ [];
}

three_distinct : AreDistinct (names three.nodes)
unfolding text_eq
three_distinct = (refl, (refl, (refl, tt)))

is_simple_chain_iff_example :
    (is_simple_chain three no_branches ≡ true)
    ↔ ((no_branches.decisions ≡ []) × IsChain none three.nodes)
is_simple_chain_iff_example = is_simple_chain_iff three no_branches three_distinct

three_is_simple : is_simple_chain three no_branches ≡ true
three_is_simple =
    is_simple_chain_iff_example.1
      (refl, (refl, refl, refl, (refl, refl, refl, (refl, refl, refl, tt))))

is_simple_chain-repeated_name_example :
    (chain_from none
        ((codes "a", entry) ∷ (codes "a", after (codes "a")) ∷ (codes "b", after (codes "a")) ∷ [])
      ≡ true)
    × (is_simple_chain
          (record {
            nodes =
                (codes "a", entry)
                ∷ (codes "a", after (codes "a"))
                ∷ (codes "b", after (codes "a"))
                ∷ [];
          })
          no_branches
        ≡ false)
is_simple_chain-repeated_name_example =
    is_simple_chain-repeated_name (codes "a") (codes "b") entry (after (codes "a"))
      (after (codes "a")) [] no_branches
      (refl, refl, refl, (refl, refl, refl, (refl, refl, refl, tt)))
