-- ===== src/Core/Graph/Chain.antt =====
-- `is_simple_chain` against a description of a chain, and its count of references, which the source
-- calls unreachable.
use cuttlefish_vm.Base.{
  leb, is_some, is_some-false, all, All, is_empty, Text, text_eq, text_eq_refl, text_eq-true,
  text_eq_comm, mem, AreDistinct, ◌≡◌, refl, ap, ◌↔◌, Bool, true, false, ◌||◌, Option, none, some,
  List, [], ◌∷◌, ◌++◌, map, arith,
}
use cuttlefish_vm.Core.Graph.{
  InputExpr, from_node, record_of, list_of, Node, Nodes, NodeGraph, Branches, follows, chain_from,
  Counts, count_one, count_references, is_simple_chain, count_input,
}

-- What feeds a node: nothing at the entry, and the node just before it elsewhere.
abbrev pub IsFedBy : Option Text → Option InputExpr → Type 0
IsFedBy none input = input ≡ none
IsFedBy (some previous) input = input ≡ some (from_node previous)

-- A strand: no loops, no fan-out, each node fed by the one before it.
abbrev pub IsChain : Option Text → Nodes → Type 0
IsChain previous [] = Unit
IsChain previous ((name, node) ∷ rest) =
    (node.repeat_until ≡ none)
    × (node.over ≡ none)
    × IsFedBy previous node.input
    × IsChain (some name) rest

abbrev pub names : Nodes → List Text
names nodes = map (λ n. n.0) nodes

follows-IsFedBy :
    (previous : Option Text) (input : Option InputExpr)
    → follows previous input ≡ true
    → IsFedBy previous input
unfolding follows
follows-IsFedBy none none h = refl
follows-IsFedBy none (some e) h = cc
follows-IsFedBy (some p) none h = cc
follows-IsFedBy (some p) (some (from_node r)) h = ap (λ x. some (from_node x)) (text_eq-true r p h)
follows-IsFedBy (some p) (some (record_of fs)) h = cc
follows-IsFedBy (some p) (some (list_of is)) h = cc

IsFedBy-follows :
    (previous : Option Text) (input : Option InputExpr)
    → IsFedBy previous input
    → follows previous input ≡ true
unfolding follows
IsFedBy-follows none input h = rw h
IsFedBy-follows (some p) input h = rw (h, text_eq_refl)

chain_from-parts :
    (previous : Option Text) (name : Text) (node : Node) (rest : Nodes)
    → chain_from previous ((name, node) ∷ rest) ≡ true
    → (is_some node.repeat_until ≡ false)
      × (is_some node.over ≡ false)
      × (follows previous node.input ≡ true)
      × (chain_from (some name) rest ≡ true)
unfolding chain_from
chain_from-parts previous name node rest h = ground arith

chain_from-IsChain :
    (previous : Option Text) (nodes : Nodes)
    → chain_from previous nodes ≡ true
    → IsChain previous nodes
unfolding chain_from
chain_from-IsChain previous [] h = tt
chain_from-IsChain previous ((name, node) ∷ rest) h =
    let (no_loop, no_over, fed, more) = chain_from-parts previous name node rest h in
    (
      is_some-false node.repeat_until no_loop,
      is_some-false node.over no_over,
      follows-IsFedBy previous node.input fed,
      chain_from-IsChain (some name) rest more,
    )

IsChain-chain_from :
    (previous : Option Text) (nodes : Nodes)
    → IsChain previous nodes
    → chain_from previous nodes ≡ true
unfolding chain_from
IsChain-chain_from previous [] h = refl
IsChain-chain_from previous ((name, node) ∷ rest) (no_loop, no_over, fed, more) =
    rw (no_loop, no_over, IsFedBy-follows previous node.input fed)
      (IsChain-chain_from (some name) rest more)

abbrev keys : Counts → List Text
keys counts = map (λ c. c.0) counts

abbrev at_most_one : Counts → Bool
at_most_one counts = all (λ c. leb c.1 1) counts

count_one-new :
    (name : Text) (counts : Counts)
    → mem name (keys counts) ≡ false
    → count_one name counts ≡ counts ++ (name, 1) ∷ []
unfolding count_one
count_one-new name [] h = refl
count_one-new name ((n, k) ∷ rest) h = ground (arith, count_one-new name rest)

at_most_one-append :
    (name : Text) (counts : Counts)
    → at_most_one counts ≡ true
    → at_most_one (counts ++ (name, 1) ∷ []) ≡ true
at_most_one-append name [] h = refl
at_most_one-append name ((n, k) ∷ rest) h = ground (arith, at_most_one-append name rest)

-- None of these names is counted yet.
abbrev AreNew : Counts → List Text → Type 0
AreNew counts xs = All (λ x. mem x (keys counts) ≡ false) xs

mem-keys-append :
    (x name : Text) (counts : Counts)
    → mem x (keys (counts ++ (name, 1) ∷ [])) ≡ (mem x (keys counts) || text_eq x name)
mem-keys-append x name [] = ground arith
mem-keys-append x name ((n, k) ∷ rest) = ground (arith, mem-keys-append x name rest)

AreNew-append :
    (name : Text) (counts : Counts) (xs : List Text)
    → mem name xs ≡ false
    → AreNew counts xs
    → AreNew (counts ++ (name, 1) ∷ []) xs
AreNew-append name counts [] h new = tt
AreNew-append name counts (x ∷ xs) h new = (
  rw (mem-keys-append x name counts, text_eq_comm x name) (ground arith),
  AreNew-append name counts xs (ground arith) new.1,
)

-- A chain of distinct names refers to each name at most once.
count_references-at_most_one :
    (previous : Text) (nodes : Nodes) (counts : Counts)
    → IsChain (some previous) nodes
    → AreDistinct (previous ∷ names nodes)
    → AreNew counts (previous ∷ names nodes)
    → at_most_one counts ≡ true
    → at_most_one (count_references counts nodes) ≡ true
unfolding count_references count_input
count_references-at_most_one previous [] counts chain distinct new h = h
count_references-at_most_one previous ((name, node) ∷ rest) counts chain distinct new h =
    let (no_loop, no_over, fed, more) = chain in
    rw fed (
      rw (count_one-new previous counts new.0) (
        count_references-at_most_one name rest (counts ++ (previous, 1) ∷ []) more distinct.1
          (AreNew-append previous counts (name ∷ names rest) distinct.0 new.1)
          (at_most_one-append previous counts h)))

is_empty-true {ℓ} : {A : Type ℓ} (xs : List A) → is_empty xs ≡ true → xs ≡ []
is_empty-true [] h = refl
is_empty-true (x ∷ xs) h = cc

AreNew-nothing : (xs : List Text) → AreNew [] xs
AreNew-nothing [] = tt
AreNew-nothing (x ∷ xs) = (refl, AreNew-nothing xs)

IsChain-references :
    (nodes : Nodes)
    → AreDistinct (names nodes)
    → IsChain none nodes
    → at_most_one (count_references [] nodes) ≡ true
unfolding count_references count_input
IsChain-references [] distinct chain = refl
IsChain-references ((name, node) ∷ rest) distinct (no_loop, no_over, fed, more) = rw fed (
    count_references-at_most_one name rest [] more distinct (AreNew-nothing (name ∷ names rest))
      refl)

-- Where no two nodes share a name, a graph is bundled exactly if it has no branch decisions and is
-- one strand: an entry with no input, each later node fed by the node declared just before it,
-- and no node that loops or fans out. The count of references then rejects nothing.
pub is_simple_chain_iff :
    (graph : NodeGraph) (branches : Branches)
    → AreDistinct (names graph.nodes)
    → (is_simple_chain graph branches ≡ true)
      ↔ ((branches.decisions ≡ []) × IsChain none graph.nodes)
unfolding is_simple_chain
is_simple_chain_iff graph branches distinct = (
  λ h. (
    is_empty-true branches.decisions (ground arith),
    chain_from-IsChain none graph.nodes (ground arith),
  ),
  λ (no_branches, chain).
      rw (no_branches, IsChain-chain_from none graph.nodes chain)
        (IsChain-references graph.nodes distinct chain),
)

count_one-at_most_one :
    (name : Text) (counts : Counts)
    → at_most_one (count_one name counts) ≡ true
    → at_most_one counts ≡ true
unfolding count_one
count_one-at_most_one name [] h = refl
count_one-at_most_one name ((n, k) ∷ rest) h = ground (arith, count_one-at_most_one name rest)

count_input-at_most_one :
    (input : Option InputExpr) (counts : Counts)
    → at_most_one (count_input input counts) ≡ true
    → at_most_one counts ≡ true
unfolding count_input
count_input-at_most_one (some (from_node r)) counts h = count_one-at_most_one r counts h
count_input-at_most_one _ counts h = h

count_references-keeps :
    (counts : Counts) (nodes : Nodes)
    → at_most_one (count_references counts nodes) ≡ true
    → at_most_one counts ≡ true
unfolding count_references
count_references-keeps counts [] h = h
count_references-keeps counts ((name, node) ∷ rest) h =
    count_input-at_most_one node.input counts
      (count_references-keeps (count_input node.input counts) rest h)

repeated-counts :
    (name third : Text) (x y z : Node) (rest : Nodes)
    → IsChain none ((name, x) ∷ (name, y) ∷ (third, z) ∷ rest)
    → count_references [] ((name, x) ∷ (name, y) ∷ (third, z) ∷ rest)
      ≡ count_references ((name, 2) ∷ []) rest
unfolding count_references count_input count_one
repeated-counts name third x y z rest ((_, _, fed_x, (_, _, fed_y, (_, _, fed_z, _)))) =
    simp (fed_x, fed_y, fed_z, text_eq_refl)

counted-rejected :
    (nodes : Nodes) (branches : Branches)
    → at_most_one (count_references [] nodes) ≡ false
    → is_simple_chain (record { nodes = nodes }) branches ≡ false
unfolding is_simple_chain
counted-rejected nodes branches h = ground arith

-- The count of references is not unreachable, as its comment has it: a strand whose second node
-- repeats the name of its first, with a third node behind, passes the loop over the nodes, and is
-- rejected by the count alone.
pub is_simple_chain-repeated_name :
    (name third : Text) (x y z : Node) (rest : Nodes) (branches : Branches)
    → IsChain none ((name, x) ∷ (name, y) ∷ (third, z) ∷ rest)
    → (chain_from none ((name, x) ∷ (name, y) ∷ (third, z) ∷ rest) ≡ true)
      × (is_simple_chain (record { nodes = (name, x) ∷ (name, y) ∷ (third, z) ∷ rest }) branches
          ≡ false)
is_simple_chain-repeated_name name third x y z rest branches chain =
    let nodes : Nodes = (name, x) ∷ (name, y) ∷ (third, z) ∷ rest in
    let counted : at_most_one (count_references [] nodes) ≡ false =
      rw (repeated-counts name third x y z rest chain)
        (ground (arith, count_references-keeps ((name, 2) ∷ []) rest)) in
    (IsChain-chain_from none nodes chain, counted-rejected nodes branches counted)
