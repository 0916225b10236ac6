-- ===== src/Core/Graph.antt =====
-- The graph of a spec, `nodes = {...}` and `branches = {...}`: crates/cuttlefish-core/src/graph.rs.
-- A `PathBuf` is its text.
pub mod Chain
pub mod Parser
pub mod Tests
use cuttlefish_vm.Base.{
  ltb, leb, ◌==◌, if◌then◌else◌, ==_iff, Bool-cases, Option-cases, and_true, or_true, is_some,
  is_some-false, length, get_elem?, take, drop, any, all, length-append, take-append-drop,
  length-take, length-drop, All, All-append, is_empty, Text, codes, text_eq, text_eq_refl,
  text_eq-true, text_eq-false, text_eq_iff, text_eq_comm, mem, filter, AreDistinct, mem-append,
  mem-left, mem-right, mem-filter, length-filter, ℕ, zero, suc, ◌+◌, ◌-◌, ◌*◌, ◌/◌, ◌%◌, ◌^◌, ◌≤◌,
  ◌<◌, min, ◌≡◌, refl, sym, ap, ◌∙◌, subst, ◌≢◌, ◌↔◌, ◌⊎◌, inl, inr, Bool, true, false, not, ◌&&◌,
  ◌||◌, Option, none, some, List, [], ◌∷◌, ◌++◌, map, arith,
}

-- crates/cuttlefish-core/src/spec.rs
pub record ModelRef : Type 0 where
  pub provider : Text
  pub target : Text

-- A `Record` holds a `BTreeMap`: the fields in the order of their names.
mutual
  pub data InputExpr : Type 0 where
    from_node : Text → InputExpr
    record_of : Inputs → InputExpr
    list_of : Items → InputExpr

  pub data Inputs : Type 0 where
    end : Inputs
    field : Text → InputExpr → Inputs → Inputs

  pub data Items : Type 0 where
    nil : Items
    item : InputExpr → Items → Items

pub data AcceptCheck : Type 0 where
  schema : Text → AcceptCheck
  judge : Option ModelRef → Text → AcceptCheck

pub data Rung : Type 0 where
  retry : ℕ → Rung
  reroute : ModelRef → Rung
  escalate : Rung

pub record Node : Type 0 where
  pub block : Text
  pub input : Option InputExpr
  pub repeat_until : Option Text
  pub max_iterations : Option ℕ
  pub over : Option Text
  pub accept : List AcceptCheck
  pub on_fail : List Rung

abbrev pub Nodes : Type 0
Nodes = List (Text × Node)

pub record NodeGraph : Type 0 where
  pub nodes : Nodes

pub record Branches : Type 0 where
  pub decisions : List (Text × List (Text × Text))

-- The node that `NodeGraph::single` builds.
abbrev pub plain_node : Text → Option InputExpr → Node
plain_node block input = record {
  block = block;
  input = input;
  repeat_until = none;
  max_iterations = none;
  over = none;
  accept = [];
  on_fail = [];
}

unfoldable pub single : Text → NodeGraph
single block = record { nodes = (codes "block", plain_node block none) ∷ [] }

-- `NodeGraph::get`
unfoldable pub find_node : Nodes → Text → Option Node
find_node [] name = none
find_node ((n, node) ∷ rest) name = if text_eq n name then some node else find_node rest name

abbrev pub get : NodeGraph → Text → Option Node
get g name = find_node g.nodes name

-- The `match (i, &node.input)` of `is_simple_chain`; `previous` is the name of node `i - 1`.
unfoldable pub follows : Option Text → Option InputExpr → Bool
follows none none = true
follows none (some e) = false
follows (some previous) (some (from_node referenced)) = text_eq referenced previous
follows (some previous) _ = false

-- The first loop of `is_simple_chain`.
unfoldable pub chain_from : Option Text → Nodes → Bool
chain_from previous [] = true
chain_from previous ((name, node) ∷ rest) =
    if is_some node.repeat_until
    then false
    else if is_some node.over
    then false
    else if follows previous node.input
    then chain_from (some name) rest
    else false

abbrev pub Counts : Type 0
Counts = List (Text × ℕ)

-- `*referenced_counts.entry(name).or_insert(0) += 1`
unfoldable pub count_one : Text → Counts → Counts
count_one name [] = (name, 1) ∷ []
count_one name ((n, k) ∷ rest) =
    if text_eq name n then (n, k + 1) ∷ rest else (n, k) ∷ count_one name rest

-- The body of the loop that fills `referenced_counts`.
unfoldable pub count_input : Option InputExpr → Counts → Counts
count_input (some (from_node referenced)) counts = count_one referenced counts
count_input _ counts = counts

unfoldable pub count_references : Counts → Nodes → Counts
count_references counts [] = counts
count_references counts ((name, node) ∷ rest) =
    count_references (count_input node.input counts) rest

unfoldable pub is_simple_chain : NodeGraph → Branches → Bool
is_simple_chain graph branches =
    if not (is_empty branches.decisions)
    then false
    else if chain_from none graph.nodes
    then all (λ c. leb c.1 1) (count_references [] graph.nodes)
    else false
