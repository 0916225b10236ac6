-- ===== src/Host/Dag/Exclusivity.antt =====
-- Which nodes belong to one route of a decision: `compute_branch_exclusivity` of
-- crates/cuttlefish-host/src/dag.rs.
use cuttlefish_vm.Base.{
  is_some, length, Text, text_eq, lookup_entry, insert_entry, ℕ, zero, suc, Bool, true, false, not,
  ◌&&◌, ◌||◌, Option, none, some, List, [], ◌∷◌,
}
use cuttlefish_vm.Core.Graph.{Nodes, NodeGraph, Branches, find_node}
use cuttlefish_vm.Host.Dag.{
  references, Outcome, ok, err, out_of_fuel, ◌>>=◌, unknown_reference, conflicting_branch_fan_in,
}

pub record BranchExclusivity : Type 0 where
  pub decision : Text
  pub label : Text

abbrev pub Exclusive : Type 0
Exclusive = List (Text × BranchExclusivity)

-- The inner loop that seeds, over the labels of one decision with their targets.
unfoldable pub seed_labels : Nodes → Text → List (Text × Text) → Exclusive → Outcome Exclusive
seed_labels nodes decision [] marks = ok marks
seed_labels nodes decision ((label, target) ∷ rest) marks = elim (find_node nodes target) [
  | none ↦ err (unknown_reference decision target)
  | some _ ↦
      seed_labels nodes decision rest
        (insert_entry target (record { decision = decision; label = label }) marks)
]

unfoldable pub seed_decisions :
    Nodes → List (Text × List (Text × Text)) → Exclusive → Outcome Exclusive
seed_decisions nodes [] marks = ok marks
seed_decisions nodes ((decision, labels) ∷ rest) marks =
    seed_labels nodes decision labels marks >>= λ marks'. seed_decisions nodes rest marks'

-- `existing.decision == ex.decision && existing.label != ex.label`
abbrev pub disagrees : BranchExclusivity → BranchExclusivity → Bool
disagrees existing ex =
    text_eq existing.decision ex.decision && not (text_eq existing.label ex.label)

-- The loop over the references of the node `name`, with what it found so far.
unfoldable pub find_mark :
    Text → List Text → Exclusive → Option BranchExclusivity → Outcome (Option BranchExclusivity)
find_mark name [] marks found = ok found
find_mark name (referenced ∷ rest) marks found = elim (lookup_entry referenced marks) [
  | none ↦ find_mark name rest marks found
  | some ex ↦ elim found [
    | none ↦ find_mark name rest marks (some ex)
    | some existing ↦ elim (disagrees existing ex) [
      | true ↦ err (conflicting_branch_fan_in name ex.decision existing.label ex.label)
      | false ↦ find_mark name rest marks (some existing)
    ]
  ]
]

-- The marker that a node gains, and whether it had none.
unfoldable pub gain : Text → Option BranchExclusivity → Exclusive × Bool → Exclusive × Bool
gain name none (marks, changed) = (marks, changed)
gain name (some ex) (marks, changed) =
    (insert_entry name ex marks, changed || not (is_some (lookup_entry name marks)))

-- One round over the nodes.
unfoldable pub mark_round : Nodes → Exclusive × Bool → Outcome (Exclusive × Bool)
mark_round [] state = ok state
mark_round ((name, node) ∷ rest) state = find_mark name (references node) state.0 none >>= λ found.
    mark_round rest (gain name found state)

unfoldable pub mark_loop : ℕ → Nodes → Exclusive → Outcome Exclusive
mark_loop zero nodes marks = out_of_fuel
mark_loop (suc fuel) nodes marks = mark_round nodes (marks, false) >>= λ state. elim state.1 [
  | true ↦ mark_loop fuel nodes state.0
  | false ↦ ok state.0
]

unfoldable pub compute_branch_exclusivity : NodeGraph → Branches → Outcome Exclusive
compute_branch_exclusivity graph branches =
    seed_decisions graph.nodes branches.decisions [] >>= λ marks.
    mark_loop (suc (length graph.nodes)) graph.nodes marks
