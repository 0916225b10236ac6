-- ===== src/Host/Runner/Job/Labels.antt =====
-- The labels that a run accepts from a decision, against those that the spec declares.
use cuttlefish_vm.Base.{
  length, Text, text_eq, text_eq_refl, text_eq-false, mem, insert_entry, suc, ◌≡◌, refl, subst, ◌≢◌,
  false, some, [], ◌∷◌, arith,
}
use cuttlefish_vm.Core.Graph.{Node, NodeGraph, find_node}
use cuttlefish_vm.Host.Dag.{ok}
use cuttlefish_vm.Host.Dag.Exclusivity.{
  BranchExclusivity, Exclusive, seed_decisions, seed_labels, compute_branch_exclusivity,
}
use cuttlefish_vm.Host.Dag.Unmarked.{unmarked-le}
use cuttlefish_vm.Host.Dag.Marks.{Gives, AreMarks, mark_loop-Gives}
use cuttlefish_vm.Host.Runner.Job.{valid_labels}

abbrev HasLabel : Text → BranchExclusivity → Type 0
HasLabel label ex = ex.label ≡ label

no_other_label :
    (label other decision : Text) (marks : Exclusive)
    → text_eq other label ≡ false
    → AreMarks (HasLabel label) marks
    → mem other (valid_labels decision marks) ≡ false
unfolding valid_labels
no_other_label label other decision [] differ h = refl
no_other_label label other decision (e ∷ marks) differ h =
    let here : text_eq other e.1.label ≡ false = rw h.0 differ in
    ground (arith, no_other_label label other decision marks differ h.1)

-- The marker of the second label replaces that of the first.
seeded :
    (graph : NodeGraph) (decision first second target : Text) (node : Node)
    → find_node graph.nodes target ≡ some node
    → seed_labels graph.nodes decision ((first, target) ∷ (second, target) ∷ []) []
      ≡ ok ((target, record { decision = decision; label = second }) ∷ [])
unfolding seed_labels insert_entry
seeded graph decision first second target node found = ground (arith, text_eq_refl target)

-- Where two labels of the one decision have the same target, a run does not hold the first for a
-- label of the decision, although the spec declares it.
pub shared_target :
    (graph : NodeGraph) (decision first second target : Text) (node : Node) (marks : Exclusive)
    → find_node graph.nodes target ≡ some node
    → first ≢ second
    → compute_branch_exclusivity graph
        (record { decisions = (decision, (first, target) ∷ (second, target) ∷ []) ∷ [] })
      ≡ ok marks
    → mem first (valid_labels decision marks) ≡ false
unfolding compute_branch_exclusivity seed_decisions
shared_target graph decision first second target node marks found differ computed =
    no_other_label second first decision marks (text_eq-false first second differ)
      (subst (Gives (AreMarks (HasLabel second))) computed all_marks)
  where
    all_marks : Gives (AreMarks (HasLabel second)) (
        compute_branch_exclusivity graph
          (record { decisions = (decision, (first, target) ∷ (second, target) ∷ []) ∷ [] }))
    all_marks = rw (seeded graph decision first second target node found) (
        mark_loop-Gives (HasLabel second) (suc (length graph.nodes)) graph.nodes _
          (omega (
            arith,
            unmarked-le graph.nodes ((target, record { decision = decision; label = second }) ∷ []),
          ))
          (refl, tt))
