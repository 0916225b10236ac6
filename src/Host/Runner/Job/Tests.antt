-- ===== src/Host/Runner/Job/Tests.antt =====
-- A decision whose two labels share a target, and a fan-out node run twice.
use cuttlefish_vm.Base.{
  length, codes, text_eq, mem, insert_entry, suc, ◌+◌, ◌≡◌, refl, ◌≢◌, false, none, some, List, [],
  ◌∷◌,
}
use cuttlefish_vm.Abi.Ty.{json, matches_value}
use cuttlefish_vm.Core.Graph.{Node, NodeGraph, Branches, plain_node, find_node}
use cuttlefish_vm.Host.Accept.{check_schemas, run_judges}
use cuttlefish_vm.Host.Dag.{ok}
use cuttlefish_vm.Host.Dag.Exclusivity.{
  Exclusive, seed_decisions, seed_labels, mark_loop, mark_round, find_mark, gain,
  compute_branch_exclusivity,
}
use cuttlefish_vm.Host.Dag.Marks.{
  Gives, AreMarks, IsDeclared, compute_branch_exclusivity-IsDeclared,
}
use cuttlefish_vm.Host.Ledger.{
  Tables, find_row, upsert, item_concluded, decode, write_item_completed,
}
use cuttlefish_vm.Host.Runner.Sample.{
  Sample, string, sample, platform, sample_from_str, sample_to_string,
}
use cuttlefish_vm.Host.Runner.Ladder.{
  RunStage, produced, run, climb, attempt, run_rounds, accept_value,
}
use cuttlefish_vm.Host.Runner.Fanout.{counted}
use cuttlefish_vm.Host.Runner.Fanout.Items.{Campaign, run_item, run_items, conclude_item}
use cuttlefish_vm.Host.Runner.Fanout.Rerun.{run_items-rerun, AllParse}
use cuttlefish_vm.Host.Runner.Job.{valid_labels}
use cuttlefish_vm.Host.Runner.Job.Labels.{shared_target}

abbrev plain : Node
plain = plain_node (codes "x") none

abbrev graph : NodeGraph
graph = record { nodes = (codes "d", plain) ∷ (codes "t", plain) ∷ [] }

abbrev shared : Branches
shared = record {
  decisions = (codes "d", (codes "yes", codes "t") ∷ (codes "no", codes "t") ∷ []) ∷ [];
}

abbrev marks : Exclusive
marks = (codes "t", record { decision = codes "d"; label = codes "no" }) ∷ []

target_known : find_node graph.nodes (codes "t") ≡ some plain
unfolding find_node text_eq
target_known = refl

labels_differ : codes "yes" ≢ codes "no"
labels_differ e = cc

marked : compute_branch_exclusivity graph shared ≡ ok marks
unfolding compute_branch_exclusivity seed_decisions seed_labels mark_loop mark_round find_mark gain
    find_node insert_entry text_eq
marked = refl

shared_target_example : mem (codes "yes") (valid_labels (codes "d") marks) ≡ false
shared_target_example =
    shared_target graph (codes "d") (codes "yes") (codes "no") (codes "t") plain marks target_known
      labels_differ marked

compute_branch_exclusivity-IsDeclared_example :
    Gives (AreMarks (IsDeclared shared.decisions)) (compute_branch_exclusivity graph shared)
compute_branch_exclusivity-IsDeclared_example = compute_branch_exclusivity-IsDeclared graph shared

abbrev echo : RunStage sample platform
echo = λ bytes b v script w. (produced v, suc w)

abbrev campaign : Campaign sample platform
campaign = record {
  backend = 1;
  alternates = λ m. none;
  checks = record { schemas = []; judges = [] };
  node = record {
    name = codes "f";
    module_bytes = [];
    signature = record { input = json; output = json };
    input = none;
    repeat_until = none;
    max_iterations = none;
    script = none;
    over = some (codes "list");
    item_output = none;
    accept = [];
    on_fail = [];
  };
  job_dir = codes "jobs";
}

abbrev empty : Tables
empty = record { columns = []; checkpoints = []; job_status = []; fanout_manifests = [] }

abbrev items : List Sample
items = string (codes "a") ∷ string (codes "b") ∷ []

abbrev after_run : Tables
after_run = (run_items sample platform echo campaign 0 items 0 0 0 empty).2

ran : run_items sample platform echo campaign 0 items 0 0 0 empty ≡ (counted 2 0, 2, after_run)
unfolding run_items run_item conclude_item item_concluded find_row run climb attempt run_rounds
    accept_value check_schemas run_judges matches_value write_item_completed upsert text_eq
ran = refl

parsed : AllParse sample platform (codes "f") 0 items after_run
unfolding run_items run_item conclude_item item_concluded find_row run climb attempt run_rounds
    accept_value check_schemas run_judges matches_value write_item_completed upsert text_eq decode
    sample_from_str sample_to_string
parsed = (λ e. cc, (λ e. cc, tt))

run_items-rerun_example :
    (run_items sample platform echo campaign 0 items 0 0 9 after_run ≡ (counted 2 0, 9, after_run))
    × (2 + 0 ≡ 0 + 0 + length items)
run_items-rerun_example =
    run_items-rerun sample platform echo campaign 0 items 0 0 2 0 0 2 9 empty after_run after_run
      ran (refl, (refl, tt)) parsed refl
