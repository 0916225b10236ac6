-- ===== src/Host/Runner/Tests.antt =====
-- Small jobs run, and the theorems about the runner at them.
use cuttlefish_vm.Base.{
  ◌==◌, if◌then◌else◌, Text, codes, text_eq, lookup_entry, insert_entry, ℕ, suc, ◌+◌, ◌≤◌, ◌≡◌,
  refl, true, Option, none, some, List, [], ◌∷◌, arith,
}
use cuttlefish_vm.Abi.Ty.{json, matches_value}
use cuttlefish_vm.Abi.Status.{failed, status_eq}
use cuttlefish_vm.Core.Graph.{ModelRef, Rung, retry, reroute, escalate, from_node}
use cuttlefish_vm.Host.Accept.{compile, compile_onto, check_schemas, run_judges, CompiledChecks}
use cuttlefish_vm.Host.Ledger.{
  Tables, find_row, upsert, is_skipped, get_completed, decode, write_completed, open_ledger,
  migrate, all_columns, finish,
}
use cuttlefish_vm.Host.Runner.{CheckedNode, references_any}
use cuttlefish_vm.Host.Runner.Sample.{
  Sample, string, sample, platform, sample_get_str, sample_from_str-to_string,
}
use cuttlefish_vm.Host.Runner.Ladder.{
  RunStage, Ladder, value, produced, stopped, run, climb, attempt, run_rounds, accept_value,
  stage_failed, or_else,
}
use cuttlefish_vm.Host.Runner.Ladder.Schedule.{schedule, first_of, run-first_of}
use cuttlefish_vm.Host.Runner.Ladder.Accepted.{IsSound, run-IsSound}
use cuttlefish_vm.Host.Runner.Ladder.Bounds.{run-count}
use cuttlefish_vm.Host.Runner.Job.{
  JobSpec, Progress, NodeRound, next, run_nodes, run_node, run_fresh, execute, execute_over,
  conclude, conclude_routed, conclude_node, conclude_ladder, on_other_route, valid_labels,
  route_error, no_progress, Work,
}
use cuttlefish_vm.Host.Runner.Job.Block.{
  compile_all, run_job, run_block, finish_run, end_run, envelope_of, last_output, ledger_status,
}
use cuttlefish_vm.Host.Runner.Job.Resume.{resume}
use cuttlefish_vm.Host.Accept.Order.{IsDue, run_judges-IsDue}

-- The backend 0 fails, any other gives its input back.
abbrev echo : RunStage sample platform
echo = λ bytes b v script w.
    if b == 0
    then (stopped (record { status = failed; result = none; error = none }), suc w)
    else (produced v, suc w)

abbrev checks : CompiledChecks sample platform
checks = record { schemas = []; judges = [] }

abbrev other_model : ModelRef
other_model = record { provider = codes "local"; target = codes "other" }

abbrev rungs : List Rung
rungs = retry 1 ∷ reroute other_model ∷ escalate ∷ []

abbrev small_ladder : Ladder sample platform
small_ladder = record {
  default_backend = 0;
  alternates = λ m. some 1;
  checks = checks;
  expected = json;
  on_fail = rungs;
  repeat_until = none;
  max_iterations = none;
}

abbrev hello : Sample
hello = string (codes "hello")

climbs : run sample platform echo small_ladder [] none hello 0 ≡ (value hello, 3)
unfolding run climb attempt run_rounds accept_value stage_failed check_schemas run_judges status_eq
    matches_value
climbs = refl

run-first_of_example :
    run sample platform echo small_ladder [] none hello 0
    ≡ or_else sample platform (attempt sample platform echo small_ladder [] none hello 0 0) (
        first_of sample platform
          (attempt sample platform echo small_ladder [] none hello)
          (0 ∷ 1 ∷ [])
          (schedule sample platform (λ m. some 1) 0 rungs).1)
run-first_of_example = run-first_of sample platform echo small_ladder [] none hello 0

run-IsSound_example :
    IsSound sample platform small_ladder true hello
      (run sample platform echo small_ladder [] none hello 0).0
run-IsSound_example = run-IsSound sample platform echo small_ladder [] none hello 0

echo_once :
    (bytes : List ℕ) (b : ℕ) (v : Sample) (script : Option Text) (w : ℕ)
    → (echo bytes b v script w).1 ≤ w + 1
echo_once bytes b v script w = ground arith

judge_never : (b : ℕ) (prompt : Text) (tokens w : ℕ) → w ≤ w
judge_never b prompt tokens w = omega arith

run-count_example : (run sample platform echo small_ladder [] none hello 0).1 ≤ 3
run-count_example =
    run-count sample platform (λ w. w) echo echo_once judge_never small_ladder [] none hello 0

abbrev node_of : Text → CheckedNode
node_of name = record {
  name = name;
  module_bytes = [];
  signature = record { input = json; output = json };
  input = none;
  repeat_until = none;
  max_iterations = none;
  script = none;
  over = none;
  item_output = none;
  accept = [];
  on_fail = [];
}

abbrev job : JobSpec sample platform
job = record {
  nodes =
      node_of (codes "a")
      ∷ record (node_of (codes "b")) { input = some (from_node (codes "a")) }
      ∷ [];
  exclusive_to = [];
  input = hello;
  alternates = λ m. none;
  backend = 1;
  job_dir = codes "jobs";
}

abbrev first_work : Work sample platform
first_work = (node_of (codes "a"), checks) ∷ []

abbrev last_work : Work sample platform
last_work = (record (node_of (codes "b")) { input = some (from_node (codes "a")) }, checks) ∷ []

abbrev fresh : Tables
fresh = record {
  columns = all_columns;
  checkpoints = [];
  job_status = (codes "running", codes "f") ∷ [];
  fanout_manifests = [];
}

abbrev after_first : NodeRound sample platform × ℕ × Tables
after_first = run_nodes sample platform echo job first_work (no_progress sample platform) 0 fresh

first_progress :
    run_nodes sample platform echo job first_work (no_progress sample platform) 0 fresh ≡ (
      next (record { outputs = (codes "a", hello) ∷ []; skipped = []; route_taken = [] }),
      1,
      after_first.2,
    )
unfolding run_nodes run_node run_fresh execute execute_over conclude conclude_routed conclude_node
    conclude_ladder on_other_route valid_labels route_error run climb attempt run_rounds
    accept_value stage_failed check_schemas run_judges status_eq matches_value is_skipped
    get_completed decode find_row lookup_entry insert_entry sample_get_str write_completed
first_progress = refl

abbrev stopped_tables : Tables
stopped_tables = (run_job sample platform echo job 0 fresh).2

abbrev progress : Progress sample platform
progress = record { outputs = (codes "a", hello) ∷ []; skipped = []; route_taken = [] }

reopened : open_ledger (codes "f") stopped_tables ≡ some stopped_tables
unfolding open_ledger references_any migrate text_eq run_job run_block finish_run end_run
    envelope_of last_output ledger_status finish compile_all compile compile_onto run_nodes run_node
    run_fresh execute execute_over conclude conclude_routed conclude_node conclude_ladder
    on_other_route valid_labels route_error run climb attempt run_rounds accept_value stage_failed
    check_schemas run_judges status_eq matches_value is_skipped get_completed decode find_row
    lookup_entry insert_entry sample_get_str write_completed upsert
reopened = refl

resume_example :
    run_job sample platform echo job 7 stopped_tables
    ≡ finish_run sample platform (
        end_run sample platform job.nodes
          (run_nodes sample platform echo job last_work progress 7 stopped_tables))
resume_example =
    resume sample platform echo job first_work last_work progress (codes "f") 0 1 7 fresh
      after_first.2 stopped_tables refl
      (unfold compile_all in unfold compile in unfold compile_onto in refl)
      (unfold text_eq in (refl, (refl, tt))) first_progress
      (λ name v found. sample_from_str-to_string v) reopened

abbrev judges : List (Option ModelRef × Text)
judges = (none, codes "ok?") ∷ (some other_model, codes "sure?") ∷ []

run_judges-IsDue_example :
    IsDue sample platform hello hello 1
      (λ m. none)
      judges
      0
      (run_judges sample platform judges hello hello 1 (λ m. none) 0)
run_judges-IsDue_example = run_judges-IsDue sample platform hello hello 1 (λ m. none) judges 0
