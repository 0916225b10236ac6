-- ===== src/Host/Runner/Job/Block.antt =====
-- The block `'run` of `run_job`, and what follows it: crates/cuttlefish-host/src/runner.rs.
use cuttlefish_vm.Base.{
  if◌then◌else◌, is_empty, Text, codes, lookup_entry, Option, none, some, List, [], ◌∷◌,
}
use cuttlefish_vm.Abi.Status.{JobStatus, completed as job_completed, failed, cancelled}
use cuttlefish_vm.Host.Serde.{SerdeJson}
use cuttlefish_vm.Host.Platform.{Platform, Tried, ok, err}
use cuttlefish_vm.Host.Accept.{compile}
use cuttlefish_vm.Host.Ledger.{Tables, finish}
use cuttlefish_vm.Host.Runner.{CheckedNode, Envelope, Outputs}
use cuttlefish_vm.Host.Runner.Ladder.{RunStage}
use cuttlefish_vm.Host.Runner.Fanout.{about, bail}
use cuttlefish_vm.Host.Runner.Job.{
  JobSpec, NodeRound, next, stop, panic, Work, no_progress, run_nodes,
}

module _ (s : SerdeJson) (p : Platform s) where
  open s use {json}
  open p use {World}

  -- Every node with its compiled checks, or the message of the first that does not compile.
  unfoldable pub compile_all : List CheckedNode → Tried (Work s p)
  compile_all [] = ok []
  compile_all (node ∷ rest) = elim (compile s p node.accept) [
    | err e ↦ err (about s p node.name e)
    | ok checks ↦ elim (compile_all rest) [ err e ↦ err e | ok work ↦ ok ((node, checks) ∷ work) ]
  ]

  -- `iter().rev().find_map(..)`
  unfoldable pub last_output : List CheckedNode → Outputs s → Option json.Value
  last_output [] outputs = none
  last_output (node ∷ rest) outputs = elim (last_output rest outputs) [
    | some v ↦ some v
    | none ↦ lookup_entry node.name outputs
  ]

  unfoldable pub envelope_of : List CheckedNode → Outputs s → Envelope s
  envelope_of nodes outputs = elim (last_output nodes outputs) [
    | some v ↦ record { status = job_completed; result = some v; error = none }
    | none ↦ bail s p (codes "every node in this job was skipped; there is no result")
  ]

  unfoldable pub ledger_status : JobStatus → Text
  ledger_status job_completed = codes "completed"
  ledger_status failed = codes "failed"
  ledger_status cancelled = codes "cancelled"
  ledger_status _ = codes "running"

  -- The block `'run`, and what it leaves to the rest of `run_job`; `none` is a panic.
  unfoldable pub end_run :
      List CheckedNode → NodeRound s p × World × Tables → Option (Envelope s) × World × Tables
  end_run nodes (next pr, w, t) = (some (envelope_of nodes pr.outputs), w, t)
  end_run nodes (stop envelope, w, t) = (some envelope, w, t)
  end_run nodes (panic, w, t) = (none, w, t)

  unfoldable pub finish_run :
      Option (Envelope s) × World × Tables → Option (Envelope s) × World × Tables
  finish_run (none, w, t) = (none, w, t)
  finish_run (some envelope, w, t) = (some envelope, w, finish (ledger_status envelope.status) t)

  module _ (run_stage : RunStage s p) where
    unfoldable pub run_block : JobSpec s p → World → Tables → Option (Envelope s) × World × Tables
    run_block j w t =
        if is_empty j.nodes
        then (some (bail s p (codes "this job has no nodes to run")), w, t)
        else elim (compile_all j.nodes) [
          | err message ↦ (some (bail s p message), w, t)
          | ok work ↦ end_run j.nodes (run_nodes s p run_stage j work (no_progress s p) w t)
        ]

    unfoldable pub run_job : JobSpec s p → World → Tables → Option (Envelope s) × World × Tables
    run_job j w t = finish_run (run_block j w t)
