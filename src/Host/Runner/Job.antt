-- ===== src/Host/Runner/Job.antt =====
-- A job from its first node to its envelope: `run_job` of crates/cuttlefish-host/src/runner.rs. The
-- warehouse that is written behind it is left out, and so is a statement that the ledger refuses.
pub mod Block
pub mod Frame
pub mod Routeless
pub mod Replay
pub mod Untouched
pub mod Resume
pub mod Labels
pub mod Tests
use cuttlefish_vm.Base.{
  ltb, leb, ◌==◌, if◌then◌else◌, ==_iff, Bool-cases, Option-cases, and_true, or_true, is_some,
  is_some-false, length, get_elem?, take, drop, any, all, length-append, take-append-drop,
  length-take, length-drop, All, All-append, is_empty, Text, codes, text_eq, text_eq_refl,
  text_eq-true, text_eq-false, text_eq_iff, text_eq_comm, text_lt, strip_suffix, starts_with,
  parse_digits, parse_u32, parse_u32-lt, decimal_onto, decimal, join, find_char, rfind_char, mem,
  filter, AreDistinct, mem-append, mem-left, mem-right, mem-filter, length-filter, lookup_entry,
  insert_entry, lookup_entry-insert_entry, ℕ, zero, suc, ◌+◌, ◌-◌, ◌*◌, ◌/◌, ◌%◌, ◌^◌, ◌≤◌, ◌<◌,
  min, ◌≡◌, refl, sym, ap, ◌∙◌, subst, ◌≢◌, ◌↔◌, ◌⊎◌, inl, inr, Bool, true, false, not, ◌&&◌, ◌||◌,
  Option, none, some, List, [], ◌∷◌, ◌++◌, map, arith,
}
use cuttlefish_vm.Abi.Status.{JobStatus, completed as job_completed, failed, cancelled}
use cuttlefish_vm.Core.Graph.{InputExpr}
use cuttlefish_vm.Host.Serde.{SerdeJson}
use cuttlefish_vm.Host.Platform.{Platform, Tried, ok, err}
use cuttlefish_vm.Host.Accept.{Alternates, CompiledChecks, compile}
use cuttlefish_vm.Host.Dag.{insert}
use cuttlefish_vm.Host.Ledger.{
  Tables, Fetched, got, panicked as read_panicked, is_skipped, get_completed, write_skipped,
  write_completed, write_escalated, finish,
}
use cuttlefish_vm.Host.Runner.{CheckedNode, Envelope, fail, Outputs, references_any, evaluate_input}
use cuttlefish_vm.Host.Runner.Ladder.{
  RunStage, Ladder, Climbed, value, exhausted, fatal, panicked as ladder_panicked, run,
}
use cuttlefish_vm.Host.Runner.Fanout.{
  Fanned, collected, ended, panicked as fanout_panicked, about, bail,
}
use cuttlefish_vm.Host.Runner.Fanout.Items.{Campaign, run_fanout_node}
use cuttlefish_vm.Host.Dag.Exclusivity.{Exclusive}

-- `valid_labels`, the labels of a decision among the values of `exclusive_to`.
unfoldable pub valid_labels : Text → Exclusive → List Text
valid_labels decision [] = []
valid_labels decision (e ∷ rest) =
    if text_eq e.1.decision decision
    then e.1.label ∷ valid_labels decision rest
    else valid_labels decision rest

-- Whether a node is exclusive to another route than the one that its decision took.
unfoldable pub on_other_route : Text → Exclusive → List (Text × Text) → Bool
on_other_route name exclusive_to route_taken = elim (lookup_entry name exclusive_to) [
  | none ↦ false
  | some ex ↦ elim (lookup_entry ex.decision route_taken) [
    | none ↦ false
    | some taken ↦ not (text_eq taken ex.label)
  ]
]

abbrev pub needs_skipped : Option InputExpr → List Text → Bool
needs_skipped none skipped = false
needs_skipped (some e) skipped = references_any e skipped

abbrev pub bad_route : Text
bad_route = codes "\", which doesn't match any declared label for this branches decision"

module _ (s : SerdeJson) (p : Platform s) where
  open s use {json, get_str}
  open p use {World, Backend, now_marker}

  pub record JobSpec : Type 0 where
    pub nodes : List CheckedNode
    pub exclusive_to : Exclusive
    pub input : json.Value
    pub alternates : Alternates s p
    pub backend : Backend
    pub job_dir : Text

  pub record Progress : Type 0 where
    pub outputs : Outputs s
    pub skipped : List Text
    pub route_taken : List (Text × Text)

  -- How a round of the node loop ends.
  pub data NodeRound : Type 0 where
    next : Progress → NodeRound
    stop : Envelope s → NodeRound
    panic : NodeRound

  abbrev pub no_progress : Progress
  no_progress = record { outputs = []; skipped = []; route_taken = [] }

  unfoldable pub skip_node : Text → Progress → Progress
  skip_node name pr = record pr { skipped = insert name pr.skipped }

  abbrev pub note_route : Text → Option Text → List (Text × Text) → List (Text × Text)
  note_route name none route_taken = route_taken
  note_route name (some route) route_taken = insert_entry name route route_taken

  unfoldable pub conclude : Text → json.Value → Progress → Progress
  conclude name v pr = record pr { outputs = insert_entry name v pr.outputs }

  -- An output with its route, if it names one.
  unfoldable pub conclude_routed : Text → json.Value → Progress → Progress
  unfolding conclude
  conclude_routed name v pr =
      conclude name v
        (record pr { route_taken = note_route name (get_str v (codes "route")) pr.route_taken })

  abbrev pub input_of : JobSpec → Option InputExpr → Outputs s → json.Value
  input_of j none outputs = j.input
  input_of j (some e) outputs = evaluate_input s e outputs

  -- What is wrong with a decision's route, if anything.
  unfoldable pub route_error : Text → List Text → Option Text → Option Text
  route_error name [] route = none
  route_error name (l ∷ labels) none = some (
      codes "node `"
      ++ (name ++ codes "` is a branches decision but its output has no `route` field"))
  route_error name (l ∷ labels) (some route) =
      if mem route (l ∷ labels)
      then none
      else some (codes "node `" ++ (name ++ (codes "` produced route \"" ++ (route ++ bad_route))))

  -- From the result on: the route, the checkpoint, the output.
  unfoldable pub conclude_node :
      JobSpec → Text → json.Value → Progress → World → Tables → NodeRound × World × Tables
  conclude_node j name v pr w t =
      elim (route_error name (valid_labels name j.exclusive_to) (get_str v (codes "route"))) [
        | some message ↦ (stop (bail s p message), w, t)
        | none ↦ (next (conclude_routed name v pr), w, write_completed s name v (now_marker w) t)
      ]

  abbrev pub own_envelope : Text → Text → Option (Envelope s) → Envelope s
  own_envelope name reason none = bail s p (about s p name reason)
  own_envelope name reason (some e) = e

  -- What the ladder's result makes of the node.
  unfoldable pub conclude_ladder :
      JobSpec
      → Text
      → json.Value
      → Progress
      → Climbed s p × World
      → Tables
      → NodeRound × World × Tables
  conclude_ladder j name input pr (value v, w) t = conclude_node j name v pr w t
  conclude_ladder j name input pr (fatal envelope, w) t = (stop envelope, w, t)
  conclude_ladder j name input pr (ladder_panicked, w) t = (panic, w, t)
  conclude_ladder j name input pr (exhausted reason escalated envelope, w) t = (
    stop (own_envelope name reason envelope),
    w,
    (if escalated then write_escalated s name none reason (some input) (now_marker w) t else t),
  )

  unfoldable pub conclude_fanout :
      Text → Progress → Fanned s p × World × Tables → NodeRound × World × Tables
  conclude_fanout name pr (collected v, w, t) =
      (next (conclude name v pr), w, write_completed s name v (now_marker w) t)
  conclude_fanout name pr (ended envelope, w, t) = (stop envelope, w, t)
  conclude_fanout name pr (fanout_panicked, w, t) = (panic, w, t)

  abbrev pub ladder_of : JobSpec → CheckedNode → CompiledChecks s p → Ladder s p
  ladder_of j node checks = record {
    default_backend = j.backend;
    alternates = j.alternates;
    checks = checks;
    expected = node.signature.output;
    on_fail = node.on_fail;
    repeat_until = node.repeat_until;
    max_iterations = node.max_iterations;
  }

  abbrev pub campaign_of : JobSpec → CheckedNode → CompiledChecks s p → Campaign s p
  campaign_of j node checks = record {
    backend = j.backend;
    alternates = j.alternates;
    checks = checks;
    node = node;
    job_dir = j.job_dir;
  }

  abbrev pub Work : Type 0
  Work = List (CheckedNode × CompiledChecks s p)

  -- The rest of the loop behind a round.
  abbrev pub then_nodes :
      NodeRound × World × Tables
      → (Progress → World → Tables → NodeRound × World × Tables)
      → NodeRound × World × Tables
  then_nodes (next pr, w, t) rest = rest pr w t
  then_nodes (stop envelope, w, t) rest = (stop envelope, w, t)
  then_nodes (panic, w, t) rest = (panic, w, t)

  module _ (run_stage : RunStage s p) where
    -- The node under `over`, or not.
    unfoldable pub execute_over :
        Option Text
        → JobSpec
        → CheckedNode
        → CompiledChecks s p
        → Progress
        → World
        → Tables
        → NodeRound × World × Tables
    execute_over (some path) j node checks pr w t =
        conclude_fanout node.name pr
          (run_fanout_node s p run_stage (campaign_of j node checks) path w t)
    execute_over none j node checks pr w t =
        let input = input_of j node.input pr.outputs in
        conclude_ladder j node.name input pr
          (run s p run_stage (ladder_of j node checks) node.module_bytes node.script input w) t

    -- A node with no recorded state that no branch skips.
    unfoldable pub execute :
        JobSpec
        → CheckedNode
        → CompiledChecks s p
        → Progress
        → World
        → Tables
        → NodeRound × World × Tables
    unfolding execute_over
    execute j node checks pr w t = execute_over node.over j node checks pr w t

    -- A node with no recorded state.
    unfoldable pub run_fresh :
        JobSpec
        → CheckedNode
        → CompiledChecks s p
        → Progress
        → World
        → Tables
        → NodeRound × World × Tables
    run_fresh j node checks pr w t =
        if on_other_route node.name j.exclusive_to pr.route_taken
          || needs_skipped node.input pr.skipped
        then (next (skip_node node.name pr), w, write_skipped node.name (now_marker w) t)
        else execute j node checks pr w t

    -- One round of the node loop.
    unfoldable pub run_node :
        JobSpec
        → CheckedNode
        → CompiledChecks s p
        → Progress
        → World
        → Tables
        → NodeRound × World × Tables
    run_node j node checks pr w t =
        if is_skipped node.name t
        then (next (skip_node node.name pr), w, t)
        else elim (get_completed s node.name t) [
          | read_panicked ↦ (panic, w, t)
          | got (some cached) ↦ (next (conclude_routed node.name cached pr), w, t)
          | got none ↦ run_fresh j node checks pr w t
        ]

    unfoldable pub run_nodes :
        JobSpec → Work → Progress → World → Tables → NodeRound × World × Tables
    run_nodes j [] pr w t = (next pr, w, t)
    run_nodes j ((node, checks) ∷ rest) pr w t =
        then_nodes (run_node j node checks pr w t) (run_nodes j rest)
