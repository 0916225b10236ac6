-- ===== src/Host/Runner/Job/Untouched.antt =====
-- What a node leaves of the outputs that a run has: crates/cuttlefish-host/src/runner.rs.
use cuttlefish_vm.Base.{
  Bool-cases, Option-cases, Text, codes, text_eq, lookup_entry, lookup_entry-insert_entry, ◌≡◌,
  refl, sym, ◌∙◌, subst, inl, inr, false, ◌||◌, Option, none, some,
}
use cuttlefish_vm.Host.Runner.Job.Replay.{
  is_skip_row, replay, replay_output, run_node-fresh, run_node-replay,
}
use cuttlefish_vm.Host.Serde.{SerdeJson}
use cuttlefish_vm.Host.Platform.{Platform}
use cuttlefish_vm.Host.Accept.{CompiledChecks}
use cuttlefish_vm.Host.Ledger.{
  Checkpoint, Tables, Fetched, got, panicked as read_panicked, completed_json, decode,
}
use cuttlefish_vm.Host.Runner.{CheckedNode}
use cuttlefish_vm.Host.Runner.Ladder.{
  RunStage, Climbed, value, exhausted, fatal, panicked as ladder_panicked,
}
use cuttlefish_vm.Host.Runner.Fanout.{Fanned, collected, ended, panicked as fanout_panicked}
use cuttlefish_vm.Host.Runner.Job.{
  JobSpec, Progress, NodeRound, next, stop, panic, skip_node, conclude, conclude_routed,
  conclude_node, conclude_ladder, conclude_fanout, execute, execute_over, run_node, on_other_route,
  needs_skipped, run_fresh, route_error, valid_labels,
}
use cuttlefish_vm.Host.Runner.Job.Frame.{node_row}

module _ (s : SerdeJson) (p : Platform s) where
  open p use {World}

  module _ (run_stage : RunStage s p) where
    -- A round leaves the outputs of the other nodes.
    abbrev pub IsKept : Text → Progress s p → NodeRound s p × World × Tables → Type 0
    IsKept name pr (next after, w, t) =
        lookup_entry name after.outputs ≡ lookup_entry name pr.outputs
    IsKept name pr (stop e, w, t) = Unit
    IsKept name pr (panic, w, t) = Unit

    conclude_keeps_output :
        (name node : Text) (v : s.json.Value) (pr : Progress s p)
        → text_eq node name ≡ false
        → lookup_entry name (conclude s p node v pr).outputs ≡ lookup_entry name pr.outputs
    unfolding conclude
    conclude_keeps_output name node v pr other =
        lookup_entry-insert_entry name node v pr.outputs ∙ rw other refl

    routed_keeps_output :
        (name node : Text) (v : s.json.Value) (pr : Progress s p)
        → text_eq node name ≡ false
        → lookup_entry name (conclude_routed s p node v pr).outputs ≡ lookup_entry name pr.outputs
    unfolding conclude_routed conclude
    routed_keeps_output name node v pr other =
        lookup_entry-insert_entry name node v pr.outputs ∙ rw other refl

    ladder_keeps_output :
        (name node : Text) (j : JobSpec s p) (input : s.json.Value) (pr : Progress s p)
        (c : Climbed s p × World) (t : Tables)
        → text_eq node name ≡ false
        → IsKept name pr (conclude_ladder s p j node input pr c t)
    unfolding conclude_ladder conclude_node
    ladder_keeps_output name node j input pr (value v, w) t other =
        elim (Option-cases
          (route_error s p node (valid_labels node j.exclusive_to) (s.get_str v (codes "route")))) [
            | inl e ↦ rw (e, conclude_node) (routed_keeps_output name node v pr other)
            | inr (message, e) ↦ rw (e, conclude_node) tt
          ]
    ladder_keeps_output name node j input pr (fatal e, w) t other = tt
    ladder_keeps_output name node j input pr (ladder_panicked, w) t other = tt
    ladder_keeps_output name node j input pr (exhausted r escalated e, w) t other = tt

    fanout_keeps_output :
        (name node : Text) (pr : Progress s p) (f : Fanned s p × World × Tables)
        → text_eq node name ≡ false
        → IsKept name pr (conclude_fanout s p node pr f)
    unfolding conclude_fanout
    fanout_keeps_output name node pr (collected v, w, t) other =
        conclude_keeps_output name node v pr other
    fanout_keeps_output name node pr (ended e, w, t) other = tt
    fanout_keeps_output name node pr (fanout_panicked, w, t) other = tt

    over_keeps_output :
        (name : Text) (over : Option Text) (j : JobSpec s p) (node : CheckedNode)
        (checks : CompiledChecks s p) (pr : Progress s p) (w : World) (t : Tables)
        → text_eq node.name name ≡ false
        → IsKept name pr (execute_over s p run_stage over j node checks pr w t)
    unfolding execute_over
    over_keeps_output name none j node checks pr w t other =
        ladder_keeps_output name node.name j _ pr _ t other
    over_keeps_output name (some path) j node checks pr w t other =
        fanout_keeps_output name node.name pr _ other

    fresh_keeps_output :
        (name : Text) (j : JobSpec s p) (node : CheckedNode) (checks : CompiledChecks s p)
        (pr : Progress s p) (w : World) (t : Tables)
        → text_eq node.name name ≡ false
        → IsKept name pr (run_fresh s p run_stage j node checks pr w t)
    unfolding run_fresh execute skip_node
    fresh_keeps_output name j node checks pr w t other =
        elim (Bool-cases (
          on_other_route node.name j.exclusive_to pr.route_taken
          || needs_skipped node.input pr.skipped)) [
            | inl skipped ↦ rw skipped refl
            | inr runs ↦ rw runs (over_keeps_output name node.over j node checks pr w t other)
          ]

    abbrev AreKept : Text → Progress s p → World → Tables → Option (NodeRound s p) → Type 0
    AreKept name pr w t none = Unit
    AreKept name pr w t (some r) = IsKept name pr (r, w, t)

    read_keeps_output :
        (name node : Text) (pr : Progress s p) (f : Fetched (Option s.json.Value)) (w : World)
        (t : Tables)
        → text_eq node name ≡ false
        → AreKept name pr w t (replay_output s p node pr f)
    read_keeps_output name node pr read_panicked w t other = tt
    read_keeps_output name node pr (got none) w t other = tt
    read_keeps_output name node pr (got (some v)) w t other =
        routed_keeps_output name node v pr other

    replay_keeps_output :
        (name node : Text) (pr : Progress s p) (row : Option Checkpoint) (w : World) (t : Tables)
        → text_eq node name ≡ false
        → AreKept name pr w t (replay s p node pr row)
    unfolding skip_node
    replay_keeps_output name node pr row w t other = elim (Bool-cases (is_skip_row row)) [
      | inl skip ↦ rw skip refl
      | inr kept ↦
          rw kept (read_keeps_output name node pr (decode s (completed_json row)) w t other)
    ]

    pub run_node_keeps_output :
        (name : Text) (j : JobSpec s p) (node : CheckedNode) (checks : CompiledChecks s p)
        (pr : Progress s p) (w : World) (t : Tables)
        → text_eq node.name name ≡ false
        → IsKept name pr (run_node s p run_stage j node checks pr w t)
    run_node_keeps_output name j node checks pr w t other =
        elim (Option-cases (replay s p node.name pr (node_row node.name t))) [
          | inl e ↦
              subst (λ r. IsKept name pr r)
                (sym (run_node-fresh s p run_stage j node checks pr w t e))
                (fresh_keeps_output name j node checks pr w t other)
          | inr (round, e) ↦
              subst (λ r. IsKept name pr r)
                (sym (run_node-replay s p run_stage j node checks pr w t round e))
                (subst (λ r. AreKept name pr w t r) e
                  (replay_keeps_output name node.name pr (node_row node.name t) w t other))
        ]
