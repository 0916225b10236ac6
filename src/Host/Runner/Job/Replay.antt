-- ===== src/Host/Runner/Job/Replay.antt =====
-- What the ledger's row of a node makes of a run that meets the node again.
use cuttlefish_vm.Base.{
  if◌then◌else◌, Bool-cases, Option-cases, Text, codes, text_eq, text_eq_refl, lookup_entry,
  lookup_entry-insert_entry, ◌≡◌, refl, sym, ◌∙◌, subst, inl, inr, Bool, false, ◌||◌, Option, none,
  some, arith,
}
use cuttlefish_vm.Host.Serde.{SerdeJson}
use cuttlefish_vm.Host.Platform.{Platform}
use cuttlefish_vm.Host.Accept.{CompiledChecks}
use cuttlefish_vm.Host.Ledger.{
  Checkpoint, Tables, Fetched, got, panicked as read_panicked, find_row, concluded, upsert,
  completed_json, decode, write_skipped, write_completed, get_completed, is_skipped,
}
use cuttlefish_vm.Host.Ledger.Rows.{find_row-upsert}
use cuttlefish_vm.Host.Runner.{CheckedNode}
use cuttlefish_vm.Host.Runner.Ladder.{
  RunStage, Climbed, value, exhausted, fatal, panicked as ladder_panicked,
}
use cuttlefish_vm.Host.Runner.Fanout.{Fanned, collected, ended, panicked as fanout_panicked}
use cuttlefish_vm.Host.Runner.Job.{
  JobSpec, Progress, NodeRound, next, stop, panic, skip_node, conclude, conclude_routed,
  conclude_node, conclude_ladder, conclude_fanout, execute, execute_over, campaign_of, run_node,
  on_other_route, needs_skipped, run_fresh, route_error, valid_labels,
}
use cuttlefish_vm.Host.Runner.Job.Frame.{node_row}
use cuttlefish_vm.Host.Runner.Job.Routeless.{IsRouteless, run_fanout_node-IsRouteless}

abbrev pub is_skip_row : Option Checkpoint → Bool
is_skip_row none = false
is_skip_row (some row) = text_eq row.status (codes "skipped")

own_row :
    (name status : Text) (output : Option Text) (now : Text) (t : Tables)
    → find_row name none (upsert (concluded name none status output none now none) t.checkpoints)
      ≡ some (concluded name none status output none now none)
own_row name status output now t =
    find_row-upsert name none (concluded name none status output none now none) t.checkpoints
    ∙ rw (text_eq_refl name) refl

module _ (s : SerdeJson) (p : Platform s) where
  open p use {World}

  abbrev pub replay_output :
      Text → Progress s p → Fetched (Option s.json.Value) → Option (NodeRound s p)
  replay_output name pr read_panicked = some panic
  replay_output name pr (got none) = none
  replay_output name pr (got (some v)) = some (next (conclude_routed s p name v pr))

  -- The round that a recorded node comes to, and nothing where the row concludes nothing.
  abbrev pub replay : Text → Progress s p → Option Checkpoint → Option (NodeRound s p)
  replay name pr row =
      if is_skip_row row
      then some (next (skip_node s p name pr))
      else replay_output name pr (decode s (completed_json row))

  -- Such a round runs nothing and writes nothing.
  pub run_node-replay :
      (run_stage : RunStage s p) (j : JobSpec s p) (node : CheckedNode)
      (checks : CompiledChecks s p) (pr : Progress s p) (w : World) (t : Tables)
      (round : NodeRound s p)
      → replay node.name pr (node_row node.name t) ≡ some round
      → run_node s p run_stage j node checks pr w t ≡ (round, w, t)
  unfolding run_node is_skipped get_completed
  run_node-replay run_stage j node checks pr w t round h = ground arith

  -- A value that is the same when its text is read again.
  abbrev pub ReadsBack : s.json.Value → Type 0
  ReadsBack v = s.from_str (s.to_string v) ≡ some v

  -- What a round that goes on has recorded: if its output reads back, its row is replayed to the
  -- same progress.
  abbrev pub IsRecorded : Text → Progress s p → NodeRound s p × World × Tables → Type 0
  IsRecorded name pr (next after, w, t) =
      ((v : s.json.Value) → lookup_entry name after.outputs ≡ some v → ReadsBack v)
      → replay name pr (node_row name t) ≡ some (next after)
  IsRecorded name pr (stop e, w, t) = Unit
  IsRecorded name pr (panic, w, t) = Unit

  own_output :
      (name : Text) (pr : Progress s p) (v : s.json.Value)
      → lookup_entry name (conclude_routed s p name v pr).outputs ≡ some v
  unfolding conclude_routed conclude
  own_output name pr v =
      lookup_entry-insert_entry name name v pr.outputs ∙ rw (text_eq_refl name) refl

  completed-IsRecorded :
      (name : Text) (pr : Progress s p) (v : s.json.Value) (now : Text) (t : Tables)
      → ReadsBack v
      → replay name pr (node_row name (write_completed s name v now t))
        ≡ some (next (conclude_routed s p name v pr))
  unfolding write_completed
  completed-IsRecorded name pr v now t back =
      rw (own_row name (codes "completed") (some (s.to_string v)) now t)
        (unfold text_eq in unfold decode in rw back refl)

  skipped-IsRecorded :
      (name : Text) (pr : Progress s p) (now : Text) (t : Tables)
      → replay name pr (node_row name (write_skipped name now t))
        ≡ some (next (skip_node s p name pr))
  unfolding write_skipped
  skipped-IsRecorded name pr now t =
      rw (own_row name (codes "skipped") none now t) (unfold text_eq in refl)

  conclude_node-IsRecorded :
      (j : JobSpec s p) (name : Text) (v : s.json.Value) (pr : Progress s p) (w : World)
      (t : Tables)
      → IsRecorded name pr (conclude_node s p j name v pr w t)
  unfolding conclude_node
  conclude_node-IsRecorded j name v pr w t =
      elim (Option-cases
        (route_error s p name (valid_labels name j.exclusive_to) (s.get_str v (codes "route")))) [
          | inl e ↦
              rw (e, conclude_node)
                (λ back.
                  completed-IsRecorded name pr v (p.now_marker w) t (back v (own_output name pr v)))
          | inr (message, e) ↦ rw (e, conclude_node) tt
        ]

  conclude_ladder-IsRecorded :
      (j : JobSpec s p) (name : Text) (input : s.json.Value) (pr : Progress s p)
      (c : Climbed s p × World) (t : Tables)
      → IsRecorded name pr (conclude_ladder s p j name input pr c t)
  unfolding conclude_ladder
  conclude_ladder-IsRecorded j name input pr (value v, w) t =
      conclude_node-IsRecorded j name v pr w t
  conclude_ladder-IsRecorded j name input pr (fatal e, w) t = tt
  conclude_ladder-IsRecorded j name input pr (ladder_panicked, w) t = tt
  conclude_ladder-IsRecorded j name input pr (exhausted r escalated e, w) t = tt

  fanout_output :
      (name : Text) (pr : Progress s p) (v : s.json.Value)
      → lookup_entry name (conclude s p name v pr).outputs ≡ some v
  unfolding conclude
  fanout_output name pr v =
      lookup_entry-insert_entry name name v pr.outputs ∙ rw (text_eq_refl name) refl

  replayed-IsRecorded :
      (name : Text) (pr : Progress s p) (r : NodeRound s p) (w : World) (t : Tables)
      → replay name pr (node_row name t) ≡ some r
      → IsRecorded name pr (r, w, t)
  replayed-IsRecorded name pr (next after) w t e = λ back. e
  replayed-IsRecorded name pr (stop envelope) w t e = tt
  replayed-IsRecorded name pr panic w t e = tt

  conclude_fanout-IsRecorded :
      (name : Text) (pr : Progress s p) (f : Fanned s p × World × Tables)
      → IsRouteless s p f.0
      → IsRecorded name pr (conclude_fanout s p name pr f)
  unfolding conclude_fanout conclude_routed
  conclude_fanout-IsRecorded name pr (collected v, w, t) h = λ back.
      completed-IsRecorded name pr v (p.now_marker w) t (back v (fanout_output name pr v))
      ∙ rw h refl
  conclude_fanout-IsRecorded name pr (ended e, w, t) h = tt
  conclude_fanout-IsRecorded name pr (fanout_panicked, w, t) h = tt

  module _ (run_stage : RunStage s p) where
    execute_over-IsRecorded :
        (over : Option Text) (j : JobSpec s p) (node : CheckedNode) (checks : CompiledChecks s p)
        (pr : Progress s p) (w : World) (t : Tables)
        → IsRecorded node.name pr (execute_over s p run_stage over j node checks pr w t)
    unfolding execute_over
    execute_over-IsRecorded none j node checks pr w t =
        conclude_ladder-IsRecorded j node.name _ pr _ t
    execute_over-IsRecorded (some path) j node checks pr w t =
        conclude_fanout-IsRecorded node.name pr _
          (run_fanout_node-IsRouteless s p run_stage (campaign_of s p j node checks) path w t)

    run_fresh-IsRecorded :
        (j : JobSpec s p) (node : CheckedNode) (checks : CompiledChecks s p) (pr : Progress s p)
        (w : World) (t : Tables)
        → IsRecorded node.name pr (run_fresh s p run_stage j node checks pr w t)
    unfolding run_fresh execute
    run_fresh-IsRecorded j node checks pr w t =
        elim (Bool-cases (
          on_other_route node.name j.exclusive_to pr.route_taken
          || needs_skipped node.input pr.skipped)) [
            | inl skipped ↦ rw skipped (λ back. skipped-IsRecorded node.name pr (p.now_marker w) t)
            | inr runs ↦ rw runs (execute_over-IsRecorded node.over j node checks pr w t)
          ]

    pub run_node-fresh :
        (j : JobSpec s p) (node : CheckedNode) (checks : CompiledChecks s p) (pr : Progress s p)
        (w : World) (t : Tables)
        → replay node.name pr (node_row node.name t) ≡ none
        → run_node s p run_stage j node checks pr w t ≡ run_fresh s p run_stage j node checks pr w t
    unfolding run_node is_skipped get_completed
    run_node-fresh j node checks pr w t h = ground arith

    pub run_node-IsRecorded :
        (j : JobSpec s p) (node : CheckedNode) (checks : CompiledChecks s p) (pr : Progress s p)
        (w : World) (t : Tables)
        → IsRecorded node.name pr (run_node s p run_stage j node checks pr w t)
    run_node-IsRecorded j node checks pr w t =
        elim (Option-cases (replay node.name pr (node_row node.name t))) [
          | inl e ↦
              subst (λ r. IsRecorded node.name pr r) (sym (run_node-fresh j node checks pr w t e))
                (run_fresh-IsRecorded j node checks pr w t)
          | inr (round, e) ↦
              subst (λ r. IsRecorded node.name pr r)
                (sym (run_node-replay run_stage j node checks pr w t round e))
                (replayed-IsRecorded node.name pr round w t e)
        ]
