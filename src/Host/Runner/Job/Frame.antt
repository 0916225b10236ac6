-- ===== src/Host/Runner/Job/Frame.antt =====
-- What a node leaves of the other nodes' rows in the ledger.
use cuttlefish_vm.Base.{
  Bool-cases, length, Text, text_eq, ℕ, zero, suc, ◌+◌, ◌≡◌, refl, ap, ◌∙◌, inl, inr, true, false,
  Option, none, some, List, [], ◌∷◌, arith,
}
use cuttlefish_vm.Host.Serde.{SerdeJson}
use cuttlefish_vm.Host.Platform.{Platform, Tried, ok, err}
use cuttlefish_vm.Host.Accept.{CompiledChecks}
use cuttlefish_vm.Host.Ledger.{
  Checkpoint, Tables, find_row, upsert, write_skipped, write_completed, write_escalated,
  write_item_completed, write_item_failed, item_concluded, check_or_record_manifest,
}
use cuttlefish_vm.Host.Ledger.Rows.{find_row-upsert}
use cuttlefish_vm.Host.Runner.{CheckedNode}
use cuttlefish_vm.Host.Runner.Ladder.{
  RunStage, Climbed, value, exhausted, fatal, panicked as ladder_panicked, run,
}
use cuttlefish_vm.Host.Runner.Fanout.{
  Fanned, collected, ended, panicked as fanout_panicked, counted, Counted,
}
use cuttlefish_vm.Host.Runner.Fanout.Items.{
  Campaign, conclude_item, run_item, run_items, conclude_node as conclude_fanned, run_fanout_node,
  item_ladder, conclude_loop, run_manifest, with_manifest,
}
use cuttlefish_vm.Host.Runner.Job.{
  JobSpec, Progress, conclude_node, conclude_ladder, conclude_fanout, execute, run_node,
  campaign_of, execute_over, run_fresh,
}
use cuttlefish_vm.Abi.Ty.{matches_value}
use cuttlefish_vm.Host.Hex.{encode}

-- The row of a whole node, as the reads find it.
abbrev pub node_row : Text → Tables → Option Checkpoint
node_row name t = find_row name none t.checkpoints

-- A row of an item is no whole node's.
item_row_keeps :
    (name : Text) (r : Checkpoint) (i : ℕ) (rows : List Checkpoint)
    → r.item_index ≡ some i
    → find_row name none (upsert r rows) ≡ find_row name none rows
item_row_keeps name r i rows e = ground (arith, find_row-upsert name none r rows)

-- A row of a whole node is no other node's.
node_row_keeps :
    (name : Text) (r : Checkpoint) (rows : List Checkpoint)
    → text_eq r.node_name name ≡ false
    → find_row name none (upsert r rows) ≡ find_row name none rows
node_row_keeps name r rows e = find_row-upsert name none r rows ∙ rw e refl

module _ (s : SerdeJson) (p : Platform s) where
  open p use {World}

  conclude_item_keeps :
      (name node : Text) (i : ℕ) (input : s.json.Value) (c : Climbed s p × World) (t : Tables)
      → node_row name (conclude_item s p node i input c t).2 ≡ node_row name t
  unfolding conclude_item write_item_completed write_item_failed write_escalated
  conclude_item_keeps name node i input (value v, w) t = item_row_keeps name _ i t.checkpoints refl
  conclude_item_keeps name node i input (fatal e, w) t = refl
  conclude_item_keeps name node i input (ladder_panicked, w) t = refl
  conclude_item_keeps name node i input (exhausted r true e, w) t =
      item_row_keeps name _ i t.checkpoints refl
  conclude_item_keeps name node i input (exhausted r false e, w) t =
      item_row_keeps name _ i t.checkpoints refl

  manifest_keeps :
      (name node digest : Text) (n : ℕ) (t : Tables)
      → node_row name (check_or_record_manifest node digest n t).1 ≡ node_row name t
  unfolding check_or_record_manifest
  manifest_keeps name node digest n t = ground arith

  conclude_fanned_keeps :
      (c : Campaign s p) (good bad : ℕ) (w : World) (t : Tables)
      → (conclude_fanned s p c good bad w t).2 ≡ t
  unfolding conclude_fanned
  conclude_fanned_keeps c zero bad w t = ground arith
  conclude_fanned_keeps c (suc k) bad w t = refl

  module _ (run_stage : RunStage s p) where
    run_item_keeps :
        (name : Text) (c : Campaign s p) (i : ℕ) (input : s.json.Value) (w : World) (t : Tables)
        → node_row name (run_item s p run_stage c i input w t).2 ≡ node_row name t
    unfolding run_item write_item_failed
    run_item_keeps name c i input w t = elim (Bool-cases (p.is_cancelled w)) [
      | inl stopped ↦ rw stopped refl
      | inr going ↦ rw going (elim (Bool-cases (item_concluded c.node.name i t)) [
        | inl old ↦ rw old refl
        | inr fresh ↦
            rw fresh (elim (Bool-cases (matches_value s.json c.node.signature.input input)) [
              | inl fits ↦ rw fits (
                  conclude_item_keeps name c.node.name i input
                    (run s p run_stage (item_ladder s p c) c.node.module_bytes c.node.script input
                      w)
                    t)
              | inr unfit ↦ rw unfit (item_row_keeps name _ i t.checkpoints refl)
            ])
      ])
    ]

    run_items_keeps :
        (name : Text) (c : Campaign s p) (i : ℕ) (inputs : List s.json.Value) (good bad : ℕ)
        (w : World) (t : Tables)
        → node_row name (run_items s p run_stage c i inputs good bad w t).2 ≡ node_row name t
    unfolding run_items
    run_items_keeps name c i [] good bad w t = refl
    run_items_keeps name c i (input ∷ rest) good bad w t = ground (
      arith,
      run_item_keeps name c i input w t,
      run_items_keeps name c (i + 1) rest (good + 1) bad (run_item s p run_stage c i input w t).1
          (run_item s p run_stage c i input w t).2,
      run_items_keeps name c (i + 1) rest good (bad + 1) (run_item s p run_stage c i input w t).1
          (run_item s p run_stage c i input w t).2,
    )

    conclude_loop_keeps :
        (name : Text) (c : Campaign s p) (r : Counted s p × World × Tables)
        → node_row name (conclude_loop s p c r).2 ≡ node_row name r.2
    unfolding conclude_loop
    conclude_loop_keeps name c (counted good bad, w, t) =
        ap (node_row name) (conclude_fanned_keeps c good bad w t)
    conclude_loop_keeps name c (ended e, w, t) = refl
    conclude_loop_keeps name c (fanout_panicked, w, t) = refl

    run_manifest_keeps :
        (name : Text) (c : Campaign s p) (path : Text) (bytes : List ℕ) (items : List s.json.Value)
        (w : World) (t : Tables)
        → node_row name (run_manifest s p run_stage c path bytes items w t).2 ≡ node_row name t
    unfolding run_manifest
    run_manifest_keeps name c path bytes items w t =
        let digest : Text = encode (p.sha256 bytes) in
        let t1 : Tables = (check_or_record_manifest c.node.name digest (length items) t).1 in
        ground (
          arith,
          manifest_keeps name c.node.name digest (length items) t,
          conclude_loop_keeps name c (run_items s p run_stage c 0 items 0 0 w t1),
          run_items_keeps name c 0 items 0 0 w t1,
        )

    with_manifest_keeps :
        (name : Text) (c : Campaign s p) (path : Text) (m : Tried (List ℕ × List s.json.Value))
        (w : World) (t : Tables)
        → node_row name (with_manifest s p run_stage c path m w t).2 ≡ node_row name t
    unfolding with_manifest
    with_manifest_keeps name c path (err e) w t = refl
    with_manifest_keeps name c path (ok (bytes, items)) w t =
        run_manifest_keeps name c path bytes items w t

    pub run_fanout_node_keeps :
        (name : Text) (c : Campaign s p) (path : Text) (w : World) (t : Tables)
        → node_row name (run_fanout_node s p run_stage c path w t).2 ≡ node_row name t
    unfolding run_fanout_node
    run_fanout_node_keeps name c path w t = with_manifest_keeps name c path _ w t

  conclude_node_keeps :
      (name node : Text) (j : JobSpec s p) (v : s.json.Value) (pr : Progress s p) (w : World)
      (t : Tables)
      → text_eq node name ≡ false
      → node_row name (conclude_node s p j node v pr w t).2 ≡ node_row name t
  unfolding conclude_node write_completed
  conclude_node_keeps name node j v pr w t other =
      let kept : node_row name (write_completed s node v (p.now_marker w) t) ≡ node_row name t =
        node_row_keeps name _ t.checkpoints other in
      ground arith

  conclude_ladder_keeps :
      (name node : Text) (j : JobSpec s p) (input : s.json.Value) (pr : Progress s p)
      (c : Climbed s p × World) (t : Tables)
      → text_eq node name ≡ false
      → node_row name (conclude_ladder s p j node input pr c t).2 ≡ node_row name t
  unfolding conclude_ladder write_escalated
  conclude_ladder_keeps name node j input pr (value v, w) t other =
      conclude_node_keeps name node j v pr w t other
  conclude_ladder_keeps name node j input pr (fatal e, w) t other = refl
  conclude_ladder_keeps name node j input pr (ladder_panicked, w) t other = refl
  conclude_ladder_keeps name node j input pr (exhausted r true e, w) t other =
      node_row_keeps name _ t.checkpoints other
  conclude_ladder_keeps name node j input pr (exhausted r false e, w) t other = refl

  conclude_fanout_keeps :
      (name node : Text) (pr : Progress s p) (f : Fanned s p × World × Tables)
      → text_eq node name ≡ false
      → node_row name (conclude_fanout s p node pr f).2 ≡ node_row name f.2
  unfolding conclude_fanout write_completed
  conclude_fanout_keeps name node pr (collected v, w, t) other =
      node_row_keeps name _ t.checkpoints other
  conclude_fanout_keeps name node pr (ended e, w, t) other = refl
  conclude_fanout_keeps name node pr (fanout_panicked, w, t) other = refl

  module _ (run_stage : RunStage s p) where
    execute_over_keeps :
        (name : Text) (over : Option Text) (j : JobSpec s p) (node : CheckedNode)
        (checks : CompiledChecks s p) (pr : Progress s p) (w : World) (t : Tables)
        → text_eq node.name name ≡ false
        → node_row name (execute_over s p run_stage over j node checks pr w t).2 ≡ node_row name t
    unfolding execute_over
    execute_over_keeps name none j node checks pr w t other =
        conclude_ladder_keeps name node.name j _ pr _ t other
    execute_over_keeps name (some path) j node checks pr w t other =
        conclude_fanout_keeps name node.name pr
          (run_fanout_node s p run_stage (campaign_of s p j node checks) path w t) other
        ∙ run_fanout_node_keeps run_stage name (campaign_of s p j node checks) path w t

    execute_keeps :
        (name : Text) (j : JobSpec s p) (node : CheckedNode) (checks : CompiledChecks s p)
        (pr : Progress s p) (w : World) (t : Tables)
        → text_eq node.name name ≡ false
        → node_row name (execute s p run_stage j node checks pr w t).2 ≡ node_row name t
    unfolding execute
    execute_keeps name j node checks pr w t other =
        execute_over_keeps name node.over j node checks pr w t other

    run_fresh_keeps :
        (name : Text) (j : JobSpec s p) (node : CheckedNode) (checks : CompiledChecks s p)
        (pr : Progress s p) (w : World) (t : Tables)
        → text_eq node.name name ≡ false
        → node_row name (run_fresh s p run_stage j node checks pr w t).2 ≡ node_row name t
    unfolding run_fresh
    run_fresh_keeps name j node checks pr w t other =
        let skips : node_row name (write_skipped node.name (p.now_marker w) t) ≡ node_row name t =
          unfold write_skipped in node_row_keeps name _ t.checkpoints other in
        ground (arith, execute_keeps name j node checks pr w t other)

    -- A node leaves the row of every other node as it was.
    pub run_node_keeps :
        (name : Text) (j : JobSpec s p) (node : CheckedNode) (checks : CompiledChecks s p)
        (pr : Progress s p) (w : World) (t : Tables)
        → text_eq node.name name ≡ false
        → node_row name (run_node s p run_stage j node checks pr w t).2 ≡ node_row name t
    unfolding run_node
    run_node_keeps name j node checks pr w t other =
        ground (arith, run_fresh_keeps name j node checks pr w t other)
