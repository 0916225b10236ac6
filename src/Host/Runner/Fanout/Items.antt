-- ===== src/Host/Runner/Fanout/Items.antt =====
-- The item loop of `run_fanout_node`, and the whole of it: crates/cuttlefish-host/src/runner.rs.
use cuttlefish_vm.Base.{
  if◌then◌else◌, length, Text, codes, decimal, ℕ, zero, suc, ◌+◌, not, Option, none, some, List, [],
  ◌∷◌, ◌++◌,
}
use cuttlefish_vm.Abi.Ty.{Ty, matches_value}
use cuttlefish_vm.Abi.Status.{cancelled as job_cancelled}
use cuttlefish_vm.Host.Serde.{SerdeJson}
use cuttlefish_vm.Host.Platform.{Platform, Tried, ok, err}
use cuttlefish_vm.Host.Accept.{Alternates, CompiledChecks}
use cuttlefish_vm.Host.Hex.{encode}
use cuttlefish_vm.Host.Ledger.{
  Tables, Fetched, got, panicked as read_panicked, item_concluded, get_item_completed,
  write_item_completed, write_item_failed, write_escalated, check_or_record_manifest,
}
use cuttlefish_vm.Host.Ledger.Queries.{concluded_items}
use cuttlefish_vm.Host.Runner.{CheckedNode, Envelope}
use cuttlefish_vm.Host.Runner.Ladder.{
  RunStage, Ladder, Climbed, value, exhausted, fatal, panicked as ladder_panicked, run,
}
use cuttlefish_vm.Host.Runner.Fanout.{
  Fanned, ended, panicked, Counted, counted, bail, about, read_manifest, changed_manifest,
  item_message, input_mismatch, error_of_first, materialize,
}

-- `node.item_output.as_ref().unwrap_or(&node.signature.output)`
abbrev pub item_output_of : Option Ty → Ty → Ty
item_output_of none output = output
item_output_of (some t) output = t

module _ (s : SerdeJson) (p : Platform s) where
  open s use {json}
  open p use {World, Backend, now_marker, sha256, is_cancelled}

  -- What every item is run with.
  pub record Campaign : Type 0 where
    pub backend : Backend
    pub alternates : Alternates s p
    pub checks : CompiledChecks s p
    pub node : CheckedNode
    pub job_dir : Text

  abbrev pub item_ladder : Campaign → Ladder s p
  item_ladder c = record {
    default_backend = c.backend;
    alternates = c.alternates;
    checks = c.checks;
    expected = item_output_of c.node.item_output c.node.signature.output;
    on_fail = c.node.on_fail;
    repeat_until = none;
    max_iterations = none;
  }

  -- What one round of the loop does: one more success or failure, or the end of the node.
  pub data ItemRound : Type 0 where
    succeeded failed : ItemRound
    stop : Envelope s → ItemRound
    panic : ItemRound

  -- An item that is concluded already.
  abbrev pub resumed : Fetched (Option json.Value) → ItemRound
  resumed read_panicked = panic
  resumed (got none) = failed
  resumed (got (some v)) = succeeded

  -- What the ladder's result makes of the item, at the world that the ladder leaves.
  unfoldable pub conclude_item :
      Text → ℕ → json.Value → Climbed s p × World → Tables → ItemRound × World × Tables
  conclude_item name i input (value v, w) t =
      (succeeded, w, write_item_completed s name i v (some input) (now_marker w) t)
  conclude_item name i input (fatal envelope, w) t = (stop envelope, w, t)
  conclude_item name i input (ladder_panicked, w) t = (panic, w, t)
  conclude_item name i input (exhausted reason escalated envelope, w) t = (
    failed,
    w,
    (if escalated
        then write_escalated s name (some i) (item_message s p i reason) (some input) (now_marker w)
            t
        else write_item_failed s name i (item_message s p i reason) (some input) (now_marker w) t),
  )

  abbrev pub all_failed : ℕ → Text → Text
  all_failed bad_count reason =
      codes "all "
      ++ (decimal bad_count
          ++ (codes
                " fan-out item(s) failed — there is nothing for a downstream node to reduce over. First failure: "
              ++ reason))

  abbrev pub or_no_error : Option Text → Text
  or_no_error none = codes "no error recorded"
  or_no_error (some e) = e

  -- From `if succeeded == 0` on; that a row is read back here too can panic.
  unfoldable pub conclude_node : Campaign → ℕ → ℕ → World → Tables → Fanned s p × World × Tables
  conclude_node c zero bad_count w t = elim (concluded_items s c.node.name t) [
    | read_panicked ↦ (panicked, w, t)
    | got items ↦ (
      ended (
          bail s p (
            about s p c.node.name
              (all_failed bad_count (or_no_error (error_of_first s p (got items)))))),
      w,
      t,
    )
  ]
  conclude_node c (suc k) bad_count w t =
      let (fanned, w') = materialize s p c.job_dir c.node.name (suc k) bad_count w t in
      (fanned, w', t)

  -- What the loop's end makes of the node.
  unfoldable pub conclude_loop :
      Campaign → Counted s p × World × Tables → Fanned s p × World × Tables
  conclude_loop c (counted ok_count bad_count, w, t) = conclude_node c ok_count bad_count w t
  conclude_loop c (ended envelope, w, t) = (ended envelope, w, t)
  conclude_loop c (panicked, w, t) = (panicked, w, t)

  -- The rest of the loop behind a round, with the counters that the round leaves.
  abbrev pub then_items :
      ItemRound × World × Tables
      → ℕ
      → ℕ
      → (ℕ → ℕ → World → Tables → Counted s p × World × Tables)
      → Counted s p × World × Tables
  then_items (succeeded, w, t) ok_count bad_count rest = rest (ok_count + 1) bad_count w t
  then_items (failed, w, t) ok_count bad_count rest = rest ok_count (bad_count + 1) w t
  then_items (stop envelope, w, t) ok_count bad_count rest = (ended envelope, w, t)
  then_items (panic, w, t) ok_count bad_count rest = (panicked, w, t)

  module _ (run_stage : RunStage s p) where
    unfoldable pub run_item :
        Campaign → ℕ → json.Value → World → Tables → ItemRound × World × Tables
    run_item c i input w t =
        if is_cancelled w
        then (stop (record { status = job_cancelled; result = none; error = none }), w, t)
        else if item_concluded c.node.name i t
        then (resumed (get_item_completed s c.node.name i t), w, t)
        else if not (matches_value json c.node.signature.input input)
        then (
          failed,
          w,
          write_item_failed s c.node.name i
              (item_message s p i (input_mismatch s p c.node.signature.input)) (some input)
              (now_marker w) t,
        )
        else conclude_item c.node.name i input
            (run s p run_stage (item_ladder c) c.node.module_bytes c.node.script input w) t

    -- The loop from item `i` on, with its two counters.
    unfoldable pub run_items :
        Campaign → ℕ → List json.Value → ℕ → ℕ → World → Tables → Counted s p × World × Tables
    run_items c i [] ok_count bad_count w t = (counted ok_count bad_count, w, t)
    run_items c i (input ∷ rest) ok_count bad_count w t =
        then_items (run_item c i input w t) ok_count bad_count (run_items c (i + 1) rest)

    -- From the digest on.
    unfoldable pub run_manifest :
        Campaign → Text → List ℕ → List json.Value → World → Tables → Fanned s p × World × Tables
    run_manifest c path bytes items w t =
        let digest = encode (sha256 bytes) in
        let (changed, t1) = check_or_record_manifest c.node.name digest (length items) t in
        elim changed [
          | some previous ↦ (
            ended (bail s p (about s p c.node.name (changed_manifest s p path previous digest))),
            w,
            t1,
          )
          | none ↦ conclude_loop c (run_items c 0 items 0 0 w t1)
        ]

    unfoldable pub with_manifest :
        Campaign
        → Text
        → Tried (List ℕ × List json.Value)
        → World
        → Tables
        → Fanned s p × World × Tables
    with_manifest c path (err e) w t = (ended (bail s p (about s p c.node.name e)), w, t)
    with_manifest c path (ok (bytes, items)) w t = run_manifest c path bytes items w t

    unfoldable pub run_fanout_node : Campaign → Text → World → Tables → Fanned s p × World × Tables
    run_fanout_node c path w t = with_manifest c path (read_manifest s p path w) w t
