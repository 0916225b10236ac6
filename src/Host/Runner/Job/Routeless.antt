-- ===== src/Host/Runner/Job/Routeless.antt =====
-- A fan-out node takes no route: crates/cuttlefish-host/src/runner.rs.
use cuttlefish_vm.Base.{
  length, Text, codes, text_eq, ℕ, zero, suc, ◌≡◌, refl, none, List, [], ◌∷◌, ◌++◌, arith,
}
use cuttlefish_vm.Host.Serde.{SerdeJson}
use cuttlefish_vm.Host.Platform.{Platform, Tried, ok, err}
use cuttlefish_vm.Host.Ledger.{Tables, check_or_record_manifest}
use cuttlefish_vm.Host.Runner.Ladder.{RunStage}
use cuttlefish_vm.Host.Runner.Fanout.{
  Fanned, collected, ended, panicked as fanout_panicked, Counted, counted, materialize,
}
use cuttlefish_vm.Host.Runner.Fanout.Items.{
  Campaign, conclude_node as conclude_fanned, run_fanout_node, conclude_loop, run_manifest,
  with_manifest, run_items,
}
use cuttlefish_vm.Host.Hex.{encode}

module _ (s : SerdeJson) (p : Platform s) where
  open p use {World}

  -- The record that a fan-out node gives has no route.
  abbrev pub IsRouteless : Fanned s p → Type 0
  IsRouteless (collected v) = s.get_str v (codes "route") ≡ none
  IsRouteless (ended e) = Unit
  IsRouteless fanout_panicked = Unit

  materialize-IsRouteless :
      (dir name : Text) (good bad : ℕ) (w : World) (t : Tables)
      → IsRouteless (materialize s p dir name good bad w t).0
  unfolding materialize
  materialize-IsRouteless dir name good bad w t =
      let results : Text =
        p.join_path (p.join_path dir (codes "results")) (name ++ codes ".results.jsonl") in
      let failures : Text =
        p.join_path (p.join_path dir (codes "results")) (name ++ codes ".failures.jsonl") in
      ground (
        arith,
        s.get_str-object
            ((codes "results_path", s.string results)
              ∷ (codes "failures_path", s.string failures)
              ∷ (codes "succeeded", s.number good)
              ∷ (codes "failed", s.number bad)
              ∷ [])
            (codes "route") (unfold text_eq in refl),
      )

  conclude_fanned-IsRouteless :
      (c : Campaign s p) (good bad : ℕ) (w : World) (t : Tables)
      → IsRouteless (conclude_fanned s p c good bad w t).0
  unfolding conclude_fanned
  conclude_fanned-IsRouteless c zero bad w t = ground arith
  conclude_fanned-IsRouteless c (suc k) bad w t =
      materialize-IsRouteless c.job_dir c.node.name (suc k) bad w t

  conclude_loop-IsRouteless :
      (c : Campaign s p) (r : Counted s p × World × Tables) → IsRouteless (conclude_loop s p c r).0
  unfolding conclude_loop
  conclude_loop-IsRouteless c (counted good bad, w, t) = conclude_fanned-IsRouteless c good bad w t
  conclude_loop-IsRouteless c (ended e, w, t) = tt
  conclude_loop-IsRouteless c (fanout_panicked, w, t) = tt

  module _ (run_stage : RunStage s p) where
    run_manifest-IsRouteless :
        (c : Campaign s p) (path : Text) (bytes : List ℕ) (items : List s.json.Value) (w : World)
        (t : Tables)
        → IsRouteless (run_manifest s p run_stage c path bytes items w t).0
    unfolding run_manifest
    run_manifest-IsRouteless c path bytes items w t =
        let t1 : Tables =
          (check_or_record_manifest c.node.name (encode (p.sha256 bytes)) (length items) t).1 in
        ground (arith, conclude_loop-IsRouteless c (run_items s p run_stage c 0 items 0 0 w t1))

    with_manifest-IsRouteless :
        (c : Campaign s p) (path : Text) (m : Tried (List ℕ × List s.json.Value)) (w : World)
        (t : Tables)
        → IsRouteless (with_manifest s p run_stage c path m w t).0
    unfolding with_manifest
    with_manifest-IsRouteless c path (err e) w t = tt
    with_manifest-IsRouteless c path (ok (bytes, items)) w t =
        run_manifest-IsRouteless c path bytes items w t

    pub run_fanout_node-IsRouteless :
        (c : Campaign s p) (path : Text) (w : World) (t : Tables)
        → IsRouteless (run_fanout_node s p run_stage c path w t).0
    unfolding run_fanout_node
    run_fanout_node-IsRouteless c path w t = with_manifest-IsRouteless c path _ w t
