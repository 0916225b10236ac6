-- ===== src/Host/Runner/Job/Resume.antt =====
-- A job that is run again on the ledger of an earlier run.
use cuttlefish_vm.Base.{
  All, is_empty, Text, text_eq, text_eq_comm, mem, AreDistinct, lookup_entry, ◌≡◌, refl, sym, ap,
  ◌∙◌, subst, false, Option, none, some, List, [], ◌∷◌, ◌++◌, map, arith,
}
use cuttlefish_vm.Host.Serde.{SerdeJson}
use cuttlefish_vm.Host.Platform.{Platform, ok}
use cuttlefish_vm.Host.Accept.{CompiledChecks}
use cuttlefish_vm.Host.Ledger.{Tables, finish, open_ledger, find_row}
use cuttlefish_vm.Host.Runner.{CheckedNode, Envelope}
use cuttlefish_vm.Host.Runner.Ladder.{RunStage}
use cuttlefish_vm.Host.Runner.Job.{
  JobSpec, Progress, NodeRound, next, stop, panic, Work, no_progress, run_node, run_nodes,
  then_nodes,
}
use cuttlefish_vm.Host.Runner.Job.Block.{compile_all, end_run, finish_run, run_block, run_job}
use cuttlefish_vm.Host.Runner.Job.Frame.{node_row, run_node_keeps}
use cuttlefish_vm.Host.Runner.Job.Replay.{
  replay, run_node-replay, run_node-IsRecorded, IsRecorded, ReadsBack,
}
use cuttlefish_vm.Host.Runner.Job.Untouched.{IsKept, run_node_keeps_output}

module _ (s : SerdeJson) (p : Platform s) where
  open p use {World}

  abbrev pub names : Work s p → List Text
  names work = map (λ e. e.0.name) work

  -- Two ledgers have the same rows for the nodes.
  abbrev pub SameRows : Work s p → Tables → Tables → Type 0
  SameRows work t t' = All (λ e. node_row e.0.name t' ≡ node_row e.0.name t) work

  -- The outputs of a run, written as JSON and read again, are what they were.
  abbrev pub OutputsReadBack : Progress s p → Type 0
  OutputsReadBack pr =
      (name : Text) (v : s.json.Value) → lookup_entry name pr.outputs ≡ some v → ReadsBack s p v

  distinct_left :
      (done rest : Work s p) → AreDistinct (names (done ++ rest)) → AreDistinct (names done)
  distinct_left [] rest h = tt
  distinct_left (e ∷ done) rest h = (not_left e.0.name done rest h.0, distinct_left done rest h.1)
    where
      not_left :
          (x : Text) (xs ys : Work s p)
          → mem x (names (xs ++ ys)) ≡ false
          → mem x (names xs) ≡ false
      not_left x [] ys k = refl
      not_left x (y ∷ xs) ys k = ground (arith, not_left x xs ys)

  then_nodes_keeps :
      (name : Text) (r : NodeRound s p × World × Tables)
      (rest : Progress s p → World → Tables → NodeRound s p × World × Tables)
      → ((pr : Progress s p) (w : World) (t : Tables)
          → node_row name (rest pr w t).2 ≡ node_row name t)
      → node_row name (then_nodes s p r rest).2 ≡ node_row name r.2
  then_nodes_keeps name (next pr, w, t) rest h = h pr w t
  then_nodes_keeps name (stop e, w, t) rest h = refl
  then_nodes_keeps name (panic, w, t) rest h = refl

  -- A loop that goes through went on behind its first round.
  then_nodes-next :
      (r : NodeRound s p × World × Tables)
      (rest : Progress s p → World → Tables → NodeRound s p × World × Tables) (after : Progress s p)
      (w' : World) (t' : Tables)
      → then_nodes s p r rest ≡ (next after, w', t')
      → (pr : Progress s p) × (r ≡ (next pr, r.1, r.2)) × (rest pr r.1 r.2 ≡ (next after, w', t'))
  then_nodes-next (next pr, w, t) rest after w' t' h = (pr, refl, h)
  then_nodes-next (stop e, w, t) rest after w' t' h = cc
  then_nodes-next (panic, w, t) rest after w' t' h = cc

  module _ (run_stage : RunStage s p) where
    run_nodes_keeps :
        (name : Text) (j : JobSpec s p) (work : Work s p) (pr : Progress s p) (w : World)
        (t : Tables)
        → mem name (names work) ≡ false
        → node_row name (run_nodes s p run_stage j work pr w t).2 ≡ node_row name t
    unfolding run_nodes
    run_nodes_keeps name j [] pr w t h = refl
    run_nodes_keeps name j ((node, checks) ∷ rest) pr w t h =
        let other : text_eq node.name name ≡ false = ground (arith, text_eq_comm node.name name) in
        let later : mem name (names rest) ≡ false = ground arith in
        then_nodes_keeps name (run_node s p run_stage j node checks pr w t) _
          (λ pr' w' t'. run_nodes_keeps name j rest pr' w' t' later)
        ∙ run_node_keeps s p run_stage name j node checks pr w t other

    then_nodes_keeps_output :
        (name : Text) (pr0 after : Progress s p) (r : NodeRound s p × World × Tables)
        (rest : Progress s p → World → Tables → NodeRound s p × World × Tables) (w' : World)
        (t' : Tables)
        → IsKept s p run_stage name pr0 r
        → ((pr : Progress s p) (w : World) (t : Tables)
            → rest pr w t ≡ (next after, w', t')
            → lookup_entry name after.outputs ≡ lookup_entry name pr.outputs)
        → then_nodes s p r rest ≡ (next after, w', t')
        → lookup_entry name after.outputs ≡ lookup_entry name pr0.outputs
    then_nodes_keeps_output name pr0 after (next pr, w, t) rest w' t' kept later h =
        later pr w t h ∙ kept
    then_nodes_keeps_output name pr0 after (stop e, w, t) rest w' t' kept later h = absurd (cc)
    then_nodes_keeps_output name pr0 after (panic, w, t) rest w' t' kept later h = absurd (cc)

    -- The output of a node that is not among those that run stays what it was.
    run_nodes_keeps_output :
        (name : Text) (j : JobSpec s p) (work : Work s p) (pr after : Progress s p) (w w' : World)
        (t t' : Tables)
        → mem name (names work) ≡ false
        → run_nodes s p run_stage j work pr w t ≡ (next after, w', t')
        → lookup_entry name after.outputs ≡ lookup_entry name pr.outputs
    unfolding run_nodes
    run_nodes_keeps_output name j [] pr after w w' t t' h ran = let e : pr ≡ after = cc in rw e refl
    run_nodes_keeps_output name j ((node, checks) ∷ rest) pr after w w' t t' h ran =
        let other : text_eq node.name name ≡ false = ground (arith, text_eq_comm node.name name) in
        let later : mem name (names rest) ≡ false = ground arith in
        then_nodes_keeps_output name pr after (run_node s p run_stage j node checks pr w t) _ w' t'
          (run_node_keeps_output s p run_stage name j node checks pr w t other)
          (λ pr1 w1 t1 k. run_nodes_keeps_output name j rest pr1 after w1 w' t1 t' later k) ran

    -- A recorded node is met again.
    replayed :
        (j : JobSpec s p) (node : CheckedNode) (checks : CompiledChecks s p)
        (pr after : Progress s p) (w : World) (t : Tables) (w' : World) (t' : Tables) (w2 : World)
        (t2 : Tables)
        → run_node s p run_stage j node checks pr w t ≡ (next after, w', t')
        → node_row node.name t2 ≡ node_row node.name t'
        → ((v : s.json.Value) → lookup_entry node.name after.outputs ≡ some v → ReadsBack s p v)
        → run_node s p run_stage j node checks pr w2 t2 ≡ (next after, w2, t2)
    replayed j node checks pr after w t w' t' w2 t2 ran same back =
        let recorded : replay s p node.name pr (node_row node.name t') ≡ some (next after) =
          subst (λ r. IsRecorded s p node.name pr r) ran
            (run_node-IsRecorded s p run_stage j node checks pr w t) back in
        run_node-replay s p run_stage j node checks pr w2 t2 (next after) (rw same recorded)

    -- Done nodes are gone through again without running one.
    replay_done :
        (j : JobSpec s p) (done rest : Work s p) (pr after : Progress s p) (w w1 w2 : World)
        (t t1 t2 : Tables)
        → run_nodes s p run_stage j done pr w t ≡ (next after, w1, t1)
        → AreDistinct (names done)
        → SameRows done t1 t2
        → OutputsReadBack after
        → run_nodes s p run_stage j (done ++ rest) pr w2 t2
          ≡ run_nodes s p run_stage j rest after w2 t2
    unfolding run_nodes
    replay_done j [] rest pr after w w1 w2 t t1 t2 ran distinct same back =
        let e : pr ≡ after = cc in rw e refl
    replay_done j ((node, checks) ∷ done) rest pr after w w1 w2 t t1 t2 ran distinct same back =
        let first : NodeRound s p × World × Tables = run_node s p run_stage j node checks pr w t in
        let (pr', went, later) = then_nodes-next first _ after w1 t1 ran in
        let kept : node_row node.name t1 ≡ node_row node.name first.2 =
          ap (λ (r : NodeRound s p × World × Tables). node_row node.name r.2) (sym later)
          ∙ run_nodes_keeps node.name j done pr' first.1 first.2 distinct.0 in
        let output_kept : lookup_entry node.name after.outputs
            ≡ lookup_entry node.name pr'.outputs =
          run_nodes_keeps_output node.name j done pr' after first.1 w1 first.2 t1 distinct.0
            later in
        rw
          (replayed j node checks pr pr' w t first.1 first.2 w2 t2 went (same.0 ∙ kept)
            (λ v found. back node.name v (output_kept ∙ found)))
          (replay_done j done rest pr' after first.1 w1 w2 first.2 t1 t2 later distinct.1 same.1
            back)

    run_nodes-append :
        (j : JobSpec s p) (done rest : Work s p) (pr after : Progress s p) (w w1 : World)
        (t t1 : Tables)
        → run_nodes s p run_stage j done pr w t ≡ (next after, w1, t1)
        → run_nodes s p run_stage j (done ++ rest) pr w t
          ≡ run_nodes s p run_stage j rest after w1 t1
    unfolding run_nodes
    run_nodes-append j [] rest pr after w w1 t t1 ran =
        ap
          (λ (r : NodeRound s p × World × Tables).
            then_nodes s p r (run_nodes s p run_stage j rest))
          ran
    run_nodes-append j ((node, checks) ∷ done) rest pr after w w1 t t1 ran =
        let first : NodeRound s p × World × Tables = run_node s p run_stage j node checks pr w t in
        let (pr', went, later) = then_nodes-next first _ after w1 t1 ran in
        ap
          (λ (r : NodeRound s p × World × Tables).
            then_nodes s p r (run_nodes s p run_stage j (done ++ rest)))
          went
        ∙ run_nodes-append j done rest pr' after first.1 w1 first.2 t1 later

  finish_run_keeps :
      (nodes : List CheckedNode) (r : NodeRound s p × World × Tables)
      → (finish_run s p (end_run s p nodes r)).2.checkpoints ≡ r.2.checkpoints
  unfolding finish_run end_run finish
  finish_run_keeps nodes (next pr, w, t) = refl
  finish_run_keeps nodes (stop e, w, t) = refl
  finish_run_keeps nodes (panic, w, t) = refl

  same_rows :
      (done rest : Work s p) (t t' : Tables)
      → AreDistinct (names (done ++ rest))
      → ((name : Text) → mem name (names rest) ≡ false → node_row name t' ≡ node_row name t)
      → SameRows done t t'
  same_rows [] rest t t' distinct keeps = tt
  same_rows (e ∷ done) rest t t' distinct keeps = (
    keeps e.0.name (not_right e.0.name done rest distinct.0),
    same_rows done rest t t' distinct.1 keeps,
  )
    where
      not_right :
          (x : Text) (xs ys : Work s p)
          → mem x (names (xs ++ ys)) ≡ false
          → mem x (names ys) ≡ false
      not_right x [] ys k = k
      not_right x (y ∷ xs) ys k = ground (arith, not_right x xs ys)

  open_keeps :
      (fingerprint : Text) (t t' : Tables)
      → open_ledger fingerprint t ≡ some t'
      → t'.checkpoints ≡ t.checkpoints
  unfolding open_ledger
  open_keeps fingerprint t t' h = ground arith

  module _ (run_stage : RunStage s p) where
    run_job-nodes :
        (j : JobSpec s p) (work : Work s p) (w : World) (t : Tables)
        → is_empty j.nodes ≡ false
        → compile_all s p j.nodes ≡ ok work
        → run_job s p run_stage j w t
          ≡ finish_run s p
              (end_run s p j.nodes (run_nodes s p run_stage j work (no_progress s p) w t))
    unfolding run_job run_block
    run_job-nodes j work w t some_node compiled = rw some_node (rw compiled refl)

    -- A job whose nodes have distinct names and compiled checks, run on a ledger until it ends in
    -- any way, with the nodes `done` gone through on the way, and the outputs that it has behind
    -- these the same when written as JSON and read again: run again on the reopened ledger, it runs
    -- none of these nodes and goes on with the rest from the progress that the first run had behind
    -- them, its outputs, skipped nodes and routes.
    pub resume :
        (j : JobSpec s p) (done rest : Work s p) (after : Progress s p) (fingerprint : Text)
        (w w1 w2 : World) (t t1 t2 : Tables)
        → is_empty j.nodes ≡ false
        → compile_all s p j.nodes ≡ ok (done ++ rest)
        → AreDistinct (names (done ++ rest))
        → run_nodes s p run_stage j done (no_progress s p) w t ≡ (next after, w1, t1)
        → OutputsReadBack after
        → open_ledger fingerprint (run_job s p run_stage j w t).2 ≡ some t2
        → run_job s p run_stage j w2 t2
          ≡ finish_run s p (end_run s p j.nodes (run_nodes s p run_stage j rest after w2 t2))
    resume j done rest after fingerprint w w1 w2 t t1 t2 some_node compiled distinct ran back
          reopened =
        let stopped : t2.checkpoints ≡ (run_nodes s p run_stage j rest after w1 t1).2.checkpoints =
          open_keeps fingerprint _ t2 reopened
          ∙ ap (λ (r : Option (Envelope s) × World × Tables). r.2.checkpoints)
              (run_job-nodes j (done ++ rest) w t some_node compiled)
          ∙ finish_run_keeps j.nodes _
          ∙ ap (λ (r : NodeRound s p × World × Tables). r.2.checkpoints)
              (run_nodes-append run_stage j done rest (no_progress s p) after w w1 t t1 ran) in
        let same : SameRows done t1 t2 = same_rows done rest t1 t2 distinct (λ name absent.
          ap (find_row name none) stopped
          ∙ run_nodes_keeps run_stage name j rest after w1 t1 absent) in
        run_job-nodes j (done ++ rest) w2 t2 some_node compiled
        ∙ ap (λ r. finish_run s p (end_run s p j.nodes r))
            (replay_done run_stage j done rest (no_progress s p) after w w1 w2 t t1 t2 ran
              (distinct_left done rest distinct) same back)
