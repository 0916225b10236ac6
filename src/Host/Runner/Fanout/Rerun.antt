-- ===== src/Host/Runner/Fanout/Rerun.antt =====
-- The item loop of a fan-out node, run again on its ledger.
use cuttlefish_vm.Base.{
  ◌==◌, ==_iff, Bool-cases, Option-cases, is_some, length, Text, codes, text_eq, text_eq_refl, ℕ,
  ◌+◌, ◌<◌, ◌≡◌, refl, sym, ap, ◌∙◌, subst, ◌≢◌, ◌⊎◌, inl, inr, true, false, Option, none, some,
  List, [], ◌∷◌, arith,
}
use cuttlefish_vm.Abi.Ty.{matches_value}
use cuttlefish_vm.Host.Serde.{SerdeJson}
use cuttlefish_vm.Host.Platform.{Platform}
use cuttlefish_vm.Host.Ledger.{
  Checkpoint, Tables, panicked as read_panicked, find_row, upsert, concluded, completed_json,
  decode, item_concluded, get_item_completed, write_item_completed, write_item_failed,
  write_escalated, written_json,
}
use cuttlefish_vm.Host.Ledger.Rows.{find_row-upsert}
use cuttlefish_vm.Host.Runner.Ladder.{
  RunStage, Climbed, value, exhausted, fatal, panicked as ladder_panicked, run,
}
use cuttlefish_vm.Host.Runner.Fanout.{Counted, counted, item_message, input_mismatch}
use cuttlefish_vm.Host.Runner.Fanout.Items.{
  Campaign, item_ladder, ItemRound, succeeded, failed, stop, panic, resumed, conclude_item,
  run_item, run_items, then_items,
}

abbrev pub item_row : Text → ℕ → Tables → Option Checkpoint
item_row name i t = find_row name (some i) t.checkpoints

other_item_keeps :
    (name : Text) (k i : ℕ) (r : Checkpoint) (rows : List Checkpoint)
    → r.item_index ≡ some i
    → (i == k) ≡ false
    → find_row name (some k) (upsert r rows) ≡ find_row name (some k) rows
other_item_keeps name k i r rows e other = ground (arith, find_row-upsert name (some k) r rows)

-- The row that a write of an item leaves under its key.
own_item_row :
    (name status : Text) (i : ℕ) (output error : Option Text) (now : Text) (input : Option Text)
    (t : Tables)
    → find_row name
        (some i)
        (upsert (concluded name (some i) status output error now input) t.checkpoints)
      ≡ some (concluded name (some i) status output error now input)
own_item_row name status i output error now input t =
    find_row-upsert name (some i) (concluded name (some i) status output error now input)
      t.checkpoints
    ∙ rw (text_eq_refl name) (rw ((==_iff i i).1 refl) refl)

module _ (s : SerdeJson) (p : Platform s) where
  open p use {World}

  -- The round that a recorded item comes to.
  abbrev replay_item : Option Checkpoint → Option (ItemRound s p)
  replay_item none = none
  replay_item (some row) = some (resumed s p (decode s (completed_json (some row))))

  -- The stored output of an item, if there is one, is JSON.
  abbrev pub Parses : Text → ℕ → Tables → Type 0
  Parses name i t = decode s (completed_json (item_row name i t)) ≢ read_panicked

  -- What a round that goes on has recorded.
  abbrev IsRecorded : Text → ℕ → ItemRound s p × World × Tables → Type 0
  IsRecorded name i (succeeded, w, t) =
      Parses name i t → replay_item (item_row name i t) ≡ some succeeded
  IsRecorded name i (failed, w, t) = Parses name i t → replay_item (item_row name i t) ≡ some failed
  IsRecorded name i (stop e, w, t) = Unit
  IsRecorded name i (panic, w, t) = Unit

  round-IsRecorded :
      (name : Text) (i : ℕ) (r : ItemRound s p) (w : World) (t : Tables)
      → replay_item (item_row name i t) ≡ some r
      → IsRecorded name i (r, w, t)
  round-IsRecorded name i succeeded w t h = λ n. h
  round-IsRecorded name i failed w t h = λ n. h
  round-IsRecorded name i (stop e) w t h = tt
  round-IsRecorded name i panic w t h = tt

  replay_some :
      (row : Option Checkpoint)
      → is_some row ≡ true
      → replay_item row ≡ some (resumed s p (decode s (completed_json row)))
  replay_some none h = cc
  replay_some (some row) h = refl

  failed-IsRecorded :
      (name : Text) (i : ℕ) (message : Text) (input : Option s.json.Value) (now : Text) (t : Tables)
      → replay_item (item_row name i (write_item_failed s name i message input now t)) ≡ some failed
  unfolding write_item_failed
  failed-IsRecorded name i message input now t =
      rw (own_item_row name (codes "failed") i none (some message) now (written_json s input) t)
        (unfold text_eq in unfold decode in refl)

  conclude_item-IsRecorded :
      (name : Text) (i : ℕ) (input : s.json.Value) (c : Climbed s p × World) (t : Tables)
      → IsRecorded name i (conclude_item s p name i input c t)
  unfolding conclude_item
  conclude_item-IsRecorded name i input (value v, w) t =
      unfold write_item_completed in
      rw
        (own_item_row name (codes "completed") i (some (s.to_string v)) none (p.now_marker w)
          (some (s.to_string input)) t)
        (unfold text_eq in
          unfold decode in
          elim (Option-cases (s.from_str (s.to_string v))) [
            | inl e ↦ rw e (λ n. absurd (n refl))
            | inr (v', e) ↦ rw e (λ n. refl)
          ])
  conclude_item-IsRecorded name i input (fatal e, w) t = tt
  conclude_item-IsRecorded name i input (ladder_panicked, w) t = tt
  conclude_item-IsRecorded name i input (exhausted r true e, w) t =
      unfold write_escalated in
      rw
        (own_item_row name (codes "escalated") i none (some (item_message s p i r)) (p.now_marker w)
          (some (s.to_string input)) t)
        (unfold text_eq in unfold decode in λ n. refl)
  conclude_item-IsRecorded name i input (exhausted r false e, w) t =
      λ n. failed-IsRecorded name i _ (some input) (p.now_marker w) t

  conclude_item_others :
      (name node : Text) (k i : ℕ) (input : s.json.Value) (c : Climbed s p × World) (t : Tables)
      → (i == k) ≡ false
      → item_row name k (conclude_item s p node i input c t).2 ≡ item_row name k t
  unfolding conclude_item write_item_completed write_item_failed write_escalated
  conclude_item_others name node k i input (value v, w) t other =
      other_item_keeps name k i _ t.checkpoints refl other
  conclude_item_others name node k i input (fatal e, w) t other = refl
  conclude_item_others name node k i input (ladder_panicked, w) t other = refl
  conclude_item_others name node k i input (exhausted r true e, w) t other =
      other_item_keeps name k i _ t.checkpoints refl other
  conclude_item_others name node k i input (exhausted r false e, w) t other =
      other_item_keeps name k i _ t.checkpoints refl other

  module _ (run_stage : RunStage s p) where
    run_item_others :
        (name : Text) (k : ℕ) (c : Campaign s p) (i : ℕ) (input : s.json.Value) (w : World)
        (t : Tables)
        → (i == k) ≡ false
        → item_row name k (run_item s p run_stage c i input w t).2 ≡ item_row name k t
    unfolding run_item
    run_item_others name k c i input w t other =
        let failing : item_row name k (
              write_item_failed s c.node.name i
                (item_message s p i (input_mismatch s p c.node.signature.input)) (some input)
                (p.now_marker w) t)
            ≡ item_row name k t =
          unfold write_item_failed in other_item_keeps name k i _ t.checkpoints refl other in
        ground (
          arith,
          conclude_item_others name c.node.name k i input
              (run s p run_stage (item_ladder s p c) c.node.module_bytes c.node.script input w) t
              other,
        )

    run_item-IsRecorded :
        (c : Campaign s p) (i : ℕ) (input : s.json.Value) (w : World) (t : Tables)
        → IsRecorded c.node.name i (run_item s p run_stage c i input w t)
    unfolding run_item item_concluded get_item_completed
    run_item-IsRecorded c i input w t = elim (Bool-cases (p.is_cancelled w)) [
      | inl halted ↦ rw halted tt
      | inr going ↦ rw going (elim (Bool-cases (is_some (item_row c.node.name i t))) [
        | inl old ↦
            rw old
              (round-IsRecorded c.node.name i _ w t (replay_some (item_row c.node.name i t) old))
        | inr fresh ↦
            rw fresh (elim (Bool-cases (matches_value s.json c.node.signature.input input)) [
              | inl fits ↦ rw fits (conclude_item-IsRecorded c.node.name i input _ t)
              | inr unfit ↦
                  rw unfit (λ n. failed-IsRecorded c.node.name i _ (some input) (p.now_marker w) t)
            ])
      ])
    ]

    -- Such a round runs nothing and writes nothing.
    replayed :
        (c : Campaign s p) (i : ℕ) (input : s.json.Value) (w : World) (t : Tables)
        (round : ItemRound s p)
        → p.is_cancelled w ≡ false
        → replay_item (item_row c.node.name i t) ≡ some round
        → run_item s p run_stage c i input w t ≡ (round, w, t)
    unfolding run_item item_concluded get_item_completed
    replayed c i input w t round going h = rw going (ground arith)

    run_items_others :
        (name : Text) (k : ℕ) (c : Campaign s p) (i : ℕ) (inputs : List s.json.Value) (good bad : ℕ)
        (w : World) (t : Tables)
        → k < i
        → item_row name k (run_items s p run_stage c i inputs good bad w t).2 ≡ item_row name k t
    unfolding run_items
    run_items_others name k c i [] good bad w t below = refl
    run_items_others name k c i (input ∷ rest) good bad w t below =
        let other : (i == k) ≡ false = ground arith in
        ground (
          arith,
          run_item_others name k c i input w t other,
          run_items_others name k c (i + 1) rest (good + 1) bad
              (run_item s p run_stage c i input w t).1 (run_item s p run_stage c i input w t).2,
          run_items_others name k c (i + 1) rest good (bad + 1)
              (run_item s p run_stage c i input w t).1 (run_item s p run_stage c i input w t).2,
        )

  -- A loop that goes through went on behind its first round.
  then_items-counted :
      (r : ItemRound s p × World × Tables) (good bad : ℕ)
      (rest : ℕ → ℕ → World → Tables → Counted s p × World × Tables) (good' bad' : ℕ) (w' : World)
      (t' : Tables)
      → then_items s p r good bad rest ≡ (counted good' bad', w', t')
      → ((r ≡ (succeeded, r.1, r.2)) × (rest (good + 1) bad r.1 r.2 ≡ (counted good' bad', w', t')))
        ⊎ ((r ≡ (failed, r.1, r.2)) × (rest good (bad + 1) r.1 r.2 ≡ (counted good' bad', w', t')))
  then_items-counted (succeeded, w, t) good bad rest good' bad' w' t' h = inl (refl, h)
  then_items-counted (failed, w, t) good bad rest good' bad' w' t' h = inr (refl, h)
  then_items-counted (stop e, w, t) good bad rest good' bad' w' t' h = absurd (cc)
  then_items-counted (panic, w, t) good bad rest good' bad' w' t' h = absurd (cc)

  -- Two ledgers have the same rows for the items from `i` on.
  abbrev pub SameItems : Text → ℕ → List s.json.Value → Tables → Tables → Type 0
  SameItems name i [] t t' = Unit
  SameItems name i (input ∷ rest) t t' =
      (item_row name i t' ≡ item_row name i t) × SameItems name (i + 1) rest t t'

  -- The stored outputs of the items from `i` on are JSON.
  abbrev pub AllParse : Text → ℕ → List s.json.Value → Tables → Type 0
  AllParse name i [] t = Unit
  AllParse name i (input ∷ rest) t = Parses name i t × AllParse name (i + 1) rest t

  earlier_row :
      (name : Text) (i : ℕ) (t t' : Tables)
      → item_row name i t' ≡ item_row name i t
      → Parses name i t'
      → Parses name i t
  earlier_row name i t t' same h = subst (λ r. decode s (completed_json r) ≢ read_panicked) same h

  module _ (run_stage : RunStage s p) where
    -- An item loop that went through, run again on a ledger with the same rows for its items, whose
    -- stored outputs parse, and not cancelled, runs no item, writes nothing and comes to the same
    -- counts; and these are the items, each counted once.
    pub run_items-rerun :
        (c : Campaign s p) (i : ℕ) (inputs : List s.json.Value) (good bad good' bad' : ℕ)
        (w w1 w2 : World) (t t1 t2 : Tables)
        → run_items s p run_stage c i inputs good bad w t ≡ (counted good' bad', w1, t1)
        → SameItems c.node.name i inputs t1 t2
        → AllParse c.node.name i inputs t1
        → p.is_cancelled w2 ≡ false
        → (run_items s p run_stage c i inputs good bad w2 t2 ≡ (counted good' bad', w2, t2))
          × (good' + bad' ≡ good + bad + length inputs)
    unfolding run_items
    run_items-rerun c i [] good bad good' bad' w w1 w2 t t1 t2 ran same parses going =
        let e : good ≡ good' = ground arith in
        let f : bad ≡ bad' = ground arith in (rw e (rw f refl), omega arith)
    run_items-rerun c i (input ∷ rest) good bad good' bad' w w1 w2 t t1 t2 ran same parses going =
        let first : ItemRound s p × World × Tables = run_item s p run_stage c i input w t in
        let replays : (round : ItemRound s p)
            → replay_item (item_row c.node.name i first.2) ≡ some round
            → item_row c.node.name i t1 ≡ item_row c.node.name i first.2
            → run_item s p run_stage c i input w2 t2 ≡ (round, w2, t2) =
          λ round recorded kept.
            replayed run_stage c i input w2 t2 round going (rw (same.0 ∙ kept) recorded) in
        elim (then_items-counted first good bad _ good' bad' w1 t1 ran) [
          | inl (went, later) ↦
              let record_of : Parses c.node.name i first.2
                  → replay_item (item_row c.node.name i first.2) ≡ some succeeded =
                subst (λ r. IsRecorded c.node.name i r) went
                  (run_item-IsRecorded run_stage c i input w t) in
              let kept : item_row c.node.name i t1 ≡ item_row c.node.name i first.2 =
                ap (λ (r : Counted s p × World × Tables). item_row c.node.name i r.2) (sym later)
                ∙ run_items_others run_stage c.node.name i c (i + 1) rest (good + 1) bad first.1
                    first.2 (omega arith) in
              let (again, total) =
                run_items-rerun c (i + 1) rest (good + 1) bad good' bad' first.1 w1 w2 first.2 t1 t2
                  later same.1 parses.1 going in
              (
                rw
                    (replays succeeded
                      (record_of (earlier_row c.node.name i first.2 t1 kept parses.0)) kept)
                    again,
                omega arith,
              )
          | inr (went, later) ↦
              let record_of : Parses c.node.name i first.2
                  → replay_item (item_row c.node.name i first.2) ≡ some failed =
                subst (λ r. IsRecorded c.node.name i r) went
                  (run_item-IsRecorded run_stage c i input w t) in
              let kept : item_row c.node.name i t1 ≡ item_row c.node.name i first.2 =
                ap (λ (r : Counted s p × World × Tables). item_row c.node.name i r.2) (sym later)
                ∙ run_items_others run_stage c.node.name i c (i + 1) rest good (bad + 1) first.1
                    first.2 (omega arith) in
              let (again, total) =
                run_items-rerun c (i + 1) rest good (bad + 1) good' bad' first.1 w1 w2 first.2 t1 t2
                  later same.1 parses.1 going in
              (
                rw
                    (replays failed (record_of (earlier_row c.node.name i first.2 t1 kept parses.0))
                      kept)
                    again,
                omega arith,
              )
        ]
