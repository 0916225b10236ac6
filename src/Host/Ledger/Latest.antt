-- ===== src/Host/Ledger/Latest.antt =====
-- A ledger against the writes that led to it.
use cuttlefish_vm.Base.{
  if◌then◌else◌, Bool-cases, Text, codes, text_eq, text_eq_refl, ℕ, ◌≡◌, refl, ap, ◌∙◌, inl, inr,
  Bool, false, ◌&&◌, Option, none, some, List, [], ◌∷◌, map, arith,
}
use cuttlefish_vm.Host.Ledger.Rows.{find_row-upsert}
use cuttlefish_vm.Host.Ledger.Steps.{
  Step, skipped, completed, item_completed, item_failed, escalated, drained, pinned, finished,
  reopened, Reaches, here, then_step,
}
use cuttlefish_vm.Host.Ledger.{
  Checkpoint, Tables, Fetched, got, panicked, find_row, upsert, is_key, item_eq, completed_json,
  decode, open_ledger, finish, write_skipped, write_completed, write_item_completed,
  write_item_failed, write_escalated, mark_drained, check_or_record_manifest, get_completed,
  get_item_completed, concluded, written_json,
}
use cuttlefish_vm.Host.Serde.{SerdeJson}

-- The stored output of a row is that which was written with it.
stamped_json :
    (node : Text) (item : Option ℕ) (b : Checkpoint → Bool) (now : Text) (rows : List Checkpoint)
    → completed_json (
        find_row node item
          (map (λ row. if b row then record row { drained_at = some now } else row) rows))
      ≡ completed_json (find_row node item rows)
unfolding find_row
stamped_json node item b now [] = refl
stamped_json node item b now (r ∷ rows) = elim (Bool-cases (b r)) [
  | inl t ↦ rw t (ground (arith, stamped_json node item b now rows))
  | inr t ↦ rw t (ground (arith, stamped_json node item b now rows))
]

put_json :
    (node : Text) (item : Option ℕ) (r : Checkpoint) (t : Tables)
    → completed_json (find_row node item (upsert r t.checkpoints)) ≡ (
        if is_key node item r
        then completed_json (some r)
        else completed_json (find_row node item t.checkpoints))
put_json node item r t =
    rw (find_row-upsert node item r t.checkpoints)
      (elim (Bool-cases (is_key node item r)) [ inl own ↦ rw own refl | inr other ↦ rw other refl ])

skipped_unread : text_eq (codes "skipped") (codes "completed") ≡ false
unfolding text_eq
skipped_unread = refl

failed_unread : text_eq (codes "failed") (codes "completed") ≡ false
unfolding text_eq
failed_unread = refl

escalated_unread : text_eq (codes "escalated") (codes "completed") ≡ false
unfolding text_eq
escalated_unread = refl

pinned_keeps :
    (node digest : Text) (count : ℕ) (t : Tables)
    → (check_or_record_manifest node digest count t).1.checkpoints ≡ t.checkpoints
unfolding check_or_record_manifest
pinned_keeps node digest count t = ground arith

opened_keeps :
    (fingerprint : Text) (t t' : Tables)
    → open_ledger fingerprint t ≡ some t'
    → t'.checkpoints ≡ t.checkpoints
unfolding open_ledger
opened_keeps fingerprint t t' e = ground arith

module _ (s : SerdeJson) (node : Text) (item : Option ℕ) where
  -- A write under a key, and what it leaves as the output that the key stands for.
  abbrev pub written :
      Text → Option ℕ → Option s.json.Value → Option s.json.Value → Option s.json.Value
  written name index output earlier =
      if text_eq name node && item_eq index item then output else earlier

  -- The output that a step leaves for the key, where there was `earlier`.
  abbrev pub step_output : {t t' : Tables} → Step s t t' → Option s.json.Value → Option s.json.Value
  step_output (skipped t name now) earlier = written name none none earlier
  step_output (completed t name output now) earlier = written name none (some output) earlier
  step_output (item_completed t name index output input now) earlier =
      written name (some index) (some output) earlier
  step_output (item_failed t name index error input now) earlier =
      written name (some index) none earlier
  step_output (escalated t name index reason input now) earlier = written name index none earlier
  step_output (drained t name index now) earlier = earlier
  step_output (pinned t name digest count) earlier = earlier
  step_output (finished t status) earlier = earlier
  step_output (reopened t t' fingerprint e) earlier = earlier

  -- The output that the last write for the key completed it with, none where that write concluded
  -- it otherwise or there was no write.
  abbrev pub last_written : {t t' : Tables} → Reaches s t t' → Option s.json.Value
  last_written here = none
  last_written (then_step r st) = step_output st (last_written r)

  -- The text of such an output, read again.
  abbrev pub reread : Option s.json.Value → Fetched (Option s.json.Value)
  reread none = got none
  reread (some v) = elim (s.from_str (s.to_string v)) [ none ↦ panicked | some v' ↦ got (some v') ]

  row_json :
      (r : Checkpoint) (t : Tables) (output earlier : Option s.json.Value)
      → completed_json (some r) ≡ written_json s output
      → completed_json (find_row node item t.checkpoints) ≡ written_json s earlier
      → completed_json (find_row node item (upsert r t.checkpoints))
        ≡ written_json s (written r.node_name r.item_index output earlier)
  row_json r t output earlier own h =
      put_json node item r t
      ∙ elim (Bool-cases (is_key node item r)) [ inl yes_ ↦ rw yes_ own | inr no_ ↦ rw no_ h ]

  step_output_lem :
      {t t' : Tables} (st : Step s t t') (earlier : Option s.json.Value)
      → completed_json (find_row node item t.checkpoints) ≡ written_json s earlier
      → completed_json (find_row node item t'.checkpoints) ≡ written_json s (step_output st earlier)
  unfolding write_skipped write_completed write_item_completed write_item_failed write_escalated
      mark_drained finish
  step_output_lem (skipped t name now) earlier h =
      row_json (concluded name none (codes "skipped") none none now none) t none earlier
        (rw skipped_unread refl) h
  step_output_lem (completed t name output now) earlier h =
      row_json (concluded name none (codes "completed") (some (s.to_string output)) none now none) t
        (some output) earlier (rw (text_eq_refl (codes "completed")) refl) h
  step_output_lem (item_completed t name index output input now) earlier h =
      row_json
        (concluded name (some index) (codes "completed") (some (s.to_string output)) none now
          (written_json s input))
        t (some output) earlier (rw (text_eq_refl (codes "completed")) refl) h
  step_output_lem (item_failed t name index error input now) earlier h =
      row_json
        (concluded name (some index) (codes "failed") none (some error) now (written_json s input))
        t none earlier (rw failed_unread refl) h
  step_output_lem (escalated t name index reason input now) earlier h =
      row_json
        (concluded name index (codes "escalated") none (some reason) now (written_json s input)) t
        none earlier (rw escalated_unread refl) h
  step_output_lem (drained t name index now) earlier h =
      stamped_json node item
        (λ row. is_key name index row && text_eq row.status (codes "escalated")) now t.checkpoints
      ∙ h
  step_output_lem (pinned t name digest count) earlier h =
      ap (λ rows. completed_json (find_row node item rows)) (pinned_keeps name digest count t) ∙ h
  step_output_lem (finished t status) earlier h = h
  step_output_lem (reopened t t' fingerprint e) earlier h =
      ap (λ rows. completed_json (find_row node item rows)) (opened_keeps fingerprint t t' e) ∙ h

  pub stored-last_written :
      (t t' : Tables) (r : Reaches s t t')
      → t.checkpoints ≡ []
      → completed_json (find_row node item t'.checkpoints) ≡ written_json s (last_written r)
  unfolding find_row
  stored-last_written t t' here empty = ap (λ rows. completed_json (find_row node item rows)) empty
  stored-last_written t t' (then_step {t' = t1} r st) empty =
      step_output_lem st (last_written r) (stored-last_written t t1 r empty)

  decode-written : (v : Option s.json.Value) → decode s (written_json s v) ≡ reread v
  unfolding decode
  decode-written none = refl
  decode-written (some v) = refl

-- A ledger that had no rows, behind any writes, reads for a node and for an item what the last
-- write under the key says: nothing where it skipped, failed or escalated it or there was none, and
-- else the output that it completed it with, as its text is read again; the read panics exactly if
-- that text is refused.
pub reads_last_written :
    (s : SerdeJson) (t t' : Tables) (node : Text) (item : ℕ) (r : Reaches s t t')
    → t.checkpoints ≡ []
    → (get_completed s node t' ≡ reread s node none (last_written s node none r))
      × (get_item_completed s node item t'
          ≡ reread s node (some item) (last_written s node (some item) r))
unfolding get_completed get_item_completed
reads_last_written s t t' node item r empty = (
  ap (decode s) (stored-last_written s node none t t' r empty)
      ∙ decode-written s node none (last_written s node none r),
  ap (decode s) (stored-last_written s node (some item) t t' r empty)
      ∙ decode-written s node (some item) (last_written s node (some item) r),
)
