-- ===== src/Host/Ledger.antt =====
-- The checkpoint store of a job: crates/cuttlefish-host/src/ledger.rs, its SQL statements included.
-- `Tables` is what the SQLite file holds; `INSERT OR REPLACE` deletes the row of the key and adds the
-- new one. The column `item_index` is -1 for a whole node, here `none`, and else below 2 ^ 63.
-- A statement that SQLite refuses is not modelled. `now` is what `now_marker` returns at the call.
pub mod Rows
pub mod Queries
pub mod Steps
pub mod Latest
pub mod Drained
pub mod Reopened
pub mod Tests
use cuttlefish_vm.Base.{
  ltb, leb, ◌==◌, if◌then◌else◌, ==_iff, Bool-cases, Option-cases, and_true, or_true, is_some,
  is_some-false, length, get_elem?, take, drop, any, all, length-append, take-append-drop,
  length-take, length-drop, All, All-append, is_empty, Text, codes, text_eq, text_eq_refl,
  text_eq-true, text_eq-false, text_eq_iff, text_eq_comm, text_lt, strip_suffix, starts_with,
  parse_digits, parse_u32, parse_u32-lt, decimal_onto, decimal, join, find_char, rfind_char, mem,
  filter, AreDistinct, mem-append, mem-left, mem-right, mem-filter, length-filter, lookup_entry,
  insert_entry, lookup_entry-insert_entry, ℕ, zero, suc, ◌+◌, ◌-◌, ◌*◌, ◌/◌, ◌%◌, ◌^◌, ◌≤◌, ◌<◌,
  min, ◌≡◌, refl, sym, ap, ◌∙◌, subst, ◌≢◌, ◌↔◌, ◌⊎◌, inl, inr, Bool, true, false, not, ◌&&◌, ◌||◌,
  Option, none, some, List, [], ◌∷◌, ◌++◌, map, arith,
}
use cuttlefish_vm.Host.Serde.{SerdeJson}

pub data LedgerJobStatus : Type 0 where
  running completed failed cancelled : LedgerJobStatus

unfoldable pub status_from_str : Text → LedgerJobStatus
status_from_str s =
    if text_eq s (codes "completed")
    then completed
    else if text_eq s (codes "failed")
    then failed
    else if text_eq s (codes "cancelled")
    then cancelled
    else running

-- A row of `checkpoints`.
pub record Checkpoint : Type 0 where
  pub node_name : Text
  pub item_index : Option ℕ
  pub status : Text
  pub output_json : Option Text
  pub error_text : Option Text
  pub completed_at : Text
  pub input_json : Option Text
  pub drained_at : Option Text

-- `columns` are those of the table `checkpoints`, none where there is no such table.
pub record Tables : Type 0 where
  pub columns : List Text
  pub checkpoints : List Checkpoint
  pub job_status : List (Text × Text)
  pub fanout_manifests : List (Text × (Text × ℕ))

abbrev pub Opened : Type 0
Opened = Option Tables

abbrev pub all_columns : List Text
all_columns =
    codes "node_name"
    ∷ codes "item_index"
    ∷ codes "status"
    ∷ codes "output_json"
    ∷ codes "error_text"
    ∷ codes "completed_at"
    ∷ codes "input_json"
    ∷ codes "drained_at"
    ∷ []

-- `ALTER TABLE checkpoints ADD COLUMN`, where the column is missing.
abbrev add_column : Text → List Text → List Text
add_column c existing = if mem c existing then existing else existing ++ c ∷ []

-- The columns that the statements of `open` leave.
unfoldable pub migrate : List Text → List Text
migrate [] = all_columns
migrate (c ∷ cs) = add_column (codes "drained_at") (add_column (codes "input_json") (c ∷ cs))

-- `Ledger::open` on what the file holds; `none` is `StaleSchema`.
unfoldable pub open_ledger : Text → Tables → Opened
open_ledger graph_fingerprint t =
    if not (is_empty t.columns) && not (mem (codes "item_index") t.columns)
    then none
    else some (record t {
      columns = migrate t.columns;
      job_status =
          if is_empty t.job_status then (codes "running", graph_fingerprint) ∷ [] else t.job_status;
    })

-- What `SELECT ... FROM job_status` gives.
abbrev pub status_row : Tables → Option (Text × Text)
status_row t = get_elem? t.job_status 0

unfoldable pub graph_fingerprint : Tables → Option Text
graph_fingerprint t = elim (status_row t) [ none ↦ none | some row ↦ some row.1 ]

unfoldable pub job_status : Tables → Option LedgerJobStatus
job_status t = elim (status_row t) [ none ↦ none | some row ↦ some (status_from_str row.0) ]

-- `Ledger::finish`
unfoldable pub finish : Text → Tables → Tables
finish status t = record t { job_status = map (λ row. (status, row.1)) t.job_status }

abbrev pub item_eq : Option ℕ → Option ℕ → Bool
item_eq none none = true
item_eq (some i) (some k) = i == k
item_eq i k = false

-- `node_name = ?1 AND item_index = ?2`
abbrev pub is_key : Text → Option ℕ → Checkpoint → Bool
is_key node item row = text_eq row.node_name node && item_eq row.item_index item

unfoldable pub find_row : Text → Option ℕ → List Checkpoint → Option Checkpoint
find_row node item [] = none
find_row node item (row ∷ rows) = if is_key node item row then some row else find_row node item rows

-- `INSERT OR REPLACE INTO checkpoints`
unfoldable pub upsert : Checkpoint → List Checkpoint → List Checkpoint
upsert row rows = filter (λ r. not (is_key row.node_name row.item_index r)) rows ++ row ∷ []

abbrev pub put : Checkpoint → Tables → Tables
put row t = record t { checkpoints = upsert row t.checkpoints }

-- A row with the columns that every writer names.
abbrev pub concluded :
    Text → Option ℕ → Text → Option Text → Option Text → Text → Option Text → Checkpoint
concluded node item status output error now input = record {
  node_name = node;
  item_index = item;
  status = status;
  output_json = output;
  error_text = error;
  completed_at = now;
  input_json = input;
  drained_at = none;
}

unfoldable pub write_skipped : Text → Text → Tables → Tables
write_skipped node now t = put (concluded node none (codes "skipped") none none now none) t

-- `Ok(status.as_deref() == Some("skipped"))`
unfoldable pub is_skipped : Text → Tables → Bool
is_skipped node t = elim (find_row node none t.checkpoints) [
  | none ↦ false
  | some row ↦ text_eq row.status (codes "skipped")
]

-- `SELECT COUNT(*) ... > 0`
unfoldable pub item_concluded : Text → ℕ → Tables → Bool
item_concluded node item t = is_some (find_row node (some item) t.checkpoints)

-- `UPDATE checkpoints SET drained_at = ?3 WHERE ... AND status = 'escalated'`
unfoldable pub mark_drained : Text → Option ℕ → Text → Tables → Tables
mark_drained node item now t = record t {
  checkpoints =
      map
        (λ row.
          if is_key node item row && text_eq row.status (codes "escalated")
          then record row { drained_at = some now }
          else row)
        t.checkpoints;
}

abbrev pub lookup_manifest : Text → List (Text × (Text × ℕ)) → Option (Text × ℕ)
lookup_manifest node [] = none
lookup_manifest node ((n, m) ∷ rest) = if text_eq n node then some m else lookup_manifest node rest

-- The verdict of `check_or_record_manifest`, the previous digest where it is another, and the tables.
unfoldable pub check_or_record_manifest : Text → Text → ℕ → Tables → Option Text × Tables
check_or_record_manifest node digest item_count t = elim (lookup_manifest node t.fanout_manifests) [
  | some previous ↦ (if text_eq previous.0 digest then none else some previous.0, t)
  | none ↦ (
    none,
    record t { fanout_manifests = t.fanout_manifests ++ (node, (digest, item_count)) ∷ [] },
  )
]

-- What a read makes of a stored text; `panicked` is the `expect` of a text that is not JSON.
pub data Fetched {ℓ} (A : Type ℓ) : Type ℓ where
  got : A → Fetched A
  panicked : Fetched A

-- The stored output of a row that is `completed`.
abbrev pub completed_json : Option Checkpoint → Option Text
completed_json none = none
completed_json (some row) = if text_eq row.status (codes "completed") then row.output_json else none

module _ (s : SerdeJson) where
  open s use {json, to_string, from_str}

  abbrev pub written_json : Option json.Value → Option Text
  written_json none = none
  written_json (some v) = some (to_string v)

  unfoldable pub write_completed : Text → json.Value → Text → Tables → Tables
  write_completed node output now t =
      put (concluded node none (codes "completed") (some (to_string output)) none now none) t

  unfoldable pub write_item_completed :
      Text → ℕ → json.Value → Option json.Value → Text → Tables → Tables
  write_item_completed node item output input now t =
      put
        (concluded node (some item) (codes "completed") (some (to_string output)) none now
          (written_json input))
        t

  unfoldable pub write_item_failed : Text → ℕ → Text → Option json.Value → Text → Tables → Tables
  write_item_failed node item error input now t =
      put (concluded node (some item) (codes "failed") none (some error) now (written_json input)) t

  unfoldable pub write_escalated :
      Text → Option ℕ → Text → Option json.Value → Text → Tables → Tables
  write_escalated node item reason input now t =
      put (concluded node item (codes "escalated") none (some reason) now (written_json input)) t

  -- `serde_json::from_str(&json).expect("ledger never stores invalid JSON")`
  unfoldable pub decode : Option Text → Fetched (Option json.Value)
  decode none = got none
  decode (some text) = elim (from_str text) [ none ↦ panicked | some v ↦ got (some v) ]

  unfoldable pub get_completed : Text → Tables → Fetched (Option json.Value)
  unfolding decode
  get_completed node t = decode (completed_json (find_row node none t.checkpoints))

  unfoldable pub get_item_completed : Text → ℕ → Tables → Fetched (Option json.Value)
  unfolding decode
  get_item_completed node item t = decode (completed_json (find_row node (some item) t.checkpoints))
