-- ===== src/Host/Ledger/Queries.antt =====
-- What a ledger lists: concluded items, and escalations. crates/cuttlefish-host/src/ledger.rs.
-- `ORDER BY` is a sort by insertion.
use cuttlefish_vm.Base.{
  ltb, if◌then◌else◌, is_some, Text, codes, text_eq, text_lt, mem, filter, ℕ, Bool, true, false,
  not, ◌&&◌, ◌||◌, Option, none, some, List, [], ◌∷◌, map,
}
use cuttlefish_vm.Host.Serde.{SerdeJson}
use cuttlefish_vm.Host.Ledger.{Checkpoint, Tables, Fetched, got, panicked, decode}

-- `node_name` and then `item_index`, a whole node's before an item's.
abbrev item_lt : Option ℕ → Option ℕ → Bool
item_lt none none = false
item_lt none (some k) = true
item_lt (some i) none = false
item_lt (some i) (some k) = ltb i k

abbrev key_lt : Checkpoint → Checkpoint → Bool
key_lt a b =
    text_lt a.node_name b.node_name
    || (text_eq a.node_name b.node_name && item_lt a.item_index b.item_index)

unfoldable pub insert_row : Checkpoint → List Checkpoint → List Checkpoint
insert_row r [] = r ∷ []
insert_row r (q ∷ rows) = if key_lt q r then q ∷ insert_row r rows else r ∷ q ∷ rows

unfoldable pub order_rows : List Checkpoint → List Checkpoint
order_rows [] = []
order_rows (r ∷ rows) = insert_row r (order_rows rows)

-- `node_name = ?1 AND item_index >= 0`
abbrev pub is_item_of : Text → Checkpoint → Bool
is_item_of node r = text_eq r.node_name node && is_some r.item_index

unfoldable pub item_rows : Text → Tables → List Checkpoint
item_rows node t = order_rows (filter (is_item_of node) t.checkpoints)

abbrev pub index_of : Option ℕ → ℕ
index_of none = 0
index_of (some i) = i

-- `error`, of a row that is not `completed`.
abbrev pub row_error : Checkpoint → Option Text
row_error r = if text_eq r.status (codes "completed") then none else r.error_text

-- The stored output, of a row that is.
abbrev pub row_output : Checkpoint → Option Text
row_output r = if text_eq r.status (codes "completed") then r.output_json else none

-- `PRAGMA table_info`
unfoldable pub has_drain_columns : Tables → Bool
has_drain_columns t = mem (codes "input_json") t.columns && mem (codes "drained_at") t.columns

abbrev pub or_empty : Option Text → Text
or_empty none = []
or_empty (some t) = t

-- `status = 'escalated' AND (?1 = 0 OR drained_at IS NULL)`
abbrev pub is_listed : Bool → Checkpoint → Bool
is_listed outstanding_only r =
    text_eq r.status (codes "escalated") && (not outstanding_only || not (is_some r.drained_at))

module _ (s : SerdeJson) where
  open s use {json, from_str}

  pub record ConcludedItem : Type 0 where
    pub item : ℕ
    pub output : Option json.Value
    pub error : Option Text

  pub record ConcludedRow : Type 0 where
    pub item : ℕ
    pub status : Text
    pub output : Option json.Value
    pub error : Option Text
    pub concluded_at : Text
    pub source_input : Option Text

  abbrev collected : {A : Type 0} → Fetched A → Fetched (List A) → Fetched (List A)
  collected panicked others = panicked
  collected (got a) panicked = panicked
  collected (got a) (got rest) = got (a ∷ rest)

  unfoldable pub item_of_row : Checkpoint → Fetched ConcludedItem
  item_of_row r = elim (decode s (row_output r)) [
    | panicked ↦ panicked
    | got output ↦
        got (record { item = index_of r.item_index; output = output; error = row_error r })
  ]

  unfoldable pub items_of_rows : List Checkpoint → Fetched (List ConcludedItem)
  items_of_rows [] = got []
  items_of_rows (r ∷ rows) = collected (item_of_row r) (items_of_rows rows)

  unfoldable pub concluded_items : Text → Tables → Fetched (List ConcludedItem)
  concluded_items node t = items_of_rows (item_rows node t)

  unfoldable pub concluded_of_row : Checkpoint → Fetched ConcludedRow
  concluded_of_row r = elim (decode s (row_output r)) [
    | panicked ↦ panicked
    | got output ↦ got (record {
      item = index_of r.item_index;
      status = r.status;
      output = output;
      error = row_error r;
      concluded_at = r.completed_at;
      source_input = r.input_json;
    })
  ]

  unfoldable pub concluded_of_rows : List Checkpoint → Fetched (List ConcludedRow)
  concluded_of_rows [] = got []
  concluded_of_rows (r ∷ rows) = collected (concluded_of_row r) (concluded_of_rows rows)

  unfoldable pub concluded_rows : Text → Tables → Fetched (List ConcludedRow)
  concluded_rows node t = concluded_of_rows (item_rows node t)

  pub record Escalation : Type 0 where
    pub node : Text
    pub item : Option ℕ
    pub reason : Text
    pub input : Option json.Value
    pub drained_at : Option Text
    pub at : Text

  -- `input.and_then(|j| serde_json::from_str(&j).ok())`
  abbrev pub read_back : Option Text → Option json.Value
  read_back none = none
  read_back (some t) = from_str t

  abbrev pub undrained : Checkpoint → Escalation
  undrained r = record {
    node = r.node_name;
    item = r.item_index;
    reason = or_empty r.error_text;
    input = none;
    drained_at = none;
    at = r.completed_at;
  }

  abbrev pub escalation_of : Checkpoint → Escalation
  escalation_of r = record {
    node = r.node_name;
    item = r.item_index;
    reason = or_empty r.error_text;
    input = read_back r.input_json;
    drained_at = r.drained_at;
    at = r.completed_at;
  }

  unfoldable pub query_escalations : Bool → Tables → List Escalation
  query_escalations outstanding_only t =
      if not (has_drain_columns t)
      then map undrained (order_rows (filter (is_listed false) t.checkpoints))
      else map escalation_of (order_rows (filter (is_listed outstanding_only) t.checkpoints))

  abbrev pub escalations : Tables → List Escalation
  escalations = query_escalations true

  abbrev pub all_escalations : Tables → List Escalation
  all_escalations = query_escalations false
