-- ===== src/Host/Ledger/Drained.antt =====
-- The queue of escalations, behind a drain.
use cuttlefish_vm.Base.{
  if◌then◌else◌, Bool-cases, Text, codes, text_eq, filter, ℕ, ◌≡◌, refl, ap, inl, inr, true, not,
  ◌&&◌, Option, some, List, [], ◌∷◌, map, arith,
}
use cuttlefish_vm.Host.Serde.{SerdeJson}
use cuttlefish_vm.Host.Ledger.{Checkpoint, Tables, is_key, mark_drained}
use cuttlefish_vm.Host.Ledger.Queries.{
  is_listed, has_drain_columns, order_rows, query_escalations, escalations, escalation_of,
}

abbrev stamp : Text → Option ℕ → Text → Checkpoint → Checkpoint
stamp node item now row =
    if is_key node item row && text_eq row.status (codes "escalated")
    then record row { drained_at = some now }
    else row

-- The rows of other keys.
abbrev pub others : Text → Option ℕ → List Checkpoint → List Checkpoint
others node item rows = filter (λ r. not (is_key node item r)) rows

listed-stamped :
    (node : Text) (item : Option ℕ) (now : Text) (rows : List Checkpoint)
    → filter (is_listed true) (map (stamp node item now) rows)
      ≡ filter (is_listed true) (others node item rows)
listed-stamped node item now [] = refl
listed-stamped node item now (r ∷ rows) = elim (Bool-cases (is_key node item r)) [
  | inl same ↦ elim (Bool-cases (text_eq r.status (codes "escalated"))) [
    | inl e ↦ ground (arith, listed-stamped node item now rows)
    | inr e ↦ ground (arith, listed-stamped node item now rows)
  ]
  | inr other ↦ ground (arith, listed-stamped node item now rows)
]

module _ (s : SerdeJson) where
  -- With the columns of a drain, marking a key as drained takes exactly the escalation of that key
  -- out of the queue, and leaves the others as they are and in their order.
  pub escalations-mark_drained :
      (node : Text) (item : Option ℕ) (now : Text) (t : Tables)
      → has_drain_columns t ≡ true
      → escalations s (mark_drained node item now t)
        ≡ escalations s (record t { checkpoints = others node item t.checkpoints })
  unfolding query_escalations mark_drained has_drain_columns
  escalations-mark_drained node item now t current = rw current (
      ap (λ (rows : List Checkpoint). map (escalation_of s) (order_rows rows))
        (listed-stamped node item now t.checkpoints))
