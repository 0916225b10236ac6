-- ===== src/Host/Ledger/Reopened.antt =====
-- A ledger opened again.
use cuttlefish_vm.Base.{
  if◌then◌else◌, Bool-cases, is_empty, Text, codes, text_eq, text_eq_refl, text_eq-true, mem,
  mem-append, ◌≡◌, refl, ◌∙◌, subst, inl, inr, true, false, not, ◌&&◌, ◌||◌, some, List, [], ◌∷◌,
  arith,
}
use cuttlefish_vm.Host.Ledger.{Tables, open_ledger, migrate, add_column, graph_fingerprint}
use cuttlefish_vm.Host.Ledger.Queries.{has_drain_columns}

-- The columns that this version reads and writes.
abbrev IsCurrent : List Text → Type 0
IsCurrent columns =
    (mem (codes "item_index") columns ≡ true)
    × (mem (codes "input_json") columns ≡ true)
    × (mem (codes "drained_at") columns ≡ true)

mem-add_column :
    (x c : Text) (columns : List Text)
    → mem x (add_column c columns) ≡ (mem x columns || text_eq x c)
mem-add_column x c columns = elim (Bool-cases (mem c columns)) [
  | inl old ↦ rw old (ground (arith, same_mem x c columns))
  | inr fresh ↦ rw fresh (mem-append x columns (c ∷ []) ∙ ground arith)
]
  where
    same_mem :
        (x c : Text) (columns : List Text)
        → mem c columns ≡ true
        → text_eq x c ≡ true
        → mem x columns ≡ true
    same_mem x c columns h e = rw (text_eq-true x c e) h

migrate-IsCurrent :
    (columns : List Text)
    → (not (is_empty columns) && not (mem (codes "item_index") columns)) ≡ false
    → IsCurrent (migrate columns)
unfolding migrate
migrate-IsCurrent [] h = unfold text_eq in (refl, refl, refl)
migrate-IsCurrent (c ∷ cs) h =
    let with_input : List Text = add_column (codes "input_json") (c ∷ cs) in
    ground (
      arith,
      mem-add_column (codes "item_index") (codes "drained_at") with_input,
      mem-add_column (codes "input_json") (codes "drained_at") with_input,
      mem-add_column (codes "drained_at") (codes "drained_at") with_input,
      mem-add_column (codes "item_index") (codes "input_json") (c ∷ cs),
      mem-add_column (codes "input_json") (codes "input_json") (c ∷ cs),
      text_eq_refl (codes "drained_at"),
      text_eq_refl (codes "input_json"),
    )

migrate_settled : (columns : List Text) → IsCurrent columns → migrate columns ≡ columns
unfolding migrate
migrate_settled [] h = cc
migrate_settled (c ∷ cs) h = rw h.1 (rw h.2 refl)

-- What `open_ledger` makes of a ledger that is not stale.
abbrev opened : Text → Tables → Tables
opened fingerprint t = record t {
  columns = migrate t.columns;
  job_status = if is_empty t.job_status then (codes "running", fingerprint) ∷ [] else t.job_status;
}

abbrev IsSettled : Text → Text → Tables → Tables → Type 0
IsSettled fingerprint other t t' =
    (open_ledger other t' ≡ some t')
    × (t'.checkpoints ≡ t.checkpoints)
    × (t'.fanout_manifests ≡ t.fanout_manifests)
    × (has_drain_columns t' ≡ true)
    × (graph_fingerprint t'
        ≡ (if is_empty t.job_status then some fingerprint else graph_fingerprint t))

opened-IsSettled :
    (fingerprint other : Text) (t : Tables)
    → (not (is_empty t.columns) && not (mem (codes "item_index") t.columns)) ≡ false
    → IsSettled fingerprint other t (opened fingerprint t)
unfolding open_ledger has_drain_columns graph_fingerprint
opened-IsSettled fingerprint other t fit =
    let current : IsCurrent (migrate t.columns) = migrate-IsCurrent t.columns fit in
    let again : migrate (migrate t.columns) ≡ migrate t.columns =
      migrate_settled (migrate t.columns) current in
    (ground arith, refl, refl, rw current.1 (rw current.2 refl), ground arith)

-- Opening a ledger leaves its rows and manifests, gives it the columns of a drain, keeps the
-- fingerprint that it has, and settles it: opening it again, with any fingerprint, changes nothing.
pub open_ledger_settled :
    (fingerprint other : Text) (t t' : Tables)
    → open_ledger fingerprint t ≡ some t'
    → (open_ledger other t' ≡ some t')
      × (t'.checkpoints ≡ t.checkpoints)
      × (t'.fanout_manifests ≡ t.fanout_manifests)
      × (has_drain_columns t' ≡ true)
      × (graph_fingerprint t'
          ≡ (if is_empty t.job_status then some fingerprint else graph_fingerprint t))
unfolding open_ledger
open_ledger_settled fingerprint other t t' h =
    elim (Bool-cases (not (is_empty t.columns) && not (mem (codes "item_index") t.columns))) [
      | inl stale ↦ absurd (cc (stale, h))
      | inr fit ↦
          let e : opened fingerprint t ≡ t' = ground arith in
          subst (IsSettled fingerprint other t) e (opened-IsSettled fingerprint other t fit)
    ]
