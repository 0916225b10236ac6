-- ===== src/Daemon/Cancelled.antt =====
-- An interrupted job that is cancelled stays so behind a restart.
use cuttlefish_vm.Base.{
  Bool-cases, Option-cases, All, Text, codes, text_eq, text_eq-true, text_eq_comm, mem, AreDistinct,
  lookup_entry, insert_entry, lookup_entry-insert_entry, ◌≡◌, refl, ◌∙◌, subst, inl, inr, true,
  false, none, some, List, [], ◌∷◌, map, arith,
}
use cuttlefish_vm.Abi.Status.{status_eq, interrupted}
use cuttlefish_vm.Host.Serde.{SerdeJson}
use cuttlefish_vm.Host.Ledger.{
  Tables, job_status, status_from_str, open_ledger, finish, cancelled as ledger_cancelled,
}
use cuttlefish_vm.Daemon.Store.{
  Channels, Job, Daemon, insert_job, mark_interrupted, interrupted_job, ledger_at, cancel_ledger,
  cancel_job, is_running, scan, scan_for_interrupted_jobs, scan_one,
}

-- A ledger that no scan marks.
abbrev IsQuiet : Tables → Type 0
IsQuiet t =
    (fingerprint : Text) (t' : Tables)
    → open_ledger fingerprint t ≡ some t'
    → is_running (job_status t') ≡ false

cancelled_read : status_from_str (codes "cancelled") ≡ ledger_cancelled
unfolding status_from_str text_eq
cancelled_read = refl

finish-IsQuiet :
    (fingerprint : Text) (t t' : Tables)
    → open_ledger fingerprint t ≡ some t'
    → IsQuiet (finish (codes "cancelled") t')
unfolding open_ledger finish job_status
finish-IsQuiet fingerprint t t' e other t'' e' = ground (arith, cancelled_read)

-- The entries of a job are quiet.
abbrev AreQuiet : Text → List (Text × Tables) → Type 0
AreQuiet id ledgers = All (λ e. text_eq e.0 id ≡ true → IsQuiet e.1) ledgers

insert-AreQuiet :
    (id : Text) (t : Tables) (ledgers : List (Text × Tables))
    → AreDistinct (map (λ e. e.0) ledgers)
    → IsQuiet t
    → AreQuiet id (insert_entry id t ledgers)
unfolding insert_entry
insert-AreQuiet id t [] distinct quiet = (λ h. quiet, tt)
insert-AreQuiet id t (e ∷ rest) distinct quiet = elim (Bool-cases (text_eq e.0 id)) [
  | inl same ↦
      rw same (λ h. quiet, absent_quiet id rest (distinct_other id e.0 rest same distinct.0))
  | inr other ↦ rw other (λ h. absurd (cc), insert-AreQuiet id t rest distinct.1 quiet)
]
  where
    distinct_other :
        (id key : Text) (ledgers : List (Text × Tables))
        → text_eq key id ≡ true
        → mem key (map (λ e. e.0) ledgers) ≡ false
        → mem id (map (λ e. e.0) ledgers) ≡ false
    distinct_other id key ledgers same h =
        subst (λ k. mem k (map (λ e. e.0) ledgers) ≡ false) (text_eq-true key id same) h

    absent_quiet :
        (id : Text) (ledgers : List (Text × Tables))
        → mem id (map (λ e. e.0) ledgers) ≡ false
        → AreQuiet id ledgers
    absent_quiet id [] h = tt
    absent_quiet id (e ∷ rest) h =
        (λ k. absurd (ground (arith, text_eq_comm id e.0)), absent_quiet id rest (ground arith))

module _ (s : SerdeJson) (c : Channels) where
  mark_other :
      (id key : Text) (d : Daemon s c)
      → text_eq key id ≡ false
      → lookup_entry id d.jobs ≡ none
      → lookup_entry id (mark_interrupted s c key d).jobs ≡ none
  unfolding mark_interrupted insert_job interrupted_job
  mark_other id key d other h =
      lookup_entry-insert_entry id key (interrupted_job s c key d.net).0 d.jobs ∙ rw other h

  scan_one_misses :
      (fingerprint id key : Text) (t : Tables) (d : Daemon s c)
      → (text_eq key id ≡ true → IsQuiet t)
      → lookup_entry id d.jobs ≡ none
      → lookup_entry id (scan_one s c fingerprint key t d).jobs ≡ none
  unfolding scan_one lookup_entry
  scan_one_misses fingerprint id key t d quiet h = elim (Option-cases (open_ledger fingerprint t)) [
    | inl e ↦ rw (e, scan_one) h
    | inr (t', e) ↦
        rw (e, scan_one)
          (elim (Bool-cases (text_eq key id)) [
            | inl same ↦ rw (quiet same fingerprint t' e) h
            | inr other ↦ elim (Bool-cases (is_running (job_status t'))) [
              | inl was ↦
                  rw was (
                    mark_other id key (record d { ledgers = insert_entry key t' d.ledgers }) other
                      h)
              | inr was ↦ rw was h
            ]
          ])
  ]

  scan_misses :
      (fingerprint id : Text) (ledgers : List (Text × Tables)) (d : Daemon s c)
      → AreQuiet id ledgers
      → lookup_entry id d.jobs ≡ none
      → lookup_entry id (scan s c fingerprint ledgers d).jobs ≡ none
  unfolding scan
  scan_misses fingerprint id [] d quiet h = h
  scan_misses fingerprint id (e ∷ rest) d quiet h =
      scan_misses fingerprint id rest (scan_one s c fingerprint e.0 e.1 d) quiet.1
        (scan_one_misses fingerprint id e.0 e.1 d quiet.0 h)

  cancel_ledger-AreQuiet :
      (id : Text) (t : Tables) (ledgers : List (Text × Tables))
      → AreDistinct (map (λ e. e.0) ledgers)
      → open_ledger [] (ledger_at (lookup_entry id ledgers)) ≡ some t
      → AreQuiet id (cancel_ledger id ledgers)
  unfolding cancel_ledger
  cancel_ledger-AreQuiet id t ledgers distinct e =
      rw (e, cancel_ledger)
        (insert-AreQuiet id (finish (codes "cancelled") t) ledgers distinct
          (finish-IsQuiet [] (ledger_at (lookup_entry id ledgers)) t e))

  -- An interrupted job that is cancelled, with its ledger under the jobs' root and not stale, is
  -- not found by the scan of the next start-up, with any fingerprint, where no two ledgers have one
  -- name.
  pub cancelled_stays :
      (fingerprint id : Text) (d restarted : Daemon s c) (job : Job s c) (t : Tables)
      → d.has_root ≡ true
      → lookup_entry id d.jobs ≡ some job
      → status_eq job.status interrupted ≡ true
      → AreDistinct (map (λ e. e.0) d.ledgers)
      → open_ledger [] (ledger_at (lookup_entry id d.ledgers)) ≡ some t
      → restarted.jobs ≡ []
      → restarted.ledgers ≡ (cancel_job s c id d).1.ledgers
      → lookup_entry id (scan_for_interrupted_jobs s c fingerprint restarted).jobs ≡ none
  unfolding cancel_job scan_for_interrupted_jobs
  cancelled_stays fingerprint id d restarted job t root found was distinct fresh empty kept =
      let quiet : AreQuiet id restarted.ledgers = rw kept (
        rw (found, cancel_job)
          (rw was (rw root (cancel_ledger-AreQuiet id t d.ledgers distinct fresh)))) in
      let nowhere : lookup_entry id restarted.jobs ≡ none =
        rw empty (unfold lookup_entry in refl) in
      elim (Bool-cases restarted.has_root) [
        | inl e ↦
            ground (arith, scan_misses fingerprint id restarted.ledgers restarted quiet nowhere)
        | inr e ↦ ground arith
      ]
