-- ===== src/Daemon/Store.antt =====
-- The jobs of the daemon, crates/cuttlefishd/src/state.rs, and its scan at start-up,
-- crates/cuttlefishd/src/lib.rs. Each function is one critical section of the store's mutex. `Net` is
-- the state of the channels and tokens of tokio, which are a parameter.
use cuttlefish_vm.Base.{
  if◌then◌else◌, Text, codes, lookup_entry, insert_entry, Bool, true, false, Option, none, some,
  List, [], ◌∷◌, ◌++◌,
}
use cuttlefish_vm.Abi.Status.{
  JobStatus, status_eq, running, interrupted, cancelled as job_cancelled,
}
use cuttlefish_vm.Host.Serde.{SerdeJson}
use cuttlefish_vm.Host.Ledger.{
  Tables, LedgerJobStatus, job_status, open_ledger, finish as finish_ledger,
  running as ledger_running,
}
use cuttlefish_vm.Host.Runner.{Envelope}

-- tokio's broadcast channels and cancellation tokens.
pub record Channels : Type 1 where
  pub Net : Type 0
  pub Sender : Type 0
  pub Receiver : Type 0
  pub Token : Type 0
  pub channel : Net → Sender × Net
  pub new_token : Net → Token × Net
  pub send : Sender → Text → Net → Net
  pub subscribe : Sender → Net → Receiver × Net
  pub cancel : Token → Net → Net

-- What is in the file of a ledger, nothing before it is opened.
abbrev pub ledger_at : Option Tables → Tables
ledger_at (some t) = t
ledger_at none = record { columns = []; checkpoints = []; job_status = []; fanout_manifests = [] }

-- The writes of `cancel` to the ledger.
unfoldable pub cancel_ledger : Text → List (Text × Tables) → List (Text × Tables)
cancel_ledger id ledgers = elim (open_ledger [] (ledger_at (lookup_entry id ledgers))) [
  | none ↦ ledgers
  | some t ↦ insert_entry id (finish_ledger (codes "cancelled") t) ledgers
]

abbrev pub is_running : Option LedgerJobStatus → Bool
is_running (some ledger_running) = true
is_running status = false

module _ (s : SerdeJson) (c : Channels) where
  pub record Job : Type 0 where
    pub id : Text
    pub status : JobStatus
    pub envelope : Option (Envelope s)
    pub cancel : c.Token
    pub events : c.Sender
    pub log : List Text

  -- The store, and what lies outside of it: the channels and the ledgers under `jobs_root`.
  pub record Daemon : Type 0 where
    pub jobs : List (Text × Job)
    pub net : c.Net
    pub has_root : Bool
    pub ledgers : List (Text × Tables)

  -- `Job::new`
  unfoldable pub new_job : Text → c.Token → c.Net → Job × c.Net
  new_job id token n =
      let (sender, n') = c.channel n in
      (
        record {
          id = id;
          status = running;
          envelope = none;
          cancel = token;
          events = sender;
          log = [];
        },
        n',
      )

  -- `Job::interrupted`
  unfoldable pub interrupted_job : Text → c.Net → Job × c.Net
  interrupted_job id n =
      let (sender, n1) = c.channel n in
      let (token, n2) = c.new_token n1 in
      (
        record {
          id = id;
          status = interrupted;
          envelope = none;
          cancel = token;
          events = sender;
          log = [];
        },
        n2,
      )

  unfoldable pub insert_job : Job → Daemon → Daemon
  insert_job job d = record d { jobs = insert_entry job.id job d.jobs }

  unfoldable pub publish : Text → Text → Daemon → Daemon
  publish id payload d = elim (lookup_entry id d.jobs) [
    | none ↦ d
    | some job ↦ record d {
      jobs = insert_entry id (record job { log = job.log ++ payload ∷ [] }) d.jobs;
      net = c.send job.events payload d.net;
    }
  ]

  unfoldable pub subscribe_job : Text → Daemon → Option (List Text × c.Receiver) × Daemon
  subscribe_job id d = elim (lookup_entry id d.jobs) [
    | none ↦ (none, d)
    | some job ↦
        let (receiver, n) = c.subscribe job.events d.net in
        (some (job.log, receiver), record d { net = n })
  ]

  unfoldable pub finish_job : Text → Envelope s → Daemon → Daemon
  finish_job id envelope d = elim (lookup_entry id d.jobs) [
    | none ↦ d
    | some job ↦ record d {
      jobs =
          insert_entry id (record job { status = envelope.status; envelope = some envelope })
            d.jobs;
    }
  ]

  unfoldable pub mark_interrupted : Text → Daemon → Daemon
  mark_interrupted id d =
      let (job, n) = interrupted_job id d.net in insert_job job (record d { net = n })

  unfoldable pub cancel_job : Text → Daemon → Bool × Daemon
  cancel_job id d = elim (lookup_entry id d.jobs) [
    | none ↦ (false, d)
    | some job ↦ (
      true,
      (if status_eq job.status interrupted
          then record d {
            jobs = insert_entry id (record job { status = job_cancelled }) d.jobs;
            ledgers = if d.has_root then cancel_ledger id d.ledgers else d.ledgers;
          }
          else record d { net = c.cancel job.cancel d.net }),
    )
  ]

  unfoldable pub try_start_resume : Text → Daemon → Option Job × Daemon
  try_start_resume id d = elim (lookup_entry id d.jobs) [
    | none ↦ (none, d)
    | some job ↦
        if status_eq job.status interrupted
        then (
          some (record job { status = running }),
          record d { jobs = insert_entry id (record job { status = running }) d.jobs },
        )
        else (none, d)
  ]

  -- One directory of the scan; a ledger that is stale is passed over.
  unfoldable pub scan_one : Text → Text → Tables → Daemon → Daemon
  scan_one fingerprint id t d = elim (open_ledger fingerprint t) [
    | none ↦ d
    | some t' ↦
        if is_running (job_status t')
        then mark_interrupted id (record d { ledgers = insert_entry id t' d.ledgers })
        else record d { ledgers = insert_entry id t' d.ledgers }
  ]

  -- The loop of `scan_for_interrupted_jobs` over the directories that hold a ledger.
  unfoldable pub scan : Text → List (Text × Tables) → Daemon → Daemon
  scan fingerprint [] d = d
  scan fingerprint (e ∷ rest) d = scan fingerprint rest (scan_one fingerprint e.0 e.1 d)

  unfoldable pub scan_for_interrupted_jobs : Text → Daemon → Daemon
  scan_for_interrupted_jobs fingerprint d = if d.has_root then scan fingerprint d.ledgers d else d
