-- ===== src/Daemon/Tests.antt =====
-- The theorems about the store of jobs at small daemons.
use cuttlefish_vm.Base.{codes, text_eq, lookup_entry, ℕ, ◌+◌, ◌≡◌, refl, true, none, some, [], ◌∷◌}
use cuttlefish_vm.Abi.Status.{status_eq, interrupted, running}
use cuttlefish_vm.Host.Runner.Sample.{sample}
use cuttlefish_vm.Host.Ledger.{Tables, open_ledger, migrate, all_columns}
use cuttlefish_vm.Daemon.Store.{
  Channels, Job, Daemon, cancel_job, try_start_resume, scan_for_interrupted_jobs, ledger_at,
}
use cuttlefish_vm.Daemon.Resumed.{cancels, here, later, resume_once}
use cuttlefish_vm.Daemon.Cancelled.{cancelled_stays}

abbrev channels : Channels
channels = record {
  Net = ℕ;
  Sender = ℕ;
  Receiver = ℕ;
  Token = ℕ;
  channel = λ n. (n, n + 1);
  new_token = λ n. (n, n + 1);
  send = λ x payload n. n;
  subscribe = λ x n. (x, n);
  cancel = λ k n. n;
}

abbrev ledger : Tables
ledger = record {
  columns = all_columns;
  checkpoints = [];
  job_status = (codes "running", codes "f") ∷ [];
  fanout_manifests = [];
}

abbrev job : Job sample channels
job = record {
  id = codes "j";
  status = interrupted;
  envelope = none;
  cancel = 1;
  events = 0;
  log = [];
}

abbrev daemon : Daemon sample channels
daemon = record {
  jobs = (codes "j", job) ∷ [];
  net = 2;
  has_root = true;
  ledgers = (codes "j", ledger) ∷ [];
}

won :
    (try_start_resume sample channels (codes "j") daemon).0 ≡ some (record job { status = running })
unfolding try_start_resume lookup_entry status_eq text_eq
won = refl

abbrev resumed_daemon : Daemon sample channels
resumed_daemon = (try_start_resume sample channels (codes "j") daemon).1

abbrev told : Daemon sample channels
told = (cancel_job sample channels (codes "j") resumed_daemon).1

resume_once_example : try_start_resume sample channels (codes "j") told ≡ (none, told)
resume_once_example =
    resume_once sample channels (codes "j") daemon told (record job { status = running }) won
      (later here (cancels resumed_daemon (codes "j")))

abbrev restarted : Daemon sample channels
restarted = record {
  jobs = [];
  net = 0;
  has_root = true;
  ledgers = (cancel_job sample channels (codes "j") daemon).1.ledgers;
}

found : lookup_entry (codes "j") daemon.jobs ≡ some job
unfolding lookup_entry text_eq
found = refl

is_interrupted : status_eq job.status interrupted ≡ true
unfolding status_eq
is_interrupted = refl

opens : open_ledger [] (ledger_at (lookup_entry (codes "j") daemon.ledgers)) ≡ some ledger
unfolding open_ledger migrate lookup_entry text_eq
opens = refl

cancelled_stays_example :
    lookup_entry (codes "j") (scan_for_interrupted_jobs sample channels (codes "f") restarted).jobs
    ≡ none
cancelled_stays_example =
    cancelled_stays sample channels (codes "f") (codes "j") daemon restarted job ledger refl found
      is_interrupted (refl, tt) opens refl refl
