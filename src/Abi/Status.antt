-- ===== src/Abi/Status.antt =====
-- The life of a job and the verdict on a token: crates/cuttlefish-abi/src/lib.rs.
use cuttlefish_vm.Base.{Text, Bool, true, false}

pub data JobStatus : Type 0 where
  queued running completed failed cancelled interrupted : JobStatus

unfoldable pub status_eq : JobStatus → JobStatus → Bool
status_eq queued queued = true
status_eq running running = true
status_eq completed completed = true
status_eq failed failed = true
status_eq cancelled cancelled = true
status_eq interrupted interrupted = true
status_eq a b = false

unfoldable pub is_terminal : JobStatus → Bool
is_terminal completed = true
is_terminal failed = true
is_terminal cancelled = true
is_terminal s = false

pub record JobError : Type 0 where
  pub code : Text
  pub message : Text
