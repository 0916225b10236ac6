-- ===== src/Host/Ledger/Steps.antt =====
-- What can happen to a ledger: every write of crates/cuttlefish-host/src/ledger.rs, one step at a time.
use cuttlefish_vm.Base.{Text, ℕ, ◌≡◌, Option, some}
use cuttlefish_vm.Host.Serde.{SerdeJson}
use cuttlefish_vm.Host.Ledger.{
  Tables, open_ledger, finish, write_skipped, write_completed, write_item_completed,
  write_item_failed, write_escalated, mark_drained, check_or_record_manifest,
}

module _ (s : SerdeJson) where
  pub data Step : Tables → Tables → Type 0 where
    skipped : (t : Tables) (node now : Text) → Step t (write_skipped node now t)
    completed :
        (t : Tables) (node : Text) (output : s.json.Value) (now : Text)
        → Step t (write_completed s node output now t)
    item_completed :
        (t : Tables) (node : Text) (item : ℕ) (output : s.json.Value) (input : Option s.json.Value)
        (now : Text)
        → Step t (write_item_completed s node item output input now t)
    item_failed :
        (t : Tables) (node : Text) (item : ℕ) (error : Text) (input : Option s.json.Value)
        (now : Text)
        → Step t (write_item_failed s node item error input now t)
    escalated :
        (t : Tables) (node : Text) (item : Option ℕ) (reason : Text) (input : Option s.json.Value)
        (now : Text)
        → Step t (write_escalated s node item reason input now t)
    drained :
        (t : Tables) (node : Text) (item : Option ℕ) (now : Text)
        → Step t (mark_drained node item now t)
    pinned :
        (t : Tables) (node digest : Text) (count : ℕ)
        → Step t (check_or_record_manifest node digest count t).1
    finished : (t : Tables) (status : Text) → Step t (finish status t)
    reopened :
        (t t' : Tables) (fingerprint : Text) → open_ledger fingerprint t ≡ some t' → Step t t'

  -- What a ledger can come to.
  pub data Reaches (t : Tables) : Tables → Type 0 where
    here : Reaches t t
    then_step : {t' t'' : Tables} → Reaches t t' → Step t' t'' → Reaches t t''
