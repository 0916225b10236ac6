-- ===== src/Host/Ledger/Tests.antt =====
-- The theorems about the ledger at small ledgers.
use cuttlefish_vm.Base.{Text, codes, text_eq, ◌≡◌, refl, true, none, some, [], ◌∷◌}
use cuttlefish_vm.Host.Runner.Sample.{sample, string}
use cuttlefish_vm.Host.Ledger.{
  Tables, write_escalated, write_item_completed, mark_drained, open_ledger, migrate, all_columns,
  get_completed, get_item_completed, graph_fingerprint,
}
use cuttlefish_vm.Host.Ledger.Queries.{has_drain_columns, escalations}
use cuttlefish_vm.Host.Ledger.Steps.{item_completed, escalated, Reaches, here, then_step}
use cuttlefish_vm.Host.Ledger.Reopened.{open_ledger_settled}
use cuttlefish_vm.Host.Ledger.Drained.{others, escalations-mark_drained}
use cuttlefish_vm.Host.Ledger.Latest.{last_written, reread, reads_last_written}

abbrev empty_file : Tables
empty_file = record { columns = []; checkpoints = []; job_status = []; fanout_manifests = [] }

abbrev node : Text
node = codes "n"

abbrev one_item : Tables
one_item = write_item_completed sample node 0 (string (codes "x")) none (codes "now") empty_file

abbrev two_items : Tables
two_items = write_escalated sample node (some 1) (codes "judge: no") none (codes "now") one_item

abbrev two_writes : Reaches sample empty_file two_items
two_writes =
    then_step
      (then_step here (item_completed empty_file node 0 (string (codes "x")) none (codes "now")))
      (escalated one_item node (some 1) (codes "judge: no") none (codes "now"))

reads_last_written_example :
    (get_completed sample node two_items
      ≡ reread sample node none (last_written sample node none two_writes))
    × (get_item_completed sample node 0 two_items
        ≡ reread sample node (some 0) (last_written sample node (some 0) two_writes))
reads_last_written_example = reads_last_written sample empty_file two_items node 0 two_writes refl

last_item : last_written sample node (some 0) two_writes ≡ some (string (codes "x"))
unfolding text_eq
last_item = refl

abbrev opened_file : Tables
opened_file = record empty_file {
  columns = all_columns;
  job_status = (codes "running", codes "f") ∷ [];
}

opens : open_ledger (codes "f") empty_file ≡ some opened_file
unfolding open_ledger migrate
opens = refl

open_ledger_settled_example :
    (open_ledger (codes "g") opened_file ≡ some opened_file)
    × (opened_file.checkpoints ≡ empty_file.checkpoints)
    × (opened_file.fanout_manifests ≡ empty_file.fanout_manifests)
    × (has_drain_columns opened_file ≡ true)
    × (graph_fingerprint opened_file ≡ some (codes "f"))
open_ledger_settled_example =
    open_ledger_settled (codes "f") (codes "g") empty_file opened_file opens

abbrev queued : Tables
queued = write_escalated sample node none (codes "no") none (codes "now") opened_file

has_columns : has_drain_columns queued ≡ true
unfolding has_drain_columns text_eq write_escalated
has_columns = refl

escalations-mark_drained_example :
    escalations sample (mark_drained node none (codes "later") queued)
    ≡ escalations sample (record queued { checkpoints = others node none queued.checkpoints })
escalations-mark_drained_example =
    escalations-mark_drained sample node none (codes "later") queued has_columns
