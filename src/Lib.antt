-- ===== src/Lib.antt =====
-- Cuttlefish: specs of jobs for local models, the daemon that runs their blocks in a sandbox, and the
-- tools around it. This library models the program's own logic, component by component.
--
-- * `Core.Lex` is `lex` of crates/cuttlefish-core/src/lex.rs. Its `step` is one round of the `while`
--   loop; `Core.Lex.Grammar` says what a text is made of, without the lexer.
-- * `Core.Graph` is the graph of a spec and `is_simple_chain`, of crates/cuttlefish-core/src/graph.rs.
--   Its `Parser` is `GraphParser`: `look` reads the token at the position (`peek`), `Bodies` has nodes,
--   checks, ladders and branches, the other children what each step achieves.
-- * `Core.Parse` has what both parsers share: the errors and a parser as a function of its position.
-- * `Core.Spec` is `parse_spec` of crates/cuttlefish-core/src/spec.rs, over the lexer and `GraphParser`;
--   its `Paths` is `validate_host_read_paths`, on paths of a Unix system.
-- * `Abi.Ty` is `Ty` of crates/cuttlefish-abi/src/lib.rs, with the seam check `assignable_to` and the
--   run-time check `matches_value`; `Abi.Describe` renders it, `Abi.Status` is the life of a job.
-- * `Host.Dag` is `topological_order` of crates/cuttlefish-host/src/dag.rs, stage by stage: the map of
--   dependencies (`Entries`, `Collect`), one round (`Ready`), the loop (`Order`), the whole.
--   `Exclusivity` is `compute_branch_exclusivity`, with `Unmarked` and `Marks` about its loop.
-- * `Host.Hex` is `encode` of crates/cuttlefish-host/src/hex.rs.
-- * `Host.Serde` and `Host.Platform` are the parameters: serde_json, and the files, the schema
--   validator, the digest, the clock and the backends, with the state `World` that they share.
-- * `Host.Accept` is crates/cuttlefish-host/src/accept.rs: `compile`, `check_schemas`, `run_judges`.
-- * `Host.Ledger` is crates/cuttlefish-host/src/ledger.rs: `Tables` is what the SQLite file holds, each
--   operation what its statements do to the rows; `Queries` lists items and escalations, `Steps` is
--   the relation of all writes.
-- * `Host.Runner` is crates/cuttlefish-host/src/runner.rs. `Runner.Ladder` is one attempt and the
--   ladder of attempts, `Runner.Fanout` a node that runs over a manifest, `Runner.Job` the node loop,
--   and its `Block` the whole of `run_job`. The fan-out and the node loop climb the ladder and write
--   to the ledger, and `run_job` records there how the job ended.
-- * `Host.Caps` is crates/cuttlefish-host/src/caps.rs, over a parameter for what stands at a path,
--   which is the list of its components. `read_denial` takes fuel of one more than these, and that
--   this is enough is proved.
-- * `Host.Handles` is crates/cuttlefish-host/src/handles.rs, the files that a job has open; a file is
--   its bytes, taken not to change while it is open, and a failure to read it then is not modelled.
-- * `Daemon.Store` is `JobStore` of crates/cuttlefishd/src/state.rs, one function for each critical
--   section, and the scan for interrupted jobs of crates/cuttlefishd/src/lib.rs, over the ledgers.
--
-- A text is the list of its code points, a path is its text, a `HashMap` is the list of its entries.
-- A `u32` position wraps at 2 ^ 32. A loop takes fuel: the lexer one round for each character, the
-- ordering one round more than there are names, the parsers twice the tokens and one more; that this
-- is enough is proved. An `unwrap` of `None` is an outcome of its own. The Unicode tables of `char` are
-- a parameter, of which only the ASCII part is assumed, and `to_lowercase` is one with no assumption.
-- Of serde_json it is assumed that an object has no member but those that it is built of; that a
-- written value is read back is not, and is a condition of a theorem where it matters.
--
-- The ladder recurs on its rungs and retries, and the loop of `repeat_until` on `max_iterations`; a
-- panic of an `expect` is an outcome. The propagation of branches takes one round more than nodes.
--
-- Not modelled: `run_stage`, which drives the guest and is a parameter of the runner; the usage of an
-- envelope, progress events and the warehouse; a statement that SQLite refuses; the text of the
-- parsers' messages (values of `Complaint`); serialization; and the other crates, which are mostly
-- input and output, or calls of libraries.
pub mod Base
pub mod Abi
pub mod Core
pub mod Host
pub mod Daemon
