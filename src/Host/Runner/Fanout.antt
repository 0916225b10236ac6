-- ===== src/Host/Runner/Fanout.antt =====
-- A node that runs once for each line of a manifest: `run_fanout_node` of
-- crates/cuttlefish-host/src/runner.rs. A statement that the ledger refuses is not modelled.
pub mod Items
pub mod Rerun
use cuttlefish_vm.Base.{
  ltb, leb, ◌==◌, if◌then◌else◌, ==_iff, Bool-cases, Option-cases, and_true, or_true, is_some,
  is_some-false, length, get_elem?, take, drop, any, all, length-append, take-append-drop,
  length-take, length-drop, All, All-append, is_empty, Text, codes, text_eq, text_eq_refl,
  text_eq-true, text_eq-false, text_eq_iff, text_eq_comm, text_lt, strip_suffix, starts_with,
  parse_digits, parse_u32, parse_u32-lt, decimal_onto, decimal, join, find_char, rfind_char, mem,
  filter, AreDistinct, mem-append, mem-left, mem-right, mem-filter, length-filter, lookup_entry,
  insert_entry, lookup_entry-insert_entry, ℕ, zero, suc, ◌+◌, ◌-◌, ◌*◌, ◌/◌, ◌%◌, ◌^◌, ◌≤◌, ◌<◌,
  min, ◌≡◌, refl, sym, ap, ◌∙◌, subst, ◌≢◌, ◌↔◌, ◌⊎◌, inl, inr, Bool, true, false, not, ◌&&◌, ◌||◌,
  Option, none, some, List, [], ◌∷◌, ◌++◌, map, arith,
}
use cuttlefish_vm.Abi.Ty.{Ty, matches_value}
use cuttlefish_vm.Abi.Describe.{describe}
use cuttlefish_vm.Abi.Status.{cancelled as job_cancelled}
use cuttlefish_vm.Host.Serde.{SerdeJson}
use cuttlefish_vm.Host.Platform.{Platform, Tried, ok, err}
use cuttlefish_vm.Host.Accept.{Alternates, CompiledChecks, trim}
use cuttlefish_vm.Host.Hex.{encode}
use cuttlefish_vm.Host.Ledger.{
  Tables, Fetched, got, panicked as read_panicked, item_concluded, get_item_completed,
  write_item_completed, write_item_failed, write_escalated, check_or_record_manifest,
}
use cuttlefish_vm.Host.Ledger.Queries.{ConcludedItem, concluded_items}
use cuttlefish_vm.Host.Runner.{CheckedNode, Envelope, fail}
use cuttlefish_vm.Host.Runner.Ladder.{
  RunStage, Ladder, Climbed, value, exhausted, fatal, panicked as ladder_panicked, run,
}

-- `str::lines`, a line read so far.
unfoldable pub strip_cr : Text → Text
strip_cr line = elim (strip_suffix (13 ∷ []) line) [ none ↦ line | some l ↦ l ]

unfoldable pub lines_onto : Text → Text → List Text
lines_onto line [] = if is_empty line then [] else line ∷ []
lines_onto line (c ∷ s) = elim (c == 10) [
  | true ↦ strip_cr line ∷ lines_onto [] s
  | false ↦ lines_onto (line ++ c ∷ []) s
]

abbrev pub schema_validation_failed : Text
schema_validation_failed = codes "schema_validation_failed"

module _ (s : SerdeJson) (p : Platform s) where
  open s use {json, to_string, from_str, string, number, object}
  open p use {
    World, Backend, chars, json_error, now_marker, read, from_utf8, sha256, create_dir_all, write,
    is_cancelled, join_path,
  }

  pub data Fanned : Type 0 where
    collected : json.Value → Fanned
    ended : Envelope s → Fanned
    panicked : Fanned

  -- What the item loop comes to.
  pub data Counted : Type 0 where
    counted : ℕ → ℕ → Counted
    ended : Envelope s → Counted
    panicked : Counted

  abbrev pub bail : Text → Envelope s
  bail message = fail s schema_validation_failed message

  abbrev pub about : Text → Text → Text
  about node_name message = codes "node `" ++ (node_name ++ (codes "`: " ++ message))

  -- The loop over the lines; `i` counts them from 0, and an error is a line's number and its text.
  unfoldable pub parse_lines : ℕ → List Text → Tried (List json.Value)
  parse_lines i [] = ok []
  parse_lines i (line ∷ rest) = elim (is_empty (trim chars line)) [
    | true ↦ parse_lines (i + 1) rest
    | false ↦ elim (from_str line) [
      | none ↦ err (decimal (i + 1) ++ (codes " is not valid JSON: " ++ json_error line))
      | some v ↦ elim (parse_lines (i + 1) rest) [ err e ↦ err e | ok vs ↦ ok (v ∷ vs) ]
    ]
  ]

  -- The manifest's bytes and items, or the message of the failure.
  unfoldable pub read_manifest : Text → World → Tried (List ℕ × List json.Value)
  read_manifest path w = elim (read path w) [
    | err e ↦ err (codes "reading fan-out manifest " ++ (path ++ (codes ": " ++ e)))
    | ok bytes ↦ elim (from_utf8 bytes) [
      | err e ↦ err (codes "fan-out manifest " ++ (path ++ (codes " is not valid UTF-8: " ++ e)))
      | ok text ↦ elim (parse_lines 0 (lines_onto [] text)) [
        | err e ↦ err (codes "fan-out manifest " ++ (path ++ (codes " line " ++ e)))
        | ok [] ↦ err (
            codes "fan-out manifest "
            ++ (path
                ++ codes
                    " is empty — zero items almost always means the step that produced it failed, and reducing over nothing would silently look like success"))
        | ok (v ∷ vs) ↦ ok (bytes, v ∷ vs)
      ]
    ]
  ]

  abbrev pub changed_manifest : Text → Text → Text → Text
  changed_manifest path previous digest =
      codes "fan-out manifest "
      ++ (path
          ++ (codes " has changed since this job first ran (was "
              ++ (previous
                  ++ (codes ", now "
                      ++ (digest
                          ++ codes
                              ") — recorded item indices no longer refer to the same inputs, so resuming would pair results with the wrong items; re-submit the job instead")))))

  abbrev pub item_message : ℕ → Text → Text
  item_message item_index message = codes "item " ++ (decimal item_index ++ (codes " " ++ message))

  abbrev pub input_mismatch : Ty → Text
  input_mismatch input =
      codes "does not match the block's declared input `" ++ (describe input ++ codes "`")

  -- `json!({"item": .., "result": ..})` or `json!({"item": .., "error": ..})`, and a line break.
  abbrev pub jsonl : ℕ → Text → json.Value → Text
  jsonl item key v = to_string (object ((codes "item", number item) ∷ (key, v) ∷ [])) ++ codes "\n"

  -- `results_out` and `failures_out`.
  unfoldable pub project_items : List (ConcludedItem s) → Text × Text
  project_items [] = ([], [])
  project_items (c ∷ rest) =
      let (results, failures) = project_items rest in
      elim c.output [
        | some v ↦ (jsonl c.item (codes "result") v ++ results, failures)
        | none ↦ elim c.error [
          | some message ↦ (results, jsonl c.item (codes "error") (string message) ++ failures)
          | none ↦ (results, failures)
        ]
      ]

  unfoldable pub first_error : List (ConcludedItem s) → Text
  first_error [] = codes "no error recorded"
  first_error (c ∷ rest) = elim c.error [ none ↦ first_error rest | some message ↦ message ]

  -- `concluded_items(..).ok().and_then(..)`
  abbrev pub error_of_first : Fetched (List (ConcludedItem s)) → Option Text
  error_of_first read_panicked = none
  error_of_first (got items) = some (first_error items)

  abbrev pub collection : Text → Text → ℕ → ℕ → json.Value
  collection results_path failures_path succeeded failed = object (
      (codes "results_path", string results_path)
      ∷ (codes "failures_path", string failures_path)
      ∷ (codes "succeeded", number succeeded)
      ∷ (codes "failed", number failed)
      ∷ [])

  -- From `results_dir` on.
  unfoldable pub materialize : Text → Text → ℕ → ℕ → World → Tables → Fanned × World
  materialize job_dir node_name succeeded failed w t =
      let results_dir = join_path job_dir (codes "results") in
      let results_path = join_path results_dir (node_name ++ codes ".results.jsonl") in
      let failures_path = join_path results_dir (node_name ++ codes ".failures.jsonl") in
      let (unmade, w1) = create_dir_all results_dir w in
      elim unmade [
        | some e ↦ (
          ended (bail (about node_name (codes "creating " ++ (results_dir ++ (codes ": " ++ e))))),
          w1,
        )
        | none ↦ elim (concluded_items s node_name t) [
          | read_panicked ↦ (panicked, w1)
          | got items ↦
              let (results, failures) = project_items items in
              let (unwritten, w2) = write results_path results w1 in
              elim unwritten [
                | some e ↦ (
                  ended (
                      bail (
                        about node_name (codes "writing " ++ (results_path ++ (codes ": " ++ e))))),
                  w2,
                )
                | none ↦
                    let (unwritten', w3) = write failures_path failures w2 in
                    elim unwritten' [
                      | some e ↦ (
                        ended (
                            bail (
                              about node_name
                                (codes "writing " ++ (failures_path ++ (codes ": " ++ e))))),
                        w3,
                      )
                      | none ↦
                          (collected (collection results_path failures_path succeeded failed), w3)
                    ]
              ]
        ]
      ]
