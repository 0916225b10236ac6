-- ===== src/Host/Runner.antt =====
-- What a job runs on: crates/cuttlefish-host/src/runner.rs. The usage that an envelope carries is
-- left out, and so are the progress events.
pub mod Ladder
pub mod Sample
pub mod Tests
pub mod Fanout
pub mod Job
use cuttlefish_vm.Base.{
  ltb, leb, ◌==◌, if◌then◌else◌, ==_iff, Bool-cases, Option-cases, and_true, or_true, is_some,
  is_some-false, length, get_elem?, take, drop, any, all, length-append, take-append-drop,
  length-take, length-drop, All, All-append, is_empty, Text, codes, text_eq, text_eq_refl,
  text_eq-true, text_eq-false, text_eq_iff, text_eq_comm, text_lt, strip_suffix, starts_with,
  parse_digits, parse_u32, parse_u32-lt, decimal_onto, decimal, join, find_char, rfind_char, mem,
  filter, AreDistinct, mem-append, mem-left, mem-right, mem-filter, length-filter, lookup_entry,
  insert_entry, lookup_entry-insert_entry, ℕ, zero, suc, ◌+◌, ◌-◌, ◌*◌, ◌/◌, ◌%◌, ◌^◌, ◌≤◌, ◌<◌,
  min, ◌≡◌, refl, sym, ap, ◌∙◌, subst, ◌≢◌, ◌↔◌, ◌⊎◌, inl, inr, Bool, true, false, not, ◌&&◌, ◌||◌,
  Option, none, some, List, [], ◌∷◌, ◌++◌, map, arith,
}
use cuttlefish_vm.Abi.Ty.{Ty}
use cuttlefish_vm.Abi.Describe.{Signature}
use cuttlefish_vm.Abi.Status.{JobStatus, JobError, failed, cancelled as job_cancelled}
use cuttlefish_vm.Core.Graph.{
  ModelRef, InputExpr, from_node, record_of, list_of, Inputs, end, field, Items, nil, item, Node,
  Nodes, NodeGraph, AcceptCheck, schema, judge, Rung, retry, reroute, escalate,
}
use cuttlefish_vm.Host.Serde.{SerdeJson}

-- A node of the checked graph, crates/cuttlefish-host/src/dag.rs; where its module came from is left
-- out. `module_bytes` is the list of the bytes.
pub record CheckedNode : Type 0 where
  pub name : Text
  pub module_bytes : List ℕ
  pub signature : Signature
  pub input : Option InputExpr
  pub repeat_until : Option Text
  pub max_iterations : Option ℕ
  pub script : Option Text
  pub over : Option Text
  pub item_output : Option Ty
  pub accept : List AcceptCheck
  pub on_fail : List Rung

-- Models are equal field by field.
abbrev pub model_eq : ModelRef → ModelRef → Bool
model_eq a b = text_eq a.provider b.provider && text_eq a.target b.target

-- The closure `push` of `alternate_models_of`.
unfoldable pub push_model : ModelRef → ModelRef → List ModelRef → List ModelRef
push_model own model seen =
    if not (model_eq model own) && not (any (λ m. model_eq m model) seen)
    then seen ++ model ∷ []
    else seen

unfoldable pub push_rungs : ModelRef → List Rung → List ModelRef → List ModelRef
push_rungs own [] seen = seen
push_rungs own (reroute model ∷ rest) seen = push_rungs own rest (push_model own model seen)
push_rungs own (retry n ∷ rest) seen = push_rungs own rest seen
push_rungs own (escalate ∷ rest) seen = push_rungs own rest seen

unfoldable pub push_checks : ModelRef → List AcceptCheck → List ModelRef → List ModelRef
push_checks own [] seen = seen
push_checks own (judge (some model) prompt ∷ rest) seen =
    push_checks own rest (push_model own model seen)
push_checks own (judge none prompt ∷ rest) seen = push_checks own rest seen
push_checks own (schema path ∷ rest) seen = push_checks own rest seen

-- The loop of `alternate_models_of`, for a spec whose own model is `own`.
unfoldable pub alternate_models_of : ModelRef → Nodes → List ModelRef → List ModelRef
alternate_models_of own [] seen = seen
alternate_models_of own ((name, node) ∷ rest) seen =
    alternate_models_of own rest (push_checks own node.accept (push_rungs own node.on_fail seen))

unfoldable mutual
  pub references_any : InputExpr → List Text → Bool
  references_any (from_node n) skipped = mem n skipped
  references_any (record_of fields) skipped = any_field fields skipped
  references_any (list_of items) skipped = any_item items skipped

  pub any_field : Inputs → List Text → Bool
  any_field end skipped = false
  any_field (field k e rest) skipped = references_any e skipped || any_field rest skipped

  pub any_item : Items → List Text → Bool
  any_item nil skipped = false
  any_item (item e rest) skipped = references_any e skipped || any_item rest skipped

module _ (s : SerdeJson) where
  open s use {json, null, array, object}

  pub record Envelope : Type 0 where
    pub status : JobStatus
    pub result : Option json.Value
    pub error : Option JobError

  unfoldable pub fail : Text → Text → Envelope
  fail code message = record {
    status = failed;
    result = none;
    error = some (record { code = code; message = message });
  }

  unfoldable pub cancelled : Text → Envelope
  cancelled message = record {
    status = job_cancelled;
    result = none;
    error = some (record { code = codes "cancelled"; message = message });
  }

  abbrev pub Outputs : Type 0
  Outputs = List (Text × json.Value)

  -- `outputs.get(n).cloned().unwrap_or(Value::Null)`
  abbrev pub output_or_null : Option json.Value → json.Value
  output_or_null none = null
  output_or_null (some v) = v

  unfoldable mutual
    pub evaluate_input : InputExpr → Outputs → json.Value
    evaluate_input (from_node n) outputs = output_or_null (lookup_entry n outputs)
    evaluate_input (record_of fields) outputs = object (evaluate_fields fields outputs)
    evaluate_input (list_of items) outputs = array (evaluate_items items outputs)

    pub evaluate_fields : Inputs → Outputs → List (Text × json.Value)
    evaluate_fields end outputs = []
    evaluate_fields (field k v rest) outputs =
        (k, evaluate_input v outputs) ∷ evaluate_fields rest outputs

    pub evaluate_items : Items → Outputs → List json.Value
    evaluate_items nil outputs = []
    evaluate_items (item e rest) outputs = evaluate_input e outputs ∷ evaluate_items rest outputs
