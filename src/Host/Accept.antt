-- ===== src/Host/Accept.antt =====
-- Acceptance checks: crates/cuttlefish-host/src/accept.rs.
pub mod Order
use cuttlefish_vm.Base.{
  ltb, leb, ◌==◌, if◌then◌else◌, ==_iff, Bool-cases, Option-cases, and_true, or_true, is_some,
  is_some-false, length, get_elem?, take, drop, any, all, length-append, take-append-drop,
  length-take, length-drop, All, All-append, is_empty, Text, codes, text_eq, text_eq_refl,
  text_eq-true, text_eq-false, text_eq_iff, text_eq_comm, text_lt, strip_suffix, starts_with,
  parse_digits, parse_u32, parse_u32-lt, decimal_onto, decimal, join, find_char, rfind_char, mem,
  filter, AreDistinct, mem-append, mem-left, mem-right, mem-filter, length-filter, lookup_entry,
  insert_entry, lookup_entry-insert_entry, ℕ, zero, suc, ◌+◌, ◌-◌, ◌*◌, ◌/◌, ◌%◌, ◌^◌, ◌≤◌, ◌<◌,
  min, ◌≡◌, refl, sym, ap, ◌∙◌, subst, ◌≢◌, ◌↔◌, ◌⊎◌, inl, inr, Bool, true, false, not, ◌&&◌, ◌||◌,
  Option, none, some, List, [], ◌∷◌, ◌++◌, map, arith,
}
use cuttlefish_vm.Core.Lex.{Chars}
use cuttlefish_vm.Core.Graph.{ModelRef, AcceptCheck, schema, judge}
use cuttlefish_vm.Host.Serde.{SerdeJson}
use cuttlefish_vm.Host.Platform.{Platform, Tried, ok, err}

abbrev pub judge_max_tokens : ℕ
judge_max_tokens = 256

pub data JudgeVerdict : Type 0 where
  accepted : JudgeVerdict
  rejected unusable : Text → JudgeVerdict

-- `Display` of a `ModelRef`.
abbrev pub model_text : ModelRef → Text
model_text m = m.provider ++ codes ":" ++ m.target

unfoldable pub trim_start : Chars → Text → Text
trim_start u [] = []
trim_start u (c ∷ s) = if u.is_whitespace c then trim_start u s else c ∷ s

unfoldable pub trim_end : Chars → Text → Text
trim_end u [] = []
trim_end u (c ∷ s) =
    let rest = trim_end u s in if is_empty rest && u.is_whitespace c then [] else c ∷ rest

abbrev pub trim : Chars → Text → Text
trim u s = trim_end u (trim_start u s)

-- `&reply[start..=end]`, where `end` lies behind `start`.
unfoldable pub braces_span : Text → Option Text
braces_span reply = elim (find_char b'{' reply) [
  | none ↦ none
  | some start ↦ elim (rfind_char b'}' reply) [
    | none ↦ none
    | some end ↦ if leb end start then none else some (take (end + 1 - start) (drop start reply))
  ]
]

module _ (s : SerdeJson) (p : Platform s) where
  open s use {json, to_string, from_str, get_str}
  open p use {
    World, Backend, Validator, chars, debug, read_to_string, json_error, validator_for, iter_errors,
    get_bool, infer,
  }

  pub record CompiledChecks : Type 0 where
    pub schemas : List (Text × Validator)
    pub judges : List (Option ModelRef × Text)

  abbrev pub Alternates : Type 0
  Alternates = ModelRef → Option Backend

  -- The `Schema` arm of `compile`.
  unfoldable pub compile_schema : Text → Tried Validator
  compile_schema path = elim (read_to_string path) [
    | err e ↦ err (codes "reading accept schema " ++ path ++ codes ": " ++ e)
    | ok text ↦ elim (from_str text) [
      | none ↦
          err (codes "accept schema " ++ path ++ codes " is not valid JSON: " ++ json_error text)
      | some value ↦ elim (validator_for value) [
        | err e ↦ err (codes "accept schema " ++ path ++ codes " is not a valid JSON Schema: " ++ e)
        | ok validator ↦ ok validator
      ]
    ]
  ]

  -- The loop of `compile`.
  unfoldable pub compile_onto : CompiledChecks → List AcceptCheck → Tried CompiledChecks
  compile_onto done [] = ok done
  compile_onto done (judge model prompt ∷ rest) =
      compile_onto (record done { judges = done.judges ++ (model, prompt) ∷ [] }) rest
  compile_onto done (schema path ∷ rest) = elim (compile_schema path) [
    | err e ↦ err e
    | ok v ↦ compile_onto (record done { schemas = done.schemas ++ (path, v) ∷ [] }) rest
  ]

  unfoldable pub compile : List AcceptCheck → Tried CompiledChecks
  compile checks = compile_onto (record { schemas = []; judges = [] }) checks

  -- `check_schemas`; `none` is `Ok(())`.
  unfoldable pub check_schemas : List (Text × Validator) → json.Value → Option Text
  check_schemas [] value = none
  check_schemas ((path, validator) ∷ rest) value =
      if is_empty (iter_errors validator value)
      then check_schemas rest value
      else some (
          codes "does not conform to "
          ++ path
          ++ codes ":\n"
          ++ join (codes "\n") (iter_errors validator value))

  unfoldable pub judge_prompt : Text → json.Value → json.Value → Text
  judge_prompt prompt input output =
      prompt
      ++ codes "\n\n--- INPUT ---\n"
      ++ to_string input
      ++ codes "\n\n--- OUTPUT UNDER REVIEW ---\n"
      ++ to_string output
      ++ codes
          "\n\n--- END ---\nReply with JSON only: {\"accept\": true|false, \"reason\": \"...\"}"

  unfoldable pub extract_json : Text → Option json.Value
  extract_json reply = elim (from_str (trim chars reply)) [
    | some v ↦ some v
    | none ↦ elim (braces_span reply) [ none ↦ none | some span ↦ from_str span ]
  ]

  unfoldable pub parse_verdict : Text → Tried Bool
  parse_verdict reply = elim (extract_json reply) [
    | none ↦ err (codes "judge reply contained no JSON object: " ++ debug reply)
    | some value ↦ elim (get_bool value (codes "accept")) [
      | none ↦ err (codes "judge reply has no boolean `accept` field: " ++ debug reply)
      | some b ↦ ok b
    ]
  ]

  unfoldable pub verdict_reason : Text → Option Text
  verdict_reason reply = elim (extract_json reply) [
    | none ↦ none
    | some value ↦ get_str value (codes "reason")
  ]

  -- What a reply leads to; `none` is `continue`.
  unfoldable pub judge_reply : Tried Text → Option JudgeVerdict
  judge_reply (err e) = some (unusable (codes "judge inference failed: " ++ e))
  judge_reply (ok reply) = elim (parse_verdict reply) [
    | err why ↦ some (unusable why)
    | ok true ↦ none
    | ok false ↦ elim (verdict_reason reply) [
      | none ↦ some (rejected (codes "no reason given"))
      | some why ↦ some (rejected why)
    ]
  ]

  -- The backend that serves a judge.
  abbrev pub judge_backend : Backend → Alternates → Option ModelRef → Option Backend
  judge_backend default alternates none = some default
  judge_backend default alternates (some m) = alternates m

  abbrev model_name_of : Option ModelRef → Text
  model_name_of none = []
  model_name_of (some m) = model_text m

  unfoldable pub run_judges :
      List (Option ModelRef × Text)
      → json.Value
      → json.Value
      → Backend
      → Alternates
      → World
      → JudgeVerdict × World
  run_judges [] input output default alternates w = (accepted, w)
  run_judges ((model, prompt) ∷ rest) input output default alternates w =
      elim (judge_backend default alternates model) [
        | none ↦ (
          unusable (
              codes "judge names model `"
              ++ model_name_of model
              ++ codes "`, which was not resolved at startup"),
          w,
        )
        | some backend ↦
            let (reply, w') = infer backend (judge_prompt prompt input output) judge_max_tokens w in
            elim (judge_reply reply) [
              | some verdict ↦ (verdict, w')
              | none ↦ run_judges rest input output default alternates w'
            ]
      ]
