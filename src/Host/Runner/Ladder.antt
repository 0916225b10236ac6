-- ===== src/Host/Runner/Ladder.antt =====
-- One attempt at a node, and the ladder of attempts: `Ladder` of crates/cuttlefish-host/src/runner.rs.
-- `run_stage`, which drives the guest, is a parameter. The two loops of `Ladder::run` are `climb`: its
-- rungs are those from `rung` on.
pub mod Schedule
pub mod Rounds
pub mod Bounds
pub mod Accepted
use cuttlefish_vm.Base.{
  ltb, leb, ◌==◌, if◌then◌else◌, ==_iff, Bool-cases, Option-cases, and_true, or_true, is_some,
  is_some-false, length, get_elem?, take, drop, any, all, length-append, take-append-drop,
  length-take, length-drop, All, All-append, is_empty, Text, codes, text_eq, text_eq_refl,
  text_eq-true, text_eq-false, text_eq_iff, text_eq_comm, text_lt, strip_suffix, starts_with,
  parse_digits, parse_u32, parse_u32-lt, decimal_onto, decimal, join, find_char, rfind_char, mem,
  filter, AreDistinct, mem-append, mem-left, mem-right, mem-filter, length-filter, lookup_entry,
  insert_entry, lookup_entry-insert_entry, ℕ, zero, suc, ◌+◌, ◌-◌, ◌*◌, ◌/◌, ◌%◌, ◌^◌, ◌≤◌, ◌<◌,
  min, ◌≡◌, refl, sym, ap, ◌∙◌, subst, ◌≢◌, ◌↔◌, ◌⊎◌, inl, inr, Bool, true, false, not, ◌&&◌, ◌||◌,
  Option, none, some, List, [], ◌∷◌, ◌++◌, map, arith,
}
use cuttlefish_vm.Abi.Ty.{Ty, matches_value}
use cuttlefish_vm.Abi.Status.{JobStatus, JobError, status_eq, cancelled}
use cuttlefish_vm.Abi.Describe.{describe}
use cuttlefish_vm.Core.Graph.{ModelRef, Rung, retry, reroute, escalate}
use cuttlefish_vm.Host.Serde.{SerdeJson}
use cuttlefish_vm.Host.Platform.{Platform}
use cuttlefish_vm.Host.Accept.{
  JudgeVerdict, accepted, rejected, unusable, CompiledChecks, Alternates, check_schemas, run_judges,
  model_text,
}
use cuttlefish_vm.Host.Runner.{Envelope}

module _ (s : SerdeJson) (p : Platform s) where
  open s use {json, to_string, get_str}
  open p use {World, Backend}

  -- A `Result` whose error is a finished envelope.
  pub data Staged : Type 0 where
    produced : json.Value → Staged
    stopped : Envelope s → Staged

  -- The module's bytes, the backend, the input, the script.
  abbrev pub RunStage : Type 0
  RunStage = List ℕ → Backend → json.Value → Option Text → World → Staged × World

  -- `Result<Value, LadderError>`; `panicked` is the `expect` of a missing `max_iterations`.
  pub data Climbed : Type 0 where
    value : json.Value → Climbed
    exhausted : Text → Bool → Option (Envelope s) → Climbed
    fatal : Envelope s → Climbed
    panicked : Climbed

  pub record Ladder : Type 0 where
    pub default_backend : Backend
    pub alternates : Alternates s p
    pub checks : CompiledChecks s p
    pub expected : Ty
    pub on_fail : List Rung
    pub repeat_until : Option Text
    pub max_iterations : Option ℕ

  abbrev pub Attempt : Type 0
  Attempt = Backend → World → Climbed × World

  abbrev pub reason_of : Option JobError → Text
  reason_of none = codes "failed with no error detail"
  reason_of (some e) = e.code ++ (codes ": " ++ e.message)

  unfoldable pub stage_failed : Envelope s → Climbed
  stage_failed envelope =
      if status_eq envelope.status cancelled
      then fatal envelope
      else exhausted (reason_of envelope.error) false (some envelope)

  abbrev pub rejected_for : Text → Climbed
  rejected_for reason = exhausted reason false none

  -- `produced.get(field).and_then(|v| v.as_str()) == Some("done")`
  unfoldable pub says_done : Text → json.Value → Bool
  says_done field v = elim (get_str v field) [ none ↦ false | some t ↦ text_eq t (codes "done") ]

  unfoldable pub accept_value : Ladder → json.Value → json.Value → World → Climbed × World
  accept_value l input v w =
      if not (matches_value json l.expected v)
      then (
        rejected_for (
            codes "produced "
            ++ (to_string v
                ++ (codes ", which doesn't match the declared output `"
                    ++ (describe l.expected ++ codes "`")))),
        w,
      )
      else elim (check_schemas s p l.checks.schemas v) [
        | some why ↦ (rejected_for why, w)
        | none ↦
            let (verdict, w') =
              run_judges s p l.checks.judges input v l.default_backend l.alternates w in
            (
              elim verdict [
                | accepted ↦ value v
                | rejected why ↦ rejected_for (codes "judge: " ++ why)
                | unusable why ↦ rejected_for (codes "judge gave no usable verdict: " ++ why)
              ],
              w',
            )
      ]

  -- What an iteration makes of its stage.
  abbrev pub then_value : Staged × World → (json.Value → World → Climbed × World) → Climbed × World
  then_value (produced v, w) next = next v w
  then_value (stopped envelope, w) next = (stage_failed envelope, w)

  abbrev pub not_done : ℕ → Climbed
  not_done max =
      rejected_for
        (codes "did not reach repeat_until=\"done\" within max_iterations=" ++ decimal max)

  -- The `loop` of `attempt` under `repeat_until`, `more` iterations to follow this one at most.
  unfoldable pub iterate :
      ℕ → ℕ → Text → (json.Value → World → Staged × World) → json.Value → World → Climbed × World
  iterate zero max field stage current w =
      then_value (stage current w)
        λ v w'. if says_done field v then (value v, w') else (not_done max, w')
  iterate (suc more) max field stage current w = then_value (stage current w) λ v w'.
      elim (says_done field v) [ true ↦ (value v, w') | false ↦ iterate more max field stage v w' ]

  -- The whole loop; with no `max_iterations` it panics at the first output that is not done.
  unfoldable pub run_rounds :
      Option Text
      → Option ℕ
      → (json.Value → World → Staged × World)
      → json.Value
      → World
      → Climbed × World
  run_rounds none max stage input w = then_value (stage input w) λ v w'. (value v, w')
  run_rounds (some field) (some max) stage input w = iterate (max - 1) max field stage input w
  run_rounds (some field) none stage input w =
      then_value (stage input w) λ v w'. if says_done field v then (value v, w') else (panicked, w')

  abbrev pub run_iterations :
      Ladder → (json.Value → World → Staged × World) → json.Value → World → Climbed × World
  run_iterations l = run_rounds l.repeat_until l.max_iterations

  -- `?` on the result of the loop.
  abbrev pub then_accept :
      Climbed × World → (json.Value → World → Climbed × World) → Climbed × World
  then_accept (value v, w) next = next v w
  then_accept (exhausted reason escalated envelope, w) next =
      (exhausted reason escalated envelope, w)
  then_accept (fatal envelope, w) next = (fatal envelope, w)
  then_accept (panicked, w) next = (panicked, w)

  unfoldable pub attempt :
      RunStage → Ladder → List ℕ → Option Text → json.Value → Backend → World → Climbed × World
  attempt run_stage l module_bytes script input backend w =
      then_accept
        (run_iterations l (λ current. run_stage module_bytes backend current script) input w)
        (accept_value l input)

  -- What an attempt leaves to decide: it was accepted, the job stops, or `next` is the next move.
  abbrev pub or_else :
      Climbed × World → (Text → Option (Envelope s) → World → Climbed × World) → Climbed × World
  or_else (value v, w) next = (value v, w)
  or_else (fatal envelope, w) next = (fatal envelope, w)
  or_else (panicked, w) next = (panicked, w)
  or_else (exhausted reason escalated envelope, w) next = next reason envelope w

  abbrev pub unresolved : ModelRef → Text → Climbed
  unresolved model reason = rejected_for (
      codes "reroute names model `"
      ++ (model_text model
          ++ (codes "`, which was not resolved at startup (after: " ++ (reason ++ codes ")"))))

  -- The loops of `run` behind a failed attempt: the rungs left, the retries left, the backend.
  unfoldable pub climb :
      Alternates s p
      → Attempt
      → List Rung
      → ℕ
      → Backend
      → Text
      → Option (Envelope s)
      → World
      → Climbed × World
  climb alternates try rungs (suc retries) b reason envelope w =
      or_else (try b w) (climb alternates try rungs retries b)
  climb alternates try [] zero b reason envelope w = (exhausted reason false envelope, w)
  climb alternates try (retry n ∷ rest) zero b reason envelope w =
      climb alternates try rest n b reason envelope w
  climb alternates try (escalate ∷ rest) zero b reason envelope w =
      (exhausted reason true envelope, w)
  climb alternates try (reroute model ∷ rest) zero b reason envelope w = elim (alternates model) [
    | none ↦ (unresolved model reason, w)
    | some b' ↦ or_else (try b' w) (climb alternates try rest zero b')
  ]

  unfoldable pub run :
      RunStage → Ladder → List ℕ → Option Text → json.Value → World → Climbed × World
  unfolding climb
  run run_stage l module_bytes script input w =
      let try : Attempt = attempt run_stage l module_bytes script input in
      or_else (try l.default_backend w) (climb l.alternates try l.on_fail zero l.default_backend)
