-- ===== src/Host/Runner/Ladder/Accepted.antt =====
-- What an attempt and the ladder give: an accepted value, a cancellation, no panic.
use cuttlefish_vm.Base.{
  if◌then◌else◌, Bool-cases, Option-cases, is_some, Text, codes, ℕ, zero, suc, ◌-◌, ◌≡◌, refl, ap,
  inl, inr, Bool, true, false, Option, none, some, List, [], ◌∷◌, ◌++◌,
}
use cuttlefish_vm.Abi.Ty.{matches_value}
use cuttlefish_vm.Abi.Status.{status_eq, cancelled}
use cuttlefish_vm.Core.Graph.{Rung, retry, reroute, escalate}
use cuttlefish_vm.Host.Serde.{SerdeJson}
use cuttlefish_vm.Host.Platform.{Platform}
use cuttlefish_vm.Host.Accept.{
  check_schemas, run_judges, accepted, rejected, unusable, JudgeVerdict,
}
use cuttlefish_vm.Host.Runner.{Envelope}
use cuttlefish_vm.Host.Runner.Ladder.{
  RunStage, Climbed, value, exhausted, fatal, panicked, Ladder, Attempt, attempt, or_else, climb,
  run, Staged, produced, stopped, stage_failed, says_done, accept_value, then_value, iterate,
  then_accept, rejected_for, run_rounds,
}

abbrev pub has_escalate : List Rung → Bool
has_escalate [] = false
has_escalate (escalate ∷ rest) = true
has_escalate (retry n ∷ rest) = has_escalate rest
has_escalate (reroute model ∷ rest) = has_escalate rest

module _ (s : SerdeJson) (p : Platform s) where
  open p use {World}

  -- A value that meets the declared type, every schema and, at some point, every judge.
  abbrev pub IsAccepted : Ladder s p → s.json.Value → s.json.Value → Type 0
  IsAccepted l input v =
      (matches_value s.json l.expected v ≡ true)
      × (check_schemas s p l.checks.schemas v ≡ none)
      × ((w : World) × ((run_judges s p l.checks.judges input v l.default_backend l.alternates w).0
            ≡ accepted))

  -- What holds of every result of an attempt.
  abbrev pub IsSound : Ladder s p → Bool → s.json.Value → Climbed s p → Type 0
  IsSound l may_escalate input (value v) = IsAccepted l input v
  IsSound l may_escalate input (fatal e) = status_eq e.status cancelled ≡ true
  IsSound l may_escalate input panicked =
      (is_some l.repeat_until ≡ true) × (is_some l.max_iterations ≡ false)
  IsSound l may_escalate input (exhausted reason escalated e) =
      escalated ≡ true → may_escalate ≡ true

  stage_failed-IsSound :
      (l : Ladder s p) (m : Bool) (input : s.json.Value) (e : Envelope s)
      → IsSound l m input (stage_failed s p e)
  unfolding stage_failed
  stage_failed-IsSound l m input e = elim (Bool-cases (status_eq e.status cancelled)) [
    | inl c ↦ rw c c
    | inr c ↦ rw c (λ h. cc)
  ]

  -- Whatever is no value is sound before it is accepted.
  abbrev IsEarly : Ladder s p → s.json.Value → Climbed s p → Type 0
  IsEarly l input (value v) = Unit
  IsEarly l input (fatal e) = status_eq e.status cancelled ≡ true
  IsEarly l input panicked = (is_some l.repeat_until ≡ true) × (is_some l.max_iterations ≡ false)
  IsEarly l input (exhausted reason escalated e) = escalated ≡ false

  accept_value-IsSound :
      (l : Ladder s p) (m : Bool) (input v : s.json.Value) (w : World)
      → IsSound l m input (accept_value s p l input v w).0
  unfolding accept_value
  accept_value-IsSound l m input v w = elim (Bool-cases (matches_value s.json l.expected v)) [
    | inr unfit ↦ rw unfit (λ h. cc)
    | inl fit ↦ rw fit (elim (Option-cases (check_schemas s p l.checks.schemas v)) [
      | inr (why, e) ↦ rw e (λ h. cc)
      | inl e ↦ rw e (
          judged fit e (run_judges s p l.checks.judges input v l.default_backend l.alternates w).0
            refl)
    ])
  ]
    where
      judged :
          matches_value s.json l.expected v ≡ true
          → check_schemas s p l.checks.schemas v ≡ none
          → (verdict : JudgeVerdict)
          → (run_judges s p l.checks.judges input v l.default_backend l.alternates w).0 ≡ verdict
          → IsSound l m input (elim verdict [
            | accepted ↦ value v
            | rejected why ↦ rejected_for s p (codes "judge: " ++ why)
            | unusable why ↦ rejected_for s p (codes "judge gave no usable verdict: " ++ why)
          ])
      judged fit conforms accepted e = (fit, conforms, (w, e))
      judged fit conforms (rejected why) e = λ h. cc
      judged fit conforms (unusable why) e = λ h. cc

  stage_failed-IsEarly :
      (l : Ladder s p) (input : s.json.Value) (e : Envelope s)
      → IsEarly l input (stage_failed s p e)
  unfolding stage_failed
  stage_failed-IsEarly l input e = elim (Bool-cases (status_eq e.status cancelled)) [
    | inl c ↦ rw c c
    | inr c ↦ rw c refl
  ]

  then_value-IsEarly :
      (l : Ladder s p) (input : s.json.Value) (r : Staged s p × World)
      (f : s.json.Value → World → Climbed s p × World)
      → ((v : s.json.Value) (w : World) → IsEarly l input (f v w).0)
      → IsEarly l input (then_value s p r f).0
  then_value-IsEarly l input (produced v, w) f h = h v w
  then_value-IsEarly l input (stopped e, w) f h = stage_failed-IsEarly l input e

  done-IsEarly :
      (l : Ladder s p) (input v : s.json.Value) (b : Bool) (other : Climbed s p × World) (w : World)
      → IsEarly l input other.0
      → IsEarly l input (if b then (value v, w) else other).0
  done-IsEarly l input v true other w h = tt
  done-IsEarly l input v false other w h = h

  iterate-IsEarly :
      (l : Ladder s p) (input : s.json.Value) (more max : ℕ) (field : Text)
      (stage : s.json.Value → World → Staged s p × World) (current : s.json.Value) (w : World)
      → IsEarly l input (iterate s p more max field stage current w).0
  unfolding iterate
  iterate-IsEarly l input zero max field stage current w =
      then_value-IsEarly l input (stage current w) _
        λ v w'. done-IsEarly l input v (says_done s p field v) _ w' refl
  iterate-IsEarly l input (suc more) max field stage current w =
      then_value-IsEarly l input (stage current w) _ λ v w'.
        elim (Bool-cases (says_done s p field v)) [
          | inl e ↦ rw e tt
          | inr e ↦ rw e (iterate-IsEarly l input more max field stage v w')
        ]

  run_rounds-IsEarly :
      (l : Ladder s p) (until : Option Text) (max : Option ℕ)
      (stage : s.json.Value → World → Staged s p × World) (input : s.json.Value) (w : World)
      → l.repeat_until ≡ until
      → l.max_iterations ≡ max
      → IsEarly l input (run_rounds s p until max stage input w).0
  unfolding run_rounds
  run_rounds-IsEarly l none max stage input w e f =
      then_value-IsEarly l input (stage input w) _ λ v w'. tt
  run_rounds-IsEarly l (some field) (some max) stage input w e f =
      iterate-IsEarly l input (max - 1) max field stage input w
  run_rounds-IsEarly l (some field) none stage input w e f =
      then_value-IsEarly l input (stage input w) _
        λ v w'. done-IsEarly l input v (says_done s p field v) _ w' (ap is_some e, ap is_some f)

  then_accept-IsSound :
      (l : Ladder s p) (m : Bool) (input : s.json.Value) (c : Climbed s p × World)
      → IsEarly l input c.0
      → IsSound l m input (then_accept s p c (accept_value s p l input)).0
  then_accept-IsSound l m input (value v, w) h = accept_value-IsSound l m input v w
  then_accept-IsSound l m input (exhausted r escalated e, w) h = λ k. cc
  then_accept-IsSound l m input (fatal e, w) h = h
  then_accept-IsSound l m input (panicked, w) h = h

  or_else-IsSound :
      (l : Ladder s p) (m : Bool) (input : s.json.Value) (c : Climbed s p × World)
      (f : Text → Option (Envelope s) → World → Climbed s p × World)
      → IsSound l m input c.0
      → ((r : Text) (e : Option (Envelope s)) (w : World) → IsSound l m input (f r e w).0)
      → IsSound l m input (or_else s p c f).0
  or_else-IsSound l m input (value v, w) f h k = h
  or_else-IsSound l m input (fatal e, w) f h k = h
  or_else-IsSound l m input (panicked, w) f h k = h
  or_else-IsSound l m input (exhausted r escalated e, w) f h k = k r e w

  climb-IsSound :
      (l : Ladder s p) (m : Bool) (input : s.json.Value) (try : Attempt s p)
      → ((b : p.Backend) (w : World) → IsSound l m input (try b w).0)
      → (rungs : List Rung) (retries : ℕ) (b : p.Backend) (reason : Text)
        (envelope : Option (Envelope s)) (w : World)
      → (has_escalate rungs ≡ true → m ≡ true)
      → IsSound l m input (climb s p l.alternates try rungs retries b reason envelope w).0
  unfolding climb
  climb-IsSound l m input try sound rungs (suc k) b reason envelope w h =
      or_else-IsSound l m input (try b w) _ (sound b w)
        (λ r e w'. climb-IsSound l m input try sound rungs k b r e w' h)
  climb-IsSound l m input try sound [] zero b reason envelope w h = λ k. cc
  climb-IsSound l m input try sound (retry n ∷ rest) zero b reason envelope w h =
      climb-IsSound l m input try sound rest n b reason envelope w h
  climb-IsSound l m input try sound (escalate ∷ rest) zero b reason envelope w h = λ k. h refl
  climb-IsSound l m input try sound (reroute model ∷ rest) zero b reason envelope w h =
      elim (Option-cases (l.alternates model)) [
        | inl e ↦ rw (e, climb) (λ k. cc)
        | inr (b', e) ↦
            rw (e, climb)
              (or_else-IsSound l m input (try b' w) _ (sound b' w)
                (λ r e' w'. climb-IsSound l m input try sound rest zero b' r e' w' h))
      ]

  -- Whatever a ladder comes to: an accepted value matches the declared type, every schema and every
  -- judge; only a cancelled envelope is fatal; an escalation is reported only under an `escalate`
  -- rung; and it panics only for a `repeat_until` with no `max_iterations`.
  pub run-IsSound :
      (run_stage : RunStage s p) (l : Ladder s p) (module_bytes : List ℕ) (script : Option Text)
      (input : s.json.Value) (w : World)
      → IsSound l (has_escalate l.on_fail) input (run s p run_stage l module_bytes script input w).0
  unfolding run attempt
  run-IsSound run_stage l module_bytes script input w =
      let sound : (b : p.Backend) (w' : World)
          → IsSound l (has_escalate l.on_fail) input
              (attempt s p run_stage l module_bytes script input b w').0 =
        λ b w'.
          then_accept-IsSound l (has_escalate l.on_fail) input _
            (run_rounds-IsEarly l l.repeat_until l.max_iterations _ input w' refl refl) in
      or_else-IsSound l (has_escalate l.on_fail) input _ _ (sound l.default_backend w) (λ r e w'.
        climb-IsSound l (has_escalate l.on_fail) input _ sound l.on_fail zero l.default_backend r e
          w' (λ h. h))
