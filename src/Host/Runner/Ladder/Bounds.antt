-- ===== src/Host/Runner/Ladder/Bounds.antt =====
-- How often a ladder runs its block.
use cuttlefish_vm.Base.{
  Option-cases, length, Text, ℕ, zero, suc, ◌+◌, ◌*◌, ◌≤◌, ◌≡◌, inl, inr, Option, none, some, List,
  [], ◌∷◌, arith,
}
use cuttlefish_vm.Core.Graph.{ModelRef, Rung, retry, reroute, escalate}
use cuttlefish_vm.Host.Serde.{SerdeJson}
use cuttlefish_vm.Host.Platform.{Platform}
use cuttlefish_vm.Host.Accept.{
  Alternates, run_judges, judge_prompt, judge_reply, judge_max_tokens, JudgeVerdict,
}
use cuttlefish_vm.Host.Runner.Ladder.{
  RunStage, Climbed, value, exhausted, fatal, panicked, Ladder, Attempt, attempt, run, accept_value,
  then_accept, run_rounds,
}
use cuttlefish_vm.Host.Runner.Ladder.Schedule.{schedule, repeated, run-first_of}
use cuttlefish_vm.Host.Runner.Ladder.Rounds.{
  rounds_of, run_rounds-count, or_else-count, first_of-count,
}

-- The attempts that `on_fail` allows behind the first.
abbrev pub further_attempts : List Rung → ℕ
further_attempts [] = 0
further_attempts (retry n ∷ rest) = n + further_attempts rest
further_attempts (reroute model ∷ rest) = 1 + further_attempts rest
further_attempts (escalate ∷ rest) = 0

length-repeated {ℓ} :
    {A : Type ℓ} (n : ℕ) (a : A) (rest : List A) → length (repeated n a rest) ≡ n + length rest
length-repeated zero a rest = omega arith
length-repeated (suc n) a rest = omega (arith, length-repeated n a rest)

module _ (s : SerdeJson) (p : Platform s) (count : p.World → ℕ) where
  open p use {World, Backend}

  length-schedule :
      (alternates : Alternates s p) (b : Backend) (rungs : List Rung)
      → length (schedule s p alternates b rungs).0 ≤ further_attempts rungs
  length-schedule alternates b [] = omega arith
  length-schedule alternates b (escalate ∷ rest) = omega arith
  length-schedule alternates b (retry n ∷ rest) = omega (
    arith,
    length-repeated n b (schedule s p alternates b rest).0,
    length-schedule alternates b rest,
  )
  length-schedule alternates b (reroute model ∷ rest) = elim (Option-cases (alternates model)) [
    | inl e ↦ rw (e, schedule) (omega arith)
    | inr (b', e) ↦ rw (e, schedule) (omega (arith, length-schedule alternates b' rest))
  ]

  module _ (run_stage : RunStage s p)
      (stage_once : (bytes : List ℕ) (b : Backend) (v : s.json.Value) (script : Option Text)
          (w : World)
        → count (run_stage bytes b v script w).1 ≤ count w + 1)
      (judge_never : (b : Backend) (prompt : Text) (tokens : ℕ) (w : World)
        → count (p.infer b prompt tokens w).1 ≤ count w) where
    asked-count :
        (asked : Backend) (prompt : Text) (rest : List (Option ModelRef × Text))
        (input output : s.json.Value) (b : Backend) (alternates : Alternates s p) (w : World)
        → ((w' : World) → count (run_judges s p rest input output b alternates w').1 ≤ count w')
        → count
            (elim (judge_reply s p
                (p.infer asked (judge_prompt s p prompt input output) judge_max_tokens w).0)
              as (λ x. JudgeVerdict × World) [
                | some verdict ↦ (
                  verdict,
                  (p.infer asked (judge_prompt s p prompt input output) judge_max_tokens w).1,
                )
                | none ↦
                    run_judges s p rest input output b alternates
                      (p.infer asked (judge_prompt s p prompt input output) judge_max_tokens w).1
              ]).1
          ≤ count w
    asked-count asked prompt rest input output b alternates w h =
        let asking : Text = judge_prompt s p prompt input output in
        ground (
          arith,
          judge_never asked asking judge_max_tokens w,
          h (p.infer asked asking judge_max_tokens w).1,
        )

    run_judges-count :
        (judges : List (Option ModelRef × Text)) (input output : s.json.Value) (b : Backend)
        (alternates : Alternates s p) (w : World)
        → count (run_judges s p judges input output b alternates w).1 ≤ count w
    unfolding run_judges
    run_judges-count [] input output b alternates w = omega arith
    run_judges-count ((none, prompt) ∷ rest) input output b alternates w =
        asked-count b prompt rest input output b alternates w
          (λ w'. run_judges-count rest input output b alternates w')
    run_judges-count ((some m, prompt) ∷ rest) input output b alternates w =
        elim (Option-cases (alternates m)) [
          | inl e ↦ rw (e, run_judges) (omega arith)
          | inr (b', e) ↦
              rw (e, run_judges)
                (asked-count b' prompt rest input output b alternates w
                  (λ w'. run_judges-count rest input output b alternates w'))
        ]

    accept_value-count :
        (l : Ladder s p) (input v : s.json.Value) (w : World)
        → count (accept_value s p l input v w).1 ≤ count w
    unfolding accept_value
    accept_value-count l input v w =
        ground (arith, run_judges-count l.checks.judges input v l.default_backend l.alternates w)

    then_accept-count :
        (l : Ladder s p) (input : s.json.Value) (c : Climbed s p × World)
        → count (then_accept s p c (accept_value s p l input)).1 ≤ count c.1
    then_accept-count l input (value v, w) = accept_value-count l input v w
    then_accept-count l input (exhausted r escalated e, w) = omega arith
    then_accept-count l input (fatal e, w) = omega arith
    then_accept-count l input (panicked, w) = omega arith

    attempt-count :
        (l : Ladder s p) (bytes : List ℕ) (script : Option Text) (input : s.json.Value)
        (b : Backend) (w : World)
        → count (attempt s p run_stage l bytes script input b w).1
          ≤ count w + rounds_of l.repeat_until l.max_iterations
    unfolding attempt
    attempt-count l bytes script input b w = omega (
      arith,
      then_accept-count l input (
          run_rounds s p l.repeat_until l.max_iterations (λ v. run_stage bytes b v script) input w),
      run_rounds-count s p count (λ v. run_stage bytes b v script)
          (λ v w'. stage_once bytes b v script w') l.repeat_until l.max_iterations input w,
    )

    -- A ladder runs its block at most as often as the rounds of `repeat_until` times one more than
    -- the attempts that `on_fail` allows, for a count that each run of the block raises by one at
    -- most and no judge raises.
    pub run-count :
        (l : Ladder s p) (bytes : List ℕ) (script : Option Text) (input : s.json.Value) (w : World)
        → count (run s p run_stage l bytes script input w).1
          ≤ count w + rounds_of l.repeat_until l.max_iterations * (1 + further_attempts l.on_fail)
    run-count l bytes script input w =
        let tried : List Backend = (schedule s p l.alternates l.default_backend l.on_fail).0 in
        let n : ℕ = rounds_of l.repeat_until l.max_iterations in
        let try : Attempt s p = attempt s p run_stage l bytes script input in
        let all_tried : count (run s p run_stage l bytes script input w).1
            ≤ count w + n * suc (length tried) =
          rw (run-first_of s p run_stage l bytes script input w) (
            or_else-count s p count n (length tried) (try l.default_backend w) _ w
              (attempt-count l bytes script input l.default_backend w)
              (λ r e w'.
                first_of-count s p count try n (attempt-count l bytes script input) tried _ r e
                  w')) in
        grind (arith, length-schedule l.alternates l.default_backend l.on_fail)
