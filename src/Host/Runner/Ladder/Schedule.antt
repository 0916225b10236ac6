-- ===== src/Host/Runner/Ladder/Schedule.antt =====
-- The ladder as a list: the backends that are tried, one behind the other, and what stands at the end.
use cuttlefish_vm.Base.{
  Option-cases, Text, ℕ, zero, suc, ◌≡◌, refl, sym, ap, ◌∙◌, inl, inr, true, false, Option, none,
  some, List, [], ◌∷◌,
}
use cuttlefish_vm.Core.Graph.{ModelRef, Rung, retry, reroute, escalate}
use cuttlefish_vm.Host.Serde.{SerdeJson}
use cuttlefish_vm.Host.Platform.{Platform}
use cuttlefish_vm.Host.Accept.{Alternates}
use cuttlefish_vm.Host.Runner.{Envelope}
use cuttlefish_vm.Host.Runner.Ladder.{
  RunStage, Climbed, value, exhausted, fatal, panicked, Ladder, Attempt, attempt, or_else,
  unresolved, climb, run,
}

pub data Ending : Type 0 where
  ran_out given_up : Ending
  no_backend : ModelRef → Ending

-- `n` times an element, before a list.
abbrev pub repeated {ℓ} : {A : Type ℓ} → ℕ → A → List A → List A
repeated zero a rest = rest
repeated (suc n) a rest = a ∷ repeated n a rest

module _ (s : SerdeJson) (p : Platform s) where
  open p use {World, Backend}

  -- The attempts that the rungs from here on allow, behind one on `b`, and the ending.
  abbrev pub schedule : Alternates s p → Backend → List Rung → List Backend × Ending
  schedule alternates b [] = ([], ran_out)
  schedule alternates b (escalate ∷ rest) = ([], given_up)
  schedule alternates b (retry n ∷ rest) =
      let (backends, ending) = schedule alternates b rest in (repeated n b backends, ending)
  schedule alternates b (reroute model ∷ rest) = elim (alternates model) [
    | none ↦ ([], no_backend model)
    | some b' ↦ let (backends, ending) = schedule alternates b' rest in (b' ∷ backends, ending)
  ]

  abbrev pub end_with : Ending → Text → Option (Envelope s) → Climbed s p
  end_with ran_out reason envelope = exhausted reason false envelope
  end_with given_up reason envelope = exhausted reason true envelope
  end_with (no_backend model) reason envelope = unresolved s p model reason

  -- The first attempt of the list that is not exhausted, or the ending.
  abbrev pub first_of :
      Attempt s p → List Backend → Ending → Text → Option (Envelope s) → World → Climbed s p × World
  first_of try [] ending reason envelope w = (end_with ending reason envelope, w)
  first_of try (b ∷ backends) ending reason envelope w =
      or_else s p (try b w) (first_of try backends ending)

  or_else-ext :
      (c : Climbed s p × World) (f g : Text → Option (Envelope s) → World → Climbed s p × World)
      → ((r : Text) (e : Option (Envelope s)) (w : World) → f r e w ≡ g r e w)
      → or_else s p c f ≡ or_else s p c g
  or_else-ext (value v, w) f g h = refl
  or_else-ext (fatal e, w) f g h = refl
  or_else-ext (panicked, w) f g h = refl
  or_else-ext (exhausted r x e, w) f g h = h r e w

  climb-first_of :
      (alternates : Alternates s p) (try : Attempt s p) (rungs : List Rung) (retries : ℕ)
      (b : Backend) (reason : Text) (envelope : Option (Envelope s)) (w : World)
      → climb s p alternates try rungs retries b reason envelope w
        ≡ first_of try
            (repeated retries b (schedule alternates b rungs).0)
            (schedule alternates b rungs).1
            reason
            envelope
            w
  unfolding climb
  climb-first_of alternates try rungs (suc k) b reason envelope w =
      or_else-ext (try b w) _ _ (climb-first_of alternates try rungs k b)
  climb-first_of alternates try [] zero b reason envelope w = refl
  climb-first_of alternates try (retry n ∷ rest) zero b reason envelope w =
      climb-first_of alternates try rest n b reason envelope w
  climb-first_of alternates try (escalate ∷ rest) zero b reason envelope w = refl
  climb-first_of alternates try (reroute model ∷ rest) zero b reason envelope w =
      elim (Option-cases (alternates model)) [
        | inl e ↦ rw (e, climb) (rw (e, schedule) refl)
        | inr (b', e) ↦
            let later : List Backend × Ending = schedule alternates b' rest in
            let here : schedule alternates b (reroute model ∷ rest) ≡ (b' ∷ later.0, later.1) =
              rw (e, schedule) refl in
            rw (e, climb)
              (or_else-ext (try b' w) _ _ (climb-first_of alternates try rest zero b')
                ∙ ap (λ (q : List Backend × Ending). first_of try q.0 q.1 reason envelope w)
                    (sym here))
      ]

  -- `Ladder::run` is a list of attempts: one on the default backend, then those that `schedule`
  -- reads off the rungs, until one is not exhausted; behind the last the rungs give up, run out or
  -- name a model with no backend.
  pub run-first_of :
      (run_stage : RunStage s p) (l : Ladder s p) (module_bytes : List ℕ) (script : Option Text)
      (input : s.json.Value) (w : World)
      → run s p run_stage l module_bytes script input w
        ≡ or_else s p (attempt s p run_stage l module_bytes script input l.default_backend w) (
            first_of
              (attempt s p run_stage l module_bytes script input)
              (schedule l.alternates l.default_backend l.on_fail).0
              (schedule l.alternates l.default_backend l.on_fail).1)
  unfolding run
  run-first_of run_stage l module_bytes script input w =
      or_else-ext (attempt s p run_stage l module_bytes script input l.default_backend w) _ _ (
        climb-first_of l.alternates (attempt s p run_stage l module_bytes script input) l.on_fail
          zero l.default_backend)
