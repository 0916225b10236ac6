-- ===== src/Host/Runner/Ladder/Rounds.antt =====
-- What the loops of an attempt and of the ladder add to a count of the runs of the block.
use cuttlefish_vm.Base.{
  if◌then◌else◌, Bool-cases, length, Text, ℕ, zero, suc, ◌+◌, ◌-◌, ◌*◌, ◌≤◌, inl, inr, Bool, true,
  false, Option, none, some, List, [], ◌∷◌, arith,
}
use cuttlefish_vm.Host.Serde.{SerdeJson}
use cuttlefish_vm.Host.Platform.{Platform}
use cuttlefish_vm.Host.Runner.{Envelope}
use cuttlefish_vm.Host.Runner.Ladder.{
  Climbed, value, exhausted, fatal, panicked, Attempt, or_else, Staged, produced, stopped,
  says_done, then_value, iterate, run_rounds,
}
use cuttlefish_vm.Host.Runner.Ladder.Schedule.{first_of, Ending}

-- The rounds of one attempt.
abbrev pub rounds_of : Option Text → Option ℕ → ℕ
rounds_of none max = 1
rounds_of (some field) none = 1
rounds_of (some field) (some max) = 1 + (max - 1)

module _ (s : SerdeJson) (p : Platform s) (count : p.World → ℕ) where
  open p use {World, Backend}

  then_value-count :
      (r : Staged s p × World) (f : s.json.Value → World → Climbed s p × World) (n : ℕ)
      → ((v : s.json.Value) (w : World) → count (f v w).1 ≤ count w + n)
      → count (then_value s p r f).1 ≤ count r.1 + n
  then_value-count (produced v, w) f n h = h v w
  then_value-count (stopped e, w) f n h = omega arith

  done-count :
      (b : Bool) (v : s.json.Value) (other : Climbed s p) (w : World)
      → count (if◌then◌else◌ {A = Climbed s p × World} b (value v, w) (other, w)).1 ≤ count w + 0
  done-count true v other w = omega arith
  done-count false v other w = omega arith

  module _ (stage : s.json.Value → World → Staged s p × World)
      (once : (v : s.json.Value) (w : World) → count (stage v w).1 ≤ count w + 1) where
    iterate-count :
        (more max : ℕ) (field : Text) (current : s.json.Value) (w : World)
        → count (iterate s p more max field stage current w).1 ≤ count w + (1 + more)
    unfolding iterate
    iterate-count zero max field current w =
        let later : count (iterate s p zero max field stage current w).1
            ≤ count (stage current w).1 + 0 =
          then_value-count (stage current w) _ 0
            (λ v w'. done-count (says_done s p field v) v _ w') in
        omega (arith, once current w)
    iterate-count (suc more) max field current w =
        let later : count (iterate s p (suc more) max field stage current w).1
            ≤ count (stage current w).1 + (1 + more) =
          then_value-count (stage current w) _ (1 + more) λ v w'.
            elim (Bool-cases (says_done s p field v)) [
              | inl e ↦ rw e (omega arith)
              | inr e ↦ rw e (iterate-count more max field v w')
            ] in
        omega (arith, once current w)

    pub run_rounds-count :
        (until : Option Text) (max : Option ℕ) (input : s.json.Value) (w : World)
        → count (run_rounds s p until max stage input w).1 ≤ count w + rounds_of until max
    unfolding run_rounds
    run_rounds-count none max input w = omega (
      arith,
      once input w,
      then_value-count (stage input w) (λ v w'. (value v, w')) 0 (λ v w'. omega arith),
    )
    run_rounds-count (some field) (some max) input w = iterate-count (max - 1) max field input w
    run_rounds-count (some field) none input w =
        let later : count (run_rounds s p (some field) none stage input w).1
            ≤ count (stage input w).1 + 0 =
          then_value-count (stage input w) _ 0
            (λ v w'. done-count (says_done s p field v) v _ w') in
        omega (arith, once input w)

  pub or_else-count :
      (n m : ℕ) (c : Climbed s p × World)
      (f : Text → Option (Envelope s) → World → Climbed s p × World) (w : World)
      → count c.1 ≤ count w + n
      → ((r : Text) (e : Option (Envelope s)) (w' : World) → count (f r e w').1 ≤ count w' + n * m)
      → count (or_else s p c f).1 ≤ count w + n * suc m
  or_else-count n m (value v, w') f w h k = grind arith
  or_else-count n m (fatal e, w') f w h k = grind arith
  or_else-count n m (panicked, w') f w h k = grind arith
  or_else-count n m (exhausted r x e, w') f w h k = grind (arith, k r e w')

  pub first_of-count :
      (try : Attempt s p) (n : ℕ)
      → ((b : Backend) (w : World) → count (try b w).1 ≤ count w + n)
      → (backends : List Backend) (ending : Ending) (reason : Text) (envelope : Option (Envelope s))
        (w : World)
      → count (first_of s p try backends ending reason envelope w).1 ≤ count w + n * length backends
  first_of-count try n h [] ending reason envelope w = grind arith
  first_of-count try n h (b ∷ backends) ending reason envelope w =
      or_else-count n (length backends) (try b w) _ w (h b w)
        (λ r e w'. first_of-count try n h backends ending r e w')
