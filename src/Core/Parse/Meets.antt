-- ===== src/Core/Parse/Meets.antt =====
-- What a parser achieves, put together along its steps: it ends within its fuel, it moves forward by
-- some number of tokens at least, stays within them, and its value has a property.
use cuttlefish_vm.Base.{
  if◌then◌else◌, ℕ, ◌+◌, ◌*◌, ◌≤◌, ◌<◌, ◌≡◌, refl, Bool, true, false, Option, none, some, arith,
}
use cuttlefish_vm.Core.Parse.{
  Parsed, parsed, failed, out_of_fuel, Parse, ◌>>=◌, return, fail, ok_or, SpecError, exhausted,
}

-- The result of a parser over `size` tokens that had to reach `from`.
abbrev pub Fits : {A : Type 0} → ℕ → ℕ → (A → Type 0) → Parsed A → Type 0
Fits size from P (parsed value next) = (from ≤ next) × (next ≤ size) × P value
Fits size from P (failed why) = Unit
Fits size from P out_of_fuel = ⊥

-- At each position with `ahead` tokens to come that the fuel `n` covers (two for a token),
-- the parser moves on by `k`.
pub record Meets (size ahead n k : ℕ) {A : Type 0} (p : Parse A) (P : A → Type 0) : Type 0 where
  pub fits : (at : ℕ) → at + ahead ≤ size → size * 2 < at * 2 + n → Fits size (at + k) P (p at)

Fits-wider :
    {A : Type 0} (P Q : A → Type 0) (size from to : ℕ) (r : Parsed A)
    → to ≤ from
    → ((a : A) → P a → Q a)
    → Fits size from P r
    → Fits size to Q r
Fits-wider P Q size from to (parsed a next) h w f = (omega arith, f.1, w a f.2)
Fits-wider P Q size from to (failed why) h w f = tt
Fits-wider P Q size from to out_of_fuel h w f = f

module _ {size : ℕ} {A : Type 0} where
  pub Meets-weaken :
      {P Q : A → Type 0} (g h n k l : ℕ) {p : Parse A}
      → Meets size g n k p P
      → g ≤ h
      → l ≤ k
      → ((a : A) → P a → Q a)
      → Meets size h n l p Q
  Meets-weaken {P} {Q} g h n k l {p} m gh lk w = record {
    fits = λ at inside covered.
        Fits-wider P Q size (at + k) (at + l) (p at) (omega arith) w
          (m.fits at (omega arith) covered);
  }

  -- A parser that asks for no token ahead may have one.
  pub Meets-ahead :
      {P : A → Type 0} (h n k : ℕ) {p : Parse A} → Meets size 0 n k p P → Meets size h n k p P
  Meets-ahead h n k m = Meets-weaken 0 h n k k m (omega arith) (omega arith) (λ a u. u)

  -- More fuel covers what less fuel covers.
  pub Meets-fuel :
      {P : A → Type 0} (n m : ℕ) {h k : ℕ} {p : Parse A}
      → m ≤ n
      → Meets size h n k p P
      → Meets size h m k p P
  Meets-fuel n m mn w = record { fits = λ at inside covered. w.fits at inside (omega arith) }

  pub Meets-return : {P : A → Type 0} (n : ℕ) (a : A) → P a → Meets size 0 n 0 (return a) P
  unfolding return
  Meets-return n a h = record { fits = λ at inside covered. (omega arith, omega arith, h) }

  pub Meets-fail : {P : A → Type 0} (h n k : ℕ) (why : SpecError) → Meets size h n k (fail why) P
  unfolding fail
  Meets-fail h n k why = record { fits = λ at inside covered. tt }

  -- No position inside the tokens is covered by no fuel.
  pub Meets-exhausted : {P : A → Type 0} (k : ℕ) → Meets size 0 0 k exhausted P
  unfolding exhausted
  Meets-exhausted k = record { fits = λ at inside covered. omega arith }

  pub Meets-ok_or :
      {P : A → Type 0} (n : ℕ) (why : SpecError) (o : Option A)
      → ((a : A) → o ≡ some a → P a)
      → Meets size 0 n 0 (ok_or why o) P
  unfolding ok_or
  Meets-ok_or n why none h = Meets-fail 0 n 0 why
  Meets-ok_or n why (some a) h = Meets-return n a (h a refl)

  pub Meets-if :
      {P : A → Type 0} (h n k : ℕ) (b : Bool) {p q : Parse A}
      → (b ≡ true → Meets size h n k p P)
      → (b ≡ false → Meets size h n k q P)
      → Meets size h n k (if b then p else q) P
  Meets-if h n k true met other = met refl
  Meets-if h n k false met other = other refl

module _ {size : ℕ} {A B : Type 0} where
  Fits-bind :
      {P : A → Type 0} {Q : B → Type 0} (from m l : ℕ) (rest : A → Parse B) (r : Parsed A)
      → size * 2 < from * 2 + m
      → Fits size from P r
      → ((a : A) → P a → Meets size 0 m l (rest a) Q)
      → Fits size (from + l) Q (elim r [
        | out_of_fuel ↦ out_of_fuel
        | failed why ↦ failed why
        | parsed value next ↦ rest value next
      ])
  Fits-bind {P} {Q} from m l rest (parsed a next) covered f w =
      Fits-wider Q Q size (next + l) (from + l) (rest a next) (omega arith) (λ b q. q)
        ((w a f.2).fits next (omega arith) (omega arith))
  Fits-bind from m l rest (failed why) covered f w = tt
  Fits-bind from m l rest out_of_fuel covered f w = f

  pub Meets-option :
      {P : B → Type 0} (h n k : ℕ) (o : Option A) {p : Parse B} {q : A → Parse B}
      → Meets size h n k p P
      → ((a : A) → o ≡ some a → Meets size h n k (q a) P)
      → Meets size h n k (elim o [ none ↦ p | some a ↦ q a ]) P
  Meets-option h n k none other met = other
  Meets-option h n k (some a) other met = met a refl

  -- A step that moves on by `k`, and a rest that has `m` fuel and moves on by `l`.
  pub Meets-bind :
      {P : A → Type 0} {Q : B → Type 0} (h n k m l j : ℕ) {p : Parse A} {rest : A → Parse B}
      → n ≤ m + k * 2
      → j ≤ k + l
      → Meets size h n k p P
      → ((a : A) → P a → Meets size 0 m l (rest a) Q)
      → Meets size h n j (p >>= rest) Q
  unfolding ◌>>=◌
  Meets-bind {P} {Q} h n k m l j {p} {rest} nm jl first w = record {
    fits = λ at inside covered.
        Fits-wider Q Q size (at + k + l) (at + j) ((p >>= rest) at) (omega arith) (λ b q. q)
          (Fits-bind (at + k) m l rest (p at) (omega arith) (first.fits at inside covered) w);
  }
