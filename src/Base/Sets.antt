-- ===== src/Base/Sets.antt =====
-- Finite sets of texts as lists: membership, filters, lists with no repetition.
use Prim.Native.Nat.{◌≤◌}
use mathlib.Core.Path.{◌≡◌, refl, ap}
use mathlib.Core.Logic.{inl, inr}
use mathlib.Core.Bool.{Bool, true, false, ◌&&◌, ◌||◌}
use mathlib.Core.List.{List, [], ◌∷◌, ◌++◌}
use native.Mathlib.Omega.{arith}
use cuttlefish_vm.Base.Tests.{if◌then◌else◌, Bool-cases}
use cuttlefish_vm.Base.Lists.{length}
use cuttlefish_vm.Base.Texts.{Text, text_eq, text_eq-true}

abbrev pub mem : Text → List Text → Bool
mem x [] = false
mem x (y ∷ ys) = text_eq x y || mem x ys

-- `iter().filter(p)`
abbrev pub filter {ℓ} : {A : Type ℓ} → (A → Bool) → List A → List A
filter p [] = []
filter p (x ∷ xs) = if p x then x ∷ filter p xs else filter p xs

-- No text stands twice.
abbrev pub AreDistinct : List Text → Type 0
AreDistinct [] = Unit
AreDistinct (x ∷ xs) = (mem x xs ≡ false) × AreDistinct xs

pub mem-append : (x : Text) (xs ys : List Text) → mem x (xs ++ ys) ≡ (mem x xs || mem x ys)
mem-append x [] ys = refl
mem-append x (y ∷ xs) ys = ground (arith, mem-append x xs ys)

pub mem-left : (x : Text) (xs ys : List Text) → mem x xs ≡ true → mem x (xs ++ ys) ≡ true
mem-left x xs ys h = ground (arith, mem-append x xs ys)

pub mem-right : (x : Text) (xs ys : List Text) → mem x ys ≡ true → mem x (xs ++ ys) ≡ true
mem-right x xs ys h = ground (arith, mem-append x xs ys)

pub mem-filter :
    (x : Text) (p : Text → Bool) (xs : List Text) → mem x (filter p xs) ≡ (mem x xs && p x)
mem-filter x p [] = refl
mem-filter x p (y ∷ ys) = elim (Bool-cases (text_eq x y)) [
  | inl same ↦ let e : p x ≡ p y = ap p (text_eq-true x y same) in ground (arith, mem-filter x p ys)
  | inr other ↦ ground (arith, mem-filter x p ys)
]

pub length-filter {ℓ} : {A : Type ℓ} (p : A → Bool) (xs : List A) → length (filter p xs) ≤ length xs
length-filter p [] = omega arith
length-filter p (x ∷ xs) = ground (arith, length-filter p xs)
