-- ===== src/Base/Texts.antt =====
-- Texts: a Rust `String` is the list of its code points.
use Prim.Native.Nat.{ℕ, zero, suc, ◌/◌, ◌%◌, ◌+◌, ◌-◌, ◌*◌, ◌^◌, ◌<◌}
use Prim.Native.Char.{code}
use Prim.Native.String.{String}
use mathlib.Core.Path.{◌≡◌, refl}
use mathlib.Core.Logic.{◌↔◌, ◌≢◌}
use mathlib.Core.Bool.{Bool, true, false, ◌&&◌, ◌||◌}
use mathlib.Core.Option.{Option, none, some}
use mathlib.Core.Option
use mathlib.Core.List.{List, [], ◌∷◌, ◌++◌}
use native.Mathlib.Omega.{arith}
use cuttlefish_vm.Base.Tests.{ltb, leb, ◌==◌, if◌then◌else◌}

abbrev pub Text : Type 0
Text = List ℕ

abbrev pub codes : String → Text
codes String.[] = []
codes (String.◌∷◌ c s) = code c ∷ codes s

unfoldable pub text_eq : Text → Text → Bool
text_eq [] [] = true
text_eq (a ∷ s) (b ∷ t) = a == b && text_eq s t
text_eq _ _ = false

pub text_eq_refl : (s : Text) → text_eq s s ≡ true
unfolding text_eq
text_eq_refl [] = refl
text_eq_refl (a ∷ s) = ground (arith, text_eq_refl s)

pub text_eq-true : (s t : Text) → text_eq s t ≡ true → s ≡ t
unfolding text_eq
text_eq-true [] [] h = refl
text_eq-true [] (b ∷ t) h = cc
text_eq-true (a ∷ s) [] h = cc
text_eq-true (a ∷ s) (b ∷ t) h = ground (arith, text_eq-true s t)

pub text_eq-false : (s t : Text) → s ≢ t → text_eq s t ≡ false
text_eq-false s t h = ground (arith, text_eq-true s t)

pub text_eq_iff : (s t : Text) → (text_eq s t ≡ true) ↔ (s ≡ t)
text_eq_iff s t = (text_eq-true s t, λ e. rw e (text_eq_refl t))

pub text_eq_comm : (s t : Text) → text_eq s t ≡ text_eq t s
unfolding text_eq
text_eq_comm [] [] = refl
text_eq_comm [] (b ∷ t) = refl
text_eq_comm (a ∷ s) [] = refl
text_eq_comm (a ∷ s) (b ∷ t) = ground (arith, text_eq_comm s t)

-- `<` on strings; Rust compares them byte by byte in UTF-8, which orders them by code points.
unfoldable pub text_lt : Text → Text → Bool
text_lt [] [] = false
text_lt [] (b ∷ t) = true
text_lt (a ∷ s) [] = false
text_lt (a ∷ s) (b ∷ t) = ltb a b || (a == b && text_lt s t)

-- `str::strip_suffix`
unfoldable pub strip_suffix : Text → Text → Option Text
strip_suffix suffix [] = if text_eq [] suffix then some [] else none
strip_suffix suffix (c ∷ s) =
    if text_eq (c ∷ s) suffix
    then some []
    else Option.map (λ rest. c ∷ rest) (strip_suffix suffix s)

-- `str::starts_with`, the prefix first.
unfoldable pub starts_with : Text → Text → Bool
starts_with [] s = true
starts_with (p ∷ ps) [] = false
starts_with (p ∷ ps) (c ∷ s) = p == c && starts_with ps s

-- `str::parse::<u32>` on the digits, `n` read so far.
unfoldable pub parse_digits : ℕ → Text → Option ℕ
parse_digits n [] = some n
parse_digits n (c ∷ s) = elim (leb b'0' c && leb c b'9' && ltb (n * 10 + (c - b'0')) (2 ^ 32)) [
  | true ↦ parse_digits (n * 10 + (c - b'0')) s
  | false ↦ none
]

-- `str::parse::<u32>`: digits, with a plus sign before them or not.
unfoldable pub parse_u32 : Text → Option ℕ
unfolding parse_digits
parse_u32 [] = none
parse_u32 (c ∷ []) = parse_digits 0 (c ∷ [])
parse_u32 (c ∷ d ∷ s) = if c == b'+' then parse_digits 0 (d ∷ s) else parse_digits 0 (c ∷ d ∷ s)

parse_digits-lt : (n : ℕ) (s : Text) (k : ℕ) → n < 2 ^ 32 → parse_digits n s ≡ some k → k < 2 ^ 32
unfolding parse_digits
parse_digits-lt n [] k small h = ground arith
parse_digits-lt n (c ∷ s) k small h = ground (arith, parse_digits-lt (n * 10 + (c - b'0')) s k)

pub parse_u32-lt : (s : Text) (k : ℕ) → parse_u32 s ≡ some k → k < 2 ^ 32
unfolding parse_u32
parse_u32-lt [] k h = cc
parse_u32-lt (c ∷ []) k h = parse_digits-lt 0 (c ∷ []) k (omega arith) h
parse_u32-lt (c ∷ d ∷ s) k h =
    ground (arith, parse_digits-lt 0 (d ∷ s) k, parse_digits-lt 0 (c ∷ d ∷ s) k)

-- The decimal digits of `n` before `after`, for fuel above `n`.
unfoldable pub decimal_onto : ℕ → ℕ → Text → Text
decimal_onto zero n after = after
decimal_onto (suc fuel) n after =
    let rest = decimal_onto fuel (n / 10) ((b'0' + n % 10) ∷ after) in
    if ltb n 10 then (b'0' + n) ∷ after else rest

-- `Display` of an unsigned number.
unfoldable pub decimal : ℕ → Text
unfolding decimal_onto
decimal n = decimal_onto (suc n) n []

-- `Vec<String>::join`
unfoldable pub join : Text → List Text → Text
join sep [] = []
join sep (s ∷ []) = s
join sep (s ∷ t ∷ rest) = s ++ (sep ++ join sep (t ∷ rest))

-- `str::find` and `str::rfind` of a character, by the index of the character.
unfoldable pub find_char : ℕ → Text → Option ℕ
find_char c [] = none
find_char c (d ∷ s) = if d == c then some 0 else Option.map (λ i. i + 1) (find_char c s)

unfoldable pub rfind_char : ℕ → Text → Option ℕ
rfind_char c [] = none
rfind_char c (d ∷ s) = elim (rfind_char c s) [
  | some i ↦ some (i + 1)
  | none ↦ if d == c then some 0 else none
]
