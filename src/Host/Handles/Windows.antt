-- ===== src/Host/Handles/Windows.antt =====
-- The windows of a file: `Handles::slice` of crates/cuttlefish-host/src/handles.rs.
use cuttlefish_vm.Base.{
  Option-cases, length, take, drop, length-take, length-drop, ℕ, zero, suc, ◌+◌, ◌-◌, ◌≤◌, min, ◌≡◌,
  refl, sym, ap, ◌∙◌, subst, inl, inr, none, some, List, [], ◌∷◌, arith,
}
use cuttlefish_vm.Host.Handles.{char_len, valid_up_to}
use cuttlefish_vm.Host.Handles.Chars.{
  char_len-take, char_len-untake, char_len-length, char_len-at_most_four,
}

-- Whole characters and nothing else.
pub data IsUtf8 : List ℕ → Type 0 where
  no_char : IsUtf8 []
  char : {bytes : List ℕ} {n : ℕ} → char_len bytes ≡ some n → IsUtf8 (drop n bytes) → IsUtf8 bytes

pub take-take : (n m : ℕ) (bytes : List ℕ) → n ≤ m → take n (take m bytes) ≡ take n bytes
take-take zero m bytes le = refl
take-take (suc n) zero bytes le = ground arith
take-take (suc n) (suc m) [] le = refl
take-take (suc n) (suc m) (b ∷ bytes) le = ap (b ∷◌) (take-take n m bytes (omega arith))

zero_add : (m : ℕ) → 0 + m ≡ m
zero_add m = omega arith

suc_add : (n m : ℕ) → suc n + m ≡ suc (n + m)
suc_add n m = omega arith

take-nil : (n : ℕ) → take {A = ℕ} n [] ≡ []
take-nil zero = refl
take-nil (suc n) = refl

drop-nil : (n : ℕ) → drop {A = ℕ} n [] ≡ []
drop-nil zero = refl
drop-nil (suc n) = refl

drop-take : (n m : ℕ) (bytes : List ℕ) → drop n (take (n + m) bytes) ≡ take m (drop n bytes)
drop-take zero m bytes = ap (λ k. take k bytes) (zero_add m)
drop-take (suc n) m [] = ap (drop (suc n)) (take-nil (suc n + m)) ∙ sym (take-nil m)
drop-take (suc n) m (b ∷ bytes) =
    ap (λ k. drop (suc n) (take k (b ∷ bytes))) (suc_add n m) ∙ drop-take n m bytes

pub drop-drop : (n m : ℕ) (bytes : List ℕ) → drop (n + m) bytes ≡ drop m (drop n bytes)
drop-drop zero m bytes = ap (λ k. drop k bytes) (zero_add m)
drop-drop (suc n) m [] = drop-nil (suc n + m) ∙ sym (drop-nil m)
drop-drop (suc n) m (b ∷ bytes) = ap (λ k. drop k (b ∷ bytes)) (suc_add n m) ∙ drop-drop n m bytes

valid_up_to-none :
    (fuel : ℕ) (bytes : List ℕ) → char_len bytes ≡ none → valid_up_to (suc fuel) bytes ≡ 0
unfolding valid_up_to
valid_up_to-none fuel bytes e = rw (valid_up_to, e) refl

valid_up_to-some :
    (fuel : ℕ) (bytes : List ℕ) (n : ℕ)
    → char_len bytes ≡ some n
    → valid_up_to (suc fuel) bytes ≡ n + valid_up_to fuel (drop n bytes)
unfolding valid_up_to
valid_up_to-some fuel bytes n e = rw (valid_up_to, e) refl

-- What the validation keeps of a buffer is whole characters.
pub valid_up_to-IsUtf8 : (fuel : ℕ) (bytes : List ℕ) → IsUtf8 (take (valid_up_to fuel bytes) bytes)
unfolding valid_up_to
valid_up_to-IsUtf8 zero bytes = no_char
valid_up_to-IsUtf8 (suc fuel) bytes = elim (Option-cases (char_len bytes)) [
  | inl e ↦ rw (valid_up_to-none fuel bytes e) no_char
  | inr (n, e) ↦ rw (valid_up_to-some fuel bytes n e) (
      char (char_len-take bytes n (n + valid_up_to fuel (drop n bytes)) e (omega arith)) (
        rw (drop-take n (valid_up_to fuel (drop n bytes)) bytes)
          (valid_up_to-IsUtf8 fuel (drop n bytes))))
]

pub valid_up_to-length : (fuel : ℕ) (bytes : List ℕ) → valid_up_to fuel bytes ≤ length bytes
unfolding valid_up_to
valid_up_to-length zero bytes = omega arith
valid_up_to-length (suc fuel) bytes = elim (Option-cases (char_len bytes)) [
  | inl e ↦ rw (valid_up_to-none fuel bytes e) (omega arith)
  | inr (n, e) ↦ rw (valid_up_to-some fuel bytes n e) (
      omega (
        arith,
        char_len-length bytes n e,
        length-drop n bytes,
        valid_up_to-length fuel (drop n bytes),
      ))
]

some-injective : (n k : ℕ) → some n ≡ some k → n ≡ k
some-injective n k e = ground arith

IsUtf8-drop :
    {bytes : List ℕ} (n : ℕ) → IsUtf8 bytes → char_len bytes ≡ some n → IsUtf8 (drop n bytes)
unfolding char_len
IsUtf8-drop n no_char e = ground arith
IsUtf8-drop {bytes} n (char {n = k} e' u) e =
    subst (λ i. IsUtf8 (drop i bytes)) (some-injective k n (sym e' ∙ e)) u

add_sub_le : (n m : ℕ) → n ≤ m → m ≡ n + (m - n)
add_sub_le n m le = omega arith

drop-take_le :
    (n m : ℕ) (bytes : List ℕ) → n ≤ m → drop n (take m bytes) ≡ take (m - n) (drop n bytes)
drop-take_le n m bytes le =
    ap (λ k. drop n (take k bytes)) (add_sub_le n m le) ∙ drop-take n (m - n) bytes

-- The file goes on with a whole character behind what a window keeps.
pub rest-IsUtf8 :
    (fuel m : ℕ) (bytes : List ℕ)
    → IsUtf8 bytes
    → IsUtf8 (drop (valid_up_to fuel (take m bytes)) bytes)
unfolding valid_up_to
rest-IsUtf8 zero m bytes u = u
rest-IsUtf8 (suc fuel) m bytes u = elim (Option-cases (char_len (take m bytes))) [
  | inl e ↦ rw (valid_up_to-none fuel (take m bytes) e) u
  | inr (n, e) ↦
      rw
        (
          valid_up_to-some fuel (take m bytes) n e,
          drop-drop n (valid_up_to fuel (drop n (take m bytes))) bytes,
          drop-take_le n m bytes
              (omega (arith, char_len-length (take m bytes) n e, length-take m bytes)),
        )
        (rest-IsUtf8 fuel (m - n) (drop n bytes) (IsUtf8-drop n u (char_len-untake bytes n m e)))
]

keeps_some :
    (fuel : ℕ) (bytes : List ℕ) (n : ℕ)
    → char_len bytes ≡ some n
    → 1 ≤ fuel
    → n ≤ valid_up_to fuel bytes
keeps_some zero bytes n e h = ground arith
keeps_some (suc fuel) bytes n e h = rw (valid_up_to-some fuel bytes n e) (omega arith)

-- A buffer from the start of a character keeps that character at least.
pub keeps_one :
    (m : ℕ) (bytes : List ℕ)
    → IsUtf8 bytes
    → 1 ≤ length bytes
    → min 4 (length bytes) ≤ m
    → 1 ≤ valid_up_to (length (take m bytes)) (take m bytes)
keeps_one m bytes no_char h le = ground arith
keeps_one m bytes (char {n = n} e u) h le = omega (
  arith,
  char_len-at_most_four bytes n e,
  char_len-length bytes n e,
  length-take m bytes,
  keeps_some (length (take m bytes)) (take m bytes) n
      (char_len-take bytes n m e
        (omega (arith, char_len-at_most_four bytes n e, char_len-length bytes n e)))
      (omega (arith, length-take m bytes)),
)
