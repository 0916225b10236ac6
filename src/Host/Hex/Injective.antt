-- ===== src/Host/Hex/Injective.antt =====
-- Different digests have different names.
use cuttlefish_vm.Base.{
  get_elem?, drop, All, Text, ℕ, ◌/◌, ◌%◌, ◌<◌, ◌≡◌, refl, sym, ap, ◌∙◌, List, [], ◌∷◌, ◌++◌, arith,
}
use cuttlefish_vm.Host.Hex.{hex_digit, encode_onto, encode}
use mathlib.Core.Option.{some-injective}
use mathlib.Core.List.{append_assoc, append-nil}

abbrev pub IsByte : ℕ → Type 0
IsByte b = b < 256

-- The digits of each byte in turn.
digits : List ℕ → Text
digits [] = []
digits (b ∷ bytes) = hex_digit (b / 16) ∷ hex_digit (b % 16) ∷ digits bytes

encode_onto-digits : (out : Text) (bytes : List ℕ) → encode_onto out bytes ≡ out ++ digits bytes
unfolding encode_onto digits
encode_onto-digits out [] = sym (append-nil out)
encode_onto-digits out (b ∷ bytes) =
    encode_onto-digits (out ++ hex_digit (b / 16) ∷ hex_digit (b % 16) ∷ []) bytes
    ∙ append_assoc out (hex_digit (b / 16) ∷ hex_digit (b % 16) ∷ []) (digits bytes)

hex_digit-injective : (d e : ℕ) → d < 16 → e < 16 → hex_digit d ≡ hex_digit e → d ≡ e
unfolding hex_digit
hex_digit-injective d e small little h = ground arith

byte_of_digits : (b c : ℕ) → b / 16 ≡ c / 16 → b % 16 ≡ c % 16 → b ≡ c
byte_of_digits b c high low = omega arith

digits-injective : (s t : List ℕ) → All IsByte s → All IsByte t → digits s ≡ digits t → s ≡ t
unfolding digits
digits-injective [] [] h k e = refl
digits-injective [] (c ∷ t) h k e = cc
digits-injective (b ∷ s) [] h k e = cc
digits-injective (b ∷ s) (c ∷ t) h k e =
    let rest = digits-injective s t h.1 k.1 (ap (drop 2) e) in
    let high =
      hex_digit-injective (b / 16) (c / 16) (omega arith) (omega arith)
        (some-injective _ _ (ap (λ l. get_elem? l 0) e)) in
    let low =
      hex_digit-injective (b % 16) (c % 16) (omega arith) (omega arith)
        (some-injective _ _ (ap (λ l. get_elem? l 1) e)) in
    rw (byte_of_digits b c high low, rest) refl

-- Two sequences of bytes that are encoded as the same text are the same.
pub encode-injective : (s t : List ℕ) → All IsByte s → All IsByte t → encode s ≡ encode t → s ≡ t
unfolding encode
encode-injective s t h k e =
    digits-injective s t h k (sym (encode_onto-digits [] s) ∙ e ∙ encode_onto-digits [] t)
