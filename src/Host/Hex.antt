-- ===== src/Host/Hex.antt =====
-- Hex encoding of digests: crates/cuttlefish-host/src/hex.rs. A byte is a number below 256.
pub mod Injective
pub mod Tests
use cuttlefish_vm.Base.{
  ltb, leb, ◌==◌, if◌then◌else◌, ==_iff, Bool-cases, Option-cases, and_true, or_true, is_some,
  is_some-false, length, get_elem?, take, drop, any, all, length-append, take-append-drop,
  length-take, length-drop, All, All-append, is_empty, Text, codes, text_eq, text_eq_refl,
  text_eq-true, text_eq-false, text_eq_iff, text_eq_comm, text_lt, strip_suffix, starts_with,
  parse_digits, parse_u32, parse_u32-lt, mem, filter, AreDistinct, mem-append, mem-left, mem-right,
  mem-filter, length-filter, ℕ, zero, suc, ◌+◌, ◌-◌, ◌*◌, ◌/◌, ◌%◌, ◌^◌, ◌≤◌, ◌<◌, min, ◌≡◌, refl,
  sym, ap, ◌∙◌, subst, ◌≢◌, ◌↔◌, ◌⊎◌, inl, inr, Bool, true, false, not, ◌&&◌, ◌||◌, Option, none,
  some, List, [], ◌∷◌, ◌++◌, map, arith,
}

-- One digit of `{b:02x}`.
unfoldable pub hex_digit : ℕ → ℕ
hex_digit d = if ltb d 10 then b'0' + d else b'a' + (d - 10)

-- The `fold`, with `out` written so far.
unfoldable pub encode_onto : Text → List ℕ → Text
unfolding hex_digit
encode_onto out [] = out
encode_onto out (b ∷ bytes) =
    encode_onto (out ++ hex_digit (b / 16) ∷ hex_digit (b % 16) ∷ []) bytes

unfoldable pub encode : List ℕ → Text
unfolding encode_onto
encode bytes = encode_onto [] bytes
