-- ===== src/Host/Hex/Tests.antt =====
-- Bytes encoded, and the theorem at them.
use cuttlefish_vm.Base.{codes, ℕ, ◌≡◌, refl, List, [], ◌∷◌, arith}
use cuttlefish_vm.Host.Hex.{hex_digit, encode_onto, encode}
use cuttlefish_vm.Host.Hex.Injective.{encode-injective}

abbrev bytes : List ℕ
bytes = 227 ∷ 0 ∷ 10 ∷ []

encode-bytes : encode bytes ≡ codes "e3000a"
unfolding encode encode_onto hex_digit
encode-bytes = refl

encode-injective_example : bytes ≡ bytes
encode-injective_example =
    encode-injective bytes bytes (omega arith, (omega arith, (omega arith, tt)))
      (omega arith, (omega arith, (omega arith, tt))) refl
