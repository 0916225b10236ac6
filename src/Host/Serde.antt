-- ===== src/Host/Serde.antt =====
-- What the host asks of serde_json: values, their text, and the objects that it builds.
use cuttlefish_vm.Base.{Text, mem, ℕ, ◌≡◌, false, Option, none, List, map}
use cuttlefish_vm.Abi.Ty.{Json}

pub record SerdeJson : Type 1 where
  pub json : Json
  pub to_string : json.Value → Text
  pub from_str : Text → Option json.Value
  pub null : json.Value
  pub string : Text → json.Value
  pub number : ℕ → json.Value
  pub array : List json.Value → json.Value
  pub object : List (Text × json.Value) → json.Value
  -- `value.get(key).and_then(|v| v.as_str())`
  pub get_str : json.Value → Text → Option Text
  -- An object has no member but those that it is built of.
  pub get_str-object :
      (members : List (Text × json.Value)) (key : Text)
      → mem key (map (λ m. m.0) members) ≡ false
      → get_str (object members) key ≡ none
