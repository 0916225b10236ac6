-- ===== src/Abi/Describe.antt =====
-- `Ty::describe` and `Signature`: crates/cuttlefish-abi/src/lib.rs.
use cuttlefish_vm.Base.{Text, codes, join, List, [], ◌∷◌, ◌++◌}
use cuttlefish_vm.Abi.Ty.{
  Ty, text, number, bool, bytes, image, document, json, list, record_of, Fields, end, field,
}

unfoldable mutual
  pub describe : Ty → Text
  describe text = codes "text"
  describe number = codes "number"
  describe bool = codes "bool"
  describe bytes = codes "bytes"
  describe image = codes "image"
  describe document = codes "document"
  describe json = codes "json"
  describe (list inner) = codes "[" ++ (describe inner ++ codes "]")
  describe (record_of fields) =
      codes "{" ++ (join (codes ", ") (describe_fields fields) ++ codes "}")

  -- `fields.iter().map(|(k, v)| format!("{k}: {}", v.describe()))`
  pub describe_fields : Fields → List Text
  describe_fields end = []
  describe_fields (field k v rest) = (k ++ (codes ": " ++ describe v)) ∷ describe_fields rest

pub record Signature : Type 0 where
  pub input : Ty
  pub output : Ty

-- `Display` of a `Signature`.
unfoldable pub signature_text : Signature → Text
unfolding describe
signature_text s = describe s.input ++ (codes " -> " ++ describe s.output)
