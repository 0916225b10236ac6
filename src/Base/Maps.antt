-- ===== src/Base/Maps.antt =====
-- Maps from texts as lists of entries, one for a key.
use mathlib.Core.Path.{◌≡◌, refl}
use mathlib.Core.Logic.{inl, inr}
use mathlib.Core.Option.{Option, none, some}
use mathlib.Core.List.{List, [], ◌∷◌}
use native.Mathlib.Omega.{arith}
use cuttlefish_vm.Base.Tests.{if◌then◌else◌, Bool-cases}
use cuttlefish_vm.Base.Texts.{Text, text_eq, text_eq_refl, text_eq-true, text_eq_comm}

-- `HashMap::get` and `HashMap::insert`.
unfoldable pub lookup_entry {ℓ} : {A : Type ℓ} → Text → List (Text × A) → Option A
lookup_entry k [] = none
lookup_entry k (e ∷ m) = if text_eq e.0 k then some e.1 else lookup_entry k m

unfoldable pub insert_entry {ℓ} : {A : Type ℓ} → Text → A → List (Text × A) → List (Text × A)
insert_entry k v [] = (k, v) ∷ []
insert_entry k v (e ∷ m) = if text_eq e.0 k then (k, v) ∷ m else e ∷ insert_entry k v m

pub lookup_entry-insert_entry {ℓ} :
    {A : Type ℓ} (j k : Text) (v : A) (m : List (Text × A))
    → lookup_entry j (insert_entry k v m) ≡ (if text_eq k j then some v else lookup_entry j m)
unfolding lookup_entry insert_entry
lookup_entry-insert_entry j k v [] = refl
lookup_entry-insert_entry j k v (e ∷ m) = elim (Bool-cases (text_eq e.0 k)) [
  | inl same ↦ rw same (ground (arith, text_eq-true e.0 k same))
  | inr other ↦ rw other (
      ground (
        arith,
        text_eq-true e.0 j,
        text_eq-true k j,
        text_eq_comm e.0 k,
        text_eq_refl k,
        lookup_entry-insert_entry j k v m,
      ))
]
