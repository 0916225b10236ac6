-- ===== src/Abi/Ty/Tests.antt =====
-- Runs of the type checks, and the theorems at concrete types.
use cuttlefish_vm.Base.{if◌then◌else◌, codes, text_eq, ◌≡◌, refl, true, false, none, some}
use cuttlefish_vm.Abi.Ty.{
  Ty, text, json, number, record_of, Fields, end, field, Json, assignable_to, matches_value, get,
  ty_eq,
}
use cuttlefish_vm.Abi.Ty.Laws.{IsKeyed, assignable_to_trans, assignable_to_refl}
use cuttlefish_vm.Abi.Ty.Values.{matches_value-assignable_to}

-- A string, and an object whose one member `path` is that string.
data Sample : Type 0 where
  path_text whole : Sample

abbrev sample_json : Json
sample_json = record {
  Value = Sample;
  Object = Unit;
  is_string = λ v. elim v [ path_text ↦ true | whole ↦ false ];
  is_number = λ v. false;
  is_boolean = λ v. false;
  as_array = λ v. none;
  as_object = λ v. elim v [ path_text ↦ none | whole ↦ some tt ];
  get_member = λ o name. if text_eq name (codes "path") then some path_text else none;
}

abbrev produced : Ty
produced = record_of (field (codes "path") text end)

abbrev needed : Ty
needed = record_of (field (codes "path") json end)

produced_fits : assignable_to produced needed ≡ true
unfolding assignable_to get text_eq
produced_fits = refl

needed_misfit : assignable_to needed produced ≡ false
unfolding assignable_to get text_eq ty_eq
needed_misfit = refl

whole_matches : matches_value sample_json produced whole ≡ true
unfolding matches_value text_eq
whole_matches = refl

matches_value-assignable_to_example : matches_value sample_json needed whole ≡ true
matches_value-assignable_to_example =
    matches_value-assignable_to sample_json produced needed whole produced_fits whole_matches

abbrev wide : Fields
wide = field (codes "path") text (field (codes "size") number end)

wide_fits : assignable_to (record_of wide) produced ≡ true
unfolding assignable_to get text_eq ty_eq
wide_fits = refl

assignable_to_trans_example : assignable_to (record_of wide) needed ≡ true
assignable_to_trans_example =
    assignable_to_trans (record_of wide) produced needed wide_fits produced_fits

wide_keys : IsKeyed (record_of wide)
unfolding get text_eq
wide_keys = (refl, tt, (refl, tt, tt))

assignable_to_refl_example : assignable_to (record_of wide) (record_of wide) ≡ true
assignable_to_refl_example = assignable_to_refl (record_of wide) wide_keys
