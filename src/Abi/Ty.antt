-- ===== src/Abi/Ty.antt =====
-- `Ty`, the shape of a value at a seam, and its two checks: crates/cuttlefish-abi/src/lib.rs.
-- The JSON values are those of serde_json, which is a parameter (`Json`).
pub mod Equality
pub mod Laws
pub mod Values
pub mod Tests
use cuttlefish_vm.Base.{
  ltb, leb, ◌==◌, if◌then◌else◌, ==_iff, Bool-cases, Option-cases, and_true, or_true, is_some,
  is_some-false, length, get_elem?, take, drop, any, all, length-append, take-append-drop,
  length-take, length-drop, All, All-append, is_empty, Text, codes, text_eq, text_eq_refl,
  text_eq-true, text_eq-false, text_eq_iff, text_eq_comm, mem, filter, AreDistinct, mem-append,
  mem-left, mem-right, mem-filter, length-filter, ℕ, zero, suc, ◌+◌, ◌-◌, ◌*◌, ◌/◌, ◌%◌, ◌^◌, ◌≤◌,
  ◌<◌, min, ◌≡◌, refl, sym, ap, ◌∙◌, subst, ◌≢◌, ◌↔◌, ◌⊎◌, inl, inr, Bool, true, false, not, ◌&&◌,
  ◌||◌, Option, none, some, List, [], ◌∷◌, ◌++◌, map, arith,
}

-- `Record` holds a `BTreeMap<String, Ty>`: the fields in the order of their names.
mutual
  pub data Ty : Type 0 where
    text number bool bytes image document json : Ty
    list : Ty → Ty
    record_of : Fields → Ty

  pub data Fields : Type 0 where
    end : Fields
    field : Text → Ty → Fields → Fields

-- `BTreeMap::get`.
unfoldable pub get : Fields → Text → Option Ty
get end name = none
get (field k t rest) name = if text_eq k name then some t else get rest name

-- The derived `PartialEq`.
unfoldable mutual
  pub ty_eq : Ty → Ty → Bool
  ty_eq text text = true
  ty_eq number number = true
  ty_eq bool bool = true
  ty_eq bytes bytes = true
  ty_eq image image = true
  ty_eq document document = true
  ty_eq json json = true
  ty_eq (list a) (list b) = ty_eq a b
  ty_eq (record_of fs) (record_of gs) = fields_eq fs gs
  ty_eq _ _ = false

  pub fields_eq : Fields → Fields → Bool
  fields_eq end end = true
  fields_eq (field k t fs) (field l u gs) = text_eq k l && ty_eq t u && fields_eq fs gs
  fields_eq _ _ = false

unfoldable mutual
  pub assignable_to : Ty → Ty → Bool
  assignable_to _ json = true
  assignable_to (list a) (list b) = assignable_to a b
  assignable_to (record_of have) (record_of need) = all_assignable have need
  assignable_to a b = ty_eq a b

  -- `need.iter().all(...)`
  pub all_assignable : Fields → Fields → Bool
  all_assignable have end = true
  all_assignable have (field name want rest) =
      elim (get have name) [ none ↦ false | some got ↦ assignable_to got want ]
      && all_assignable have rest

-- What the code asks of a `serde_json::Value`.
pub record Json : Type 1 where
  pub Value : Type 0
  pub Object : Type 0
  pub is_string : Value → Bool
  pub is_number : Value → Bool
  pub is_boolean : Value → Bool
  pub as_array : Value → Option (List Value)
  pub as_object : Value → Option Object
  pub get_member : Object → Text → Option Value

module _ (j : Json) where
  open j use {Value, Object, is_string, is_number, is_boolean, as_array, as_object, get_member}

  unfoldable mutual
    pub matches_value : Ty → Value → Bool
    matches_value json v = true
    matches_value bytes v = true
    matches_value image v = true
    matches_value document v = true
    matches_value text v = is_string v
    matches_value number v = is_number v
    matches_value bool v = is_boolean v
    matches_value (list inner) v = elim (as_array v) [
      | none ↦ false
      | some items ↦ all (λ x. matches_value inner x) items
    ]
    matches_value (record_of fs) v = elim (as_object v) [
      | none ↦ false
      | some obj ↦ all_match fs obj
    ]

    pub all_match : Fields → Object → Bool
    all_match end obj = true
    all_match (field name want rest) obj =
        elim (get_member obj name) [ none ↦ false | some v ↦ matches_value want v ]
        && all_match rest obj
