-- ===== src/Abi/Ty/Laws.antt =====
-- `assignable_to` is a preorder, and a seam that it allows passes every value that fits.
use cuttlefish_vm.Base.{
  Bool-cases, Text, text_eq, text_eq_refl, text_eq-true, ◌≡◌, refl, sym, ◌∙◌, inl, inr, true, none,
  some, arith,
}
use cuttlefish_vm.Abi.Ty.{
  Ty, text, json, list, record_of, Fields, end, field, get, ty_eq, assignable_to, all_assignable,
}
use mathlib.Core.Option.{some-ne-none}
use cuttlefish_vm.Abi.Ty.Equality.{ty_eq-true, ty_eq_refl}

-- What `all_assignable` says of the first field that is needed.
pub all_assignable-field :
    (have rest : Fields) (k : Text) (t : Ty)
    → all_assignable have (field k t rest) ≡ true
    → (all_assignable have rest ≡ true)
      × ((got : Ty) × (get have k ≡ some got) × (assignable_to got t ≡ true))
unfolding assignable_to
all_assignable-field have rest k t h = ground arith

-- What it says of a field that is found by name.
get-all_assignable :
    (have need : Fields) (name : Text) (want : Ty)
    → all_assignable have need ≡ true
    → get need name ≡ some want
    → (got : Ty) × (get have name ≡ some got) × (assignable_to got want ≡ true)
unfolding get
get-all_assignable have end name want h e = cc
get-all_assignable have (field k t rest) name want h e =
    let (later, first) = all_assignable-field have rest k t h in
    elim (Bool-cases (text_eq k name)) [
      | inl same ↦
          let found : t ≡ want = ground arith in rw (← found, ← text_eq-true k name same) first
      | inr other ↦ get-all_assignable have rest name want later (ground arith)
    ]

pub assignable_to-list :
    (t b : Ty)
    → assignable_to t (list b) ≡ true
    → (a : Ty) × (t ≡ list a) × (assignable_to a b ≡ true)
unfolding assignable_to ty_eq
assignable_to-list (list a) b h = (a, refl, h)
assignable_to-list text b h = cc
assignable_to-list _ b h = cc

pub assignable_to-record_of :
    (t : Ty) (need : Fields)
    → assignable_to t (record_of need) ≡ true
    → (have : Fields) × (t ≡ record_of have) × (all_assignable have need ≡ true)
unfolding assignable_to ty_eq
assignable_to-record_of (record_of have) need h = (have, refl, h)
assignable_to-record_of text need h = cc
assignable_to-record_of _ need h = cc

mutual
  unfolding assignable_to

  trans_of_types :
      (t u w : Ty) → assignable_to t u ≡ true → assignable_to u w ≡ true → assignable_to t w ≡ true
  trans_of_types t u json h k = refl
  trans_of_types t u (list c) h k =
      let (b, u_list, b_c) = assignable_to-list u c k in
      let (a, t_list, a_b) = assignable_to-list t b (rw u_list at h) in
      rw t_list (trans_of_types a b c a_b b_c)
  trans_of_types t u (record_of need) h k =
      let (gs, u_rec, gs_need) = assignable_to-record_of u need k in
      let (fs, t_rec, fs_gs) = assignable_to-record_of t gs (rw u_rec at h) in
      rw t_rec (trans_of_fields fs gs need fs_gs gs_need)
  trans_of_types t u w h k = rw (ty_eq-true u w k) at h

  trans_of_fields :
      (fs gs need : Fields)
      → all_assignable fs gs ≡ true
      → all_assignable gs need ≡ true
      → all_assignable fs need ≡ true
  trans_of_fields fs gs end h k = refl
  trans_of_fields fs gs (field name want rest) h k =
      let (later, (mid, at_mid, mid_want)) = all_assignable-field gs rest name want k in
      let (got, at_got, got_mid) = get-all_assignable fs gs name mid h at_mid in
      rw (at_got, trans_of_types got mid want got_mid mid_want) (trans_of_fields fs gs rest h later)

-- Seams compose: a type that may feed `u` may feed every `w` that `u` may feed.
pub assignable_to_trans :
    (t u w : Ty) → assignable_to t u ≡ true → assignable_to u w ≡ true → assignable_to t w ≡ true
assignable_to_trans = trans_of_types

-- What a `BTreeMap` guarantees: no record has two fields of one name.
abbrev mutual
  pub IsKeyed : Ty → Type 0
  IsKeyed (list a) = IsKeyed a
  IsKeyed (record_of fs) = AreKeyed fs
  IsKeyed _ = Unit

  pub AreKeyed : Fields → Type 0
  AreKeyed end = Unit
  AreKeyed (field k t rest) = (get rest k ≡ none) × IsKeyed t × AreKeyed rest

-- Every field of `need` stands in `have`.
abbrev Holds : Fields → Fields → Type 0
Holds have need = (name : Text) (t : Ty) → get need name ≡ some t → get have name ≡ some t

Holds-rest :
    (have rest : Fields) (k : Text) (t : Ty)
    → get rest k ≡ none
    → Holds have (field k t rest)
    → Holds have rest
unfolding get
Holds-rest have rest k t fresh h name u e = elim (Bool-cases (text_eq k name)) [
  | inl same ↦ absurd (some-ne-none u (sym e ∙ rw (← text_eq-true k name same) fresh))
  | inr other ↦ h name u (rw other e)
]

mutual
  unfolding assignable_to get

  refl_of_types : (t : Ty) → IsKeyed t → assignable_to t t ≡ true
  refl_of_types (list a) k = refl_of_types a k
  refl_of_types (record_of fs) k = refl_of_fields fs fs k (λ name t e. e)
  refl_of_types json k = refl
  refl_of_types t k = ty_eq_refl t

  refl_of_fields :
      (have need : Fields) → AreKeyed need → Holds have need → all_assignable have need ≡ true
  refl_of_fields have end k h = refl
  refl_of_fields have (field name t rest) k h =
      rw (h name t (rw text_eq_refl refl), refl_of_types t k.1)
        (refl_of_fields have rest k.2 (Holds-rest have rest name t k.0 h))

-- A type may stand at a seam with itself, where no record in it repeats a field's name.
pub assignable_to_refl : (t : Ty) → IsKeyed t → assignable_to t t ≡ true
assignable_to_refl = refl_of_types
