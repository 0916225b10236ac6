-- ===== src/Abi/Ty/Equality.antt =====
-- The derived equality on `Ty` decides equality.
use cuttlefish_vm.Base.{
  true, ◌&&◌, and_true, ◌≡◌, refl, ap, arith, text_eq, text_eq_refl, text_eq-true,
}
use cuttlefish_vm.Abi.Ty.{
  Ty, text, number, bool, bytes, image, document, json, list, record_of, Fields, end, field, ty_eq,
  fields_eq,
}

mutual
  unfolding ty_eq

  pub ty_eq_refl : (t : Ty) → ty_eq t t ≡ true
  ty_eq_refl (list a) = ty_eq_refl a
  ty_eq_refl (record_of fs) = fields_eq_refl fs
  ty_eq_refl _ = refl

  fields_eq_refl : (fs : Fields) → fields_eq fs fs ≡ true
  fields_eq_refl end = refl
  fields_eq_refl (field k t fs) = ground (arith, text_eq_refl k, ty_eq_refl t, fields_eq_refl fs)

mutual
  unfolding ty_eq

  pub ty_eq-true : (t u : Ty) → ty_eq t u ≡ true → t ≡ u
  ty_eq-true text u h = ground arith
  ty_eq-true number u h = ground arith
  ty_eq-true bool u h = ground arith
  ty_eq-true bytes u h = ground arith
  ty_eq-true image u h = ground arith
  ty_eq-true document u h = ground arith
  ty_eq-true json u h = ground arith
  ty_eq-true (list a) (list b) h = ap list (ty_eq-true a b h)
  ty_eq-true (list a) _ h = cc
  ty_eq-true (record_of fs) (record_of gs) h = ap record_of (fields_eq-true fs gs h)
  ty_eq-true (record_of fs) _ h = cc

  fields_eq-true : (fs gs : Fields) → fields_eq fs gs ≡ true → fs ≡ gs
  fields_eq-true end end h = refl
  fields_eq-true end (field l u gs) h = cc
  fields_eq-true (field k t fs) end h = cc
  fields_eq-true (field k t fs) (field l u gs) h =
      let (heads, rest) = and_true (text_eq k l && ty_eq t u) (fields_eq fs gs) h in
      let (names, types) = and_true (text_eq k l) (ty_eq t u) heads in
      cc (text_eq-true k l names, ty_eq-true t u types, fields_eq-true fs gs rest)
