-- ===== src/Abi/Ty/Values.antt =====
-- Soundness of the build-time seam check for the values that flow at run time.
use cuttlefish_vm.Base.{
  Bool-cases, and_true, all, Text, text_eq, text_eq-true, ◌≡◌, refl, inl, inr, true, some, List, [],
  ◌∷◌, arith,
}
use cuttlefish_vm.Abi.Ty.{
  Ty, json, list, record_of, Fields, end, field, get, assignable_to, all_assignable, Json,
  matches_value, all_match,
}
use cuttlefish_vm.Abi.Ty.Equality.{ty_eq-true}
use cuttlefish_vm.Abi.Ty.Laws.{all_assignable-field, assignable_to-list, assignable_to-record_of}

module _ (j : Json) where
  open j use {Value, Object, as_array, as_object, get_member}

  all_match-field :
      (k : Text) (u : Ty) (rest : Fields) (obj : Object)
      → all_match j (field k u rest) obj ≡ true
      → (all_match j rest obj ≡ true)
        × ((v : Value) × (get_member obj k ≡ some v) × (matches_value j u v ≡ true))
  unfolding matches_value
  all_match-field k u rest obj h = ground arith

  matches_value-list :
      (a : Ty) (v : Value)
      → matches_value j (list a) v ≡ true
      → (vs : List Value) × (as_array v ≡ some vs) × (all (λ x. matches_value j a x) vs ≡ true)
  unfolding matches_value
  matches_value-list a v h = ground arith

  matches_value-record_of :
      (fs : Fields) (v : Value)
      → matches_value j (record_of fs) v ≡ true
      → (obj : Object) × (as_object v ≡ some obj) × (all_match j fs obj ≡ true)
  unfolding matches_value
  matches_value-record_of fs v h = ground arith

  list-matches_value :
      (b : Ty) (v : Value) (vs : List Value)
      → as_array v ≡ some vs
      → all (λ x. matches_value j b x) vs ≡ true
      → matches_value j (list b) v ≡ true
  unfolding matches_value
  list-matches_value b v vs e h = ground arith

  record_of-matches_value :
      (fs : Fields) (v : Value) (obj : Object)
      → as_object v ≡ some obj
      → all_match j fs obj ≡ true
      → matches_value j (record_of fs) v ≡ true
  unfolding matches_value
  record_of-matches_value fs v obj e h = ground arith

  field-all_match :
      (k : Text) (u : Ty) (rest : Fields) (obj : Object) (v : Value)
      → get_member obj k ≡ some v
      → matches_value j u v ≡ true
      → all_match j rest obj ≡ true
      → all_match j (field k u rest) obj ≡ true
  unfolding matches_value
  field-all_match k u rest obj v e h r = ground arith

  -- A field that is declared is present in a matching object, with a matching value.
  get-all_match :
      (fs : Fields) (obj : Object) (name : Text) (t : Ty)
      → all_match j fs obj ≡ true
      → get fs name ≡ some t
      → (v : Value) × (get_member obj name ≡ some v) × (matches_value j t v ≡ true)
  unfolding matches_value get
  get-all_match end obj name t h e = cc
  get-all_match (field k u rest) obj name t h e =
      let (later, first) = all_match-field k u rest obj h in
      elim (Bool-cases (text_eq k name)) [
        | inl same ↦
            let found : u ≡ t = ground arith in rw (← found, ← text_eq-true k name same) first
        | inr other ↦ get-all_match rest obj name t later (ground arith)
      ]

  all_mono :
      (t u : Ty)
      → ((v : Value) → matches_value j t v ≡ true → matches_value j u v ≡ true)
      → (vs : List Value) → all (λ x. matches_value j t x) vs ≡ true
      → all (λ x. matches_value j u x) vs ≡ true
  all_mono t u f [] h = refl
  all_mono t u f (v ∷ vs) h =
      let (head, rest) = and_true (matches_value j t v) (all (λ x. matches_value j t x) vs) h in
      rw (f v head) (all_mono t u f vs rest)

  mutual
    unfolding assignable_to matches_value

    sound :
        (t u : Ty) (v : Value)
        → assignable_to t u ≡ true
        → matches_value j t v ≡ true
        → matches_value j u v ≡ true
    sound t json v h m = refl
    sound t (list b) v h m =
        let (a, t_list, a_b) = assignable_to-list t b h in
        let (vs, is_array, fit) = matches_value-list a v (rw t_list at m) in
        list-matches_value b v vs is_array (all_mono a b (λ x. sound a b x a_b) vs fit)
    sound t (record_of need) v h m =
        let (have, t_rec, have_need) = assignable_to-record_of t need h in
        let (obj, is_object, fit) = matches_value-record_of have v (rw t_rec at m) in
        record_of-matches_value need v obj is_object (all_sound have need obj have_need fit)
    sound t u v h m = rw (ty_eq-true t u h) at m

    all_sound :
        (have need : Fields) (obj : Object)
        → all_assignable have need ≡ true
        → all_match j have obj ≡ true
        → all_match j need obj ≡ true
    all_sound have end obj h m = refl
    all_sound have (field name want rest) obj h m =
        let (later, (got, at_got, got_want)) = all_assignable-field have rest name want h in
        let (v, at_v, fits) = get-all_match have obj name got m at_got in
        field-all_match name want rest obj v at_v (sound got want v got_want fits)
          (all_sound have rest obj later m)

-- A seam that the build accepts passes every value: what matches the producer's output type
-- matches the consumer's input type, for every view of the JSON values.
pub matches_value-assignable_to :
    (j : Json) (t u : Ty) (v : Json.Value j)
    → assignable_to t u ≡ true
    → matches_value j t v ≡ true
    → matches_value j u v ≡ true
matches_value-assignable_to j t u v h m = sound j t u v h m
