-- ===== src/Host/Runner/Sample.antt =====
-- A small platform for the tests: six kinds of JSON value, and a world that counts the runs of blocks.
use cuttlefish_vm.Base.{
  ◌==◌, if◌then◌else◌, Bool-cases, Text, codes, text_eq, text_eq-true, text_eq_comm, mem,
  lookup_entry, ℕ, ◌≡◌, refl, subst, inl, inr, true, false, Option, none, some, List, [], ◌∷◌, ◌++◌,
  map, arith,
}
use cuttlefish_vm.Abi.Ty.{Json}
use cuttlefish_vm.Core.Lex.Tests.{ascii}
use cuttlefish_vm.Host.Serde.{SerdeJson}
use cuttlefish_vm.Host.Platform.{Platform, ok, err}

-- `routed t` is the object whose one member `route` is the string `t`.
pub data Sample : Type 0 where
  null opaque : Sample
  string routed : Text → Sample
  number : ℕ → Sample

unfoldable pub sample_get_str : Sample → Text → Option Text
sample_get_str (routed t) key = if text_eq key (codes "route") then some t else none
sample_get_str v key = none

unfoldable pub sample_to_string : Sample → Text
sample_to_string null = 0 ∷ []
sample_to_string opaque = 1 ∷ []
sample_to_string (string t) = 2 ∷ t
sample_to_string (routed t) = 3 ∷ t
sample_to_string (number n) = 4 ∷ n ∷ []

unfoldable pub sample_from_str : Text → Option Sample
sample_from_str [] = none
sample_from_str (c ∷ t) =
    if c == 0
    then some null
    else if c == 1
    then some opaque
    else if c == 2
    then some (string t)
    else if c == 3
    then some (routed t)
    else elim t [ [] ↦ none | n ∷ rest ↦ some (number n) ]

pub sample_from_str-to_string : (v : Sample) → sample_from_str (sample_to_string v) ≡ some v
unfolding sample_from_str sample_to_string
sample_from_str-to_string null = refl
sample_from_str-to_string opaque = refl
sample_from_str-to_string (string t) = refl
sample_from_str-to_string (routed t) = refl
sample_from_str-to_string (number n) = refl

abbrev route_of : Option Sample → Sample
route_of (some (string t)) = routed t
route_of (some (routed t)) = routed t
route_of v = opaque

unfoldable pub sample_object : List (Text × Sample) → Sample
unfolding lookup_entry
sample_object members = route_of (lookup_entry (codes "route") members)

lookup_absent :
    (key : Text) (members : List (Text × Sample))
    → mem key (map (λ m. m.0) members) ≡ false
    → lookup_entry key members ≡ none
unfolding lookup_entry
lookup_absent key [] h = refl
lookup_absent key (m ∷ members) h = ground (arith, text_eq_comm key m.0, lookup_absent key members)

other_key :
    (o : Option Sample) (key : Text)
    → text_eq key (codes "route") ≡ false
    → sample_get_str (route_of o) key ≡ none
unfolding sample_get_str
other_key none key e = refl
other_key (some null) key e = refl
other_key (some opaque) key e = refl
other_key (some (string t)) key e = rw e refl
other_key (some (routed t)) key e = rw e refl
other_key (some (number n)) key e = refl

pub sample_get_str-object :
    (members : List (Text × Sample)) (key : Text)
    → mem key (map (λ m. m.0) members) ≡ false
    → sample_get_str (sample_object members) key ≡ none
unfolding sample_object sample_get_str
sample_get_str-object members key h = elim (Bool-cases (text_eq key (codes "route"))) [
  | inl e ↦
      let absent : lookup_entry (codes "route") members ≡ none =
        subst (λ k. lookup_entry k members ≡ none) (text_eq-true key (codes "route") e)
          (lookup_absent key members h) in
      rw absent refl
  | inr e ↦ other_key (lookup_entry (codes "route") members) key e
]

abbrev pub sample_json : Json
sample_json = record {
  Value = Sample;
  Object = Text;
  is_string = λ v. elim v [ string t ↦ true | _ ↦ false ];
  is_number = λ v. elim v [ number n ↦ true | _ ↦ false ];
  is_boolean = λ v. false;
  as_array = λ v. none;
  as_object = λ v. elim v [ routed t ↦ some t | _ ↦ none ];
  get_member = λ o key. if text_eq key (codes "route") then some (string o) else none;
}

abbrev pub sample : SerdeJson
sample = record {
  json = sample_json;
  to_string = sample_to_string;
  from_str = sample_from_str;
  null = null;
  string = string;
  number = number;
  array = λ vs. opaque;
  object = sample_object;
  get_str = sample_get_str;
  get_str-object = sample_get_str-object;
}

-- Every file holds two lines, the strings `a` and `b`.
abbrev pub platform : Platform sample
platform = record {
  World = ℕ;
  Backend = ℕ;
  Validator = Text;
  chars = ascii;
  debug = λ t. t;
  read_to_string = λ path. err (codes "no such file");
  json_error = λ t. codes "not JSON";
  validator_for = λ v. err (codes "no schema");
  iter_errors = λ validator v. [];
  get_bool = λ v key. none;
  infer = λ b prompt tokens w. (ok prompt, w);
  now_marker = λ w. codes "now";
  read = λ path w. ok (2 ∷ b'a' ∷ 10 ∷ 2 ∷ b'b' ∷ 10 ∷ []);
  from_utf8 = λ bytes. ok bytes;
  sha256 = λ bytes. bytes;
  create_dir_all = λ path w. (none, w);
  write = λ path text w. (none, w);
  is_cancelled = λ w. false;
  join_path = λ a b. a ++ (codes "/" ++ b);
}
