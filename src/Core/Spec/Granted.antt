-- ===== src/Core/Spec/Granted.antt =====
-- A spec passes `validate_host_read_paths` exactly if its host-read paths lie beneath its roots.
use cuttlefish_vm.Base.{
  leb, if◌then◌else◌, and_true, or_true, length, take, drop, length-append, take-append-drop, All,
  Text, text_eq, text_eq_refl, text_eq-true, ◌≡◌, refl, sym, ap, ◌∙◌, ◌↔◌, ◌⊎◌, inl, inr, Bool,
  true, false, Option, none, some, List, [], ◌∷◌, ◌++◌, arith,
}
use cuttlefish_vm.Core.Parse.{SpecError}
use cuttlefish_vm.Core.Graph.{AcceptCheck, schema, judge, Node, Nodes}
use cuttlefish_vm.Core.Spec.{Spec}
use cuttlefish_vm.Core.Spec.Paths.{
  significant, parts_eq, candidate_starts_with, path_covers, is_granted, manifest_error,
  schema_error, or_next, nodes_error, validate_host_read_paths,
}

-- The significant components of the path go on from those of the root.
abbrev pub IsBeneath : Text → Text → Type 0
IsBeneath root path = (rest : List Text) × (significant path ≡ significant root ++ rest)

abbrev pub IsBeneathOne : List Text → Text → Type 0
IsBeneathOne [] path = ⊥
IsBeneathOne (root ∷ roots) path = IsBeneath root path ⊎ IsBeneathOne roots path

abbrev pub IsManifestIn : List Text → Option Text → Type 0
IsManifestIn roots none = Unit
IsManifestIn roots (some path) = IsBeneathOne roots path

abbrev pub IsCheckIn : List Text → AcceptCheck → Type 0
IsCheckIn roots (schema path) = IsBeneathOne roots path
IsCheckIn roots (judge m p) = Unit

-- All that the host reads for a node.
abbrev pub IsNodeIn : List Text → Text × Node → Type 0
IsNodeIn roots n = IsManifestIn roots n.1.over × All (IsCheckIn roots) n.1.accept

parts_eq-true : (s t : List Text) → parts_eq s t ≡ true → s ≡ t
unfolding parts_eq
parts_eq-true [] [] h = refl
parts_eq-true [] (b ∷ t) h = cc
parts_eq-true (a ∷ s) [] h = cc
parts_eq-true (a ∷ s) (b ∷ t) h =
    let (x, y) = and_true (text_eq a b) (parts_eq s t) h in
    rw (text_eq-true a b x, parts_eq-true s t y) refl

parts_eq_refl : (s : List Text) → parts_eq s s ≡ true
unfolding parts_eq
parts_eq_refl [] = refl
parts_eq_refl (a ∷ s) = rw (text_eq_refl a) (parts_eq_refl s)

take-length_append : (s rest : List Text) → take (length s) (s ++ rest) ≡ s
take-length_append [] rest = refl
take-length_append (a ∷ s) rest = ap (◌∷◌ a) (take-length_append s rest)

candidate_starts_with-append :
    (root rest : List Text) → candidate_starts_with (root ++ rest) root ≡ true
unfolding candidate_starts_with
candidate_starts_with-append root rest =
    rw (take-length_append root rest, parts_eq_refl root) (ground (arith, length-append root rest))

candidate_starts_with_iff :
    (candidate root : List Text)
    → (candidate_starts_with candidate root ≡ true)
      ↔ ((rest : List Text) × (candidate ≡ root ++ rest))
unfolding candidate_starts_with
candidate_starts_with_iff candidate root = (
  λ h.
      let (long, same) =
        and_true (leb (length root) (length candidate))
          (parts_eq (take (length root) candidate) root) h in
      (
        drop (length root) candidate,
        sym (take-append-drop (length root) candidate)
            ∙ ap (λ s. s ++ drop (length root) candidate) (parts_eq-true _ root same),
      ),
  λ (rest, e). rw e (candidate_starts_with-append root rest),
)

path_covers_iff : (root path : Text) → (path_covers root path ≡ true) ↔ IsBeneath root path
unfolding path_covers
path_covers_iff root path = candidate_starts_with_iff (significant path) (significant root)

is_granted_iff :
    (roots : List Text) (path : Text) → (is_granted roots path ≡ true) ↔ IsBeneathOne roots path
is_granted_iff [] path = (λ h. cc, λ h. absurd h)
is_granted_iff (root ∷ roots) path = (
  λ h. elim (or_true (path_covers root path) (is_granted roots path) h) [
    | inl a ↦ inl ((path_covers_iff root path).0 a)
    | inr b ↦ inr ((is_granted_iff roots path).0 b)
  ],
  λ h. elim h [
    | inl a ↦ rw ((path_covers_iff root path).1 a) refl
    | inr b ↦ ground (arith, (is_granted_iff roots path).1 b)
  ],
)

guarded_iff :
    (b : Bool) (next : Option SpecError) (e : SpecError)
    → ((if b then next else some e) ≡ none) ↔ ((b ≡ true) × (next ≡ none))
guarded_iff true next e = (λ h. (refl, h), λ h. h.1)
guarded_iff false next e = (λ h. cc, λ h. cc (h.0))

or_next_iff : (e next : Option SpecError) → (or_next e next ≡ none) ↔ ((e ≡ none) × (next ≡ none))
or_next_iff none next = (λ h. (refl, h), λ h. h.1)
or_next_iff (some e) next = (λ h. cc, λ h. cc (h.0))

module _ (roots : List Text) where
  manifest_error_iff :
      (name : Text) (over : Option Text)
      → (manifest_error roots name over ≡ none) ↔ IsManifestIn roots over
  unfolding manifest_error
  manifest_error_iff name none = (λ h. tt, λ h. refl)
  manifest_error_iff name (some path) = (
    λ h. (is_granted_iff roots path).0 ((guarded_iff _ none _).0 h).0,
    λ h. (guarded_iff _ none _).1 ((is_granted_iff roots path).1 h, refl),
  )

  schema_error_iff :
      (name : Text) (checks : List AcceptCheck)
      → (schema_error roots name checks ≡ none) ↔ All (IsCheckIn roots) checks
  unfolding schema_error
  schema_error_iff name [] = (λ h. tt, λ h. refl)
  schema_error_iff name (judge m p ∷ rest) =
      (λ h. (tt, (schema_error_iff name rest).0 h), λ h. (schema_error_iff name rest).1 h.1)
  schema_error_iff name (schema path ∷ rest) = (
    λ h.
        let (granted, later) = (guarded_iff _ _ _).0 h in
        ((is_granted_iff roots path).0 granted, (schema_error_iff name rest).0 later),
    λ h.
        (guarded_iff _ _ _).1
          ((is_granted_iff roots path).1 h.0, (schema_error_iff name rest).1 h.1),
  )

  nodes_error_iff : (nodes : Nodes) → (nodes_error roots nodes ≡ none) ↔ All (IsNodeIn roots) nodes
  unfolding nodes_error
  nodes_error_iff [] = (λ h. tt, λ h. refl)
  nodes_error_iff ((name, node) ∷ rest) = (
    λ h.
        let (manifest, more) = (or_next_iff (manifest_error roots name node.over) _).0 h in
        let (schemas, later) = (or_next_iff (schema_error roots name node.accept) _).0 more in
        (
          (
            (manifest_error_iff name node.over).0 manifest,
            (schema_error_iff name node.accept).0 schemas,
          ),
          (nodes_error_iff rest).0 later,
        ),
    λ h. (or_next_iff (manifest_error roots name node.over) _).1 (
      (manifest_error_iff name node.over).1 h.0.0,
      (or_next_iff (schema_error roots name node.accept) _).1
          ((schema_error_iff name node.accept).1 h.0.1, (nodes_error_iff rest).1 h.1),
    ),
  )

-- A spec passes exactly if each manifest that a node fans out over and each schema that a node's
-- checks name has the components of some granted root as its first ones.
pub validate_host_read_paths_iff :
    (s : Spec) → (validate_host_read_paths s ≡ none) ↔ All (IsNodeIn s.read_roots) s.nodes.nodes
unfolding validate_host_read_paths
validate_host_read_paths_iff s = nodes_error_iff s.read_roots s.nodes.nodes
