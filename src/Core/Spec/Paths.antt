-- ===== src/Core/Spec/Paths.antt =====
-- Host-read paths against the granted roots: `path_covers` and `validate_host_read_paths` of
-- crates/cuttlefish-core/src/spec.rs. A path is that of a Unix system. Of `Result<(), SpecError>`
-- the error is `some`, and `none` is `Ok(())`.
use cuttlefish_vm.Base.{
  leb, ◌==◌, if◌then◌else◌, length, take, any, is_empty, Text, codes, text_eq, filter, Bool, true,
  false, not, ◌&&◌, Option, none, some, List, [], ◌∷◌, ◌++◌,
}
use cuttlefish_vm.Core.Parse.{SpecError, malformed, manifest_outside, schema_outside}
use cuttlefish_vm.Core.Graph.{AcceptCheck, schema, judge, Nodes}
use cuttlefish_vm.Core.Spec.{Spec}

-- The pieces of a path between its slashes, with `part` read so far.
unfoldable pub split_at_slashes : Text → Text → List Text
split_at_slashes part [] = part ∷ []
split_at_slashes part (c ∷ s) =
    if c == b'/' then part ∷ split_at_slashes [] s else split_at_slashes (part ++ c ∷ []) s

-- `Path::components` has no empty piece, and `significant` keeps no `CurDir`.
abbrev is_significant : Text → Bool
is_significant s = not (is_empty s) && not (text_eq s (codes "."))

abbrev root_dir : Text → List Text
root_dir [] = []
root_dir (c ∷ s) = if c == b'/' then codes "/" ∷ [] else []

unfoldable pub significant : Text → List Text
unfolding split_at_slashes
significant path = root_dir path ++ filter is_significant (split_at_slashes [] path)

-- `==` on slices of components.
unfoldable pub parts_eq : List Text → List Text → Bool
parts_eq [] [] = true
parts_eq (a ∷ s) (b ∷ t) = text_eq a b && parts_eq s t
parts_eq s t = false

unfoldable pub candidate_starts_with : List Text → List Text → Bool
candidate_starts_with candidate root =
    leb (length root) (length candidate) && parts_eq (take (length root) candidate) root

unfoldable pub path_covers : Text → Text → Bool
path_covers root candidate = candidate_starts_with (significant candidate) (significant root)

-- `self.read_roots.iter().any(...)`
abbrev pub is_granted : List Text → Text → Bool
is_granted roots path = any (λ root. path_covers root path) roots

-- `if let Some(manifest) = &node.over`
unfoldable pub manifest_error : List Text → Text → Option Text → Option SpecError
manifest_error roots name none = none
manifest_error roots name (some manifest) =
    if is_granted roots manifest
    then none
    else some (malformed (manifest_outside name manifest roots))

-- The loop over `node.accept`.
unfoldable pub schema_error : List Text → Text → List AcceptCheck → Option SpecError
schema_error roots name [] = none
schema_error roots name (judge m p ∷ rest) = schema_error roots name rest
schema_error roots name (schema path ∷ rest) =
    if is_granted roots path
    then schema_error roots name rest
    else some (malformed (schema_outside name path roots))

-- An early return, or what comes next.
abbrev pub or_next : Option SpecError → Option SpecError → Option SpecError
or_next none next = next
or_next (some e) next = some e

unfoldable pub nodes_error : List Text → Nodes → Option SpecError
nodes_error roots [] = none
nodes_error roots ((name, node) ∷ rest) =
    or_next (manifest_error roots name node.over)
      (or_next (schema_error roots name node.accept) (nodes_error roots rest))

unfoldable pub validate_host_read_paths : Spec → Option SpecError
validate_host_read_paths s = nodes_error s.read_roots s.nodes.nodes
