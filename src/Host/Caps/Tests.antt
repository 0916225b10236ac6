-- ===== src/Host/Caps/Tests.antt =====
-- Runs of the answers of crates/cuttlefish-host/src/caps.rs.
use cuttlefish_vm.Base.{
  leb, if◌then◌else◌, is_some, length, all, Text, codes, text_eq, starts_with, ◌≡◌, refl, false,
  ◌&&◌, ◌||◌, Option, none, some, List, [], ◌∷◌,
}
use cuttlefish_vm.Core.Spec.Paths.{candidate_starts_with, parts_eq}
use cuttlefish_vm.Host.Caps.Fair.{IsFair, read_denial-IsFair}
use cuttlefish_vm.Host.Caps.{
  FileSystem, Capabilities, not_granted, missing, contains_dots, allows_fetch, parent, covers,
  allows_read, first_ancestor, read_denial, is_in_root,
}

-- Only `/` and `/data` are there, and are what they are named.
abbrev plain_canonicalize : List Text → Option (List Text)
plain_canonicalize path =
    if leb (length path) 2 && all (λ p. text_eq p (codes "/") || text_eq p (codes "data")) path
    then some path
    else none

abbrev plain_files : FileSystem
plain_files = record {
  canonicalize = plain_canonicalize;
  symlink_metadata = λ path. is_some (plain_canonicalize path);
}

abbrev data_only : Capabilities
data_only = record {
  read_roots = (codes "/" ∷ codes "data" ∷ []) ∷ [];
  fetch_prefixes = codes "https://a.org/" ∷ [];
}

abbrev absent_path : List Text
absent_path = codes "/" ∷ codes "data" ∷ codes "b" ∷ codes "c" ∷ []

absent_below : read_denial plain_files data_only absent_path ≡ some (some missing)
unfolding read_denial first_ancestor allows_read is_in_root covers parent text_eq
    candidate_starts_with parts_eq
absent_below = refl

elsewhere :
    read_denial plain_files data_only (codes "/" ∷ codes "etc" ∷ []) ≡ some (some not_granted)
unfolding read_denial first_ancestor allows_read is_in_root covers parent text_eq
    candidate_starts_with parts_eq
elsewhere = refl

no_dots : allows_fetch data_only (codes "https://a.org/../b") ≡ false
unfolding allows_fetch contains_dots starts_with
no_dots = refl

read_denial-IsFair_example :
    IsFair plain_files data_only absent_path (read_denial plain_files data_only absent_path)
read_denial-IsFair_example = read_denial-IsFair plain_files data_only absent_path
