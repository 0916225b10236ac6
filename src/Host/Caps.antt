-- ===== src/Host/Caps.antt =====
-- What a job may read and fetch: crates/cuttlefish-host/src/caps.rs. A path is the list of its
-- components, on a Unix system; what stands at a path is a parameter.
pub mod Fair
pub mod Tests
use cuttlefish_vm.Base.{
  ltb, leb, ◌==◌, if◌then◌else◌, ==_iff, Bool-cases, Option-cases, and_true, or_true, is_some,
  is_some-false, length, get_elem?, take, drop, any, all, length-append, take-append-drop,
  length-take, length-drop, All, All-append, is_empty, Text, codes, text_eq, text_eq_refl,
  text_eq-true, text_eq-false, text_eq_iff, text_eq_comm, text_lt, strip_suffix, starts_with,
  parse_digits, parse_u32, parse_u32-lt, decimal_onto, decimal, join, find_char, rfind_char, mem,
  filter, AreDistinct, mem-append, mem-left, mem-right, mem-filter, length-filter, lookup_entry,
  insert_entry, lookup_entry-insert_entry, ℕ, zero, suc, ◌+◌, ◌-◌, ◌*◌, ◌/◌, ◌%◌, ◌^◌, ◌≤◌, ◌<◌,
  min, ◌≡◌, refl, sym, ap, ◌∙◌, subst, ◌≢◌, ◌↔◌, ◌⊎◌, inl, inr, Bool, true, false, not, ◌&&◌, ◌||◌,
  Option, none, some, List, [], ◌∷◌, ◌++◌, map, arith,
}
use cuttlefish_vm.Core.Spec.Paths.{candidate_starts_with}

pub record FileSystem : Type 0 where
  -- `Path::canonicalize` and whether `Path::symlink_metadata` is `Ok`.
  pub canonicalize : List Text → Option (List Text)
  pub symlink_metadata : List Text → Bool

pub record Capabilities : Type 0 where
  pub read_roots : List (List Text)
  pub fetch_prefixes : List Text

pub data ReadDenial : Type 0 where
  not_granted missing : ReadDenial

-- `url.contains("..")`
unfoldable pub contains_dots : Text → Bool
unfolding starts_with
contains_dots [] = false
contains_dots (c ∷ rest) = starts_with (codes "..") (c ∷ rest) || contains_dots rest

unfoldable pub allows_fetch : Capabilities → Text → Bool
unfolding starts_with
allows_fetch c url =
    if contains_dots url then false else any (λ p. starts_with p url) c.fetch_prefixes

-- `Path::parent`
abbrev pub but_last : Text → List Text → List Text
but_last c [] = []
but_last c (d ∷ rest) = c ∷ but_last d rest

unfoldable pub parent : List Text → Option (List Text)
parent [] = none
parent (c ∷ rest) = if is_empty rest && text_eq c (codes "/") then none else some (but_last c rest)

-- `Some(..)` of the denial, or `none` where there was no fuel for one.
abbrev pub denied : Option ReadDenial → Option (Option ReadDenial)
denied none = none
denied (some d) = some (some d)

module _ (fs : FileSystem) where
  -- The closures over `self.read_roots`.
  unfoldable pub covers : List Text → List Text → Bool
  covers real root = elim (fs.canonicalize root) [
    | none ↦ false
    | some root' ↦ candidate_starts_with real root'
  ]

  unfoldable pub is_in_root : Capabilities → List Text → Bool
  is_in_root c real = any (λ root. covers real root) c.read_roots

  unfoldable pub allows_read : Capabilities → List Text → Bool
  allows_read c path = elim (fs.canonicalize path) [
    | none ↦ false
    | some target ↦ is_in_root c target
  ]

  -- The loop over the ancestors: `none` where the fuel runs out.
  unfoldable pub first_ancestor : Capabilities → ℕ → Option (List Text) → Option ReadDenial
  first_ancestor c zero ancestor = none
  first_ancestor c (suc fuel) none = some not_granted
  first_ancestor c (suc fuel) (some dir) = elim (fs.canonicalize dir) [
    | some real ↦ some (if is_in_root c real then missing else not_granted)
    | none ↦ first_ancestor c fuel (parent dir)
  ]

  unfoldable pub read_denial : Capabilities → List Text → Option (Option ReadDenial)
  read_denial c path =
      if allows_read c path
      then some none
      else if fs.symlink_metadata path
      then some (some not_granted)
      else denied (first_ancestor c (suc (length path)) (parent path))
