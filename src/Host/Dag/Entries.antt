-- ===== src/Host/Dag/Entries.antt =====
-- The map of dependencies that `topological_order` builds: its keys, and what its entries hold.
use cuttlefish_vm.Base.{
  if◌then◌else◌, Bool-cases, length, Text, text_eq, text_eq_refl, text_eq-true, text_eq_comm, mem,
  AreDistinct, suc, ◌≤◌, ◌≡◌, refl, ◌∙◌, inl, inr, true, ◌&&◌, ◌||◌, List, [], ◌∷◌, map, arith,
}
use cuttlefish_vm.Host.Dag.{Deps, or_default, insert, insert_dep}

abbrev pub keys : Deps → List Text
keys deps = map (λ e. e.0) deps

-- The dependencies that a map records for a name.
abbrev pub deps_of : Deps → Text → List Text
deps_of [] name = []
deps_of ((k, ds) ∷ rest) name = if text_eq k name then ds else deps_of rest name

pub mem-insert : (x y : Text) (xs : List Text) → mem x (insert y xs) ≡ (text_eq x y || mem x xs)
unfolding insert
mem-insert x y xs = ground (arith, text_eq-true x y)

pub mem-keys-or_default :
    (x name : Text) (deps : Deps)
    → mem x (keys (or_default name deps)) ≡ (mem x (keys deps) || text_eq x name)
unfolding or_default
mem-keys-or_default x name [] = ground arith
mem-keys-or_default x name ((k, ds) ∷ rest) = elim (Bool-cases (text_eq k name)) [
  | inl same ↦ rw same (ground (arith, text_eq-true k name same))
  | inr other ↦ rw other (ground (arith, mem-keys-or_default x name rest))
]

pub deps_of-or_default :
    (x name : Text) (deps : Deps) → deps_of (or_default name deps) x ≡ deps_of deps x
unfolding or_default
deps_of-or_default x name [] = ground arith
deps_of-or_default x name ((k, ds) ∷ rest) = ground (arith, deps_of-or_default x name rest)

pub mem-keys-insert_dep :
    (x name r : Text) (deps : Deps)
    → mem name (keys deps) ≡ true
    → mem x (keys (insert_dep name r deps)) ≡ mem x (keys deps)
unfolding insert_dep
mem-keys-insert_dep x name r [] h = cc
mem-keys-insert_dep x name r ((k, ds) ∷ rest) h =
    ground (arith, text_eq_comm name k, mem-keys-insert_dep x name r rest)

pub deps_of-insert_dep :
    (d x name r : Text) (deps : Deps)
    → mem d (deps_of (insert_dep name r deps) x)
      ≡ (mem d (deps_of deps x) || (text_eq name x && text_eq d r))
unfolding insert_dep
deps_of-insert_dep d x name r [] = ground arith
deps_of-insert_dep d x name r ((k, ds) ∷ rest) = ground (
  arith,
  mem-insert d r ds,
  text_eq-true k name,
  text_eq-true k x,
  text_eq-true name x,
  text_eq_refl k,
  deps_of-insert_dep d x name r rest,
)

-- No key stands twice.
pub or_default-AreDistinct :
    (name : Text) (deps : Deps)
    → AreDistinct (keys deps)
    → AreDistinct (keys (or_default name deps))
unfolding or_default
or_default-AreDistinct name [] h = (refl, tt)
or_default-AreDistinct name ((k, ds) ∷ rest) h = elim (Bool-cases (text_eq k name)) [
  | inl same ↦ rw same h
  | inr other ↦ rw other (
    rw (mem-keys-or_default k name rest, other) (ground arith),
    or_default-AreDistinct name rest h.1,
  )
]

pub insert_dep-AreDistinct :
    (name r : Text) (deps : Deps)
    → mem name (keys deps) ≡ true
    → AreDistinct (keys deps)
    → AreDistinct (keys (insert_dep name r deps))
unfolding insert_dep
insert_dep-AreDistinct name r [] m h = cc
insert_dep-AreDistinct name r ((k, ds) ∷ rest) m h = elim (Bool-cases (text_eq k name)) [
  | inl same ↦ rw same h
  | inr other ↦
      let later : mem name (keys rest) ≡ true = ground (arith, text_eq_comm name k) in
      rw other (
        mem-keys-insert_dep k name r rest later ∙ h.0,
        insert_dep-AreDistinct name r rest later h.1,
      )
]

pub length-insert_dep :
    (name r : Text) (deps : Deps)
    → mem name (keys deps) ≡ true
    → length (insert_dep name r deps) ≡ length deps
unfolding insert_dep
length-insert_dep name r [] m = cc
length-insert_dep name r ((k, ds) ∷ rest) m =
    ground (arith, text_eq_comm name k, length-insert_dep name r rest)

pub length-or_default :
    (name : Text) (deps : Deps) → length (or_default name deps) ≤ suc (length deps)
unfolding or_default
length-or_default name [] = omega arith
length-or_default name ((k, ds) ∷ rest) = ground (arith, length-or_default name rest)

pub length-or_default_exact :
    (name : Text) (deps : Deps)
    → length (or_default name deps)
      ≡ (if mem name (keys deps) then length deps else suc (length deps))
unfolding or_default
length-or_default_exact name [] = refl
length-or_default_exact name ((k, ds) ∷ rest) =
    ground (arith, text_eq_comm k name, length-or_default_exact name rest)
