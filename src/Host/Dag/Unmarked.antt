-- ===== src/Host/Dag/Unmarked.antt =====
-- The nodes that `compute_branch_exclusivity` has not marked yet: each round that changes has one less.
use cuttlefish_vm.Base.{
  if◌then◌else◌, Bool-cases, Option-cases, is_some, length, Text, text_eq, text_eq-true,
  text_eq_comm, mem, lookup_entry, insert_entry, lookup_entry-insert_entry, ℕ, ◌+◌, ◌≤◌, ◌<◌, ◌≡◌,
  subst, inl, inr, Bool, true, false, not, ◌||◌, Option, none, some, [], ◌∷◌, arith,
}
use cuttlefish_vm.Core.Graph.{Nodes}
use cuttlefish_vm.Host.Dag.Collect.{names}
use cuttlefish_vm.Host.Dag.Exclusivity.{BranchExclusivity, Exclusive, gain}

-- The nodes with no marker.
abbrev pub unmarked : Nodes → Exclusive → ℕ
unmarked [] marks = 0
unmarked ((name, node) ∷ rest) marks =
    (if is_some (lookup_entry name marks) then 0 else 1) + unmarked rest marks

pub unmarked-le : (nodes : Nodes) (marks : Exclusive) → unmarked nodes marks ≤ length nodes
unmarked-le [] marks = omega arith
unmarked-le ((name, node) ∷ rest) marks = ground (arith, unmarked-le rest marks)

unmarked-insert :
    (nodes : Nodes) (name : Text) (ex : BranchExclusivity) (marks : Exclusive)
    → unmarked nodes (insert_entry name ex marks) ≤ unmarked nodes marks
unmarked-insert [] name ex marks = omega arith
unmarked-insert ((n, node) ∷ rest) name ex marks =
    ground (arith, lookup_entry-insert_entry n name ex marks, unmarked-insert rest name ex marks)

unmarked-lt :
    (nodes : Nodes) (name : Text) (ex : BranchExclusivity) (marks : Exclusive)
    → mem name (names nodes) ≡ true
    → lookup_entry name marks ≡ none
    → unmarked nodes (insert_entry name ex marks) < unmarked nodes marks
unmarked-lt [] name ex marks h e = cc
unmarked-lt ((n, node) ∷ rest) name ex marks h e = elim (Bool-cases (text_eq name n)) [
  | inl same ↦
      let here : lookup_entry n marks ≡ none =
        subst (λ k. lookup_entry k marks ≡ none) (text_eq-true name n same) e in
      ground (arith, lookup_entry-insert_entry n name ex marks, unmarked-insert rest name ex marks)
  | inr other ↦ ground (
    arith,
    lookup_entry-insert_entry n name ex marks,
    text_eq_comm name n,
    unmarked-lt rest name ex marks,
  )
]

-- What a round keeps: it marks no fewer nodes, and one more where it reports a change.
abbrev pub Shrinks : Nodes → Exclusive × Bool → Exclusive × Bool → Type 0
Shrinks nodes before after =
    (unmarked nodes after.0 ≤ unmarked nodes before.0)
    × (before.1 ≡ false → after.1 ≡ true → unmarked nodes after.0 < unmarked nodes before.0)

pub gain-Shrinks :
    (nodes : Nodes) (name : Text) (found : Option BranchExclusivity) (state : Exclusive × Bool)
    → mem name (names nodes) ≡ true
    → Shrinks nodes state (gain name found state)
unfolding gain
gain-Shrinks nodes name none (marks, changed) h = (omega arith, λ p q. cc)
gain-Shrinks nodes name (some ex) (marks, changed) h = (
  unmarked-insert nodes name ex marks,
  λ p q. elim (Option-cases (lookup_entry name marks)) [
    | inl e ↦ unmarked-lt nodes name ex marks h e
    | inr (old, e) ↦ absurd (marked old e p q)
  ],
)
  where
    marked :
        (old : BranchExclusivity)
        → lookup_entry name marks ≡ some old
        → changed ≡ false
        → (changed || not (is_some (lookup_entry name marks))) ≡ true
        → ⊥
    marked old e p q = ground arith

pub Shrinks-trans :
    (nodes : Nodes) (a b c : Exclusive × Bool)
    → Shrinks nodes a b
    → Shrinks nodes b c
    → Shrinks nodes a c
Shrinks-trans nodes a b c h k = (
  omega arith,
  λ p q. elim (Bool-cases b.1) [ inl e ↦ omega (arith, h.1 p e) | inr e ↦ omega (arith, k.1 e q) ],
)
