-- ===== src/Host/Dag/Marks.antt =====
-- The markers of `compute_branch_exclusivity`: the loop ends, and where a marker comes from.
use cuttlefish_vm.Base.{
  Bool-cases, Option-cases, length, any, All, Text, text_eq, text_eq_refl, mem, lookup_entry,
  insert_entry, ℕ, zero, suc, ◌<◌, ◌≡◌, refl, subst, inl, inr, Bool, true, false, ◌&&◌, Option,
  none, some, List, [], ◌∷◌, map, arith,
}
use cuttlefish_vm.Core.Graph.{Nodes, NodeGraph, Branches, find_node}
use cuttlefish_vm.Host.Dag.{references, Outcome, ok, err, panicked, out_of_fuel, ◌>>=◌}
use cuttlefish_vm.Host.Dag.Collect.{names}
use cuttlefish_vm.Host.Dag.Exclusivity.{
  BranchExclusivity, Exclusive, seed_labels, seed_decisions, disagrees, find_mark, gain, mark_round,
  mark_loop, compute_branch_exclusivity,
}
use cuttlefish_vm.Host.Dag.Unmarked.{unmarked, unmarked-le, Shrinks, Shrinks-trans, gain-Shrinks}

-- A predicate of the value, where there is one, and that there is one but for an error.
abbrev pub Gives : {A : Type 0} → (A → Type 0) → Outcome A → Type 0
Gives P (ok a) = P a
Gives P (err e) = Unit
Gives P panicked = Unit
Gives P out_of_fuel = ⊥

pub >>=-Gives :
    {A B : Type 0} (P : A → Type 0) (Q : B → Type 0) (m : Outcome A) (f : A → Outcome B)
    → Gives P m
    → ((a : A) → P a → Gives Q (f a))
    → Gives Q (m >>= f)
>>=-Gives P Q (ok a) f h k = k a h
>>=-Gives P Q (err e) f h k = tt
>>=-Gives P Q panicked f h k = tt
>>=-Gives P Q out_of_fuel f h k = absurd h

Gives-mono :
    {A : Type 0} (P Q : A → Type 0) (m : Outcome A) → ((a : A) → P a → Q a) → Gives P m → Gives Q m
Gives-mono P Q (ok a) f h = f a h
Gives-mono P Q (err e) f h = tt
Gives-mono P Q panicked f h = tt
Gives-mono P Q out_of_fuel f h = absurd h

-- A predicate of every marker.
abbrev pub AreMarks : (BranchExclusivity → Type 0) → Exclusive → Type 0
AreMarks P marks = All (λ e. P e.1) marks

abbrev IsMark : (BranchExclusivity → Type 0) → Option BranchExclusivity → Type 0
IsMark P none = Unit
IsMark P (some ex) = P ex

lookup-IsMark :
    (P : BranchExclusivity → Type 0) (k : Text) (marks : Exclusive)
    → AreMarks P marks
    → IsMark P (lookup_entry k marks)
unfolding lookup_entry
lookup-IsMark P k [] h = tt
lookup-IsMark P k (e ∷ marks) h = elim (Bool-cases (text_eq e.0 k)) [
  | inl same ↦ rw same h.0
  | inr other ↦ rw other (lookup-IsMark P k marks h.1)
]

insert-AreMarks :
    (P : BranchExclusivity → Type 0) (k : Text) (ex : BranchExclusivity) (marks : Exclusive)
    → P ex
    → AreMarks P marks
    → AreMarks P (insert_entry k ex marks)
unfolding insert_entry
insert-AreMarks P k ex [] p h = (p, tt)
insert-AreMarks P k ex (e ∷ marks) p h = elim (Bool-cases (text_eq e.0 k)) [
  | inl same ↦ rw same (p, h.1)
  | inr other ↦ rw other (h.0, insert-AreMarks P k ex marks p h.1)
]

find_mark-IsMark :
    (P : BranchExclusivity → Type 0) (name : Text) (refs : List Text) (marks : Exclusive)
    (found : Option BranchExclusivity)
    → AreMarks P marks
    → IsMark P found
    → Gives (IsMark P) (find_mark name refs marks found)
unfolding find_mark
find_mark-IsMark P name [] marks found h k = k
find_mark-IsMark P name (r ∷ rest) marks none h k = elim (Option-cases (lookup_entry r marks)) [
  | inl e ↦ rw (e, find_mark) (find_mark-IsMark P name rest marks none h tt)
  | inr (ex, e) ↦
      rw (e, find_mark)
        (find_mark-IsMark P name rest marks (some ex) h
          (subst (IsMark P) e (lookup-IsMark P r marks h)))
]
find_mark-IsMark P name (r ∷ rest) marks (some old) h k =
    elim (Option-cases (lookup_entry r marks)) [
      | inl e ↦ rw (e, find_mark) (find_mark-IsMark P name rest marks (some old) h k)
      | inr (ex, e) ↦
          rw (e, find_mark)
            (elim (Bool-cases (disagrees old ex)) [
              | inl bad ↦ rw bad tt
              | inr fine ↦ rw fine (find_mark-IsMark P name rest marks (some old) h k)
            ])
    ]

gain-AreMarks :
    (P : BranchExclusivity → Type 0) (name : Text) (found : Option BranchExclusivity)
    (state : Exclusive × Bool)
    → IsMark P found
    → AreMarks P state.0
    → AreMarks P (gain name found state).0
unfolding gain
gain-AreMarks P name none (marks, changed) h k = k
gain-AreMarks P name (some ex) (marks, changed) h k = insert-AreMarks P name ex marks h k

mark_round-Gives :
    (P : BranchExclusivity → Type 0) (nodes sub : Nodes) (state : Exclusive × Bool)
    → All (λ e. mem e.0 (names nodes) ≡ true) sub
    → AreMarks P state.0
    → Gives (λ after. Shrinks nodes state after × AreMarks P after.0) (mark_round sub state)
unfolding mark_round
mark_round-Gives P nodes [] state known h = ((omega arith, λ p q. cc), h)
mark_round-Gives P nodes ((name, node) ∷ rest) state known h =
    >>=-Gives (IsMark P) _ (find_mark name (references node) state.0 none) _
      (find_mark-IsMark P name (references node) state.0 none h tt)
      λ found p.
        Gives-mono _ _ (mark_round rest (gain name found state))
          (λ after later. (
            Shrinks-trans nodes state (gain name found state) after
                (gain-Shrinks nodes name found state known.0) later.0,
            later.1,
          ))
          (mark_round-Gives P nodes rest (gain name found state) known.1
            (gain-AreMarks P name found state p h))

known_names :
    (nodes sub : Nodes)
    → ((x : Text) → mem x (names sub) ≡ true → mem x (names nodes) ≡ true)
    → All (λ e. mem e.0 (names nodes) ≡ true) sub
known_names nodes [] h = tt
known_names nodes (e ∷ sub) h =
    (h e.0 (rw (text_eq_refl e.0) refl), known_names nodes sub (λ x m. h x (ground arith)))

pub mark_loop-Gives :
    (P : BranchExclusivity → Type 0) (fuel : ℕ) (nodes : Nodes) (marks : Exclusive)
    → unmarked nodes marks < fuel
    → AreMarks P marks
    → Gives (AreMarks P) (mark_loop fuel nodes marks)
unfolding mark_loop
mark_loop-Gives P zero nodes marks small h = absurd (omega arith)
mark_loop-Gives P (suc fuel) nodes marks small h =
    >>=-Gives (λ after. Shrinks nodes (marks, false) after × AreMarks P after.0) (AreMarks P)
      (mark_round nodes (marks, false)) _
      (mark_round-Gives P nodes nodes (marks, false) (known_names nodes nodes (λ x m. m)) h)
      λ state later. elim (Bool-cases state.1) [
        | inl changed ↦
            rw changed
              (mark_loop-Gives P fuel nodes state.0 (omega (arith, later.0.1 refl changed)) later.1)
        | inr still ↦ rw still later.1
      ]

seed_labels-Gives :
    (P : BranchExclusivity → Type 0) (nodes : Nodes) (decision : Text) (labels : List (Text × Text))
    (marks : Exclusive)
    → All (λ l. P (record { decision = decision; label = l.0 })) labels
    → AreMarks P marks
    → Gives (AreMarks P) (seed_labels nodes decision labels marks)
unfolding seed_labels
seed_labels-Gives P nodes decision [] marks p h = h
seed_labels-Gives P nodes decision ((label, target) ∷ rest) marks p h =
    elim (Option-cases (find_node nodes target)) [
      | inl e ↦ rw (e, seed_labels) tt
      | inr (node, e) ↦
          rw (e, seed_labels)
            (seed_labels-Gives P nodes decision rest _ p.1 (
              insert-AreMarks P target (record { decision = decision; label = label }) marks p.0 h))
    ]

abbrev pub AreLabels : (BranchExclusivity → Type 0) → List (Text × List (Text × Text)) → Type 0
AreLabels P decisions =
    All (λ d. All (λ l. P (record { decision = d.0; label = l.0 })) d.1) decisions

seed_decisions-Gives :
    (P : BranchExclusivity → Type 0) (nodes : Nodes) (decisions : List (Text × List (Text × Text)))
    (marks : Exclusive)
    → AreLabels P decisions
    → AreMarks P marks
    → Gives (AreMarks P) (seed_decisions nodes decisions marks)
unfolding seed_decisions
seed_decisions-Gives P nodes [] marks p h = h
seed_decisions-Gives P nodes ((decision, labels) ∷ rest) marks p h =
    >>=-Gives (AreMarks P) (AreMarks P) (seed_labels nodes decision labels marks) _
      (seed_labels-Gives P nodes decision labels marks p.0 h)
      (λ marks'. seed_decisions-Gives P nodes rest marks' p.1)

-- The marker is one that a decision declares.
abbrev pub IsDeclared : List (Text × List (Text × Text)) → BranchExclusivity → Type 0
IsDeclared decisions ex =
    any (λ d. text_eq d.0 ex.decision && mem ex.label (map (λ l. l.0) d.1)) decisions ≡ true

IsDeclared-labels :
    (d : Text) (labels : List (Text × Text)) (decisions : List (Text × List (Text × Text)))
    → ((label : Text)
        → mem label (map (λ l. l.0) labels) ≡ true
        → IsDeclared decisions (record { decision = d; label = label }))
    → All (λ l. IsDeclared decisions (record { decision = d; label = l.0 })) labels
IsDeclared-labels d [] decisions h = tt
IsDeclared-labels d (l ∷ labels) decisions h = (
  h l.0 (rw (text_eq_refl l.0) refl),
  IsDeclared-labels d labels decisions (λ label m. h label (ground arith)),
)

IsDeclared-all :
    (decisions sub : List (Text × List (Text × Text)))
    → ((ex : BranchExclusivity) → IsDeclared sub ex → IsDeclared decisions ex)
    → AreLabels (IsDeclared decisions) sub
IsDeclared-all decisions [] h = tt
IsDeclared-all decisions (d ∷ sub) h = (
  IsDeclared-labels d.0 d.1 decisions
      (λ label m. h (record { decision = d.0; label = label }) (rw (text_eq_refl d.0) (rw m refl))),
  IsDeclared-all decisions sub (λ ex m. h ex (ground arith)),
)

-- `compute_branch_exclusivity` ends on every graph within one round more than there are nodes, and
-- every marker that it gives is a decision of the spec with one of that decision's labels.
pub compute_branch_exclusivity-IsDeclared :
    (graph : NodeGraph) (branches : Branches)
    → Gives (AreMarks (IsDeclared branches.decisions)) (compute_branch_exclusivity graph branches)
unfolding compute_branch_exclusivity
compute_branch_exclusivity-IsDeclared graph branches =
    let P : BranchExclusivity → Type 0 = IsDeclared branches.decisions in
    >>=-Gives (AreMarks P) (AreMarks P) (seed_decisions graph.nodes branches.decisions []) _
      (seed_decisions-Gives P graph.nodes branches.decisions []
        (IsDeclared-all branches.decisions branches.decisions (λ ex m. m)) tt)
      (λ marks.
        mark_loop-Gives P (suc (length graph.nodes)) graph.nodes marks
          (omega (arith, unmarked-le graph.nodes marks)))
