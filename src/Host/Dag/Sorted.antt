-- ===== src/Host/Dag/Sorted.antt =====
-- What `topological_order` returns: an order in which each node stands behind all that feeds it, or
-- an error that is true of the graph; and its panic on a repeated name.
use cuttlefish_vm.Base.{
  ◌==◌, ==_iff, Bool-cases, Option-cases, length, Text, mem, AreDistinct, ℕ, suc, ◌≡◌, refl, sym,
  ap, ◌∙◌, subst, ◌≢◌, ◌↔◌, ◌⊎◌, inl, inr, true, false, none, some, List, [], arith,
}
use cuttlefish_vm.Core.Graph.{Nodes, NodeGraph}
use cuttlefish_vm.Host.Dag.{
  Deps, Outcome, ok, err, panicked, out_of_fuel, collect_deps, unknown_reference, unmarked_cycle,
  DagError, conflicting_branch_fan_in, first_missing, check_complete, topological_order, ◌>>=◌,
  check_order, order_loop,
}
use cuttlefish_vm.Host.Dag.Collect.{names, requires}
use cuttlefish_vm.Host.Dag.Order.{IsOrdered}
use cuttlefish_vm.Host.Dag.Topological.{
  IsRanked, Found, topological_order-Found, refers, collect_deps-only_unknown, Found-ranked,
  Found-complete, first_missing-some,
}

-- The branches of `check_complete`.
check_complete-cases :
    (nodes : Nodes) (order : List Text)
    → ((length order ≡ length nodes) × (check_complete nodes order ≡ ok order))
      ⊎ ((length order ≢ length nodes)
          × (((first_missing nodes order ≡ none) × (check_complete nodes order ≡ panicked))
              ⊎ ((n : Text) × (first_missing nodes order ≡ some n)
                  × (check_complete nodes order ≡ err (unmarked_cycle n)))))
unfolding check_complete
check_complete-cases nodes order = elim (Bool-cases (length order == length nodes)) [
  | inl same ↦ inl ((==_iff _ _).0 same, rw same refl)
  | inr other ↦ inr (
    λ e. ground arith,
    elim (Option-cases (first_missing nodes order)) [
      | inl nothing ↦ inl (nothing, rw (other, nothing) refl)
      | inr (n, found) ↦ inr (n, found, rw (other, found) refl)
    ],
  )
]

err-ne-ok : {A : Type 0} {e : DagError} {a : A} → err e ≡ ok a → ⊥
err-ne-ok h = cc

panicked-ne-ok : {A : Type 0} {a : A} → panicked ≡ ok a → ⊥
panicked-ne-ok h = cc

panicked-ne-err : {A : Type 0} {e : DagError} → ◌≡◌ {A = Outcome A} panicked (err e) → ⊥
panicked-ne-err h = cc

-- How `topological_order` ends: all outcomes, with what each says of the graph.
data Ending (graph : NodeGraph) : Outcome (List Text) → Type 0 where
  unknown :
      (x d : Text)
      → refers graph.nodes x d ≡ true
      → mem d (names graph.nodes) ≡ false
      → Ending graph (err (unknown_reference x d))
  sorted :
      {deps : Deps} (order : List Text)
      → Found graph.nodes deps order
      → length order ≡ length graph.nodes
      → Ending graph (ok order)
  cyclic :
      {deps : Deps} (order : List Text) (n : Text)
      → Found graph.nodes deps order
      → first_missing graph.nodes order ≡ some n
      → Ending graph (err (unmarked_cycle n))
  repeated :
      {deps : Deps} (order : List Text)
      → Found graph.nodes deps order
      → length order ≢ length graph.nodes
      → first_missing graph.nodes order ≡ none
      → Ending graph panicked

topological_order-unknown :
    (graph : NodeGraph) {e : DagError}
    → collect_deps graph.nodes graph.nodes [] ≡ err e
    → topological_order graph ≡ err e
unfolding topological_order
topological_order-unknown graph h =
    ap (λ m. m >>= λ deps. check_order graph.nodes (order_loop (suc (length deps)) deps [])) h

topological_order-Ending : (graph : NodeGraph) → Ending graph (topological_order graph)
topological_order-Ending graph = elim (collect_deps-only_unknown graph.nodes graph.nodes []) [
  | inr (x, d, e, r, absent) ↦
      subst (Ending graph) (sym (topological_order-unknown graph e)) (unknown x d r absent)
  | inl (deps, e) ↦
      let (order, f, checks) = topological_order-Found graph deps e in
      elim (check_complete-cases graph.nodes order) [
        | inl (same, k) ↦ subst (Ending graph) (sym (checks ∙ k)) (sorted order f same)
        | inr (short, inl (nothing, k)) ↦
            subst (Ending graph) (sym (checks ∙ k)) (repeated order f short nothing)
        | inr (short, inr (n, found, k)) ↦
            subst (Ending graph) (sym (checks ∙ k)) (cyclic order n f found)
      ]
]

-- The order that is returned holds each node's name exactly once, and each name stands behind all
-- the names that its node takes input from (a node marked `repeat_until` may name itself).
pub topological_order-sorted :
    (graph : NodeGraph) (order : List Text)
    → topological_order graph ≡ ok order
    → IsOrdered (requires graph.nodes) [] order
      × AreDistinct order
      × ((x : Text) → mem x order ≡ mem x (names graph.nodes))
      × (length order ≡ length graph.nodes)
topological_order-sorted graph order h =
    go (topological_order graph) (topological_order-Ending graph) h
  where
    go :
        (r : Outcome (List Text))
        → Ending graph r
        → r ≡ ok order
        → IsOrdered (requires graph.nodes) [] order
          × AreDistinct order
          × ((x : Text) → mem x order ≡ mem x (names graph.nodes))
          × (length order ≡ length graph.nodes)
    go r (sorted o f same) e =
        let is : o ≡ order = cc in
        subst
          (λ l.
            IsOrdered (requires graph.nodes) [] l
            × AreDistinct l
            × ((x : Text) → mem x l ≡ mem x (names graph.nodes))
            × (length l ≡ length graph.nodes))
          is (f.inv.ordered, f.inv.no_repeat, Found-complete graph.nodes _ o f same, same)
    go r (unknown x d a b) e = absurd (err-ne-ok e)
    go r (cyclic o n f a) e = absurd (err-ne-ok e)
    go r (repeated o f a b) e = absurd (panicked-ne-ok e)

-- The loop has fuel enough: one round more than there are names.
pub topological_order_total : (graph : NodeGraph) → topological_order graph ≢ out_of_fuel
topological_order_total graph h = go (topological_order graph) (topological_order-Ending graph) h
  where
    go : (r : Outcome (List Text)) → Ending graph r → r ≢ out_of_fuel
    go r (unknown x d a b) e = cc
    go r (sorted o f a) e = cc
    go r (cyclic o n f a) e = cc
    go r (repeated o f a b) e = cc

-- What an error says of the graph.
abbrev pub IsTrueOf : NodeGraph → DagError → Type 0
IsTrueOf graph (unknown_reference x d) =
    (refers graph.nodes x d ≡ true) × (mem d (names graph.nodes) ≡ false)
IsTrueOf graph (unmarked_cycle n) =
    (mem n (names graph.nodes) ≡ true) × ¬ ((rank : Text → ℕ) × IsRanked graph.nodes rank)
IsTrueOf graph (conflicting_branch_fan_in n d a b) = ⊥

true-ne-false : true ≡ false → ⊥
true-ne-false h = cc

cyclic-IsTrueOf :
    (graph : NodeGraph) (n : Text) {deps : Deps} (order : List Text)
    → Found graph.nodes deps order
    → first_missing graph.nodes order ≡ some n
    → IsTrueOf graph (unmarked_cycle n)
cyclic-IsTrueOf graph n {deps} order f h =
    let (named, absent) = first_missing-some graph.nodes order h in
    (
      named,
      λ ranking.
          let (_, whole) = Found-ranked graph.nodes deps order ranking.0 ranking.1 f in
          true-ne-false (sym (whole n ∙ named) ∙ absent),
    )

-- An error of `topological_order` is true of the graph: a reference that it calls unknown stands in
-- the input of the node that it names and is no node's name; a cycle is reported only at a node of
-- the graph, and only where no ranking of the names falls along every requirement.
pub topological_order-IsTrueOf :
    (graph : NodeGraph) (e : DagError) → topological_order graph ≡ err e → IsTrueOf graph e
topological_order-IsTrueOf graph e h =
    go (topological_order graph) (topological_order-Ending graph) h
  where
    moved :
        (e' : DagError)
        → ◌≡◌ {A = Outcome (List Text)} (err e') (err e)
        → IsTrueOf graph e'
        → IsTrueOf graph e
    moved e' k t = let same : e' ≡ e = cc in subst (IsTrueOf graph) same t

    go : (r : Outcome (List Text)) → Ending graph r → r ≡ err e → IsTrueOf graph e
    go r (unknown x d a b) k = moved (unknown_reference x d) k (a, b)
    go r (cyclic o n f a) k = moved (unmarked_cycle n) k (cyclic-IsTrueOf graph n o f a)
    go r (sorted o f a) k = absurd (err-ne-ok (sym k))
    go r (repeated o f a b) k = absurd (panicked-ne-err k)

-- Every reference of the graph is to one of its nodes.
abbrev pub IsClosed : Nodes → Type 0
IsClosed nodes = (x d : Text) → refers nodes x d ≡ true → mem d (names nodes) ≡ true

module _ (graph : NodeGraph) (rank : Text → ℕ) (closed : IsClosed graph.nodes)
    (ranked : IsRanked graph.nodes rank) where
  -- The length of the order, on such a graph.
  Found-exact :
      {deps : Deps} (order : List Text)
      → Found graph.nodes deps order
      → (length order ≡ length graph.nodes) ↔ AreDistinct (names graph.nodes)
  Found-exact {deps} order f =
      let (same, _) = Found-ranked graph.nodes deps order rank ranked f in
      (
        λ h. (f.collected.exact_only (omega arith)).0,
        λ distinct. omega (arith, f.collected.exact distinct (λ x m. refl)),
      )

  no_cycle :
      {deps : Deps} (order : List Text) (n : Text)
      → Found graph.nodes deps order
      → first_missing graph.nodes order ≡ some n
      → ⊥
  no_cycle order n f h = (cyclic-IsTrueOf graph n order f h).1 (rank, ranked)

  -- Both outcomes on such a graph.
  acyclic_outcome :
      (AreDistinct (names graph.nodes) → (order : List Text) × (topological_order graph ≡ ok order))
      × (¬ AreDistinct (names graph.nodes) → topological_order graph ≡ panicked)
  acyclic_outcome = go (topological_order graph) (topological_order-Ending graph)
    where
      go :
          (r : Outcome (List Text))
          → Ending graph r
          → (AreDistinct (names graph.nodes) → (order : List Text) × (r ≡ ok order))
            × (¬ AreDistinct (names graph.nodes) → r ≡ panicked)
      go r (unknown x d a b) = absurd (true-ne-false (sym (closed x d a) ∙ b))
      go r (sorted o f a) = (λ _. (o, refl), λ repeats. absurd (repeats ((Found-exact o f).0 a)))
      go r (cyclic o n f a) = absurd (no_cycle o n f a)
      go r (repeated o f a b) = (λ distinct. absurd (a ((Found-exact o f).1 distinct)), λ _. refl)

-- A graph of distinct names, whose references are all known and whose requirements some ranking
-- falls along, is ordered: `topological_order` succeeds on it.
pub topological_order-acyclic :
    (graph : NodeGraph) (rank : Text → ℕ)
    → IsClosed graph.nodes
    → IsRanked graph.nodes rank
    → AreDistinct (names graph.nodes)
    → (order : List Text) × (topological_order graph ≡ ok order)
topological_order-acyclic graph rank closed ranked distinct =
    (acyclic_outcome graph rank closed ranked).0 distinct

-- A graph in which two nodes share a name, and whose references are known and without a cycle,
-- makes `topological_order` panic: the order is short, and no name is missing from it.
pub topological_order-repeated_name :
    (graph : NodeGraph) (rank : Text → ℕ)
    → IsClosed graph.nodes
    → IsRanked graph.nodes rank
    → ¬ AreDistinct (names graph.nodes)
    → topological_order graph ≡ panicked
topological_order-repeated_name graph rank closed ranked repeats =
    (acyclic_outcome graph rank closed ranked).1 repeats
