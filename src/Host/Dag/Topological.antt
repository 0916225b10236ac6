-- ===== src/Host/Dag/Topological.antt =====
-- The stages of `topological_order` put together: the map, the loop, and what the loop leaves.
use cuttlefish_vm.Base.{
  if◌then◌else◌, Bool-cases, Option-cases, is_some, length, any, is_empty, Text, text_eq,
  text_eq_refl, text_eq_comm, mem, ℕ, zero, suc, ◌<◌, ◌≡◌, refl, sym, ap, ◌∙◌, ◌⊎◌, inl, inr, Bool,
  true, false, ◌&&◌, none, some, List, [], ◌∷◌, arith,
}
use cuttlefish_vm.Core.Graph.{Node, Nodes, NodeGraph, find_node}
use cuttlefish_vm.Host.Dag.{
  references, Deps, ok, err, ◌>>=◌, add_references, collect_deps, unknown_reference, order_loop,
  first_missing, check_complete, topological_order, ready_of, or_default, is_marked_self_loop,
  insert_dep, check_order,
}
use cuttlefish_vm.Host.Dag.Entries.{keys, deps_of}
use cuttlefish_vm.Host.Dag.Collect.{names, requires, Collected, collect_deps-Collected}
use cuttlefish_vm.Host.Dag.Ready.{mem-ready_of}
use cuttlefish_vm.Host.Dag.Order.{Inv, order_loop-Inv}

-- A rank that falls along every requirement: the graph has no cycle.
abbrev pub IsRanked : Nodes → (Text → ℕ) → Type 0
IsRanked nodes rank = (x d : Text) → requires nodes x d ≡ true → rank d < rank x

pub mem-find_node : (d : Text) (nodes : Nodes) → is_some (find_node nodes d) ≡ mem d (names nodes)
unfolding find_node
mem-find_node d [] = refl
mem-find_node d ((n, node) ∷ rest) = ground (arith, text_eq_comm n d, mem-find_node d rest)

-- What the loop finds, from the map that `collect_deps` returns.
pub record Found (nodes : Nodes) (deps : Deps) (order : List Text) : Type 0 where
  pub runs : order_loop (suc (length deps)) deps [] ≡ some order
  pub left : Deps
  pub inv : Inv (requires nodes) (keys deps) left order
  pub stuck : ready_of left ≡ []
  pub collected : Collected nodes nodes [] deps

length-keys : (deps : Deps) → length (keys deps) ≡ length deps
length-keys [] = refl
length-keys (e ∷ rest) = ap suc (length-keys rest)

collect_deps-Found :
    (nodes : Nodes) (deps : Deps)
    → collect_deps nodes nodes [] ≡ ok deps
    → (order : List Text) × Found nodes deps order
collect_deps-Found nodes deps h =
    let c = collect_deps-Collected nodes nodes [] tt h in
    let begin : Inv (requires nodes) (keys deps) deps [] = record {
      distinct = c.distinct;
      count = omega (arith, length-keys deps);
      split = λ x. refl;
      apart = λ x m. cc;
      no_repeat = tt;
      covered = λ x d m r. ground (arith, c.entries x d);
      genuine = λ x d m r. ground (arith, c.entries x d);
      open_deps = λ x d m r.
          ground (arith, c.entries x d, c.known x d, c.all_keys d, mem-find_node d nodes);
      ordered = tt;
    } in
    let (order, left, runs, inv, stuck) =
      order_loop-Inv (requires nodes) (suc (length deps)) (keys deps) deps [] (omega arith) begin in
    (order, record { runs = runs; left = left; inv = inv; stuck = stuck; collected = c })

topological_order-check :
    (graph : NodeGraph) (deps : Deps) (order : List Text)
    → collect_deps graph.nodes graph.nodes [] ≡ ok deps
    → order_loop (suc (length deps)) deps [] ≡ some order
    → topological_order graph ≡ check_complete graph.nodes order
unfolding topological_order
topological_order-check graph deps order h k =
    ap (λ m. m >>= λ deps. check_order graph.nodes (order_loop (suc (length deps)) deps [])) h
    ∙ ap (check_order graph.nodes) k

-- A successful order comes out of the two stages.
pub topological_order-Found :
    (graph : NodeGraph) (deps : Deps)
    → collect_deps graph.nodes graph.nodes [] ≡ ok deps
    → (order : List Text) × Found graph.nodes deps order
      × (topological_order graph ≡ check_complete graph.nodes order)
topological_order-Found graph deps h =
    let (order, f) = collect_deps-Found graph.nodes deps h in
    (order, f, topological_order-check graph deps order h f.runs)

add_references-only_unknown :
    (nodes : Nodes) (name : Text) (node : Node) (rs : List Text) (deps : Deps)
    → ((deps' : Deps) × (add_references nodes name node rs deps ≡ ok deps'))
      ⊎ ((d : Text) × (add_references nodes name node rs deps ≡ err (unknown_reference name d))
          × (mem d rs ≡ true)
          × (mem d (names nodes) ≡ false))
unfolding add_references
add_references-only_unknown nodes name node [] deps = inl (deps, refl)
add_references-only_unknown nodes name node (r ∷ rs) deps =
    elim (Option-cases (find_node nodes r)) [
      | inl missing ↦ inr (
        r,
        rw (missing, add_references) refl,
        rw text_eq_refl refl,
        ground (arith, mem-find_node r nodes),
      )
      | inr (found, known) ↦
          elim (add_references-only_unknown nodes name node rs
            (if is_marked_self_loop name node r then deps else insert_dep name r deps)) [
              | inl (deps', e) ↦ inl (deps', rw (known, add_references) e)
              | inr (d, e, m, absent) ↦ inr (d, rw (known, add_references) e, ground arith, absent)
            ]
    ]

-- A node of this name has `d` in its input.
abbrev pub refers : Nodes → Text → Text → Bool
refers nodes x d = any (λ n. text_eq n.0 x && mem d (references n.1)) nodes

pub collect_deps-only_unknown :
    (nodes rest : Nodes) (deps : Deps)
    → ((deps' : Deps) × (collect_deps nodes rest deps ≡ ok deps'))
      ⊎ ((x : Text) × (d : Text) × (collect_deps nodes rest deps ≡ err (unknown_reference x d))
          × (refers rest x d ≡ true)
          × (mem d (names nodes) ≡ false))
unfolding collect_deps
collect_deps-only_unknown nodes [] deps = inl (deps, refl)
collect_deps-only_unknown nodes ((name, node) ∷ rest) deps =
    elim (add_references-only_unknown nodes name node (references node) (or_default name deps)) [
      | inr (d, e, m, absent) ↦
          inr (name, d, rw (e, collect_deps) refl, rw (text_eq_refl, m) refl, absent)
      | inl (mid, e) ↦ elim (collect_deps-only_unknown nodes rest mid) [
        | inl (deps', e') ↦ inl (deps', rw (e, collect_deps) e')
        | inr (x, d, e', m, absent) ↦ inr (x, d, rw (e, collect_deps) e', ground arith, absent)
      ]
    ]

first_mem : (ds : List Text) → (is_empty ds ≡ true) ⊎ ((d : Text) × (mem d ds ≡ true))
first_mem [] = inl refl
first_mem (d ∷ ds) = inr (d, rw text_eq_refl refl)

true-ne-false : true ≡ false → ⊥
true-ne-false h = cc

-- A name that is left still waits for another.
waits :
    (nodes : Nodes) (all_names order : List Text) (left : Deps)
    → Inv (requires nodes) all_names left order
    → ready_of left ≡ []
    → (x : Text) → mem x (keys left) ≡ true
    → (d : Text) × (mem d (deps_of left x) ≡ true)
waits nodes all_names order left i stuck x m = elim (first_mem (deps_of left x)) [
  | inr found ↦ found
  | inl empty ↦
      let ready : mem x (ready_of left) ≡ true =
        mem-ready_of x left i.distinct ∙ rw (m, empty) refl in
      let not_ready : mem x (ready_of left) ≡ false = rw stuck refl in
      absurd (true-ne-false (sym ready ∙ not_ready))
]

-- With a rank nothing is left: a name that is left would wait for one of a lower rank.
nothing_left :
    (nodes : Nodes) (rank : Text → ℕ) (all_names order : List Text) (left : Deps)
    → IsRanked nodes rank
    → Inv (requires nodes) all_names left order
    → ready_of left ≡ []
    → (n : ℕ) (x : Text) → rank x < n
    → mem x (keys left) ≡ true
    → ⊥
nothing_left nodes rank all_names order left ranked i stuck zero x h m = elim h [ ]
nothing_left nodes rank all_names order left ranked i stuck (suc n) x h m =
    let (d, waiting) = waits nodes all_names order left i stuck x m in
    nothing_left nodes rank all_names order left ranked i stuck n d
      (omega (arith, ranked x d (i.genuine x d m waiting))) (i.open_deps x d m waiting)

no_keys : (left : Deps) → ((x : Text) → mem x (keys left) ≡ true → ⊥) → left ≡ []
no_keys [] h = refl
no_keys ((k, ds) ∷ rest) h = absurd (h k (rw text_eq_refl refl))

-- A ranked graph is ordered whole.
pub Found-ranked :
    (nodes : Nodes) (deps : Deps) (order : List Text) (rank : Text → ℕ)
    → IsRanked nodes rank
    → Found nodes deps order
    → (length order ≡ length deps) × ((x : Text) → mem x order ≡ mem x (names nodes))
Found-ranked nodes deps order rank ranked f =
    let none_left : f.left ≡ [] = no_keys f.left (λ x m.
      nothing_left nodes rank (keys deps) order f.left ranked f.inv f.stuck (suc (rank x)) x
        (omega arith) m) in
    (
      omega (arith, f.inv.count, ap length none_left, length-keys deps),
      λ x. ground (arith, f.inv.split x, f.collected.all_keys x, none_left),
    )

length-zero : (left : Deps) → length left ≡ 0 → left ≡ []
length-zero [] h = refl
length-zero (e ∷ rest) h = absurd (omega arith)

-- An order that is as long as the graph leaves nothing out.
pub Found-complete :
    (nodes : Nodes) (deps : Deps) (order : List Text)
    → Found nodes deps order
    → length order ≡ length nodes
    → (x : Text) → mem x order ≡ mem x (names nodes)
Found-complete nodes deps order f h x =
    let none_left : f.left ≡ [] =
      length-zero f.left (omega (arith, f.inv.count, length-keys deps, f.collected.no_longer)) in
    ground (arith, f.inv.split x, f.collected.all_keys x, none_left)

pub first_missing-none :
    (nodes : Nodes) (order : List Text)
    → ((x : Text) → mem x (names nodes) ≡ true → mem x order ≡ true)
    → first_missing nodes order ≡ none
unfolding first_missing
first_missing-none [] order h = refl
first_missing-none ((n, node) ∷ rest) order h =
    rw (h n (rw text_eq_refl refl)) (first_missing-none rest order (λ x m. h x (ground arith)))

pub first_missing-some :
    (nodes : Nodes) (order : List Text) {n : Text}
    → first_missing nodes order ≡ some n
    → (mem n (names nodes) ≡ true) × (mem n order ≡ false)
unfolding first_missing
first_missing-some [] order h = cc
first_missing-some ((k, node) ∷ rest) order {n} h = elim (Bool-cases (mem k order)) [
  | inl there ↦
      let (m, absent) = first_missing-some rest order (rw there at h) in (ground arith, absent)
  | inr missing ↦
      let e : some k ≡ some n = rw missing at h in
      let same : k ≡ n = cc in (rw (← same, text_eq_refl) refl, rw (← same) missing)
]
