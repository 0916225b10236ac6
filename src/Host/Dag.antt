-- ===== src/Host/Dag.antt =====
-- Ordering and branch analysis of a node graph: crates/cuttlefish-host/src/dag.rs.
-- A `HashMap` is the list of its entries, a `HashSet` the list of its members; the source sorts what
-- it takes out of them before the order could show. The loops take fuel.
pub mod Entries
pub mod Collect
pub mod Ready
pub mod Order
pub mod Topological
pub mod Sorted
pub mod Exclusivity
pub mod Unmarked
pub mod Marks
pub mod Tests
use cuttlefish_vm.Base.{
  ltb, leb, ◌==◌, if◌then◌else◌, ==_iff, Bool-cases, Option-cases, and_true, or_true, is_some,
  is_some-false, length, get_elem?, take, drop, any, all, length-append, take-append-drop,
  length-take, length-drop, All, All-append, is_empty, Text, codes, text_eq, text_eq_refl,
  text_eq-true, text_eq-false, text_eq_iff, text_eq_comm, text_lt, strip_suffix, starts_with,
  parse_digits, parse_u32, parse_u32-lt, mem, filter, AreDistinct, mem-append, mem-left, mem-right,
  mem-filter, length-filter, ℕ, zero, suc, ◌+◌, ◌-◌, ◌*◌, ◌/◌, ◌%◌, ◌^◌, ◌≤◌, ◌<◌, min, ◌≡◌, refl,
  sym, ap, ◌∙◌, subst, ◌≢◌, ◌↔◌, ◌⊎◌, inl, inr, Bool, true, false, not, ◌&&◌, ◌||◌, Option, none,
  some, List, [], ◌∷◌, ◌++◌, map, arith,
}
use cuttlefish_vm.Core.Graph.{
  InputExpr, from_node, record_of, list_of, Inputs, end, field, Items, nil, item, Node, Nodes,
  NodeGraph, Branches, find_node, get,
}

unfoldable mutual
  pub referenced_nodes : InputExpr → List Text
  referenced_nodes (from_node n) = n ∷ []
  referenced_nodes (record_of fields) = referenced_in_fields fields
  referenced_nodes (list_of items) = referenced_in_items items

  pub referenced_in_fields : Inputs → List Text
  referenced_in_fields end = []
  referenced_in_fields (field k e rest) = referenced_nodes e ++ referenced_in_fields rest

  pub referenced_in_items : Items → List Text
  referenced_in_items nil = []
  referenced_in_items (item e rest) = referenced_nodes e ++ referenced_in_items rest

-- `if let Some(expr) = &node.input { for referenced in referenced_nodes(expr) ... }`
abbrev pub references : Node → List Text
references node = elim node.input [ none ↦ [] | some expr ↦ referenced_nodes expr ]

abbrev pub Deps : Type 0
Deps = List (Text × List Text)

pub data DagError : Type 0 where
  unknown_reference : Text → Text → DagError
  unmarked_cycle : Text → DagError
  conflicting_branch_fan_in : Text → Text → Text → Text → DagError

-- `panicked` is an `unwrap` of `None`.
pub data Outcome (A : Type 0) : Type 0 where
  ok : A → Outcome A
  err : DagError → Outcome A
  panicked : Outcome A
  out_of_fuel : Outcome A

infixl 5 ◌>>=◌
abbrev pub ◌>>=◌ : {A B : Type 0} → Outcome A → (A → Outcome B) → Outcome B
panicked >>= next = panicked
out_of_fuel >>= next = out_of_fuel
err why >>= next = err why
ok value >>= next = next value

-- `deps.entry(name).or_default()`
unfoldable pub or_default : Text → Deps → Deps
or_default name [] = (name, []) ∷ []
or_default name ((k, ds) ∷ rest) =
    if text_eq k name then (k, ds) ∷ rest else (k, ds) ∷ or_default name rest

-- `HashSet::insert`
unfoldable pub insert : Text → List Text → List Text
insert x xs = if mem x xs then xs else x ∷ xs

-- `deps.entry(name).or_default().insert(referenced)`, for a name that has an entry.
unfoldable pub insert_dep : Text → Text → Deps → Deps
insert_dep name referenced [] = (name, referenced ∷ []) ∷ []
insert_dep name referenced ((k, ds) ∷ rest) =
    if text_eq k name
    then (k, insert referenced ds) ∷ rest
    else (k, ds) ∷ insert_dep name referenced rest

-- A self-reference under `repeat_until`.
abbrev pub is_marked_self_loop : Text → Node → Text → Bool
is_marked_self_loop name node referenced = text_eq referenced name && is_some node.repeat_until

-- The inner loop that fills `deps`.
unfoldable pub add_references : Nodes → Text → Node → List Text → Deps → Outcome Deps
add_references nodes name node [] deps = ok deps
add_references nodes name node (referenced ∷ rest) deps = elim (find_node nodes referenced) [
  | none ↦ err (unknown_reference name referenced)
  | some _ ↦
      add_references nodes name node rest
        (if is_marked_self_loop name node referenced then deps else insert_dep name referenced deps)
]

-- The loop over `graph.nodes`; `nodes` is the whole graph.
unfoldable pub collect_deps : Nodes → Nodes → Deps → Outcome Deps
collect_deps nodes [] deps = ok deps
collect_deps nodes ((name, node) ∷ rest) deps =
    add_references nodes name node (references node) (or_default name deps) >>= λ deps'.
    collect_deps nodes rest deps'

-- `sort`, by insertion.
unfoldable pub insert_sorted : Text → List Text → List Text
insert_sorted x [] = x ∷ []
insert_sorted x (y ∷ ys) = if text_lt y x then y ∷ insert_sorted x ys else x ∷ y ∷ ys

unfoldable pub sort : List Text → List Text
sort [] = []
sort (x ∷ xs) = insert_sorted x (sort xs)

-- The names with no dependency left.
unfoldable pub ready_of : Deps → List Text
ready_of remaining = sort (map (λ e. e.0) (filter (λ e. is_empty e.1) remaining))

-- `remaining.remove(n)` for all that are ready, then `deps.remove(n)` in each set that is left.
unfoldable pub settle : List Text → Deps → Deps
settle ready remaining =
    map (λ e. (e.0, filter (λ d. not (mem d ready)) e.1))
      (filter (λ e. not (mem e.0 ready)) remaining)

-- The `loop` of `topological_order`.
unfoldable pub order_loop : ℕ → Deps → List Text → Option (List Text)
order_loop zero remaining order = none
order_loop (suc fuel) remaining order =
    let ready = ready_of remaining in
    elim (is_empty ready) [
      | true ↦ some order
      | false ↦ order_loop fuel (settle ready remaining) (order ++ ready)
    ]

-- `find(|n| !order.contains(n))`
unfoldable pub first_missing : Nodes → List Text → Option Text
first_missing [] order = none
first_missing ((name, node) ∷ rest) order =
    if mem name order then first_missing rest order else some name

-- What `topological_order` makes of the order that the loop found.
unfoldable pub check_complete : Nodes → List Text → Outcome (List Text)
check_complete nodes order =
    if length order == length nodes then ok order else elim (first_missing nodes order) [
      | none ↦ panicked
      | some stuck ↦ err (unmarked_cycle stuck)
    ]

abbrev pub check_order : Nodes → Option (List Text) → Outcome (List Text)
check_order nodes none = out_of_fuel
check_order nodes (some order) = check_complete nodes order

unfoldable pub topological_order : NodeGraph → Outcome (List Text)
topological_order graph = collect_deps graph.nodes graph.nodes [] >>= λ deps.
    check_order graph.nodes (order_loop (suc (length deps)) deps [])
