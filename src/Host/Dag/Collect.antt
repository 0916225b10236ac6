-- ===== src/Host/Dag/Collect.antt =====
-- What `collect_deps` returns, in terms of the nodes that it reads.
use cuttlefish_vm.Base.{
  if◌then◌else◌, Bool-cases, Option-cases, is_some, length, any, Text, text_eq, text_eq_refl,
  text_eq-true, mem, AreDistinct, suc, ◌+◌, ◌≤◌, ◌≡◌, refl, ◌∙◌, subst, inl, inr, Bool, true, false,
  not, ◌&&◌, ◌||◌, List, [], ◌∷◌, map, arith,
}
use cuttlefish_vm.Core.Graph.{Node, Nodes, find_node}
use cuttlefish_vm.Host.Dag.{
  references, Deps, Outcome, ok, err, panicked, out_of_fuel, ◌>>=◌, or_default, insert_dep,
  is_marked_self_loop, add_references, collect_deps, DagError,
}
use cuttlefish_vm.Host.Dag.Entries.{
  keys, deps_of, mem-keys-or_default, deps_of-or_default, mem-keys-insert_dep, deps_of-insert_dep,
  or_default-AreDistinct, insert_dep-AreDistinct, length-insert_dep, length-or_default,
  length-or_default_exact,
}

abbrev pub names : Nodes → List Text
names nodes = map (λ n. n.0) nodes

-- The node must run behind `d`: `d` stands in its input, and is not the node itself where the node
-- has a `repeat_until`.
abbrev pub node_requires : Text → Node → Text → Bool
node_requires name node d =
    mem d (references node) && not (text_eq d name && is_some node.repeat_until)

-- Some node of this name must run behind `d`.
abbrev pub requires : Nodes → Text → Text → Bool
requires nodes x d = any (λ n. text_eq n.0 x && node_requires n.0 n.1 d) nodes

-- A chain of steps that ends well has a first step that ended well.
ok_of_bind :
    {A B : Type 0} (next : A → Outcome B) (first : Outcome A) (end : B)
    → (first >>= next) ≡ ok end
    → (mid : A) × (first ≡ ok mid) × (next mid ≡ ok end)
ok_of_bind next panicked end runs = cc
ok_of_bind next out_of_fuel end runs = cc
ok_of_bind next (err why) end runs = cc
ok_of_bind next (ok mid) end runs = (mid, refl, runs)

-- What the references of one node add.
record Added (name : Text) (node : Node) (rs : List Text) (deps deps' : Deps) : Type 0 where
  same_keys : (x : Text) → mem x (keys deps') ≡ mem x (keys deps)
  distinct : AreDistinct (keys deps')
  same_length : length deps' ≡ length deps
  entries :
      (x d : Text)
      → mem d (deps_of deps' x) ≡ (
          mem d (deps_of deps x)
          || (text_eq name x && (mem d rs && not (is_marked_self_loop name node d))))

add_one-Added :
    (name : Text) (node : Node) (r : Text) (deps : Deps)
    → mem name (keys deps) ≡ true
    → AreDistinct (keys deps)
    → Added name node
        (r ∷ [])
        deps
        (if is_marked_self_loop name node r then deps else insert_dep name r deps)
add_one-Added name node r deps m distinct = elim (Bool-cases (is_marked_self_loop name node r)) [
  | inl marked ↦ rw marked (record {
    same_keys = λ x. refl;
    distinct = distinct;
    same_length = refl;
    entries = λ x d. ground (arith, text_eq-true d r);
  })
  | inr free ↦ rw free (record {
    same_keys = λ x. mem-keys-insert_dep x name r deps m;
    distinct = insert_dep-AreDistinct name r deps m distinct;
    same_length = length-insert_dep name r deps m;
    entries = λ x d. ground (arith, text_eq-true d r, deps_of-insert_dep d x name r deps);
  })
]

Added-append :
    (name : Text) (node : Node) (r : Text) (rs : List Text) (d1 d2 d3 : Deps)
    → Added name node (r ∷ []) d1 d2
    → Added name node rs d2 d3
    → Added name node (r ∷ rs) d1 d3
Added-append name node r rs d1 d2 d3 a b = record {
  same_keys = λ x. b.same_keys x ∙ a.same_keys x;
  distinct = b.distinct;
  same_length = b.same_length ∙ a.same_length;
  entries = λ x d. ground (arith, a.entries x d, b.entries x d);
}

-- The map after one reference.
abbrev with_one : Text → Node → Text → Deps → Deps
with_one name node r deps = if is_marked_self_loop name node r then deps else insert_dep name r deps

err-ne-ok : {A : Type 0} {e : DagError} {a : A} → err e ≡ ok a → ⊥
err-ne-ok h = cc

add_references-Added :
    (nodes : Nodes) (name : Text) (node : Node) (rs : List Text) (deps : Deps) {deps' : Deps}
    → mem name (keys deps) ≡ true
    → AreDistinct (keys deps)
    → add_references nodes name node rs deps ≡ ok deps'
    → Added name node rs deps deps'
unfolding add_references
add_references-Added nodes name node [] deps {deps'} m distinct h =
    let same : deps ≡ deps' = cc in
    subst (Added name node [] deps) same (record {
      same_keys = λ x. refl;
      distinct = distinct;
      same_length = refl;
      entries = λ x d. ground arith;
    })
add_references-Added nodes name node (r ∷ rs) deps m distinct h =
    elim (Option-cases (find_node nodes r)) [
      | inl missing ↦ absurd (err-ne-ok (rw (missing, add_references) at h))
      | inr (found, known) ↦
          let one = add_one-Added name node r deps m distinct in
          Added-append name node r rs deps (with_one name node r deps) _ one (
            add_references-Added nodes name node rs (with_one name node r deps)
              (one.same_keys name ∙ m) one.distinct (rw (known, add_references) at h))
    ]

-- Every name that is referenced is the name of a node.
add_references-known :
    (nodes : Nodes) (name : Text) (node : Node) (rs : List Text) (deps : Deps) {deps' : Deps}
    → add_references nodes name node rs deps ≡ ok deps'
    → (d : Text) → mem d rs ≡ true
    → is_some (find_node nodes d) ≡ true
unfolding add_references
add_references-known nodes name node [] deps h d m = cc
add_references-known nodes name node (r ∷ rs) deps h d m = elim (Option-cases (find_node nodes r)) [
  | inl missing ↦ absurd (err-ne-ok (rw (missing, add_references) at h))
  | inr (found, known) ↦ ground (
    arith,
    text_eq-true d r,
    add_references-known nodes name node rs (with_one name node r deps)
        (rw (known, add_references) at h) d,
  )
]

-- What `collect_deps` makes of the nodes `rest` of a graph.
pub record Collected (nodes rest : Nodes) (deps deps' : Deps) : Type 0 where
  pub distinct : AreDistinct (keys deps')
  pub all_keys : (x : Text) → mem x (keys deps') ≡ (mem x (keys deps) || mem x (names rest))
  pub no_longer : length deps' ≤ length deps + length rest
  pub exact :
      AreDistinct (names rest)
      → ((x : Text) → mem x (names rest) ≡ true → mem x (keys deps) ≡ false)
      → length deps' ≡ length deps + length rest
  pub exact_only :
      length deps' ≡ length deps + length rest
      → AreDistinct (names rest)
        × ((x : Text) → mem x (names rest) ≡ true → mem x (keys deps) ≡ false)
  pub entries :
      (x d : Text) → mem d (deps_of deps' x) ≡ (mem d (deps_of deps x) || requires rest x d)
  pub known : (name d : Text) → requires rest name d ≡ true → is_some (find_node nodes d) ≡ true

module _ (name : Text) (node : Node) {nodes : Nodes} (rest : Nodes) (deps mid : Deps) {deps' : Deps}
    (c : Collected nodes rest mid deps') (same_length : length mid ≡ length (or_default name deps))
    (mid_keys : (x : Text) → mem x (keys mid) ≡ (mem x (keys deps) || text_eq x name)) where
  exact_lem :
      AreDistinct (names ((name, node) ∷ rest))
      → ((x : Text) → mem x (names ((name, node) ∷ rest)) ≡ true → mem x (keys deps) ≡ false)
      → length deps' ≡ length deps + length ((name, node) ∷ rest)
  exact_lem names_distinct new =
      let absent : mem name (keys deps) ≡ false = new name (rw text_eq_refl refl) in
      let longer : length (or_default name deps) ≡ suc (length deps) =
        length-or_default_exact name deps ∙ rw absent refl in
      let later : length deps' ≡ length mid + length rest =
        c.exact names_distinct.1
          (λ x m. ground (arith, mid_keys x, new x, text_eq-true x name, names_distinct.0)) in
      omega (arith, same_length)

  exact_only_lem :
      length deps' ≡ length deps + length ((name, node) ∷ rest)
      → AreDistinct (names ((name, node) ∷ rest))
        × ((x : Text) → mem x (names ((name, node) ∷ rest)) ≡ true → mem x (keys deps) ≡ false)
  exact_only_lem e =
      let absent : mem name (keys deps) ≡ false =
        ground (arith, length-or_default_exact name deps, c.no_longer, same_length) in
      let longer : length (or_default name deps) ≡ suc (length deps) =
        length-or_default_exact name deps ∙ rw absent refl in
      let (distinct_rest, new) = c.exact_only (omega (arith, same_length)) in
      (
        (ground (arith, new name, mid_keys name, text_eq_refl name), distinct_rest),
        λ x m. ground (arith, new x, mid_keys x, text_eq-true x name),
      )

pub collect_deps-Collected :
    (nodes rest : Nodes) (deps : Deps) {deps' : Deps}
    → AreDistinct (keys deps)
    → collect_deps nodes rest deps ≡ ok deps'
    → Collected nodes rest deps deps'
unfolding collect_deps
collect_deps-Collected nodes [] deps {deps'} distinct h =
    let same : deps ≡ deps' = cc in
    subst (Collected nodes [] deps) same (record {
      distinct = distinct;
      all_keys = λ x. ground arith;
      no_longer = omega arith;
      exact = λ _ _. omega arith;
      exact_only = λ _. (tt, λ x m. cc);
      entries = λ x d. ground arith;
      known = λ x d r. cc;
    })
collect_deps-Collected nodes ((name, node) ∷ rest) deps {deps'} distinct h =
    let opened : Deps = or_default name deps in
    let (mid, first, later) =
      ok_of_bind (λ d. collect_deps nodes rest d)
        (add_references nodes name node (references node) opened) deps' h in
    let has_name : mem name (keys opened) ≡ true =
      ground (arith, mem-keys-or_default name name deps, text_eq_refl name) in
    let a =
      add_references-Added nodes name node (references node) opened has_name
        (or_default-AreDistinct name deps distinct) first in
    let c = collect_deps-Collected nodes rest mid a.distinct later in
    record {
      distinct = c.distinct;
      all_keys = λ x. ground (arith, c.all_keys x, a.same_keys x, mem-keys-or_default x name deps);
      no_longer = omega (arith, c.no_longer, a.same_length, length-or_default name deps);
      exact = λ names_distinct new.
          exact_lem name node rest deps mid c a.same_length
            (λ x. a.same_keys x ∙ mem-keys-or_default x name deps) names_distinct new;
      exact_only = λ e.
          exact_only_lem name node rest deps mid c a.same_length
            (λ x. a.same_keys x ∙ mem-keys-or_default x name deps) e;
      entries = λ x d. ground (arith, c.entries x d, a.entries x d, deps_of-or_default x name deps);
      known = λ x d r. ground (
        arith,
        c.known x d,
        add_references-known nodes name node (references node) opened first d,
      );
    }
