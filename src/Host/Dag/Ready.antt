-- ===== src/Host/Dag/Ready.antt =====
-- One round of the loop of `topological_order`: the names that are ready, and what is left.
use cuttlefish_vm.Base.{
  Bool-cases, length, is_empty, Text, text_eq, text_eq_refl, text_eq-true, text_eq_comm, text_lt,
  mem, filter, AreDistinct, mem-filter, suc, ◌+◌, ◌≤◌, ◌<◌, ◌≡◌, refl, ap, ◌∙◌, inl, inr, true,
  false, not, ◌&&◌, ◌||◌, List, [], ◌∷◌, map, arith,
}
use cuttlefish_vm.Host.Dag.{Deps, insert_sorted, sort, ready_of, settle}
use cuttlefish_vm.Host.Dag.Entries.{keys, deps_of}

mem-insert_sorted :
    (x y : Text) (ys : List Text) → mem x (insert_sorted y ys) ≡ (text_eq x y || mem x ys)
unfolding insert_sorted
mem-insert_sorted x y [] = refl
mem-insert_sorted x y (z ∷ zs) = ground (arith, mem-insert_sorted x y zs)

pub mem-sort : (x : Text) (xs : List Text) → mem x (sort xs) ≡ mem x xs
unfolding sort
mem-sort x [] = refl
mem-sort x (y ∷ ys) = ground (arith, mem-insert_sorted x y (sort ys), mem-sort x ys)

insert_sorted-AreDistinct :
    (y : Text) (ys : List Text)
    → mem y ys ≡ false
    → AreDistinct ys
    → AreDistinct (insert_sorted y ys)
unfolding insert_sorted
insert_sorted-AreDistinct y [] m h = (refl, tt)
insert_sorted-AreDistinct y (z ∷ zs) m h = elim (Bool-cases (text_lt z y)) [
  | inl behind ↦ rw behind (
    rw (mem-insert_sorted z y zs, text_eq_comm z y) (ground arith),
    insert_sorted-AreDistinct y zs (ground arith) h.1,
  )
  | inr before ↦ rw before (m, h)
]

sort-AreDistinct : (xs : List Text) → AreDistinct xs → AreDistinct (sort xs)
unfolding sort
sort-AreDistinct [] h = tt
sort-AreDistinct (x ∷ xs) h =
    insert_sorted-AreDistinct x (sort xs) (mem-sort x xs ∙ h.0) (sort-AreDistinct xs h.1)

-- The keys whose set is empty.
abbrev free_keys : Deps → List Text
free_keys remaining = map (λ e. e.0) (filter (λ e. is_empty e.1) remaining)

free_keys-mem :
    (x : Text) (remaining : Deps)
    → mem x (keys remaining) ≡ false
    → mem x (free_keys remaining) ≡ false
free_keys-mem x [] h = refl
free_keys-mem x ((k, ds) ∷ rest) h = ground (arith, free_keys-mem x rest)

mem-free_keys :
    (x : Text) (remaining : Deps)
    → AreDistinct (keys remaining)
    → mem x (free_keys remaining) ≡ (mem x (keys remaining) && is_empty (deps_of remaining x))
mem-free_keys x [] h = refl
mem-free_keys x ((k, ds) ∷ rest) h = elim (Bool-cases (text_eq k x)) [
  | inl same ↦
      let absent : mem x (free_keys rest) ≡ false =
        free_keys-mem x rest (rw (text_eq-true k x same) at h.0) in
      ground (arith, text_eq_comm k x)
  | inr other ↦ ground (arith, text_eq_comm k x, mem-free_keys x rest h.1)
]

free_keys-AreDistinct :
    (remaining : Deps) → AreDistinct (keys remaining) → AreDistinct (free_keys remaining)
free_keys-AreDistinct [] h = tt
free_keys-AreDistinct ((k, ds) ∷ rest) h = elim (Bool-cases (is_empty ds)) [
  | inl free ↦ rw free (free_keys-mem k rest h.0, free_keys-AreDistinct rest h.1)
  | inr held ↦ rw held (free_keys-AreDistinct rest h.1)
]

pub mem-ready_of :
    (x : Text) (remaining : Deps)
    → AreDistinct (keys remaining)
    → mem x (ready_of remaining) ≡ (mem x (keys remaining) && is_empty (deps_of remaining x))
unfolding ready_of
mem-ready_of x remaining h = mem-sort x (free_keys remaining) ∙ mem-free_keys x remaining h

pub ready_of-AreDistinct :
    (remaining : Deps) → AreDistinct (keys remaining) → AreDistinct (ready_of remaining)
unfolding ready_of
ready_of-AreDistinct remaining h =
    sort-AreDistinct (free_keys remaining) (free_keys-AreDistinct remaining h)

pub mem-keys-settle :
    (x : Text) (ready : List Text) (remaining : Deps)
    → mem x (keys (settle ready remaining)) ≡ (mem x (keys remaining) && not (mem x ready))
unfolding settle
mem-keys-settle x ready [] = refl
mem-keys-settle x ready ((k, ds) ∷ rest) =
    ground (arith, text_eq-true x k, mem-keys-settle x ready rest)

pub settle-AreDistinct :
    (ready : List Text) (remaining : Deps)
    → AreDistinct (keys remaining)
    → AreDistinct (keys (settle ready remaining))
unfolding settle
settle-AreDistinct ready [] h = tt
settle-AreDistinct ready ((k, ds) ∷ rest) h = elim (Bool-cases (mem k ready)) [
  | inl gone ↦ rw gone (settle-AreDistinct ready rest h.1)
  | inr kept ↦
      rw kept (mem-keys-settle k ready rest ∙ rw h.0 refl, settle-AreDistinct ready rest h.1)
]

-- The set of a name that is not ready loses what is ready.
pub deps_of-settle :
    (x d : Text) (ready : List Text) (remaining : Deps)
    → mem x ready ≡ false
    → mem d (deps_of (settle ready remaining) x)
      ≡ (mem d (deps_of remaining x) && not (mem d ready))
unfolding settle
deps_of-settle x d ready [] h = refl
deps_of-settle x d ready ((k, ds) ∷ rest) h = elim (Bool-cases (text_eq k x)) [
  | inl same ↦
      let kept : mem k ready ≡ false = rw (text_eq-true k x same) h in
      rw (kept, same) (mem-filter d (λ e. not (mem e ready)) ds)
  | inr other ↦ elim (Bool-cases (mem k ready)) [
    | inl gone ↦ rw (gone, other) (deps_of-settle x d ready rest h)
    | inr kept ↦ rw (kept, other) (deps_of-settle x d ready rest h)
  ]
]

length-settle-le :
    (ready : List Text) (remaining : Deps) → length (settle ready remaining) ≤ length remaining
unfolding settle
length-settle-le ready [] = omega arith
length-settle-le ready ((k, ds) ∷ rest) = ground (arith, length-settle-le ready rest)

-- A round that finds a name ready leaves fewer entries.
pub length-settle-lt :
    (x : Text) (ready : List Text) (remaining : Deps)
    → mem x ready ≡ true
    → mem x (keys remaining) ≡ true
    → length (settle ready remaining) < length remaining
unfolding settle
length-settle-lt x ready [] r m = cc
length-settle-lt x ready ((k, ds) ∷ rest) r m =
    ground (arith, text_eq-true x k, length-settle-le ready rest, length-settle-lt x ready rest)

length-insert_sorted : (y : Text) (ys : List Text) → length (insert_sorted y ys) ≡ suc (length ys)
unfolding insert_sorted
length-insert_sorted y [] = refl
length-insert_sorted y (z ∷ zs) = ground (arith, length-insert_sorted y zs)

length-sort : (xs : List Text) → length (sort xs) ≡ length xs
unfolding sort
length-sort [] = refl
length-sort (x ∷ xs) = length-insert_sorted x (sort xs) ∙ ap suc (length-sort xs)

-- The entries that go are those whose set is empty.
length-settle :
    (ready : List Text) (remaining : Deps)
    → AreDistinct (keys remaining)
    → ((x : Text) → mem x (keys remaining) ≡ true → mem x ready ≡ is_empty (deps_of remaining x))
    → length (settle ready remaining) + length (free_keys remaining) ≡ length remaining
unfolding settle
length-settle ready [] h f = refl
length-settle ready ((k, ds) ∷ rest) h f =
    let here : mem k ready ≡ is_empty ds = ground (arith, f k, text_eq_refl k) in
    let later : length (settle ready rest) + length (free_keys rest) ≡ length rest =
      length-settle ready rest h.1 (λ x m. ground (arith, f x, text_eq-true k x, h.0)) in
    ground arith

pub length-settle-ready_of :
    (remaining : Deps)
    → AreDistinct (keys remaining)
    → length (settle (ready_of remaining) remaining) + length (ready_of remaining)
      ≡ length remaining
length-settle-ready_of remaining h =
    let same : length (ready_of remaining) ≡ length (free_keys remaining) =
      unfold ready_of in length-sort (free_keys remaining) in
    omega (
      arith,
      length-settle (ready_of remaining) remaining h
          (λ x m. ground (arith, mem-ready_of x remaining h)),
    )
