-- ===== src/Host/Dag/Order.antt =====
-- The loop of `topological_order`: its invariant, its end, and what it orders.
use cuttlefish_vm.Base.{
  length, length-append, is_empty, Text, text_eq_refl, mem, AreDistinct, mem-append, mem-left, ℕ,
  zero, suc, ◌+◌, ◌<◌, ◌≡◌, refl, ◌∙◌, ◌⊎◌, inl, inr, Bool, true, false, ◌&&◌, ◌||◌, some, List, [],
  ◌∷◌, ◌++◌, arith,
}
use mathlib.Core.List.{append_assoc, append-nil}
use cuttlefish_vm.Host.Dag.{Deps, ready_of, settle, order_loop}
use cuttlefish_vm.Host.Dag.Entries.{keys, deps_of}
use cuttlefish_vm.Host.Dag.Ready.{
  mem-ready_of, ready_of-AreDistinct, mem-keys-settle, settle-AreDistinct, deps_of-settle,
  length-settle-lt, length-settle-ready_of,
}

-- In the list `xs`, behind `before`, each name stands behind all that it requires.
abbrev pub IsOrdered : (Text → Text → Bool) → List Text → List Text → Type 0
IsOrdered required before [] = Unit
IsOrdered required before (x ∷ xs) =
    ((d : Text) → required x d ≡ true → mem d before ≡ true)
    × IsOrdered required (before ++ x ∷ []) xs

ready_cases :
    (xs : List Text) → (xs ≡ []) ⊎ ((x : Text) × (is_empty xs ≡ false) × (mem x xs ≡ true))
ready_cases [] = inl refl
ready_cases (x ∷ xs) = inr (x, refl, rw text_eq_refl refl)

module _ (required : Text → Text → Bool) where
  IsOrdered-append :
      (before xs ys : List Text)
      → IsOrdered required before xs
      → IsOrdered required (before ++ xs) ys
      → IsOrdered required before (xs ++ ys)
  IsOrdered-append before [] ys h k = rw append-nil at k
  IsOrdered-append before (x ∷ xs) ys h k =
      (h.0, IsOrdered-append (before ++ x ∷ []) xs ys h.1 (rw append_assoc k))

  IsOrdered-all :
      (before xs : List Text)
      → ((x d : Text) → mem x xs ≡ true → required x d ≡ true → mem d before ≡ true)
      → IsOrdered required before xs
  IsOrdered-all before [] h = tt
  IsOrdered-all before (x ∷ xs) h = (
    λ d r. h x d (rw text_eq_refl refl) r,
    IsOrdered-all (before ++ x ∷ []) xs
        (λ y d m r. mem-left d before (x ∷ []) (h y d (ground arith) r)),
  )

  -- The invariant of the loop; `all_names` are the keys that it began with.
  pub record Inv (all_names : List Text) (remaining : Deps) (order : List Text) : Type 0 where
    pub distinct : AreDistinct (keys remaining)
    pub count : length order + length remaining ≡ length all_names
    pub split : (x : Text) → mem x all_names ≡ (mem x order || mem x (keys remaining))
    pub apart : (x : Text) → mem x order ≡ true → mem x (keys remaining) ≡ false
    pub no_repeat : AreDistinct order
    pub covered :
        (x d : Text)
        → mem x (keys remaining) ≡ true
        → required x d ≡ true
        → (mem d (deps_of remaining x) || mem d order) ≡ true
    pub genuine :
        (x d : Text)
        → mem x (keys remaining) ≡ true
        → mem d (deps_of remaining x) ≡ true
        → required x d ≡ true
    pub open_deps :
        (x d : Text)
        → mem x (keys remaining) ≡ true
        → mem d (deps_of remaining x) ≡ true
        → mem d (keys remaining) ≡ true
    pub ordered : IsOrdered required [] order

  AreDistinct-append :
      (xs ys : List Text)
      → AreDistinct xs
      → AreDistinct ys
      → ((x : Text) → mem x xs ≡ true → mem x ys ≡ false)
      → AreDistinct (xs ++ ys)
  AreDistinct-append [] ys h k f = k
  AreDistinct-append (x ∷ xs) ys h k f = (
    mem-append x xs ys ∙ rw (h.0, f x (rw text_eq_refl refl)) refl,
    AreDistinct-append xs ys h.1 k (λ y m. f y (ground arith)),
  )

  is_empty-mem : (d : Text) (xs : List Text) → is_empty xs ≡ true → mem d xs ≡ false
  is_empty-mem d [] h = refl
  is_empty-mem d (x ∷ xs) h = cc

  settle-Inv :
      (all_names : List Text) (remaining : Deps) (order : List Text)
      → Inv all_names remaining order
      → Inv all_names (settle (ready_of remaining) remaining) (order ++ ready_of remaining)
  settle-Inv all_names remaining order i = record {
    distinct = settle-AreDistinct ready remaining i.distinct;
    count =
        omega
          (arith, i.count, length-append order ready, length-settle-ready_of remaining i.distinct);
    split = λ x.
        ground (
          arith,
          i.split x,
          mem-append x order ready,
          mem-keys-settle x ready remaining,
          is_ready x,
        );
    apart = λ x m.
        ground (arith, i.apart x, mem-append x order ready, mem-keys-settle x ready remaining);
    no_repeat =
        AreDistinct-append order ready i.no_repeat (ready_of-AreDistinct remaining i.distinct)
          (λ x m. ground (arith, i.apart x m, is_ready x));
    covered = λ x d m r. ground (
      arith,
      i.covered x d,
      mem-append d order ready,
      mem-keys-settle x ready remaining,
      deps_of-settle x d ready remaining,
    );
    genuine = λ x d m r. ground (
      arith,
      i.genuine x d,
      mem-keys-settle x ready remaining,
      deps_of-settle x d ready remaining,
    );
    open_deps = λ x d m r. ground (
      arith,
      i.open_deps x d,
      mem-keys-settle x ready remaining,
      mem-keys-settle d ready remaining,
      deps_of-settle x d ready remaining,
    );
    ordered = IsOrdered-append [] order ready i.ordered (
        IsOrdered-all order ready (λ x d m r.
          ground (arith, is_ready x, i.covered x d, is_empty-mem d (deps_of remaining x))));
  }
    where
      ready : List Text
      ready = ready_of remaining

      is_ready :
          (x : Text)
          → mem x (ready_of remaining) ≡ (mem x (keys remaining) && is_empty (deps_of remaining x))
      is_ready x = mem-ready_of x remaining i.distinct

  -- Enough fuel, and the invariant at the end, where nothing is ready.
  pub order_loop-Inv :
      (fuel : ℕ) (all_names : List Text) (remaining : Deps) (order : List Text)
      → length remaining < fuel
      → Inv all_names remaining order
      → (final : List Text) × (left : Deps) × (order_loop fuel remaining order ≡ some final)
        × Inv all_names left final
        × (ready_of left ≡ [])
  unfolding order_loop
  order_loop-Inv zero all_names remaining order h i = elim h [ ]
  order_loop-Inv (suc fuel) all_names remaining order h i =
      elim (ready_cases (ready_of remaining)) [
        | inl none_ready ↦ (order, remaining, rw (none_ready, order_loop), i, none_ready)
        | inr (x, some_ready, m) ↦
            let shorter =
              length-settle-lt x (ready_of remaining) remaining m
                (ground (arith, mem-ready_of x remaining i.distinct)) in
            let (final, left, e, j, done_) =
              order_loop-Inv fuel all_names (settle (ready_of remaining) remaining)
                (order ++ ready_of remaining) (omega arith)
                (settle-Inv all_names remaining order i) in
            (final, left, rw (some_ready, order_loop) e, j, done_)
      ]
