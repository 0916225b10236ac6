-- ===== src/Host/Caps/Fair.antt =====
-- What a denial of a read tells: `Capabilities::read_denial` of
-- crates/cuttlefish-host/src/caps.rs.
use cuttlefish_vm.Base.{
  if◌then◌else◌, Bool-cases, Option-cases, length, Text, ℕ, zero, suc, ◌+◌, ◌≤◌, ◌≡◌, refl, sym,
  subst, ◌⊎◌, inl, inr, true, false, Option, none, some, List, [], ◌∷◌, arith,
}
use cuttlefish_vm.Host.Caps.{
  FileSystem, Capabilities, ReadDenial, not_granted, missing, but_last, parent, allows_read,
  first_ancestor, denied, read_denial, is_in_root,
}

-- The directories above a path, up to the first that can be resolved.
pub data IsTried (fs : FileSystem) (path : List Text) : List Text → Type 0 where
  first_parent : {dir : List Text} → parent path ≡ some dir → IsTried fs path dir
  next_parent :
      {dir above : List Text}
      → IsTried fs path dir
      → fs.canonicalize dir ≡ none
      → parent dir ≡ some above
      → IsTried fs path above

length-but_last : (c : Text) (rest : List Text) → length (but_last c rest) ≡ length rest
length-but_last c [] = refl
length-but_last c (d ∷ rest) = omega (arith, length-but_last d rest)

length-parent : (path dir : List Text) → parent path ≡ some dir → length dir + 1 ≤ length path
unfolding parent
length-parent [] dir e = ground arith
length-parent (c ∷ rest) dir e = ground (arith, length-but_last c rest)

-- An answer for a path, with what it rests on.
pub data IsFair (fs : FileSystem) (c : Capabilities) (path : List Text)
    : Option (Option ReadDenial) → Type 0 where
  granted : allows_read fs c path ≡ true → IsFair fs c path (some none)
  refused :
      allows_read fs c path ≡ false
      → fs.symlink_metadata path ≡ true
      → IsFair fs c path (some (some not_granted))
  hidden :
      {dir real : List Text}
      → allows_read fs c path ≡ false
      → fs.symlink_metadata path ≡ false
      → IsTried fs path dir
      → fs.canonicalize dir ≡ some real
      → is_in_root fs c real ≡ false
      → IsFair fs c path (some (some not_granted))
  nowhere :
      allows_read fs c path ≡ false
      → fs.symlink_metadata path ≡ false
      → (parent path ≡ none)
        ⊎ ((last : List Text) × IsTried fs path last
            × (fs.canonicalize last ≡ none)
            × (parent last ≡ none))
      → IsFair fs c path (some (some not_granted))
  absent :
      {dir real : List Text}
      → allows_read fs c path ≡ false
      → fs.symlink_metadata path ≡ false
      → IsTried fs path dir
      → fs.canonicalize dir ≡ some real
      → is_in_root fs c real ≡ true
      → IsFair fs c path (some (some missing))

first_ancestor-none :
    (fs : FileSystem) (c : Capabilities) (fuel : ℕ) (dir : List Text)
    → fs.canonicalize dir ≡ none
    → first_ancestor fs c (suc fuel) (some dir) ≡ first_ancestor fs c fuel (parent dir)
unfolding first_ancestor
first_ancestor-none fs c fuel dir e = rw (first_ancestor, e) refl

first_ancestor-some :
    (fs : FileSystem) (c : Capabilities) (fuel : ℕ) (dir real : List Text)
    → fs.canonicalize dir ≡ some real
    → first_ancestor fs c (suc fuel) (some dir)
      ≡ some (if is_in_root fs c real then missing else not_granted)
unfolding first_ancestor
first_ancestor-some fs c fuel dir real e = rw (first_ancestor, e) refl

module _ (fs : FileSystem) (c : Capabilities) (path : List Text)
    (unread : allows_read fs c path ≡ false) (unseen : fs.symlink_metadata path ≡ false) where
  answer-IsFair :
      (dir real : List Text)
      → IsTried fs path dir
      → fs.canonicalize dir ≡ some real
      → IsFair fs c path (some (some (if is_in_root fs c real then missing else not_granted)))
  answer-IsFair dir real above e = elim (Bool-cases (is_in_root fs c real)) [
    | inl t ↦ rw t (absent unread unseen above e t)
    | inr t ↦ rw t (hidden unread unseen above e t)
  ]

  -- With no directory left.
  ended-IsFair :
      (fuel : ℕ)
      → 1 ≤ fuel
      → (parent path ≡ none)
        ⊎ ((last : List Text) × IsTried fs path last
            × (fs.canonicalize last ≡ none)
            × (parent last ≡ none))
      → IsFair fs c path (denied (first_ancestor fs c fuel none))
  unfolding first_ancestor
  ended-IsFair zero h none_left = ground arith
  ended-IsFair (suc fuel) h none_left = nowhere unread unseen none_left

  -- From a directory whose nearer ones do not resolve.
  tried-IsFair :
      (fuel : ℕ) (dir : List Text)
      → IsTried fs path dir
      → length dir + 2 ≤ fuel
      → IsFair fs c path (denied (first_ancestor fs c fuel (some dir)))
  tried-IsFair zero dir above h = ground arith
  tried-IsFair (suc fuel) dir above h = elim (Option-cases (fs.canonicalize dir)) [
    | inr (real, e) ↦
        subst (λ r. IsFair fs c path (denied r)) (sym (first_ancestor-some fs c fuel dir real e))
          (answer-IsFair dir real above e)
    | inl e ↦
        subst (λ r. IsFair fs c path (denied r)) (sym (first_ancestor-none fs c fuel dir e))
          (elim (Option-cases (parent dir)) [
            | inl root ↦
                subst (λ o. IsFair fs c path (denied (first_ancestor fs c fuel o))) (sym root)
                  (ended-IsFair fuel (omega arith) (inr (dir, above, e, root)))
            | inr (up, t) ↦
                subst (λ o. IsFair fs c path (denied (first_ancestor fs c fuel o))) (sym t)
                  (tried-IsFair fuel up (next_parent above e t)
                    (omega (arith, length-parent dir up t)))
          ])
  ]

  first_ancestor-IsFair :
      IsFair fs c path (denied (first_ancestor fs c (suc (length path)) (parent path)))
  first_ancestor-IsFair = elim (Option-cases (parent path)) [
    | inl root ↦
        subst (λ o. IsFair fs c path (denied (first_ancestor fs c (suc (length path)) o)))
          (sym root) (ended-IsFair (suc (length path)) (omega arith) (inl root))
    | inr (dir, t) ↦
        subst (λ o. IsFair fs c path (denied (first_ancestor fs c (suc (length path)) o))) (sym t)
          (tried-IsFair (suc (length path)) dir (first_parent t)
            (omega (arith, length-parent path dir t)))
  ]

-- `read_denial` ends on every path. It is silent exactly where the read is allowed; what it says is
-- missing is not there, and the nearest directory above it that can be resolved is inside a granted
-- root; what it says is not granted is there, or the nearest such directory is outside every root,
-- or none of the directories above it can be resolved.
pub read_denial-IsFair :
    (fs : FileSystem) (c : Capabilities) (path : List Text)
    → IsFair fs c path (read_denial fs c path)
unfolding read_denial
read_denial-IsFair fs c path = elim (Bool-cases (allows_read fs c path)) [
  | inl t ↦ rw t (granted t)
  | inr t ↦ elim (Bool-cases (fs.symlink_metadata path)) [
    | inl m ↦ rw (t, m) (refused t m)
    | inr m ↦ rw (t, m) (first_ancestor-IsFair fs c path t m)
  ]
]
