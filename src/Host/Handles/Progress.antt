-- ===== src/Host/Handles/Progress.antt =====
-- What a reader of a file's windows sees: `Handles::slice` of
-- crates/cuttlefish-host/src/handles.rs.
use cuttlefish_vm.Base.{
  ltb, leb, ◌==◌, if◌then◌else◌, Bool-cases, length, take, drop, take-append-drop, length-take,
  length-drop, is_empty, ℕ, zero, suc, ◌+◌, ◌-◌, ◌≤◌, ◌<◌, min, ◌≡◌, refl, sym, ap, ◌∙◌, subst, ◌⊎◌,
  inl, inr, true, false, not, ◌&&◌, Option, none, some, List, [], ◌∷◌, ◌++◌, arith,
}
use cuttlefish_vm.Host.Handles.Walk.{
  kept, window_at, kept-positive, kept-rest, window-kept, kept-length, take-kept,
}
use cuttlefish_vm.Host.Handles.Windows.{drop-drop, IsUtf8, valid_up_to-IsUtf8}
use cuttlefish_vm.Host.Handles.{
  Handles, Window, Result, ok, err, window, slice, buffer, get_file, OpenFile, offset_past_end,
}

-- A reader that asks for windows of `len` bytes until it is at the end of a file of `size` bytes,
-- and puts their texts together: none where a window fails or the fuel is not enough.
abbrev then_walk : Result Window → (ℕ → Option (List ℕ)) → Option (List ℕ)
then_walk (err e) rest = none
then_walk (ok w) rest = elim (rest w.next_offset) [ none ↦ none | some t ↦ some (w.text ++ t) ]

unfoldable pub walk : Handles → ℕ → ℕ → ℕ → ℕ → ℕ → Option (List ℕ)
walk h handle len size zero offset = none
walk h handle len size (suc fuel) offset =
    let rest = walk h handle len size fuel in
    if leb size offset then some [] else then_walk (slice h handle offset len) rest

ok-injective : (a b : Window) → ok a ≡ ok b → a ≡ b
ok-injective a b e = ground arith

slice-window :
    (h : Handles) (handle offset len : ℕ) (f : OpenFile)
    → get_file handle h.opened ≡ some f
    → offset ≤ length f.bytes
    → slice h handle offset len ≡ window offset len (buffer f.bytes offset len)
unfolding slice
slice-window h handle offset len f e le = rw (slice, e) (ground arith)

slice-past :
    (h : Handles) (handle offset len : ℕ) (f : OpenFile)
    → get_file handle h.opened ≡ some f
    → ltb (length f.bytes) offset ≡ true
    → slice h handle offset len ≡ err (offset_past_end offset (length f.bytes))
unfolding slice
slice-past h handle offset len f e t = rw (slice, e, t) refl

slice-kept :
    (h : Handles) (handle offset len : ℕ) (f : OpenFile)
    → get_file handle h.opened ≡ some f
    → offset < length f.bytes
    → IsUtf8 (drop offset f.bytes)
    → 4 ≤ len
    → slice h handle offset len ≡ ok (window_at f.bytes offset len)
slice-kept h handle offset len f e lt u four =
    slice-window h handle offset len f e (omega arith)
    ∙ window-kept f.bytes offset len (kept-positive f.bytes offset len u lt four)

drop-all : (n : ℕ) (xs : List ℕ) → length xs ≤ n → drop n xs ≡ []
drop-all zero [] le = refl
drop-all zero (x ∷ xs) le = ground arith
drop-all (suc n) [] le = refl
drop-all (suc n) (x ∷ xs) le = drop-all n xs (omega arith)

walk-from :
    (h : Handles) (handle len : ℕ) (f : OpenFile) (fuel offset : ℕ)
    → get_file handle h.opened ≡ some f
    → 4 ≤ len
    → IsUtf8 (drop offset f.bytes)
    → length f.bytes - offset < fuel
    → walk h handle len (length f.bytes) fuel offset ≡ some (drop offset f.bytes)
unfolding walk
walk-from h handle len f zero offset e four u lt = ground arith
walk-from h handle len f (suc fuel) offset e four u lt =
    elim (Bool-cases (leb (length f.bytes) offset)) [
      | inl t ↦ rw (t, drop-all offset f.bytes (ground arith)) refl
      | inr t ↦
          rw
            (
              t,
              slice-kept h handle offset len f e (ground arith) u four,
              walk-from h handle len f fuel (offset + kept f.bytes offset len) e four
                  (kept-rest f.bytes offset len u)
                  (ground (arith, kept-positive f.bytes offset len u, t)),
              drop-drop offset (kept f.bytes offset len) f.bytes,
            )
            (ap some (take-append-drop (kept f.bytes offset len) (drop offset f.bytes)))
    ]

-- A reader of an open file of whole UTF-8 characters, that starts at 0, asks for windows of at
-- least four bytes and goes on from each `next_offset`, comes to the end of the file within one
-- round more than it has bytes, and has read all its bytes in order.
pub walk-whole :
    (h : Handles) (handle len : ℕ) (f : OpenFile)
    → get_file handle h.opened ≡ some f
    → 4 ≤ len
    → IsUtf8 f.bytes
    → walk h handle len (length f.bytes) (suc (length f.bytes)) 0 ≡ some f.bytes
walk-whole h handle len f e four u =
    walk-from h handle len f (suc (length f.bytes)) 0 e four u (omega arith)

-- Whole characters, as they stand in the file from `offset` on, no more than were asked for or
-- are there, and some where any are asked for and there.
abbrev pub IsWindowOf : List ℕ → ℕ → ℕ → Window → Type 0
IsWindowOf bytes offset len w =
    IsUtf8 w.text
    × (w.text ≡ take (w.next_offset - offset) (drop offset bytes))
    × (w.next_offset ≤ offset + min len (length bytes - offset))
    × ((min len (length bytes - offset) ≡ 0) ⊎ (offset < w.next_offset))

is_empty-length : (xs : List ℕ) → is_empty xs ≡ true → length xs ≡ 0
is_empty-length [] e = refl
is_empty-length (x ∷ xs) e = ground arith

sub_add : (n m : ℕ) → m ≡ n + m - n
sub_add n m = omega arith

kept-some :
    (bytes : List ℕ) (offset len : ℕ)
    → (kept bytes offset len == 0 && not (is_empty (buffer bytes offset len))) ≡ false
    → (min len (length bytes - offset) ≡ 0) ⊎ (1 ≤ kept bytes offset len)
unfolding buffer
kept-some bytes offset len e = elim (Bool-cases (is_empty (buffer bytes offset len))) [
  | inl t ↦ inl (
      omega (
        arith,
        is_empty-length (buffer bytes offset len) t,
        length-take (min len (length bytes - offset)) (drop offset bytes),
        length-drop offset bytes,
      ))
  | inr t ↦ ground arith
]

kept-IsWindowOf :
    (bytes : List ℕ) (offset len : ℕ)
    → (min len (length bytes - offset) ≡ 0) ⊎ (1 ≤ kept bytes offset len)
    → IsWindowOf bytes offset len (record {
      text = take (kept bytes offset len) (buffer bytes offset len);
      next_offset = offset + kept bytes offset len;
    })
kept-IsWindowOf bytes offset len some_kept = (
  valid_up_to-IsUtf8 (length (buffer bytes offset len)) (buffer bytes offset len),
  take-kept bytes offset len
      ∙ ap (λ n. take n (drop offset bytes)) (sub_add offset (kept bytes offset len)),
  omega (arith, kept-length bytes offset len),
  ground arith,
)

window-IsWindowOf :
    (bytes : List ℕ) (offset len : ℕ) (w : Window)
    → window offset len (buffer bytes offset len) ≡ ok w
    → IsWindowOf bytes offset len w
unfolding window
window-IsWindowOf bytes offset len w e =
    elim (Bool-cases (kept bytes offset len == 0 && not (is_empty (buffer bytes offset len)))) [
      | inl t ↦ ground arith
      | inr t ↦
          subst (IsWindowOf bytes offset len) (ground arith)
            (kept-IsWindowOf bytes offset len (kept-some bytes offset len t))
    ]

-- A window that `slice` gives starts in the file or at its end, is whole characters, so that the
-- `expect` on its text holds, stands in the file from the offset to `next_offset`, reaches no
-- further than was asked for or is there, and is not empty where any byte is asked for and there.
pub slice-IsWindowOf :
    (h : Handles) (handle offset len : ℕ) (f : OpenFile) (w : Window)
    → get_file handle h.opened ≡ some f
    → slice h handle offset len ≡ ok w
    → (offset ≤ length f.bytes) × IsWindowOf f.bytes offset len w
unfolding slice
slice-IsWindowOf h handle offset len f w e s = elim (Bool-cases (ltb (length f.bytes) offset)) [
  | inl t ↦ ground (arith, slice-past h handle offset len f e t, s)
  | inr t ↦ (
    ground arith,
    window-IsWindowOf f.bytes offset len w
        (sym (slice-window h handle offset len f e (ground arith)) ∙ s),
  )
]
