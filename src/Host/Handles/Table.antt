-- ===== src/Host/Handles/Table.antt =====
-- The handles of a job: `Handles::insert_bytes` of crates/cuttlefish-host/src/handles.rs.
use cuttlefish_vm.Base.{
  ◌==◌, if◌then◌else◌, ==_iff, Bool-cases, length, All, filter, ℕ, ◌+◌, ◌%◌, ◌^◌, ◌≤◌, ◌<◌, ◌≡◌,
  refl, ◌∙◌, inl, inr, Bool, true, false, not, none, some, List, [], ◌∷◌, arith,
}
use cuttlefish_vm.Host.Handles.{
  Handles, ok, get_file, OpenFile, insert_bytes, insert_file, MediaKind, read_all, kind_of,
}

get_file-filter :
    (handle next : ℕ) (opened : List (ℕ × OpenFile))
    → (handle == next) ≡ false
    → get_file handle (filter (λ e. not (e.0 == next)) opened) ≡ get_file handle opened
unfolding get_file
get_file-filter handle next [] ne = refl
get_file-filter handle next ((k, f) ∷ opened) ne = elim (Bool-cases (k == next)) [
  | inl t ↦ ground (arith, get_file-filter handle next opened ne)
  | inr t ↦ ground (arith, get_file-filter handle next opened ne)
]

get_file-here :
    (handle k : ℕ) (f : OpenFile) (opened : List (ℕ × OpenFile))
    → (handle == k) ≡ true
    → get_file handle ((k, f) ∷ opened) ≡ some f
unfolding get_file
get_file-here handle k f opened e = ground arith

get_file-there :
    (handle k : ℕ) (f : OpenFile) (opened : List (ℕ × OpenFile))
    → (handle == k) ≡ false
    → get_file handle ((k, f) ∷ opened) ≡ get_file handle opened
unfolding get_file
get_file-there handle k f opened e = ground arith

-- No handle that is open is still to be given.
abbrev pub IsFresh : Handles → Type 0
IsFresh h = All (λ e. e.0 < h.next) h.opened

get_file-unopened :
    (n : ℕ) (opened : List (ℕ × OpenFile)) → All (λ e. e.0 < n) opened → get_file n opened ≡ none
unfolding get_file
get_file-unopened n [] fresh = refl
get_file-unopened n ((k, f) ∷ opened) fresh =
    let lower : k < n = fresh.0 in ground (arith, get_file-unopened n opened fresh.1)

All-raise :
    (n m : ℕ) (q : ℕ × OpenFile → Bool) (opened : List (ℕ × OpenFile))
    → n ≤ m
    → All (λ e. e.0 < n) opened
    → All (λ e. e.0 < m) (filter q opened)
All-raise n m q [] le h = tt
All-raise n m q (e ∷ opened) le h = elim (Bool-cases (q e)) [
  | inl kept ↦ rw kept (omega (arith, h.0), All-raise n m q opened le h.1)
  | inr left ↦ rw left (All-raise n m q opened le h.1)
]

get_file-insert :
    (f : OpenFile) (h : Handles) (handle : ℕ)
    → get_file handle (insert_file f h).1.opened
      ≡ (if handle == h.next then some f else get_file handle h.opened)
unfolding insert_file
get_file-insert f h handle = elim (Bool-cases (handle == h.next)) [
  | inl t ↦ rw t (get_file-here handle h.next _ _ t)
  | inr t ↦ rw t (get_file-there handle h.next _ _ t ∙ get_file-filter handle h.next h.opened t)
]

insert_file-IsFresh :
    (f : OpenFile) (h : Handles) → IsFresh h → h.next + 1 < 2 ^ 32 → IsFresh (insert_file f h).1
unfolding insert_file
insert_file-IsFresh f h fresh room =
    (omega arith, All-raise h.next ((h.next + 1) % 2 ^ 32) _ h.opened (omega arith) fresh)

read_all-file :
    (h : Handles) (handle : ℕ) (f : OpenFile)
    → get_file handle h.opened ≡ some f
    → read_all h handle ≡ ok f.bytes
unfolding read_all
read_all-file h handle f e = rw (read_all, e) refl

kind_of-file :
    (h : Handles) (handle : ℕ) (f : OpenFile)
    → get_file handle h.opened ≡ some f
    → kind_of h handle ≡ ok f.kind
unfolding kind_of
kind_of-file h handle f e = rw (kind_of, e) refl

-- Where every open handle is below the next one, which stays in 32 bits, registering bytes gives a
-- handle that was not open, behind which are these bytes and their kind, with their length; every
-- other handle is what it was, and every open handle is again below the next one.
pub insert_bytes-IsFresh :
    (bytes : List ℕ) (kind : MediaKind) (h : Handles) (other : ℕ)
    → IsFresh h
    → h.next + 1 < 2 ^ 32
    → IsFresh (insert_bytes bytes kind h).1
      × (get_file (insert_bytes bytes kind h).0.0 h.opened ≡ none)
      × (read_all (insert_bytes bytes kind h).1 (insert_bytes bytes kind h).0.0 ≡ ok bytes)
      × (kind_of (insert_bytes bytes kind h).1 (insert_bytes bytes kind h).0.0 ≡ ok kind)
      × ((insert_bytes bytes kind h).0.1 ≡ length bytes)
      × (get_file other (insert_bytes bytes kind h).1.opened ≡ (
          if other == (insert_bytes bytes kind h).0.0
          then some (record { bytes = bytes; kind = kind })
          else get_file other h.opened))
unfolding insert_bytes insert_file
insert_bytes-IsFresh bytes kind h other fresh room =
    let f : OpenFile = record { bytes = bytes; kind = kind } in
    let here : get_file h.next (insert_file f h).1.opened ≡ some f =
      get_file-insert f h h.next ∙ rw ((==_iff h.next h.next).1 refl) refl in
    (
      insert_file-IsFresh f h fresh room,
      get_file-unopened h.next h.opened fresh,
      read_all-file (insert_file f h).1 h.next f here,
      kind_of-file (insert_file f h).1 h.next f here,
      refl,
      get_file-insert f h other,
    )
