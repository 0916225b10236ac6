-- ===== src/Host/Handles.antt =====
-- The files that a job has open: crates/cuttlefish-host/src/handles.rs. A file is the list of its
-- bytes, taken not to change while it is open; a text in a window is the list of its UTF-8 bytes.
pub mod Table
pub mod Chars
pub mod Windows
pub mod Walk
pub mod Progress
pub mod Tests
use cuttlefish_vm.Base.{
  ltb, leb, ◌==◌, if◌then◌else◌, ==_iff, Bool-cases, Option-cases, and_true, or_true, is_some,
  is_some-false, length, get_elem?, take, drop, any, all, length-append, take-append-drop,
  length-take, length-drop, All, All-append, is_empty, Text, codes, text_eq, text_eq_refl,
  text_eq-true, text_eq-false, text_eq_iff, text_eq_comm, text_lt, strip_suffix, starts_with,
  parse_digits, parse_u32, parse_u32-lt, decimal_onto, decimal, join, find_char, rfind_char, mem,
  filter, AreDistinct, mem-append, mem-left, mem-right, mem-filter, length-filter, lookup_entry,
  insert_entry, lookup_entry-insert_entry, ℕ, zero, suc, ◌+◌, ◌-◌, ◌*◌, ◌/◌, ◌%◌, ◌^◌, ◌≤◌, ◌<◌,
  min, ◌≡◌, refl, sym, ap, ◌∙◌, subst, ◌≢◌, ◌↔◌, ◌⊎◌, inl, inr, Bool, true, false, not, ◌&&◌, ◌||◌,
  Option, none, some, List, [], ◌∷◌, ◌++◌, map, arith,
}

pub data MediaKind : Type 0 where
  text binary : MediaKind
  image : Text → MediaKind
  document : ℕ → Bool → MediaKind

pub record OpenFile : Type 0 where
  pub bytes : List ℕ
  pub kind : MediaKind

pub record Handles : Type 0 where
  pub next : ℕ
  pub opened : List (ℕ × OpenFile)

pub data HandleError : Type 0 where
  bad_handle : ℕ → HandleError
  offset_past_end : ℕ → ℕ → HandleError
  window_too_small : ℕ → HandleError
  io : Text → HandleError

pub data Result (A : Type 0) : Type 0 where
  ok : A → Result A
  err : HandleError → Result A

-- UTF-8: the ranges of the bytes that may follow a first byte.
unfoldable pub followers : ℕ → Option (List (ℕ × ℕ))
followers a =
    if ltb a 0x80
    then some []
    else if ltb a 0xC2
    then none
    else if ltb a 0xE0
    then some ((0x80, 0xBF) ∷ [])
    else if a == 0xE0
    then some ((0xA0, 0xBF) ∷ (0x80, 0xBF) ∷ [])
    else if a == 0xED
    then some ((0x80, 0x9F) ∷ (0x80, 0xBF) ∷ [])
    else if ltb a 0xF0
    then some ((0x80, 0xBF) ∷ (0x80, 0xBF) ∷ [])
    else if a == 0xF0
    then some ((0x90, 0xBF) ∷ (0x80, 0xBF) ∷ (0x80, 0xBF) ∷ [])
    else if ltb a 0xF4
    then some ((0x80, 0xBF) ∷ (0x80, 0xBF) ∷ (0x80, 0xBF) ∷ [])
    else if a == 0xF4
    then some ((0x80, 0x8F) ∷ (0x80, 0xBF) ∷ (0x80, 0xBF) ∷ [])
    else none

unfoldable pub follow : List (ℕ × ℕ) → List ℕ → Bool
follow [] bytes = true
follow (r ∷ ranges) [] = false
follow (r ∷ ranges) (b ∷ bytes) = leb r.0 b && leb b r.1 && follow ranges bytes

unfoldable pub char_of : Option (List (ℕ × ℕ)) → List ℕ → Option ℕ
char_of none rest = none
char_of (some ranges) rest = if follow ranges rest then some (suc (length ranges)) else none

-- The number of bytes of the first character, if it is whole and valid.
unfoldable pub char_len : List ℕ → Option ℕ
char_len [] = none
char_len (a ∷ rest) = char_of (followers a) rest

-- `valid_up_to`, or the whole length, for fuel of the length.
unfoldable pub valid_up_to : ℕ → List ℕ → ℕ
valid_up_to zero bytes = 0
valid_up_to (suc fuel) bytes = elim (char_len bytes) [
  | none ↦ 0
  | some n ↦ n + valid_up_to fuel (drop n bytes)
]

-- Whether the bytes are the beginning of a character and no more.
unfoldable pub is_cut : List (ℕ × ℕ) → List ℕ → Bool
is_cut [] bytes = false
is_cut (r ∷ ranges) [] = true
is_cut (r ∷ ranges) (b ∷ bytes) = leb r.0 b && leb b r.1 && is_cut ranges bytes

-- `error_len().is_none()`, at the bytes from `valid_up_to` on.
unfoldable pub is_incomplete : List ℕ → Bool
is_incomplete [] = false
is_incomplete (a ∷ rest) = elim (followers a) [ none ↦ false | some ranges ↦ is_cut ranges rest ]

unfoldable pub starts_with_bytes : List ℕ → List ℕ → Bool
unfolding starts_with
starts_with_bytes head prefix = starts_with prefix head

unfoldable pub classify : List ℕ → ℕ → MediaKind
classify head len =
    let valid = valid_up_to (length head) head in
    if starts_with_bytes head (codes "%PDF-")
    then document 0 false
    else if starts_with_bytes head (0x89 ∷ codes "PNG")
    then image (codes "png")
    else if starts_with_bytes head (0xFF ∷ 0xD8 ∷ 0xFF ∷ [])
    then image (codes "jpeg")
    else if starts_with_bytes head (codes "GIF8")
    then image (codes "gif")
    else if leb 12 (length head)
        && starts_with_bytes head (codes "RIFF")
        && text_eq (take 4 (drop 8 head)) (codes "WEBP")
    then image (codes "webp")
    else if len == 0
    then text
    else if valid == length head
    then text
    else if is_incomplete (drop valid head) && ltb 0 valid
    then text
    else binary

-- `next` wraps where it leaves its 32 bits.
unfoldable pub insert_file : OpenFile → Handles → ℕ × Handles
insert_file f h = (
  h.next,
  record {
    next = (h.next + 1) % 2 ^ 32;
    opened = (h.next, f) ∷ filter (λ e. not (e.0 == h.next)) h.opened;
  },
)

-- `open`, on what the file system gives for the path.
unfoldable pub open_file : Option (List ℕ) → Text → Handles → Result (ℕ × ℕ × MediaKind) × Handles
open_file none why h = (err (io why), h)
open_file (some bytes) why h =
    let kind = classify (take 4096 bytes) (length bytes) in
    let (handle, h') = insert_file (record { bytes = bytes; kind = kind }) h in
    (ok (handle, length bytes, kind), h')

unfoldable pub insert_bytes : List ℕ → MediaKind → Handles → (ℕ × ℕ) × Handles
insert_bytes bytes kind h =
    let (handle, h') = insert_file (record { bytes = bytes; kind = kind }) h in
    ((handle, length bytes), h')

unfoldable pub get_file : ℕ → List (ℕ × OpenFile) → Option OpenFile
get_file handle [] = none
get_file handle (e ∷ rest) = if e.0 == handle then some e.1 else get_file handle rest

unfoldable pub kind_of : Handles → ℕ → Result MediaKind
kind_of h handle = elim (get_file handle h.opened) [
  | none ↦ err (bad_handle handle)
  | some f ↦ ok f.kind
]

unfoldable pub read_all : Handles → ℕ → Result (List ℕ)
read_all h handle = elim (get_file handle h.opened) [
  | none ↦ err (bad_handle handle)
  | some f ↦ ok f.bytes
]

-- `buf` of both slices.
unfoldable pub buffer : List ℕ → ℕ → ℕ → List ℕ
buffer bytes offset len = take (min len (length bytes - offset)) (drop offset bytes)

unfoldable pub slice_bytes : Handles → ℕ → ℕ → ℕ → Result (List ℕ × ℕ)
slice_bytes h handle offset len = elim (get_file handle h.opened) [
  | none ↦ err (bad_handle handle)
  | some f ↦
      if ltb (length f.bytes) offset
      then err (offset_past_end offset (length f.bytes))
      else ok (buffer f.bytes offset len, offset + length (buffer f.bytes offset len))
]

pub record Window : Type 0 where
  pub text : List ℕ
  pub next_offset : ℕ

-- From the validation of `buf` on.
unfoldable pub window : ℕ → ℕ → List ℕ → Result Window
window offset len buf =
    let valid = valid_up_to (length buf) buf in
    if valid == 0 && not (is_empty buf)
    then err (window_too_small len)
    else ok (record { text = take valid buf; next_offset = offset + valid })

unfoldable pub slice : Handles → ℕ → ℕ → ℕ → Result Window
slice h handle offset len = elim (get_file handle h.opened) [
  | none ↦ err (bad_handle handle)
  | some f ↦
      if ltb (length f.bytes) offset
      then err (offset_past_end offset (length f.bytes))
      else window offset len (buffer f.bytes offset len)
]
