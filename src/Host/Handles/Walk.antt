-- ===== src/Host/Handles/Walk.antt =====
-- A walk over a file in windows, each from where the one before ended: `Handles::slice` of
-- crates/cuttlefish-host/src/handles.rs.
use cuttlefish_vm.Base.{
  length, take, drop, length-take, length-drop, ℕ, ◌+◌, ◌-◌, ◌≤◌, ◌<◌, min, ◌≡◌, sym, subst, List,
  arith,
}
use cuttlefish_vm.Host.Handles.Windows.{
  take-take, drop-drop, rest-IsUtf8, IsUtf8, valid_up_to-length, keeps_one,
}
use cuttlefish_vm.Host.Handles.{valid_up_to, Window, ok, window, buffer}

-- The bytes that the buffer of a window from `offset` keeps.
abbrev pub kept : List ℕ → ℕ → ℕ → ℕ
kept bytes offset len = valid_up_to (length (buffer bytes offset len)) (buffer bytes offset len)

abbrev pub window_at : List ℕ → ℕ → ℕ → Window
window_at bytes offset len = record {
  text = take (kept bytes offset len) (drop offset bytes);
  next_offset = offset + kept bytes offset len;
}

pub take-kept :
    (bytes : List ℕ) (offset len : ℕ)
    → take (kept bytes offset len) (buffer bytes offset len)
      ≡ take (kept bytes offset len) (drop offset bytes)
unfolding buffer
take-kept bytes offset len =
    take-take (kept bytes offset len) (min len (length bytes - offset)) (drop offset bytes) (
      omega (
        arith,
        valid_up_to-length (length (buffer bytes offset len)) (buffer bytes offset len),
        length-take (min len (length bytes - offset)) (drop offset bytes),
      ))

pub kept-length :
    (bytes : List ℕ) (offset len : ℕ)
    → (kept bytes offset len ≤ len) × (kept bytes offset len ≤ length bytes - offset)
unfolding buffer
kept-length bytes offset len = (
  omega (
    arith,
    valid_up_to-length (length (buffer bytes offset len)) (buffer bytes offset len),
    length-take (min len (length bytes - offset)) (drop offset bytes),
  ),
  omega (
    arith,
    valid_up_to-length (length (buffer bytes offset len)) (buffer bytes offset len),
    length-take (min len (length bytes - offset)) (drop offset bytes),
  ),
)

pub kept-positive :
    (bytes : List ℕ) (offset len : ℕ)
    → IsUtf8 (drop offset bytes)
    → offset < length bytes
    → 4 ≤ len
    → 1 ≤ kept bytes offset len
unfolding buffer
kept-positive bytes offset len u lt four =
    keeps_one (min len (length bytes - offset)) (drop offset bytes) u
      (omega (arith, length-drop offset bytes)) (omega (arith, length-drop offset bytes))

pub kept-rest :
    (bytes : List ℕ) (offset len : ℕ)
    → IsUtf8 (drop offset bytes)
    → IsUtf8 (drop (offset + kept bytes offset len) bytes)
unfolding buffer
kept-rest bytes offset len u = subst IsUtf8 (sym (drop-drop offset (kept bytes offset len) bytes)) (
    rest-IsUtf8 (length (buffer bytes offset len)) (min len (length bytes - offset))
      (drop offset bytes) u)

-- A window that keeps something is what stands in the file.
pub window-kept :
    (bytes : List ℕ) (offset len : ℕ)
    → 1 ≤ kept bytes offset len
    → window offset len (buffer bytes offset len) ≡ ok (window_at bytes offset len)
unfolding window
window-kept bytes offset len h = rw (take-kept bytes offset len) (ground arith)
