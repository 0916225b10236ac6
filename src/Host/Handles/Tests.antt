-- ===== src/Host/Handles/Tests.antt =====
-- Runs of the windows of crates/cuttlefish-host/src/handles.rs.
use cuttlefish_vm.Base.{
  ◌==◌, if◌then◌else◌, length, take, ℕ, suc, ◌≤◌, ◌≡◌, refl, none, some, List, [], ◌∷◌, arith,
}
use cuttlefish_vm.Host.Handles.Table.{IsFresh, insert_bytes-IsFresh}
use cuttlefish_vm.Host.Handles.Progress.{walk, walk-whole, IsWindowOf, slice-IsWindowOf}
use cuttlefish_vm.Host.Handles.Windows.{IsUtf8, no_char, char}
use cuttlefish_vm.Host.Handles.{
  followers, follow, char_of, char_len, valid_up_to, Handles, ok, err, window, slice, buffer,
  get_file, OpenFile, insert_bytes, insert_file, text, classify, is_incomplete, is_cut,
  starts_with_bytes, window_too_small, kind_of, read_all,
}

-- "aé€".
abbrev sample_bytes : List ℕ
sample_bytes = 97 ∷ 0xC3 ∷ 0xA9 ∷ 0xE2 ∷ 0x82 ∷ 0xAC ∷ []

abbrev sample_file : OpenFile
sample_file = record { bytes = sample_bytes; kind = text }

abbrev no_files : Handles
no_files = record { next = 0; opened = [] }

abbrev sample_handles : Handles
sample_handles = record { next = 1; opened = (0, sample_file) ∷ [] }

sample_bytes-IsUtf8 : IsUtf8 sample_bytes
unfolding char_len char_of followers follow
sample_bytes-IsUtf8 = char {n = 1} refl (char {n = 2} refl (char {n = 3} refl no_char))

opened_bytes : (insert_bytes sample_bytes text no_files).1 ≡ sample_handles
unfolding insert_bytes insert_file
opened_bytes = refl

-- A window of four bytes is cut to the three of its whole characters.
cut_window :
    slice sample_handles 0 0 4 ≡ ok (record { text = take 3 sample_bytes; next_offset = 3 })
unfolding slice window buffer valid_up_to char_len char_of followers follow get_file
cut_window = refl

too_small : slice sample_handles 0 3 2 ≡ err (window_too_small 2)
unfolding slice window buffer valid_up_to char_len char_of followers follow get_file
too_small = refl

cut_text : classify (take 4 sample_bytes) 6 ≡ text
unfolding classify is_incomplete is_cut starts_with_bytes valid_up_to char_len char_of followers
    follow
cut_text = refl

found_file : get_file 0 sample_handles.opened ≡ some sample_file
unfolding get_file
found_file = refl

walk-whole_example :
    walk sample_handles 0 4 (length sample_bytes) (suc (length sample_bytes)) 0 ≡ some sample_bytes
walk-whole_example =
    walk-whole sample_handles 0 4 sample_file found_file (omega arith) sample_bytes-IsUtf8

slice-IsWindowOf_example :
    (0 ≤ length sample_bytes)
    × IsWindowOf sample_bytes 0 4 (record { text = take 3 sample_bytes; next_offset = 3 })
slice-IsWindowOf_example =
    slice-IsWindowOf sample_handles 0 0 4 sample_file
      (record { text = take 3 sample_bytes; next_offset = 3 }) found_file cut_window

insert_bytes-IsFresh_example :
    IsFresh (insert_bytes sample_bytes text sample_handles).1
    × (get_file (insert_bytes sample_bytes text sample_handles).0.0 sample_handles.opened ≡ none)
    × (read_all
          (insert_bytes sample_bytes text sample_handles).1
          (insert_bytes sample_bytes text sample_handles).0.0
        ≡ ok sample_bytes)
    × (kind_of
          (insert_bytes sample_bytes text sample_handles).1
          (insert_bytes sample_bytes text sample_handles).0.0
        ≡ ok text)
    × ((insert_bytes sample_bytes text sample_handles).0.1 ≡ length sample_bytes)
    × (get_file 0 (insert_bytes sample_bytes text sample_handles).1.opened ≡ (
        if 0 == (insert_bytes sample_bytes text sample_handles).0.0
        then some sample_file
        else get_file 0 sample_handles.opened))
insert_bytes-IsFresh_example =
    insert_bytes-IsFresh sample_bytes text sample_handles 0 (omega arith, tt) (omega arith)
