-- ===== src/Host/Handles/Chars.antt =====
-- Whole characters at the front of a list of bytes, for the windows of
-- crates/cuttlefish-host/src/handles.rs.
use cuttlefish_vm.Base.{
  length, take, ℕ, zero, suc, ◌≤◌, ◌≡◌, refl, true, Option, none, some, List, [], ◌∷◌, arith,
}
use cuttlefish_vm.Host.Handles.{followers, follow, char_of, char_len}

follow-take :
    (ranges : List (ℕ × ℕ)) (bytes : List ℕ) (m : ℕ)
    → follow ranges bytes ≡ true
    → length ranges ≤ m
    → follow ranges (take m bytes) ≡ true
unfolding follow
follow-take [] bytes m h le = refl
follow-take (r ∷ ranges) [] m h le = ground arith
follow-take (r ∷ ranges) (b ∷ bytes) zero h le = ground arith
follow-take (r ∷ ranges) (b ∷ bytes) (suc m) h le = ground (arith, follow-take ranges bytes m)

follow-untake :
    (ranges : List (ℕ × ℕ)) (bytes : List ℕ) (m : ℕ)
    → follow ranges (take m bytes) ≡ true
    → follow ranges bytes ≡ true
unfolding follow
follow-untake [] bytes m h = refl
follow-untake (r ∷ ranges) [] zero h = h
follow-untake (r ∷ ranges) [] (suc m) h = h
follow-untake (r ∷ ranges) (b ∷ bytes) zero h = ground arith
follow-untake (r ∷ ranges) (b ∷ bytes) (suc m) h = ground (arith, follow-untake ranges bytes m)

follow-length :
    (ranges : List (ℕ × ℕ)) (bytes : List ℕ)
    → follow ranges bytes ≡ true
    → length ranges ≤ length bytes
unfolding follow
follow-length [] bytes h = omega arith
follow-length (r ∷ ranges) [] h = ground arith
follow-length (r ∷ ranges) (b ∷ bytes) h = ground (arith, follow-length ranges bytes)

length-followers : (a : ℕ) (ranges : List (ℕ × ℕ)) → followers a ≡ some ranges → length ranges ≤ 3
unfolding followers
length-followers a ranges h = ground arith

char_of-take :
    (o : Option (List (ℕ × ℕ))) (rest : List ℕ) (n m : ℕ)
    → char_of o rest ≡ some n
    → n ≤ suc m
    → char_of o (take m rest) ≡ some n
unfolding char_of
char_of-take none rest n m h le = ground arith
char_of-take (some ranges) rest n m h le = ground (arith, follow-take ranges rest m)

char_of-untake :
    (o : Option (List (ℕ × ℕ))) (rest : List ℕ) (n m : ℕ)
    → char_of o (take m rest) ≡ some n
    → char_of o rest ≡ some n
unfolding char_of
char_of-untake none rest n m h = h
char_of-untake (some ranges) rest n m h = ground (arith, follow-untake ranges rest m)

char_of-length :
    (o : Option (List (ℕ × ℕ))) (rest : List ℕ) (n : ℕ)
    → char_of o rest ≡ some n
    → (1 ≤ n) × (n ≤ suc (length rest))
unfolding char_of
char_of-length none rest n h = ground arith
char_of-length (some ranges) rest n h = ground (arith, follow-length ranges rest)

pub char_len-take :
    (bytes : List ℕ) (n m : ℕ) → char_len bytes ≡ some n → n ≤ m → char_len (take m bytes) ≡ some n
unfolding char_len
char_len-take [] n m h le = ground arith
char_len-take (a ∷ rest) n zero h le = ground (arith, char_of-length (followers a) rest n h)
char_len-take (a ∷ rest) n (suc m) h le = char_of-take (followers a) rest n m h le

pub char_len-untake :
    (bytes : List ℕ) (n m : ℕ) → char_len (take m bytes) ≡ some n → char_len bytes ≡ some n
unfolding char_len
char_len-untake [] n zero h = h
char_len-untake [] n (suc m) h = h
char_len-untake (a ∷ rest) n zero h = ground arith
char_len-untake (a ∷ rest) n (suc m) h = char_of-untake (followers a) rest n m h

pub char_len-length :
    (bytes : List ℕ) (n : ℕ) → char_len bytes ≡ some n → (1 ≤ n) × (n ≤ length bytes)
unfolding char_len
char_len-length [] n h = ground arith
char_len-length (a ∷ rest) n h = ground (arith, char_of-length (followers a) rest n h)

char_of-at_most_four :
    (a : ℕ) (o : Option (List (ℕ × ℕ))) (rest : List ℕ) (n : ℕ)
    → followers a ≡ o
    → char_of o rest ≡ some n
    → n ≤ 4
unfolding char_of
char_of-at_most_four a none rest n e h = ground arith
char_of-at_most_four a (some ranges) rest n e h = ground (arith, length-followers a ranges e)

pub char_len-at_most_four : (bytes : List ℕ) (n : ℕ) → char_len bytes ≡ some n → n ≤ 4
unfolding char_len
char_len-at_most_four [] n h = ground arith
char_len-at_most_four (a ∷ rest) n h = char_of-at_most_four a (followers a) rest n refl h
