-- ===== src/Host/Ledger/Rows.antt =====
-- Rows found by their key, behind the writes.
use cuttlefish_vm.Base.{
  if◌then◌else◌, ==_iff, Bool-cases, and_true, Text, text_eq, text_eq_refl, text_eq-true, ℕ, ◌≡◌,
  refl, sym, ap, subst, inl, inr, true, ◌&&◌, Option, none, some, List, [], ◌∷◌, arith,
}
use cuttlefish_vm.Host.Ledger.{Checkpoint, item_eq, is_key, find_row, upsert}

item_eq-true : (i k : Option ℕ) → item_eq i k ≡ true → i ≡ k
item_eq-true none none h = refl
item_eq-true none (some k) h = cc
item_eq-true (some i) none h = cc
item_eq-true (some i) (some k) h = ap some ((==_iff i k).0 h)

item_eq_refl : (i : Option ℕ) → item_eq i i ≡ true
item_eq_refl none = refl
item_eq_refl (some i) = (==_iff i i).1 refl

is_key-true :
    (node : Text) (item : Option ℕ) (r : Checkpoint)
    → is_key node item r ≡ true
    → (r.node_name ≡ node) × (r.item_index ≡ item)
is_key-true node item r h =
    let (n, i) = and_true (text_eq r.node_name node) (item_eq r.item_index item) h in
    (text_eq-true r.node_name node n, item_eq-true r.item_index item i)

pub is_key_self : (r : Checkpoint) → is_key r.node_name r.item_index r ≡ true
is_key_self r = rw (text_eq_refl r.node_name) (item_eq_refl r.item_index)

is_key_same :
    (node : Text) (item : Option ℕ) (r q : Checkpoint)
    → is_key r.node_name r.item_index q ≡ true
    → is_key node item q ≡ is_key node item r
is_key_same node item r q h =
    let (n, i) = is_key-true r.node_name r.item_index q h in
    ap (λ (k : Text × Option ℕ). text_eq k.0 node && item_eq k.1 item) (λ t. (n t, i t))

is_key_both :
    (node : Text) (item : Option ℕ) (r q : Checkpoint)
    → is_key node item q ≡ true
    → is_key node item r ≡ true
    → is_key r.node_name r.item_index q ≡ true
is_key_both node item r q h k =
    let (rn, ri) = is_key-true node item r k in
    subst (λ (key : Text × Option ℕ). is_key key.0 key.1 q ≡ true) (λ t. (sym rn t, sym ri t)) h

-- The row that is written is the one that its key finds, and every other key finds what it found.
pub find_row-upsert :
    (node : Text) (item : Option ℕ) (r : Checkpoint) (rows : List Checkpoint)
    → find_row node item (upsert r rows)
      ≡ (if is_key node item r then some r else find_row node item rows)
unfolding find_row upsert
find_row-upsert node item r [] = refl
find_row-upsert node item r (q ∷ rows) = elim (Bool-cases (is_key r.node_name r.item_index q)) [
  | inl same ↦
      rw same (ground (arith, find_row-upsert node item r rows, is_key_same node item r q same))
  | inr other ↦
      rw other (ground (arith, find_row-upsert node item r rows, is_key_both node item r q))
]
