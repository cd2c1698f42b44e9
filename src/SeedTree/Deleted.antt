-- ===== src/SeedTree/Deleted.antt =====
-- How many leaves of a tree have no value.
use iis_meds.Prelude.{ℕ, ◌+◌, ◌-◌, ◌^◌, ◌<◌, true, ◌≡◌, sym, ◌∙◌, arith, ok, if◌then◌else◌}
use iis_meds.Prelude.Bits.{half-pow}
use native.Mathlib.Decide.{dec_lt}
use iis_meds.SeedTree.{Value, truthy, Node, leaf, inner, get_item, delete}
use iis_meds.SeedTree.Items.{get_item-left, get_item-right, delete-left, delete-right}

unfoldable pub deleted : {n : ℕ} → Node n → ℕ
deleted (leaf v) = if truthy v then 0 else 1
deleted (inner v l r) = deleted l + deleted r

-- Deleting a leaf that has a value counts for one.
pub deleted-delete :
    {n : ℕ} (a : Node n) (key : ℕ) {v : Value}
    → key < 2 ^ n
    → get_item a key ≡ ok v
    → truthy v ≡ true
    → deleted (delete a key) ≡ deleted a + 1
unfolding deleted
deleted-delete (leaf x) key lt e live = unfold delete get_item in ground arith
deleted-delete (inner {n = n} x l r) key lt e live = elim (dec_lt key (2 ^ n)) [
  | yes low ↦
      let ih : deleted (delete l key) ≡ deleted l + 1 =
        deleted-delete l key low (sym (get_item-left x l r key low) ∙ e) live in
      rw (delete-left x l r key low) (omega (arith, ih))
  | no high ↦
      let ih : deleted (delete r (key - 2 ^ n)) ≡ deleted r + 1 =
        deleted-delete r (key - 2 ^ n) (omega (arith, half-pow n))
          (sym (get_item-right x l r key (omega arith) lt) ∙ e) live in
      rw (delete-right x l r key (omega arith) lt) (omega (arith, ih))
]

pub deleted_pos : {n : ℕ} (a : Node n) (key : ℕ) → key < 2 ^ n → 0 < deleted (delete a key)
unfolding deleted
deleted_pos (leaf x) key lt = unfold delete in omega arith
deleted_pos (inner {n = n} x l r) key lt = elim (dec_lt key (2 ^ n)) [
  | yes low ↦ rw (delete-left x l r key low) (omega (arith, deleted_pos l key low))
  | no high ↦
      rw (delete-right x l r key (omega arith) lt)
        (omega (arith, deleted_pos r (key - 2 ^ n) (omega (arith, half-pow n))))
]
