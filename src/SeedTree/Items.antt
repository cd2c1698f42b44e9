-- ===== src/SeedTree/Items.antt =====
-- What the methods of `Node` do at one node, and how `get_item` sees the others.
use iis_meds.Prelude.{ℕ, suc, ◌-◌, ◌^◌, ◌≤◌, ◌<◌, ◌≡◌, ap, ◌∙◌, arith, ok, if◌then◌else◌, ◌==◌}
use iis_meds.Prelude.Bits.{bit_and-mask, half-pow}
use native.Mathlib.Nat.{mod-eq-sub-mod, mod-eq_of_lt}
use native.Mathlib.Decide.{dec_lt}
use iis_meds.SeedTree.{Value, absent, Node, leaf, inner, low_key, get_item, delete}

-- In the right half, the key that the child is given.
pub low_key_right : (n key : ℕ) → 2 ^ n ≤ key → key < 2 ^ suc n → low_key n key ≡ key - 2 ^ n
low_key_right n key lo hi = omega (
  arith,
  bit_and-mask n key,
  half-pow n,
  mod-eq-sub-mod {n = key} {m = 2 ^ n} lo,
  mod-eq_of_lt {n = key - 2 ^ n} {m = 2 ^ n} (omega (arith, half-pow n)),
)

module _ {n : ℕ} (v : Value) (l r : Node n) (key : ℕ) where
  pub get_item-left : key < 2 ^ n → get_item (inner v l r) key ≡ get_item l key
  unfolding get_item
  get_item-left h = ground (arith, half-pow n)

  pub get_item-right :
      2 ^ n ≤ key → key < 2 ^ suc n → get_item (inner v l r) key ≡ get_item r (key - 2 ^ n)
  unfolding get_item
  get_item-right lo hi = ground (arith, low_key_right n key lo hi)

  pub delete-left : key < 2 ^ n → delete (inner v l r) key ≡ inner absent (delete l key) r
  unfolding delete
  delete-left h = ground arith

  pub delete-right :
      2 ^ n ≤ key
      → key < 2 ^ suc n
      → delete (inner v l r) key ≡ inner absent l (delete r (key - 2 ^ n))
  unfolding delete
  delete-right lo hi = ground (arith, low_key_right n key lo hi)

pub shifted_test : (p a b : ℕ) → p ≤ a → p ≤ b → ((a - p) == (b - p)) ≡ (a == b)
shifted_test p a b h k = ground arith

-- A key in range names a leaf.
pub get_item_total :
    {n : ℕ} (t : Node n) (key : ℕ) → key < 2 ^ n → (v : Value) × (get_item t key ≡ ok v)
get_item_total (leaf v) key h = (v, unfold get_item in ground arith)
get_item_total (inner {n = n} v l r) key h = elim (dec_lt key (2 ^ n)) [
  | yes low ↦ rw (get_item-left v l r key low) (get_item_total l key low)
  | no high ↦
      rw (get_item-right v l r key (omega arith) h)
        (get_item_total r (key - 2 ^ n) (omega (arith, half-pow n)))
]

-- After `delete` the key has no value, and the other keys in range have the values that they had.
pub get_item-delete :
    {n : ℕ} (t : Node n) (key other : ℕ)
    → key < 2 ^ n
    → other < 2 ^ n
    → get_item (delete t key) other ≡ (if key == other then ok absent else get_item t other)
get_item-delete (leaf v) key other h k = unfold get_item delete in ground arith
get_item-delete (inner {n = n} v l r) key other h k = elim (dec_lt key (2 ^ n)) [
  | yes low ↦ rw (delete-left v l r key low) (elim (dec_lt other (2 ^ n)) [
    | yes low' ↦
        rw (get_item-left absent (delete l key) r other low', get_item-left v l r other low')
          (get_item-delete l key other low low')
    | no high' ↦
        rw
          (
            get_item-right absent (delete l key) r other (omega arith) k,
            get_item-right v l r other (omega arith) k,
          )
          (ground arith)
  ])
  | no high ↦ rw (delete-right v l r key (omega arith) h) (elim (dec_lt other (2 ^ n)) [
    | yes low' ↦
        rw
          (
            get_item-left absent l (delete r (key - 2 ^ n)) other low',
            get_item-left v l r other low',
          )
          (ground arith)
    | no high' ↦
        rw
          (
            get_item-right absent l (delete r (key - 2 ^ n)) other (omega arith) k,
            get_item-right v l r other (omega arith) k,
          )
          (get_item-delete r (key - 2 ^ n) (other - 2 ^ n) (omega (arith, half-pow n))
              (omega (arith, half-pow n))
            ∙ ap (λ same. if same then ok absent else get_item r (other - 2 ^ n))
                (shifted_test (2 ^ n) key other (omega arith) (omega arith)))
  ])
]
