-- ===== src/SeedTree/Leaves.antt =====
-- What `__setitem__` of sage-ref/seedtree.py does to the values of the leaves.
use iis_meds.Prelude.{
  ℕ, suc, ◌-◌, ◌^◌, ◌≤◌, ◌<◌, ◌==◌, ok, ◌>>=◌, if◌then◌else◌, ◌≡◌, refl, ap, ◌∙◌, arith,
}
use iis_meds.Prelude.Bits.{half-pow}
use native.Mathlib.Decide.{dec_lt}
use iis_meds.SeedTree.{
  Value, absent, Node, leaf, inner, get_item, set_item, SeedTree, item, set_leaf,
}
use iis_meds.SeedTree.Items.{low_key_right, get_item-left, get_item-right, shifted_test}

module _ {n : ℕ} (v : Value) (l r : Node n) (key : ℕ) (new : Value) where
  set_item-left :
      key < 2 ^ n
      → set_item (inner v l r) key new ≡ (do l' ← set_item l key new; ok (inner absent l' r))
  unfolding set_item
  set_item-left h = ground (arith, half-pow n)

  set_item-right :
      2 ^ n ≤ key
      → key < 2 ^ suc n
      → set_item (inner v l r) key new
        ≡ (do r' ← set_item r (key - 2 ^ n) new; ok (inner absent l r'))
  unfolding set_item
  set_item-right lo hi = ground (arith, low_key_right n key lo hi)

-- After `__setitem__` the key has the new value, and the other keys in range have those that they had.
get_item-set_item :
    {n : ℕ} (t : Node n) (key : ℕ) (new : Value)
    → key < 2 ^ n
    → (t' : Node n) × (set_item t key new ≡ ok t')
      × ((other : ℕ)
          → other < 2 ^ n
          → get_item t' other ≡ (if key == other then ok new else get_item t other))
get_item-set_item (leaf v) key new h =
    (leaf new, unfold set_item in ground arith, λ other k. unfold get_item in ground arith)
get_item-set_item (inner {n = n} v l r) key new h = elim (dec_lt key (2 ^ n)) [
  | yes low ↦
      let (l', run, later) = get_item-set_item l key new low in
      (
        inner absent l' r,
        set_item-left v l r key new low ∙ rw run refl,
        λ other k. elim (dec_lt other (2 ^ n)) [
          | yes low' ↦
              rw (get_item-left absent l' r other low', get_item-left v l r other low')
                (later other low')
          | no high' ↦
              rw
                (
                  get_item-right absent l' r other (omega arith) k,
                  get_item-right v l r other (omega arith) k,
                )
                (ground arith)
        ],
      )
  | no high ↦
      let (r', run, later) = get_item-set_item r (key - 2 ^ n) new (omega (arith, half-pow n)) in
      (
        inner absent l r',
        set_item-right v l r key new (omega arith) h ∙ rw run refl,
        λ other k. elim (dec_lt other (2 ^ n)) [
          | yes low' ↦
              rw (get_item-left absent l r' other low', get_item-left v l r other low')
                (ground arith)
          | no high' ↦
              rw
                (
                  get_item-right absent l r' other (omega arith) k,
                  get_item-right v l r other (omega arith) k,
                )
                (later (other - 2 ^ n) (omega (arith, half-pow n))
                  ∙ ap (λ same. if same then ok new else get_item r (other - 2 ^ n))
                      (shifted_test (2 ^ n) key other (omega arith) (omega arith)))
        ],
      )
]

-- The same of the tree
pub item-set_leaf :
    (t : SeedTree) (key : ℕ) (new : Value)
    → key < 2 ^ t.height
    → (t' : SeedTree) × (set_leaf t key new ≡ ok t')
      × (t'.height ≡ t.height)
      × ((other : ℕ)
          → other < 2 ^ t.height
          → item t' other ≡ (if key == other then ok new else item t other))
unfolding set_leaf item
item-set_leaf t key new h =
    let (root, run, later) = get_item-set_item t.root key new h in
    (record { height = t.height; leafs = t.leafs; root = root }, rw run refl, refl, later)
