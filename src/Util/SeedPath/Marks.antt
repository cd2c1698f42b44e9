-- ===== src/Util/SeedPath/Marks.antt =====
-- The loop of `SeedTreeToPath` and `PathToSeedTree` that deletes the marked leaves.
use iis_meds.Prelude.{
  ℕ, zero, suc, ◌+◌, ◌^◌, ◌≤◌, ◌<◌, List, [], ◌∷◌, length, get_or, ltb, ◌==◌, if◌then◌else◌, Bool,
  true, false, ◌≡◌, refl, ◌∙◌, arith, ok, Bool-cases, inl, inr,
}
use iis_meds.SeedTree.{Value, absent, Derive, truthy, Node, SeedTree, get_item, delete, delete_leaf}
use iis_meds.SeedTree.Items.{get_item-delete}
use iis_meds.SeedTree.Mirror.{Mirror, Mirror-delete}
use iis_meds.Util.SeedPath.{delete_marked}

abbrev pub tree : (n : ℕ) → ℕ → Node n → SeedTree
tree n leafs a = record { height = n; leafs = leafs; root = a }

-- The loop on the root.
unfoldable pub delete_all : {n : ℕ} → ℕ → List ℕ → Node n → Node n
delete_all i [] a = a
delete_all i (x ∷ h) a = delete_all (i + 1) h (if ltb 0 x then delete a i else a)

pub delete_marked-tree :
    {n : ℕ} (i leafs : ℕ) (h : List ℕ) (a : Node n)
    → delete_marked i h (tree n leafs a) ≡ tree n leafs (delete_all i h a)
unfolding delete_marked delete_all delete_leaf
delete_marked-tree i leafs [] a = refl
delete_marked-tree i leafs (x ∷ h) a = elim (Bool-cases (ltb 0 x)) [
  | inl e ↦ rw e (delete_marked-tree (i + 1) leafs h (delete a i))
  | inr e ↦ rw e (delete_marked-tree (i + 1) leafs h a)
]

-- Whether the loop that is at `i`, with the entries `h` before it, deletes leaf `j`.
abbrev pub marked : ℕ → List ℕ → ℕ → Bool
marked i [] j = false
marked i (x ∷ h) j = if i == j then ltb 0 x else marked (i + 1) h j

marked-below : (i : ℕ) (h : List ℕ) (j : ℕ) → j < i → marked i h j ≡ false
marked-below i [] j lt = refl
marked-below i (x ∷ h) j lt = ground (arith, marked-below (i + 1) h j)

pub marked-get_or : (i : ℕ) (h : List ℕ) (d : ℕ) → marked i h (i + d) ≡ ltb 0 (get_or h d 0)
marked-get_or i [] d = refl
marked-get_or i (x ∷ h) zero = ground arith
marked-get_or i (x ∷ h) (suc d) =
    let e : i + suc d ≡ i + 1 + d = omega arith in rw e (ground (arith, marked-get_or (i + 1) h d))

-- The marked leaves have no value, and the others have the values that they had.
pub get_item-delete_all :
    {n : ℕ} (i : ℕ) (h : List ℕ) (a : Node n) (j : ℕ)
    → i + length h ≤ 2 ^ n
    → j < 2 ^ n
    → get_item (delete_all i h a) j ≡ (if marked i h j then ok absent else get_item a j)
unfolding delete_all
get_item-delete_all i [] a j fits lt = refl
get_item-delete_all i (x ∷ h) a j fits lt = elim (Bool-cases (ltb 0 x)) [
  | inl e ↦ rw e (
      get_item-delete_all (i + 1) h (delete a i) j (omega arith) lt
      ∙ rw (get_item-delete a i j (omega arith) lt) (ground (arith, marked-below (i + 1) h j)))
  | inr e ↦ rw e (
      get_item-delete_all (i + 1) h a j (omega arith) lt ∙ ground (arith, marked-below (i + 1) h j))
]

module _ (f : Derive) (P : Value → Type 0) (live : (v : Value) → P v → truthy v ≡ true)
    (grow : (v : Value) (addr : ℕ) → P v → P (f v addr).0 × P (f v addr).1) where
  pub Mirror-delete_all :
      {n : ℕ} (i : ℕ) (h : List ℕ) (a b : Node n)
      → i + length h ≤ 2 ^ n
      → Mirror f P n 0 0 a b
      → Mirror f P n 0 0 (delete_all i h a) (delete_all i h b)
  unfolding delete_all
  Mirror-delete_all i [] a b fits m = m
  Mirror-delete_all i (x ∷ h) a b fits m = elim (Bool-cases (ltb 0 x)) [
    | inl e ↦ rw e (
        Mirror-delete_all (i + 1) h (delete a i) (delete b i) (omega arith)
          (Mirror-delete f P live grow i (omega arith) m))
    | inr e ↦ rw e (Mirror-delete_all (i + 1) h a b (omega arith) m)
  ]
