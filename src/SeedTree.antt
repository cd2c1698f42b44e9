-- ===== src/SeedTree.antt =====
-- The classes `Node` and `SeedTree` of sage-ref/seedtree.py.
pub mod Items
pub mod Leaves
pub mod Deleted
pub mod Mirror
pub mod Patch
pub mod Count
use iis_meds.Prelude.{
  ℕ, zero, suc, ◌+◌, ◌-◌, ◌*◌, ◌/◌, ◌^◌, bit_and, ltb, leb, if◌then◌else◌, List, [], ◌∷◌, ◌++◌,
  Bool, true, false,
}
use iis_meds.Logarithm.{ceil_log2}
use iis_meds.Prelude.{Result, ok, raised, assertion_error, ◌>>=◌}

-- What the attribute `value` of a node holds: None, the class `object` (the default argument), or a
-- seed.
pub data Value : Type 0 where
  absent object : Value
  seed : List ℕ → Value

-- `bool(value)`: an empty seed is false too.
abbrev pub truthy : Value → Bool
truthy absent = false
truthy object = true
truthy (seed []) = false
truthy (seed (b ∷ bs)) = true

-- The function that derives the values of two children from a value and an address.
abbrev pub Derive : Type 0
Derive = Value → ℕ → Value × Value

-- The attribute `height` is the index: a node of height 0 has no children.
pub data Node : ℕ → Type 0 where
  leaf : Value → Node zero
  inner : {n : ℕ} → Value → Node n → Node n → Node (suc n)

abbrev pub value : {n : ℕ} → Node n → Value
value (leaf v) = v
value (inner v l r) = v

-- `lambda a, b : (a, a)`
abbrev pub copy : Derive
copy v addr = (v, v)

-- `Node(height, value, f, h, i)`
unfoldable pub build : (n : ℕ) → Value → Derive → ℕ → ℕ → Node n
build zero v f h i = leaf v
build (suc n) v f h i =
    let (lv, rv) = f v (2 ^ h + i - 1) in
    inner v (build n lv f (h + 1) (i * 2)) (build n rv f (h + 1) (i * 2 + 1))

-- `update` gives the node a value and new children.
unfoldable pub update : {n : ℕ} → Node n → Value → Derive → ℕ → ℕ → Node n
unfolding build
update {n} t v f h i = build n v f h i

-- `key & ((1 << (self.height - 1)) - 1)`
abbrev pub low_key : ℕ → ℕ → ℕ
low_key n key = bit_and key (2 ^ n - 1)

-- `__getitem__`
unfoldable pub get_item : {n : ℕ} → Node n → ℕ → Result Value
get_item (leaf v) key = if ltb key (2 ^ 0) then ok v else raised assertion_error
get_item (inner {n = n} v l r) key =
    let on_left = get_item l key in
    let on_right = get_item r (low_key n key) in
    if ltb key (2 ^ suc n)
    then (if ltb key (2 ^ n) then on_left else on_right)
    else raised assertion_error

-- `__setitem__`
unfoldable pub set_item : {n : ℕ} → Node n → ℕ → Value → Result (Node n)
set_item (leaf v) key new = if ltb key (2 ^ 0) then ok (leaf new) else raised assertion_error
set_item (inner {n = n} v l r) key new =
    let on_left = (do l' ← set_item l key new; ok (inner absent l' r)) in
    let on_right = (do r' ← set_item r (low_key n key) new; ok (inner absent l r')) in
    if ltb key (2 ^ suc n)
    then (if ltb key (2 ^ n) then on_left else on_right)
    else raised assertion_error

-- `delete`, which always returns True
unfoldable pub delete : {n : ℕ} → Node n → ℕ → Node n
delete (leaf v) key = leaf absent
delete (inner {n = n} v l r) key =
    let on_left = inner absent (delete l key) r in
    let on_right = inner absent l (delete r (low_key n key)) in
    if ltb key (2 ^ n) then on_left else on_right

-- `path`. Its argument `level` is never read. The quotient in `offset < leafs / (1 << lshift)` is
-- exact, so the test is `offset * 2 ** lshift < leafs`.
unfoldable pub path : {n : ℕ} → Node n → ℕ → ℕ → ℕ → List Value
path (leaf v) leafs lshift offset =
    if truthy v then (if ltb (offset * 2 ^ lshift) leafs then v ∷ [] else []) else []
path (inner v l r) leafs lshift offset =
    let below =
      path l leafs (lshift - 1) (offset * 2) ++ path r leafs (lshift - 1) (offset * 2 + 1) in
    if truthy v then (if ltb (offset * 2 ^ lshift) leafs then v ∷ [] else []) else below

-- `self.update(path[0], …)`, and `pass` on the IndexError of an empty path
unfoldable pub patch_here : {n : ℕ} → Node n → List Value → Derive → ℕ → ℕ → Node n × List Value
unfolding update
patch_here t [] f h i = (t, [])
patch_here t (v ∷ vs) f h i = (update t v f h i, vs)

-- `patch` changes the node, and returns what is left of the path.
unfoldable pub patch : {n : ℕ} → Node n → List Value → Derive → ℕ → ℕ → Node n × List Value
unfolding patch_here
patch (leaf v) vs f h i = if truthy v then patch_here (leaf v) vs f h i else (leaf v, vs)
patch (inner {n = n} v l r) vs f h i =
    let below : Node (suc n) × List Value =
      (let (l', ws) = patch l vs f (h + 1) (i * 2) in
        let (r', us) = patch r ws f (h + 1) (i * 2 + 1) in (inner v l' r', us)) in
    if truthy v then patch_here (inner v l r) vs f h i else below

-- `SeedTree`: the root has the height that `leafs` asks for.
pub record SeedTree : Type 0 where
  pub height : ℕ
  pub leafs : ℕ
  pub root : Node height

unfoldable pub make : ℕ → Value → Derive → SeedTree
make leafs v f =
    let n = ceil_log2 leafs in record { height = n; leafs = leafs; root = build n v f 0 0 }

-- The methods of `SeedTree` pass the call on to the root.
unfoldable pub item : SeedTree → ℕ → Result Value
item t key = get_item t.root key

unfoldable pub set_leaf : SeedTree → ℕ → Value → Result SeedTree
set_leaf t key new = do
  root ← set_item t.root key new
  ok (record { height = t.height; leafs = t.leafs; root = root })

unfoldable pub delete_leaf : SeedTree → ℕ → SeedTree
delete_leaf t key = record { height = t.height; leafs = t.leafs; root = delete t.root key }

unfoldable pub seeds_path : SeedTree → List Value
seeds_path t = path t.root t.leafs t.height 0

unfoldable pub patch_tree : SeedTree → List Value → Derive → SeedTree
patch_tree t vs f = record { height = t.height; leafs = t.leafs; root = (patch t.root vs f 0 0).0 }
