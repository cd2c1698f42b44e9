-- ===== src/Util/SeedPath.antt =====
-- `SeedTreeToPath` and `PathToSeedTree` of sage-ref/util.py.
pub mod Marks
pub mod RoundTrip
pub mod Size
use iis_meds.Prelude.{
  ℕ, zero, suc, ◌+◌, ◌-◌, ◌*◌, ◌/◌, ◌%◌, ◌^◌, ◌<◌, List, [], ◌∷◌, ◌++◌, take, drop, length,
  replicate, ltb, if◌then◌else◌, ◌≡◌, refl, arith, Result, ok, raised, type_error, ◌>>=◌,
}
use iis_meds.Shake.{Shake}
use iis_meds.Params.{Param, seed_tree_cost}
use iis_meds.Util.Hashing.{hash_pair}
use iis_meds.SeedTree.{
  Value, absent, object, seed, copy, SeedTree, make, delete_leaf, seeds_path, patch_tree,
}

-- `for i, h_i in enumerate(h): if h_i > 0: seeds.delete(i)`
unfoldable pub delete_marked : ℕ → List ℕ → SeedTree → SeedTree
delete_marked i [] t = t
delete_marked i (x ∷ h) t = delete_marked (i + 1) h (if ltb 0 x then delete_leaf t i else t)

-- `b"".join(values)`
unfoldable pub join : List Value → Result (List ℕ)
join [] = ok []
join (seed bytes ∷ vs) = do rest ← join vs; ok (bytes ++ rest)
join (v ∷ vs) = raised type_error

unfoldable pub seed_tree_to_path : Shake → List ℕ → List ℕ → List ℕ → Param → Result (List ℕ)
unfolding delete_marked join
seed_tree_to_path sh h root salt p = do
  let seeds = delete_marked 0 h (make p.t (seed root) (hash_pair sh p salt))
  ret ← join (seeds_path seeds)
  ok (ret ++ replicate (seed_tree_cost p - length ret) 0)

-- The loop that cuts `count` seeds off the path
unfoldable pub parse_path : ℕ → ℕ → List ℕ → List Value
parse_path n zero path = []
parse_path n (suc count) path = seed (take n path) ∷ parse_path n count (drop n path)

unfoldable pub path_to_seed_tree : Shake → List ℕ → List ℕ → List ℕ → Param → SeedTree
unfolding delete_marked parse_path
path_to_seed_tree sh h path salt p =
    let seeds = delete_marked 0 h (make p.t object copy) in
    let parsed = parse_path p.st_seed_bytes (length (seeds_path seeds)) path in
    patch_tree seeds parsed (hash_pair sh p salt)
