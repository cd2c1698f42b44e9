-- ===== src/Tests/Seeds.antt =====
-- The seed tree of sage-ref/seedtree.py and its use in sage-ref/util.py.
use iis_meds.Prelude.{
  ℕ, ◌+◌, ◌*◌, ◌%◌, ◌^◌, ◌≤◌, ◌<◌, List, [], ◌∷◌, length, replicate, get_or, ltb, ◌==◌, ◌-◌,
  if◌then◌else◌, ◌≡◌, refl, arith, ok,
}
use iis_meds.Logarithm.{ceil_log2, ceil_log2-bounds}
use iis_meds.Shake.{Shake}
use iis_meds.Params.{Param, seed_tree_cost}
use iis_meds.Util.Hashing.{hash_pair}
use iis_meds.SeedTree.{absent, seed, make, item, get_item, delete, build, copy}
use iis_meds.SeedTree.Items.{get_item-delete}
use iis_meds.Util.SeedPath.{seed_tree_to_path, path_to_seed_tree}
use iis_meds.Util.SeedPath.RoundTrip.{path_to_seed_tree-seed_tree_to_path}
use iis_meds.Util.SeedPath.Size.{length-seed_tree_to_path}

byte_sum : List ℕ → ℕ
byte_sum [] = 0
byte_sum (b ∷ bs) = b + byte_sum bs

byte_sum-lt : (message : List ℕ) (i : ℕ) → (byte_sum message + i * 7) % 256 < 256
byte_sum-lt message i = omega arith

-- A stream of bytes that can be computed by hand, in the place of SHAKE256.
abbrev sum_shake : Shake
sum_shake = record {
  output = λ message i. (byte_sum message + i * 7) % 256;
  output-lt = byte_sum-lt;
}

-- The parameter set `toy`.
abbrev toy : Param
toy = record {
  digest_bytes = 16;
  pub_seed_bytes = 32;
  sec_seed_bytes = 32;
  st_seed_bytes = 16;
  st_salt_bytes = 32;
  q = 8191;
  n = 10;
  m = 10;
  s = 4;
  t = 16;
  w = 6;
  k = 10;
}

abbrev marks : List ℕ
marks = 0 ∷ 1 ∷ 0 ∷ 0 ∷ 3 ∷ 2 ∷ 0 ∷ 0 ∷ 0 ∷ 0 ∷ 0 ∷ 0 ∷ 1 ∷ 1 ∷ 0 ∷ 2 ∷ []

abbrev root : List ℕ
root = replicate 16 9

abbrev salt : List ℕ
salt = replicate 32 5

path_to_seed_tree-seed_tree_to_path_example :
    (bytes : List ℕ) × (seed_tree_to_path sum_shake marks root salt toy ≡ ok bytes)
    × ((i : ℕ)
        → i < 16
        → item (path_to_seed_tree sum_shake marks bytes salt toy) i ≡ (
            if ltb 0 (get_or marks i 0)
            then ok absent
            else item (make 16 (seed root) (hash_pair sum_shake toy salt)) i))
path_to_seed_tree-seed_tree_to_path_example =
    path_to_seed_tree-seed_tree_to_path sum_shake toy marks root salt (omega arith) refl refl

length-seed_tree_to_path_example :
    (bytes : List ℕ) × (seed_tree_to_path sum_shake marks root salt toy ≡ ok bytes)
    × (length bytes ≡ seed_tree_cost toy)
length-seed_tree_to_path_example =
    length-seed_tree_to_path sum_shake toy marks root salt (omega arith) refl refl refl
      (omega arith)

get_item-delete_example :
    get_item (delete (build 2 (seed root) copy 0 0) 1) 3
    ≡ (if 1 == 3 then ok absent else get_item (build 2 (seed root) copy 0 0) 3)
get_item-delete_example =
    get_item-delete (build 2 (seed root) copy 0 0) 1 3 (omega arith) (omega arith)

ceil_log2-bounds_example : (1152 ≤ 2 ^ ceil_log2 1152) × (2 ^ (ceil_log2 1152 - 1) < 1152)
ceil_log2-bounds_example = ceil_log2-bounds 1152 (omega arith)
