-- ===== src/Tests/Scheme.antt =====
-- Signing and verification of sage-ref/meds.py with toy parameters: a stream of ones, and matrices
-- where a product with a square matrix changes nothing.
use iis_meds.Prelude.{
  ℕ, ◌+◌, ◌*◌, ◌-◌, take, true, eq-true, ◌==◌, if◌then◌else◌, List, [], ◌∷◌, ◌≡◌, refl, arith, ok,
}
use iis_meds.Meds.Sizes.{pk_size-public_bytes}
use iis_meds.Meds.Responses.{KeepSquares}
use iis_meds.Meds.Layout.{IsSigned, crypto_sign-IsSigned}
use iis_meds.Params.{pk_size, Param}
use iis_meds.Shake.{Shake}
use iis_meds.Sage.{Matrices}
use iis_meds.Meds.Accept.{Accepted, crypto_sign_open-Accepted}
use iis_meds.Tests.Matrices.{gf251, Grid, grid, fill-full, grid-held, long}
use iis_meds.Util.Sampling.{
  expand_fqs, draw, augmented, columns_from, diagonal_sum, expand_inv_mat, flatten, invertible_from,
  pi, rows_of, sf, expand_syst_mat,
}
use iis_meds.Util.Challenge.{masked, read_number, parse_hash, pick, scatter}
use iis_meds.Logarithm.{ceil_log2, log_steps}
use iis_meds.BitStream.{
  read_all, read, of_data, append, empty, or_last, read_bytes, read_long, write, write_all,
  write_bytes, write_long,
}
use iis_meds.Util.Hashing.{xof, digest, hash_pair, pieces}
use iis_meds.Meds.{
  move_public, commit, commitment, seed_bytes, three, parse_square, two, commit_all, third,
  responses, answer, crypto_sign, parse_public, public_bytes, check_response, check_round,
  check_rounds, response_bytes, split_signature, verdict, crypto_sign_open,
}
use iis_meds.SeedTree.{
  item, get_item, build, delete, delete_leaf, make, path, seeds_path, set_item, set_leaf, patch,
  patch_here, patch_tree, update,
}
use iis_meds.Params.{seed_max_tree_len, seed_tree_cost}
use iis_meds.Sage.{entry}
use iis_meds.Shake.{read_from}
use iis_meds.Util.Compress.{
  compress, decompress, decompress_g, set_all, one_positions, written_positions, read_positions,
  identity_rows,
}
use iis_meds.Util.SeedPath.{delete_marked, join, seed_tree_to_path, parse_path, path_to_seed_tree}

abbrev pub ones : Shake
ones = record { output = λ message i. 1; output-lt = λ message i. omega arith }

abbrev pub tiny : Param
tiny = record {
  digest_bytes = 2;
  pub_seed_bytes = 1;
  sec_seed_bytes = 1;
  st_seed_bytes = 1;
  st_salt_bytes = 1;
  q = 251;
  n = 3;
  m = 1;
  s = 2;
  t = 2;
  w = 1;
  k = 2;
}

abbrev pub moving : Matrices gf251
moving = record {
  Mat = Grid;
  matrix = grid;
  nrows = λ a. a.rows;
  ncols = λ a. a.cols;
  entries = λ a. a.held.0;
  mul = λ a b. if a.rows == a.cols then b else a;
  inverse = λ a. a;
  is_invertible = λ a. true;
  echelon_form = λ a. a;
  length-entries = λ a. a.held.1;
  matrix-entries = grid-held;
  entries-matrix = λ r c xs h. fill-full (r * c) xs h;
  nrows-matrix = λ r c xs h. refl;
  ncols-matrix = λ r c xs h. refl;
}

abbrev pub secret : List ℕ
secret = 5 ∷ 6 ∷ 9 ∷ 1 ∷ 2 ∷ 3 ∷ 4 ∷ 5 ∷ 6 ∷ 7 ∷ 8 ∷ 9 ∷ []

abbrev pub public_key : List ℕ
public_key = 6 ∷ 0 ∷ 1 ∷ 1 ∷ []

abbrev pub signature : List ℕ
signature = 9 ∷ 1 ∷ 1 ∷ 1 ∷ 1 ∷ 1 ∷ 1 ∷ 1 ∷ 1 ∷ 1 ∷ 1 ∷ 1 ∷ 1 ∷ 1 ∷ 10 ∷ 20 ∷ []

pub sign_gives : crypto_sign moving ones tiny 20 (77 ∷ []) secret (10 ∷ 20 ∷ []) ≡ ok signature
unfolding expand_fqs draw masked read_number ceil_log2 read_all read of_data xof commit item
    get_item append empty or_last read_bytes read_long write write_all write_bytes write_long
    log_steps commitment seed_bytes three seed_max_tree_len seed_tree_cost entry build delete
    delete_leaf make path seeds_path set_item set_leaf read_from parse_hash pick scatter compress
    decompress digest hash_pair pieces augmented columns_from diagonal_sum expand_inv_mat flatten
    invertible_from pi rows_of sf delete_marked expand_syst_mat parse_square two commit_all third
    responses answer join seed_tree_to_path crypto_sign
sign_gives = refl

open_accepts : crypto_sign_open moving ones tiny 20 public_key signature ≡ ok (10 ∷ 20 ∷ [])
unfolding expand_fqs draw masked read_number ceil_log2 read_all read of_data xof commit item
    get_item append empty or_last read_bytes read_long write write_all write_bytes write_long
    log_steps commitment seed_bytes three seed_max_tree_len seed_tree_cost entry build delete
    delete_leaf make path seeds_path set_item set_leaf read_from parse_hash pick scatter compress
    decompress digest hash_pair pieces augmented columns_from diagonal_sum expand_inv_mat flatten
    invertible_from pi rows_of sf delete_marked expand_syst_mat parse_public decompress_g set_all
    one_positions written_positions read_positions public_bytes check_response check_round
    check_rounds response_bytes split_signature verdict patch patch_here patch_tree update
    identity_rows parse_path path_to_seed_tree crypto_sign_open move_public
open_accepts = refl

crypto_sign_open-Accepted_example :
    (g0 : Grid) × (more : List Grid) × (expand_syst_mat moving ones 20 (take 1 public_key) 2 1 3
      ≡ ok g0)
    × (parse_public moving ones tiny 20 (2 - 1) 1 public_key ≡ ok more)
    × Accepted moving ones tiny 20 g0 more signature (10 ∷ 20 ∷ [])
crypto_sign_open-Accepted_example =
    crypto_sign_open-Accepted moving ones tiny 20 public_key signature open_accepts

-- The parameter set `toy`
abbrev toy : Param
toy = record {
  digest_bytes = 16;
  pub_seed_bytes = 32;
  sec_seed_bytes = 32;
  st_seed_bytes = 16;
  st_salt_bytes = 32;
  q = 8191;
  n = 10;
  m = 10;
  s = 4;
  t = 16;
  w = 6;
  k = 10;
}

pk_size-public_bytes_example : pk_size toy ≡ 32 + (4 - 1) * public_bytes toy
pk_size-public_bytes_example =
    pk_size-public_bytes toy (omega arith) (omega arith) (omega arith) (omega arith)

pub KeepSquares-moving : KeepSquares moving ones tiny 20
KeepSquares-moving n a b left right = rw (left.0, left.1, eq-true n n refl) right

crypto_sign-IsSigned_example :
    IsSigned moving ones tiny 20 (77 ∷ []) secret signature (10 ∷ 20 ∷ [])
crypto_sign-IsSigned_example =
    crypto_sign-IsSigned moving ones tiny 20 (77 ∷ []) secret (10 ∷ 20 ∷ []) refl long
      (omega arith, omega arith) (omega arith, omega arith) KeepSquares-moving sign_gives
