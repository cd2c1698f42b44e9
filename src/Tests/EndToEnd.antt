-- ===== src/Tests/EndToEnd.antt =====
-- A key pair is made, a message signed with it, and verified.
use iis_meds.Prelude.{
  ℕ, ◌-◌, ◌<◌, List, [], ◌∷◌, ◌≡◌, refl, ap, sym, ◌∙◌, subst, arith, ok, some, ok-injective, length,
  map, ◌==◌, if◌then◌else◌, ltb, ap₂,
}
use iis_meds.Logarithm.{ceil_log2, log_steps}
use iis_meds.BitStream.{
  read_all, read, of_data, read_bytes, read_long, append, empty, or_last, write, write_all,
  write_bytes, write_long,
}
use iis_meds.Shake.{Shake, read_from}
use iis_meds.Util.Challenge.{masked, read_number, parse_hash, pick, scatter}
use iis_meds.Util.Compress.{
  decompress, decompress_g, set_all, one_positions, written_positions, read_positions,
  identity_rows, compress, compress_g, values_at,
}
use iis_meds.Sage.{entry}
use iis_meds.Util.Sampling.{
  expand_fqs, draw, augmented, expand_syst_mat, pi, sf, rows_of, flatten, diagonal_sum,
  columns_from, expand_inv_mat, invertible_from,
}
use iis_meds.Meds.{
  move_public, parse_public, parse_square, public_bytes, crypto_sign_open, answer, commit,
  commit_all, commitment, crypto_sign, responses, seed_bytes, third, three, two, check_response,
  check_round, check_rounds, response_bytes, split_signature, verdict,
}
use iis_meds.Util.Hashing.{digest, hash_pair, pieces, xof}
use iis_meds.SeedTree.{
  build, delete, delete_leaf, get_item, item, make, path, seeds_path, set_item, set_leaf, patch,
  patch_here, patch_tree, update,
}
use iis_meds.Params.{Param, pk_size, sk_size, seed_max_tree_len, seed_tree_cost}
use iis_meds.Util.SeedPath.{delete_marked, join, seed_tree_to_path, parse_path, path_to_seed_tree}
use iis_meds.Meds.KeyGen.{
  secret_key, public_key, compress_all, compress_g_all, row_matrix, accept_pair, next_key,
  next_keys, crypto_sign_keypair, Keys, no_keys, make_keys, sign, open_signed,
}
use iis_meds.Util.Solve.{
  matrix_of, cell, equation, is_zero, nonzero, equations, ones_from, last_column, all_rows,
  solution, solve_symb,
}
use iis_meds.Tests.Adding.{adding, adding-Linear}
use iis_meds.Tests.Matrices.{gf251, Grid, grid, long}
use iis_meds.Tests.Scheme.{tiny}
use iis_meds.Meds.EndToEnd.{ArePublishable, open_signed-sign, length-crypto_sign_keypair}
use iis_meds.Meds.PublicKey.{published}

abbrev pub even : Param
even = record tiny { m = 2; n = 2; k = 2 }

-- Two zeros and then ones for the seed of the first matrix, zeros for the seeds of the rounds'
-- matrices, and otherwise ones, or twos where the message has six bytes
abbrev pub byte_at : List ℕ → ℕ → ℕ
byte_at [] i = 1
byte_at (x ∷ []) i = if x == 1 then (if ltb i 2 then 0 else 1) else if x == 2 then 0 else 1
byte_at (x ∷ y ∷ xs) i = if length xs == 4 then 2 else 1

pub byte_at-lt : (xs : List ℕ) (i : ℕ) → byte_at xs i < 256
byte_at-lt [] i = omega arith
byte_at-lt (x ∷ []) i = ground arith
byte_at-lt (x ∷ y ∷ xs) i = ground arith

abbrev pub stream : Shake
stream = record { output = byte_at; output-lt = byte_at-lt }

abbrev numbers : List ℕ → List gf251.El
numbers [] = []
numbers (v ∷ vs) = gf251.of_int v ∷ numbers vs

abbrev first_matrix : Grid
first_matrix = grid 2 4 (numbers (1 ∷ 0 ∷ 0 ∷ 0 ∷ 0 ∷ 1 ∷ 1 ∷ 1 ∷ []))

abbrev key : Grid × Grid × Grid
key = (
  grid 2 2 (numbers (0 ∷ 0 ∷ 0 ∷ 250 ∷ [])),
  grid 2 2 (numbers (0 ∷ 0 ∷ 0 ∷ 0 ∷ [])),
  grid 2 4 (numbers (1 ∷ 0 ∷ 0 ∷ 1 ∷ 0 ∷ 1 ∷ 1 ∷ 2 ∷ [])),
)

abbrev pub secret : List ℕ
secret = 77 ∷ 1 ∷ 0 ∷ 0 ∷ 0 ∷ 250 ∷ 0 ∷ 0 ∷ 0 ∷ 0 ∷ []

abbrev pub public : List ℕ
public = 1 ∷ 1 ∷ 2 ∷ []

abbrev held : Keys
held = record { sk = some secret; pk = some public }

seeds_drawn :
    two (xof stream (77 ∷ []) (even.pub_seed_bytes ∷ even.sec_seed_bytes ∷ []))
    ≡ ok (1 ∷ [], 1 ∷ [])
unfolding two xof pieces read_from
seeds_drawn = refl

first_drawn : expand_syst_mat adding stream 20 (1 ∷ []) 2 2 2 ≡ ok first_matrix
unfolding accept_pair all_rows answer append augmented build ceil_log2 cell check_response
    check_round check_rounds columns_from commit commit_all commitment compress compress_all
    compress_g compress_g_all crypto_sign crypto_sign_keypair crypto_sign_open decompress
    decompress_g delete delete_leaf delete_marked diagonal_sum digest draw empty entry equation
    equations expand_fqs expand_inv_mat expand_syst_mat flatten written_positions read_positions
    get_item hash_pair identity_rows invertible_from is_zero item join last_column log_steps make
    make_keys masked matrix_of move_public next_key next_keys nonzero of_data one_positions
    ones_from or_last parse_hash parse_path parse_public parse_square patch patch_here patch_tree
    path path_to_seed_tree pi pick pieces public_bytes public_key read read_all read_bytes read_from
    read_long read_number response_bytes responses row_matrix rows_of scatter secret_key seed_bytes
    seed_max_tree_len seed_tree_cost seed_tree_to_path seeds_path set_all set_item set_leaf sf sign
    solution solve_symb split_signature third three two update values_at verdict write write_all
    write_bytes write_long xof
first_drawn = refl

key_found : next_keys adding stream even 20 (2 - 1) first_matrix (1 ∷ []) ≡ ok (key ∷ [])
unfolding accept_pair all_rows answer append augmented build ceil_log2 cell check_response
    check_round check_rounds columns_from commit commit_all commitment compress compress_all
    compress_g compress_g_all crypto_sign crypto_sign_keypair crypto_sign_open decompress
    decompress_g delete delete_leaf delete_marked diagonal_sum digest draw empty entry equation
    equations expand_fqs expand_inv_mat expand_syst_mat flatten written_positions read_positions
    get_item hash_pair identity_rows invertible_from is_zero item join last_column log_steps make
    make_keys masked matrix_of move_public next_key next_keys nonzero of_data one_positions
    ones_from or_last parse_hash parse_path parse_public parse_square patch patch_here patch_tree
    path path_to_seed_tree pi pick pieces public_bytes public_key read read_all read_bytes read_from
    read_long read_number response_bytes responses row_matrix rows_of scatter secret_key seed_bytes
    seed_max_tree_len seed_tree_cost seed_tree_to_path seeds_path set_all set_item set_leaf sf sign
    solution solve_symb split_signature third three two update values_at verdict write write_all
    write_bytes write_long xof
key_found = refl

pub makes : crypto_sign_keypair adding stream even 20 (77 ∷ []) ≡ ok (secret, public)
unfolding accept_pair all_rows answer append augmented build ceil_log2 cell check_response
    check_round check_rounds columns_from commit commit_all commitment compress compress_all
    compress_g compress_g_all crypto_sign crypto_sign_keypair crypto_sign_open decompress
    decompress_g delete delete_leaf delete_marked diagonal_sum digest draw empty entry equation
    equations expand_fqs expand_inv_mat expand_syst_mat flatten written_positions read_positions
    get_item hash_pair identity_rows invertible_from is_zero item join last_column log_steps make
    make_keys masked matrix_of move_public next_key next_keys nonzero of_data one_positions
    ones_from or_last parse_hash parse_path parse_public parse_square patch patch_here patch_tree
    path path_to_seed_tree pi pick pieces public_bytes public_key read read_all read_bytes read_from
    read_long read_number response_bytes responses row_matrix rows_of scatter secret_key seed_bytes
    seed_max_tree_len seed_tree_cost seed_tree_to_path seeds_path set_all set_item set_leaf sf sign
    solution solve_symb split_signature third three two update values_at verdict write write_all
    write_bytes write_long xof
makes = refl

makes_keys : make_keys adding stream even 20 (77 ∷ []) no_keys ≡ ok held
unfolding make_keys
makes_keys = rw makes refl

abbrev pub signature : List ℕ
signature = 0 ∷ 0 ∷ 0 ∷ 250 ∷ 0 ∷ 0 ∷ 0 ∷ 0 ∷ 2 ∷ 1 ∷ 1 ∷ 1 ∷ 10 ∷ 20 ∷ []

pub signs : sign adding stream even 20 (77 ∷ []) held (10 ∷ 20 ∷ []) ≡ ok signature
unfolding accept_pair all_rows answer append augmented build ceil_log2 cell check_response
    check_round check_rounds columns_from commit commit_all commitment compress compress_all
    compress_g compress_g_all crypto_sign crypto_sign_keypair crypto_sign_open decompress
    decompress_g delete delete_leaf delete_marked diagonal_sum digest draw empty entry equation
    equations expand_fqs expand_inv_mat expand_syst_mat flatten written_positions read_positions
    get_item hash_pair identity_rows invertible_from is_zero item join last_column log_steps make
    make_keys masked matrix_of move_public next_key next_keys nonzero of_data one_positions
    ones_from or_last parse_hash parse_path parse_public parse_square patch patch_here patch_tree
    path path_to_seed_tree pi pick pieces public_bytes public_key read read_all read_bytes read_from
    read_long read_number response_bytes responses row_matrix rows_of scatter secret_key seed_bytes
    seed_max_tree_len seed_tree_cost seed_tree_to_path seeds_path set_all set_item set_leaf sf sign
    solution solve_symb split_signature third three two update values_at verdict write write_all
    write_bytes write_long xof
signs = refl

key_published : published adding stream even 20 key.2 ≡ key.2
unfolding accept_pair all_rows answer append augmented build ceil_log2 cell check_response
    check_round check_rounds columns_from commit commit_all commitment compress compress_all
    compress_g compress_g_all crypto_sign crypto_sign_keypair crypto_sign_open decompress
    decompress_g delete delete_leaf delete_marked diagonal_sum digest draw empty entry equation
    equations expand_fqs expand_inv_mat expand_syst_mat flatten written_positions read_positions
    get_item hash_pair identity_rows invertible_from is_zero item join last_column log_steps make
    make_keys masked matrix_of move_public next_key next_keys nonzero of_data one_positions
    ones_from or_last parse_hash parse_path parse_public parse_square patch patch_here patch_tree
    path path_to_seed_tree pi pick pieces public_bytes public_key read read_all read_bytes read_from
    read_long read_number response_bytes responses row_matrix rows_of scatter secret_key seed_bytes
    seed_max_tree_len seed_tree_cost seed_tree_to_path seeds_path set_all set_item set_leaf sf sign
    solution solve_symb split_signature third three two update values_at verdict write write_all
    write_bytes write_long xof
key_published = refl

publishable : ArePublishable adding stream even 20 (77 ∷ [])
publishable sigma_g sigma g keys e0 e1 e2 =
    let seeds : (1 ∷ [], 1 ∷ []) ≡ (sigma_g, sigma) =
      ok-injective (1 ∷ [], 1 ∷ []) (sigma_g, sigma) (sym seeds_drawn ∙ e0) in
    let first : first_matrix ≡ g =
      ok-injective first_matrix g
        (sym first_drawn ∙ ap (λ r. expand_syst_mat adding stream 20 r.0 2 2 2) seeds ∙ e1) in
    let found : key ∷ [] ≡ keys = ok-injective (key ∷ []) keys (
      sym key_found
      ∙ ap₂ (λ h r. next_keys adding stream even 20 (2 - 1) h r.1) first seeds
      ∙ e2) in
    subst (λ l. map (published adding stream even 20) (map (λ key. key.2) l) ≡ map (λ key. key.2) l)
      found (ap (λ h. h ∷ []) key_published)

open_signed-sign_example : open_signed adding stream even 20 held signature ≡ ok (10 ∷ 20 ∷ [])
open_signed-sign_example =
    open_signed-sign adding stream even 20 refl long
      (omega arith, omega arith, omega arith, omega arith, omega arith) refl adding-Linear (77 ∷ [])
      (77 ∷ []) (10 ∷ 20 ∷ []) refl (omega arith, omega arith) publishable makes_keys signs

length-crypto_sign_keypair_example : (length secret ≡ sk_size even) × (length public ≡ pk_size even)
length-crypto_sign_keypair_example =
    length-crypto_sign_keypair adding stream even 20 refl long
      (omega arith, omega arith, omega arith, omega arith, omega arith) refl adding-Linear (77 ∷ [])
      refl makes
