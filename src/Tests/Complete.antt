-- ===== src/Tests/Complete.antt =====
-- What is signed with the keys of Scheme is accepted.
use iis_meds.Prelude.{
  ℕ, zero, suc, ◌+◌, ◌-◌, ◌<◌, eq-true, List, [], ◌∷◌, ◌≡◌, refl, ap, sym, ◌∙◌, subst, arith, ok,
  some, ok-injective, length, map, take, ◌*◌, ◌==◌, if◌then◌else◌,
}
use iis_meds.Logarithm.{ceil_log2, log_steps}
use iis_meds.BitStream.{
  read_all, read, of_data, read_bytes, read_long, append, empty, or_last, write, write_all,
  write_bytes, write_long,
}
use iis_meds.Shake.{Shake, read_from}
use iis_meds.Util.Challenge.{masked, read_number, parse_hash, pick, scatter}
use iis_meds.Util.Compress.{
  decompress, decompress_g, set_all, one_positions, written_positions, read_positions,
  identity_rows, compress,
}
use iis_meds.Sage.{entry}
use iis_meds.Util.Sampling.{
  expand_fqs, draw, augmented, expand_syst_mat, pi, sf, rows_of, flatten, diagonal_sum,
  columns_from, expand_inv_mat, invertible_from,
}
use iis_meds.Meds.{
  nth, move_public, parse_public, parse_square, public_bytes, crypto_sign_open, answer, commit,
  commit_all, commitment, crypto_sign, responses, seed_bytes, third, three, two,
}
use iis_meds.Meds.Answers.{AreMatching, Moves}
use iis_meds.Meds.Responses.{KeepSquares}
use iis_meds.Meds.Complete.{crypto_sign_open-crypto_sign}
use iis_meds.Meds.Squares.{IsSquare}
use iis_meds.Tests.Matrices.{gf251, Grid, grid, holding, long}
use iis_meds.Tests.Scheme.{tiny, moving, secret, signature}
use iis_meds.Util.Hashing.{digest, hash_pair, pieces, xof}
use iis_meds.SeedTree.{
  build, delete, delete_leaf, get_item, item, make, path, seeds_path, set_item, set_leaf,
}
use iis_meds.Params.{seed_max_tree_len, seed_tree_cost}
use iis_meds.Util.SeedPath.{delete_marked, join, seed_tree_to_path}

abbrev one : gf251.El
one = gf251.of_int 1

abbrev nil : gf251.El
nil = gf251.of_int 0

abbrev first_matrix : Grid
first_matrix = grid 2 3 (one ∷ nil ∷ nil ∷ nil ∷ one ∷ nil ∷ [])

-- A stream of zeros for the seed of the public matrices, and of ones for all else
abbrev byte_for : List ℕ → ℕ
byte_for [] = 1
byte_for (x ∷ xs) = if x == 6 then 0 else 1

byte_for-lt : (message : List ℕ) → byte_for message < 256
byte_for-lt [] = omega arith
byte_for-lt (x ∷ xs) = ground arith

abbrev two_streams : Shake
two_streams = record {
  output = λ message i. byte_for message;
  output-lt = λ message i. byte_for-lt message;
}

abbrev zero_key : List ℕ
zero_key = 6 ∷ 0 ∷ 1 ∷ 0 ∷ []

squared :
    (n : ℕ) (a : Grid)
    → IsSquare moving n a
    → (z : (xs : List gf251.El) × (length xs ≡ n * n)) × (holding n n z ≡ a)
squared n a square =
    let at : (z : (xs : List gf251.El) × (length xs ≡ a.rows * a.cols))
        → (w : (xs : List gf251.El) × (length xs ≡ n * n)) × (holding n n w
            ≡ holding a.rows a.cols z) =
      subst
        (λ r.
          (z : (xs : List gf251.El) × (length xs ≡ r * a.cols))
          → (w : (xs : List gf251.El) × (length xs ≡ n * n)) × (holding n n w ≡ holding r a.cols z))
        (sym square.0)
        (subst
          (λ c.
            (z : (xs : List gf251.El) × (length xs ≡ n * c))
            → (w : (xs : List gf251.El) × (length xs ≡ n * n)) × (holding n n w ≡ holding n c z))
          (sym square.1) (λ z. (z, refl))) in
    at a.held

pi_held :
    (y : (xs : List gf251.El) × (length xs ≡ 1 * 1))
    (z : (xs : List gf251.El) × (length xs ≡ 3 * 3))
    → pi moving (holding 1 1 y) (holding 3 3 z) first_matrix ≡ ok first_matrix
unfolding pi rows_of flatten entry
pi_held y z = refl

pi-moving :
    (a b : Grid)
    → IsSquare moving 1 a
    → IsSquare moving 3 b
    → pi moving a b first_matrix ≡ ok first_matrix
pi-moving a b left right =
    let (y, e) = squared 1 a left in
    let (z, k) = squared 3 b right in
    subst (λ x. pi moving x b first_matrix ≡ ok first_matrix) e
      (subst (λ x. pi moving (holding 1 1 y) x first_matrix ≡ ok first_matrix) k (pi_held y z))

sf-moving : sf moving first_matrix ≡ ok (some first_matrix)
unfolding sf diagonal_sum entry
sf-moving = refl

abbrev a_one : Grid
a_one = grid 1 1 (gf251.of_int 9 ∷ [])

abbrev b_one : Grid
b_one = grid 3 3 (map gf251.of_int (1 ∷ 2 ∷ 3 ∷ 4 ∷ 5 ∷ 6 ∷ 7 ∷ 8 ∷ 9 ∷ []))

moved_first :
    (mu nu : Grid)
    → IsSquare moving 1 mu
    → IsSquare moving 3 nu
    → move_public moving two_streams tiny 20 (first_matrix ∷ first_matrix ∷ []) 1 mu nu
      ≡ ok first_matrix
unfolding move_public
moved_first mu nu left right = rw (pi-moving mu nu left right, sf-moving) refl

Moves-first :
    (a b g' : Grid)
    → IsSquare moving 1 a
    → IsSquare moving 3 b
    → Moves moving two_streams tiny 20 first_matrix a b g'
    → first_matrix ≡ g'
Moves-first a b g' left right (moved, run, form) =
    let same : first_matrix ≡ moved =
      ok-injective first_matrix moved (sym (pi-moving a b left right) ∙ run) in
    let found : some first_matrix ≡ some g' =
      ok-injective (some first_matrix) (some g') (sym sf-moving ∙ ap (sf moving) same ∙ form) in
    cc

nothing : (x : ℕ) (ai : Grid) → ¬ (nth (a_one ∷ []) (suc x) ≡ ok ai)
nothing x ai e = cc

KeepSquares-moving : KeepSquares moving two_streams tiny 20
KeepSquares-moving n a b left right = rw (left.0, left.1, eq-true n n refl) right

matching :
    AreMatching moving two_streams tiny 20 first_matrix
      (first_matrix ∷ first_matrix ∷ [])
      (a_one ∷ [])
      (b_one ∷ [])
matching zero a b ai bi g' above squares runs moves = absurd (omega arith)
matching (suc zero) a b ai bi g' above squares runs moves =
    let left =
      KeepSquares-moving 1 a ai squares.0.0
        (subst (IsSquare moving 1) (ok-injective a_one ai runs.0) (refl, refl)) in
    let right =
      KeepSquares-moving 3 bi b
        (subst (IsSquare moving 3) (ok-injective b_one bi runs.1) (refl, refl)) squares.1.0 in
    (
      refl,
      moved_first (moving.mul a ai) (moving.mul bi b) left right
          ∙ ap ok (Moves-first a b g' squares.0.0 squares.1.0 moves),
    )
matching (suc (suc x)) a b ai bi g' above squares runs moves =
    let e : suc (suc x) - 1 ≡ suc x = omega arith in
    let refused : nth (a_one ∷ []) (suc x) ≡ ok ai = rw e at runs.0 in absurd (nothing x ai refused)

drawn : expand_syst_mat moving two_streams 20 (take 1 zero_key) 2 1 3 ≡ ok first_matrix
unfolding expand_fqs draw masked read_number ceil_log2 log_steps read_from augmented expand_syst_mat
drawn = refl

published_key : parse_public moving two_streams tiny 20 (2 - 1) 1 zero_key ≡ ok (first_matrix ∷ [])
unfolding parse_public decompress_g set_all one_positions written_positions read_positions
    public_bytes identity_rows ceil_log2 log_steps read_all read of_data read_bytes read_long
published_key = refl

a_read : parse_square moving two_streams tiny 20 (2 - 1) 1 (1 + 1) secret ≡ ok (a_one ∷ [], 3)
unfolding parse_square decompress ceil_log2 log_steps read_all read of_data read_bytes read_long
a_read = refl

b_read : parse_square moving two_streams tiny 20 (2 - 1) 3 3 secret ≡ ok (b_one ∷ [], 12)
unfolding parse_square decompress ceil_log2 log_steps read_all read of_data read_bytes read_long
b_read = refl

signs : crypto_sign moving two_streams tiny 20 (77 ∷ []) secret (10 ∷ 20 ∷ []) ≡ ok signature
unfolding expand_fqs draw masked read_number ceil_log2 read_all read of_data xof commit item
    get_item append empty or_last read_bytes read_long write write_all write_bytes write_long
    log_steps commitment seed_bytes three seed_max_tree_len seed_tree_cost entry build delete
    delete_leaf make path seeds_path set_item set_leaf read_from parse_hash pick scatter compress
    decompress digest hash_pair pieces augmented columns_from diagonal_sum expand_inv_mat flatten
    invertible_from pi rows_of sf delete_marked expand_syst_mat parse_square two commit_all third
    responses answer join seed_tree_to_path crypto_sign
signs = refl

crypto_sign_open-crypto_sign_example :
    crypto_sign_open moving two_streams tiny 20 zero_key signature ≡ ok (10 ∷ 20 ∷ [])
crypto_sign_open-crypto_sign_example =
    crypto_sign_open-crypto_sign moving two_streams tiny 20 (77 ∷ []) secret zero_key (10 ∷ 20 ∷ [])
      first_matrix (first_matrix ∷ []) (a_one ∷ []) (b_one ∷ []) 3 12 refl long
      (omega arith, omega arith) (omega arith, omega arith) KeepSquares-moving refl drawn
      published_key a_read b_read matching signs
