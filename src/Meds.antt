-- ===== src/Meds.antt =====
-- `crypto_sign` and `crypto_sign_open` of sage-ref/meds.py. The field is `GF(q)` (F.order and p.q are one number), and one fuel bounds
-- each loop that draws again. The 32 bytes of `self.randombytes` are an argument; `msg` is bytes.
pub mod KeyGen
pub mod SecretKey
pub mod PublicKey
pub mod Accept
pub mod Rounds
pub mod Sizes
pub mod Squares
pub mod Rerun
pub mod Answers
pub mod Replay
pub mod Complete
pub mod KeyPair
pub mod Matching
pub mod EndToEnd
pub mod Responses
pub mod Layout
use iis_meds.Prelude.{
  ℕ, zero, suc, ◌+◌, ◌-◌, ◌*◌, List, [], ◌∷◌, ◌++◌, take, drop, get_elem?, length, ltb, ◌==◌, ◌&&◌,
  not, Bool, true, false, if◌then◌else◌, Option, none, some, Result, ok, raised, running,
  index_error, value_error, type_error, bad_signature, ◌>>=◌,
}
use iis_meds.Logarithm.{ceil_log2}
use iis_meds.Shake.{Shake}
use iis_meds.Params.{Param, bytes_for, seed_tree_cost}
use iis_meds.Sage.{Field, Matrices}
use iis_meds.SeedTree.{Value, seed, SeedTree, make, item, set_leaf}
use iis_meds.Util.Hashing.{xof, digest, to_bytes4, hash_pair}
use iis_meds.Util.SeedPath.{seed_tree_to_path, path_to_seed_tree}
use iis_meds.Util.Challenge.{parse_hash}
use iis_meds.Util.Compress.{compress, decompress, decompress_g}
use iis_meds.Util.Sampling.{expand_inv_mat, expand_syst_mat, pi, sf, columns_from}

-- `data[start : start + count]`
abbrev pub slice : ℕ → ℕ → List ℕ → List ℕ
slice start count bytes = take count (drop start bytes)

-- `x == y` for bytes
abbrev pub same_bytes : List ℕ → List ℕ → Bool
same_bytes [] [] = true
same_bytes (x ∷ xs) (y ∷ ys) = x == y && same_bytes xs ys
same_bytes xs ys = false

-- An item of a list; the entries that the program leaves at None have no place in it.
abbrev pub nth {ℓ} : {A : Type ℓ} → List A → ℕ → Result A
nth xs i = elim (get_elem? xs i) [ some x ↦ ok x | none ↦ raised index_error ]

-- The bytes of `sigma[i]`: adding a value that is no seed to bytes raises TypeError.
unfoldable pub seed_bytes : Value → Result (List ℕ)
seed_bytes (seed bytes) = ok bytes
seed_bytes v = raised type_error

-- The three pieces of an `XOF` call
unfoldable pub three : List (List ℕ) → Result (List ℕ × List ℕ × List ℕ)
three (a ∷ b ∷ c ∷ []) = ok (a, b, c)
three xs = raised value_error

unfoldable pub two : List (List ℕ) → Result (List ℕ × List ℕ)
two (a ∷ b ∷ []) = ok (a, b)
two xs = raised value_error

-- `l_Gi`. A parameter set has 2 ≤ k.
unfoldable pub public_bytes : Param → ℕ
public_bytes p = bytes_for (((p.k - 2) * (p.m * p.n - p.k) + p.n) * ceil_log2 p.q)

-- The bytes of the answer to one marked round
unfoldable pub response_bytes : Param → ℕ
response_bytes p = bytes_for (p.m * p.m * ceil_log2 p.q) + bytes_for (p.n * p.n * ceil_log2 p.q)

-- The parts that `crypto_sign_open` cuts a signed message into
pub record Signed : Type 0 where
  pub munu : List ℕ
  pub seeds : List ℕ
  pub hash : List ℕ
  pub salt : List ℕ
  pub message : List ℕ

unfoldable pub split_signature : Param → List ℕ → Signed
split_signature p ms =
    let l_munu = response_bytes p * p.w in
    let rest = drop l_munu ms in
    let after_seeds = drop (seed_tree_cost p) rest in
    let after_hash = drop p.digest_bytes after_seeds in
    record {
      munu = take l_munu ms;
      seeds = take (seed_tree_cost p) rest;
      hash = take p.digest_bytes after_seeds;
      salt = take p.st_salt_bytes after_hash;
      message = drop p.st_salt_bytes after_hash;
    }

-- `if not d == d_prime: raise …`
unfoldable pub verdict : Signed → List ℕ → Result (List ℕ)
verdict parts d_prime =
    if same_bytes parts.hash d_prime then ok parts.message else raised bad_signature

module _ {F : Field} (S : Matrices F) (sh : Shake) (p : Param) (fuel : ℕ) where
  -- The loop of one round, which `crypto_sign` and `crypto_sign_open` share: from the seed of the round
  -- the two matrices, until G_0 moved by them has systematic form. The loop overwrites the seed.
  unfoldable pub commit :
      ℕ → S.Mat → List ℕ → ℕ → SeedTree → Result (S.Mat × S.Mat × S.Mat × SeedTree)
  commit zero g alpha i sigma = running
  commit (suc tries) g alpha i sigma = do
    v ← item sigma i
    bytes ← seed_bytes v
    (seed_a, seed_b, next) ← three (
        xof sh (alpha ++ bytes ++ to_bytes4 i)
          (p.pub_seed_bytes ∷ p.pub_seed_bytes ∷ p.st_seed_bytes ∷ []))
    sigma' ← set_leaf sigma i (seed next)
    a ← expand_inv_mat S sh fuel seed_a p.m
    b ← expand_inv_mat S sh fuel seed_b p.n
    moved ← pi S a b g
    form ← sf S moved
    elim form [ some g' ↦ ok (a, b, g', sigma') | none ↦ commit tries g alpha i sigma' ]

  -- `count` rounds from round i on
  unfoldable pub commit_all :
      ℕ → ℕ → S.Mat → List ℕ → SeedTree → Result (List (S.Mat × S.Mat × S.Mat))
  commit_all zero i g alpha sigma = ok []
  commit_all (suc count) i g alpha sigma = do
    (a, b, g', sigma') ← commit fuel g alpha i sigma
    rest ← commit_all count (i + 1) g alpha sigma'
    ok ((a, b, g') ∷ rest)

  -- `comp`, from the matrices in systematic form
  unfoldable pub commitment : List S.Mat → Result (List ℕ)
  commitment [] = ok []
  commitment (g ∷ gs) = do
    bytes ← compress S (columns_from S p.k g)
    rest ← commitment gs
    ok (bytes ++ rest)

  -- `count` square matrices of n rows from byte `f` of a key on, and the byte behind them
  unfoldable pub parse_square : ℕ → ℕ → ℕ → List ℕ → Result (List S.Mat × ℕ)
  parse_square zero n f key = ok ([], f)
  parse_square (suc count) n f key = do
    let long = bytes_for (ceil_log2 p.q * n * n)
    a ← decompress S (slice f long key) n n
    (rest, end) ← parse_square count n (f + long) key
    ok (a ∷ rest, end)

  unfoldable pub third : List (S.Mat × S.Mat × S.Mat) → List S.Mat
  third [] = []
  third ((a, b, g) ∷ rest) = g ∷ third rest

  -- `mu` and `nu` for entry x of the challenge; the secret matrices start with the one of index 1.
  unfoldable pub answer : ℕ → S.Mat → S.Mat → List S.Mat → List S.Mat → Result (List ℕ)
  answer x a b a_inv b_inv = do
    ai ← nth a_inv (x - 1)
    bi ← nth b_inv (x - 1)
    mu ← compress S (S.mul a ai)
    nu ← compress S (S.mul bi b)
    ok (mu ++ nu)

  -- The answers to the marked rounds
  unfoldable pub responses :
      List ℕ → List (S.Mat × S.Mat × S.Mat) → List S.Mat → List S.Mat → Result (List ℕ)
  responses (x ∷ h) ((a, b, g) ∷ rounds) a_inv b_inv =
      let here = answer x a b a_inv b_inv in
      do
        first ← if ltb 0 x then here else ok []
        rest ← responses h rounds a_inv b_inv
        ok (first ++ rest)
  responses h rounds a_inv b_inv = ok []

  -- `crypto_sign(sk, msg)` where `randombytes` gives `delta`
  unfoldable pub crypto_sign : List ℕ → List ℕ → List ℕ → Result (List ℕ)
  crypto_sign delta sk msg = do
    let sigma_g = slice p.sec_seed_bytes p.pub_seed_bytes sk
    g ← expand_syst_mat S sh fuel sigma_g p.k p.m p.n
    (a_inv, f) ← parse_square (p.s - 1) p.m (p.sec_seed_bytes + p.pub_seed_bytes) sk
    (b_inv, _) ← parse_square (p.s - 1) p.n f sk
    (rho, alpha) ← two (xof sh delta (p.st_seed_bytes ∷ p.st_salt_bytes ∷ []))
    let sigma = make p.t (seed rho) (hash_pair sh p alpha)
    rounds ← commit_all p.t 0 g alpha sigma
    comp ← commitment (third rounds)
    let d = digest sh p (comp ++ msg)
    h ← parse_hash sh fuel d p
    ret ← responses h rounds a_inv b_inv
    path ← seed_tree_to_path sh h rho alpha p
    ok (ret ++ path ++ d ++ alpha ++ msg)

  -- `count` public matrices from byte `f` of a key on
  unfoldable pub parse_public : ℕ → ℕ → List ℕ → Result (List S.Mat)
  parse_public zero f pk = ok []
  parse_public (suc count) f pk = do
    g ← decompress_g S (slice f (public_bytes p) pk) p.k p.m p.n
    rest ← parse_public count (f + public_bytes p) pk
    ok (g ∷ rest)

  -- The public matrix of index x, moved by the answer of a round, in systematic form
  unfoldable pub move_public : List S.Mat → ℕ → S.Mat → S.Mat → Result S.Mat
  move_public gs x mu nu = do
    g ← nth gs x
    moved ← pi S mu nu g
    form ← sf S moved
    elim form [ some g' ↦ ok g' | none ↦ raised bad_signature ]

  -- One marked round of verification, from byte `f` of `munu` on. Also the byte behind.
  unfoldable pub check_response : List ℕ → ℕ → List S.Mat → ℕ → Result (S.Mat × ℕ)
  check_response munu f gs x = do
    let l_mm = bytes_for (ceil_log2 p.q * p.m * p.m)
    let l_nn = bytes_for (ceil_log2 p.q * p.n * p.n)
    mu ← decompress S (slice f l_mm munu) p.m p.m
    nu ← decompress S (slice (f + l_mm) l_nn munu) p.n p.n
    let moved = move_public gs x mu nu
    g' ← if S.is_invertible mu && S.is_invertible nu then moved else raised bad_signature
    ok (g', f + l_mm + l_nn)

  -- Round i of verification, whose entry of the challenge is x
  unfoldable pub check_round :
      ℕ → ℕ → List S.Mat → List ℕ → ℕ → List ℕ → SeedTree → Result (S.Mat × ℕ × SeedTree)
  check_round x i gs munu f alpha sigma =
      let marked : Result (S.Mat × ℕ × SeedTree) = (do
        (g', end) ← check_response munu f gs x
        ok (g', end, sigma)) in
      let unmarked : Result (S.Mat × ℕ × SeedTree) = (do
        g ← nth gs 0
        (a, b, g', sigma') ← commit fuel g alpha i sigma
        ok (g', f, sigma')) in
      if ltb 0 x then marked else unmarked

  -- The rounds of verification from round i on
  unfoldable pub check_rounds :
      List ℕ → ℕ → List S.Mat → List ℕ → ℕ → List ℕ → SeedTree → Result (List S.Mat)
  check_rounds [] i gs munu f alpha sigma = ok []
  check_rounds (x ∷ h) i gs munu f alpha sigma = do
    (g', end, sigma') ← check_round x i gs munu f alpha sigma
    rest ← check_rounds h (i + 1) gs munu end alpha sigma'
    ok (g' ∷ rest)

  -- `crypto_sign_open(pk, ms)`
  unfoldable pub crypto_sign_open : List ℕ → List ℕ → Result (List ℕ)
  crypto_sign_open pk ms = do
    g0 ← expand_syst_mat S sh fuel (take p.pub_seed_bytes pk) p.k p.m p.n
    more ← parse_public (p.s - 1) p.pub_seed_bytes pk
    let parts = split_signature p ms
    h ← parse_hash sh fuel parts.hash p
    let sigma = path_to_seed_tree sh h parts.seeds parts.salt p
    gs ← check_rounds h 0 (g0 ∷ more) parts.munu 0 parts.salt sigma
    comp ← commitment gs
    verdict parts (digest sh p (comp ++ parts.message))
