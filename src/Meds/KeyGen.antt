-- ===== src/Meds/KeyGen.antt =====
-- `crypto_sign_keypair` of sage-ref/meds.py, and the class `MEDS`, which keeps the keys.
use iis_meds.Prelude.{
  ℕ, zero, suc, ◌-◌, List, [], ◌∷◌, ◌++◌, map, if◌then◌else◌, ◌&&◌, Option, none, some, Result, ok,
  raised, running, attribute_error, ◌>>=◌,
}
use iis_meds.Shake.{Shake}
use iis_meds.Params.{Param}
use iis_meds.Sage.{Field, Matrices}
use iis_meds.Util.Hashing.{xof}
use iis_meds.Util.Compress.{compress, compress_g}
use iis_meds.Util.Sampling.{expand_fqs, expand_inv_mat, expand_syst_mat, rows_of, pi, sf}
use iis_meds.Util.Solve.{solve_symb}
use iis_meds.Meds.{nth, two, three, crypto_sign, crypto_sign_open}

module _ {F : Field} (S : Matrices F) (p : Param) where
  -- `for A_inv_i in A_inv[1:]: sk += Compress(A_inv_i)`
  unfoldable pub compress_all : List S.Mat → Result (List ℕ)
  compress_all [] = ok []
  compress_all (a ∷ more) = do bytes ← compress S a; rest ← compress_all more; ok (bytes ++ rest)

  -- `for Gi in G[1:]: pk += CompressG(Gi, k, m, n)`
  unfoldable pub compress_g_all : List S.Mat → Result (List ℕ)
  compress_g_all [] = ok []
  compress_g_all (g ∷ gs) = do
    bytes ← compress_g S g p.k p.m p.n
    rest ← compress_g_all gs
    ok (bytes ++ rest)

  unfoldable pub secret_key : List ℕ → List ℕ → List S.Mat → List S.Mat → Result (List ℕ)
  secret_key delta sigma_g a_inv b_inv = do
    a_bytes ← compress_all a_inv
    b_bytes ← compress_all b_inv
    ok (delta ++ sigma_g ++ a_bytes ++ b_bytes)

  unfoldable pub public_key : List ℕ → List S.Mat → Result (List ℕ)
  public_key sigma_g gs = do bytes ← compress_g_all gs; ok (sigma_g ++ bytes)

  -- `matrix(GFq, m, n, G0prime.rows()[i])`
  unfoldable pub row_matrix : S.Mat → ℕ → Result S.Mat
  row_matrix g i = do
    row ← nth (rows_of S (S.ncols g) (S.nrows g) (S.entries g)) i
    ok (S.matrix p.m p.n row)

  -- The tests on what `solve_symb` gives: A_inv, B_inv and G[i], or nothing where the loop tries again.
  unfoldable pub accept_pair :
      S.Mat → Option (S.Mat × S.Mat) → Result (Option (S.Mat × S.Mat × S.Mat))
  accept_pair g none = ok none
  accept_pair g (some (a, b_inv)) =
      let found : Result (Option (S.Mat × S.Mat × S.Mat)) = (do
        moved ← pi S a (S.inverse b_inv) g
        form ← sf S moved
        ok (elim form [ some g' ↦ some (S.inverse a, b_inv, g') | none ↦ none ])) in
      if S.is_invertible b_inv && S.is_invertible a then found else ok none

-- The class `MEDS`; before `crypto_sign_keypair` it has no attributes `_sk` and `_pk`.
pub record Keys : Type 0 where
  pub sk : Option (List ℕ)
  pub pk : Option (List ℕ)

abbrev pub no_keys : Keys
no_keys = record { sk = none; pk = none }

module _ {F : Field} (S : Matrices F) (sh : Shake) (p : Param) (fuel : ℕ) where
  -- `while True` for one index, from the seed `sigma` on; also the seed that is left
  unfoldable pub next_key : ℕ → S.Mat → List ℕ → Result ((S.Mat × S.Mat × S.Mat) × List ℕ)
  next_key zero g sigma = running
  next_key (suc tries) g sigma = do
    (sigma_alpha, sigma_t, sigma') ←
        three (xof sh sigma (p.sec_seed_bytes ∷ p.sec_seed_bytes ∷ p.sec_seed_bytes ∷ []))
    t ← expand_inv_mat S sh fuel sigma_t p.k
    (xs, _) ← expand_fqs F sh sigma_alpha fuel 0 1
    amm ← nth xs 0
    let g_prime = S.mul t g
    top ← row_matrix S p g_prime 0
    second ← row_matrix S p g_prime 1
    pair ← solve_symb S top second amm
    found ← accept_pair S p g pair
    elim found [ some key ↦ ok (key, sigma') | none ↦ next_key tries g sigma' ]

  -- The keys of `count` indices
  unfoldable pub next_keys : ℕ → S.Mat → List ℕ → Result (List (S.Mat × S.Mat × S.Mat))
  next_keys zero g sigma = ok []
  next_keys (suc count) g sigma = do
    (key, sigma') ← next_key fuel g sigma
    rest ← next_keys count g sigma'
    ok (key ∷ rest)

  -- `crypto_sign_keypair()` where `randombytes` gives `delta`: the secret key and the public one
  unfoldable pub crypto_sign_keypair : List ℕ → Result (List ℕ × List ℕ)
  crypto_sign_keypair delta = do
    (sigma_g, sigma) ← two (xof sh delta (p.pub_seed_bytes ∷ p.sec_seed_bytes ∷ []))
    g ← expand_syst_mat S sh fuel sigma_g p.k p.m p.n
    keys ← next_keys (p.s - 1) g sigma
    pk ← public_key S p sigma_g (map (λ key. key.2) keys)
    sk ← secret_key S p delta sigma_g (map (λ key. key.0) keys) (map (λ key. key.1) keys)
    ok (sk, pk)

  -- Its three methods, with the bytes that `randombytes` gives
  unfoldable pub make_keys : List ℕ → Keys → Result Keys
  make_keys delta keys = do
    (sk, pk) ← crypto_sign_keypair delta
    ok (record { sk = some sk; pk = some pk })

  unfoldable pub sign : List ℕ → Keys → List ℕ → Result (List ℕ)
  sign delta keys msg = elim keys.sk [
    | some sk ↦ crypto_sign S sh p fuel delta sk msg
    | none ↦ raised attribute_error
  ]

  unfoldable pub open_signed : Keys → List ℕ → Result (List ℕ)
  open_signed keys sig = elim keys.pk [
    | some pk ↦ crypto_sign_open S sh p fuel pk sig
    | none ↦ raised attribute_error
  ]
