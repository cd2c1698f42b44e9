-- ===== src/Meds/SecretKey.antt =====
-- What `crypto_sign_keypair` writes into a secret key, `crypto_sign` reads from it.
use iis_meds.Prelude.{
  ℕ, ◌+◌, ◌-◌, ◌*◌, ◌≤◌, List, [], ◌∷◌, ◌++◌, All, length, take, drop, take-append, drop-append,
  length-append, append_assoc, append-nil, ◌≡◌, refl, ap, sym, ◌∙◌, arith, ok,
}
use native.Mathlib.Nat.{mul_assoc, mul_comm}
use iis_meds.Logarithm.{ceil_log2}
use iis_meds.Params.{Param, bytes_for, sk_size}
use iis_meds.Sage.{Field, Matrices}
use iis_meds.Util.Compress.{field_bits, compress, decompress}
use iis_meds.Util.Compress.RoundTrip.{decompress-compress}
use iis_meds.Shake.{Shake}
use iis_meds.Meds.{slice, parse_square}
use iis_meds.Meds.Squares.{IsSquare}
use iis_meds.Meds.KeyGen.{compress_all, secret_key}

square_product : (c n : ℕ) → c * n * n ≡ n * n * c
square_product c n = mul_assoc c n n ∙ mul_comm c (n * n)

pub slice-append :
    (a b c : List ℕ) (start count : ℕ)
    → length a ≡ start
    → length b ≡ count
    → slice start count (a ++ b ++ c) ≡ b
slice-append a b c start count e f =
    ap (λ xs. take count (drop start xs)) (append_assoc a b c)
    ∙ ap (take count) (drop-append start a (b ++ c) e)
    ∙ take-append count b c f

module _ {F : Field} (S : Matrices F) (sh : Shake) (p : Param) (fuel : ℕ) where
  pub square_bytes :
      (n : ℕ) (a : S.Mat)
      → 1 ≤ n
      → F.order ≡ p.q
      → 8 ≤ ceil_log2 p.q
      → IsSquare S n a
      → (bytes : List ℕ) × (compress S a ≡ ok bytes)
        × (length bytes ≡ bytes_for (ceil_log2 p.q * n * n))
        × (decompress S bytes n n ≡ ok a)
  square_bytes n a pos field long square =
      let wide : 8 ≤ field_bits F = rw field long in
      let (bytes, run, size, back) =
        decompress-compress S a wide (omega (arith, square.0)) (omega (arith, square.1)) in
      let count : field_bits F * (S.nrows a * S.ncols a) ≡ ceil_log2 p.q * n * n =
        rw (field, square.0, square.1) (sym (mul_assoc (ceil_log2 p.q) n n)) in
      (bytes, run, size ∙ ap bytes_for count, rw (square.0, square.1) at back)

  parse_square-compress_all :
      (n : ℕ) (mats : List S.Mat)
      → 1 ≤ n
      → F.order ≡ p.q
      → 8 ≤ ceil_log2 p.q
      → All (IsSquare S n) mats
      → (bytes : List ℕ) × (compress_all S p mats ≡ ok bytes)
        × (length bytes ≡ length mats * bytes_for (ceil_log2 p.q * n * n))
        × ((before after : List ℕ) (f : ℕ)
            → length before ≡ f
            → parse_square S sh p fuel (length mats) n f (before ++ bytes ++ after)
              ≡ ok (mats, f + length bytes))
  unfolding compress_all parse_square
  parse_square-compress_all n [] pos field long square =
      ([], refl, omega arith, λ before after f e. ap (λ k. ok ([], k)) (omega arith))
  parse_square-compress_all n (a ∷ mats) pos field long square =
      let size_of = bytes_for (ceil_log2 p.q * n * n) in
      let (bytes, run, size, back) = square_bytes n a pos field long square.0 in
      let (rest, runs, sizes, later) = parse_square-compress_all n mats pos field long square.1 in
      let all : length (bytes ++ rest) ≡ length bytes + length rest = length-append bytes rest in
      (
        bytes ++ rest,
        rw (run, runs) refl,
        omega (arith, all, size, sizes),
        λ before after f e.
            let apart : before ++ (bytes ++ rest) ++ after ≡ (before ++ bytes) ++ rest ++ after =
              ap (λ xs. xs ++ after) (sym (append_assoc before bytes rest)) in
            let here : slice f size_of (before ++ (bytes ++ rest) ++ after) ≡ bytes =
              ap (slice f size_of) (apart ∙ append_assoc (before ++ bytes) rest after)
              ∙ slice-append before bytes (rest ++ after) f size_of e size in
            let next : parse_square S sh p fuel (length mats) n (f + size_of)
                  (before ++ (bytes ++ rest) ++ after)
                ≡ ok (mats, f + size_of + length rest) =
              rw apart (
                later (before ++ bytes) after (f + size_of)
                  (omega (arith, length-append before bytes, size, e))) in
            rw (here, back, next) (ap (λ k. ok (a ∷ mats, k)) (omega (arith, all, size))),
      )

  -- From a seed, the seed of the public matrices, and the s - 1 secret matrices of each kind, a secret key
  -- is made that has `sk_size` bytes, and from which `crypto_sign` reads the seed of the public
  -- matrices and the secret matrices again. (A field element takes at least 8 bits.)
  pub parse_square-secret_key :
      (delta sigma_g : List ℕ) (a_inv b_inv : List S.Mat)
      → F.order ≡ p.q
      → 8 ≤ ceil_log2 p.q
      → (1 ≤ p.m) × (1 ≤ p.n)
      → (length delta ≡ p.sec_seed_bytes) × (length sigma_g ≡ p.pub_seed_bytes)
      → (length a_inv ≡ p.s - 1) × (length b_inv ≡ p.s - 1)
      → All (IsSquare S p.m) a_inv × All (IsSquare S p.n) b_inv
      → (sk : List ℕ) × (f : ℕ) × (secret_key S p delta sigma_g a_inv b_inv ≡ ok sk)
        × (length sk ≡ sk_size p)
        × (slice p.sec_seed_bytes p.pub_seed_bytes sk ≡ sigma_g)
        × (parse_square S sh p fuel (p.s - 1) p.m (p.sec_seed_bytes + p.pub_seed_bytes) sk
            ≡ ok (a_inv, f))
        × (parse_square S sh p fuel (p.s - 1) p.n f sk ≡ ok (b_inv, length sk))
  unfolding secret_key sk_size
  parse_square-secret_key delta sigma_g a_inv b_inv field long pos seeds counts squares =
      let (a, runa, sizea, backa) =
        parse_square-compress_all p.m a_inv pos.0 field long squares.0 in
      let (b, runb, sizeb, backb) =
        parse_square-compress_all p.n b_inv pos.1 field long squares.1 in
      let start : length (delta ++ sigma_g) ≡ p.sec_seed_bytes + p.pub_seed_bytes =
        omega (arith, length-append delta sigma_g, seeds.0, seeds.1) in
      let first : length (delta ++ sigma_g ++ a) ≡ p.sec_seed_bytes + p.pub_seed_bytes + length a =
        omega (arith, length-append (delta ++ sigma_g) a, start) in
      let total : length (delta ++ sigma_g ++ a ++ b)
          ≡ p.sec_seed_bytes + p.pub_seed_bytes + length a + length b =
        omega (arith, length-append (delta ++ sigma_g ++ a) b, first) in
      (
        delta ++ sigma_g ++ a ++ b,
        p.sec_seed_bytes + p.pub_seed_bytes + length a,
        rw (runa, runb) refl,
        omega (
          arith,
          total,
          rw (counts.0, square_product (ceil_log2 p.q) p.m) at sizea,
          rw (counts.1, square_product (ceil_log2 p.q) p.n) at sizeb,
        ),
        ap (slice p.sec_seed_bytes p.pub_seed_bytes) (append_assoc (delta ++ sigma_g) a b)
            ∙ slice-append delta sigma_g (a ++ b) p.sec_seed_bytes p.pub_seed_bytes seeds.0 seeds.1,
        rw counts.0 at (backa (delta ++ sigma_g) b _ start),
        ap (parse_square S sh p fuel (p.s - 1) p.n (p.sec_seed_bytes + p.pub_seed_bytes + length a))
              (sym (append-nil (delta ++ sigma_g ++ a ++ b)))
            ∙ (rw counts.1 at (backb (delta ++ sigma_g ++ a) [] _ first))
            ∙ ap (λ k. ok (b_inv, k)) (sym total),
      )
