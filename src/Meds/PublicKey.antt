-- ===== src/Meds/PublicKey.antt =====
-- What `crypto_sign_keypair` writes into a public key, `crypto_sign_open` reads from it.
use native.Mathlib.Nat.{mul_comm}
use iis_meds.Prelude.{
  ℕ, ◌+◌, ◌-◌, ◌*◌, ◌≤◌, List, [], ◌∷◌, ◌++◌, All, length, map, take, take-append, length-append,
  append_assoc, append-nil, ◌≡◌, refl, ap, sym, ◌∙◌, arith, ok,
}
use iis_meds.Logarithm.{ceil_log2}
use iis_meds.Params.{Param, bytes_for, pk_size}
use iis_meds.Sage.{Field, Matrices}
use iis_meds.Shake.{Shake}
use iis_meds.Util.Compress.{field_bits, compress_g, decompress_g}
use iis_meds.Util.Compress.Standard.{standard, decompress_g-compress_g}
use iis_meds.Meds.{slice, public_bytes, parse_public}
use iis_meds.Meds.KeyGen.{compress_g_all, public_key}
use iis_meds.Meds.SecretKey.{slice-append}
use iis_meds.Meds.Sizes.{pk_size-public_bytes}

-- Parameters whose public matrices have room for the fixed entries
abbrev pub IsRoomy : Param → Type 0
IsRoomy p = (2 ≤ p.k) × (1 ≤ p.m) × (p.m ≤ p.n) × (p.k ≤ p.m * p.n) × (p.n ≤ 2 * (p.m * p.n - p.k))

module _ {F : Field} (S : Matrices F) (sh : Shake) (p : Param) (fuel : ℕ) where
  -- A matrix of k rows and m * n columns
  abbrev pub IsWide : S.Mat → Type 0
  IsWide g = (S.nrows g ≡ p.k) × (S.ncols g ≡ p.m * p.n)

  -- What of a matrix is in a public key
  abbrev pub published : S.Mat → S.Mat
  published g = standard S g p.k p.m p.n

  wide_bytes :
      (g : S.Mat)
      → F.order ≡ p.q
      → 8 ≤ ceil_log2 p.q
      → IsRoomy p
      → IsWide g
      → (bytes : List ℕ) × (compress_g S g p.k p.m p.n ≡ ok bytes)
        × (length bytes ≡ public_bytes p)
        × (decompress_g S bytes p.k p.m p.n ≡ ok (published g))
  unfolding public_bytes
  wide_bytes g field long roomy wide =
      let enough : 8 ≤ field_bits F = rw field long in
      let (bytes, run, size, back) =
        decompress_g-compress_g S p.k p.m p.n g enough (roomy.0, roomy.1, roomy.2, roomy.3) wide in
      let free = (p.k - 2) * (p.m * p.n - p.k) + p.n in
      let count : field_bits F * free ≡ free * ceil_log2 p.q =
        ap (λ q. ceil_log2 q * free) field ∙ mul_comm (ceil_log2 p.q) free in
      (bytes, run, size ∙ ap bytes_for count, back)

  parse_public-compress_g_all :
      (gs : List S.Mat)
      → F.order ≡ p.q
      → 8 ≤ ceil_log2 p.q
      → IsRoomy p
      → All IsWide gs
      → (bytes : List ℕ) × (compress_g_all S p gs ≡ ok bytes)
        × (length bytes ≡ length gs * public_bytes p)
        × ((before after : List ℕ) (f : ℕ)
            → length before ≡ f
            → parse_public S sh p fuel (length gs) f (before ++ bytes ++ after)
              ≡ ok (map published gs))
  unfolding compress_g_all parse_public
  parse_public-compress_g_all [] field long roomy wide =
      ([], refl, omega arith, λ before after f e. refl)
  parse_public-compress_g_all (g ∷ gs) field long roomy wide =
      let size_of = public_bytes p in
      let (bytes, run, size, back) = wide_bytes g field long roomy wide.0 in
      let (rest, runs, sizes, later) = parse_public-compress_g_all gs field long roomy wide.1 in
      (
        bytes ++ rest,
        rw (run, runs) refl,
        omega (arith, length-append bytes rest, size, sizes),
        λ before after f e.
            let apart : before ++ (bytes ++ rest) ++ after ≡ (before ++ bytes) ++ rest ++ after =
              ap (λ xs. xs ++ after) (sym (append_assoc before bytes rest)) in
            let here : slice f size_of (before ++ (bytes ++ rest) ++ after) ≡ bytes =
              ap (slice f size_of) (apart ∙ append_assoc (before ++ bytes) rest after)
              ∙ slice-append before bytes (rest ++ after) f size_of e size in
            let next : parse_public S sh p fuel (length gs) (f + size_of)
                  (before ++ (bytes ++ rest) ++ after)
                ≡ ok (map published gs) =
              rw apart (
                later (before ++ bytes) after (f + size_of)
                  (omega (arith, length-append before bytes, size, e))) in
            rw (here, back, next) refl,
      )

  -- From the seed of the first public matrix and the s - 1 other public matrices, a public key is made
  -- that has `pk_size` bytes, and from which `crypto_sign_open` reads the seed again, and each matrix
  -- with its free entries kept and all others set as in every public matrix. (A field element takes at
  -- least 8 bits, and the matrices have room for the fixed entries, with 1 ≤ m ≤ n.)
  pub parse_public-public_key :
      (sigma_g : List ℕ) (gs : List S.Mat)
      → F.order ≡ p.q
      → 8 ≤ ceil_log2 p.q
      → IsRoomy p
      → length sigma_g ≡ p.pub_seed_bytes
      → length gs ≡ p.s - 1
      → All IsWide gs
      → (pk : List ℕ) × (public_key S p sigma_g gs ≡ ok pk)
        × (length pk ≡ pk_size p)
        × (take p.pub_seed_bytes pk ≡ sigma_g)
        × (parse_public S sh p fuel (p.s - 1) p.pub_seed_bytes pk ≡ ok (map published gs))
  unfolding public_key
  parse_public-public_key sigma_g gs field long roomy seeds count wide =
      let (bytes, run, size, back) = parse_public-compress_g_all gs field long roomy wide in
      (
        sigma_g ++ bytes,
        rw run refl,
        omega (
          arith,
          length-append sigma_g bytes,
          seeds,
          rw count at size,
          pk_size-public_bytes p roomy.0 roomy.1 roomy.3 roomy.4,
        ),
        take-append p.pub_seed_bytes sigma_g bytes seeds,
        ap (parse_public S sh p fuel (p.s - 1) p.pub_seed_bytes)
              (sym (append-nil (sigma_g ++ bytes)))
            ∙ (rw count at (back sigma_g [] p.pub_seed_bytes seeds)),
      )
