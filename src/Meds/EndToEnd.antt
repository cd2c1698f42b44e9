-- ===== src/Meds/EndToEnd.antt =====
-- The class `MEDS` of sage-ref/meds.py from `crypto_sign_keypair` to `crypto_sign_open`.
use iis_meds.Prelude.{
  ℕ, zero, suc, ◌+◌, ◌-◌, ◌*◌, ◌<◌, ◌≤◌, ◌==◌, Bool-cases, inl, inr, List, [], ◌∷◌, ◌++◌, All,
  length, length-append, length-take, length-drop, length-map, map, take, drop, some, ok,
  ok-injective, if◌then◌else◌, leb, ◌≡◌, ap, sym, ◌∙◌, subst, arith, bind-ok,
}
use iis_meds.Logarithm.{ceil_log2}
use iis_meds.Params.{Param, pk_size, sk_size}
use iis_meds.Sage.{Field, Matrices}
use iis_meds.Shake.{Shake}
use iis_meds.Util.Compress.{range_from}
use iis_meds.Util.Compress.Tabulate.{length-row}
use iis_meds.Util.Hashing.{xof}
use iis_meds.Util.Sampling.{expand_fqs, expand_syst_mat, augmented}
use iis_meds.Util.Sampling.Linear.{Linear}
use iis_meds.Util.Sampling.Rows.{HasSize}
use iis_meds.Meds.{two, parse_public, parse_square, slice, crypto_sign, crypto_sign_open}
use iis_meds.Meds.Complete.{crypto_sign_open-crypto_sign}
use iis_meds.Meds.KeyGen.{
  next_keys, public_key, secret_key, crypto_sign_keypair, Keys, no_keys, make_keys, sign,
  open_signed,
}
use iis_meds.Meds.KeyPair.{IsKey, next_keys-IsKey}
use iis_meds.Meds.Matching.{IsKey-sizes, IsKey-AreMatching}
use iis_meds.Meds.Layout.{two-xof}
use iis_meds.Meds.PublicKey.{IsRoomy, IsWide, published, parse_public-public_key}
use iis_meds.Meds.Responses.{KeepSquares}
use iis_meds.Meds.SecretKey.{parse_square-secret_key}
use iis_meds.Meds.Squares.{IsSquare, length-expand_fqs}

module _ {F : Field} (S : Matrices F) (sh : Shake) (p : Param) (fuel : ℕ) where
  length-augmented :
      (k width i count : ℕ) (xs : List F.El)
      → length xs ≡ count * width
      → length (augmented S k width i count xs) ≡ count * (k + width)
  unfolding augmented
  length-augmented k width i zero xs e = omega arith
  length-augmented k width i (suc count) xs e =
      let row = map (λ j. F.of_int (if i == j then 1 else 0)) (range_from 0 k) in
      let rest = augmented S k width (i + 1) count (drop width xs) in
      let later : length rest ≡ count * (k + width) =
        length-augmented k width (i + 1) count (drop width xs)
          (omega (arith, length-drop width xs, e)) in
      omega (
        arith,
        length-append row (take width xs ++ rest),
        length-row (λ j. F.of_int (if i == j then 1 else 0)) 0 k,
        length-append (take width xs) rest,
        length-take width xs,
        e,
        later,
      )

  expand_syst_mat-HasSize :
      (seed_bytes : List ℕ) (k m n : ℕ) {g : S.Mat}
      → expand_syst_mat S sh fuel seed_bytes k m n ≡ ok g
      → HasSize S k (m * n) g
  unfolding expand_syst_mat
  expand_syst_mat-HasSize message k m n {g} e = elim (Bool-cases (leb k (m * n))) [
    | inl fits ↦
        let width = m * n - k in
        let ((xs, end), run, e0) =
          bind-ok (expand_fqs F sh message fuel 0 (k * width)) _ (rw fits at e) in
        let count = length-expand_fqs S sh p fuel message 0 (k * width) run in
        let whole : k + width ≡ m * n = ground arith in
        let long : length (augmented S k width 0 k xs) ≡ k * (m * n) =
          length-augmented k width 0 k xs count ∙ ap (λ c. k * c) whole in
        subst (HasSize S k (m * n)) (ok-injective _ g e0)
          (S.nrows-matrix k (m * n) _ long, S.ncols-matrix k (m * n) _ long)
    | inr wide ↦ let refused = rw wide at e in cc
  ]

  All-keys :
      {P : S.Mat × S.Mat × S.Mat → Type 0} (f : S.Mat × S.Mat × S.Mat → S.Mat) (Q : S.Mat → Type 0)
      (keys : List (S.Mat × S.Mat × S.Mat))
      → ((key : S.Mat × S.Mat × S.Mat) → P key → Q (f key))
      → All P keys
      → All Q (map f keys)
  All-keys f Q [] step h = tt
  All-keys f Q (key ∷ keys) step (here, later) = (step key here, All-keys f Q keys step later)

  -- The keys that `crypto_sign_keypair` makes lose nothing in the public key: their matrices have the
  -- entries that every public matrix has where these are fixed.
  abbrev pub ArePublishable : List ℕ → Type 0
  ArePublishable delta =
      (sigma_g sigma : List ℕ) (g : S.Mat) (keys : List (S.Mat × S.Mat × S.Mat))
      → two (xof sh delta (p.pub_seed_bytes ∷ p.sec_seed_bytes ∷ [])) ≡ ok (sigma_g, sigma)
      → expand_syst_mat S sh fuel sigma_g p.k p.m p.n ≡ ok g
      → next_keys S sh p fuel (p.s - 1) g sigma ≡ ok keys
      → map (published S sh p fuel) (map (λ key. key.2) keys) ≡ map (λ key. key.2) keys

  -- What is read from the two keys
  record Reads (g : S.Mat) (keys : List (S.Mat × S.Mat × S.Mat)) (sk pk : List ℕ) : Type 0 where
    f : ℕ
    same_seed : slice p.sec_seed_bytes p.pub_seed_bytes sk ≡ take p.pub_seed_bytes pk
    expanded : expand_syst_mat S sh fuel (take p.pub_seed_bytes pk) p.k p.m p.n ≡ ok g
    read_g :
        parse_public S sh p fuel (p.s - 1) p.pub_seed_bytes pk
        ≡ ok (map (published S sh p fuel) (map (λ key. key.2) keys))
    read_a :
        parse_square S sh p fuel (p.s - 1) p.m (p.sec_seed_bytes + p.pub_seed_bytes) sk
        ≡ ok (map (λ key. key.0) keys, f)
    read_b : parse_square S sh p fuel (p.s - 1) p.n f sk ≡ ok (map (λ key. key.1) keys, length sk)
    sk_long : length sk ≡ sk_size p
    pk_long : length pk ≡ pk_size p

  module _ (field : F.order ≡ p.q) (long : 8 ≤ ceil_log2 p.q) (roomy : IsRoomy p)
      (same_sides : p.m ≡ p.n) (laws : Linear S p.m p.n p.k) where
    keys-Reads :
        (delta sigma_g : List ℕ) (g : S.Mat) (keys : List (S.Mat × S.Mat × S.Mat)) {sk pk : List ℕ}
        → length delta ≡ p.sec_seed_bytes
        → length sigma_g ≡ p.pub_seed_bytes
        → expand_syst_mat S sh fuel sigma_g p.k p.m p.n ≡ ok g
        → (length keys ≡ p.s - 1) × All (IsKey S sh p fuel g) keys
        → public_key S p sigma_g (map (λ key. key.2) keys) ≡ ok pk
        → secret_key S p delta sigma_g (map (λ key. key.0) keys) (map (λ key. key.1) keys) ≡ ok sk
        → Reads g keys sk pk
    keys-Reads delta sigma_g g keys {sk} {pk} deltas seeds run_g (count, good) run_pk run_sk =
        let wide = expand_syst_mat-HasSize sigma_g p.k p.m p.n run_g in
        let sizes = IsKey-sizes S sh p fuel laws roomy.1 g wide in
        let firsts =
          All-keys (λ key. key.0) (IsSquare S p.m) keys (λ key k. (sizes key k).0.0) good in
        let seconds =
          All-keys (λ key. key.1) (IsSquare S p.n) keys (λ key k. (sizes key k).1.0) good in
        let thirds =
          All-keys (λ key. key.2) (IsWide S sh p fuel) keys (λ key k. (sizes key k).2) good in
        let (pk', made_pk, pk_long, pk_seed, pk_read) =
          parse_public-public_key S sh p fuel sigma_g (map (λ key. key.2) keys) field long roomy
            seeds (length-map keys (λ key. key.2) ∙ count) thirds in
        let (sk', f, made_sk, sk_long, sk_seed, sk_a, sk_b) =
          parse_square-secret_key S sh p fuel delta sigma_g (map (λ key. key.0) keys)
            (map (λ key. key.1) keys) field long (roomy.1, omega (arith, roomy.1, roomy.2))
            (deltas, seeds)
            (length-map keys (λ key. key.0) ∙ count, length-map keys (λ key. key.1) ∙ count)
            (firsts, seconds) in
        let made : Reads g keys sk' pk' = record {
          f = f;
          same_seed = sk_seed ∙ sym pk_seed;
          expanded = ap (λ l. expand_syst_mat S sh fuel l p.k p.m p.n) pk_seed ∙ run_g;
          read_g = pk_read;
          read_a = sk_a;
          read_b = sk_b;
          sk_long = sk_long;
          pk_long = pk_long;
        } in
        subst (λ l. Reads g keys l pk) (ok-injective sk' sk (sym made_sk ∙ run_sk))
          (subst (λ l. Reads g keys sk' l) (ok-injective pk' pk (sym made_pk ∙ run_pk)) made)

    -- What a run of key generation has gone through
    abbrev Generated : List ℕ → List ℕ → List ℕ → Type 0
    Generated delta sk pk =
        (sigma_g : List ℕ) × (sigma : List ℕ) × (g : S.Mat) × (keys : List (S.Mat × S.Mat × S.Mat))
        × (two (xof sh delta (p.pub_seed_bytes ∷ p.sec_seed_bytes ∷ [])) ≡ ok (sigma_g, sigma))
        × (expand_syst_mat S sh fuel sigma_g p.k p.m p.n ≡ ok g)
        × (next_keys S sh p fuel (p.s - 1) g sigma ≡ ok keys)
        × ((length keys ≡ p.s - 1) × All (IsKey S sh p fuel g) keys)
        × Reads g keys sk pk

    crypto_sign_keypair-Generated :
        (delta : List ℕ) {sk pk : List ℕ}
        → length delta ≡ p.sec_seed_bytes
        → crypto_sign_keypair S sh p fuel delta ≡ ok (sk, pk)
        → Generated delta sk pk
    unfolding crypto_sign_keypair
    crypto_sign_keypair-Generated delta {sk} {pk} deltas e =
        let ((sigma_g, sigma), run0, e0) =
          bind-ok (two (xof sh delta (p.pub_seed_bytes ∷ p.sec_seed_bytes ∷ []))) _ e in
        let (g, run1, e1) = bind-ok (expand_syst_mat S sh fuel sigma_g p.k p.m p.n) _ e0 in
        let (keys, run2, e2) = bind-ok (next_keys S sh p fuel (p.s - 1) g sigma) _ e1 in
        let (pk', run3, e3) = bind-ok (public_key S p sigma_g (map (λ key. key.2) keys)) _ e2 in
        let (sk', run4, e4) =
          bind-ok (secret_key S p delta sigma_g (map (λ key. key.0) keys) (map (λ key. key.1) keys))
            _ e3 in
        let wide = expand_syst_mat-HasSize sigma_g p.k p.m p.n run1 in
        let good = next_keys-IsKey S sh p fuel laws same_sides g wide (p.s - 1) sigma run2 in
        let (seeds, _) = two-xof sh delta p.pub_seed_bytes p.sec_seed_bytes run0 in
        let made = keys-Reads delta sigma_g g keys deltas seeds run1 good run3 run4 in
        let same : (sk', pk') ≡ (sk, pk) = ok-injective (sk', pk') (sk, pk) e4 in
        subst (λ r. Generated delta r.0 r.1) same
          (sigma_g, sigma, g, keys, run0, run1, run2, good, made)

    -- Keys that are made have the sizes that the parameters give.
    pub length-crypto_sign_keypair :
        (delta : List ℕ) {sk pk : List ℕ}
        → length delta ≡ p.sec_seed_bytes
        → crypto_sign_keypair S sh p fuel delta ≡ ok (sk, pk)
        → (length sk ≡ sk_size p) × (length pk ≡ pk_size p)
    length-crypto_sign_keypair delta deltas e =
        let (_, _, _, _, _, _, _, _, made) = crypto_sign_keypair-Generated delta deltas e in
        (made.sk_long, made.pk_long)

    open-sign :
        (delta delta' msg : List ℕ) {sk pk ms : List ℕ}
        → length delta ≡ p.sec_seed_bytes
        → (0 < p.st_seed_bytes) × (0 < p.w)
        → ArePublishable delta
        → crypto_sign_keypair S sh p fuel delta ≡ ok (sk, pk)
        → crypto_sign S sh p fuel delta' sk msg ≡ ok ms
        → crypto_sign_open S sh p fuel pk ms ≡ ok msg
    open-sign delta delta' msg {sk} {pk} deltas some_bytes publishable made signed =
        let (sigma_g, sigma, g, keys, run0, run1, run2, (count, good), found) =
          crypto_sign_keypair-Generated delta deltas made in
        let wide = expand_syst_mat-HasSize sigma_g p.k p.m p.n run1 in
        let keep : KeepSquares S sh p fuel = laws.mul_square in
        crypto_sign_open-crypto_sign S sh p fuel delta' sk pk msg g (map (λ key. key.2) keys)
          (map (λ key. key.0) keys) (map (λ key. key.1) keys) found.f (length sk) field long
          (roomy.1, omega (arith, roomy.1, roomy.2)) some_bytes keep found.same_seed found.expanded
          (found.read_g ∙ ap ok (publishable sigma_g sigma g keys run0 run1 run2)) found.read_a
          found.read_b (IsKey-AreMatching S sh p fuel laws roomy.1 g wide keys good) signed

    -- Whatever keys `crypto_sign_keypair` makes and keeps in the object, where `crypto_sign` then signs a
    -- message, `crypto_sign_open` gives the message back. (The keys lose nothing in the public key; a
    -- field element takes at least 8 bits, m and n are equal and the matrices have room for the fixed
    -- entries, the random bytes are as many as asked for, seeds have a byte at least, w is above 0, and
    -- Sage's matrices have the laws of linear algebra.)
    pub open_signed-sign :
        (delta delta' msg : List ℕ) {keys : Keys} {ms : List ℕ}
        → length delta ≡ p.sec_seed_bytes
        → (0 < p.st_seed_bytes) × (0 < p.w)
        → ArePublishable delta
        → make_keys S sh p fuel delta no_keys ≡ ok keys
        → sign S sh p fuel delta' keys msg ≡ ok ms
        → open_signed S sh p fuel keys ms ≡ ok msg
    unfolding make_keys sign open_signed
    open_signed-sign delta delta' msg {keys} {ms} deltas some_bytes publishable made signed =
        let ((sk, pk), run0, e0) = bind-ok (crypto_sign_keypair S sh p fuel delta) _ made in
        let same : record { sk = some sk; pk = some pk } ≡ keys = ok-injective _ keys e0 in
        let with_sk : sign S sh p fuel delta' (record { sk = some sk; pk = some pk }) msg ≡ ok ms =
          subst (λ k. sign S sh p fuel delta' k msg ≡ ok ms) (sym same) signed in
        subst (λ k. open_signed S sh p fuel k ms ≡ ok msg) same
          (open-sign delta delta' msg deltas some_bytes publishable run0 with_sk)
