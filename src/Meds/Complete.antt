-- ===== src/Meds/Complete.antt =====
-- `crypto_sign_open` of sage-ref/meds.py on what `crypto_sign` makes.
use iis_meds.Prelude.{
  ℕ, suc, ◌+◌, ◌-◌, ◌*◌, ◌^◌, ◌<◌, ◌≤◌, true, false, eq-true, List, [], ◌∷◌, ◌++◌, All, length,
  take, get_or, append-nil, ok, ok-injective, ltb, ◌≡◌, refl, ap, sym, ◌∙◌, subst, arith, bind-ok,
}
use native.Mathlib.Nat.{mul_comm}
use iis_meds.Logarithm.{ceil_log2, le-ceil_log2}
use iis_meds.Params.{Param}
use iis_meds.Sage.{Field, Matrices}
use iis_meds.SeedTree.{SeedTree, seed, item, make}
use iis_meds.Shake.{Shake, length-read_from}
use iis_meds.Util.Challenge.{parse_hash}
use iis_meds.Util.Challenge.Choice.{parse_hash-IsChoice}
use iis_meds.Util.Hashing.{xof, digest, hash_pair}
use iis_meds.Util.Sampling.{expand_syst_mat}
use iis_meds.Util.SeedPath.{seed_tree_to_path, path_to_seed_tree}
use iis_meds.Util.SeedPath.RoundTrip.{path_to_seed_tree-seed_tree_to_path}
use iis_meds.Util.SeedPath.Size.{length-seed_tree_to_path}
use iis_meds.Meds.{
  slice, two, same_bytes, Signed, split_signature, verdict, response_bytes, commit_all, commitment,
  third, parse_square, responses, crypto_sign, parse_public, check_rounds, crypto_sign_open,
}
use iis_meds.Meds.Answers.{AreMatching}
use iis_meds.Meds.Responses.{KeepSquares, length-responses}
use iis_meds.Meds.Layout.{split_signature-append, two-xof}
use iis_meds.Meds.Replay.{Agree, check_rounds-responses}
use iis_meds.Meds.Squares.{IsSquare, parse_square-IsSquare, commit_all-IsRound}

same_bytes_refl : (xs : List ℕ) → same_bytes xs xs ≡ true
same_bytes_refl [] = refl
same_bytes_refl (x ∷ xs) = rw (eq-true x x refl) (same_bytes_refl xs)

Agree-items :
    (h : List ℕ) (i : ℕ) (sigma tau : SeedTree)
    → ((j : ℕ)
        → j < length h
        → ltb 0 (get_or h j 0) ≡ false
        → item tau (i + j) ≡ item sigma (i + j))
    → Agree h i sigma tau
Agree-items [] i sigma tau same = tt
Agree-items (x ∷ h) i sigma tau same = (
  λ unmarked. let e : i + 0 ≡ i = omega arith in rw e at (same 0 (omega arith) unmarked),
  Agree-items h (i + 1) sigma tau (λ j inside unmarked.
      let e : i + suc j ≡ i + 1 + j = omega arith in
      rw e at (same (suc j) (omega (arith, inside)) unmarked)),
)

-- Verification grows a tree with the seeds of the rounds that are not marked.
Agree-path :
    (sh : Shake) (p : Param) (h root alpha path : List ℕ)
    → 0 < p.st_seed_bytes
    → length root ≡ p.st_seed_bytes
    → length h ≡ p.t
    → seed_tree_to_path sh h root alpha p ≡ ok path
    → Agree h 0 (make p.t (seed root) (hash_pair sh p alpha)) (path_to_seed_tree sh h path alpha p)
Agree-path sh p h root alpha path some_bytes roots marks run =
    let (bytes, run', items) =
      path_to_seed_tree-seed_tree_to_path sh p h root alpha some_bytes roots marks in
    let same : bytes ≡ path = ok-injective bytes path (sym run' ∙ run) in
    subst
      (λ l.
        Agree h 0 (make p.t (seed root) (hash_pair sh p alpha)) (path_to_seed_tree sh h l alpha p))
      same
      (Agree-items h 0 _ _ (λ j inside unmarked.
        let e : 0 + j ≡ j = omega arith in
        rw e (items j (omega (arith, inside, marks)) ∙ rw unmarked refl)))

module _ {F : Field} (S : Matrices F) (sh : Shake) (p : Param) (fuel : ℕ) where
  open-parts :
      (pk ms msg : List ℕ) (parts : Signed) (g : S.Mat) (more gs : List S.Mat) (h comp : List ℕ)
      → split_signature p ms ≡ parts
      → expand_syst_mat S sh fuel (take p.pub_seed_bytes pk) p.k p.m p.n ≡ ok g
      → parse_public S sh p fuel (p.s - 1) p.pub_seed_bytes pk ≡ ok more
      → parse_hash sh fuel parts.hash p ≡ ok h
      → check_rounds S sh p fuel h 0
          (g ∷ more)
          parts.munu
          0
          parts.salt
          (path_to_seed_tree sh h parts.seeds parts.salt p)
        ≡ ok gs
      → commitment S sh p fuel gs ≡ ok comp
      → parts.hash ≡ digest sh p (comp ++ msg)
      → parts.message ≡ msg
      → crypto_sign_open S sh p fuel pk ms ≡ ok msg
  unfolding crypto_sign_open verdict
  open-parts pk ms msg parts g more gs h comp cut e0 e1 e2 e3 e4 bound message =
      rw (cut, e0, e1, e2, e3, e4, message, sym bound, same_bytes_refl parts.hash) refl

  make-room :
      (root alpha : List ℕ) → 0 + p.t ≤ 2 ^ (make p.t (seed root) (hash_pair sh p alpha)).height
  unfolding make
  make-room root alpha = omega (arith, le-ceil_log2 p.t)

  -- The signed message, from what the parts of signing give
  open-joined :
      (pk msg root alpha comp h munu path : List ℕ) (g : S.Mat) (more a_inv b_inv : List S.Mat)
      (rounds : List (S.Mat × S.Mat × S.Mat))
      → F.order ≡ p.q
      → 8 ≤ ceil_log2 p.q
      → (1 ≤ p.m) × (1 ≤ p.n)
      → (0 < p.st_seed_bytes) × (0 < p.w)
      → KeepSquares S sh p fuel
      → All (IsSquare S p.m) a_inv × All (IsSquare S p.n) b_inv
      → AreMatching S sh p fuel g (g ∷ more) a_inv b_inv
      → expand_syst_mat S sh fuel (take p.pub_seed_bytes pk) p.k p.m p.n ≡ ok g
      → parse_public S sh p fuel (p.s - 1) p.pub_seed_bytes pk ≡ ok more
      → (length root ≡ p.st_seed_bytes) × (length alpha ≡ p.st_salt_bytes)
      → commit_all S sh p fuel p.t 0 g alpha (make p.t (seed root) (hash_pair sh p alpha))
        ≡ ok rounds
      → commitment S sh p fuel (third S sh p fuel rounds) ≡ ok comp
      → parse_hash sh fuel (digest sh p (comp ++ msg)) p ≡ ok h
      → responses S sh p fuel h rounds a_inv b_inv ≡ ok munu
      → seed_tree_to_path sh h root alpha p ≡ ok path
      → crypto_sign_open S sh p fuel pk (munu ++ path ++ digest sh p (comp ++ msg) ++ alpha ++ msg)
        ≡ ok msg
  unfolding digest
  open-joined pk msg root alpha comp h munu path g more a_inv b_inv rounds field long pos some_bytes
        keep inverses matching run_g run_more sizes run_rounds run_comp run_h run_munu run_path =
      let d = digest sh p (comp ++ msg) in
      let c = parse_hash-IsChoice sh d p fuel run_h in
      let sigma = make p.t (seed root) (hash_pair sh p alpha) in
      let (rounds_long, squares) = commit_all-IsRound S sh p fuel p.t 0 g alpha sigma run_rounds in
      let munus =
        length-responses S sh p fuel h rounds a_inv b_inv field long pos keep inverses
          (c.long ∙ sym rounds_long) squares run_munu
        ∙ ap (λ w. w * response_bytes p) c.chosen
        ∙ mul_comm p.w (response_bytes p) in
      let (bytes, run', paths) =
        length-seed_tree_to_path sh p h root alpha some_bytes.0 sizes.0 c.long c.chosen
          some_bytes.1 in
      let same_path : bytes ≡ path = ok-injective bytes path (sym run' ∙ run_path) in
      let cut =
        split_signature-append p munu path d alpha msg munus
          (ap (λ l. length l) (sym same_path) ∙ paths)
          (length-read_from sh (comp ++ msg) 0 p.digest_bytes) sizes.1 in
      let agree = Agree-path sh p h root alpha path some_bytes.0 sizes.0 c.long run_path in
      let rounds_of_h : commit_all S sh p fuel (length h) 0 g alpha sigma ≡ ok rounds =
        ap (λ t. commit_all S sh p fuel t 0 g alpha sigma) c.long ∙ run_rounds in
      let checked =
        check_rounds-responses S sh p fuel g more a_inv b_inv alpha field long pos keep matching
          inverses h 0 sigma (path_to_seed_tree sh h path alpha p)
          (omega (arith, c.long, make-room root alpha)) agree rounds_of_h run_munu [] [] 0 refl in
      open-parts pk (munu ++ path ++ d ++ alpha ++ msg) msg
        (record { munu = munu; seeds = path; hash = d; salt = alpha; message = msg }) g more
        (third S sh p fuel rounds) h comp cut run_g run_more run_h (rw (append-nil munu) at checked)
        run_comp refl refl

  -- Where signing with a secret key gives a signed message, verification with the public key gives the
  -- message back, if both keys have the seed of the same first matrix, the other public matrices are
  -- read from the public key, and they match the secret matrices, in that a public matrix, moved by an
  -- honest answer, is the signer's matrix. (A field element takes at least 8 bits, 1 ≤ m and 1 ≤ n,
  -- seeds have a byte at least, w is above 0, and products of square matrices have their size.)
  pub crypto_sign_open-crypto_sign :
      (delta sk pk msg : List ℕ) (g : S.Mat) (more a_inv b_inv : List S.Mat) (f end : ℕ)
      {ms : List ℕ}
      → F.order ≡ p.q
      → 8 ≤ ceil_log2 p.q
      → (1 ≤ p.m) × (1 ≤ p.n)
      → (0 < p.st_seed_bytes) × (0 < p.w)
      → KeepSquares S sh p fuel
      → slice p.sec_seed_bytes p.pub_seed_bytes sk ≡ take p.pub_seed_bytes pk
      → expand_syst_mat S sh fuel (take p.pub_seed_bytes pk) p.k p.m p.n ≡ ok g
      → parse_public S sh p fuel (p.s - 1) p.pub_seed_bytes pk ≡ ok more
      → parse_square S sh p fuel (p.s - 1) p.m (p.sec_seed_bytes + p.pub_seed_bytes) sk
        ≡ ok (a_inv, f)
      → parse_square S sh p fuel (p.s - 1) p.n f sk ≡ ok (b_inv, end)
      → AreMatching S sh p fuel g (g ∷ more) a_inv b_inv
      → crypto_sign S sh p fuel delta sk msg ≡ ok ms
      → crypto_sign_open S sh p fuel pk ms ≡ ok msg
  unfolding crypto_sign
  crypto_sign_open-crypto_sign delta sk pk msg g more a_inv b_inv f end {ms} field long pos
        some_bytes keep seeds run_g run_more run_a run_b matching e =
      let sigma_g = slice p.sec_seed_bytes p.pub_seed_bytes sk in
      let start : expand_syst_mat S sh fuel sigma_g p.k p.m p.n ≡ ok g =
        ap (λ l. expand_syst_mat S sh fuel l p.k p.m p.n) seeds ∙ run_g in
      let e0 = rw (start, run_a, run_b) at e in
      let ((rho, alpha), run3, e3) =
        bind-ok (two (xof sh delta (p.st_seed_bytes ∷ p.st_salt_bytes ∷ []))) _ e0 in
      let sigma = make p.t (seed rho) (hash_pair sh p alpha) in
      let (rounds, run4, e4) = bind-ok (commit_all S sh p fuel p.t 0 g alpha sigma) _ e3 in
      let (comp, run5, e5) = bind-ok (commitment S sh p fuel (third S sh p fuel rounds)) _ e4 in
      let d = digest sh p (comp ++ msg) in
      let (h, run6, e6) = bind-ok (parse_hash sh fuel d p) _ e5 in
      let (ret, run7, e7) = bind-ok (responses S sh p fuel h rounds a_inv b_inv) _ e6 in
      let (path, run8, e8) = bind-ok (seed_tree_to_path sh h rho alpha p) _ e7 in
      let inverses : All (IsSquare S p.m) a_inv × All (IsSquare S p.n) b_inv = (
        parse_square-IsSquare S sh p fuel (p.s - 1) p.m (p.sec_seed_bytes + p.pub_seed_bytes) sk
            run_a,
        parse_square-IsSquare S sh p fuel (p.s - 1) p.n f sk run_b,
      ) in
      let same : ret ++ path ++ d ++ alpha ++ msg ≡ ms = ok-injective _ ms e8 in
      subst (λ l. crypto_sign_open S sh p fuel pk l ≡ ok msg) same
        (open-joined pk msg rho alpha comp h ret path g more a_inv b_inv rounds field long pos
          some_bytes keep inverses matching run_g run_more
          (two-xof sh delta p.st_seed_bytes p.st_salt_bytes run3) run4 run5 run6 run7 run8)
