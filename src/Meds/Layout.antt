-- ===== src/Meds/Layout.antt =====
-- The bytes of a signed message, as `crypto_sign` of sage-ref/meds.py puts them together.
use native.Mathlib.Nat.{mul_comm}
use iis_meds.Prelude.{
  ℕ, ◌+◌, ◌-◌, ◌*◌, ◌<◌, ◌≤◌, List, [], ◌∷◌, ◌++◌, All, length, take, drop, take-append,
  drop-append, length-append, length-take, length-drop, append_assoc, ok, ◌≡◌, refl, ap, sym, ◌∙◌,
  subst, arith, bind-ok, ok-injective,
}
use iis_meds.Logarithm.{ceil_log2}
use iis_meds.Params.{Param, seed_tree_cost, sig_size}
use iis_meds.Sage.{Field, Matrices}
use iis_meds.SeedTree.{make, seed}
use iis_meds.Shake.{Shake, read_from, length-read_from}
use iis_meds.Util.Challenge.{parse_hash}
use iis_meds.Util.Challenge.Choice.{IsChoice, parse_hash-IsChoice}
use iis_meds.Util.Hashing.{xof, pieces, digest, hash_pair}
use iis_meds.Util.Sampling.{expand_syst_mat}
use iis_meds.Util.SeedPath.{seed_tree_to_path}
use iis_meds.Util.SeedPath.Size.{weight, length-seed_tree_to_path}
use iis_meds.Meds.{
  slice, two, response_bytes, split_signature, commit_all, commitment, third, parse_square,
  responses, crypto_sign,
}
use iis_meds.Meds.Squares.{IsSquare, parse_square-IsSquare, commit_all-IsRound}
use iis_meds.Meds.Responses.{KeepSquares, length-responses}

-- The parts of a signature come apart again.
pub split_signature-append :
    (p : Param) (munu path d alpha msg : List ℕ)
    → length munu ≡ response_bytes p * p.w
    → length path ≡ seed_tree_cost p
    → length d ≡ p.digest_bytes
    → length alpha ≡ p.st_salt_bytes
    → split_signature p (munu ++ path ++ d ++ alpha ++ msg)
      ≡ record { munu = munu; seeds = path; hash = d; salt = alpha; message = msg }
unfolding split_signature
split_signature-append p munu path d alpha msg munus paths ds alphas =
    let nested : munu ++ path ++ d ++ alpha ++ msg ≡ munu ++ (path ++ (d ++ (alpha ++ msg))) =
      append_assoc (munu ++ path ++ d) alpha msg
      ∙ append_assoc (munu ++ path) d (alpha ++ msg)
      ∙ append_assoc munu path (d ++ (alpha ++ msg)) in
    rw
      (
        nested,
        take-append (response_bytes p * p.w) munu (path ++ (d ++ (alpha ++ msg))) munus,
        drop-append (response_bytes p * p.w) munu (path ++ (d ++ (alpha ++ msg))) munus,
        take-append (seed_tree_cost p) path (d ++ (alpha ++ msg)) paths,
        drop-append (seed_tree_cost p) path (d ++ (alpha ++ msg)) paths,
        take-append p.digest_bytes d (alpha ++ msg) ds,
        drop-append p.digest_bytes d (alpha ++ msg) ds,
        take-append p.st_salt_bytes alpha msg alphas,
        drop-append p.st_salt_bytes alpha msg alphas,
      )
      refl

joined_size :
    (p : Param) (munu path d alpha msg : List ℕ)
    → length munu ≡ response_bytes p * p.w
    → length path ≡ seed_tree_cost p
    → length d ≡ p.digest_bytes
    → length alpha ≡ p.st_salt_bytes
    → length (munu ++ path ++ d ++ alpha ++ msg) ≡ sig_size p + length msg
unfolding sig_size response_bytes
joined_size p munu path d alpha msg munus paths ds alphas = omega (
  arith,
  length-append (munu ++ path ++ d ++ alpha) msg,
  length-append (munu ++ path ++ d) alpha,
  length-append (munu ++ path) d,
  length-append munu path,
  munus ∙ mul_comm (response_bytes p) p.w,
  paths,
  ds,
  alphas,
)

pub two-xof :
    (sh : Shake) (message : List ℕ) (a b : ℕ) {x y : List ℕ}
    → two (xof sh message (a ∷ b ∷ [])) ≡ ok (x, y)
    → (length x ≡ a) × (length y ≡ b)
unfolding two xof pieces read_from
two-xof sh message a b {x} {y} e =
    let bytes = read_from sh message 0 (a + (b + 0)) in
    let size = length-read_from sh message 0 (a + (b + 0)) in
    let first : take a bytes ≡ x = cc in
    let second : take b (drop a bytes) ≡ y = cc in
    (
      subst (λ l. length l ≡ a) first (omega (arith, length-take a bytes, size)),
      subst (λ l. length l ≡ b) second
          (omega (arith, length-take b (drop a bytes), length-drop a bytes, size)),
    )

module _ {F : Field} (S : Matrices F) (sh : Shake) (p : Param) (fuel : ℕ) where
  -- What `crypto_sign` has put into a signed message
  pub record IsSigned (delta sk ms msg : List ℕ) : Type 0 where
    pub root : List ℕ
    pub challenge : List ℕ
    pub g : S.Mat
    pub rounds : List (S.Mat × S.Mat × S.Mat)
    pub bytes : List ℕ
    pub size : length ms ≡ sig_size p + length msg
    pub message : (split_signature p ms).message ≡ msg
    pub seeds_from :
        two (xof sh delta (p.st_seed_bytes ∷ p.st_salt_bytes ∷ []))
        ≡ ok (root, (split_signature p ms).salt)
    -- The matrices of the rounds, from the first public matrix and the tree, and their bytes
    pub expanded :
        expand_syst_mat S sh fuel (slice p.sec_seed_bytes p.pub_seed_bytes sk) p.k p.m p.n ≡ ok g
    pub committed :
        commit_all S sh p fuel p.t 0 g
          (split_signature p ms).salt
          (make p.t (seed root) (hash_pair sh p (split_signature p ms).salt))
        ≡ ok rounds
    pub written : commitment S sh p fuel (third S sh p fuel rounds) ≡ ok bytes
    pub bound : (split_signature p ms).hash ≡ digest sh p (bytes ++ msg)
    pub parsed : parse_hash sh fuel (split_signature p ms).hash p ≡ ok challenge
    pub choice : IsChoice p p.w challenge
    pub opened :
        seed_tree_to_path sh challenge root (split_signature p ms).salt p
        ≡ ok (split_signature p ms).seeds

  joined-IsSigned :
      (delta sk msg root alpha bytes challenge munu path : List ℕ) (g : S.Mat)
      (rounds : List (S.Mat × S.Mat × S.Mat))
      → length munu ≡ weight challenge * response_bytes p
      → length path ≡ seed_tree_cost p
      → length alpha ≡ p.st_salt_bytes
      → two (xof sh delta (p.st_seed_bytes ∷ p.st_salt_bytes ∷ [])) ≡ ok (root, alpha)
      → expand_syst_mat S sh fuel (slice p.sec_seed_bytes p.pub_seed_bytes sk) p.k p.m p.n ≡ ok g
      → commit_all S sh p fuel p.t 0 g alpha (make p.t (seed root) (hash_pair sh p alpha))
        ≡ ok rounds
      → commitment S sh p fuel (third S sh p fuel rounds) ≡ ok bytes
      → parse_hash sh fuel (digest sh p (bytes ++ msg)) p ≡ ok challenge
      → IsChoice p p.w challenge
      → seed_tree_to_path sh challenge root alpha p ≡ ok path
      → IsSigned delta sk (munu ++ path ++ digest sh p (bytes ++ msg) ++ alpha ++ msg) msg
  unfolding digest
  joined-IsSigned delta sk msg root alpha bytes challenge munu path g rounds munus paths alphas
        drawn expanded committed written parsed choice opened =
      let d = digest sh p (bytes ++ msg) in
      let ds : length d ≡ p.digest_bytes = length-read_from sh (bytes ++ msg) 0 p.digest_bytes in
      let long : length munu ≡ response_bytes p * p.w =
        munus ∙ ap (λ w. w * response_bytes p) choice.chosen ∙ mul_comm p.w (response_bytes p) in
      let parts = split_signature-append p munu path d alpha msg long paths ds alphas in
      record {
        root = root;
        challenge = challenge;
        g = g;
        rounds = rounds;
        bytes = bytes;
        size = joined_size p munu path d alpha msg long paths ds alphas;
        message = rw parts refl;
        seeds_from = rw parts drawn;
        expanded = expanded;
        committed = rw parts committed;
        written = written;
        bound = rw parts refl;
        parsed = rw parts parsed;
        choice = choice;
        opened = rw parts opened;
      }

  -- A signed message has sig_size bytes more than the message, and verification cuts it into the parts
  -- that signing has made: the message, the salt from the random bytes, the hash of the message behind the
  -- bytes of the matrices of the t rounds, which are those of the first public matrix of the secret key and
  -- of the tree of seeds, and the path that shows, of the tree that grows from the root, the seeds that the
  -- challenge in the hash does not mark. (It is for a message that is signed; a field element takes at
  -- least 8 bits, 1 ≤ m and 1 ≤ n, seeds have a byte at least, and w is above 0.)
  pub crypto_sign-IsSigned :
      (delta sk msg : List ℕ) {ms : List ℕ}
      → F.order ≡ p.q
      → 8 ≤ ceil_log2 p.q
      → (1 ≤ p.m) × (1 ≤ p.n)
      → (0 < p.st_seed_bytes) × (0 < p.w)
      → KeepSquares S sh p fuel
      → crypto_sign S sh p fuel delta sk msg ≡ ok ms
      → IsSigned delta sk ms msg
  unfolding crypto_sign
  crypto_sign-IsSigned delta sk msg {ms} field long pos some_bytes keep e =
      let sigma_g = slice p.sec_seed_bytes p.pub_seed_bytes sk in
      let (g, run0, e0) = bind-ok (expand_syst_mat S sh fuel sigma_g p.k p.m p.n) _ e in
      let ((a_inv, f), run1, e1) =
        bind-ok (parse_square S sh p fuel (p.s - 1) p.m (p.sec_seed_bytes + p.pub_seed_bytes) sk) _
          e0 in
      let ((b_inv, end), run2, e2) = bind-ok (parse_square S sh p fuel (p.s - 1) p.n f sk) _ e1 in
      let ((rho, alpha), run3, e3) =
        bind-ok (two (xof sh delta (p.st_seed_bytes ∷ p.st_salt_bytes ∷ []))) _ e2 in
      let sigma = make p.t (seed rho) (hash_pair sh p alpha) in
      let (rounds, run4, e4) = bind-ok (commit_all S sh p fuel p.t 0 g alpha sigma) _ e3 in
      let (comp, run5, e5) = bind-ok (commitment S sh p fuel (third S sh p fuel rounds)) _ e4 in
      let d = digest sh p (comp ++ msg) in
      let (h, run6, e6) = bind-ok (parse_hash sh fuel d p) _ e5 in
      let (ret, run7, e7) = bind-ok (responses S sh p fuel h rounds a_inv b_inv) _ e6 in
      let (path, run8, e8) = bind-ok (seed_tree_to_path sh h rho alpha p) _ e7 in
      let c = parse_hash-IsChoice sh d p fuel run6 in
      let (rounds_long, squares) = commit_all-IsRound S sh p fuel p.t 0 g alpha sigma run4 in
      let (rho_long, alpha_long) = two-xof sh delta p.st_seed_bytes p.st_salt_bytes run3 in
      let inverses : All (IsSquare S p.m) a_inv × All (IsSquare S p.n) b_inv = (
        parse_square-IsSquare S sh p fuel (p.s - 1) p.m (p.sec_seed_bytes + p.pub_seed_bytes) sk
            run1,
        parse_square-IsSquare S sh p fuel (p.s - 1) p.n f sk run2,
      ) in
      let ret_size =
        length-responses S sh p fuel h rounds a_inv b_inv field long pos keep inverses
          (c.long ∙ sym rounds_long) squares run7 in
      let (bytes, run9, path_size) =
        length-seed_tree_to_path sh p h rho alpha some_bytes.0 rho_long c.long c.chosen
          some_bytes.1 in
      let same_path : bytes ≡ path = ok-injective bytes path (sym run9 ∙ run8) in
      let same : ret ++ path ++ d ++ alpha ++ msg ≡ ms = ok-injective _ ms e8 in
      subst (λ l. IsSigned delta sk l msg) same
        (joined-IsSigned delta sk msg rho alpha comp h ret path g rounds ret_size
          (ap (λ l. length l) (sym same_path) ∙ path_size) alpha_long run3 run0 run4 run5 run6 c
          run8)
