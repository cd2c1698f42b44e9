-- ===== src/Meds/Accept.antt =====
-- What `crypto_sign_open` has checked when it accepts.
use iis_meds.Prelude.{
  ℕ, zero, suc, ◌+◌, ◌-◌, ◌*◌, List, [], ◌∷◌, ◌++◌, take, drop, length, ◌==◌, ◌&&◌, true, false,
  Bool-cases, inl, inr, ◌≡◌, Bool, bad_signature, refl, ap, ap₂, sym, ◌∙◌, arith, ok, raised,
  bind-ok,
}
use iis_meds.Shake.{Shake}
use iis_meds.Params.{Param, seed_tree_cost, sig_size}
use iis_meds.Sage.{Field, Matrices}
use iis_meds.SeedTree.{SeedTree}
use iis_meds.Util.Hashing.{digest}
use iis_meds.Util.SeedPath.{path_to_seed_tree}
use iis_meds.Util.Challenge.{parse_hash}
use iis_meds.Util.Challenge.Choice.{IsChoice, parse_hash-IsChoice}
use native.Mathlib.Nat.{mul_comm}
use iis_meds.Util.Sampling.{expand_syst_mat}
use iis_meds.Meds.Rounds.{Rounds, check_rounds-Rounds}
use iis_meds.Meds.{
  parse_public, check_round, Signed, split_signature, response_bytes, verdict, same_bytes,
  commitment, check_rounds, crypto_sign_open,
}

both : (a b : Bool) → (a && b) ≡ true → (a ≡ true) × (b ≡ true)
both true b h = (refl, h)
both false b h = cc

eq→≡ : (a b : ℕ) → a == b ≡ true → a ≡ b
eq→≡ a b h = ground arith

same_bytes-eq : (xs ys : List ℕ) → same_bytes xs ys ≡ true → xs ≡ ys
same_bytes-eq [] [] h = refl
same_bytes-eq [] (y ∷ ys) h = cc
same_bytes-eq (x ∷ xs) [] h = cc
same_bytes-eq (x ∷ xs) (y ∷ ys) h =
    let (first, rest) = both (x == y) (same_bytes xs ys) h in
    ap₂ ◌∷◌ (eq→≡ x y first) (same_bytes-eq xs ys rest)

verdict-ok :
    (parts : Signed) (d msg : List ℕ)
    → verdict parts d ≡ ok msg
    → (parts.hash ≡ d) × (parts.message ≡ msg)
verdict-ok parts d msg e = elim (Bool-cases (same_bytes parts.hash d)) [
  | inl same ↦ (
    same_bytes-eq parts.hash d same,
    (let run : verdict parts d ≡ ok parts.message = (unfold verdict in rw same refl) in cc),
  )
  | inr other ↦
      (let run : verdict parts d ≡ raised bad_signature = (unfold verdict in rw other refl) in cc)
]

drop-drop : (a b : ℕ) (xs : List ℕ) → drop a (drop b xs) ≡ drop (b + a) xs
drop-drop a zero xs = let e : 0 + a ≡ a = omega arith in rw e refl
drop-drop zero (suc b) [] = let e : suc b + 0 ≡ suc b = omega arith in rw e refl
drop-drop (suc a) (suc b) [] = let e : suc b + suc a ≡ suc (b + suc a) = omega arith in rw e refl
drop-drop a (suc b) (x ∷ xs) =
    let e : suc b + a ≡ suc (b + a) = omega arith in rw e (drop-drop a b xs)

-- The message is what stands behind the signature.
message-split_signature :
    (p : Param) (ms : List ℕ) → (split_signature p ms).message ≡ drop (sig_size p) ms
unfolding split_signature response_bytes sig_size
message-split_signature p ms =
    rw
      (
        drop-drop p.st_salt_bytes p.digest_bytes
            (drop (seed_tree_cost p) (drop (response_bytes p * p.w) ms)),
        drop-drop (p.digest_bytes + p.st_salt_bytes) (seed_tree_cost p)
            (drop (response_bytes p * p.w) ms),
        drop-drop (seed_tree_cost p + (p.digest_bytes + p.st_salt_bytes)) (response_bytes p * p.w)
            ms,
      )
      (ap (λ n. drop n ms) (omega (arith, mul_comm (response_bytes p) p.w)))

module _ {F : Field} (S : Matrices F) (sh : Shake) (p : Param) (fuel : ℕ) where
  length-check_rounds :
      (h : List ℕ) (i : ℕ) (gs : List S.Mat) (munu : List ℕ) (f : ℕ) (alpha : List ℕ)
      (sigma : SeedTree) {out : List S.Mat}
      → check_rounds S sh p fuel h i gs munu f alpha sigma ≡ ok out
      → length out ≡ length h
  unfolding check_rounds
  length-check_rounds [] i gs munu f alpha sigma {out} e =
      let same : out ≡ [] = cc in ap (λ xs. length xs) same
  length-check_rounds (x ∷ h) i gs munu f alpha sigma {out} e =
      let ((g, end, sigma'), _, later) =
        bind-ok (check_round S sh p fuel x i gs munu f alpha sigma) _ e in
      let (rest, run, last) =
        bind-ok (check_rounds S sh p fuel h (i + 1) gs munu end alpha sigma') _ later in
      let same : out ≡ g ∷ rest = cc in
      ap (λ xs. length xs) same
      ∙ ap suc (length-check_rounds h (i + 1) gs munu end alpha sigma' run)

  -- What stands behind an accepted message: the challenge, the recomputed matrices and their bytes.
  pub record Accepted (g0 : S.Mat) (more : List S.Mat) (ms msg : List ℕ) : Type 0 where
    pub challenge : List ℕ
    pub matrices : List S.Mat
    pub bytes : List ℕ
    pub parsed : parse_hash sh fuel (split_signature p ms).hash p ≡ ok challenge
    pub choice : IsChoice p p.w challenge
    pub checked :
        Rounds S sh p fuel
          (g0 ∷ more)
          (split_signature p ms).munu
          (split_signature p ms).salt
          challenge
          0
          0
          (path_to_seed_tree sh challenge
            (split_signature p ms).seeds
            (split_signature p ms).salt
            p)
          matrices
    pub rounds : length matrices ≡ p.t
    pub committed : commitment S sh p fuel matrices ≡ ok bytes
    pub bound : (split_signature p ms).hash ≡ digest sh p (bytes ++ msg)
    pub tail : msg ≡ drop (sig_size p) ms

  -- Verification accepts a message only if it is what stands behind the signature, the hash in the
  -- signature parses to a challenge of t entries with w marked ones, all t rounds are rounds of the step relation,
  -- where a marked one has two invertible matrices, and the hash is that of the recomputed matrices and
  -- the message.
  pub crypto_sign_open-Accepted :
      (pk ms : List ℕ) {msg : List ℕ}
      → crypto_sign_open S sh p fuel pk ms ≡ ok msg
      → (g0 : S.Mat) × (more : List S.Mat) × (expand_syst_mat S sh fuel
            (take p.pub_seed_bytes pk)
            p.k
            p.m
            p.n
          ≡ ok g0)
        × (parse_public S sh p fuel (p.s - 1) p.pub_seed_bytes pk ≡ ok more)
        × Accepted g0 more ms msg
  unfolding crypto_sign_open
  crypto_sign_open-Accepted pk ms {msg} e =
      let (g0, run0, e0) = bind-ok _ _ e in
      let (more, run1, e1) = bind-ok _ _ e0 in
      let (h, run2, e2) = bind-ok _ _ e1 in
      let (gs, run3, e3) = bind-ok _ _ e2 in
      let (comp, run4, e4) = bind-ok _ _ e3 in
      let parts = split_signature p ms in
      let (same, message) = verdict-ok parts (digest sh p (comp ++ parts.message)) msg e4 in
      let c = parse_hash-IsChoice sh parts.hash p fuel run2 in
      (
        g0,
        more,
        run0,
        run1,
        record {
          challenge = h;
          matrices = gs;
          bytes = comp;
          parsed = run2;
          choice = c;
          checked = check_rounds-Rounds S sh p fuel (g0 ∷ more) parts.munu parts.salt h 0 0 _ run3;
          rounds = length-check_rounds h 0 _ _ _ _ _ run3 ∙ c.long;
          committed = run4;
          bound = same ∙ ap (λ xs. digest sh p (comp ++ xs)) message;
          tail = sym message ∙ message-split_signature p ms;
        },
      )
