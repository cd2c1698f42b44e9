-- ===== src/Meds/Answers.antt =====
-- What `crypto_sign_open` of sage-ref/meds.py makes of the signer's answer to a marked round.
use iis_meds.Prelude.{
  ℕ, zero, suc, ◌+◌, ◌-◌, ◌*◌, ◌<◌, ◌≤◌, ◌&&◌, true, List, [], ◌∷◌, ◌++◌, All, length,
  length-append, append_assoc, Option, some, none, Result, ok, ok-injective, ◌≡◌, ap, sym, ◌∙◌,
  subst, arith, bind-ok,
}
use iis_meds.Logarithm.{ceil_log2}
use iis_meds.Params.{Param, bytes_for}
use iis_meds.Sage.{Field, Matrices}
use iis_meds.SeedTree.{SeedTree, seed, item, set_leaf}
use iis_meds.Shake.{Shake}
use iis_meds.Util.Compress.{compress, decompress}
use iis_meds.Util.Hashing.{xof, to_bytes4}
use iis_meds.Util.Sampling.{expand_inv_mat, pi, sf}
use iis_meds.Util.Sampling.Linear.{IsRegular}
use iis_meds.Meds.{slice, nth, seed_bytes, three, commit, answer, check_response, move_public}
use iis_meds.Meds.Responses.{KeepSquares, nth-All}
use iis_meds.Meds.SecretKey.{slice-append, square_bytes}
use iis_meds.Meds.Squares.{IsSquare}

module _ {F : Field} (S : Matrices F) (sh : Shake) (p : Param) (fuel : ℕ) where
  -- The matrix of a round is that of the two secret ones, in systematic form.
  abbrev pub Moves : S.Mat → S.Mat → S.Mat → S.Mat → Type 0
  Moves g a b g' = (moved : S.Mat) × (pi S a b g ≡ ok moved) × (sf S moved ≡ ok (some g'))

  settle-Moves :
      (g : S.Mat) (form : Option S.Mat) (x y moved : S.Mat) (sigma : SeedTree)
      (again : Result (S.Mat × S.Mat × S.Mat × SeedTree)) {a b g' : S.Mat} {sigma' : SeedTree}
      → pi S x y g ≡ ok moved
      → sf S moved ≡ ok form
      → (again ≡ ok (a, b, g', sigma') → Moves g a b g')
      → elim form [ some g ↦ ok (x, y, g, sigma) | none ↦ again ] ≡ ok (a, b, g', sigma')
      → Moves g a b g'
  settle-Moves g none x y moved sigma again run0 run1 later e = later e
  settle-Moves g (some g1) x y moved sigma again {a} {b} {g'} {sigma'} run0 run1 later e =
      let same : (x, y, g1, sigma) ≡ (a, b, g', sigma') = ok-injective _ _ e in
      subst (λ r. Moves g r.0 r.1 r.2) same (moved, run0, run1)

  pub commit-Moves :
      (tries : ℕ) (g : S.Mat) (alpha : List ℕ) (i : ℕ) (sigma : SeedTree) {a b g' : S.Mat}
      {sigma' : SeedTree}
      → commit S sh p fuel tries g alpha i sigma ≡ ok (a, b, g', sigma')
      → Moves g a b g'
  unfolding commit
  commit-Moves zero g alpha i sigma e = cc
  commit-Moves (suc tries) g alpha i sigma e =
      let (v, run0, e0) = bind-ok (item sigma i) _ e in
      let (bytes, run1, e1) = bind-ok (seed_bytes v) _ e0 in
      let ((seed_a, seed_b, next), run2, e2) =
        bind-ok
          (three (
            xof sh (alpha ++ bytes ++ to_bytes4 i)
              (p.pub_seed_bytes ∷ p.pub_seed_bytes ∷ p.st_seed_bytes ∷ [])))
          _ e1 in
      let (s1, run3, e3) = bind-ok (set_leaf sigma i (seed next)) _ e2 in
      let (x, run4, e4) = bind-ok (expand_inv_mat S sh fuel seed_a p.m) _ e3 in
      let (y, run5, e5) = bind-ok (expand_inv_mat S sh fuel seed_b p.n) _ e4 in
      let (moved, run6, e6) = bind-ok (pi S x y g) _ e5 in
      let (form, run7, e7) = bind-ok (sf S moved) _ e6 in
      settle-Moves g form x y moved s1 (commit S sh p fuel tries g alpha i s1) run6 run7
        (commit-Moves tries g alpha i s1) e7

  -- The keys belong together: the public matrix of index x, moved by the products of the secret
  -- matrices of a round with those of index x, has the systematic form that the secret matrices of the
  -- round give the first public matrix.
  abbrev pub AreMatching : S.Mat → List S.Mat → List S.Mat → List S.Mat → Type 0
  AreMatching g gs a_inv b_inv =
      (x : ℕ) (a b ai bi g' : S.Mat)
      → 0 < x
      → IsRegular S p.m a × IsRegular S p.n b
      → (nth a_inv (x - 1) ≡ ok ai) × (nth b_inv (x - 1) ≡ ok bi)
      → Moves g a b g'
      → ((S.is_invertible (S.mul a ai) && S.is_invertible (S.mul bi b)) ≡ true)
        × (move_public S sh p fuel gs x (S.mul a ai) (S.mul bi b) ≡ ok g')

  check_response-parts :
      (gs : List S.Mat) (x : ℕ) (mu nu g' : S.Mat) (mu_bytes nu_bytes before after : List ℕ) (f : ℕ)
      → length before ≡ f
      → length mu_bytes ≡ bytes_for (ceil_log2 p.q * p.m * p.m)
      → length nu_bytes ≡ bytes_for (ceil_log2 p.q * p.n * p.n)
      → decompress S mu_bytes p.m p.m ≡ ok mu
      → decompress S nu_bytes p.n p.n ≡ ok nu
      → (S.is_invertible mu && S.is_invertible nu) ≡ true
      → move_public S sh p fuel gs x mu nu ≡ ok g'
      → check_response S sh p fuel (before ++ (mu_bytes ++ nu_bytes) ++ after) f gs x
        ≡ ok (g', f + length (mu_bytes ++ nu_bytes))
  unfolding check_response
  check_response-parts gs x mu nu g' ms ns before after f at_f mus nus run_mu run_nu good moved =
      let apart : before ++ (ms ++ ns) ++ after ≡ before ++ ms ++ ns ++ after =
        ap (λ xs. xs ++ after) (sym (append_assoc before ms ns)) in
      let first : slice f (bytes_for (ceil_log2 p.q * p.m * p.m)) (before ++ ms ++ ns ++ after)
          ≡ ms =
        ap (slice f (bytes_for (ceil_log2 p.q * p.m * p.m))) (append_assoc (before ++ ms) ns after)
        ∙ slice-append before ms (ns ++ after) f _ at_f mus in
      let second : slice (f + bytes_for (ceil_log2 p.q * p.m * p.m))
            (bytes_for (ceil_log2 p.q * p.n * p.n)) (before ++ ms ++ ns ++ after)
          ≡ ns =
        slice-append (before ++ ms) ns after _ _ (omega (arith, length-append before ms, at_f, mus))
          nus in
      rw (apart, first, second, run_mu, run_nu, good, moved)
        (ap (λ e. ok (g', e)) (omega (arith, length-append ms ns, mus, nus)))

  -- From a signer's answer verification gets the signer's matrix of the round.
  pub check_response-answer :
      (g : S.Mat) (gs a_inv b_inv : List S.Mat) (x : ℕ) (a b g' : S.Mat) {first : List ℕ}
      → F.order ≡ p.q
      → 8 ≤ ceil_log2 p.q
      → (1 ≤ p.m) × (1 ≤ p.n)
      → KeepSquares S sh p fuel
      → AreMatching g gs a_inv b_inv
      → All (IsSquare S p.m) a_inv × All (IsSquare S p.n) b_inv
      → 0 < x
      → IsRegular S p.m a × IsRegular S p.n b
      → Moves g a b g'
      → answer S sh p fuel x a b a_inv b_inv ≡ ok first
      → (before after : List ℕ) (f : ℕ) → length before ≡ f
      → check_response S sh p fuel (before ++ first ++ after) f gs x ≡ ok (g', f + length first)
  unfolding answer
  check_response-answer g gs a_inv b_inv x a b g' {first} field long pos keep matching inverses
        marked squares moves e before after f at_f =
      let (ai, run0, e0) = bind-ok (nth a_inv (x - 1)) _ e in
      let (bi, run1, e1) = bind-ok (nth b_inv (x - 1)) _ e0 in
      let (mu, run2, e2) = bind-ok (compress S (S.mul a ai)) _ e1 in
      let (nu, run3, e3) = bind-ok (compress S (S.mul bi b)) _ e2 in
      let left =
        keep p.m a ai squares.0.0 (nth-All (IsSquare S p.m) a_inv (x - 1) inverses.0 run0) in
      let right =
        keep p.n bi b (nth-All (IsSquare S p.n) b_inv (x - 1) inverses.1 run1) squares.1.0 in
      let (good, moved) = matching x a b ai bi g' marked squares (run0, run1) moves in
      let (mu', run_mu, size_mu, back_mu) =
        square_bytes S sh p fuel p.m (S.mul a ai) pos.0 field long left in
      let (nu', run_nu, size_nu, back_nu) =
        square_bytes S sh p fuel p.n (S.mul bi b) pos.1 field long right in
      let same : mu' ++ nu' ≡ first =
        ap (λ xs. xs ++ nu') (ok-injective mu' mu (sym run_mu ∙ run2))
        ∙ ap (◌++◌ mu) (ok-injective nu' nu (sym run_nu ∙ run3))
        ∙ ok-injective (mu ++ nu) first e3 in
      subst (λ l. check_response S sh p fuel (before ++ l ++ after) f gs x ≡ ok (g', f + length l))
        same
        (check_response-parts gs x (S.mul a ai) (S.mul bi b) g' mu' nu' before after f at_f size_mu
          size_nu back_mu back_nu good moved)
