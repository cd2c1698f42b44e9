-- ===== src/Meds/Rounds.antt =====
-- The rounds of `crypto_sign_open`, as steps.
use iis_meds.Prelude.{
  ℕ, zero, suc, ◌+◌, ◌*◌, ◌<◌, List, [], ◌∷◌, lt→ltb, true, false, ◌&&◌, if◌then◌else◌, ◌≡◌, refl,
  subst, ap, sym, ◌∙◌, arith, Result, ok, raised, bad_signature, bind-ok, Option, some, none, Bool,
}
use iis_meds.Shake.{Shake}
use iis_meds.Logarithm.{ceil_log2}
use iis_meds.Params.{Param, bytes_for}
use iis_meds.Sage.{Field, Matrices}
use iis_meds.SeedTree.{SeedTree}
use iis_meds.Util.Compress.{decompress}
use iis_meds.Util.Sampling.{pi, sf}
use iis_meds.Meds.{slice, nth, commit, move_public, check_response, check_round, check_rounds}

module _ {F : Field} (S : Matrices F) (sh : Shake) (p : Param) (fuel : ℕ) (gs : List S.Mat)
    (munu alpha : List ℕ) where
  -- A marked round with entry x, at byte f: the answer is two invertible matrices, which move the
  -- public matrix x to `out`.
  pub record Answers (x f : ℕ) (out : S.Mat) : Type 0 where
    pub mu : S.Mat
    pub nu : S.Mat
    pub g : S.Mat
    pub moved : S.Mat
    pub read_mu :
        decompress S (slice f (bytes_for (ceil_log2 p.q * p.m * p.m)) munu) p.m p.m ≡ ok mu
    pub read_nu :
        decompress S
          (slice
            (f + bytes_for (ceil_log2 p.q * p.m * p.m))
            (bytes_for (ceil_log2 p.q * p.n * p.n))
            munu)
          p.n
          p.n
        ≡ ok nu
    pub regular : (S.is_invertible mu ≡ true) × (S.is_invertible nu ≡ true)
    pub public : nth gs x ≡ ok g
    pub moves : pi S mu nu g ≡ ok moved
    pub normal : sf S moved ≡ ok (some out)

  -- The rounds of a challenge from round i, byte f and a tree of seeds on, and the matrices they give.
  pub data Rounds : List ℕ → ℕ → ℕ → SeedTree → List S.Mat → Type 0 where
    over : {i f : ℕ} {sigma : SeedTree} → Rounds [] i f sigma []
    marked :
        {x i f : ℕ} {h : List ℕ} {sigma : SeedTree} {g : S.Mat} {rest : List S.Mat}
        → 0 < x
        → Answers x f g
        → Rounds h
            (i + 1)
            (f + bytes_for (ceil_log2 p.q * p.m * p.m) + bytes_for (ceil_log2 p.q * p.n * p.n))
            sigma
            rest
        → Rounds (x ∷ h) i f sigma (g ∷ rest)
    unmarked :
        {i f : ℕ} {h : List ℕ} {sigma sigma' : SeedTree} {g0 a b g : S.Mat} {rest : List S.Mat}
        → nth gs 0 ≡ ok g0
        → commit S sh p fuel fuel g0 alpha i sigma ≡ ok (a, b, g, sigma')
        → Rounds h (i + 1) f sigma' rest
        → Rounds (0 ∷ h) i f sigma (g ∷ rest)

  move_public-some :
      (x : ℕ) (mu nu : S.Mat) {out : S.Mat}
      → move_public S sh p fuel gs x mu nu ≡ ok out
      → (g moved : S.Mat) × (nth gs x ≡ ok g)
        × (pi S mu nu g ≡ ok moved)
        × (sf S moved ≡ ok (some out))
  unfolding move_public
  move_public-some x mu nu {out} e =
      let (g, run0, e0) = bind-ok (nth gs x) _ e in
      let (moved, run1, e1) = bind-ok (pi S mu nu g) _ e0 in
      let (form, run2, e2) = bind-ok (sf S moved) _ e1 in
      (g, moved, run0, run1, run2 ∙ ap ok (form_is form e2))
    where
      form_is :
          (form : Option S.Mat)
          → (elim form [ some g' ↦ ok g' | none ↦ raised bad_signature ]) ≡ ok out
          → form ≡ some out
      form_is (some g') e = cc
      form_is none e = cc

  guarded :
      (a b : Bool) (first : Result S.Mat) {out : S.Mat}
      → (if a && b then first else raised bad_signature) ≡ ok out
      → (a ≡ true) × (b ≡ true) × (first ≡ ok out)
  guarded true true first e = (refl, refl, e)
  guarded true false first e = cc
  guarded false b first e = cc

  check_response-Answers :
      (x f : ℕ) {out : S.Mat} {end : ℕ}
      → check_response S sh p fuel munu f gs x ≡ ok (out, end)
      → Answers x f out
        × (end ≡ f + bytes_for (ceil_log2 p.q * p.m * p.m) + bytes_for (ceil_log2 p.q * p.n * p.n))
  unfolding check_response
  check_response-Answers x f {out} {end} e =
      let l_mm = bytes_for (ceil_log2 p.q * p.m * p.m) in
      let l_nn = bytes_for (ceil_log2 p.q * p.n * p.n) in
      let (mu, run0, e0) = bind-ok (decompress S (slice f l_mm munu) p.m p.m) _ e in
      let (nu, run1, e1) = bind-ok (decompress S (slice (f + l_mm) l_nn munu) p.n p.n) _ e0 in
      let (g', run2, e2) =
        bind-ok
          (if S.is_invertible mu && S.is_invertible nu
            then move_public S sh p fuel gs x mu nu
            else raised bad_signature)
          _ e1 in
      let (inv_mu, inv_nu, run) = guarded (S.is_invertible mu) (S.is_invertible nu) _ run2 in
      let (g, moved, at, moves, normal) = move_public-some x mu nu run in
      let same : g' ≡ out = cc in
      (
        record {
          mu = mu;
          nu = nu;
          g = g;
          moved = moved;
          read_mu = run0;
          read_nu = run1;
          regular = (inv_mu, inv_nu);
          public = at;
          moves = moves;
          normal = normal ∙ ap (λ z. ok (some z)) same;
        },
        cc,
      )

  Rounds-step :
      (x i f : ℕ) (sigma : SeedTree) {h : List ℕ} {g : S.Mat} {end : ℕ} {sigma' : SeedTree}
      {rest : List S.Mat}
      → check_round S sh p fuel x i gs munu f alpha sigma ≡ ok (g, end, sigma')
      → Rounds h (i + 1) end sigma' rest
      → Rounds (x ∷ h) i f sigma (g ∷ rest)
  unfolding check_round
  Rounds-step zero i f sigma {h} {g} {end} {sigma'} {rest} e later =
      let (g0, run0, e0) = bind-ok (nth gs 0) _ e in
      let ((a, b, g', next), run1, e1) = bind-ok (commit S sh p fuel fuel g0 alpha i sigma) _ e0 in
      let same_g : g' ≡ g = cc in
      let same_f : end ≡ f = cc in
      let same_tree : next ≡ sigma' = cc in
      let run : commit S sh p fuel fuel g0 alpha i sigma ≡ ok (a, b, g, sigma') = cc in
      unmarked run0 run (subst (λ k. Rounds h (i + 1) k sigma' rest) same_f later)
  Rounds-step (suc y) i f sigma {h} {g} {end} {sigma'} {rest} e later =
      let run = rw (lt→ltb 0 (suc y) (omega arith)) at e in
      let ((g', next), run0, e0) = bind-ok (check_response S sh p fuel munu f gs (suc y)) _ run in
      let same_g : g' ≡ g = cc in
      let same_f : next ≡ end = cc in
      let same_tree : sigma ≡ sigma' = cc in
      let (answers, to) = check_response-Answers (suc y) f run0 in
      marked (omega arith) (subst (Answers (suc y) f) same_g answers) (
        subst
          (λ t.
            Rounds h (i + 1)
              (f + bytes_for (ceil_log2 p.q * p.m * p.m) + bytes_for (ceil_log2 p.q * p.n * p.n)) t
              rest)
          (sym same_tree) (subst (λ k. Rounds h (i + 1) k sigma' rest) (sym same_f ∙ to) later))

  -- The rounds of a verification that comes to a result are rounds of the step relation.
  pub check_rounds-Rounds :
      (h : List ℕ) (i f : ℕ) (sigma : SeedTree) {out : List S.Mat}
      → check_rounds S sh p fuel h i gs munu f alpha sigma ≡ ok out
      → Rounds h i f sigma out
  unfolding check_rounds
  check_rounds-Rounds [] i f sigma {out} e =
      let same : [] ≡ out = cc in subst (Rounds [] i f sigma) same over
  check_rounds-Rounds (x ∷ h) i f sigma {out} e =
      let ((g, end, sigma'), run, e0) =
        bind-ok (check_round S sh p fuel x i gs munu f alpha sigma) _ e in
      let (rest, runs, e1) =
        bind-ok (check_rounds S sh p fuel h (i + 1) gs munu end alpha sigma') _ e0 in
      let same : g ∷ rest ≡ out = cc in
      subst (Rounds (x ∷ h) i f sigma) same
        (Rounds-step x i f sigma run (check_rounds-Rounds h (i + 1) end sigma' runs))
