-- ===== src/Meds/Matching.antt =====
-- The keys that `crypto_sign_keypair` of sage-ref/meds.py finds belong together.
use iis_meds.Prelude.{
  ℕ, zero, suc, ◌-◌, ◌*◌, ◌≤◌, ◌&&◌, true, List, [], ◌∷◌, All, map, some, ok, ok-injective, ◌≡◌,
  refl, ap, sym, ◌∙◌, subst, arith,
}
use iis_meds.Params.{Param}
use iis_meds.Sage.{Field, Matrices}
use iis_meds.Shake.{Shake}
use iis_meds.Util.Sampling.{pi, sf}
use iis_meds.Util.Sampling.Linear.{Linear, IsRegular, sf-pi, sf_form, pi-pi}
use iis_meds.Util.Sampling.Rows.{HasSize}
use iis_meds.Meds.{nth, move_public}
use iis_meds.Meds.Answers.{AreMatching, Moves}
use iis_meds.Meds.KeyPair.{IsKey}
use iis_meds.Meds.Responses.{nth-All}

-- An item of a list under a function is that of an item.
nth-map {ℓ κ} :
    {A : Type ℓ} {B : Type κ} (f : A → B) (xs : List A) (i : ℕ) {y : B}
    → nth (map f xs) i ≡ ok y
    → (x : A) × (nth xs i ≡ ok x) × (f x ≡ y)
nth-map f [] i e = cc
nth-map f (x ∷ xs) zero {y} e = (x, refl, ok-injective (f x) y e)
nth-map f (x ∷ xs) (suc i) e = nth-map f xs i e

map-nth {ℓ κ} :
    {A : Type ℓ} {B : Type κ} (f : A → B) (xs : List A) (i : ℕ) {x : A}
    → nth xs i ≡ ok x
    → nth (map f xs) i ≡ ok (f x)
map-nth f [] i e = cc
map-nth f (y ∷ xs) zero {x} e = ap (λ z. ok (f z)) (ok-injective y x e)
map-nth f (y ∷ xs) (suc i) e = map-nth f xs i e

module _ {F : Field} (S : Matrices F) (sh : Shake) (p : Param) (fuel : ℕ) where
  move_public-form :
      (gs : List S.Mat) (x : ℕ) (mu nu g moved g' : S.Mat)
      → nth gs x ≡ ok g
      → pi S mu nu g ≡ ok moved
      → sf S moved ≡ ok (some g')
      → move_public S sh p fuel gs x mu nu ≡ ok g'
  unfolding move_public
  move_public-form gs x mu nu g moved g' e0 e1 e2 = rw (e0, e1, e2) refl

  module _ (laws : Linear S p.m p.n p.k) (pos : 1 ≤ p.m) (g : S.Mat)
      (wide : HasSize S p.k (p.m * p.n) g) where
    -- The sizes of the matrices of a key
    pub IsKey-sizes :
        (key : S.Mat × S.Mat × S.Mat)
        → IsKey S sh p fuel g key
        → IsRegular S p.m key.0 × IsRegular S p.n key.1 × HasSize S p.k (p.m * p.n) key.2
    IsKey-sizes key k =
        let ia = laws.inverse_regular p.m k.a k.regular_a in
        let (size, _) =
          pi-pi S p.m p.n p.k laws pos k.a key.1 k.a key.1 g k.moved k.regular_a k.regular_b
            k.regular_a.0 k.regular_b.0 wide k.moves in
        let long = laws.echelon_size k.moved in
        (
          subst (IsRegular S p.m) (sym k.inverted) ia,
          k.regular_b,
          subst (HasSize S p.k (p.m * p.n))
              (sf_form S p.m p.n p.k laws pos k.moved key.2 k.systematic)
              (long.0 ∙ size.0, long.1 ∙ size.1),
        )

    key_answers :
        (key : S.Mat × S.Mat × S.Mat) (gs : List S.Mat) (x : ℕ) (a b g' : S.Mat)
        → IsKey S sh p fuel g key
        → nth gs x ≡ ok key.2
        → IsRegular S p.m a × IsRegular S p.n b
        → Moves S sh p fuel g a b g'
        → ((S.is_invertible (S.mul a key.0) && S.is_invertible (S.mul key.1 b)) ≡ true)
          × (move_public S sh p fuel gs x (S.mul a key.0) (S.mul key.1 b) ≡ ok g')
    key_answers key gs x a b g' k stands regular (own, run, form) =
        let sizes = IsKey-sizes key k in
        let (again, run', form') =
          sf-pi S p.m p.n p.k laws pos k.a key.1 a b g k.moved key.2 own g'
            (k.regular_a, k.regular_b) regular wide (k.moves, k.systematic) (run, form) in
        let same : S.mul a (S.inverse k.a) ≡ S.mul a key.0 = ap (S.mul a) (sym k.inverted) in
        (
          rw
              (
                laws.mul_regular p.m a key.0 regular.0 sizes.0,
                laws.mul_regular p.n key.1 b k.regular_b regular.1,
              )
              refl,
          move_public-form gs x (S.mul a key.0) (S.mul key.1 b) key.2 again g' stands
              (ap (λ mu. pi S mu (S.mul key.1 b) key.2) (sym same) ∙ run') form',
        )

    -- The matrices of the keys match.
    pub IsKey-AreMatching :
        (keys : List (S.Mat × S.Mat × S.Mat))
        → All (IsKey S sh p fuel g) keys
        → AreMatching S sh p fuel g
            (g ∷ map (λ key. key.2) keys)
            (map (λ key. key.0) keys)
            (map (λ key. key.1) keys)
    IsKey-AreMatching keys good zero a b ai bi g' above regular runs moves = absurd (omega arith)
    IsKey-AreMatching keys good (suc j) a b ai bi g' above regular runs moves =
        let e : suc j - 1 ≡ j = omega arith in
        let run_a : nth (map (λ (key : S.Mat × S.Mat × S.Mat). key.0) keys) j ≡ ok ai =
          rw e at (runs.0) in
        let run_b : nth (map (λ (key : S.Mat × S.Mat × S.Mat). key.1) keys) j ≡ ok bi =
          rw e at (runs.1) in
        let (key, found, first) = nth-map (λ (key : S.Mat × S.Mat × S.Mat). key.0) keys j run_a in
        let second : key.1 ≡ bi =
          ok-injective key.1 bi
            (sym (map-nth (λ (key : S.Mat × S.Mat × S.Mat). key.1) keys j found) ∙ run_b) in
        let gs = g ∷ map (λ (key : S.Mat × S.Mat × S.Mat). key.2) keys in
        let stands : nth gs (suc j) ≡ ok key.2 =
          map-nth (λ (key : S.Mat × S.Mat × S.Mat). key.2) keys j found in
        subst
          (λ m.
            ((S.is_invertible (S.mul a m) && S.is_invertible (S.mul bi b)) ≡ true)
            × (move_public S sh p fuel gs (suc j) (S.mul a m) (S.mul bi b) ≡ ok g'))
          first
          (subst
            (λ m.
              ((S.is_invertible (S.mul a key.0) && S.is_invertible (S.mul m b)) ≡ true)
              × (move_public S sh p fuel gs (suc j) (S.mul a key.0) (S.mul m b) ≡ ok g'))
            second
            (key_answers key gs (suc j) a b g' (nth-All (IsKey S sh p fuel g) keys j good found)
              stands regular moves))
