-- ===== src/Meds/Responses.antt =====
-- The bytes of the answers that `crypto_sign` of sage-ref/meds.py gives.
use native.Mathlib.Nat.{mul_comm}
use iis_meds.Prelude.{
  ℕ, zero, suc, ◌-◌, ◌*◌, ◌≤◌, List, [], ◌∷◌, ◌++◌, All, length, ltb, if◌then◌else◌, length-append,
  ok, Bool-cases, inl, inr, ◌≡◌, refl, ap, sym, ◌∙◌, subst, arith, bind-ok,
}
use iis_meds.Logarithm.{ceil_log2}
use iis_meds.Params.{Param, bytes_for}
use iis_meds.Sage.{Field, Matrices}
use iis_meds.Shake.{Shake}
use iis_meds.Util.Compress.{field_bits, compress}
use iis_meds.Util.Compress.RoundTrip.{decompress-compress}
use iis_meds.Util.SeedPath.Size.{weight}
use iis_meds.Meds.{nth, response_bytes, answer, responses}
use iis_meds.Meds.Squares.{IsSquare, IsRound}

pub nth-All :
    {A : Type 0} (P : A → Type 0) (xs : List A) (i : ℕ) {x : A} → All P xs → nth xs i ≡ ok x → P x
nth-All P [] i h e = cc
nth-All P (y ∷ xs) zero {x} h e = let same : y ≡ x = cc in subst P same h.0
nth-All P (y ∷ xs) (suc i) h e = nth-All P xs i h.1 e

module _ {F : Field} (S : Matrices F) (sh : Shake) (p : Param) (fuel : ℕ) where
  length-compress :
      (a : S.Mat) (n : ℕ) {bytes : List ℕ}
      → 8 ≤ field_bits F
      → 1 ≤ n
      → IsSquare S n a
      → compress S a ≡ ok bytes
      → length bytes ≡ bytes_for (field_bits F * (n * n))
  length-compress a n {bytes} long pos square e =
      let (bs, run, size, _) =
        decompress-compress S a long (omega (arith, square.0)) (omega (arith, square.1)) in
      let same : bs ≡ bytes = cc in
      ap (λ l. length l) (sym same) ∙ size ∙ rw (square.0, square.1) refl

  -- The product of two square matrices of n rows is one.
  abbrev pub KeepSquares : Type 0
  KeepSquares = (n : ℕ) (a b : S.Mat) → IsSquare S n a → IsSquare S n b → IsSquare S n (S.mul a b)

  length-answer :
      (a b : S.Mat) (x : ℕ) (a_inv b_inv : List S.Mat) {first : List ℕ}
      → F.order ≡ p.q
      → 8 ≤ ceil_log2 p.q
      → (1 ≤ p.m) × (1 ≤ p.n)
      → KeepSquares
      → IsSquare S p.m a × IsSquare S p.n b
      → All (IsSquare S p.m) a_inv × All (IsSquare S p.n) b_inv
      → answer S sh p fuel x a b a_inv b_inv ≡ ok first
      → length first ≡ response_bytes p
  unfolding response_bytes answer
  length-answer a b x a_inv b_inv {first} field long pos keep squares inverses e =
      let (ai, run0, e0) = bind-ok (nth a_inv (x - 1)) _ e in
      let (bi, run1, e1) = bind-ok (nth b_inv (x - 1)) _ e0 in
      let (mu, run2, e2) = bind-ok (compress S (S.mul a ai)) _ e1 in
      let (nu, run3, e3) = bind-ok (compress S (S.mul bi b)) _ e2 in
      let wide : 8 ≤ field_bits F = rw field long in
      let left = keep p.m a ai squares.0 (nth-All (IsSquare S p.m) a_inv (x - 1) inverses.0 run0) in
      let right =
        keep p.n bi b (nth-All (IsSquare S p.n) b_inv (x - 1) inverses.1 run1) squares.1 in
      let sizes_mu : length mu ≡ bytes_for (p.m * p.m * ceil_log2 p.q) =
        length-compress (S.mul a ai) p.m wide pos.0 left run2
        ∙ ap bytes_for
            (mul_comm (field_bits F) (p.m * p.m) ∙ ap (λ q. p.m * p.m * ceil_log2 q) field) in
      let sizes_nu : length nu ≡ bytes_for (p.n * p.n * ceil_log2 p.q) =
        length-compress (S.mul bi b) p.n wide pos.1 right run3
        ∙ ap bytes_for
            (mul_comm (field_bits F) (p.n * p.n) ∙ ap (λ q. p.n * p.n * ceil_log2 q) field) in
      let same : mu ++ nu ≡ first = cc in
      ap (λ l. length l) (sym same) ∙ omega (arith, length-append mu nu, sizes_mu, sizes_nu)

  pub length-responses :
      (h : List ℕ) (rounds : List (S.Mat × S.Mat × S.Mat)) (a_inv b_inv : List S.Mat) {ret : List ℕ}
      → F.order ≡ p.q
      → 8 ≤ ceil_log2 p.q
      → (1 ≤ p.m) × (1 ≤ p.n)
      → KeepSquares
      → All (IsSquare S p.m) a_inv × All (IsSquare S p.n) b_inv
      → length h ≡ length rounds
      → All (IsRound S sh p fuel) rounds
      → responses S sh p fuel h rounds a_inv b_inv ≡ ok ret
      → length ret ≡ weight h * response_bytes p
  unfolding responses
  length-responses [] rounds a_inv b_inv {ret} field long pos keep inverses same_long squares e =
      let same : [] ≡ ret = cc in ap (λ l. length l) (sym same) ∙ omega arith
  length-responses (x ∷ h) [] a_inv b_inv field long pos keep inverses same_long squares e =
      absurd (omega (arith, same_long))
  length-responses (x ∷ h) ((a, b, g) ∷ rounds) a_inv b_inv {ret} field long pos keep inverses
        same_long squares e =
      let (first, run0, e0) =
        bind-ok (if ltb 0 x then answer S sh p fuel x a b a_inv b_inv else ok []) _ e in
      let (rest, run1, e1) = bind-ok (responses S sh p fuel h rounds a_inv b_inv) _ e0 in
      let later =
        length-responses h rounds a_inv b_inv field long pos keep inverses
          (omega (arith, same_long)) squares.1 run1 in
      let same : first ++ rest ≡ ret = cc in
      let total = length-append first rest in
      ap (λ l. length l) (sym same) ∙ elim (Bool-cases (ltb 0 x)) [
        | inl marked ↦
            let size =
              length-answer a b x a_inv b_inv field long pos keep squares.0 inverses
                (rw marked at run0) in
            rw marked (omega (arith, total, size, later))
        | inr unmarked ↦
            let none_run = rw unmarked at run0 in
            let empty_first : [] ≡ first = cc in
            let size : length first ≡ 0 = ap (λ l. length l) (sym empty_first) in
            rw unmarked (omega (arith, total, size, later))
      ]
