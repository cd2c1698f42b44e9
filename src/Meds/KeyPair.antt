-- ===== src/Meds/KeyPair.antt =====
-- What the loop over the indices of `crypto_sign_keypair` in sage-ref/meds.py has found when it ends.
use iis_meds.Prelude.{
  ℕ, zero, suc, ◌*◌, ◌&&◌, true, Bool, Bool-cases, inl, inr, List, [], ◌∷◌, All, length, Option,
  some, none, Result, ok, ok-injective, ◌≡◌, refl, ap, sym, ◌∙◌, subst, arith, bind-ok,
}
use iis_meds.Params.{Param}
use iis_meds.Sage.{Field, Matrices}
use iis_meds.Shake.{Shake}
use iis_meds.Util.Hashing.{xof}
use iis_meds.Util.Sampling.{expand_fqs, expand_inv_mat, invertible_from, rows_of, pi, sf}
use iis_meds.Util.Sampling.Linear.{Linear, IsRegular}
use iis_meds.Util.Sampling.Rows.{HasSize, HasWidth, All-rows_of}
use iis_meds.Util.Solve.{solve_symb}
use iis_meds.Util.Solve.Sizes.{solve_symb-nrows}
use iis_meds.Meds.{nth, three}
use iis_meds.Meds.KeyGen.{row_matrix, accept_pair, next_key, next_keys}
use iis_meds.Meds.Responses.{nth-All}
use iis_meds.Meds.Squares.{invertible_from-IsRegular}

module _ {F : Field} (S : Matrices F) (sh : Shake) (p : Param) (fuel : ℕ) where
  -- The secret matrices of an index, A⁻¹ and B⁻¹, and its public matrix: the systematic form of the
  -- first matrix moved by A and B.
  pub record IsKey (g : S.Mat) (key : S.Mat × S.Mat × S.Mat) : Type 0 where
    pub a : S.Mat
    pub moved : S.Mat
    pub regular_a : IsRegular S p.m a
    pub regular_b : IsRegular S p.n key.1
    pub inverted : key.0 ≡ S.inverse a
    pub moves : pi S a (S.inverse key.1) g ≡ ok moved
    pub systematic : sf S moved ≡ ok (some key.2)

  -- What the tests on a pair have found
  abbrev Accepts : S.Mat → Option (S.Mat × S.Mat) → S.Mat × S.Mat × S.Mat → Type 0
  Accepts g pair key =
      (a : S.Mat) × (moved : S.Mat) × (pair ≡ some (a, key.1))
      × (S.is_invertible a ≡ true)
      × (S.is_invertible key.1 ≡ true)
      × (key.0 ≡ S.inverse a)
      × (pi S a (S.inverse key.1) g ≡ ok moved)
      × (sf S moved ≡ ok (some key.2))

  both_true : (x y : Bool) → (x && y) ≡ true → (x ≡ true) × (y ≡ true)
  both_true x y h = ground arith

  form-Accepts :
      (g a b_inv moved : S.Mat) (form : Option S.Mat) {key : S.Mat × S.Mat × S.Mat}
      → S.is_invertible a ≡ true
      → S.is_invertible b_inv ≡ true
      → pi S a (S.inverse b_inv) g ≡ ok moved
      → sf S moved ≡ ok form
      → elim form [ some g' ↦ some (S.inverse a, b_inv, g') | none ↦ none ] ≡ some key
      → Accepts g (some (a, b_inv)) key
  form-Accepts g a b_inv moved none good_a good_b run0 run1 e = cc
  form-Accepts g a b_inv moved (some g') {key} good_a good_b run0 run1 e =
      let same : (S.inverse a, b_inv, g') ≡ key = cc in
      subst (λ k. Accepts g (some (a, b_inv)) k) same
        (a, moved, refl, good_a, good_b, refl, run0, run1)

  accept_pair-Accepts :
      (g : S.Mat) (pair : Option (S.Mat × S.Mat)) {key : S.Mat × S.Mat × S.Mat}
      → accept_pair S p g pair ≡ ok (some key)
      → Accepts g pair key
  unfolding accept_pair
  accept_pair-Accepts g none e = cc
  accept_pair-Accepts g (some (a, b_inv)) {key} e =
      elim (Bool-cases (S.is_invertible b_inv && S.is_invertible a)) [
        | inl good ↦
            let e0 = rw good at e in
            let (moved, run0, e1) = bind-ok (pi S a (S.inverse b_inv) g) _ e0 in
            let (form, run1, e2) = bind-ok (sf S moved) _ e1 in
            let (good_b, good_a) = both_true (S.is_invertible b_inv) (S.is_invertible a) good in
            form-Accepts g a b_inv moved form good_a good_b run0 run1 (ok-injective _ (some key) e2)
        | inr bad ↦ let refused = rw bad at e in cc
      ]

  row_matrix-HasSize :
      (g : S.Mat) (i : ℕ) {a : S.Mat}
      → HasSize S p.k (p.m * p.n) g
      → row_matrix S p g i ≡ ok a
      → HasSize S p.m p.n a
  unfolding row_matrix
  row_matrix-HasSize g i {a} size e =
      let (row, run, e0) = bind-ok (nth (rows_of S (S.ncols g) (S.nrows g) (S.entries g)) i) _ e in
      let widths = All-rows_of S (S.ncols g) (S.nrows g) (S.entries g) (S.length-entries g) in
      let long : length row ≡ p.m * p.n =
        nth-All (HasWidth S (S.ncols g)) (rows_of S (S.ncols g) (S.nrows g) (S.entries g)) i widths
          run
        ∙ size.1 in
      subst (HasSize S p.m p.n) (ok-injective _ a e0)
        (S.nrows-matrix p.m p.n row long, S.ncols-matrix p.m p.n row long)

  module _ (laws : Linear S p.m p.n p.k) (same_sides : p.m ≡ p.n) (g : S.Mat)
      (wide : HasSize S p.k (p.m * p.n) g) where
    Accepts-IsKey :
        (top second : S.Mat) (amm : F.El) (pair : Option (S.Mat × S.Mat))
        {key : S.Mat × S.Mat × S.Mat}
        → HasSize S p.m p.n top
        → solve_symb S top second amm ≡ ok pair
        → Accepts g pair key
        → IsKey g key
    Accepts-IsKey top second amm pair {key} size run
          (a, moved, found, good_a, good_b, inverted, moves, form) =
        let solved : solve_symb S top second amm ≡ ok (some (a, key.1)) = run ∙ ap ok found in
        let rows = solve_symb-nrows S top second amm solved in
        let rows_a : S.nrows a ≡ p.m = rows.0 ∙ size.0 in
        let rows_b : S.nrows key.1 ≡ p.n = rows.1 ∙ size.0 ∙ same_sides in
        record {
          a = a;
          moved = moved;
          regular_a = ((rows_a, sym (laws.invertible_square a good_a) ∙ rows_a), good_a);
          regular_b = ((rows_b, sym (laws.invertible_square key.1 good_b) ∙ rows_b), good_b);
          inverted = inverted;
          moves = moves;
          systematic = form;
        }

    settle-IsKey :
        (found : Option (S.Mat × S.Mat × S.Mat)) (sigma' : List ℕ)
        (again : Result ((S.Mat × S.Mat × S.Mat) × List ℕ)) {key : S.Mat × S.Mat × S.Mat}
        {left : List ℕ}
        → ((k : S.Mat × S.Mat × S.Mat) → found ≡ some k → IsKey g k)
        → (again ≡ ok (key, left) → IsKey g key)
        → elim found [ some k ↦ ok (k, sigma') | none ↦ again ] ≡ ok (key, left)
        → IsKey g key
    settle-IsKey none sigma' again here later e = later e
    settle-IsKey (some k) sigma' again {key} here later e =
        let same : k ≡ key = cc in subst (IsKey g) same (here k refl)

    next_key-IsKey :
        (tries : ℕ) (sigma : List ℕ) {key : S.Mat × S.Mat × S.Mat} {left : List ℕ}
        → next_key S sh p fuel tries g sigma ≡ ok (key, left)
        → IsKey g key
    unfolding next_key expand_inv_mat
    next_key-IsKey zero sigma e = cc
    next_key-IsKey (suc tries) sigma e =
        let ((sigma_alpha, sigma_t, sigma'), run0, e0) =
          bind-ok
            (three (xof sh sigma (p.sec_seed_bytes ∷ p.sec_seed_bytes ∷ p.sec_seed_bytes ∷ []))) _
            e in
        let (t, run1, e1) = bind-ok (invertible_from S sh sigma_t fuel p.k fuel 0) _ e0 in
        let ((xs, end), run2, e2) = bind-ok (expand_fqs F sh sigma_alpha fuel 0 1) _ e1 in
        let (amm, run3, e3) = bind-ok (nth xs 0) _ e2 in
        let g_prime = S.mul t g in
        let (top, run4, e4) = bind-ok (row_matrix S p g_prime 0) _ e3 in
        let (second, run5, e5) = bind-ok (row_matrix S p g_prime 1) _ e4 in
        let (pair, run6, e6) = bind-ok (solve_symb S top second amm) _ e5 in
        let (found, run7, e7) = bind-ok (accept_pair S p g pair) _ e6 in
        let regular = invertible_from-IsRegular S sh p fuel sigma_t p.k fuel 0 run1 in
        let size = row_matrix-HasSize g_prime 0 (laws.mul_wide t g regular.0 wide) run4 in
        settle-IsKey found sigma' (next_key S sh p fuel tries g sigma')
          (λ k e.
            Accepts-IsKey top second amm pair size run6
              (accept_pair-Accepts g pair (run7 ∙ ap ok e)))
          (next_key-IsKey tries sigma') e7

    pub next_keys-IsKey :
        (count : ℕ) (sigma : List ℕ) {keys : List (S.Mat × S.Mat × S.Mat)}
        → next_keys S sh p fuel count g sigma ≡ ok keys
        → (length keys ≡ count) × All (IsKey g) keys
    unfolding next_keys
    next_keys-IsKey zero sigma {keys} e =
        let same : [] ≡ keys = ok-injective [] keys e in
        subst (λ l. (length l ≡ 0) × All (IsKey g) l) same (refl, tt)
    next_keys-IsKey (suc count) sigma {keys} e =
        let ((key, left), run0, e0) = bind-ok (next_key S sh p fuel fuel g sigma) _ e in
        let (rest, run1, e1) = bind-ok (next_keys S sh p fuel count g left) _ e0 in
        let (long, later) = next_keys-IsKey count left run1 in
        subst (λ l. (length l ≡ suc count) × All (IsKey g) l) (ok-injective (key ∷ rest) keys e1)
          (ap suc long, (next_key-IsKey fuel sigma run0, later))
