-- ===== src/Util/Solve/Sizes.antt =====
-- The sizes of what `solve_symb` of sage-ref/util.py gives.
use native.Mathlib.Nat.{div-add-mod}
use iis_meds.Prelude.{
  ℕ, ◌*◌, ◌/◌, ◌%◌, ◌==◌, ◌&&◌, ltb, List, [], ◌∷◌, ◌++◌, take, drop, length, true, Bool-cases, inl,
  inr, Option, some, ok, ok-injective, ◌≡◌, ap, sym, ◌∙◌, subst, arith, bind-ok,
}
use iis_meds.Sage.{Field, Matrices}
use iis_meds.Util.Solve.{matrix_of, all_rows, ones_from, last_column, solution, solve_symb}

module _ {F : Field} (S : Matrices F) where
  whole : (len r : ℕ) → (ltb 0 r && (len % r == 0)) ≡ true → len ≡ r * (len / r)
  whole len r test =
      let none_left : len % r ≡ 0 = ground arith in omega (arith, div-add-mod len r, none_left)

  nrows-matrix_of : (r : ℕ) (xs : List F.El) {a : S.Mat} → matrix_of S r xs ≡ ok a → S.nrows a ≡ r
  unfolding matrix_of
  nrows-matrix_of r xs {a} e = elim (Bool-cases (ltb 0 r && (length xs % r == 0))) [
    | inl good ↦
        let same : S.matrix r (length xs / r) xs ≡ a = ok-injective _ a (rw good at e) in
        subst (λ m. S.nrows m ≡ r) same
          (S.nrows-matrix r (length xs / r) xs (whole (length xs) r good))
    | inr bad ↦ let refused = rw bad at e in cc
  ]

  solution-nrows :
      (m n width : ℕ) (amm : F.El) (system : List (List F.El)) {a b : S.Mat}
      → solution S m n amm width system ≡ ok (some (a, b))
      → (S.nrows a ≡ m) × (S.nrows b ≡ m)
  unfolding solution
  solution-nrows m n width amm system {a} {b} e =
      let rref = S.echelon_form (S.matrix (length system) width (all_rows S system)) in
      let (full, run0, e0) = bind-ok (ones_from S rref 0 (S.nrows rref)) _ e in
      elim (Bool-cases full) [
        | inl good ↦
            let e1 = rw good at e0 in
            let (sol, run2, e2) = bind-ok (last_column S rref) _ e1 in
            let (x, run3, e3) = bind-ok (matrix_of S m (drop (n * n) sol ++ (amm ∷ []))) _ e2 in
            let (y, run4, e4) = bind-ok (matrix_of S m (take (n * n) sol)) _ e3 in
            let pair : ◌≡◌ {A = Option (S.Mat × S.Mat)} (some (x, y)) (some (a, b)) =
              ok-injective (some (x, y)) (some (a, b)) e4 in
            let first : x ≡ a = cc in
            let second : y ≡ b = cc in
            (
              ap S.nrows (sym first) ∙ nrows-matrix_of m (drop (n * n) sol ++ (amm ∷ [])) run3,
              ap S.nrows (sym second) ∙ nrows-matrix_of m (take (n * n) sol) run4,
            )
        | inr bad ↦ let refused = rw bad at e0 in cc
      ]

  -- Both matrices have as many rows as the given ones.
  pub solve_symb-nrows :
      (a0 a1 : S.Mat) (amm : F.El) {a b : S.Mat}
      → solve_symb S a0 a1 amm ≡ ok (some (a, b))
      → (S.nrows a ≡ S.nrows a0) × (S.nrows b ≡ S.nrows a0)
  unfolding solve_symb
  solve_symb-nrows a0 a1 amm e = solution-nrows _ _ _ _ _ e
