-- ===== src/Tests/Drawn.antt =====
-- Matrices of ExpandSystMat and ExpandInvMat of sage-ref/util.py, drawn from a stream whose first number
-- is too large, and whose second is 0.
use iis_meds.Prelude.{
  ℕ, zero, suc, ◌<◌, true, false, ltb, get_or, ◌==◌, ◌-◌, ◌*◌, ◌≤◌, [], ◌∷◌, map, take,
  if◌then◌else◌, length, ok, ◌≡◌, refl, arith,
}
use iis_meds.Logarithm.{ceil_log2, log_steps}
use iis_meds.Shake.{Shake}
use iis_meds.Util.Challenge.{read_number}
use iis_meds.Util.Compress.Tabulate.{tabulate}
use iis_meds.Util.Sampling.{expand_syst_mat, expand_inv_mat}
use iis_meds.Util.Sampling.Accepted.{accepted, systematic, expand_syst_mat-accepted}
use iis_meds.Util.Sampling.Invertible.{square_of, expand_inv_mat-accepted}
use iis_meds.Sage.{Matrices}
use iis_meds.Tests.Matrices.{gf251, Grid, grid, grid-held, fill-full}
use iis_meds.Tests.Scheme.{moving}

-- The bytes 255, 0, 3, 3, and so on
abbrev late : Shake
late = record {
  output = λ message i. if i == 0 then 255 else if i == 1 then 0 else 3;
  output-lt = λ message i. ground arith;
}

drawn_of_late : accepted gf251 late (6 ∷ []) 0 3 ≡ 0 ∷ 3 ∷ []
unfolding read_number ceil_log2 log_steps
drawn_of_late = refl

enough_of_late : 2 * (1 * 3 - 2) ≤ length (accepted gf251 late (6 ∷ []) 0 3)
unfolding read_number ceil_log2 log_steps
enough_of_late = omega arith

expand_syst_mat-accepted_example :
    expand_syst_mat moving late 5 (6 ∷ []) 2 1 3
    ≡ ok (
        moving.matrix 2 (1 * 3) (
          tabulate
            (systematic moving 2
              (1 * 3 - 2)
              (map gf251.of_int (take (2 * (1 * 3 - 2)) (accepted gf251 late (6 ∷ []) 0 3))))
            (1 * 3)
            0
            2))
expand_syst_mat-accepted_example =
    expand_syst_mat-accepted moving late (6 ∷ []) 2 1 3 3 5 (omega arith) enough_of_late
      (omega arith)

-- Grids, of which those with 0 in the first place have no inverse: as is so for one entry
abbrev units : Matrices gf251
units = record {
  Mat = Grid;
  matrix = grid;
  nrows = λ a. a.rows;
  ncols = λ a. a.cols;
  entries = λ a. a.held.0;
  mul = λ a b. if a.rows == a.cols then b else a;
  inverse = λ a. a;
  is_invertible = λ a. ltb 0 (gf251.to_int (get_or a.held.0 0 (gf251.of_int 0)));
  echelon_form = λ a. a;
  length-entries = λ a. a.held.1;
  matrix-entries = grid-held;
  entries-matrix = λ r c xs h. fill-full (r * c) xs h;
  nrows-matrix = λ r c xs h. refl;
  ncols-matrix = λ r c xs h. refl;
}

first_singular :
    (e : ℕ)
    → e < 1
    → units.is_invertible (square_of units 1 (accepted gf251 late (6 ∷ []) 0 3) e) ≡ false
unfolding read_number ceil_log2 log_steps
first_singular zero h = refl
first_singular (suc e) h = absurd (omega arith)

second_regular : units.is_invertible (square_of units 1 (accepted gf251 late (6 ∷ []) 0 3) 1) ≡ true
unfolding read_number ceil_log2 log_steps
second_regular = refl

expand_inv_mat-accepted_example :
    expand_inv_mat units late 5 (6 ∷ []) 1
    ≡ ok (square_of units 1 (accepted gf251 late (6 ∷ []) 0 3) 1)
expand_inv_mat-accepted_example =
    expand_inv_mat-accepted units late (6 ∷ []) 1 5 1 3 enough_of_late first_singular second_regular
      (omega arith) (omega arith)
