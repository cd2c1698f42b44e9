-- ===== src/Util/Solve/Narrow.antt =====
-- `solve_comp` makes its rows too short: `m^2 + n^2` is no sum of squares in Python.
use iis_meds.Prelude.{
  ℕ, zero, suc, ◌+◌, ◌-◌, ◌*◌, ◌≤◌, ◌<◌, replicate, length, length-replicate, ltb, lt→ltb,
  ltb-false, if◌then◌else◌, raised, index_error, ◌≡◌, refl, arith, bit_xor,
}
use iis_meds.Prelude.Bits.{bit_xor_le}
use native.Mathlib.Nat.{mul-le-mul_right}
use iis_meds.Sage.{Field, Matrices, entry}
use iis_meds.Util.Solve.{put, put_a, comp_row, comp_line, comp_rows, comp_width, solve_comp}

-- The rows have at most m * m places, where the first write is at m * m.
comp_width_le : (m : ℕ) → 1 ≤ m → comp_width m m ≤ m * m
unfolding comp_width
comp_width_le zero h = absurd (omega arith)
comp_width_le (suc zero) h = omega arith
comp_width_le (suc (suc zero)) h = omega arith
comp_width_le (suc (suc (suc zero))) h = omega arith
comp_width_le (suc (suc (suc (suc k)))) h =
    let m = suc (suc (suc (suc k))) in
    let square : 4 * m ≤ m * m = mul-le-mul_right m (omega arith) in
    omega (arith, square, bit_xor_le m (2 + m), bit_xor_le (bit_xor m (2 + m)) 2)

module _ {F : Field} (S : Matrices F) (a : S.Mat) (n : ℕ) (amm : F.El) (width : ℕ) where
  put_a-raised :
      (m count : ℕ)
      → 0 < S.nrows a
      → 0 < S.ncols a
      → width ≤ m * m
      → put_a S a m 0 0 0 (suc count) (replicate width (F.of_int 0)) ≡ raised index_error
  unfolding put_a put entry
  put_a-raised m count rows cols short =
      rw
        (
          lt→ltb _ _ rows,
          lt→ltb _ _ cols,
          ltb-false (m * m + 0 * m + 0) (length (replicate width (F.of_int 0)))
              (omega (arith, length-replicate width (F.of_int 0))),
        )
        refl

  comp_row-raised :
      (e m : ℕ)
      → 0 < m
      → 0 < S.nrows a
      → 0 < S.ncols a
      → width ≤ m * m
      → comp_row S a e m n amm width 0 0 ≡ raised index_error
  unfolding comp_row
  comp_row-raised e zero pos rows cols short = absurd (omega arith)
  comp_row-raised e (suc m) pos rows cols short = rw (put_a-raised (suc m) m rows cols short) refl

  comp_line-raised :
      (e m count : ℕ)
      → 0 < m
      → 0 < count
      → 0 < S.nrows a
      → 0 < S.ncols a
      → width ≤ m * m
      → comp_line S a e m n amm width 0 0 count ≡ raised index_error
  unfolding comp_line
  comp_line-raised e m zero lt pos rows cols short = absurd (omega arith)
  comp_line-raised e m (suc count) lt pos rows cols short =
      rw (comp_row-raised e m lt rows cols short) refl

  comp_rows-raised :
      (e m count : ℕ)
      → e < m
      → 0 < count
      → 0 < S.nrows a
      → 0 < S.ncols a
      → width ≤ m * m
      → comp_rows S a e m n amm width 0 count ≡ raised index_error
  unfolding comp_rows
  comp_rows-raised e m zero lt pos rows cols short = absurd (omega arith)
  comp_rows-raised e m (suc count) lt pos rows cols short =
      rw
        (comp_line-raised e m (if ltb 0 (n - 1) then m else m - e) (omega arith) (ground arith) rows
          cols short)
        refl

-- Whatever the two m by m matrices hold, m at least 1, `solve_comp` raises IndexError.
pub solve_comp-raised :
    {F : Field} (S : Matrices F) (a0 a1 : S.Mat) (amm : F.El) (m : ℕ)
    → 1 ≤ m
    → S.nrows a0 ≡ m
    → S.ncols a0 ≡ m
    → solve_comp S a0 a1 amm ≡ raised index_error
unfolding solve_comp
solve_comp-raised {F} S a0 a1 amm m pos rows cols =
    rw
      (
        rows,
        cols,
        comp_rows-raised S a0 m amm (comp_width m m) 0 m m (omega arith) (omega arith) (omega arith)
            (omega arith) (comp_width_le m pos),
      )
      refl
