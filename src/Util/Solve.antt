-- ===== src/Util/Solve.antt =====
-- `solve_symb` and `solve_comp` of sage-ref/util.py: both build a linear system for the entries of
-- B_inv and A and take its solution from the reduced echelon form.
pub mod Narrow
pub mod Sizes
use iis_meds.Prelude.{
  ℕ, zero, suc, ◌+◌, ◌-◌, ◌*◌, ◌/◌, ◌%◌, bit_xor, List, [], ◌∷◌, ◌++◌, map, take, drop, get_or, set,
  replicate, length, ltb, ◌==◌, ◌&&◌, ◌||◌, not, Bool, true, false, if◌then◌else◌, Option, none,
  some, Result, ok, raised, value_error, index_error, ◌>>=◌,
}
use iis_meds.Sage.{Field, Matrices, entry, times, neg, equals}
use iis_meds.Util.Compress.{range_from}

-- `m^2 + n^2` is Python's exclusive or of m, 2 + n and 2, in this order.
unfoldable pub comp_width : ℕ → ℕ → ℕ
comp_width m n = bit_xor (bit_xor m (2 + n)) 2

module _ {F : Field} (S : Matrices F) where
  -- `matrix(GFq, r, entries)`: the number of columns comes from the number of entries.
  unfoldable pub matrix_of : ℕ → List F.El → Result S.Mat
  matrix_of r xs =
      if ltb 0 r && (length xs % r == 0)
      then ok (S.matrix r (length xs / r) xs)
      else raised value_error

  -- The entry (i, j) of a matrix that has it
  unfoldable pub cell : S.Mat → ℕ → ℕ → F.El
  cell a i j = get_or (S.entries a) (i * S.ncols a + j) (F.of_int 0)

  -- One equation for column l and row j, from the matrix a = P0prime[e]: 1 at the unknown B_inv[j + e, l],
  -- where that row of Pj[e] has a 1, and -a[c, l] at A[j, c]; the unknowns are those of B_inv, and then those of A without the last.
  -- Last the constant, with the other sign: Amm * a[m - 1, l] for the last row.
  unfoldable pub equation : S.Mat → ℕ → ℕ → ℕ → F.El → ℕ → ℕ → List F.El
  equation a e m n amm j l =
      map (λ u. F.of_int (if (u == (j + e) * n + l) && ltb (j + e) m then 1 else 0))
        (range_from 0 (n * n))
      ++ map (λ u. if u / m == j then neg F (cell a (u % m) l) else F.of_int 0)
          (range_from 0 (m * m - 1))
      ++ ((if j == m - 1 then times F amm (cell a (m - 1) l) else F.of_int 0) ∷ [])

  -- All entries are zero.
  unfoldable pub is_zero : List F.El → Bool
  is_zero [] = true
  is_zero (x ∷ xs) = equals F x 0 && is_zero xs

  -- `.coefficients()` of a matrix of polynomials: its entries row by row, less those that are 0.
  unfoldable pub nonzero : List (List F.El) → List (List F.El)
  nonzero [] = []
  nonzero (r ∷ rs) = let rest = nonzero rs in if is_zero r then rest else r ∷ rest

  -- The rows j of the difference `Pj[e] * B_inv - A * P0prime[e]`, column after column
  unfoldable pub equations : S.Mat → ℕ → ℕ → ℕ → F.El → List ℕ → List (List F.El)
  equations a e m n amm [] = []
  equations a e m n amm (j ∷ js) =
      map (λ l. equation a e m n amm j l) (range_from 0 n) ++ equations a e m n amm js

  -- `all([M[i][i] == 1 for i in range(M.nrows())])` from row i on
  unfoldable pub ones_from : S.Mat → ℕ → ℕ → Result Bool
  ones_from a i zero = ok true
  ones_from a i (suc count) = do
    x ← entry S a i i
    rest ← ones_from a (i + 1) count
    ok (equals F x 1 && rest)

  -- `M.columns()[-1].list()`
  unfoldable pub last_column : S.Mat → Result (List F.El)
  last_column a =
      if ltb 0 (S.ncols a)
      then ok (map (λ i. cell a i (S.ncols a - 1)) (range_from 0 (S.nrows a)))
      else raised index_error

  -- `concat` of the rows of a system
  unfoldable pub all_rows : List (List F.El) → List F.El
  all_rows [] = []
  all_rows (r ∷ rs) = r ++ all_rows rs

  -- What `solve_symb` and `solve_comp` do with a system of `width` columns: its reduced form gives the entries of B_inv and A, or
  -- there is no solution (`None, None`).
  unfoldable pub solution : ℕ → ℕ → F.El → ℕ → List (List F.El) → Result (Option (S.Mat × S.Mat))
  solution m n amm width system = do
    let rref = S.echelon_form (S.matrix (length system) width (all_rows system))
    full ← ones_from rref 0 (S.nrows rref)
    let found : Result (Option (S.Mat × S.Mat)) = (do
      sol ← last_column rref
      a ← matrix_of m (drop (n * n) sol ++ (amm ∷ []))
      b_inv ← matrix_of m (take (n * n) sol)
      ok (some (a, b_inv)))
    if full then found else ok none

  -- `solve_symb([a0, a1], amm)`
  unfoldable pub solve_symb : S.Mat → S.Mat → F.El → Result (Option (S.Mat × S.Mat))
  solve_symb a0 a1 amm =
      let m = S.nrows a0 in
      let n = S.ncols a0 in
      let first = nonzero (equations a0 0 m n amm (range_from 0 m)) in
      let second = nonzero (equations a1 1 m n amm (range_from 0 m)) in
      solution m n amm (n * n + m * m) (first ++ take (length second - 1) second)

  -- `tmp[i] = v`
  unfoldable pub put : List F.El → ℕ → F.El → Result (List F.El)
  put xs i v = if ltb i (length xs) then ok (set xs i v) else raised index_error

  -- `for i in range(m): tmp[m*m + l*m + i] = - a[i,j]`, from i on, `count` of them
  unfoldable pub put_a : S.Mat → ℕ → ℕ → ℕ → ℕ → ℕ → List F.El → Result (List F.El)
  put_a a m l j i zero tmp = ok tmp
  put_a a m l j i (suc count) tmp = do
    x ← entry S a i j
    next ← put tmp (m * m + l * m + i) (neg F x)
    put_a a m l j (i + 1) count next

  -- `for i in range(n): tmp[i*n + j] = Pj[e][l,i]`, from i on, `count` of them
  unfoldable pub put_b : ℕ → ℕ → ℕ → ℕ → ℕ → ℕ → ℕ → List F.El → Result (List F.El)
  put_b e m n l j i zero tmp = ok tmp
  put_b e m n l j i (suc count) tmp = do
    x ←
        if ltb l m
        then ok (F.of_int (if (i == l + e) && ltb (l + e) m then 1 else 0))
        else raised index_error
    next ← put tmp (i * n + j) x
    put_b e m n l j (i + 1) count next

  -- One row of the system of `solve_comp`, of the given length
  unfoldable pub comp_row : S.Mat → ℕ → ℕ → ℕ → F.El → ℕ → ℕ → ℕ → Result (List F.El)
  comp_row a e m n amm width l j = do
    with_a ← put_a a m l j 0 m (replicate width (F.of_int 0))
    with_b ← put_b e m n l j 0 n with_a
    let last : Result (List F.El) = (do
      x ← entry S a (n - 1) j
      put with_b (m * m + n * n - 1) (times F amm x))
    if l == n - 1 then last else ok with_b

  -- The rows for j from `j` on, `count` of them, and then for l from `l` on
  unfoldable pub comp_line : S.Mat → ℕ → ℕ → ℕ → F.El → ℕ → ℕ → ℕ → ℕ → Result (List (List F.El))
  comp_line a e m n amm width l j zero = ok []
  comp_line a e m n amm width l j (suc count) = do
    row ← comp_row a e m n amm width l j
    rest ← comp_line a e m n amm width l (j + 1) count
    ok (row ∷ rest)

  -- In the second loop the last line has one row less.
  unfoldable pub comp_rows : S.Mat → ℕ → ℕ → ℕ → F.El → ℕ → ℕ → ℕ → Result (List (List F.El))
  comp_rows a e m n amm width l zero = ok []
  comp_rows a e m n amm width l (suc count) = do
    line ← comp_line a e m n amm width l 0 (if ltb l (n - 1) then m else m - e)
    rest ← comp_rows a e m n amm width (l + 1) count
    ok (line ++ rest)

  -- `solve_comp([a0, a1], amm)`
  unfoldable pub solve_comp : S.Mat → S.Mat → F.El → Result (Option (S.Mat × S.Mat))
  solve_comp a0 a1 amm = do
    let m = S.nrows a0
    let n = S.ncols a0
    first ← comp_rows a0 0 m n amm (comp_width m n) 0 n
    second ← comp_rows a1 1 m n amm (comp_width m n) 0 n
    solution m n amm (comp_width m n) (first ++ second)
