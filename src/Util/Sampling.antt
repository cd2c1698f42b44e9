-- ===== src/Util/Sampling.antt =====
-- `ExpandFqs`, `ExpandInvMat`, `ExpandSystMat`, `pi` and `SF` of sage-ref/util.py. A SHAKE256 object is
-- its message and how many bytes have been read. Loops that draw until a test holds take fuel.
pub mod Rows
pub mod Linear
pub mod Accepted
pub mod Invertible
use iis_meds.Prelude.{
  ℕ, zero, suc, ◌+◌, ◌-◌, ◌*◌, ◌%◌, List, [], ◌∷◌, ◌++◌, map, take, drop, ltb, leb, ◌==◌,
  if◌then◌else◌, Option, none, some, Result, ok, raised, running, value_error, ◌>>=◌,
}
use iis_meds.Logarithm.{ceil_log2}
use iis_meds.Shake.{Shake}
use iis_meds.Params.{bytes_for}
use iis_meds.Sage.{Field, Matrices, entry}
use iis_meds.Util.Challenge.{masked}
use iis_meds.Util.Compress.{range_from}

module _ (F : Field) (sh : Shake) (message : List ℕ) where
  -- `while True`: draw a number until it is below q. Also how many bytes have been read then.
  unfoldable pub draw : ℕ → ℕ → Result (F.El × ℕ)
  draw zero pos = running
  draw (suc fuel) pos =
      let val = masked sh message pos F.order in
      let read_to = pos + bytes_for (ceil_log2 F.order) in
      let again = draw fuel read_to in if ltb val F.order then ok (F.of_int val, read_to) else again

  unfoldable pub expand_fqs : ℕ → ℕ → ℕ → Result (List F.El × ℕ)
  expand_fqs fuel pos zero = ok ([], pos)
  expand_fqs fuel pos (suc num) = do
    (x, mid) ← draw fuel pos
    (xs, end) ← expand_fqs fuel mid num
    ok (x ∷ xs, end)

module _ {F : Field} (S : Matrices F) where
  -- `while True`: `tries` rounds at most, from a position in the stream
  unfoldable pub invertible_from : Shake → List ℕ → ℕ → ℕ → ℕ → ℕ → Result S.Mat
  invertible_from sh seed fuel n zero pos = running
  invertible_from sh seed fuel n (suc tries) pos = do
    (xs, end) ← expand_fqs F sh seed fuel pos (n * n)
    let a = S.matrix n n xs
    let again = invertible_from sh seed fuel n tries end
    if S.is_invertible a then ok a else again

  unfoldable pub expand_inv_mat : Shake → ℕ → List ℕ → ℕ → Result S.Mat
  expand_inv_mat sh fuel seed n = invertible_from sh seed fuel n fuel 0

  -- `I_k.augment(…)`, the rows from row i on, `count` of them, with `width` columns behind the identity
  unfoldable pub augmented : ℕ → ℕ → ℕ → ℕ → List F.El → List F.El
  augmented k width i zero xs = []
  augmented k width i (suc count) xs =
      map (λ j. F.of_int (if i == j then 1 else 0)) (range_from 0 k)
      ++ (take width xs ++ augmented k width (i + 1) count (drop width xs))

  -- A matrix with a negative number of columns raises ValueError.
  unfoldable pub expand_syst_mat : Shake → ℕ → List ℕ → ℕ → ℕ → ℕ → Result S.Mat
  expand_syst_mat sh fuel seed k m n =
      if leb k (m * n)
      then (do
        let width = m * n - k
        (xs, _) ← expand_fqs F sh seed fuel 0 (k * width)
        ok (S.matrix k (m * n) (augmented k width 0 k xs)))
      else raised value_error

  -- The rows of a matrix with `width` columns, `count` of them
  unfoldable pub rows_of : ℕ → ℕ → List F.El → List (List F.El)
  rows_of width zero xs = []
  rows_of width (suc count) xs = take width xs ∷ rows_of width count (drop width xs)

  unfoldable pub flatten : List (List F.El) → List F.El
  flatten [] = []
  flatten (r ∷ rs) = r ++ flatten rs

  -- `A * v * B` for each row v of G as an m by n matrix, row by row again. The matrices of the program
  -- have the sizes m by m, n by n and k by m * n; Sage raises an error for sizes that do not fit.
  unfoldable pub pi : S.Mat → S.Mat → S.Mat → Result S.Mat
  pi a b g = do
    let m = S.nrows a
    let n = S.nrows b
    let k = S.nrows g
    _ ← entry S a 0 0
    let agb =
        map (λ v. S.entries (S.mul (S.mul a (S.matrix m n v)) b))
          (rows_of (S.ncols g) k (S.entries g))
    ok (S.matrix k (m * n) (flatten agb))

  -- `sum([M[j,j] for j in range(M.nrows())])` from row j on, as a number; the sum of field elements is
  -- this number modulo q.
  unfoldable pub diagonal_sum : S.Mat → ℕ → ℕ → Result ℕ
  diagonal_sum a j zero = ok 0
  diagonal_sum a j (suc count) = do
    x ← entry S a j j
    rest ← diagonal_sum a (j + 1) count
    ok (F.to_int x + rest)

  unfoldable pub sf : S.Mat → Result (Option S.Mat)
  sf a = do
    let e = S.echelon_form a
    total ← diagonal_sum e 0 (S.nrows e)
    ok (if total % F.order == S.nrows e % F.order then some e else none)

  -- `M[:, k:]`
  unfoldable pub columns_from : ℕ → S.Mat → S.Mat
  columns_from k a =
      S.matrix (S.nrows a) (S.ncols a - k)
        (flatten (map (λ r. drop k r) (rows_of (S.ncols a) (S.nrows a) (S.entries a))))
