-- ===== src/Util/Compress/Positions.antt =====
-- The positions that `CompressG` and `DecompressG` of sage-ref/util.py go through are in the matrix, and how
-- many there are.
use native.Mathlib.Nat.{add-mul, mul-add}
use iis_meds.Prelude.{
  ℕ, zero, suc, ◌+◌, ◌-◌, ◌*◌, ◌<◌, ◌≤◌, map, All, All-append, length, length-append, ◌≡◌, refl, ap,
  sym, ◌∙◌, arith,
}
use iis_meds.Util.Compress.{
  range_from, positions, all_positions, written_positions, read_positions, one_positions,
}
use iis_meds.Util.Compress.Tabulate.{IsWithin}

positions-IsWithin :
    (k cols i j count : ℕ)
    → i < k
    → j + count ≤ cols
    → All (IsWithin k cols) (positions i (range_from j count))
positions-IsWithin k cols i j zero h room = tt
positions-IsWithin k cols i j (suc count) h room =
    ((h, omega arith), positions-IsWithin k cols i (j + 1) count h (omega arith))

all_positions-IsWithin :
    (k cols i j rows count : ℕ)
    → i + rows ≤ k
    → j + count ≤ cols
    → All (IsWithin k cols) (all_positions (range_from i rows) (range_from j count))
all_positions-IsWithin k cols i j zero count h room = tt
all_positions-IsWithin k cols i j (suc rows) count h room =
    All-append (IsWithin k cols) (positions i (range_from j count)) _
      (positions-IsWithin k cols i j count (omega arith) room)
      (all_positions-IsWithin k cols (i + 1) j rows count (omega arith) room)

pub written_positions-IsWithin :
    (k m n : ℕ) → 2 ≤ k → k ≤ m * n → n ≤ m * n → All (IsWithin k (m * n)) (written_positions k m n)
unfolding written_positions
written_positions-IsWithin k m n two fits row =
    All-append (IsWithin k (m * n)) (positions 1 (range_from (m * n - n) n)) _
      (positions-IsWithin k (m * n) 1 (m * n - n) n (omega arith) (omega arith))
      (all_positions-IsWithin k (m * n) 2 k (k - 2) (m * n - k) (omega arith) (omega arith))

-- The columns of the ones in row 0 and in row 1
diagonal : (m n r : ℕ) → r < m → m ≤ n → r * (n + 1) < m * n
diagonal m n r h square =
    let e : r + 1 + (m - (r + 1)) ≡ m = omega arith in
    let parts : m * n ≡ r * n + 1 * n + (m - (r + 1)) * n =
      ap (λ x. x * n) (sym e)
      ∙ add-mul (r + 1) (m - (r + 1)) n
      ∙ ap (λ x. x + (m - (r + 1)) * n) (add-mul r 1 n) in
    omega (arith, parts, mul-add r n 1)

second_diagonal : (m n r : ℕ) → r + 1 < m → m ≤ n → r * (n + 1) + 1 < m * n
second_diagonal m n r h square =
    let e : r + 2 + (m - (r + 2)) ≡ m = omega arith in
    let parts : m * n ≡ r * n + 2 * n + (m - (r + 2)) * n =
      ap (λ x. x * n) (sym e)
      ∙ add-mul (r + 2) (m - (r + 2)) n
      ∙ ap (λ x. x + (m - (r + 2)) * n) (add-mul r 2 n) in
    omega (arith, parts, mul-add r n 1)

row_zero-IsWithin :
    (k m n r count : ℕ)
    → 0 < k
    → r + count ≤ m
    → m ≤ n
    → All (IsWithin k (m * n)) (map (λ i. (0, i * (n + 1))) (range_from r count))
row_zero-IsWithin k m n r zero h room square = tt
row_zero-IsWithin k m n r (suc count) h room square = (
  (h, diagonal m n r (omega arith) square),
  row_zero-IsWithin k m n (r + 1) count h (omega arith) square,
)

row_one-IsWithin :
    (k m n r count : ℕ)
    → 1 < k
    → count ≤ m - (r + 1)
    → m ≤ n
    → All (IsWithin k (m * n)) (map (λ i. (1, i * (n + 1) + 1)) (range_from r count))
row_one-IsWithin k m n r zero h room square = tt
row_one-IsWithin k m n r (suc count) h room square = (
  (h, second_diagonal m n r (omega arith) square),
  row_one-IsWithin k m n (r + 1) count h (omega arith) square,
)

pub row_fits : (m n : ℕ) → 1 ≤ m → n ≤ m * n
row_fits zero n h = absurd (omega arith)
row_fits (suc m) n h = omega (arith, add-mul m 1 n)

pub one_positions-IsWithin :
    (k m n : ℕ) → 2 ≤ k → 1 ≤ m → m ≤ n → All (IsWithin k (m * n)) (one_positions m n)
unfolding one_positions
one_positions-IsWithin k m n two one square =
    All-append (IsWithin k (m * n)) (map (λ i. (0, i * (n + 1))) (range_from 1 (m - 1))) _
      (row_zero-IsWithin k m n 1 (m - 1) (omega arith) (omega arith) square)
      (row_one-IsWithin k m n 1 (m - 2) (omega arith) (omega arith) square)

pub before_last : (m n j : ℕ) → 1 ≤ m → j < m * n - n → j < (m - 1) * n
before_last zero n j h less = absurd (omega arith)
before_last (suc m) n j h less =
    let e : suc m - 1 ≡ m = omega arith in rw e (omega (arith, add-mul m 1 n))

pub positions_agree : (k m n : ℕ) → read_positions k m n ≡ written_positions k m n
unfolding read_positions written_positions
positions_agree k m n = refl

length-positions : (i j count : ℕ) → length (positions i (range_from j count)) ≡ count
length-positions i j zero = refl
length-positions i j (suc count) = ap suc (length-positions i (j + 1) count)

length-all_positions :
    (i j rows count : ℕ)
    → length (all_positions (range_from i rows) (range_from j count)) ≡ rows * count
length-all_positions i j zero count = omega arith
length-all_positions i j (suc rows) count = omega (
  arith,
  length-append (positions i (range_from j count))
      (all_positions (range_from (i + 1) rows) (range_from j count)),
  length-positions i j count,
  length-all_positions (i + 1) j rows count,
)

pub length-written_positions :
    (k m n : ℕ) → length (written_positions k m n) ≡ (k - 2) * (m * n - k) + n
unfolding written_positions
length-written_positions k m n = omega (
  arith,
  length-append (positions 1 (range_from (m * n - n) n))
      (all_positions (range_from 2 (k - 2)) (range_from k (m * n - k))),
  length-positions 1 (m * n - n) n,
  length-all_positions 2 k (k - 2) (m * n - k),
)
