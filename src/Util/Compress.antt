-- ===== src/Util/Compress.antt =====
-- `get_cached`, `Compress`, `Decompress`, `CompressG` and `DecompressG` of sage-ref/util.py.
pub mod RoundTrip
pub mod Tabulate
pub mod Regions
pub mod Positions
pub mod Standard
use iis_meds.Prelude.{
  ℕ, zero, suc, ◌+◌, ◌-◌, ◌*◌, ◌/◌, ◌^◌, List, [], ◌∷◌, ◌++◌, map, get_or, set, ltb, if◌then◌else◌,
  ◌==◌, Result, ok, raised, value_error, index_error, ◌>>=◌, ◌&&◌, leb, length,
}
use iis_meds.Logarithm.{ceil_log2}
use iis_meds.BitStream.{BitStream, empty, of_data, write_all, read_all}
use iis_meds.Sage.{Field, Matrices, entry}

-- `GF_BITS` of `get_cached`; the cache only saves the work.
abbrev pub field_bits : Field → ℕ
field_bits F = ceil_log2 F.order

-- `range(i, i + count)`
abbrev pub range_from : ℕ → ℕ → List ℕ
range_from i zero = []
range_from i (suc count) = i ∷ range_from (i + 1) count

-- The positions (i, j) for i in one range and j in another
abbrev pub positions : ℕ → List ℕ → List (ℕ × ℕ)
positions i [] = []
positions i (j ∷ js) = (i, j) ∷ positions i js

abbrev pub all_positions : List ℕ → List ℕ → List (ℕ × ℕ)
all_positions [] js = []
all_positions (i ∷ is) js = positions i js ++ all_positions is js

-- The entries that `CompressG` writes, in order: the last n of row 1, and all from column k on of the
-- rows from 2 on.
unfoldable pub written_positions : ℕ → ℕ → ℕ → List (ℕ × ℕ)
written_positions k m n =
    positions 1 (range_from (m * n - n) n)
    ++ all_positions (range_from 2 (k - 2)) (range_from k (m * n - k))

-- The entries that `DecompressG` reads, in the order of its own loops
unfoldable pub read_positions : ℕ → ℕ → ℕ → List (ℕ × ℕ)
read_positions k m n =
    positions 1 (range_from (m * n - n) n)
    ++ all_positions (range_from 2 (k - 2)) (range_from k (m * n - k))

-- The entries that `DecompressG` sets to 1: those of row 0, and then those of row 1.
unfoldable pub one_positions : ℕ → ℕ → List (ℕ × ℕ)
one_positions m n =
    map (λ i. (0, i * (n + 1))) (range_from 1 (m - 1))
    ++ map (λ i. (1, i * (n + 1) + 1)) (range_from 1 (m - 2))

module _ {F : Field} (S : Matrices F) where
  -- `M[0,0]` raises IndexError on a matrix with no entries.
  unfoldable pub compress : S.Mat → Result (List ℕ)
  compress a = do
    _ ← entry S a 0 0
    bs ← write_all empty (map F.to_int (S.entries a)) (field_bits F)
    ok bs.data_bytes

  unfoldable pub decompress : List ℕ → ℕ → ℕ → Result S.Mat
  decompress b r c = do
    (values, _) ← read_all (of_data b) (r * c) (field_bits F)
    ok (S.matrix r c (map F.of_int values))

  -- `int(M[i, j])` for each position
  unfoldable pub values_at : S.Mat → List (ℕ × ℕ) → Result (List ℕ)
  values_at a [] = ok []
  values_at a ((i, j) ∷ ps) = do v ← entry S a i j; vs ← values_at a ps; ok (F.to_int v ∷ vs)

  unfoldable pub compress_g : S.Mat → ℕ → ℕ → ℕ → Result (List ℕ)
  compress_g a k m n = do
    _ ← entry S a 0 0
    values ← values_at a (written_positions k m n)
    bs ← write_all empty values (field_bits F)
    ok bs.data_bytes

  -- The rows of `I_k.augment(matrix(GFq, k, m * n - k))` from row i on, `count` of them
  unfoldable pub identity_rows : ℕ → ℕ → ℕ → List F.El
  identity_rows cols i zero = []
  identity_rows cols i (suc count) =
      map (λ j. F.of_int (if i == j then 1 else 0)) (range_from 0 cols)
      ++ identity_rows cols (i + 1) count

  -- `G[i, j] = v` for each position and value, in a matrix of k rows and `cols` columns
  unfoldable pub set_all : ℕ → ℕ → List F.El → List (ℕ × ℕ) → List F.El → Result (List F.El)
  set_all k cols xs ((i, j) ∷ ps) (v ∷ vs) =
      let rest = set_all k cols (set xs (i * cols + j) v) ps vs in
      if ltb i k && ltb j cols then rest else raised index_error
  set_all k cols xs [] vs = ok xs
  set_all k cols xs ps [] = ok xs

  unfoldable pub decompress_g : List ℕ → ℕ → ℕ → ℕ → Result S.Mat
  decompress_g b k m n =
      if leb k (m * n)
      then (do
        let start = identity_rows (m * n) 0 k
        let ones = one_positions m n
        fixed ← set_all k (m * n) start ones (map (λ _. F.of_int 1) ones)
        let free = read_positions k m n
        (values, _) ← read_all (of_data b) (length free) (field_bits F)
        all ← set_all k (m * n) fixed free (map F.of_int values)
        ok (S.matrix k (m * n) all))
      else raised value_error
