-- ===== src/Util/Compress/RoundTrip.antt =====
-- A matrix comes back from its bytes.
use iis_meds.Prelude.{
  ℕ, ◌+◌, ◌*◌, ◌/◌, ◌≤◌, ◌<◌, List, [], ◌∷◌, map, length, length-map, lt→ltb, ◌≡◌, refl, ap, ap₂,
  sym, ◌∙◌, arith, ok,
}
use iis_meds.Logarithm.{le-ceil_log2}
use iis_meds.BitStream.{of_data, read_all}
use iis_meds.BitStream.RoundTrip.{FitWidth, read_all-write_all, write_all_size}
use iis_meds.Sage.{Field, Matrices, entry}
use iis_meds.Util.Compress.{field_bits, compress, decompress}

module _ (F : Field) where
  pub FitWidth-to_int : (xs : List F.El) → FitWidth (field_bits F) (map F.to_int xs)
  FitWidth-to_int [] = tt
  FitWidth-to_int (x ∷ xs) =
      (omega (arith, F.to_int-lt x, le-ceil_log2 F.order), FitWidth-to_int xs)

  pub map-of_int-to_int : (xs : List F.El) → map F.of_int (map F.to_int xs) ≡ xs
  map-of_int-to_int [] = refl
  map-of_int-to_int (x ∷ xs) = ap₂ ◌∷◌ (F.of_int-to_int x) (map-of_int-to_int xs)

-- Over a field whose elements take at least 8 bits, a matrix with entries has as many bytes as they
-- take, and Decompress gives it back from them.
pub decompress-compress :
    {F : Field} (S : Matrices F) (a : S.Mat)
    → 8 ≤ field_bits F
    → 0 < S.nrows a
    → 0 < S.ncols a
    → (bs : List ℕ) × (compress S a ≡ ok bs)
      × (length bs ≡ (field_bits F * (S.nrows a * S.ncols a) + 7) / 8)
      × (decompress S bs (S.nrows a) (S.ncols a) ≡ ok a)
unfolding compress decompress entry
decompress-compress {F} S a long rows cols =
    let vs = map F.to_int (S.entries a) in
    let count : length vs ≡ S.nrows a * S.ncols a =
      length-map (S.entries a) F.to_int ∙ S.length-entries a in
    let fit = FitWidth-to_int F (S.entries a) in
    let (s, t, wrote, back) = read_all-write_all (field_bits F) vs long fit in
    let (u, run, size, _) = write_all_size (field_bits F) vs long fit in
    let same : s ≡ u = cc in
    let again : read_all (of_data s.data_bytes) (S.nrows a * S.ncols a) (field_bits F)
        ≡ ok (vs, t) =
      ap (λ c. read_all (of_data s.data_bytes) c (field_bits F)) (sym count) ∙ back in
    (
      s.data_bytes,
      rw (lt→ltb _ _ rows, lt→ltb _ _ cols, wrote),
      ap (λ x. length x.data_bytes) same ∙ size ∙ ap (λ c. (field_bits F * c + 7) / 8) count,
      rw (again, map-of_int-to_int F (S.entries a), S.matrix-entries a),
    )
