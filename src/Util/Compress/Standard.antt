-- ===== src/Util/Compress/Standard.antt =====
-- What `DecompressG` makes of the bytes of `CompressG`, in sage-ref/util.py.
use iis_meds.Prelude.{
  ℕ, zero, suc, ◌+◌, ◌-◌, ◌*◌, ◌/◌, ◌<◌, ◌≤◌, ◌==◌, List, [], ◌∷◌, map, All, length, length-map,
  get_or, if◌then◌else◌, lt→ltb, leb, true, false, Bool, Bool-cases, inl, inr, ◌||◌, ◌%◌, ◌≡◌, refl,
  ap, sym, ◌∙◌, arith, ok,
}
use iis_meds.BitStream.{BitStream, of_data, read_all}
use iis_meds.BitStream.RoundTrip.{read_all-write_all, write_all_size}
use iis_meds.Sage.{Field, Matrices, entry}
use iis_meds.Util.Compress.{
  field_bits, written_positions, one_positions, values_at, compress_g, decompress_g,
}
use iis_meds.Util.Compress.RoundTrip.{FitWidth-to_int, map-of_int-to_int}
use iis_meds.Util.Compress.Regions.{
  at_any-written_positions, ones_row_zero, ones_row_one, ones_no_row, tabulate-same,
}
use iis_meds.Util.Compress.Tabulate.{
  tabulate, at_any, replace_all, IsWithin, set_all-tabulate, identity_rows-tabulate,
}
use iis_meds.Util.Compress.Positions.{
  written_positions-IsWithin, row_fits, one_positions-IsWithin, before_last, positions_agree,
  length-written_positions,
}

module _ {F : Field} (S : Matrices F) where
  -- The entry in row i and column j, 0 past the ends
  abbrev pub entry_at : S.Mat → ℕ → ℕ → F.El
  entry_at a i j = get_or (S.entries a) (i * S.ncols a + j) (F.of_int 0)

  -- The entry in row i and column j that a public matrix has if it keeps those of `a` it is written with:
  -- row 0 has ones at the multiples of n + 1, row 1 where n + 1 leaves 1 and keeps its last n entries, and
  -- the others begin with a row of the identity and keep what is right of it.
  abbrev pub public_entry : S.Mat → ℕ → ℕ → ℕ → ℕ → ℕ → F.El
  public_entry a k m n i j =
      if i == 0
      then F.of_int (if j % (n + 1) == 0 then 1 else 0)
      else if i == 1
      then (if leb (m * n - n) j
          then entry_at a i j
          else F.of_int (if j % (n + 1) == 1 then 1 else 0))
      else if leb k j
      then entry_at a i j
      else F.of_int (if i == j then 1 else 0)

  abbrev pub standard : S.Mat → ℕ → ℕ → ℕ → S.Mat
  standard a k m n = S.matrix k (m * n) (tabulate (public_entry a k m n) (m * n) 0 k)

  one_of :
      (b c : Bool)
      → (if b then F.of_int 1 else F.of_int (if c then 1 else 0))
        ≡ F.of_int (if b || c then 1 else 0)
  one_of true c = refl
  one_of false c = refl

  set_entry-public_entry :
      (a : S.Mat) (k m n i j : ℕ)
      → (2 ≤ k) × (1 ≤ m) × (m ≤ n) × (k ≤ m * n)
      → i < k
      → j < m * n
      → replace_all
          (written_positions k m n)
          (entry_at a)
          (replace_all
            (one_positions m n)
            (λ i j. F.of_int 1)
            (λ i j. F.of_int (if i == j then 1 else 0)))
          i
          j
        ≡ public_entry a k m n i j
  set_entry-public_entry a k m n zero j (two, one, square, fits) hi hj =
      let written = at_any-written_positions k m n 0 j fits (row_fits m n one) hi hj in
      rw (written, one_of (at_any (one_positions m n) 0 j) (0 == j), ones_row_zero m n j hj) refl
  set_entry-public_entry a k m n (suc zero) j (two, one, square, fits) hi hj =
      let written = at_any-written_positions k m n 1 j fits (row_fits m n one) hi hj in
      elim (Bool-cases (leb (m * n - n) j)) [
        | inl late ↦ rw (written, late) refl
        | inr early ↦
            let inside : j < (m - 1) * n = before_last m n j one (ground arith) in
            rw
              (
                written,
                early,
                one_of (at_any (one_positions m n) 1 j) (1 == j),
                ones_row_one m n j (omega arith) inside,
              )
              refl
      ]
  set_entry-public_entry a k m n (suc (suc i)) j (two, one, square, fits) hi hj =
      let written = at_any-written_positions k m n (suc (suc i)) j fits (row_fits m n one) hi hj in
      let large : leb 2 (suc (suc i)) ≡ true = ground arith in
      let not_zero : (suc (suc i) == 0) ≡ false = ground arith in
      let not_one : (suc (suc i) == 1) ≡ false = ground arith in
      rw (written, large, not_zero, not_one, ones_no_row m n (suc (suc i)) j (omega arith)) refl

  values_at-entry_at :
      (a : S.Mat) (ps : List (ℕ × ℕ))
      → All (IsWithin (S.nrows a) (S.ncols a)) ps
      → values_at S a ps ≡ ok (map F.to_int (map (λ p. entry_at a p.0 p.1) ps))
  unfolding values_at entry
  values_at-entry_at a [] h = refl
  values_at-entry_at a (p ∷ ps) (here, later) =
      rw (lt→ltb p.0 _ here.0, lt→ltb p.1 _ here.1, values_at-entry_at a ps later) refl

  -- DecompressG on the bytes of given entries
  decompress_g-values :
      (k m n : ℕ) (value : ℕ → ℕ → F.El) (b : List ℕ) {t : BitStream}
      → 2 ≤ k
      → 1 ≤ m
      → m ≤ n
      → k ≤ m * n
      → read_all (of_data b) (length (written_positions k m n)) (field_bits F)
        ≡ ok (map F.to_int (map (λ p. value p.0 p.1) (written_positions k m n)), t)
      → decompress_g S b k m n
        ≡ ok (
            S.matrix k (m * n) (
              tabulate
                (replace_all (written_positions k m n) value (
                  replace_all
                    (one_positions m n)
                    (λ i j. F.of_int 1)
                    (λ i j. F.of_int (if i == j then 1 else 0))))
                (m * n)
                0
                k))
  unfolding decompress_g
  decompress_g-values k m n value b two one square fits back =
      let fixed =
        set_all-tabulate S (λ i j. F.of_int 1) (λ i j. F.of_int (if i == j then 1 else 0)) k (m * n)
          (one_positions m n) (one_positions-IsWithin k m n two one square) in
      let free =
        set_all-tabulate S value
          (replace_all (one_positions m n) (λ i j. F.of_int 1)
            (λ i j. F.of_int (if i == j then 1 else 0)))
          k (m * n) (written_positions k m n)
          (written_positions-IsWithin k m n two fits (row_fits m n one)) in
      let room : leb k (m * n) ≡ true = ground arith in
      rw
        (
          room,
          positions_agree k m n,
          identity_rows-tabulate S (m * n) 0 k,
          fixed,
          back,
          map-of_int-to_int F (map (λ p. value p.0 p.1) (written_positions k m n)),
          free,
        )
        refl

  -- From a matrix of k rows and m * n columns, CompressG makes the bytes of (k - 2)(m * n - k) + n entries,
  -- and DecompressG makes of them the matrix in which row 0 has ones just at the multiples of n + 1, row 1
  -- has the last n entries of the first matrix and before them ones just at the columns that leave 1 modulo
  -- n + 1, and all other rows have the identity in the first k columns and then the first matrix's entries. (A field element
  -- takes at least 8 bits, and 2 ≤ k, 1 ≤ m ≤ n and k ≤ m * n.)
  pub decompress_g-compress_g :
      (k m n : ℕ) (a : S.Mat)
      → 8 ≤ field_bits F
      → (2 ≤ k) × (1 ≤ m) × (m ≤ n) × (k ≤ m * n)
      → (S.nrows a ≡ k) × (S.ncols a ≡ m * n)
      → (bs : List ℕ) × (compress_g S a k m n ≡ ok bs)
        × (length bs ≡ (field_bits F * ((k - 2) * (m * n - k) + n) + 7) / 8)
        × (decompress_g S bs k m n ≡ ok (standard a k m n))
  unfolding compress_g entry
  decompress_g-compress_g k m n a long (two, one, square, fits) (rows, cols) =
      let shape : (2 ≤ k) × (1 ≤ m) × (m ≤ n) × (k ≤ m * n) = (two, one, square, fits) in
      let free = written_positions k m n in
      let xs = map (λ p. entry_at a p.0 p.1) free in
      let vs = map F.to_int xs in
      let count : length vs ≡ length free =
        length-map xs F.to_int ∙ length-map free (λ p. entry_at a p.0 p.1) in
      let fit = FitWidth-to_int F xs in
      let (s, t, wrote, back) = read_all-write_all (field_bits F) vs long fit in
      let (u, run, size, _) = write_all_size (field_bits F) vs long fit in
      let same : s ≡ u = cc in
      let inside = written_positions-IsWithin k m n two fits (row_fits m n one) in
      let taken = values_at-entry_at a free (rw (rows, cols) inside) in
      (
        s.data_bytes,
        rw
            (
              lt→ltb 0 (S.nrows a) (omega (arith, rows)),
              lt→ltb 0 (S.ncols a) (omega (arith, cols)),
              taken,
              wrote,
            )
            refl,
        ap (λ x. length x.data_bytes) same
            ∙ size
            ∙ ap (λ c. (field_bits F * c + 7) / 8) (count ∙ length-written_positions k m n),
        decompress_g-values k m n (entry_at a) s.data_bytes two one square fits
              (ap (λ c. read_all (of_data s.data_bytes) c (field_bits F)) (sym count) ∙ back)
            ∙ ap (λ xs. ok (S.matrix k (m * n) xs))
                (tabulate-same _ (public_entry a k m n) (m * n) 0 k
                  (λ i j lo hi. set_entry-public_entry a k m n i j shape (omega arith))),
      )
