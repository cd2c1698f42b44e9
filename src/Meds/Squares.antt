-- ===== src/Meds/Squares.antt =====
-- The sizes of the matrices that signing draws and reads, for sage-ref/meds.py.
use iis_meds.Prelude.{
  ℕ, zero, suc, ◌+◌, ◌*◌, List, [], ◌∷◌, ◌++◌, Bool-cases, inl, inr, Option, some, none, Result,
  All, length, length-map, map, ◌≡◌, refl, ap, ◌∙◌, subst, ok, bind-ok,
}
use iis_meds.Logarithm.{ceil_log2}
use iis_meds.BitStream.{BitStream, of_data, read, read_all}
use iis_meds.Params.{Param, bytes_for}
use iis_meds.Sage.{Field, Matrices}
use iis_meds.SeedTree.{SeedTree, seed, item, set_leaf}
use iis_meds.Shake.{Shake}
use iis_meds.Util.Compress.{field_bits, decompress}
use iis_meds.Util.Hashing.{xof, to_bytes4}
use iis_meds.Util.Sampling.{expand_fqs, draw, invertible_from, expand_inv_mat, pi, sf}
use iis_meds.Util.Sampling.Linear.{IsRegular}
use iis_meds.Meds.{slice, seed_bytes, three, commit, commit_all, parse_square}

length-read_all :
    (count width : ℕ) (bs : BitStream) {xs : List ℕ} {bs' : BitStream}
    → read_all bs count width ≡ ok (xs, bs')
    → length xs ≡ count
unfolding read_all
length-read_all zero width bs {xs} e = let same : xs ≡ [] = cc in ap (λ l. length l) same
length-read_all (suc count) width bs {xs} e =
    let ((v, t), run0, e0) = bind-ok (read bs width) _ e in
    let ((vs, u), run1, e1) = bind-ok (read_all t count width) _ e0 in
    let same : xs ≡ v ∷ vs = cc in
    ap (λ l. length l) same ∙ ap suc (length-read_all count width t run1)

-- A square matrix of n rows
abbrev pub IsSquare : {F : Field} (S : Matrices F) → ℕ → S.Mat → Type 0
IsSquare S n a = (S.nrows a ≡ n) × (S.ncols a ≡ n)

module _ {F : Field} (S : Matrices F) (sh : Shake) (p : Param) (fuel : ℕ) where
  pub length-expand_fqs :
      (seed_bytes : List ℕ) (pos count : ℕ) {xs : List F.El} {end : ℕ}
      → expand_fqs F sh seed_bytes fuel pos count ≡ ok (xs, end)
      → length xs ≡ count
  unfolding expand_fqs
  length-expand_fqs message pos zero {xs} e = let same : xs ≡ [] = cc in ap (λ l. length l) same
  length-expand_fqs message pos (suc count) {xs} e =
      let ((x, mid), run0, e0) = bind-ok (draw F sh message fuel pos) _ e in
      let ((rest, end), run1, e1) = bind-ok (expand_fqs F sh message fuel mid count) _ e0 in
      let same : xs ≡ x ∷ rest = cc in
      ap (λ l. length l) same ∙ ap suc (length-expand_fqs message mid count run1)

  matrix-IsSquare : (n : ℕ) (xs : List F.El) → length xs ≡ n * n → IsSquare S n (S.matrix n n xs)
  matrix-IsSquare n xs e = (S.nrows-matrix n n xs e, S.ncols-matrix n n xs e)

  pub invertible_from-IsRegular :
      (message : List ℕ) (n tries pos : ℕ) {a : S.Mat}
      → invertible_from S sh message fuel n tries pos ≡ ok a
      → IsRegular S n a
  unfolding invertible_from
  invertible_from-IsRegular message n zero pos e = cc
  invertible_from-IsRegular message n (suc tries) pos {a} e =
      let ((xs, end), run0, e0) = bind-ok (expand_fqs F sh message fuel pos (n * n)) _ e in
      let here = matrix-IsSquare n xs (length-expand_fqs message pos (n * n) run0) in
      elim (Bool-cases (S.is_invertible (S.matrix n n xs))) [
        | inl good ↦
            let found = rw good at e0 in
            let same : S.matrix n n xs ≡ a = cc in subst (IsRegular S n) same (here, good)
        | inr bad ↦ invertible_from-IsRegular message n tries end (rw bad at e0)
      ]

  decompress-IsSquare :
      (bytes : List ℕ) (n : ℕ) {a : S.Mat} → decompress S bytes n n ≡ ok a → IsSquare S n a
  unfolding decompress
  decompress-IsSquare bytes n {a} e =
      let ((values, t), run0, e0) = bind-ok (read_all (of_data bytes) (n * n) (field_bits F)) _ e in
      let same : S.matrix n n (map F.of_int values) ≡ a = cc in
      subst (IsSquare S n) same (
        matrix-IsSquare n (map F.of_int values) (
          length-map values F.of_int ∙ length-read_all (n * n) (field_bits F) (of_data bytes) run0))

  -- The matrices that signing reads from a key are square.
  pub parse_square-IsSquare :
      (count n f : ℕ) (key : List ℕ) {mats : List S.Mat} {end : ℕ}
      → parse_square S sh p fuel count n f key ≡ ok (mats, end)
      → All (IsSquare S n) mats
  unfolding parse_square
  parse_square-IsSquare zero n f key {mats} e =
      let same : [] ≡ mats = cc in subst (All (IsSquare S n)) same tt
  parse_square-IsSquare (suc count) n f key {mats} e =
      let long = bytes_for (ceil_log2 p.q * n * n) in
      let (a, run0, e0) = bind-ok (decompress S (slice f long key) n n) _ e in
      let ((rest, end), run1, e1) =
        bind-ok (parse_square S sh p fuel count n (f + long) key) _ e0 in
      let same : a ∷ rest ≡ mats = cc in
      subst (All (IsSquare S n)) same (
        decompress-IsSquare (slice f long key) n run0,
        parse_square-IsSquare count n (f + long) key run1,
      )

  settle-IsRegular :
      (form : Option S.Mat) (x y : S.Mat) (sigma : SeedTree)
      (again : Result (S.Mat × S.Mat × S.Mat × SeedTree)) {a b g' : S.Mat} {sigma' : SeedTree}
      → IsRegular S p.m x × IsRegular S p.n y
      → (again ≡ ok (a, b, g', sigma') → IsRegular S p.m a × IsRegular S p.n b)
      → elim form [ some g ↦ ok (x, y, g, sigma) | none ↦ again ] ≡ ok (a, b, g', sigma')
      → IsRegular S p.m a × IsRegular S p.n b
  settle-IsRegular none x y sigma again here later e = later e
  settle-IsRegular (some g) x y sigma again {a = a} {b = b} here later e =
      let first : x ≡ a = cc in
      let second : y ≡ b = cc in
      (subst (IsRegular S p.m) first here.0, subst (IsRegular S p.n) second here.1)

  pub commit-IsRegular :
      (tries : ℕ) (g : S.Mat) (alpha : List ℕ) (i : ℕ) (sigma : SeedTree) {a b g' : S.Mat}
      {sigma' : SeedTree}
      → commit S sh p fuel tries g alpha i sigma ≡ ok (a, b, g', sigma')
      → IsRegular S p.m a × IsRegular S p.n b
  unfolding commit expand_inv_mat
  commit-IsRegular zero g alpha i sigma e = cc
  commit-IsRegular (suc tries) g alpha i sigma {a = a} {b = b} e =
      let (v, run0, e0) = bind-ok (item sigma i) _ e in
      let (bytes, run1, e1) = bind-ok (seed_bytes v) _ e0 in
      let ((seed_a, seed_b, next), run2, e2) =
        bind-ok
          (three (
            xof sh (alpha ++ bytes ++ to_bytes4 i)
              (p.pub_seed_bytes ∷ p.pub_seed_bytes ∷ p.st_seed_bytes ∷ [])))
          _ e1 in
      let (moved_tree, run3, e3) = bind-ok (set_leaf sigma i (seed next)) _ e2 in
      let (x, run4, e4) = bind-ok (invertible_from S sh seed_a fuel p.m fuel 0) _ e3 in
      let (y, run5, e5) = bind-ok (invertible_from S sh seed_b fuel p.n fuel 0) _ e4 in
      let (moved, run6, e6) = bind-ok (pi S x y g) _ e5 in
      let (form, run7, e7) = bind-ok (sf S moved) _ e6 in
      settle-IsRegular form x y moved_tree (commit S sh p fuel tries g alpha i moved_tree)
        (
          invertible_from-IsRegular seed_a p.m fuel 0 run4,
          invertible_from-IsRegular seed_b p.n fuel 0 run5,
        )
        (commit-IsRegular tries g alpha i moved_tree) e7

  pub commit-IsSquare :
      (tries : ℕ) (g : S.Mat) (alpha : List ℕ) (i : ℕ) (sigma : SeedTree) {a b g' : S.Mat}
      {sigma' : SeedTree}
      → commit S sh p fuel tries g alpha i sigma ≡ ok (a, b, g', sigma')
      → IsSquare S p.m a × IsSquare S p.n b
  commit-IsSquare tries g alpha i sigma e =
      let both = commit-IsRegular tries g alpha i sigma e in (both.0.0, both.1.0)

  -- The two secret matrices of a round are square.
  abbrev pub IsRound : S.Mat × S.Mat × S.Mat → Type 0
  IsRound r = IsSquare S p.m r.0 × IsSquare S p.n r.1

  pub commit_all-IsRound :
      (count i : ℕ) (g : S.Mat) (alpha : List ℕ) (sigma : SeedTree)
      {rounds : List (S.Mat × S.Mat × S.Mat)}
      → commit_all S sh p fuel count i g alpha sigma ≡ ok rounds
      → (length rounds ≡ count) × All IsRound rounds
  unfolding commit_all
  commit_all-IsRound zero i g alpha sigma {rounds} e =
      let same : [] ≡ rounds = cc in subst (λ l. (length l ≡ 0) × All IsRound l) same (refl, tt)
  commit_all-IsRound (suc count) i g alpha sigma {rounds} e =
      let ((a, b, g', sigma'), run0, e0) = bind-ok (commit S sh p fuel fuel g alpha i sigma) _ e in
      let (rest, run1, e1) = bind-ok (commit_all S sh p fuel count (i + 1) g alpha sigma') _ e0 in
      let (long, later) = commit_all-IsRound count (i + 1) g alpha sigma' run1 in
      let same : (a, b, g') ∷ rest ≡ rounds = cc in
      subst (λ l. (length l ≡ suc count) × All IsRound l) same
        (ap suc long, (commit-IsSquare fuel g alpha i sigma run0, later))
