-- ===== src/Util/Sampling/Rows.antt =====
-- The rows of a matrix, and what `pi` of sage-ref/util.py makes of them.
use iis_meds.Prelude.{
  ℕ, zero, suc, ◌*◌, ◌<◌, ◌≤◌, List, [], ◌∷◌, map, drop, length, length-take, length-drop,
  length-append, take-append, drop-append, length-map, lt→ltb, All, ok, ◌≡◌, refl, ap, ap₂, sym,
  ◌∙◌, arith,
}
use iis_meds.Sage.{Field, Matrices, entry}
use iis_meds.Util.Sampling.{rows_of, flatten, pi}

module _ {F : Field} (S : Matrices F) where
  abbrev pub HasWidth : ℕ → List F.El → Type 0
  HasWidth w r = length r ≡ w

  rows_of-flatten :
      (w : ℕ) (rs : List (List F.El))
      → All (HasWidth w) rs
      → rows_of S w (length rs) (flatten S rs) ≡ rs
  unfolding rows_of flatten
  rows_of-flatten w [] h = refl
  rows_of-flatten w (r ∷ rs) (here, later) =
      rw (take-append w r (flatten S rs) here, drop-append w r (flatten S rs) here)
        (ap (◌∷◌ r) (rows_of-flatten w rs later))

  pub All-rows_of :
      (w count : ℕ) (xs : List F.El)
      → length xs ≡ count * w
      → All (HasWidth w) (rows_of S w count xs)
  unfolding rows_of
  All-rows_of w zero xs h = tt
  All-rows_of w (suc count) xs h = (
    omega (arith, length-take w xs),
    All-rows_of w count (drop w xs) (omega (arith, length-drop w xs)),
  )

  length-rows_of : (w count : ℕ) (xs : List F.El) → length (rows_of S w count xs) ≡ count
  unfolding rows_of
  length-rows_of w zero xs = refl
  length-rows_of w (suc count) xs = ap suc (length-rows_of w count (drop w xs))

  length-flatten :
      (w : ℕ) (rs : List (List F.El)) → All (HasWidth w) rs → length (flatten S rs) ≡ length rs * w
  unfolding flatten
  length-flatten w [] h = omega arith
  length-flatten w (r ∷ rs) (here, later) =
      omega (arith, length-append r (flatten S rs), here, length-flatten w rs later)

  -- The entries of one row of G, moved by two matrices
  abbrev pub moved_row : ℕ → ℕ → S.Mat → S.Mat → List F.El → List F.El
  moved_row m n a b v = S.entries (S.mul (S.mul a (S.matrix m n v)) b)

  pub pi-moved_row :
      (a b g : S.Mat) (m n : ℕ)
      → 1 ≤ m
      → (S.nrows a ≡ m) × (S.ncols a ≡ m)
      → S.nrows b ≡ n
      → pi S a b g
        ≡ ok (
            S.matrix (S.nrows g) (m * n) (
              flatten S
                (map (moved_row m n a b) (rows_of S (S.ncols g) (S.nrows g) (S.entries g)))))
  unfolding pi entry
  pi-moved_row a b g m n pos square other =
      let rows : 0 < S.nrows a = omega (arith, square.0) in
      let cols : 0 < S.ncols a = omega (arith, square.1) in
      rw (lt→ltb 0 (S.nrows a) rows, lt→ltb 0 (S.ncols a) cols)
        (ap₂
          (λ x y. ok (
            S.matrix (S.nrows g) (x * y) (
              flatten S
                (map (moved_row x y a b) (rows_of S (S.ncols g) (S.nrows g) (S.entries g))))))
          square.0 other)

  map_same :
      (f h : List F.El → List F.El) (w : ℕ) (rs : List (List F.El))
      → ((r : List F.El) → length r ≡ w → f r ≡ h r)
      → All (HasWidth w) rs
      → map f rs ≡ map h rs
  map_same f h w [] same widths = refl
  map_same f h w (r ∷ rs) same (here, later) = ap₂ ◌∷◌ (same r here) (map_same f h w rs same later)

  All-map :
      (f : List F.El → List F.El) (w : ℕ) (rs : List (List F.El))
      → ((r : List F.El) → length r ≡ w → length (f r) ≡ w)
      → All (HasWidth w) rs
      → All (HasWidth w) (map f rs)
  All-map f w [] keeps widths = tt
  All-map f w (r ∷ rs) keeps (here, later) = (keeps r here, All-map f w rs keeps later)

  map-map :
      (f h : List F.El → List F.El) (rs : List (List F.El))
      → map f (map h rs) ≡ map (λ r. f (h r)) rs
  map-map f h [] = refl
  map-map f h (r ∷ rs) = ap (◌∷◌ (f (h r))) (map-map f h rs)

  -- A matrix of k rows and w columns
  abbrev pub HasSize : ℕ → ℕ → S.Mat → Type 0
  HasSize r c a = (S.nrows a ≡ r) × (S.ncols a ≡ c)

  rows_of-entries :
      (k w : ℕ) (g : S.Mat) → HasSize k w g → All (HasWidth w) (rows_of S w k (S.entries g))
  rows_of-entries k w g size =
      All-rows_of w k (S.entries g) (S.length-entries g ∙ ap₂ (λ x y. x * y) size.0 size.1)

  -- The matrix whose rows are those of g under a function that keeps their width
  abbrev pub with_rows : (List F.El → List F.El) → ℕ → ℕ → S.Mat → S.Mat
  with_rows f k w g = S.matrix k w (flatten S (map f (rows_of S w k (S.entries g))))

  length-with_rows :
      (f : List F.El → List F.El) (k w : ℕ) (g : S.Mat)
      → ((r : List F.El) → length r ≡ w → length (f r) ≡ w)
      → HasSize k w g
      → length (flatten S (map f (rows_of S w k (S.entries g)))) ≡ k * w
  length-with_rows f k w g keeps size =
      let rs = rows_of S w k (S.entries g) in
      length-flatten w (map f rs) (All-map f w rs keeps (rows_of-entries k w g size))
      ∙ ap (λ c. c * w) (length-map rs f ∙ length-rows_of w k (S.entries g))

  pub with_rows-HasSize :
      (f : List F.El → List F.El) (k w : ℕ) (g : S.Mat)
      → ((r : List F.El) → length r ≡ w → length (f r) ≡ w)
      → HasSize k w g
      → HasSize k w (with_rows f k w g)
  with_rows-HasSize f k w g keeps size =
      let long = length-with_rows f k w g keeps size in
      (S.nrows-matrix k w _ long, S.ncols-matrix k w _ long)

  -- To change the rows twice is to change them by both functions.
  pub with_rows_twice :
      (f h both : List F.El → List F.El) (k w : ℕ) (g : S.Mat)
      → ((r : List F.El) → length r ≡ w → length (f r) ≡ w)
      → ((r : List F.El) → length r ≡ w → h (f r) ≡ both r)
      → HasSize k w g
      → with_rows h k w (with_rows f k w g) ≡ with_rows both k w g
  with_rows_twice f h both k w g keeps same size =
      let rs = rows_of S w k (S.entries g) in
      let widths = rows_of-entries k w g size in
      let count : length (map f rs) ≡ k = length-map rs f ∙ length-rows_of w k (S.entries g) in
      let back : rows_of S w k (S.entries (with_rows f k w g)) ≡ map f rs =
        ap (rows_of S w k) (S.entries-matrix k w _ (length-with_rows f k w g keeps size))
        ∙ ap (λ c. rows_of S w c (flatten S (map f rs))) (sym count)
        ∙ rows_of-flatten w (map f rs) (All-map f w rs keeps widths) in
      ap (λ l. S.matrix k w (flatten S l))
        (ap (map h) back ∙ map-map h f rs ∙ map_same (λ r. h (f r)) both w rs same widths)

  pub pi-with_rows :
      (a b g : S.Mat) (k m n : ℕ)
      → 1 ≤ m
      → HasSize m m a
      → HasSize n n b
      → HasSize k (m * n) g
      → pi S a b g ≡ ok (with_rows (moved_row m n a b) k (m * n) g)
  pi-with_rows a b g k m n pos left right size =
      pi-moved_row a b g m n pos left right.0
      ∙ ap₂
          (λ x y. ok (
            S.matrix x (m * n) (flatten S (map (moved_row m n a b) (rows_of S y x (S.entries g))))))
          size.0 size.1
