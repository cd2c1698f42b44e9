-- ===== src/Util/Compress/Tabulate.antt =====
-- Lists of entries row by row, given by a function of the row and the column, and what `G[i, j] = v`
-- does to them: for `DecompressG` of sage-ref/util.py.
use mathlib.Core.Path.{fun_ext}
use iis_meds.Prelude.{
  ℕ, zero, suc, ◌+◌, ◌*◌, ◌<◌, ◌==◌, List, [], ◌∷◌, ◌++◌, map, set, All, length, Bool, true, false,
  ◌&&◌, ◌||◌, if◌then◌else◌, lt→ltb, eq-true, ◌⊎◌, inl, inr, ◌≡◌, refl, ap, ap₂, sym, ◌∙◌, arith,
  ok,
}
use iis_meds.Sage.{Field, Matrices}
use iis_meds.Util.Compress.{range_from, identity_rows, set_all}

-- Whether a position is in a list of them
abbrev pub at_any : List (ℕ × ℕ) → ℕ → ℕ → Bool
at_any [] i j = false
at_any (p ∷ ps) i j = i == p.0 && j == p.1 || at_any ps i j

module _ {ℓ} {A : Type ℓ} where
  -- The rows from row i on, `count` of them
  abbrev pub tabulate : (ℕ → ℕ → A) → ℕ → ℕ → ℕ → List A
  tabulate f cols i zero = []
  tabulate f cols i (suc count) = map (f i) (range_from 0 cols) ++ tabulate f cols (i + 1) count

  -- The function with another value at one position
  abbrev pub replace : ℕ × ℕ → (ℕ → ℕ → A) → (ℕ → ℕ → A) → ℕ → ℕ → A
  replace p value f i j = if i == p.0 && j == p.1 then value i j else f i j

  set-append_left :
      (xs ys : List A) (d : ℕ) (v : A) → d < length xs → set (xs ++ ys) d v ≡ set xs d v ++ ys
  set-append_left [] ys d v h = absurd (omega arith)
  set-append_left (x ∷ xs) ys zero v h = refl
  set-append_left (x ∷ xs) ys (suc d) v h = ap (◌∷◌ x) (set-append_left xs ys d v (omega arith))

  set-append_right :
      (xs ys : List A) (n d : ℕ) (v : A)
      → length xs ≡ n
      → set (xs ++ ys) (n + d) v ≡ xs ++ set ys d v
  set-append_right [] ys zero d v h = let e : 0 + d ≡ d = omega arith in rw e
  set-append_right [] ys (suc n) d v h = absurd (omega arith)
  set-append_right (x ∷ xs) ys zero d v h = absurd (omega arith)
  set-append_right (x ∷ xs) ys (suc n) d v h =
      let e : suc n + d ≡ suc (n + d) = omega arith in
      rw e (ap (◌∷◌ x) (set-append_right xs ys n d v (omega arith)))

  -- A row is that of the other function where it has not the position.
  row_apart :
      (p : ℕ × ℕ) (value f : ℕ → ℕ → A) (i j count : ℕ)
      → (i < p.0) ⊎ ((p.0 < i) ⊎ (p.1 < j))
      → map (replace p value f i) (range_from j count) ≡ map (f i) (range_from j count)
  row_apart p value f i j zero h = refl
  row_apart p value f i j (suc count) h =
      ap₂ ◌∷◌
        (elim h [ inl a ↦ ground arith | inr (inl b) ↦ ground arith | inr (inr c) ↦ ground arith ])
        (row_apart p value f i (j + 1) count (elim h [
          | inl a ↦ inl a
          | inr (inl b) ↦ inr (inl b)
          | inr (inr c) ↦ inr (inr (omega arith))
        ]))

  set-row :
      (p : ℕ × ℕ) (value f : ℕ → ℕ → A) (i j d count : ℕ)
      → p.0 ≡ i
      → p.1 ≡ j + d
      → d < count
      → set (map (f i) (range_from j count)) d (value p.0 p.1)
        ≡ map (replace p value f i) (range_from j count)
  set-row p value f i j d zero same_row at_col h = absurd (omega arith)
  set-row p value f i j zero (suc count) same_row at_col h =
      let e : p.1 ≡ j = omega arith in
      ap₂ ◌∷◌ (rw (same_row, e, eq-true i i refl, eq-true j j refl))
        (sym (row_apart p value f i (j + 1) count (inr (inr (omega arith)))))
  set-row p value f i j (suc d) (suc count) same_row at_col h =
      ap₂ ◌∷◌ (ground arith)
        (set-row p value f i (j + 1) d count same_row (omega arith) (omega arith))

  tabulate_apart :
      (p : ℕ × ℕ) (value f : ℕ → ℕ → A) (cols i count : ℕ)
      → p.0 < i
      → tabulate (replace p value f) cols i count ≡ tabulate f cols i count
  tabulate_apart p value f cols i zero h = refl
  tabulate_apart p value f cols i (suc count) h =
      ap₂ ◌++◌ (row_apart p value f i 0 cols (inr (inl h)))
        (tabulate_apart p value f cols (i + 1) count (omega arith))

  pub length-row : (f : ℕ → A) (j count : ℕ) → length (map f (range_from j count)) ≡ count
  length-row f j zero = refl
  length-row f j (suc count) = ap suc (length-row f (j + 1) count)

  -- To set the entry at a position is to give the function its value there.
  set-tabulate :
      (p : ℕ × ℕ) (value f : ℕ → ℕ → A) (cols i d count : ℕ)
      → p.0 ≡ i + d
      → d < count
      → p.1 < cols
      → set (tabulate f cols i count) (d * cols + p.1) (value p.0 p.1)
        ≡ tabulate (replace p value f) cols i count
  set-tabulate p value f cols i d zero row h inside = absurd (omega arith)
  set-tabulate p value f cols i zero (suc count) row h inside =
      let e : 0 * cols + p.1 ≡ p.1 = omega arith in
      let size = length-row (f i) 0 cols in
      rw e (
        set-append_left (map (f i) (range_from 0 cols)) (tabulate f cols (i + 1) count) p.1
          (value p.0 p.1) (omega (arith, size))
        ∙ ap₂ ◌++◌ (set-row p value f i 0 p.1 cols (omega arith) (omega arith) inside)
            (sym (tabulate_apart p value f cols (i + 1) count (omega arith))))
  set-tabulate p value f cols i (suc d) (suc count) row h inside =
      let e : suc d * cols + p.1 ≡ cols + (d * cols + p.1) = omega arith in
      rw e (
        set-append_right (map (f i) (range_from 0 cols)) (tabulate f cols (i + 1) count) cols
          (d * cols + p.1) (value p.0 p.1) (length-row (f i) 0 cols)
        ∙ ap₂ ◌++◌ (sym (row_apart p value f i 0 cols (inl (omega arith))))
            (set-tabulate p value f cols (i + 1) d count (omega arith) (omega arith) inside))

  -- The function with other values at the positions of a list
  abbrev pub replace_all : List (ℕ × ℕ) → (ℕ → ℕ → A) → (ℕ → ℕ → A) → ℕ → ℕ → A
  replace_all ps value f i j = if at_any ps i j then value i j else f i j

  if_or : (a b : Bool) (x y : A) → (if b then x else if a then x else y) ≡ (if a || b then x else y)
  if_or true true x y = refl
  if_or true false x y = refl
  if_or false b x y = refl

  replace_all-replace :
      (p : ℕ × ℕ) (ps : List (ℕ × ℕ)) (value f : ℕ → ℕ → A)
      → replace_all ps value (replace p value f) ≡ replace_all (p ∷ ps) value f
  replace_all-replace p ps value f =
      fun_ext (λ i. fun_ext (λ j. if_or (i == p.0 && j == p.1) (at_any ps i j) (value i j) (f i j)))

abbrev pub IsWithin : ℕ → ℕ → ℕ × ℕ → Type 0
IsWithin k cols p = (p.0 < k) × (p.1 < cols)

module _ {F : Field} (S : Matrices F) where
  pub set_all-tabulate :
      (value f : ℕ → ℕ → F.El) (k cols : ℕ) (ps : List (ℕ × ℕ))
      → All (IsWithin k cols) ps
      → set_all S k cols (tabulate f cols 0 k) ps (map (λ p. value p.0 p.1) ps)
        ≡ ok (tabulate (replace_all ps value f) cols 0 k)
  unfolding set_all
  set_all-tabulate value f k cols [] h = refl
  set_all-tabulate value f k cols (p ∷ ps) (here, later) =
      rw
        (
          lt→ltb p.0 k here.0,
          lt→ltb p.1 cols here.1,
          set-tabulate p value f cols 0 p.0 k (omega arith) here.0 here.1,
          set_all-tabulate value (replace p value f) k cols ps later,
          replace_all-replace p ps value f,
        )
        refl

  pub identity_rows-tabulate :
      (cols i count : ℕ)
      → identity_rows S cols i count
        ≡ tabulate (λ i j. F.of_int (if i == j then 1 else 0)) cols i count
  unfolding identity_rows
  identity_rows-tabulate cols i zero = refl
  identity_rows-tabulate cols i (suc count) =
      ap (◌++◌ _) (identity_rows-tabulate cols (i + 1) count)
