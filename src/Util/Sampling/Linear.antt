-- ===== src/Util/Sampling/Linear.antt =====
-- What linear algebra says of Sage's matrices, for the sizes that the program uses: blocks of m rows
-- and n columns, square matrices beside them, and wide matrices whose k rows hold a block each.
use iis_meds.Prelude.{
  ℕ, ◌*◌, ◌≤◌, ◌%◌, ◌==◌, List, length, true, some, ok, ok-injective, ◌≡◌, refl, ap, ap₂, sym, ◌∙◌,
  bind-ok, Bool-cases, inl, inr, subst,
}
use iis_meds.Sage.{Field, Matrices}
use iis_meds.Util.Sampling.{pi, sf, diagonal_sum}
use iis_meds.Util.Sampling.Rows.{
  HasSize, moved_row, with_rows, with_rows-HasSize, with_rows_twice, pi-with_rows,
}

-- A square matrix with an inverse
abbrev pub IsRegular : {F : Field} (S : Matrices F) → ℕ → S.Mat → Type 0
IsRegular S r a = HasSize S r r a × (S.is_invertible a ≡ true)

pub record Linear {F : Field} (S : Matrices F) (m n k : ℕ) : Type 0 where
  -- Only square matrices are invertible; products and inverses of invertible ones are.
  pub invertible_square : (a : S.Mat) → S.is_invertible a ≡ true → S.nrows a ≡ S.ncols a
  pub mul_square :
      (r : ℕ) (a b : S.Mat) → HasSize S r r a → HasSize S r r b → HasSize S r r (S.mul a b)
  pub mul_regular :
      (r : ℕ) (a b : S.Mat) → IsRegular S r a → IsRegular S r b → S.is_invertible (S.mul a b) ≡ true
  pub inverse_regular : (r : ℕ) (a : S.Mat) → IsRegular S r a → IsRegular S r (S.inverse a)
  -- Products with blocks and wide matrices
  pub mul_left : (a v : S.Mat) → HasSize S m m a → HasSize S m n v → HasSize S m n (S.mul a v)
  pub mul_right : (v b : S.Mat) → HasSize S m n v → HasSize S n n b → HasSize S m n (S.mul v b)
  pub mul_wide :
      (a g : S.Mat) → HasSize S k k a → HasSize S k (m * n) g → HasSize S k (m * n) (S.mul a g)
  pub mul_assoc :
      (a v b : S.Mat)
      → HasSize S m m a
      → HasSize S m n v
      → HasSize S n n b
      → S.mul a (S.mul v b) ≡ S.mul (S.mul a v) b
  -- a⁻¹ cancels against a.
  pub cancel_left :
      (a c v : S.Mat)
      → IsRegular S m a
      → HasSize S m m c
      → HasSize S m n v
      → S.mul (S.mul c (S.inverse a)) (S.mul a v) ≡ S.mul c v
  pub cancel_right :
      (v b c : S.Mat)
      → HasSize S m n v
      → IsRegular S n b
      → HasSize S n n c
      → S.mul (S.mul v (S.inverse b)) (S.mul b c) ≡ S.mul v c
  -- The reduced echelon form has the size of the matrix, and depends on the space of the rows alone,
  -- which invertible matrices move together.
  pub echelon_size : (a : S.Mat) → HasSize S (S.nrows a) (S.ncols a) (S.echelon_form a)
  pub echelon_pi :
      (a b g moved again : S.Mat)
      → IsRegular S m a
      → IsRegular S n b
      → HasSize S k (m * n) g
      → pi S a b g ≡ ok moved
      → pi S a b (S.echelon_form g) ≡ ok again
      → S.echelon_form again ≡ S.echelon_form moved

module _ {F : Field} (S : Matrices F) (m n k : ℕ) (laws : Linear S m n k) (pos : 1 ≤ m) where
  matrix_block : (r : List F.El) → length r ≡ m * n → HasSize S m n (S.matrix m n r)
  matrix_block r e = (S.nrows-matrix m n r e, S.ncols-matrix m n r e)

  moved_block :
      (a b : S.Mat) (r : List F.El)
      → HasSize S m m a
      → HasSize S n n b
      → length r ≡ m * n
      → HasSize S m n (S.mul (S.mul a (S.matrix m n r)) b)
  moved_block a b r left right e =
      laws.mul_right _ b (laws.mul_left a _ left (matrix_block r e)) right

  length-moved_row :
      (a b : S.Mat) (r : List F.El)
      → HasSize S m m a
      → HasSize S n n b
      → length r ≡ m * n
      → length (moved_row S m n a b r) ≡ m * n
  length-moved_row a b r left right e =
      let size = moved_block a b r left right e in
      S.length-entries _ ∙ ap₂ (λ x y. x * y) size.0 size.1

  -- A row that is moved by a and b⁻¹, and then by ã a⁻¹ and b b̃, is moved by ã and b̃.
  moved_row_twice :
      (a b x y : S.Mat) (r : List F.El)
      → IsRegular S m a
      → IsRegular S n b
      → HasSize S m m x
      → HasSize S n n y
      → length r ≡ m * n
      → moved_row S m n (S.mul x (S.inverse a)) (S.mul b y) (moved_row S m n a (S.inverse b) r)
        ≡ moved_row S m n x y r
  moved_row_twice a b x y r left right left' right' e =
      let v = S.matrix m n r in
      let block = matrix_block r e in
      let ia = laws.inverse_regular m a left in
      let ib = laws.inverse_regular n b right in
      let size = moved_block a (S.inverse b) r left.0 ib.0 e in
      let w = S.mul (S.mul a v) (S.inverse b) in
      let again : S.matrix m n (S.entries w) ≡ w =
        ap₂ (λ i j. S.matrix i j (S.entries w)) (sym size.0) (sym size.1) ∙ S.matrix-entries w in
      let xa = laws.mul_square m x (S.inverse a) left' ia.0 in
      ap (λ u. S.entries (S.mul (S.mul (S.mul x (S.inverse a)) u) (S.mul b y))) again
      ∙ ap (λ u. S.entries (S.mul u (S.mul b y)))
          (laws.mul_assoc (S.mul x (S.inverse a)) (S.mul a v) (S.inverse b) xa
              (laws.mul_left a v left.0 block) ib.0
            ∙ ap (λ u. S.mul u (S.inverse b)) (laws.cancel_left a x v left left' block))
      ∙ ap S.entries
          (laws.cancel_right (S.mul x v) b y (laws.mul_left x v left' block) right right')

  pub pi-pi :
      (a b x y g moved : S.Mat)
      → IsRegular S m a
      → IsRegular S n b
      → HasSize S m m x
      → HasSize S n n y
      → HasSize S k (m * n) g
      → pi S a (S.inverse b) g ≡ ok moved
      → HasSize S k (m * n) moved × (pi S (S.mul x (S.inverse a)) (S.mul b y) moved ≡ pi S x y g)
  pi-pi a b x y g moved left right left' right' size run =
      let ia = laws.inverse_regular m a left in
      let ib = laws.inverse_regular n b right in
      let mu = laws.mul_square m x (S.inverse a) left' ia.0 in
      let nu = laws.mul_square n b y right.0 right' in
      let f = moved_row S m n a (S.inverse b) in
      let keeps : (r : List F.El) → length r ≡ m * n → length (f r) ≡ m * n =
        λ r e. length-moved_row a (S.inverse b) r left.0 ib.0 e in
      let once = pi-with_rows S a (S.inverse b) g k m n pos left.0 ib.0 size in
      let same : with_rows S f k (m * n) g ≡ moved = ok-injective _ moved (sym once ∙ run) in
      let first = subst (HasSize S k (m * n)) same (with_rows-HasSize S f k (m * n) g keeps size) in
      let twice =
        with_rows_twice S f (moved_row S m n (S.mul x (S.inverse a)) (S.mul b y))
          (moved_row S m n x y) k (m * n) g keeps
          (λ r e. moved_row_twice a b x y r left right left' right' e) size in
      (
        first,
        pi-with_rows S (S.mul x (S.inverse a)) (S.mul b y) moved k m n pos mu nu first
            ∙ ap
                (λ h.
                  ok
                    (with_rows S (moved_row S m n (S.mul x (S.inverse a)) (S.mul b y)) k (m * n) h))
                (sym same)
            ∙ ap ok twice
            ∙ sym (pi-with_rows S x y g k m n pos left' right' size),
      )

  sf_same : (x y : S.Mat) → S.echelon_form x ≡ S.echelon_form y → sf S x ≡ sf S y
  unfolding sf
  sf_same x y e = rw e refl

  pub sf_form : (x e : S.Mat) → sf S x ≡ ok (some e) → S.echelon_form x ≡ e
  unfolding sf
  sf_form x e run =
      let form = S.echelon_form x in
      let (total, run0, rest) = bind-ok (diagonal_sum S form 0 (S.nrows form)) _ run in
      elim (Bool-cases (total % F.order == S.nrows form % F.order)) [
        | inl good ↦ let found = rw good at rest in cc
        | inr bad ↦ let found = rw bad at rest in cc
      ]

  -- The public matrix g' of a key (a, b⁻¹), moved by the answer of a round (x, y), has the systematic
  -- form of the first matrix moved by the round's own matrices.
  pub sf-pi :
      (a b x y g moved g' own own_form : S.Mat)
      → IsRegular S m a × IsRegular S n b
      → IsRegular S m x × IsRegular S n y
      → HasSize S k (m * n) g
      → (pi S a (S.inverse b) g ≡ ok moved) × (sf S moved ≡ ok (some g'))
      → (pi S x y g ≡ ok own) × (sf S own ≡ ok (some own_form))
      → (again : S.Mat) × (pi S (S.mul x (S.inverse a)) (S.mul b y) g' ≡ ok again)
        × (sf S again ≡ ok (some own_form))
  sf-pi a b x y g moved g' own own_form keys round size made mine =
      let ia = laws.inverse_regular m a keys.0 in
      let mu = S.mul x (S.inverse a) in
      let nu = S.mul b y in
      let mu_size = laws.mul_square m x (S.inverse a) round.0.0 ia.0 in
      let nu_size = laws.mul_square n b y keys.1.0 round.1.0 in
      let mu_regular : IsRegular S m mu =
        (mu_size, laws.mul_regular m x (S.inverse a) round.0 ia) in
      let nu_regular : IsRegular S n nu = (nu_size, laws.mul_regular n b y keys.1 round.1) in
      let (wide, composed) = pi-pi a b x y g moved keys.0 keys.1 round.0.0 round.1.0 size made.0 in
      let form = sf_form moved g' made.1 in
      let long = laws.echelon_size moved in
      let wide' : HasSize S k (m * n) g' =
        subst (HasSize S k (m * n)) form (long.0 ∙ wide.0, long.1 ∙ wide.1) in
      let again = with_rows S (moved_row S m n mu nu) k (m * n) g' in
      let run : pi S mu nu g' ≡ ok again =
        pi-with_rows S mu nu g' k m n pos mu_size nu_size wide' in
      (
        again,
        run,
        sf_same again own (
              laws.echelon_pi mu nu moved own again mu_regular nu_regular wide (composed ∙ mine.0)
                (ap (pi S mu nu) form ∙ run))
            ∙ mine.1,
      )
