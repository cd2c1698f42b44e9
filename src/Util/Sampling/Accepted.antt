-- ===== src/Util/Sampling/Accepted.antt =====
-- What `ExpandFqs` and `ExpandSystMat` of sage-ref/util.py draw from a stream, and on how much fuel.
use native.Mathlib.Nat.{add-mul}
use mathlib.Core.List.{map-append}
use iis_meds.Prelude.{
  ℕ, zero, suc, ◌+◌, ◌-◌, ◌*◌, ◌%◌, ◌^◌, ◌≤◌, ◌<◌, ◌==◌, ltb, ltb-false, leb, Bool-cases, inl, inr,
  true, false, List, [], ◌∷◌, ◌++◌, map, append_assoc, take, drop, get_or, if◌then◌else◌, length,
  length-map, length-take, ok, ◌≡◌, refl, ap, ap₂, sym, ◌∙◌, arith,
}
use iis_meds.Prelude.Bits.{bit_and-mask}
use iis_meds.Logarithm.{ceil_log2}
use iis_meds.Params.{bytes_for}
use iis_meds.Sage.{Field, Matrices}
use iis_meds.Shake.{Shake}
use iis_meds.Util.Challenge.{masked, read_number}
use iis_meds.Util.Compress.{range_from}
use iis_meds.Util.Compress.Regions.{row_same}
use iis_meds.Util.Compress.Tabulate.{tabulate}
use iis_meds.Util.Sampling.{draw, expand_fqs, augmented, expand_syst_mat}

module _ (F : Field) (sh : Shake) (message : List ℕ) where
  -- The number of as many bytes as q has, the first the lowest, modulo the power of two above q
  abbrev pub number_at : ℕ → ℕ
  number_at pos = read_number sh message pos (bytes_for (ceil_log2 F.order)) % 2 ^ ceil_log2 F.order

  masked-number_at : (pos : ℕ) → masked sh message pos F.order ≡ number_at pos
  unfolding masked
  masked-number_at pos =
      bit_and-mask (ceil_log2 F.order) (read_number sh message pos (bytes_for (ceil_log2 F.order)))

  -- The numbers below q, in order, among the first `count` that the stream gives from a position on
  abbrev pub accepted : ℕ → ℕ → List ℕ
  accepted pos zero = []
  accepted pos (suc count) =
      let later = accepted (pos + bytes_for (ceil_log2 F.order)) count in
      if ltb (number_at pos) F.order then number_at pos ∷ later else later

  -- One draw takes the first of them.
  draw-accepted :
      (count fuel pos : ℕ)
      → 1 ≤ length (accepted pos count)
      → count ≤ fuel
      → (v : ℕ) × (on : ℕ) × (left : ℕ) × (accepted pos count ≡ v ∷ accepted on left)
        × (left ≤ count)
        × (draw F sh message fuel pos ≡ ok (F.of_int v, on))
  unfolding draw
  draw-accepted zero fuel pos some_left h = absurd (omega arith)
  draw-accepted (suc count) zero pos some_left h = absurd (omega arith)
  draw-accepted (suc count) (suc fuel) pos some_left h =
      let b = bytes_for (ceil_log2 F.order) in
      let val = number_at pos in
      let same = masked-number_at pos in
      elim (Bool-cases (ltb val F.order)) [
        | inl now ↦ (val, pos + b, count, rw now refl, omega arith, rw (same, now) refl)
        | inr later ↦
            let still : 1 ≤ length (accepted (pos + b) count) = rw later at some_left in
            let (v, on, left, e, le, run) =
              draw-accepted count fuel (pos + b) still (omega arith) in
            (v, on, left, rw later e, omega arith, rw (same, later) run)
      ]

  -- So many draws take the first so many, and leave the others.
  pub expand_fqs-accepted :
      (num count fuel pos : ℕ)
      → num ≤ length (accepted pos count)
      → count ≤ fuel
      → (on : ℕ) × (left : ℕ) × (drop num (accepted pos count) ≡ accepted on left)
        × (left ≤ count)
        × (expand_fqs F sh message fuel pos num
            ≡ ok (map F.of_int (take num (accepted pos count)), on))
  unfolding expand_fqs
  expand_fqs-accepted zero count fuel pos room h = (pos, count, refl, omega arith, refl)
  expand_fqs-accepted (suc num) count fuel pos room h =
      let (v, mid, some_left, e, le, run) = draw-accepted count fuel pos (omega arith) h in
      let (on, left, others, less, runs) =
        expand_fqs-accepted num some_left fuel mid (omega (arith, ap length e)) (omega arith) in
      (on, left, ap (drop (suc num)) e ∙ others, omega arith, rw (run, runs, e) refl)

take-suc {ℓ} :
    {A : Type ℓ} (xs : List A) (n count : ℕ) (x : A)
    → n < length xs
    → take (suc count) (drop n xs) ≡ get_or xs n x ∷ take count (drop (suc n) xs)
take-suc [] n count x h = absurd (omega arith)
take-suc (y ∷ ys) zero count x h = refl
take-suc (y ∷ ys) (suc n) count x h = take-suc ys n count x (omega arith)

pub drop-drop {ℓ} : {A : Type ℓ} (n k : ℕ) (xs : List A) → drop n (drop k xs) ≡ drop (k + n) xs
drop-drop n zero xs = let e : 0 + n ≡ n = omega arith in rw e refl
drop-drop zero (suc k) [] = let e : suc k + 0 ≡ suc k = omega arith in rw e refl
drop-drop (suc n) (suc k) [] = let e : suc k + suc n ≡ suc (k + suc n) = omega arith in rw e refl
drop-drop n (suc k) (x ∷ xs) =
    let e : suc k + n ≡ suc (k + n) = omega arith in rw e (drop-drop n k xs)

range_from-append : (i a b : ℕ) → range_from i (a + b) ≡ range_from i a ++ range_from (i + a) b
range_from-append i zero b =
    let e : 0 + b ≡ b = omega arith in let e' : i + 0 ≡ i = omega arith in rw (e, e') refl
range_from-append i (suc a) b =
    let e : suc a + b ≡ suc (a + b) = omega arith in
    let e' : i + suc a ≡ i + 1 + a = omega arith in
    rw (e, e') (ap (◌∷◌ i) (range_from-append (i + 1) a b))

module _ {F : Field} (S : Matrices F) where
  -- The entry in row i and column j of an identity matrix with k columns before a matrix of `width`
  abbrev pub systematic : ℕ → ℕ → List F.El → ℕ → ℕ → F.El
  systematic k width xs i j =
      if ltb j k
      then F.of_int (if i == j then 1 else 0)
      else get_or xs (i * width + (j - k)) (F.of_int 0)

  take-range :
      (xs : List F.El) (d k s width : ℕ)
      → d + s + width ≤ length xs
      → map (λ j. get_or xs (d + (j - k)) (F.of_int 0)) (range_from (k + s) width)
        ≡ take width (drop (d + s) xs)
  take-range xs d k s zero room = refl
  take-range xs d k s (suc width) room =
      let at : d + (k + s - k) ≡ d + s = omega arith in
      let next : k + s + 1 ≡ k + (s + 1) = omega arith in
      let further : suc (d + s) ≡ d + (s + 1) = omega arith in
      rw (at, next, take-suc xs (d + s) width (F.of_int 0) (omega arith), further)
        (ap (◌∷◌ (get_or xs (d + s) (F.of_int 0))) (take-range xs d k (s + 1) width (omega arith)))

  -- One row
  augmented_row :
      (k width i : ℕ) (xs : List F.El)
      → i * width + width ≤ length xs
      → map (λ j. F.of_int (if i == j then 1 else 0)) (range_from 0 k)
          ++ take width (drop (i * width) xs)
        ≡ map (systematic k width xs i) (range_from 0 (k + width))
  augmented_row k width i xs room =
      let left : (c : ℕ)
          → 0 ≤ c
          → c < 0 + k
          → F.of_int (if i == c then 1 else 0) ≡ systematic k width xs i c =
        λ c _ h. let inside : ltb c k ≡ true = ground arith in rw inside refl in
      let right : (c : ℕ)
          → k + 0 ≤ c
          → c < k + 0 + width
          → get_or xs (i * width + (c - k)) (F.of_int 0) ≡ systematic k width xs i c =
        λ c h _. let behind : ltb c k ≡ false = ltb-false c k (omega arith) in rw behind refl in
      let taken = take-range xs (i * width) k 0 width (omega arith) in
      let start : i * width + 0 ≡ i * width = omega arith in
      let col : 0 + k ≡ k + 0 = omega arith in
      let row : map (systematic k width xs i) (range_from 0 (k + width))
          ≡ map (systematic k width xs i) (range_from 0 k)
            ++ map (systematic k width xs i) (range_from (k + 0) width) =
        rw (range_from-append 0 k width, col)
          (map-append _ (range_from 0 k) (range_from (k + 0) width)) in
      let identity =
        row_same (λ j. F.of_int (if i == j then 1 else 0)) (systematic k width xs i) 0 k left in
      let behind = sym taken ∙ row_same _ (systematic k width xs i) (k + 0) width right in
      sym (row ∙ ap₂ ◌++◌ (sym identity) (sym (rw start at behind)))

  augmented-tabulate :
      (k width i count : ℕ) (xs : List F.El)
      → (i + count) * width ≤ length xs
      → augmented S k width i count (drop (i * width) xs)
        ≡ tabulate (systematic k width xs) (k + width) i count
  unfolding augmented
  augmented-tabulate k width i zero xs room = refl
  augmented-tabulate k width i (suc count) xs room =
      let next : i * width + width ≡ (i + 1) * width = omega (arith, add-mul i 1 width) in
      let all : (i + suc count) * width ≡ i * width + width + count * width =
        omega (arith, add-mul i (suc count) width, add-mul count 1 width) in
      let rest : (i + 1 + count) * width ≤ length xs =
        omega (arith, all, add-mul (i + 1) count width, add-mul i 1 width) in
      sym (append_assoc _ (take width (drop (i * width) xs)) _)
      ∙ ap₂ ◌++◌ (augmented_row k width i xs (omega (arith, all))) (
          ap (augmented S k width (i + 1) count)
            (drop-drop width (i * width) xs ∙ ap (λ d. drop d xs) next)
          ∙ augmented-tabulate k width (i + 1) count xs rest)

  -- ExpandSystMat gives the k by m * n matrix of an identity matrix with the drawn field elements
  -- behind it, row by row: the first k(m * n - k) of the stream's numbers that are below q. (k ≤ m * n,
  -- these are among the first `count` numbers, and the fuel is at least `count`.)
  pub expand_syst_mat-accepted :
      (sh : Shake) (seed : List ℕ) (k m n count fuel : ℕ)
      → k ≤ m * n
      → k * (m * n - k) ≤ length (accepted F sh seed 0 count)
      → count ≤ fuel
      → expand_syst_mat S sh fuel seed k m n
        ≡ ok (
            S.matrix k (m * n) (
              tabulate
                (systematic k
                  (m * n - k)
                  (map F.of_int (take (k * (m * n - k)) (accepted F sh seed 0 count))))
                (m * n)
                0
                k))
  unfolding expand_syst_mat
  expand_syst_mat-accepted sh seed k m n count fuel fits room h =
      let width = m * n - k in
      let drawn = map F.of_int (take (k * width) (accepted F sh seed 0 count)) in
      let (on, left, others, less, run) =
        expand_fqs-accepted F sh seed (k * width) count fuel 0 room h in
      let inside : leb k (m * n) ≡ true = ground arith in
      let long : length drawn ≡ k * width =
        length-map (take (k * width) (accepted F sh seed 0 count)) F.of_int
        ∙ omega (arith, length-take (k * width) (accepted F sh seed 0 count)) in
      let cols : k + width ≡ m * n = omega arith in
      let start : 0 * width ≡ 0 = omega arith in
      let rows = augmented-tabulate k width 0 k drawn (omega (arith, long)) in
      let same : augmented S k width 0 k drawn ≡ tabulate (systematic k width drawn) (m * n) 0 k =
        rw (start, cols) at rows in
      rw (inside, run) (ap (λ xs. ok (S.matrix k (m * n) xs)) same)
