-- ===== src/Util/Sampling/Invertible.antt =====
-- What `ExpandInvMat` of sage-ref/util.py draws from a stream, and on how much fuel.
use iis_meds.Prelude.{
  ℕ, zero, suc, ◌+◌, ◌*◌, ◌≤◌, ◌<◌, true, false, List, map, take, drop, length, length-drop, ok,
  ◌≡◌, refl, ap, sym, ◌∙◌, arith,
}
use iis_meds.Sage.{Field, Matrices}
use iis_meds.Shake.{Shake}
use iis_meds.Util.Sampling.{invertible_from, expand_inv_mat}
use iis_meds.Util.Sampling.Accepted.{accepted, expand_fqs-accepted, drop-drop}
use native.Mathlib.Nat.{add-mul}

module _ {F : Field} (S : Matrices F) where
  -- The n by n matrix of the numbers from e * n * n on
  abbrev pub square_of : ℕ → List ℕ → ℕ → S.Mat
  square_of n xs e = S.matrix n n (map F.of_int (take (n * n) (drop (e * (n * n)) xs)))

  square_of-drop :
      (n e : ℕ) (xs : List ℕ) → square_of n (drop (n * n) xs) e ≡ square_of n xs (suc e)
  square_of-drop n e xs =
      let next : n * n + e * (n * n) ≡ suc e * (n * n) = omega (arith, add-mul e 1 (n * n)) in
      ap (λ l. S.matrix n n (map F.of_int (take (n * n) l)))
        (drop-drop (e * (n * n)) (n * n) xs ∙ ap (λ d. drop d xs) next)

  first_square :
      (n : ℕ) (xs : List ℕ) → S.matrix n n (map F.of_int (take (n * n) xs)) ≡ square_of n xs 0
  first_square n xs =
      let start : 0 ≡ 0 * (n * n) = omega arith in
      ap (λ d. S.matrix n n (map F.of_int (take (n * n) (drop d xs)))) start

  module _ (sh : Shake) (seed : List ℕ) (n fuel : ℕ) where
    invertible_from-accepted :
        (r tries pos count : ℕ)
        → (r + 1) * (n * n) ≤ length (accepted F sh seed pos count)
        → ((e : ℕ) → e < r → S.is_invertible (square_of n (accepted F sh seed pos count) e) ≡ false)
        → S.is_invertible (square_of n (accepted F sh seed pos count) r) ≡ true
        → count ≤ fuel
        → r < tries
        → invertible_from S sh seed fuel n tries pos
          ≡ ok (square_of n (accepted F sh seed pos count) r)
    unfolding invertible_from
    invertible_from-accepted r zero pos count room others this h enough = absurd (omega arith)
    invertible_from-accepted zero (suc tries) pos count room others this h enough =
        let first : n * n ≤ length (accepted F sh seed pos count) =
          omega (arith, add-mul 0 1 (n * n)) in
        let (on, left, rest, less, run) =
          expand_fqs-accepted F sh seed (n * n) count fuel pos first h in
        rw (run, first_square n (accepted F sh seed pos count), this) refl
    invertible_from-accepted (suc r) (suc tries) pos count room others this h enough =
        let xs = accepted F sh seed pos count in
        let parts : (suc r + 1) * (n * n) ≡ n * n + (r + 1) * (n * n) =
          omega (arith, add-mul (suc r) 1 (n * n), add-mul r 1 (n * n), add-mul r 2 (n * n)) in
        let (on, left, rest, less, run) =
          expand_fqs-accepted F sh seed (n * n) count fuel pos (omega (arith, parts)) h in
        let not_now = others 0 (omega arith) in
        let same : (e : ℕ) → square_of n (accepted F sh seed on left) e ≡ square_of n xs (suc e) =
          λ e. ap (λ l. square_of n l e) (sym rest) ∙ square_of-drop n e xs in
        let again =
          invertible_from-accepted r tries on left
            (omega (arith, parts, length-drop (n * n) xs, ap length rest))
            (λ e lo. ap S.is_invertible (same e) ∙ others (suc e) (omega arith))
            (ap S.is_invertible (same r) ∙ this) (omega arith) (omega arith) in
        rw (run, first_square n xs, not_now) (again ∙ ap ok (same r))

    -- ExpandInvMat gives the first invertible one of the matrices that the stream's numbers below q fill,
    -- n * n each, in order. (It is matrix r, counted from 0, the numbers are among the first `count`, and the
    -- fuel is at least `count` and above r.)
    pub expand_inv_mat-accepted :
        (r count : ℕ)
        → (r + 1) * (n * n) ≤ length (accepted F sh seed 0 count)
        → ((e : ℕ) → e < r → S.is_invertible (square_of n (accepted F sh seed 0 count) e) ≡ false)
        → S.is_invertible (square_of n (accepted F sh seed 0 count) r) ≡ true
        → count ≤ fuel
        → r < fuel
        → expand_inv_mat S sh fuel seed n ≡ ok (square_of n (accepted F sh seed 0 count) r)
    unfolding expand_inv_mat
    expand_inv_mat-accepted r count = invertible_from-accepted r fuel 0 count
