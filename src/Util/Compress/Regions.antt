-- ===== src/Util/Compress/Regions.antt =====
-- The regions of a public matrix: the entries that `CompressG` of sage-ref/util.py writes, the ones of
-- `DecompressG`, and the rest, by conditions on the row and the column.
use native.Mathlib.Nat.{
  mod-add-div', mul-le-mul_right, mul-add-mod_self_right, mod-eq_of_lt, mul-add,
}
use iis_meds.Prelude.{
  ℕ, zero, suc, ◌+◌, ◌-◌, ◌*◌, ◌/◌, ◌%◌, ◌≤◌, ◌<◌, ltb, leb, ◌==◌, ◌&&◌, ◌||◌, true, false,
  Bool-cases, inl, inr, List, [], ◌∷◌, ◌++◌, map, ◌≡◌, refl, ap, ap₂, sym, ◌∙◌, arith,
}
use iis_meds.Util.Compress.{range_from, positions, all_positions, written_positions, one_positions}
use iis_meds.Util.Compress.Tabulate.{at_any, tabulate}

at_any-append :
    (ps qs : List (ℕ × ℕ)) (i j : ℕ) → at_any (ps ++ qs) i j ≡ (at_any ps i j || at_any qs i j)
at_any-append [] qs i j = refl
at_any-append (p ∷ ps) qs i j = elim (Bool-cases (i == p.0 && j == p.1)) [
  | inl e ↦ rw e refl
  | inr e ↦ rw e (at_any-append ps qs i j)
]

at_any-positions :
    (r c count i j : ℕ)
    → at_any (positions r (range_from c count)) i j ≡ (i == r && (leb c j && ltb j (c + count)))
at_any-positions r c zero i j = ground arith
at_any-positions r c (suc count) i j = ground (arith, at_any-positions r (c + 1) count i j)

at_any-all_positions :
    (r rows c count i j : ℕ)
    → at_any (all_positions (range_from r rows) (range_from c count)) i j
      ≡ ((leb r i && ltb i (r + rows)) && (leb c j && ltb j (c + count)))
at_any-all_positions r zero c count i j = ground arith
at_any-all_positions r (suc rows) c count i j =
    at_any-append (positions r (range_from c count)) _ i j
    ∙ rw (at_any-positions r c count i j, at_any-all_positions (r + 1) rows c count i j)
        (ground arith)

-- Where no position of one row is met
at_any-missed :
    (t : ℕ) (f : ℕ → ℕ) (s count i j : ℕ)
    → ((r : ℕ) → s ≤ r → r < s + count → i ≡ t → j ≡ f r → ⊥)
    → at_any (map (λ r. (t, f r)) (range_from s count)) i j ≡ false
at_any-missed t f s zero i j h = refl
at_any-missed t f s (suc count) i j h =
    let here = h s (omega arith) (omega arith) in
    rw (at_any-missed t f (s + 1) count i j (λ r lo hi. h r (omega arith) (omega arith)))
      (ground arith)

at_any-met :
    (t : ℕ) (f : ℕ → ℕ) (s count j r : ℕ)
    → s ≤ r
    → r < s + count
    → j ≡ f r
    → at_any (map (λ r. (t, f r)) (range_from s count)) t j ≡ true
at_any-met t f s zero j r lo hi e = absurd (omega arith)
at_any-met t f s (suc count) j r lo hi e = elim (Bool-cases (ltb s r)) [
  | inl less ↦ rw (at_any-met t f (s + 1) count j r (ground arith) (omega arith) e) (ground arith)
  | inr same ↦ let at : s ≡ r = ground arith in rw at (ground arith)
]

-- What `CompressG` writes, in the rows of a matrix
pub at_any-written_positions :
    (k m n i j : ℕ)
    → k ≤ m * n
    → n ≤ m * n
    → i < k
    → j < m * n
    → at_any (written_positions k m n) i j ≡ ((i == 1 && leb (m * n - n) j) || (leb 2 i && leb k j))
unfolding written_positions
at_any-written_positions k m n i j fits row hi hj =
    at_any-append (positions 1 (range_from (m * n - n) n)) _ i j
    ∙ rw (at_any-positions 1 (m * n - n) n i j, at_any-all_positions 2 (k - 2) k (m * n - k) i j)
        (ground arith)

multiple : (j n : ℕ) (c : ℕ) → j % (n + 1) ≡ c → j ≡ j / (n + 1) * (n + 1) + c
multiple j n c e = sym (mod-add-div' j (n + 1)) ∙ rw e (omega arith)

remainder : (r n c : ℕ) → c ≤ n → (r * (n + 1) + c) % (n + 1) ≡ c
remainder r n c h = mul-add-mod_self_right r (n + 1) c ∙ mod-eq_of_lt (omega arith)

not_remainder : (j r n c : ℕ) → c ≤ n → j ≡ r * (n + 1) + c → (j % (n + 1) == c) ≡ false → ⊥
not_remainder j r n c h e miss =
    let same : j % (n + 1) ≡ c = ap (λ x. x % (n + 1)) e ∙ remainder r n c h in ground arith

not_first : (j c : ℕ) → (j ≡ c → ⊥) → (c == j) ≡ false
not_first j c h = elim (Bool-cases (c == j)) [ inl e ↦ absurd (h (ground arith)) | inr e ↦ e ]

quotient_positive : (j n c : ℕ) → j ≡ j / (n + 1) * (n + 1) + c → (c == j) ≡ false → 1 ≤ j / (n + 1)
quotient_positive j n c e other = elim (Bool-cases (ltb 0 (j / (n + 1)))) [
  | inl h ↦ ground arith
  | inr h ↦
      let none : j / (n + 1) ≡ 0 = ground arith in
      let same : j ≡ c = e ∙ ap (λ x. x * (n + 1) + c) none ∙ omega arith in ground arith
]

-- The row that a multiple of n + 1 stands in
row_of : (m n r : ℕ) → r * (n + 1) < m * n → r < m
row_of m n r h = elim (Bool-cases (ltb r m)) [
  | inl less ↦ ground arith
  | inr not_less ↦
      let le : m ≤ r = ground arith in
      absurd (omega (arith, mul-le-mul_right (n + 1) le, mul-add m n 1))
]

ones-ones_row :
    (m n i j : ℕ)
    → at_any (one_positions m n) i j ≡ (
        at_any (map (λ r. (0, r * (n + 1))) (range_from 1 (m - 1))) i j
        || at_any (map (λ r. (1, r * (n + 1) + 1)) (range_from 1 (m - 2))) i j)
unfolding one_positions
ones-ones_row m n i j = at_any-append (map (λ r. (0, r * (n + 1))) (range_from 1 (m - 1))) _ i j

-- Row 0 has its ones at the multiples of n + 1.
pub ones_row_zero :
    (m n j : ℕ) → j < m * n → (at_any (one_positions m n) 0 j || 0 == j) ≡ (j % (n + 1) == 0)
ones_row_zero m n j inside =
    let other =
      at_any-missed 1 (λ r. r * (n + 1) + 1) 1 (m - 2) 0 j (λ r lo hi e _. omega (arith, e)) in
    elim (Bool-cases (j % (n + 1) == 0)) [
      | inl hit ↦
          let e : j ≡ j / (n + 1) * (n + 1) + 0 = multiple j n 0 (ground arith) in
          let less : j / (n + 1) < m = row_of m n (j / (n + 1)) (omega (arith, e)) in
          elim (Bool-cases (0 == j)) [
            | inl first ↦ ground arith
            | inr later ↦
                let positive : 1 ≤ j / (n + 1) = quotient_positive j n 0 e (ground arith) in
                let met =
                  at_any-met 0 (λ r. r * (n + 1)) 1 (m - 1) j (j / (n + 1)) positive (omega arith)
                    (omega (arith, e)) in
                rw (ones-ones_row m n 0 j, met, hit) refl
          ]
      | inr miss ↦
          let missed =
            at_any-missed 0 (λ r. r * (n + 1)) 1 (m - 1) 0 j
              (λ r lo hi _ e. not_remainder j r n 0 (omega arith) (omega (arith, e)) miss) in
          let first : (0 == j) ≡ false =
            not_first j 0 (λ e. not_remainder j 0 n 0 (omega arith) (omega (arith, e)) miss) in
          rw (ones-ones_row m n 0 j, missed, other, miss, first) refl
    ]

-- Row 1 has them at the columns that leave 1, before the last n.
pub ones_row_one :
    (m n j : ℕ)
    → 1 ≤ n
    → j < (m - 1) * n
    → (at_any (one_positions m n) 1 j || 1 == j) ≡ (j % (n + 1) == 1)
ones_row_one m n j one inside =
    let other =
      at_any-missed 0 (λ r. r * (n + 1)) 1 (m - 1) 1 j (λ r lo hi e _. omega (arith, e)) in
    elim (Bool-cases (j % (n + 1) == 1)) [
      | inl hit ↦
          let e : j ≡ j / (n + 1) * (n + 1) + 1 = multiple j n 1 (ground arith) in
          let less : j / (n + 1) < m - 1 = row_of (m - 1) n (j / (n + 1)) (omega (arith, e)) in
          elim (Bool-cases (1 == j)) [
            | inl first ↦ ground arith
            | inr later ↦
                let positive : 1 ≤ j / (n + 1) = quotient_positive j n 1 e (ground arith) in
                let met =
                  at_any-met 1 (λ r. r * (n + 1) + 1) 1 (m - 2) j (j / (n + 1)) positive
                    (omega arith) e in
                rw (ones-ones_row m n 1 j, other, met, hit) refl
          ]
      | inr miss ↦
          let missed =
            at_any-missed 1 (λ r. r * (n + 1) + 1) 1 (m - 2) 1 j
              (λ r lo hi _ e. not_remainder j r n 1 one e miss) in
          let first : (1 == j) ≡ false =
            not_first j 1 (λ e. not_remainder j 0 n 1 one (omega (arith, e)) miss) in
          rw (ones-ones_row m n 1 j, other, missed, miss, first) refl
    ]

-- No other row has any.
pub ones_no_row : (m n i j : ℕ) → 2 ≤ i → at_any (one_positions m n) i j ≡ false
ones_no_row m n i j h =
    let zeroth =
      at_any-missed 0 (λ r. r * (n + 1)) 1 (m - 1) i j (λ r lo hi e _. omega (arith, e)) in
    let first =
      at_any-missed 1 (λ r. r * (n + 1) + 1) 1 (m - 2) i j (λ r lo hi e _. omega (arith, e)) in
    rw (ones-ones_row m n i j, zeroth, first) refl

module _ {ℓ} {A : Type ℓ} where
  pub row_same :
      (f g : ℕ → A) (j count : ℕ)
      → ((c : ℕ) → j ≤ c → c < j + count → f c ≡ g c)
      → map f (range_from j count) ≡ map g (range_from j count)
  row_same f g j zero h = refl
  row_same f g j (suc count) h =
      ap₂ ◌∷◌ (h j (omega arith) (omega arith))
        (row_same f g (j + 1) count (λ c lo less. h c (omega arith) (omega arith)))

  -- Functions that agree on the rows and columns of a table make the same one.
  pub tabulate-same :
      (f g : ℕ → ℕ → A) (cols i count : ℕ)
      → ((r c : ℕ) → i ≤ r → r < i + count → c < cols → f r c ≡ g r c)
      → tabulate f cols i count ≡ tabulate g cols i count
  tabulate-same f g cols i zero h = refl
  tabulate-same f g cols i (suc count) h =
      ap₂ ◌++◌
        (row_same (f i) (g i) 0 cols (λ c _ less. h i c (omega arith) (omega arith) (omega arith)))
        (tabulate-same f g cols (i + 1) count
          (λ r c lo hi less. h r c (omega arith) (omega arith) less))
