-- ===== src/Text/Lines.antt =====
-- Lines of a text: what is cut off again from a key, an equals sign and a value.
use iis_meds.Prelude.{
  ℕ, zero, suc, ◌+◌, ◌/◌, ◌%◌, ◌≤◌, ltb, ◌==◌, List, [], ◌∷◌, ◌++◌, All, false, Bool-cases, inl,
  inr, ◌≡◌, refl, arith,
}
use iis_meds.Text.{is_space, strip_right, strip, before, lines_of, decimal_from, decimal}

-- A character that is no white space and no equals sign
abbrev pub IsPlain : ℕ → Type 0
IsPlain c = (is_space c ≡ false) × (c == 61 ≡ false) × (c == 10 ≡ false)

pub digit-IsPlain : (c : ℕ) → 48 ≤ c → c ≤ 57 → IsPlain c
digit-IsPlain c lo hi = (ground arith, ground arith, ground arith)

decimal_from-IsPlain :
    (fuel n : ℕ) (digits : List ℕ) → All IsPlain digits → All IsPlain (decimal_from fuel n digits)
decimal_from-IsPlain zero n digits h = h
decimal_from-IsPlain (suc fuel) n digits h = elim (Bool-cases (ltb n 10)) [
  | inl e ↦ rw e (digit-IsPlain (48 + n) (omega arith) (ground arith), h)
  | inr e ↦ rw e (
      decimal_from-IsPlain fuel (n / 10) ((48 + n % 10) ∷ digits)
        (digit-IsPlain (48 + n % 10) (omega arith) (omega arith), h))
]

pub decimal-IsPlain : (n : ℕ) → All IsPlain (decimal n)
decimal-IsPlain n = decimal_from-IsPlain (suc n) n [] tt

pub strip_right-plain : (xs : List ℕ) → All IsPlain xs → strip_right xs ≡ xs
strip_right-plain [] h = refl
strip_right-plain (c ∷ []) h = rw h.0.0 refl
strip_right-plain (c ∷ d ∷ xs) h = rw (strip_right-plain (d ∷ xs) h.1) refl

-- A line without its newline
pub strip_right-newline :
    (c : ℕ) (xs : List ℕ) → All IsPlain (c ∷ xs) → strip_right (c ∷ xs ++ 10 ∷ []) ≡ c ∷ xs
strip_right-newline c [] h = rw h.0.0 refl
strip_right-newline c (d ∷ xs) h = rw (strip_right-newline d xs h.1) refl

pub strip_right-behind :
    (xs ys : List ℕ) (d : ℕ) (rest : List ℕ)
    → strip_right ys ≡ d ∷ rest
    → strip_right (xs ++ ys) ≡ xs ++ (d ∷ rest)
strip_right-behind [] ys d rest e = e
strip_right-behind (c ∷ []) ys d rest e = rw e refl
strip_right-behind (c ∷ c' ∷ xs) ys d rest e = rw (strip_right-behind (c' ∷ xs) ys d rest e) refl

pub strip-plain : (c : ℕ) (xs : List ℕ) → All IsPlain (c ∷ xs) → strip (c ∷ xs ++ 10 ∷ []) ≡ c ∷ xs
strip-plain c xs h = rw h.0.0 (strip_right-newline c xs h)

pub before-plain : (xs : List ℕ) → All IsPlain xs → before 61 xs ≡ xs
before-plain [] h = refl
before-plain (c ∷ xs) h = rw (h.0.1, before-plain xs h.1) refl

-- No newline is in it.
pub lines_of-line :
    (xs more : List ℕ)
    → All (λ c. c == 10 ≡ false) xs
    → lines_of (xs ++ 10 ∷ more) ≡ (xs ++ 10 ∷ []) ∷ lines_of more
lines_of-line [] more h = refl
lines_of-line (c ∷ xs) more h = rw (h.0, lines_of-line xs more h.1) refl
