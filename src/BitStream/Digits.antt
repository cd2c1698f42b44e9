-- ===== src/BitStream/Digits.antt =====
-- Binary digits, lowest first: what a stream of bits stands for.
use iis_meds.Prelude.{
  ℕ, zero, suc, ◌+◌, ◌*◌, ◌/◌, ◌%◌, ◌^◌, ◌<◌, bit_or, List, [], ◌∷◌, ◌++◌, length, All, ◌≡◌, refl,
  ap, sym, ◌∙◌, arith,
}
use native.Mathlib.Nat.{div-div-eq-div-mul, div-add-mod}
use iis_meds.Prelude.Bits.{half-pow, pow_pos, bit_or-fields}

abbrev pub digits : ℕ → ℕ → List ℕ
digits zero v = []
digits (suc w) v = (v % 2) ∷ digits w (v / 2)

abbrev pub number : List ℕ → ℕ
number [] = 0
number (d ∷ ds) = d + 2 * number ds

abbrev pub IsDigit : ℕ → Type 0
IsDigit d = d < 2

-- The digits of a sequence of bytes.
abbrev pub stream : List ℕ → List ℕ
stream [] = []
stream (b ∷ bs) = digits 8 b ++ stream bs

pub length-digits : (w v : ℕ) → length (digits w v) ≡ w
length-digits zero v = refl
length-digits (suc w) v = ap suc (length-digits w (v / 2))

pub digits-IsDigit : (w v : ℕ) → All IsDigit (digits w v)
digits-IsDigit zero v = tt
digits-IsDigit (suc w) v = (omega arith, digits-IsDigit w (v / 2))

pub number-digits : (w v : ℕ) → v < 2 ^ w → number (digits w v) ≡ v
number-digits zero v h = omega arith
number-digits (suc w) v h = omega (arith, number-digits w (v / 2) (omega (arith, half-pow w)))

pub number-lt : (ds : List ℕ) → All IsDigit ds → number ds < 2 ^ length ds
number-lt [] h = omega arith
number-lt (d ∷ ds) (h, hs) = omega (arith, number-lt ds hs, half-pow (length ds))

pub number-append : (xs ys : List ℕ) → number (xs ++ ys) ≡ number xs + number ys * 2 ^ length xs
number-append [] ys = omega arith
number-append (x ∷ xs) ys =
    omega (arith, number-append xs ys, ap (λ (t : ℕ). number ys * t) (half-pow (length xs)))

-- The digits of a value in two parts.
pub digits_split : (a b v : ℕ) → digits (a + b) v ≡ digits a v ++ digits b (v / 2 ^ a)
digits_split zero b v =
    let e : 0 + b ≡ b = omega arith in let k : v / 1 ≡ v = omega arith in rw (e, k)
digits_split (suc a) b v =
    let e : suc a + b ≡ suc (a + b) = omega arith in
    let k : v / 2 ^ suc a ≡ v / 2 / 2 ^ a = rw half-pow (sym (div-div-eq-div-mul v 2 (2 ^ a))) in
    rw (e, k) (ap (◌∷◌ (v % 2)) (digits_split a b (v / 2)))

-- `value |= b << off`, where `value` has the digits `acc` and `off` counts them.
pub or_digits :
    (acc : List ℕ) (off w b : ℕ)
    → All IsDigit acc
    → length acc ≡ off
    → b < 2 ^ w
    → bit_or (number acc) (b * 2 ^ off) ≡ number (acc ++ digits w b)
or_digits acc off w b digs len small = rw (← len) (
    rw (bit_or-fields (length acc) (number acc) b (number-lt acc digs))
      (rw (number-append acc (digits w b), number-digits w b small)))

-- Digits above the width do not count.
digits-add : (w low high : ℕ) → digits w (low + high * 2 ^ w) ≡ digits w low
digits-add zero low high = refl
digits-add (suc w) low high =
    let e : low + high * 2 ^ suc w ≡ low + 2 * (high * 2 ^ w) = rw half-pow (omega arith) in
    let half : (low + 2 * (high * 2 ^ w)) / 2 ≡ low / 2 + high * 2 ^ w = omega arith in
    let last : (low + 2 * (high * 2 ^ w)) % 2 ≡ low % 2 = omega arith in
    rw e (rw (half, last) (ap (◌∷◌ (low % 2)) (digits-add w (low / 2) high)))

pub digits-mod : (w v : ℕ) → digits w (v % 2 ^ w) ≡ digits w v
digits-mod w v =
    sym (digits-add w (v % 2 ^ w) (v / 2 ^ w))
    ∙ ap (digits w) (omega (arith, div-add-mod v (2 ^ w)))

-- A byte of two fields: `low` of `a` digits, and above it `high` of `b`.
pub digits_fields :
    (a b low high : ℕ)
    → low < 2 ^ a
    → digits (a + b) (low + high * 2 ^ a) ≡ digits a low ++ digits b high
digits_fields a b low high h =
    let e : (low + high * 2 ^ a) / 2 ^ a ≡ high = grind (arith, pow_pos a) in
    rw (digits_split a b (low + high * 2 ^ a), e, digits-add a low high)
