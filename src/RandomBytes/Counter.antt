-- ===== src/RandomBytes/Counter.antt =====
-- The counter of the generator as a number.
use iis_meds.Prelude.{
  eq-true, eq-false, ℕ, ◌+◌, ◌*◌, ◌%◌, ◌^◌, ◌≤◌, ◌<◌, List, [], ◌∷◌, All, length, ◌≡◌, refl, ◌∙◌,
  arith, Bool, true, false, if◌then◌else◌,
}
use native.Mathlib.Nat.{pow-suc, mul-le-mul_right}
use native.Mathlib.Decide.{dec_lt}
use iis_meds.RandomBytes.{carry_byte, carry_on, increment}

-- The bytes as a number, the first byte highest
abbrev pub number : List ℕ → ℕ
number [] = 0
number (b ∷ bs) = b * 256 ^ length bs + number bs

abbrev pub IsByte : ℕ → Type 0
IsByte b = b < 256

-- `v` counts up to `out`, of as many bytes: one more, less the carry.
record Counts (v : List ℕ) (out : Bool × List ℕ) : Type 0 where
  long : length out.1 ≡ length v
  bytes : All IsByte out.1
  sum : number out.1 + (if out.0 then 256 ^ length v else 0) ≡ number v + 1

carry_byte-Counts :
    (b : ℕ) (bs : List ℕ) (out : Bool × List ℕ)
    → IsByte b
    → Counts bs out
    → Counts (b ∷ bs) (carry_byte b out)
unfolding carry_byte
carry_byte-Counts b bs (false, low) small c = record {
  long = omega (arith, c.long);
  bytes = (small, c.bytes);
  sum = rw c.long (omega (arith, c.sum));
}
carry_byte-Counts b bs (true, low) small c = elim (dec_lt b 255) [
  | yes e ↦ rw (eq-false b 255 e) (record {
    long = omega (arith, c.long);
    bytes = (omega arith, c.bytes);
    sum = rw c.long (omega (arith, c.sum));
  })
  | no e ↦ rw (eq-true b 255 (omega arith)) (record {
    long = omega (arith, c.long);
    bytes = (omega arith, c.bytes);
    sum = let top : b ≡ 255 = omega arith in rw top (omega (arith, c.sum, pow-suc 256 (length bs)));
  })
]

carry_on-Counts : (v : List ℕ) → All IsByte v → Counts v (carry_on v)
unfolding carry_on
carry_on-Counts [] bytes = record { long = refl; bytes = tt; sum = refl }
carry_on-Counts (b ∷ bs) bytes =
    carry_byte-Counts b bs (carry_on bs) bytes.0 (carry_on-Counts bs bytes.1)

pub number-lt : (v : List ℕ) → All IsByte v → number v < 256 ^ length v
number-lt [] bytes = omega arith
number-lt (b ∷ bs) bytes =
    let step : b * 256 ^ length bs ≤ 255 * 256 ^ length bs =
      mul-le-mul_right (256 ^ length bs) (omega arith) in
    omega (arith, step, number-lt bs bytes.1, pow-suc 256 (length bs))

wrapped :
    (n out : ℕ) (c : Bool)
    → out + (if c then 2 ^ 128 else 0) ≡ n + 1
    → n < 2 ^ 128
    → out < 2 ^ 128
    → out ≡ (n + 1) % 2 ^ 128
wrapped n out true e l h = omega arith
wrapped n out false e l h = omega arith

-- A counter of 16 bytes counts up by one modulo 2 ^ 128, and stays 16 bytes.
pub increment_lem :
    (v : List ℕ)
    → All IsByte v
    → length v ≡ 16
    → (length (increment v) ≡ 16)
      × All IsByte (increment v)
      × (number (increment v) ≡ (number v + 1) % 2 ^ 128)
unfolding increment
increment_lem v bytes long =
    let c = carry_on-Counts v bytes in
    (
      c.long ∙ long,
      c.bytes,
      wrapped (number v) (number (increment v)) (carry_on v).0 (rw long at c.sum)
          (rw long at (number-lt v bytes))
          (rw (c.long ∙ long) at (number-lt (increment v) c.bytes)),
    )
