-- ===== src/Prelude/Bits.antt =====
-- `&` and `|` of the native numbers as arithmetic, at every width.
use Prim.Native.Nat.{
  ℕ, zero, suc, ◌+◌, ◌-◌, ◌*◌, ◌/◌, ◌%◌, ◌^◌, ◌≤◌, ◌<◌, min, max, bit_and, bit_or, bit_xor, digits,
  differ, bit_and-bitwise, bit_or-bitwise, bit_xor-bitwise,
}
use mathlib.Core.Path.{◌≡◌, refl, ap}
use native.Mathlib.Nat.{pow-suc, one-le-pow, div-div-eq-div-mul, div-add-mod}
use native.Mathlib.Omega.{arith}

-- A bitwise operation is a recursion on the binary digits of its first argument, with fuel. Two
-- amounts of fuel that suffice give one value.
module _ (rest : ℕ → ℕ) (op : ℕ → ℕ → ℕ) where
  enough_fuel : (n m a b : ℕ) → a ≤ n → a ≤ m → digits rest op n a b ≡ digits rest op m a b
  enough_fuel n m zero b h k = no_digits n m b
    where
      no_digits : (n m b : ℕ) → digits rest op n 0 b ≡ digits rest op m 0 b
      no_digits zero zero b = refl
      no_digits zero (suc m) b = refl
      no_digits (suc n) zero b = refl
      no_digits (suc n) (suc m) b = refl
  enough_fuel zero m (suc a) b h k = absurd (omega arith)
  enough_fuel (suc n) zero (suc a) b h k = absurd (omega arith)
  enough_fuel (suc n) (suc m) (suc a) b h k =
      omega (arith, enough_fuel n m (suc a / 2) (b / 2) (omega arith) (omega arith))

-- One step on the lowest digits.
pub bit_and-halves : (a b : ℕ) → bit_and a b ≡ min (a % 2) (b % 2) + 2 * bit_and (a / 2) (b / 2)
bit_and-halves zero b = omega (arith, bit_and-bitwise 0 b, bit_and-bitwise 0 (b / 2))
bit_and-halves (suc a) b = omega (
  arith,
  bit_and-bitwise (suc a) b,
  bit_and-bitwise (suc a / 2) (b / 2),
  enough_fuel (λ b. 0) min a (suc a / 2) (suc a / 2) (b / 2) (omega arith) (omega arith),
)

pub bit_or-halves : (a b : ℕ) → bit_or a b ≡ max (a % 2) (b % 2) + 2 * bit_or (a / 2) (b / 2)
bit_or-halves zero b = omega (arith, bit_or-bitwise 0 b, bit_or-bitwise 0 (b / 2))
bit_or-halves (suc a) b = omega (
  arith,
  bit_or-bitwise (suc a) b,
  bit_or-bitwise (suc a / 2) (b / 2),
  enough_fuel (λ b. b) max a (suc a / 2) (suc a / 2) (b / 2) (omega arith) (omega arith),
)

zero-bit_or : (b : ℕ) → bit_or 0 b ≡ b
zero-bit_or b = bit_or-bitwise 0 b

and_zero_below : (n a : ℕ) → a ≤ n → bit_and a 0 ≡ 0
and_zero_below n zero h = bit_and-bitwise 0 0
and_zero_below zero (suc a) h = absurd (omega arith)
and_zero_below (suc n) (suc a) h =
    omega (arith, bit_and-halves (suc a) 0, and_zero_below n (suc a / 2) (omega arith))

pub half-pow : (k : ℕ) → 2 ^ suc k ≡ 2 * 2 ^ k
half-pow k = omega (arith, pow-suc 2 k)

pub pow_pos : (k : ℕ) → 1 ≤ 2 ^ k
pow_pos k = one-le-pow k 2 (omega arith)

-- The remainder by twice `p`, from its lowest digit on.
pub mod-double : (a p : ℕ) → 1 ≤ p → a % (2 * p) ≡ a % 2 + 2 * (a / 2 % p)
mod-double a p h = omega (
  arith,
  div-add-mod a (2 * p),
  div-add-mod (a / 2) p,
  ap (λ (t : ℕ). t * p) (div-div-eq-div-mul a 2 p),
)

mask_half : (p : ℕ) → 1 ≤ p → (2 * p - 1) / 2 ≡ p - 1
mask_half p h = omega arith

-- `a & ((1 << k) - 1)` is the remainder by 2 ^ k.
pub bit_and-mask : (k a : ℕ) → bit_and a (2 ^ k - 1) ≡ a % 2 ^ k
bit_and-mask zero a = omega (arith, and_zero_below a a)
bit_and-mask (suc k) a =
    let p : 1 ≤ 2 ^ k = pow_pos k in
    let ih : bit_and (a / 2) ((2 * 2 ^ k - 1) / 2) ≡ a / 2 % 2 ^ k =
      rw (mask_half _ p) (bit_and-mask k (a / 2)) in
    rw (half-pow k) (rw (mod-double a (2 ^ k) p) (omega (arith, bit_and-halves a (2 * 2 ^ k - 1))))

shift_half : (high p : ℕ) → high * (2 * p) / 2 ≡ high * p
shift_half high p = omega arith

-- `low | (high << k)` is a sum where `low` has at most `k` bits.
pub bit_or-fields : (k low high : ℕ) → low < 2 ^ k → bit_or low (high * 2 ^ k) ≡ low + high * 2 ^ k
bit_or-fields zero low high h = ground (arith, zero-bit_or (high * 1))
bit_or-fields (suc k) low high h =
    let ih : bit_or (low / 2) (high * (2 * 2 ^ k) / 2) ≡ low / 2 + high * 2 ^ k =
      rw (shift_half high (2 ^ k)) (bit_or-fields k (low / 2) high (omega (arith, half-pow k))) in
    rw (half-pow k) (omega (arith, bit_or-halves low (high * (2 * 2 ^ k))))

differ_le : (x y : ℕ) → differ x y ≤ x + y
differ_le zero y = omega arith
differ_le (suc x) zero = omega arith
differ_le (suc x) (suc y) = omega (arith, differ_le x y)

digits_le : (n a b : ℕ) → digits (λ b. b) differ n a b ≤ a + b
digits_le zero a b = omega arith
digits_le (suc n) zero b = omega arith
digits_le (suc n) (suc a) b =
    omega (arith, digits_le n (suc a / 2) (b / 2), differ_le (suc a % 2) (b % 2))

-- `^` adds no digit that neither number has.
pub bit_xor_le : (a b : ℕ) → bit_xor a b ≤ a + b
bit_xor_le a b = omega (arith, bit_xor-bitwise a b, digits_le a a b)
