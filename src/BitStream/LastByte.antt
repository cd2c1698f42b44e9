-- ===== src/BitStream/LastByte.antt =====
-- The bits that were written to a stream, and how `write` fills its last byte up.
use iis_meds.Prelude.{
  ℕ, zero, suc, ◌+◌, ◌-◌, ◌*◌, ◌/◌, ◌%◌, ◌^◌, ◌≤◌, ◌<◌, bit_and, bit_or, List, [], ◌∷◌, ◌++◌,
  lt→ltb, ◌≡◌, refl, ap, sym, ◌∙◌, arith, append_assoc, ok,
}
use native.Mathlib.Nat.{div-add-mod}
use iis_meds.Prelude.Bits.{bit_and-mask, bit_or-fields, pow_pos}
use iis_meds.BitStream.{or_last}
use iis_meds.BitStream.Digits.{digits, digits-mod, digits_fields}

-- How many bits of the last byte are in use.
abbrev pub last_width : ℕ → ℕ
last_width zero = 8
last_width (suc k) = suc k

-- The bits that were written so far.
abbrev pub bits : List ℕ → ℕ → List ℕ
bits [] bit_pos = []
bits (b ∷ []) bit_pos = digits (last_width bit_pos) b
bits (b ∷ c ∷ bs) bit_pos = digits 8 b ++ bits (c ∷ bs) bit_pos

-- The last byte holds `bit_pos` bits, or is full where `bit_pos` is 0; the others are full.
abbrev pub Fits : List ℕ → ℕ → Type 0
Fits [] bit_pos = bit_pos ≡ 0
Fits (b ∷ []) bit_pos = (bit_pos < 8) × (b < 2 ^ last_width bit_pos)
Fits (b ∷ c ∷ bs) bit_pos = (b < 256) × Fits (c ∷ bs) bit_pos

pub Fits-lt : (bs : List ℕ) (bit_pos : ℕ) → Fits bs bit_pos → bit_pos < 8
Fits-lt [] bit_pos f = omega arith
Fits-lt (b ∷ []) bit_pos f = f.0
Fits-lt (b ∷ c ∷ bs) bit_pos f = Fits-lt (c ∷ bs) bit_pos f.1

pub bits-append :
    (bs : List ℕ) (b bit_pos : ℕ)
    → bits (bs ++ b ∷ []) bit_pos ≡ bits bs 0 ++ digits (last_width bit_pos) b
bits-append [] b bit_pos = refl
bits-append (c ∷ []) b bit_pos = refl
bits-append (c ∷ d ∷ bs) b bit_pos =
    ap (◌++◌ (digits 8 c)) (bits-append (d ∷ bs) b bit_pos)
    ∙ sym (append_assoc (digits 8 c) (bits (d ∷ bs) 0) (digits (last_width bit_pos) b))

pub Fits-append :
    (bs : List ℕ) (b bit_pos : ℕ)
    → Fits bs 0
    → bit_pos < 8
    → b < 2 ^ last_width bit_pos
    → Fits (bs ++ b ∷ []) bit_pos
Fits-append [] b bit_pos f h k = (h, k)
Fits-append (c ∷ []) b bit_pos f h k = (omega arith, (h, k))
Fits-append (c ∷ d ∷ bs) b bit_pos f h k = (f.0, Fits-append (d ∷ bs) b bit_pos f.1 h k)

-- The bits of `value` that fill the last byte up.
pub two_widths : (k : ℕ) → k ≤ 8 → 2 ^ (8 - k) * 2 ^ k ≡ 256
two_widths zero h = refl
two_widths (suc zero) h = refl
two_widths (suc (suc zero)) h = refl
two_widths (suc (suc (suc zero))) h = refl
two_widths (suc (suc (suc (suc zero)))) h = refl
two_widths (suc (suc (suc (suc (suc zero))))) h = refl
two_widths (suc (suc (suc (suc (suc (suc zero)))))) h = refl
two_widths (suc (suc (suc (suc (suc (suc (suc zero))))))) h = refl
two_widths (suc (suc (suc (suc (suc (suc (suc (suc zero)))))))) h = refl
two_widths (suc (suc (suc (suc (suc (suc (suc (suc (suc k))))))))) h = absurd (omega arith)

below_product : (b p r q : ℕ) → b < p → r < q → b + r * p < q * p
below_product b p r q h k = grind arith

shift_in_byte : (k v : ℕ) → k ≤ 8 → v * 2 ^ k % 256 ≡ v % 2 ^ (8 - k) * 2 ^ k
shift_in_byte k v h =
    let q : ℕ = 2 ^ (8 - k) in
    let p : ℕ = 2 ^ k in
    let top : v % q < q = omega (arith, pow_pos (8 - k)) in
    let one : v * p ≡ v / q * 256 + v % q * p = omega (
      arith,
      ap (λ (t : ℕ). t * p) (div-add-mod v q),
      ap (λ (t : ℕ). v / q * t) (two_widths k h),
    ) in
    omega (arith, one, two_widths k h, below_product 0 p (v % q) q (pow_pos k) top)

filled :
    (b k v : ℕ)
    → k ≤ 8
    → b < 2 ^ k
    → bit_or b (bit_and (v * 2 ^ k) 0xff) ≡ b + v % 2 ^ (8 - k) * 2 ^ k
filled b k v h small =
    rw (bit_and-mask 8 (v * 2 ^ k)) (rw (shift_in_byte k v h) (bit_or-fields k b _ small))

filled_small : (b k v : ℕ) → k ≤ 8 → b < 2 ^ k → b + v % 2 ^ (8 - k) * 2 ^ k < 256
filled_small b k v h small =
    let top : v % 2 ^ (8 - k) < 2 ^ (8 - k) = omega (arith, pow_pos (8 - k)) in
    omega (arith, two_widths k h, below_product b (2 ^ k) (v % 2 ^ (8 - k)) (2 ^ (8 - k)) small top)

-- A last byte of `k` bits that is filled up.
pub record Filled (bs : List ℕ) (k v : ℕ) (out : List ℕ) : Type 0 where
  pub fits : Fits out 0
  pub same : bits out 0 ≡ bits bs k ++ digits (8 - k) v

pub width_pos : (k : ℕ) → 0 < k → last_width k ≡ k
width_pos zero h = absurd (omega arith)
width_pos (suc k) h = refl

bits-cons : (b : ℕ) (bs : List ℕ) → bits (b ∷ bs) 0 ≡ digits 8 b ++ bits bs 0
bits-cons b [] = refl
bits-cons b (c ∷ bs) = refl

Fits-cons : (b : ℕ) (bs : List ℕ) → b < 256 → Fits bs 0 → Fits (b ∷ bs) 0
Fits-cons b [] h f = (omega arith, h)
Fits-cons b (c ∷ bs) h f = (h, f)

Filled-one :
    (b k v : ℕ)
    → 0 < k
    → k < 8
    → b < 2 ^ k
    → Filled (b ∷ []) k v ((b + v % 2 ^ (8 - k) * 2 ^ k) ∷ [])
Filled-one b k v h l small =
    let e : k + (8 - k) ≡ 8 = omega arith in
    record {
      fits = (omega arith, filled_small b k v (omega arith) small);
      same = rw (width_pos k h) (
          sym (ap (λ w. digits w (b + v % 2 ^ (8 - k) * 2 ^ k)) e)
          ∙ digits_fields k (8 - k) b (v % 2 ^ (8 - k)) small
          ∙ ap (◌++◌ (digits k b)) (digits-mod (8 - k) v));
    }

pub or_last_lem :
    (bs : List ℕ) (k v : ℕ)
    → 0 < k
    → k < 8
    → Fits bs k
    → (out : List ℕ) × (or_last bs (bit_and (v * 2 ^ k) 0xff) ≡ ok out) × Filled bs k v out
unfolding or_last
or_last_lem [] k v h l f = absurd (omega arith)
or_last_lem (b ∷ []) k v h l f =
    let small : b < 2 ^ k = rw (width_pos k h) at f.1 in
    (
      (b + v % 2 ^ (8 - k) * 2 ^ k) ∷ [],
      rw (filled b k v (omega arith) small)
          (rw (lt→ltb _ _ (filled_small b k v (omega arith) small))),
      Filled-one b k v h l small,
    )
or_last_lem (b ∷ c ∷ bs) k v h l f =
    let (out, e, p) = or_last_lem (c ∷ bs) k v h l f.1 in
    (
      b ∷ out,
      rw e,
      record {
        fits = Fits-cons b out f.0 p.fits;
        same =
            bits-cons b out
            ∙ ap (◌++◌ (digits 8 b)) p.same
            ∙ sym (append_assoc (digits 8 b) (bits (c ∷ bs) k) (digits (8 - k) v));
      },
    )
