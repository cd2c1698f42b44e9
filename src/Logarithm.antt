-- ===== src/Logarithm.antt =====
-- `math.ceil(math.log(n, 2))`, which sage-ref/seedtree.py, util.py, params.py and meds.py compute. The
-- model is the exact value for 1 ≤ n, the least k with n ≤ 2 ** k. (Python goes through a float; its
-- result is exact for the parameter sets, whose arguments are below 2 ** 13.)
use iis_meds.Prelude.{
  ℕ, zero, suc, ◌+◌, ◌-◌, ◌*◌, ◌/◌, ◌^◌, ◌≤◌, ◌<◌, leb, if◌then◌else◌, ◌≡◌, refl, arith,
}
use iis_meds.Prelude.Bits.{half-pow, pow_pos}
use native.Mathlib.Decide.{dec_lt}

-- Half of `n`, rounded up, has one bit less. With fuel `n` the recursion comes to 1.
unfoldable pub log_steps : ℕ → ℕ → ℕ
log_steps zero n = 0
log_steps (suc fuel) n =
    let more = suc (log_steps fuel ((n + 1) / 2)) in if leb n 1 then 0 else more

unfoldable pub ceil_log2 : ℕ → ℕ
unfolding log_steps
ceil_log2 n = log_steps n n

log_steps_one : (fuel n : ℕ) → n ≤ 1 → log_steps fuel n ≡ 0
unfolding log_steps
log_steps_one zero n h = refl
log_steps_one (suc fuel) n h = ground arith

log_steps_next : (fuel n : ℕ) → 1 < n → log_steps (suc fuel) n ≡ suc (log_steps fuel ((n + 1) / 2))
unfolding log_steps
log_steps_next fuel n h = ground arith

pow_pred : (k m : ℕ) → 1 < m → m ≤ 2 ^ k → 2 ^ k ≡ 2 * 2 ^ (k - 1)
pow_pred zero m h l = absurd (omega arith)
pow_pred (suc k) m h l = let e : suc k - 1 ≡ k = omega arith in rw e (half-pow k)

log_steps-bounds :
    (fuel n : ℕ) → n ≤ fuel → 1 < n → (n ≤ 2 ^ log_steps fuel n) × (2 ^ (log_steps fuel n - 1) < n)
log_steps-bounds zero n h l = absurd (omega arith)
log_steps-bounds (suc fuel) n h l =
    let m : ℕ = (n + 1) / 2 in
    let k : ℕ = log_steps fuel m in
    let e : suc k - 1 ≡ k = omega arith in
    rw (log_steps_next fuel n l, e)
      (elim (dec_lt 1 m) [
        | yes p ↦
            let ih : (m ≤ 2 ^ k) × (2 ^ (k - 1) < m) = log_steps-bounds fuel m (omega arith) p in
            omega (arith, half-pow k, ih, pow_pred k m p ih.0)
        | no q ↦ let z : k ≡ 0 = log_steps_one fuel m (omega arith) in rw z (omega arith)
      ])

-- Every number up to 2 ** k fits, and no smaller k does.
pub ceil_log2-bounds : (n : ℕ) → 1 < n → (n ≤ 2 ^ ceil_log2 n) × (2 ^ (ceil_log2 n - 1) < n)
unfolding ceil_log2
ceil_log2-bounds n h = log_steps-bounds n n (omega arith) h

pub le-ceil_log2 : (n : ℕ) → n ≤ 2 ^ ceil_log2 n
unfolding ceil_log2
le-ceil_log2 n = elim (dec_lt 1 n) [
  | yes h ↦ (log_steps-bounds n n (omega arith) h).0
  | no h ↦ omega (arith, pow_pos (log_steps n n))
]

logs : (ceil_log2 4093 ≡ 12) × (ceil_log2 1152 ≡ 11) × (ceil_log2 4 ≡ 2) × (ceil_log2 1 ≡ 0)
unfolding ceil_log2
logs = (refl, refl, refl, refl)
