-- ===== src/Meds/Sizes.antt =====
-- The sizes that `Param` gives, and the bytes that `crypto_sign_open` reads.
use iis_meds.Prelude.{ℕ, zero, suc, ◌+◌, ◌-◌, ◌*◌, ◌≤◌, ◌≡◌, arith}
use iis_meds.Params.{Param, pk_size}
use iis_meds.Meds.{public_bytes}

-- A matrix of k rows and k + free columns, less the entries that key generation fixes.
free_entries :
    (k m n free : ℕ)
    → 2 ≤ k
    → 1 ≤ m
    → m * n ≡ free + k
    → n ≤ 2 * free
    → k * free - (free + (m - 1) * n - k) ≡ (k - 2) * free + n
free_entries zero m n free two one e l = absurd (omega arith)
free_entries (suc zero) m n free two one e l = absurd (omega arith)
free_entries (suc (suc j)) zero n free two one e l = absurd (omega arith)
free_entries (suc (suc j)) (suc a) n free two one e l =
    let e1 : suc a - 1 ≡ a = omega arith in
    let e2 : suc (suc j) - 2 ≡ j = omega arith in rw (e1, e2) (omega arith)

-- The public key is the seed and the bytes of s - 1 public matrices, as `crypto_sign_open` reads them.
pub pk_size-public_bytes :
    (p : Param)
    → 2 ≤ p.k
    → 1 ≤ p.m
    → p.k ≤ p.m * p.n
    → p.n ≤ 2 * (p.m * p.n - p.k)
    → pk_size p ≡ p.pub_seed_bytes + (p.s - 1) * public_bytes p
unfolding pk_size public_bytes
pk_size-public_bytes p two one fits room =
    let e = free_entries p.k p.m p.n (p.m * p.n - p.k) two one (omega arith) room in
    rw e (omega arith)
