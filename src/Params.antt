-- ===== src/Params.antt =====
-- `Param` of sage-ref/params.py, its sizes and the parameter sets. (include/params.py is a copy that
-- differs in the text of one C header.)
--
-- Differences are written so that no part falls below 0 where the whole does not; a parameter set has
-- 1 ≤ s, 1 ≤ m and k ≤ m * n. `ceil(x / 8)` is exact.
pub mod Headers
pub mod Reports
pub mod Search
use iis_meds.Prelude.{ℕ, ◌+◌, ◌-◌, ◌*◌, ◌/◌, ◌^◌, List, [], ◌∷◌}
use iis_meds.Logarithm.{ceil_log2}

pub record Param : Type 0 where
  pub digest_bytes : ℕ
  pub pub_seed_bytes : ℕ
  pub sec_seed_bytes : ℕ
  pub st_seed_bytes : ℕ
  pub st_salt_bytes : ℕ
  pub q : ℕ
  pub n : ℕ
  pub m : ℕ
  pub s : ℕ
  pub t : ℕ
  pub w : ℕ
  pub k : ℕ

-- `ceil(bits / 8)`
abbrev pub bytes_for : ℕ → ℕ
bytes_for bits = (bits + 7) / 8

unfoldable pub pk_size : Param → ℕ
pk_size p =
    let free = p.m * p.n - p.k in
    (p.s - 1) * bytes_for ((p.k * free - (free + (p.m - 1) * p.n - p.k)) * ceil_log2 p.q)
    + p.pub_seed_bytes

-- `mat_bytes`, a function inside `sk_size`
abbrev pub mat_bytes : Param → ℕ → ℕ → ℕ
mat_bytes p i j = bytes_for (i * j * ceil_log2 p.q)

unfoldable pub sk_size : Param → ℕ
sk_size p =
    (p.s - 1) * (mat_bytes p p.m p.m + mat_bytes p p.n p.n) + p.sec_seed_bytes + p.pub_seed_bytes

-- `2 ** c + w * (ceil(log2(t)) - c - 1)` for c = ceil(log2(w)); the bracket may be -1.
unfoldable pub seed_max_tree_len : Param → ℕ
seed_max_tree_len p = let c = ceil_log2 p.w in 2 ^ c + p.w * ceil_log2 p.t - p.w * (c + 1)

unfoldable pub seed_tree_cost : Param → ℕ
seed_tree_cost p = seed_max_tree_len p * p.st_seed_bytes

unfoldable pub sig_size : Param → ℕ
sig_size p =
    p.digest_bytes
    + p.w * (bytes_for (p.m * p.m * ceil_log2 p.q) + bytes_for (p.n * p.n * ceil_log2 p.q))
    + seed_tree_cost p
    + p.st_salt_bytes

-- The entries of `params`, in order; `square` has what all but the seeds share.
abbrev square : ℕ → ℕ → ℕ → ℕ → ℕ → ℕ → ℕ → Param
square digest st_seed q n s t w = record {
  digest_bytes = digest;
  pub_seed_bytes = 256 / 2 ^ 3;
  sec_seed_bytes = 256 / 2 ^ 3;
  st_seed_bytes = st_seed;
  st_salt_bytes = 256 / 2 ^ 3;
  q = q;
  n = n;
  m = n;
  s = s;
  t = t;
  w = w;
  k = n;
}

abbrev pub params : List Param
params =
    square (256 / 2 ^ 3) (128 / 2 ^ 3) 4093 14 4 1152 14
    ∷ square (256 / 2 ^ 3) (128 / 2 ^ 3) 4093 14 5 192 20
    ∷ square (256 / 2 ^ 3) (192 / 2 ^ 3) 4093 22 4 608 26
    ∷ square (256 / 2 ^ 3) (192 / 2 ^ 3) 4093 22 5 160 36
    ∷ square (256 / 2 ^ 3) (256 / 2 ^ 3) 2039 30 5 192 52
    ∷ square (256 / 2 ^ 3) (256 / 2 ^ 3) 2039 30 6 112 66
    ∷ square (128 / 2 ^ 3) (128 / 2 ^ 3) 8191 10 4 16 6
    ∷ []
