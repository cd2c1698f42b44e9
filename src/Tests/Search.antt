-- ===== src/Tests/Search.antt =====
-- The search of sage-ref/params.py for t and w, with binomial coefficients by Pascal's rule.
use iis_meds.Prelude.{
  ℕ, zero, suc, ◌+◌, ◌^◌, ◌≤◌, [], ◌∷◌, some, ltb, Bool, ◌≡◌, refl, ◌⊎◌, raised, arith,
  attribute_error,
}
use iis_meds.Params.{sig_size, seed_tree_cost, seed_max_tree_len}
use iis_meds.Params.Reports.{
  opt_tw, report_best, trial, best, candidates, count_from, better, is_secure, least_size,
}
use iis_meds.Logarithm.{ceil_log2, log_steps}
use iis_meds.Params.Search.{HasBest, HasNone, opt_tw-HasBest}
use iis_meds.Tests.Scheme.{tiny}

abbrev choose : ℕ → ℕ → ℕ
choose t zero = 1
choose zero (suc w) = 0
choose (suc t) (suc w) = choose t w + choose t (suc w)

choose_pos : (t w : ℕ) → w ≤ t → 1 ≤ choose t w
choose_pos t zero h = omega arith
choose_pos zero (suc w) h = absurd (omega arith)
choose_pos (suc t) (suc w) h = omega (arith, choose_pos t w (omega arith))

-- `log2(x) > bound` for whole numbers
abbrev above : ℕ → ℕ → Bool
above x bound = ltb (2 ^ bound) x

opt_tw-HasBest_example :
    HasBest above choose tiny 4 (12 ∷ 9 ∷ 2 ∷ []) ⊎ HasNone above choose tiny 4 (12 ∷ 9 ∷ 2 ∷ [])
opt_tw-HasBest_example =
    opt_tw-HasBest above choose tiny 4 (12 ∷ 9 ∷ 2 ∷ []) (omega arith) choose_pos

best_test : opt_tw above choose tiny 4 (6 ∷ 5 ∷ 2 ∷ []) ≡ report_best (some (trial tiny 4 6 3))
unfolding opt_tw best candidates count_from better is_secure trial report_best sig_size
    seed_tree_cost seed_max_tree_len ceil_log2 log_steps least_size
best_test = refl

none_test : opt_tw above choose tiny 4 (2 ∷ 1 ∷ []) ≡ raised attribute_error
unfolding opt_tw best candidates count_from better is_secure trial report_best sig_size
    seed_tree_cost seed_max_tree_len ceil_log2 log_steps least_size
none_test = refl
