-- ===== src/Harness/Parameters.antt =====
-- The harness finds the parameter set that api.h was made for.
use iis_meds.Prelude.{All, some, ok, ◌≡◌, refl}
use iis_meds.Logarithm.{ceil_log2, log_steps}
use iis_meds.Params.{pk_size, sk_size, sig_size, seed_tree_cost, seed_max_tree_len}
use iis_meds.Params.Headers.{named_params, name, define_text, define, gen_api}
use iis_meds.Harness.Stream.{alg_name, param_index, param_at, check_parameter}

-- From the api.h of each parameter set `do_check_parameter` gets its s, its t and its name.
pub check_parameter-gen_api :
    All (λ set. check_parameter (some (gen_api set)) ≡ ok (set.1.s, set.1.t, name set)) named_params
unfolding check_parameter gen_api named_params name define_text define alg_name param_index param_at
    pk_size sk_size sig_size seed_tree_cost seed_max_tree_len ceil_log2 log_steps
check_parameter-gen_api = (refl, (refl, (refl, (refl, (refl, (refl, (refl, tt)))))))
