-- ===== src/Params/Headers.antt =====
-- `name`, `gen_api` and `gen_param` of sage-ref/params.py: the C headers for a parameter set, as the lines
-- that are printed.
use iis_meds.Prelude.{
  ℕ, zero, suc, ◌+◌, ◌-◌, ◌*◌, ◌/◌, ◌%◌, ◌^◌, List, [], ◌∷◌, ◌++◌, ltb, if◌then◌else◌, Option, none,
  some,
}
use iis_meds.Logarithm.{ceil_log2}
use iis_meds.Text.{codes, decimal}
use iis_meds.Params.{Param, bytes_for, pk_size, sk_size, sig_size, seed_max_tree_len, params}

-- `_name`, and a parameter set
abbrev pub Named : Type 0
Named = Option (List ℕ) × Param

-- `params` with the names that are given; only the last has one.
abbrev pub unnamed : List Param → List Named
unnamed [] = []
unnamed (p ∷ []) = (some (codes "toy"), p) ∷ []
unnamed (p ∷ q ∷ ps) = (none, p) ∷ unnamed (q ∷ ps)

unfoldable pub named_params : List Named
named_params = unnamed params

unfoldable pub name : Named → List ℕ
name (some given, p) = given
name (none, p) = codes "MEDS" ++ decimal (pk_size p)

-- A line `#define key value`, with an indent before it
unfoldable pub define_text : List ℕ → List ℕ → List ℕ → List ℕ
define_text indent key value = indent ++ codes "#define " ++ key ++ codes " " ++ value ++ codes "\n"

unfoldable pub define : List ℕ → List ℕ → ℕ → List ℕ
define indent key value = define_text indent key (decimal value)

-- A text between quotes
abbrev pub quoted : List ℕ → List ℕ
quoted text = codes "\"" ++ text ++ codes "\""

unfoldable pub gen_api : Named → List (List ℕ)
gen_api (given, p) =
    codes "#ifndef API_H\n"
    ∷ codes "#define API_H\n"
    ∷ codes "\n"
    ∷ define [] (codes "CRYPTO_SECRETKEYBYTES") (sk_size p)
    ∷ define [] (codes "CRYPTO_PUBLICKEYBYTES") (pk_size p)
    ∷ define [] (codes "CRYPTO_BYTES") (sig_size p)
    ∷ codes "\n"
    ∷ define_text [] (codes "CRYPTO_ALGNAME") (quoted (name (given, p)))
    ∷ codes "\n"
    ∷ codes "int crypto_sign_keypair(\n"
    ∷ codes "    unsigned char *pk,\n"
    ∷ codes "    unsigned char *sk\n"
    ∷ codes "  );\n"
    ∷ codes "\n"
    ∷ codes "int crypto_sign(\n"
    ∷ codes "    unsigned char *sm, unsigned long long *smlen,\n"
    ∷ codes "    const unsigned char *m, unsigned long long mlen,\n"
    ∷ codes "    const unsigned char *sk\n"
    ∷ codes "  );\n"
    ∷ codes "\n"
    ∷ codes "int crypto_sign_open(\n"
    ∷ codes "    unsigned char *m, unsigned long long *mlen,\n"
    ∷ codes "    const unsigned char *sm, unsigned long long smlen,\n"
    ∷ codes "    const unsigned char *pk\n"
    ∷ codes "  );\n"
    ∷ codes "\n"
    ∷ codes "#endif\n"
    ∷ codes "\n"
    ∷ []

-- `{value:08X}`: eight digits, the highest first
abbrev pub hex_char : ℕ → ℕ
hex_char d = if ltb d 10 then 48 + d else 55 + d

abbrev pub hex_from : ℕ → ℕ → List ℕ → List ℕ
hex_from zero n digits = digits
hex_from (suc count) n digits = hex_from count (n / 16) (hex_char (n % 16) ∷ digits)

-- What `gen_param` prints for one parameter set: with `#ifdef` and an indent where all sets are printed
unfoldable pub gen_defines : List ℕ → Named → List (List ℕ)
gen_defines ind (given, p) =
    let blank = codes "\n" in
    define_text ind (codes "MEDS_name") (quoted (name (given, p)))
    ∷ blank
    ∷ define ind (codes "MEDS_digest_bytes") p.digest_bytes
    ∷ define ind (codes "MEDS_pub_seed_bytes") p.pub_seed_bytes
    ∷ define ind (codes "MEDS_sec_seed_bytes") p.sec_seed_bytes
    ∷ define ind (codes "MEDS_st_seed_bytes") p.st_seed_bytes
    ∷ define ind (codes "MEDS_st_salt_bytes") p.st_salt_bytes
    ∷ blank
    ∷ define ind (codes "MEDS_p") p.q
    ∷ define_text ind (codes "GFq_t")
        (codes "uint" ++ decimal (bytes_for (ceil_log2 p.q) * 8) ++ codes "_t")
    ∷ define ind (codes "GFq_bits") (ceil_log2 p.q)
    ∷ define ind (codes "GFq_bytes") (bytes_for (ceil_log2 p.q))
    ∷ blank
    ∷ define ind (codes "MEDS_m") p.m
    ∷ define ind (codes "MEDS_n") p.n
    ∷ define ind (codes "MEDS_k") p.k
    ∷ blank
    ∷ define ind (codes "MEDS_s") p.s
    ∷ define ind (codes "MEDS_t") p.t
    ∷ define ind (codes "MEDS_w") p.w
    ∷ blank
    ∷ define ind (codes "MEDS_seed_tree_height") (ceil_log2 p.t)
    ∷ define ind (codes "SEED_TREE_size") (2 ^ (ceil_log2 p.t + 1) - 1)
    ∷ define ind (codes "MEDS_max_path_len") (seed_max_tree_len p)
    ∷ blank
    ∷ define_text ind (codes "MEDS_t_mask") (codes "0x" ++ hex_from 8 (2 ^ ceil_log2 p.t - 1) [])
    ∷ define ind (codes "MEDS_t_bytes") (bytes_for (ceil_log2 (p.t - 1)))
    ∷ blank
    ∷ define_text ind (codes "MEDS_s_mask") (codes "0x" ++ hex_from 8 (2 ^ ceil_log2 p.s - 1) [])
    ∷ blank
    ∷ define ind (codes "MEDS_PK_BYTES") (pk_size p)
    ∷ define ind (codes "MEDS_SK_BYTES") (sk_size p)
    ∷ define ind (codes "MEDS_SIG_BYTES") (sig_size p)
    ∷ []

-- All sets, each behind its `#ifdef`
unfoldable pub gen_all : List Named → List (List ℕ)
gen_all [] = []
gen_all (set ∷ sets) =
    ((codes "#ifdef " ++ name set ++ codes "\n") ∷ gen_defines (codes "  ") set)
    ++ (codes "#endif\n" ∷ codes "\n" ∷ [])
    ++ gen_all sets

-- `gen_param(parset)`: one set, or all of them
unfoldable pub gen_param : Option Named → List (List ℕ)
gen_param parset =
    (codes "#ifndef PARAMS_H\n" ∷ codes "#define PARAMS_H\n" ∷ codes "\n" ∷ [])
    ++ (elim parset [
      | some set ↦ gen_defines [] set ++ (codes "\n" ∷ [])
      | none ↦ gen_all named_params
    ])
    ++ (codes "#endif\n" ∷ codes "\n" ∷ [])
