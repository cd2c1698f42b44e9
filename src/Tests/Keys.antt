-- ===== src/Tests/Keys.antt =====
-- Keys of sage-ref/meds.py and the system of sage-ref/util.py, with the parameters of Scheme.
use iis_meds.Prelude.{
  ℕ, ◌+◌, ◌-◌, ◌*◌, ◌/◌, take, List, [], ◌∷◌, length, ◌≡◌, refl, arith, ok, raised, index_error,
}
use iis_meds.Params.{Param, pk_size, sk_size}
use iis_meds.Meds.{slice, parse_square, parse_public}
use iis_meds.Meds.PublicKey.{published, parse_public-public_key}
use iis_meds.Util.Compress.{
  compress_g, decompress_g, field_bits, written_positions, read_positions, one_positions,
}
use iis_meds.Util.Compress.Standard.{standard, decompress_g-compress_g}
use iis_meds.Meds.KeyGen.{secret_key, public_key}
use iis_meds.Meds.SecretKey.{parse_square-secret_key}
use iis_meds.Util.Solve.{solve_comp}
use iis_meds.Util.Solve.Narrow.{solve_comp-raised}
use iis_meds.Tests.Matrices.{Grid, gf251, grid, long}
use iis_meds.Tests.Scheme.{ones, tiny, moving}

abbrev numbers : List ℕ → List gf251.El
numbers [] = []
numbers (v ∷ vs) = gf251.of_int v ∷ numbers vs

abbrev one_by_one : Grid
one_by_one = grid 1 1 (numbers (9 ∷ []))

abbrev three_by_three : Grid
three_by_three = grid 3 3 (numbers (1 ∷ 2 ∷ 3 ∷ 4 ∷ 5 ∷ 6 ∷ 7 ∷ 8 ∷ 250 ∷ []))

parse_square-secret_key_example :
    (sk : List ℕ) × (f : ℕ) × (secret_key moving tiny
        (5 ∷ [])
        (6 ∷ [])
        (one_by_one ∷ [])
        (three_by_three ∷ [])
      ≡ ok sk)
    × (length sk ≡ sk_size tiny)
    × (slice 1 1 sk ≡ 6 ∷ [])
    × (parse_square moving ones tiny 20 (2 - 1) 1 (1 + 1) sk ≡ ok (one_by_one ∷ [], f))
    × (parse_square moving ones tiny 20 (2 - 1) 3 f sk ≡ ok (three_by_three ∷ [], length sk))
parse_square-secret_key_example =
    parse_square-secret_key moving ones tiny 20 (5 ∷ []) (6 ∷ []) (one_by_one ∷ [])
      (three_by_three ∷ []) refl long (omega arith, omega arith) (refl, refl) (refl, refl)
      (((refl, refl), tt), ((refl, refl), tt))

solve_comp-raised_example :
    solve_comp moving (grid 2 2 []) (grid 2 2 []) (gf251.of_int 3) ≡ raised index_error
solve_comp-raised_example =
    solve_comp-raised moving (grid 2 2 []) (grid 2 2 []) (gf251.of_int 3) 2 (omega arith) refl refl

abbrev roomy : Param
roomy = record tiny { m = 2; n = 2; k = 3 }

-- An entry of row 2 is changed by the round trip, since it is not free.
abbrev three_by_four : Grid
three_by_four = grid 3 4 (numbers (1 ∷ 0 ∷ 0 ∷ 1 ∷ 0 ∷ 1 ∷ 7 ∷ 250 ∷ 0 ∷ 9 ∷ 1 ∷ 8 ∷ []))

abbrev three_by_four_read : Grid
three_by_four_read = grid 3 4 (numbers (1 ∷ 0 ∷ 0 ∷ 1 ∷ 0 ∷ 1 ∷ 7 ∷ 250 ∷ 0 ∷ 0 ∷ 1 ∷ 8 ∷ []))

published_test : published moving ones roomy 20 three_by_four ≡ three_by_four_read
unfolding written_positions read_positions one_positions
published_test = refl

parse_public-public_key_example :
    (pk : List ℕ) × (public_key moving roomy (6 ∷ []) (three_by_four ∷ []) ≡ ok pk)
    × (length pk ≡ pk_size roomy)
    × (take 1 pk ≡ 6 ∷ [])
    × (parse_public moving ones roomy 20 (2 - 1) 1 pk
        ≡ ok (published moving ones roomy 20 three_by_four ∷ []))
parse_public-public_key_example =
    parse_public-public_key moving ones roomy 20 (6 ∷ []) (three_by_four ∷ []) refl long
      (omega arith, omega arith, omega arith, omega arith, omega arith) refl refl ((refl, refl), tt)

decompress_g-compress_g_example :
    (bs : List ℕ) × (compress_g moving three_by_four 3 2 2 ≡ ok bs)
    × (length bs ≡ (field_bits gf251 * ((3 - 2) * (2 * 2 - 3) + 2) + 7) / 8)
    × (decompress_g moving bs 3 2 2 ≡ ok (standard moving three_by_four 3 2 2))
decompress_g-compress_g_example =
    decompress_g-compress_g moving 3 2 2 three_by_four long
      (omega arith, omega arith, omega arith, omega arith) (refl, refl)
