-- ===== src/Tests/Challenges.antt =====
-- `PaseHash` of sage-ref/util.py on the stream 0, 1, 0, 1, …
use iis_meds.Prelude.{ℕ, ◌+◌, ◌*◌, ◌%◌, ◌≤◌, List, [], ◌∷◌, ◌≡◌, refl, ◌∙◌, arith, ok}
use iis_meds.Prelude.Bits.{bit_and-mask}
use iis_meds.Logarithm.{ceil_log2, log_steps}
use iis_meds.Shake.{Shake}
use iis_meds.Util.Challenge.{read_number, masked, pick, scatter, parse_hash}
use iis_meds.Util.Challenge.Choice.{IsChoice}
use iis_meds.Util.Challenge.Enough.{Hits, parse_hash-Settles}
use iis_meds.Tests.Scheme.{tiny}

abbrev zigzag : Shake
zigzag = record { output = λ message i. i % 2; output-lt = λ message i. omega arith }

chooses : parse_hash zigzag 9 (1 ∷ []) tiny ≡ ok (1 ∷ 0 ∷ [])
unfolding parse_hash scatter pick masked read_number ceil_log2 log_steps
chooses = refl

bit : (pos : ℕ) → masked zigzag (1 ∷ []) pos 2 ≡ pos % 2
unfolding masked read_number ceil_log2 log_steps
bit pos = bit_and-mask 1 (pos % 2 + 0 * 2) ∙ omega arith

zigzag-Hits : Hits zigzag (1 ∷ []) tiny
unfolding ceil_log2 log_steps
zigzag-Hits = record {
  entry = λ pos i l. ((pos + i) % 2, bit (pos + (pos + i) % 2 * 1) ∙ omega arith);
  value = λ pos. (
    (pos + 1) % 2,
    omega (arith, bit (pos + (pos + 1) % 2 * 1)),
    omega (arith, bit (pos + (pos + 1) % 2 * 1)),
  );
}

parse_hash-Settles_example :
    (n : ℕ) × (h : List ℕ) × ((fuel : ℕ) → n ≤ fuel → parse_hash zigzag fuel (1 ∷ []) tiny ≡ ok h)
    × IsChoice tiny 1 h
parse_hash-Settles_example = parse_hash-Settles zigzag (1 ∷ []) tiny zigzag-Hits (omega arith)
