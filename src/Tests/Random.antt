-- ===== src/Tests/Random.antt =====
-- The generator of sage-ref/randombytes.py with a cipher that gives the block back.
use iis_meds.Prelude.{
  ℕ, ◌+◌, ◌/◌, ◌%◌, ◌^◌, [], ◌∷◌, ◌++◌, All, length, replicate, take, length-take, length-append,
  length-replicate, ◌≡◌, refl, arith, ok, raised, type_error,
}
use iis_meds.RandomBytes.{Cipher, Drbg, carry_byte, carry_on, increment, blocks, init, random_bytes}
use iis_meds.RandomBytes.Counter.{IsByte, number, increment_lem}
use iis_meds.RandomBytes.Output.{IsXor, random_bytes_lem, init_lem}

-- The block itself, filled up to 16 bytes
abbrev echo : Cipher
echo = record {
  encrypt = λ key block. take 16 (block ++ replicate 16 7);
  length-encrypt = λ key block. omega (
    arith,
    length-take 16 (block ++ replicate 16 7),
    length-append block (replicate 16 7),
    length-replicate {A = ℕ} 16 7,
  );
}

abbrev start : Drbg
start = record { key = replicate 32 1; v = replicate 14 2 ++ (255 ∷ 255 ∷ []); reseed_counter = 1 }

carries : increment start.v ≡ replicate 13 2 ++ (3 ∷ 0 ∷ 0 ∷ [])
unfolding increment carry_on carry_byte
carries = refl

increment_lem_example :
    (length (increment start.v) ≡ 16)
    × All IsByte (increment start.v)
    × (number (increment start.v) ≡ (number start.v + 1) % 2 ^ 128)
increment_lem_example = increment_lem start.v (omega arith) refl

random_bytes_lem_example :
    (s' : Drbg) × (random_bytes echo 20 start
      ≡ ok (take 20 (blocks echo start.key start.v ((20 + 15) / 16)).0, s'))
    × (length (take 20 (blocks echo start.key start.v ((20 + 15) / 16)).0) ≡ 20)
    × (s'.key ++ s'.v
        ≡ (blocks echo start.key (blocks echo start.key start.v ((20 + 15) / 16)).1 3).0)
    × (length s'.key ≡ 32)
    × (length s'.v ≡ 16)
    × (s'.reseed_counter ≡ start.reseed_counter + 1)
random_bytes_lem_example = random_bytes_lem echo 20 start

init_lem_example :
    ((s : Drbg) × (init echo (replicate 48 9) [] 256 ≡ ok s)
      × (length s.key ≡ 32)
      × (length s.v ≡ 16)
      × IsXor (blocks echo (replicate 32 0) (replicate 16 0) 3).0 (replicate 48 9) (s.key ++ s.v)
      × (s.reseed_counter ≡ 1))
    × (init echo (replicate 48 9) (5 ∷ 6 ∷ []) 256 ≡ raised type_error)
init_lem_example = init_lem echo (replicate 48 9) (6 ∷ []) 5 refl
