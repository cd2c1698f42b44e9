-- ===== src/RandomBytes.antt =====
-- The AES counter generator of sage-ref/randombytes.py. AES is no code of this repository: the
-- cipher is a function from a key and a block to a block.
pub mod Counter
pub mod Output
use iis_meds.Prelude.{
  ℕ, zero, suc, ◌+◌, ◌-◌, ◌*◌, ◌≡◌, Bool, true, false, List, [], ◌∷◌, ◌++◌, length, get_elem?, take,
  drop, replicate, bit_xor, ltb, ◌==◌, if◌then◌else◌, Option, none, some, Result, ok, raised,
  assertion_error, type_error, index_error, ◌>>=◌,
}

-- `AES.new(key, AES.MODE_ECB).encrypt(block)`
pub record Cipher : Type 0 where
  pub encrypt : List ℕ → List ℕ → List ℕ
  pub length-encrypt : (key block : List ℕ) → length (encrypt key block) ≡ 16

-- The three globals
pub record Drbg : Type 0 where
  pub key : List ℕ
  pub v : List ℕ
  pub reseed_counter : ℕ

-- One byte, where the bytes after it were all 0xff or not
unfoldable pub carry_byte : ℕ → Bool × List ℕ → Bool × List ℕ
carry_byte b (true, low) = if b == 255 then (true, 0 ∷ low) else (false, (b + 1) ∷ low)
carry_byte b (false, low) = (false, b ∷ low)

-- `for j in range(15, -1, -1)`: the last byte first. The result tells if all bytes were 0xff.
unfoldable pub carry_on : List ℕ → Bool × List ℕ
carry_on [] = (true, [])
carry_on (b ∷ bs) = carry_byte b (carry_on bs)

unfoldable pub increment : List ℕ → List ℕ
increment v = (carry_on v).1

-- `count` times: count up, encrypt, and append the block. Also the counter then.
unfoldable pub blocks : Cipher → List ℕ → List ℕ → ℕ → List ℕ × List ℕ
blocks c key v zero = ([], v)
blocks c key v (suc count) =
    let w = increment v in
    let (rest, last) = blocks c key w count in (c.encrypt key w ++ rest, last)

-- `temp[i] ^= provided_data[i]` for each i
unfoldable pub xor_all : List ℕ → List ℕ → Result (List ℕ)
xor_all [] ds = ok []
xor_all (b ∷ bs) [] = raised index_error
xor_all (b ∷ bs) (d ∷ ds) = do rest ← xor_all bs ds; ok (bit_xor b d ∷ rest)

-- `AES256_CTR_DRBG_Update(provided_data, Key, V)`
unfoldable pub update : Cipher → Option (List ℕ) → List ℕ → List ℕ → Result (List ℕ × List ℕ)
update c none key v = let temp = (blocks c key v 3).0 in ok (take 32 temp, take 16 (drop 32 temp))
update c (some given) key v = do
  temp ← xor_all (blocks c key v 3).0 given
  ok (take 32 temp, take 16 (drop 32 temp))

-- `material[i]`, where a byte string has it
unfoldable pub item_byte : List ℕ → ℕ → Result ℕ
item_byte bytes i = elim (get_elem? bytes i) [ some b ↦ ok b | none ↦ raised index_error ]

-- `material[i] = v` for `material` of the type `bytes`: Python has no assignment to an item of it.
unfoldable pub assign_byte : List ℕ → ℕ → ℕ → Result (List ℕ)
assign_byte material i v = raised type_error

-- `seed_material[i] ^= personalization_string[i]` for i from i on, `count` times
unfoldable pub personalize : List ℕ → List ℕ → ℕ → ℕ → Result (List ℕ)
personalize material person i zero = ok material
personalize material person i (suc count) = do
  a ← item_byte material i
  b ← item_byte person i
  next ← assign_byte material i (bit_xor a b)
  personalize next person (i + 1) count

-- `randombytes_init(entropy_input, personalization_string, security_strength)`
unfoldable pub init : Cipher → List ℕ → List ℕ → ℕ → Result Drbg
init c entropy person strength =
    let started : Result Drbg = (do
      material ← if ltb 0 (length person) then personalize entropy person 0 48 else ok entropy
      (key, v) ← update c (some material) (replicate 32 0) (replicate 16 0)
      ok (record { key = key; v = v; reseed_counter = 1 })) in
    if length entropy == 48
    then (if strength == 256 then started else raised assertion_error)
    else raised assertion_error

-- The loop of `randombytes`: it gives bytes and leaves a counter. Each round takes 16 bytes off
-- `xlen` or ends, so `fuel = xlen` is enough.
unfoldable pub generate : Cipher → List ℕ → ℕ → ℕ → List ℕ → List ℕ × List ℕ
generate c key zero xlen v = ([], v)
generate c key (suc fuel) xlen v =
    let w = increment v in
    let block = c.encrypt key w in
    let (rest, last) = generate c key fuel (xlen - 16) w in
    if ltb 0 xlen
    then (if ltb 15 xlen then (block ++ rest, last) else (take xlen block, w))
    else ([], v)

-- `randombytes(xlen)`
unfoldable pub random_bytes : Cipher → ℕ → Drbg → Result (List ℕ × Drbg)
random_bytes c xlen s = do
  let (ret, last) = generate c s.key xlen xlen s.v
  (key, v) ← update c none s.key last
  ok (ret, record { key = key; v = v; reseed_counter = s.reseed_counter + 1 })
