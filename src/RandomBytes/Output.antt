-- ===== src/RandomBytes/Output.antt =====
-- What the generator gives, and its state after.
use native.Mathlib.Decide.{dec_lt}
use iis_meds.Prelude.{
  ltb, get_or, ◌<◌, subst, true, ℕ, zero, suc, ◌+◌, ◌-◌, ◌*◌, ◌/◌, ◌%◌, ◌^◌, ◌≤◌, List, [], ◌∷◌,
  ◌++◌, All, length, take, drop, length-take, length-drop, length-append, take_past, lt→ltb,
  ltb-false, ◌≡◌, refl, ap, sym, ◌∙◌, arith, ok, raised, type_error, replicate, take-append,
  take-append-drop, append-nil, bit_xor, eq-true,
}
use iis_meds.RandomBytes.{
  Cipher, Drbg, increment, blocks, update, generate, random_bytes, init, xor_all, personalize,
  item_byte, assign_byte,
}
use iis_meds.RandomBytes.Counter.{number-lt, IsByte, number, increment_lem}

-- The 48 bytes of an update are cut into a key and a counter.
parts :
    (temp : List ℕ)
    → length temp ≡ 48
    → (length (take 32 temp) ≡ 32)
      × (length (take 16 (drop 32 temp)) ≡ 16)
      × (take 32 temp ++ take 16 (drop 32 temp) ≡ temp)
parts temp long =
    let low = drop 32 temp in
    let end : length low ≡ 16 = omega (arith, length-drop 32 temp) in
    let all : take 16 low ≡ low = ap (take 16) (sym (append-nil low)) ∙ take-append 16 low [] end in
    (
      omega (arith, length-take 32 temp),
      omega (arith, length-take 16 low),
      ap (◌++◌ (take 32 temp)) all ∙ take-append-drop 32 temp,
    )

-- The bytes of two lists, one by one, by exclusive or
abbrev pub IsXor : List ℕ → List ℕ → List ℕ → Type 0
IsXor bs given out =
    (i : ℕ) → i < length bs → get_or out i 0 ≡ bit_xor (get_or bs i 0) (get_or given i 0)

xor_all-IsXor :
    (bs given : List ℕ)
    → length bs ≡ length given
    → (out : List ℕ) × (xor_all bs given ≡ ok out) × (length out ≡ length bs) × IsXor bs given out
unfolding xor_all
xor_all-IsXor [] given same = ([], refl, refl, λ i h. absurd (omega arith))
xor_all-IsXor (b ∷ bs) [] same = absurd (omega arith)
xor_all-IsXor (b ∷ bs) (d ∷ given) same =
    let (out, run, long, each) = xor_all-IsXor bs given (omega arith) in
    (bit_xor b d ∷ out, rw run refl, ap suc long, at_each out each)
  where
    at_each : (out : List ℕ) → IsXor bs given out → IsXor (b ∷ bs) (d ∷ given) (bit_xor b d ∷ out)
    at_each out each zero h = refl
    at_each out each (suc i) h = each i (omega arith)

module _ (c : Cipher) where
  length-blocks : (key v : List ℕ) (count : ℕ) → length (blocks c key v count).0 ≡ 16 * count
  unfolding blocks
  length-blocks key v zero = refl
  length-blocks key v (suc count) = omega (
    arith,
    length-append (c.encrypt key (increment v)) (blocks c key (increment v) count).0,
    c.length-encrypt key (increment v),
    length-blocks key (increment v) count,
  )

  -- The counter after some blocks
  blocks-counter :
      (key v : List ℕ) (count : ℕ)
      → All IsByte v
      → length v ≡ 16
      → (length (blocks c key v count).1 ≡ 16)
        × All IsByte (blocks c key v count).1
        × (number (blocks c key v count).1 ≡ (number v + count) % 2 ^ 128)
  unfolding blocks
  blocks-counter key v zero bytes long =
      (long, bytes, omega (arith, number-lt v bytes, ap (λ n. 256 ^ n) long))
  blocks-counter key v (suc count) bytes long =
      let (long', bytes', e) = increment_lem v bytes long in
      let (l, b, same) = blocks-counter key (increment v) count bytes' long' in
      (l, b, omega (arith, e, same))

  -- The loop gives the first bytes of the blocks.
  generate-blocks :
      (key : List ℕ) (fuel xlen : ℕ) (v : List ℕ)
      → xlen ≤ fuel
      → generate c key fuel xlen v
        ≡ (take xlen (blocks c key v ((xlen + 15) / 16)).0, (blocks c key v ((xlen + 15) / 16)).1)
  unfolding generate blocks
  generate-blocks key zero zero v enough = refl
  generate-blocks key zero (suc x) v enough = absurd (omega arith)
  generate-blocks key (suc fuel) zero v enough = refl
  generate-blocks key (suc fuel) (suc x) v enough = elim (dec_lt 15 (suc x)) [
    | yes h ↦
        let w = increment v in
        let e : (suc x + 15) / 16 ≡ suc ((suc x - 16 + 15) / 16) = omega arith in
        let rest = generate-blocks key fuel (suc x - 16) w (omega arith) in
        let cut =
          take_past 16 (suc x) (c.encrypt key w) (blocks c key w ((suc x - 16 + 15) / 16)).0
            (c.length-encrypt key w) h in
        rw (lt→ltb 0 (suc x) (omega arith), lt→ltb 15 (suc x) h, e, rest, cut)
    | no h ↦
        let e : (suc x + 15) / 16 ≡ 1 = omega arith in
        rw (
          lt→ltb 0 (suc x) (omega arith),
          ltb-false 15 (suc x) (omega arith),
          e,
          append-nil (c.encrypt key (increment v)),
        )
  ]

-- A request for `xlen` bytes gives the first `xlen` bytes of the blocks that encrypt v + 1, v + 2 and
-- so on; the three next blocks are the new key and the new v.
pub random_bytes_lem :
    (c : Cipher) (xlen : ℕ) (s : Drbg)
    → (s' : Drbg) × (random_bytes c xlen s
        ≡ ok (take xlen (blocks c s.key s.v ((xlen + 15) / 16)).0, s'))
      × (length (take xlen (blocks c s.key s.v ((xlen + 15) / 16)).0) ≡ xlen)
      × (s'.key ++ s'.v ≡ (blocks c s.key (blocks c s.key s.v ((xlen + 15) / 16)).1 3).0)
      × (length s'.key ≡ 32)
      × (length s'.v ≡ 16)
      × (s'.reseed_counter ≡ s.reseed_counter + 1)
unfolding random_bytes update
random_bytes_lem c xlen s =
    let key = s.key in
    let count = (xlen + 15) / 16 in
    let made = blocks c key s.v count in
    let run = generate-blocks c key xlen xlen s.v (omega arith) in
    let temp = (blocks c key made.1 3).0 in
    let (long_key, long_v, same) = parts temp (length-blocks c key made.1 3) in
    (
      record {
        key = take 32 temp;
        v = take 16 (drop 32 temp);
        reseed_counter = s.reseed_counter + 1;
      },
      rw run refl,
      omega (arith, length-take xlen made.0, length-blocks c key s.v count),
      same,
      long_key,
      long_v,
      refl,
    )

-- The first assignment of the loop over a personalization string raises TypeError.
personalize-raised :
    (material person : List ℕ) (p count : ℕ)
    → 0 < length material
    → personalize material (p ∷ person) 0 (suc count) ≡ raised type_error
unfolding personalize item_byte assign_byte
personalize-raised [] person p count h = absurd (omega arith)
personalize-raised (b ∷ material) person p count h = refl

-- With 48 bytes of entropy and strength 256, a call with no personalization string gives a state whose
-- key, of 32 bytes, and counter, of 16, are together the exclusive or of the entropy and of the first three
-- blocks for a key and a counter of zeros, and a call with a string that is not empty raises TypeError.
pub init_lem :
    (c : Cipher) (entropy person : List ℕ) (p : ℕ)
    → length entropy ≡ 48
    → ((s : Drbg) × (init c entropy [] 256 ≡ ok s)
        × (length s.key ≡ 32)
        × (length s.v ≡ 16)
        × IsXor (blocks c (replicate 32 0) (replicate 16 0) 3).0 entropy (s.key ++ s.v)
        × (s.reseed_counter ≡ 1))
      × (init c entropy (p ∷ person) 256 ≡ raised type_error)
unfolding init update
init_lem c entropy person p long =
    let temp = (blocks c (replicate 32 0) (replicate 16 0) 3).0 in
    let count = length-blocks c (replicate 32 0) (replicate 16 0) 3 in
    let (out, run, size, each) = xor_all-IsXor temp entropy (omega (arith, count, long)) in
    let (long_key, long_v, whole) = parts out (omega (arith, size, count)) in
    let some_person : ltb 0 (length (p ∷ person)) ≡ true =
      lt→ltb 0 (length (p ∷ person)) (omega arith) in
    (
      (
        record { key = take 32 out; v = take 16 (drop 32 out); reseed_counter = 1 },
        rw (eq-true (length entropy) 48 long, run),
        long_key,
        long_v,
        subst (IsXor temp entropy) (sym whole) each,
        refl,
      ),
      rw
          (
            eq-true (length entropy) 48 long,
            some_person,
            personalize-raised entropy person p 47 (omega arith),
          )
          refl,
    )
