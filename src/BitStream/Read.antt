-- ===== src/BitStream/Read.antt =====
-- `read` takes the value of the next bits of the stream.
use iis_meds.Prelude.{
  ℕ, zero, suc, ◌+◌, ◌-◌, ◌*◌, ◌/◌, ◌%◌, ◌^◌, ◌≤◌, ◌<◌, bit_and, bit_or, List, [], ◌++◌, some, All,
  length, get_elem?, take, drop, take_past, drop_past, take-append, drop-append, length-append,
  at_index, All-get_elem?, ◌≡◌, refl, ap, sym, ◌∙◌, arith, append_assoc, ok, Result, ap₂,
  append-nil, inl, inr, All-append,
}
use native.Mathlib.Decide.{dec_lt}
use iis_meds.Prelude.Bits.{bit_and-mask, pow_pos}
use iis_meds.BitStream.{BitStream, read_bytes, read_long, read}
use iis_meds.BitStream.Digits.{
  digits, number, stream, IsDigit, length-digits, digits-IsDigit, number-digits, digits_split,
  digits-mod, or_digits,
}
use iis_meds.BitStream.Write.{quotient_small}

abbrev pub reader : List ℕ → ℕ → ℕ → BitStream
reader bs p k = record { data_bytes = bs; byte_pos = some p; bit_pos = k }

-- The bits that are still to be read.
abbrev pub rest : List ℕ → ℕ → ℕ → List ℕ
rest bs p k = drop k (stream (drop p bs))

abbrev pub IsByte : ℕ → Type 0
IsByte b = b < 256

module _ (bs : List ℕ) (p : ℕ) {b : ℕ} (here : get_elem? bs p ≡ some b) where
  read_bytes-more :
      (fuel value off len : ℕ)
      → 8 ≤ len
      → read_bytes (suc fuel) (reader bs p 0) value off len
        ≡ read_bytes fuel (reader bs (p + 1) 0) (bit_or value (b * 2 ^ off)) (off + 8) (len - 8)
  unfolding read_bytes
  read_bytes-more fuel value off len h = ground (arith, here)

  read_bytes-last :
      (fuel value off len : ℕ)
      → 0 < len
      → len < 8
      → read_bytes (suc fuel) (reader bs p 0) value off len
        ≡ ok (bit_or value (bit_and b (2 ^ len - 1) * 2 ^ off), reader bs p len)
  unfolding read_bytes
  read_bytes-last fuel value off len h l = ground (arith, here)

  read_long_step :
      (k w : ℕ)
      → 0 < k
      → read_long (reader bs p k) w
        ≡ read_bytes (suc w) (reader bs (p + 1) 0) (b / 2 ^ k) (8 - k) (w - (8 - k))
  unfolding read_long
  read_long_step k w h = ground (arith, here)

read_bytes-none :
    (bs : List ℕ) (p fuel value off len : ℕ)
    → len ≡ 0
    → read_bytes (suc fuel) (reader bs p 0) value off len ≡ ok (value, reader bs p 0)
unfolding read_bytes
read_bytes-none bs p fuel value off len h = ground arith

-- The first bits of a byte, and the bits behind them.
pub byte_split :
    (b k : ℕ) (ys : List ℕ)
    → k ≤ 8
    → digits 8 b ++ ys ≡ digits k b ++ (digits (8 - k) (b / 2 ^ k) ++ ys)
byte_split b k ys h =
    let e : 8 ≡ k + (8 - k) = omega arith in
    ap (λ ds. ds ++ ys) (ap (λ n. digits n b) e ∙ digits_split k (8 - k) b)
    ∙ append_assoc (digits k b) (digits (8 - k) (b / 2 ^ k)) ys

take_byte : (b k : ℕ) (ys : List ℕ) → k ≤ 8 → take k (digits 8 b ++ ys) ≡ digits k b
take_byte b k ys h =
    ap (take k) (byte_split b k ys h) ∙ take-append k (digits k b) _ (length-digits k b)

drop_byte :
    (b k : ℕ) (ys : List ℕ) → k ≤ 8 → drop k (digits 8 b ++ ys) ≡ digits (8 - k) (b / 2 ^ k) ++ ys
drop_byte b k ys h =
    ap (drop k) (byte_split b k ys h) ∙ drop-append k (digits k b) _ (length-digits k b)

-- `value |= (b & mask) << off`
or_low_bits :
    (acc : List ℕ) (b k : ℕ)
    → All IsDigit acc
    → bit_or (number acc) (bit_and b (2 ^ k - 1) * 2 ^ length acc) ≡ number (acc ++ digits k b)
or_low_bits acc b k digs = rw (bit_and-mask k b) (
    or_digits acc (length acc) k (b % 2 ^ k) digs refl (omega (arith, pow_pos k))
    ∙ ap (λ ds. number (acc ++ ds)) (digits-mod k b))

-- The run `m` gives the value of `acc` and of the next `len` bits, and goes on behind them.
abbrev pub Reads : List ℕ → List ℕ → List ℕ → ℕ → Result (ℕ × BitStream) → Type 0
Reads bs acc before len m =
    (p : ℕ) × (k : ℕ) × (k < 8)
    × (m ≡ ok (number (acc ++ take len before), reader bs p k))
    × (rest bs p k ≡ drop len before)

module _ (bs : List ℕ) (bytes : All IsByte bs) where
  read_end :
      (fuel p len : ℕ) (acc : List ℕ)
      → len < 8
      → All IsDigit acc
      → len ≤ length (rest bs p 0)
      → Reads bs acc
          (rest bs p 0)
          len
          (read_bytes (suc fuel) (reader bs p 0) (number acc) (length acc) len)
  read_end fuel p len acc small digs enough = elim (dec_lt 0 len) [
    | yes pos ↦ elim (at_index bs p) [
      | inl (gone, _) ↦ absurd (omega (arith, ap (λ xs. length (stream xs)) gone))
      | inr (b, here, more) ↦
          let next : take len (rest bs p 0) ≡ digits len b =
            ap (λ xs. take len (stream xs)) more
            ∙ take_byte b len (stream (drop (p + 1) bs)) (omega arith) in
          (
            p,
            len,
            small,
            read_bytes-last bs p here fuel (number acc) (length acc) len pos small
                ∙ ap (λ v. ok (v, reader bs p len))
                    (or_low_bits acc b len digs ∙ ap (λ ds. number (acc ++ ds)) (sym next)),
            refl,
          )
    ]
    | no none_left ↦
        let e : len ≡ 0 = omega arith in
        (
          p,
          0,
          omega arith,
          read_bytes-none bs p fuel (number acc) (length acc) len e
              ∙ ap (λ ds. ok (number ds, reader bs p 0)) (rw e (sym (append-nil acc))),
          rw e,
        )
  ]

  read_bytes_lem :
      (fuel p len : ℕ) (acc : List ℕ)
      → len < fuel
      → All IsDigit acc
      → len ≤ length (rest bs p 0)
      → Reads bs acc
          (rest bs p 0)
          len
          (read_bytes fuel (reader bs p 0) (number acc) (length acc) len)
  read_bytes_lem zero p len acc f digs enough = absurd (omega arith)
  read_bytes_lem (suc fuel) p len acc f digs enough = elim (dec_lt len 8) [
    | yes small ↦ read_end fuel p len acc small digs enough
    | no big ↦ elim (at_index bs p) [
      | inl (gone, _) ↦ absurd (omega (arith, ap (λ xs. length (stream xs)) gone))
      | inr (b, here, more) ↦
          let tail : List ℕ = stream (drop (p + 1) bs) in
          let split : rest bs p 0 ≡ digits 8 b ++ tail = ap stream more in
          let acc' : List ℕ = acc ++ digits 8 b in
          let longer : length acc + 8 ≡ length acc' = sym (length-append acc (digits 8 b)) in
          let (q, k, small, run, left) =
            read_bytes_lem fuel (p + 1) (len - 8) acc' (omega arith)
              (All-append IsDigit acc (digits 8 b) digs (digits-IsDigit 8 b))
              (omega (arith, ap (λ xs. length xs) split, length-append (digits 8 b) tail)) in
          (
            q,
            k,
            small,
            read_bytes-more bs p here fuel (number acc) (length acc) len (omega arith)
                ∙ ap₂ (λ v off. read_bytes fuel (reader bs (p + 1) 0) v off (len - 8))
                    (or_digits acc (length acc) 8 b digs refl
                      (All-get_elem? IsByte bs p bytes here))
                    longer
                ∙ run
                ∙ ap (λ ds. ok (number ds, reader bs q k))
                    (append_assoc acc (digits 8 b) (take (len - 8) tail)
                      ∙ ap (◌++◌ acc) (
                          sym (
                            ap (take len) split
                            ∙ take_past 8 len (digits 8 b) tail refl (omega arith)))),
            left ∙ sym (ap (drop len) split ∙ drop_past 8 len (digits 8 b) tail refl (omega arith)),
          )
    ]
  ]

  -- The first bits come from a byte that is read in part.
  read_inside :
      (p k w : ℕ)
      → 0 < k
      → k < 8
      → 8 ≤ k + w
      → w ≤ length (rest bs p k)
      → Reads bs [] (rest bs p k) w (read_long (reader bs p k) w)
  read_inside p zero w pos l long enough = absurd (omega arith)
  read_inside p (suc j) w pos l long enough = elim (at_index bs p) [
    | inl (gone, _) ↦ absurd (omega (arith, ap (λ xs. length (drop (suc j) (stream xs))) gone))
    | inr (b, here, more) ↦
        let k : ℕ = suc j in
        let n : ℕ = 8 - k in
        let high : ℕ = b / 2 ^ k in
        let tail : List ℕ = stream (drop (p + 1) bs) in
        let sum : k + n ≡ 8 = omega arith in
        let small : high < 2 ^ n =
          quotient_small b k n (rw sum (All-get_elem? IsByte bs p bytes here)) in
        let split : rest bs p k ≡ digits n high ++ tail =
          ap (λ xs. drop k (stream xs)) more ∙ drop_byte b k tail (omega arith) in
        let (q, i, lt, run, left) =
          read_bytes_lem (suc w) (p + 1) (w - n) (digits n high) (omega arith)
            (digits-IsDigit n high)
            (omega (
              arith,
              ap (λ xs. length xs) split,
              length-append (digits n high) tail,
              length-digits n high,
            )) in
        (
          q,
          i,
          lt,
          read_long_step bs p here k w pos
              ∙ ap₂ (λ v off. read_bytes (suc w) (reader bs (p + 1) 0) v off (w - n))
                  (sym (number-digits n high small)) (sym (length-digits n high))
              ∙ run
              ∙ ap (λ ds. ok (number ds, reader bs q i))
                  (sym (
                    ap (take w) split
                    ∙ take_past n w (digits n high) tail (length-digits n high) (omega arith))),
          left
              ∙ sym (
                  ap (drop w) split
                  ∙ drop_past n w (digits n high) tail (length-digits n high) (omega arith)),
        )
  ]

  read_aligned :
      (p w : ℕ)
      → w ≤ length (rest bs p 0)
      → Reads bs [] (rest bs p 0) w (read_long (reader bs p 0) w)
  unfolding read_long
  read_aligned p w enough = read_bytes_lem (suc w) p w [] (omega arith) tt enough

  read-long : (p k w : ℕ) → 8 ≤ k + w → read (reader bs p k) w ≡ read_long (reader bs p k) w
  unfolding read
  read-long p k w h = ground arith

  -- Where at least `w` bits are left, and `w` bits reach the end of the current byte, `read` returns
  -- the value of the next `w` bits, lowest first, and the stream goes on behind them.
  pub read_lem :
      (p k w : ℕ)
      → k < 8
      → 8 ≤ k + w
      → w ≤ length (rest bs p k)
      → Reads bs [] (rest bs p k) w (read (reader bs p k) w)
  read_lem p zero w l long enough = rw (read-long p 0 w long) (read_aligned p w enough)
  read_lem p (suc j) w l long enough =
      rw (read-long p (suc j) w long) (read_inside p (suc j) w (omega arith) l long enough)
