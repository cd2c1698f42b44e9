-- ===== src/BitStream.antt =====
-- The class `BitStream` of sage-ref/bitstream.py.
pub mod Digits
pub mod LastByte
pub mod Write
pub mod Read
pub mod RoundTrip
pub mod Narrow
use iis_meds.Prelude.{
  ℕ, zero, suc, ◌+◌, ◌-◌, ◌*◌, ◌/◌, ◌%◌, ◌^◌, bit_and, bit_or, ltb, leb, ◌==◌, if◌then◌else◌, List,
  [], ◌∷◌, ◌++◌, Option, none, some, length, get_elem?, set, Bool, true, false, arith,
}
use iis_meds.Prelude.{
  Result, Exception, ok, raised, running, index_error, value_error, attribute_error, ◌>>=◌,
}

-- `byte_pos` is `none` where the constructor never gave the object the attribute.
pub record BitStream : Type 0 where
  pub data_bytes : List ℕ
  pub byte_pos : Option ℕ
  pub bit_pos : ℕ

-- `BitStream(data)`: an empty or missing `data` is false, and starts a stream to write to.
unfoldable pub of_data : List ℕ → BitStream
of_data [] = record { data_bytes = []; byte_pos = none; bit_pos = 0 }
of_data (b ∷ bs) = record { data_bytes = b ∷ bs; byte_pos = some 0; bit_pos = 0 }

unfoldable pub empty : BitStream
empty = record { data_bytes = []; byte_pos = none; bit_pos = 0 }

unfoldable pub finalize : BitStream → BitStream
finalize s = if ltb 0 s.bit_pos then record s { bit_pos = 8 } else s

-- `self.byte_pos += 1`, which raises AttributeError where there is no such attribute.
next_byte : BitStream → Result BitStream
next_byte s = elim s.byte_pos [
  | none ↦ raised attribute_error
  | some p ↦ ok (record s { byte_pos = some (p + 1) })
]

-- `self.data[len(self.data) - 1] |= v`: the index is -1, and so out of range, only for no bytes.
-- A bytearray takes no value above 255.
unfoldable pub or_last : List ℕ → ℕ → Result (List ℕ)
or_last [] v = raised index_error
or_last (b ∷ []) v = let r = bit_or b v in if ltb r 256 then ok (r ∷ []) else raised value_error
or_last (b ∷ c ∷ bs) v = do rest ← or_last (c ∷ bs) v; ok (b ∷ rest)

-- `self.data.append(v)`
unfoldable pub append : List ℕ → ℕ → Result (List ℕ)
append bs v = if ltb v 256 then ok (bs ++ v ∷ []) else raised value_error

-- `while data_len >= 8`, then the last bits.
unfoldable pub write_bytes : ℕ → BitStream → ℕ → ℕ → Result BitStream
write_bytes zero s value data_len = running
write_bytes (suc fuel) s value data_len = elim (leb 8 data_len) [
  | true ↦ do
    bs ← append s.data_bytes (bit_and value 0xff)
    write_bytes fuel (record s { data_bytes = bs }) (value / 2 ^ 8) (data_len - 8)
  | false ↦
      if ltb 0 data_len
      then (do
        bs ← append s.data_bytes value
        ok (record s { data_bytes = bs; bit_pos = data_len }))
      else ok s
]

-- The bits that fill the last byte up, where it is not full, and then the rest.
unfoldable pub write_long : BitStream → ℕ → ℕ → Result BitStream
unfolding write_bytes
write_long s value data_len =
    if ltb 0 s.bit_pos
    then (do
      bs ← or_last s.data_bytes (bit_and (value * 2 ^ s.bit_pos) 0xff)
      write_bytes (suc data_len) (record s { data_bytes = bs; bit_pos = 0 })
          (value / 2 ^ (8 - s.bit_pos)) (data_len - (8 - s.bit_pos)))
    else write_bytes (suc data_len) s value data_len

-- `if self.bit_pos == 7`, in both methods.
after_short : BitStream → Result BitStream
unfolding next_byte
after_short s = if s.bit_pos == 7 then next_byte (record s { bit_pos = 0 }) else ok s

-- A value that does not fill the last byte.
write_short : BitStream → ℕ → ℕ → Result BitStream
unfolding or_last after_short
write_short s value data_len = do
  bs ← or_last s.data_bytes (value * 2 ^ s.bit_pos)
  after_short (record s { data_bytes = bs; bit_pos = s.bit_pos + data_len })

unfoldable pub write : BitStream → ℕ → ℕ → Result BitStream
unfolding write_short write_long
write s value data_len =
    if ltb (s.bit_pos + data_len) 8
    then write_short s value data_len
    else write_long s value data_len

-- `self.data[self.byte_pos]`
current : BitStream → Result ℕ
current s = elim s.byte_pos [
  | none ↦ raised attribute_error
  | some p ↦ elim (get_elem? s.data_bytes p) [ none ↦ raised index_error | some b ↦ ok b ]
]

read_short : BitStream → ℕ → Result (ℕ × BitStream)
unfolding current after_short
read_short s data_len = do
  b ← current s
  t ← after_short (record s { bit_pos = s.bit_pos + data_len })
  ok (bit_and (b / 2 ^ s.bit_pos) (2 ^ data_len - 1), t)

-- `while data_len >= 8`, then the last bits: `value` has the `off` bits read so far.
unfoldable pub read_bytes : ℕ → BitStream → ℕ → ℕ → ℕ → Result (ℕ × BitStream)
unfolding current next_byte
read_bytes zero s value off data_len = running
read_bytes (suc fuel) s value off data_len = elim (leb 8 data_len) [
  | true ↦ do
    b ← current s
    t ← next_byte s
    read_bytes fuel (record t { bit_pos = 0 }) (bit_or value (b * 2 ^ off)) (off + 8) (data_len - 8)
  | false ↦
      if ltb 0 data_len
      then (do
        b ← current s
        ok (bit_or value (bit_and b (2 ^ data_len - 1) * 2 ^ off), record s { bit_pos = data_len }))
      else ok (value, s)
]

unfoldable pub read_long : BitStream → ℕ → Result (ℕ × BitStream)
unfolding current next_byte read_bytes
read_long s data_len =
    if ltb 0 s.bit_pos
    then (do
      b ← current s
      t ← next_byte (record s { bit_pos = 0 })
      read_bytes (suc data_len) t (b / 2 ^ s.bit_pos) (8 - s.bit_pos) (data_len - (8 - s.bit_pos)))
    else read_bytes (suc data_len) s 0 0 data_len

unfoldable pub read : BitStream → ℕ → Result (ℕ × BitStream)
unfolding read_short read_long
read s data_len =
    if ltb (s.bit_pos + data_len) 8 then read_short s data_len else read_long s data_len

-- A loop that writes a list of values of one width, and one that reads `count` values back.
unfoldable pub write_all : BitStream → List ℕ → ℕ → Result BitStream
write_all s [] width = ok s
write_all s (v ∷ vs) width = do t ← write s v width; write_all t vs width

unfoldable pub read_all : BitStream → ℕ → ℕ → Result (List ℕ × BitStream)
read_all s zero width = ok ([], s)
read_all s (suc count) width = do
  (v, t) ← read s width
  (vs, u) ← read_all t count width
  ok (v ∷ vs, u)
