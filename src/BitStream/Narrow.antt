-- ===== src/BitStream/Narrow.antt =====
-- Values that do not fill the last byte up. The program writes fields of 11 to 13 bits only.
use iis_meds.Prelude.{
  ℕ, suc, ◌+◌, ◌-◌, ◌*◌, ◌^◌, ◌<◌, bit_and, List, none, ◌≡◌, ap, sym, ◌∙◌, arith, ok, raised,
  index_error, attribute_error,
}
use iis_meds.Prelude.Bits.{bit_and-mask, pow_pos, half-pow}
use iis_meds.BitStream.{BitStream, empty, or_last, write}
use iis_meds.BitStream.Write.{IsWriter}
use iis_meds.BitStream.LastByte.{or_last_lem, two_widths}

shifted_small : (v k w : ℕ) → k + w ≡ 7 → v < 2 ^ w → v * 2 ^ k < 256
shifted_small v k w e h =
    let q : 8 - k ≡ suc w = omega arith in
    grind (arith, rw q at (two_widths k (omega arith)), pow_pos k, half-pow w)

write_short-seventh :
    (s : BitStream) (v w : ℕ) (bs : List ℕ)
    → s.byte_pos ≡ none
    → s.bit_pos + w ≡ 7
    → or_last s.data_bytes (v * 2 ^ s.bit_pos) ≡ ok bs
    → write s v w ≡ raised attribute_error
unfolding write
write_short-seventh s v w bs e h run = ground (arith, e, run)

-- On a stream that was made to write to, a value whose bits end at bit 7 of a byte in use raises
-- AttributeError: only a stream over data has the attribute `byte_pos`, which `write` advances there.
pub write_to_seventh :
    (s : BitStream) (v w : ℕ)
    → IsWriter s
    → s.byte_pos ≡ none
    → 0 < s.bit_pos
    → s.bit_pos + w ≡ 7
    → v < 2 ^ w
    → write s v w ≡ raised attribute_error
write_to_seventh s v w writer e pos h small =
    let (bs, run, _) = or_last_lem s.data_bytes s.bit_pos v pos (omega arith) writer in
    let same : bit_and (v * 2 ^ s.bit_pos) 0xff ≡ v * 2 ^ s.bit_pos =
      omega (arith, bit_and-mask 8 (v * 2 ^ s.bit_pos), shifted_small v s.bit_pos w h small) in
    write_short-seventh s v w bs e h (ap (or_last s.data_bytes) (sym same) ∙ run)

-- The first value of a new stream must fill a byte: a narrower one raises IndexError.
pub write_narrow_first : (v w : ℕ) → w < 8 → write empty v w ≡ raised index_error
unfolding write empty
write_narrow_first v w h = ground arith
