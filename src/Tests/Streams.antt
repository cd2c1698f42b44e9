-- ===== src/Tests/Streams.antt =====
-- The bit stream of sage-ref/bitstream.py on its own example, and the theorems about it.
use iis_meds.Prelude.{
  ℕ, ◌+◌, ◌*◌, ◌/◌, List, [], ◌∷◌, All, length, none, ◌≡◌, refl, arith, ok, raised, attribute_error,
}
use iis_meds.BitStream.{BitStream, empty, of_data, write, write_all, read, read_all}
use iis_meds.BitStream.Write.{Wrote, write_lem}
use iis_meds.BitStream.Read.{Reads, reader, rest, IsByte, read_lem}
use iis_meds.BitStream.RoundTrip.{read_all-write_all, write_all_size}
use iis_meds.BitStream.Narrow.{write_to_seventh}

abbrev values : List ℕ
values = 6001 ∷ 5101 ∷ 3590 ∷ 598 ∷ []

abbrev half_byte : BitStream
half_byte = record { data_bytes = 0x35 ∷ 0x0a ∷ []; byte_pos = none; bit_pos = 4 }

read_all-write_all_example :
    (s : BitStream) × (t : BitStream) × (write_all empty values 13 ≡ ok s)
    × (read_all (of_data s.data_bytes) 4 13 ≡ ok (values, t))
read_all-write_all_example = read_all-write_all 13 values (omega arith) (omega arith)

write_all_size_example :
    (s : BitStream) × (write_all empty values 13 ≡ ok s)
    × (length s.data_bytes ≡ (13 * 4 + 7) / 8)
    × All IsByte s.data_bytes
write_all_size_example = write_all_size 13 values (omega arith) (omega arith)

write_lem_example : (t : BitStream) × (write half_byte 4000 12 ≡ ok t) × Wrote half_byte 4000 12 t
write_lem_example = write_lem half_byte 4000 12 (omega arith) (omega arith) (omega arith)

read_lem_example :
    Reads
      (0x35 ∷ 0xfa ∷ [])
      []
      (rest (0x35 ∷ 0xfa ∷ []) 0 4)
      12
      (read (reader (0x35 ∷ 0xfa ∷ []) 0 4) 12)
read_lem_example =
    read_lem (0x35 ∷ 0xfa ∷ []) (omega arith) 0 4 12 (omega arith) (omega arith) (omega arith)

write_to_seventh_example : write half_byte 5 3 ≡ raised attribute_error
write_to_seventh_example =
    write_to_seventh half_byte 5 3 (omega arith) refl (omega arith) (omega arith) (omega arith)
