-- ===== src/BitStream/RoundTrip.antt =====
-- What is written comes back.
use iis_meds.Prelude.{
  ℕ, zero, suc, ◌+◌, ◌-◌, ◌*◌, ◌/◌, ◌^◌, ◌≤◌, ◌<◌, List, [], ◌∷◌, ◌++◌, All, length, take, drop,
  take-append, drop-append, length-append, ◌≡◌, refl, ap, sym, ◌∙◌, arith, append_assoc, append-nil,
  ok,
}
use iis_meds.BitStream.{BitStream, empty, of_data, write_all, read_all}
use iis_meds.BitStream.Digits.{digits, number, stream, length-digits, number-digits}
use iis_meds.BitStream.LastByte.{bits, Fits}
use iis_meds.BitStream.Write.{written, IsWriter, write_lem, under_byte}
use iis_meds.BitStream.Read.{reader, rest, IsByte, byte_split, read_lem}

-- The digits of values of one width, one after the other.
abbrev pub all_digits : ℕ → List ℕ → List ℕ
all_digits w [] = []
all_digits w (v ∷ vs) = digits w v ++ all_digits w vs

abbrev pub FitWidth : ℕ → List ℕ → Type 0
FitWidth w vs = All (λ v. v < 2 ^ w) vs

pub length-all_digits : (w : ℕ) (vs : List ℕ) → length (all_digits w vs) ≡ w * length vs
length-all_digits w [] = omega arith
length-all_digits w (v ∷ vs) =
    omega (
      arith,
      length-append (digits w v) (all_digits w vs),
      length-digits w v,
      length-all_digits w vs,
    )

-- Values of one width are written one after the other with no exception.
pub write_all_lem :
    (w : ℕ) (vs : List ℕ) (s : BitStream)
    → 8 ≤ w
    → IsWriter s
    → FitWidth w vs
    → (t : BitStream) × (write_all s vs w ≡ ok t)
      × IsWriter t
      × (written t ≡ written s ++ all_digits w vs)
unfolding write_all
write_all_lem w [] s long writer fit = (s, refl, writer, sym (append-nil (written s)))
write_all_lem w (v ∷ vs) s long writer fit =
    let (t, run, wrote) = write_lem s v w writer (omega arith) fit.0 in
    let (u, runs, writer', same) = write_all_lem w vs t long wrote.fits fit.1 in
    (
      u,
      rw run runs,
      writer',
      same
          ∙ ap (λ ds. ds ++ all_digits w vs) wrote.same
          ∙ append_assoc (written s) (digits w v) (all_digits w vs),
    )

pub read_all_lem :
    (w : ℕ) (vs bs : List ℕ) (p k : ℕ) (pad : List ℕ)
    → 8 ≤ w
    → FitWidth w vs
    → All IsByte bs
    → k < 8
    → rest bs p k ≡ all_digits w vs ++ pad
    → (t : BitStream) × (read_all (reader bs p k) (length vs) w ≡ ok (vs, t))
unfolding read_all
read_all_lem w [] bs p k pad long fit bytes l same = (reader bs p k, refl)
read_all_lem w (v ∷ vs) bs p k pad long fit bytes l same =
    let next : rest bs p k ≡ digits w v ++ (all_digits w vs ++ pad) =
      same ∙ append_assoc (digits w v) (all_digits w vs) pad in
    let (q, i, lt, run, left) = read_lem bs bytes p k w l (omega arith) (
      omega (
        arith,
        ap (λ xs. length xs) next,
        length-append (digits w v) (all_digits w vs ++ pad),
        length-digits w v,
      )) in
    let value : number (take w (rest bs p k)) ≡ v =
      ap (λ ds. number (take w ds)) next
      ∙ ap number (take-append w (digits w v) _ (length-digits w v))
      ∙ number-digits w v fit.0 in
    let after : rest bs q i ≡ all_digits w vs ++ pad =
      left ∙ ap (drop w) next ∙ drop-append w (digits w v) _ (length-digits w v) in
    let (t, runs) = read_all_lem w vs bs q i pad long fit.1 bytes lt after in
    (t, rw (run, value, runs))

-- The bytes of a writer hold its bits, and then unused ones.
stream-bits : (bs : List ℕ) (k : ℕ) → Fits bs k → (pad : List ℕ) × (stream bs ≡ bits bs k ++ pad)
stream-bits [] k f = ([], refl)
stream-bits (b ∷ []) zero f = ([], refl)
stream-bits (b ∷ []) (suc j) f =
    (digits (8 - suc j) (b / 2 ^ suc j) ++ [], byte_split b (suc j) [] (omega (arith, f.0)))
stream-bits (b ∷ c ∷ bs) k f =
    let (pad, e) = stream-bits (c ∷ bs) k f.1 in
    (pad, ap (◌++◌ (digits 8 b)) e ∙ sym (append_assoc (digits 8 b) (bits (c ∷ bs) k) pad))

Fits-IsByte : (bs : List ℕ) (k : ℕ) → Fits bs k → All IsByte bs
Fits-IsByte [] k f = tt
Fits-IsByte (b ∷ []) zero f = (f.1, tt)
Fits-IsByte (b ∷ []) (suc j) f = (under_byte b (suc j) f.0 f.1, tt)
Fits-IsByte (b ∷ c ∷ bs) k f = (f.0, Fits-IsByte (c ∷ bs) k f.1)

length-bits :
    (bs : List ℕ) (k : ℕ)
    → Fits bs k
    → (length (bits bs k) ≤ 8 * length bs) × (8 * length bs < length (bits bs k) + 8)
length-bits [] k f = omega arith
length-bits (b ∷ []) zero f = omega arith
length-bits (b ∷ []) (suc j) f = omega (arith, length-digits (suc j) b)
length-bits (b ∷ c ∷ bs) k f =
    omega (arith, length-bits (c ∷ bs) k f.1, length-append (digits 8 b) (bits (c ∷ bs) k))

written-empty : written empty ≡ []
unfolding empty
written-empty = refl

empty-IsWriter : IsWriter empty
unfolding empty
empty-IsWriter = refl

of_data-reader : (bs : List ℕ) → 0 < length bs → of_data bs ≡ reader bs 0 0
unfolding of_data
of_data-reader [] h = absurd (omega arith)
of_data-reader (b ∷ bs) h = refl

-- Values of `w` bits, `w` at least 8, that are written to a new stream take as few whole bytes as
-- hold them, and all the written values are bytes.
pub write_all_size :
    (w : ℕ) (vs : List ℕ)
    → 8 ≤ w
    → FitWidth w vs
    → (s : BitStream) × (write_all empty vs w ≡ ok s)
      × (length s.data_bytes ≡ (w * length vs + 7) / 8)
      × All IsByte s.data_bytes
write_all_size w vs long fit =
    let (s, run, writer, same) = write_all_lem w vs empty long empty-IsWriter fit in
    let count : length (written s) ≡ w * length vs =
      ap (λ xs. length xs) (same ∙ ap (λ xs. xs ++ all_digits w vs) written-empty)
      ∙ length-all_digits w vs in
    (
      s,
      run,
      omega (arith, count, length-bits s.data_bytes s.bit_pos writer),
      Fits-IsByte s.data_bytes s.bit_pos writer,
    )

read_back :
    (w : ℕ) (vs : List ℕ) (s : BitStream)
    → 8 ≤ w
    → FitWidth w vs
    → IsWriter s
    → written s ≡ all_digits w vs
    → (t : BitStream) × (read_all (of_data s.data_bytes) (length vs) w ≡ ok (vs, t))
unfolding read_all
read_back w [] s long fit writer same = (of_data s.data_bytes, refl)
read_back w (v ∷ vs) s long fit writer same =
    let (pad, held) = stream-bits s.data_bytes s.bit_pos writer in
    let full : 0 < length s.data_bytes = omega (
      arith,
      ap (λ xs. length xs) same,
      length-all_digits w (v ∷ vs),
      length-bits s.data_bytes s.bit_pos writer,
    ) in
    rw (of_data-reader s.data_bytes full) (
      read_all_lem w (v ∷ vs) s.data_bytes 0 0 pad long fit
        (Fits-IsByte s.data_bytes s.bit_pos writer) (omega arith)
        (held ∙ ap (λ xs. xs ++ pad) same))

-- Values of `w` bits, `w` at least 8, that are written to a new stream with no exception are read
-- back, in order, from a stream over its bytes.
pub read_all-write_all :
    (w : ℕ) (vs : List ℕ)
    → 8 ≤ w
    → FitWidth w vs
    → (s : BitStream) × (t : BitStream) × (write_all empty vs w ≡ ok s)
      × (read_all (of_data s.data_bytes) (length vs) w ≡ ok (vs, t))
read_all-write_all w vs long fit =
    let (s, run, writer, same) = write_all_lem w vs empty long empty-IsWriter fit in
    let (t, back) =
      read_back w vs s long fit writer (same ∙ ap (λ xs. xs ++ all_digits w vs) written-empty) in
    (s, t, run, back)
