-- ===== src/BitStream/Write.antt =====
-- `write` appends the digits of the value to the bits of the stream.
use iis_meds.Prelude.{
  ℕ, zero, suc, ◌+◌, ◌-◌, ◌*◌, ◌/◌, ◌%◌, ◌^◌, ◌≤◌, ◌<◌, bit_and, List, [], ◌∷◌, ◌++◌, Option, ◌≡◌,
  refl, ap, sym, ◌∙◌, subst, arith, append_assoc, append-nil, ok,
}
use native.Mathlib.Decide.{dec_lt}
use native.Mathlib.Nat.{div-add-mod}
use iis_meds.Prelude.Bits.{bit_and-mask, pow_pos, half-pow}
use iis_meds.BitStream.{BitStream, append, or_last, write_bytes, write_long, write}
use iis_meds.BitStream.Digits.{digits, digits_split, digits-mod}
use iis_meds.BitStream.LastByte.{
  bits, Fits, bits-append, Fits-append, or_last_lem, width_pos, Fits-lt,
}

abbrev pub written : BitStream → List ℕ
written s = bits s.data_bytes s.bit_pos

abbrev pub IsWriter : BitStream → Type 0
IsWriter s = Fits s.data_bytes s.bit_pos

-- `t` is `s` after the `w` bits of `v`.
pub record Wrote (s : BitStream) (v w : ℕ) (t : BitStream) : Type 0 where
  pub fits : IsWriter t
  pub same : written t ≡ written s ++ digits w v
  pub kept : t.byte_pos ≡ s.byte_pos

abbrev full_bytes : List ℕ → Option ℕ → BitStream
full_bytes bs p = record { data_bytes = bs; byte_pos = p; bit_pos = 0 }

append_lem : (bs : List ℕ) (v : ℕ) → v < 256 → append bs v ≡ ok (bs ++ v ∷ [])
unfolding append
append_lem bs v h = ground arith

low_byte : (v : ℕ) → bit_and v 0xff ≡ v % 256
low_byte v = bit_and-mask 8 v

pow-split : (k n : ℕ) → 2 ^ (k + n) ≡ 2 ^ n * 2 ^ k
pow-split zero n = let e : 0 + n ≡ n = omega arith in rw e (omega arith)
pow-split (suc k) n =
    let e : suc k + n ≡ suc (k + n) = omega arith in
    rw (e, half-pow (k + n), half-pow k) (omega (arith, pow-split k n))

pub quotient_small : (v k n : ℕ) → v < 2 ^ (k + n) → v / 2 ^ k < 2 ^ n
quotient_small v k n h = grind (arith, pow-split k n, pow_pos k, div-add-mod v (2 ^ k))

module _ (p : Option ℕ) (fuel : ℕ) (bs : List ℕ) (v len : ℕ) where
  write_bytes-more :
      8 ≤ len
      → write_bytes (suc fuel) (full_bytes bs p) v len
        ≡ write_bytes fuel (full_bytes (bs ++ (v % 256) ∷ []) p) (v / 2 ^ 8) (len - 8)
  unfolding write_bytes append
  write_bytes-more h = ground (arith, low_byte v)

  write_bytes-last :
      0 < len
      → len < 8
      → v < 256
      → write_bytes (suc fuel) (full_bytes bs p) v len
        ≡ ok (record { data_bytes = bs ++ v ∷ []; byte_pos = p; bit_pos = len })
  unfolding write_bytes append
  write_bytes-last h l small = ground arith

  write_bytes-none : len ≡ 0 → write_bytes (suc fuel) (full_bytes bs p) v len ≡ ok (full_bytes bs p)
  unfolding write_bytes
  write_bytes-none h = ground arith

-- Up to seven bits are a last byte of their own.
pub under_byte : (v len : ℕ) → len < 8 → v < 2 ^ len → v < 256
under_byte v len h small = grind (arith, pow-split len (8 - len), pow_pos (8 - len))

two_parts :
    (ds : List ℕ) (k v len : ℕ)
    → k ≤ len
    → (ds ++ digits k v) ++ digits (len - k) (v / 2 ^ k) ≡ ds ++ digits len v
two_parts ds k v len h =
    let e : k + (len - k) ≡ len = omega arith in
    append_assoc ds (digits k v) (digits (len - k) (v / 2 ^ k))
    ∙ ap (◌++◌ ds) (sym (digits_split k (len - k) v) ∙ ap (λ n. digits n v) e)

module _ (p : Option ℕ) where
  write_bytes_end :
      (fuel : ℕ) (bs : List ℕ) (v len : ℕ)
      → len < 8
      → Fits bs 0
      → v < 2 ^ len
      → (t : BitStream) × (write_bytes (suc fuel) (full_bytes bs p) v len ≡ ok t)
        × Wrote (full_bytes bs p) v len t
  write_bytes_end fuel bs v len small fits h = elim (dec_lt 0 len) [
    | yes pos ↦ (
      record { data_bytes = bs ++ v ∷ []; byte_pos = p; bit_pos = len },
      write_bytes-last p fuel bs v len pos small (under_byte v len small h),
      record {
        fits = Fits-append bs v len fits small (rw (width_pos len pos) h);
        same = bits-append bs v len ∙ ap (λ k. bits bs 0 ++ digits k v) (width_pos len pos);
        kept = refl;
      },
    )
    | no done ↦
        let e : len ≡ 0 = omega arith in
        (
          full_bytes bs p,
          write_bytes-none p fuel bs v len e,
          record { fits = fits; same = rw e (sym (append-nil (bits bs 0))); kept = refl },
        )
  ]

  write_bytes_lem :
      (fuel : ℕ) (bs : List ℕ) (v len : ℕ)
      → len < fuel
      → Fits bs 0
      → v < 2 ^ len
      → (t : BitStream) × (write_bytes fuel (full_bytes bs p) v len ≡ ok t)
        × Wrote (full_bytes bs p) v len t
  write_bytes_lem zero bs v len f fits h = absurd (omega arith)
  write_bytes_lem (suc fuel) bs v len f fits h = elim (dec_lt len 8) [
    | yes small ↦ write_bytes_end fuel bs v len small fits h
    | no more ↦
        let e : 8 + (len - 8) ≡ len = omega arith in
        let (t, run, w) =
          write_bytes_lem fuel (bs ++ (v % 256) ∷ []) (v / 2 ^ 8) (len - 8) (omega arith)
            (Fits-append bs (v % 256) 0 fits (omega arith) (omega arith))
            (quotient_small v 8 (len - 8) (rw e h)) in
        (
          t,
          write_bytes-more p fuel bs v len (omega arith) ∙ run,
          record {
            fits = w.fits;
            same =
                w.same
                ∙ ap (λ ds. ds ++ digits (len - 8) (v / 2 ^ 8))
                    (bits-append bs (v % 256) 0 ∙ ap (◌++◌ (bits bs 0)) (digits-mod 8 v))
                ∙ two_parts (bits bs 0) 8 v len (omega arith);
            kept = w.kept;
          },
        )
  ]

write_aligned :
    (s : BitStream) (v w : ℕ)
    → IsWriter s
    → s.bit_pos ≡ 0
    → v < 2 ^ w
    → (t : BitStream) × (write_long s v w ≡ ok t) × Wrote s v w t
unfolding write_long
write_aligned s v w writer e h =
    let same : full_bytes s.data_bytes s.byte_pos ≡ s =
      λ i. record { data_bytes = s.data_bytes; byte_pos = s.byte_pos; bit_pos = sym e i } in
    subst (λ x. (t : BitStream) × (write_long x v w ≡ ok t) × Wrote x v w t) same
      (write_bytes_lem s.byte_pos (suc w) s.data_bytes v w (omega arith) (rw e at writer) h)

module _ (s : BitStream) (v w : ℕ) (pos : 0 < s.bit_pos) where
  write_long_step :
      (bs : List ℕ)
      → or_last s.data_bytes (bit_and (v * 2 ^ s.bit_pos) 0xff) ≡ ok bs
      → write_long s v w
        ≡ write_bytes
            (suc w)
            (full_bytes bs s.byte_pos)
            (v / 2 ^ (8 - s.bit_pos))
            (w - (8 - s.bit_pos))
  unfolding write_long
  write_long_step bs e = ground (arith, e)

  write_inside :
      IsWriter s
      → s.bit_pos < 8
      → 8 ≤ s.bit_pos + w
      → v < 2 ^ w
      → (t : BitStream) × (write_long s v w ≡ ok t) × Wrote s v w t
  write_inside writer l long h =
      let (bs, e, filled) = or_last_lem s.data_bytes s.bit_pos v pos l writer in
      let k : ℕ = 8 - s.bit_pos in
      let room : k ≤ w = omega arith in
      let sum : k + (w - k) ≡ w = omega arith in
      let (t, run, wrote) =
        write_bytes_lem s.byte_pos (suc w) bs (v / 2 ^ k) (w - k) (omega arith) filled.fits
          (quotient_small v k (w - k) (rw sum h)) in
      (
        t,
        write_long_step bs e ∙ run,
        record {
          fits = wrote.fits;
          same =
              wrote.same
              ∙ ap (λ ds. ds ++ digits (w - k) (v / 2 ^ k)) filled.same
              ∙ two_parts (written s) k v w room;
          kept = wrote.kept;
        },
      )

-- On a stream whose last byte holds `bit_pos` bits, a value of `w` bits that fills this byte up is
-- written with no exception: the bits of the stream are then the old ones and the digits of the
-- value, lowest first, and the new stream has the same form.
pub write_lem :
    (s : BitStream) (v w : ℕ)
    → IsWriter s
    → 8 ≤ s.bit_pos + w
    → v < 2 ^ w
    → (t : BitStream) × (write s v w ≡ ok t) × Wrote s v w t
write_lem s v w writer long h =
    let l : s.bit_pos < 8 = Fits-lt s.data_bytes s.bit_pos writer in
    elim (dec_lt 0 s.bit_pos) [
      | yes pos ↦ by_long (write_inside s v w pos writer l long h)
      | no aligned ↦ by_long (write_aligned s v w writer (omega arith) h)
    ]
  where
    long_case : write s v w ≡ write_long s v w
    long_case = unfold write in ground arith

    by_long :
        (t : BitStream) × (write_long s v w ≡ ok t) × Wrote s v w t
        → (t : BitStream) × (write s v w ≡ ok t) × Wrote s v w t
    by_long (t, run, wrote) = (t, long_case ∙ run, wrote)
