-- ===== src/Util/Challenge.antt =====
-- `PaseHash` of sage-ref/util.py: a digest gives t entries, of which w are chosen.
pub mod Choice
pub mod Enough
use iis_meds.Prelude.{
  ℕ, zero, suc, ◌+◌, ◌-◌, ◌*◌, ◌/◌, ◌^◌, bit_and, ltb, leb, if◌then◌else◌, ◌||◌, List, get_or, set,
  replicate, Result, ok, running, ◌>>=◌,
}
use iis_meds.Logarithm.{ceil_log2}
use iis_meds.Shake.{Shake}
use iis_meds.Params.{Param, bytes_for}

-- `for i in range(count): val += ord(shake.read(1)) << (i * 8)`, after `pos` bytes were read
unfoldable pub read_number : Shake → List ℕ → ℕ → ℕ → ℕ
read_number sh message pos zero = 0
read_number sh message pos (suc count) =
    sh.output message pos + read_number sh message (pos + 1) count * 2 ^ 8

-- A number of as many bytes as `bound` asks for, cut to its bits.
unfoldable pub masked : Shake → List ℕ → ℕ → ℕ → ℕ
masked sh message pos bound =
    bit_and (read_number sh message pos (bytes_for (ceil_log2 bound))) (2 ^ ceil_log2 bound - 1)

module _ (sh : Shake) (message : List ℕ) (prm : Param) where
  -- `while val < 1 or val > s - 1`. The loop starts at `val = 0`, so it reads once at least. The result
  -- is the value, and how many bytes have been read then.
  unfoldable pub pick : ℕ → ℕ → Result (ℕ × ℕ)
  pick zero pos = running
  pick (suc fuel) pos =
      let val = masked sh message pos prm.s in
      let read_to = pos + bytes_for (ceil_log2 prm.s) in
      let again = pick fuel read_to in
      if ltb val 1 || ltb (prm.s - 1) val then again else ok (val, read_to)

  -- `while num < w`
  unfoldable pub scatter : ℕ → List ℕ → ℕ → ℕ → Result (List ℕ)
  scatter zero h num pos = running
  scatter (suc fuel) h num pos =
      let at = masked sh message pos prm.t in
      let read_to = pos + bytes_for (ceil_log2 prm.t) in
      let again = scatter fuel h num read_to in
      let placed = (do (val, on) ← pick fuel read_to; scatter fuel (set h at val) (num + 1) on) in
      if ltb num prm.w
      then (if leb prm.t at then again else if ltb 0 (get_or h at 0) then again else placed)
      else ok h

-- `PaseHash(digest, params)`, with fuel for its loops
unfoldable pub parse_hash : Shake → ℕ → List ℕ → Param → Result (List ℕ)
unfolding scatter
parse_hash sh fuel message prm = scatter sh message prm fuel (replicate prm.t 0) 0 0
