-- ===== src/Shake.antt =====
-- `SHAKE256` of PyCryptodome, which this repository only calls: an object takes bytes by `update` and
-- then gives, by calls of `read`, the bytes of one endless stream, one after the other.
use iis_meds.Prelude.{ℕ, zero, suc, ◌+◌, ◌<◌, List, [], ◌∷◌, length, ◌≡◌, refl, ap}

-- `output message i` is byte `i` of the stream.
pub record Shake : Type 0 where
  pub output : List ℕ → ℕ → ℕ
  pub output-lt : (message : List ℕ) (i : ℕ) → output message i < 256

-- The bytes from `pos` on: `shake.read(count)` after `pos` bytes were read.
unfoldable pub read_from : Shake → List ℕ → ℕ → ℕ → List ℕ
read_from sh message pos zero = []
read_from sh message pos (suc count) = sh.output message pos ∷ read_from sh message (pos + 1) count

pub length-read_from :
    (sh : Shake) (message : List ℕ) (pos count : ℕ)
    → length (read_from sh message pos count) ≡ count
unfolding read_from
length-read_from sh message pos zero = refl
length-read_from sh message pos (suc count) = ap suc (length-read_from sh message (pos + 1) count)
