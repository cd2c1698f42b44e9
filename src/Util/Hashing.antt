-- ===== src/Util/Hashing.antt =====
-- `XOF`, `H` and `G` of sage-ref/util.py.
use iis_meds.Prelude.{ℕ, ◌+◌, ◌/◌, ◌%◌, List, [], ◌∷◌, ◌++◌, take, drop}
use iis_meds.Shake.{Shake, read_from}
use iis_meds.Params.{Param}
use iis_meds.SeedTree.{absent, seed, Derive}

-- `sum(length[:i])`
abbrev pub sum : List ℕ → ℕ
sum [] = 0
sum (n ∷ ns) = n + sum ns

-- `data[sum(length[:i]):sum(length[:i + 1])]` for each i
unfoldable pub pieces : List ℕ → List ℕ → List (List ℕ)
pieces bytes [] = []
pieces bytes (n ∷ ns) = take n bytes ∷ pieces (drop n bytes) ns

-- `XOF(seed, length)` for a list `length`
unfoldable pub xof : Shake → List ℕ → List ℕ → List (List ℕ)
unfolding read_from pieces
xof sh message lengths = pieces (read_from sh message 0 (sum lengths)) lengths

-- `H(params)(m)`
unfoldable pub digest : Shake → Param → List ℕ → List ℕ
unfolding read_from
digest sh p message = read_from sh message 0 p.digest_bytes

-- `i.to_bytes(4, "little")`, for i < 2 ** 32; Python raises OverflowError for a larger i.
abbrev pub to_bytes4 : ℕ → List ℕ
to_bytes4 i = i % 256 ∷ i / 256 % 256 ∷ i / 256 / 256 % 256 ∷ i / 256 / 256 / 256 % 256 ∷ []

-- `G(params, salt)`. Python raises TypeError for a value that is no seed; the tree is never given one
-- with this function.
unfoldable pub hash_pair : Shake → Param → List ℕ → Derive
unfolding read_from
hash_pair sh p salt (seed bytes) addr =
    let message = salt ++ bytes ++ to_bytes4 addr in
    (
      seed (read_from sh message 0 p.st_seed_bytes),
      seed (read_from sh message p.st_seed_bytes p.st_seed_bytes),
    )
hash_pair sh p salt v addr = (absent, absent)
