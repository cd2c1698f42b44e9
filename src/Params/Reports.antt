-- ===== src/Params/Reports.antt =====
-- `dump`, `print_list`, `print_table` and `opt_tw` of sage-ref/params.py: what is printed about parameter
-- sets, and the search for t and w. `dump` prints the floating-point number `fiat_shamir` to five places;
-- that text, the table of `tabulate` and the comparison of `log2` with a bound are arguments.
use iis_meds.Prelude.{
  ℕ, zero, suc, ◌+◌, ◌-◌, ◌*◌, ◌^◌, List, [], ◌∷◌, ◌++◌, map, length, replicate, ltb, ◌&&◌, Bool,
  if◌then◌else◌, Option, none, some, Result, ok, raised, attribute_error, value_error, ◌==◌, ◌>>=◌,
}
use iis_meds.Text.{codes, decimal}
use iis_meds.Params.{Param, pk_size, sig_size}
use iis_meds.Params.Headers.{Named, name}

-- `f"{number:>width}"`
unfoldable pub padded : ℕ → ℕ → List ℕ
padded width number = let text = decimal number in replicate (width - length text) 32 ++ text

-- A printed line of a title and a number
unfoldable pub report : List ℕ → List ℕ → List ℕ
report title value = title ++ value ++ codes "\n"

-- `dump()`, where `security` is `f"{self.fiat_shamir:12.5f}"`
unfoldable pub dump : List ℕ → Param → List (List ℕ)
dump security p =
    codes "\n"
    ∷ report (codes "digest_bytes   = ") (decimal p.digest_bytes)
    ∷ report (codes "pub_seed_bytes = ") (decimal p.pub_seed_bytes)
    ∷ report (codes "sec_seed_bytes = ") (decimal p.sec_seed_bytes)
    ∷ report (codes "st_seed_bytes  = ") (decimal p.st_seed_bytes)
    ∷ report (codes "st_salt_bytes  = ") (decimal p.st_salt_bytes)
    ∷ codes "\n"
    ∷ report (codes "q = ") (padded 3 p.q)
    ∷ report (codes "n = ") (padded 3 p.n)
    ∷ report (codes "m = ") (padded 3 p.m)
    ∷ report (codes "s = ") (padded 3 p.s)
    ∷ report (codes "t = ") (padded 3 p.t)
    ∷ report (codes "w = ") (padded 3 p.w)
    ∷ report (codes "k = ") (padded 3 p.k)
    ∷ codes "\n"
    ∷ report (codes "pk size:      ") (padded 7 (pk_size p))
    ∷ report (codes "max sig size: ") (padded 7 (sig_size p))
    ∷ report (codes "sum:          ") (padded 7 (pk_size p + sig_size p))
    ∷ codes "\n"
    ∷ report (codes "FS security:   ") security
    ∷ codes "\n"
    ∷ []

-- `print_list()`
unfoldable pub print_list : List Named → List (List ℕ)
print_list sets = map (λ s. report (name s) []) sets

-- `range(first, first + count)`, downwards in the argument `count`
unfoldable pub count_from : ℕ → ℕ → List ℕ
count_from first zero = []
count_from first (suc count) = first ∷ count_from (first + 1) count

abbrev pub minimum : ℕ → ℕ → ℕ
minimum a b = if ltb b a then b else a

-- `loc`: all but s, t and w is that of `params[0]`.
unfoldable pub trial : Param → ℕ → ℕ → ℕ → Param
trial p s t w = record p { s = s; t = t; w = w }

-- The parameter sets that the two loops run through
unfoldable pub candidates : Param → ℕ → List ℕ → List Param
candidates p s [] = []
candidates p s (t ∷ ts) =
    map (λ w. trial p s t w) (count_from 1 (minimum t 100 - 1)) ++ candidates p s ts

-- `tmp`: at first it has nothing but a size, 100000000000000.
unfoldable pub least_size : Option Param → ℕ
least_size none = 100000000000000
least_size (some p) = sig_size p

-- What is printed about `tmp`: without a `pk_size` an AttributeError is raised.
unfoldable pub report_best : Option Param → Result (List ℕ)
report_best none = raised attribute_error
report_best (some p) = ok (
    codes "sig size: "
    ++ decimal (sig_size p)
    ++ codes "  pk size: "
    ++ decimal (pk_size p)
    ++ codes " -> t = "
    ++ decimal p.t
    ++ codes ", w = "
    ++ decimal p.w
    ++ codes "\n")

-- What `opt_tw` compares: `exceeds x b` is `log2(x) > b`, and `comb` is `math.comb`.
module _ (exceeds : ℕ → ℕ → Bool) (comb : ℕ → ℕ → ℕ) where
  -- `loc.fiat_shamir > st_seed_bytes * 8`, where `log2(0)` raises ValueError; a set has 1 ≤ s.
  unfoldable pub is_secure : Param → Result Bool
  is_secure p =
      let chances = comb p.t p.w * (p.s - 1) ^ p.w in
      if chances == 0 then raised value_error else ok (exceeds chances (p.st_seed_bytes * 8))

  -- The body of the loop
  unfoldable pub better : Option Param → Param → Result (Option Param)
  better tmp loc = do
    secure ← is_secure loc
    ok (if secure && ltb (sig_size loc) (least_size tmp) then some loc else tmp)

  unfoldable pub best : Option Param → List Param → Result (Option Param)
  best tmp [] = ok tmp
  best tmp (loc ∷ locs) = do next ← better tmp loc; best next locs

  -- `opt_tw(s, range_t)`
  unfoldable pub opt_tw : Param → ℕ → List ℕ → Result (List ℕ)
  opt_tw p s range_t = do tmp ← best none (candidates p s range_t); report_best tmp
