-- ===== src/Params/Search.antt =====
-- The search `opt_tw` of sage-ref/params.py.
use iis_meds.Prelude.{
  ℕ, zero, suc, ◌+◌, ◌-◌, ◌*◌, ◌^◌, ◌≤◌, ◌<◌, List, [], ◌∷◌, map, All, All-append, All-left,
  All-right, get_elem?, ltb, ltb→lt, ◌&&◌, Bool, true, false, Bool-cases, if◌then◌else◌, Option,
  none, some, ok, raised, attribute_error, ◌==◌, ◌≡◌, refl, subst, ◌⊎◌, inl, inr, arith,
}
use native.Mathlib.Nat.{one-le-pow}
use iis_meds.Params.{Param, sig_size}
use iis_meds.Params.Reports.{
  count_from, minimum, is_secure, least_size, better, best, trial, candidates, report_best, opt_tw,
}

map_all {κ} :
    {A B : Type 0} (P : B → Type κ) (f : A → B) (xs : List A)
    → All (λ x. P (f x)) xs
    → All P (map f xs)
map_all P f [] h = tt
map_all P f (x ∷ xs) h = (h.0, map_all P f xs h.1)

all_map {κ} :
    {A B : Type 0} (P : B → Type κ) (f : A → B) (xs : List A)
    → All P (map f xs)
    → All (λ x. P (f x)) xs
all_map P f [] h = tt
all_map P f (x ∷ xs) h = (h.0, all_map P f xs h.1)

count_from-All {κ} :
    (P : ℕ → Type κ) (first count : ℕ)
    → ((w : ℕ) → first ≤ w → w < first + count → P w)
    → All P (count_from first count)
unfolding count_from
count_from-All P first zero h = tt
count_from-All P first (suc count) h = (
  h first (omega arith) (omega arith),
  count_from-All P (first + 1) count (λ w le lt. h w (omega arith) (omega arith)),
)

All-count_from {κ} :
    (P : ℕ → Type κ) (first count w : ℕ)
    → All P (count_from first count)
    → first ≤ w
    → w < first + count
    → P w
unfolding count_from
All-count_from P first zero w h le lt = absurd (omega arith)
All-count_from P first (suc count) w h le lt = elim (Bool-cases (ltb first w)) [
  | inl e ↦ All-count_from P (first + 1) count w h.1 (omega (arith, ltb→lt first w e)) (omega arith)
  | inr e ↦ subst P (ground arith) h.0
]

-- Every claim on the sets that are tried is one on their t and w.
module _ (p : Param) (s : ℕ) where
  tried-All :
      (P : Param → Type 0) (range_t : List ℕ)
      → ((i t w : ℕ) → get_elem? range_t i ≡ some t → 1 ≤ w → w < t → w < 100 → P (trial p s t w))
      → All P (candidates p s range_t)
  unfolding candidates
  tried-All P [] h = tt
  tried-All P (t ∷ ts) h =
      All-append P _ (candidates p s ts)
        (map_all P _ (count_from 1 (minimum t 100 - 1)) (
          count_from-All _ 1 (minimum t 100 - 1)
            (λ w le lt. h 0 t w refl le (ground arith) (ground arith))))
        (tried-All P ts (λ i t' w e. h (suc i) t' w e))

  All-tried :
      (P : Param → Type 0) (range_t : List ℕ)
      → All P (candidates p s range_t)
      → (i t w : ℕ) → get_elem? range_t i ≡ some t
      → 1 ≤ w
      → w < t
      → w < 100
      → P (trial p s t w)
  unfolding candidates
  All-tried P [] h i t w e le lt lt' = absurd cc
  All-tried P (t' ∷ ts) h zero t w e le lt lt' =
      let same : t' ≡ t = cc in
      subst (λ x. P (trial p s x w)) same
        (All-count_from _ 1 (minimum t' 100 - 1) w
          (all_map P _ _ (All-left P _ (candidates p s ts) h)) le (ground arith))
  All-tried P (t' ∷ ts) h (suc i) t w e le lt lt' =
      All-tried P ts (All-right P _ (candidates p s ts) h) i t w e le lt lt'

pos_product : (a b : ℕ) → 1 ≤ a → 1 ≤ b → 1 ≤ a * b
pos_product zero b h k = absurd (omega arith)
pos_product (suc a) zero h k = absurd (omega arith)
pos_product (suc a) (suc b) h k = omega arith

nonzero : (n : ℕ) → 1 ≤ n → (n == 0) ≡ false
nonzero n h = ground arith

module _ (exceeds : ℕ → ℕ → Bool) (comb : ℕ → ℕ → ℕ) where
  abbrev chances : Param → ℕ
  chances p = comb p.t p.w * (p.s - 1) ^ p.w

  abbrev pub IsSecure : Param → Type 0
  IsSecure p = exceeds (chances p) (p.st_seed_bytes * 8) ≡ true

  is_secure_lem :
      (p : Param)
      → 1 ≤ chances p
      → is_secure exceeds comb p ≡ ok (exceeds (chances p) (p.st_seed_bytes * 8))
  unfolding is_secure
  is_secure_lem p h = rw (nonzero (chances p) h) refl

  -- The best of some sets: no larger than what was best before, nor than any of them that is secure.
  module _ (P : Option Param → Type 0) where
    better-lem :
        (tmp : Option Param) (loc : Param)
        → 1 ≤ chances loc
        → P tmp
        → (IsSecure loc → P (some loc))
        → (r : Option Param) × (better exceeds comb tmp loc ≡ ok r)
          × P r
          × (least_size r ≤ least_size tmp)
          × (IsSecure loc → least_size r ≤ sig_size loc)
    unfolding better least_size
    better-lem tmp loc h pt pl =
        let secure = exceeds (chances loc) (loc.st_seed_bytes * 8) in
        let less = ltb (sig_size loc) (least_size tmp) in
        let chosen : better exceeds comb tmp loc ≡ ok (if secure && less then some loc else tmp) =
          rw (is_secure_lem loc h) refl in
        elim (Bool-cases (secure && less)) [
          | inl e ↦ (some loc, rw e at chosen, pl (ground arith), ground arith, λ h. omega arith)
          | inr e ↦ (tmp, rw e at chosen, pt, omega arith, λ h. ground arith)
        ]

    best-lem :
        (tmp : Option Param) (locs : List Param)
        → All (λ loc. 1 ≤ chances loc) locs
        → P tmp
        → All (λ loc. IsSecure loc → P (some loc)) locs
        → (r : Option Param) × (best exceeds comb tmp locs ≡ ok r)
          × P r
          × (least_size r ≤ least_size tmp)
          × All (λ loc. IsSecure loc → least_size r ≤ sig_size loc) locs
    unfolding best
    best-lem tmp [] h pt pl = (tmp, refl, pt, omega arith, tt)
    best-lem tmp (loc ∷ locs) h pt pl =
        let (next, e, pn, le, least) = better-lem tmp loc h.0 pt pl.0 in
        let (r, e', pr, le', all) = best-lem next locs h.1 pn pl.1 in
        (r, rw e e', pr, omega arith, (λ secure. omega (arith, least secure), all))

  module _ (p : Param) (s : ℕ) (range_t : List ℕ) where
    -- t is in the range, and w is below t and below 100.
    abbrev IsTried : Param → Type 0
    IsTried loc =
        (i : ℕ) × (t : ℕ) × (w : ℕ) × (get_elem? range_t i ≡ some t)
        × (1 ≤ w)
        × (w < t)
        × (w < 100)
        × (loc ≡ trial p s t w)

    -- No secure set that is tried has a signature of less than `size` bytes.
    abbrev IsLeast : ℕ → Type 0
    IsLeast size =
        (i t w : ℕ)
        → get_elem? range_t i ≡ some t
        → 1 ≤ w
        → w < t
        → w < 100
        → IsSecure (trial p s t w)
        → size ≤ sig_size (trial p s t w)

    abbrev pub HasBest : Type 0
    HasBest =
        (loc : Param) × IsTried loc
        × IsSecure loc
        × IsLeast (sig_size loc)
        × (opt_tw exceeds comb p s range_t ≡ report_best (some loc))

    abbrev pub HasNone : Type 0
    HasNone = IsLeast 100000000000000 × (opt_tw exceeds comb p s range_t ≡ raised attribute_error)

    -- What holds of `tmp` after the loops
    abbrev IsChoice : Option Param → Type 0
    IsChoice none = Unit
    IsChoice (some loc) = IsTried loc × IsSecure loc

    reported :
        (r : Option Param)
        → best exceeds comb none (candidates p s range_t) ≡ ok r
        → IsChoice r
        → IsLeast (least_size r)
        → HasBest ⊎ HasNone
    unfolding opt_tw report_best least_size
    reported none e choice least = inr (least, rw e refl)
    reported (some loc) e choice least = inl (loc, choice.0, choice.1, least, rw e refl)

    -- With 2 ≤ s, and where a binomial coefficient is positive, opt_tw reports a secure set that it tries and
    -- whose signature is the shortest among these; it raises AttributeError only where no secure set that it
    -- tries has a signature of less than 100000000000000 bytes.
    pub opt_tw-HasBest : 2 ≤ s → ((t w : ℕ) → w ≤ t → 1 ≤ comb t w) → HasBest ⊎ HasNone
    unfolding trial
    opt_tw-HasBest h positive =
        let some_chance =
          tried-All p s (λ loc. 1 ≤ chances loc) range_t
            (λ i t w e le lt lt'.
              pos_product (comb t w) ((s - 1) ^ w) (positive t w (omega arith))
                (one-le-pow w (s - 1) (omega arith))) in
        let allowed =
          tried-All p s (λ loc. IsSecure loc → IsTried loc × IsSecure loc) range_t
            (λ i t w e le lt lt' secure. ((i, t, w, e, le, lt, lt', refl), secure)) in
        let (r, e, choice, le, least) =
          best-lem IsChoice none (candidates p s range_t) some_chance tt allowed in
        reported r e choice
          (All-tried p s (λ loc. IsSecure loc → least_size r ≤ sig_size loc) range_t least)
