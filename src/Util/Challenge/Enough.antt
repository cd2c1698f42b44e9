-- ===== src/Util/Challenge/Enough.antt =====
-- `PaseHash` comes to a result where the stream hits every value again and again.
use iis_meds.Prelude.{
  ℕ, zero, suc, ◌+◌, ◌-◌, ◌*◌, ◌≤◌, ◌<◌, ltb, leb, ◌||◌, List, [], ◌∷◌, length, get_or, set,
  replicate, Result, ok, ◌≡◌, refl, arith, Bool-cases, inl, inr, false, true, ◌⊎◌, lt→ltb,
  ltb-false,
}
use iis_meds.Shake.{Shake}
use iis_meds.Params.{Param, bytes_for}
use iis_meds.Logarithm.{ceil_log2}
use iis_meds.Util.Challenge.{masked, pick, scatter, parse_hash}
use iis_meds.Util.Challenge.Choice.{
  IsChoice, set-IsChoice, pick_range, replicate-IsChoice, parse_hash-IsChoice,
}
use iis_meds.Util.SeedPath.Size.{weight}

-- A run on fuel that gives one result from some fuel on.
pub record Settles {A : Type 0} (run : ℕ → Result A) : Type 0 where
  pub enough : ℕ
  pub result : A
  pub settled : (fuel : ℕ) → enough ≤ fuel → run fuel ≡ ok result

free_index : (h : List ℕ) → weight h < length h → (i : ℕ) × (i < length h) × (get_or h i 0 ≡ 0)
free_index [] lt = absurd (omega arith)
free_index (zero ∷ h) lt = (0, omega arith, refl)
free_index (suc x ∷ h) lt = let (i, l, e) = free_index h (ground arith) in (suc i, omega arith, e)

module _ (sh : Shake) (message : List ℕ) (prm : Param) where
  -- From every position on, a draw for an entry sooner or later gives each number below t, and a
  -- draw for a value one from 1 to s - 1.
  pub record Hits : Type 0 where
    pub entry :
        (pos i : ℕ)
        → i < prm.t
        → (j : ℕ) × (masked sh message (pos + j * bytes_for (ceil_log2 prm.t)) prm.t ≡ i)
    pub value :
        (pos : ℕ)
        → (j : ℕ) × (1 ≤ masked sh message (pos + j * bytes_for (ceil_log2 prm.s)) prm.s)
          × (masked sh message (pos + j * bytes_for (ceil_log2 prm.s)) prm.s ≤ prm.s - 1)

  in_range : (v s : ℕ) → 1 ≤ v → v ≤ s - 1 → (ltb v 1 || ltb (s - 1) v) ≡ false
  in_range v s lo hi = ground arith

  not_beyond : (t at : ℕ) → at < t → leb t at ≡ false
  not_beyond t at lt = ground arith

  scatter_over :
      (h : List ℕ) (num pos : ℕ)
      → prm.w ≤ num
      → Settles (λ fuel. scatter sh message prm fuel h num pos)
  unfolding scatter
  scatter_over h num pos full = record { enough = 1; result = h; settled = stop }
    where
      stop : (fuel : ℕ) → 1 ≤ fuel → scatter sh message prm fuel h num pos ≡ ok h
      stop zero l = absurd (omega arith)
      stop (suc fuel) l = rw (ltb-false num prm.w full) refl

  -- A value that is drawn at once
  pick_now :
      (pos : ℕ)
      → (ltb (masked sh message pos prm.s) 1 || ltb (prm.s - 1) (masked sh message pos prm.s))
        ≡ false
      → Settles (λ fuel. pick sh message prm fuel pos)
  unfolding pick
  pick_now pos test = record {
    enough = 1;
    result = (masked sh message pos prm.s, pos + bytes_for (ceil_log2 prm.s));
    settled = now;
  }
    where
      now :
          (fuel : ℕ)
          → 1 ≤ fuel
          → pick sh message prm fuel pos
            ≡ ok (masked sh message pos prm.s, pos + bytes_for (ceil_log2 prm.s))
      now zero l = absurd (omega arith)
      now (suc fuel) l = rw test refl

  pick_later :
      (pos : ℕ)
      → (ltb (masked sh message pos prm.s) 1 || ltb (prm.s - 1) (masked sh message pos prm.s))
        ≡ true
      → Settles (λ fuel. pick sh message prm fuel (pos + bytes_for (ceil_log2 prm.s)))
      → Settles (λ fuel. pick sh message prm fuel pos)
  unfolding pick
  pick_later pos test later = record {
    enough = suc later.enough;
    result = later.result;
    settled = next;
  }
    where
      next : (fuel : ℕ) → suc later.enough ≤ fuel → pick sh message prm fuel pos ≡ ok later.result
      next zero l = absurd (omega arith)
      next (suc fuel) l = rw test (later.settled fuel (omega arith))

  pick-Settles :
      (j pos : ℕ)
      → 1 ≤ masked sh message (pos + j * bytes_for (ceil_log2 prm.s)) prm.s
      → masked sh message (pos + j * bytes_for (ceil_log2 prm.s)) prm.s ≤ prm.s - 1
      → Settles (λ fuel. pick sh message prm fuel pos)
  pick-Settles zero pos lo hi =
      let e : pos + 0 * bytes_for (ceil_log2 prm.s) ≡ pos = omega arith in
      pick_now pos (in_range _ _ (rw e at lo) (rw e at hi))
  pick-Settles (suc j) pos lo hi =
      let b = bytes_for (ceil_log2 prm.s) in
      let e : pos + suc j * b ≡ (pos + b) + j * b = omega arith in
      elim (Bool-cases
        (ltb (masked sh message pos prm.s) 1 || ltb (prm.s - 1) (masked sh message pos prm.s))) [
          | inr good ↦ pick_now pos good
          | inl bad ↦ pick_later pos bad (pick-Settles j (pos + b) (rw e at lo) (rw e at hi))
        ]

  -- A round of the outer loop that draws no free entry
  scatter_later :
      (h : List ℕ) (num pos : ℕ)
      → num < prm.w
      → (leb prm.t (masked sh message pos prm.t) ≡ true)
        ⊎ ((leb prm.t (masked sh message pos prm.t) ≡ false)
            × (ltb 0 (get_or h (masked sh message pos prm.t) 0) ≡ true))
      → Settles (λ fuel. scatter sh message prm fuel h num (pos + bytes_for (ceil_log2 prm.t)))
      → Settles (λ fuel. scatter sh message prm fuel h num pos)
  unfolding scatter
  scatter_later h num pos more test later = record {
    enough = suc later.enough;
    result = later.result;
    settled = next;
  }
    where
      next :
          (fuel : ℕ)
          → suc later.enough ≤ fuel
          → scatter sh message prm fuel h num pos ≡ ok later.result
      next zero l = absurd (omega arith)
      next (suc fuel) l = elim test [
        | inl far ↦ rw (lt→ltb num prm.w more, far) (later.settled fuel (omega arith))
        | inr (near, taken) ↦
            rw (lt→ltb num prm.w more, near, taken) (later.settled fuel (omega arith))
      ]

  -- A round that fills a free entry
  scatter_place :
      (h : List ℕ) (num pos : ℕ)
      → num < prm.w
      → leb prm.t (masked sh message pos prm.t) ≡ false
      → ltb 0 (get_or h (masked sh message pos prm.t) 0) ≡ false
      → (drawn : Settles (λ fuel. pick sh message prm fuel (pos + bytes_for (ceil_log2 prm.t))))
      → Settles (λ fuel.
        scatter sh message prm fuel
          (set h (masked sh message pos prm.t) drawn.result.0)
          (num + 1)
          drawn.result.1)
      → Settles (λ fuel. scatter sh message prm fuel h num pos)
  unfolding scatter
  scatter_place h num pos more near free drawn later = record {
    enough = suc (drawn.enough + later.enough);
    result = later.result;
    settled = next;
  }
    where
      next :
          (fuel : ℕ)
          → suc (drawn.enough + later.enough) ≤ fuel
          → scatter sh message prm fuel h num pos ≡ ok later.result
      next zero l = absurd (omega arith)
      next (suc fuel) l =
          rw (lt→ltb num prm.w more, near, free, drawn.settled fuel (omega arith))
            (later.settled fuel (omega arith))

  module _ (hits : Hits) (h : List ℕ) (num : ℕ) (c : IsChoice prm num h) (more : num < prm.w)
      (ih : (h' : List ℕ) (pos : ℕ)
        → IsChoice prm (num + 1) h'
        → Settles (λ fuel. scatter sh message prm fuel h' (num + 1) pos)) where
    fill :
        (pos : ℕ)
        → leb prm.t (masked sh message pos prm.t) ≡ false
        → ltb 0 (get_or h (masked sh message pos prm.t) 0) ≡ false
        → Settles (λ fuel. scatter sh message prm fuel h num pos)
    fill pos near free =
        let (j, lo, hi) = hits.value (pos + bytes_for (ceil_log2 prm.t)) in
        let drawn = pick-Settles j (pos + bytes_for (ceil_log2 prm.t)) lo hi in
        let (low, high) =
          pick_range sh message prm drawn.enough (pos + bytes_for (ceil_log2 prm.t))
            {v = drawn.result.0} {on = drawn.result.1} (drawn.settled drawn.enough (omega arith)) in
        scatter_place h num pos more near free drawn (
          ih (set h (masked sh message pos prm.t) drawn.result.0) drawn.result.1 (
            set-IsChoice sh message prm h num (masked sh message pos prm.t) drawn.result.0
              (ground arith) (ground arith) low high c))

    reach :
        (i j pos : ℕ)
        → i < prm.t
        → get_or h i 0 ≡ 0
        → masked sh message (pos + j * bytes_for (ceil_log2 prm.t)) prm.t ≡ i
        → Settles (λ fuel. scatter sh message prm fuel h num pos)
    reach i zero pos lt free hit =
        let e : pos + 0 * bytes_for (ceil_log2 prm.t) ≡ pos = omega arith in
        let at = rw e at hit in fill pos (rw at (not_beyond _ _ lt)) (rw (at, free) refl)
    reach i (suc j) pos lt free hit =
        let b = bytes_for (ceil_log2 prm.t) in
        let e : pos + suc j * b ≡ (pos + b) + j * b = omega arith in
        let later = reach i j (pos + b) lt free (rw e at hit) in
        elim (Bool-cases (leb prm.t (masked sh message pos prm.t))) [
          | inl far ↦ scatter_later h num pos more (inl far) later
          | inr near ↦ elim (Bool-cases (ltb 0 (get_or h (masked sh message pos prm.t) 0))) [
            | inl taken ↦ scatter_later h num pos more (inr (near, taken)) later
            | inr room ↦ fill pos near room
          ]
        ]

  module _ (hits : Hits) (fits : prm.w ≤ prm.t) where
    scatter-Settles :
        (k : ℕ) (h : List ℕ) (num pos : ℕ)
        → num + k ≡ prm.w
        → IsChoice prm num h
        → Settles (λ fuel. scatter sh message prm fuel h num pos)
    scatter-Settles zero h num pos sum c = scatter_over h num pos (omega arith)
    scatter-Settles (suc k) h num pos sum c =
        let (i, lt, free) = free_index h (omega (arith, c.chosen, c.long)) in
        let (j, hit) = hits.entry pos i (omega (arith, c.long)) in
        reach hits h num c (omega arith)
          (λ h' pos' c'. scatter-Settles k h' (num + 1) pos' (omega arith) c') i j pos
          (omega (arith, c.long)) free hit

    -- Where w is at most t, and from every position on the stream gives each entry and some value
    -- sooner or later, there is an amount of fuel from which on `PaseHash` gives one list: t entries, of
    -- which w are from 1 to s - 1, and the others 0.
    pub parse_hash-Settles :
        (n : ℕ) × (h : List ℕ) × ((fuel : ℕ) → n ≤ fuel → parse_hash sh fuel message prm ≡ ok h)
        × IsChoice prm prm.w h
    unfolding parse_hash
    parse_hash-Settles =
        let run =
          scatter-Settles prm.w (replicate prm.t 0) 0 0 (omega arith)
            (replicate-IsChoice sh message prm) in
        (
          run.enough,
          run.result,
          run.settled,
          parse_hash-IsChoice sh message prm run.enough (run.settled run.enough (omega arith)),
        )
