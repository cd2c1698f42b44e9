-- ===== src/Util/Challenge/Choice.antt =====
-- What `PaseHash` returns: t entries, of which w are from 1 to s - 1, and the others 0.
use iis_meds.Prelude.{
  ℕ, zero, suc, ◌+◌, ◌-◌, ◌≤◌, ◌<◌, ltb, leb, List, [], ◌∷◌, All, length, get_or, set, replicate,
  ok, ◌>>=◌, length-set, All-set, All-replicate, length-replicate, ◌≡◌, refl, ◌∙◌, arith, bind-ok,
  subst, Bool-cases, inl, inr, false, true,
}
use iis_meds.Shake.{Shake}
use iis_meds.Params.{Param, bytes_for}
use iis_meds.Logarithm.{ceil_log2}
use iis_meds.Util.Challenge.{masked, pick, scatter, parse_hash}
use iis_meds.Util.SeedPath.Size.{weight}

-- `num` entries are chosen so far.
pub record IsChoice (prm : Param) (num : ℕ) (h : List ℕ) : Type 0 where
  pub long : length h ≡ prm.t
  pub chosen : weight h ≡ num
  pub small : All (λ x. x ≤ prm.s - 1) h

weight-set :
    (h : List ℕ) (i v : ℕ)
    → i < length h
    → get_or h i 0 ≡ 0
    → 0 < v
    → weight (set h i v) ≡ weight h + 1
weight-set [] i v lt e pos = absurd (omega arith)
weight-set (x ∷ h) zero v lt e pos = ground arith
weight-set (x ∷ h) (suc i) v lt e pos = ground (arith, weight-set h i v (omega arith) e pos)

weight-replicate : (n : ℕ) → weight (replicate n 0) ≡ 0
weight-replicate zero = refl
weight-replicate (suc n) = weight-replicate n

module _ (sh : Shake) (message : List ℕ) (prm : Param) where
  pub pick_range :
      (fuel pos : ℕ) {v on : ℕ}
      → pick sh message prm fuel pos ≡ ok (v, on)
      → (1 ≤ v) × (v ≤ prm.s - 1)
  unfolding pick
  pick_range zero pos e = cc
  pick_range (suc fuel) pos {v} {on} e =
      ground (arith, pick_range fuel (pos + bytes_for (ceil_log2 prm.s)) {v = v} {on = on})

  -- A round that comes to a result: the loop is over, goes on, or places one more value.
  data Round (fuel : ℕ) (h : List ℕ) (num pos : ℕ) (out : List ℕ) : Type 0 where
    over : prm.w ≤ num → h ≡ out → Round fuel h num pos out
    skip : (on : ℕ) → scatter sh message prm fuel h num on ≡ ok out → Round fuel h num pos out
    place :
        (at v on : ℕ)
        → num < prm.w
        → at < prm.t
        → get_or h at 0 ≡ 0
        → 1 ≤ v
        → v ≤ prm.s - 1
        → scatter sh message prm fuel (set h at v) (num + 1) on ≡ ok out
        → Round fuel h num pos out

  Round-cases :
      (fuel : ℕ) (h : List ℕ) (num pos : ℕ) {out : List ℕ}
      → scatter sh message prm (suc fuel) h num pos ≡ ok out
      → Round fuel h num pos out
  unfolding scatter
  Round-cases fuel h num pos {out} e = elim (Bool-cases (ltb num prm.w)) [
    | inr done ↦ over (ground arith) (ground arith)
    | inl more ↦ elim (Bool-cases (leb prm.t at)) [
      | inl far ↦ skip read_to (ground arith)
      | inr near ↦ elim (Bool-cases (ltb 0 (get_or h at 0))) [
        | inl taken ↦ skip read_to (ground arith)
        | inr free ↦
            let ((v, on), picked, placed) =
              bind-ok (pick sh message prm fuel read_to) _ (run more near free) in
            let (lo, hi) = pick_range fuel read_to picked in
            place at v on (ground arith) (ground arith) (ground arith) lo hi placed
      ]
    ]
  ]
    where
      at : ℕ
      at = masked sh message pos prm.t

      read_to : ℕ
      read_to = pos + bytes_for (ceil_log2 prm.t)

      run :
          ltb num prm.w ≡ true
          → leb prm.t at ≡ false
          → ltb 0 (get_or h at 0) ≡ false
          → (pick sh message prm fuel read_to >>= λ p.
              scatter sh message prm fuel (set h at p.0) (num + 1) p.1)
            ≡ ok out
      run more near free = rw (more, near, free) at e

  pub set-IsChoice :
      (h : List ℕ) (num at v : ℕ)
      → at < prm.t
      → get_or h at 0 ≡ 0
      → 1 ≤ v
      → v ≤ prm.s - 1
      → IsChoice prm num h
      → IsChoice prm (num + 1) (set h at v)
  set-IsChoice h num at v lt free lo hi c = record {
    long = length-set h at v ∙ c.long;
    chosen = omega (arith, c.chosen, weight-set h at v (omega (arith, c.long)) free lo);
    small = All-set (λ x. x ≤ prm.s - 1) h at v c.small hi;
  }

  Round-IsChoice :
      (fuel : ℕ) (h : List ℕ) (num pos : ℕ) {out : List ℕ}
      → ((k : List ℕ) (m on : ℕ)
          → IsChoice prm m k
          → m ≤ prm.w
          → scatter sh message prm fuel k m on ≡ ok out
          → IsChoice prm prm.w out)
      → IsChoice prm num h
      → num ≤ prm.w
      → Round fuel h num pos out
      → IsChoice prm prm.w out
  Round-IsChoice fuel h num pos ih c fits (over full same) =
      let e : num ≡ prm.w = omega arith in
      subst (IsChoice prm prm.w) same (subst (λ m. IsChoice prm m h) e c)
  Round-IsChoice fuel h num pos ih c fits (skip on e) = ih h num on c fits e
  Round-IsChoice fuel h num pos ih c fits (place at v on room lt free lo hi e) =
      ih (set h at v) (num + 1) on (set-IsChoice h num at v lt free lo hi c) (omega arith) e

  scatter-IsChoice :
      (fuel : ℕ) (h : List ℕ) (num pos : ℕ) {out : List ℕ}
      → IsChoice prm num h
      → num ≤ prm.w
      → scatter sh message prm fuel h num pos ≡ ok out
      → IsChoice prm prm.w out
  scatter-IsChoice zero h num pos c fits e = unfold scatter in cc
  scatter-IsChoice (suc fuel) h num pos {out} c fits e =
      Round-IsChoice fuel h num pos (λ k m on. scatter-IsChoice fuel k m on) c fits
        (Round-cases fuel h num pos e)

  pub replicate-IsChoice : IsChoice prm 0 (replicate prm.t 0)
  replicate-IsChoice = record {
    long = length-replicate prm.t zero;
    chosen = weight-replicate prm.t;
    small = All-replicate (λ x. x ≤ prm.s - 1) prm.t 0 (omega arith);
  }

  -- What `PaseHash` returns has t entries; exactly w of them are not 0, and each is at most s - 1.
  pub parse_hash-IsChoice :
      (fuel : ℕ) {h : List ℕ} → parse_hash sh fuel message prm ≡ ok h → IsChoice prm prm.w h
  unfolding parse_hash
  parse_hash-IsChoice fuel e =
      scatter-IsChoice fuel (replicate prm.t 0) 0 0 replicate-IsChoice (omega arith) e
