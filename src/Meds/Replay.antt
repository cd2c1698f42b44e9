-- ===== src/Meds/Replay.antt =====
-- The rounds of `crypto_sign_open` of sage-ref/meds.py on the answers that `crypto_sign` gives.
use iis_meds.Prelude.{
  ℕ, suc, ◌+◌, ◌^◌, ◌<◌, ◌≤◌, true, List, [], ◌∷◌, ◌++◌, All, length, length-append, append_assoc,
  false, ltb→lt, ok, ok-injective, if◌then◌else◌, ltb, Bool-cases, inl, inr, ◌≡◌, refl, ap, sym,
  ◌∙◌, subst, arith, bind-ok,
}
use iis_meds.Logarithm.{ceil_log2}
use iis_meds.Params.{Param}
use iis_meds.Sage.{Field, Matrices}
use iis_meds.SeedTree.{SeedTree, Value, item, get_item, Node, leaf, inner}
use iis_meds.SeedTree.Items.{get_item_total}
use iis_meds.Shake.{Shake}
use iis_meds.Meds.{
  commit, commit_all, third, answer, responses, check_response, check_round, check_rounds,
}
use iis_meds.Meds.Responses.{KeepSquares}
use iis_meds.Meds.Answers.{AreMatching, commit-Moves, check_response-answer}
use iis_meds.Meds.Rerun.{LeftAbove, LeftAbove-refl, commit-Again}
use iis_meds.Meds.Squares.{IsSquare, commit-IsRegular}

get_item-inside : {n : ℕ} (t : Node n) (key : ℕ) {v : Value} → get_item t key ≡ ok v → key < 2 ^ n
unfolding get_item
get_item-inside (leaf v) key e = elim (Bool-cases (ltb key (2 ^ 0))) [
  | inl low ↦ ltb→lt key (2 ^ 0) low
  | inr high ↦ let refused = rw high at e in cc
]
get_item-inside (inner {n = n} v l r) key e = elim (Bool-cases (ltb key (2 ^ suc n))) [
  | inl low ↦ ltb→lt key (2 ^ suc n) low
  | inr high ↦ let refused = rw high at e in cc
]

-- The trees have the same seeds for the rounds from i on that are not marked.
abbrev pub Agree : List ℕ → ℕ → SeedTree → SeedTree → Type 0
Agree [] i sigma tau = Unit
Agree (x ∷ h) i sigma tau =
    (ltb 0 x ≡ false → item tau i ≡ item sigma i) × Agree h (i + 1) sigma tau

item-inside :
    (sigma tau : SeedTree) (i : ℕ)
    → i < 2 ^ sigma.height
    → item tau i ≡ item sigma i
    → i < 2 ^ tau.height
unfolding item
item-inside sigma tau i inside same =
    let (v, run) = get_item_total sigma.root i inside in get_item-inside tau.root i (same ∙ run)

Agree-LeftAbove :
    (h : List ℕ) (at i : ℕ) (sigma tau sigma' tau' : SeedTree)
    → at < i
    → i + length h ≤ 2 ^ sigma.height
    → LeftAbove at sigma sigma'
    → LeftAbove at tau tau'
    → Agree h i sigma tau
    → Agree h i sigma' tau'
Agree-LeftAbove [] at i sigma tau sigma' tau' above room left right agree = tt
Agree-LeftAbove (x ∷ h) at i sigma tau sigma' tau' above room left right (here, later) = (
  λ unmarked.
      let inside = item-inside sigma tau i (omega (arith, room)) (here unmarked) in
      right.same_item i above inside
      ∙ here unmarked
      ∙ sym (left.same_item i above (omega (arith, room))),
  Agree-LeftAbove h at (i + 1) sigma tau sigma' tau' (omega arith) (omega (arith, room)) left right
      later,
)

module _ {F : Field} (S : Matrices F) (sh : Shake) (p : Param) (fuel : ℕ) where
  -- One round of verification, where the signer has given `first` for it
  abbrev Checks :
      (x i : ℕ) (gs : List S.Mat) (alpha first : List ℕ) (g' : S.Mat) (tau tau' : SeedTree) → Type 0
  Checks x i gs alpha first g' tau tau' =
      (before after : List ℕ) (f : ℕ)
      → length before ≡ f
      → check_round S sh p fuel x i gs (before ++ first ++ after) f alpha tau
        ≡ ok (g', f + length first, tau')

  check_round-marked :
      (x i : ℕ) (gs : List S.Mat) (alpha first : List ℕ) (g' : S.Mat) (tau : SeedTree)
      → ltb 0 x ≡ true
      → ((before after : List ℕ) (f : ℕ)
          → length before ≡ f
          → check_response S sh p fuel (before ++ first ++ after) f gs x
            ≡ ok (g', f + length first))
      → Checks x i gs alpha first g' tau tau
  unfolding check_round
  check_round-marked x i gs alpha first g' tau marked answered before after f at_f =
      rw (marked, answered before after f at_f) refl

  check_round-unmarked :
      (x i : ℕ) (g : S.Mat) (more : List S.Mat) (alpha : List ℕ) (a b g' : S.Mat)
      (tau tau' : SeedTree)
      → ltb 0 x ≡ false
      → commit S sh p fuel fuel g alpha i tau ≡ ok (a, b, g', tau')
      → Checks x i (g ∷ more) alpha [] g' tau tau'
  unfolding check_round
  check_round-unmarked x i g more alpha a b g' tau tau' unmarked run before after f at_f =
      rw (unmarked, run) (ap (λ k. ok (g', k, tau')) (omega arith))

  check_rounds-next :
      (x : ℕ) (h : List ℕ) (i : ℕ) (gs : List S.Mat) (munu : List ℕ) (f : ℕ) (alpha : List ℕ)
      (tau tau' : SeedTree) (g' : S.Mat) (end : ℕ) (out : List S.Mat)
      → check_round S sh p fuel x i gs munu f alpha tau ≡ ok (g', end, tau')
      → check_rounds S sh p fuel h (i + 1) gs munu end alpha tau' ≡ ok out
      → check_rounds S sh p fuel (x ∷ h) i gs munu f alpha tau ≡ ok (g' ∷ out)
  unfolding check_rounds
  check_rounds-next x h i gs munu f alpha tau tau' g' end out e0 e1 = rw (e0, e1) refl

  module _ (g : S.Mat) (more a_inv b_inv : List S.Mat) (alpha : List ℕ) (field : F.order ≡ p.q)
      (long : 8 ≤ ceil_log2 p.q) (pos : (1 ≤ p.m) × (1 ≤ p.n)) (keep : KeepSquares S sh p fuel)
      (matching : AreMatching S sh p fuel g (g ∷ more) a_inv b_inv)
      (inverses : All (IsSquare S p.m) a_inv × All (IsSquare S p.n) b_inv) where
    Checks-commit :
        (x i : ℕ) (a b g' : S.Mat) (first : List ℕ) (sigma tau sigma' : SeedTree)
        → i < 2 ^ sigma.height
        → (ltb 0 x ≡ false → item tau i ≡ item sigma i)
        → commit S sh p fuel fuel g alpha i sigma ≡ ok (a, b, g', sigma')
        → (if ltb 0 x then answer S sh p fuel x a b a_inv b_inv else ok []) ≡ ok first
        → (tau' : SeedTree) × Checks x i (g ∷ more) alpha first g' tau tau'
          × LeftAbove i sigma sigma'
          × LeftAbove i tau tau'
    Checks-commit x i a b g' first sigma tau sigma' inside agree run answered =
        elim (Bool-cases (ltb 0 x)) [
          | inl marked ↦
              let (s2, _, left, _) =
                commit-Again S sh p fuel fuel g alpha i sigma sigma inside inside refl a b g' sigma'
                  run in
              (
                tau,
                check_round-marked x i (g ∷ more) alpha first g' tau marked (
                    check_response-answer S sh p fuel g (g ∷ more) a_inv b_inv x a b g' field long
                      pos keep matching inverses (ltb→lt 0 x marked)
                      (commit-IsRegular S sh p fuel fuel g alpha i sigma run)
                      (commit-Moves S sh p fuel fuel g alpha i sigma run) (rw marked at answered)),
                left,
                LeftAbove-refl i tau,
              )
          | inr unmarked ↦
              let same : [] ≡ first = ok-injective [] first (rw unmarked at answered) in
              let (tau', runs, left, right) =
                commit-Again S sh p fuel fuel g alpha i sigma tau inside
                  (item-inside sigma tau i inside (agree unmarked)) (agree unmarked) a b g' sigma'
                  run in
              (
                tau',
                subst (λ l. Checks x i (g ∷ more) alpha l g' tau tau') same
                    (check_round-unmarked x i g more alpha a b g' tau tau' unmarked runs),
                left,
                right,
              )
        ]

    -- From trees that agree on the unmarked rounds verification gets the signer's matrices.
    pub check_rounds-responses :
        (h : List ℕ) (i : ℕ) (sigma tau : SeedTree) {rounds : List (S.Mat × S.Mat × S.Mat)}
        {ret : List ℕ}
        → i + length h ≤ 2 ^ sigma.height
        → Agree h i sigma tau
        → commit_all S sh p fuel (length h) i g alpha sigma ≡ ok rounds
        → responses S sh p fuel h rounds a_inv b_inv ≡ ok ret
        → (before after : List ℕ) (f : ℕ) → length before ≡ f
        → check_rounds S sh p fuel h i (g ∷ more) (before ++ ret ++ after) f alpha tau
          ≡ ok (third S sh p fuel rounds)
    unfolding commit_all responses check_rounds third
    check_rounds-responses [] i sigma tau {rounds} room agree e run before after f at_f =
        let same : [] ≡ rounds = ok-injective [] rounds e in
        subst (λ l. ok [] ≡ ok (third S sh p fuel l)) same refl
    check_rounds-responses (x ∷ h) i sigma tau {rounds} {ret} room agree e run before after f at_f =
        let ((a, b, g', sigma'), run0, e0) =
          bind-ok (commit S sh p fuel fuel g alpha i sigma) _ e in
        let (rest, run1, e1) =
          bind-ok (commit_all S sh p fuel (length h) (i + 1) g alpha sigma') _ e0 in
        let same : (a, b, g') ∷ rest ≡ rounds = ok-injective _ rounds e1 in
        let run' : responses S sh p fuel (x ∷ h) ((a, b, g') ∷ rest) a_inv b_inv ≡ ok ret =
          subst (λ l. responses S sh p fuel (x ∷ h) l a_inv b_inv ≡ ok ret) (sym same) run in
        let (first, run2, e2) =
          bind-ok (if ltb 0 x then answer S sh p fuel x a b a_inv b_inv else ok []) _ run' in
        let (others, run3, e3) = bind-ok (responses S sh p fuel h rest a_inv b_inv) _ e2 in
        let joined : first ++ others ≡ ret = ok-injective _ ret e3 in
        let (tau', checks, left, right) =
          Checks-commit x i a b g' first sigma tau sigma' (omega (arith, room)) agree.0 run0 run2 in
        let apart : before ++ first ++ (others ++ after) ≡ before ++ ret ++ after =
          sym (append_assoc (before ++ first) others after)
          ∙ ap (λ xs. xs ++ after) (append_assoc before first others ∙ ap (◌++◌ before) joined) in
        let here : check_round S sh p fuel x i (g ∷ more) (before ++ ret ++ after) f alpha tau
            ≡ ok (g', f + length first, tau') =
          subst
            (λ l.
              check_round S sh p fuel x i (g ∷ more) l f alpha tau
              ≡ ok (g', f + length first, tau'))
            apart (checks before (others ++ after) f at_f) in
        let next : check_rounds S sh p fuel h (i + 1) (g ∷ more) (before ++ ret ++ after)
              (f + length first) alpha tau'
            ≡ ok (third S sh p fuel rest) =
          subst
            (λ l.
              check_rounds S sh p fuel h (i + 1) (g ∷ more) l (f + length first) alpha tau'
              ≡ ok (third S sh p fuel rest))
            (append_assoc (before ++ first) others after ∙ apart)
            (check_rounds-responses h (i + 1) sigma' tau'
              (rw left.same_height (omega (arith, room)))
              (Agree-LeftAbove h i (i + 1) sigma tau sigma' tau' (omega arith) (omega (arith, room))
                left right agree.1)
              run1 run3 (before ++ first) after (f + length first)
              (omega (arith, length-append before first, at_f))) in
        subst
          (λ l.
            check_rounds S sh p fuel (x ∷ h) i (g ∷ more) (before ++ ret ++ after) f alpha tau
            ≡ ok (third S sh p fuel l))
          same
          (check_rounds-next x h i (g ∷ more) (before ++ ret ++ after) f alpha tau tau' g'
            (f + length first) (third S sh p fuel rest) here next)
