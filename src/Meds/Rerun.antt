-- ===== src/Meds/Rerun.antt =====
-- A round that `crypto_sign_open` of sage-ref/meds.py runs again from the seed that the signer had.
use iis_meds.Prelude.{
  ℕ, zero, suc, ◌^◌, ◌<◌, List, [], ◌∷◌, ◌++◌, Option, some, none, Result, ok, ok-injective,
  eq-false, eq-true, ◌≡◌, refl, ap, sym, ◌∙◌, subst, bind-ok,
}
use iis_meds.Params.{Param}
use iis_meds.Sage.{Field, Matrices}
use iis_meds.SeedTree.{SeedTree, seed, Value, item, set_leaf}
use iis_meds.SeedTree.Leaves.{item-set_leaf}
use iis_meds.Shake.{Shake}
use iis_meds.Util.Hashing.{xof, to_bytes4}
use iis_meds.Util.Sampling.{expand_inv_mat, pi, sf}
use iis_meds.Meds.{seed_bytes, three, commit}

-- The tree has the same leaves above i.
pub record LeftAbove (i : ℕ) (t t' : SeedTree) : Type 0 where
  pub same_height : t'.height ≡ t.height
  pub same_item : (j : ℕ) → i < j → j < 2 ^ t.height → item t' j ≡ item t j

pub LeftAbove-refl : (i : ℕ) (t : SeedTree) → LeftAbove i t t
LeftAbove-refl i t = record { same_height = refl; same_item = λ j above inside. refl }

pub LeftAbove-trans :
    (i : ℕ) (t u w : SeedTree) → LeftAbove i t u → LeftAbove i u w → LeftAbove i t w
LeftAbove-trans i t u w first second = record {
  same_height = second.same_height ∙ first.same_height;
  same_item = λ j above inside.
      second.same_item j above (rw first.same_height inside) ∙ first.same_item j above inside;
}

-- What a set leaf has become, above it nothing else.
set_leaf-LeftAbove :
    (t : SeedTree) (i : ℕ) (new : Value)
    → i < 2 ^ t.height
    → (t' : SeedTree) × (set_leaf t i new ≡ ok t') × LeftAbove i t t' × (item t' i ≡ ok new)
set_leaf-LeftAbove t i new inside =
    let (t', run, high, items) = item-set_leaf t i new inside in
    (
      t',
      run,
      record {
        same_height = high;
        same_item = λ j above within. items j within ∙ rw (eq-false i j above) refl;
      },
      items i inside ∙ rw (eq-true i i refl) refl,
    )

module _ {F : Field} (S : Matrices F) (sh : Shake) (p : Param) (fuel : ℕ) where
  -- A run of `commit` on another tree, with the same result
  abbrev Again :
      (first second : Result (S.Mat × S.Mat × S.Mat × SeedTree)) (i : ℕ) (sigma tau : SeedTree)
      → Type 0
  Again first second i sigma tau =
      (a b g' : S.Mat) (sigma' : SeedTree)
      → first ≡ ok (a, b, g', sigma')
      → (tau' : SeedTree) × (second ≡ ok (a, b, g', tau'))
        × LeftAbove i sigma sigma'
        × LeftAbove i tau tau'

  settle-Again :
      (form : Option S.Mat) (x y : S.Mat) (i : ℕ) (sigma tau : SeedTree)
      (first second : Result (S.Mat × S.Mat × S.Mat × SeedTree))
      → Again first second i sigma tau
      → Again
          (elim form [ some g ↦ ok (x, y, g, sigma) | none ↦ first ])
          (elim form [ some g ↦ ok (x, y, g, tau) | none ↦ second ])
          i
          sigma
          tau
  settle-Again none x y i sigma tau first second later a b g' sigma' e = later a b g' sigma' e
  settle-Again (some g) x y i sigma tau first second later a b g' sigma' e =
      let same : (x, y, g, sigma) ≡ (a, b, g', sigma') = ok-injective _ _ e in
      (
        tau,
        ap (λ r. ok (r.0, r.1, r.2, tau)) same,
        subst (LeftAbove i sigma) (ap (λ r. r.3) same) (LeftAbove-refl i sigma),
        LeftAbove-refl i tau,
      )

  -- One try of `commit`, from what its parts give
  commit-try :
      (tries : ℕ) (g : S.Mat) (alpha : List ℕ) (i : ℕ) (tau : SeedTree) (v : Value)
      (bytes seed_a seed_b next : List ℕ) (t1 : SeedTree) (x y moved : S.Mat) (form : Option S.Mat)
      → item tau i ≡ ok v
      → seed_bytes v ≡ ok bytes
      → three (
          xof sh
            (alpha ++ bytes ++ to_bytes4 i)
            (p.pub_seed_bytes ∷ p.pub_seed_bytes ∷ p.st_seed_bytes ∷ []))
        ≡ ok (seed_a, seed_b, next)
      → set_leaf tau i (seed next) ≡ ok t1
      → expand_inv_mat S sh fuel seed_a p.m ≡ ok x
      → expand_inv_mat S sh fuel seed_b p.n ≡ ok y
      → pi S x y g ≡ ok moved
      → sf S moved ≡ ok form
      → commit S sh p fuel (suc tries) g alpha i tau
        ≡ elim form [ some g' ↦ ok (x, y, g', t1) | none ↦ commit S sh p fuel tries g alpha i t1 ]
  unfolding commit
  commit-try tries g alpha i tau v bytes seed_a seed_b next t1 x y moved form e0 e1 e2 e3 e4 e5 e6
        e7 =
      rw (e0, e1, e2, e3, e4, e5, e6, e7) refl

  -- Where the tree has the same seed for a round, the round gives the same matrices, and neither run
  -- changes the seeds of later rounds.
  pub commit-Again :
      (tries : ℕ) (g : S.Mat) (alpha : List ℕ) (i : ℕ) (sigma tau : SeedTree)
      → i < 2 ^ sigma.height
      → i < 2 ^ tau.height
      → item tau i ≡ item sigma i
      → Again
          (commit S sh p fuel tries g alpha i sigma)
          (commit S sh p fuel tries g alpha i tau)
          i
          sigma
          tau
  unfolding commit
  commit-Again zero g alpha i sigma tau ins int same a b g' sigma' e = cc
  commit-Again (suc tries) g alpha i sigma tau ins int same a b g' sigma' e =
      let (v, run0, e0) = bind-ok (item sigma i) _ e in
      let (bytes, run1, e1) = bind-ok (seed_bytes v) _ e0 in
      let ((seed_a, seed_b, next), run2, e2) =
        bind-ok
          (three (
            xof sh (alpha ++ bytes ++ to_bytes4 i)
              (p.pub_seed_bytes ∷ p.pub_seed_bytes ∷ p.st_seed_bytes ∷ [])))
          _ e1 in
      let (s1, run3, e3) = bind-ok (set_leaf sigma i (seed next)) _ e2 in
      let (x, run4, e4) = bind-ok (expand_inv_mat S sh fuel seed_a p.m) _ e3 in
      let (y, run5, e5) = bind-ok (expand_inv_mat S sh fuel seed_b p.n) _ e4 in
      let (moved, run6, e6) = bind-ok (pi S x y g) _ e5 in
      let (form, run7, e7) = bind-ok (sf S moved) _ e6 in
      let (s2, run_s, left_s, item_s) = set_leaf-LeftAbove sigma i (seed next) ins in
      let (t1, run_t, left_t, item_t) = set_leaf-LeftAbove tau i (seed next) int in
      let same_s : s2 ≡ s1 = ok-injective s2 s1 (sym run_s ∙ run3) in
      let left1 : LeftAbove i sigma s1 = subst (LeftAbove i sigma) same_s left_s in
      let item1 : item s1 i ≡ ok (seed next) =
        subst (λ t. item t i ≡ ok (seed next)) same_s item_s in
      let (tau', runs, later_s, later_t) =
        settle-Again form x y i s1 t1 (commit S sh p fuel tries g alpha i s1)
          (commit S sh p fuel tries g alpha i t1)
          (commit-Again tries g alpha i s1 t1 (rw left1.same_height ins) (rw left_t.same_height int)
            (item_t ∙ sym item1))
          a b g' sigma' e7 in
      (
        tau',
        commit-try tries g alpha i tau v bytes seed_a seed_b next t1 x y moved form (same ∙ run0)
              run1 run2 run_t run4 run5 run6 run7
            ∙ runs,
        LeftAbove-trans i sigma s1 sigma' left1 later_s,
        LeftAbove-trans i tau t1 tau' left_t later_t,
      )
