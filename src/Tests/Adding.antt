-- ===== src/Tests/Adding.antt =====
-- Matrices over the field of 251 elements where a product adds entries, so that the square ones are a
-- group: an instance of the laws that the key pair needs.
use mathlib.Core.HLevel.{Σ_prop_path}
use native.Mathlib.Bridge.{le_prop}
use native.Mathlib.Nat.{ℕ_set}
use iis_meds.Prelude.{
  ℕ, zero, suc, ◌+◌, ◌-◌, ◌*◌, ◌%◌, ◌==◌, ◌&&◌, List, [], ◌∷◌, map, length, if◌then◌else◌, false,
  ok-injective, ◌≡◌, refl, ap, sym, ◌∙◌, subst, arith,
}
use iis_meds.Sage.{Matrices}
use iis_meds.Util.Sampling.{pi}
use iis_meds.Util.Sampling.Linear.{Linear}
use iis_meds.Util.Sampling.Rows.{HasSize}
use iis_meds.Tests.Matrices.{gf251, Grid, grid, holding, grid-held, fill-full}

abbrev plus : gf251.El → gf251.El → gf251.El
plus x y = gf251.of_int ((x.0 + y.0) % 251)

abbrev minus : gf251.El → gf251.El
minus x = gf251.of_int ((251 - x.0) % 251)

El_same : (x y : gf251.El) → x.0 ≡ y.0 → x ≡ y
El_same x y e = Σ_prop_path (λ n. le_prop) e

plus_assoc : (x y z : gf251.El) → plus x (plus y z) ≡ plus (plus x y) z
plus_assoc x y z = El_same (plus x (plus y z)) (plus (plus x y) z) (omega arith)

plus-minus : (x y z : gf251.El) → plus (plus y (minus x)) (plus x z) ≡ plus y z
plus-minus x y z =
    let h = x.1 in El_same (plus (plus y (minus x)) (plus x z)) (plus y z) (omega arith)

abbrev plus_all : List gf251.El → List gf251.El → List gf251.El
plus_all (x ∷ xs) (y ∷ ys) = plus x y ∷ plus_all xs ys
plus_all xs ys = []

-- The reduced form of the system of seven equations: the unit matrix and a column of zeros
abbrev unit_rows : ℕ → List gf251.El
unit_rows zero = []
unit_rows (suc count) = gf251.of_int (if count % 9 == 1 then 1 else 0) ∷ unit_rows count

abbrev pub adding : Matrices gf251
adding = record {
  Mat = Grid;
  matrix = grid;
  nrows = λ a. a.rows;
  ncols = λ a. a.cols;
  entries = λ a. a.held.0;
  mul = λ a b.
      grid b.rows b.cols
        (if a.rows == b.rows && a.cols == b.cols then plus_all a.held.0 b.held.0 else b.held.0);
  inverse = λ a. grid a.rows a.cols (map minus a.held.0);
  is_invertible = λ a. a.rows == a.cols;
  echelon_form = λ a. grid a.rows a.cols (if a.rows == 7 then unit_rows 56 else a.held.0);
  length-entries = λ a. a.held.1;
  matrix-entries = grid-held;
  entries-matrix = λ r c xs h. fill-full (r * c) xs h;
  nrows-matrix = λ r c xs h. refl;
  ncols-matrix = λ r c xs h. refl;
}

abbrev quad : gf251.El → gf251.El → gf251.El → gf251.El → Grid
quad x y z w = grid 2 2 (x ∷ y ∷ z ∷ w ∷ [])

resized :
    (r c : ℕ) (a : Grid)
    → HasSize adding r c a
    → (z : (xs : List gf251.El) × (length xs ≡ r * c)) × (holding r c z ≡ a)
resized r c a size =
    let at : (z : (xs : List gf251.El) × (length xs ≡ a.rows * a.cols))
        → (w : (xs : List gf251.El) × (length xs ≡ r * c)) × (holding r c w
            ≡ holding a.rows a.cols z) =
      subst
        (λ i.
          (z : (xs : List gf251.El) × (length xs ≡ i * a.cols))
          → (w : (xs : List gf251.El) × (length xs ≡ r * c)) × (holding r c w ≡ holding i a.cols z))
        (sym size.0)
        (subst
          (λ j.
            (z : (xs : List gf251.El) × (length xs ≡ r * j))
            → (w : (xs : List gf251.El) × (length xs ≡ r * c)) × (holding r c w ≡ holding r j z))
          (sym size.1) (λ z. (z, refl))) in
    at a.held

-- A matrix of two rows and two columns has four entries.
quad_of_list :
    (xs : List gf251.El) (long : length xs ≡ 2 * 2)
    → (x y z w : gf251.El) × (quad x y z w ≡ holding 2 2 (xs, long))
quad_of_list [] long = absurd (omega (arith, long))
quad_of_list (x ∷ []) long = absurd (omega (arith, long))
quad_of_list (x ∷ y ∷ []) long = absurd (omega (arith, long))
quad_of_list (x ∷ y ∷ z ∷ []) long = absurd (omega (arith, long))
quad_of_list (x ∷ y ∷ z ∷ w ∷ []) long =
    (x, y, z, w, ap (holding 2 2) (Σ_prop_path (λ xs. ℕ_set (length xs) (2 * 2)) refl))
quad_of_list (x ∷ y ∷ z ∷ w ∷ v ∷ xs) long = absurd (omega (arith, long))

quad_of : (a : Grid) → HasSize adding 2 2 a → (x y z w : gf251.El) × (quad x y z w ≡ a)
quad_of a size =
    let (held, same) = resized 2 2 a size in
    let (x, y, z, w, e) = quad_of_list held.0 held.1 in (x, y, z, w, e ∙ same)

-- To prove something of all such matrices, prove it of those that are written by their entries.
by_quad :
    (P : Grid → Type 0)
    → ((x y z w : gf251.El) → P (quad x y z w))
    → (a : Grid) → HasSize adding 2 2 a
    → P a
by_quad P step a size = let (x, y, z, w, e) = quad_of a size in subst P e (step x y z w)

ap_quad :
    {x y z w x' y' z' w' : gf251.El}
    → x ≡ x'
    → y ≡ y'
    → z ≡ z'
    → w ≡ w'
    → quad x y z w ≡ quad x' y' z' w'
ap_quad e f g h i = quad (e i) (f i) (g i) (h i)

assoc_quad :
    (a v b : Grid)
    → HasSize adding 2 2 a
    → HasSize adding 2 2 v
    → HasSize adding 2 2 b
    → adding.mul a (adding.mul v b) ≡ adding.mul (adding.mul a v) b
assoc_quad a v b ha hv hb =
    by_quad (λ a. adding.mul a (adding.mul v b) ≡ adding.mul (adding.mul a v) b)
      (λ a0 a1 a2 a3.
        by_quad
          (λ v.
            adding.mul (quad a0 a1 a2 a3) (adding.mul v b)
            ≡ adding.mul (adding.mul (quad a0 a1 a2 a3) v) b)
          (λ v0 v1 v2 v3.
            by_quad
              (λ b.
                adding.mul (quad a0 a1 a2 a3) (adding.mul (quad v0 v1 v2 v3) b)
                ≡ adding.mul (adding.mul (quad a0 a1 a2 a3) (quad v0 v1 v2 v3)) b)
              (λ b0 b1 b2 b3.
                ap_quad (plus_assoc a0 v0 b0) (plus_assoc a1 v1 b1) (plus_assoc a2 v2 b2)
                  (plus_assoc a3 v3 b3))
              b hb)
          v hv)
      a ha

cancel_quad :
    (a c v : Grid)
    → HasSize adding 2 2 a
    → HasSize adding 2 2 c
    → HasSize adding 2 2 v
    → adding.mul (adding.mul c (adding.inverse a)) (adding.mul a v) ≡ adding.mul c v
cancel_quad a c v ha hc hv =
    by_quad (λ a. adding.mul (adding.mul c (adding.inverse a)) (adding.mul a v) ≡ adding.mul c v)
      (λ a0 a1 a2 a3.
        by_quad
          (λ c.
            adding.mul (adding.mul c (adding.inverse (quad a0 a1 a2 a3)))
              (adding.mul (quad a0 a1 a2 a3) v)
            ≡ adding.mul c v)
          (λ c0 c1 c2 c3.
            by_quad
              (λ v.
                adding.mul (adding.mul (quad c0 c1 c2 c3) (adding.inverse (quad a0 a1 a2 a3)))
                  (adding.mul (quad a0 a1 a2 a3) v)
                ≡ adding.mul (quad c0 c1 c2 c3) v)
              (λ v0 v1 v2 v3.
                ap_quad (plus-minus a0 c0 v0) (plus-minus a1 c1 v1) (plus-minus a2 c2 v2)
                  (plus-minus a3 c3 v3))
              v hv)
          c hc)
      a ha

echelon_still : (g : Grid) → g.rows ≡ 2 → adding.echelon_form g ≡ g
echelon_still g two =
    let other : (g.rows == 7) ≡ false = ground arith in
    ap (λ t. grid g.rows g.cols (if t then unit_rows 56 else g.held.0)) other ∙ grid-held g

pub adding-Linear : Linear adding 2 2 2
adding-Linear = record {
  invertible_square = λ a good. ground arith;
  mul_square = λ r a b ha hb. hb;
  mul_regular = λ r a b ha hb. hb.1;
  inverse_regular = λ r a ha. ha;
  mul_left = λ a v ha hv. hv;
  mul_right = λ v b hv hb. hb;
  mul_wide = λ a g ha hg. hg;
  mul_assoc = assoc_quad;
  cancel_left = λ a c v ha hc hv. cancel_quad a c v ha.0 hc hv;
  cancel_right = λ v b c hv hb hc. cancel_quad b v c hb.0 hv hc;
  echelon_size = λ a. (refl, refl);
  echelon_pi = λ a b g moved again ha hb size run run'. ap adding.echelon_form (
      sym (
        ok-injective moved again
          (sym run ∙ ap (pi adding a b) (sym (echelon_still g size.0)) ∙ run')));
}
