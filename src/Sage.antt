-- ===== src/Sage.antt =====
-- The parts of Sage that the program calls: a prime field, and matrices over it. Sage is no code of
-- this repository, so its operations are fields of a record, with the laws that its manual states.
use iis_meds.Prelude.{
  ℕ, ◌+◌, ◌*◌, ◌-◌, ◌%◌, ◌==◌, ◌<◌, ◌&&◌, ltb, if◌then◌else◌, List, length, get_or, Bool, ◌≡◌,
  Result, ok, raised, index_error,
}

pub record Field : Type 1 where
  -- The elements of `GF(order)`.
  pub El : Type 0
  pub order : ℕ
  -- `GFq(v)` and `int(x)`
  pub of_int : ℕ → El
  pub to_int : El → ℕ
  pub to_int-lt : (x : El) → to_int x < order
  pub to_int-of_int : (v : ℕ) → v < order → to_int (of_int v) ≡ v
  pub of_int-to_int : (x : El) → of_int (to_int x) ≡ x

-- Arithmetic of the prime field on the numbers below its order: `x + y`, `x * y`, `-x`, and `x == v`
-- for an integer v, which Sage brings into the field.
module _ (F : Field) where
  abbrev pub add : F.El → F.El → F.El
  add x y = F.of_int ((F.to_int x + F.to_int y) % F.order)

  abbrev pub times : F.El → F.El → F.El
  times x y = F.of_int (F.to_int x * F.to_int y % F.order)

  abbrev pub neg : F.El → F.El
  neg x = F.of_int ((F.order - F.to_int x) % F.order)

  abbrev pub equals : F.El → ℕ → Bool
  equals x v = F.to_int x == v % F.order

pub record Matrices (F : Field) : Type 1 where
  pub Mat : Type 0
  -- `matrix(GFq, r, c, entries)`, the dimensions, and the entries row by row.
  pub matrix : ℕ → ℕ → List F.El → Mat
  pub nrows : Mat → ℕ
  pub ncols : Mat → ℕ
  pub entries : Mat → List F.El
  -- `A * B`, `A.inverse()`, `A.is_invertible()`, `A.echelon_form()`
  pub mul : Mat → Mat → Mat
  pub inverse : Mat → Mat
  pub is_invertible : Mat → Bool
  pub echelon_form : Mat → Mat
  pub length-entries : (a : Mat) → length (entries a) ≡ nrows a * ncols a
  pub matrix-entries : (a : Mat) → matrix (nrows a) (ncols a) (entries a) ≡ a
  pub entries-matrix : (r c : ℕ) (xs : List F.El) → length xs ≡ r * c → entries (matrix r c xs) ≡ xs
  pub nrows-matrix : (r c : ℕ) (xs : List F.El) → length xs ≡ r * c → nrows (matrix r c xs) ≡ r
  pub ncols-matrix : (r c : ℕ) (xs : List F.El) → length xs ≡ r * c → ncols (matrix r c xs) ≡ c

-- `M[i, j]`, an IndexError past the ends
unfoldable pub entry : {F : Field} (S : Matrices F) → S.Mat → ℕ → ℕ → Result F.El
entry {F} S a i j =
    if ltb i (S.nrows a) && ltb j (S.ncols a)
    then ok (get_or (S.entries a) (i * S.ncols a + j) (F.of_int 0))
    else raised index_error
