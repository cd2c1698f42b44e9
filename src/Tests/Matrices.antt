-- ===== src/Tests/Matrices.antt =====
-- The matrices of sage-ref/util.py over the field of 251 elements.
use mathlib.Core.HLevel.{Σ_prop_path}
use native.Mathlib.Bridge.{le_prop}
use native.Mathlib.Nat.{ℕ_set}
use iis_meds.Prelude.{
  ℕ, ◌+◌, ◌*◌, ◌/◌, ◌%◌, ◌<◌, ◌≤◌, List, [], ◌∷◌, ◌++◌, take, replicate, length, length-take,
  length-append, length-replicate, take-append, true, ◌≡◌, refl, arith, ok, ap,
}
use iis_meds.Logarithm.{ceil_log2, log_steps}
use iis_meds.Sage.{Field, Matrices}
use iis_meds.Util.Compress.{field_bits, compress, decompress}
use iis_meds.Util.Compress.RoundTrip.{decompress-compress}

abbrev pub gf251 : Field
gf251 = record {
  El = (v : ℕ) × (v < 251);
  order = 251;
  of_int = λ v. (v % 251, omega arith);
  to_int = λ x. x.0;
  to_int-lt = λ x. x.1;
  to_int-of_int = λ v h. omega arith;
  of_int-to_int = λ x. Σ_prop_path (λ n. le_prop) (let h = x.1 in omega arith);
}

pub record Grid : Type 0 where
  pub rows : ℕ
  pub cols : ℕ
  pub held : (xs : List gf251.El) × (length xs ≡ rows * cols)

abbrev pub fill : ℕ → List gf251.El → List gf251.El
fill n xs = take n (xs ++ replicate n (gf251.of_int 0))

pub length-fill : (n : ℕ) (xs : List gf251.El) → length (fill n xs) ≡ n
length-fill n xs = omega (
  arith,
  length-take n (xs ++ replicate n (gf251.of_int 0)),
  length-append xs (replicate n (gf251.of_int 0)),
  length-replicate n (gf251.of_int 0),
)

pub fill-full : (n : ℕ) (xs : List gf251.El) → length xs ≡ n → fill n xs ≡ xs
fill-full n xs h = take-append n xs (replicate n (gf251.of_int 0)) h

abbrev pub holding : (r c : ℕ) → (xs : List gf251.El) × (length xs ≡ r * c) → Grid
holding r c z = record { rows = r; cols = c; held = z }

abbrev pub grid : ℕ → ℕ → List gf251.El → Grid
grid r c xs = record { rows = r; cols = c; held = (fill (r * c) xs, length-fill (r * c) xs) }

pub grid-held : (a : Grid) → grid a.rows a.cols a.held.0 ≡ a
grid-held a = ap (holding a.rows a.cols) (
    Σ_prop_path (λ xs. ℕ_set (length xs) (a.rows * a.cols))
      (fill-full (a.rows * a.cols) a.held.0 a.held.1))

abbrev plain : Matrices gf251
plain = record {
  Mat = Grid;
  matrix = grid;
  nrows = λ a. a.rows;
  ncols = λ a. a.cols;
  entries = λ a. a.held.0;
  mul = λ a b. a;
  inverse = λ a. a;
  is_invertible = λ a. true;
  echelon_form = λ a. a;
  length-entries = λ a. a.held.1;
  matrix-entries = grid-held;
  entries-matrix = λ r c xs h. fill-full (r * c) xs h;
  nrows-matrix = λ r c xs h. refl;
  ncols-matrix = λ r c xs h. refl;
}

abbrev small : Grid
small = record { rows = 1; cols = 2; held = (gf251.of_int 7 ∷ gf251.of_int 250 ∷ [], refl) }

pub long : 8 ≤ field_bits gf251
unfolding ceil_log2 log_steps
long = omega arith

decompress-compress_example :
    (bs : List ℕ) × (compress plain small ≡ ok bs)
    × (length bs ≡ (field_bits gf251 * (1 * 2) + 7) / 8)
    × (decompress plain bs 1 2 ≡ ok small)
decompress-compress_example = decompress-compress plain small long (omega arith) (omega arith)
