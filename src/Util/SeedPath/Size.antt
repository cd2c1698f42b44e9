-- ===== src/Util/SeedPath/Size.antt =====
-- The path has room for every choice of `w` marked leaves.
use iis_meds.Prelude.{
  ℕ, zero, suc, ◌+◌, ◌-◌, ◌*◌, ◌^◌, ◌≤◌, ◌<◌, List, [], ◌∷◌, ◌++◌, length, length-append,
  length-replicate, replicate, ltb, if◌then◌else◌, true, ◌≡◌, ◌∙◌, arith, ok, Bool-cases, inl, inr,
}
use iis_meds.Logarithm.{ceil_log2, le-ceil_log2}
use iis_meds.Shake.{Shake}
use iis_meds.Params.{Param, seed_tree_cost, seed_max_tree_len}
use iis_meds.Util.Hashing.{hash_pair}
use iis_meds.SeedTree.{Value, seed, truthy, Node, build, get_item, delete, path}
use iis_meds.SeedTree.Items.{get_item-delete}
use iis_meds.SeedTree.Deleted.{deleted, deleted-delete}
use iis_meds.SeedTree.Patch.{All-path}
use iis_meds.SeedTree.Count.{deleted-build, get_item-build, Counted-path}
use iis_meds.Util.SeedPath.{seed_tree_to_path}
use iis_meds.Util.SeedPath.Marks.{delete_all}
use iis_meds.Util.SeedPath.RoundTrip.{
  IsSeed, IsSeed-truthy, hash_pair-IsSeed, join_lem, signed, trees_Mirror, to_path-signed,
}

-- The entries that mark a leaf.
abbrev pub weight : List ℕ → ℕ
weight [] = 0
weight (x ∷ h) = if ltb 0 x then suc (weight h) else weight h

-- Every leaf from `i` on has a value.
abbrev LiveFrom : {n : ℕ} → ℕ → Node n → Type 0
LiveFrom {n} i a =
    (j : ℕ) → i ≤ j → j < 2 ^ n → (v : Value) × (get_item a j ≡ ok v) × (truthy v ≡ true)

LiveFrom-delete :
    {n : ℕ} (i : ℕ) (a : Node n) → i < 2 ^ n → LiveFrom i a → LiveFrom (i + 1) (delete a i)
LiveFrom-delete i a lt live j le lt' =
    let (v, e, l) = live j (omega arith) lt' in
    (v, get_item-delete a i j lt lt' ∙ ground (arith, e), l)

deleted-delete_all :
    {n : ℕ} (i : ℕ) (h : List ℕ) (a : Node n)
    → i + length h ≤ 2 ^ n
    → LiveFrom i a
    → deleted (delete_all i h a) ≡ deleted a + weight h
unfolding delete_all
deleted-delete_all i [] a fits live = omega arith
deleted-delete_all i (x ∷ h) a fits live = elim (Bool-cases (ltb 0 x)) [
  | inl e ↦
      let (v, g, l) = live i (omega arith) (omega arith) in
      rw e (
        omega (
          arith,
          deleted-delete a i (omega arith) g l,
          deleted-delete_all (i + 1) h (delete a i) (omega arith)
              (LiveFrom-delete i a (omega arith) live),
        ))
  | inr e ↦ rw e (deleted-delete_all (i + 1) h a (omega arith) (λ j le lt. live j (omega arith) lt))
]

padded_size :
    (bytes : List ℕ) (cost : ℕ)
    → length bytes ≤ cost
    → length (bytes ++ replicate (cost - length bytes) 0) ≡ cost
padded_size bytes cost h = omega (
  arith,
  length-append bytes (replicate (cost - length bytes) 0),
  length-replicate (cost - length bytes) (zero),
)

cost_room :
    (len seed_bytes count room : ℕ)
    → len ≡ seed_bytes * count
    → count ≤ room
    → len ≤ room * seed_bytes
cost_room len seed_bytes count room e h = rw e (grind arith)

module _ (sh : Shake) (p : Param) (h root salt : List ℕ) where
  deleted-signed :
      0 < p.st_seed_bytes
      → length root ≡ p.st_seed_bytes
      → length h ≡ p.t
      → deleted (signed sh p h root salt) ≡ weight h
  deleted-signed pos len marks =
      let n : ℕ = ceil_log2 p.t in
      let f = hash_pair sh p salt in
      let live : (v : Value) → IsSeed p.st_seed_bytes v → truthy v ≡ true =
        λ v. IsSeed-truthy p.st_seed_bytes v pos in
      let grow = hash_pair-IsSeed sh p salt in
      let all_live : LiveFrom 0 (build n (seed root) f 0 0) = λ j le lt.
        let (v, e, s) =
          get_item-build f (IsSeed p.st_seed_bytes) live grow n 0 0 (seed root) j len lt in
        (v, e, live v s) in
      omega (
        arith,
        deleted-delete_all 0 h (build n (seed root) f 0 0) (omega (arith, le-ceil_log2 p.t))
            all_live,
        deleted-build f (IsSeed p.st_seed_bytes) live grow n 0 0 (seed root) len,
      )

  path_fits :
      0 < p.st_seed_bytes
      → length root ≡ p.st_seed_bytes
      → length h ≡ p.t
      → weight h ≡ p.w
      → 0 < p.w
      → length (path (signed sh p h root salt) p.t (ceil_log2 p.t) 0) ≤ seed_max_tree_len p
  unfolding seed_max_tree_len
  path_fits pos len marks w pos' =
      let live : (v : Value) → IsSeed p.st_seed_bytes v → truthy v ≡ true =
        λ v. IsSeed-truthy p.st_seed_bytes v pos in
      let counted =
        Counted-path (hash_pair sh p salt) (IsSeed p.st_seed_bytes) live
          (hash_pair-IsSeed sh p salt) p.t 0 (trees_Mirror sh p h root salt pos len marks) in
      let cut : deleted (signed sh p h root salt) ≡ p.w = deleted-signed pos len marks ∙ w in
      omega (arith, rw cut at (counted.some_cut (rw cut pos') (ceil_log2 p.w)))

  -- For `t` entries of which `w` are marks, at least one, the path takes `seed_tree_cost` bytes, padding
  -- included: no choice of the marked leaves needs more.
  pub length-seed_tree_to_path :
      0 < p.st_seed_bytes
      → length root ≡ p.st_seed_bytes
      → length h ≡ p.t
      → weight h ≡ p.w
      → 0 < p.w
      → (bytes : List ℕ) × (seed_tree_to_path sh h root salt p ≡ ok bytes)
        × (length bytes ≡ seed_tree_cost p)
  unfolding seed_tree_cost
  length-seed_tree_to_path pos len marks w pos' =
      let live : (v : Value) → IsSeed p.st_seed_bytes v → truthy v ≡ true =
        λ v. IsSeed-truthy p.st_seed_bytes v pos in
      let vs : List Value = path (signed sh p h root salt) p.t (ceil_log2 p.t) 0 in
      let (bytes, run, size, cut) = join_lem p.st_seed_bytes vs (
        All-path (hash_pair sh p salt) (IsSeed p.st_seed_bytes) live (hash_pair-IsSeed sh p salt)
          p.t 0 (trees_Mirror sh p h root salt pos len marks)) in
      (
        bytes ++ replicate (seed_tree_cost p - length bytes) 0,
        to_path-signed sh p h root salt run,
        padded_size bytes (seed_tree_cost p)
            (cost_room _ p.st_seed_bytes _ _ size (path_fits pos len marks w pos')),
      )
