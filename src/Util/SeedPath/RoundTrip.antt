-- ===== src/Util/SeedPath/RoundTrip.antt =====
-- The verifier has back the seeds that are not deleted.
use iis_meds.Prelude.{
  ℕ, ◌+◌, ◌-◌, ◌*◌, ◌<◌, List, [], ◌∷◌, ◌++◌, All, length, length-append, take-append, drop-append,
  replicate, get_or, ltb, if◌then◌else◌, true, ◌≡◌, refl, ap, sym, ◌∙◌, arith, ok, append-nil,
  append_assoc, inl,
}
use iis_meds.Logarithm.{ceil_log2, le-ceil_log2}
use iis_meds.Shake.{Shake, length-read_from}
use iis_meds.Params.{Param, seed_tree_cost}
use iis_meds.Util.Hashing.{hash_pair}
use iis_meds.SeedTree.{
  Value, absent, object, seed, truthy, copy, Node, build, get_item, path, patch, make, item,
  seeds_path, patch_tree,
}
use iis_meds.SeedTree.Mirror.{Mirror, kept}
use iis_meds.SeedTree.Patch.{patch_lem, length-path, All-path}
use iis_meds.Util.SeedPath.{join, parse_path, seed_tree_to_path, path_to_seed_tree}
use iis_meds.Util.SeedPath.Marks.{
  delete_all, delete_marked-tree, marked, marked-get_or, get_item-delete_all, Mirror-delete_all,
}

-- A seed of `n` bytes.
abbrev pub IsSeed : ℕ → Value → Type 0
IsSeed n (seed bytes) = length bytes ≡ n
IsSeed n absent = ⊥
IsSeed n object = ⊥

pub IsSeed-truthy : (n : ℕ) (v : Value) → 0 < n → IsSeed n v → truthy v ≡ true
IsSeed-truthy n absent h e = absurd e
IsSeed-truthy n object h e = absurd e
IsSeed-truthy n (seed []) h e = absurd (omega arith)
IsSeed-truthy n (seed (b ∷ bs)) h e = refl

pub hash_pair-IsSeed :
    (sh : Shake) (p : Param) (salt : List ℕ) (v : Value) (addr : ℕ)
    → IsSeed p.st_seed_bytes v
    → IsSeed p.st_seed_bytes (hash_pair sh p salt v addr).0
      × IsSeed p.st_seed_bytes (hash_pair sh p salt v addr).1
unfolding hash_pair
hash_pair-IsSeed sh p salt absent addr e = absurd e
hash_pair-IsSeed sh p salt object addr e = absurd e
hash_pair-IsSeed sh p salt (seed bytes) addr e =
    (length-read_from sh _ 0 p.st_seed_bytes, length-read_from sh _ p.st_seed_bytes p.st_seed_bytes)

-- Seeds of `n` bytes are joined, and cut off again whatever follows them.
pub join_lem :
    (n : ℕ) (vs : List Value)
    → All (IsSeed n) vs
    → (bytes : List ℕ) × (join vs ≡ ok bytes)
      × (length bytes ≡ n * length vs)
      × ((rest : List ℕ) → parse_path n (length vs) (bytes ++ rest) ≡ vs)
unfolding join parse_path
join_lem n [] h = ([], refl, omega arith, λ rest. refl)
join_lem n (absent ∷ vs) h = absurd h.0
join_lem n (object ∷ vs) h = absurd h.0
join_lem n (seed b ∷ vs) h =
    let (bytes, run, size, cut) = join_lem n vs h.1 in
    (
      b ++ bytes,
      rw run,
      omega (arith, size, length-append b bytes, h.0),
      λ rest.
          rw (append_assoc b bytes rest) (
            rw
              (take-append n b (bytes ++ rest) h.0, drop-append n b (bytes ++ rest) h.0, cut rest)),
    )

from_zero : (h : List ℕ) (i : ℕ) → marked 0 h i ≡ ltb 0 (get_or h i 0)
from_zero h i = let e : 0 + i ≡ i = omega arith in rw e at (marked-get_or 0 h i)

module _ (sh : Shake) (p : Param) (h root salt : List ℕ) where
  -- The roots of the two trees, once the marked leaves are deleted.
  abbrev pub signed : Node (ceil_log2 p.t)
  signed = delete_all 0 h (build (ceil_log2 p.t) (seed root) (hash_pair sh p salt) 0 0)

  abbrev pub blank : Node (ceil_log2 p.t)
  blank = delete_all 0 h (build (ceil_log2 p.t) object copy 0 0)

  pub trees_Mirror :
      0 < p.st_seed_bytes
      → length root ≡ p.st_seed_bytes
      → length h ≡ p.t
      → Mirror (hash_pair sh p salt) (IsSeed p.st_seed_bytes) (ceil_log2 p.t) 0 0 signed blank
  trees_Mirror pos len marks =
      Mirror-delete_all (hash_pair sh p salt) (IsSeed p.st_seed_bytes)
        (λ v. IsSeed-truthy p.st_seed_bytes v pos) (hash_pair-IsSeed sh p salt) 0 h _ _
        (omega (arith, le-ceil_log2 p.t)) (kept (seed root) len refl refl)

  pub to_path-signed :
      {bytes : List ℕ}
      → join (path signed p.t (ceil_log2 p.t) 0) ≡ ok bytes
      → seed_tree_to_path sh h root salt p
        ≡ ok (bytes ++ replicate (seed_tree_cost p - length bytes) 0)
  unfolding seed_tree_to_path make seeds_path
  to_path-signed e = rw delete_marked-tree (rw e)

  item-patched :
      (bytes : List ℕ) (u : Node (ceil_log2 p.t)) (i : ℕ)
      → patch blank
          (parse_path p.st_seed_bytes (length (path blank p.t (ceil_log2 p.t) 0)) bytes)
          (hash_pair sh p salt)
          0
          0
        ≡ (u, [])
      → item (path_to_seed_tree sh h bytes salt p) i ≡ get_item u i
  unfolding path_to_seed_tree make seeds_path patch_tree item
  item-patched bytes u i e = rw delete_marked-tree (rw e)

  item-make :
      (i : ℕ)
      → item (make p.t (seed root) (hash_pair sh p salt)) i
        ≡ get_item (build (ceil_log2 p.t) (seed root) (hash_pair sh p salt) 0 0) i
  unfolding item make
  item-make i = refl

  -- The path that `SeedTreeToPath` builds from a seed of the right length, for `t` marks, gives
  -- `PathToSeedTree` every seed back whose leaf is not marked; a marked leaf has no value.
  pub path_to_seed_tree-seed_tree_to_path :
      0 < p.st_seed_bytes
      → length root ≡ p.st_seed_bytes
      → length h ≡ p.t
      → (bytes : List ℕ) × (seed_tree_to_path sh h root salt p ≡ ok bytes)
        × ((i : ℕ)
            → i < p.t
            → item (path_to_seed_tree sh h bytes salt p) i ≡ (
                if ltb 0 (get_or h i 0)
                then ok absent
                else item (make p.t (seed root) (hash_pair sh p salt)) i))
  path_to_seed_tree-seed_tree_to_path pos len marks =
      let n : ℕ = ceil_log2 p.t in
      let m : Mirror (hash_pair sh p salt) (IsSeed p.st_seed_bytes) n 0 0 signed blank =
        trees_Mirror pos len marks in
      let live : (v : Value) → IsSeed p.st_seed_bytes v → truthy v ≡ true =
        λ v. IsSeed-truthy p.st_seed_bytes v pos in
      let whole : Node n = build n (seed root) (hash_pair sh p salt) 0 0 in
      let grow = hash_pair-IsSeed sh p salt in
      let vs : List Value = path signed p.t n 0 in
      let (bytes, run, size, cut) =
        join_lem p.st_seed_bytes vs
          (All-path (hash_pair sh p salt) (IsSeed p.st_seed_bytes) live grow p.t 0 m) in
      let (u, patched, agree) =
        patch_lem (hash_pair sh p salt) (IsSeed p.st_seed_bytes) live grow p.t 0 [] m (inl refl) in
      let padded : List ℕ = bytes ++ replicate (seed_tree_cost p - length bytes) 0 in
      let parsed : parse_path p.st_seed_bytes (length (path blank p.t n 0)) padded ≡ vs ++ [] =
        ap (λ c. parse_path p.st_seed_bytes c padded)
          (sym (length-path (hash_pair sh p salt) (IsSeed p.st_seed_bytes) live grow p.t 0 m))
        ∙ cut (replicate (seed_tree_cost p - length bytes) 0)
        ∙ sym (append-nil vs) in
      (
        padded,
        to_path-signed run,
        λ i lt.
            item-patched padded u i
              (ap (λ ws. patch blank ws (hash_pair sh p salt) 0 0) parsed ∙ patched)
            ∙ agree i (omega (arith, le-ceil_log2 p.t)) (omega arith)
            ∙ get_item-delete_all 0 h whole i (omega (arith, le-ceil_log2 p.t))
                (omega (arith, le-ceil_log2 p.t))
            ∙ rw (item-make i)
                (ap (λ c. if c then ok absent else get_item whole i) (from_zero h i)),
      )
