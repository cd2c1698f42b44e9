-- ===== src/SeedTree/Mirror.antt =====
-- The signer's tree and the verifier's, from which the same leaves are deleted.
use iis_meds.Prelude.{ℕ, zero, suc, ◌+◌, ◌-◌, ◌*◌, ◌^◌, ◌<◌, true, ◌≡◌, refl, arith}
use iis_meds.Prelude.Bits.{half-pow}
use native.Mathlib.Decide.{dec_lt}
use iis_meds.SeedTree.{
  Value, absent, object, truthy, Derive, Node, leaf, inner, copy, build, delete,
}
use iis_meds.SeedTree.Deleted.{deleted, deleted_pos}
use iis_meds.SeedTree.Items.{delete-left, delete-right}

-- `t` is derived from its root by `f` and `u` is a tree of `object`, but for deleted leaves, which
-- are the same in both. `P` holds of the values that `t` still has.
pub data Mirror (f : Derive) (P : Value → Type 0) : (n h i : ℕ) → Node n → Node n → Type 0 where
  kept :
      {n h i : ℕ} {t u : Node n} (v : Value)
      → P v
      → t ≡ build n v f h i
      → u ≡ build n object copy h i
      → Mirror f P n h i t u
  cut_leaf : {h i : ℕ} → Mirror f P zero h i (leaf absent) (leaf absent)
  cut_inner :
      {n h i : ℕ} {t u t' u' : Node n}
      → 0 < deleted t + deleted t'
      → Mirror f P n (h + 1) (i * 2) t u
      → Mirror f P n (h + 1) (i * 2 + 1) t' u'
      → Mirror f P (suc n) h i (inner absent t t') (inner absent u u')

module _ (f : Derive) (P : Value → Type 0) (live : (v : Value) → P v → truthy v ≡ true)
    (grow : (v : Value) (addr : ℕ) → P v → P (f v addr).0 × P (f v addr).1) where
  delete_kept :
      (n h i : ℕ) (v : Value) (key : ℕ)
      → P v
      → key < 2 ^ n
      → Mirror f P n h i (delete (build n v f h i) key) (delete (build n object copy h i) key)
  unfolding build
  delete_kept zero h i v key p lt = unfold delete in cut_leaf
  delete_kept (suc n) h i v key p lt =
      let g : P (f v (2 ^ h + i - 1)).0 × P (f v (2 ^ h + i - 1)).1 = grow v (2 ^ h + i - 1) p in
      elim (dec_lt key (2 ^ n)) [
        | yes low ↦
            rw (delete-left v _ _ key low, delete-left object _ _ key low)
              (cut_inner
                (omega
                  (arith, deleted_pos (build n (f v (2 ^ h + i - 1)).0 f (h + 1) (i * 2)) key low))
                (delete_kept n (h + 1) (i * 2) _ key g.0 low) (kept _ g.1 refl refl))
        | no high ↦
            rw
              (
                delete-right v _ _ key (omega arith) lt,
                delete-right object _ _ key (omega arith) lt,
              )
              (cut_inner
                (omega (
                  arith,
                  deleted_pos (build n (f v (2 ^ h + i - 1)).1 f (h + 1) (i * 2 + 1)) (key - 2 ^ n)
                      (omega (arith, half-pow n)),
                ))
                (kept _ g.0 refl refl)
                (delete_kept n (h + 1) (i * 2 + 1) _ (key - 2 ^ n) g.1 (omega (arith, half-pow n))))
      ]

  -- Both trees lose the same leaf.
  pub Mirror-delete :
      {n h i : ℕ} {t u : Node n} (key : ℕ)
      → key < 2 ^ n
      → Mirror f P n h i t u
      → Mirror f P n h i (delete t key) (delete u key)
  Mirror-delete key lt (kept {n = n} {h = h} {i = i} v p e e') =
      rw (e, e') (delete_kept n h i v key p lt)
  Mirror-delete key lt cut_leaf = unfold delete in cut_leaf
  Mirror-delete key lt (cut_inner {n = n} {t = t} {u = u} {t' = t'} {u' = u'} pos l r) =
      elim (dec_lt key (2 ^ n)) [
        | yes low ↦
            rw (delete-left absent t t' key low, delete-left absent u u' key low)
              (cut_inner (omega (arith, deleted_pos t key low)) (Mirror-delete key low l) r)
        | no high ↦
            rw
              (
                delete-right absent t t' key (omega arith) lt,
                delete-right absent u u' key (omega arith) lt,
              )
              (cut_inner (omega (arith, deleted_pos t' (key - 2 ^ n) (omega (arith, half-pow n)))) l
                (Mirror-delete (key - 2 ^ n) (omega (arith, half-pow n)) r))
      ]
