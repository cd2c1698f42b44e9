-- ===== src/SeedTree/Count.antt =====
-- How many values a path has, by the number of deleted leaves.
use iis_meds.Prelude.{
  ℕ, zero, suc, ◌+◌, ◌-◌, ◌*◌, ◌^◌, ◌≤◌, ◌<◌, length, length-append, true, ◌≡◌, arith, ok,
}
use iis_meds.Prelude.Bits.{half-pow, pow_pos}
use native.Mathlib.Decide.{dec_lt}
use iis_meds.SeedTree.{Value, truthy, Derive, Node, build, get_item, path}
use iis_meds.SeedTree.Deleted.{deleted}
use iis_meds.SeedTree.Items.{get_item-left, get_item-right}
use iis_meds.SeedTree.Mirror.{Mirror, kept, cut_leaf, cut_inner}
use iis_meds.SeedTree.Patch.{path_kept, path-cut}

-- The bound that 2 ^ c gives: with c + 1 taken off for each deleted leaf.
abbrev pub Within : ℕ → ℕ → ℕ → ℕ → Type 0
Within values cut n c = values + cut * (c + 1) ≤ 2 ^ c + cut * n

c-lt-pow : (c : ℕ) → c + 1 ≤ 2 ^ c
c-lt-pow zero = omega arith
c-lt-pow (suc c) = omega (arith, c-lt-pow c, half-pow c, pow_pos c)

Within-add_one : (x a n c : ℕ) → 0 < a → Within x a n c → Within (x + 1) a (suc n) c
Within-add_one x a n c h b = omega arith

Within-add :
    (x a y b n c : ℕ)
    → 0 < a
    → 0 < b
    → ((d : ℕ) → Within x a n d)
    → ((d : ℕ) → Within y b n d)
    → Within (x + y) (a + b) (suc n) c
Within-add x a y b n zero h k p q = omega (arith, p 0, q 0)
Within-add x a y b n (suc c) h k p q = omega (arith, p c, q c, half-pow c)

-- What is known of a subtree with `values` on its path and `cut` deleted leaves.
pub record Counted (values cut n : ℕ) : Type 0 where
  pub whole : cut ≡ 0 → values ≤ 1
  pub some_cut : 0 < cut → (c : ℕ) → Within values cut n c

Counted-inner :
    (x a y b n : ℕ) → Counted x a n → Counted y b n → 0 < a + b → Counted (x + y) (a + b) (suc n)
Counted-inner x a y b n p q pos = record {
  whole = λ e. absurd (omega arith);
  some_cut = λ _ c. elim (dec_lt 0 a) [
    | yes h ↦ elim (dec_lt 0 b) [
      | yes k ↦ Within-add x a y b n c h k (p.some_cut h) (q.some_cut k)
      | no k ↦
          let e : b ≡ 0 = omega arith in
          rw e (omega (arith, Within-add_one x a n c h (p.some_cut h c), q.whole e))
    ]
    | no h ↦
        let e : a ≡ 0 = omega arith in
        let k : 0 < b = omega arith in
        rw e (omega (arith, Within-add_one y b n c k (q.some_cut k c), p.whole e))
  ];
}

module _ (f : Derive) (P : Value → Type 0) (live : (v : Value) → P v → truthy v ≡ true)
    (grow : (v : Value) (addr : ℕ) → P v → P (f v addr).0 × P (f v addr).1) where
  -- A tree that is derived from its root has every leaf.
  pub deleted-build : (n h i : ℕ) (v : Value) → P v → deleted (build n v f h i) ≡ 0
  unfolding deleted build
  deleted-build zero h i v p = rw (live v p)
  deleted-build (suc n) h i v p =
      let g : P (f v (2 ^ h + i - 1)).0 × P (f v (2 ^ h + i - 1)).1 = grow v (2 ^ h + i - 1) p in
      omega
        (arith, deleted-build n (h + 1) (i * 2) _ g.0, deleted-build n (h + 1) (i * 2 + 1) _ g.1)

  pub get_item-build :
      (n h i : ℕ) (v : Value) (j : ℕ)
      → P v
      → j < 2 ^ n
      → (x : Value) × (get_item (build n v f h i) j ≡ ok x) × P x
  unfolding build
  get_item-build zero h i v j p lt = (v, unfold get_item in ground arith, p)
  get_item-build (suc n) h i v j p lt =
      let g : P (f v (2 ^ h + i - 1)).0 × P (f v (2 ^ h + i - 1)).1 = grow v (2 ^ h + i - 1) p in
      elim (dec_lt j (2 ^ n)) [
        | yes low ↦ rw (get_item-left v _ _ j low) (get_item-build n (h + 1) (i * 2) _ j g.0 low)
        | no high ↦
            rw (get_item-right v _ _ j (omega arith) lt)
              (get_item-build n (h + 1) (i * 2 + 1) _ (j - 2 ^ n) g.1 (omega (arith, half-pow n)))
      ]

  pub Counted-path :
      {n h i : ℕ} {t u : Node n} (leafs o : ℕ)
      → Mirror f P n h i t u
      → Counted (length (path t leafs n o)) (deleted t) n
  unfolding deleted
  Counted-path leafs o (kept {n = n} {h = h} {i = i} v p e e') = rw e (record {
    whole = λ _. rw (path_kept n v f h i leafs o (live v p)) (ground arith);
    some_cut = λ pos c. absurd (omega (arith, deleted-build n h i v p));
  })
  Counted-path leafs o cut_leaf = record {
    whole = λ e. unfold path in omega arith;
    some_cut = λ h c. unfold path in omega (arith, c-lt-pow c);
  }
  Counted-path leafs o (cut_inner {n = n} {t = t} {t' = t'} pos l r) =
      rw (path-cut t t' leafs o, length-append)
        (Counted-inner _ _ _ _ n (Counted-path leafs (o * 2) l) (Counted-path leafs (o * 2 + 1) r)
          pos)
