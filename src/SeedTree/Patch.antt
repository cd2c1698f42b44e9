-- ===== src/SeedTree/Patch.antt =====
-- The path of the signer's tree patches the verifier's tree.
use iis_meds.Prelude.{
  ℕ, zero, suc, ◌+◌, ◌-◌, ◌*◌, ◌^◌, ◌≤◌, ◌<◌, List, [], ◌∷◌, ◌++◌, length, length-append, All,
  All-append, true, ◌≡◌, refl, arith, ltb, lt→ltb, ltb-false, if◌then◌else◌, ◌⊎◌, inl, inr,
  append_assoc,
}
use iis_meds.Prelude.Bits.{half-pow, pow_pos}
use native.Mathlib.Decide.{dec_lt}
use iis_meds.SeedTree.{
  Value, absent, object, truthy, Derive, Node, leaf, inner, copy, build, get_item, path, patch,
}
use iis_meds.SeedTree.Mirror.{Mirror, kept, cut_leaf, cut_inner}
use iis_meds.SeedTree.Items.{get_item-left, get_item-right}

-- The leaves below `leafs` are the same in both trees.
abbrev pub Agrees : {n : ℕ} → ℕ → ℕ → Node n → Node n → Type 0
Agrees {n} leafs o t u = (j : ℕ) → j < 2 ^ n → o * 2 ^ n + j < leafs → get_item t j ≡ get_item u j

offset_below : (o n : ℕ) → o * 2 ^ suc n ≡ o * 2 * 2 ^ n
offset_below o n = rw half-pow (omega arith)

-- A subtree right of all leaves has no path.
path_outside : {n : ℕ} (t : Node n) (leafs o : ℕ) → leafs ≤ o * 2 ^ n → path t leafs n o ≡ []
unfolding path
path_outside (leaf v) leafs o h = ground arith
path_outside (inner {n = n} v l r) leafs o h =
    let left : path l leafs n (o * 2) ≡ [] =
      path_outside l leafs (o * 2) (omega (arith, offset_below o n)) in
    let right : path r leafs n (o * 2 + 1) ≡ [] =
      path_outside r leafs (o * 2 + 1) (omega (arith, offset_below o n)) in
    let e : suc n - 1 ≡ n = omega arith in rw (e, left, right) (ground (arith))

pub path-cut :
    {n : ℕ} (l r : Node n) (leafs o : ℕ)
    → path (inner absent l r) leafs (suc n) o ≡ path l leafs n (o * 2) ++ path r leafs n (o * 2 + 1)
unfolding path
path-cut {n} l r leafs o = let e : suc n - 1 ≡ n = omega arith in rw e

patch-cut :
    {n : ℕ} (l r l' r' : Node n) (f : Derive) (h i : ℕ) (vs ws us : List Value)
    → patch l vs f (h + 1) (i * 2) ≡ (l', ws)
    → patch r ws f (h + 1) (i * 2 + 1) ≡ (r', us)
    → patch (inner absent l r) vs f h i ≡ (inner absent l' r', us)
unfolding patch
patch-cut l r l' r' f h i vs ws us p q = rw (p, q)

patch_blank :
    (n : ℕ) (f : Derive) (h i : ℕ) (v : Value) (vs : List Value)
    → patch (build n object copy h i) (v ∷ vs) f h i ≡ (build n v f h i, vs)
unfolding patch build
patch_blank zero f h i v vs = refl
patch_blank (suc n) f h i v vs = refl

patch_blank_empty :
    (n : ℕ) (f : Derive) (h i : ℕ)
    → patch (build n object copy h i) [] f h i ≡ (build n object copy h i, [])
unfolding patch build
patch_blank_empty zero f h i = refl
patch_blank_empty (suc n) f h i = refl

pub path_kept :
    (n : ℕ) (v : Value) (f : Derive) (h i leafs o : ℕ)
    → truthy v ≡ true
    → path (build n v f h i) leafs n o ≡ (if ltb (o * 2 ^ n) leafs then v ∷ [] else [])
unfolding path build
path_kept zero v f h i leafs o live = rw live
path_kept (suc n) v f h i leafs o live = rw live

-- Where a path is used up within a subtree, it ends there.
no_room :
    (n leafs o : ℕ) (extra : List Value)
    → (extra ≡ []) ⊎ ((o + 1) * 2 ^ n ≤ leafs)
    → leafs < (o + 1) * 2 ^ n
    → extra ≡ []
no_room n leafs o extra (inl e) h = e
no_room n leafs o extra (inr fits) h = absurd (omega arith)

right_room :
    (n leafs o : ℕ) (extra : List Value)
    → (extra ≡ []) ⊎ ((o + 1) * 2 ^ suc n ≤ leafs)
    → (extra ≡ []) ⊎ ((o * 2 + 1 + 1) * 2 ^ n ≤ leafs)
right_room n leafs o extra (inl e) = inl e
right_room n leafs o extra (inr fits) = inr (omega (arith, offset_below (o + 1) n))

left_room :
    (n : ℕ) (r : Node n) (leafs o : ℕ) (extra : List Value)
    → (extra ≡ []) ⊎ ((o + 1) * 2 ^ suc n ≤ leafs)
    → (path r leafs n (o * 2 + 1) ++ extra ≡ []) ⊎ ((o * 2 + 1) * 2 ^ n ≤ leafs)
left_room n r leafs o extra room = elim (dec_lt leafs ((o * 2 + 1) * 2 ^ n)) [
  | yes out ↦ inl (
      rw (path_outside r leafs (o * 2 + 1) (omega arith))
        (no_room (suc n) leafs o extra room (omega (arith, offset_below (o + 1) n, pow_pos n))))
  | no fits ↦ inr (omega arith)
]

Agrees-inner :
    {n : ℕ} (leafs o : ℕ) (a b t t' : Node n)
    → Agrees leafs (o * 2) a t
    → Agrees leafs (o * 2 + 1) b t'
    → Agrees leafs o (inner absent a b) (inner absent t t')
Agrees-inner {n} leafs o a b t t' l r j lt below = elim (dec_lt j (2 ^ n)) [
  | yes low ↦
      rw (get_item-left absent a b j low, get_item-left absent t t' j low)
        (l j low (omega (arith, offset_below o n)))
  | no high ↦
      rw
        (
          get_item-right absent a b j (omega arith) lt,
          get_item-right absent t t' j (omega arith) lt,
        )
        (r (j - 2 ^ n) (omega (arith, half-pow n)) (omega (arith, offset_below o n)))
]

module _ (f : Derive) (P : Value → Type 0) (live : (v : Value) → P v → truthy v ≡ true)
    (grow : (v : Value) (addr : ℕ) → P v → P (f v addr).0 × P (f v addr).1) where
  -- What patching gives: `extra` is left of the path, and the leaves agree.
  abbrev pub Patches : {n : ℕ} → ℕ → ℕ → ℕ → ℕ → Node n → Node n → List Value → Type 0
  Patches {n} leafs h i o t u extra =
      (u' : Node n) × (patch u (path t leafs n o ++ extra) f h i ≡ (u', extra))
      × Agrees leafs o u' t

  patch_kept :
      (n h i : ℕ) (v : Value) (leafs o : ℕ) (extra : List Value)
      → P v
      → (extra ≡ []) ⊎ ((o + 1) * 2 ^ n ≤ leafs)
      → Patches leafs h i o (build n v f h i) (build n object copy h i) extra
  patch_kept n h i v leafs o extra p room = elim (dec_lt (o * 2 ^ n) leafs) [
    | yes inside ↦ (
      build n v f h i,
      rw (path_kept n v f h i leafs o (live v p))
          (rw (lt→ltb _ _ inside) (patch_blank n f h i v extra)),
      λ j lt below. refl,
    )
    | no outside ↦
        let none_left : extra ≡ [] = no_room n leafs o extra room (omega (arith, pow_pos n)) in
        (
          build n object copy h i,
          rw (path_kept n v f h i leafs o (live v p)) (
              rw (ltb-false (o * 2 ^ n) leafs (omega arith))
                (rw none_left (patch_blank_empty n f h i))),
          λ j lt below. absurd (omega arith),
        )
  ]

  -- The path of the signer's subtree patches the verifier's: the leaves agree.
  pub patch_lem :
      {n h i : ℕ} {t u : Node n} (leafs o : ℕ) (extra : List Value)
      → Mirror f P n h i t u
      → (extra ≡ []) ⊎ ((o + 1) * 2 ^ n ≤ leafs)
      → Patches leafs h i o t u extra
  patch_lem leafs o extra (kept {n = n} {h = h} {i = i} v p e e') room =
      rw (e, e') (patch_kept n h i v leafs o extra p room)
  patch_lem leafs o extra cut_leaf room =
      (leaf absent, unfold path patch in refl, λ j lt below. refl)
  patch_lem leafs o extra
        (cut_inner {n = n} {h = h} {i = i} {t = t} {u = u} {t' = t'} {u' = u'} pos l r) room =
      let (a, run, agree) =
        patch_lem leafs (o * 2) (path t' leafs n (o * 2 + 1) ++ extra) l
          (left_room n t' leafs o extra room) in
      let (b, run', agree') =
        patch_lem leafs (o * 2 + 1) extra r (right_room n leafs o extra room) in
      (
        inner absent a b,
        rw (path-cut t t' leafs o, append_assoc) (patch-cut u u' a b f h i _ _ _ run run'),
        Agrees-inner leafs o a b t t' agree agree',
      )

  -- The paths of both trees are equally long.
  pub length-path :
      {n h i : ℕ} {t u : Node n} (leafs o : ℕ)
      → Mirror f P n h i t u
      → length (path t leafs n o) ≡ length (path u leafs n o)
  length-path leafs o (kept {n = n} {h = h} {i = i} v p e e') =
      rw (e, e')
        (rw (path_kept n v f h i leafs o (live v p), path_kept n object copy h i leafs o refl)
          (ground arith))
  length-path leafs o cut_leaf = unfold path in refl
  length-path leafs o (cut_inner {n = n} {t = t} {u = u} {t' = t'} {u' = u'} pos l r) =
      rw (path-cut t t' leafs o, path-cut u u' leafs o)
        (omega (
          arith,
          length-append (path t leafs n (o * 2)) (path t' leafs n (o * 2 + 1)),
          length-append (path u leafs n (o * 2)) (path u' leafs n (o * 2 + 1)),
          length-path leafs (o * 2) l,
          length-path leafs (o * 2 + 1) r,
        ))

  -- The path holds values of the tree.
  pub All-path :
      {n h i : ℕ} {t u : Node n} (leafs o : ℕ) → Mirror f P n h i t u → All P (path t leafs n o)
  All-path leafs o (kept {n = n} {h = h} {i = i} v p e e') = rw e (
      rw (path_kept n v f h i leafs o (live v p)) (elim (dec_lt (o * 2 ^ n) leafs) [
        | yes inside ↦ rw (lt→ltb _ _ inside) (p, tt)
        | no outside ↦ rw (ltb-false (o * 2 ^ n) leafs (omega arith)) tt
      ]))
  All-path leafs o cut_leaf = unfold path in tt
  All-path leafs o (cut_inner {n = n} {t = t} {t' = t'} pos l r) = rw (path-cut t t' leafs o) (
      All-append P (path t leafs n (o * 2)) (path t' leafs n (o * 2 + 1)) (All-path leafs (o * 2) l)
        (All-path leafs (o * 2 + 1) r))
