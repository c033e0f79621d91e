-- ===== src/Route/Walk.antt =====
-- walkadd of routes beside those of the tree queues nothing.
use nix_mark_iv.Prelude.{ℕ, suc, ◌+◌, ◌≤◌, ◌<◌, ◌≡◌, ◌⊎◌, inl, inr, refl, none, List, arith, ap}
use nix_mark_iv.Route.{
  Route, RouteTree, nil, node, preceeds, follows, contained, rangecompare, addnode, walkadd,
}
use nix_mark_iv.Route.Lookup.{IsOrdered, Each, Within, Smaller, Each-map, IsOrdered-Each}
use nix_mark_iv.Route.Balance.{total}
use nix_mark_iv.Route.Insert.{queued, Nests, addnode_lem}

-- Apart from the second range, or smaller and inside of it.
abbrev pub Beside : Route → Route → Type 0
Beside a b = (a.endaddress < b.address) ⊎ ((b.endaddress < a.address) ⊎ (Within a b × Smaller b a))

Beside-Nests : (a b : Route) → a.address ≤ a.endaddress → Beside a b → Nests a b
Beside-Nests a b v (inl h) = (inl h, inl (λ e. omega arith))
Beside-Nests a b v (inr (inl h)) = (inr (inl h), inr (λ e. omega arith))
Beside-Nests a b v (inr (inr (h, inl s))) = (inr (inr (inl h)), inl (λ e. omega arith))
Beside-Nests a b v (inr (inr (h, inr s))) = (inr (inr (inl h)), inr (λ e. omega arith))

rangecompare-Beside :
    (a b : Route)
    → Beside a b
    → (rangecompare a b ≡ preceeds)
      ⊎ ((rangecompare a b ≡ follows) ⊎ (rangecompare a b ≡ contained))
unfolding rangecompare
rangecompare-Beside a b h = ground arith

-- The routes that walkadd adds itself, with those inside of them.
abbrev pub Spine : (Route → Type 0) → RouteTree → Type 0
Spine P nil = Unit {0}
Spine P (node p d l m r) = P p × Spine P l × Spine P r

pub Spine-map :
    (P Q R : Route → Type 0) (t : RouteTree)
    → ((x : Route) → P x → Q x → R x)
    → Spine P t
    → Each Q t
    → Spine R t
Spine-map P Q R nil f s e = tt
Spine-map P Q R (node p d l m r) f (a, x, y) (b, u, v, w) =
    (f p a b, Spine-map P Q R l f x u, Spine-map P Q R r f y w)

pub Each-Spine : (P : Route → Type 0) (t : RouteTree) → Each P t → Spine P t
Each-Spine P nil e = tt
Each-Spine P (node p d l m r) (b, u, v, w) = (b, Each-Spine P l u, Each-Spine P r w)

-- A route beside all those of the tree makes no node be queued.
none_queued :
    (t : RouteTree) (new : Route) (mid : RouteTree)
    → Each (Beside new) t
    → (addnode t new mid).1 ≡ none
unfolding addnode
none_queued nil new mid e = refl
none_queued (node p d l m r) new mid (a, x, y, z) = elim (rangecompare-Beside new p a) [
  | inl before ↦ rw (before, addnode) (none_queued l new mid x)
  | inr (inl behind) ↦ rw (behind, addnode) (none_queued r new mid z)
  | inr (inr inside) ↦ rw (inside, addnode) (none_queued m new mid y)
]

-- The result of walking a tree whose nodes are beside those of the root.
pub record Walked (lo hi : ℕ) (root u : RouteTree) (q : List RouteTree)
    (s : RouteTree × List RouteTree) : Type 1 where
  pub tree : RouteTree
  pub done : s ≡ (tree, q)
  pub ordered : IsOrdered lo hi tree
  pub each : (P : Route → Type 0) → Each P root → Each P u → Each P tree
  pub routes : (f : Route → ℕ) → total f tree ≡ total f root + total f u

pub walkadd-Walked :
    (lo hi lo' hi' : ℕ) (root u : RouteTree) (q : List RouteTree)
    → IsOrdered lo hi root
    → IsOrdered lo' hi' u
    → (lo ≤ lo') × (hi' ≤ hi)
    → Spine (λ x. Each (Beside x) root) u
    → Walked lo hi root u q (walkadd (root, q) u)
unfolding walkadd
walkadd-Walked lo hi lo' hi' root nil q h k b s = record {
  tree = root;
  done = refl;
  ordered = h;
  each = λ P e e'. e;
  routes = λ f. omega arith;
}
walkadd-Walked lo hi lo' hi' root (node p d l m r) q h ((x, y, z), kl, km, kr, w) (b, b')
      (s, sl, sr) =
    let added =
      addnode_lem lo hi root p m h (omega arith, y, omega arith) km w
        (Each-map _ _ root (λ x' e. Beside-Nests p x' y e) s) in
    let e = none_queued root p m s in
    let root1 = (addnode root p m).0 in
    let in_m = IsOrdered-Each p.address (suc p.endaddress) m km in
    let in_l = IsOrdered-Each lo' p.address l kl in
    let in_r = IsOrdered-Each (suc p.endaddress) hi' r kr in
    let sl' =
      Spine-map _ _ (λ x. Each (Beside x) root1) l
        (λ x old c.
          added.each (Beside x) old (inl c.2)
            (Each-map _ _ m (λ v c'. inl (omega (arith, c, c'))) in_m))
        sl in_l in
    let one = walkadd-Walked lo hi lo' p.address root1 l q added.ordered kl (b, omega arith) sl' in
    let sr' =
      Spine-map _ _ (λ x. Each (Beside x) one.tree) r
        (λ x old c.
          one.each (Beside x)
            (added.each (Beside x) old (inr (inl c.0))
              (Each-map _ _ m (λ v c'. inr (inl (omega (arith, c, c')))) in_m))
            (Each-map _ _ l (λ v c'. inr (inl (omega (arith, c, c')))) in_l))
        sr in_r in
    let two =
      walkadd-Walked lo hi (suc p.endaddress) hi' one.tree r q one.ordered kr (omega arith, b')
        sr' in
    record {
      tree = two.tree;
      done = rw (e, one.done, walkadd) two.done;
      ordered = two.ordered;
      each = λ P er eu.
          let (ep, el, em, er') = eu in two.each P (one.each P (added.each P er ep em) el) er';
      routes = λ f. omega (arith, two.routes f, one.routes f, added.routes f, ap (queued f) e);
    }

-- A route before, behind or inside the range of a node of a tree in order is beside its other routes.
module _ (lo hi : ℕ) (p : Route) (d : ℕ) (l m r : RouteTree)
    (h : IsOrdered lo hi (node p d l m r)) where
  in_l : Each (λ x. (lo ≤ x.address) × (x.address ≤ x.endaddress) × (x.endaddress < p.address)) l
  in_l = IsOrdered-Each lo p.address l h.1

  in_m :
      Each
        (λ x.
          (p.address ≤ x.address) × (x.address ≤ x.endaddress) × (x.endaddress < suc p.endaddress))
        m
  in_m = IsOrdered-Each p.address (suc p.endaddress) m h.2

  in_r :
      Each
        (λ x. (suc p.endaddress ≤ x.address) × (x.address ≤ x.endaddress) × (x.endaddress < hi))
        r
  in_r = IsOrdered-Each (suc p.endaddress) hi r h.3

  pub Beside-left :
      (v : Route) (t : RouteTree)
      → v.endaddress < p.address
      → Each (Beside v) t
      → Each (Beside v) (node p d t m r)
  Beside-left v t i e = (
    inl i,
    e,
    Each-map _ _ m (λ o j. inl (omega (arith, i, j))) in_m,
    Each-map _ _ r (λ o j. inl (omega (arith, i, j))) in_r,
  )

  pub Beside-right :
      (v : Route) (t : RouteTree)
      → p.endaddress < v.address
      → Each (Beside v) t
      → Each (Beside v) (node p d l m t)
  Beside-right v t i e = (
    inr (inl i),
    Each-map _ _ l (λ o j. inr (inl (omega (arith, i, j)))) in_l,
    Each-map _ _ m (λ o j. inr (inl (omega (arith, i, j)))) in_m,
    e,
  )

  pub Beside-mid :
      (v : Route) (t : RouteTree)
      → Within v p
      → Smaller p v
      → Each (Beside v) t
      → Each (Beside v) (node p d l t r)
  Beside-mid v t i g e = (
    inr (inr (i, g)),
    Each-map _ _ l (λ o j. inr (inl (omega (arith, i, j)))) in_l,
    e,
    Each-map _ _ r (λ o j. inl (omega (arith, i, j))) in_r,
  )
