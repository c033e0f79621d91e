-- ===== src/Route/Queued.antt =====
-- The node that addnode puts in the queue, and what it is to the tree.
use nix_mark_iv.Prelude.{
  ℕ, suc, ◌≤◌, ◌<◌, ◌≡◌, ◌≢◌, ◌⊎◌, inl, inr, Option, none, some, arith, subst, ap,
}
use nix_mark_iv.Route.{Route, RouteTree, nil, node, balancetree, addnode}
use nix_mark_iv.Route.Lookup.{IsOrdered, Each, Within, Smaller, IsOrdered-Each}
use nix_mark_iv.Route.Balance.{balancetree-Rebuilt, Rebuilt}
use nix_mark_iv.Route.Insert.{rangecompare_lem, Nests}
use nix_mark_iv.Route.Walk.{
  Beside, Spine, Spine-map, Each-Spine, Beside-left, Beside-right, Beside-mid,
}

-- What a node in the queue is to the tree that it was taken from.
pub record Queued (lo hi : ℕ) (t root u : RouteTree) : Type 1 where
  pub from : ℕ
  pub to : ℕ
  pub within : (lo ≤ from) × (to ≤ hi)
  pub ordered : IsOrdered from to u
  pub each : (P : Route → Type 0) → Each P t → Each P u
  pub beside : Spine (λ x. Each (Beside x) root) u

-- The node that a new route takes the place of: its own nodes are apart from the new route or
-- inside of it.
taken_Beside :
    (lo hi : ℕ) (u : RouteTree) (p new : Route)
    → Within p new
    → p.address ≤ p.endaddress
    → IsOrdered lo hi u
    → (hi ≤ p.address) ⊎ (p.endaddress < lo)
    → Each (Nests new) u
    → Spine (λ x. Beside x new) u
taken_Beside lo hi u p new around v h o n =
    Spine-map _ _ _ u (λ x (q, ne) k. split x q ne k) (Each-Spine _ u n) (IsOrdered-Each lo hi u h)
  where
    split :
        (x : Route)
        → (new.endaddress < x.address)
          ⊎ ((x.endaddress < new.address) ⊎ (Within new x ⊎ Within x new))
        → (new.address ≢ x.address) ⊎ (new.endaddress ≢ x.endaddress)
        → (lo ≤ x.address) × (x.address ≤ x.endaddress) × (x.endaddress < hi)
        → Beside x new
    split x (inl q) ne k = inr (inl q)
    split x (inr (inl q)) ne k = inl q
    split x (inr (inr (inl q))) ne k = absurd (omega (arith, o, q, k, around, v))
    split x (inr (inr (inr q))) (inl ne) k = inr (inr (q, inl (omega arith)))
    split x (inr (inr (inr q))) (inr ne) k = inr (inr (q, inr (omega arith)))

pub some_injective : (t u : RouteTree) → some t ≡ some u → t ≡ u
some_injective t u e = ap (λ (o : Option RouteTree). elim o [ none ↦ t | some v ↦ v ]) e

smaller : (a b : Route) → Nests a b → Within b a → Smaller a b
smaller a b (o, inl ne) (h, k) = inl (omega arith)
smaller a b (o, inr ne) (h, k) = inr (omega arith)

pub Each-both :
    (P Q : Route → Type 0) (t : RouteTree) → Each P t → Each Q t → Each (λ x. P x × Q x) t
Each-both P Q nil e f = tt
Each-both P Q (node p d l m r) (a, x, y, z) (b, u, v, w) =
    ((a, b), Each-both P Q l x u, Each-both P Q m y v, Each-both P Q r z w)

-- What is queued from a subtree is queued from the tree, after a rotation too.
module _ (lo hi : ℕ) (p : Route) (d : ℕ) (l m r : RouteTree) (sub u b : RouteTree)
    (h : IsOrdered lo hi (node p d l m r)) where
  Queued-left :
      Queued lo p.address l sub u → Rebuilt (node p d sub m r) b → Queued lo hi (node p d l m r) b u
  Queued-left k rb = record {
    from = k.from;
    to = k.to;
    within = (k.within.0, omega (arith, h.0, k.within));
    ordered = k.ordered;
    each = λ P e. k.each P e.1;
    beside =
        Spine-map _ _ _ u
          (λ v s i.
            rb.each (Beside v) (Beside-left lo hi p d l m r h v sub (omega (arith, i, k.within)) s))
          k.beside (IsOrdered-Each k.from k.to u k.ordered);
  }

  Queued-right :
      Queued (suc p.endaddress) hi r sub u
      → Rebuilt (node p d l m sub) b
      → Queued lo hi (node p d l m r) b u
  Queued-right k rb = record {
    from = k.from;
    to = k.to;
    within = (omega (arith, h.0, k.within), k.within.1);
    ordered = k.ordered;
    each = λ P e. k.each P e.3;
    beside =
        Spine-map _ _ _ u
          (λ v s i.
            rb.each (Beside v)
              (Beside-right lo hi p d l m r h v sub (omega (arith, i, k.within)) s))
          k.beside (IsOrdered-Each k.from k.to u k.ordered);
  }

  Queued-mid :
      Queued p.address (suc p.endaddress) m sub u
      → Rebuilt (node p d l sub r) b
      → Queued lo hi (node p d l m r) b u
  Queued-mid k rb = record {
    from = k.from;
    to = k.to;
    within = (omega (arith, h.0, k.within), omega (arith, h.0, k.within));
    ordered = k.ordered;
    each = λ P e. k.each P e.2;
    beside =
        Spine-map _ _ _ u
          (λ v s i. rb.each (Beside v) (
            Beside-mid lo hi p d l m r h v sub
              (omega (arith, i.0, k.within), omega (arith, i.0, k.within)) i.1 s))
          k.beside
          (Each-both _ _ u (IsOrdered-Each k.from k.to u k.ordered) (k.each (Smaller p) h.4));
  }

-- The whole tree is queued where the new route is around its node.
whole-Queued :
    (lo hi : ℕ) (p : Route) (d : ℕ) (l m r : RouteTree) (new : Route)
    → IsOrdered lo hi (node p d l m r)
    → Each (Nests new) (node p d l m r)
    → Within p new
    → Queued lo hi (node p d l m r) (balancetree (node new 1 nil nil nil)) (node p d l m r)
whole-Queued lo hi p d l m r new h (n, nl, nm, nr) around =
    let y = h.0.1 in
    let b = balancetree-Rebuilt (node new 1 nil nil nil) in
    let whole = node p d l m r in
    let near : Spine (λ x. Beside x new) whole = (
      inr (inr (around, smaller new p n around)),
      taken_Beside lo p.address l p new around y h.1 (inl (omega arith)) nl,
      taken_Beside (suc p.endaddress) hi r p new around y h.3 (inr (omega arith)) nr,
    ) in
    record {
      from = lo;
      to = hi;
      within = (omega arith, omega arith);
      ordered = h;
      each = λ P e. e;
      beside =
          Spine-map _ _ _ whole (λ v s i. b.each (Beside v) (s, tt, tt, tt)) near
            (IsOrdered-Each lo hi whole h);
    }

pub addnode-Queued :
    (lo hi : ℕ) (t : RouteTree) (new : Route) (u : RouteTree)
    → IsOrdered lo hi t
    → Each (Nests new) t
    → (addnode t new nil).1 ≡ some u
    → Queued lo hi t (addnode t new nil).0 u
unfolding addnode
addnode-Queued lo hi nil new u h n e = absurd (cc e)
addnode-Queued lo hi (node p d l m r) new u h (n, nl, nm, nr) e =
    elim (rangecompare_lem new p n h.0.1) [
      | inl (c, before) ↦
          let k = addnode-Queued lo p.address l new u h.1 nl (rw (c, addnode) at e) in
          let sub = (addnode l new nil).0 in
          let b = node p d sub m r in
          rw (c, addnode)
            (Queued-left lo hi p d l m r sub u (balancetree b) h k (balancetree-Rebuilt b))
      | inr (inl (c, behind)) ↦
          let k = addnode-Queued (suc p.endaddress) hi r new u h.3 nr (rw (c, addnode) at e) in
          let sub = (addnode r new nil).0 in
          let b = node p d l m sub in
          rw (c, addnode)
            (Queued-right lo hi p d l m r sub u (balancetree b) h k (balancetree-Rebuilt b))
      | inr (inr (inl (c, around))) ↦
          let whole = node p d l m r in
          let e' : some whole ≡ some u = rw (c, addnode) at e in
          rw (c, addnode)
            (subst (Queued lo hi whole (balancetree (node new 1 nil nil nil)))
              (some_injective whole u e')
              (whole-Queued lo hi p d l m r new h (n, nl, nm, nr) around))
      | inr (inr (inr (c, inside))) ↦
          let k =
            addnode-Queued p.address (suc p.endaddress) m new u h.2 nm (rw (c, addnode) at e) in
          let sub = (addnode m new nil).0 in
          let b = node p d l sub r in
          rw (c, addnode)
            (Queued-mid lo hi p d l m r sub u (balancetree b) h k (balancetree-Rebuilt b))
    ]
