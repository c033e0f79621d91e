-- ===== src/Route/Insert.antt =====
-- addnode keeps a tree of routes in order and loses no route.
use nix_mark_iv.Prelude.{
  ℕ, suc, ◌+◌, ◌≤◌, ◌<◌, ◌≡◌, ◌≢◌, ◌⊎◌, inl, inr, refl, Option, none, some, arith,
}
use nix_mark_iv.Route.{
  Route, RouteTree, nil, node, Order, preceeds, follows, equals, contains, contained, rangecompare,
  addnode,
}
use nix_mark_iv.Route.Lookup.{IsOrdered, Each, Within, Smaller, Each-map, IsOrdered-Each}
use nix_mark_iv.Route.Balance.{total, balancetree-Rebuilt}

-- The two ranges are apart, or one has the other; they are not the same.
abbrev pub Nests : Route → Route → Type 0
Nests a b =
    ((a.endaddress < b.address) ⊎ ((b.endaddress < a.address) ⊎ (Within a b ⊎ Within b a)))
    × ((a.address ≢ b.address) ⊎ (a.endaddress ≢ b.endaddress))

abbrev pub queued : (Route → ℕ) → Option RouteTree → ℕ
queued f none = 0
queued f (some t) = total f t

pub Order-cases :
    (o : Order)
    → (o ≡ preceeds) ⊎ ((o ≡ follows) ⊎ ((o ≡ equals) ⊎ ((o ≡ contains) ⊎ (o ≡ contained))))
Order-cases preceeds = inl refl
Order-cases follows = inr (inl refl)
Order-cases equals = inr (inr (inl refl))
Order-cases contains = inr (inr (inr (inl refl)))
Order-cases contained = inr (inr (inr (inr refl)))

-- What rangecompare says of ranges that nest.
pub rangecompare_lem :
    (a b : Route)
    → Nests a b
    → b.address ≤ b.endaddress
    → ((rangecompare a b ≡ preceeds) × (a.endaddress < b.address))
      ⊎ (((rangecompare a b ≡ follows) × (b.endaddress < a.address))
          ⊎ (((rangecompare a b ≡ contains) × Within b a)
              ⊎ ((rangecompare a b ≡ contained) × Within a b)))
unfolding rangecompare
rangecompare_lem a b (o, ne) h = ground arith

strict : (a b : Route) → Nests b a → Within b a → Smaller a b
strict a b (o, inl ne) (h, k) = inl (omega arith)
strict a b (o, inr ne) (h, k) = inr (omega arith)

deeper :
    (a b x : Route)
    → Nests b a
    → Within b a
    → (b.address ≤ x.address) × (x.address ≤ x.endaddress) × (x.endaddress < suc b.endaddress)
    → Smaller a x
deeper a b x (o, inl ne) (h, k) (u, v, w) = inl (omega arith)
deeper a b x (o, inr ne) (h, k) (u, v, w) = inr (omega arith)

-- The tree is in order, and it and the queue have the old routes and the new ones.
pub record Added (lo hi : ℕ) (t : RouteTree) (new : Route) (mid : RouteTree)
    (r : RouteTree × Option RouteTree) : Type 1 where
  pub ordered : IsOrdered lo hi r.0
  pub each : (P : Route → Type 0) → Each P t → P new → Each P mid → Each P r.0
  pub routes : (f : Route → ℕ) → total f r.0 + queued f r.1 ≡ total f t + f new + total f mid

-- addnode of a route that is no route of the tree, and whose range is apart from or inside of or
-- around that of each, with routes inside it: the tree stays in order, and it and the node put in
-- the queue have exactly the routes of the tree, the new one and those inside it.
pub addnode_lem :
    (lo hi : ℕ) (t : RouteTree) (new : Route) (mid : RouteTree)
    → IsOrdered lo hi t
    → (lo ≤ new.address) × (new.address ≤ new.endaddress) × (new.endaddress < hi)
    → IsOrdered new.address (suc new.endaddress) mid
    → Each (Smaller new) mid
    → Each (Nests new) t
    → Added lo hi t new mid (addnode t new mid)
unfolding addnode
addnode_lem lo hi nil new mid h b i j n = record {
  ordered = (b, tt, i, tt, j);
  each = λ P e a m. (a, tt, m, tt);
  routes = λ f. omega arith;
}
addnode_lem lo hi (node p d l m r) new mid ((x, y, z), hl, hm, hr, w) (a, b, c) i j
      (n, nl, nm, nr) =
    elim (rangecompare_lem new p n y) [
      | inl (e, before) ↦
          let k = addnode_lem lo p.address l new mid hl (a, b, before) i j nl in
          let (l', q) = addnode l new mid in
          let u = balancetree-Rebuilt (node p d l' m r) in
          rw (e, addnode)
            (record {
              ordered = u.ordered lo hi ((x, y, z), k.ordered, hm, hr, w);
              each = λ P e n m. let (a, x, y, z) = e in u.each P (a, k.each P x n m, y, z);
              routes = λ f. omega (arith, u.routes f, k.routes f);
            })
      | inr (inl (e, behind)) ↦
          let k = addnode_lem (suc p.endaddress) hi r new mid hr (behind, b, c) i j nr in
          let (r', q) = addnode r new mid in
          let u = balancetree-Rebuilt (node p d l m r') in
          rw (e, addnode)
            (record {
              ordered = u.ordered lo hi ((x, y, z), hl, hm, k.ordered, w);
              each = λ P e n m. let (a, x, y, z) = e in u.each P (a, x, y, k.each P z n m);
              routes = λ f. omega (arith, u.routes f, k.routes f);
            })
      | inr (inr (inl (e, around))) ↦
          let u = balancetree-Rebuilt (node new 1 nil mid nil) in
          rw (e, addnode)
            (record {
              ordered = u.ordered lo hi ((a, b, c), tt, i, tt, j);
              each = λ P e n m. let (a, x, y, z) = e in u.each P (n, tt, m, tt);
              routes = λ f. omega (arith, u.routes f);
            })
      | inr (inr (inr (e, inside))) ↦
          let k =
            addnode_lem p.address (suc p.endaddress) m new mid hm
              (inside.0, b, omega (arith, inside)) i j nm in
          let (m', q) = addnode m new mid in
          let u = balancetree-Rebuilt (node p d l m' r) in
          rw (e, addnode)
            (record {
              ordered = u.ordered lo hi (
                (x, y, z),
                hl,
                k.ordered,
                hr,
                k.each (Smaller p) w (strict p new n inside) (
                    Each-map _ _ mid (λ x y. deeper p new x n inside y)
                      (IsOrdered-Each new.address (suc new.endaddress) mid i)),
              );
              each = λ P e n m. let (a, x, y, z) = e in u.each P (a, x, k.each P y n m, z);
              routes = λ f. omega (arith, u.routes f, k.routes f);
            })
    ]
