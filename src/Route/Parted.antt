-- ===== src/Route/Parted.antt =====
-- The parts into which a tree is cut at the node that looknode returns.
use nix_mark_iv.Prelude.{ℕ, suc, ◌+◌, ◌≤◌, ◌≡◌, inl, inr, none, some, arith, subst}
use nix_mark_iv.Route.{Route, RouteTree, nil, node, rangecompare, looknode, cut}
use nix_mark_iv.Route.Lookup.{IsOrdered, Each, Smaller, Each-map, IsOrdered-Each}
use nix_mark_iv.Route.Balance.{total}
use nix_mark_iv.Route.Insert.{Order-cases}
use nix_mark_iv.Route.Walk.{Beside, Beside-left, Beside-right, Beside-mid}
use nix_mark_iv.Route.Queued.{Each-both, some_injective}

-- The tree that is left, and the part that was cut off.
pub record Parted (lo hi : ℕ) (t rest u : RouteTree) : Type 1 where
  pub from : ℕ
  pub to : ℕ
  pub within : (lo ≤ from) × (to ≤ hi)
  pub ordered : IsOrdered lo hi rest
  pub ordered' : IsOrdered from to u
  pub each : (P : Route → Type 0) → Each P t → Each P rest × Each P u
  pub beside : Each (λ x. Each (Beside x) rest) u
  pub routes : (f : Route → ℕ) → total f rest + total f u ≡ total f t

-- What is cut off a subtree is cut off the tree.
module _ (lo hi : ℕ) (p : Route) (d : ℕ) (l m r : RouteTree) (sub u : RouteTree)
    (h : IsOrdered lo hi (node p d l m r)) where
  Parted-left : Parted lo p.address l sub u → Parted lo hi (node p d l m r) (node p d sub m r) u
  Parted-left k = record {
    from = k.from;
    to = k.to;
    within = (k.within.0, omega (arith, h.0, k.within));
    ordered = (h.0, k.ordered, h.2, h.3, h.4);
    ordered' = k.ordered';
    each = λ P (a, el, em, er). let (el', eu) = k.each P el in ((a, el', em, er), eu);
    beside =
        Each-map _ _ u
          (λ v (s, i). Beside-left lo hi p d l m r h v sub (omega (arith, i, k.within)) s)
          (Each-both _ _ u k.beside (IsOrdered-Each k.from k.to u k.ordered'));
    routes = λ f. omega (arith, k.routes f);
  }

  Parted-right :
      Parted (suc p.endaddress) hi r sub u → Parted lo hi (node p d l m r) (node p d l m sub) u
  Parted-right k = record {
    from = k.from;
    to = k.to;
    within = (omega (arith, h.0, k.within), k.within.1);
    ordered = (h.0, h.1, h.2, k.ordered, h.4);
    ordered' = k.ordered';
    each = λ P (a, el, em, er). let (er', eu) = k.each P er in ((a, el, em, er'), eu);
    beside =
        Each-map _ _ u
          (λ v (s, i). Beside-right lo hi p d l m r h v sub (omega (arith, i, k.within)) s)
          (Each-both _ _ u k.beside (IsOrdered-Each k.from k.to u k.ordered'));
    routes = λ f. omega (arith, k.routes f);
  }

  Parted-mid :
      Parted p.address (suc p.endaddress) m sub u
      → Parted lo hi (node p d l m r) (node p d l sub r) u
  Parted-mid k =
      let (w, wu) = k.each (Smaller p) h.4 in
      record {
        from = k.from;
        to = k.to;
        within = (omega (arith, h.0, k.within), omega (arith, h.0, k.within));
        ordered = (h.0, h.1, k.ordered, h.3, w);
        ordered' = k.ordered';
        each = λ P (a, el, em, er). let (em', eu) = k.each P em in ((a, el, em', er), eu);
        beside =
            Each-map _ _ u
              (λ v (s, (i, g)).
                Beside-mid lo hi p d l m r h v sub
                  (omega (arith, i, k.within), omega (arith, i, k.within)) g s)
              (Each-both _ _ u k.beside
                (Each-both _ _ u (IsOrdered-Each k.from k.to u k.ordered') wu));
        routes = λ f. omega (arith, k.routes f);
      }

  whole-Parted : Parted lo hi (node p d l m r) nil (node p d l m r)
  whole-Parted = record {
    from = lo;
    to = hi;
    within = (omega arith, omega arith);
    ordered = tt;
    ordered' = h;
    each = λ P e. (tt, e);
    beside = Each-map _ _ (node p d l m r) (λ v i. tt) (IsOrdered-Each lo hi (node p d l m r) h);
    routes = λ f. omega arith;
  }

pub cut-Parted :
    (lo hi : ℕ) (t : RouteTree) (x : Route) (u : RouteTree)
    → IsOrdered lo hi t
    → looknode t x ≡ some u
    → Parted lo hi t (cut t x) u
unfolding looknode cut
cut-Parted lo hi nil x u h e = absurd (cc e)
cut-Parted lo hi (node p d l m r) x u h e = elim (Order-cases (rangecompare x p)) [
  | inl c ↦
      let k = cut-Parted lo p.address l x u h.1 (rw (c, looknode) at e) in
      rw (c, cut) (Parted-left lo hi p d l m r (cut l x) u h k)
  | inr (inl c) ↦
      let k = cut-Parted (suc p.endaddress) hi r x u h.3 (rw (c, looknode) at e) in
      rw (c, cut) (Parted-right lo hi p d l m r (cut r x) u h k)
  | inr (inr (inl c)) ↦
      let whole = node p d l m r in
      let e' : some whole ≡ some u = rw (c, looknode) at e in
      rw (c, cut)
        (subst (Parted lo hi whole nil) (some_injective whole u e')
          (whole-Parted lo hi p d l m r nil u h))
  | inr (inr (inr (inl c))) ↦ let e' : none ≡ some u = rw (c, looknode) at e in absurd (cc e')
  | inr (inr (inr (inr c))) ↦
      let k = cut-Parted p.address (suc p.endaddress) m x u h.2 (rw (c, looknode) at e) in
      rw (c, cut) (Parted-mid lo hi p d l m r (cut m x) u h k)
]
