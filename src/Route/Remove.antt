-- ===== src/Route/Remove.antt =====
-- Taking a route out of a tree and merging what was below it.
use nix_mark_iv.Prelude.{
  [], Option, List, ℕ, suc, ◌+◌, ◌≤◌, ◌≡◌, inl, some, arith, zero, ap, ◌∙◌, ◌==◌, refl, true,
}
use nix_mark_iv.Route.{
  queue_tree, subtrees, walkadd, del_from_root, settle, Route, RouteTree, nil, node, looknode, cut,
}
use nix_mark_iv.Route.Lookup.{IsOrdered, Each, Each-map, IsOrdered-Each}
use nix_mark_iv.Route.Balance.{total}
use nix_mark_iv.Route.Walk.{Beside, Spine-map, Each-Spine, walkadd-Walked}
use nix_mark_iv.Route.Parted.{Parted, cut-Parted}

-- With this fuel or more the loop ends with this tree.
abbrev Ends : ℕ → RouteTree × List RouteTree → RouteTree → Type 0
Ends n s tree = (fuel : ℕ) → n ≤ fuel → settle fuel s ≡ some tree

Ends-empty : (root : RouteTree) → Ends 1 (root, []) root
unfolding settle
Ends-empty root zero h = absurd (omega arith)
Ends-empty root (suc fuel) h = refl

Ends-walkadd :
    (n : ℕ) (root t next tree : RouteTree) (q : List RouteTree)
    → walkadd (root, q) t ≡ (next, q)
    → Ends n (next, q) tree
    → Ends (suc n) (root, queue_tree t q) tree
unfolding settle walkadd
Ends-walkadd n root nil next tree q w k fuel h = ap (settle fuel) w ∙ k fuel (omega arith)
Ends-walkadd n root (node p d l m r) next tree q w k zero h = absurd (omega arith)
Ends-walkadd n root (node p d l m r) next tree q w k (suc fuel) h =
    ap (settle fuel) w ∙ k fuel (omega arith)

-- The tree after a route was taken out of `t`.
pub record Removed (lo hi : ℕ) (t : RouteTree) (p : Route) (o : Option RouteTree) : Type 1 where
  pub tree : RouteTree
  pub ends : o ≡ some tree
  pub ordered : IsOrdered lo hi tree
  pub routes : (f : Route → ℕ) → total f tree + f p ≡ total f t

-- The trees below the node that was cut off are merged, the right one first.
merge_all :
    (lo hi fuel : ℕ) (t rest : RouteTree) (p : Route) (d : ℕ) (l m r : RouteTree)
    → 4 ≤ fuel
    → Parted lo hi t rest (node p d l m r)
    → Removed lo hi t p (settle fuel (rest, subtrees (node p d l m r)))
merge_all lo hi fuel t rest p d l m r h k =
    let ((x, y, z), hl, hm, hr, w) = k.ordered' in
    let (bp, bl, bm, br) = k.beside in
    let in_l = IsOrdered-Each k.from p.address l hl in
    let in_m = IsOrdered-Each p.address (suc p.endaddress) m hm in
    let in_r = IsOrdered-Each (suc p.endaddress) k.to r hr in
    let last : List RouteTree = queue_tree l [] in
    let one =
      walkadd-Walked lo hi (suc p.endaddress) k.to rest r (queue_tree m last) k.ordered hr
        (omega (arith, k.within), k.within.1) (Each-Spine _ r br) in
    let bm' =
      Spine-map _ _ (λ v. Each (Beside v) one.tree) m
        (λ v s i. one.each (Beside v) s (Each-map _ _ r (λ o j. inl (omega (arith, i, j))) in_r))
        (Each-Spine _ m bm) in_m in
    let two =
      walkadd-Walked lo hi p.address (suc p.endaddress) one.tree m last one.ordered hm
        (omega (arith, k.within), omega (arith, k.within)) bm' in
    let bl' =
      Spine-map _ _ (λ v. Each (Beside v) two.tree) l
        (λ v s i.
          two.each (Beside v)
            (one.each (Beside v) s (Each-map _ _ r (λ o j. inl (omega (arith, i, j))) in_r))
            (Each-map _ _ m (λ o j. inl (omega (arith, i, j))) in_m))
        (Each-Spine _ l bl) in_l in
    let three =
      walkadd-Walked lo hi k.from p.address two.tree l [] two.ordered hl
        (k.within.0, omega (arith, k.within)) bl' in
    let ends = Ends-walkadd 3 rest r one.tree three.tree (queue_tree m last) one.done (
      Ends-walkadd 2 one.tree m two.tree three.tree last two.done
        (Ends-walkadd 1 two.tree l three.tree three.tree [] three.done (Ends-empty three.tree))) in
    record {
      tree = three.tree;
      ends = ends fuel h;
      ordered = three.ordered;
      routes = λ f. omega (arith, k.routes f, one.routes f, two.routes f, three.routes f);
    }

-- Deleting the last reference of a route that is in a tree in order ends within four rounds of the
-- loop, with a tree in order that has exactly the other routes.
pub del_from_root_lem :
    (lo hi fuel : ℕ) (t : RouteTree) (r p : Route) (d : ℕ) (left mid right : RouteTree)
    → 4 ≤ fuel
    → IsOrdered lo hi t
    → looknode t r ≡ some (node p d left mid right)
    → p.ref ≡ 1
    → Removed lo hi t p (del_from_root fuel t r)
unfolding del_from_root
del_from_root_lem lo hi fuel t r p d left mid right h k e one =
    let last : (p.ref == 1) ≡ true = ground arith in
    rw (e, del_from_root, last)
      (merge_all lo hi fuel t (cut t r) p d left mid right h
        (cut-Parted lo hi t r (node p d left mid right) k e))
