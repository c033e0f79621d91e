-- ===== src/Route/Merge.antt =====
-- What addnode puts in the queue is merged into the tree in one walk.
use nix_mark_iv.Prelude.{
  ℕ, suc, ◌+◌, ◌≤◌, ◌<◌, ◌≡◌, inl, inr, refl, Option, some, List, [], arith, ap, Option-cases,
}
use nix_mark_iv.Route.{Route, RouteTree, nil, addnode, settle, add_to_root}
use nix_mark_iv.Route.Lookup.{IsOrdered, Each}
use nix_mark_iv.Route.Balance.{total}
use nix_mark_iv.Route.Insert.{queued, Nests, addnode_lem}
use nix_mark_iv.Route.Walk.{walkadd-Walked}
use nix_mark_iv.Route.Queued.{addnode-Queued}

-- The tree after a route was added.
pub record Settled (lo hi : ℕ) (t : RouteTree) (new : Route) (o : Option RouteTree) : Type 1 where
  pub tree : RouteTree
  pub ends : o ≡ some tree
  pub ordered : IsOrdered lo hi tree
  pub routes : (f : Route → ℕ) → total f tree ≡ total f t + f new

-- Adding to a tree in order a route that is no route of it, and whose range is apart from, inside of
-- or around that of each of its routes, ends, after at most one node of the queue was merged; the
-- tree is in order again, and has exactly its routes and the new one.
pub add_to_root_lem :
    (fuel lo hi : ℕ) (t : RouteTree) (new : Route)
    → IsOrdered lo hi t
    → (lo ≤ new.address) × (new.address ≤ new.endaddress) × (new.endaddress < hi)
    → Each (Nests new) t
    → Settled lo hi t new (add_to_root (suc (suc fuel)) t new)
unfolding add_to_root settle
add_to_root_lem fuel lo hi t new h b n =
    let added = addnode_lem lo hi t new nil h b tt tt n in
    elim (Option-cases (addnode t new nil).1) [
      | inl e ↦
          rw (e, add_to_root)
            (record {
              tree = (addnode t new nil).0;
              ends = refl;
              ordered = added.ordered;
              routes = λ f. omega (arith, added.routes f, ap (queued f) e);
            })
      | inr (u, e) ↦
          let k = addnode-Queued lo hi t new u h n e in
          let w =
            walkadd-Walked lo hi k.from k.to (addnode t new nil).0 u [] added.ordered k.ordered
              k.within k.beside in
          rw (e, w.done, add_to_root, settle)
            (record {
              tree = w.tree;
              ends = ap (λ (s : RouteTree × List RouteTree). some s.0) w.done;
              ordered = w.ordered;
              routes = λ f. omega (arith, w.routes f, added.routes f, ap (queued f) e);
            })
    ]
