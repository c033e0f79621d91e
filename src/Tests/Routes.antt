-- ===== src/Tests/Routes.antt =====
-- Trees of routes: 10.0.0.0/8 with 10.1.0.0/16 and 10.2.0.0/16.
use nix_mark_iv.Route.Roots.{Ready, Finds, v4lookup-v4addroute}
use nix_mark_iv.Prelude.{
  some, ◌≡◌, refl, ℕ, none, [], ◌∷◌, inl, inr, arith, Bool, true, false, if◌then◌else◌, ◌==◌,
}
use nix_mark_iv.Route.Remove.{Removed, del_from_root_lem}
use nix_mark_iv.Route.{looknode, rangecompare, del_from_root, v4addroute, v4lookup}
use nix_mark_iv.Route.{Route, RouteTree, nil, node, descend, add_to_root}
use nix_mark_iv.Route.Lookup.{Found, descend_lem, IsOrdered}
use nix_mark_iv.Route.Merge.{Settled, add_to_root_lem}

abbrev route : ℕ → ℕ → Route
route a e = record {
  address = a;
  endaddress = e;
  gate = 10 ∷ 0 ∷ 0 ∷ 1 ∷ [];
  flags = 1;
  ifcid = 0;
  ref = 1;
}

abbrev net_a : Route
net_a = route 0x0a000000 0x0affffff

abbrev net_b : Route
net_b = route 0x0a010000 0x0a01ffff

abbrev net_c : Route
net_c = route 0x0a020000 0x0a02ffff

abbrev nested : RouteTree
nested = node net_a 2 nil (node net_b 1 nil nil nil) nil

nested-IsOrdered : IsOrdered 0 0x100000000 nested
nested-IsOrdered = (
  (omega arith, omega arith, omega arith),
  tt,
  ((omega arith, omega arith, omega arith), tt, tt, tt, tt),
  tt,
  (inl (omega arith), tt, tt, tt),
)

descend_lem_example : Found 0x0a010203 none nested (descend 0x0a010203 none nested)
descend_lem_example = descend_lem 0x0a010203 0 0x100000000 nested nested-IsOrdered

-- Two networks side by side, and the one around them.
abbrev beside : RouteTree
beside = node net_b 2 nil nil (node net_c 1 nil nil nil)

beside-IsOrdered : IsOrdered 0 0x100000000 beside
beside-IsOrdered = (
  (omega arith, omega arith, omega arith),
  tt,
  tt,
  ((omega arith, omega arith, omega arith), tt, tt, tt, tt),
  tt,
)

add_to_root_lem_example : Settled 0 0x100000000 beside net_a (add_to_root 2 beside net_a)
add_to_root_lem_example =
    add_to_root_lem 0 0 0x100000000 beside net_a beside-IsOrdered
      (omega arith, omega arith, omega arith)
      (
        (inr (inr (inr (omega arith, omega arith))), inl (omega arith)),
        tt,
        tt,
        ((inr (inr (inr (omega arith, omega arith))), inl (omega arith)), tt, tt, tt),
      )

-- The node of 10.0.0.0/8 is the root.
finds : looknode nested net_a ≡ some nested
unfolding looknode rangecompare
finds = refl

del_from_root_lem_example : Removed 0 0x100000000 nested net_a (del_from_root 4 nested net_a)
del_from_root_lem_example =
    del_from_root_lem 0 0x100000000 4 nested net_a net_a 2 nil (node net_b 1 nil nil nil) nil
      (omega arith) nested-IsOrdered finds refl

-- 10.1.0.0/16 in its root, and the other roots empty.
abbrev forest : ℕ → RouteTree
forest k = if k == 256 then node net_b 1 nil nil nil else nil

forest-Ready : (k : ℕ) → Ready net_a (forest k)
forest-Ready k = split (k == 256)
  where
    split : (b : Bool) → Ready net_a (if b then node net_b 1 nil nil nil else nil)
    split true = (
      ((omega arith, omega arith, omega arith), tt, tt, tt, tt),
      ((inr (inr (inr (omega arith, omega arith))), inl (omega arith)), tt, tt, tt),
    )
    split false = (tt, tt)

v4lookup-v4addroute_example :
    (all : ℕ → RouteTree) × (v4addroute 2 forest net_a ≡ some all)
    × Finds net_a 0x0a010203 (v4lookup all 0x0a010203)
v4lookup-v4addroute_example =
    v4lookup-v4addroute 0 forest net_a 0x0a010203 (omega arith, omega arith) (inl refl) forest-Ready
      (omega arith, omega arith)
