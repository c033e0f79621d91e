-- ===== src/Route/Balance.antt =====
-- Rotations keep a tree of routes in order and keep its routes.
use nix_mark_iv.Prelude.{ℕ, ◌+◌, ◌≡◌, inl, inr, refl, ltb, Bool-cases, arith}
use nix_mark_iv.Route.{
  Route, RouteTree, nil, node, depth, rotate_left_up, rotate_right_up, balancetree,
}
use nix_mark_iv.Route.Lookup.{IsOrdered, Each}

-- The sum of the weights of the routes: for every weight the same if the routes are.
abbrev pub total : (Route → ℕ) → RouteTree → ℕ
total f nil = 0
total f (node p d l m r) = f p + total f l + total f m + total f r

-- The trees have the same routes, and the second is in order if the first is.
pub record Rebuilt (t u : RouteTree) : Type 1 where
  pub ordered : (lo hi : ℕ) → IsOrdered lo hi t → IsOrdered lo hi u
  pub each : (P : Route → Type 0) → Each P t → Each P u
  pub routes : (f : Route → ℕ) → total f u ≡ total f t

rotate_left_up-Rebuilt :
    (p : Route) (d : ℕ) (l m r : RouteTree) → Rebuilt (node p d l m r) (rotate_left_up p d l m r)
unfolding rotate_left_up
rotate_left_up-Rebuilt p d nil m r = record {
  ordered = λ lo hi h. h;
  each = λ P e. e;
  routes = λ f. refl;
}
rotate_left_up-Rebuilt p d (node q e ql qm qr) m r = record {
  ordered = λ lo hi h.
      let ((a, b, c), ((a', b', c'), x, y, z, w), hm, hr, v) = h in
      ((a', b', omega arith), x, y, ((omega arith, b, c), z, hm, hr, v), w);
  each = λ P e. let (a, (b, x, y, z), m', r') = e in (b, x, y, (a, z, m', r'));
  routes = λ f. omega arith;
}

rotate_right_up-Rebuilt :
    (p : Route) (d : ℕ) (l m r : RouteTree) → Rebuilt (node p d l m r) (rotate_right_up p d l m r)
unfolding rotate_right_up
rotate_right_up-Rebuilt p d l m nil = record {
  ordered = λ lo hi h. h;
  each = λ P e. e;
  routes = λ f. refl;
}
rotate_right_up-Rebuilt p d l m (node q e ql qm qr) = record {
  ordered = λ lo hi h.
      let ((a, b, c), hl, hm, ((a', b', c'), x, y, z, w), v) = h in
      ((omega arith, b', c'), ((a, b, omega arith), hl, hm, x, v), y, z, w);
  each = λ P e. let (a, l', m', (b, x, y, z)) = e in (b, (a, l', m', x), y, z);
  routes = λ f. omega arith;
}

pub balancetree-Rebuilt : (t : RouteTree) → Rebuilt t (balancetree t)
unfolding balancetree
balancetree-Rebuilt nil = record { ordered = λ lo hi h. h; each = λ P e. e; routes = λ f. refl }
balancetree-Rebuilt (node p d l m r) = elim (Bool-cases (ltb (depth r + 1) (depth l))) [
  | inl heavy ↦ rw heavy (rotate_left_up-Rebuilt p d l m r)
  | inr light ↦ elim (Bool-cases (ltb (depth l + 1) (depth r))) [
    | inl heavy ↦ rw (light, heavy) (rotate_right_up-Rebuilt p d l m r)
    | inr even ↦
        rw (light, even) (record { ordered = λ lo hi h. h; each = λ P e. e; routes = λ f. refl })
  ]
]
