-- ===== src/Route/Roots.antt =====
-- A route that v4addroute put into the forest is found by v4lookup.
use nix_mark_iv.Route.Merge.{add_to_root_lem}
use nix_mark_iv.Route.Insert.{Nests}
use nix_mark_iv.Prelude.{
  suc, ◌≤◌, true, false, ◌≢◌, ◌⊎◌, ℕ, ◌<◌, ◌≡◌, inl, inr, ◌&&◌, Option, none, some, arith, ◌==◌,
  if◌then◌else◌, Bool-cases, zero, ◌+◌, ◌-◌, ◌/◌, ◌%◌, ◌^◌, refl, sym, ap, ◌∙◌, subst,
}
use nix_mark_iv.Route.{
  v4lookup, v4addroute, v4h, add_to_roots, set_root, Route, RouteTree, nil, node, descend,
}
use nix_mark_iv.Route.Lookup.{IsOrdered, Each, Has, Within, Found, descend_lem}
use nix_mark_iv.Route.Balance.{total}

-- 1 for a route with the range of `a`.
abbrev same_range : Route → Route → ℕ
same_range a b = if a.address == b.address && a.endaddress == b.endaddress then 1 else 0

-- What holds of every route and follows for one range from any route with it.
Each-same_range :
    (P : Route → Type 0) (G : Type 0) (a : Route) (t : RouteTree)
    → ((b : Route) → a.address ≡ b.address → a.endaddress ≡ b.endaddress → P b → G)
    → Each P t
    → 0 < total (same_range a) t
    → G
Each-same_range P G a nil f e h = absurd (omega arith)
Each-same_range P G a (node p d l m r) f (b, x, y, z) h =
    elim (Bool-cases (a.address == p.address && a.endaddress == p.endaddress)) [
      | inl same ↦ f p (ground arith) (ground arith) b
      | inr other ↦ elim (Bool-cases (total (same_range a) l == 0)) [
        | inr here ↦ Each-same_range P G a l f x (ground arith)
        | inl empty ↦ elim (Bool-cases (total (same_range a) m == 0)) [
          | inr here ↦ Each-same_range P G a m f y (ground arith)
          | inl empty' ↦ Each-same_range P G a r f z (ground arith)
        ]
      ]
    ]

-- What a lookup in the range of a new route finds.
abbrev pub Finds : Route → ℕ → Option Route → Type 0
Finds new la o = (p : Route) × (o ≡ some p) × Has p la × Within p new

descend-Finds :
    (la lo hi : ℕ) (t : RouteTree) (new : Route)
    → IsOrdered lo hi t
    → 0 < total (same_range new) t
    → Has new la
    → Finds new la (descend la none t)
descend-Finds la lo hi t new h c has = split (descend_lem la lo hi t h)
  where
    split : Found la none t (descend la none t) → Finds new la (descend la none t)
    split (inl (e, empty)) = absurd (
        Each-same_range _ ⊥ new t (λ b a z f. f (omega (arith, a, has), omega (arith, z, has)))
          empty c)
    split (inr (p, e, k, here, best)) = (
      p,
      e,
      k,
      Each-same_range _ (Within p new) new t
          (λ b a z f.
            let g = f (omega (arith, a, has), omega (arith, z, has)) in
            (omega (arith, a, g), omega (arith, z, g)))
          best c,
    )

own_range : (a : Route) → same_range a a ≡ 1
own_range a = ground arith

-- A root that can take the route.
abbrev pub Ready : Route → RouteTree → Type 0
Ready new t = IsOrdered 0 4294967296 t × Each (Nests new) t

-- A root that has a route with the range.
abbrev pub Holding : Route → RouteTree → Type 0
Holding new t = IsOrdered 0 4294967296 t × (0 < total (same_range new) t)

-- What the loop over `n` roots from `h` on has done.
abbrev Spread : (ℕ → RouteTree) → Route → ℕ → ℕ → Option (ℕ → RouteTree) → Type 0
Spread roots new n h o =
    (all : ℕ → RouteTree) × (o ≡ some all)
    × ((k : ℕ) → (k < h) ⊎ (h + n ≤ k) → all k ≡ roots k)
    × ((k : ℕ) → h ≤ k → k < h + n → Holding new (all k))

set_root_other :
    (roots : ℕ → RouteTree) (h : ℕ) (t : RouteTree) (k : ℕ) → k ≢ h → set_root roots h t k ≡ roots k
set_root_other roots h t k ne = let e : (k == h) ≡ false = ground arith in rw e refl

set_root_same : (roots : ℕ → RouteTree) (h : ℕ) (t : RouteTree) → set_root roots h t h ≡ t
set_root_same roots h t = let e : (h == h) ≡ true = ground arith in rw e refl

add_to_roots-Spread :
    (fuel n h : ℕ) (roots : ℕ → RouteTree) (new : Route)
    → (new.address ≤ new.endaddress) × (new.endaddress < 4294967296)
    → ((k : ℕ) → h ≤ k → Ready new (roots k))
    → Spread roots new n h (add_to_roots (suc (suc fuel)) n h roots new)
unfolding add_to_roots
add_to_roots-Spread fuel zero h roots new b r =
    (roots, refl, λ k o. refl, λ k i j. absurd (omega arith))
add_to_roots-Spread fuel (suc n) h roots new b r =
    let (ordered, nests) = r h (omega arith) in
    let s = add_to_root_lem fuel 0 4294967296 (roots h) new ordered (omega arith, b.0, b.1) nests in
    let next = set_root roots h s.tree in
    let ready : (k : ℕ) → suc h ≤ k → Ready new (next k) = λ k i.
      subst (Ready new) (sym (set_root_other roots h s.tree k (omega arith))) (r k (omega arith)) in
    let (all, e, same, held) = add_to_roots-Spread fuel n (suc h) next new b ready in
    let here : all h ≡ s.tree = same h (inl (omega arith)) ∙ set_root_same roots h s.tree in
    let count : 0 < total (same_range new) s.tree =
      omega (arith, s.routes (same_range new), own_range new) in
    rw (s.ends, add_to_roots)
      (
        all,
        e,
        λ k o. same k (shift k o) ∙ set_root_other roots h s.tree k (omega (arith, o)),
        λ k i j. elim (Bool-cases (k == h)) [
          | inl at ↦
              let eq : k ≡ h = ground arith in
              subst (λ t. Holding new t) (sym (ap all eq ∙ here)) (s.ordered, count)
          | inr later ↦ held k (ground arith) (omega arith)
        ],
      )
  where
    shift : (k : ℕ) → (k < h) ⊎ (h + suc n ≤ k) → (k < suc h) ⊎ (suc h + n ≤ k)
    shift k (inl i) = inl (omega arith)
    shift k (inr i) = inr (omega arith)

-- A range whose ends differ in the first 5 bits starts and ends where these change, as it does for
-- every mask of leading ones.
abbrev pub IsMasked : Route → Type 0
IsMasked r =
    (r.address / 2 ^ 27 ≡ r.endaddress / 2 ^ 27)
    ⊎ ((r.address % 2 ^ 27 ≡ 0) × (r.endaddress % 2 ^ 27 ≡ 2 ^ 27 - 1))

v4h-Has :
    (r : Route) (la : ℕ)
    → IsMasked r
    → Has r la
    → (v4h r.address ≤ v4h la) × (v4h la ≤ v4h r.endaddress)
unfolding v4h
v4h-Has r la (inl e) h = (omega (arith, h), omega (arith, h))
v4h-Has r la (inr e) h = (omega (arith, e), omega (arith, e))

-- In a forest of trees in order, v4addroute of a range of a mask of leading ones that is no route of
-- any tree, and apart from, inside of or around each range there, succeeds; and then v4lookup of any
-- address in that range finds a route that has the address and lies within that range.
pub v4lookup-v4addroute :
    (fuel : ℕ) (roots : ℕ → RouteTree) (new : Route) (la : ℕ)
    → (new.address ≤ new.endaddress) × (new.endaddress < 4294967296)
    → IsMasked new
    → ((k : ℕ) → Ready new (roots k))
    → Has new la
    → (all : ℕ → RouteTree) × (v4addroute (suc (suc fuel)) roots new ≡ some all)
      × Finds new la (v4lookup all la)
unfolding v4addroute v4lookup
v4lookup-v4addroute fuel roots new la b m r has =
    let h = v4h new.address in
    let n = v4h new.endaddress + 1 - h in
    let (all, e, same, held) = add_to_roots-Spread fuel n h roots new b (λ k i. r k) in
    let (low, high) = v4h-Has new la m has in
    let (ordered, count) = held (v4h la) low (omega arith) in
    (all, e, descend-Finds la 0 4294967296 (all (v4h la)) new ordered count has)
