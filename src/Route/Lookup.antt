-- ===== src/Route/Lookup.antt =====
-- The descent of v4lookup finds the innermost route that has an address.
use nix_mark_iv.Prelude.{
  ℕ, suc, ◌≤◌, ◌<◌, ◌≡◌, ◌⊎◌, inl, inr, refl, Option, none, some, leb, Bool-cases, arith, subst,
}
use nix_mark_iv.Route.{descend, Route, RouteTree, nil, node}

-- Every route of the tree.
abbrev pub Each : (Route → Type 0) → RouteTree → Type 0
Each P nil = Unit {0}
Each P (node p d l m r) = P p × Each P l × Each P m × Each P r

-- The range of `b` ends earlier or starts later than that of `a`.
abbrev pub Smaller : Route → Route → Type 0
Smaller a b = (a.address < b.address) ⊎ (b.endaddress < a.endaddress)

-- A tree in order, of ranges from `lo` up to, not including, `hi`; a range inside another is
-- smaller.
abbrev pub IsOrdered : ℕ → ℕ → RouteTree → Type 0
IsOrdered lo hi nil = Unit {0}
IsOrdered lo hi (node p d l m r) =
    ((lo ≤ p.address) × (p.address ≤ p.endaddress) × (p.endaddress < hi))
    × IsOrdered lo p.address l
    × IsOrdered p.address (suc p.endaddress) m
    × IsOrdered (suc p.endaddress) hi r
    × Each (Smaller p) m

abbrev pub Has : Route → ℕ → Type 0
Has p la = (p.address ≤ la) × (la ≤ p.endaddress)

-- The range of `a` has that of `b`.
abbrev pub Within : Route → Route → Type 0
Within b a = (a.address ≤ b.address) × (b.endaddress ≤ a.endaddress)

-- One of its routes.
abbrev pub Some : (Route → Type 0) → RouteTree → Type 0
Some P nil = ⊥
Some P (node p d l m r) = P p ⊎ (Some P l ⊎ (Some P m ⊎ Some P r))

pub Each-map :
    (P Q : Route → Type 0) (t : RouteTree) → ((r : Route) → P r → Q r) → Each P t → Each Q t
Each-map P Q nil f e = tt
Each-map P Q (node p d l m r) f (a, x, y, z) =
    (f p a, Each-map P Q l f x, Each-map P Q m f y, Each-map P Q r f z)

-- The ranges of a tree in order are between its bounds.
pub IsOrdered-Each :
    (lo hi : ℕ) (t : RouteTree)
    → IsOrdered lo hi t
    → Each (λ r. (lo ≤ r.address) × (r.address ≤ r.endaddress) × (r.endaddress < hi)) t
IsOrdered-Each lo hi nil h = tt
IsOrdered-Each lo hi (node p d l m r) ((a, b, c), x, y, z, w) = (
  (a, b, c),
  Each-map _ _ l (λ r k. (k.0, k.1, omega (arith, k))) (IsOrdered-Each lo p.address l x),
  Each-map _ _ m (λ r k. (omega (arith, k), k.1, omega (arith, k)))
      (IsOrdered-Each p.address (suc p.endaddress) m y),
  Each-map _ _ r (λ r k. (omega (arith, k), k.1, k.2)) (IsOrdered-Each (suc p.endaddress) hi r z),
)

-- No route that has the address has a smaller range.
abbrev pub Innermost : ℕ → Route → RouteTree → Type 0
Innermost la p t = Each (λ r. Has r la → Within p r) t

abbrev pub Lacking : ℕ → RouteTree → Type 0
Lacking la t = Each (λ r. Has r la → ⊥) t

-- `o` is the innermost route with the address, or `q` if there is none.
abbrev pub Found : ℕ → Option Route → RouteTree → Option Route → Type 0
Found la q t o =
    ((o ≡ q) × Lacking la t)
    ⊎ ((p : Route) × (o ≡ some p) × Has p la × Some (λ x. x ≡ p) t × Innermost la p t)

none_vacuous : (la : ℕ) (p : Route) (t : RouteTree) → Lacking la t → Innermost la p t
none_vacuous la p t e = Each-map _ _ t (λ r f has. absurd (f has)) e

-- Addresses outside of the bounds are in no range.
none_outside :
    (la lo hi : ℕ) (t : RouteTree) → IsOrdered lo hi t → (la < lo) ⊎ (hi ≤ la) → Lacking la t
none_outside la lo hi t h o =
    Each-map _ _ t (λ r k has. omega (arith, k, has, o)) (IsOrdered-Each lo hi t h)

Each-Some : (P : Route → Type 0) (t : RouteTree) (a : Route) → Each P t → Some (λ x. x ≡ a) t → P a
Each-Some P nil a e s = absurd s
Each-Some P (node p d l m r) a (h, x, y, z) (inl same) = subst P same h
Each-Some P (node p d l m r) a (h, x, y, z) (inr (inl s)) = Each-Some P l a x s
Each-Some P (node p d l m r) a (h, x, y, z) (inr (inr (inl s))) = Each-Some P m a y s
Each-Some P (node p d l m r) a (h, x, y, z) (inr (inr (inr s))) = Each-Some P r a z s

module _ (la lo hi : ℕ) (q : Option Route) (p : Route) (d : ℕ) (l m r : RouteTree)
    (h : IsOrdered lo hi (node p d l m r)) where
  Found-left : la < p.address → (o : Option Route) → Found la q l o → Found la q (node p d l m r) o
  Found-left low o (inl (e, empty)) = inl (
    e,
    (
      λ has. omega (arith, has),
      empty,
      none_outside la p.address (suc p.endaddress) m h.2 (inl low),
      none_outside la (suc p.endaddress) hi r h.3 (inl (omega arith)),
    ),
  )
  Found-left low o (inr (s, e, has, here, best)) =
      let no_m = none_outside la p.address (suc p.endaddress) m h.2 (inl low) in
      let no_r = none_outside la (suc p.endaddress) hi r h.3 (inl (omega arith)) in
      inr (
        s,
        e,
        has,
        inr (inl here),
        (λ has. omega (arith, has), best, none_vacuous la s m no_m, none_vacuous la s r no_r),
      )

  Found-right :
      p.endaddress < la → (o : Option Route) → Found la q r o → Found la q (node p d l m r) o
  Found-right high o (inl (e, empty)) = inl (
    e,
    (
      λ has. omega (arith, has),
      none_outside la lo p.address l h.1 (inr (omega arith)),
      none_outside la p.address (suc p.endaddress) m h.2 (inr (omega arith)),
      empty,
    ),
  )
  Found-right high o (inr (s, e, has, here, best)) =
      let no_l = none_outside la lo p.address l h.1 (inr (omega arith)) in
      let no_m = none_outside la p.address (suc p.endaddress) m h.2 (inr (omega arith)) in
      inr (
        s,
        e,
        has,
        inr (inr (inr here)),
        (λ has. omega (arith, has), none_vacuous la s l no_l, none_vacuous la s m no_m, best),
      )

  Found-mid : Has p la → (o : Option Route) → Found la (some p) m o → Found la q (node p d l m r) o
  Found-mid has o f = inside f
    where
      inside : Found la (some p) m o → Found la q (node p d l m r) o
      inside (inl (e, empty)) = inr (
        p,
        e,
        has,
        inl refl,
        (
          λ k. (omega arith, omega arith),
          none_vacuous la p l (none_outside la lo p.address l h.1 (inr has.0)),
          none_vacuous la p m empty,
          none_vacuous la p r
              (none_outside la (suc p.endaddress) hi r h.3 (inl (omega (arith, has)))),
        ),
      )
      inside (inr (s, e, k, here, best)) =
          let within = Each-Some _ m s (IsOrdered-Each p.address (suc p.endaddress) m h.2) here in
          inr (
            s,
            e,
            k,
            inr (inr (inl here)),
            (
              λ k'. (within.0, omega (arith, within)),
              none_vacuous la s l (none_outside la lo p.address l h.1 (inr has.0)),
              best,
              none_vacuous la s r
                  (none_outside la (suc p.endaddress) hi r h.3 (inl (omega (arith, has)))),
            ),
          )

descend-Found :
    (la lo hi : ℕ) (q : Option Route) (t : RouteTree)
    → IsOrdered lo hi t
    → Found la q t (descend la q t)
unfolding descend
descend-Found la lo hi q nil h = inl (refl, tt)
descend-Found la lo hi q (node p d l m r) h = elim (Bool-cases (leb p.address la)) [
  | inr low ↦ rw low (
      Found-left la lo hi q p d l m r h (ground arith) (descend la q l)
        (descend-Found la lo p.address q l h.1))
  | inl reached ↦ elim (Bool-cases (leb la p.endaddress)) [
    | inr high ↦
        rw (reached, high)
          (Found-right la lo hi q p d l m r h (ground arith) (descend la q r)
            (descend-Found la (suc p.endaddress) hi q r h.3))
    | inl has ↦
        rw (reached, has)
          (Found-mid la lo hi q p d l m r h (ground arith, ground arith) (descend la (some p) m)
            (descend-Found la p.address (suc p.endaddress) (some p) m h.2))
  ]
]

-- In a tree in order, the loop of v4lookup ends with the innermost of the routes that have the
-- address, which is the one with the longest mask, and with nil only if no route has it.
pub descend_lem :
    (la lo hi : ℕ) (t : RouteTree) → IsOrdered lo hi t → Found la none t (descend la none t)
descend_lem la lo hi t h = descend-Found la lo hi none t h
