-- ===== src/Route.antt =====
-- The trees of version 4 routes of ip/iproute.c: rangecompare, calcd, balancetree, addnode, walkadd
-- and looknode, the loops of v4addroute, v4delroute and v4lookup, and struct Route of ip/ip.h. A
-- route is a range of addresses. The tree at `left` has the ranges before that of a node, the one at
-- `right` those behind it, the one at `mid` those inside it. The depth is the field of 8 bits, which
-- may be out of date, and -1 in the 8 bits of `ifcid` is 255. `ref` is not 0. A queue of nodes is a
-- list, and routelock makes each routine one step.
pub mod Lookup
pub mod Balance
pub mod Insert
pub mod Walk
pub mod Queued
pub mod Merge
pub mod Parted
pub mod Remove
pub mod Roots
use nix_mark_iv.Prelude.{
  ◌^◌, ℕ, zero, suc, ◌+◌, ◌-◌, ◌/◌, ◌%◌, Bool, true, false, ◌&&◌, Option, none, some, List, [], ◌∷◌,
  ◌++◌, ltb, leb, ◌==◌, if◌then◌else◌,
}

pub record Route : Type 0 where
  pub address : ℕ
  pub endaddress : ℕ
  pub gate : List ℕ
  -- `type`
  pub flags : ℕ
  pub ifcid : ℕ
  pub ref : ℕ

pub data RouteTree : Type 0 where
  nil : RouteTree
  node : Route → ℕ → RouteTree → RouteTree → RouteTree → RouteTree

pub data Order : Type 0 where
  preceeds follows equals contains contained : Order

unfoldable pub rangecompare : Route → Route → Order
rangecompare a b =
    if ltb a.endaddress b.address
    then preceeds
    else if ltb b.endaddress a.address
    then follows
    else if leb a.address b.address && leb b.endaddress a.endaddress
    then if a.address == b.address && a.endaddress == b.endaddress then equals else contains
    else contained

abbrev pub depth : RouteTree → ℕ
depth nil = 0
depth (node p d l m r) = d

abbrev pub max_of : ℕ → ℕ → ℕ
max_of a b = if ltb b a then a else b

abbrev pub calcd : RouteTree → RouteTree
calcd nil = nil
calcd (node p d l m r) = node p ((max_of (depth m) (max_of (depth r) (depth l)) + 1) % 256) l m r

-- The rotations at the node `p`; without the subtree that becomes the root there is none.
unfoldable pub rotate_left_up : Route → ℕ → RouteTree → RouteTree → RouteTree → RouteTree
rotate_left_up p d nil m r = node p d nil m r
rotate_left_up p d (node q e ql qm qr) m r = calcd (node q e ql qm (calcd (node p d qr m r)))

unfoldable pub rotate_right_up : Route → ℕ → RouteTree → RouteTree → RouteTree → RouteTree
rotate_right_up p d l m nil = node p d l m nil
rotate_right_up p d l m (node q e ql qm qr) = calcd (node q e (calcd (node p d l m ql)) qm qr)

unfoldable pub balancetree : RouteTree → RouteTree
balancetree nil = nil
balancetree (node p d l m r) =
    if ltb (depth r + 1) (depth l)
    then rotate_left_up p d l m r
    else if ltb (depth l + 1) (depth r)
    then rotate_right_up p d l m r
    else calcd (node p d l m r)

-- Rifc in `flags`.
abbrev pub is_rifc : Route → Bool
is_rifc r = r.flags / 2 % 2 == 1

-- A route with the range of one in the tree.
unfoldable pub supersede : Route → Route → Route
supersede p new =
    if is_rifc p
    then if is_rifc new then record p { ref = p.ref + 1 } else p
    else record p { flags = new.flags; ifcid = 255; gate = new.gate }

-- addnode of a route with the routes inside it: the tree, and the node that is put in the queue.
unfoldable pub addnode : RouteTree → Route → RouteTree → RouteTree × Option RouteTree
addnode nil new mid = (node new 1 nil mid nil, none)
addnode (node p d l m r) new mid =
    let (l', lq) = addnode l new mid in
    let (m', mq) = addnode m new mid in
    let (r', rq) = addnode r new mid in
    elim (rangecompare new p) [
      | preceeds ↦ (balancetree (node p d l' m r), lq)
      | follows ↦ (balancetree (node p d l m r'), rq)
      | contains ↦ (balancetree (node new 1 nil mid nil), some (node p d l m r))
      | equals ↦ (balancetree (node (supersede p new) d l m r), none)
      | contained ↦ (balancetree (node p d l m' r), mq)
    ]

abbrev pub addqueue : Option RouteTree → List RouteTree → List RouteTree
addqueue none q = q
addqueue (some t) q = t ∷ q

-- The tree and the queue after a tree is walked and its nodes are added.
unfoldable pub walkadd : RouteTree × List RouteTree → RouteTree → RouteTree × List RouteTree
walkadd s nil = s
walkadd s (node p d l m r) =
    let (root, queued) = addnode s.0 p m in walkadd (walkadd (root, addqueue queued s.1) l) r

unfoldable pub looknode : RouteTree → Route → Option RouteTree
looknode nil r = none
looknode (node p d l m rt) r =
    let left = looknode l r in
    let mid = looknode m r in
    let right = looknode rt r in
    elim (rangecompare r p) [
      | preceeds ↦ left
      | follows ↦ right
      | contains ↦ none
      | equals ↦ some (node p d l m rt)
      | contained ↦ mid
    ]

-- The loop of v4lookup: `q` is the last route found.
unfoldable pub descend : ℕ → Option Route → RouteTree → Option Route
descend la q nil = q
descend la q (node p d l m r) =
    let inside = descend la (some p) m in
    let behind = descend la q r in
    let before = descend la q l in
    if leb p.address la then if leb la p.endaddress then inside else behind else before

-- The loop that empties the queue; each round takes one node of it and some of the fuel.
unfoldable pub settle : ℕ → RouteTree × List RouteTree → Option RouteTree
settle zero s = none
settle (suc fuel) (root, []) = some root
settle (suc fuel) (root, t ∷ q) = settle fuel (walkadd (root, q) t)

-- v4addroute of a new route in one of the trees.
unfoldable pub add_to_root : ℕ → RouteTree → Route → Option RouteTree
add_to_root fuel root new =
    let (root, queued) = addnode root new nil in settle fuel (root, addqueue queued [])

-- The tree with nil at the place that looknode returns.
unfoldable pub cut : RouteTree → Route → RouteTree
cut nil r = nil
cut (node p d l m rt) r =
    let left = cut l r in
    let mid = cut m r in
    let right = cut rt r in
    elim (rangecompare r p) [
      | preceeds ↦ node p d left m rt
      | follows ↦ node p d l m right
      | contains ↦ node p d l m rt
      | equals ↦ nil
      | contained ↦ node p d l mid rt
    ]

-- The tree with one reference less at that place.
unfoldable pub unref : RouteTree → Route → RouteTree
unref nil r = nil
unref (node p d l m rt) r =
    let left = unref l r in
    let mid = unref m r in
    let right = unref rt r in
    elim (rangecompare r p) [
      | preceeds ↦ node p d left m rt
      | follows ↦ node p d l m right
      | contains ↦ node p d l m rt
      | equals ↦ node (record p { ref = p.ref - 1 }) d l m rt
      | contained ↦ node p d l mid rt
    ]

-- addqueue of a tree that may be nil.
abbrev pub queue_tree : RouteTree → List RouteTree → List RouteTree
queue_tree nil q = q
queue_tree (node p d l m r) q = node p d l m r ∷ q

abbrev pub subtrees : RouteTree → List RouteTree
subtrees nil = []
subtrees (node p d l m r) = queue_tree r (queue_tree m (queue_tree l []))

abbrev pub is_last : RouteTree → Bool
is_last nil = false
is_last (node p d l m r) = p.ref == 1

-- v4delroute of a range in one of the trees.
unfoldable pub del_from_root : ℕ → RouteTree → Route → Option RouteTree
del_from_root fuel root r = elim (looknode root r) [
  | none ↦ some root
  | some t ↦
      let rest = settle fuel (cut root r, subtrees t) in
      if is_last t then rest else some (unref root r)
]

-- V4H: the low 27 bits of an address, without their last 17.
unfoldable pub v4h : ℕ → ℕ
v4h a = a % 2 ^ 27 / 2 ^ 17

abbrev pub set_root : (ℕ → RouteTree) → ℕ → RouteTree → ℕ → RouteTree
set_root roots h t k = if k == h then t else roots k

-- The loop of v4addroute over `n` roots from `h` on.
unfoldable pub add_to_roots : ℕ → ℕ → ℕ → (ℕ → RouteTree) → Route → Option (ℕ → RouteTree)
add_to_roots fuel zero h roots new = some roots
add_to_roots fuel (suc n) h roots new = elim (add_to_root fuel (roots h) new) [
  | none ↦ none
  | some t ↦ add_to_roots fuel n (suc h) (set_root roots h t) new
]

-- v4addroute of the route that it allocates for each root.
unfoldable pub v4addroute : ℕ → (ℕ → RouteTree) → Route → Option (ℕ → RouteTree)
v4addroute fuel roots new =
    let h = v4h new.address in
    let eh = v4h new.endaddress in add_to_roots fuel (eh + 1 - h) h roots new

-- The route that v4lookup finds where no conversation has kept one, before it looks for the
-- interface.
unfoldable pub v4lookup : (ℕ → RouteTree) → ℕ → Option Route
v4lookup roots la = descend la none (roots (v4h la))
