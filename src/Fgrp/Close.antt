-- ===== src/Fgrp/Close.antt =====
-- fdclose of port/sysfile.c: the table stays valid, and maxfd still bounds what is in use.
use nix_mark_iv.Prelude.{
  ℕ, zero, suc, ◌≤◌, ◌<◌, ◌≡◌, refl, sym, ap, ◌∙◌, subst, Bool, Option, none, some, List, [], ◌∷◌,
  length, get_or, set, arith, Bool-cases, Option-cases, inl, inr, ltb, length-set,
}
use nix_mark_iv.Prelude.{◌==◌, if◌then◌else◌}
use nix_mark_iv.Fgrp.Entries.{get_or-set, get_or-set_nil, get_or-set_d}
use nix_mark_iv.Fgrp.Table.{IsValid}
use nix_mark_iv.Fgrp.{leb, true, fdclose, lower_max, Fgrp, lookup}

passed :
    (fds : List (Option ℕ)) (i j m : ℕ)
    → get_or fds i none ≡ none
    → ((j : ℕ) → m ≤ j → j < i → get_or fds j none ≡ none)
    → m ≤ j
    → j < suc i
    → get_or fds j none ≡ none
passed fds i j m closed nil low high = elim (Bool-cases (j == i)) [
  | inl same ↦ let e : j ≡ i = ground arith in ap (λ k. get_or fds k none) e ∙ closed
  | inr other ↦ nil j low (ground arith)
]

-- The loop of fdclose: it does not raise maxfd, and every entry it has passed is nil.
lower_max_lem :
    (fds : List (Option ℕ)) (i m : ℕ)
    → i ≤ m
    → (lower_max fds i m ≤ m) × ((j : ℕ) → lower_max fds i m ≤ j → j < i → get_or fds j none ≡ none)
unfolding lower_max
lower_max_lem fds zero m h = (omega arith, λ j low high. absurd (omega arith))
lower_max_lem fds (suc i) m h = elim (Option-cases (get_or fds i none)) [
  | inl closed ↦
      let (below, nil) = lower_max_lem fds i i (omega arith) in
      let eq : lower_max fds (suc i) m ≡ lower_max fds i i = ground arith in
      (
        omega arith,
        λ j low high. passed fds i j (lower_max fds i i) closed nil (omega arith) (omega arith),
      )
  | inr (c, opened) ↦
      let eq : lower_max fds (suc i) m ≡ m = ground arith in
      (omega arith, λ j low high. absurd (omega arith))
]

closed-IsValid :
    (f : Fgrp) (fd m : ℕ)
    → IsValid f
    → m ≤ f.maxfd
    → ((j : ℕ) → m < j → j ≤ f.maxfd → get_or (set f.fd fd none) j none ≡ none)
    → IsValid (record f { fd = set f.fd fd none; maxfd = m })
closed-IsValid f fd m v h nil = record {
  sized = length-set f.fd fd none ∙ v.sized;
  inside = omega arith;
  stepped = v.stepped;
  clear = λ j above. elim (Bool-cases (leb j f.maxfd)) [
    | inl low ↦ nil j above (ground arith)
    | inr high ↦ get_or-set_nil f.fd fd j none (v.clear j (ground arith))
  ];
}

abbrev closing : Fgrp → ℕ → ℕ
closing f fd = if fd == f.maxfd then lower_max (set f.fd fd none) fd f.maxfd else f.maxfd

fdclose-open :
    (flagged : ℕ → Bool) (f : Fgrp) (fd c : ℕ)
    → lookup f fd ≡ some c
    → flagged c ≡ true
    → fdclose flagged f fd ≡ (some c, record f { fd = set f.fd fd none; maxfd = closing f fd })
unfolding fdclose
fdclose-open flagged f fd c opened has = ground arith

open_in : (xs : List (Option ℕ)) (i c : ℕ) → get_or xs i none ≡ some c → i < length xs
open_in [] i c e = grind arith
open_in (x ∷ xs) zero c e = omega arith
open_in (x ∷ xs) (suc i) c e = let h = open_in xs i c e in omega arith

closing_lem :
    (f : Fgrp) (fd : ℕ)
    → IsValid f
    → (closing f fd ≤ f.maxfd)
      × ((j : ℕ) → closing f fd < j → j ≤ f.maxfd → get_or (set f.fd fd none) j none ≡ none)
closing_lem f fd v = elim (Bool-cases (fd == f.maxfd)) [
  | inl top ↦
      let eq : closing f fd ≡ lower_max (set f.fd fd none) fd f.maxfd = ground arith in
      let (below, nil) = lower_max_lem (set f.fd fd none) fd f.maxfd (ground arith) in
      (
        omega arith,
        λ j low high. elim (Bool-cases (ltb j fd)) [
          | inl under ↦ nil j (omega arith) (ground arith)
          | inr at ↦
              let e : j ≡ fd = ground arith in
              ap (λ k. get_or (set f.fd fd none) k none) e ∙ get_or-set_d f.fd fd none
        ],
      )
  | inr other ↦
      let eq : closing f fd ≡ f.maxfd = ground arith in
      (omega arith, λ j low high. absurd (omega arith))
]

-- fdclose on an open descriptor of a valid table whose channel has a flag asked for hands the
-- channel back to be closed, makes the entry nil, and keeps every other entry and the validity of
-- the table.
pub fdclose_lem :
    (flagged : ℕ → Bool) (f : Fgrp) (fd c : ℕ)
    → IsValid f
    → lookup f fd ≡ some c
    → flagged c ≡ true
    → (i : ℕ)
    → let (closed, f') = fdclose flagged f fd in
      (closed ≡ some c) × (IsValid f') × (lookup f' i ≡ (if i == fd then none else lookup f i))
fdclose_lem flagged f fd c v opened has i =
    let (low, nil) = closing_lem f fd v in
    subst
      (λ r.
        (r.0 ≡ some c) × (IsValid r.1) × (lookup r.1 i ≡ (if i == fd then none else lookup f i)))
      (sym (fdclose-open flagged f fd c opened has))
      (
        refl,
        closed-IsValid f fd (closing f fd) v low nil,
        get_or-set f.fd fd i none none (open_in f.fd fd c opened),
      )
