-- ===== src/Fgrp/Table.antt =====
-- The descriptor table: descriptors are handed out lowest first, and maxfd bounds those in use.
use nix_mark_iv.Prelude.{
  ◌⊎◌, ℕ, zero, suc, ◌+◌, ◌≤◌, ◌<◌, ◌%◌, ◌≡◌, ◌≢◌, refl, sym, ap, ◌∙◌, subst, Bool, Option, none,
  some, List, [], ◌∷◌, ◌++◌, length, get_or, replicate, arith, Bool-cases, Option-cases, inl, inr,
  ltb, length-set, length-append,
}
use nix_mark_iv.Prelude.{◌==◌, if◌then◌else◌}
use nix_mark_iv.Fgrp.Entries.{get_or-set, get_or-set_ne, get_or-pad}
use nix_mark_iv.Fgrp.{
  leb, Fgrp, deltafd, lookup, unlockfgrp, raise_max, growfd, first_free, findfreefd, put_fd, newfd,
}

-- The table has nfd entries, in steps of 20, and those above maxfd are nil.
pub record IsValid (f : Fgrp) : Type 0 where
  pub sized : length f.fd ≡ f.nfd
  pub inside : f.maxfd < f.nfd
  pub stepped : f.nfd % deltafd ≡ 0
  pub clear : (i : ℕ) → f.maxfd < i → lookup f i ≡ none

-- What the loop of findfreefd finds: a nil entry or the end, with no nil entry before it.
first_free_ge : (fds : List (Option ℕ)) (start : ℕ) → start ≤ first_free fds start
unfolding first_free
first_free_ge [] start = omega arith
first_free_ge (none ∷ rest) start = omega arith
first_free_ge (some c ∷ rest) start = let h = first_free_ge rest (start + 1) in omega arith

full_cons :
    (c : ℕ) (fds : List (Option ℕ)) (k : ℕ)
    → ((i : ℕ) → i < k → get_or fds i none ≢ none)
    → (i : ℕ) → i < suc k
    → get_or (some c ∷ fds) i none ≢ none
full_cons c fds k full zero h = λ e. grind arith
full_cons c fds k full (suc i) h = full i (omega arith)

first_free_lem :
    (fds : List (Option ℕ)) (start k : ℕ)
    → first_free fds start ≡ start + k
    → (k ≤ length fds) × (get_or fds k none ≡ none) × ((i : ℕ) → i < k → get_or fds i none ≢ none)
unfolding first_free
first_free_lem [] start zero e = (omega arith, refl, λ i h. absurd (omega arith))
first_free_lem [] start (suc k) e = absurd (omega arith)
first_free_lem (none ∷ rest) start zero e = (omega arith, refl, λ i h. absurd (omega arith))
first_free_lem (none ∷ rest) start (suc k) e = absurd (omega arith)
first_free_lem (some c ∷ rest) start zero e =
    let h = first_free_ge rest (start + 1) in absurd (omega arith)
first_free_lem (some c ∷ rest) start (suc k) e =
    let (bound, free, full) = first_free_lem rest (start + 1) k (omega arith) in
    (omega arith, free, full_cons c rest k full)

-- What raise_max and the store of an entry keep.
raise_max-fd : (fd : ℕ) (f : Fgrp) → (raise_max fd f).fd ≡ f.fd
unfolding raise_max
raise_max-fd fd f = ground arith

raise_max-nfd : (fd : ℕ) (f : Fgrp) → (raise_max fd f).nfd ≡ f.nfd
unfolding raise_max
raise_max-nfd fd f = ground arith

raise_max-maxfd :
    (fd : ℕ) (f : Fgrp) (n : ℕ)
    → f.maxfd < n
    → fd < n
    → ((raise_max fd f).maxfd < n) × (f.maxfd ≤ (raise_max fd f).maxfd)
unfolding raise_max
raise_max-maxfd fd f n hm hf = ground arith

abbrev longer : Fgrp → Fgrp
longer f = record f { fd = f.fd ++ replicate deltafd none; nfd = f.nfd + deltafd }

growfd-cases :
    (malloced : Bool) (f : Fgrp) (fd : ℕ) (grown : Bool) (f' : Fgrp)
    → growfd malloced f fd ≡ some (grown, f')
    → ((fd < f.nfd) × (f ≡ f'))
      ⊎ ((f.nfd ≤ fd) × (fd < f.nfd + deltafd) × (raise_max fd (longer f) ≡ f'))
unfolding growfd
growfd-cases malloced f fd grown f' e = ground arith

longer-IsValid : (f : Fgrp) → IsValid f → IsValid (longer f)
longer-IsValid f v = record {
  sized = length-append f.fd (replicate deltafd none) ∙ ap (λ n. n + deltafd) v.sized;
  inside = omega arith;
  stepped = omega arith;
  clear = λ i h. get_or-pad f.fd deltafd i none ∙ v.clear i h;
}

raise_max-IsValid : (fd : ℕ) (f : Fgrp) → fd < f.nfd → IsValid f → IsValid (raise_max fd f)
raise_max-IsValid fd f h v = record {
  sized = ap length (raise_max-fd fd f) ∙ v.sized ∙ sym (raise_max-nfd fd f);
  inside =
      subst (λ n. (raise_max fd f).maxfd < n) (sym (raise_max-nfd fd f))
        (raise_max-maxfd fd f f.nfd v.inside h).0;
  stepped = ap (λ n. n % deltafd) (raise_max-nfd fd f) ∙ v.stepped;
  clear = λ i above.
      ap (λ t. get_or t i none) (raise_max-fd fd f)
      ∙ v.clear i (let m = (raise_max-maxfd fd f f.nfd v.inside h).1 in omega arith);
}

-- growfd keeps every entry, and the table has the entry asked for.
growfd_lem :
    (malloced : Bool) (f : Fgrp) (fd : ℕ) (grown : Bool) (f' : Fgrp)
    → IsValid f
    → growfd malloced f fd ≡ some (grown, f')
    → (IsValid f') × (fd < f'.nfd) × ((i : ℕ) → lookup f' i ≡ lookup f i)
growfd_lem malloced f fd grown f' v e = elim (growfd-cases malloced f fd grown f' e) [
  | inl (h, eq) ↦
      subst (λ t. (IsValid t) × (fd < t.nfd) × ((i : ℕ) → lookup t i ≡ lookup f i)) eq
        (v, h, λ i. refl)
  | inr (low, high, eq) ↦
      subst (λ t. (IsValid t) × (fd < t.nfd) × ((i : ℕ) → lookup t i ≡ lookup f i)) eq
        (
          raise_max-IsValid fd (longer f) high (longer-IsValid f v),
          subst (λ n. fd < n) (sym (raise_max-nfd fd (longer f))) high,
          λ i.
              ap (λ t. get_or t i none) (raise_max-fd fd (longer f))
              ∙ get_or-pad f.fd deltafd i none,
        )
]

findfreefd-cases :
    (malloced : Bool) (f : Fgrp) (fd : ℕ) (f' : Fgrp)
    → findfreefd malloced f 0 ≡ some (fd, f')
    → (first_free f.fd 0 ≡ fd)
      × (((fd < f.nfd) × (f ≡ f')) ⊎ ((grown : Bool) × growfd malloced f fd ≡ some (grown, f')))
unfolding findfreefd
findfreefd-cases malloced f fd f' e = elim (Bool-cases (ltb (first_free f.fd 0) f.nfd)) [
  | inl y ↦ ground arith
  | inr n ↦ elim (Option-cases (growfd malloced f (first_free f.fd 0))) [
    | inl failed ↦ ground arith
    | inr ((grown, g), got) ↦ (grind arith, inr (grown, grind arith))
  ]
]

-- findfreefd finds the lowest free descriptor; it may grow the table and keeps what it holds.
findfreefd_lem :
    (malloced : Bool) (f : Fgrp) (fd : ℕ) (f' : Fgrp)
    → IsValid f
    → findfreefd malloced f 0 ≡ some (fd, f')
    → (IsValid f')
      × (fd < f'.nfd)
      × (lookup f fd ≡ none)
      × ((i : ℕ) → i < fd → lookup f i ≢ none)
      × ((i : ℕ) → lookup f' i ≡ lookup f i)
unfolding findfreefd
findfreefd_lem malloced f fd f' v e =
    let (at, how) = findfreefd-cases malloced f fd f' e in
    let (bound, free, full) = first_free_lem f.fd 0 fd (at ∙ omega arith) in
    elim how [
      | inl (h, eq) ↦
          subst
            (λ t.
              (IsValid t)
              × (fd < t.nfd)
              × (lookup f fd ≡ none)
              × ((i : ℕ) → i < fd → lookup f i ≢ none)
              × ((i : ℕ) → lookup t i ≡ lookup f i))
            eq (v, h, free, full, λ i. refl)
      | inr (grown, eq) ↦
          let (valid, inside, same) = growfd_lem malloced f fd grown f' v eq in
          (valid, inside, free, full, same)
    ]

put_fd-IsValid :
    (f : Fgrp) (fd c : ℕ) → fd < f.nfd → IsValid f → IsValid (unlockfgrp (put_fd f fd c))
unfolding put_fd unlockfgrp
put_fd-IsValid f fd c h v = record {
  sized = length-set f.fd fd (some c) ∙ v.sized;
  inside = ground arith;
  stepped = v.stepped;
  clear =
      λ i above. get_or-set_ne f.fd fd i (some c) none (ground arith) ∙ v.clear i (ground arith);
}

newfd-cases :
    (malloced : Bool) (f : Fgrp) (c fd : ℕ) (f' : Fgrp)
    → newfd malloced f c ≡ (some fd, f')
    → (g : Fgrp) × ((findfreefd malloced f 0 ≡ some (fd, g)) × (unlockfgrp (put_fd g fd c) ≡ f'))
unfolding newfd
newfd-cases malloced f c fd f' e = elim (Option-cases (findfreefd malloced f 0)) [
  | inl failed ↦ ground arith
  | inr ((fd', g), got) ↦ (g, (grind arith, grind arith))
]

-- A newfd of a valid table that does not fail returns the lowest descriptor that was free, stores
-- the channel there, and keeps every other entry and the validity of the table.
pub newfd_lem :
    (malloced : Bool) (f : Fgrp) (c fd : ℕ) (f' : Fgrp)
    → IsValid f
    → newfd malloced f c ≡ (some fd, f')
    → (i : ℕ)
    → (IsValid f')
      × (lookup f fd ≡ none)
      × ((fd ≤ i) ⊎ (lookup f i ≢ none))
      × (lookup f' i ≡ (if i == fd then some c else lookup f i))
unfolding put_fd unlockfgrp
newfd_lem malloced f c fd f' v e i =
    let (g, (found, eq)) = newfd-cases malloced f c fd f' e in
    let (valid, inside, free, full, same) = findfreefd_lem malloced f fd g v found in
    subst
      (λ t.
        (IsValid t)
        × (lookup f fd ≡ none)
        × ((fd ≤ i) ⊎ (lookup f i ≢ none))
        × (lookup t i ≡ (if i == fd then some c else lookup f i)))
      eq
      (
        put_fd-IsValid g fd c inside valid,
        free,
        elim (Bool-cases (leb fd i)) [
          | inl h ↦ inl (ground arith)
          | inr h ↦ inr (full i (ground arith))
        ],
        get_or-set g.fd fd i (some c) none (omega arith)
            ∙ ap (λ o. if i == fd then some c else o) (same i),
      )
