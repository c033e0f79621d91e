-- ===== src/Fgrp.antt =====
-- File descriptor groups: struct Fgrp of port/portdat.h, its routines in port/sysfile.c (unlockfgrp,
-- growfd, findfreefd, newfd, newfd2, fdclose) and dupfgrp of port/pgrp.c. A channel is named by a
-- number and nil is `none`; the group's lock makes each routine one step. `malloced` says whether
-- malloc found memory; what it gives is zeroed, as the source relies on. The reference counts of
-- groups and channels are not modelled, nor the close of a channel and the warnings printed.
pub mod Entries
pub mod Table
pub mod Finds
pub mod Close
pub mod Copy
use nix_mark_iv.Prelude.{
  ℕ, zero, suc, ◌+◌, ◌-◌, ◌*◌, ◌/◌, ◌%◌, ◌≤◌, ◌<◌, ◌≡◌, Bool, true, false, not, ◌&&◌, ◌||◌, Option,
  none, some, List, [], ◌∷◌, ◌++◌, length, get_or, set, take, drop, replicate, ltb, leb, ◌==◌,
  if◌then◌else◌,
}

pub record Fgrp : Type 0 where
  pub fd : List (Option ℕ)
  pub nfd : ℕ
  pub maxfd : ℕ
  pub exceed : ℕ

abbrev pub deltafd : ℕ
deltafd = 20

abbrev pub lookup : Fgrp → ℕ → Option ℕ
lookup f i = get_or f.fd i none

unfoldable pub unlockfgrp : Fgrp → Fgrp
unlockfgrp f = record f { exceed = 0 }

-- The maxfd that growfd sets, with the warning that it leaves for unlockfgrp.
unfoldable pub raise_max : ℕ → Fgrp → Fgrp
raise_max fd f =
    if ltb f.maxfd fd
    then if ltb (f.maxfd / 100) (fd / 100)
      then record f { exceed = fd / 100 * 100; maxfd = fd }
      else record f { maxfd = fd }
    else f

-- growfd: `none` is -1; the flag tells 1, the table has grown, from 0, it had the entry.
unfoldable pub growfd : Bool → Fgrp → ℕ → Option (Bool × Fgrp)
growfd malloced f fd =
    if ltb fd f.nfd
    then some (false, f)
    else if leb (f.nfd + deltafd) fd
    then none
    else if leb 5000 f.nfd
    then none
    else if malloced
    then some (
      true,
      raise_max fd (record f { fd = f.fd ++ replicate deltafd none; nfd = f.nfd + deltafd }),
    )
    else none

-- The loop of findfreefd over the entries from `fd` on.
unfoldable pub first_free : List (Option ℕ) → ℕ → ℕ
first_free [] fd = fd
first_free (none ∷ rest) fd = fd
first_free (some c ∷ rest) fd = first_free rest (fd + 1)

unfoldable pub findfreefd : Bool → Fgrp → ℕ → Option (ℕ × Fgrp)
findfreefd malloced f start =
    let fd = first_free (drop start f.fd) start in
    if ltb fd f.nfd
    then some (fd, f)
    else elim (growfd malloced f fd) [ none ↦ none | some (grown, f') ↦ some (fd, f') ]

-- f->maxfd is raised to `fd`, and its entry set.
unfoldable pub put_fd : Fgrp → ℕ → ℕ → Fgrp
put_fd f fd c = record f {
  maxfd = if ltb f.maxfd fd then fd else f.maxfd;
  fd = set f.fd fd (some c);
}

-- newfd, with -1 as `none`; the group is left as it was then.
unfoldable pub newfd : Bool → Fgrp → ℕ → Option ℕ × Fgrp
newfd malloced f c = elim (findfreefd malloced f 0) [
  | none ↦ (none, unlockfgrp f)
  | some (fd, f') ↦ (some fd, unlockfgrp (put_fd f' fd c))
]

-- newfd2: both descriptors are found before either entry is set. The first search may have grown
-- the table when the second fails.
second_fd : Bool → ℕ → Fgrp → ℕ → ℕ → Option (ℕ × ℕ) × Fgrp
second_fd malloced fd0 f c0 c1 = elim (findfreefd malloced f (fd0 + 1)) [
  | none ↦ (none, unlockfgrp f)
  | some (fd1, f') ↦
      let raised = record f' { maxfd = if ltb f'.maxfd fd1 then fd1 else f'.maxfd } in
      (
        some (fd0, fd1),
        unlockfgrp (record raised { fd = set (set raised.fd fd0 (some c0)) fd1 (some c1) }),
      )
]

unfoldable pub newfd2 : Bool → Fgrp → ℕ → ℕ → Option (ℕ × ℕ) × Fgrp
unfolding second_fd
newfd2 malloced f c0 c1 = elim (findfreefd malloced f 0) [
  | none ↦ (none, unlockfgrp f)
  | some (fd0, f') ↦ second_fd malloced fd0 f' c0 c1
]

-- The loop of fdclose that lowers maxfd from the entry `i` down.
unfoldable pub lower_max : List (Option ℕ) → ℕ → ℕ → ℕ
lower_max fds zero m = m
lower_max fds (suc i) m =
    let lower = lower_max fds i i in elim (get_or fds i none) [ none ↦ lower | some c ↦ m ]

-- fdclose: the channel to close, and the group. `flagged` says for a channel whether it has one of
-- the flags asked for; with no flag asked for it is always true.
unfoldable pub fdclose : (ℕ → Bool) → Fgrp → ℕ → Option ℕ × Fgrp
fdclose flagged f fd =
    let fds = set f.fd fd none in
    let maxfd = if fd == f.maxfd then lower_max fds fd f.maxfd else f.maxfd in
    elim (lookup f fd) [
      | none ↦ (none, f)
      | some c ↦ if flagged c then (some c, record f { fd = fds; maxfd = maxfd }) else (none, f)
    ]

-- dupfgrp: of no group, and of one, with a table that is shorter if possible.
unfoldable pub emptyfgrp : Fgrp
emptyfgrp = record { fd = replicate deltafd none; nfd = deltafd; maxfd = 0; exceed = 0 }

abbrev pub quantized : ℕ → ℕ
quantized n = let i = n % deltafd in if i == 0 then n else n + (deltafd - i)

unfoldable pub dupfgrp : Bool → Fgrp → Option Fgrp
dupfgrp malloced f =
    let n = quantized (f.maxfd + 1) in
    if malloced
    then some (record {
      fd = take (f.maxfd + 1) f.fd ++ replicate (n - (f.maxfd + 1)) none;
      nfd = n;
      maxfd = f.maxfd;
      exceed = 0;
    })
    else none
