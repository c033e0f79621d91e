-- ===== src/Fgrp/Finds.antt =====
-- newfd of port/sysfile.c succeeds whenever the table has a free entry.
use nix_mark_iv.Prelude.{
  ℕ, zero, suc, ◌+◌, ◌≤◌, ◌<◌, ◌≡◌, refl, Bool, Option, none, some, List, [], ◌∷◌, get_or, arith,
}
use nix_mark_iv.Fgrp.{Fgrp, lookup, first_free, findfreefd, put_fd, unlockfgrp, newfd}

first_free_le :
    (fds : List (Option ℕ)) (start i : ℕ)
    → get_or fds i none ≡ none
    → first_free fds start ≤ start + i
unfolding first_free
first_free_le [] start i e = omega arith
first_free_le (none ∷ rest) start i e = omega arith
first_free_le (some c ∷ rest) start zero e = grind arith
first_free_le (some c ∷ rest) start (suc i) e =
    let h = first_free_le rest (start + 1) i e in omega arith

findfreefd_found :
    (malloced : Bool) (f : Fgrp) (i : ℕ)
    → i < f.nfd
    → lookup f i ≡ none
    → findfreefd malloced f 0 ≡ some (first_free f.fd 0, f)
unfolding findfreefd
findfreefd_found malloced f i h e = let low = first_free_le f.fd 0 i e in ground arith

newfd_found :
    (malloced : Bool) (f : Fgrp) (c fd : ℕ)
    → findfreefd malloced f 0 ≡ some (fd, f)
    → newfd malloced f c ≡ (some fd, unlockfgrp (put_fd f fd c))
unfolding newfd
newfd_found malloced f c fd e = ground arith

-- While the table has a free entry, newfd succeeds without growing it, even if there is no memory,
-- and returns a descriptor that is at most that entry's.
pub newfd_succeeds :
    (malloced : Bool) (f : Fgrp) (c i : ℕ)
    → i < f.nfd
    → lookup f i ≡ none
    → (fd : ℕ) × (f' : Fgrp) × (newfd malloced f c ≡ (some fd, f')) × (fd ≤ i) × (f'.nfd ≡ f.nfd)
unfolding unlockfgrp put_fd
newfd_succeeds malloced f c i h e =
    let fd = first_free f.fd 0 in
    let low = first_free_le f.fd 0 i e in
    (
      fd,
      unlockfgrp (put_fd f fd c),
      newfd_found malloced f c fd (findfreefd_found malloced f i h e),
      omega arith,
      refl,
    )
