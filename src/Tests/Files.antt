-- ===== src/Tests/Files.antt =====
-- A table of 20 descriptors with two open files.
use nix_mark_iv.Prelude.{
  zero, suc, ℕ, ◌≡◌, ◌≢◌, ◌⊎◌, ◌≤◌, ◌<◌, ◌==◌, refl, [], ◌∷◌, some, none, true, arith, replicate,
  if◌then◌else◌,
}
use nix_mark_iv.Fgrp.{Fgrp, lookup, newfd, fdclose, dupfgrp, findfreefd, first_free}
use nix_mark_iv.Fgrp.Entries.{get_or-pad}
use nix_mark_iv.Fgrp.Entries.{get_or-pad}
use nix_mark_iv.Fgrp.Finds.{newfd_succeeds}
use nix_mark_iv.Prelude.{false}
use nix_mark_iv.Fgrp.Table.{IsValid, newfd_lem}
use nix_mark_iv.Fgrp.Close.{fdclose_lem}

-- Descriptors 0 and 2 are open.
abbrev table : Fgrp
table = record { fd = some 7 ∷ none ∷ some 8 ∷ replicate 17 none; nfd = 20; maxfd = 2; exceed = 0 }

table-IsValid : IsValid table
table-IsValid = record { sized = refl; inside = omega arith; stepped = refl; clear = clear }
  where
    clear : (i : ℕ) → 2 < i → lookup table i ≡ none
    clear zero h = absurd (omega arith)
    clear (suc zero) h = absurd (omega arith)
    clear (suc (suc zero)) h = absurd (omega arith)
    clear (suc (suc (suc i))) h = get_or-pad [] 17 i none

abbrev opened : Fgrp
opened = (newfd true table 9).1

newfd_lem_example :
    (IsValid opened)
    × (lookup table 1 ≡ none)
    × ((1 ≤ 0) ⊎ (lookup table 0 ≢ none))
    × (lookup opened 0 ≡ (if 0 == 1 then some 9 else lookup table 0))
unfolding newfd findfreefd first_free
newfd_lem_example = newfd_lem true table 9 1 opened table-IsValid refl 0

fdclose_lem_example :
    let (closed, f) = fdclose (λ c. true) table 2 in
    (closed ≡ some 8) × (IsValid f) × (lookup f 0 ≡ (if 0 == 2 then none else lookup table 0))
fdclose_lem_example = fdclose_lem (λ c. true) table 2 8 table-IsValid refl refl 0

abbrev copy : Fgrp
copy = elim (dupfgrp true table) [ none ↦ table | some f ↦ f ]

newfd_succeeds_example :
    (fd : ℕ) × (f : Fgrp) × (newfd false table 9 ≡ (some fd, f)) × (fd ≤ 5) × (f.nfd ≡ 20)
newfd_succeeds_example = newfd_succeeds false table 9 5 (omega arith) refl
