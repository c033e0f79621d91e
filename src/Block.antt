-- ===== src/Block.antt =====
-- Buffers of port/portdat.h and the block routines of port/qio.c. A `Block` keeps the memory from
-- `base` to `rp` (`hdr`), the data from `rp` to `wp` (`bytes`), and the size of the space from
-- `wp` to `lim` (`room`), whose contents nothing reads before it is written. A chain through `next`
-- is a list, and nil is the empty list. Lengths and offsets are not negative, except where a
-- routine tests for it. The counters of copied blocks and the debugging checks are left out.
pub mod Chain
pub mod Moves
pub mod Pullup
pub mod Trim
pub mod Build
pub mod Copy
use nix_mark_iv.Prelude.{ℕ, ◌+◌, ◌-◌, ◌≤◌, ◌≡◌, Bool, List, [], ◌∷◌, ◌++◌, length, take, drop}

pub record Block : Type 0 where
  pub hdr : List ℕ
  pub bytes : List ℕ
  pub room : ℕ
  -- BINTR of `flag`: allocated by iallocb
  pub intr : Bool

-- BLEN and BALLOC.
abbrev pub blen : Block → ℕ
blen b = length b.bytes

abbrev pub balloc : Block → ℕ
balloc b = length b.hdr + length b.bytes + b.room

-- The moves of the pointers: rp += n; memmove(wp, xs), wp += length xs; wp = rp + n.
unfoldable pub advance : ℕ → Block → Block
advance n b = record b { hdr = b.hdr ++ take n b.bytes; bytes = drop n b.bytes }

unfoldable pub write : List ℕ → Block → Block
write xs b = record b { bytes = b.bytes ++ xs; room = b.room - length xs }

unfoldable pub truncate : ℕ → Block → Block
truncate n b = record b { bytes = take n b.bytes; room = b.room + (blen b - n) }

-- rp -= n: the last n bytes below rp become data.
unfoldable pub retreat : ℕ → Block → Block
retreat n b = record b {
  hdr = take (length b.hdr - n) b.hdr;
  bytes = drop (length b.hdr - n) b.hdr ++ b.bytes;
}

-- rp += n; wp = rp, on a fresh block: `junk` is what the skipped memory holds.
unfoldable pub skip : List ℕ → Block → Block
skip junk b = record b { hdr = b.hdr ++ junk; room = b.room - length junk }

-- The data of a chain.
abbrev pub contents : List Block → List ℕ
contents [] = []
contents (b ∷ bs) = b.bytes ++ contents bs

abbrev pub blocklen : List Block → ℕ
blocklen [] = 0
blocklen (b ∷ bs) = blen b + blocklen bs

abbrev pub blockalloclen : List Block → ℕ
blockalloclen [] = 0
blockalloclen (b ∷ bs) = balloc b + blockalloclen bs

-- What the routines need of allocb: an empty block with at least the space asked for, and room
-- for headers below. `fresh n` is what n bytes of new memory hold.
pub record Allocator : Type 0 where
  pub alloc : ℕ → Block
  pub fresh : ℕ → List ℕ
  pub alloc_empty : (n : ℕ) → (alloc n).bytes ≡ []
  pub alloc_room : (n : ℕ) → n ≤ (alloc n).room
  pub alloc_hdr : (n : ℕ) → 64 ≤ length (alloc n).hdr
  pub length-fresh : (n : ℕ) → length (fresh n) ≡ n
