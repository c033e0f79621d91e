-- ===== src/Tests.antt =====
-- The theorems at concrete queues, chains, locks and tables.
pub mod Buffers
pub mod Queues
pub mod Locks
pub mod RWlocks
pub mod Files
pub mod Segments
pub mod Timers
pub mod Network
pub mod Routes
pub mod Calls
use nix_mark_iv.Prelude.{
  ℕ, ◌≤◌, ◌≡◌, refl, Bool, true, false, List, [], ◌∷◌, length, replicate, arith, length-replicate,
}
use nix_mark_iv.Block.{Block, Allocator}
use nix_mark_iv.Qio.{Queue, unset}

abbrev pub block : List ℕ → Block
block bytes = record { hdr = []; bytes = bytes; room = 4; intr = false }

-- 64 bytes of headers and just the space asked for, in memory of zeros.
abbrev pub zeroed : Allocator
zeroed = record {
  alloc = λ n. record { hdr = replicate 64 0; bytes = []; room = n; intr = false };
  fresh = λ n. replicate n 0;
  alloc_empty = λ n. refl;
  alloc_room = λ n. omega arith;
  alloc_hdr = λ n. omega arith;
  length-fresh = λ n. length-replicate n 0;
}

abbrev pub first : Block
first = block (1 ∷ 2 ∷ 3 ∷ [])

abbrev pub second : Block
second = block (4 ∷ 5 ∷ [])

-- A coalescing queue of two blocks, with 13 bytes of buffers and 5 of data.
abbrev pub two_blocks : Queue
two_blocks = record {
  blocks = first ∷ second ∷ [];
  len = 13;
  dlen = 5;
  limit = 100;
  inilim = 100;
  starve = false;
  msg = false;
  closed = false;
  flow = true;
  coalesce = true;
  always_kick = false;
  noblock = false;
  eof = 0;
  kick = false;
  bypass = false;
  err = unset;
}
