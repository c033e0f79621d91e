-- ===== src/Alloc.antt =====
-- port/allocb.c: the shape of a new block (_allocb, baalloc), the allowance of interrupt-level
-- blocks (ialloclimit, iallocb, freeb). The address that malloc returns and the size of the
-- struct Block at the end of the memory are parameters, and so is what new memory holds. Blocks
-- of the smallest size come from a free list (nalloc), whose entries baalloc made with the same
-- size and layout. The owner's tag, the statistics and the warnings are left out, with the reboot
-- that follows ten million refused requests.
pub mod Shape
use nix_mark_iv.Prelude.{
  ℕ, ◌+◌, ◌-◌, ◌*◌, ◌/◌, ◌%◌, ◌≤◌, Option, none, some, List, [], Bool, true, false, ◌||◌, ltb, leb,
  ◌==◌, if◌then◌else◌, replicate, length,
}
use nix_mark_iv.Block.{Block, balloc}

-- ROUNDUP of k10/mem.h, and the constants.
abbrev pub roundup : ℕ → ℕ → ℕ
roundup s sz = (s + (sz - 1)) / sz * sz

abbrev pub hdrspc : ℕ
hdrspc = 64

abbrev pub blockround : ℕ
blockround = 1024

abbrev pub blockminround : ℕ
blockminround = 128

abbrev pub blockalign : ℕ
blockalign = 8

-- The addresses of a new block, and BSMALL of its flag.
pub record Layout : Type 0 where
  pub base : ℕ
  pub lim : ℕ
  pub rp : ℕ
  pub small : Bool

unfoldable pub round_size : ℕ → ℕ
round_size size =
    if ltb blockround size then roundup size blockround else roundup size blockminround

-- The bytes asked of malloc.
unfoldable pub elsz : ℕ → ℕ → ℕ
elsz sizeof_block size = blockalign + roundup (size + hdrspc) blockalign + sizeof_block

-- _allocb for a size that is rounded, at the address `p` that malloc returned; `none` is the panic.
unfoldable pub place : ℕ → ℕ → ℕ → Option Layout
unfolding elsz
place sizeof_block p size =
    let b = p + elsz sizeof_block size - sizeof_block in
    let lim = b - b % blockalign in
    let rp = lim - roundup size blockalign in
    if ltb rp p || ltb (lim - rp) size
    then none
    else some (record { base = p; lim = lim; rp = rp; small = size == blockminround })

unfoldable pub _allocb : ℕ → ℕ → ℕ → Option Layout
_allocb sizeof_block p size = place sizeof_block p (round_size size)

-- The block of a layout, with rp = wp, over memory whose header space holds `junk`.
unfoldable pub new_block : (ℕ → List ℕ) → Layout → Block
new_block junk l = record {
  hdr = junk (l.rp - l.base);
  bytes = [];
  room = l.lim - l.rp;
  intr = false;
}

-- ialloc: the bytes that interrupt-level blocks hold, and their limit.
pub record Ialloc : Type 0 where
  pub bytes : ℕ
  pub limit : ℕ

pub ialloclimit : ℕ → Ialloc → Ialloc
ialloclimit limit s = record s { limit = limit }

-- iallocb: nil while the limit is exceeded, else the block that _allocb made, with BINTR.
unfoldable pub iallocb : Block → Ialloc → Option Block × Ialloc
iallocb made s =
    if ltb s.limit s.bytes
    then (none, s)
    else (some (record made { intr = true }), record s { bytes = s.bytes + balloc made })

-- freeb of a block with no free routine of its own.
unfoldable pub freeb : Block → Ialloc → Ialloc
freeb b s = if b.intr then record s { bytes = s.bytes - balloc b } else s
