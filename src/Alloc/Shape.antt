-- ===== src/Alloc/Shape.antt =====
-- The layout of a new block is always sound, so allocb is the allocator that port/qio.c needs.
use nix_mark_iv.Prelude.{
  ℕ, ◌+◌, ◌-◌, ◌%◌, ◌≤◌, ◌<◌, ◌≡◌, refl, Option, none, some, List, [], ◌==◌, arith, length, true,
  false,
}
use nix_mark_iv.Block.{Block, Allocator, balloc}
use nix_mark_iv.Alloc.{
  roundup, round_size, place, _allocb, Layout, new_block, hdrspc, blockminround, blockalign, Ialloc,
  iallocb, freeb,
}

-- What a layout for at least `size` bytes has to be.
pub record IsSound (sizeof_block p size : ℕ) (l : Layout) : Type 0 where
  pub starts : l.base ≡ p
  pub holds : size ≤ l.lim - l.rp
  pub headers : l.base + hdrspc ≤ l.rp
  pub inside : l.rp ≤ l.lim
  pub aligned : l.lim % blockalign ≡ 0

place-IsSound :
    (sizeof_block p size : ℕ)
    → (l : Layout) × (place sizeof_block p size ≡ some l) × IsSound sizeof_block p size l
unfolding place
place-IsSound sizeof_block p size =
    let b = p + (blockalign + roundup (size + hdrspc) blockalign + sizeof_block) - sizeof_block in
    let lim = b - b % blockalign in
    let rp = lim - roundup size blockalign in
    (
      record { base = p; lim = lim; rp = rp; small = size == blockminround },
      ground arith,
      omega arith,
    )

round_size-le : (size : ℕ) → size ≤ round_size size
unfolding round_size
round_size-le size = ground arith

-- Wherever malloc puts the memory, _allocb does not panic: rp and lim lie in order above base, lim
-- is aligned, the space for data is at least what was asked, and 64 bytes of headers fit below it.
pub _allocb-IsSound :
    (sizeof_block p size : ℕ)
    → (l : Layout) × (_allocb sizeof_block p size ≡ some l) × IsSound sizeof_block p size l
unfolding _allocb
_allocb-IsSound sizeof_block p size =
    let (l, e, s) = place-IsSound sizeof_block p (round_size size) in
    (l, e, omega (arith, round_size-le size))

-- The block of a call that did not panic.
made : (ℕ → List ℕ) → Option Layout → Block
unfolding new_block
made junk none = record { hdr = []; bytes = []; room = 0; intr = false }
made junk (some l) = new_block junk l

module _ (sizeof_block : ℕ) (address : ℕ → ℕ) (junk : ℕ → List ℕ)
    (length-junk : (n : ℕ) → length (junk n) ≡ n) where
  unfoldable pub alloc : ℕ → Block
  unfolding made
  alloc n = made junk (_allocb sizeof_block (address n) n)

  pub alloc_empty : (n : ℕ) → (alloc n).bytes ≡ []
  unfolding alloc made
  alloc_empty n = let (l, e, s) = _allocb-IsSound sizeof_block (address n) n in rw e

  pub alloc_room : (n : ℕ) → n ≤ (alloc n).room
  unfolding alloc made
  alloc_room n = let (l, e, s) = _allocb-IsSound sizeof_block (address n) n in rw e s.holds

  pub alloc_hdr : (n : ℕ) → 64 ≤ length (alloc n).hdr
  unfolding alloc made
  alloc_hdr n =
      let (l, e, s) = _allocb-IsSound sizeof_block (address n) n in
      rw e (omega (arith, length-junk (l.rp - l.base), s))

  -- allocb, as the allocator of port/qio.c: any addresses from malloc, any contents of new memory.
  unfoldable pub allocator : Allocator
  unfolding alloc
  allocator = record {
    alloc = alloc;
    fresh = junk;
    alloc_empty = alloc_empty;
    alloc_room = alloc_room;
    alloc_hdr = alloc_hdr;
    length-fresh = length-junk;
  }

-- While the bytes held do not exceed the limit, iallocb gives a block charged with its whole
-- buffer, and freeing it restores the allowance.
pub freeb-iallocb :
    (made : Block) (s : Ialloc)
    → s.bytes ≤ s.limit
    → (b : Block) × ((iallocb made s).0 ≡ some b)
      × (b.bytes ≡ made.bytes)
      × ((iallocb made s).1.bytes ≡ s.bytes + balloc made)
      × (freeb b (iallocb made s).1 ≡ s)
unfolding iallocb freeb
freeb-iallocb made s h =
    (record made { intr = true }, ground arith, refl, ground arith, ground arith)

pub iallocb_refuses : (made : Block) (s : Ialloc) → s.limit < s.bytes → iallocb made s ≡ (none, s)
unfolding iallocb
iallocb_refuses made s h = ground arith
