-- ===== src/Tests/Buffers.antt =====
-- Cutting, copying and allocating buffers.
use nix_mark_iv.Prelude.{false, ◌≡◌, ◌⊎◌, ◌≤◌, List, [], ◌∷◌, some, arith}
use nix_mark_iv.Block.{Block, blen, balloc, contents}
use nix_mark_iv.Block.Chain.{maxatomic, pullupblock, bl2mem, mem2bl}
use nix_mark_iv.Block.Pullup.{pullupblock_lem}
use nix_mark_iv.Block.Build.{All, bl2mem-mem2bl}
use nix_mark_iv.Alloc.{_allocb, Layout, Ialloc}
use nix_mark_iv.Alloc.Shape.{IsSound, _allocb-IsSound}
use nix_mark_iv.Tests.{zeroed, first, second}

abbrev chain : List Block
chain = first ∷ second ∷ []

pullupblock_lem_example :
    (b : Block) × (rest : List Block) × (pullupblock zeroed first (second ∷ []) 4 ≡ some (b ∷ rest))
    × (contents (b ∷ rest) ≡ contents chain)
    × (4 ≤ blen b)
    × ((balloc b ≡ balloc first) ⊎ (balloc b ≡ balloc (zeroed.alloc 4)))
pullupblock_lem_example = pullupblock_lem zeroed first (second ∷ []) 4 (omega arith)

bl2mem-mem2bl_example :
    let bs = mem2bl zeroed 3 (1 ∷ 2 ∷ []) in
    (contents bs ≡ 1 ∷ 2 ∷ [])
    × All (λ b. blen b ≤ maxatomic) bs
    × ((bl2mem bs 2).0 ≡ 1 ∷ 2 ∷ [])
    × (contents (bl2mem bs 2).1 ≡ [])
bl2mem-mem2bl_example = bl2mem-mem2bl zeroed (1 ∷ 2 ∷ [])

abbrev small : Block
small = record { hdr = []; bytes = 1 ∷ 2 ∷ []; room = 0; intr = false }

-- A block of 100 bytes at an address that is not aligned.
_allocb-IsSound_example : (l : Layout) × (_allocb 96 4097 100 ≡ some l) × IsSound 96 4097 100 l
_allocb-IsSound_example = _allocb-IsSound 96 4097 100

abbrev allowance : Ialloc
allowance = record { bytes = 10; limit = 100 }
