-- ===== src/Block/Chain.antt =====
-- The routines of port/qio.c on blocks and chains of blocks: padblock, concatblock, pullupblock,
-- trimblock, copyblock, adjustblock, pullblock, packblock, bl2mem and mem2bl. A routine that
-- takes a chain which is never nil takes its first block and the rest.
use nix_mark_iv.Prelude.{
  ℕ, zero, suc, ◌+◌, ◌-◌, ◌*◌, min, Option, none, some, List, [], ◌∷◌, ◌++◌, length, take, drop,
  replicate, ltb, leb, ◌==◌, if◌then◌else◌,
}
use nix_mark_iv.Block.{
  Block, Allocator, blen, balloc, advance, write, truncate, retreat, skip, blocklen,
}

-- The loop of pullupblock: bytes of the chain behind `bp` are copied into it until it has n more.
unfoldable pub pull_into : Block → List Block → ℕ → Option (List Block)
pull_into bp [] n = none
pull_into bp (nbp ∷ next) n =
    let rest = pull_into (write nbp.bytes bp) next (n - blen nbp) in
    if ltb n (blen nbp)
    then some (write (take n nbp.bytes) bp ∷ advance n nbp ∷ next)
    else if n - blen nbp == 0
    then some (write nbp.bytes bp ∷ next)
    else rest

-- The two loops of trimblock, to the offset and to the length.
unfoldable pub skip_to : List Block → ℕ → List Block
skip_to [] offset = []
skip_to (bp ∷ next) offset =
    let rest = skip_to next (offset - blen bp) in
    if ltb (blen bp) offset then rest else advance offset bp ∷ next

unfoldable pub cut_at : List Block → ℕ → List Block
cut_at [] len = []
cut_at (bp ∷ next) len =
    let rest = cut_at next (len - blen bp) in
    if ltb (blen bp) len then bp ∷ rest else truncate len bp ∷ []

-- trimblock; nil, the empty chain, if the chain is too short.
unfoldable pub trimblock : List Block → ℕ → ℕ → List Block
trimblock bp offset len =
    if ltb (blocklen bp) (offset + len) then [] else cut_at (skip_to bp offset) len

-- The loop of copyblock.
unfoldable pub copy_into : Block → List Block → ℕ → Block
copy_into nbp [] count = if count == 0 then nbp else write (replicate count 0) nbp
copy_into nbp (bp ∷ next) count =
    let l = min (blen bp) count in
    let rest = copy_into (write (take l bp.bytes) nbp) next (count - l) in
    if count == 0 then nbp else rest

-- pullblock: the count of bytes thrown away, and the chain that is left.
unfoldable pub pullblock : List Block → ℕ → ℕ × List Block
pullblock [] count = (0, [])
pullblock (bp ∷ next) count =
    let n = min count (blen bp) in
    let rest = pullblock next (count - n) in
    if count == 0
    then (0, bp ∷ next)
    else if blen bp - n == 0
    then (n + rest.0, rest.1)
    else (n, advance n bp ∷ next)

-- bl2mem: the bytes copied, and the chain from the first block that is not used up.
unfoldable pub bl2mem : List Block → ℕ → List ℕ × List Block
bl2mem [] n = ([], [])
bl2mem (b ∷ next) n =
    let rest = bl2mem next (n - blen b) in
    if ltb n (blen b) then (take n b.bytes, advance n b ∷ next) else (b.bytes ++ rest.0, rest.1)

-- enum in port/qio.c
abbrev pub maxatomic : ℕ
maxatomic = 64 * 1024

-- copyblock and adjustblock get the new block from allocb, or from iallocb if BINTR is set:
-- `got` is what that call returned (allocb does not return nil).
unfoldable pub copyblock : Option Block → List Block → ℕ → Option Block
copyblock none bp count = none
copyblock (some nbp) bp count = some (copy_into nbp bp count)

-- adjustblock with len >= 0; with len < 0 it frees the block and returns nil.
unfoldable pub adjustblock : Option Block → Block → List Block → ℕ → Option (List Block)
adjustblock got bp next len =
    if ltb (blen bp + bp.room) len
    then elim (copyblock got (bp ∷ next) len) [ none ↦ none | some nbp ↦ some (nbp ∷ []) ]
    else if ltb (blen bp) len
    then some (write (replicate (len - blen bp) 0) bp ∷ next)
    else some (truncate len bp ∷ next)

-- The loop of concatblock.
unfoldable pub copy_all : Block → List Block → Block
copy_all nb [] = nb
copy_all nb (f ∷ fs) = copy_all (write f.bytes nb) fs

module _ (a : Allocator) where
  open a use {alloc, fresh}

  -- padblock with size >= 0. `none` is the panic on a block with a successor.
  unfoldable pub padblock : Block → List Block → ℕ → Option (List Block)
  padblock bp next size =
      if leb size (length bp.hdr) then some (retreat size bp ∷ next) else elim next [
        | [] ↦
            some (retreat size (write bp.bytes (skip (fresh size) (alloc (size + blen bp)))) ∷ [])
        | b ∷ bs ↦ none
      ]

  -- padblock with size < 0, where `size` is the size negated.
  unfoldable pub padblock_back : Block → List Block → ℕ → Option (List Block)
  padblock_back bp next size = elim next [
    | [] ↦
        if leb size bp.room
        then some (bp ∷ [])
        else some (write bp.bytes (alloc (size + blen bp)) ∷ [])
    | b ∷ bs ↦ none
  ]

  unfoldable pub concatblock : Block → List Block → Block
  concatblock bp [] = bp
  concatblock bp (b ∷ bs) = copy_all (alloc (blocklen (bp ∷ b ∷ bs))) (bp ∷ b ∷ bs)

  -- pullupblock; `none` is the nil of a chain that is too short.
  unfoldable pub pullupblock : Block → List Block → ℕ → Option (List Block)
  pullupblock bp next n =
      if leb n (blen bp)
      then some (bp ∷ next)
      else if ltb (blen bp + bp.room) n
      then pull_into (alloc n) (bp ∷ next) (n - blen (alloc n))
      else pull_into bp next (n - blen bp)

  -- packblock.
  unfoldable pub packblock : List Block → List Block
  packblock [] = []
  packblock (nbp ∷ next) =
      (if ltb (blen nbp * 4) (balloc nbp) then write nbp.bytes (alloc (blen nbp)) else nbp)
      ∷ packblock next

  -- mem2bl: the do-while loop, with fuel for its rounds.
  unfoldable pub mem2bl : ℕ → List ℕ → List Block
  mem2bl zero p = []
  mem2bl (suc fuel) p =
      let n = min (length p) maxatomic in
      let rest = mem2bl fuel (drop n p) in
      write (take n p) (alloc n) ∷ (if length p - n == 0 then [] else rest)
