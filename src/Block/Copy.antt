-- ===== src/Block/Copy.antt =====
-- Copying data into blocks: concatblock, copyblock, adjustblock, padblock, packblock and mem2bl.
use nix_mark_iv.Prelude.{
  ℕ, zero, suc, ◌+◌, ◌-◌, ◌≤◌, ◌<◌, min, ◌≡◌, ◌⊎◌, inl, inr, refl, sym, ap, ◌∙◌, Option, some, List,
  [], ◌∷◌, ◌++◌, length, take, replicate, arith, ltb, leb, Bool-cases, length-take, append_assoc,
  append-nil, take_all, length-replicate, length-append,
}
use nix_mark_iv.Block.{Block, Allocator, blen, balloc, write, truncate, contents, blocklen}
use nix_mark_iv.Block.Chain.{copy_all, concatblock, copy_into, copyblock, adjustblock}
use nix_mark_iv.Block.Moves.{
  length-contents, bytes-write, balloc-write, room-write, balloc-truncate,
}
use nix_mark_iv.Block.Trim.{take_inside, take_beyond}

copy_all-bytes : (nb : Block) (bs : List Block) → (copy_all nb bs).bytes ≡ nb.bytes ++ contents bs
unfolding copy_all
copy_all-bytes nb [] = sym (append-nil nb.bytes)
copy_all-bytes nb (f ∷ fs) =
    copy_all-bytes (write f.bytes nb) fs
    ∙ (rw bytes-write (append_assoc nb.bytes f.bytes (contents fs)))

copy_all-balloc :
    (nb : Block) (bs : List Block) → blocklen bs ≤ nb.room → balloc (copy_all nb bs) ≡ balloc nb
unfolding copy_all
copy_all-balloc nb [] h = refl
copy_all-balloc nb (f ∷ fs) h = omega (
  arith,
  copy_all-balloc (write f.bytes nb) fs (omega (arith, room-write f.bytes nb)),
  balloc-write f.bytes nb (omega arith),
)

-- concatblock gives one block with the data of the whole chain, which was not written past.
pub concatblock_lem :
    (a : Allocator) (bp : Block) (next : List Block)
    → ((concatblock a bp next).bytes ≡ contents (bp ∷ next))
      × ((concatblock a bp next ≡ bp)
          ⊎ (balloc (concatblock a bp next) ≡ balloc (a.alloc (blocklen (bp ∷ next)))))
unfolding concatblock
concatblock_lem a bp [] = (sym (append-nil bp.bytes), inl refl)
concatblock_lem a bp (b ∷ bs) =
    let n = blocklen (bp ∷ b ∷ bs) in
    (
      copy_all-bytes (a.alloc n) (bp ∷ b ∷ bs)
          ∙ ap (λ xs. xs ++ contents (bp ∷ b ∷ bs)) (a.alloc_empty n),
      inr (copy_all-balloc (a.alloc n) (bp ∷ b ∷ bs) (a.alloc_room n)),
    )

-- The first count bytes of the chain, and zeros where it has fewer.
abbrev pub padded : ℕ → List Block → List ℕ
padded count bs = take count (contents bs) ++ replicate (count - blocklen bs) 0

padded-cons :
    (count : ℕ) (b : Block) (bs : List Block)
    → padded count (b ∷ bs)
      ≡ take (min (blen b) count) b.bytes ++ padded (count - min (blen b) count) bs
padded-cons count b bs = elim (Bool-cases (leb count (blen b))) [
  | inl inside ↦
      let e : min (blen b) count ≡ count = ground arith in
      let z : count - count ≡ 0 = omega arith in
      let y : count - blocklen (b ∷ bs) ≡ 0 = ground arith in
      let x : 0 - blocklen bs ≡ 0 = omega arith in
      rw (e, z, y, x, append-nil, append-nil) (take_inside count b bs (ground arith))
  | inr beyond ↦
      let e : min (blen b) count ≡ blen b = ground arith in
      let y : count - blocklen (b ∷ bs) ≡ count - blen b - blocklen bs = ground arith in
      rw (e, y, take_beyond count b bs (ground arith), take_all (blen b) b.bytes (omega arith))
        (append_assoc b.bytes (take (count - blen b) (contents bs))
          (replicate (count - blen b - blocklen bs) 0))
]

copy_into-bytes :
    (nbp : Block) (bs : List Block) (count : ℕ)
    → (copy_into nbp bs count).bytes ≡ nbp.bytes ++ padded count bs
unfolding copy_into
copy_into-bytes nbp [] zero = sym (append-nil nbp.bytes)
copy_into-bytes nbp [] (suc n) = ground (arith, bytes-write (replicate (suc n) 0) nbp)
copy_into-bytes nbp (b ∷ bs) zero =
    let e : 0 - blocklen (b ∷ bs) ≡ 0 = omega arith in rw e (sym (append-nil nbp.bytes))
copy_into-bytes nbp (b ∷ bs) (suc n) =
    let l = min (blen b) (suc n) in
    ground (
      arith,
      copy_into-bytes (write (take l b.bytes) nbp) bs (suc n - l),
      bytes-write (take l b.bytes) nbp,
      padded-cons (suc n) b bs,
      append_assoc nbp.bytes (take l b.bytes) (padded (suc n - l) bs),
    )

copy_into-balloc :
    (nbp : Block) (bs : List Block) (count : ℕ)
    → count ≤ nbp.room
    → balloc (copy_into nbp bs count) ≡ balloc nbp
unfolding copy_into
copy_into-balloc nbp [] count h =
    ground (arith, balloc-write (replicate count 0) nbp, length-replicate count (zero))
copy_into-balloc nbp (b ∷ bs) count h = ground (
  arith,
  copy_into-balloc (write (take (min (blen b) count) b.bytes) nbp) bs (count - min (blen b) count),
  balloc-write (take (min (blen b) count) b.bytes) nbp,
  room-write (take (min (blen b) count) b.bytes) nbp,
  length-take (min (blen b) count) b.bytes,
)

-- copyblock fills an empty block that has the space with the first count bytes of the chain, and
-- with zeros where the chain is shorter; it gives nil only where there is no new block.
pub copyblock_lem :
    (got : Block) (bs : List Block) (count : ℕ)
    → got.bytes ≡ []
    → count ≤ got.room
    → (nbp : Block) × (copyblock (some got) bs count ≡ some nbp)
      × (nbp.bytes ≡ padded count bs)
      × (balloc nbp ≡ balloc got)
unfolding copyblock
copyblock_lem got bs count e h = (
  copy_into got bs count,
  refl,
  copy_into-bytes got bs count ∙ ap (λ xs. xs ++ padded count bs) e,
  copy_into-balloc got bs count h,
)

padded_one :
    (len : ℕ) (bp : Block) → padded len (bp ∷ []) ≡ take len bp.bytes ++ replicate (len - blen bp) 0
padded_one len bp =
    let e : blocklen (bp ∷ []) ≡ blen bp = omega arith in rw (e, append-nil bp.bytes)

length-padded : (len : ℕ) (bs : List Block) → length (padded len bs) ≡ len
length-padded len bs = omega (
  arith,
  length-append (take len (contents bs)) (replicate (len - blocklen bs) 0),
  length-take len (contents bs),
  length-contents bs,
  length-replicate (len - blocklen bs) zero,
)

-- adjustblock within the buffer sets the length of the first block in place: its data is cut, or
-- padded with zeros, and the chain behind it stays.
pub adjustblock_in_place :
    (got : Option Block) (bp : Block) (next : List Block) (len : ℕ)
    → len ≤ blen bp + bp.room
    → (b : Block) × (adjustblock got bp next len ≡ some (b ∷ next))
      × (b.bytes ≡ padded len (bp ∷ []))
      × (balloc b ≡ balloc bp)
unfolding adjustblock truncate
adjustblock_in_place got bp next len h = elim (Bool-cases (ltb (blen bp) len)) [
  | inl longer ↦ (
    write zeros bp,
    ground arith,
    rw (bytes-write zeros bp, padded_one len bp, take_all len bp.bytes (ground arith)),
    ground (arith, balloc-write zeros bp, length-replicate (len - blen bp) zero),
  )
  | inr shorter ↦ (
    truncate len bp,
    ground arith,
    rw (padded_one len bp) (ground (arith, append-nil (take len bp.bytes))),
    ground (arith, balloc-truncate len bp),
  )
]
  where
    zeros : List ℕ
    zeros = replicate (len - blen bp) 0

-- adjustblock beyond the buffer moves the data of the chain to the new block, one block of exactly
-- len bytes, and gives nil only where there is no new block.
pub adjustblock_beyond :
    (got : Block) (bp : Block) (next : List Block) (len : ℕ)
    → got.bytes ≡ []
    → len ≤ got.room
    → blen bp + bp.room < len
    → (b : Block) × (adjustblock (some got) bp next len ≡ some (b ∷ []))
      × (b.bytes ≡ padded len (bp ∷ next))
      × (blen b ≡ len)
unfolding adjustblock
adjustblock_beyond got bp next len e h beyond =
    let (b, made, same, _) = copyblock_lem got (bp ∷ next) len e h in
    (b, ground arith, same, ap length same ∙ length-padded len (bp ∷ next))
