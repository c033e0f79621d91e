-- ===== src/Block/Build.antt =====
-- Room for headers, and chains made anew: padblock, packblock, and mem2bl with its round trip.
use nix_mark_iv.Prelude.{
  ℕ, zero, suc, ◌+◌, ◌-◌, ◌≤◌, ◌<◌, min, ◌≡◌, ◌⊎◌, inl, inr, refl, ap, ◌∙◌, some, List, [], ◌∷◌,
  length, take, drop, arith, false, leb, ◌==◌, Bool-cases, length-take, length-drop, append-nil,
  take_all, drop_all, take-append-drop,
}
use nix_mark_iv.Block.{Block, Allocator, blen, balloc, retreat, skip, write, contents}
use nix_mark_iv.Block.Chain.{padblock, packblock, mem2bl, maxatomic, bl2mem}
use nix_mark_iv.Block.Moves.{bytes-write, balloc-write, retreat_lem, skip_lem, hdr-write}
use nix_mark_iv.Block.Trim.{bl2mem_lem}

-- Every block of a chain has a property.
abbrev pub All : (Block → Type 0) → List Block → Type 0
All P [] = Unit {0}
All P (b ∷ bs) = P b × All P bs

module _ (a : Allocator) where
  packblock_lem :
      (bs : List Block)
      → (contents (packblock a bs) ≡ contents bs) × (length (packblock a bs) ≡ length bs)
  unfolding packblock write
  packblock_lem [] = (refl, refl)
  packblock_lem (b ∷ bs) = ground (arith, packblock_lem bs, a.alloc_empty (blen b))

  -- The block that a round of mem2bl makes.
  pub bytes-write-alloc : (xs : List ℕ) (n : ℕ) → (write xs (a.alloc n)).bytes ≡ xs
  bytes-write-alloc xs n = rw (bytes-write, a.alloc_empty n)

  mem2bl_fuel :
      (fuel : ℕ) (p : List ℕ)
      → length p < fuel
      → (contents (mem2bl a fuel p) ≡ p) × All (λ b. blen b ≤ maxatomic) (mem2bl a fuel p)
  unfolding mem2bl
  mem2bl_fuel zero p h = absurd (omega arith)
  mem2bl_fuel (suc fuel) p h =
      let n = min (length p) maxatomic in
      let small : blen (write (take n p) (a.alloc n)) ≤ maxatomic =
        omega (arith, ap length (bytes-write-alloc (take n p) n), length-take n p) in
      elim (Bool-cases (length p - n == 0)) [
        | inl last ↦ rw last (
          append-nil _ ∙ bytes-write-alloc (take n p) n ∙ take_all n p (ground arith),
          (small, tt),
        )
        | inr more ↦
            let (same, all) = mem2bl_fuel fuel (drop n p) (ground (arith, length-drop n p)) in
            rw more (rw (bytes-write-alloc (take n p) n, same) (take-append-drop n p), (small, all))
      ]

  -- mem2bl, with a round for each byte and one more, gives a chain that holds the bytes, in blocks
  -- of at most Maxatomic of them, and bl2mem gets them back and uses up the chain.
  pub bl2mem-mem2bl :
      (p : List ℕ)
      → let bs = mem2bl a (length p + 1) p in
        (contents bs ≡ p)
        × All (λ b. blen b ≤ maxatomic) bs
        × ((bl2mem bs (length p)).0 ≡ p)
        × (contents (bl2mem bs (length p)).1 ≡ [])
  bl2mem-mem2bl p =
      let bs = mem2bl a (length p + 1) p in
      let (same, small) = mem2bl_fuel (length p + 1) p (omega arith) in
      let (copied, rest) = bl2mem_lem bs (length p) in
      (
        same,
        small,
        copied ∙ rw same (take_all (length p) p (omega arith)),
        rest ∙ rw same (drop_all (length p) p (omega arith)),
      )

  -- The new block of padblock.
  pad_new :
      (bp : Block) (next : List Block) (size : ℕ)
      → leb size (length bp.hdr) ≡ false
      → next ≡ []
      → (b : Block) × (padblock a bp next size ≡ some (b ∷ next))
        × (blen b ≡ size + blen bp)
        × (drop size b.bytes ≡ bp.bytes)
        × ((balloc b ≡ balloc bp) ⊎ (balloc b ≡ balloc (a.alloc (size + blen bp))))
  unfolding padblock
  pad_new bp next size full none_behind =
      let new = a.alloc (size + blen bp) in
      let skipped = skip (a.fresh size) new in
      let b = write bp.bytes skipped in
      let got = a.alloc_room (size + blen bp) in
      let junk = a.length-fresh size in
      let (sh, sb, sr, sm) = skip_lem (a.fresh size) new (omega arith) in
      let same : b.bytes ≡ bp.bytes = rw (bytes-write, sb, a.alloc_empty (size + blen bp)) in
      let (l, d, m) = retreat_lem size b (omega (arith, ap length (hdr-write bp.bytes skipped))) in
      (
        retreat size b,
        rw (none_behind, full),
        omega (arith, ap length same),
        d ∙ same,
        inr (m ∙ balloc-write bp.bytes skipped (omega arith) ∙ sm),
      )

  -- padblock puts size bytes in front of the data and leaves the data behind them as it was; the
  -- headers go into the buffer if they fit there, with any successors kept, or into a new block,
  -- for which there must be no successor.
  pub padblock_lem :
      (bp : Block) (next : List Block) (size : ℕ)
      → (size ≤ length bp.hdr) ⊎ (next ≡ [])
      → (b : Block) × (padblock a bp next size ≡ some (b ∷ next))
        × (blen b ≡ size + blen bp)
        × (drop size b.bytes ≡ bp.bytes)
        × ((balloc b ≡ balloc bp) ⊎ (balloc b ≡ balloc (a.alloc (size + blen bp))))
  unfolding padblock
  padblock_lem bp next size h = elim (Bool-cases (leb size (length bp.hdr))) [
    | inl fits ↦
        let (l, d, m) = retreat_lem size bp (ground arith) in
        rw fits (retreat size bp, refl, l, d, inl m)
    | inr full ↦ pad_new bp next size full (ground arith)
  ]
