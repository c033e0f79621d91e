-- ===== src/Checksum/Chain.antt =====
-- ptclcsum is the complement of the one's complement sum of the bytes of a chain, however the chain
-- is cut into blocks.
use nix_mark_iv.Prelude.{
  ℕ, ◌+◌, ◌-◌, ◌*◌, ◌^◌, ◌≤◌, ◌<◌, ◌≡◌, subst, Bool, List, [], ◌∷◌, ◌++◌, length, ◌==◌, inl, inr,
  Bool-cases, arith, take, drop, if◌then◌else◌, ltb, min, length-drop, length-take, ◌%◌, ap, ◌∙◌,
  refl, ◌||◌, take-min, drop_all, append-nil, drop-append, take-nil, drop-nil,
}
use nix_mark_iv.Block.{contents, blocklen, Block, blen}
use nix_mark_iv.Checksum.{
  skip_blocks, csum_at, ptclcsum, over_blocks, blen, Block, add_piece, ptclbsum,
}
use nix_mark_iv.Checksum.Sums.{join_lem, Agrees, Agrees-same, ones, pos_sum, Bytes}
use nix_mark_iv.Checksum.Bytes.{ptclbsum_lem, Summed}
use nix_mark_iv.Checksum.Pieces.{
  Bytes-append, Bytes-take, Bytes-drop, piece_lem, unchanged, pieces_sum,
}

-- The length of the first block.
head_len : List Block → ℕ
head_len [] = 0
head_len (b ∷ bs) = blen b

module _ (little : Bool) (odd_at : Block → ℕ → Bool) where
  over_blocks_lem :
      (bs : List Block) (offset len odd : ℕ) (s : ℕ × ℕ) (n : ℕ)
      → offset ≤ head_len bs
      → odd < 2
      → Bytes (contents bs)
      → blocklen bs ≤ 65536
      → s.0 + s.1 + 65535 * blocklen bs + 65280 < 2 ^ 32
      → Agrees (s.0 + 256 * s.1) n
      → Summed
          (over_blocks little odd_at offset len odd s bs)
          (n + pos_sum odd (take len (drop offset (contents bs))))
  unfolding over_blocks head_len
  over_blocks_lem [] offset len odd s n f o h b w a =
      unchanged s odd n (take len (drop offset [])) (ap (take len) (drop-nil offset) ∙ take-nil len)
        (omega arith) a
  over_blocks_lem (c ∷ bs) offset len odd s n f o h b w a = elim (Bool-cases (len == 0)) [
    | inl done ↦
        let z : len ≡ 0 = ground arith in
        let none = ap (λ l. take l (drop offset (contents (c ∷ bs)))) z in
        rw done
          (unchanged s odd n (take len (drop offset (contents (c ∷ bs)))) none (omega arith) a)
    | inr more ↦
        let (lo, hi) = s in
        let d = drop offset c.bytes in
        let (h', k) = Bytes-append c.bytes (contents bs) h in
        let x = if ltb len (blen c - offset) then len else blen c - offset in
        let e : x ≡ min (length d) len = ground (arith, length-drop offset c.bytes) in
        let bytes = Bytes-take x d (Bytes-drop offset c.bytes h') in
        let long : length (take x d) ≡ x = omega (arith, length-take x d, e) in
        let (w', a') =
          piece_lem little (odd_at c offset) odd lo hi n (take x d) o bytes
            (omega (arith, long, length-drop offset c.bytes))
            (omega (arith, long, e, length-drop offset c.bytes)) a in
        let s' = add_piece odd (ptclbsum little (odd_at c offset) (take x d)) s in
        let rest =
          over_blocks_lem bs 0 (len - x) ((odd + x) % 2) s' (n + pos_sum odd (take x d))
            (omega arith) (omega arith) k (omega arith)
            (omega (arith, w', long, e, length-drop offset c.bytes)) a' in
        let eq = pieces_sum len offset odd x c.bytes (contents bs) e f in
        rw more (
          subst (Summed (over_blocks little odd_at 0 (len - x) ((odd + x) % 2) s' bs))
            (omega (arith, eq)) rest)
  ]

  -- After the loop that skips.
  csum_at_lem :
      (b : Block) (bs : List Block) (len offset : ℕ)
      → offset ≤ blen b
      → Bytes (contents (b ∷ bs))
      → blocklen (b ∷ bs) ≤ 65536
      → csum_at little odd_at len offset (b ∷ bs)
        ≡ 65535 - ones (pos_sum 0 (take len (drop offset (contents (b ∷ bs)))))
  unfolding csum_at head_len
  csum_at_lem b [] len offset f h w =
      let d = drop offset b.bytes in
      let (h', k) = Bytes-append b.bytes [] h in
      let x = if ltb (blen b - offset) len then blen b - offset else len in
      let e : x ≡ min (length d) len = ground (arith, length-drop offset b.bytes) in
      let long : length (take x d) ≡ x = omega (arith, length-take x d, e) in
      let bound : length (take x d) ≤ 65536 = omega (arith, long, e, length-drop offset b.bytes) in
      let sum =
        ptclbsum_lem little (odd_at b offset) (take x d)
          (Bytes-take x d (Bytes-drop offset b.bytes h')) bound in
      let same = ap (λ m. take m d) e ∙ take-min len d in
      rw (append-nil b.bytes) (ap (λ n. 65535 - n) (sum ∙ ap (λ xs. ones (pos_sum 0 xs)) same))
  csum_at_lem b (c ∷ cs) len offset f h w =
      let bs = b ∷ c ∷ cs in
      let s = over_blocks little odd_at offset len 0 (0, 0) bs in
      let (bound, agree) =
        over_blocks_lem bs offset len 0 (0, 0) 0 f (omega arith) h w (omega (arith, w))
          (Agrees-same 0 0 refl) in
      ap (λ n. 65535 - n)
        (join_lem s.0 s.1 (0 + pos_sum 0 (take len (drop offset (contents bs)))) bound agree
          ∙ ap ones (omega arith))

-- What the loop that skips leaves, where the offset is inside the chain.
skip_blocks_lem :
    (offset : ℕ) (bs : List Block)
    → offset < blocklen bs
    → Bytes (contents bs)
    → (o : ℕ) × (c : Block) × (cs : List Block) × (skip_blocks offset bs ≡ (o, c ∷ cs))
      × (o ≤ blen c)
      × (drop offset (contents bs) ≡ drop o (contents (c ∷ cs)))
      × Bytes (contents (c ∷ cs))
      × (blocklen (c ∷ cs) ≤ blocklen bs)
unfolding skip_blocks
skip_blocks_lem offset [] h k = absurd (omega arith)
skip_blocks_lem offset (b ∷ bs) h k = elim (Bool-cases (offset == 0 || ltb offset (blen b))) [
  | inl inside ↦ rw inside (offset, b, bs, refl, ground arith, refl, k, omega arith)
  | inr past ↦
      let beyond : blen b ≤ offset = ground arith in
      let (o, c, cs, e, f, same, bytes, w) =
        skip_blocks_lem (offset - blen b) bs (omega arith)
          (Bytes-append b.bytes (contents bs) k).1 in
      let moved : drop offset (contents (b ∷ bs)) ≡ drop (offset - blen b) (contents bs) =
        drop-append offset b.bytes (contents bs)
        ∙ ap (λ xs. xs ++ drop (offset - blen b) (contents bs)) (drop_all offset b.bytes beyond) in
      rw past (o, c, cs, e, f, moved ∙ same, bytes, omega arith)
]

-- For a chain of up to 65536 bytes and an offset inside it, ptclcsum is the complement of the one's
-- complement sum of the 16-bit words of the `len` bytes from the offset on, or of those there are:
-- how the chain is cut into blocks, and where the blocks lie in memory, does not matter.
pub ptclcsum_lem :
    (little : Bool) (odd_at : Block → ℕ → Bool) (bs : List Block) (offset len : ℕ)
    → Bytes (contents bs)
    → blocklen bs ≤ 65536
    → offset < blocklen bs
    → ptclcsum little odd_at bs offset len
      ≡ 65535 - ones (pos_sum 0 (take len (drop offset (contents bs))))
unfolding ptclcsum
ptclcsum_lem little odd_at bs offset len h w inside =
    let (o, c, cs, e, f, same, bytes, w') = skip_blocks_lem offset bs inside h in
    rw (e, same) (csum_at_lem little odd_at c cs len o f bytes (omega arith))
