-- ===== src/Qio/Feed.antt =====
-- What producers add to the stream of a queue, and what qcopy reads of it.
use nix_mark_iv.Prelude.{
  take-min, take-append_min, ◌||◌, ℕ, ◌-◌, ◌≡◌, refl, sym, ap, ◌∙◌, List, [], ◌∷◌, ◌++◌, Option,
  none, some, arith, length, Bool-cases, inl, inr, true, take, drop, min, append_assoc, append-nil,
  take-nil, drop-nil, take_all, leb, ltb, if◌then◌else◌,
}
use nix_mark_iv.Block.{Block, Allocator, blen, advance, write, contents}
use nix_mark_iv.Block.Moves.{bytes-write}
use nix_mark_iv.Block.Trim.{drop_inside, drop_beyond}
use nix_mark_iv.Alloc.{Ialloc, iallocb}
use nix_mark_iv.Qio.{Queue, qaddlist}
use nix_mark_iv.Qio.Stream.{stream, blocks-feed, stream-qaddlist}
use nix_mark_iv.Qio.Interrupt.{qpass, qpassnolim, qproduce, seek, copy_from, qcopy}

module _ (q : Queue) (b : Block) (rest : List Block) where
  -- qpass appends the data of the whole chain to the stream, or frees the whole chain and leaves the
  -- stream alone, and it does so exactly if the queue is over its limit or closed.
  pub stream-qpass :
      let r = qpass q b rest in
      let refuses = leb q.limit q.len || q.closed in
      (stream r.queue ≡ stream q ++ (if refuses then [] else contents (b ∷ rest)))
      × (r.freed ≡ (if refuses then b ∷ rest else []))
  unfolding qpass qpassnolim
  stream-qpass =
      let added = qaddlist q (b ∷ rest) in
      ground (
        arith,
        blocks-feed added,
        blocks-feed (record added { flow = true }),
        stream-qaddlist q (b ∷ rest),
        append-nil (stream q),
      )

-- The bytes that a producer's result stands for.
abbrev pub accepted : Option ℕ → ℕ
accepted none = 0
accepted (some n) = n

-- qproduce, given an empty block, appends all the bytes or none: what its result counts. It appends
-- none exactly if the queue is over its limit or the allowance of iallocb is used up.
pub stream-qproduce :
    (q : Queue) (made : Block) (s : Ialloc) (p : List ℕ)
    → made.bytes ≡ []
    → let r = (qproduce q made s p).0 in
      (stream r.queue ≡ stream q ++ take (accepted r.ret) p)
      × (accepted r.ret ≡ (if leb q.limit q.len || ltb s.limit s.bytes then 0 else length p))
unfolding qproduce iallocb
stream-qproduce q made s p e =
    let b = write p (record made { intr = true }) in
    ground (
      arith,
      blocks-feed (qaddlist q (b ∷ [])),
      stream-qaddlist q (b ∷ []),
      bytes-write p (record made { intr = true }),
      append-nil (stream q),
      append-nil p,
      take_all (length p) p,
    )

-- The bytes from where `seek` arrived.
abbrev found : Option (List ℕ × List Block) → List ℕ
found none = []
found (some (p, rest)) = p ++ contents rest

seek_lem : (bs : List Block) (offset : ℕ) → found (seek bs offset) ≡ drop offset (contents bs)
unfolding seek advance
seek_lem [] offset = sym (drop-nil offset)
seek_lem (b ∷ rest) offset = elim (Bool-cases (ltb offset (blen b))) [
  | inl inside ↦ rw inside (sym (drop_inside offset b rest (ground arith)))
  | inr beyond ↦
      rw beyond (seek_lem rest (offset - blen b) ∙ sym (drop_beyond offset b rest (ground arith)))
]

copy_from-bytes :
    (nb : Block) (p : List ℕ) (rest : List Block) (left : ℕ)
    → (copy_from nb p rest left).bytes ≡ nb.bytes ++ take left (p ++ contents rest)
unfolding copy_from
copy_from-bytes nb p [] left = ground (
  arith,
  append-nil p,
  append-nil nb.bytes,
  take-min left p,
  bytes-write (take (min (length p) left) p) nb,
)
copy_from-bytes nb p (b ∷ rest) left =
    let n = min (length p) left in
    ground (
      arith,
      copy_from-bytes (write (take n p) nb) b.bytes rest (left - n),
      bytes-write (take n p) nb,
      take-append_min left p (contents (b ∷ rest)),
      append_assoc nb.bytes (take n p) (take (left - n) (contents (b ∷ rest))),
      append-nil nb.bytes,
    )

-- qcopy returns a block with the len bytes from the offset on, or as many as there are.
pub qcopy_lem :
    (a : Allocator) (q : Queue) (len offset : ℕ)
    → (qcopy a q len offset).bytes ≡ take len (drop offset (stream q))
unfolding qcopy
qcopy_lem a q len offset =
    copied (seek q.blocks offset) refl ∙ ap (take len) (seek_lem q.blocks offset)
  where
    copied :
        (r : Option (List ℕ × List Block))
        → seek q.blocks offset ≡ r
        → (qcopy a q len offset).bytes ≡ take len (found (seek q.blocks offset))
    copied none e = rw (e, take-nil len) (rw (qcopy, e) (a.alloc_empty len))
    copied (some (p, rest)) e = rw e (
        rw (qcopy, e)
          (copy_from-bytes (a.alloc len) p rest len
            ∙ ap (λ xs. xs ++ take len (p ++ contents rest)) (a.alloc_empty len)))
