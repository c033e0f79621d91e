-- ===== src/Qio/Counters.antt =====
-- The counters len and dlen of a queue: every routine keeps them equal to what is queued.
use nix_mark_iv.Prelude.{ℕ, ◌-◌, ◌≡◌, refl, sym, ◌∙◌, List, [], ◌∷◌, arith, true, min}
use nix_mark_iv.Block.{Block, blen, balloc, blocklen, blockalloclen, write}
use nix_mark_iv.Block.Moves.{blocklen-append, blockalloclen-append, balloc-advance, blen-advance}
use nix_mark_iv.Alloc.{Ialloc, iallocb}
use nix_mark_iv.Qio.{Queue, IsValid, restart, feed, qaddlist, qputback, unlink}
use nix_mark_iv.Qio.Interrupt.{
  qget, discard, qdiscard, strip, consume, qconsume, qpass, qpassnolim, qproduce,
}

pub restart-IsValid : (q : Queue) → IsValid q → IsValid (restart q).0
unfolding restart
restart-IsValid q v = ground arith

pub feed-IsValid : (q : Queue) → IsValid q → IsValid (feed q).0
unfolding feed
feed-IsValid q v = ground arith

pub qaddlist-IsValid : (q : Queue) (bs : List Block) → IsValid q → IsValid (qaddlist q bs)
unfolding qaddlist
qaddlist-IsValid q bs v =
    omega (arith, v, blocklen-append q.blocks bs, blockalloclen-append q.blocks bs)

pub qputback-IsValid : (q : Queue) (b : Block) → IsValid q → IsValid (qputback q b)
unfolding qputback
qputback-IsValid q b v = omega (arith, v)

pub unlink-IsValid :
    (q : Queue) (b : Block) (rest : List Block)
    → q.blocks ≡ b ∷ rest
    → IsValid q
    → IsValid (unlink q b rest)
unfolding unlink
unlink-IsValid q b rest e v = ground arith

discard_counts :
    (bs : List Block) (left len dlen : ℕ)
    → len ≡ blockalloclen bs
    → dlen ≡ blocklen bs
    → let d = discard bs left len dlen in
      (d.len ≡ blockalloclen d.blocks) × (d.dlen ≡ blocklen d.blocks)
unfolding discard
discard_counts [] left len dlen e f = (e, f)
discard_counts (b ∷ rest) left len dlen e f = ground (
  arith,
  discard_counts rest (left - blen b) (len - balloc b) (dlen - blen b),
  balloc-advance left b,
  blen-advance left b,
)

strip_counts :
    (bs : List Block) (len : ℕ) (tofree : List Block)
    → len ≡ blockalloclen bs
    → let s = strip bs len tofree in
      (s.len ≡ blockalloclen s.blocks) × (blocklen s.blocks ≡ blocklen bs)
unfolding strip
strip_counts [] len tofree e = (e, refl)
strip_counts (b ∷ rest) len tofree e =
    ground (arith, strip_counts rest (len - balloc b) (b ∷ tofree))

consume-IsValid :
    (q : Queue) (bs tofree : List Block) (len : ℕ)
    → q.len ≡ blockalloclen bs
    → q.dlen ≡ blocklen bs
    → IsValid (consume q bs tofree len).queue
unfolding consume restart unlink
consume-IsValid q [] tofree len e f = ground arith
consume-IsValid q (b ∷ rest) tofree len e f =
    ground (arith, balloc-advance (min (blen b) len) b, blen-advance (min (blen b) len) b)

module _ (q : Queue) (v : IsValid q) where
  -- qget of a valid queue keeps len and dlen equal to what is queued.
  qget-IsValid : IsValid (qget q).queue
  unfolding qget
  qget-IsValid = split q.blocks refl
    where
      split : (bs : List Block) → q.blocks ≡ bs → IsValid (qget q).queue
      split [] e = ground arith
      split (b ∷ rest) e =
          ground (arith, restart-IsValid (unlink q b rest) (unlink-IsValid q b rest e v))

  pub qpassnolim-IsValid : (b : Block) (rest : List Block) → IsValid (qpassnolim q b rest).queue
  unfolding qpassnolim feed qaddlist
  qpassnolim-IsValid b rest =
      ground (arith, blocklen-append q.blocks (b ∷ rest), blockalloclen-append q.blocks (b ∷ rest))

  -- qpass of a valid queue keeps len and dlen equal to what is queued, whether it takes the chain
  -- or frees it.
  pub qpass-IsValid : (b : Block) (rest : List Block) → IsValid (qpass q b rest).queue
  unfolding qpass
  qpass-IsValid b rest = ground (arith, qpassnolim-IsValid b rest)

  -- qproduce of a valid queue keeps len and dlen equal to what is queued, on each of its results.
  pub qproduce-IsValid :
      (made : Block) (s : Ialloc) (p : List ℕ) → IsValid (qproduce q made s p).0.queue
  unfolding qproduce iallocb
  qproduce-IsValid made s p = ground (
    arith,
    feed-IsValid (qaddlist q (write p (record made { intr = true }) ∷ []))
        (qaddlist-IsValid q (write p (record made { intr = true }) ∷ []) v),
  )

  -- qdiscard of a valid queue keeps len and dlen equal to what is queued, also where it stops
  -- inside a block.
  pub qdiscard-IsValid : (len : ℕ) → IsValid (qdiscard q len).queue
  unfolding qdiscard
  qdiscard-IsValid len =
      let d = discard q.blocks len q.len q.dlen in
      let (counted, queued) = discard_counts q.blocks len q.len q.dlen v.allocated v.queued in
      restart-IsValid (record q { blocks = d.blocks; len = d.len; dlen = d.dlen })
        (record { allocated = counted; queued = queued })

  -- qconsume of a valid queue keeps len and dlen equal to what is queued, empty blocks included.
  pub qconsume-IsValid : (len : ℕ) → IsValid (qconsume q len).queue
  unfolding qconsume
  qconsume-IsValid len =
      let s = strip q.blocks q.len [] in
      let (counted, queued) = strip_counts q.blocks q.len [] v.allocated in
      consume-IsValid (record q { len = s.len }) s.blocks s.tofree len counted
        (v.queued ∙ sym queued)
