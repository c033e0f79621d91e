-- ===== src/Qio/Split.antt =====
-- qbread, which splits the first block of the queue where it is longer than the read.
use nix_mark_iv.Prelude.{
  take_all, take-nil, take, drop, ℕ, ◌-◌, ◌≡◌, refl, List, [], ◌∷◌, ◌++◌, arith, false,
  append_assoc, take-append-drop, length-take,
}
use nix_mark_iv.Block.Build.{bytes-write-alloc}
use nix_mark_iv.Block.{Allocator, write, truncate, Block, blen, contents}
use nix_mark_iv.Qio.{Queue, qputback, unlink}
use nix_mark_iv.Qio.Stream.{stream}
use nix_mark_iv.Qio.Read.{bread_from, qbread, Read, got, Wait, qwait, unread}
use nix_mark_iv.Qio.Drain.{blocks-finish, ret-finish, qwait_blocks}

-- The data of a block read.
abbrev pub block_data : Read Block → List ℕ
block_data (got b) = b.bytes
block_data r = []

-- The data of the first block.
abbrev pub head_bytes : List Block → List ℕ
head_bytes [] = []
head_bytes (b ∷ bs) = b.bytes

unread_block :
    (w : Wait × Queue)
    → (block_data (unread {A = Block} w).ret ≡ [])
      × ((unread {A = Block} w).queue.blocks ≡ w.1.blocks)
unfolding unread
unread_block (Wait.at_end, q) = (refl, refl)
unread_block (w, q) = (refl, refl)

bread_from_lem :
    (a : Allocator) (q : Queue) (bs : List Block) (len : ℕ)
    → q.blocks ≡ bs
    → q.msg ≡ false
    → let r = bread_from a q bs len in
      (contents bs ≡ block_data r.ret ++ stream r.queue)
      × (block_data r.ret ≡ take len (head_bytes bs))
unfolding bread_from unlink truncate qputback
bread_from_lem a q [] len e m =
    ground (arith, unread_block (qwait q), qwait_blocks q, take-nil {A = ℕ} len)
bread_from_lem a q (b ∷ rest) len e m =
    let q' = unlink q b rest in
    let back = qputback q' (write (drop len b.bytes) (a.alloc (blen b - len))) in
    ground (
      arith,
      blocks-finish (truncate len b) back [],
      ret-finish (truncate len b) back [],
      blocks-finish b q' [],
      ret-finish b q' [],
      bytes-write-alloc a (drop len b.bytes) (blen b - len),
      append_assoc (take len b.bytes) (drop len b.bytes) (contents rest),
      take-append-drop len b.bytes,
      length-take len b.bytes,
      take_all len b.bytes,
    )

-- qbread of a queue that is no message queue moves the first block, or its first len bytes if it is
-- longer, from the front of the stream to the caller.
pub qbread_lem :
    (a : Allocator) (q : Queue) (len : ℕ)
    → q.msg ≡ false
    → let r = qbread a q len in
      (stream q ≡ block_data r.ret ++ stream r.queue)
      × (block_data r.ret ≡ take len (head_bytes q.blocks))
unfolding qbread
qbread_lem a q len m = bread_from_lem a q q.blocks len refl m
