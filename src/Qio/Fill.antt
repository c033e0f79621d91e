-- ===== src/Qio/Fill.antt =====
-- What qbwrite adds to the stream of a queue, and the blocks that qwrite makes.
use nix_mark_iv.Block.Build.{bytes-write-alloc}
use nix_mark_iv.Prelude.{
  take-min, not, ℕ, zero, suc, ◌-◌, ◌<◌, ◌≡◌, ◌∙◌, List, [], ◌∷◌, ◌++◌, arith, length, Bool-cases,
  inl, inr, Bool, true, false, take, drop, min, append-nil, take-append-drop, take_all, leb,
  if◌then◌else◌, ◌==◌, length-drop, ◌||◌, ◌&&◌,
}
use nix_mark_iv.Block.{Block, Allocator, blen, write, contents}
use nix_mark_iv.Block.Chain.{maxatomic}
use nix_mark_iv.Qio.{Queue, feed, qaddlist}
use nix_mark_iv.Qio.Stream.{stream, blocks-feed, stream-qaddlist}
use nix_mark_iv.Qio.Write.{qnotfull, wrote, qbwrite, qwrite_blocks}

-- qbwrite appends the block's data to the stream, or leaves the stream alone: it hands the block to
-- the bypass routine, refuses it on a closed queue, or drops it on a full queue that does not block.
pub stream-qbwrite :
    (q : Queue) (b : Block)
    → let drops = q.bypass || (q.closed || (leb q.limit q.len && q.noblock)) in
      stream (qbwrite q b).queue ≡ stream q ++ (if drops then [] else b.bytes)
unfolding qbwrite
stream-qbwrite q b =
    let (q', dowakeup) = feed (qaddlist q (b ∷ [])) in
    ground (
      arith,
      blocks-feed (qaddlist q (b ∷ [])),
      stream-qaddlist q (b ∷ []),
      append-nil (stream q),
      append-nil b.bytes,
    )

-- A queue that takes every block.
pub record Takes (q : Queue) : Type 0 where
  pub opened : q.closed ≡ false
  pub queues : q.bypass ≡ false
  pub blocks : q.noblock ≡ false

pub qbwrite-Takes : (q : Queue) (b : Block) → Takes q → Takes (qbwrite q b).queue
unfolding qbwrite feed qaddlist
qbwrite-Takes q b t = ground arith

pub qbwrite_wrote :
    (q : Queue) (b : Block) → Takes q → (w : Bool) × ((qbwrite q b).ret ≡ wrote (blen b) w)
unfolding qbwrite
qbwrite_wrote q b t =
    let q' = (feed (qaddlist q (b ∷ []))).0 in (not (q'.noblock || qnotfull q'), ground arith)

pub taken_stream :
    (q : Queue) (b : Block) → Takes q → stream (qbwrite q b).queue ≡ stream q ++ b.bytes
taken_stream q b t = ground (arith, stream-qbwrite q b)

pub qwrite_blocks_lem :
    (a : Allocator) (msg : Bool) (fuel : ℕ) (p : List ℕ)
    → length p < fuel
    → contents (qwrite_blocks a msg fuel p) ≡ (if msg then take maxatomic p else p)
unfolding qwrite_blocks
qwrite_blocks_lem a msg zero p h = absurd (omega arith)
qwrite_blocks_lem a true (suc fuel) p h =
    let n = min (length p) maxatomic in
    let one : (write (take n p) (a.alloc n)).bytes ++ [] ≡ take maxatomic p =
      append-nil _ ∙ bytes-write-alloc a (take n p) n ∙ take-min maxatomic p in
    elim (Bool-cases (length p - n == 0)) [ inl last ↦ rw last one | inr more ↦ rw more one ]
qwrite_blocks_lem a false (suc fuel) p h =
    let n = min (length p) maxatomic in
    elim (Bool-cases (length p - n == 0)) [
      | inl last ↦
          rw last (append-nil _ ∙ bytes-write-alloc a (take n p) n ∙ take_all n p (ground arith))
      | inr more ↦
          let rest = qwrite_blocks_lem a false fuel (drop n p) (ground (arith, length-drop n p)) in
          rw (more, bytes-write-alloc a (take n p) n, rest) (take-append-drop n p)
    ]
