-- ===== src/Qio/Kinds.antt =====
-- A queue stays a message queue or a stream of bytes, whatever is done to it.
use nix_mark_iv.Prelude.{
  ℕ, ◌+◌, ◌-◌, ◌≡◌, refl, ◌∙◌, true, List, [], ◌∷◌, ◌++◌, length, take, drop, arith, inl, inr,
  List-cases,
}
use nix_mark_iv.Block.{blocklen, Block, Allocator, blen, write, truncate}
use nix_mark_iv.Block.Chain.{bl2mem}
use nix_mark_iv.Alloc.{Ialloc, iallocb}
use nix_mark_iv.Qio.{Queue, restart, feed, qaddlist, qputback, unlink}
use nix_mark_iv.Qio.Interrupt.{
  discard, qdiscard, strip, consume, qconsume, qpass, qpassnolim, produce, qproduce,
}
use nix_mark_iv.Qio.Read.{
  Wait, qwait, finish, qwakeup, unread, bread_from, qbread, grab, copy_out, read_from, qread,
}
use nix_mark_iv.Qio.Write.{qbwrite}

pub restart-msg : (q : Queue) → (restart q).0.msg ≡ q.msg
unfolding restart
restart-msg q = ground arith

pub feed-msg : (q : Queue) → (feed q).0.msg ≡ q.msg
unfolding feed
feed-msg q = ground arith

pub qpass-msg : (q : Queue) (b : Block) (rest : List Block) → (qpass q b rest).queue.msg ≡ q.msg
unfolding qpass qpassnolim qaddlist
qpass-msg q b rest =
    let added = qaddlist q (b ∷ rest) in
    ground (arith, feed-msg added, feed-msg (record added { flow = true }))

pub qproduce-msg :
    (q : Queue) (made : Block) (s : Ialloc) (p : List ℕ) → (qproduce q made s p).0.queue.msg ≡ q.msg
unfolding qproduce produce qaddlist iallocb
qproduce-msg q made s p =
    ground (arith, feed-msg (qaddlist q (write p (record made { intr = true }) ∷ [])))

pub qbwrite-msg : (q : Queue) (b : Block) → (qbwrite q b).queue.msg ≡ q.msg
unfolding qbwrite qaddlist
qbwrite-msg q b = ground (arith, feed-msg (qaddlist q (b ∷ [])))

pub qdiscard-msg : (q : Queue) (len : ℕ) → (qdiscard q len).queue.msg ≡ q.msg
unfolding qdiscard
qdiscard-msg q len =
    let d = discard q.blocks len q.len q.dlen in
    restart-msg (record q { blocks = d.blocks; len = d.len; dlen = d.dlen })

consume-msg :
    (q : Queue) (bs tofree : List Block) (len : ℕ) → (consume q bs tofree len).queue.msg ≡ q.msg
unfolding consume restart unlink
consume-msg q [] tofree len = refl
consume-msg q (b ∷ rest) tofree len = ground arith

pub qconsume-msg : (q : Queue) (len : ℕ) → (qconsume q len).queue.msg ≡ q.msg
unfolding qconsume
qconsume-msg q len =
    let s = strip q.blocks q.len [] in consume-msg (record q { len = s.len }) s.blocks s.tofree len

finish-msg :
    {A : Type 0} (x : A) (q : Queue) (freed : List Block) → (finish x q freed).queue.msg ≡ q.msg
unfolding finish qwakeup
finish-msg x q freed = restart-msg q

unread-msg : (A : Type 0) (w : Wait × Queue) → (unread {A = A} w).queue.msg ≡ w.1.msg
unfolding unread
unread-msg A (Wait.at_end, q) = refl
unread-msg A (w, q) = refl

qwait-msg : (q : Queue) → (qwait q).1.msg ≡ q.msg
unfolding qwait
qwait-msg q = split q.blocks refl
  where
    split : (bs : List Block) → q.blocks ≡ bs → (qwait q).1.msg ≡ q.msg
    split [] e = ground arith
    split (b ∷ rest) e = ground arith

bread_from-msg :
    (a : Allocator) (q : Queue) (bs : List Block) (len : ℕ)
    → (bread_from a q bs len).queue.msg ≡ q.msg
unfolding bread_from unlink qputback
bread_from-msg a q [] len = unread-msg Block (qwait q) ∙ qwait-msg q
bread_from-msg a q (b ∷ rest) len =
    let q' = unlink q b rest in
    let tail = write (drop len b.bytes) (a.alloc (blen b - len)) in
    ground (
      arith,
      finish-msg (truncate len b) q' [],
      finish-msg (truncate len b) (qputback q' tail) [],
      finish-msg b q' [],
    )

pub qbread-msg : (a : Allocator) (q : Queue) (len : ℕ) → (qbread a q len).queue.msg ≡ q.msg
unfolding qbread
qbread-msg a q len = bread_from-msg a q q.blocks len

grab-msg : (q : Queue) (bs : List Block) (n len : ℕ) → (grab q bs n len).1.msg ≡ q.msg
unfolding grab unlink
grab-msg q [] n len = refl
grab-msg q (b ∷ rest) n len = ground (arith, grab-msg (unlink q b rest) rest (n + blen b) len)

copy_out-msg : (q : Queue) (first : List Block) (len : ℕ) → (copy_out q first len).queue.msg ≡ q.msg
unfolding copy_out qputback
copy_out-msg q first len =
    let (bytes, left) = bl2mem first len in
    let used = take (length first - length left) first in
    elim (List-cases left) [
      | inl e ↦ rw (e, copy_out) (finish-msg {A = ℕ × List ℕ} _ q _)
      | inr (b, rest, e) ↦
          rw (e, copy_out)
            (ground (
              arith,
              finish-msg {A = ℕ × List ℕ} (blocklen first - blen b, bytes) q (used ++ b ∷ []),
              finish-msg {A = ℕ × List ℕ} (blocklen first - blen b, bytes) (qputback q b) used,
            ))
    ]

read_from-msg : (q : Queue) (bs : List Block) (len : ℕ) → (read_from q bs len).queue.msg ≡ q.msg
unfolding read_from unlink
read_from-msg q [] len = unread-msg (ℕ × List ℕ) (qwait q) ∙ qwait-msg q
read_from-msg q (b ∷ rest) len =
    let q' = unlink q b rest in
    let (more, q'') = grab q' rest (blen b) len in
    ground (
      arith,
      grab-msg q' rest (blen b) len,
      read_from-msg q' rest len,
      copy_out-msg q'' (b ∷ more) len,
      copy_out-msg q' (b ∷ []) len,
    )

pub qread-msg : (q : Queue) (len : ℕ) → (qread q len).queue.msg ≡ q.msg
unfolding qread
qread-msg q len = read_from-msg q q.blocks len
