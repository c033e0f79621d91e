-- ===== src/Qio/Users.antt =====
-- The reads and writes of processes keep the counters of a queue, and so do opening, closing and
-- flushing it.
use nix_mark_iv.Prelude.{
  ℕ, ◌+◌, ◌-◌, ◌≡◌, refl, List, [], ◌∷◌, ◌++◌, arith, length, inl, inr, Bool, take, drop,
  List-cases,
}
use nix_mark_iv.Block.{truncate, Block, Allocator, blen, blocklen, write}
use nix_mark_iv.Block.Chain.{bl2mem}
use nix_mark_iv.Qio.{Queue, IsValid, qaddlist, qputback, unlink}
use nix_mark_iv.Qio.Read.{
  qwait, qwakeup, finish, unread, bread_from, qbread, grab, copy_out, read_from, qread, Wait,
}
use nix_mark_iv.Qio.Write.{qbwrite}
use nix_mark_iv.Qio.Control.{Mode, qopen, qclose, qflush}
use nix_mark_iv.Qio.Counters.{
  restart-IsValid, feed-IsValid, qaddlist-IsValid, qputback-IsValid, unlink-IsValid,
}

finish-IsValid :
    {A : Type 0} (x : A) (q : Queue) (freed : List Block)
    → IsValid q
    → IsValid (finish x q freed).queue
unfolding finish qwakeup
finish-IsValid x q freed v = restart-IsValid q v

unread-IsValid : (A : Type 0) (w : Wait × Queue) → IsValid w.1 → IsValid (unread {A = A} w).queue
unfolding unread
unread-IsValid A (Wait.at_end, q) v = v
unread-IsValid A (w, q) v = v

qwait-IsValid : (q : Queue) → IsValid q → IsValid (qwait q).1
unfolding qwait
qwait-IsValid q v = split q.blocks refl
  where
    split : (bs : List Block) → q.blocks ≡ bs → IsValid (qwait q).1
    split [] e = ground arith
    split (b ∷ rest) e = ground arith

bread_from-IsValid :
    (a : Allocator) (q : Queue) (bs : List Block) (len : ℕ)
    → q.blocks ≡ bs
    → IsValid q
    → IsValid (bread_from a q bs len).queue
unfolding bread_from
bread_from-IsValid a q [] len e v = unread-IsValid Block (qwait q) (qwait-IsValid q v)
bread_from-IsValid a q (b ∷ rest) len e v =
    let q' = unlink q b rest in
    let v' = unlink-IsValid q b rest e v in
    let tail = write (drop len b.bytes) (a.alloc (blen b - len)) in
    ground (
      arith,
      finish-IsValid (truncate len b) q' [] v',
      finish-IsValid (truncate len b) (qputback q' tail) [] (qputback-IsValid q' tail v'),
      finish-IsValid b q' [] v',
    )

-- qbread of a valid queue keeps len and dlen equal to what is queued, also where it splits a block.
pub qbread-IsValid :
    (a : Allocator) (q : Queue) (len : ℕ) → IsValid q → IsValid (qbread a q len).queue
unfolding qbread
qbread-IsValid a q len v = bread_from-IsValid a q q.blocks len refl v

blocks-unlink : (q : Queue) (b : Block) (rest : List Block) → (unlink q b rest).blocks ≡ rest
unfolding unlink
blocks-unlink q b rest = refl

grab-IsValid :
    (q : Queue) (bs : List Block) (n len : ℕ)
    → q.blocks ≡ bs
    → IsValid q
    → IsValid (grab q bs n len).1
unfolding grab
grab-IsValid q [] n len e v = v
grab-IsValid q (b ∷ rest) n len e v = ground (
  arith,
  unlink-IsValid q b rest e v,
  grab-IsValid (unlink q b rest) rest (n + blen b) len (blocks-unlink q b rest),
)

copy_out-IsValid :
    (q : Queue) (first : List Block) (len : ℕ) → IsValid q → IsValid (copy_out q first len).queue
unfolding copy_out
copy_out-IsValid q first len v =
    let (bytes, left) = bl2mem first len in
    let used = take (length first - length left) first in
    elim (List-cases left) [
      | inl e ↦ rw (e, copy_out) (finish-IsValid {A = ℕ × List ℕ} (blocklen first, bytes) q _ v)
      | inr (b, rest, e) ↦
          let n = blocklen first - blen b in
          rw (e, copy_out)
            (ground (
              arith,
              finish-IsValid {A = ℕ × List ℕ} (n, bytes) q (used ++ b ∷ []) v,
              finish-IsValid {A = ℕ × List ℕ} (n, bytes) (qputback q b) used
                  (qputback-IsValid q b v),
            ))
    ]

read_from-IsValid :
    (q : Queue) (bs : List Block) (len : ℕ)
    → q.blocks ≡ bs
    → IsValid q
    → IsValid (read_from q bs len).queue
unfolding read_from
read_from-IsValid q [] len e v = unread-IsValid (ℕ × List ℕ) (qwait q) (qwait-IsValid q v)
read_from-IsValid q (b ∷ rest) len e v =
    let q' = unlink q b rest in
    let v' = unlink-IsValid q b rest e v in
    let same = blocks-unlink q b rest in
    let (more, q'') = grab q' rest (blen b) len in
    ground (
      arith,
      read_from-IsValid q' rest len same v',
      copy_out-IsValid q'' (b ∷ more) len (grab-IsValid q' rest (blen b) len same v'),
      copy_out-IsValid q' (b ∷ []) len v',
    )

-- qread of a valid queue keeps len and dlen equal to what is queued, also where it puts a block
-- back.
pub qread-IsValid : (q : Queue) (len : ℕ) → IsValid q → IsValid (qread q len).queue
unfolding qread
qread-IsValid q len v = read_from-IsValid q q.blocks len refl v

-- qbwrite of a valid queue keeps len and dlen equal to what is queued, whether it takes the block
-- or not.
pub qbwrite-IsValid : (q : Queue) (b : Block) → IsValid q → IsValid (qbwrite q b).queue
unfolding qbwrite
qbwrite-IsValid q b v =
    ground (arith, feed-IsValid (qaddlist q (b ∷ [])) (qaddlist-IsValid q (b ∷ []) v))

-- A new queue, a closed one and a flushed one are valid.
pub qopen-IsValid : (limit : ℕ) (mode : Mode) (kick : Bool) → IsValid (qopen limit mode kick)
unfolding qopen
qopen-IsValid limit mode kick = record { allocated = refl; queued = refl }

pub qclose-IsValid : (q : Queue) → IsValid (qclose q).queue
unfolding qclose
qclose-IsValid q = record { allocated = refl; queued = refl }

pub qflush-IsValid : (q : Queue) → IsValid (qflush q).queue
unfolding qflush
qflush-IsValid q = record { allocated = refl; queued = refl }
