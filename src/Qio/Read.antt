-- ===== src/Qio/Read.antt =====
-- The reads of port/qio.c: qwait, qbread and qread. The lock rlock makes readers take turns, so a
-- routine is one step. The step of qread joins the copy to user space, during which the queue is
-- unlocked, with the rest: producers only append, so what it took stays taken.
use nix_mark_iv.Prelude.{
  length, take, ℕ, ◌+◌, ◌-◌, Bool, true, false, ◌||◌, List, [], ◌∷◌, ◌++◌, drop, ltb, ◌==◌,
  if◌then◌else◌,
}
use nix_mark_iv.Block.{blocklen, Block, Allocator, blen, write, truncate}
use nix_mark_iv.Block.Chain.{bl2mem}
use nix_mark_iv.Qio.{Queue, Step, Signal, wake_writer, kicked, Err, text, restart, qputback, unlink}

-- What qwait finds: data, the end of a closed queue, an error, or nothing yet.
pub data Wait : Type 0 where
  ready at_end failed sleeps : Wait

failing : Err → Bool
failing (text t) = true
failing e = false

unfoldable pub qwait_on : Queue → List Block → Wait × Queue
unfolding failing
qwait_on q (b ∷ rest) = (ready, q)
qwait_on q [] =
    let eof = q.eof + 1 in
    if q.closed
    then if ltb 3 eof || failing q.err
      then (failed, record q { eof = eof })
      else (at_end, record q { eof = eof })
    else (sleeps, record q { starve = true })

unfoldable pub qwait : Queue → Wait × Queue
unfolding qwait_on
qwait q = qwait_on q q.blocks

-- What a read returns.
pub data Read (A : Type 0) : Type 0 where
  got : A → Read A
  eof : Read A
  error : Err → Read A
  blocked : Read A

-- qwakeup_iunlock.
unfoldable pub qwakeup : Queue → Queue × List Signal
qwakeup q =
    let (q', dowakeup) = restart q in
    (q', if dowakeup then if q.kick then kicked ∷ wake_writer ∷ [] else wake_writer ∷ [] else [])

-- The end of a read that got something.
unfoldable pub finish : {A : Type 0} → A → Queue → List Block → Step (Read A)
unfolding qwakeup
finish x q freed =
    let (q', signals) = qwakeup q in
    record { ret = got x; queue = q'; freed = freed; signals = signals }

-- A read that found no data.
unfoldable pub unread : {A : Type 0} → Wait × Queue → Step (Read A)
unread (at_end, q) = record { ret = eof; queue = q; freed = []; signals = [] }
unread (failed, q) = record { ret = error q.err; queue = q; freed = []; signals = [] }
unread (w, q) = record { ret = blocked; queue = q; freed = []; signals = [] }

-- qbread of at most len bytes: a block that is longer is split, or cut if each is a message.
unfoldable pub bread_from : Allocator → Queue → List Block → ℕ → Step (Read Block)
bread_from a q [] len = unread (qwait q)
bread_from a q (b ∷ rest) len =
    let n = blen b in
    let q' = unlink q b rest in
    let tail = write (drop len b.bytes) (a.alloc (n - len)) in
    if ltb len n
    then finish (truncate len b) (if q'.msg then q' else qputback q' tail) []
    else finish b q' []

unfoldable pub qbread : Allocator → Queue → ℕ → Step (Read Block)
qbread a q len = bread_from a q q.blocks len

-- The blocks behind the first that qread takes with it while all of them fit.
unfoldable pub grab : Queue → List Block → ℕ → ℕ → List Block × Queue
grab q [] n len = ([], q)
grab q (b ∷ rest) n len =
    let more = grab (unlink q b rest) rest (n + blen b) len in
    if ltb len (n + blen b) then ([], q) else (b ∷ more.0, more.1)

-- qread, once it holds the blocks it took: the count and the bytes that it copies out.
unfoldable pub copy_out : Queue → List Block → ℕ → Step (Read (ℕ × List ℕ))
copy_out q first len =
    let (bytes, left) = bl2mem first len in
    let used = take (length first - length left) first in
    elim left [
      | [] ↦ finish (blocklen first, bytes) q used
      | b ∷ _ ↦
          let n = blocklen first - blen b in
          if q.msg
          then finish (n, bytes) q (used ++ b ∷ [])
          else finish (n, bytes) (qputback q b) used
    ]

-- Empty blocks at the head go away when the queue coalesces.
unfoldable pub read_from : Queue → List Block → ℕ → Step (Read (ℕ × List ℕ))
read_from q [] len = unread (qwait q)
read_from q (b ∷ rest) len =
    let q' = unlink q b rest in
    let again = read_from q' rest len in
    let (more, q'') = grab q' rest (blen b) len in
    if q.coalesce
    then if blen b == 0
      then record again { freed = b ∷ again.freed }
      else copy_out q'' (b ∷ more) len
    else copy_out q' (b ∷ []) len

unfoldable pub qread : Queue → ℕ → Step (Read (ℕ × List ℕ))
qread q len = read_from q q.blocks len
