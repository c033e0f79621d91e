-- ===== src/Qio/Interrupt.antt =====
-- The routines of port/qio.c that may run at interrupt level: qget, qdiscard, qconsume, qpass,
-- qpassnolim, qproduce, qcopy and pullupqueue.
use nix_mark_iv.Prelude.{
  ℕ, ◌+◌, ◌-◌, ◌/◌, min, true, ◌||◌, Option, none, some, List, [], ◌∷◌, length, take, drop, ltb,
  leb, ◌==◌, if◌then◌else◌,
}
use nix_mark_iv.Block.{Block, Allocator, blen, balloc, blockalloclen, advance, write}
use nix_mark_iv.Block.Chain.{pullupblock}
use nix_mark_iv.Alloc.{Ialloc, iallocb}
use nix_mark_iv.Qio.{Queue, Step, restart, feed, wakes_writer, wakes_reader, qaddlist, unlink}

-- qget: the first block, or nil for an empty queue, whose reader is then starved.
unfoldable pub qget_from : Queue → List Block → Step (Option Block)
qget_from q [] = record { ret = none; queue = record q { starve = true }; freed = []; signals = [] }
qget_from q (b ∷ rest) =
    let (q', dowakeup) = restart (unlink q b rest) in
    record { ret = some b; queue = q'; freed = []; signals = wakes_writer dowakeup }

unfoldable pub qget : Queue → Step (Option Block)
unfolding qget_from
qget q = qget_from q q.blocks

-- The loop of qdiscard, for the bytes that are left to throw away.
pub record Discarded : Type 0 where
  pub sofar : ℕ
  pub blocks : List Block
  pub len : ℕ
  pub dlen : ℕ
  pub freed : List Block

unfoldable pub discard : List Block → ℕ → ℕ → ℕ → Discarded
discard [] left len dlen = record { sofar = 0; blocks = []; len = len; dlen = dlen; freed = [] }
discard (b ∷ rest) left len dlen =
    let r = discard rest (left - blen b) (len - balloc b) (dlen - blen b) in
    if left == 0
    then record { sofar = 0; blocks = b ∷ rest; len = len; dlen = dlen; freed = [] }
    else if leb (blen b) left
    then record r { sofar = blen b + r.sofar; freed = b ∷ r.freed }
    else record {
      sofar = left;
      blocks = advance left b ∷ rest;
      len = len;
      dlen = dlen - left;
      freed = [];
    }

unfoldable pub qdiscard : Queue → ℕ → Step ℕ
qdiscard q len =
    let d = discard q.blocks len q.len q.dlen in
    let (q', dowakeup) = restart (record q { blocks = d.blocks; len = d.len; dlen = d.dlen }) in
    record { ret = d.sofar; queue = q'; freed = d.freed; signals = wakes_writer dowakeup }

-- The loop of qconsume that takes empty blocks off the queue, to be freed later.
pub record Stripped : Type 0 where
  pub blocks : List Block
  pub len : ℕ
  pub tofree : List Block

unfoldable pub strip : List Block → ℕ → List Block → Stripped
strip [] len tofree = record { blocks = []; len = len; tofree = tofree }
strip (b ∷ rest) len tofree =
    let r = strip rest (len - balloc b) (b ∷ tofree) in
    if ltb 0 (blen b) then record { blocks = b ∷ rest; len = len; tofree = tofree } else r

-- qconsume after that loop. The -1 of an empty queue returns before anything is freed.
unfoldable pub consume : Queue → List Block → List Block → ℕ → Step (Option (List ℕ))
consume q [] tofree len = record {
  ret = none;
  queue = record q { blocks = []; starve = true };
  freed = [];
  signals = [];
}
consume q (b ∷ rest) tofree len =
    let n = blen b in
    let l = min n len in
    let b' = advance l b in
    let done = q.msg || l == n in
    let left = record q { blocks = b' ∷ rest; dlen = q.dlen - l } in
    let (q', dowakeup) = restart (if done then unlink left b' rest else left) in
    record {
      ret = some (take l b.bytes);
      queue = q';
      freed = if done then b' ∷ tofree else tofree;
      signals = wakes_writer dowakeup;
    }

unfoldable pub qconsume : Queue → ℕ → Step (Option (List ℕ))
unfolding consume
qconsume q len =
    let s = strip q.blocks q.len [] in consume (record q { len = s.len }) s.blocks s.tofree len

-- qpassnolim, and qpass behind its test of the limit, of a chain with first block `b`.
unfoldable pub qpassnolim : Queue → Block → List Block → Step (Option ℕ)
qpassnolim q b rest =
    let added = qaddlist q (b ∷ rest) in
    let flowing = if leb (q.limit / 2) added.len then record added { flow = true } else added in
    let (q', dowakeup) = feed flowing in
    if q.closed
    then record { ret = some (balloc b); queue = q; freed = b ∷ rest; signals = [] }
    else record {
      ret = some (blockalloclen (b ∷ rest));
      queue = q';
      freed = [];
      signals = wakes_reader dowakeup;
    }

unfoldable pub qpass : Queue → Block → List Block → Step (Option ℕ)
qpass q b rest =
    if leb q.limit q.len
    then record { ret = none; queue = q; freed = b ∷ rest; signals = [] }
    else qpassnolim q b rest

-- qproduce: `made` is the block that _allocb would make for these bytes.
unfoldable pub produce : Queue → List ℕ → Option Block → Step (Option ℕ)
produce q p none = record { ret = some 0; queue = q; freed = []; signals = [] }
produce q p (some b) =
    let (fed, dowakeup) = feed (qaddlist q (write p b ∷ [])) in
    record {
      ret = some (length p);
      queue = if leb fed.limit fed.len then record fed { flow = true } else fed;
      freed = [];
      signals = wakes_reader dowakeup;
    }

unfoldable pub qproduce : Queue → Block → Ialloc → List ℕ → Step (Option ℕ) × Ialloc
unfolding produce
qproduce q made s p =
    let (got, s') = iallocb made s in
    if leb q.limit q.len
    then (record { ret = none; queue = record q { flow = true }; freed = []; signals = [] }, s)
    else (produce q p got, s')

-- qcopy: the data at the offset and the blocks behind it, then the loop that copies.
unfoldable pub seek : List Block → ℕ → Option (List ℕ × List Block)
seek [] offset = none
seek (b ∷ rest) offset =
    let later = seek rest (offset - blen b) in
    if ltb offset (blen b) then some (drop offset b.bytes, rest) else later

unfoldable pub copy_from : Block → List ℕ → List Block → ℕ → Block
copy_from nb p [] left = if left == 0 then nb else write (take (min (length p) left) p) nb
copy_from nb p (b ∷ rest) left =
    let n = min (length p) left in
    let more = copy_from (write (take n p) nb) b.bytes rest (left - n) in
    if left == 0 then nb else more

unfoldable pub qcopy : Allocator → Queue → ℕ → ℕ → Block
qcopy a q len offset = elim (seek q.blocks offset) [
  | none ↦ a.alloc len
  | some (p, rest) ↦ copy_from (a.alloc len) p rest len
]

-- pullupqueue, of a queue that is not empty; it does not touch the counters.
unfoldable pub pullup_from : Allocator → Queue → List Block → ℕ → Queue
pullup_from a q [] n = q
pullup_from a q (b ∷ rest) n = if leb n (blen b) then q else elim (pullupblock a b rest n) [
  | none ↦ record q { blocks = [] }
  | some bs ↦ record q { blocks = bs }
]

unfoldable pub pullupqueue : Allocator → Queue → ℕ → Queue
unfolding pullup_from
pullupqueue a q n = pullup_from a q q.blocks n
