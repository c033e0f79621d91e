-- ===== src/Qio.antt =====
-- The queues of port/qio.c: the state of a queue, and the routines that every reader and writer
-- shares. The chain from bfirst to blast is a list, so blast is its last block. Each routine is one
-- step taken under the queue's lock; where one sleeps, the step ends there. The state bits are
-- fields, `kick` and `bypass` say whether those callbacks are set, and the debugging counters are
-- left out.
pub mod Interrupt
pub mod Read
pub mod Write
pub mod Kinds
pub mod Counters
pub mod Users
pub mod Stream
pub mod Feed
pub mod Fill
pub mod Flow
pub mod Print
pub mod Drain
pub mod Progress
pub mod History
pub mod Split
pub mod Control
use nix_mark_iv.Prelude.{
  ℕ, ◌+◌, ◌-◌, ◌/◌, ◌≡◌, Bool, true, false, ◌&&◌, Option, none, some, List, [], ◌∷◌, ◌++◌, ltb,
  if◌then◌else◌,
}
use nix_mark_iv.Block.{Block, blen, balloc, blocklen, blockalloclen}

-- q->err: empty, Ehungup, or another text.
pub data Err : Type 0 where
  unset hungup : Err
  text : List ℕ → Err

pub record Queue : Type 0 where
  pub blocks : List Block
  pub len : ℕ
  pub dlen : ℕ
  pub limit : ℕ
  pub inilim : ℕ
  pub starve : Bool
  pub msg : Bool
  pub closed : Bool
  pub flow : Bool
  pub coalesce : Bool
  pub always_kick : Bool
  pub noblock : Bool
  pub eof : ℕ
  pub kick : Bool
  pub bypass : Bool
  pub err : Err

-- What a step does outside the queue.
pub data Signal : Type 0 where
  wake_reader wake_writer kicked : Signal

-- The value returned, the queue left, the blocks freed and the signals sent.
pub record Step (A : Type 0) : Type 0 where
  pub ret : A
  pub queue : Queue
  pub freed : List Block
  pub signals : List Signal

-- If the writer is flow controlled and the queue has drained to half its limit, restart it.
unfoldable pub restart : Queue → Queue × Bool
restart q =
    if q.flow && ltb q.len (q.limit / 2) then (record q { flow = false }, true) else (q, false)

abbrev pub wakes_writer : Bool → List Signal
wakes_writer dowakeup = if dowakeup then wake_writer ∷ [] else []

-- Wake a starved reader.
unfoldable pub feed : Queue → Queue × Bool
feed q = if q.starve then (record q { starve = false }, true) else (q, false)

abbrev pub wakes_reader : Bool → List Signal
wakes_reader dowakeup = if dowakeup then wake_reader ∷ [] else []

-- Link a chain behind blast.
unfoldable pub qaddlist : Queue → List Block → Queue
qaddlist q bs = record q {
  blocks = q.blocks ++ bs;
  len = q.len + blockalloclen bs;
  dlen = q.dlen + blocklen bs;
}

unfoldable pub qputback : Queue → Block → Queue
qputback q b = record q { blocks = b ∷ q.blocks; len = q.len + balloc b; dlen = q.dlen + blen b }

-- The queue without its first block `b`.
unfoldable pub unlink : Queue → Block → List Block → Queue
unlink q b rest = record q { blocks = rest; len = q.len - balloc b; dlen = q.dlen - blen b }

unfoldable pub qremove_from : Queue → List Block → Option Block × Queue
qremove_from q [] = (none, q)
qremove_from q (b ∷ rest) = (some b, unlink q b rest)

unfoldable pub qremove : Queue → Option Block × Queue
unfolding qremove_from
qremove q = qremove_from q q.blocks

-- What the counters of a queue have to be.
pub record IsValid (q : Queue) : Type 0 where
  pub allocated : q.len ≡ blockalloclen q.blocks
  pub queued : q.dlen ≡ blocklen q.blocks
