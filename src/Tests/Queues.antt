-- ===== src/Tests/Queues.antt =====
-- Reads and writes of a queue of two blocks.
use nix_mark_iv.Prelude.{
  ◌&&◌, leb, ◌||◌, ◌≡◌, refl, [], ◌∷◌, ◌++◌, take, length, min, ◌≤◌, if◌then◌else◌, none, ℕ, List,
  Bool, false, append-nil,
}
use nix_mark_iv.Block.Chain.{maxatomic, bl2mem}
use nix_mark_iv.Alloc.{Ialloc}
use nix_mark_iv.Qio.{Queue}
use nix_mark_iv.Qio.Interrupt.{qconsume}
use nix_mark_iv.Qio.Read.{qread, read_from, copy_out, grab, finish}
use nix_mark_iv.Qio.Write.{qwrite, qbwrite, Pause}
use nix_mark_iv.Qio.Stream.{stream, qconsume_leaks}
use nix_mark_iv.Qio.Drain.{Reads, fetched, qread_lem}
use nix_mark_iv.Qio.Progress.{qread_progress}
use nix_mark_iv.Qio.Split.{head_bytes}
use nix_mark_iv.Qio.Fill.{stream-qbwrite}
use nix_mark_iv.Qio.Flow.{Drains, Flowed, qwrite_lem}
use nix_mark_iv.Tests.{block, zeroed, first, two_blocks}

qread_lem_example : Reads (stream two_blocks) 4 (qread two_blocks 4)
qread_lem_example = qread_lem two_blocks 4 refl

qread_four : fetched (qread two_blocks 4).ret ≡ 1 ∷ 2 ∷ 3 ∷ []
unfolding qread read_from copy_out bl2mem grab finish
qread_four = refl

qread_progress_example :
    min 2 (length (head_bytes two_blocks.blocks)) ≤ length (fetched (qread two_blocks 2).ret)
qread_progress_example = qread_progress two_blocks 2

-- A reader that takes all there is between two pieces of a write, and keeps it.
abbrev take_over : List ℕ → Bool → Queue → Pause (List ℕ)
take_over e w q = record {
  queue = record q { blocks = []; len = 0; dlen = 0 };
  rest = e ++ stream q;
  interrupted = false;
}

take_over-Drains : Drains take_over (λ e. e) (λ e. false)
take_over-Drains = record {
  keeps = λ e w q k. record { queues = k.queues; blocks = k.blocks };
  flows = λ e w q. append-nil (e ++ stream q);
  tells = λ e w q h. h;
}

qwrite_lem_example :
    Flowed
      (λ e. e)
      (λ e. false)
      []
      two_blocks
      (6 ∷ 7 ∷ [])
      (if two_blocks.msg then take maxatomic (6 ∷ 7 ∷ []) else 6 ∷ 7 ∷ [])
      (qwrite zeroed take_over [] two_blocks (6 ∷ 7 ∷ []))
qwrite_lem_example =
    qwrite_lem zeroed take_over (λ e. e) (λ e. false) [] two_blocks (6 ∷ 7 ∷ []) take_over-Drains
      (record { queues = refl; blocks = refl })

stream-qbwrite_example :
    let drops =
      two_blocks.bypass
      || (two_blocks.closed || (leb two_blocks.limit two_blocks.len && two_blocks.noblock)) in
    stream (qbwrite two_blocks first).queue
    ≡ stream two_blocks ++ (if drops then [] else first.bytes)
stream-qbwrite_example = stream-qbwrite two_blocks first

abbrev allowance : Ialloc
allowance = record { bytes = 10; limit = 100 }

-- A queue of one empty block.
abbrev drained : Queue
drained = record two_blocks { blocks = block [] ∷ []; len = 4; dlen = 0 }

qconsume_leaks_example :
    let r = qconsume drained 2 in (r.ret ≡ none) × (r.queue.blocks ≡ []) × (r.freed ≡ [])
qconsume_leaks_example = qconsume_leaks drained 2 refl
