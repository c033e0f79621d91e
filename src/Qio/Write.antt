-- ===== src/Qio/Write.antt =====
-- The writes of port/qio.c: qbwrite and qwrite in a process, and qiwrite, which print uses. The lock
-- wlock makes writers take turns, so a call of qbwrite is one step, up to the sleep of a writer that
-- filled the queue. Between the calls of one qwrite, and in those sleeps, other processes take steps;
-- none but qopen sets or clears Qmsg. The calls of one qiwrite follow each other with no step of
-- another process between them.
use nix_mark_iv.Prelude.{
  zero, suc, Option, none, some, ◌*◌, ◌+◌, ◌-◌, min, take, drop, length, ◌==◌, ℕ, Bool, true, false,
  not, ◌&&◌, ◌||◌, List, [], ◌∷◌, ◌++◌, ltb, leb, if◌then◌else◌,
}
use nix_mark_iv.Block.{Block, Allocator, blen, write}
use nix_mark_iv.Alloc.{Ialloc, iallocb, freeb}
use nix_mark_iv.Block.Chain.{maxatomic}
use nix_mark_iv.Qio.{wake_reader, Queue, Step, Signal, kicked, Err, feed, wakes_reader, qaddlist}

-- What a write returns: the count, with whether the writer then sleeps; the queue's error; or the
-- block handed to the bypass routine.
pub data Written : Type 0 where
  wrote : ℕ → Bool → Written
  refused : Err → Written
  passed : Block → Written

-- qnotfull.
unfoldable pub qnotfull : Queue → Bool
qnotfull q = ltb q.len q.limit || q.closed

unfoldable pub qbwrite : Queue → Block → Step Written
qbwrite q b =
    let (q', dowakeup) = feed (qaddlist q (b ∷ [])) in
    let waits = not (q'.noblock || qnotfull q') in
    if q.bypass
    then record { ret = passed b; queue = q; freed = []; signals = [] }
    else if q.closed
    then record { ret = refused q.err; queue = q; freed = b ∷ []; signals = [] }
    else if leb q.limit q.len && q.noblock
    then record { ret = wrote (blen b) false; queue = q; freed = b ∷ []; signals = [] }
    else record {
      ret = wrote (blen b) waits;
      queue = if waits then record q' { flow = true } else q';
      freed = [];
      signals =
          (if q.kick && (dowakeup || q.always_kick) then kicked ∷ [] else [])
          ++ wakes_reader dowakeup;
    }

-- The blocks that qwrite makes of the bytes: one for a message, else all of them. The do-while loop
-- takes fuel for its rounds.
unfoldable pub qwrite_blocks : Allocator → Bool → ℕ → List ℕ → List Block
qwrite_blocks a msg zero p = []
qwrite_blocks a msg (suc fuel) p =
    let n = min (length p) maxatomic in
    let rest = qwrite_blocks a msg fuel (drop n p) in
    write (take n p) (a.alloc n) ∷ (if length p - n == 0 || msg then [] else rest)

-- How a write ends: with all blocks handed to qbwrite, with the error of a closed queue, or with an
-- error that was raised in the sleep of the writer.
pub data WriteOutcome : Type 0 where
  complete cut_off : WriteOutcome
  failed : Err → WriteOutcome

-- What others make of the queue, and of their own state, behind a call of qbwrite, and whether the
-- writer, if it sleeps there, is interrupted.
pub record Pause {ℓ} (E : Type ℓ) : Type ℓ where
  pub queue : Queue
  pub rest : E
  pub interrupted : Bool

pub record WriteEnd {ℓ} (E : Type ℓ) : Type ℓ where
  pub ended : WriteOutcome
  pub queue : Queue
  pub rest : E

abbrev pub sleeps : Written → Bool
sleeps (wrote n waits) = waits
sleeps r = false

-- The calls of qbwrite, up to the first error. `meanwhile` is what others do behind each of them,
-- where the Bool says that the writer sleeps until the queue is not full.
unfoldable pub write_all {ℓ} :
    {E : Type ℓ} → (E → Bool → Queue → Pause E) → E → Queue → List Block → WriteEnd E
write_all meanwhile e q [] = record { ended = complete; queue = q; rest = e }
write_all meanwhile e q (b ∷ bs) =
    let s = qbwrite q b in
    let m = meanwhile e (sleeps s.ret) s.queue in
    let next = write_all meanwhile m.rest m.queue bs in
    elim s.ret [
      | refused x ↦ record { ended = failed x; queue = s.queue; rest = e }
      | _ ↦
          if sleeps s.ret && m.interrupted
          then record { ended = cut_off; queue = m.queue; rest = m.rest }
          else next
    ]

-- qwrite: the count is the length asked for, on every way that does not fail.
unfoldable pub qwrite {ℓ} :
    {E : Type ℓ}
    → Allocator
    → (E → Bool → Queue → Pause E)
    → E
    → Queue
    → List ℕ
    → Option ℕ × WriteEnd E
qwrite a meanwhile e q p =
    let r = write_all meanwhile e q (qwrite_blocks a q.msg (length p + 1) p) in
    (elim r.ended [ complete ↦ some (length p) | _ ↦ none ], r)

abbrev pub print_limit : ℕ
print_limit = 32 * 1024

-- qiwrite, with fuel for its rounds: `made n` is the block that _allocb would make for n bytes,
-- and `woken` is dowakeup, which is never cleared.
pub record Printed : Type 0 where
  pub sofar : ℕ
  pub queue : Queue
  pub ialloc : Ialloc
  pub signals : List Signal

print_signals : Bool → Bool → List Signal
print_signals kick woken =
    if woken then (if kick then kicked ∷ [] else []) ++ wake_reader ∷ [] else []

unfoldable pub qiwrite : (ℕ → Block) → ℕ → Bool → Queue → Ialloc → List ℕ → Printed
unfolding print_signals
qiwrite made zero woken q s p = record { sofar = 0; queue = q; ialloc = s; signals = [] }
qiwrite made (suc fuel) woken q s p =
    let n = min (length p) maxatomic in
    let (got, s') = iallocb (made n) s in
    elim got [
      | none ↦ record { sofar = 0; queue = q; ialloc = s'; signals = [] }
      | some b ↦
          let (q', fed) = feed (qaddlist q (write (take n p) b ∷ [])) in
          let woken' = woken || fed in
          let signals = print_signals q.kick woken' in
          let rest = qiwrite made fuel woken' q' s' (drop n p) in
          if leb print_limit q.dlen
          then record { sofar = 0; queue = q; ialloc = freeb b s'; signals = [] }
          else if length p - n == 0 || q.msg
          then record { sofar = n; queue = q'; ialloc = s'; signals = signals }
          else record rest { sofar = n + rest.sofar; signals = signals ++ rest.signals }
    ]
