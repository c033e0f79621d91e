-- ===== src/RWlock.antt =====
-- RWlock of port/qlock.c: rlock, canrlock, runlock, wlock and wunlock. The spin lock `use` makes
-- each routine one step, up to the sched() of a process that has to wait. A lock routine of a
-- process that has to wait panics before there are processes. Tracing, the statistics and the
-- recorded program counter are left out. The count of readers is a natural number: runlock is for
-- a reader, which the count includes.
pub mod Inside
pub mod Released
pub mod Exclusion
pub mod Wakeup
use nix_mark_iv.Prelude.{
  ℕ, zero, suc, ◌+◌, ◌-◌, Option, none, some, List, [], ◌∷◌, Bool, true, false, ◌&&◌, ltb, ◌==◌,
  if◌then◌else◌,
}
use nix_mark_iv.WaitQueue.{
  ProcState, queueing_r, queueing_w, Procs, WaitQueue, enqueue, dequeue, make_ready,
}
use nix_mark_iv.QLock.{Outcome, acquired, waits, refused, panics}

pub record RWlock : Type 0 where
  pub queue : WaitQueue
  pub wproc : Option ℕ
  pub readers : ℕ
  pub writer : ℕ

abbrev pub is_nil : Option ℕ → Bool
is_nil none = true
is_nil (some p) = false

abbrev pub is_reader : ProcState → Bool
is_reader queueing_r = true
is_reader s = false

abbrev pub is_writer : ProcState → Bool
is_writer queueing_w = true
is_writer s = false

-- The caller goes to the tail of the queue, in the given state.
unfoldable pub wait_in : Option ℕ → ProcState → RWlock → Procs → Outcome × RWlock × Procs
wait_in none st q ps = (panics, q, ps)
wait_in (some up) st q ps =
    let (w, ps') = enqueue up st (q.queue, ps) in (waits, record q { queue = w }, ps')

unfoldable pub rlock : Option ℕ → RWlock → Procs → Outcome × RWlock × Procs
rlock up q ps =
    if q.writer == 0 && is_nil q.queue.head
    then (acquired, record q { readers = q.readers + 1 }, ps)
    else wait_in up queueing_r q ps

unfoldable pub canrlock : RWlock → Outcome × RWlock
canrlock q =
    if q.writer == 0 && is_nil q.queue.head
    then (acquired, record q { readers = q.readers + 1 })
    else (refused, q)

unfoldable pub wlock : Option ℕ → RWlock → Procs → Outcome × RWlock × Procs
wlock up q ps =
    if q.readers == 0 && q.writer == 0
    then (acquired, record q { writer = 1; wproc = up }, ps)
    else wait_in up queueing_w q ps

-- The processes that a release makes ready, the lock and the processes; `none` is the panic.
abbrev pub Release : Type 0
Release = Option (List ℕ × RWlock × Procs)

-- The head of the queue, `p`, is taken off and made ready.
unfoldable pub start_writer : ℕ → RWlock → Procs → Release
start_writer p q ps =
    some (p ∷ [], record q { queue = dequeue p (q.queue, ps); writer = 1 }, make_ready p ps)

unfoldable pub runlock : RWlock → Procs → Release
runlock q ps =
    let q' = record q { readers = q.readers - 1 } in
    elim q.queue.head [
      | none ↦ some ([], q', ps)
      | some p ↦
          if ltb 0 (q.readers - 1)
          then some ([], q', ps)
          else if is_writer (ps.state p)
          then start_writer p q' ps
          else none
    ]

-- The loop of wunlock that wakes the readers at the head of the queue, with a round for each.
unfoldable pub wake_readers : ℕ → Option ℕ → RWlock → Procs → List ℕ × RWlock × Procs
wake_readers zero h q ps = ([], record q { queue = record { head = h; tail = q.queue.tail } }, ps)
wake_readers (suc fuel) none q ps =
    ([], record q { queue = record { head = none; tail = none } }, ps)
wake_readers (suc fuel) (some p) q ps =
    let (woken, q', ps') =
      wake_readers fuel (ps.qnext p) (record q { readers = q.readers + 1 }) (make_ready p ps) in
    if is_reader (ps.state p)
    then (p ∷ woken, q', ps')
    else ([], record q { queue = record { head = some p; tail = q.queue.tail } }, ps)

unfoldable pub wunlock : ℕ → RWlock → Procs → Release
wunlock fuel q ps = elim q.queue.head [
  | none ↦ some ([], record q { writer = 0 }, ps)
  | some p ↦
      if is_writer (ps.state p)
      then some (p ∷ [], record q { queue = dequeue p (q.queue, ps) }, make_ready p ps)
      else if is_reader (ps.state p)
      then (let (woken, q', ps') = wake_readers fuel (some p) q ps in
          some (woken, record q' { writer = 0 }, ps'))
      else none
]
