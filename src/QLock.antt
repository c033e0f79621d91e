-- ===== src/QLock.antt =====
-- QLock of port/qlock.c: qlock, canqlock and qunlock. The spin lock `use` makes each routine one
-- step, up to the sched() of a process that has to wait. Tracing, the statistics and the recorded
-- program counters are left out.
pub mod System
use nix_mark_iv.Prelude.{ℕ, Option, none, some, Bool, true, false, if◌then◌else◌}
use nix_mark_iv.WaitQueue.{ProcState, queueing, Procs, WaitQueue, enqueue, dequeue, make_ready}

pub record QLock : Type 0 where
  pub locked : Bool
  pub queue : WaitQueue

-- How a call ends for the caller.
pub data Outcome : Type 0 where
  acquired waits refused panics : Outcome

-- qlock, by the process `up`, which is nil before there are processes.
unfoldable pub qlock : Option ℕ → QLock → Procs → Outcome × QLock × Procs
qlock up q ps =
    if q.locked
    then elim up [
      | none ↦ (panics, q, ps)
      | some p ↦
          let (w, ps') = enqueue p queueing (q.queue, ps) in (waits, record q { queue = w }, ps')
    ]
    else (acquired, record q { locked = true }, ps)

-- canqlock: `free` says whether canlock got the spin lock.
unfoldable pub canqlock : Bool → QLock → Outcome × QLock
canqlock free q =
    if free
    then if q.locked then (refused, q) else (acquired, record q { locked = true })
    else (refused, q)

-- qunlock, with the process that now holds the lock.
unfoldable pub qunlock : QLock → Procs → Option ℕ × QLock × Procs
qunlock q ps = elim q.queue.head [
  | none ↦ (none, record q { locked = false }, ps)
  | some p ↦ (some p, record q { queue = dequeue p (q.queue, ps) }, make_ready p ps)
]
