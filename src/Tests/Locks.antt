-- ===== src/Tests/Locks.antt =====
-- A process that waits for a lock and gets it, and the queue it waits in.
use nix_mark_iv.Prelude.{refl, [], ◌∷◌, some, none, false, inl}
use nix_mark_iv.WaitQueue.{Procs, WaitQueue, running}
use nix_mark_iv.WaitQueue.Holds.{Holds}
use nix_mark_iv.QLock.{qlock}
use nix_mark_iv.QLock.System.{
  System, locks, unlocks, lock_by, unlock_by, Reach, here, next, IsSafe, Reach-IsSafe,
}

abbrev procs : Procs
procs = record { qnext = λ p. none; state = λ p. running }

abbrev empty : WaitQueue
empty = record { head = none; tail = none }

empty-Holds : Holds empty procs []
empty-Holds = record { chain = refl; ends = refl; distinct = tt }

abbrev one : WaitQueue
one = record { head = some 1; tail = some 1 }

one-Holds : Holds one procs (1 ∷ [])
one-Holds = record { chain = (refl, refl); ends = refl; distinct = (tt, tt) }

abbrev start : System
start = record {
  lock = record { locked = false; queue = empty };
  procs = procs;
  inside = [];
  waiting = [];
  arrived = [];
  granted = [];
}

start-IsSafe : IsSafe start
start-IsSafe = record { links = empty-Holds; exclusive = inl (refl, refl, refl); fifo = refl }

-- Process 1 takes the lock, process 2 waits for it, and process 1 hands it over.
abbrev handed : System
handed = unlock_by [] (lock_by 2 (lock_by 1 start))

hand_over : Reach start handed
unfolding lock_by qlock
hand_over = next (next (next here (locks 1 tt)) (locks 2 tt)) (unlocks 1 [] refl)

Reach-IsSafe_example : IsSafe handed
Reach-IsSafe_example = Reach-IsSafe start-IsSafe hand_over
