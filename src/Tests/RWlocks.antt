-- ===== src/Tests/RWlocks.antt =====
-- A reader and a writer that meet at a lock, and readers that wunlock wakes.
use nix_mark_iv.Prelude.{
  ◌+◌, ◌≡◌, refl, none, some, [], ◌∷◌, take, drop, arith, ◌==◌, if◌then◌else◌,
}
use nix_mark_iv.WaitQueue.{
  enqueue, dequeue, make_ready, link, new_head, Procs, running, queueing_r, queueing_w,
}
use nix_mark_iv.WaitQueue.Holds.{Holds}
use nix_mark_iv.RWlock.{RWlock, rlock, wlock, wunlock, runlock, start_writer, wait_in}
use nix_mark_iv.RWlock.Inside.{Inside, IsExclusive, reads, writes, enters}
use nix_mark_iv.RWlock.Exclusion.{
  LockState, rlocks, wlocks, runlocks, Reach, here, next, Reach-IsExclusive,
}
use nix_mark_iv.RWlock.Wakeup.{leading, wunlock_readers}

abbrev procs : Procs
procs = record { qnext = λ p. none; state = λ p. running }

abbrev free : RWlock
free = record { queue = record { head = none; tail = none }; wproc = none; readers = 0; writer = 0 }

abbrev nobody_inside : Inside
nobody_inside = record { readers = []; writers = [] }

-- Process 1 reads, process 2 waits to write, and gets in as process 1 leaves.
abbrev read_by : LockState
read_by = (let r = rlock (some 1) free procs in (r.1, r.2, reads r.0 (some 1) nobody_inside))

abbrev waited_by : LockState
waited_by =
    (let r = wlock (some 2) read_by.0 read_by.1 in (r.1, r.2, writes r.0 (some 2) read_by.2))

abbrev written_by : LockState
written_by = (
  record { queue = record { head = none; tail = none }; wproc = none; readers = 0; writer = 1 },
  make_ready 2 waited_by.1,
  enters waited_by.1 (2 ∷ []) nobody_inside,
)

leaves : runlock waited_by.0 waited_by.1 ≡ some (2 ∷ [], written_by.0, written_by.1)
unfolding runlock start_writer dequeue enqueue rlock wlock wait_in link new_head
leaves = refl

all_three : Reach (free, procs, nobody_inside) written_by
unfolding rlock wlock wait_in
all_three =
    next
      (next (next here (rlocks (some 1) free procs nobody_inside))
        (wlocks (some 2) read_by.0 read_by.1 read_by.2))
      (runlocks [] [] (some 1) waited_by.0 written_by.0 waited_by.1 written_by.1 waited_by.2
        (2 ∷ []) refl leaves)

Reach-IsExclusive_example : IsExclusive written_by.0 written_by.2
Reach-IsExclusive_example = Reach-IsExclusive refl refl all_three

-- Processes 1 and 2 wait to read, and process 3 waits to write.
abbrev queued : Procs
queued = record {
  qnext = λ p. if p == 1 then some 2 else if p == 2 then some 3 else none;
  state = λ p. if p == 3 then queueing_w else queueing_r;
}

abbrev written : RWlock
written = record {
  queue = record { head = some 1; tail = some 3 };
  wproc = some 9;
  readers = 0;
  writer = 1;
}

queued-Holds : Holds written.queue queued (1 ∷ 2 ∷ 3 ∷ [])
queued-Holds = record {
  chain = (refl, (refl, (refl, refl)));
  ends = refl;
  distinct = ((omega arith, (omega arith, tt)), ((omega arith, tt), (tt, tt)));
}

wunlock_readers_example :
    let n = leading queued.state (1 ∷ 2 ∷ 3 ∷ []) in
    (q' : RWlock) × (ps' : Procs) × (wunlock 4 written queued
      ≡ some (take n (1 ∷ 2 ∷ 3 ∷ []), q', ps'))
    × (q'.writer ≡ 0)
    × (q'.readers ≡ written.readers + n)
    × Holds q'.queue ps' (drop n (1 ∷ 2 ∷ 3 ∷ []))
wunlock_readers_example =
    wunlock_readers 4 written queued 1 (2 ∷ 3 ∷ []) (omega arith) queued-Holds refl
