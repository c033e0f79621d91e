-- ===== src/WaitQueue.antt =====
-- The queues of waiting processes that the locks of port/qlock.c share: `head` and `tail` of a lock,
-- and `qnext` and `state` of each process (port/portdat.h). A process is named by a number, and nil
-- is `none`. The spin lock `use` makes each routine of a lock one step.
pub mod Holds
use nix_mark_iv.Prelude.{ℕ, Option, none, some, ◌==◌, if◌then◌else◌}

-- The states of a process that the locks set and read.
pub data ProcState : Type 0 where
  running ready queueing queueing_r queueing_w : ProcState

pub record Procs : Type 0 where
  pub qnext : ℕ → Option ℕ
  pub state : ℕ → ProcState

pub record WaitQueue : Type 0 where
  pub head : Option ℕ
  pub tail : Option ℕ

abbrev pub set_entry {ℓ} : {A : Type ℓ} → (ℕ → A) → ℕ → A → ℕ → A
set_entry f p v j = if j == p then v else f j

unfoldable pub link : Option ℕ → ℕ → (ℕ → Option ℕ) → ℕ → Option ℕ
link none up next = set_entry next up none
link (some p) up next = set_entry (set_entry next p (some up)) up none

unfoldable pub new_head : WaitQueue → ℕ → Option ℕ
new_head q up = elim q.tail [ none ↦ some up | some p ↦ q.head ]

-- `up` goes to the tail, in the given state.
unfoldable pub enqueue : ℕ → ProcState → WaitQueue × Procs → WaitQueue × Procs
unfolding link new_head
enqueue up st (q, ps) = (
  record { head = new_head q up; tail = some up },
  record { qnext = link q.tail up ps.qnext; state = set_entry ps.state up st },
)

-- q->head = p->qnext; if(q->head == 0) q->tail = 0, for the process `p` at the head.
unfoldable pub dequeue : ℕ → WaitQueue × Procs → WaitQueue
dequeue p (q, ps) = elim (ps.qnext p) [
  | none ↦ record { head = none; tail = none }
  | some n ↦ record { head = some n; tail = q.tail }
]

-- ready, of port/proc.c, as far as the locks see it: the process may run again.
unfoldable pub make_ready : ℕ → Procs → Procs
make_ready p ps = record ps { state = set_entry ps.state p ready }
