-- ===== src/QLock/System.antt =====
-- Processes that share a QLock, in any interleaving of their calls: one holder at a time, the lock
-- handed on in the order of arrival, and none left waiting at a free lock.
use nix_mark_iv.Prelude.{
  ℕ, ◌≡◌, ◌⊎◌, inl, inr, refl, ap, sym, ◌∙◌, subst, List, [], ◌∷◌, ◌++◌, Option, none, some, arith,
  Bool, true, false, append_assoc, append-nil,
}
use nix_mark_iv.WaitQueue.{Procs, dequeue, make_ready, queueing}
use nix_mark_iv.WaitQueue.Holds.{Holds, Avoids, enqueue-Holds, dequeue-Holds, make_ready-Holds}
use nix_mark_iv.QLock.{QLock, Outcome, acquired, waits, qlock, canqlock, qunlock}

-- The lock and the processes, with what an observer has seen: who has the lock, who waits for it,
-- and the orders in which calls came in and were granted.
pub record System : Type 0 where
  pub lock : QLock
  pub procs : Procs
  pub inside : List ℕ
  pub waiting : List ℕ
  pub arrived : List ℕ
  pub granted : List ℕ

-- The observer's record of a call that ended so.
entered : System → ℕ → Outcome × QLock × Procs → System
entered s up (acquired, q, ps) = record s {
  lock = q;
  procs = ps;
  inside = up ∷ s.inside;
  arrived = s.arrived ++ up ∷ [];
  granted = s.granted ++ up ∷ [];
}
entered s up (waits, q, ps) = record s {
  lock = q;
  procs = ps;
  waiting = s.waiting ++ up ∷ [];
  arrived = s.arrived ++ up ∷ [];
}
entered s up (o, q, ps) = record s { lock = q; procs = ps }

-- A call of qlock, a call of canqlock, and a call of qunlock by the only holder `p`.
unfoldable pub lock_by : ℕ → System → System
unfolding entered
lock_by up s = entered s up (qlock (some up) s.lock s.procs)

unfoldable pub try_by : ℕ → Bool → System → System
unfolding entered
try_by up free s = let (o, q) = canqlock free s.lock in entered s up (o, q, s.procs)

left : System → List ℕ → Option ℕ × QLock × Procs → System
left s rest (none, q, ps) = record s { lock = q; procs = ps; inside = rest }
left s rest (some p, q, ps) = record s {
  lock = q;
  procs = ps;
  inside = p ∷ rest;
  waiting = elim s.waiting [ [] ↦ [] | x ∷ xs ↦ xs ];
  granted = s.granted ++ p ∷ [];
}

unfoldable pub unlock_by : List ℕ → System → System
unfolding left
unlock_by rest s = left s rest (qunlock s.lock s.procs)

-- The steps: a process calls a lock routine only while it neither holds the lock nor waits, and
-- unlocks only while it holds it. `rest` are the other holders.
pub data Step (s : System) : System → Type 0 where
  locks : (up : ℕ) → Avoids up s.waiting → Step s (lock_by up s)
  tries : (up : ℕ) (free : Bool) → Step s (try_by up free s)
  unlocks : (p : ℕ) (rest : List ℕ) → s.inside ≡ p ∷ rest → Step s (unlock_by rest s)

pub data Reach (s : System) : System → Type 0 where
  here : Reach s s
  next : {t u : System} → Reach s t → Step t u → Reach s u

-- The links hold the waiting processes; the lock is free with nobody inside or waiting, or held by
-- exactly one; and the calls that came in were granted in order, up to those that wait.
pub record IsSafe (s : System) : Type 0 where
  pub links : Holds s.lock.queue s.procs s.waiting
  pub exclusive :
      ((s.lock.locked ≡ false) × (s.inside ≡ []) × (s.waiting ≡ []))
      ⊎ ((p : ℕ) × (s.lock.locked ≡ true) × (s.inside ≡ p ∷ []))
  pub fifo : s.arrived ≡ s.granted ++ s.waiting

module _ (arrived granted waiting : List ℕ) (up : ℕ) (e : arrived ≡ granted ++ waiting) where
  fifo_granted : waiting ≡ [] → arrived ++ up ∷ [] ≡ (granted ++ up ∷ []) ++ waiting
  fifo_granted idle = rw (e, idle, append-nil granted, append-nil (granted ++ up ∷ []))

  fifo_arrived : arrived ++ up ∷ [] ≡ granted ++ (waiting ++ up ∷ [])
  fifo_arrived = rw e (append_assoc granted waiting (up ∷ []))

lock_by-IsSafe : (up : ℕ) (s : System) → Avoids up s.waiting → IsSafe s → IsSafe (lock_by up s)
unfolding lock_by qlock
lock_by-IsSafe up s a v = go v.exclusive
  where
    go :
        ((s.lock.locked ≡ false) × (s.inside ≡ []) × (s.waiting ≡ []))
          ⊎ ((p : ℕ) × (s.lock.locked ≡ true) × (s.inside ≡ p ∷ []))
        → IsSafe (lock_by up s)
    go (inl (free, nobody, idle)) =
        rw (free, entered)
          (record {
            links = v.links;
            exclusive = inr (up, refl, ap (◌∷◌ up) nobody);
            fifo = fifo_granted s.arrived s.granted s.waiting up v.fifo idle;
          })
    go (inr (p, held, one)) =
        rw (held, entered)
          (record {
            links = enqueue-Holds up queueing s.lock.queue s.procs s.waiting v.links a;
            exclusive = inr (p, refl, one);
            fifo = fifo_arrived s.arrived s.granted s.waiting up v.fifo;
          })

try_by-IsSafe : (up : ℕ) (free : Bool) (s : System) → IsSafe s → IsSafe (try_by up free s)
unfolding try_by canqlock
try_by-IsSafe up false s v = record { links = v.links; exclusive = v.exclusive; fifo = v.fifo }
try_by-IsSafe up true s v = go v.exclusive
  where
    go :
        ((s.lock.locked ≡ false) × (s.inside ≡ []) × (s.waiting ≡ []))
          ⊎ ((p : ℕ) × (s.lock.locked ≡ true) × (s.inside ≡ p ∷ []))
        → IsSafe (try_by up true s)
    go (inl (free, nobody, idle)) =
        rw (free, entered)
          (record {
            links = v.links;
            exclusive = inr (up, refl, ap (◌∷◌ up) nobody);
            fifo = fifo_granted s.arrived s.granted s.waiting up v.fifo idle;
          })
    go (inr (p, held, one)) =
        rw (held, entered)
          (record { links = v.links; exclusive = inr (p, refl, one); fifo = v.fifo })

qunlock_free :
    (q : QLock) (ps : Procs)
    → q.queue.head ≡ none
    → qunlock q ps ≡ (none, record q { locked = false }, ps)
unfolding qunlock
qunlock_free q ps e = ground arith

qunlock_hand :
    (p : ℕ) (q : QLock) (ps : Procs)
    → q.queue.head ≡ some p
    → qunlock q ps ≡ (some p, record q { queue = dequeue p (q.queue, ps) }, make_ready p ps)
unfolding qunlock
qunlock_hand p q ps e = ground arith

-- The process that unlocks is the only holder.
alone :
    (p : ℕ) (rest : List ℕ) (s : System)
    → s.inside ≡ p ∷ rest
    → IsSafe s
    → (rest ≡ []) × (s.lock.locked ≡ true)
alone p rest s i v = ground arith

-- With one holder, the lock goes to the process that waits longest, or becomes free.
unlock_by-IsSafe :
    (p : ℕ) (rest ws : List ℕ) (s : System)
    → s.inside ≡ p ∷ rest
    → s.waiting ≡ ws
    → IsSafe s
    → IsSafe (unlock_by rest s)
unfolding unlock_by
unlock_by-IsSafe p rest [] s i w v =
    let h = subst (Holds s.lock.queue s.procs) w v.links in
    subst (λ r. IsSafe (left s rest r)) (sym (qunlock_free s.lock s.procs h.chain))
      (record { links = v.links; exclusive = inl (refl, (alone p rest s i v).0, w); fifo = v.fifo })
unlock_by-IsSafe p rest (x ∷ xs) s i w v =
    let h = subst (Holds s.lock.queue s.procs) w v.links in
    let only = alone p rest s i v in
    subst (λ r. IsSafe (left s rest r)) (sym (qunlock_hand x s.lock s.procs h.chain.0))
      (rw w (record {
        links =
            make_ready-Holds x (dequeue x (s.lock.queue, s.procs)) s.procs xs
              (dequeue-Holds x s.lock.queue s.procs xs h);
        exclusive = inr (x, only.1, ap (◌∷◌ x) only.0);
        fifo = v.fifo ∙ rw w (sym (append_assoc s.granted (x ∷ []) xs));
      }))

Step-IsSafe : {s t : System} → Step s t → IsSafe s → IsSafe t
Step-IsSafe {s} (locks up a) v = lock_by-IsSafe up s a v
Step-IsSafe {s} (tries up free) v = try_by-IsSafe up free s v
Step-IsSafe {s} (unlocks p rest i) v = unlock_by-IsSafe p rest s.waiting s i refl v

-- From a safe state, every interleaving of calls of qlock, canqlock and qunlock keeps a QLock
-- safe: at most one process is inside, nobody waits at a free lock, and the calls are granted in
-- the order in which they came.
pub Reach-IsSafe : {s t : System} → IsSafe s → Reach s t → IsSafe t
Reach-IsSafe v here = v
Reach-IsSafe v (next r st) = Step-IsSafe st (Reach-IsSafe v r)
