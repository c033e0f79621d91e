-- ===== src/RWlock/Wakeup.antt =====
-- wunlock of an RWlock with readers at the head of its queue: whom it wakes, and who stays.
use nix_mark_iv.Prelude.{
  sym, ◌∙◌, false, true, subst, ℕ, zero, suc, ◌+◌, ◌<◌, ◌≡◌, refl, ap, Option, none, some, inl, inr,
  List, [], ◌∷◌, length, take, drop, arith, Bool-cases, if◌then◌else◌,
}
use nix_mark_iv.WaitQueue.{Procs, ProcState, ready, set_entry, make_ready}
use nix_mark_iv.WaitQueue.Holds.{Avoids, Distinct, Chain, last, Holds}
use nix_mark_iv.WaitQueue.{running, queueing, queueing_r, queueing_w}
use nix_mark_iv.RWlock.{is_writer, wunlock, RWlock, is_reader, is_writer, wake_readers}

-- How many of the processes at the head of the queue wait to read.
abbrev pub leading : (ℕ → ProcState) → List ℕ → ℕ
leading st [] = 0
leading st (x ∷ xs) = let n = leading st xs in if is_reader (st x) then suc n else 0

-- The tail of a queue that is not empty.
abbrev Trails : Option ℕ → List ℕ → Type 0
Trails t [] = Unit {0}
Trails t (x ∷ xs) = t ≡ last (x ∷ xs)

Trails-rest : (t : Option ℕ) (x : ℕ) (xs : List ℕ) → Trails t (x ∷ xs) → Trails t xs
Trails-rest t x [] h = tt
Trails-rest t x (y ∷ ys) h = h

leading-set_entry :
    (st : ℕ → ProcState) (p : ℕ) (xs : List ℕ)
    → Avoids p xs
    → leading (set_entry st p ready) xs ≡ leading st xs
leading-set_entry st p [] a = refl
leading-set_entry st p (x ∷ xs) (ne, a) =
    let same : set_entry st p ready x ≡ st x = ground arith in
    rw (same, leading-set_entry st p xs a) refl

abbrev head_of : List ℕ → Option ℕ
head_of [] = none
head_of (x ∷ xs) = some x

Chain-head : (next : ℕ → Option ℕ) (h : Option ℕ) (xs : List ℕ) → Chain next h xs → h ≡ head_of xs
Chain-head next h [] c = c
Chain-head next h (x ∷ xs) c = c.0

-- What the loop does to a queue of the processes `xs`.
abbrev Woken : RWlock → Procs → List ℕ → List ℕ × RWlock × Procs → Type 0
Woken q ps xs r =
    let n = leading ps.state xs in
    (r.0 ≡ take n xs) × (r.1.readers ≡ q.readers + n) × Holds r.1.queue r.2 (drop n xs)

-- With a round for each process, the loop wakes the leading readers, and the others stay queued.
wake_readers-Woken :
    (fuel : ℕ) (q : RWlock) (ps : Procs) (xs : List ℕ)
    → length xs < fuel
    → Chain ps.qnext (head_of xs) xs
    → Distinct xs
    → Trails q.queue.tail xs
    → Woken q ps xs (wake_readers fuel (head_of xs) q ps)
unfolding wake_readers make_ready
wake_readers-Woken zero q ps xs l c d t = absurd (omega arith)
wake_readers-Woken (suc fuel) q ps [] l c d t =
    (refl, omega arith, record { chain = refl; ends = refl; distinct = tt })
wake_readers-Woken (suc fuel) q ps (x ∷ xs) l c (a, d) t =
    let next = Chain-head ps.qnext (ps.qnext x) xs c.1 in
    let q' = record q { readers = q.readers + 1 } in
    let ih = rw (leading-set_entry ps.state x xs a) at (
      wake_readers-Woken fuel q' (make_ready x ps) xs (omega arith)
        (subst (λ h. Chain ps.qnext h xs) next c.1) d (Trails-rest q.queue.tail x xs t)) in
    elim (Bool-cases (is_reader (ps.state x))) [
      | inl reads ↦ rw (reads, next) (ap (◌∷◌ x) ih.0, omega (arith, ih.1), ih.2)
      | inr writes ↦
          rw writes (refl, omega arith, record { chain = c; ends = t; distinct = (a, d) })
    ]

not_writer : (s : ProcState) → is_reader s ≡ true → is_writer s ≡ false
not_writer queueing_r e = refl
not_writer queueing_w e = sym e
not_writer running e = refl
not_writer ready e = refl
not_writer queueing e = refl

wunlock_wakes :
    (fuel : ℕ) (q : RWlock) (ps : Procs) (x : ℕ)
    → q.queue.head ≡ some x
    → is_reader (ps.state x) ≡ true
    → is_writer (ps.state x) ≡ false
    → wunlock fuel q ps ≡ (
        let (woken, q', ps') = wake_readers fuel (some x) q ps in
        some (woken, record q' { writer = 0 }, ps'))
unfolding wunlock
wunlock_wakes fuel q ps x h r w = ground arith

-- wunlock, with more rounds than processes wait and with a reader at the head of the queue, wakes
-- that reader and all that follow it up to the first writer, in their order, counts each as a
-- reader inside, and leaves the others queued.
pub wunlock_readers :
    (fuel : ℕ) (q : RWlock) (ps : Procs) (x : ℕ) (xs : List ℕ)
    → length (x ∷ xs) < fuel
    → Holds q.queue ps (x ∷ xs)
    → is_reader (ps.state x) ≡ true
    → let n = leading ps.state (x ∷ xs) in
      (q' : RWlock) × (ps' : Procs) × (wunlock fuel q ps ≡ some (take n (x ∷ xs), q', ps'))
      × (q'.writer ≡ 0)
      × (q'.readers ≡ q.readers + n)
      × Holds q'.queue ps' (drop n (x ∷ xs))
wunlock_readers fuel q ps x xs l h reads =
    let (woken, count, holds) =
      wake_readers-Woken fuel q ps (x ∷ xs) l (refl, h.chain.1) h.distinct h.ends in
    let (w, q', ps') = wake_readers fuel (some x) q ps in
    (
      record q' { writer = 0 },
      ps',
      wunlock_wakes fuel q ps x h.chain.0 reads (not_writer (ps.state x) reads)
          ∙ (ap (λ t. some (t, record q' { writer = 0 }, ps')) woken),
      refl,
      count,
      holds,
    )
