-- ===== src/RWlock/Released.antt =====
-- Who gets into an RWlock by runlock and wunlock.
use nix_mark_iv.Prelude.{
  false, true, ℕ, suc, ◌+◌, ◌≡◌, refl, sym, ap, ◌∙◌, Option, none, some, inl, inr, Bool-cases, List,
  [], ◌∷◌, ◌++◌, length, ◌==◌, if◌then◌else◌, arith, zero, ltb, ◌-◌, append-nil,
}
use nix_mark_iv.WaitQueue.{
  Procs, ProcState, queueing_r, queueing_w, make_ready, dequeue, running, ready, queueing,
}
use nix_mark_iv.RWlock.{
  RWlock, is_reader, is_writer, runlock, wunlock, Release, start_writer, wake_readers,
}
use nix_mark_iv.RWlock.Inside.{Inside, those_in, enters, IsExclusive, nobody}

-- What a release makes of those who stay inside, `i`.
abbrev pub Releases : Procs → Inside → Release → Type 0
Releases ps i none = Unit {0}
Releases ps i (some (woken, q, ps')) = IsExclusive q (enters ps woken i)

writer-reads : (s : ProcState) → is_writer s ≡ true → is_reader s ≡ false
writer-reads queueing_w e = refl
writer-reads queueing_r e = absurd (cc e)
writer-reads running e = absurd (cc e)
writer-reads ready e = absurd (cc e)
writer-reads queueing e = absurd (cc e)

-- One waiting writer gets in, where nobody stays inside.
enter-writer :
    (p : ℕ) (q : RWlock) (ps : Procs) (i : Inside)
    → is_writer (ps.state p) ≡ true
    → i.readers ≡ []
    → i.writers ≡ []
    → q.readers ≡ 0
    → q.writer ≡ 1
    → IsExclusive q (enters ps (p ∷ []) i)
enter-writer p q ps i w r s n m =
    let not_reader = writer-reads (ps.state p) w in
    rw (w, not_reader)
      record {
        readers = n ∙ ap length (sym r);
        writer = m ∙ ap (λ xs. suc (length xs)) (sym s);
        excludes = inr (ap (λ xs. suc (length xs)) s, r);
      }

module _ (q : RWlock) (ps : Procs) (i : Inside) (r : q.readers ≡ suc (length i.readers))
    (w : q.writer ≡ 0) (s : i.writers ≡ []) where
  stays : IsExclusive (record q { readers = q.readers - 1 }) i
  stays = record { readers = omega (arith, r); writer = w ∙ ap length (sym s); excludes = inl s }

  -- runlock with `h` for the head of the queue.
  abbrev released_to : Option ℕ → Release
  released_to h =
      let q' = record q { readers = q.readers - 1 } in
      elim h [
        | none ↦ some ([], q', ps)
        | some p ↦
            if ltb 0 (q.readers - 1)
            then some ([], q', ps)
            else if is_writer (ps.state p)
            then start_writer p q' ps
            else none
      ]

  released_to-Releases : (h : Option ℕ) → Releases ps i (released_to h)
  unfolding start_writer
  released_to-Releases none = stays
  released_to-Releases (some p) = elim (Bool-cases (ltb 0 (q.readers - 1))) [
    | inl more ↦ rw more stays
    | inr last ↦ elim (Bool-cases (is_writer (ps.state p))) [
      | inr other ↦ rw (last, other) tt
      | inl writer ↦
          let none_left : q.readers - 1 ≡ 0 = ground arith in
          let q' = record q {
            queue = dequeue p (q.queue, ps);
            readers = q.readers - 1;
            writer = 1;
          } in
          rw (last, writer)
            (enter-writer p q' ps i writer (nobody i.readers (omega (arith, r, none_left))) s
              none_left refl)
    ]
  ]

  pub runlock-Releases : Releases ps i (runlock q ps)
  unfolding runlock
  runlock-Releases = released_to-Releases q.queue.head

still_reader :
    (p x : ℕ) (ps : Procs)
    → is_reader ((make_ready p ps).state x) ≡ true
    → is_reader (ps.state x) ≡ true
unfolding make_ready
still_reader p x ps e = elim (Bool-cases (x == p)) [
  | inl same ↦ absurd (cc (rw same at e))
  | inr other ↦ rw other at e
]

reader-writes : (s : ProcState) → is_reader s ≡ true → is_writer s ≡ false
reader-writes queueing_r e = refl
reader-writes queueing_w e = absurd (cc e)
reader-writes running e = absurd (cc e)
reader-writes ready e = absurd (cc e)
reader-writes queueing e = absurd (cc e)

-- The loop of wunlock wakes readers only, and counts each; `from` are the processes before it.
module _ (from : Procs) where
  abbrev Counts : ℕ → List ℕ × RWlock × Procs → Type 0
  Counts n (woken, q, ps) =
      (those_in is_writer from woken ≡ [])
      × (q.readers ≡ n + length (those_in is_reader from woken))

  wake_readers-Counts :
      (fuel : ℕ) (h : Option ℕ) (q : RWlock) (ps : Procs)
      → ((x : ℕ) → is_reader (ps.state x) ≡ true → is_reader (from.state x) ≡ true)
      → Counts q.readers (wake_readers fuel h q ps)
  unfolding wake_readers
  wake_readers-Counts zero h q ps m = (refl, omega arith)
  wake_readers-Counts (suc fuel) none q ps m = (refl, omega arith)
  wake_readers-Counts (suc fuel) (some p) q ps m =
      let (w, c) =
        wake_readers-Counts fuel (ps.qnext p) (record q { readers = q.readers + 1 })
          (make_ready p ps) (λ x e. m x (still_reader p x ps e)) in
      elim (Bool-cases (is_reader (ps.state p))) [
        | inl reader ↦
            let was = m p reader in
            let no_writer = reader-writes (from.state p) was in
            rw (reader, was, no_writer) (w, c ∙ omega arith)
        | inr other ↦ rw other (refl, omega arith)
      ]

module _ (fuel : ℕ) (q : RWlock) (ps : Procs) (i : Inside) (n : q.readers ≡ 0) (w : q.writer ≡ 1)
    (r : i.readers ≡ []) (s : i.writers ≡ []) where
  nobody_in : IsExclusive (record q { writer = 0 }) i
  nobody_in = record {
    readers = n ∙ ap length (sym r);
    writer = ap length (sym s);
    excludes = inl s;
  }

  readers_in :
      (o : List ℕ × RWlock × Procs)
      → Counts ps q.readers o
      → IsExclusive (record o.1 { writer = 0 }) (enters ps o.0 i)
  readers_in (woken, q', ps') (none_writes, count) =
      let writers = ap (λ xs. xs ++ i.writers) none_writes ∙ s in
      let woke = those_in is_reader ps woken in
      let same = ap length (sym (append-nil woke) ∙ ap (λ xs. woke ++ xs) (sym r)) in
      record {
        readers = omega (arith, count, n, same);
        writer = ap length (sym writers);
        excludes = inl writers;
      }

  -- wunlock with `h` for the head of the queue.
  abbrev given_to : Option ℕ → Release
  given_to h = elim h [
    | none ↦ some ([], record q { writer = 0 }, ps)
    | some p ↦
        if is_writer (ps.state p)
        then some (p ∷ [], record q { queue = dequeue p (q.queue, ps) }, make_ready p ps)
        else if is_reader (ps.state p)
        then (let (woken, q', ps') = wake_readers fuel (some p) q ps in
            some (woken, record q' { writer = 0 }, ps'))
        else none
  ]

  given_to-Releases : (h : Option ℕ) → Releases ps i (given_to h)
  given_to-Releases none = nobody_in
  given_to-Releases (some p) = elim (Bool-cases (is_writer (ps.state p))) [
    | inl writer ↦
        rw writer
          (enter-writer p (record q { queue = dequeue p (q.queue, ps) }) ps i writer r s n w)
    | inr other ↦ elim (Bool-cases (is_reader (ps.state p))) [
      | inl reader ↦
          rw (other, reader)
            (readers_in (wake_readers fuel (some p) q ps)
              (wake_readers-Counts ps fuel (some p) q ps (λ x e. e)))
      | inr neither ↦ rw (other, neither) tt
    ]
  ]

  pub wunlock-Releases : Releases ps i (wunlock fuel q ps)
  unfolding wunlock
  wunlock-Releases = given_to-Releases q.queue.head
