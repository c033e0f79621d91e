-- ===== src/RWlock/Inside.antt =====
-- Who is inside an RWlock, as an observer of the calls notes it, and what rlock, canrlock and wlock
-- make of it.
use nix_mark_iv.Prelude.{
  ℕ, suc, ◌+◌, ◌≡◌, ◌⊎◌, refl, sym, ap, ◌∙◌, Bool, Option, none, some, inl, inr, Bool-cases, List,
  [], ◌∷◌, ◌++◌, length, ◌==◌, ◌&&◌, if◌then◌else◌, arith,
}
use nix_mark_iv.WaitQueue.{Procs, ProcState, queueing_r, queueing_w}
use nix_mark_iv.QLock.{Outcome, acquired}
use nix_mark_iv.RWlock.{RWlock, is_nil, is_reader, is_writer, wait_in, rlock, canrlock, wlock}

-- Who is inside: a call that returned with the lock, or a process that a release woke. A caller
-- before there are processes is `none`.
pub record Inside : Type 0 where
  pub readers : List (Option ℕ)
  pub writers : List (Option ℕ)

-- Of the processes woken, those that wait in a kind of state.
abbrev pub those_in : (ProcState → Bool) → Procs → List ℕ → List (Option ℕ)
those_in is ps [] = []
those_in is ps (p ∷ xs) =
    let rest = those_in is ps xs in if is (ps.state p) then some p ∷ rest else rest

abbrev pub enters : Procs → List ℕ → Inside → Inside
enters ps woken i = record {
  readers = those_in is_reader ps woken ++ i.readers;
  writers = those_in is_writer ps woken ++ i.writers;
}

abbrev pub reads : Outcome → Option ℕ → Inside → Inside
reads acquired up i = record i { readers = up ∷ i.readers }
reads o up i = i

abbrev pub writes : Outcome → Option ℕ → Inside → Inside
writes acquired up i = record i { writers = up ∷ i.writers }
writes o up i = i

-- One writer inside and no reader, or no writer.
abbrev pub Excludes : Inside → Type 0
Excludes i = (i.writers ≡ []) ⊎ ((length i.writers ≡ 1) × (i.readers ≡ []))

-- The counts are those of who is inside.
pub record IsExclusive (q : RWlock) (i : Inside) : Type 0 where
  pub readers : q.readers ≡ length i.readers
  pub writer : q.writer ≡ length i.writers
  pub excludes : Excludes i

wait_in-IsExclusive :
    (up : Option ℕ) (st : ProcState) (q : RWlock) (ps : Procs) (i : Inside)
    → IsExclusive q i
    → IsExclusive (wait_in up st q ps).1 i
unfolding wait_in
wait_in-IsExclusive none st q ps i c = c
wait_in-IsExclusive (some up) st q ps i c = record {
  readers = c.readers;
  writer = c.writer;
  excludes = c.excludes;
}

wait_in-out :
    (up : Option ℕ) (st : ProcState) (q : RWlock) (ps : Procs) (i : Inside)
    → (reads (wait_in up st q ps).0 up i ≡ i) × (writes (wait_in up st q ps).0 up i ≡ i)
unfolding wait_in
wait_in-out none st q ps i = (refl, refl)
wait_in-out (some p) st q ps i = (refl, refl)

pub nobody : {A : Type 0} (xs : List A) → length xs ≡ 0 → xs ≡ []
nobody [] e = refl
nobody (x ∷ xs) e = absurd (omega arith)

-- One more reader, where no writer is inside.
enter-reader :
    (up : Option ℕ) (q : RWlock) (i : Inside)
    → q.writer ≡ 0
    → IsExclusive q i
    → IsExclusive (record q { readers = q.readers + 1 }) (reads acquired up i)
enter-reader up q i z c = record {
  readers = ground (arith, c.readers);
  writer = c.writer;
  excludes = inl (nobody i.writers (sym c.writer ∙ z));
}

pub rlock-IsExclusive :
    (up : Option ℕ) (q : RWlock) (ps : Procs) (i : Inside)
    → IsExclusive q i
    → let r = rlock up q ps in IsExclusive r.1 (reads r.0 up i)
unfolding rlock
rlock-IsExclusive up q ps i c = elim (Bool-cases (q.writer == 0 && is_nil q.queue.head)) [
  | inl opens ↦ rw opens (enter-reader up q i (ground arith) c)
  | inr shut ↦
      rw (shut, (wait_in-out up queueing_r q ps i).0) (wait_in-IsExclusive up queueing_r q ps i c)
]

pub canrlock-IsExclusive :
    (up : Option ℕ) (q : RWlock) (i : Inside)
    → IsExclusive q i
    → let r = canrlock q in IsExclusive r.1 (reads r.0 up i)
unfolding canrlock
canrlock-IsExclusive up q i c = elim (Bool-cases (q.writer == 0 && is_nil q.queue.head)) [
  | inl opens ↦ rw opens (enter-reader up q i (ground arith) c)
  | inr shut ↦ rw shut c
]

pub wlock-IsExclusive :
    (up : Option ℕ) (q : RWlock) (ps : Procs) (i : Inside)
    → IsExclusive q i
    → let r = wlock up q ps in IsExclusive r.1 (writes r.0 up i)
unfolding wlock
wlock-IsExclusive up q ps i c = elim (Bool-cases (q.readers == 0 && q.writer == 0)) [
  | inl opens ↦
      let no_writer = nobody i.writers (sym c.writer ∙ ground arith) in
      let no_reader = nobody i.readers (sym c.readers ∙ ground arith) in
      rw opens record {
        readers = c.readers;
        writer = ap (λ xs. suc (length xs)) (sym no_writer);
        excludes = inr (ap (λ xs. suc (length xs)) no_writer, no_reader);
      }
  | inr shut ↦
      rw (shut, (wait_in-out up queueing_w q ps i).1) (wait_in-IsExclusive up queueing_w q ps i c)
]
