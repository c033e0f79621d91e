-- ===== src/RWlock/Exclusion.antt =====
-- Readers and writers exclude each other, in any interleaving of the calls of an RWlock.
use nix_mark_iv.Prelude.{
  ℕ, suc, ◌≡◌, refl, ap, ◌∙◌, Option, some, inl, inr, List, [], ◌∷◌, ◌++◌, length, arith, subst,
  length-append,
}
use nix_mark_iv.WaitQueue.{Procs}
use nix_mark_iv.RWlock.{RWlock, rlock, canrlock, wlock, runlock, wunlock}
use nix_mark_iv.RWlock.Inside.{
  Inside, enters, reads, writes, IsExclusive, nobody, rlock-IsExclusive, canrlock-IsExclusive,
  wlock-IsExclusive,
}
use nix_mark_iv.RWlock.Released.{Releases, runlock-Releases, wunlock-Releases}

abbrev pub LockState : Type 0
LockState = RWlock × Procs × Inside

-- The calls; a caller that releases the lock is one of those inside, which leaves.
pub data Step : LockState → LockState → Type 0 where
  rlocks :
      (up : Option ℕ) (q : RWlock) (ps : Procs) (i : Inside)
      → Step (q, ps, i) (let r = rlock up q ps in (r.1, r.2, reads r.0 up i))
  canrlocks :
      (up : Option ℕ) (q : RWlock) (ps : Procs) (i : Inside)
      → Step (q, ps, i) (let r = canrlock q in (r.1, ps, reads r.0 up i))
  wlocks :
      (up : Option ℕ) (q : RWlock) (ps : Procs) (i : Inside)
      → Step (q, ps, i) (let r = wlock up q ps in (r.1, r.2, writes r.0 up i))
  runlocks :
      (front back : List (Option ℕ)) (up : Option ℕ) (q q' : RWlock) (ps ps' : Procs) (i : Inside)
      (woken : List ℕ)
      → i.readers ≡ front ++ up ∷ back
      → runlock q ps ≡ some (woken, q', ps')
      → Step (q, ps, i) (q', ps', enters ps woken (record i { readers = front ++ back }))
  wunlocks :
      (fuel : ℕ) (front back : List (Option ℕ)) (up : Option ℕ) (q q' : RWlock) (ps ps' : Procs)
      (i : Inside) (woken : List ℕ)
      → i.writers ≡ front ++ up ∷ back
      → wunlock fuel q ps ≡ some (woken, q', ps')
      → Step (q, ps, i) (q', ps', enters ps woken (record i { writers = front ++ back }))

pub data Reach (s : LockState) : LockState → Type 0 where
  here : Reach s s
  next : {t u : LockState} → Reach s t → Step t u → Reach s u

-- One of those inside leaves.
length-leave :
    {A : Type 0} (front back : List A) (x : A) (xs : List A)
    → xs ≡ front ++ x ∷ back
    → length xs ≡ suc (length (front ++ back))
length-leave front back x xs e =
    ap length e ∙ length-append front (x ∷ back) ∙ omega (arith, length-append front back)

Step-IsExclusive : {s t : LockState} → Step s t → IsExclusive s.0 s.2 → IsExclusive t.0 t.2
Step-IsExclusive (rlocks up q ps i) c = rlock-IsExclusive up q ps i c
Step-IsExclusive (canrlocks up q ps i) c = canrlock-IsExclusive up q i c
Step-IsExclusive (wlocks up q ps i) c = wlock-IsExclusive up q ps i c
Step-IsExclusive (runlocks front back up q q' ps ps' i woken e r) c =
    let more = length-leave front back up i.readers e in
    let none_writes : i.writers ≡ [] = elim c.excludes [
      | inl s ↦ s
      | inr (one, empty) ↦ absurd (omega (arith, more, ap length empty))
    ] in
    subst (Releases ps (record i { readers = front ++ back })) r (
      runlock-Releases q ps (record i { readers = front ++ back }) (c.readers ∙ more)
        (c.writer ∙ ap length none_writes) none_writes)
Step-IsExclusive (wunlocks fuel front back up q q' ps ps' i woken e r) c =
    let more = length-leave front back up i.writers e in
    let (one, empty) : (length i.writers ≡ 1) × (i.readers ≡ []) = elim c.excludes [
      | inl s ↦ absurd (omega (arith, more, ap length s))
      | inr h ↦ h
    ] in
    subst (Releases ps (record i { writers = front ++ back })) r (
      wunlock-Releases fuel q ps (record i { writers = front ++ back })
        (c.readers ∙ ap length empty) (c.writer ∙ one) empty
        (nobody (front ++ back) (omega (arith, more, one))))

Reach-keeps : {s t : LockState} → IsExclusive s.0 s.2 → Reach s t → IsExclusive t.0 t.2
Reach-keeps c here = c
Reach-keeps c (next r st) = Step-IsExclusive st (Reach-keeps c r)

-- From a free lock with nobody inside, in every interleaving of rlock, canrlock and wlock with
-- runlock by a reader that is inside and wunlock by a writer that is, those inside, who are the
-- callers that got the lock and the processes that a release woke, less those who left, are no
-- writers, or one writer and no reader; and the lock counts them right.
pub Reach-IsExclusive :
    {q : RWlock} {ps : Procs} {t : LockState}
    → q.readers ≡ 0
    → q.writer ≡ 0
    → Reach (q, ps, record { readers = []; writers = [] }) t
    → IsExclusive t.0 t.2
Reach-IsExclusive n w r = Reach-keeps (record { readers = n; writer = w; excludes = inl refl }) r
