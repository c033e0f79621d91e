-- ===== src/Timer/Insert.antt =====
-- tadd keeps a list of timers in the order of their times.
use nix_mark_iv.Prelude.{
  ℕ, suc, ◌≤◌, ◌<◌, ◌≡◌, refl, sym, ap, ◌∙◌, subst, some, inl, inr, List, [], ◌∷◌, ◌++◌, arith, ltb,
  if◌then◌else◌, Bool-cases, Option-cases, Bool, true, false,
}
use nix_mark_iv.Timer.{Tmode, relative, periodic, Timer, insert, goes_first, schedule, tadd}

-- Every timer is at `w` or later.
abbrev pub From : ℕ → List Timer → Type 0
From w [] = Unit {0}
From w (t ∷ ts) = (w ≤ t.twhen) × From w ts

abbrev pub IsSorted : List Timer → Type 0
IsSorted [] = Unit {0}
IsSorted (t ∷ ts) = From t.twhen ts × IsSorted ts

pub From-weaken : (v w : ℕ) (ts : List Timer) → v ≤ w → From w ts → From v ts
From-weaken v w [] h f = tt
From-weaken v w (t ∷ ts) h (a, f) = (omega arith, From-weaken v w ts h f)

pub From-insert :
    (w : ℕ) (nt : Timer) (ts : List Timer) → w ≤ nt.twhen → From w ts → From w (insert nt ts)
unfolding insert
From-insert w nt [] h f = (h, tt)
From-insert w nt (t ∷ ts) h (a, f) = ground (arith, From-insert w nt ts h f)

pub insert-IsSorted : (nt : Timer) (ts : List Timer) → IsSorted ts → IsSorted (insert nt ts)
unfolding insert
insert-IsSorted nt [] s = (tt, tt)
insert-IsSorted nt (t ∷ ts) (f, s) = elim (Bool-cases (ltb nt.twhen t.twhen)) [
  | inl before ↦
      rw before ((ground arith, From-weaken nt.twhen t.twhen ts (ground arith) f), (f, s))
  | inr after ↦ rw after (From-insert t.twhen nt ts (ground arith) f, insert-IsSorted nt ts s)
]

abbrev pub Until : ℕ → List Timer → Type 0
Until w [] = Unit {0}
Until w (t ∷ ts) = (t.twhen ≤ w) × Until w ts

-- The place: behind every timer that is not later, before every one that is.
abbrev pub Placed : Timer → List Timer → List Timer → Type 0
Placed nt ts us =
    (front : List Timer) × (back : List Timer) × (ts ≡ front ++ back)
    × (us ≡ front ++ nt ∷ back)
    × Until nt.twhen front
    × From (suc nt.twhen) back

insert-Placed : (nt : Timer) (ts : List Timer) → IsSorted ts → Placed nt ts (insert nt ts)
unfolding insert
insert-Placed nt [] s = ([], [], refl, refl, tt, tt)
insert-Placed nt (t ∷ ts) (f, s) = elim (Bool-cases (ltb nt.twhen t.twhen)) [
  | inl before ↦ rw before (
    [],
    t ∷ ts,
    refl,
    refl,
    tt,
    (ground arith, From-weaken (suc nt.twhen) t.twhen ts (ground arith) f),
  )
  | inr after ↦
      let (front, back, e, e', u, g) = insert-Placed nt ts s in
      rw after (t ∷ front, back, ap (◌∷◌ t) e, ap (◌∷◌ t) e', (ground arith, u), g)
]

abbrev pub is_empty : List Timer → Bool
is_empty [] = true
is_empty (t ∷ ts) = false

-- Where the list is in order, a timer goes first if none is in front of its place.
goes_first-front :
    (nt : Timer) (front back : List Timer)
    → Until nt.twhen front
    → From (suc nt.twhen) back
    → goes_first nt (front ++ back) ≡ is_empty front
unfolding goes_first
goes_first-front nt [] [] u f = refl
goes_first-front nt [] (t ∷ ts) u (a, f) = ground arith
goes_first-front nt (t ∷ ts) back (a, u) f = ground arith

-- What tadd does with a timer that is in no list: it is linked between `front` and `back`.
pub record Added (mach : ℕ) (ts : List Timer) (nt : Timer) (when : ℕ) (us : List Timer)
    : Type 0 where
  pub new : Timer
  pub same : (new.ident ≡ nt.ident) × (new.tf ≡ nt.tf) × (new.tmode ≡ nt.tmode)
  pub listed : new.tt ≡ some mach
  pub front : List Timer
  pub back : List Timer
  pub parts : ts ≡ front ++ back
  pub linked : us ≡ front ++ new ∷ back
  pub before : Until new.twhen front
  pub after : From (suc new.twhen) back
  pub sorted : IsSorted us
  pub head : when ≡ (if is_empty front then new.twhen else 0)

pub schedule-keeps :
    (ticks : ℕ → ℕ) (now : ℕ) (ts : List Timer) (nt : Timer) (mode : Tmode) (new : Timer)
    → schedule ticks now ts nt mode ≡ some new
    → (new.ident ≡ nt.ident) × (new.tf ≡ nt.tf) × (new.tmode ≡ nt.tmode)
unfolding schedule
schedule-keeps ticks now ts nt relative new e = ground arith
schedule-keeps ticks now ts nt periodic new e = ground arith

-- A timer that tadd took is later than before: than `now` if it is relative and its period is worth
-- a tick, and than its old time if it is periodic and had one.
pub schedule-later :
    (ticks : ℕ → ℕ) (now : ℕ) (ts : List Timer) (nt : Timer) (new : Timer)
    → schedule ticks now ts nt periodic ≡ some new
    → nt.twhen < new.twhen
unfolding schedule
schedule-later ticks now ts nt new e = ground arith

-- The inversion of tadd.
pub tadd-cases :
    (ticks : ℕ → ℕ) (now mach : ℕ) (ts : List Timer) (nt : Timer) (when : ℕ) (us : List Timer)
    → tadd ticks now mach ts nt ≡ some (when, us)
    → (new : Timer) × (schedule ticks now ts nt nt.tmode ≡ some new)
      × (when ≡ (if goes_first (record new { tt = some mach }) ts then new.twhen else 0))
      × (us ≡ insert (record new { tt = some mach }) ts)
unfolding tadd
tadd-cases ticks now mach ts nt when us e = elim (Option-cases nt.tt) [
  | inr (k, listed) ↦ absurd (ground arith)
  | inl free ↦ elim (Option-cases (schedule ticks now ts nt nt.tmode)) [
    | inl fails ↦ absurd (ground arith)
    | inr (new, made) ↦ (new, made, ground arith, ground arith)
  ]
]

-- tadd that does not panic, on a list in order, links the timer, with its name, mode and kind of
-- routine, behind the timers that are not later and before those that are, keeps the order, and
-- returns the time of the timer if none is in front of it, and 0 otherwise.
pub tadd_lem :
    (ticks : ℕ → ℕ) (now mach : ℕ) (ts : List Timer) (nt : Timer) (when : ℕ) (us : List Timer)
    → IsSorted ts
    → tadd ticks now mach ts nt ≡ some (when, us)
    → Added mach ts nt when us
tadd_lem ticks now mach ts nt when us s e =
    let (new, made, w, u) = tadd-cases ticks now mach ts nt when us e in
    let timer : Timer = record new { tt = some mach } in
    let (front, back, c, l, b, a) = insert-Placed timer ts s in
    let first = ap (goes_first timer) c ∙ goes_first-front timer front back b a in
    record {
      new = timer;
      same = schedule-keeps ticks now ts nt nt.tmode new made;
      listed = refl;
      front = front;
      back = back;
      parts = c;
      linked = u ∙ l;
      before = b;
      after = a;
      sorted = subst IsSorted (sym u) (insert-IsSorted timer ts s);
      head = w ∙ ap (λ x. if x then new.twhen else 0) first;
    }
