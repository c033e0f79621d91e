-- ===== src/Timer/Arming.antt =====
-- The interrupt of a processor that has timers is set, and not later than the first of them.
use nix_mark_iv.Prelude.{
  ◌≤◌, ℕ, ◌<◌, ◌≡◌, ◌⊎◌, refl, sym, subst, true, false, Option, none, some, inl, inr, List, [], ◌∷◌,
  arith, ◌==◌, if◌then◌else◌, Bool-cases, Option-cases,
}
use nix_mark_iv.Timer.{
  timerdel, remove, Timer, Tmode, relative, periodic, insert, goes_first, head_when, tdel, schedule,
  tadd, Clocks, put, timerset, unlist, timeradd,
}
use nix_mark_iv.Timer.Insert.{From, From-weaken, From-insert, IsSorted, insert-IsSorted, tadd-cases}
use nix_mark_iv.Timer.Delete.{From-remove, remove-IsSorted, tdel-remove}
use nix_mark_iv.Timer.Expire.{Periods, Periods-insert}

-- An interrupt that is set to come before every timer, if there is any.
abbrev pub Covers : Option ℕ → List Timer → Type 0
Covers none [] = Unit {0}
Covers none (t ∷ ts) = ⊥
Covers (some w) ts = From w ts

-- A list in order, with periods in bounds, for which the interrupt is set early enough.
abbrev pub IsArmed : Option ℕ → List Timer → Type 0
IsArmed armed ts = IsSorted ts × Covers armed ts × Periods ts

pub record AllArmed (c : Clocks) : Type 0 where
  pub each : (k : ℕ) → IsArmed (c.armed k) (c.timers k)

From-head : (ts : List Timer) → IsSorted ts → From (head_when ts) ts
From-head [] s = tt
From-head (t ∷ ts) (f, s) = (omega arith, f)

Periods-remove : (ident : ℕ) (ts : List Timer) → Periods ts → Periods (remove ident ts)
unfolding remove
Periods-remove ident [] p = tt
Periods-remove ident (t ∷ ts) (a, p) = elim (Bool-cases (t.ident == ident)) [
  | inl found ↦ rw found p
  | inr other ↦ rw other (a, Periods-remove ident ts p)
]

Covers-remove :
    (armed : Option ℕ) (ident : ℕ) (ts : List Timer)
    → Covers armed ts
    → Covers armed (remove ident ts)
unfolding remove
Covers-remove none ident [] f = tt
Covers-remove none ident (t ∷ ts) f = absurd f
Covers-remove (some w) ident ts f = From-remove w ident ts f

tdel-IsArmed :
    (ident : ℕ) (armed : Option ℕ) (ts : List Timer)
    → IsArmed armed ts
    → IsArmed armed (tdel ident ts).1
tdel-IsArmed ident armed ts (s, f, p) =
    subst (IsArmed armed) (sym (tdel-remove ident ts))
      (remove-IsSorted ident ts s, Covers-remove armed ident ts f, Periods-remove ident ts p)

-- One processor gets a new list and perhaps a new time, the others stay.
pub others-AllArmed :
    (c : Clocks) (mach : ℕ) (armed : Option ℕ) (ts : List Timer)
    → ((k : ℕ) → (k == mach) ≡ false → IsArmed (c.armed k) (c.timers k))
    → IsArmed armed ts
    → AllArmed (record { timers = put c.timers mach ts; armed = put c.armed mach armed })
others-AllArmed c mach armed ts o h = record {
  each = λ k. elim (Bool-cases (k == mach)) [
    | inl here ↦ rw here h
    | inr there ↦ rw there (o k there)
  ];
}

put-AllArmed :
    (c : Clocks) (mach : ℕ) (armed : Option ℕ) (ts : List Timer)
    → AllArmed c
    → IsArmed armed ts
    → AllArmed (record { timers = put c.timers mach ts; armed = put c.armed mach armed })
put-AllArmed c mach armed ts a h = others-AllArmed c mach armed ts (λ k there. a.each k) h

pub keep-AllArmed :
    (c : Clocks) (mach : ℕ) (ts : List Timer)
    → AllArmed c
    → IsArmed (c.armed mach) ts
    → AllArmed (record c { timers = put c.timers mach ts })
keep-AllArmed c mach ts a h = record { each = λ k. split k (Bool-cases (k == mach)) }
  where
    split :
        (k : ℕ)
        → ((k == mach) ≡ true) ⊎ ((k == mach) ≡ false)
        → IsArmed (c.armed k) (put c.timers mach ts k)
    split k (inl here) =
        let e : k ≡ mach = ground arith in rw here (subst (λ k. IsArmed (c.armed k) ts) (sym e) h)
    split k (inr there) = rw there (a.each k)

unlist-AllArmed : (t : Timer) (c : Clocks) → AllArmed c → AllArmed (unlist t c)
unfolding unlist
unlist-AllArmed t c a = split t.tt
  where
    split :
        (k : Option ℕ)
        → AllArmed (elim k [
          | none ↦ c
          | some k ↦ record c { timers = put c.timers k (tdel t.ident (c.timers k)).1 }
        ])
    split none = a
    split (some k) =
        keep-AllArmed c k (tdel t.ident (c.timers k)).1 a
          (tdel-IsArmed t.ident (c.armed k) (c.timers k) (a.each k))

-- A scheduled timer is not at time 0, so tadd's 0 only says that it is not the head.
schedule-pos :
    (ticks : ℕ → ℕ) (now : ℕ) (ts : List Timer) (nt : Timer) (mode : Tmode) (new : Timer)
    → 0 < now
    → schedule ticks now ts nt mode ≡ some new
    → 0 < new.twhen
unfolding schedule
schedule-pos ticks now ts nt relative new h e = ground arith
schedule-pos ticks now ts nt periodic new h e = ground arith

schedule-period :
    (ticks : ℕ → ℕ) (now : ℕ) (ts : List Timer) (nt : Timer) (mode : Tmode) (new : Timer)
    → nt.tmode ≡ mode
    → schedule ticks now ts nt mode ≡ some new
    → (new.tmode ≡ relative) ⊎ (100000 ≤ new.tns)
unfolding schedule
schedule-period ticks now ts nt relative new m e = inl (ground arith)
schedule-period ticks now ts nt periodic new m e = inr (ground arith)

goes_first-From :
    (nt : Timer) (ts : List Timer)
    → IsSorted ts
    → goes_first nt ts ≡ true
    → From nt.twhen (insert nt ts)
unfolding goes_first
goes_first-From nt [] s g = From-insert nt.twhen nt [] (omega arith) tt
goes_first-From nt (t ∷ ts) (f, s) g =
    From-insert nt.twhen nt (t ∷ ts) (omega arith)
      (ground arith, From-weaken nt.twhen t.twhen ts (ground arith) f)

goes_later-Covers :
    (nt : Timer) (armed : Option ℕ) (ts : List Timer)
    → Covers armed ts
    → goes_first nt ts ≡ false
    → Covers armed (insert nt ts)
unfolding goes_first
goes_later-Covers nt armed [] f g = absurd (cc g)
goes_later-Covers nt none (t ∷ ts) f g = absurd f
goes_later-Covers nt (some w) (t ∷ ts) f g = From-insert w nt (t ∷ ts) (ground arith) f

-- Setting the interrupt for a new list, or leaving it.
pub timerset-AllArmed :
    (mach when : ℕ) (c : Clocks) (ts : List Timer)
    → AllArmed c
    → ((0 < when) × IsArmed (some when) ts) ⊎ ((when ≡ 0) × IsArmed (c.armed mach) ts)
    → AllArmed (timerset mach when (record c { timers = put c.timers mach ts }))
unfolding timerset
timerset-AllArmed mach when c ts a (inl (pos, h)) =
    let set : (when == 0) ≡ false = ground arith in rw set (put-AllArmed c mach (some when) ts a h)
timerset-AllArmed mach when c ts a (inr (z, h)) =
    let unset : (when == 0) ≡ true = ground arith in rw unset (keep-AllArmed c mach ts a h)

-- Linking a timer and setting the interrupt to what tadd returns.
pub link-AllArmed :
    (ticks : ℕ → ℕ) (now mach : ℕ) (c : Clocks) (nt : Timer) (when : ℕ) (ts : List Timer)
    → 0 < now
    → AllArmed c
    → tadd ticks now mach (c.timers mach) nt ≡ some (when, ts)
    → AllArmed (timerset mach when (record c { timers = put c.timers mach ts }))
link-AllArmed ticks now mach c nt when ts pos a e =
    let old = c.timers mach in
    let (new, made, w, u) = tadd-cases ticks now mach old nt when ts e in
    let linked : Timer = record new { tt = some mach } in
    let later = schedule-pos ticks now old nt nt.tmode new pos made in
    let (s, f, p) = a.each mach in
    let sorted = insert-IsSorted linked old s in
    let period = schedule-period ticks now old nt nt.tmode new refl made in
    let periods = Periods-insert linked old period p in
    elim (Bool-cases (goes_first linked old)) [
      | inl first ↦
          let same : when ≡ new.twhen = ground arith in
          let armed = goes_first-From linked old s first in
          timerset-AllArmed mach when c ts a (
            inl (
              ground arith,
              subst (IsArmed (some when)) (sym u)
                  (sorted, subst (λ v. From v (insert linked old)) (sym same) armed, periods),
            ))
      | inr behind ↦
          let armed = goes_later-Covers linked (c.armed mach) old f behind in
          timerset-AllArmed mach when c ts a
            (inr (ground arith, subst (IsArmed (c.armed mach)) (sym u) (sorted, armed, periods)))
    ]

pub timeradd-AllArmed :
    (ticks : ℕ → ℕ) (now mach : ℕ) (c d : Clocks) (nt : Timer)
    → 0 < now
    → AllArmed c
    → timeradd ticks now mach c nt ≡ some d
    → AllArmed d
unfolding timeradd
timeradd-AllArmed ticks now mach c d nt pos a e =
    let free : Timer = record nt { tt = none } in
    let c' = unlist nt c in
    elim (Option-cases (tadd ticks now mach (c'.timers mach) free)) [
      | inl fails ↦ absurd (ground arith)
      | inr ((when, ts), adds) ↦
          subst AllArmed (ground arith)
            (link-AllArmed ticks now mach c' free when ts pos (unlist-AllArmed nt c a) adds)
    ]

Covers-tail :
    (armed : Option ℕ) (t : Timer) (ts : List Timer) → Covers armed (t ∷ ts) → Covers armed ts
Covers-tail none t ts g = absurd g
Covers-tail (some w) t ts (a, g) = g

Covers-remove_next :
    (armed : Option ℕ) (t : Timer) (ident : ℕ) (ts : List Timer)
    → Covers armed (t ∷ ts)
    → Covers armed (t ∷ remove ident ts)
Covers-remove_next none t ident ts g = absurd g
Covers-remove_next (some w) t ident ts (a, g) = (a, From-remove w ident ts g)

tdel-reset :
    (ident : ℕ) (armed : Option ℕ) (ts : List Timer)
    → IsArmed armed ts
    → let (when, us) = tdel ident ts in
      ((0 < when) × IsArmed (some when) us) ⊎ ((when ≡ 0) × IsArmed armed us)
unfolding tdel remove
tdel-reset ident armed [] h = inr (refl, h)
tdel-reset ident armed (t ∷ ts) ((f, s), g, p) = elim (Bool-cases (t.ident == ident)) [
  | inl found ↦ elim (Bool-cases (head_when ts == 0)) [
    | inl zeroth ↦ rw found (inr (ground arith, (s, Covers-tail armed t ts g, p.1)))
    | inr later ↦ rw found (inl (ground arith, (s, From-head ts s, p.1)))
  ]
  | inr other ↦ rw other (
      inr (
        refl,
        (
          (From-remove t.twhen ident ts f, remove-IsSorted ident ts s),
          Covers-remove_next armed t ident ts g,
          (p.0, Periods-remove ident ts p.1),
        ),
      ))
]

-- The interrupt of another processor is not set: its head can only be later than before.
pub timerdel-AllArmed :
    (mach : ℕ) (c : Clocks) (dt : Timer) → AllArmed c → AllArmed (timerdel mach c dt)
unfolding timerdel
timerdel-AllArmed mach c dt a = split dt.tt
  where
    after : ℕ → Clocks
    after k =
        let (when, ts) = tdel dt.ident (c.timers k) in
        let c' = record c { timers = put c.timers k ts } in
        if k == mach then timerset mach when c' else c'

    set : ℕ → Clocks
    set k =
        let (when, ts) = tdel dt.ident (c.timers k) in
        timerset mach when (record c { timers = put c.timers k ts })

    own : AllArmed (set mach)
    own =
        let (when, ts) = tdel dt.ident (c.timers mach) in
        timerset-AllArmed mach when c ts a
          (tdel-reset dt.ident (c.armed mach) (c.timers mach) (a.each mach))

    split : (k : Option ℕ) → AllArmed (elim k [ none ↦ c | some k ↦ after k ])
    split none = a
    split (some k) = elim (Bool-cases (k == mach)) [
      | inl here ↦
          let same : k ≡ mach = ground arith in
          rw here (subst (λ k. AllArmed (set k)) (sym same) own)
      | inr there ↦ rw there (
          keep-AllArmed c k (tdel dt.ident (c.timers k)).1 a
            (tdel-IsArmed dt.ident (c.armed k) (c.timers k) (a.each k)))
    ]
