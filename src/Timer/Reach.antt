-- ===== src/Timer/Reach.antt =====
-- The states of the clocks that the routines reach, with the interrupt of each processor.
use nix_mark_iv.Prelude.{
  suc, ℕ, ◌<◌, ◌≡◌, ◌/◌, ◌*◌, refl, subst, true, Option, none, some, inl, inr, List, [], ◌∷◌, arith,
  ◌==◌, if◌then◌else◌, Option-cases, false,
}
use nix_mark_iv.Timer.{
  interrupt, due, addclock0link, timerdel, Timer, periodic, tadd, Clocks, put, timerset, timeradd,
}
use nix_mark_iv.Timer.Insert.{From, IsSorted}
use nix_mark_iv.Timer.Expire.{Periods, Tame, timerintr_lem}
use nix_mark_iv.Timer.Arming.{
  AllArmed, link-AllArmed, timeradd-AllArmed, timerdel-AllArmed, others-AllArmed, IsArmed, Covers,
}

-- The interrupt of a processor comes, and is not set any more.
abbrev pub comes : ℕ → Clocks → Clocks
comes mach c = record c { armed = put c.armed mach none }

others :
    (mach : ℕ) (c : Clocks)
    → AllArmed c
    → (k : ℕ) → (k == mach) ≡ false
    → IsArmed ((comes mach c).armed k) (c.timers k)
others mach c a k there = rw there (a.each k)

-- What timerintr leaves, and the time that it sets.
ended-AllArmed :
    (now mach : ℕ) (c : Clocks) (ts : List Timer) (next : Option ℕ)
    → AllArmed c
    → IsSorted ts
    → Periods ts
    → From (suc now) ts
    → next ≡ elim ts [ [] ↦ none | t ∷ ts ↦ some t.twhen ]
    → let c' = record (comes mach c) { timers = put c.timers mach ts } in
      AllArmed (elim next [ none ↦ c' | some when ↦ timerset mach when c' ])
unfolding timerset
ended-AllArmed now mach c [] next a s p f e =
    rw e (others-AllArmed c mach none [] (λ k there. a.each k) (tt, tt, tt))
ended-AllArmed now mach c (t ∷ ts) next a s p f e =
    let set : (t.twhen == 0) ≡ false = ground arith in
    rw (e, set)
      (others-AllArmed (comes mach c) mach (some t.twhen) (t ∷ ts) (others mach c a)
        (s, (omega arith, s.0), p))

-- With tame routines timerintr returns, and the interrupt is set right again.
interrupt-AllArmed :
    (act : Timer → List Timer → List Timer) (ticks : ℕ → ℕ) (now mach : ℕ) (c : Clocks)
    → Tame act now
    → AllArmed c
    → (d : Clocks) × (interrupt act ticks now mach (comes mach c) ≡ some d) × AllArmed d
unfolding interrupt
interrupt-AllArmed act ticks now mach c tame a =
    let ts = c.timers mach in
    let (s, f, p) = a.each mach in
    let (r, e, ended, all) =
      timerintr_lem act ticks now mach tame (suc (due now ts)) ts s p (omega arith) in
    let c' = record (comes mach c) { timers = put c.timers mach r.left } in
    (
      elim r.set_to [ none ↦ c' | some when ↦ timerset mach when c' ],
      rw (e, interrupt) refl,
      ended-AllArmed now mach c r.left r.set_to a ended.sorted ended.periods ended.later ended.next,
    )

-- addclock0link called on processor 0, whose interrupt it sets.
addclock0link-AllArmed :
    (ticks : ℕ → ℕ) (now ident ms : ℕ) (c d : Clocks)
    → 0 < now
    → AllArmed c
    → addclock0link ticks now 0 c ident ms ≡ some d
    → AllArmed d
unfolding addclock0link
addclock0link-AllArmed ticks now ident ms c d pos a e =
    let nt : Timer = record {
      ident = ident;
      tmode = periodic;
      tns = (if ms == 0 then 1000 / 100 else ms) * 1000000;
      twhen = 0;
      tf = true;
      tt = none;
    } in
    elim (Option-cases (tadd ticks now 0 (c.timers 0) nt)) [
      | inl fails ↦ absurd (ground arith)
      | inr ((when, ts), adds) ↦
          subst AllArmed (ground arith) (link-AllArmed ticks now 0 c nt when ts pos a adds)
    ]

Covers-none : (armed : Option ℕ) → Covers armed []
Covers-none none = tt
Covers-none (some w) = tt

-- The states that the processors reach from empty lists: each step is one routine on one processor,
-- at a time after 0, and the routines of timers are tame. addclock0link runs on processor 0. An
-- interrupt comes once after it was set, at any time.
pub data Reach (ticks : ℕ → ℕ) : Clocks → Type 0 where
  start : (armed : ℕ → Option ℕ) → Reach ticks (record { timers = λ k. []; armed = armed })
  adds :
      {c d : Clocks} (now mach : ℕ) (nt : Timer)
      → Reach ticks c
      → 0 < now
      → timeradd ticks now mach c nt ≡ some d
      → Reach ticks d
  deletes : {c : Clocks} (mach : ℕ) (dt : Timer) → Reach ticks c → Reach ticks (timerdel mach c dt)
  links :
      {c d : Clocks} (now ident ms : ℕ)
      → Reach ticks c
      → 0 < now
      → addclock0link ticks now 0 c ident ms ≡ some d
      → Reach ticks d
  interrupts :
      {c d : Clocks} (act : Timer → List Timer → List Timer) (now mach : ℕ)
      → Reach ticks c
      → Tame act now
      → interrupt act ticks now mach (comes mach c) ≡ some d
      → Reach ticks d

-- In every state that timeradd, timerdel, addclock0link on processor 0 and interrupts, each of which
-- comes once after it was set, reach from empty lists, at times after 0 and with routines that keep
-- lists in order and add no timer that is due: the timers of each processor are in order, and if it
-- has any, its interrupt is set and has not come yet, to a time that is not after the first of them.
pub Reach-AllArmed : {ticks : ℕ → ℕ} {c : Clocks} → Reach ticks c → AllArmed c
Reach-AllArmed (start armed) = record { each = λ k. (tt, Covers-none (armed k), tt) }
Reach-AllArmed {ticks} (adds {c} {d} now mach nt r pos e) =
    timeradd-AllArmed ticks now mach c d nt pos (Reach-AllArmed r) e
Reach-AllArmed (deletes {c} mach dt r) = timerdel-AllArmed mach c dt (Reach-AllArmed r)
Reach-AllArmed {ticks} (links {c} {d} now ident ms r pos e) =
    addclock0link-AllArmed ticks now ident ms c d pos (Reach-AllArmed r) e
Reach-AllArmed {ticks} (interrupts {c} {d} act now mach r tame e) =
    let (x, e', a) = interrupt-AllArmed act ticks now mach c tame (Reach-AllArmed r) in
    subst AllArmed (ground arith) a
