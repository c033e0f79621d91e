-- ===== src/Timer/Expire.antt =====
-- timerintr runs every timer that is due and stops: it always ends, and leaves only timers that are
-- later than the time it read.
use nix_mark_iv.Prelude.{
  ℕ, zero, suc, ◌+◌, ◌-◌, ◌≤◌, ◌<◌, ◌≡◌, ◌⊎◌, refl, subst, Bool, true, false, Option, none, some,
  inl, inr, List, [], ◌∷◌, arith, ltb, ◌==◌, if◌then◌else◌, Bool-cases,
}
use nix_mark_iv.Timer.{
  due, goes_first, at_least_one, again, combined, Timer, Tmode, relative, periodic, insert,
  schedule, tadd, Expired, ran, timerintr,
}
use nix_mark_iv.Timer.Insert.{From-weaken, From, IsSorted, insert-IsSorted}

due-insert :
    (now : ℕ) (nt : Timer) (ts : List Timer)
    → due now (insert nt ts) ≡ now + 1 - nt.twhen + due now ts
unfolding insert
due-insert now nt [] = refl
due-insert now nt (t ∷ ts) = ground (arith, due-insert now nt ts)

-- Periodic timers have a period of at least 100 µs.
abbrev pub Periods : List Timer → Type 0
Periods [] = Unit {0}
Periods (t ∷ ts) = ((t.tmode ≡ relative) ⊎ (100000 ≤ t.tns)) × Periods ts

pub Periods-insert :
    (nt : Timer) (ts : List Timer)
    → (nt.tmode ≡ relative) ⊎ (100000 ≤ nt.tns)
    → Periods ts
    → Periods (insert nt ts)
unfolding insert
Periods-insert nt [] p ps = (p, tt)
Periods-insert nt (t ∷ ts) p (a, ps) = elim (Bool-cases (ltb nt.twhen t.twhen)) [
  | inl before ↦ rw before (p, (a, ps))
  | inr after ↦ rw after (a, Periods-insert nt ts p ps)
]

-- What the routines of timers may do to the list: they keep it in order with periods in bounds, and
-- add no timer that is due already.
pub record Tame (act : Timer → List Timer → List Timer) (now : ℕ) : Type 0 where
  pub sorted : (t : Timer) (ts : List Timer) → IsSorted ts → IsSorted (act t ts)
  pub periods : (t : Timer) (ts : List Timer) → Periods ts → Periods (act t ts)
  pub later : (t : Timer) (ts : List Timer) → due now (act t ts) ≤ due now ts

-- timerintr ended with a sorted list of timers that are all later than `now`, and the interrupt is
-- set to the first of them.
pub record Ended (now : ℕ) (r : Expired) : Type 0 where
  pub sorted : IsSorted r.left
  pub periods : Periods r.left
  pub later : From (suc now) r.left
  pub next : r.set_to ≡ elim r.left [ [] ↦ none | t ∷ ts ↦ some t.twhen ]

-- Every timer that ran was due.
abbrev pub AllDue : ℕ → List Timer → Type 0
AllDue now [] = Unit {0}
AllDue now (t ∷ ts) = (t.twhen ≤ now) × AllDue now ts

Tmode-cases : (m : Tmode) → (m ≡ relative) ⊎ (m ≡ periodic)
Tmode-cases relative = inl refl
Tmode-cases periodic = inr refl

-- A periodic timer that ran can be linked again, at a later time.
tadd_again :
    (ticks : ℕ → ℕ) (now mach : ℕ) (us : List Timer) (t : Timer)
    → t.tmode ≡ periodic
    → 100000 ≤ t.tns
    → (when : ℕ) × (new : Timer) × (tadd ticks now mach us (record t { tt = none })
        ≡ some (when, insert new us))
      × (new.tns ≡ t.tns)
      × (t.twhen < new.twhen)
unfolding tadd schedule
tadd_again ticks now mach us t m h =
    let twhen : ℕ =
      (if t.twhen == 0 then combined us t.tns now else t.twhen) + at_least_one (ticks t.tns) in
    let new : Timer = record t { twhen = twhen; tt = some mach } in
    (if goes_first new us then twhen else 0, new, ground arith, refl, ground arith)

module _ (act : Timer → List Timer → List Timer) (ticks : ℕ → ℕ) (now mach : ℕ)
    (tame : Tame act now) where
  -- The loop ended well.
  abbrev Good : Option Expired → Type 0
  Good o = (r : Expired) × (o ≡ some r) × Ended now r × AllDue now r.fired

  again-Good : (t : Timer) (o : Option Expired) → t.twhen ≤ now → Good o → Good (again t o)
  unfolding again
  again-Good t none h (r, e, ended, all) = absurd (ground arith)
  again-Good t (some x) h (r, e, ended, all) =
      let same : r ≡ x = ground arith in
      let (ended', all') =
        split t.tf x (subst (Ended now) same ended) (subst (λ x. AllDue now x.fired) same all) in
      (ran t x, refl, ended', all')
    where
      split :
          (b : Bool) (x : Expired)
          → Ended now x
          → AllDue now x.fired
          → let y =
              if b then record x { fired = t ∷ x.fired } else record x { ticked = x.ticked + 1 } in
            Ended now y × AllDue now y.fired
      split true x g a = (
        record { sorted = g.sorted; periods = g.periods; later = g.later; next = g.next },
        (h, a),
      )
      split false x g a =
          (record { sorted = g.sorted; periods = g.periods; later = g.later; next = g.next }, a)

  abbrev after : Timer → List Timer → List Timer
  after t ts = if t.tf then act t ts else ts

  after_tame :
      (t : Timer) (ts : List Timer)
      → IsSorted ts
      → Periods ts
      → IsSorted (after t ts) × Periods (after t ts) × (due now (after t ts) ≤ due now ts)
  after_tame t ts s p = split t.tf
    where
      split :
          (b : Bool)
          → let us = if b then act t ts else ts in
            IsSorted us × Periods us × (due now us ≤ due now ts)
      split true = (tame.sorted t ts s, tame.periods t ts p, tame.later t ts)
      split false = (s, p, omega arith)

  -- With routines that keep the list in order and add no timer that is due, timerintr ends within as
  -- many rounds as its timers have been due: every timer that it ran was due, those left are in
  -- order and later than `now`, and the interrupt is set to the first of them, if any.
  pub timerintr_lem :
      (fuel : ℕ) (ts : List Timer)
      → IsSorted ts
      → Periods ts
      → due now ts < fuel
      → Good (timerintr act ticks now mach fuel ts)
  unfolding timerintr
  timerintr_lem zero ts s p h = absurd (omega arith)
  timerintr_lem (suc fuel) [] s p h = (
    record { left = []; fired = []; ticked = 0; set_to = none },
    refl,
    record { sorted = tt; periods = tt; later = tt; next = refl },
    tt,
  )
  timerintr_lem (suc fuel) (t ∷ ts) s p h = elim (Bool-cases (ltb now t.twhen)) [
    | inl early ↦
        rw (early, timerintr)
          (
            record { left = t ∷ ts; fired = []; ticked = 0; set_to = some t.twhen },
            refl,
            record {
              sorted = s;
              periods = p;
              later = (ground arith, From-weaken (suc now) t.twhen ts (ground arith) s.0);
              next = refl;
            },
            tt,
          )
    | inr reached ↦
        let (s', p', d) = after_tame t ts s.1 p.1 in
        let arrived : t.twhen ≤ now = ground arith in
        elim (Tmode-cases t.tmode) [
          | inl once ↦
              rw (reached, once, timerintr)
                (again-Good t _ arrived (timerintr_lem fuel (after t ts) s' p' (omega arith)))
          | inr repeats ↦
              let (when, new, e, same, later) =
                tadd_again ticks now mach (after t ts) t repeats (ground arith) in
              rw (reached, repeats, e, timerintr)
                (again-Good t _ arrived (
                  timerintr_lem fuel (insert new (after t ts)) (insert-IsSorted new (after t ts) s')
                    (Periods-insert new (after t ts) (inr (ground arith)) p')
                    (omega (arith, due-insert now new (after t ts), d))))
        ]
  ]
