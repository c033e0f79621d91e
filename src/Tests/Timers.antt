-- ===== src/Tests/Timers.antt =====
-- Timers of one and of two processors, with one tick a microsecond.
use nix_mark_iv.Alarm.Set.{IsUnique, AlarmSet, procalarm_lem}
use nix_mark_iv.Prelude.{
  inr, ℕ, ◌/◌, ◌≡◌, refl, inl, Bool, true, false, Option, none, some, List, [], ◌∷◌, arith, ◌==◌,
  if◌then◌else◌, ◌+◌, ◌%◌, ◌^◌,
}
use nix_mark_iv.Alarm.{Alarm, procalarm, alarmkproc}
use nix_mark_iv.Alarm.Sorted
use nix_mark_iv.Timer.Ticks.{ms2tk-tk2ms}
use nix_mark_iv.Timer.{tk2ms, ms2tk}
use nix_mark_iv.Timer.{
  timerset, unlist, put, Tmode, relative, periodic, Timer, tadd, Clocks, timeradd, timerintr,
  Expired, schedule, insert, goes_first, combined,
}
use nix_mark_iv.Timer.Insert.{Added, tadd_lem}
use nix_mark_iv.Timer.Expire.{Tame, Ended, AllDue, timerintr_lem}
use nix_mark_iv.Timer.Arming.{AllArmed}
use nix_mark_iv.Timer.Reach.{start, adds, Reach-AllArmed}

abbrev ticks : ℕ → ℕ
ticks ns = ns / 1000

abbrev timer : ℕ → Tmode → ℕ → ℕ → Bool → Option ℕ → Timer
timer ident mode ns when tf tt = record {
  ident = ident;
  tmode = mode;
  tns = ns;
  twhen = when;
  tf = tf;
  tt = tt;
}

-- Two timers of processor 0, and one that is to be linked between them.
abbrev early : Timer
early = timer 1 periodic 200000 150 false (some 0)

abbrev late : Timer
late = timer 2 relative 5000 500 true (some 0)

abbrev between : Timer
between = timer 3 periodic 200000 0 true none

abbrev linked : Timer
linked = timer 3 periodic 200000 350 true (some 0)

links : tadd ticks 100 0 (early ∷ late ∷ []) between ≡ some (0, early ∷ linked ∷ late ∷ [])
unfolding tadd schedule combined insert goes_first
links = refl

tadd_lem_example : Added 0 (early ∷ late ∷ []) between 0 (early ∷ linked ∷ late ∷ [])
tadd_lem_example =
    tadd_lem ticks 100 0 (early ∷ late ∷ []) between 0 (early ∷ linked ∷ late ∷ [])
      ((omega arith, tt), (tt, tt)) links

abbrev idle : Timer → List Timer → List Timer
idle t ts = ts

idle-Tame : (now : ℕ) → Tame idle now
idle-Tame now = record { sorted = λ t ts s. s; periods = λ t ts p. p; later = λ t ts. omega arith }

-- At time 600 both timers are due, and the periodic one three times.
timerintr_lem_example :
    (r : Expired) × (timerintr idle ticks 600 0 1000 (early ∷ late ∷ []) ≡ some r)
    × Ended 600 r
    × AllDue 600 r.fired
timerintr_lem_example =
    timerintr_lem idle ticks 600 0 (idle-Tame 600) 1000 (early ∷ late ∷ [])
      ((omega arith, tt), (tt, tt)) ((inr (omega arith), (inl refl, tt))) (omega arith)

abbrev unused : Clocks
unused = record { timers = λ k. []; armed = λ k. none }

-- After timeradd of a relative timer of 5 µs on processor 1, at time 100.
abbrev one_armed : Clocks
one_armed = record {
  timers = put (λ k. []) 1 (timer 4 relative 5000 105 true (some 1) ∷ []);
  armed = put (λ k. none) 1 (some 105);
}

arms : timeradd ticks 100 1 unused (timer 4 relative 5000 0 true none) ≡ some one_armed
unfolding timeradd unlist timerset tadd schedule insert goes_first
arms = refl

Reach-AllArmed_example : AllArmed one_armed
Reach-AllArmed_example =
    Reach-AllArmed {ticks = ticks}
      (adds 100 1 (timer 4 relative 5000 0 true none) (start (λ k. none)) (omega arith) arms)

ms2tk-tk2ms_example : ms2tk (tk2ms 1000050) ≡ 1000000
ms2tk-tk2ms_example = ms2tk-tk2ms 1000050 (omega arith)

-- Process 2 cleared its alarm, and process 3 is not due.
abbrev alarms : List Alarm
alarms =
    record { proc = 1; alarm = 40 }
    ∷ record { proc = 2; alarm = 0 }
    ∷ record { proc = 3; alarm = 90 }
    ∷ []

alarms-IsSorted : Sorted.IsSorted alarms
alarms-IsSorted = ((inl refl, (inr (omega arith), tt)), ((inr (omega arith), tt), (tt, tt)))

alarms-IsUnique : IsUnique alarms
alarms-IsUnique = ((refl, (refl, tt)), ((refl, tt), (tt, tt)))

procalarm_lem_example :
    AlarmSet 2
      (if 300 == 0 then 0 else (ms2tk 300 + 50) % 2 ^ 32)
      alarms
      (procalarm 50 2 300 alarms).1
procalarm_lem_example = procalarm_lem 50 2 300 alarms alarms-IsSorted alarms-IsUnique

alarmkproc_lem_example :
    let (noted, left) = alarmkproc (λ p. true) 50 alarms in
    (noted ≡ Sorted.due_alarms 50 alarms) × (Sorted.due_alarms 50 left ≡ []) × Sorted.IsSorted left
alarmkproc_lem_example = Sorted.alarmkproc_lem 50 alarms alarms-IsSorted
