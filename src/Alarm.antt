-- ===== src/Alarm.antt =====
-- The alarms of port/alarm.c: procalarm and the loop of alarmkproc. The list through `palarm` is a
-- list of processes with their field `alarm`; a process that is not in it has the alarm 0, and one
-- that cleared its alarm stays in it with 0. Times have 32 bits, `now` is sys->ticks, and the lock
-- makes each routine one step.
pub mod Sorted
pub mod Set
use nix_mark_iv.Prelude.{
  ℕ, ◌+◌, ◌-◌, ◌%◌, ◌^◌, Bool, true, false, List, [], ◌∷◌, ltb, leb, ◌==◌, if◌then◌else◌,
}
use nix_mark_iv.Timer.{tk2ms, ms2tk}

pub record Alarm : Type 0 where
  pub proc : ℕ
  pub alarm : ℕ

unfoldable pub alarm_of : ℕ → List Alarm → ℕ
alarm_of up [] = 0
alarm_of up (f ∷ fs) = let rest = alarm_of up fs in if f.proc == up then f.alarm else rest

-- up->alarm = 0
unfoldable pub clear_alarm : ℕ → List Alarm → List Alarm
clear_alarm up [] = []
clear_alarm up (f ∷ fs) =
    let rest = f ∷ clear_alarm up fs in if f.proc == up then record f { alarm = 0 } ∷ fs else rest

-- The first loop takes the process out of the list.
unfoldable pub take_out : ℕ → List Alarm → List Alarm
take_out up [] = []
take_out up (f ∷ fs) = let rest = f ∷ take_out up fs in if f.proc == up then fs else rest

-- The second loop puts it before the first alarm that is later.
unfoldable pub put_in : ℕ → ℕ → List Alarm → List Alarm
put_in up when [] = record { proc = up; alarm = when } ∷ []
put_in up when (f ∷ fs) =
    let rest = f ∷ put_in up when fs in
    if ltb when f.alarm then record { proc = up; alarm = when } ∷ f ∷ fs else rest

-- procalarm: the value returned, and the list.
unfoldable pub procalarm : ℕ → ℕ → ℕ → List Alarm → ℕ × List Alarm
procalarm now up time fs =
    let set = alarm_of up fs in
    let old = if set == 0 then 0 else tk2ms ((set + 2 ^ 32 - now) % 2 ^ 32) in
    if time == 0
    then (old, clear_alarm up fs)
    else (old, put_in up ((ms2tk time + now) % 2 ^ 32) (take_out up fs))

-- The loop of alarmkproc: the processes that got a note, and the list. `free p` says whether
-- canqlock gets the lock of the process.
unfoldable pub alarmkproc : (ℕ → Bool) → ℕ → List Alarm → List ℕ × List Alarm
alarmkproc free now [] = ([], [])
alarmkproc free now (f ∷ fs) =
    let (noted, rest) = alarmkproc free now fs in
    if ltb now f.alarm
    then ([], f ∷ fs)
    else if f.alarm == 0
    then (noted, rest)
    else if free f.proc
    then (f.proc ∷ noted, rest)
    else ([], f ∷ fs)
