-- ===== src/Alarm/Set.antt =====
-- procalarm sets or clears the alarm of its process, and of no other.
use nix_mark_iv.Prelude.{
  subst, ℕ, ◌+◌, ◌%◌, ◌^◌, ◌≡◌, ◌∙◌, inl, inr, refl, false, List, [], ◌∷◌, ltb, ◌==◌, if◌then◌else◌,
  Bool-cases, ==_iff, arith,
}
use nix_mark_iv.Alarm.{ms2tk, Alarm, alarm_of, clear_alarm, take_out, put_in, procalarm}
use nix_mark_iv.Alarm.Sorted.{IsSorted, clear_alarm-IsSorted, take_out-IsSorted, put_in-IsSorted}

-- The process is not in the list.
abbrev pub Absent : ℕ → List Alarm → Type 0
Absent p [] = Unit {0}
Absent p (f ∷ fs) = ((f.proc == p) ≡ false) × Absent p fs

-- No process is in the list twice.
abbrev pub IsUnique : List Alarm → Type 0
IsUnique [] = Unit {0}
IsUnique (f ∷ fs) = Absent f.proc fs × IsUnique fs

Absent-clear_alarm : (p up : ℕ) (fs : List Alarm) → Absent p fs → Absent p (clear_alarm up fs)
unfolding clear_alarm
Absent-clear_alarm p up [] a = tt
Absent-clear_alarm p up (f ∷ fs) (n, a) = elim (Bool-cases (f.proc == up)) [
  | inl found ↦ rw found (n, a)
  | inr other ↦ rw other (n, Absent-clear_alarm p up fs a)
]

clear_alarm-IsUnique : (up : ℕ) (fs : List Alarm) → IsUnique fs → IsUnique (clear_alarm up fs)
unfolding clear_alarm
clear_alarm-IsUnique up [] u = tt
clear_alarm-IsUnique up (f ∷ fs) (a, u) = elim (Bool-cases (f.proc == up)) [
  | inl found ↦ rw found (a, u)
  | inr other ↦ rw other (Absent-clear_alarm f.proc up fs a, clear_alarm-IsUnique up fs u)
]

Absent-take_out : (p up : ℕ) (fs : List Alarm) → Absent p fs → Absent p (take_out up fs)
unfolding take_out
Absent-take_out p up [] a = tt
Absent-take_out p up (f ∷ fs) (n, a) = elim (Bool-cases (f.proc == up)) [
  | inl found ↦ rw found a
  | inr other ↦ rw other (n, Absent-take_out p up fs a)
]

take_out-Absent : (up : ℕ) (fs : List Alarm) → IsUnique fs → Absent up (take_out up fs)
unfolding take_out
take_out-Absent up [] u = tt
take_out-Absent up (f ∷ fs) (a, u) = elim (Bool-cases (f.proc == up)) [
  | inl found ↦ rw found (subst (λ p. Absent p fs) ((==_iff f.proc up).0 found) a)
  | inr other ↦ rw other (other, take_out-Absent up fs u)
]

take_out-IsUnique : (up : ℕ) (fs : List Alarm) → IsUnique fs → IsUnique (take_out up fs)
unfolding take_out
take_out-IsUnique up [] u = tt
take_out-IsUnique up (f ∷ fs) (a, u) = elim (Bool-cases (f.proc == up)) [
  | inl found ↦ rw found u
  | inr other ↦ rw other (Absent-take_out f.proc up fs a, take_out-IsUnique up fs u)
]

Absent-put_in :
    (p up when : ℕ) (fs : List Alarm)
    → (up == p) ≡ false
    → Absent p fs
    → Absent p (put_in up when fs)
unfolding put_in
Absent-put_in p up when [] n a = (n, tt)
Absent-put_in p up when (f ∷ fs) n (m, a) = elim (Bool-cases (ltb when f.alarm)) [
  | inl later ↦ rw later (n, (m, a))
  | inr before ↦ rw before (m, Absent-put_in p up when fs n a)
]

put_in-IsUnique :
    (up when : ℕ) (fs : List Alarm) → Absent up fs → IsUnique fs → IsUnique (put_in up when fs)
unfolding put_in
put_in-IsUnique up when [] n u = (tt, tt)
put_in-IsUnique up when (f ∷ fs) (n, m) (a, u) = elim (Bool-cases (ltb when f.alarm)) [
  | inl later ↦ rw later ((n, m), (a, u))
  | inr before ↦
      let turned : (up == f.proc) ≡ false = ground (arith, n) in
      rw before (Absent-put_in f.proc up when fs turned a, put_in-IsUnique up when fs m u)
]

alarm_of-clear_alarm :
    (p up : ℕ) (fs : List Alarm)
    → alarm_of p (clear_alarm up fs) ≡ (if p == up then 0 else alarm_of p fs)
unfolding alarm_of clear_alarm
alarm_of-clear_alarm p up [] = ground arith
alarm_of-clear_alarm p up (f ∷ fs) =
    let ih = alarm_of-clear_alarm p up fs in
    elim (Bool-cases (f.proc == up)) [
      | inl found ↦ rw found (ground arith)
      | inr other ↦ rw other (ground (arith, ih))
    ]

alarm_of-take_out :
    (p up : ℕ) (fs : List Alarm) → (p == up) ≡ false → alarm_of p (take_out up fs) ≡ alarm_of p fs
unfolding alarm_of take_out
alarm_of-take_out p up [] n = refl
alarm_of-take_out p up (f ∷ fs) n = let ih = alarm_of-take_out p up fs n in ground arith

alarm_of-put_in :
    (p up when : ℕ) (fs : List Alarm)
    → Absent up fs
    → alarm_of p (put_in up when fs) ≡ (if p == up then when else alarm_of p fs)
unfolding alarm_of put_in
alarm_of-put_in p up when [] n = ground arith
alarm_of-put_in p up when (f ∷ fs) (n, m) = let ih = alarm_of-put_in p up when fs m in ground arith

alarm_of-put_back :
    (p up when : ℕ) (fs : List Alarm)
    → (if p == up then when else alarm_of p (take_out up fs))
      ≡ (if p == up then when else alarm_of p fs)
alarm_of-put_back p up when fs = elim (Bool-cases (p == up)) [
  | inl here ↦ rw here refl
  | inr there ↦ rw there (alarm_of-take_out p up fs there)
]

-- The alarm of `up` becomes `when`, every other one stays, and the list is in order, with no process
-- twice.
pub record AlarmSet (up when : ℕ) (fs gs : List Alarm) : Type 0 where
  pub sorted : IsSorted gs
  pub unique : IsUnique gs
  pub alarms : (p : ℕ) → alarm_of p gs ≡ (if p == up then when else alarm_of p fs)

-- procalarm of 0 clears the alarm of its process, and of another time sets it to that time from now
-- in ticks of 32 bits; the alarms of all other processes stay. Where the alarms that are set are in
-- order and no process is in the list twice, this stays so.
pub procalarm_lem :
    (now up time : ℕ) (fs : List Alarm)
    → IsSorted fs
    → IsUnique fs
    → AlarmSet up
        (if time == 0 then 0 else (ms2tk time + now) % 2 ^ 32)
        fs
        (procalarm now up time fs).1
unfolding procalarm
procalarm_lem now up time fs s u = elim (Bool-cases (time == 0)) [
  | inl zeroth ↦ rw zeroth record {
    sorted = clear_alarm-IsSorted up fs s;
    unique = clear_alarm-IsUnique up fs u;
    alarms = λ p. alarm_of-clear_alarm p up fs;
  }
  | inr set ↦
      let when = (ms2tk time + now) % 2 ^ 32 in
      let gs = take_out up fs in
      let gone = take_out-Absent up fs u in
      rw set record {
        sorted = put_in-IsSorted up when gs (take_out-IsSorted up fs s);
        unique = put_in-IsUnique up when gs gone (take_out-IsUnique up fs u);
        alarms = λ p. alarm_of-put_in p up when gs gone ∙ alarm_of-put_back p up when fs;
      }
]
