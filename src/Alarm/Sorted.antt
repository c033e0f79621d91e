-- ===== src/Alarm/Sorted.antt =====
-- The alarms that are set are in order, and alarmkproc posts the notes that are due.
use nix_mark_iv.Prelude.{
  ℕ, ◌≤◌, ◌<◌, ◌≡◌, ◌⊎◌, inl, inr, refl, true, List, [], ◌∷◌, ltb, leb, ◌==◌, if◌then◌else◌,
  Bool-cases, arith, ap,
}
use nix_mark_iv.Alarm.{Alarm, clear_alarm, take_out, put_in, alarmkproc}

-- Every alarm that is set is at `w` or later.
abbrev pub From : ℕ → List Alarm → Type 0
From w [] = Unit {0}
From w (f ∷ fs) = ((f.alarm ≡ 0) ⊎ (w ≤ f.alarm)) × From w fs

-- The alarms that are set are in order.
abbrev pub IsSorted : List Alarm → Type 0
IsSorted [] = Unit {0}
IsSorted (f ∷ fs) = From f.alarm fs × IsSorted fs

From-weaken : (v w : ℕ) (fs : List Alarm) → v ≤ w → From w fs → From v fs
From-weaken v w [] h e = tt
From-weaken v w (f ∷ fs) h (inl z, e) = (inl z, From-weaken v w fs h e)
From-weaken v w (f ∷ fs) h (inr a, e) = (inr (omega arith), From-weaken v w fs h e)

From-clear_alarm : (w up : ℕ) (fs : List Alarm) → From w fs → From w (clear_alarm up fs)
unfolding clear_alarm
From-clear_alarm w up [] e = tt
From-clear_alarm w up (f ∷ fs) (a, e) = elim (Bool-cases (f.proc == up)) [
  | inl found ↦ rw found (inl refl, e)
  | inr other ↦ rw other (a, From-clear_alarm w up fs e)
]

pub clear_alarm-IsSorted : (up : ℕ) (fs : List Alarm) → IsSorted fs → IsSorted (clear_alarm up fs)
unfolding clear_alarm
clear_alarm-IsSorted up [] s = tt
clear_alarm-IsSorted up (f ∷ fs) (e, s) = elim (Bool-cases (f.proc == up)) [
  | inl found ↦ rw found (From-weaken 0 f.alarm fs (omega arith) e, s)
  | inr other ↦ rw other (From-clear_alarm f.alarm up fs e, clear_alarm-IsSorted up fs s)
]

From-take_out : (w up : ℕ) (fs : List Alarm) → From w fs → From w (take_out up fs)
unfolding take_out
From-take_out w up [] e = tt
From-take_out w up (f ∷ fs) (a, e) = elim (Bool-cases (f.proc == up)) [
  | inl found ↦ rw found e
  | inr other ↦ rw other (a, From-take_out w up fs e)
]

pub take_out-IsSorted : (up : ℕ) (fs : List Alarm) → IsSorted fs → IsSorted (take_out up fs)
unfolding take_out
take_out-IsSorted up [] s = tt
take_out-IsSorted up (f ∷ fs) (e, s) = elim (Bool-cases (f.proc == up)) [
  | inl found ↦ rw found s
  | inr other ↦ rw other (From-take_out f.alarm up fs e, take_out-IsSorted up fs s)
]

From-put_in : (w up when : ℕ) (fs : List Alarm) → w ≤ when → From w fs → From w (put_in up when fs)
unfolding put_in
From-put_in w up when [] h e = (inr h, tt)
From-put_in w up when (f ∷ fs) h (a, e) = elim (Bool-cases (ltb when f.alarm)) [
  | inl later ↦ rw later (inr h, (a, e))
  | inr before ↦ rw before (a, From-put_in w up when fs h e)
]

pub put_in-IsSorted : (up when : ℕ) (fs : List Alarm) → IsSorted fs → IsSorted (put_in up when fs)
unfolding put_in
put_in-IsSorted up when [] s = (tt, tt)
put_in-IsSorted up when (f ∷ fs) (e, s) = elim (Bool-cases (ltb when f.alarm)) [
  | inl later ↦
      rw later ((inr (ground arith), From-weaken when f.alarm fs (ground arith) e), (e, s))
  | inr before ↦
      rw before (From-put_in f.alarm up when fs (ground arith) e, put_in-IsSorted up when fs s)
]

-- The processes whose alarms are set and due.
abbrev pub due_alarms : ℕ → List Alarm → List ℕ
due_alarms now [] = []
due_alarms now (f ∷ fs) =
    let rest = due_alarms now fs in
    if f.alarm == 0 then rest else if leb f.alarm now then f.proc ∷ rest else rest

none_due : (now w : ℕ) (fs : List Alarm) → now < w → From w fs → due_alarms now fs ≡ []
none_due now w [] h e = refl
none_due now w (f ∷ fs) h (inl z, e) = let k = none_due now w fs h e in ground arith
none_due now w (f ∷ fs) h (inr a, e) = let k = none_due now w fs h e in ground arith

-- Where the set alarms are in order and canqlock succeeds, alarmkproc posts a note to exactly the
-- processes whose alarms are due, in order, and leaves no alarm that is due.
pub alarmkproc_lem :
    (now : ℕ) (fs : List Alarm)
    → IsSorted fs
    → let (noted, left) = alarmkproc (λ p. true) now fs in
      (noted ≡ due_alarms now fs) × (due_alarms now left ≡ []) × IsSorted left
unfolding alarmkproc
alarmkproc_lem now [] s = (refl, refl, tt)
alarmkproc_lem now (f ∷ fs) (e, s) =
    let (n, l, k) = alarmkproc_lem now fs s in
    elim (Bool-cases (ltb now f.alarm)) [
      | inl later ↦
          let none = none_due now f.alarm fs (ground arith) e in
          rw later (ground arith, ground arith, (e, s))
      | inr reached ↦ elim (Bool-cases (f.alarm == 0)) [
        | inl cleared ↦ rw (reached, cleared) (n, l, k)
        | inr set ↦
            let it : leb f.alarm now ≡ true = ground arith in
            rw (reached, set, it) (ap (◌∷◌ f.proc) n, l, k)
      ]
    ]
