-- ===== src/Timer.antt =====
-- The timers of port/portclock.c: tadd, tdel, timeradd, timerdel, addclock0link and the loop of
-- timerintr, with struct Timer of port/portdat.h, and tk2ms and ms2tk. A list of timers through
-- `tnext` is a list, and a timer is named by a number; it is in one list at most, that of the
-- processor `tt`. Locks make each routine one step. Times and periods are natural numbers: a period
-- below 0 is treated by tadd as 0 is. `now` is what fastticks returns, `ticks` is ns2fastticks,
-- `none` is a panic, and what timerset is given is recorded for each processor.
pub mod Insert
pub mod Delete
pub mod Expire
pub mod Arming
pub mod Reach
pub mod Ticks
use nix_mark_iv.Prelude.{
  ℕ, zero, suc, ◌+◌, ◌-◌, ◌*◌, ◌/◌, ◌%◌, ◌^◌, Option, none, some, List, [], ◌∷◌, Bool, true, false,
  ◌&&◌, ltb, leb, ◌==◌, if◌then◌else◌,
}

pub data Tmode : Type 0 where
  relative periodic : Tmode

pub record Timer : Type 0 where
  pub ident : ℕ
  pub tmode : Tmode
  pub tns : ℕ
  pub twhen : ℕ
  -- whether `tf` is set: if not, this is the clock of the processor
  pub tf : Bool
  pub tt : Option ℕ

abbrev pub is_periodic : Tmode → Bool
is_periodic relative = false
is_periodic periodic = true

-- The time of the first periodic timer with this period, or `now`.
unfoldable pub combined : List Timer → ℕ → ℕ → ℕ
combined [] tns now = now
combined (t ∷ ts) tns now =
    let rest = combined ts tns now in if is_periodic t.tmode && t.tns == tns then t.twhen else rest

abbrev pub at_least_one : ℕ → ℕ
at_least_one n = if n == 0 then 1 else n

-- What tadd makes of the new timer before it is linked.
unfoldable pub schedule : (ℕ → ℕ) → ℕ → List Timer → Timer → Tmode → Option Timer
schedule ticks now ts nt relative =
    let tns = at_least_one nt.tns in some (record nt { tns = tns; twhen = now + ticks tns })
schedule ticks now ts nt periodic =
    if ltb nt.tns 100000
    then none
    else some (record nt {
      twhen =
          (if nt.twhen == 0 then combined ts nt.tns now else nt.twhen)
          + at_least_one (ticks nt.tns);
    })

-- The loop that finds the place, behind every timer that is not later.
unfoldable pub insert : Timer → List Timer → List Timer
insert nt [] = nt ∷ []
insert nt (t ∷ ts) =
    let rest = t ∷ insert nt ts in if ltb nt.twhen t.twhen then nt ∷ t ∷ ts else rest

-- Whether the place is the head.
unfoldable pub goes_first : Timer → List Timer → Bool
goes_first nt [] = true
goes_first nt (t ∷ ts) = ltb nt.twhen t.twhen

-- tadd to the list of the processor `mach`: the value returned, and the list.
unfoldable pub tadd : (ℕ → ℕ) → ℕ → ℕ → List Timer → Timer → Option (ℕ × List Timer)
unfolding schedule
tadd ticks now mach ts nt = elim nt.tt [
  | some k ↦ none
  | none ↦ elim (schedule ticks now ts nt nt.tmode) [
    | none ↦ none
    | some new ↦
        let linked = record new { tt = some mach } in
        some (if goes_first linked ts then linked.twhen else 0, insert linked ts)
  ]
]

unfoldable pub remove : ℕ → List Timer → List Timer
remove ident [] = []
remove ident (t ∷ ts) = let rest = t ∷ remove ident ts in if t.ident == ident then ts else rest

abbrev pub head_when : List Timer → ℕ
head_when [] = 0
head_when (t ∷ ts) = t.twhen

-- tdel from the list that the timer is in: the value returned, and the list.
unfoldable pub tdel : ℕ → List Timer → ℕ × List Timer
tdel ident [] = (0, [])
tdel ident (t ∷ ts) = if t.ident == ident then (head_when ts, ts) else (0, remove ident (t ∷ ts))

-- The lists of the processors, and the time that the interrupt of each is set to. It comes once
-- after it was set: `none` is an interrupt that has come, or was never set.
pub record Clocks : Type 0 where
  pub timers : ℕ → List Timer
  pub armed : ℕ → Option ℕ

abbrev pub put {ℓ} : {A : Type ℓ} → (ℕ → A) → ℕ → A → ℕ → A
put f k v j = if j == k then v else f j

-- timerset on the processor `mach`, if there is a time to set.
unfoldable pub timerset : ℕ → ℕ → Clocks → Clocks
timerset mach when c = if when == 0 then c else record c { armed = put c.armed mach (some when) }

unfoldable pub unlist : Timer → Clocks → Clocks
unlist t c = elim t.tt [
  | none ↦ c
  | some k ↦ record c { timers = put c.timers k (tdel t.ident (c.timers k)).1 }
]

-- timeradd on the processor `mach`.
unfoldable pub timeradd : (ℕ → ℕ) → ℕ → ℕ → Clocks → Timer → Option Clocks
timeradd ticks now mach c nt =
    let c' = unlist nt c in
    elim (tadd ticks now mach (c'.timers mach) (record nt { tt = none })) [
      | none ↦ none
      | some (when, ts) ↦ some (timerset mach when (record c' { timers = put c'.timers mach ts }))
    ]

-- timerdel on the processor `mach`.
unfoldable pub timerdel : ℕ → Clocks → Timer → Clocks
timerdel mach c dt = elim dt.tt [
  | none ↦ c
  | some k ↦
      let (when, ts) = tdel dt.ident (c.timers k) in
      let c' = record c { timers = put c.timers k ts } in
      if k == mach then timerset mach when c' else c'
]

-- addclock0link on the processor `mach`: the timer goes to processor 0, and the interrupt of `mach`
-- is set.
unfoldable pub addclock0link : (ℕ → ℕ) → ℕ → ℕ → Clocks → ℕ → ℕ → Option Clocks
addclock0link ticks now mach c ident ms =
    let nt : Timer = record {
      ident = ident;
      tmode = periodic;
      tns = (if ms == 0 then 1000 / 100 else ms) * 1000000;
      twhen = 0;
      tf = true;
      tt = none;
    } in
    elim (tadd ticks now 0 (c.timers 0) nt) [
      | none ↦ none
      | some (when, ts) ↦ some (timerset mach when (record c { timers = put c.timers 0 ts }))
    ]

-- The result of timerintr: the list, the timers whose routine ran and how often hzclock is due, and
-- the time to set, if any timer is left.
pub record Expired : Type 0 where
  pub left : List Timer
  pub fired : List Timer
  pub ticked : ℕ
  pub set_to : Option ℕ

-- A round of timerintr ran the timer `t`.
abbrev pub ran : Timer → Expired → Expired
ran t r = if t.tf then record r { fired = t ∷ r.fired } else record r { ticked = r.ticked + 1 }

-- The loop of timerintr. `act t` is what the routine of the timer `t` does to the timers of this
-- processor: it may add and delete some, not change `t`. `none`: a panic, or no fuel left.
again : Timer → Option Expired → Option Expired
again t none = none
again t (some r) = some (ran t r)

unfoldable pub timerintr :
    (Timer → List Timer → List Timer) → (ℕ → ℕ) → ℕ → ℕ → ℕ → List Timer → Option Expired
unfolding again
timerintr act ticks now mach zero ts = none
timerintr act ticks now mach (suc fuel) [] =
    some (record { left = []; fired = []; ticked = 0; set_to = none })
timerintr act ticks now mach (suc fuel) (t ∷ ts) =
    let us = if t.tf then act t ts else ts in
    let readded = tadd ticks now mach us (record t { tt = none }) in
    if ltb now t.twhen
    then some (record { left = t ∷ ts; fired = []; ticked = 0; set_to = some t.twhen })
    else elim t.tmode [
      | relative ↦ again t (timerintr act ticks now mach fuel us)
      | periodic ↦ elim readded [
        | none ↦ none
        | some (when, vs) ↦ again t (timerintr act ticks now mach fuel vs)
      ]
    ]

-- How long the timers of a list have been due, in all.
abbrev pub due : ℕ → List Timer → ℕ
due now [] = 0
due now (t ∷ ts) = now + 1 - t.twhen + due now ts

-- timerintr on the processor `mach`, with fuel for all that is due.
unfoldable pub interrupt :
    (Timer → List Timer → List Timer) → (ℕ → ℕ) → ℕ → ℕ → Clocks → Option Clocks
interrupt act ticks now mach c =
    elim (timerintr act ticks now mach (suc (due now (c.timers mach))) (c.timers mach)) [
      | none ↦ none
      | some r ↦
          let c' = record c { timers = put c.timers mach r.left } in
          some (elim r.set_to [ none ↦ c' | some when ↦ timerset mach when c' ])
    ]

-- The conversions between clock ticks and milliseconds; HZ is 100, and a ulong has 32 bits.
abbrev pub hz : ℕ
hz = 100

unfoldable pub tk2ms : ℕ → ℕ
tk2ms ticks = ticks * 1000 / hz % 2 ^ 32

unfoldable pub ms2tk : ℕ → ℕ
ms2tk ms =
    if leb (1000000000 / hz) ms then ms / 1000 * hz % 2 ^ 32 else (ms * hz + 500) % 2 ^ 32 / 1000
