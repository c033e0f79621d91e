-- ===== src/Tcp/Tcptimers.antt =====
-- The timers of TCP: timerstate, tcpgo, tcphalt, and a round of tcpackproc, which counts them down and
-- calls the routines of those that ran out. The list through `next` and `prev` is a list of the names
-- of its timers, and the lock makes the first loop of a round, as each other routine, one step. A
-- timer that is in no list has nil in both.
pub mod Linked
pub mod Step
pub mod Countdown
pub mod Ready
pub mod Called
use nix_mark_iv.Prelude.{
  ℕ, Bool, true, false, not, ◌&&◌, ◌||◌, Option, none, some, List, [], ◌∷◌, ◌==◌, if◌then◌else◌,
  ltb, length,
}
use nix_mark_iv.Tcp.{sub32}

pub data Power : Type 0 where
  off : Power
  on : Power
  done : Power

abbrev pub is_on : Power → Bool
is_on on = true
is_on s = false

abbrev pub is_done : Power → Bool
is_done done = true
is_done s = false

pub record Tcptimer : Type 0 where
  pub power : Power
  pub start : ℕ
  pub count : ℕ

-- The timers by name, and the list of those that run.
pub record Timers : Type 0 where
  pub at : ℕ → Tcptimer
  pub timers : List ℕ

unfoldable pub set_timer : ℕ → Tcptimer → (ℕ → Tcptimer) → ℕ → Tcptimer
set_timer t v f x = if x == t then v else f x

unfoldable pub is_chained : ℕ → List ℕ → Bool
is_chained t [] = false
is_chained t (x ∷ xs) = t == x || is_chained t xs

unfoldable pub unchain : ℕ → List ℕ → List ℕ
unchain t [] = []
unchain t (x ∷ xs) = let rest = x ∷ unchain t xs in if t == x then xs else rest

-- `none` is the panic on a timer that is not on and yet in the list. One that is alone in the list
-- has no neighbours, so its address in `timers` does not show.
unfoldable pub timerstate : ℕ → Power → Timers → Option Timers
timerstate t newstate p =
    let now = record (p.at t) { power = newstate } in
    let set = set_timer t now p.at in
    if is_on newstate
    then if is_on (p.at t).power
      then some (record { at = set; timers = p.timers })
      else if is_chained t p.timers
      then none
      else some (record { at = set; timers = t ∷ p.timers })
    else if is_on (p.at t).power
    then some (record { at = set; timers = unchain t p.timers })
    else some (record { at = set; timers = p.timers })

unfoldable pub tcpgo : ℕ → Timers → Option Timers
tcpgo t p =
    if (p.at t).start == 0
    then some p
    else timerstate t on
        (record p { at = set_timer t (record (p.at t) { count = (p.at t).start }) p.at })

unfoldable pub tcphalt : ℕ → Timers → Option Timers
tcphalt t p = timerstate t off p

-- One timer is counted down: those that are ready have it in front.
unfoldable pub count_down : ℕ → Timers → List ℕ → Option (Timers × List ℕ)
count_down t p timeo =
    let left = sub32 (p.at t).count 1 in
    let p' = record p { at = set_timer t (record (p.at t) { count = left }) p.at } in
    if not (is_on (p.at t).power)
    then some (p, timeo)
    else if left == 0
    then elim (timerstate t done p') [ none ↦ none | some q ↦ some (q, t ∷ timeo) ]
    else some (p', timeo)

-- The loop over the list as it was, since `tp` is read before a timer is taken out.
unfoldable pub tick_from : List ℕ → Timers → List ℕ → Option (Timers × List ℕ)
tick_from [] p timeo = some (p, timeo)
tick_from (t ∷ ts) p timeo = elim (count_down t p timeo) [
  | none ↦ none
  | some (q, ready) ↦ tick_from ts q ready
]

-- The first loop of tcpackproc, which panics at more than 10001 timers.
unfoldable pub tick : Timers → Option (Timers × List ℕ)
tick p = if ltb 10001 (length p.timers) then none else tick_from p.timers p []

-- The second loop, over the timers that ran out, through `readynext`. `func t` says whether the timer
-- has a routine, and `act t` is what the routine does to the timers, also where it ends in an error.
unfoldable pub call_ready : (ℕ → Bool) → (ℕ → Timers → Timers) → List ℕ → Timers → List ℕ × Timers
call_ready func act [] p = ([], p)
call_ready func act (t ∷ ts) p =
    let calls = is_done (p.at t).power && func t in
    let (called, q) = call_ready func act ts (if calls then act t p else p) in
    (if calls then t ∷ called else called, q)

-- A round of tcpackproc: the timers whose routines were called, and the timers; the second loop
-- panics at more than 10001 too.
unfoldable pub tcpack_round : (ℕ → Bool) → (ℕ → Timers → Timers) → Timers → Option (List ℕ × Timers)
tcpack_round func act p = elim (tick p) [
  | none ↦ none
  | some (q, timeo) ↦ if ltb 10001 (length timeo) then none else some (call_ready func act timeo q)
]
