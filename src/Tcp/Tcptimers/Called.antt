-- ===== src/Tcp/Tcptimers/Called.antt =====
-- Whose routines a round of tcpackproc calls.
use nix_mark_iv.Prelude.{
  ℕ, ◌≤◌, ◌≡◌, refl, sym, ap, ◌∙◌, Bool, true, false, ◌&&◌, ◌||◌, Option, some, List, [], length,
  ltb, ◌==◌, if◌then◌else◌, inl, inr, Bool-cases, arith,
}
use nix_mark_iv.Tcp.Tcptimers.{
  Timers, is_on, is_done, is_chained, tick_from, tick, call_ready, tcpack_round, done, Tcptimer,
}
use nix_mark_iv.Tcp.Tcptimers.Linked.{Unique, Linked}
use nix_mark_iv.Tcp.Tcptimers.Step.{Ticked, later, is_due}
use nix_mark_iv.Tcp.Tcptimers.Countdown.{tick_lem}
use nix_mark_iv.Tcp.Tcptimers.Ready.{
  tick_from-Unique, is_first, call_ready-only, call_ready-Unique, call_ready-all, call_ready-first,
}

-- A round over timers of which `spared` are let alone, and `stopped` are halted or started again, by
-- the routines of the others.
pub record Round (func spared stopped : ℕ → Bool) (p : Timers) (o : Option (List ℕ × Timers))
    : Type 0 where
  pub counted : Ticked p [] (λ u. is_on (p.at u).power) (tick p)
  pub called : List ℕ
  pub left : Timers
  pub is : o ≡ some (called, left)
  pub once : Unique called
  pub only : (u : ℕ) → is_chained u called ≡ is_chained u called && (is_due (p.at u) && func u)
  pub all : (u : ℕ) → spared u && is_chained u called ≡ spared u && (is_due (p.at u) && func u)
  pub first : (u : ℕ) → stopped u && is_chained u called ≡ stopped u && is_first u called

-- A timer that is ready is done when the first loop ends.
ready-is_done :
    (x y : Tcptimer)
    → y ≡ (if is_on x.power then later x else x)
    → is_on x.power && is_due x ≡ true
    → is_done y.power ≡ true
ready-is_done x y e r =
    let o : is_on x.power ≡ true = ground arith in
    let c : (x.count == 1) ≡ true = ground arith in
    let same : y ≡ record x { power = done; count = 0 } = e ∙ rw (o, c) refl in
    ap (λ y. is_done y.power) same

none_before : (u : ℕ) (b : Bool) → is_chained u [] || b ≡ b
unfolding is_chained
none_before u b = refl

due_bool : (u : ℕ) (x : Tcptimer) → is_chained u [] || (is_on x.power && is_due x) ≡ is_due x
unfolding is_chained
due_bool u x = ground arith

tcpack_round-step :
    (func : ℕ → Bool) (act : ℕ → Timers → Timers) (p q : Timers) (ready : List ℕ)
    → tick p ≡ some (q, ready)
    → length ready ≤ 10001
    → tcpack_round func act p ≡ some (call_ready func act ready q)
unfolding tcpack_round
tcpack_round-step func act p q ready e few =
    let fits : ltb 10001 (length ready) ≡ false = ground arith in
    rw (tcpack_round, e) (rw fits refl)

tick-Unique :
    (p q : Timers) (ready : List ℕ)
    → tick p ≡ some (q, ready)
    → Unique p.timers
    → length p.timers ≤ 10001
    → Unique ready × length ready ≤ 10001
unfolding tick is_chained
tick-Unique p q ready e s few =
    let fits : ltb 10001 (length p.timers) ≡ false = ground arith in
    let e' : tick_from p.timers p [] ≡ some (q, ready) = rw fits at e in
    let (a, b) = tick_from-Unique p.timers p q [] ready e' s tt (λ u c. refl) in
    (a, omega (arith, b, few))

-- Where the list has exactly the timers that are on, none twice and at most 10001, and the counts of
-- those are not 0, a round of tcpackproc does not panic. Its first loop leaves the list so, takes a
-- tick from each timer that is on, makes those done that had one left, and changes no other. Then it
-- calls no routine twice, and only those of timers that had one tick left and have a routine; of such
-- timers that are spared, for which no routine of another timer makes a timer that is done anything
-- else, it calls every one. A timer that the routine of every other timer makes something else than done
-- is called only if it is the first.
pub tcpack_round_lem :
    (func spared stopped : ℕ → Bool) (act : ℕ → Timers → Timers) (p : Timers)
    → ((u t : ℕ) (q : Timers)
        → spared u ≡ true
        → (u == t) ≡ false
        → is_done (q.at u).power ≡ true
        → is_done ((act t q).at u).power ≡ true)
    → ((u t : ℕ) (q : Timers)
        → stopped u ≡ true
        → (u == t) ≡ false
        → is_done ((act t q).at u).power ≡ false)
    → Linked p
    → length p.timers ≤ 10001
    → Round func spared stopped p (tcpack_round func act p)
tcpack_round_lem func spared stopped act p spares stops l few =
    let k = tick_lem p l few in
    let (once, count) = tick-Unique p k.left k.ready k.is l.unique few in
    let due : (u : ℕ) → is_chained u k.ready ≡ is_due (p.at u) =
      λ u. k.due u ∙ due_bool u (p.at u) in
    let r = call_ready func act k.ready k.left in
    record {
      counted = k;
      called = r.0;
      left = r.1;
      is = tcpack_round-step func act p k.left k.ready k.is count;
      once = call_ready-Unique func act k.ready k.left once;
      only = λ u.
          call_ready-only func act u k.ready k.left
          ∙ ap (λ d. is_chained u r.0 && (d && func u)) (due u);
      all = λ u. elim (Bool-cases (spared u)) [
        | inl spare ↦ rw spare (
            call_ready-all func act u (λ t q. spares u t q spare) k.ready k.left once
              (λ c.
                ready-is_done (p.at u) (k.left.at u) (k.counted u)
                  (sym (k.due u ∙ none_before u (is_on (p.at u).power && is_due (p.at u))) ∙ c))
            ∙ ap (λ d. d && func u) (due u))
        | inr touched ↦ rw touched refl
      ];
      first = λ u. elim (Bool-cases (stopped u)) [
        | inl stop ↦
            rw stop (call_ready-first func act u (λ t q. stops u t q stop) k.ready k.left once)
        | inr other ↦ rw other refl
      ];
    }
