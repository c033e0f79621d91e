-- ===== src/Tcp/Timeout/Limit.antt =====
-- How long tcptimeout sends again what is not acknowledged.
use nix_mark_iv.Prelude.{
  ℕ, zero, suc, ◌+◌, ◌*◌, ◌≤◌, ◌<◌, ◌≡◌, ◌⊎◌, refl, sym, ◌∙◌, subst, false, leb, Bool-cases, inl,
  inr, arith,
}
use nix_mark_iv.Tcp.Tcptimers.Linked.{set_self}
use nix_mark_iv.Tcp.{Tcpctl, time_wait, closed}
use nix_mark_iv.Tcp.States.{Held, is_state, timer}
use nix_mark_iv.Tcp.Ack.{on_tcb, settimer, tcpsettimer, tcprxmit}
use nix_mark_iv.Tcp.Timeout.{
  maxback, back_off, Timedout, settled, sends_again, tcptimeout, after_resend,
}

abbrev pub IsSettled : Timedout → Type 0
IsSettled (settled r) = Unit
IsSettled (sends_again c) = ⊥

-- The time that the timer of a conversation is started with.
abbrev pub start_of : Held → ℕ
start_of h = (h.priv.tl.at (timer h.s.conv.ident)).start

abbrev resend : Held → Held
resend h = on_tcb tcprxmit (tcpsettimer (back_off h))

settimer-least : (tcb : Tcpctl) → 10 ≤ settimer tcb
unfolding settimer
settimer-least tcb = ground arith

start-resend : (h : Held) → 10 ≤ start_of (resend h)
unfolding tcpsettimer back_off
start-resend h =
    let t = timer h.s.conv.ident in
    let b = back_off h in
    let v = record (b.priv.tl.at t) { start = settimer b.s.tcb } in
    subst (λ v. 10 ≤ v.start) (sym (set_self t v b.priv.tl.at)) (settimer-least b.s.tcb)

backedoff-resend : (h : Held) → (resend h).s.tcb.backedoff ≡ h.s.tcb.backedoff + start_of h * 50
unfolding tcprxmit tcpsettimer back_off
backedoff-resend h = refl

maxback-most : (tcb : Tcpctl) → maxback tcb ≤ 540000
unfolding maxback
maxback-most tcb = ground arith

small :
    (h : Held)
    → leb (maxback h.s.tcb) (back_off h).s.tcb.backedoff ≡ false
    → (resend h).s.tcb.backedoff < 540000
unfolding back_off tcprxmit tcpsettimer
small h under = let most = maxback-most h.s.tcb in ground arith

resend_lem :
    (h : Held)
    → IsSettled (tcptimeout h)
      ⊎ ((tcptimeout h ≡ sends_again (resend h)) × ((resend h).s.tcb.backedoff < 540000))
unfolding tcptimeout
resend_lem h = elim (Bool-cases (is_state h.s.tcb.state time_wait)) [
  | inl waits ↦ rw waits (inl tt)
  | inr goes_on ↦ elim (Bool-cases (is_state h.s.tcb.state closed)) [
    | inl done ↦ rw (goes_on, done) (inl tt)
    | inr live ↦ elim (Bool-cases (leb (maxback h.s.tcb) (back_off h).s.tcb.backedoff)) [
      | inl over ↦ rw (goes_on, live, over) (inl tt)
      | inr under ↦ rw (goes_on, live, under) (inr (refl, small h under))
    ]
  ]
]

-- What a result of a timeout goes on with, where it sends again.
abbrev follow : (Held → Timedout) → Timedout → Timedout
follow k (settled r) = settled r
follow k (sends_again c) = k c

-- So many timeouts in a row, with `between` for all that happens from one call of tcpoutput to the
-- next timeout.
unfoldable pub timeouts : (Held → Held) → ℕ → Held → Timedout
timeouts between zero h = sends_again h
timeouts between (suc n) h =
    follow (λ c. timeouts between n (between (on_tcb after_resend c))) (tcptimeout h)

follow-IsSettled : (k : Held → Timedout) (r : Timedout) → IsSettled r → IsSettled (follow k r)
follow-IsSettled k (settled r) i = tt
follow-IsSettled k (sends_again c) i = absurd i

module _ (between : Held → Held)
    (keeps : (c : Held) → (between c).s.tcb.backedoff ≡ c.s.tcb.backedoff)
    (starts : (c : Held) → start_of (between c) ≡ start_of c) where
  settles :
      (n : ℕ) (h : Held)
      → 10 ≤ start_of h
      → h.s.tcb.backedoff < 540000
      → 540000 ≤ h.s.tcb.backedoff + n * 500
      → IsSettled (timeouts between n h)
  unfolding timeouts after_resend
  settles zero h s b e = omega arith
  settles (suc n) h s b e = elim (resend_lem h) [
    | inl i ↦
        follow-IsSettled (λ c. timeouts between n (between (on_tcb after_resend c))) (tcptimeout h)
          i
    | inr (again, small) ↦
        let c = on_tcb after_resend (resend h) in
        let more = keeps c ∙ backedoff-resend h in
        subst
          (λ r. IsSettled (follow (λ c. timeouts between n (between (on_tcb after_resend c))) r))
          (sym again)
          (settles n (between c) (rw (starts c) (start-resend h)) (rw (keeps c) small)
            (rw more (omega arith)))
  ]

  -- A conversation from which no acknowledgement is taken sends again at fewer than 1080 timeouts
  -- in a row: one of them ends otherwise, by localclose, or without an effect in state Closed. What
  -- happens between two timeouts keeps the count of the time backed off and the time that the timer
  -- is started with, which is 10 ticks or more before, where the count is below 9 minutes.
  pub gives_up :
      (h : Held)
      → 10 ≤ start_of h
      → h.s.tcb.backedoff < 540000
      → IsSettled (timeouts between 1080 h)
  gives_up h s b = settles 1080 h s b (omega arith)
