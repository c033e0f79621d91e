-- ===== src/Tcp/Timeout.antt =====
-- What tcptimeout of ip/tcp.c does when the timer for what is not acknowledged runs out. Where it
-- sends again, the state at the call of tcpoutput in tcprxmit is the result, and `after_resend` is what
-- follows the call. The conversation is locked, and the times are so small that no sum leaves the
-- range of an int.
pub mod Limit
use nix_mark_iv.Prelude.{ℕ, ◌+◌, ◌*◌, ◌/◌, Option, some, [], ◌∷◌, leb, if◌then◌else◌, ◌%◌}
use nix_mark_iv.Qio.{Err, unset, text}
use nix_mark_iv.Tcp.{Tcpctl, syn_sent, time_wait, closed}
use nix_mark_iv.Tcp.States.{Held, is_state, localclose, timer}
use nix_mark_iv.Tcp.Ack.{on_tcb, tcpsettimer, tcprxmit}

-- "connection timed out"
abbrev etimedout : Err
etimedout = text (
    99 ∷ 111 ∷ 110 ∷ 110 ∷ 101 ∷ 99 ∷ 116 ∷ 105 ∷ 111 ∷ 110 ∷ 32 ∷ 116 ∷ 105 ∷ 109 ∷ 101 ∷ 100 ∷ 32
    ∷ 111 ∷ 117 ∷ 116 ∷ [])

-- MAXBACKMS, or half of it for a conversation that has not been answered.
unfoldable pub maxback : Tcpctl → ℕ
maxback tcb = if is_state tcb.state syn_sent then 540000 / 2 else 540000

-- The time that this round has taken is added, in milliseconds.
unfoldable pub back_off : Held → Held
back_off h =
    let start = (h.priv.tl.at (timer h.s.conv.ident)).start in
    on_tcb
      (λ tcb. record tcb {
        backoff = (tcb.backoff + 1) % 256;
        backedoff = tcb.backedoff + start * 50;
      })
      h

pub data Timedout : Type 0 where
  settled : Option Held → Timedout
  sends_again : Held → Timedout

unfoldable pub tcptimeout : Held → Timedout
tcptimeout h =
    let b = back_off h in
    if is_state h.s.tcb.state time_wait
    then settled (localclose unset h)
    else if is_state h.s.tcb.state closed
    then settled (some h)
    else if leb (maxback h.s.tcb) b.s.tcb.backedoff
    then settled (localclose etimedout b)
    else sends_again (on_tcb tcprxmit (tcpsettimer b))

-- Behind the call of tcpoutput.
unfoldable pub after_resend : Tcpctl → Tcpctl
after_resend tcb = record tcb { snd = record tcb.snd { dupacks = 0 } }
