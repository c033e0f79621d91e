-- ===== src/Tcp/Ack.antt =====
-- What an acknowledgement does to the sending side: update of ip/tcp.c, with tcpsettimer. Where it
-- calls tcprxmit, to send again from the first place that is not acknowledged, the state at that
-- call of tcpoutput is the result. The count of flags is not 0 where it is counted down, the
-- congestion window not where it divides, the timer of the round trip counts down from where it
-- started, and the round trip times are so small that no sum of them leaves the range of an int.
pub mod Acked
pub mod Growth
use nix_mark_iv.Prelude.{
  ℕ, ◌+◌, ◌-◌, ◌*◌, ◌/◌, ◌%◌, ◌^◌, min, Bool, true, false, not, ◌&&◌, ◌||◌, Option, none, some,
  List, [], ◌∷◌, ◌++◌, map, ltb, leb, ◌==◌, if◌then◌else◌, ◌>>=◌,
}
use nix_mark_iv.Qio.{Queue}
use nix_mark_iv.Qio.Interrupt.{qdiscard}
use nix_mark_iv.Tcp.{
  Tcp, Tcpctl, Snd, has_bit, clear_bit, set_bit, sub32, add32, seq_lt, seq_gt, seq_ge, force,
  retran, synack,
}
use nix_mark_iv.Tcp.Tcptimers.{Timers, is_on, set_timer, tcpgo, tcphalt}
use nix_mark_iv.Tcp.States.{Held, timer, rtt_timer, wake_wq}

-- A step on the control block.
abbrev pub on_tcb : (Tcpctl → Tcpctl) → Held → Held
on_tcb f h = record h { s = record h.s { tcb = f h.s.tcb } }

-- A pure acknowledgement of what was acknowledged before.
unfoldable pub is_duplicate : Tcp → Tcpctl → Bool
is_duplicate seg tcb =
    seg.ack == tcb.snd.una
    && (not (tcb.snd.una == tcb.snd.nxt) && (seg.len == 0 && seg.wnd == tcb.snd.wnd))

unfoldable pub count_duplicate : Tcpctl → Tcpctl
count_duplicate tcb =
    let dupacks = add32 tcb.snd.dupacks 1 in
    if dupacks == 3
    then record tcb {
      snd = record tcb.snd { dupacks = dupacks; recovery = true; rxt = tcb.snd.nxt };
    }
    else record tcb { snd = record tcb.snd { dupacks = dupacks } }

-- tcprxmit, up to its call of tcpoutput.
unfoldable pub tcprxmit : Tcpctl → Tcpctl
tcprxmit tcb = record tcb {
  flags = set_bit force (set_bit retran tcb.flags);
  snd = record tcb.snd { ptr = tcb.snd.una };
  ssthresh = tcb.mss;
  cwind = tcb.mss;
}

unfoldable pub update_window : Tcp → Tcpctl → Tcpctl
update_window seg tcb =
    if seq_gt seg.ack tcb.snd.wl2 || (tcb.snd.wl2 == seg.ack && ltb tcb.snd.wnd seg.wnd)
    then record tcb { snd = record tcb.snd { wnd = seg.wnd; wl2 = seg.ack } }
    else tcb

-- An acknowledgement of nothing new; MAXBACKMS is 9 minutes.
unfoldable pub stay_alive : Tcpctl → Tcpctl
stay_alive tcb =
    if has_bit retran tcb.flags && tcb.snd.wnd == 0
    then record tcb { backedoff = 9 * 60 * 1000 / 4 }
    else tcb

unfoldable pub end_recovery : Tcp → Tcpctl → Tcpctl
end_recovery seg tcb =
    if not tcb.snd.recovery || seq_ge seg.ack tcb.snd.rxt
    then record tcb { snd = record tcb.snd { dupacks = 0; recovery = false } }
    else tcb

-- The congestion window grows up to the window of the other side.
unfoldable pub growth : ℕ → Tcpctl → ℕ
growth acked tcb =
    let step =
      if ltb tcb.cwind tcb.ssthresh
      then min tcb.mss acked
      else tcb.mss * tcb.mss % 2 ^ 32 / tcb.cwind in
    let step = if ltb (add32 tcb.cwind step) tcb.cwind then tcb.snd.wnd - tcb.cwind else step in
    if ltb tcb.snd.wnd (add32 tcb.cwind step) then tcb.snd.wnd - tcb.cwind else step

unfoldable pub grow : ℕ → Tcpctl → Tcpctl
grow acked tcb =
    if ltb tcb.cwind tcb.snd.wnd && not tcb.snd.recovery
    then record tcb { cwind = add32 tcb.cwind (growth acked tcb) }
    else tcb

-- The smoothed round trip time and its deviation, in 8 and 4 parts; `rtt` is in milliseconds.
abbrev pub distance : ℕ → ℕ → ℕ
distance a b = if ltb a b then b - a else a - b

abbrev pub positive_or_1 : ℕ → ℕ
positive_or_1 n = if n == 0 then 1 else n

unfoldable pub smooth : ℕ → Tcpctl → Tcpctl
smooth rtt tcb =
    if tcb.srtt == 0 then record tcb { srtt = rtt * 8; mdev = rtt * 4 } else record tcb {
      srtt = positive_or_1 (tcb.srtt + rtt - tcb.srtt / 8);
      mdev = positive_or_1 (tcb.mdev + distance rtt (tcb.srtt / 8) - tcb.mdev / 4);
    }

-- tcpsettimer: between half a second and 64 seconds, in ticks of 50 ms. The product is an int, and
-- the processor shifts by the lower 5 bits of the uchar; a negative product is below half a second,
-- as 0 is.
unfoldable pub settimer : Tcpctl → ℕ
settimer tcb =
    let product = 2 ^ (tcb.backoff % 32) * (tcb.mdev + tcb.srtt / 8 + 50) % 2 ^ 32 in
    let x = if leb (2 ^ 31) product then 0 else product / 50 in
    if ltb x 10 then 10 else if ltb 1280 x then 1280 else x

unfoldable pub tcpsettimer : Held → Held
tcpsettimer h =
    let t = timer h.s.conv.ident in
    let v = record (h.priv.tl.at t) { start = settimer h.s.tcb } in
    record h { priv = record h.priv { tl = record h.priv.tl { at = set_timer t v h.priv.tl.at } } }

abbrev pub with_timers : Held → Timers → Held
with_timers h tl = record h { priv = record h.priv { tl = tl } }

unfoldable pub measure : Held → Held
measure h =
    let t = h.priv.tl.at (rtt_timer h.s.conv.ident) in
    let rtt = positive_or_1 (t.start - t.count) * 50 in
    if has_bit retran h.s.tcb.flags
    then h
    else tcpsettimer (on_tcb (λ tcb. smooth rtt (record tcb { backoff = 0; backedoff = 0 })) h)

-- The timer of the round trip, if it runs for a place that is acknowledged.
unfoldable pub time_trip : Tcp → Held → Option Held
time_trip seg h =
    let t = rtt_timer h.s.conv.ident in
    if is_on (h.priv.tl.at t).power && seq_ge seg.ack h.s.tcb.rttseq
    then (tcphalt t h.priv.tl >>= λ tl. some (measure (with_timers h tl)))
    else some h

-- The acknowledged bytes leave the queue; where there are fewer, the FIN is acknowledged too.
unfoldable pub drop_acked : ℕ → Held → Held
drop_acked acked h =
    let r = qdiscard h.s.wq acked in
    let flgcnt = if ltb r.ret acked then h.s.tcb.flgcnt - 1 else h.s.tcb.flgcnt in
    record h {
      s = record h.s { wq = r.queue; tcb = record h.s.tcb { flgcnt = flgcnt } };
      freed = h.freed ++ r.freed;
      woken = h.woken ++ map wake_wq r.signals;
    }

-- The pointers behind the acknowledgement.
unfoldable pub advance_una : ℕ → Tcpctl → Tcpctl
advance_una ack tcb = record tcb {
  snd = record tcb.snd {
    una = ack;
    urg = if seq_gt ack tcb.snd.urg then ack else tcb.snd.urg;
    ptr = if seq_lt tcb.snd.ptr ack then ack else tcb.snd.ptr;
  };
  flags = clear_bit retran tcb.flags;
  backoff = 0;
  backedoff = 0;
}

-- What follows `done`: the timer runs while something is not acknowledged.
unfoldable pub settle_ack : ℕ → ℕ → Held → Option Held
settle_ack ack acked h =
    let d = drop_acked acked h in
    let t = timer d.s.conv.ident in
    let moved = if ack == d.s.tcb.snd.nxt then tcphalt t d.priv.tl else tcpgo t d.priv.tl in
    moved >>= λ tl. some (on_tcb (advance_una ack) (with_timers d tl))

-- An acknowledgement of something new. The first is that of the SYN.
unfoldable pub new_ack : Tcp → Held → Option Held
new_ack seg h =
    let e = on_tcb (end_recovery seg) h in
    let acked = sub32 seg.ack e.s.tcb.snd.una in
    let syn =
      on_tcb (λ tcb. record tcb { flags = set_bit synack tcb.flags; flgcnt = tcb.flgcnt - 1 }) e in
    if has_bit synack e.s.tcb.flags
    then time_trip seg (on_tcb (grow acked) e) >>= settle_ack seg.ack acked
    else settle_ack seg.ack (sub32 acked 1) syn

-- From the update of the window on.
unfoldable pub update_rest : Tcp → Held → Option Held
update_rest seg h =
    let w = on_tcb (update_window seg) h in
    if seq_gt seg.ack w.s.tcb.snd.una then new_ack seg w else some (on_tcb stay_alive w)

-- `resends` is the state at the call of tcpoutput; update_rest is what follows that call.
pub data Updated : Type 0 where
  updated : Option Held → Updated
  resends : Held → Updated

unfoldable pub update : Tcp → Held → Updated
update seg h =
    let d = on_tcb count_duplicate h in
    if seq_gt seg.ack h.s.tcb.snd.nxt
    then updated (some (on_tcb (λ tcb. record tcb { flags = set_bit force tcb.flags }) h))
    else if is_duplicate seg h.s.tcb
    then if d.s.tcb.snd.dupacks == 3
      then resends (on_tcb tcprxmit d)
      else updated (update_rest seg d)
    else updated (update_rest seg h)
