-- ===== src/Tcp/Output/Sent.antt =====
-- What tcpoutput sends lies in the window that the other side offers, and is what comes next.
use nix_mark_iv.Qio.Control.{qlen}
use nix_mark_iv.Prelude.{
  subst, sym, ℕ, ◌+◌, ◌-◌, ◌^◌, ◌≤◌, ◌<◌, ◌≡◌, ◌⊎◌, inl, inr, refl, ap, ◌∙◌, min, true, false, ◌==◌,
  Bool-cases, arith,
}
use nix_mark_iv.Block.{Allocator}
use nix_mark_iv.Qio.{Queue}
use nix_mark_iv.Tcp.{clear_bit, Tcpctl, has_bit, sub32, force, synack}
use nix_mark_iv.Tcp.Sequence.{at, sub32-at_ahead}
use nix_mark_iv.Tcp.Output.{
  tcprcvwin, open_up, segment_size, Round, compose, tcpoutput_round, send_round, plan, idle, waits,
}
use nix_mark_iv.Tcp.Output.Sizes.{usable-limit, segment_size-min}
use nix_mark_iv.Tcp.Output.Segment.{
  Sent, is_open, next_size, compose-Sent, plain, open_up-same, plan-plain, round-send_round,
}

-- Nothing is sent, as there is nothing to send or no window for it.
abbrev pub Idles : ℕ → ℕ → Tcpctl → Round → Type 0
Idles size sent tcb r = (r ≡ idle (open_up tcb)) × ((size ≡ 0) ⊎ ((tcb.snd.wnd ≡ 0) × (0 < sent)))

-- The state in which the segment is composed.
abbrev ready : Queue → Tcpctl → Tcpctl
ready rq t =
    let u = tcprcvwin rq (record t { flags = clear_bit force t.flags }) in
    record u { rcv = record u.rcv { una = 0 } }

module _ (a : Allocator) (lport rport : ℕ) (wq rq : Queue) (tcb : Tcpctl) (sent : ℕ)
    (d : sub32 tcb.snd.ptr tcb.snd.una ≡ sent) where
  send_idle :
      waits (open_up tcb) (qlen wq + tcb.flgcnt) sent ≡ true
      → send_round a lport rport wq rq tcb ≡ idle (open_up tcb)
  unfolding send_round
  send_idle w = rw (d, w) refl

  send_sends :
      waits (open_up tcb) (qlen wq + tcb.flgcnt) sent ≡ false
      → send_round a lport rport wq rq tcb
        ≡ compose a lport rport wq
            (qlen wq + tcb.flgcnt)
            sent
            (ready rq (open_up tcb))
            (plan (ready rq (open_up tcb)) (segment_size (open_up tcb) (qlen wq + tcb.flgcnt) sent))
  unfolding send_round
  send_sends w = rw (d, w) refl

waits_why :
    (tcb : Tcpctl) (sndcnt sent : ℕ)
    → has_bit synack tcb.flags ≡ true
    → waits tcb sndcnt sent ≡ true
    → (segment_size tcb sndcnt sent ≡ 0) ⊎ ((tcb.snd.wnd ≡ 0) × (0 < sent))
unfolding waits
waits_why tcb sndcnt sent h w = elim (Bool-cases (segment_size tcb sndcnt sent == 0)) [
  | inl nothing ↦ inl (ground arith)
  | inr more ↦ inr (ground arith)
]

Sent-tcb :
    {b u p n size : ℕ} {wq : Queue} {t tcb : Tcpctl} {r : Round}
    → t.snd.una ≡ tcb.snd.una
    → t.rcv.nxt ≡ tcb.rcv.nxt
    → Sent b u p n size wq t r
    → Sent b u p n size wq tcb r
Sent-tcb eu en s = record {
  after = s.after;
  seg = s.seg;
  bp = s.bp;
  is = s.is;
  moved = (let (x, y, z) = s.moved in (x, y, z ∙ eu));
  seq = s.seq;
  ack = s.ack ∙ en;
  payload = s.payload;
  fin = s.fin;
}

module _ (a : Allocator) (lport rport b u p n : ℕ) (wq rq : Queue) (tcb : Tcpctl)
    (eu : tcb.snd.una ≡ at b u) (ep : tcb.snd.ptr ≡ at b p) (en : tcb.snd.nxt ≡ at b n) (h : u ≤ p)
    (k : p ≤ n) (m : n < p + 2 ^ 30) (all : p - u ≤ qlen wq + tcb.flgcnt)
    (few : qlen wq + tcb.flgcnt < 2 ^ 30) (acked : has_bit synack tcb.flags ≡ true) where
  abbrev size : ℕ
  size = next_size tcb (qlen wq + tcb.flgcnt) (p - u)

  send_round_lem :
      is_open tcb.state ≡ true
      → Idles size (p - u) tcb (send_round a lport rport wq rq tcb)
        ⊎ Sent b u p n size wq tcb (send_round a lport rport wq rq tcb)
  unfolding tcprcvwin
  send_round_lem open_state =
      let (blocked, flags, e, ha) = open_up-same tcb in
      let t = open_up tcb in
      let snd : t.snd ≡ tcb.snd = ap (λ x. x.snd) e in
      let has : has_bit synack t.flags ≡ true = ap (λ x. has_bit synack x.flags) e ∙ ha ∙ acked in
      let d : sub32 tcb.snd.ptr tcb.snd.una ≡ p - u =
        rw (eu, ep) (sub32-at_ahead b p u h (omega arith)) in
      let sndcnt = qlen wq + tcb.flgcnt in
      let g : segment_size t sndcnt (p - u) ≡ size = rw e (
        segment_size-min (record tcb { rcv = record tcb.rcv { blocked = blocked }; flags = flags })
          sndcnt (p - u) all (omega arith)
        ∙ ap (λ x. min tcb.mss (min x (sndcnt - (p - u))))
            (usable-limit (record tcb { rcv = record tcb.rcv { blocked = blocked }; flags = flags })
              (p - u))) in
      elim (Bool-cases (waits t sndcnt (p - u))) [
        | inl waiting ↦ inl (
          send_idle a lport rport wq rq tcb (p - u) d waiting,
          elim (waits_why t sndcnt (p - u) has waiting) [
            | inl nothing ↦ inl (sym g ∙ nothing)
            | inr (shut, some_sent) ↦ inr (sym (ap (λ x. x.wnd) snd) ∙ shut, some_sent)
          ],
        )
        | inr sending ↦ inr (
            let q : plan (ready rq t) (segment_size t sndcnt (p - u)) ≡ plain size =
              ap (plan (ready rq t)) g
              ∙ plan-plain tcb.state (ready rq t) size (ap (λ x. x.state) e) open_state in
            let c =
              compose-Sent a lport rport b u p n size sndcnt wq (ready rq t)
                (ap (λ x. x.ptr) snd ∙ ep) (ap (λ x. x.nxt) snd ∙ en) h k m (omega arith) in
            Sent-tcb (ap (λ x. x.una) snd) (ap (λ x. x.rcv.nxt) e) (
              subst (Sent b u p n size wq (ready rq t))
                (sym (
                  send_sends a lport rport wq rq tcb (p - u) d sending
                  ∙ ap (compose a lport rport wq sndcnt (p - u) (ready rq t)) q))
                c))
      ]

  -- Where data may flow and the SYN is acknowledged, with the places u, p and n for what is not
  -- acknowledged, what is to be sent and what is new, a round of tcpoutput sends the next segment: as
  -- many places as the largest segment, the window and the queue allow, from place p on, with the
  -- data that follows in the queue, and with FIN exactly if it takes a place behind the data; the
  -- pointers move on by as many. It sends nothing only if that is none, or into a closed window.
  pub tcpoutput_round_lem :
      is_open tcb.state ≡ true
      → Idles size (p - u) tcb (tcpoutput_round a lport rport wq rq tcb)
        ⊎ Sent b u p n size wq tcb (tcpoutput_round a lport rport wq rq tcb)
  tcpoutput_round_lem open_state =
      rw (round-send_round a lport rport wq rq tcb.state tcb refl open_state)
        (send_round_lem open_state)
