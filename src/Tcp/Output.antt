-- ===== src/Tcp/Output.antt =====
-- One round of tcpoutput of ip/tcp.c, up to the segment that it sends and the state it leaves: what is
-- sent of the queue wq, where rq is the queue of what was received. Timers, and the packet that
-- htontcp4 or htontcp6 makes of the segment, come after it.
pub mod Sizes
pub mod Segment
pub mod Sent
use nix_mark_iv.Prelude.{
  ℕ, ◌+◌, ◌-◌, ◌%◌, ◌^◌, min, Bool, true, false, not, ◌&&◌, ◌||◌, Option, none, some, List, [], ◌∷◌,
  ltb, leb, ◌==◌, if◌then◌else◌,
}
use nix_mark_iv.Block.{Block, Allocator, blen}
use nix_mark_iv.Qio.{Queue}
use nix_mark_iv.Qio.Control.{qlen}
use nix_mark_iv.Qio.Interrupt.{qcopy}
use nix_mark_iv.Tcp.{
  Tcp, Tcpctl, State, listen, closed, finwait2, syn_sent, syn_received, has_bit, clear_bit, set_bit,
  sub32, add32, seq_lt, seq_gt, force, synack, ack_bit, syn_bit, fin_bit, psh_bit,
}

-- The receive window; nothing is received until it opens again, if there is none.
unfoldable pub tcprcvwin : Queue → Tcpctl → Tcpctl
tcprcvwin rq tcb =
    let w = tcb.window - qlen rq in
    record tcb { rcv = record tcb.rcv { wnd = w; blocked = tcb.rcv.blocked || w == 0 } }

-- A window that has opened up forces an acknowledgement.
unfoldable pub open_up : Tcpctl → Tcpctl
open_up tcb =
    if tcb.rcv.blocked && ltb 0 tcb.rcv.wnd
    then record tcb { rcv = record tcb.rcv { blocked = false }; flags = set_bit force tcb.flags }
    else tcb

-- How much may be sent beyond what was sent.
unfoldable pub usable : Tcpctl → ℕ → ℕ
usable tcb sent =
    if tcb.snd.wnd == 0
    then 1
    else (if ltb tcb.snd.wnd tcb.cwind then tcb.snd.wnd else tcb.cwind) - sent

unfoldable pub segment_size : Tcpctl → ℕ → ℕ → ℕ
segment_size tcb sndcnt sent =
    let ssize = sub32 sndcnt sent in
    let ssize = if ltb (usable tcb sent) ssize then usable tcb sent else ssize in
    if ltb tcb.mss ssize then tcb.mss else ssize

-- The tests that end the loop before anything is sent.
unfoldable pub waits : Tcpctl → ℕ → ℕ → Bool
waits tcb sndcnt sent =
    (not (tcb.snd.ptr == tcb.iss) && not (has_bit synack tcb.flags))
    || (tcb.snd.wnd == 0 && (not (sent == 0) && not (has_bit force tcb.flags)))
    || (segment_size tcb sndcnt sent == 0 && not (has_bit force tcb.flags))

-- The flags of the segment, the data that it asks for, the places it takes, and its options.
pub record Plan : Type 0 where
  pub flags : ℕ
  pub dsize : ℕ
  pub ssize : ℕ
  pub mss : ℕ
  pub ws : ℕ

unfoldable pub plan : Tcpctl → ℕ → Plan
plan tcb ssize = elim tcb.state [
  | syn_sent ↦
      if tcb.snd.ptr == tcb.iss
      then record {
        flags = syn_bit;
        dsize = sub32 ssize 1;
        ssize = ssize;
        mss = tcb.mss;
        ws = tcb.scale;
      }
      else record { flags = 0; dsize = ssize; ssize = ssize; mss = 0; ws = 0 }
  | syn_received ↦
      if tcb.snd.ptr == tcb.iss
      then record { flags = ack_bit + syn_bit; dsize = 0; ssize = 1; mss = tcb.mss; ws = tcb.scale }
      else record { flags = ack_bit; dsize = ssize; ssize = ssize; mss = 0; ws = 0 }
  | _ ↦ record { flags = ack_bit; dsize = ssize; ssize = ssize; mss = 0; ws = 0 }
]

-- The places that the segment takes were sent: the counter of what was sent again, and the pointers.
unfoldable pub sent_on : ℕ → Tcpctl → Tcpctl
sent_on ssize tcb =
    let n = sub32 tcb.snd.nxt tcb.snd.ptr in
    let again = if seq_lt tcb.snd.ptr tcb.snd.nxt then if ltb ssize n then ssize else n else 0 in
    let ptr = add32 tcb.snd.ptr ssize in
    record tcb {
      resent = add32 tcb.resent again;
      snd = record tcb.snd { ptr = ptr; nxt = if seq_gt ptr tcb.snd.nxt then ptr else tcb.snd.nxt };
    }

-- Nothing is sent, or a segment with a block of data or none.
pub data Round : Type 0 where
  idle : Tcpctl → Round
  sends : Tcpctl → Tcp → List Block → Round

unfoldable pub compose : Allocator → ℕ → ℕ → Queue → ℕ → ℕ → Tcpctl → Plan → Round
compose a lport rport wq sndcnt sent tcb p =
    let bp = if p.dsize == 0 then [] else qcopy a wq p.dsize sent ∷ [] in
    let short = not (p.dsize == 0) && not (blen (qcopy a wq p.dsize sent) == p.dsize) in
    let dsize = if short then p.dsize - 1 else p.dsize in
    let flags = if short then set_bit fin_bit p.flags else p.flags in
    sends (sent_on p.ssize tcb)
      record {
        source = lport;
        dest = rport;
        seq = tcb.snd.ptr;
        ack = tcb.rcv.nxt;
        flags = if add32 sent dsize == sndcnt then set_bit psh_bit flags else flags;
        ws = p.ws;
        wnd = tcb.rcv.wnd;
        urg = 0;
        mss = p.mss;
        len = 0;
      }
      bp

unfoldable pub send_round : Allocator → ℕ → ℕ → Queue → Queue → Tcpctl → Round
send_round a lport rport wq rq tcb =
    let sndcnt = qlen wq + tcb.flgcnt in
    let sent = sub32 tcb.snd.ptr tcb.snd.una in
    let t = open_up tcb in
    let u = tcprcvwin rq (record t { flags = clear_bit force t.flags }) in
    let u = record u { rcv = record u.rcv { una = 0 } } in
    if waits t sndcnt sent
    then idle t
    else compose a lport rport wq sndcnt sent u (plan u (segment_size t sndcnt sent))

unfoldable pub tcpoutput_round : Allocator → ℕ → ℕ → Queue → Queue → Tcpctl → Round
tcpoutput_round a lport rport wq rq tcb = elim tcb.state [
  | listen ↦ idle tcb
  | closed ↦ idle tcb
  | finwait2 ↦ idle tcb
  | _ ↦ send_round a lport rport wq rq tcb
]
