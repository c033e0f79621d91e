-- ===== src/Tcp/Output/Segment.antt =====
-- The segment that a round of tcpoutput composes.
use nix_mark_iv.Prelude.{
  ℕ, ◌+◌, ◌-◌, ◌^◌, ◌≤◌, ◌<◌, ◌≡◌, ◌⊎◌, inl, inr, refl, ap, ◌∙◌, min, Bool, true, false, not, ◌&&◌,
  List, [], ◌∷◌, length, take, drop, ltb, ◌==◌, if◌then◌else◌, Bool-cases, arith, length-take,
  length-drop, append-nil,
}
use nix_mark_iv.Block.{Block, Allocator, blen, contents}
use nix_mark_iv.Qio.{Queue}
use nix_mark_iv.Qio.Stream.{stream}
use nix_mark_iv.Qio.Interrupt.{qcopy}
use nix_mark_iv.Qio.Feed.{qcopy_lem}
use nix_mark_iv.Tcp.{
  Tcp, Tcpctl, has_bit, set_bit, force, synack, ack_bit, fin_bit, psh_bit, State, established,
  finwait1, close_wait, closing, last_ack, time_wait, closed, listen, syn_sent, syn_received,
  finwait2,
}
use nix_mark_iv.Tcp.Sequence.{at}
use nix_mark_iv.Tcp.Output.{
  open_up, Plan, sent_on, Round, sends, compose, tcpoutput_round, send_round, plan,
}
use nix_mark_iv.Tcp.Output.Sizes.{limit, Moved, sent_on-Moved}

-- A segment of `size` places from place p on, and the state behind it: what the window allows, the
-- data that comes next in the queue, and FIN exactly if it takes a place behind the data.
pub record Sent (b u p n size : ℕ) (wq : Queue) (tcb : Tcpctl) (r : Round) : Type 0 where
  pub after : Tcpctl
  pub seg : Tcp
  pub bp : List Block
  pub is : r ≡ sends after seg bp
  pub moved : Moved b p n size tcb after
  pub seq : seg.seq ≡ at b p
  pub ack : seg.ack ≡ tcb.rcv.nxt
  pub payload : contents bp ≡ take size (drop (p - u) (stream wq))
  pub fin : has_bit fin_bit seg.flags ≡ ltb 0 size && ltb (length (stream wq)) (p - u + size)

abbrev pub plain : ℕ → Plan
plain size = record { flags = ack_bit; dsize = size; ssize = size; mss = 0; ws = 0 }

fin_flag :
    (short push : Bool)
    → has_bit fin_bit (
        let flags = if short then set_bit fin_bit ack_bit else ack_bit in
        if push then set_bit psh_bit flags else flags)
      ≡ short
fin_flag true true = refl
fin_flag true false = refl
fin_flag false true = refl
fin_flag false false = refl

pub compose-Sent :
    (a : Allocator) (lport rport b u p n size sndcnt : ℕ) (wq : Queue) (tcb : Tcpctl)
    → tcb.snd.ptr ≡ at b p
    → tcb.snd.nxt ≡ at b n
    → u ≤ p
    → p ≤ n
    → n < p + 2 ^ 30
    → size < 2 ^ 30
    → Sent b u p n size wq tcb (compose a lport rport wq sndcnt (p - u) tcb (plain size))
unfolding compose
compose-Sent a lport rport b u p n size sndcnt wq tcb ep en h k m s =
    let c = qcopy_lem a wq size (p - u) in
    let l : blen (qcopy a wq size (p - u)) ≡ min size (length (stream wq) - (p - u)) = omega (
      arith,
      ap length c,
      length-take size (drop (p - u) (stream wq)),
      length-drop (p - u) (stream wq),
    ) in
    record {
      after = sent_on size tcb;
      seg = _;
      bp = _;
      is = refl;
      moved = sent_on-Moved b p n size tcb ep en k m s;
      seq = ep;
      ack = refl;
      payload = pay (Bool-cases (size == 0)) c;
      fin =
          fin_flag (not (size == 0) && not (blen (qcopy a wq size (p - u)) == size)) _
          ∙ rw l (ground arith);
    }
  where
    pay :
        ((size == 0) ≡ true) ⊎ ((size == 0) ≡ false)
        → (qcopy a wq size (p - u)).bytes ≡ take size (drop (p - u) (stream wq))
        → contents (if size == 0 then [] else qcopy a wq size (p - u) ∷ [])
          ≡ take size (drop (p - u) (stream wq))
    pay (inl nothing) c = let z : size ≡ 0 = ground arith in rw z refl
    pay (inr more) c = rw more (append-nil (qcopy a wq size (p - u)).bytes ∙ c)

pub open_up-same :
    (tcb : Tcpctl)
    → (blocked : Bool) × (flags : ℕ) × (open_up tcb
        ≡ record tcb { rcv = record tcb.rcv { blocked = blocked }; flags = flags })
      × (has_bit synack flags ≡ has_bit synack tcb.flags)
unfolding open_up
open_up-same tcb = elim (Bool-cases (tcb.rcv.blocked && ltb 0 tcb.rcv.wnd)) [
  | inl opens ↦ rw opens (false, set_bit force tcb.flags, refl, ground arith)
  | inr not_now ↦ rw not_now (tcb.rcv.blocked, tcb.flags, refl, refl)
]

-- The states in which data may flow.
abbrev pub is_open : State → Bool
is_open established = true
is_open finwait1 = true
is_open close_wait = true
is_open closing = true
is_open last_ack = true
is_open time_wait = true
is_open s = false

-- The least of the largest segment, what the window leaves, and what there is to send.
abbrev pub next_size : Tcpctl → ℕ → ℕ → ℕ
next_size tcb sndcnt sent = min tcb.mss (min (limit tcb sent - sent) (sndcnt - sent))

pub plan-plain :
    (s : State) (tcb : Tcpctl) (size : ℕ)
    → tcb.state ≡ s
    → is_open s ≡ true
    → plan tcb size ≡ plain size
unfolding plan
plan-plain established tcb size e h = rw e refl
plan-plain finwait1 tcb size e h = rw e refl
plan-plain close_wait tcb size e h = rw e refl
plan-plain closing tcb size e h = rw e refl
plan-plain last_ack tcb size e h = rw e refl
plan-plain time_wait tcb size e h = rw e refl
plan-plain closed tcb size e h = absurd (ground arith)
plan-plain listen tcb size e h = absurd (ground arith)
plan-plain syn_sent tcb size e h = absurd (ground arith)
plan-plain syn_received tcb size e h = absurd (ground arith)
plan-plain finwait2 tcb size e h = absurd (ground arith)

pub round-send_round :
    (a : Allocator) (lport rport : ℕ) (wq rq : Queue) (s : State) (tcb : Tcpctl)
    → tcb.state ≡ s
    → is_open s ≡ true
    → tcpoutput_round a lport rport wq rq tcb ≡ send_round a lport rport wq rq tcb
unfolding tcpoutput_round
round-send_round a lport rport wq rq established tcb e h = rw e refl
round-send_round a lport rport wq rq finwait1 tcb e h = rw e refl
round-send_round a lport rport wq rq close_wait tcb e h = rw e refl
round-send_round a lport rport wq rq closing tcb e h = rw e refl
round-send_round a lport rport wq rq last_ack tcb e h = rw e refl
round-send_round a lport rport wq rq time_wait tcb e h = rw e refl
round-send_round a lport rport wq rq closed tcb e h = absurd (ground arith)
round-send_round a lport rport wq rq listen tcb e h = absurd (ground arith)
round-send_round a lport rport wq rq syn_sent tcb e h = absurd (ground arith)
round-send_round a lport rport wq rq syn_received tcb e h = absurd (ground arith)
round-send_round a lport rport wq rq finwait2 tcb e h = absurd (ground arith)
