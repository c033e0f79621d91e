-- ===== src/Tests/Segments.antt =====
-- Segments of TCP at places where the sequence numbers wrap.
use nix_mark_iv.Tcp.Timeout.Limit.{IsSettled, timeouts, gives_up}
use nix_mark_iv.Tcp.Ack.Growth.{grow_lem}
use nix_mark_iv.Tcp.Ack.Acked.{Acked, update_lem}
use nix_mark_iv.Tcp.Ack.{update, updated, grow}
use nix_mark_iv.Tcp.States.Close.{Hung, tcpclose_lem}
use nix_mark_iv.Tcp.States.Halt.{Halted}
use nix_mark_iv.Tcp.States.Rest.{AtRest, localclose-AtRest}
use nix_mark_iv.Tcp.States.{Held, connected, localclose, tcpclose, Ending}
use nix_mark_iv.Qio.{unset}
use nix_mark_iv.Tcp.Tcptimers.Called.{Round, tcpack_round_lem}
use nix_mark_iv.Tcp.Tcptimers.Linked.{Linked}
use nix_mark_iv.Tcp.Tcptimers.{Timers, on, off, is_chained, tcpack_round}
use nix_mark_iv.Qio.Control.{qlen}
use nix_mark_iv.Tcp.Output.Sent.{Idles, tcpoutput_round_lem}
use nix_mark_iv.Tcp.Output.Segment.{Sent}
use nix_mark_iv.Tcp.Output.{tcpoutput_round}
use nix_mark_iv.Tcp.Header.Wire.{on_wire, ntohtcp4-htontcp4}
use nix_mark_iv.Tcp.Header.{Tcp4hdr, options, htontcp4, ntohtcp4, parsed}
use nix_mark_iv.Tcp.Resequence.Order.{Enqueued, addreseq_lem}
use nix_mark_iv.Tcp.Resequence.{addreseq}
use nix_mark_iv.Tests.{zeroed, two_blocks}
use nix_mark_iv.Prelude.{
  inr, List, ℕ, ◌≡◌, ◌⊎◌, refl, inl, true, false, [], ◌∷◌, arith, drop, none, some, ◌*◌, ◌^◌, ◌+◌,
  ◌==◌, if◌then◌else◌, Bool-cases,
}
use nix_mark_iv.Block.{Block, contents}
use nix_mark_iv.Tcp.{Tcp, Tcpctl, established, seq_lt, seq_le, seq_gt, seq_ge, Reseq}
use nix_mark_iv.Tcp.Sequence.{at, seq-at}
use nix_mark_iv.Tcp.Window.{tcptrim, refused}
use nix_mark_iv.Tcp.Trim.{Trims, tcptrim_lem}

abbrev start : ℕ
start = 4294966290

abbrev seg_at : ℕ → ℕ → Tcp
seg_at flags p = record {
  source = 1;
  dest = 2;
  seq = at start p;
  ack = 0;
  flags = flags;
  ws = 0;
  wnd = 100;
  urg = 0;
  mss = 0;
  len = 0;
}

abbrev tcb_at : ℕ → ℕ → Tcpctl
tcb_at n w = record {
  state = established;
  flags = 0;
  snd = record {
    una = 0;
    nxt = 0;
    ptr = 0;
    wnd = 0;
    urg = 0;
    wl2 = 0;
    scale = 0;
    dupacks = 0;
    recovery = false;
    rxt = 0;
  };
  rcv = record { nxt = at start n; wnd = w; urg = 0; blocked = false; una = 0; scale = 0 };
  iss = 0;
  irs = 0;
  cwind = 1460;
  scale = 0;
  resent = 0;
  ssthresh = 65535;
  mss = 1460;
  rerecv = 0;
  window = 65535;
  backoff = 0;
  backedoff = 0;
  reseq = [];
  rttseq = 0;
  srtt = 4000;
  mdev = 0;
  flgcnt = 0;
}

abbrev data_block : Block
data_block = record { hdr = []; bytes = 1 ∷ 2 ∷ 3 ∷ 4 ∷ 5 ∷ []; room = 0; intr = false }

seq-at_example :
    (seq_lt (at start 1000) (at start 1010) ≡ true)
    × (seq_le (at start 1000) (at start 1010) ≡ true)
    × (seq_gt (at start 1000) (at start 1010) ≡ false)
    × (seq_ge (at start 1000) (at start 1010) ≡ false)
seq-at_example = seq-at start 1000 1010 (omega arith) (omega arith)

tcptrim_lem_example :
    ((true ≡ true)
      × Trims start 1005 2 1003
          (1 ∷ 2 ∷ 3 ∷ 4 ∷ 5 ∷ [])
          (seg_at 17 1003)
          (tcptrim (tcb_at 1005 2) (seg_at 17 1003) (data_block ∷ []) 5))
    ⊎ ((true ≡ false) × (tcptrim (tcb_at 1005 2) (seg_at 17 1003) (data_block ∷ []) 5 ≡ refused))
tcptrim_lem_example =
    tcptrim_lem start 1005 2 1003 (tcb_at 1005 2) (seg_at 17 1003) (data_block ∷ []) refl refl refl
      (omega arith) (omega arith) (omega arith) (omega arith) (inl refl) (omega arith)

abbrev late : Reseq
late = record { seg = seg_at 16 1030; bp = data_block ∷ []; length = 5 }

abbrev waiting : Tcpctl
waiting = record (tcb_at 1005 100) { reseq = late ∷ [] }

addreseq_lem_example :
    Enqueued
      (at start 1005)
      (record { seg = seg_at 16 1010; bp = data_block ∷ []; length = 5 })
      (late ∷ [])
      (65535 * 2 ^ 0)
      (addreseq true waiting (seg_at 16 1010) (data_block ∷ []) 5)
addreseq_lem_example =
    addreseq_lem (at start 1005) waiting (seg_at 16 1010) (data_block ∷ []) 5 (omega arith)
      (omega arith, omega arith) ((omega arith, omega arith), tt, tt)

abbrev prototype : Tcp4hdr
prototype = record {
  vihl = 0x45;
  tos = 0;
  length = 53;
  id = 1;
  frag = 0;
  unused = 255;
  proto = 6;
  tcplen = 0;
  tcpsrc = 1000;
  tcpdst = 2000;
  tcpsport = 80;
  tcpdport = 8080;
  tcpseq = 0;
  tcpack = 0;
  tcpflag = 0;
  tcpwin = 0;
  tcpcksum = 0;
  tcpurg = 0;
}

abbrev syn_seg : Tcp
syn_seg = record (seg_at 2 1000) { mss = 1460; ws = 256 + 3 }

ntohtcp4-htontcp4_example :
    (b : Block) × (next : List Block) × (htontcp4 zeroed true
        (λ c i. false)
        syn_seg
        (data_block ∷ [])
        prototype
        none
      ≡ some (b ∷ next))
    × (ntohtcp4 zeroed b next ≡ parsed 28 (on_wire syn_seg prototype 0) (b ∷ next))
    × (drop 48 (contents (b ∷ next)) ≡ 1 ∷ 2 ∷ 3 ∷ 4 ∷ 5 ∷ [])
unfolding options
ntohtcp4-htontcp4_example =
    ntohtcp4-htontcp4 zeroed true (λ c i. false) syn_seg (data_block ∷ []) prototype none
      record {
        seq = omega arith;
        ack = omega arith;
        flags = omega arith;
        urg = omega arith;
        wnd = omega arith;
        mss = omega arith;
        ws = inr (omega arith, omega arith);
        source = omega arith;
        dest = omega arith;
        total = omega arith;
      }
      (inr refl)

-- Three of five bytes sent, one of them acknowledged.
abbrev sender : Tcpctl
sender = record (tcb_at 500 100) {
  flags = 16;
  snd = record {
    una = at start 999;
    ptr = at start 1002;
    nxt = at start 1002;
    wnd = 4;
    urg = 0;
    wl2 = 0;
    scale = 0;
    dupacks = 0;
    recovery = false;
    rxt = 0;
  };
}

tcpoutput_round_lem_example :
    Idles 1 3 sender (tcpoutput_round zeroed 1 2 two_blocks two_blocks sender)
    ⊎ Sent start 999 1002 1002 1 two_blocks sender
        (tcpoutput_round zeroed 1 2 two_blocks two_blocks sender)
unfolding qlen
tcpoutput_round_lem_example =
    tcpoutput_round_lem zeroed 1 2 start 999 1002 1002 two_blocks two_blocks sender refl refl refl
      (omega arith) (omega arith) (omega arith) (omega arith) (omega arith) refl refl

-- Timer 7 has one tick left.
abbrev one_timer : Timers
one_timer = record {
  at = λ t.
      if t == 7
      then record { power = on; start = 5; count = 1 }
      else record { power = off; start = 2; count = 0 };
  timers = 7 ∷ [];
}

one_timer-Linked : Linked one_timer
unfolding is_chained
one_timer-Linked = record {
  unique = (refl, tt);
  agree = λ t. elim (Bool-cases (t == 7)) [ inl here ↦ rw here refl | inr there ↦ rw there refl ];
  counts = λ t. elim (Bool-cases (t == 7)) [
    | inl here ↦ rw here (inr (omega arith))
    | inr there ↦ rw there (inl refl)
  ];
  small = λ t. elim (Bool-cases (t == 7)) [
    | inl here ↦ rw here (omega arith, omega arith)
    | inr there ↦ rw there (omega arith, omega arith)
  ];
}

tcpack_round_lem_example :
    Round
      (λ t. true)
      (λ u. true)
      (λ u. false)
      one_timer
      (tcpack_round (λ t. true) (λ t p. p) one_timer)
tcpack_round_lem_example =
    tcpack_round_lem (λ t. true) (λ u. true) (λ u. false) (λ t p. p) one_timer (λ u t q s n d. d)
      (λ u t q s n. absurd (cc s)) one_timer-Linked (omega arith)

-- An established conversation with timer 7, one of five that are established.
abbrev in_use : Held
in_use = record {
  s = record {
    conv = record { ident = 1; laddr = []; lport = 80; raddr = []; rport = 9 };
    state = connected;
    cerr = [];
    tcb = waiting;
    rq = two_blocks;
    wq = two_blocks;
    eq = two_blocks;
  };
  priv = record { ht = λ i. []; tl = one_timer; curr_estab = 5 };
  freed = [];
  woken = [];
}

localclose-AtRest_example :
    (c : Held) × (localclose unset in_use ≡ some c) × AtRest 4 c × Halted 1 c.priv.tl
localclose-AtRest_example = localclose-AtRest 4 unset in_use one_timer-Linked (omega arith)

tcpclose_lem_example : (c : Held) × (o : Ending) × (tcpclose in_use ≡ some (c, o)) × Hung 4 in_use c
tcpclose_lem_example = tcpclose_lem 4 in_use one_timer-Linked (omega arith)

-- Two of the three bytes that were sent are acknowledged.
abbrev sending : Held
sending = record in_use { s = record in_use.s { tcb = sender } }

abbrev two_more : Tcp
two_more = record (seg_at 16 1010) { ack = at start 1001 }

update_lem_example :
    (c : Held) × (update two_more sending ≡ updated (some c))
    × Acked start 1002 1002 1001 2 sending c
update_lem_example =
    update_lem start 999 1002 1002 1001 two_more sending (omega arith) (omega arith) (omega arith)
      (omega arith) (omega arith) one_timer-Linked refl refl refl refl

-- In slow start, with room for more than the bytes acknowledged.
abbrev opened : Tcpctl
opened = record sender { snd = record sender.snd { wnd = 65535 } }

grow_lem_example : (grow 100 opened).cwind ≡ 1560
grow_lem_example = grow_lem 100 opened (omega arith) (omega arith) (omega arith)

-- A conversation whose timer is started with a second.
abbrev slow : Held
slow = record sending {
  priv = record sending.priv {
    tl = record one_timer { at = λ t. record { power = on; start = 20; count = 3 } };
  };
}

gives_up_example : IsSettled (timeouts (λ c. c) 1080 slow)
gives_up_example = gives_up (λ c. c) (λ c. refl) (λ c. refl) slow (omega arith) (omega arith)
