-- ===== src/Tcp/States.antt =====
-- How a connection of TCP changes its state, apart from what segments do to it: tcpsetstate,
-- localclose, tcpclose, tcpkick and tcpacktimer of ip/tcp.c, and Fsconnected of ip/devip.c. A routine
-- takes the conversation with the shared part of the protocol, and is run under the locks of both.
-- Freed blocks and wakeups are listed in order. A reason of nil is `unset`. Where a call of tcpoutput
-- ends the routine, the result says so instead.
pub mod Count
pub mod Halt
pub mod Rest
pub mod Close
use nix_mark_iv.Prelude.{
  ℕ, ◌+◌, ◌-◌, ◌*◌, Bool, true, false, not, ◌&&◌, ◌||◌, Option, none, some, List, [], ◌∷◌, ◌++◌,
  map, take, ◌==◌, if◌then◌else◌, ◌>>=◌, ◌%◌, ◌^◌,
}
use nix_mark_iv.Block.{Block}
use nix_mark_iv.Ipht.{Ipht, Conv, iphtrem}
use nix_mark_iv.Qio.{Queue, Signal, Err, unset, text}
use nix_mark_iv.Qio.Control.{qclose, qhangup, qflush}
use nix_mark_iv.Tcp.{
  Tcpctl, Reseq, State, closed, listen, syn_sent, syn_received, established, finwait1, finwait2,
  close_wait, closing, last_ack, time_wait, sub32, add32, set_bit, force,
}
use nix_mark_iv.Tcp.Tcptimers.{Timers, tcphalt}
use nix_mark_iv.Tcp.Output.{tcprcvwin}

-- The state of a conversation for the protocol switch.
pub data ConvState : Type 0 where
  idle_conv : ConvState
  announcing : ConvState
  announced : ConvState
  connecting : ConvState
  connected : ConvState

pub data Wake : Type 0 where
  wake_cr : Wake
  wake_listenr : Wake
  wake_rq : Signal → Wake
  wake_wq : Signal → Wake
  wake_eq : Signal → Wake

-- A Conv of TCP, with its Tcpctl.
pub record TcpConv : Type 0 where
  pub conv : Conv
  pub state : ConvState
  pub cerr : List ℕ
  pub tcb : Tcpctl
  pub rq : Queue
  pub wq : Queue
  pub eq : Queue

-- The part that the conversations share, with the count of those that are established.
pub record Tcppriv : Type 0 where
  pub ht : Ipht
  pub tl : Timers
  pub curr_estab : ℕ

pub record Held : Type 0 where
  pub s : TcpConv
  pub priv : Tcppriv
  pub freed : List Block
  pub woken : List Wake

abbrev pub state_number : State → ℕ
state_number closed = 0
state_number listen = 1
state_number syn_sent = 2
state_number syn_received = 3
state_number established = 4
state_number finwait1 = 5
state_number finwait2 = 6
state_number close_wait = 7
state_number closing = 8
state_number last_ack = 9
state_number time_wait = 10

abbrev pub is_state : State → State → Bool
is_state a b = state_number a == state_number b

-- The operations on the queues.
unfoldable pub hangup_rq : Err → Held → Held
hangup_rq msg h =
    let r = qhangup h.s.rq msg in
    record h {
      s = record h.s { rq = r.queue };
      freed = h.freed ++ r.freed;
      woken = h.woken ++ map wake_rq r.signals;
    }

unfoldable pub hangup_wq : Err → Held → Held
hangup_wq msg h =
    let r = qhangup h.s.wq msg in
    record h {
      s = record h.s { wq = r.queue };
      freed = h.freed ++ r.freed;
      woken = h.woken ++ map wake_wq r.signals;
    }

unfoldable pub hangup_eq : Err → Held → Held
hangup_eq msg h =
    let r = qhangup h.s.eq msg in
    record h {
      s = record h.s { eq = r.queue };
      freed = h.freed ++ r.freed;
      woken = h.woken ++ map wake_eq r.signals;
    }

unfoldable pub flush_rq : Held → Held
flush_rq h =
    let r = qflush h.s.rq in
    record h {
      s = record h.s { rq = r.queue };
      freed = h.freed ++ r.freed;
      woken = h.woken ++ map wake_rq r.signals;
    }

unfoldable pub close_queues : Held → Held
close_queues h =
    let r = qclose h.s.rq in
    let w = qclose h.s.wq in
    let e = qclose h.s.eq in
    record h {
      s = record h.s { rq = r.queue; wq = w.queue; eq = e.queue };
      freed = h.freed ++ r.freed ++ w.freed ++ e.freed;
      woken = h.woken ++ map wake_rq r.signals ++ map wake_wq w.signals ++ map wake_eq e.signals;
    }

-- ERRMAX of the buffer `cerr`, and the message that strncpy leaves there.
abbrev pub copied_err : Err → List ℕ → List ℕ
copied_err (text (c ∷ cs)) old = take 127 (c ∷ cs)
copied_err e old = old

-- "Hangup"
abbrev pub hangup_text : List ℕ
hangup_text = 72 ∷ 97 ∷ 110 ∷ 103 ∷ 117 ∷ 112 ∷ []

unfoldable pub next_conv_state : ConvState → ConvState
next_conv_state announcing = announced
next_conv_state connecting = connected
next_conv_state s = s

unfoldable pub fsconnected : Err → Held → Held
fsconnected msg h = record h {
  s = record h.s { cerr = copied_err msg h.s.cerr; state = next_conv_state h.s.state };
  woken = h.woken ++ wake_cr ∷ [];
}

-- The count of established conversations, a uvlong, on leaving a state for another.
unfoldable pub recount : State → State → ℕ → ℕ
recount old new n =
    let left = if is_state old established then (n + 2 ^ 64 - 1) % 2 ^ 64 else n in
    if is_state new established then (left + 1) % 2 ^ 64 else left

-- What is done on coming into a state.
unfoldable pub enter : State → Held → Held
enter closed h = close_queues h
enter close_wait h = hangup_rq unset h
enter s h = h

unfoldable pub tcpsetstate : State → Held → Held
tcpsetstate newstate h =
    let old = h.s.tcb.state in
    let counted = record h {
      priv = record h.priv { curr_estab = recount old newstate h.priv.curr_estab };
    } in
    let entered = enter newstate counted in
    let moved = record entered {
      s = record entered.s { tcb = record entered.s.tcb { state = newstate } };
    } in
    if is_state old newstate
    then h
    else if is_state old syn_sent && not (is_state newstate closed)
    then fsconnected unset moved
    else moved

-- The names of the timers of a conversation.
abbrev pub timer : ℕ → ℕ
timer ident = 4 * ident

abbrev pub rtt_timer : ℕ → ℕ
rtt_timer ident = 4 * ident + 1

abbrev pub acktimer : ℕ → ℕ
acktimer ident = 4 * ident + 2

abbrev pub katimer : ℕ → ℕ
katimer ident = 4 * ident + 3

-- The four timers are halted; `none` is the panic of timerstate.
unfoldable pub halt_all : ℕ → Timers → Option Timers
halt_all ident tl = do
  a ← tcphalt (timer ident) tl
  b ← tcphalt (rtt_timer ident) a
  c ← tcphalt (acktimer ident) b
  tcphalt (katimer ident) c

-- The blocks of the queue of early segments.
abbrev pub reseq_blocks : List Reseq → List Block
reseq_blocks [] = []
reseq_blocks (r ∷ rs) = r.bp ++ reseq_blocks rs

-- A connection that never was is reported, and one that is announced has its listener woken up.
unfoldable pub tell_failure : Err → Held → Held
tell_failure reason h = if is_state h.s.tcb.state syn_sent then fsconnected reason h else h

unfoldable pub wake_listener : ConvState → Held → Held
wake_listener announced h = record h { woken = h.woken ++ wake_listenr ∷ [] }
wake_listener s h = h

-- The rest of localclose, when the timers are halted.
unfoldable pub shut : Err → Timers → Held → Held
shut reason tl h =
    let out = record h { priv = record h.priv { ht = iphtrem h.priv.ht h.s.conv; tl = tl } } in
    let flushed = record out {
      s = record out.s { tcb = record out.s.tcb { reseq = [] } };
      freed = out.freed ++ reseq_blocks out.s.tcb.reseq;
    } in
    let told = tell_failure reason flushed in
    let woken = wake_listener told.s.state told in
    tcpsetstate closed (hangup_wq reason (hangup_rq reason woken))

unfoldable pub localclose : Err → Held → Option Held
localclose reason h = elim (halt_all h.s.conv.ident h.priv.tl) [
  | none ↦ none
  | some tl ↦ some (shut reason tl h)
]

-- Ended, or ended by a call of tcpoutput.
pub data Ending : Type 0 where
  returns : Ending
  outputs : Ending

unfoldable pub count_fin : Held → Held
count_fin h = record h {
  s = record h.s {
    tcb = record h.s.tcb {
      flgcnt = h.s.tcb.flgcnt + 1;
      snd = record h.s.tcb.snd { nxt = add32 h.s.tcb.snd.nxt 1 };
    };
  };
}

unfoldable pub close_by : State → Held → Option (Held × Ending)
close_by listen h = localclose unset (fsconnected (text hangup_text) h) >>= λ c. some (c, returns)
close_by closed h = localclose unset h >>= λ c. some (c, returns)
close_by syn_sent h = localclose unset h >>= λ c. some (c, returns)
close_by syn_received h = some (tcpsetstate finwait1 (count_fin h), outputs)
close_by established h = some (tcpsetstate finwait1 (count_fin h), outputs)
close_by close_wait h = some (tcpsetstate last_ack (count_fin h), outputs)
close_by s h = some (h, returns)

unfoldable pub tcpclose : Held → Option (Held × Ending)
tcpclose h =
    let hung = flush_rq (hangup_eq unset (hangup_wq unset (hangup_rq unset h))) in
    close_by hung.s.tcb.state hung

unfoldable pub measure_window : Held → Held
measure_window h = record h { s = record h.s { tcb = tcprcvwin h.s.rq h.s.tcb } }

unfoldable pub tcpkick : Held → Option (Held × Ending)
tcpkick h = elim h.s.tcb.state [
  | syn_sent ↦ some (measure_window h, outputs)
  | syn_received ↦ some (measure_window h, outputs)
  | established ↦ some (measure_window h, outputs)
  | close_wait ↦ some (measure_window h, outputs)
  | _ ↦ localclose (text hangup_text) h >>= λ c. some (c, returns)
]

unfoldable pub tcpacktimer : Held → Held × Ending
tcpacktimer h =
    let forced = record h {
      s = record h.s { tcb = record h.s.tcb { flags = set_bit force h.s.tcb.flags } };
    } in
    if is_state h.s.tcb.state closed then (h, returns) else (measure_window forced, outputs)
