-- ===== src/Tcp/States/Count.antt =====
-- What tcpsetstate does: the state, and the count of established conversations.
use nix_mark_iv.Qio.Control.{qclose, qhangup}
use nix_mark_iv.Prelude.{
  ℕ, ◌+◌, ◌%◌, ◌^◌, ◌≡◌, inl, inr, refl, sym, ap, ◌∙◌, true, not, ◌&&◌, ◌==◌, if◌then◌else◌,
  Bool-cases, ==_iff, arith,
}
use nix_mark_iv.Tcp.{
  State, closed, listen, syn_sent, syn_received, established, finwait1, finwait2, close_wait,
  closing, last_ack, time_wait,
}
use nix_mark_iv.Tcp.States.{
  Held, is_state, state_number, recount, enter, fsconnected, tcpsetstate, close_queues, hangup_rq,
}

-- 1 for an established conversation.
abbrev pub est : State → ℕ
est s = if is_state s established then 1 else 0

-- The count is that of the `others` that are established, and of this one.
abbrev pub Counts : ℕ → Held → Type 0
Counts others h = h.priv.curr_estab ≡ (others + est h.s.tcb.state) % 2 ^ 64

recount-est :
    (others n : ℕ) (old new : State)
    → n ≡ (others + est old) % 2 ^ 64
    → recount old new n ≡ (others + est new) % 2 ^ 64
unfolding recount
recount-est others n old new e = elim (Bool-cases (is_state old established)) [
  | inl was ↦ elim (Bool-cases (is_state new established)) [
    | inl will ↦
        let k : n ≡ (others + 1) % 2 ^ 64 = e ∙ rw was refl in rw (was, will) (omega (arith, k))
    | inr not_then ↦
        let k : n ≡ (others + 1) % 2 ^ 64 = e ∙ rw was refl in rw (was, not_then) (omega (arith, k))
  ]
  | inr was_not ↦ elim (Bool-cases (is_state new established)) [
    | inl will ↦
        let k : n ≡ (others + 0) % 2 ^ 64 = e ∙ rw was_not refl in
        rw (was_not, will) (omega (arith, k))
    | inr not_then ↦
        let k : n ≡ (others + 0) % 2 ^ 64 = e ∙ rw was_not refl in
        rw (was_not, not_then) (omega (arith, k))
  ]
]

state_of : ℕ → State
state_of n =
    if n == 0
    then closed
    else if n == 1
    then listen
    else if n == 2
    then syn_sent
    else if n == 3
    then syn_received
    else if n == 4
    then established
    else if n == 5
    then finwait1
    else if n == 6
    then finwait2
    else if n == 7
    then close_wait
    else if n == 8
    then closing
    else if n == 9
    then last_ack
    else time_wait

state_of-state_number : (s : State) → state_of (state_number s) ≡ s
unfolding state_of
state_of-state_number closed = refl
state_of-state_number listen = refl
state_of-state_number syn_sent = refl
state_of-state_number syn_received = refl
state_of-state_number established = refl
state_of-state_number finwait1 = refl
state_of-state_number finwait2 = refl
state_of-state_number close_wait = refl
state_of-state_number closing = refl
state_of-state_number last_ack = refl
state_of-state_number time_wait = refl

same_state : (a b : State) → is_state a b ≡ true → a ≡ b
same_state a b e =
    sym (state_of-state_number a)
    ∙ ap state_of ((==_iff (state_number a) (state_number b)).0 e)
    ∙ state_of-state_number b

-- What coming into a state leaves alone.
pub record Kept (h r : Held) : Type 0 where
  pub priv : r.priv ≡ h.priv
  pub tcb : r.s.tcb ≡ h.s.tcb
  pub conv : r.s.conv ≡ h.s.conv
  pub rq_closed : h.s.rq.closed ≡ true → r.s.rq.closed ≡ true
  pub wq_closed : h.s.wq.closed ≡ true → r.s.wq.closed ≡ true

enter-Kept : (s : State) (h : Held) → Kept h (enter s h)
unfolding enter close_queues hangup_rq qclose qhangup
enter-Kept closed h = record {
  priv = refl;
  tcb = refl;
  conv = refl;
  rq_closed = λ e. refl;
  wq_closed = λ e. refl;
}
enter-Kept close_wait h = record {
  priv = refl;
  tcb = refl;
  conv = refl;
  rq_closed = λ e. refl;
  wq_closed = λ e. e;
}
enter-Kept listen h = record {
  priv = refl;
  tcb = refl;
  conv = refl;
  rq_closed = λ e. e;
  wq_closed = λ e. e;
}
enter-Kept syn_sent h = record {
  priv = refl;
  tcb = refl;
  conv = refl;
  rq_closed = λ e. e;
  wq_closed = λ e. e;
}
enter-Kept syn_received h = record {
  priv = refl;
  tcb = refl;
  conv = refl;
  rq_closed = λ e. e;
  wq_closed = λ e. e;
}
enter-Kept established h = record {
  priv = refl;
  tcb = refl;
  conv = refl;
  rq_closed = λ e. e;
  wq_closed = λ e. e;
}
enter-Kept finwait1 h = record {
  priv = refl;
  tcb = refl;
  conv = refl;
  rq_closed = λ e. e;
  wq_closed = λ e. e;
}
enter-Kept finwait2 h = record {
  priv = refl;
  tcb = refl;
  conv = refl;
  rq_closed = λ e. e;
  wq_closed = λ e. e;
}
enter-Kept closing h = record {
  priv = refl;
  tcb = refl;
  conv = refl;
  rq_closed = λ e. e;
  wq_closed = λ e. e;
}
enter-Kept last_ack h = record {
  priv = refl;
  tcb = refl;
  conv = refl;
  rq_closed = λ e. e;
  wq_closed = λ e. e;
}
enter-Kept time_wait h = record {
  priv = refl;
  tcb = refl;
  conv = refl;
  rq_closed = λ e. e;
  wq_closed = λ e. e;
}

-- What tcpsetstate leaves behind.
pub record Reached (others : ℕ) (new : State) (h r : Held) : Type 0 where
  pub state : r.s.tcb.state ≡ new
  pub counts : Counts others r
  pub tl : r.priv.tl ≡ h.priv.tl
  pub reseq : r.s.tcb.reseq ≡ h.s.tcb.reseq
  pub rq_closed : h.s.rq.closed ≡ true → r.s.rq.closed ≡ true
  pub wq_closed : h.s.wq.closed ≡ true → r.s.wq.closed ≡ true

pub tcpsetstate-Reached :
    (others : ℕ) (new : State) (h : Held)
    → Counts others h
    → Reached others new h (tcpsetstate new h)
unfolding tcpsetstate fsconnected
tcpsetstate-Reached others new h n =
    let old = h.s.tcb.state in
    let counted = record h {
      priv = record h.priv { curr_estab = recount old new h.priv.curr_estab };
    } in
    let k = enter-Kept new counted in
    let c = ap (λ p. p.curr_estab) k.priv ∙ recount-est others h.priv.curr_estab old new n in
    elim (Bool-cases (is_state old new)) [
      | inl same ↦ rw same record {
        state = same_state old new same;
        counts = n;
        tl = refl;
        reseq = refl;
        rq_closed = λ e. e;
        wq_closed = λ e. e;
      }
      | inr other ↦ elim (Bool-cases (is_state old syn_sent && not (is_state new closed))) [
        | inl told ↦
            rw (other, told)
              record {
                state = refl;
                counts = c;
                tl = ap (λ p. p.tl) k.priv;
                reseq = ap (λ t. t.reseq) k.tcb;
                rq_closed = k.rq_closed;
                wq_closed = k.wq_closed;
              }
        | inr untold ↦
            rw (other, untold)
              record {
                state = refl;
                counts = c;
                tl = ap (λ p. p.tl) k.priv;
                reseq = ap (λ t. t.reseq) k.tcb;
                rq_closed = k.rq_closed;
                wq_closed = k.wq_closed;
              }
      ]
    ]
