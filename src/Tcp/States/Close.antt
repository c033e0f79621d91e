-- ===== src/Tcp/States/Close.antt =====
-- tcpclose hangs up a conversation, on which the state depends.
use nix_mark_iv.Qio.Control.{qhangup, qflush}
use nix_mark_iv.Prelude.{ℕ, ◌≡◌, refl, sym, ap, subst, true, Option, some, ◌>>=◌}
use nix_mark_iv.Qio.{Err, unset, text}
use nix_mark_iv.Tcp.{
  State, closed, listen, syn_sent, syn_received, established, finwait1, finwait2, close_wait,
  closing, last_ack, time_wait,
}
use nix_mark_iv.Tcp.Tcptimers.Linked.{Linked}
use nix_mark_iv.Tcp.States.{
  Held, fsconnected, tcpsetstate, localclose, Ending, returns, outputs, tcpclose, hangup_rq,
  hangup_wq, close_by, count_fin, hangup_text, flush_rq, hangup_eq,
}
use nix_mark_iv.Tcp.States.Count.{Counts, tcpsetstate-Reached}
use nix_mark_iv.Tcp.States.Rest.{localclose-AtRest}

-- The state that closing leads to.
abbrev pub close_target : State → State
close_target listen = closed
close_target closed = closed
close_target syn_sent = closed
close_target syn_received = finwait1
close_target established = finwait1
close_target close_wait = last_ack
close_target s = s

-- What tcpclose leaves behind.
pub record Hung (others : ℕ) (h c : Held) : Type 0 where
  pub state : c.s.tcb.state ≡ close_target h.s.tcb.state
  pub counts : Counts others c
  pub linked : Linked c.priv.tl
  pub rq_closed : c.s.rq.closed ≡ true
  pub wq_closed : c.s.wq.closed ≡ true

abbrev Closes : ℕ → State → Held → Option (Held × Ending) → Type 0
Closes others target h r =
    (c : Held) × (o : Ending) × (r ≡ some (c, o))
    × (c.s.tcb.state ≡ target)
    × Counts others c
    × Linked c.priv.tl
    × (c.s.rq.closed ≡ true)
    × (c.s.wq.closed ≡ true)

module _ (others : ℕ) (h : Held) (l : Linked h.priv.tl) (n : Counts others h)
    (rq : h.s.rq.closed ≡ true) (wq : h.s.wq.closed ≡ true) where
  by_localclose :
      (reason : Err) → Closes others closed h (localclose reason h >>= λ c. some (c, returns))
  by_localclose reason =
      let (c, e, r, o) = localclose-AtRest others reason h l n in
      (
        c,
        returns,
        ap (λ x. x >>= λ c. some (c, returns)) e,
        r.state,
        r.counts,
        r.linked,
        r.rq_closed,
        r.wq_closed,
      )

  by_fin : (new : State) → Closes others new h (some (tcpsetstate new (count_fin h), outputs))
  unfolding count_fin
  by_fin new =
      let r = tcpsetstate-Reached others new (count_fin h) n in
      (
        tcpsetstate new (count_fin h),
        outputs,
        refl,
        r.state,
        r.counts,
        subst Linked (sym r.tl) l,
        r.rq_closed rq,
        r.wq_closed wq,
      )

  by_nothing : (s : State) → h.s.tcb.state ≡ s → Closes others s h (some (h, returns))
  by_nothing s e = (h, returns, refl, e, n, l, rq, wq)

module _ (others : ℕ) (h : Held) (l : Linked h.priv.tl) (n : Counts others h)
    (rq : h.s.rq.closed ≡ true) (wq : h.s.wq.closed ≡ true) where
  close_by-Closes :
      (s : State) → h.s.tcb.state ≡ s → Closes others (close_target s) h (close_by s h)
  unfolding close_by fsconnected
  close_by-Closes listen e = by_localclose others (fsconnected (text hangup_text) h) l n rq wq unset
  close_by-Closes closed e = by_localclose others h l n rq wq unset
  close_by-Closes syn_sent e = by_localclose others h l n rq wq unset
  close_by-Closes syn_received e = by_fin others h l n rq wq finwait1
  close_by-Closes established e = by_fin others h l n rq wq finwait1
  close_by-Closes close_wait e = by_fin others h l n rq wq last_ack
  close_by-Closes finwait1 e = by_nothing others h l n rq wq finwait1 e
  close_by-Closes finwait2 e = by_nothing others h l n rq wq finwait2 e
  close_by-Closes closing e = by_nothing others h l n rq wq closing e
  close_by-Closes last_ack e = by_nothing others h l n rq wq last_ack e
  close_by-Closes time_wait e = by_nothing others h l n rq wq time_wait e

-- Where the list of timers and the count of established conversations are right, tcpclose does not
-- panic: it closes both queues and keeps the list and the count right; the state becomes closed
-- if no connection was made yet, finwait1 if there is one, last_ack if the other side has closed it,
-- and else it stays.
pub tcpclose_lem :
    (others : ℕ) (h : Held)
    → Linked h.priv.tl
    → Counts others h
    → (c : Held) × (o : Ending) × (tcpclose h ≡ some (c, o)) × Hung others h c
unfolding tcpclose flush_rq hangup_eq hangup_wq hangup_rq qhangup qflush
tcpclose_lem others h l n =
    let hung = flush_rq (hangup_eq unset (hangup_wq unset (hangup_rq unset h))) in
    let (c, o, e, s, k, m, rq, wq) =
      close_by-Closes others hung l n refl refl hung.s.tcb.state refl in
    (c, o, e, record { state = s; counts = k; linked = m; rq_closed = rq; wq_closed = wq })
