-- ===== src/Tcp/States/Rest.antt =====
-- localclose leaves a conversation at rest.
use nix_mark_iv.Ipht.{iphtrem}
use nix_mark_iv.Qio.Control.{qhangup}
use nix_mark_iv.Prelude.{
  ℕ, ◌+◌, ◌%◌, ◌^◌, ◌≡◌, inl, inr, refl, sym, ap, subst, ◌∙◌, true, some, [], Bool-cases, ◌++◌,
}
use nix_mark_iv.Qio.{Err}
use nix_mark_iv.Tcp.{closed, syn_sent}
use nix_mark_iv.Tcp.Tcptimers.{Timers}
use nix_mark_iv.Tcp.Tcptimers.Linked.{Linked}
use nix_mark_iv.Tcp.States.{
  Held, is_state, fsconnected, halt_all, shut, localclose, hangup_rq, tell_failure, wake_listener,
  ConvState, idle_conv, announcing, announced, connecting, connected, hangup_wq, reseq_blocks,
}
use nix_mark_iv.Tcp.States.Count.{est, Counts, Kept, tcpsetstate-Reached}
use nix_mark_iv.Tcp.States.Halt.{Halted, halt_all-Halted}

same-Kept : (h : Held) → Kept h h
same-Kept h = record {
  priv = refl;
  tcb = refl;
  conv = refl;
  rq_closed = λ e. e;
  wq_closed = λ e. e;
}

tell_failure-Kept : (reason : Err) (h : Held) → Kept h (tell_failure reason h)
unfolding tell_failure fsconnected
tell_failure-Kept reason h = elim (Bool-cases (is_state h.s.tcb.state syn_sent)) [
  | inl fails ↦
      rw fails
        record { priv = refl; tcb = refl; conv = refl; rq_closed = λ e. e; wq_closed = λ e. e }
  | inr was ↦ rw was (same-Kept h)
]

wake_listener-Kept : (s : ConvState) (h : Held) → Kept h (wake_listener s h)
unfolding wake_listener
wake_listener-Kept idle_conv h = same-Kept h
wake_listener-Kept announcing h = same-Kept h
wake_listener-Kept announced h = record {
  priv = refl;
  tcb = refl;
  conv = refl;
  rq_closed = λ e. e;
  wq_closed = λ e. e;
}
wake_listener-Kept connecting h = same-Kept h
wake_listener-Kept connected h = same-Kept h

-- A conversation at rest: closed, with no early segment, and no way in or out.
pub record AtRest (others : ℕ) (h : Held) : Type 0 where
  pub state : h.s.tcb.state ≡ closed
  pub counts : Counts others h
  pub linked : Linked h.priv.tl
  pub reseq : h.s.tcb.reseq ≡ []
  pub rq_closed : h.s.rq.closed ≡ true
  pub wq_closed : h.s.wq.closed ≡ true

shut-AtRest :
    (others : ℕ) (reason : Err) (tl : Timers) (h : Held)
    → Linked tl
    → Counts others h
    → AtRest others (shut reason tl h) × ((shut reason tl h).priv.tl ≡ tl)
unfolding shut hangup_rq hangup_wq qhangup
shut-AtRest others reason tl h l n =
    let out = record h { priv = record h.priv { ht = iphtrem h.priv.ht h.s.conv; tl = tl } } in
    let flushed = record out {
      s = record out.s { tcb = record out.s.tcb { reseq = [] } };
      freed = out.freed ++ reseq_blocks out.s.tcb.reseq;
    } in
    let told = tell_failure reason flushed in
    let k = tell_failure-Kept reason flushed in
    let m = wake_listener-Kept told.s.state told in
    let woken = wake_listener told.s.state told in
    let priv = m.priv ∙ k.priv in
    let tcb = m.tcb ∙ k.tcb in
    let c : Counts others (hangup_wq reason (hangup_rq reason woken)) =
      ap (λ p. p.curr_estab) priv ∙ n ∙ ap (λ t. (others + est t.state) % 2 ^ 64) (sym tcb) in
    let r = tcpsetstate-Reached others closed (hangup_wq reason (hangup_rq reason woken)) c in
    let same = r.tl ∙ ap (λ p. p.tl) priv in
    (
      record {
        state = r.state;
        counts = r.counts;
        linked = subst Linked (sym same) l;
        reseq = r.reseq ∙ ap (λ t. t.reseq) tcb;
        rq_closed = r.rq_closed refl;
        wq_closed = r.wq_closed refl;
      },
      same,
    )

localclose-shut :
    (reason : Err) (h : Held) (tl : Timers)
    → halt_all h.s.conv.ident h.priv.tl ≡ some tl
    → localclose reason h ≡ some (shut reason tl h)
unfolding localclose
localclose-shut reason h tl e = rw (localclose, e) refl

-- Where the list of timers has exactly those that are on, and the count of established conversations
-- is right, localclose does not panic: it leaves the conversation closed, with both queues closed, no
-- early segment and no timer of its own running, and the count and the list right.
pub localclose-AtRest :
    (others : ℕ) (reason : Err) (h : Held)
    → Linked h.priv.tl
    → Counts others h
    → (c : Held) × (localclose reason h ≡ some c)
      × AtRest others c
      × Halted h.s.conv.ident c.priv.tl
localclose-AtRest others reason h l n =
    let (tl, e, k, off_all) = halt_all-Halted h.s.conv.ident h.priv.tl l in
    let (r, same) = shut-AtRest others reason tl h k n in
    (
      shut reason tl h,
      localclose-shut reason h tl e,
      r,
      subst (Halted h.s.conv.ident) (sym same) off_all,
    )
