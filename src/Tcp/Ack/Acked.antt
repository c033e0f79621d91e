-- ===== src/Tcp/Ack/Acked.antt =====
-- An acknowledgement of something new moves the pointers and takes the acknowledged bytes off the queue.
use nix_mark_iv.Prelude.{
  ℕ, ◌+◌, ◌-◌, ◌*◌, ◌^◌, ◌≤◌, ◌<◌, ◌≡◌, inl, inr, refl, sym, ap, subst, ◌∙◌, true, false, not, ◌&&◌,
  ◌||◌, Option, some, drop, ltb, ◌==◌, if◌then◌else◌, ◌>>=◌, Bool-cases, arith,
}
use nix_mark_iv.Qio.Stream.{stream, qdiscard_lem}
use nix_mark_iv.Tcp.{seq_ge, Tcp, Tcpctl, has_bit, set_bit, sub32, seq_lt, seq_gt, synack, retran}
use nix_mark_iv.Tcp.Sequence.{at, seq-at, sub32-at_ahead}
use nix_mark_iv.Tcp.Tcptimers.{is_on}
use nix_mark_iv.Tcp.Tcptimers.Linked.{Linked, kept_for, set-Linked, tcpgo-Linked, tcphalt-Linked}
use nix_mark_iv.Tcp.States.{Held, timer, rtt_timer}
use nix_mark_iv.Tcp.Ack.{
  updated, update_rest, update, is_duplicate, on_tcb, update_window, end_recovery, grow, smooth,
  settimer, tcpsettimer, with_timers, measure, time_trip, drop_acked, advance_una, settle_ack,
  new_ack, positive_or_1,
}

-- What the steps before the pointers move leave alone.
abbrev Same : Held → Held → Type 0
Same h c =
    (c.s.tcb.snd.una ≡ h.s.tcb.snd.una)
    × (c.s.tcb.snd.ptr ≡ h.s.tcb.snd.ptr)
    × (c.s.tcb.snd.nxt ≡ h.s.tcb.snd.nxt)
    × (c.s.wq ≡ h.s.wq)

update_window-Same :
    (seg : Tcp) (h : Held)
    → let c = on_tcb (update_window seg) h in Same h c × (c.s.tcb.flags ≡ h.s.tcb.flags)
unfolding update_window
update_window-Same seg h =
    elim (Bool-cases (
      seq_gt seg.ack h.s.tcb.snd.wl2
      || (h.s.tcb.snd.wl2 == seg.ack && ltb h.s.tcb.snd.wnd seg.wnd))) [
        | inl opens ↦ rw opens ((refl, refl, refl, refl), refl)
        | inr stays ↦ rw stays ((refl, refl, refl, refl), refl)
      ]

end_recovery-Same :
    (seg : Tcp) (h : Held)
    → let c = on_tcb (end_recovery seg) h in Same h c × (c.s.tcb.flags ≡ h.s.tcb.flags)
unfolding end_recovery
end_recovery-Same seg h =
    elim (Bool-cases (not h.s.tcb.snd.recovery || seq_ge seg.ack h.s.tcb.snd.rxt)) [
      | inl ends ↦ rw ends ((refl, refl, refl, refl), refl)
      | inr goes_on ↦ rw goes_on ((refl, refl, refl, refl), refl)
    ]

grow-Same : (acked : ℕ) (h : Held) → Same h (on_tcb (grow acked) h)
unfolding grow
grow-Same acked h =
    elim (Bool-cases (ltb h.s.tcb.cwind h.s.tcb.snd.wnd && not h.s.tcb.snd.recovery)) [
      | inl grows ↦ rw grows (refl, refl, refl, refl)
      | inr stays ↦ rw stays (refl, refl, refl, refl)
    ]

smooth-snd : (rtt : ℕ) (tcb : Tcpctl) → (smooth rtt tcb).snd ≡ tcb.snd
unfolding smooth
smooth-snd rtt tcb = elim (Bool-cases (tcb.srtt == 0)) [
  | inl first ↦ rw first refl
  | inr later ↦ rw later refl
]

settimer-bound : (tcb : Tcpctl) → settimer tcb ≤ 1280
unfolding settimer
settimer-bound tcb = ground arith

tcpsettimer-Linked : (h : Held) → Linked h.priv.tl → Linked (tcpsettimer h).priv.tl
unfolding tcpsettimer
tcpsettimer-Linked h l =
    let t = timer h.s.conv.ident in
    let tl = h.priv.tl in
    let v = record (tl.at t) { start = settimer h.s.tcb } in
    set-Linked t v tl tl.timers l l.unique (λ u. kept_for u t tl.timers (is_on v.power) (l.agree t))
      (l.counts t) (omega (arith, settimer-bound h.s.tcb), (l.small t).1)

-- The state when a round trip was measured.
abbrev smoothed : Held → Held
smoothed h =
    let t = h.priv.tl.at (rtt_timer h.s.conv.ident) in
    on_tcb
      (λ tcb.
        smooth (positive_or_1 (t.start - t.count) * 50) (record tcb { backoff = 0; backedoff = 0 }))
      h

measure-once :
    (h : Held) → has_bit retran h.s.tcb.flags ≡ false → measure h ≡ tcpsettimer (smoothed h)
unfolding measure
measure-once h e = rw e refl

measure-Same : (h : Held) → Linked h.priv.tl → Same h (measure h) × Linked (measure h).priv.tl
unfolding measure tcpsettimer
measure-Same h l = elim (Bool-cases (has_bit retran h.s.tcb.flags)) [
  | inl again ↦ rw again ((refl, refl, refl, refl), l)
  | inr once ↦
      let t = h.priv.tl.at (rtt_timer h.s.conv.ident) in
      let e =
        smooth-snd (positive_or_1 (t.start - t.count) * 50)
          (record h.s.tcb { backoff = 0; backedoff = 0 }) in
      subst (λ c. Same h c × Linked c.priv.tl) (sym (measure-once h once))
        (
          (ap (λ d. d.una) e, ap (λ d. d.ptr) e, ap (λ d. d.nxt) e, refl),
          tcpsettimer-Linked (smoothed h) l,
        )
]

abbrev Steps : Held → Option Held → Type 0
Steps h r = (c : Held) × (r ≡ some c) × Same h c × Linked c.priv.tl

time_trip-Steps : (seg : Tcp) (h : Held) → Linked h.priv.tl → Steps h (time_trip seg h)
unfolding time_trip
time_trip-Steps seg h l =
    let t = rtt_timer h.s.conv.ident in
    elim (Bool-cases (is_on (h.priv.tl.at t).power && seq_ge seg.ack h.s.tcb.rttseq)) [
      | inr untimed ↦ rw untimed (h, refl, (refl, refl, refl, refl), l)
      | inl timed ↦
          let (tl, e, k, o) = tcphalt-Linked t h.priv.tl l in
          let (m, n) = measure-Same (with_timers h tl) k in
          rw timed (
            measure (with_timers h tl),
            ap (λ x. x >>= λ tl. some (measure (with_timers h tl))) e,
            m,
            n,
          )
    ]

-- The pointers are at k, at p or k, and at n, and `acked` bytes have left the queue.
abbrev pub Acked : ℕ → ℕ → ℕ → ℕ → ℕ → Held → Held → Type 0
Acked b p n k acked h c =
    (c.s.tcb.snd.una ≡ at b k)
    × (c.s.tcb.snd.ptr ≡ at b (p + (k - p)))
    × (c.s.tcb.snd.nxt ≡ at b n)
    × (stream c.s.wq ≡ drop acked (stream h.s.wq))
    × Linked c.priv.tl

settle_ack-Acked :
    (b p n k acked : ℕ) (h : Held)
    → h.s.tcb.snd.ptr ≡ at b p
    → h.s.tcb.snd.nxt ≡ at b n
    → p < k + 2 ^ 31
    → k < p + 2 ^ 31
    → Linked h.priv.tl
    → (c : Held) × (settle_ack (at b k) acked h ≡ some c) × Acked b p n k acked h c
unfolding settle_ack drop_acked advance_una
settle_ack-Acked b p n k acked h ep en near near' l =
    let d = drop_acked acked h in
    let t = timer h.s.conv.ident in
    let q = (qdiscard_lem h.s.wq acked).1 in
    let (lt, x, y, z) = seq-at b p k near near' in
    let ptr : (if seq_lt h.s.tcb.snd.ptr (at b k) then at b k else h.s.tcb.snd.ptr)
        ≡ at b (p + (k - p)) =
      rw (ep, lt)
        (elim (Bool-cases (ltb p k)) [
          | inl behind ↦ rw behind (ap (at b) (ground arith))
          | inr ahead ↦ rw ahead (ap (at b) (ground arith))
        ]) in
    elim (Bool-cases (at b k == h.s.tcb.snd.nxt)) [
      | inl everything ↦
          let (tl, e, m, o) = tcphalt-Linked t h.priv.tl l in
          rw everything (
            on_tcb (advance_una (at b k)) (with_timers d tl),
            ap (λ r. r >>= λ tl. some (on_tcb (advance_una (at b k)) (with_timers d tl))) e,
            (refl, ptr, en, q, m),
          )
      | inr something ↦
          let (tl, e, m, o) = tcpgo-Linked t h.priv.tl l in
          rw something (
            on_tcb (advance_una (at b k)) (with_timers d tl),
            ap (λ r. r >>= λ tl. some (on_tcb (advance_una (at b k)) (with_timers d tl))) e,
            (refl, ptr, en, q, m),
          )
    ]

Acked-wq :
    (b p n k acked : ℕ) (h g c : Held)
    → g.s.wq ≡ h.s.wq
    → Acked b p n k acked g c
    → Acked b p n k acked h c
Acked-wq b p n k acked h g c e (u, t, v, w, l) = (u, t, v, w ∙ ap (λ q. drop acked (stream q)) e, l)

-- The bytes that an acknowledgement of k places takes off; the SYN is none.
abbrev pub data_acked : Held → ℕ → ℕ
data_acked h n = if has_bit synack h.s.tcb.flags then n else n - 1

-- The step behind the end of a recovery.
abbrev recovered : Tcp → Held → Held
recovered seg h = on_tcb (end_recovery seg) h

abbrev syn_acked : Held → Held
syn_acked e =
    on_tcb (λ tcb. record tcb { flags = set_bit synack tcb.flags; flgcnt = tcb.flgcnt - 1 }) e

module _ (seg : Tcp) (h : Held) (acked : ℕ)
    (d : sub32 seg.ack (recovered seg h).s.tcb.snd.una ≡ acked) where
  new_ack_first :
      has_bit synack (recovered seg h).s.tcb.flags ≡ false
      → new_ack seg h ≡ settle_ack seg.ack (sub32 acked 1) (syn_acked (recovered seg h))
  unfolding new_ack
  new_ack_first f = rw (f, d) refl

  new_ack_later :
      (c : Held)
      → has_bit synack (recovered seg h).s.tcb.flags ≡ true
      → time_trip seg (on_tcb (grow acked) (recovered seg h)) ≡ some c
      → new_ack seg h ≡ settle_ack seg.ack acked c
  unfolding new_ack
  new_ack_later c f e = rw (f, d) (ap (λ r. r >>= settle_ack seg.ack acked) e)

module _ (b u p n k : ℕ) (seg : Tcp) (h : Held) (ea : seg.ack ≡ at b k) (up : u ≤ p) (pn : p ≤ n)
    (uk : u < k) (kn : k ≤ n) (near : n < u + 2 ^ 30) (l : Linked h.priv.tl) where
  new_ack-Acked :
      h.s.tcb.snd.una ≡ at b u
      → h.s.tcb.snd.ptr ≡ at b p
      → h.s.tcb.snd.nxt ≡ at b n
      → (c : Held) × (new_ack seg h ≡ some c) × Acked b p n k (data_acked h (k - u)) h c
  new_ack-Acked eu ep en =
      let ((ru, rp, rn, rq), rf) = end_recovery-Same seg h in
      let e = recovered seg h in
      let d : sub32 seg.ack e.s.tcb.snd.una ≡ k - u =
        ap (λ x. sub32 x e.s.tcb.snd.una) ea
        ∙ ap (sub32 (at b k)) (ru ∙ eu)
        ∙ sub32-at_ahead b k u (omega arith) (omega arith) in
      elim (Bool-cases (has_bit synack h.s.tcb.flags)) [
        | inl later ↦
            let (gu, gp, gn, gw) = grow-Same (k - u) e in
            let (c1, e1, (su, sp, sn, sw), l1) = time_trip-Steps seg (on_tcb (grow (k - u)) e) l in
            let (c, e2, a) =
              settle_ack-Acked b p n k (k - u) c1 (sp ∙ gp ∙ rp ∙ ep) (sn ∙ gn ∙ rn ∙ en)
                (omega arith) (omega arith) l1 in
            rw later (
              c,
              new_ack_later seg h (k - u) d c1 (ap (has_bit synack) rf ∙ later) e1
                  ∙ ap (λ x. settle_ack x (k - u) c1) ea
                  ∙ e2,
              Acked-wq b p n k (k - u) h c1 c (sw ∙ gw ∙ rq) a,
            )
        | inr first ↦
            let m : sub32 (k - u) 1 ≡ k - u - 1 = omega arith in
            let (c, e2, a) =
              settle_ack-Acked b p n k (k - u - 1) (syn_acked e) (rp ∙ ep) (rn ∙ en) (omega arith)
                (omega arith) l in
            rw first (
              c,
              new_ack_first seg h (k - u) d (ap (has_bit synack) rf ∙ first)
                  ∙ ap (λ x. settle_ack x (sub32 (k - u) 1) (syn_acked e)) ea
                  ∙ ap (λ x. settle_ack (at b k) x (syn_acked e)) m
                  ∙ e2,
              Acked-wq b p n k (k - u - 1) h (syn_acked e) c rq a,
            )
      ]

-- The same places around the whole of update.
module _ (b u p n k : ℕ) (seg : Tcp) (h : Held) (ea : seg.ack ≡ at b k) (uk : u < k)
    (near : n < u + 2 ^ 30) where
  no_less : k ≤ n → h.s.tcb.snd.nxt ≡ at b n → seq_gt seg.ack h.s.tcb.snd.nxt ≡ false
  no_less kn en =
      let (x, y, z, w) = seq-at b k n (omega arith) (omega arith) in rw (ea, en, z) (ground arith)

  not_duplicate : k ≤ n → h.s.tcb.snd.una ≡ at b u → seq_gt seg.ack h.s.tcb.snd.una ≡ true
  not_duplicate kn eu =
      let (x, y, z, w) = seq-at b k u (omega arith) (omega arith) in rw (ea, eu, z) (ground arith)

  not_same : k ≤ n → h.s.tcb.snd.una ≡ at b u → is_duplicate seg h.s.tcb ≡ false
  unfolding is_duplicate
  not_same kn eu =
      let d = sub32-at_ahead b k u (omega arith) (omega arith) in
      let e : (at b k == at b u) ≡ false = ground arith in rw (ea, eu, e) refl

  update-new_ack :
      k ≤ n
      → h.s.tcb.snd.una ≡ at b u
      → h.s.tcb.snd.nxt ≡ at b n
      → update seg h ≡ updated (new_ack seg (on_tcb (update_window seg) h))
  unfolding update update_rest
  update-new_ack kn eu en =
      let w = on_tcb (update_window seg) h in
      let ((su, sp, sn, sq), f) = update_window-Same seg h in
      let more = ap (seq_gt seg.ack) su ∙ not_duplicate kn eu in
      rw (no_less kn en, not_same kn eu, more) refl

module _ (b u p n k : ℕ) (seg : Tcp) (h : Held) (up : u ≤ p) (pn : p ≤ n) (uk : u < k) (kn : k ≤ n)
    (near : n < u + 2 ^ 30) (l : Linked h.priv.tl) where
  -- An acknowledgement of something new, of place k: una goes there, ptr goes there if it is behind,
  -- nxt stays, and update comes to an end without sending again. As many bytes as are acknowledged
  -- leave the front of the queue of what is to be sent, one less where the SYN had not been
  -- acknowledged before, and no other byte of it is touched; the timers are still a list of those
  -- that are on. Places are numbers from b; una is at u, ptr at p, nxt at n, with u ≤ p ≤ n and
  -- u < k ≤ n, fewer than 2^30 places are not acknowledged, and the timers are listed before.
  pub update_lem :
      seg.ack ≡ at b k
      → h.s.tcb.snd.una ≡ at b u
      → h.s.tcb.snd.ptr ≡ at b p
      → h.s.tcb.snd.nxt ≡ at b n
      → (c : Held) × (update seg h ≡ updated (some c)) × Acked b p n k (data_acked h (k - u)) h c
  update_lem ea eu ep en =
      let w = on_tcb (update_window seg) h in
      let ((su, sp, sn, sq), f) = update_window-Same seg h in
      let (c, e, a) =
        new_ack-Acked b u p n k seg w ea up pn uk kn near l (su ∙ eu) (sp ∙ ep) (sn ∙ en) in
      let same = ap (λ g. if has_bit synack g then k - u else k - u - 1) f in
      (
        c,
        update-new_ack b u p n k seg h ea uk near kn eu en ∙ ap updated e,
        subst (λ q. Acked b p n k q h c) same a,
      )
