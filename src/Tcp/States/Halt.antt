-- ===== src/Tcp/States/Halt.antt =====
-- Halting the timers of a conversation.
use nix_mark_iv.Prelude.{ℕ, ◌≡◌, inl, inr, refl, ap, ◌∙◌, false, some, ◌==◌, Bool-cases, ==_iff}
use nix_mark_iv.Tcp.Tcptimers.{Timers, off, is_on, tcphalt}
use nix_mark_iv.Tcp.Tcptimers.Linked.{Linked, set_self, set_other, timerstate-Linked}
use nix_mark_iv.Tcp.States.{timer, rtt_timer, acktimer, katimer, halt_all}

-- tcphalt stops one timer, and starts none.
tcphalt-off :
    (t : ℕ) (p : Timers)
    → Linked p
    → (q : Timers) × (tcphalt t p ≡ some q)
      × Linked q
      × (is_on (q.at t).power ≡ false)
      × ((u : ℕ) → is_on (p.at u).power ≡ false → is_on (q.at u).power ≡ false)
unfolding tcphalt
tcphalt-off t p l =
    let (q, e, k, f) = timerstate-Linked t off p l (inl refl) in
    let v = record (p.at t) { power = off } in
    let self = ap (λ g. is_on (g t).power) f ∙ ap (λ x. is_on x.power) (set_self t v p.at) in
    (
      q,
      e,
      k,
      self,
      λ u h. elim (Bool-cases (u == t)) [
        | inl here ↦ ap (λ x. is_on (q.at x).power) ((==_iff u t).0 here) ∙ self
        | inr there ↦
            ap (λ g. is_on (g u).power) f ∙ ap (λ x. is_on x.power) (set_other t u v p.at there) ∙ h
      ],
    )

-- None of the timers of a conversation runs.
abbrev pub Halted : ℕ → Timers → Type 0
Halted ident p =
    (is_on (p.at (timer ident)).power ≡ false)
    × (is_on (p.at (rtt_timer ident)).power ≡ false)
    × (is_on (p.at (acktimer ident)).power ≡ false)
    × (is_on (p.at (katimer ident)).power ≡ false)

halted :
    (ident : ℕ) (p a b c d : Timers)
    → tcphalt (timer ident) p ≡ some a
    → tcphalt (rtt_timer ident) a ≡ some b
    → tcphalt (acktimer ident) b ≡ some c
    → tcphalt (katimer ident) c ≡ some d
    → halt_all ident p ≡ some d
unfolding halt_all
halted ident p a b c d ea eb ec ed = rw (ea, eb, ec) ed

pub halt_all-Halted :
    (ident : ℕ) (p : Timers)
    → Linked p
    → (q : Timers) × (halt_all ident p ≡ some q) × Linked q × Halted ident q
unfolding halt_all
halt_all-Halted ident p l =
    let (a, ea, la, oa, ka) = tcphalt-off (timer ident) p l in
    let (b, eb, lb, ob, kb) = tcphalt-off (rtt_timer ident) a la in
    let (c, ec, lc, oc, kc) = tcphalt-off (acktimer ident) b lb in
    let (d, ed, ld, od, kd) = tcphalt-off (katimer ident) c lc in
    (
      d,
      halted ident p a b c d ea eb ec ed,
      ld,
      (
        kd (timer ident) (kc (timer ident) (kb (timer ident) oa)),
        kd (rtt_timer ident) (kc (rtt_timer ident) ob),
        kd (acktimer ident) oc,
        od,
      ),
    )
