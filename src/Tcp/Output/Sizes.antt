-- ===== src/Tcp/Output/Sizes.antt =====
-- How much a round of tcpoutput sends, and what it does to the pointers.
use nix_mark_iv.Prelude.{
  ℕ, ◌+◌, ◌-◌, ◌^◌, ◌≤◌, ◌<◌, ◌≡◌, inl, inr, refl, ap, min, ltb, ◌==◌, if◌then◌else◌, Bool-cases,
  arith,
}
use nix_mark_iv.Tcp.{Tcpctl, sub32, add32}
use nix_mark_iv.Tcp.Sequence.{at, add32-at, seq-at}
use nix_mark_iv.Tcp.Output.{usable, segment_size, sent_on}

-- The window that may be filled: one place if the other side has closed it.
abbrev pub limit : Tcpctl → ℕ → ℕ
limit tcb sent = if tcb.snd.wnd == 0 then sent + 1 else min tcb.snd.wnd tcb.cwind

pub usable-limit : (tcb : Tcpctl) (sent : ℕ) → usable tcb sent ≡ limit tcb sent - sent
unfolding usable
usable-limit tcb sent = ground arith

pub segment_size-min :
    (tcb : Tcpctl) (sndcnt sent : ℕ)
    → sent ≤ sndcnt
    → sndcnt < 2 ^ 32
    → segment_size tcb sndcnt sent ≡ min tcb.mss (min (usable tcb sent) (sndcnt - sent))
unfolding segment_size
segment_size-min tcb sndcnt sent h k =
    let e : sub32 sndcnt sent ≡ sndcnt - sent = omega arith in rw e (ground arith)

-- The pointers move on by `size` places.
abbrev pub Moved : ℕ → ℕ → ℕ → ℕ → Tcpctl → Tcpctl → Type 0
Moved b p n size tcb t =
    (t.snd.ptr ≡ at b (p + size))
    × (t.snd.nxt ≡ at b (n + (p + size - n)))
    × (t.snd.una ≡ tcb.snd.una)

pub sent_on-Moved :
    (b p n size : ℕ) (tcb : Tcpctl)
    → tcb.snd.ptr ≡ at b p
    → tcb.snd.nxt ≡ at b n
    → p ≤ n
    → n < p + 2 ^ 30
    → size < 2 ^ 30
    → Moved b p n size tcb (sent_on size tcb)
unfolding sent_on
sent_on-Moved b p n size tcb ep en h k s =
    let ptr : add32 tcb.snd.ptr size ≡ at b (p + size) = rw ep (add32-at b p size) in
    let (x, y, gt, z) = seq-at b (p + size) n (omega arith) (omega arith) in
    (
      ptr,
      rw (ptr, en, gt)
          (elim (Bool-cases (ltb n (p + size))) [
            | inl over ↦ rw over (ap (at b) (ground arith))
            | inr within ↦ rw within (ap (at b) (ground arith))
          ]),
      refl,
    )
