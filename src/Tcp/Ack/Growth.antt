-- ===== src/Tcp/Ack/Growth.antt =====
-- How the congestion window grows with an acknowledgement, without the wrap-around of its sums.
use nix_mark_iv.Tcp.Ack.{growth, grow}
use nix_mark_iv.Prelude.{
  ◌≤◌, inr, inl, Bool-cases, ℕ, ◌+◌, ◌-◌, ◌*◌, ◌/◌, ◌%◌, ◌^◌, ◌<◌, ◌≡◌, min, ltb, if◌then◌else◌,
  arith, not, ◌&&◌, refl,
}
use native.Mathlib.Nat.{div-le_self, mod-eq_of_lt, mul-le-mul}
use nix_mark_iv.Tcp.{Tcpctl, add32}

-- The step up before it is limited: slow start, then the avoidance of congestion.
abbrev pub opening : ℕ → Tcpctl → ℕ
opening acked tcb =
    if ltb tcb.cwind tcb.ssthresh then min tcb.mss acked else tcb.mss * tcb.mss / tcb.cwind

limited :
    (c w step : ℕ)
    → c < w
    → w < 2 ^ 32
    → step < 2 ^ 32
    → add32 c (
        if ltb w (add32 c (if ltb (add32 c step) c then w - c else step))
        then w - c
        else (if ltb (add32 c step) c then w - c else step))
      ≡ min w (c + step)
limited c w step h k l = ground arith

square-small : (m : ℕ) → m < 2 ^ 16 → m * m < 2 ^ 32
square-small m h =
    let s : m * m ≤ 65535 * 65535 =
      mul-le-mul {n₂ = 65535} {m₂ = 65535} (omega arith) (omega arith) in
    omega arith

opening-bound : (acked : ℕ) (tcb : Tcpctl) → tcb.mss < 2 ^ 16 → opening acked tcb < 2 ^ 32
opening-bound acked tcb m =
    let s = square-small tcb.mss m in
    elim (Bool-cases (ltb tcb.cwind tcb.ssthresh)) [
      | inl slow ↦ rw slow (omega arith)
      | inr careful ↦ rw careful (
          let d : tcb.mss * tcb.mss / tcb.cwind ≤ tcb.mss * tcb.mss =
            div-le_self (tcb.mss * tcb.mss) tcb.cwind in
          omega arith)
    ]

-- While the window of the other side is open and nothing is sent again, the congestion window
-- grows by min mss acked in slow start and by mss * mss / cwind behind it, as far as that window
-- and no farther; otherwise it stays as it is. No sum or product of 32 bits wraps to another
-- result. The window of the other side is a number of 32 bits, the segment size one of 16, and the
-- congestion window is not 0.
pub grow_lem :
    (acked : ℕ) (tcb : Tcpctl)
    → tcb.snd.wnd < 2 ^ 32
    → tcb.mss < 2 ^ 16
    → 0 < tcb.cwind
    → (grow acked tcb).cwind ≡ (
        if ltb tcb.cwind tcb.snd.wnd && not tcb.snd.recovery
        then min tcb.snd.wnd (tcb.cwind + opening acked tcb)
        else tcb.cwind)
unfolding grow growth
grow_lem acked tcb w m _ =
    let whole : tcb.mss * tcb.mss % 2 ^ 32 ≡ tcb.mss * tcb.mss =
      mod-eq_of_lt (square-small tcb.mss m) in
    elim (Bool-cases (ltb tcb.cwind tcb.snd.wnd && not tcb.snd.recovery)) [
      | inl grows ↦
          rw (grows, whole)
            (limited tcb.cwind tcb.snd.wnd (opening acked tcb) (ground arith) w
              (opening-bound acked tcb m))
      | inr stays ↦ rw stays refl
    ]
