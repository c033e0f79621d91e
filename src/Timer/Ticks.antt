-- ===== src/Timer/Ticks.antt =====
-- The conversions between clock ticks and milliseconds.
use nix_mark_iv.Prelude.{ℕ, ◌*◌, ◌/◌, ◌%◌, ◌^◌, ◌<◌, ◌≡◌, ltb, if◌then◌else◌, arith}
use nix_mark_iv.Timer.{tk2ms, ms2tk, hz}

-- ms2tk of tk2ms gives back the ticks up to 10^6 of them, and their full seconds from there on, as
-- long as the milliseconds fit in 32 bits.
pub ms2tk-tk2ms :
    (ticks : ℕ)
    → ticks * 10 < 2 ^ 32
    → ms2tk (tk2ms ticks) ≡ (if ltb ticks 1000000 then ticks else ticks / 100 * 100)
unfolding ms2tk tk2ms
ms2tk-tk2ms ticks h =
    let ms : ticks * 1000 / hz % 2 ^ 32 ≡ ticks * 10 = omega arith in rw ms (ground arith)
