-- ===== src/Tcp/Sequence.antt =====
-- The comparisons of sequence numbers agree with those of the places in the stream, which do not
-- wrap. The place p of a stream that starts at b has the sequence number (b + p) mod 2^32.
use nix_mark_iv.Prelude.{ℕ, ◌+◌, ◌-◌, ◌%◌, ◌^◌, ◌≤◌, ◌<◌, ◌≡◌, ltb, leb, ◌&&◌, arith}
use native.Mathlib.Decide.{dec_le}
use nix_mark_iv.Tcp.{sub32, add32, seq_within, seq_lt, seq_le, seq_gt, seq_ge}

-- The sequence number of the place p.
abbrev pub at : ℕ → ℕ → ℕ
at b p = (b + p) % 2 ^ 32

pub sub32-at_ahead : (b p q : ℕ) → q ≤ p → p < q + 2 ^ 32 → sub32 (at b p) (at b q) ≡ p - q
sub32-at_ahead b p q h k = omega arith

pub sub32-at_behind :
    (b p q : ℕ) → p < q → q < p + 2 ^ 32 → sub32 (at b p) (at b q) ≡ 2 ^ 32 - (q - p)
sub32-at_behind b p q h k = omega arith

pub add32-at : (b p n : ℕ) → add32 (at b p) n ≡ at b (p + n)
add32-at b p n = omega arith

-- Two places less than half the numbers apart compare as their numbers do.
pub seq-at :
    (b p q : ℕ)
    → p < q + 2 ^ 31
    → q < p + 2 ^ 31
    → (seq_lt (at b p) (at b q) ≡ ltb p q)
      × (seq_le (at b p) (at b q) ≡ leb p q)
      × (seq_gt (at b p) (at b q) ≡ ltb q p)
      × (seq_ge (at b p) (at b q) ≡ leb q p)
unfolding seq_lt seq_le seq_gt seq_ge
seq-at b p q h k = elim (dec_le q p) [
  | yes l ↦
      let e = sub32-at_ahead b p q l (omega arith) in
      rw e (ground arith, ground arith, ground arith, ground arith)
  | no l ↦
      let e = sub32-at_behind b p q (omega arith) (omega arith) in
      rw e (ground arith, ground arith, ground arith, ground arith)
]

-- A range of numbers may wrap: x is in it if it is not farther from its low end than the high end.
pub seq_within_lem :
    (x low high : ℕ)
    → x < 2 ^ 32
    → low < 2 ^ 32
    → high < 2 ^ 32
    → seq_within x low high ≡ leb (sub32 x low) (sub32 high low)
unfolding seq_within
seq_within_lem x low high h k l = ground arith

-- The same for places, where the range from p has n of them and x is near.
pub seq_within-at :
    (b x p n : ℕ)
    → 0 < n
    → n ≤ 2 ^ 31
    → x < p + 2 ^ 31
    → p < x + 2 ^ 31
    → seq_within (at b x) (at b p) (at b (p + n - 1)) ≡ leb p x && ltb x (p + n)
seq_within-at b x p n pos h k l =
    let e =
      seq_within_lem (at b x) (at b p) (at b (p + n - 1)) (omega arith) (omega arith)
        (omega arith) in
    let w = sub32-at_ahead b (p + n - 1) p (omega arith) (omega arith) in
    elim (dec_le p x) [
      | yes m ↦ rw (e, w, sub32-at_ahead b x p m (omega arith)) (ground arith)
      | no m ↦ rw (e, w, sub32-at_behind b x p (omega arith) (omega arith)) (ground arith)
    ]
