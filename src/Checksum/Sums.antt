-- ===== src/Checksum/Sums.antt =====
-- One's complement sums: the sum of the bytes by their places, sums that agree modulo 2^16 - 1, and
-- the fold of the carries.
use nix_mark_iv.Prelude.{
  ◌≢◌, inr, inl, ℕ, zero, suc, ◌+◌, ◌-◌, ◌*◌, ◌/◌, ◌%◌, ◌^◌, ◌≤◌, ◌<◌, ◌≡◌, refl, ◌∙◌, true, false,
  List, [], ◌∷◌, ◌++◌, length, ◌==◌, if◌then◌else◌, Bool-cases, arith,
}
use nix_mark_iv.Checksum.{plus, fold, join}

-- Two sums are the same in one's complement arithmetic.
pub record Agrees (a b : ℕ) : Type 0 where
  pub left : ℕ
  pub right : ℕ
  pub same : a + 65535 * left ≡ b + 65535 * right
  pub zeroth : a ≡ 0 → b ≡ 0
  pub zeroth' : b ≡ 0 → a ≡ 0

-- The representative: 0 only for the sum 0.
abbrev pub ones : ℕ → ℕ
ones a = if a == 0 then 0 else (a - 1) % 65535 + 1

ones_bound : (a : ℕ) → ones a < 65536
ones_bound a = ground arith

not_zero : {b : ℕ} → b ≢ 0 → (b == 0) ≡ false
not_zero h = ground arith

remainders :
    (a b p q : ℕ)
    → 0 < a
    → 0 < b
    → a + 65535 * p ≡ b + 65535 * q
    → (a - 1) % 65535 + 1 ≡ (b - 1) % 65535 + 1
remainders a b p q h h' e = omega arith

pub Agrees-ones : (a b : ℕ) → Agrees a b → ones a ≡ ones b
Agrees-ones a b h = elim (Bool-cases (a == 0)) [
  | inl z ↦ let a0 : a ≡ 0 = ground arith in let b0 = h.zeroth a0 in ground (arith, a0, b0)
  | inr n ↦
      let ne : a ≢ 0 = ground arith in
      let n' : (b == 0) ≡ false = not_zero (λ e. ne (h.zeroth' e)) in
      rw (n, n') (remainders a b h.left h.right (ground arith) (ground arith) h.same)
]

-- The sum of the bytes of 16-bit words in network order: a byte at an even place is the high byte.
-- `i` is the place of the first byte.
abbrev pub pos_sum : ℕ → List ℕ → ℕ
pos_sum i [] = 0
pos_sum i (x ∷ xs) = (if i % 2 == 0 then 256 * x else x) + pos_sum (suc i) xs

pub pos_sum_parity : (i j : ℕ) (xs : List ℕ) → i % 2 ≡ j % 2 → pos_sum i xs ≡ pos_sum j xs
pos_sum_parity i j [] h = refl
pos_sum_parity i j (x ∷ xs) h = ground (arith, pos_sum_parity (suc i) (suc j) xs)

pub pos_sum-append :
    (i : ℕ) (xs ys : List ℕ) → pos_sum i (xs ++ ys) ≡ pos_sum i xs + pos_sum (i + length xs) ys
pos_sum-append i [] ys = omega (arith, pos_sum_parity i (i + 0) ys (omega arith))
pos_sum-append i (x ∷ xs) ys = omega (
  arith,
  pos_sum-append (suc i) xs ys,
  pos_sum_parity (i + suc (length xs)) (suc i + length xs) ys (omega arith),
)

pub pos_sum-swap : (i : ℕ) (xs : List ℕ) → Agrees (256 * pos_sum i xs) (pos_sum (suc i) xs)
pos_sum-swap i [] = record {
  left = 0;
  right = 0;
  same = refl;
  zeroth = λ e. refl;
  zeroth' = λ e. refl;
}
pos_sum-swap i (x ∷ xs) =
    let h = pos_sum-swap (suc i) xs in
    let e = pos_sum_parity (suc (suc i)) i xs (omega arith) in
    elim (Bool-cases (i % 2 == 0)) [
      | inl even ↦
          let uneven : (suc i % 2 == 0) ≡ false = ground arith in
          rw (even, uneven)
            (record {
              left = h.left;
              right = h.right + x;
              same = omega (arith, h.same, e);
              zeroth = λ z. omega (arith, z, e, h.zeroth (omega arith));
              zeroth' = λ z. omega (arith, z, e, h.zeroth' (omega (arith, e)));
            })
      | inr uneven ↦
          let even : (suc i % 2 == 0) ≡ true = ground arith in
          rw (even, uneven)
            (record {
              left = h.left;
              right = h.right;
              same = omega (arith, h.same, e);
              zeroth = λ z. omega (arith, z, e, h.zeroth (omega arith));
              zeroth' = λ z. omega (arith, z, e, h.zeroth' (omega (arith, e)));
            })
    ]

-- Every value is a byte.
abbrev pub Bytes : List ℕ → Type 0
Bytes [] = Unit {0}
Bytes (x ∷ xs) = (x < 256) × Bytes xs

-- Folding ends with 16 bits, and changes nothing.
pub fold_lem : (fuel sum : ℕ) → sum < fuel → sum < 2 ^ 32 → fold fuel sum ≡ ones sum
unfolding fold
fold_lem zero sum h b = absurd (omega arith)
fold_lem (suc fuel) sum h b = elim (Bool-cases (sum / 65536 == 0)) [
  | inl small ↦ ground arith
  | inr carry ↦
      let big : 65536 ≤ sum = ground arith in
      let smaller : plus (sum / 65536) (sum % 65536) < fuel = omega arith in
      rw carry (
        fold_lem fuel (plus (sum / 65536) (sum % 65536)) smaller (omega arith)
        ∙ Agrees-ones (plus (sum / 65536) (sum % 65536)) sum (record {
          left = sum / 65536;
          right = 0;
          same = omega arith;
          zeroth = λ e. omega arith;
          zeroth' = λ e. omega arith;
        }))
]

pub Agrees-same : (a b : ℕ) → a ≡ b → Agrees a b
Agrees-same a b e = record {
  left = 0;
  right = 0;
  same = omega arith;
  zeroth = λ z. omega arith;
  zeroth' = λ z. omega arith;
}

pub Agrees-trans : (a b c : ℕ) → Agrees a b → Agrees b c → Agrees a c
Agrees-trans a b c h k = record {
  left = h.left + k.left;
  right = h.right + k.right;
  same = omega (arith, h.same, k.same);
  zeroth = λ z. k.zeroth (h.zeroth z);
  zeroth' = λ z. h.zeroth' (k.zeroth' z);
}

-- join adds the two sums, the second as high bytes.
pub join_lem :
    (losum hisum s : ℕ)
    → losum + hisum + 65280 < 2 ^ 32
    → Agrees (losum + 256 * hisum) s
    → join losum hisum % 65536 ≡ ones s
unfolding join
join_lem losum hisum s b h =
    let sum = losum + hisum / 256 + hisum % 256 * 256 in
    let same : plus (plus losum (hisum / 256)) (hisum % 256 * 256) ≡ sum = omega arith in
    let folded = fold_lem (suc sum) sum (omega arith) (omega arith) in
    let agree : Agrees sum (losum + 256 * hisum) = record {
      left = hisum / 256;
      right = 0;
      same = omega arith;
      zeroth = λ z. omega arith;
      zeroth' = λ z. omega arith;
    } in
    let e = Agrees-ones sum s (Agrees-trans sum (losum + 256 * hisum) s agree h) in
    rw same (omega (arith, folded, e, ones_bound s))
