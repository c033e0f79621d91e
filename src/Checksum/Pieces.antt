-- ===== src/Checksum/Pieces.antt =====
-- The sums of the pieces of a sequence of bytes.
use nix_mark_iv.Prelude.{
  ℕ, zero, suc, ◌+◌, ◌-◌, ◌*◌, ◌/◌, ◌^◌, ◌≤◌, ◌<◌, ◌≡◌, subst, Bool, List, [], ◌∷◌, ◌++◌, length,
  ◌==◌, inl, inr, Bool-cases, arith, take, drop, min, length-take, ◌%◌, sym, ap, ◌∙◌,
  take-append_min, drop-append,
}
use nix_mark_iv.Checksum.{add_piece, ptclbsum}
use nix_mark_iv.Checksum.Sums.{
  Agrees, Agrees-same, ones, pos_sum, pos_sum_parity, pos_sum-append, pos_sum-swap, Bytes,
  Agrees-trans,
}
use nix_mark_iv.Checksum.Bytes.{ptclbsum_lem, Summed}

pub Bytes-append : (xs ys : List ℕ) → Bytes (xs ++ ys) → Bytes xs × Bytes ys
Bytes-append [] ys h = (tt, h)
Bytes-append (x ∷ xs) ys (p, h) = let (h, k) = Bytes-append xs ys h in ((p, h), k)

pub Bytes-take : (n : ℕ) (xs : List ℕ) → Bytes xs → Bytes (take n xs)
Bytes-take zero xs h = tt
Bytes-take (suc n) [] h = tt
Bytes-take (suc n) (x ∷ xs) (p, h) = (p, Bytes-take n xs h)

pub Bytes-drop : (n : ℕ) (xs : List ℕ) → Bytes xs → Bytes (drop n xs)
Bytes-drop zero xs h = h
Bytes-drop (suc n) [] h = tt
Bytes-drop (suc n) (x ∷ xs) (p, h) = Bytes-drop n xs h

Agrees-plus : (a b c d : ℕ) → Agrees a b → Agrees c d → Agrees (a + c) (b + d)
Agrees-plus a b c d h k = record {
  left = h.left + k.left;
  right = h.right + k.right;
  same = omega (arith, h.same, k.same);
  zeroth = λ z. omega (arith, h.zeroth (omega (arith, z)), k.zeroth (omega (arith, z)));
  zeroth' = λ z. omega (arith, h.zeroth' (omega (arith, z)), k.zeroth' (omega (arith, z)));
}

ones-Agrees : (a : ℕ) → Agrees (ones a) a
ones-Agrees a = record {
  left = (a - 1) / 65535;
  right = 0;
  same = ground arith;
  zeroth = λ z. ground arith;
  zeroth' = λ z. ground arith;
}

Agrees-high : (a b : ℕ) → Agrees a b → Agrees (256 * a) (256 * b)
Agrees-high a b h = record {
  left = 256 * h.left;
  right = 256 * h.right;
  same = omega (arith, h.same);
  zeroth = λ z. omega (arith, h.zeroth (omega (arith, z)));
  zeroth' = λ z. omega (arith, h.zeroth' (omega (arith, z)));
}

ones-length : (d : List ℕ) → ones (pos_sum 0 d) ≤ 65535 * length d
ones-length [] = omega arith
ones-length (x ∷ xs) = ground arith

-- The sum of a piece, at an even or at an odd place of the whole.
pub piece_lem :
    (little at : Bool) (odd lo hi n : ℕ) (d : List ℕ)
    → odd < 2
    → Bytes d
    → length d ≤ 65536
    → lo + hi + 65535 * length d < 2 ^ 32
    → Agrees (lo + 256 * hi) n
    → let s = add_piece odd (ptclbsum little at d) (lo, hi) in
      (s.0 + s.1 ≤ lo + hi + 65535 * length d) × Agrees (s.0 + 256 * s.1) (n + pos_sum odd d)
unfolding add_piece
piece_lem little at odd lo hi n d o h b w a =
    let e = ptclbsum_lem little at d h b in
    let csum = ones (pos_sum 0 d) in
    let m = ones-Agrees (pos_sum 0 d) in
    let c = ones-length d in
    elim (Bool-cases (odd == 0)) [
      | inl even ↦
          let z : odd ≡ 0 = ground arith in
          let p = pos_sum_parity 0 odd d (omega (arith, z)) in
          rw (e, even)
            (
              omega (arith, c),
              Agrees-trans _ (lo + 256 * hi + csum) _ (Agrees-same _ _ (omega (arith, c)))
                  (subst (λ x. Agrees (lo + 256 * hi + csum) (n + x)) p (Agrees-plus _ _ _ _ a m)),
            )
      | inr uneven ↦
          let z : odd ≡ 1 = ground arith in
          let p = pos_sum_parity 1 odd d (omega (arith, z)) in
          let m' = Agrees-trans _ _ _ (Agrees-high _ _ m) (pos_sum-swap 0 d) in
          rw (e, uneven)
            (
              omega (arith, c),
              Agrees-trans _ (lo + 256 * hi + 256 * csum) _ (Agrees-same _ _ (omega (arith, c))) (
                  subst (λ x. Agrees (lo + 256 * hi + 256 * csum) (n + x)) p
                    (Agrees-plus _ _ _ _ a m')),
            )
    ]

pub unchanged :
    (s : ℕ × ℕ) (odd n : ℕ) (xs : List ℕ)
    → xs ≡ []
    → s.0 + s.1 + 65280 < 2 ^ 32
    → Agrees (s.0 + 256 * s.1) n
    → Summed s (n + pos_sum odd xs)
unchanged s odd n xs e w a =
    let z : n ≡ n + pos_sum odd xs = rw e (sym (omega arith)) in
    (w, subst (Agrees (s.0 + 256 * s.1)) z a)

-- The bytes of a block and of the rest of the chain.
pub pieces_sum :
    (len offset odd x : ℕ) (xs ys : List ℕ)
    → x ≡ min (length (drop offset xs)) len
    → offset ≤ length xs
    → pos_sum odd (take len (drop offset (xs ++ ys)))
      ≡ pos_sum odd (take x (drop offset xs)) + pos_sum ((odd + x) % 2) (take (len - x) ys)
pieces_sum len offset odd x xs ys e f =
    let d = drop offset xs in
    let whole : drop offset (xs ++ ys) ≡ d ++ ys =
      let z : offset - length xs ≡ 0 = omega arith in
      drop-append offset xs ys ∙ ap (λ n. d ++ drop n ys) z in
    let pieces = take-append_min len d ys ∙ ap (λ m. take m d ++ take (len - m) ys) (sym e) in
    let long : length (take x d) ≡ x = omega (arith, length-take x d, e) in
    rw (whole, pieces)
      (omega (
        arith,
        pos_sum-append odd (take x d) (take (len - x) ys),
        pos_sum_parity (odd + length (take x d)) ((odd + x) % 2) (take (len - x) ys)
            (omega (arith, long)),
      ))
