-- ===== src/Checksum/Bytes.antt =====
-- ptclbsum is the one's complement sum of the 16-bit words in network order, whatever the byte order
-- of the machine and the alignment of the address.
use nix_mark_iv.Prelude.{
  inr, inl, ℕ, zero, suc, ◌+◌, ◌*◌, ◌/◌, ◌^◌, ◌≤◌, ◌<◌, ◌≡◌, refl, sym, ap, ◌∙◌, Bool, true, false,
  List, [], ◌∷◌, length, Bool-cases, arith, leb,
}
use nix_mark_iv.Checksum.{
  plus, word, add_word, add_4_words, add_8_words, by_16, by_2, byte_left, sums, ptclbsum,
}
use nix_mark_iv.Checksum.Sums.{
  Agrees-same, Agrees, ones, pos_sum, pos_sum_parity, pos_sum-swap, Bytes, join_lem, Agrees-trans,
}

-- The words of 16 bits as the machine reads them, and the byte that is left.
word_sum : Bool → List ℕ → ℕ
word_sum little [] = 0
word_sum little (a ∷ []) = 0
word_sum little (a ∷ b ∷ xs) = word little a b + word_sum little xs

odd_byte : List ℕ → List ℕ
odd_byte [] = []
odd_byte (a ∷ []) = a ∷ []
odd_byte (a ∷ b ∷ xs) = odd_byte xs

word-bound : (little : Bool) (a b : ℕ) → a < 256 → b < 256 → word little a b < 65536
word-bound true a b h k = omega arith
word-bound false a b h k = omega arith

word_sum-bound :
    (little : Bool) (xs : List ℕ) → Bytes xs → word_sum little xs ≤ 65535 * (length xs / 2)
unfolding word_sum
word_sum-bound little [] h = omega arith
word_sum-bound little (a ∷ []) h = omega arith
word_sum-bound little (a ∷ b ∷ xs) (p, (q, h)) =
    omega (arith, word_sum-bound little xs h, word-bound little a b p q)

by_2_lem :
    (little : Bool) (mdsum : ℕ) (xs : List ℕ)
    → mdsum + word_sum little xs < 2 ^ 32
    → by_2 little mdsum xs ≡ (mdsum + word_sum little xs, odd_byte xs)
unfolding by_2 word_sum odd_byte
by_2_lem little mdsum [] h = ap (λ n. (n, [])) (sym (omega arith))
by_2_lem little mdsum (a ∷ []) h = ap (λ n. (n, a ∷ [])) (sym (omega arith))
by_2_lem little mdsum (a ∷ b ∷ xs) h =
    let e : plus mdsum (word little a b) ≡ mdsum + word little a b = omega arith in
    rw e (
      by_2_lem little (mdsum + word little a b) xs (omega arith)
      ∙ ap (λ n. (n, odd_byte xs)) (omega arith))

-- The loop over 16 bytes does the work of the loop over 2.
by_2-add_word :
    (little : Bool) (s : ℕ × List ℕ)
    → by_2 little (add_word little s).0 (add_word little s).1 ≡ by_2 little s.0 s.1
unfolding by_2 add_word
by_2-add_word little (mdsum, []) = refl
by_2-add_word little (mdsum, a ∷ []) = refl
by_2-add_word little (mdsum, a ∷ b ∷ xs) = refl

by_2-add_4_words :
    (little : Bool) (s : ℕ × List ℕ)
    → by_2 little (add_4_words little s).0 (add_4_words little s).1 ≡ by_2 little s.0 s.1
by_2-add_4_words little s =
    by_2-add_word little (add_word little (add_word little (add_word little s)))
    ∙ by_2-add_word little (add_word little (add_word little s))
    ∙ by_2-add_word little (add_word little s)
    ∙ by_2-add_word little s

by_2-by_16 :
    (little : Bool) (fuel : ℕ) (s : ℕ × List ℕ)
    → by_2 little (by_16 little fuel s).0 (by_16 little fuel s).1 ≡ by_2 little s.0 s.1
unfolding by_16
by_2-by_16 little zero s = refl
by_2-by_16 little (suc fuel) s = elim (Bool-cases (leb 16 (length s.1))) [
  | inl more ↦ rw more (
      by_2-by_16 little fuel (add_8_words little s)
      ∙ by_2-add_4_words little (add_4_words little s)
      ∙ by_2-add_4_words little s)
  | inr less ↦ rw less refl
]

-- The place of the first byte that makes the words of the machine high byte first, or last.
abbrev first_place : Bool → ℕ
first_place true = 1
first_place false = 0

abbrev left_value : Bool → ℕ → ℕ
left_value true a = a
left_value false a = 256 * a

word_sum-pos_sum :
    (little : Bool) (xs : List ℕ)
    → word_sum little xs + left_value little (byte_left (odd_byte xs))
      ≡ pos_sum (first_place little) xs
unfolding word_sum odd_byte
word_sum-pos_sum true [] = omega arith
word_sum-pos_sum true (a ∷ []) = omega arith
word_sum-pos_sum true (a ∷ b ∷ xs) =
    omega (arith, word_sum-pos_sum true xs, pos_sum_parity 3 1 xs refl)
word_sum-pos_sum false [] = omega arith
word_sum-pos_sum false (a ∷ []) = omega arith
word_sum-pos_sum false (a ∷ b ∷ xs) =
    omega (arith, word_sum-pos_sum false xs, pos_sum_parity 2 0 xs refl)

odd_byte-bound : (xs : List ℕ) → Bytes xs → byte_left (odd_byte xs) < 256
unfolding odd_byte
odd_byte-bound [] h = omega arith
odd_byte-bound (a ∷ []) (p, h) = p
odd_byte-bound (a ∷ b ∷ xs) (p, (q, h)) = odd_byte-bound xs h

-- What the two loops leave.
loops_lem :
    (little : Bool) (ys : List ℕ)
    → Bytes ys
    → length ys ≤ 65536
    → let s = by_16 little (length ys) (0, ys) in
      by_2 little s.0 s.1 ≡ (word_sum little ys, odd_byte ys)
loops_lem little ys h b =
    by_2-by_16 little (length ys) (0, ys)
    ∙ by_2_lem little 0 ys (omega (arith, word_sum-bound little ys h))
    ∙ ap (λ n. (n, odd_byte ys)) (omega arith)

abbrev pub Summed : ℕ × ℕ → ℕ → Type 0
Summed s n = (s.0 + s.1 + 65280 < 2 ^ 32) × Agrees (s.0 + 256 * s.1) n

-- From an even address the words of the machine are those of the network, or have their bytes
-- swapped.
sums_even :
    (little : Bool) (xs : List ℕ)
    → Bytes xs
    → length xs ≤ 65536
    → Summed (sums little false xs) (pos_sum 0 xs)
unfolding sums by_2 by_16
sums_even true xs h b =
    let w = word_sum true xs in
    let t = byte_left (odd_byte xs) in
    let bound = word_sum-bound true xs h in
    let bound' = odd_byte-bound xs h in
    let e : plus t w ≡ pos_sum 1 xs = omega (arith, word_sum-pos_sum true xs, bound, bound') in
    let e' = pos_sum_parity 2 0 xs refl in
    let swapped =
      Agrees-trans (0 + 256 * plus t w) (256 * pos_sum 1 xs) (pos_sum 2 xs)
        (Agrees-same _ _ (omega (arith, e))) (pos_sum-swap 1 xs) in
    rw (loops_lem true xs h b) (
      omega (arith, bound),
      Agrees-trans (0 + 256 * plus t w) (pos_sum 2 xs) (pos_sum 0 xs) swapped (Agrees-same _ _ e'),
    )
sums_even false xs h b =
    let bound = word_sum-bound false xs h in
    let bound' = odd_byte-bound xs h in
    rw (loops_lem false xs h b)
      (omega (arith, bound, bound'), Agrees-same _ _ (omega (arith, word_sum-pos_sum false xs)))

-- From an odd address the first byte stands alone.
sums_odd :
    (little : Bool) (xs : List ℕ)
    → Bytes xs
    → length xs ≤ 65536
    → Summed (sums little true xs) (pos_sum 0 xs)
unfolding sums by_2 by_16
sums_odd true [] h b = (omega arith, Agrees-same _ _ refl)
sums_odd false [] h b = (omega arith, Agrees-same _ _ refl)
sums_odd true (x ∷ xs) (p, h) b =
    let bound = word_sum-bound true xs h in
    let bound' = odd_byte-bound xs h in
    rw (loops_lem true xs h (omega arith)) (
      omega (arith, bound, bound'),
      Agrees-same _ _ (omega (arith, word_sum-pos_sum true xs, bound, bound')),
    )
sums_odd false (x ∷ xs) (p, h) b =
    let w = word_sum false xs in
    let t = byte_left (odd_byte xs) in
    let bound = word_sum-bound false xs h in
    let bound' = odd_byte-bound xs h in
    let e : plus x w ≡ x + w = omega (arith, bound) in
    let s = pos_sum-swap 0 xs in
    let f = word_sum-pos_sum false xs in
    rw (loops_lem false xs h (omega arith)) (
      omega (arith, bound, bound'),
      record {
        left = s.left + t;
        right = s.right;
        same = omega (arith, e, f, s.same);
        zeroth = λ z. let z' = s.zeroth (omega (arith, z, e, f)) in omega (arith, z, z', e);
        zeroth' = λ z. let z' = s.zeroth' (omega (arith, z)) in omega (arith, z, z', e, f);
      },
    )

sums_lem :
    (little odd : Bool) (xs : List ℕ)
    → Bytes xs
    → length xs ≤ 65536
    → Summed (sums little odd xs) (pos_sum 0 xs)
sums_lem little false xs h b = sums_even little xs h b
sums_lem little true xs h b = sums_odd little xs h b

-- For up to 65536 bytes, ptclbsum is the one's complement sum of the 16-bit words that the bytes
-- make in network order, a last odd byte being a high byte; on machines of either byte order and at
-- even and odd addresses.
pub ptclbsum_lem :
    (little odd : Bool) (xs : List ℕ)
    → Bytes xs
    → length xs ≤ 65536
    → ptclbsum little odd xs ≡ ones (pos_sum 0 xs)
unfolding ptclbsum
ptclbsum_lem little odd xs h b =
    let s = sums little odd xs in
    let (bound, agree) = sums_lem little odd xs h b in join_lem s.0 s.1 (pos_sum 0 xs) bound agree
