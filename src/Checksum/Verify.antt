-- ===== src/Checksum/Verify.antt =====
-- A sum that was written into the data is found right by the receiver.
use nix_mark_iv.Prelude.{
  ℕ, ◌+◌, ◌-◌, ◌/◌, ◌%◌, ◌≤◌, ◌<◌, ◌≡◌, refl, ap, ◌∙◌, Bool, List, [], ◌∷◌, ◌++◌, length, arith,
  take_all, length-append,
}
use nix_mark_iv.Block.{Block, contents, blocklen}
use nix_mark_iv.Checksum.{ptclcsum}
use nix_mark_iv.Checksum.Sums.{ones, pos_sum, pos_sum-append, pos_sum_parity, Bytes}
use nix_mark_iv.Checksum.Chain.{ptclcsum_lem}

length-contents : (bs : List Block) → length (contents bs) ≡ blocklen bs
length-contents [] = refl
length-contents (b ∷ bs) = omega (arith, length-append b.bytes (contents bs), length-contents bs)

-- The data with the two bytes of a field at an even place.
abbrev pub with_field : List ℕ → ℕ → List ℕ → List ℕ
with_field front c back = front ++ c / 256 ∷ c % 256 ∷ back

pos_sum-with_field :
    (front back : List ℕ) (c : ℕ)
    → length front % 2 ≡ 0
    → pos_sum 0 (with_field front c back) ≡ pos_sum 0 (with_field front 0 back) + c
pos_sum-with_field front back c e =
    let p = λ (xs : List ℕ). pos_sum_parity (0 + length front) 0 xs (omega (arith, e)) in
    omega (
      arith,
      pos_sum-append 0 front (c / 256 ∷ c % 256 ∷ back),
      pos_sum-append 0 front (0 ∷ 0 ∷ back),
      p (c / 256 ∷ c % 256 ∷ back),
      p (0 ∷ 0 ∷ back),
    )

all_ones : (s : ℕ) → ones (s + (65535 - ones s)) ≡ 65535
all_ones s = ground arith

whole_lem :
    (little : Bool) (odd_at : Block → ℕ → Bool) (bs : List Block)
    → Bytes (contents bs)
    → blocklen bs ≤ 65536
    → 0 < blocklen bs
    → ptclcsum little odd_at bs 0 (blocklen bs) ≡ 65535 - ones (pos_sum 0 (contents bs))
whole_lem little odd_at bs h w pos =
    ptclcsum_lem little odd_at bs 0 (blocklen bs) h w pos
    ∙ ap (λ xs. 65535 - ones (pos_sum 0 xs))
        (take_all (blocklen bs) (contents bs) (omega (arith, length-contents bs)))

-- Where a chain is sent with its ptclcsum in a field at an even place that was 0 when the sum was
-- taken, ptclcsum of what arrives is 0, however the two chains are cut into blocks.
pub ptclcsum-verifies :
    (little little' : Bool) (odd_at odd_at' : Block → ℕ → Bool) (bs cs : List Block)
    (front back : List ℕ)
    → length front % 2 ≡ 0
    → Bytes (contents bs)
    → Bytes (contents cs)
    → blocklen bs ≤ 65536
    → contents bs ≡ with_field front 0 back
    → contents cs ≡ with_field front (ptclcsum little odd_at bs 0 (blocklen bs)) back
    → ptclcsum little' odd_at' cs 0 (blocklen cs) ≡ 0
ptclcsum-verifies little little' odd_at odd_at' bs cs front back even h k w e f =
    let c = ptclcsum little odd_at bs 0 (blocklen bs) in
    let s = pos_sum 0 (contents bs) in
    let n = length-append front (0 ∷ 0 ∷ back) in
    let n' = length-append front (c / 256 ∷ c % 256 ∷ back) in
    let long : length front + 2 + length back ≡ blocklen bs =
      omega (arith, n, ap length e, length-contents bs) in
    let long' : length front + 2 + length back ≡ blocklen cs =
      omega (arith, n', ap length f, length-contents cs) in
    let sent = whole_lem little odd_at bs h w (omega (arith, long)) in
    let got = whole_lem little' odd_at' cs k (omega (arith, long, long')) (omega (arith, long')) in
    let sum : pos_sum 0 (contents cs) ≡ s + (65535 - ones s) =
      ap (pos_sum 0) f
      ∙ pos_sum-with_field front back c even
      ∙ omega (arith, sent, ap (pos_sum 0) e) in
    got ∙ ap (λ m. 65535 - ones m) sum ∙ omega (arith, all_ones s)
