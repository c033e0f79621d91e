-- ===== src/Checksum.antt =====
-- The Internet checksum: ptclbsum of ip/ptclbsum.c over the bytes at an address, and ptclcsum of
-- ip/ipaux.c over a chain of blocks. `little` is the byte order of the machine (LITTLE), `odd`
-- says whether the address is odd. A ulong has 32 bits; shifts and masks are divisions and
-- remainders. Offsets and lengths are not negative.
pub mod Sums
pub mod Bytes
pub mod Pieces
pub mod Chain
pub mod Verify
use nix_mark_iv.Prelude.{
  ℕ, zero, suc, ◌+◌, ◌-◌, ◌*◌, ◌/◌, ◌%◌, ◌^◌, min, Bool, true, false, List, [], ◌∷◌, length, take,
  drop, leb, ltb, ◌==◌, ◌||◌, if◌then◌else◌,
}
use nix_mark_iv.Block.{Block, blen}

-- *(ushort*)addr
abbrev pub word : Bool → ℕ → ℕ → ℕ
word true a b = a + 256 * b
word false a b = 256 * a + b

abbrev pub plus : ℕ → ℕ → ℕ
plus a b = (a + b) % 2 ^ 32

-- One word is added to `mdsum`, and the address moves on, if there are two bytes.
unfoldable pub add_word : Bool → ℕ × List ℕ → ℕ × List ℕ
add_word little (mdsum, a ∷ b ∷ xs) = (plus mdsum (word little a b), xs)
add_word little (mdsum, xs) = (mdsum, xs)

abbrev pub add_4_words : Bool → ℕ × List ℕ → ℕ × List ℕ
add_4_words little s = add_word little (add_word little (add_word little (add_word little s)))

-- The body of the loop over 16 bytes.
abbrev pub add_8_words : Bool → ℕ × List ℕ → ℕ × List ℕ
add_8_words little s = add_4_words little (add_4_words little s)

-- The loop over 16 bytes; each round uses some of the fuel.
unfoldable pub by_16 : Bool → ℕ → ℕ × List ℕ → ℕ × List ℕ
by_16 little zero s = s
by_16 little (suc fuel) s =
    let rest = by_16 little fuel (add_8_words little s) in if leb 16 (length s.1) then rest else s

-- The loop over 2 bytes.
unfoldable pub by_2 : Bool → ℕ → List ℕ → ℕ × List ℕ
by_2 little mdsum [] = (mdsum, [])
by_2 little mdsum (a ∷ []) = (mdsum, a ∷ [])
by_2 little mdsum (a ∷ b ∷ xs) = by_2 little (plus mdsum (word little a b)) xs

-- addr[0] if there is a byte left.
abbrev pub byte_left : List ℕ → ℕ
byte_left [] = 0
byte_left (a ∷ xs) = a

-- The carries are added until none is left.
unfoldable pub fold : ℕ → ℕ → ℕ
fold zero sum = sum
fold (suc fuel) sum =
    let rest = fold fuel (plus (sum / 65536) (sum % 65536)) in
    if sum / 65536 == 0 then sum else rest

-- losum += hisum >> 8; losum += (hisum & 0xff) << 8; and the carries.
unfoldable pub join : ℕ → ℕ → ℕ
join losum hisum =
    let sum = plus (plus losum (hisum / 256)) (hisum % 256 * 256) in fold (suc sum) sum

-- The words of the bytes that follow the byte at an odd address, and the sums.
unfoldable pub sums : Bool → Bool → List ℕ → ℕ × ℕ
sums little odd xs =
    let first = if odd then byte_left xs else 0 in
    let ys = if odd then drop 1 xs else xs in
    let s = by_16 little (length ys) (0, ys) in
    let (mdsum, zs) = by_2 little s.0 s.1 in
    let last = byte_left zs in
    if odd
    then if little then (plus last mdsum, first) else (last, plus first mdsum)
    else if little
    then (0, plus last mdsum)
    else (mdsum, last)

unfoldable pub ptclbsum : Bool → Bool → List ℕ → ℕ
ptclbsum little odd xs = let (losum, hisum) = sums little odd xs in join losum hisum % 65536

-- The loop that skips the blocks before the offset.
unfoldable pub skip_blocks : ℕ → List Block → ℕ × List Block
skip_blocks offset [] = (offset, [])
skip_blocks offset (b ∷ bs) =
    let rest = skip_blocks (offset - blen b) bs in
    if offset == 0 || ltb offset (blen b) then (offset, b ∷ bs) else rest

-- The sum of a block counts as high bytes, or as low bytes after an odd number of bytes.
unfoldable pub add_piece : ℕ → ℕ → ℕ × ℕ → ℕ × ℕ
add_piece odd csum (losum, hisum) =
    if odd == 0 then (plus losum csum, hisum) else (losum, plus hisum csum)

-- The loop over the blocks. `odd_at b i` says whether the address of byte `i` of `b` is odd.
unfoldable pub over_blocks : Bool → (Block → ℕ → Bool) → ℕ → ℕ → ℕ → ℕ × ℕ → List Block → ℕ × ℕ
over_blocks little odd_at offset len odd s [] = s
over_blocks little odd_at offset len odd s (b ∷ bs) =
    let x = if ltb len (blen b - offset) then len else blen b - offset in
    let csum = ptclbsum little (odd_at b offset) (take x (drop offset b.bytes)) in
    let rest = over_blocks little odd_at 0 (len - x) ((odd + x) % 2) (add_piece odd csum s) bs in
    if len == 0 then s else rest

-- What follows that loop, for the three lengths of the rest of the chain.
unfoldable pub csum_at : Bool → (Block → ℕ → Bool) → ℕ → ℕ → List Block → ℕ
csum_at little odd_at len offset [] = 0
csum_at little odd_at len offset (b ∷ []) =
    let x = if ltb (blen b - offset) len then blen b - offset else len in
    65535 - ptclbsum little (odd_at b offset) (take x (drop offset b.bytes))
csum_at little odd_at len offset (b ∷ c ∷ cs) =
    let (losum, hisum) = over_blocks little odd_at offset len 0 (0, 0) (b ∷ c ∷ cs) in
    65535 - join losum hisum % 65536

unfoldable pub ptclcsum : Bool → (Block → ℕ → Bool) → List Block → ℕ → ℕ → ℕ
ptclcsum little odd_at bs offset len =
    let (offset, bs) = skip_blocks offset bs in csum_at little odd_at len offset bs
