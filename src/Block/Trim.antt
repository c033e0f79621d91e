-- ===== src/Block/Trim.antt =====
-- Cutting chains: trimblock, pullblock and bl2mem against `take` and `drop` on the data.
use nix_mark_iv.Prelude.{
  if◌then◌else◌, ltb, ℕ, ◌+◌, ◌-◌, ◌≤◌, min, ◌≡◌, sym, List, [], ◌∷◌, ◌++◌, take, drop, arith,
  append-nil, take-append, drop-append, take_all, drop_all, take-nil, drop-nil,
}
use nix_mark_iv.Block.{Block, blen, advance, truncate, contents, blocklen}
use nix_mark_iv.Block.Chain.{skip_to, cut_at, trimblock, pullblock, bl2mem}

module _ (n : ℕ) (b : Block) (next : List Block) where
  -- Slices of a chain that end inside its first block, or beyond it.
  pub take_inside : n ≤ blen b → take n (contents (b ∷ next)) ≡ take n b.bytes
  take_inside h =
      let e : n - blen b ≡ 0 = omega arith in
      rw (take-append n b.bytes (contents next), e, append-nil)

  pub take_beyond :
      blen b ≤ n → take n (contents (b ∷ next)) ≡ b.bytes ++ take (n - blen b) (contents next)
  take_beyond h = rw (take-append n b.bytes (contents next), take_all n b.bytes h)

  pub drop_inside : n ≤ blen b → drop n (contents (b ∷ next)) ≡ contents (advance n b ∷ next)
  unfolding advance
  drop_inside h =
      let e : n - blen b ≡ 0 = omega arith in rw (drop-append n b.bytes (contents next), e)

  pub drop_beyond : blen b ≤ n → drop n (contents (b ∷ next)) ≡ drop (n - blen b) (contents next)
  drop_beyond h = rw (drop-append n b.bytes (contents next), drop_all n b.bytes h)

skip_to-drop :
    (bs : List Block) (offset : ℕ) → contents (skip_to bs offset) ≡ drop offset (contents bs)
unfolding skip_to
skip_to-drop [] offset = sym (drop-nil offset)
skip_to-drop (b ∷ next) offset = ground (
  arith,
  skip_to-drop next (offset - blen b),
  drop_inside offset b next,
  drop_beyond offset b next,
)

cut_at-take : (bs : List Block) (len : ℕ) → contents (cut_at bs len) ≡ take len (contents bs)
unfolding cut_at truncate
cut_at-take [] len = sym (take-nil len)
cut_at-take (b ∷ next) len = ground (
  arith,
  cut_at-take next (len - blen b),
  take_inside len b next,
  take_beyond len b next,
  append-nil (take len b.bytes),
)

-- trimblock keeps exactly the len bytes from the offset on, of a chain that has them, and nothing
-- of a chain that is too short.
pub trimblock_lem :
    (bs : List Block) (offset len : ℕ)
    → contents (trimblock bs offset len)
      ≡ (if ltb (blocklen bs) (offset + len) then [] else take len (drop offset (contents bs)))
unfolding trimblock
trimblock_lem bs offset len =
    ground (arith, cut_at-take (skip_to bs offset) len, skip_to-drop bs offset)

-- pullblock throws away the first count bytes, or all of a shorter chain, and says how many.
pub pullblock_lem :
    (bs : List Block) (count : ℕ)
    → ((pullblock bs count).0 ≡ min count (blocklen bs))
      × (contents (pullblock bs count).1 ≡ drop count (contents bs))
unfolding pullblock
pullblock_lem [] count = (omega arith, sym (drop-nil count))
pullblock_lem (b ∷ next) count = ground (
  arith,
  pullblock_lem next (count - min count (blen b)),
  drop_inside count b next,
  drop_beyond count b next,
)

-- bl2mem copies the first n bytes, or all of a shorter chain, and returns the rest.
pub bl2mem_lem :
    (bs : List Block) (n : ℕ)
    → ((bl2mem bs n).0 ≡ take n (contents bs)) × (contents (bl2mem bs n).1 ≡ drop n (contents bs))
unfolding bl2mem
bl2mem_lem [] n = (sym (take-nil n), sym (drop-nil n))
bl2mem_lem (b ∷ next) n = ground (
  arith,
  bl2mem_lem next (n - blen b),
  take_inside n b next,
  take_beyond n b next,
  drop_inside n b next,
  drop_beyond n b next,
)
