-- ===== src/Block/Moves.antt =====
-- What the pointer moves and the chain measures of Block.antt come to.
use nix_mark_iv.Prelude.{
  ℕ, ◌+◌, ◌-◌, ◌≤◌, ◌≡◌, refl, sym, min, List, [], ◌∷◌, ◌++◌, length, take, arith, length-append,
  length-take, length-drop, append_assoc, take-append-drop, drop-append, drop_all, drop,
}
use nix_mark_iv.Block.{
  Block, blen, balloc, advance, retreat, skip, write, truncate, contents, blocklen, blockalloclen,
}

pub length-contents : (bs : List Block) → length (contents bs) ≡ blocklen bs
length-contents [] = refl
length-contents (b ∷ bs) = omega (arith, length-append b.bytes (contents bs), length-contents bs)

pub contents-append : (bs cs : List Block) → contents (bs ++ cs) ≡ contents bs ++ contents cs
contents-append [] cs = refl
contents-append (b ∷ bs) cs =
    rw (contents-append bs cs) (sym (append_assoc b.bytes (contents bs) (contents cs)))

pub blocklen-append : (bs cs : List Block) → blocklen (bs ++ cs) ≡ blocklen bs + blocklen cs
blocklen-append [] cs = omega arith
blocklen-append (b ∷ bs) cs = omega (arith, blocklen-append bs cs)

pub blockalloclen-append :
    (bs cs : List Block) → blockalloclen (bs ++ cs) ≡ blockalloclen bs + blockalloclen cs
blockalloclen-append [] cs = omega arith
blockalloclen-append (b ∷ bs) cs = omega (arith, blockalloclen-append bs cs)

-- The buffer stays what it was: moving rp or wp inside it changes no allocation.
pub balloc-advance : (n : ℕ) (b : Block) → n ≤ blen b → balloc (advance n b) ≡ balloc b
unfolding advance
balloc-advance n b h =
    omega
      (arith, length-append b.hdr (take n b.bytes), length-take n b.bytes, length-drop n b.bytes)

pub balloc-write : (xs : List ℕ) (b : Block) → length xs ≤ b.room → balloc (write xs b) ≡ balloc b
unfolding write
balloc-write xs b h = omega (arith, length-append b.bytes xs)

pub balloc-truncate : (n : ℕ) (b : Block) → n ≤ blen b → balloc (truncate n b) ≡ balloc b
unfolding truncate
balloc-truncate n b h = omega (arith, length-take n b.bytes)

pub blen-advance : (n : ℕ) (b : Block) → blen (advance n b) ≡ blen b - n
unfolding advance
blen-advance n b = length-drop n b.bytes

pub blen-write : (xs : List ℕ) (b : Block) → blen (write xs b) ≡ blen b + length xs
unfolding write
blen-write xs b = length-append b.bytes xs

pub blen-truncate : (n : ℕ) (b : Block) → blen (truncate n b) ≡ min n (blen b)
unfolding truncate
blen-truncate n b = length-take n b.bytes

pub bytes-write : (xs : List ℕ) (b : Block) → (write xs b).bytes ≡ b.bytes ++ xs
unfolding write
bytes-write xs b = refl

pub contents-write :
    (xs : List ℕ) (b : Block) (next : List Block)
    → contents (write xs b ∷ next) ≡ b.bytes ++ (xs ++ contents next)
unfolding write
contents-write xs b next = append_assoc b.bytes xs (contents next)

-- Bytes copied from the front of the second block to the end of the first.
pub contents_shift :
    (n : ℕ) (b c : Block) (next : List Block)
    → contents (write (take n c.bytes) b ∷ advance n c ∷ next) ≡ contents (b ∷ c ∷ next)
unfolding advance
contents_shift n b c next = rw (
  contents-write (take n c.bytes) b (advance n c ∷ next),
  ← append_assoc (take n c.bytes) (drop n c.bytes) (contents next),
  take-append-drop n c.bytes,
)

pub room-write : (xs : List ℕ) (b : Block) → (write xs b).room ≡ b.room - length xs
unfolding write
room-write xs b = refl

-- rp -= n over n bytes of header: the data grows in front, the buffer stays.
pub retreat_lem :
    (n : ℕ) (b : Block)
    → n ≤ length b.hdr
    → (blen (retreat n b) ≡ n + blen b)
      × (drop n (retreat n b).bytes ≡ b.bytes)
      × (balloc (retreat n b) ≡ balloc b)
unfolding retreat
retreat_lem n b h =
    let top : length (drop (length b.hdr - n) b.hdr) ≡ n =
      omega (arith, length-drop (length b.hdr - n) b.hdr) in
    let z : n - length (drop (length b.hdr - n) b.hdr) ≡ 0 = omega arith in
    (
      omega (arith, length-append (drop (length b.hdr - n) b.hdr) b.bytes),
      rw (
        drop-append n (drop (length b.hdr - n) b.hdr) b.bytes,
        drop_all n (drop (length b.hdr - n) b.hdr) (omega arith),
        z,
      ),
      omega (
        arith,
        length-append (drop (length b.hdr - n) b.hdr) b.bytes,
        length-take (length b.hdr - n) b.hdr,
      ),
    )

pub skip_lem :
    (junk : List ℕ) (b : Block)
    → length junk ≤ b.room
    → (length (skip junk b).hdr ≡ length b.hdr + length junk)
      × ((skip junk b).bytes ≡ b.bytes)
      × ((skip junk b).room ≡ b.room - length junk)
      × (balloc (skip junk b) ≡ balloc b)
unfolding skip
skip_lem junk b h = (length-append b.hdr junk, refl, refl, omega (arith, length-append b.hdr junk))

pub hdr-write : (xs : List ℕ) (b : Block) → (write xs b).hdr ≡ b.hdr
unfolding write
hdr-write xs b = refl
