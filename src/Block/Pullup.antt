-- ===== src/Block/Pullup.antt =====
-- pullupblock: bytes move between blocks, and the data of the chain stays as it was.
use nix_mark_iv.Prelude.{
  ℕ, ◌+◌, ◌-◌, ◌≤◌, ◌<◌, ◌≡◌, ◌⊎◌, inl, inr, refl, ap, ◌∙◌, Option, none, some, List, [], ◌∷◌, ◌++◌,
  length, take, arith, ltb, leb, ◌==◌, Bool-cases, length-take, true,
}
use nix_mark_iv.Block.{Block, Allocator, blen, balloc, advance, write, contents, blocklen}
use nix_mark_iv.Block.Chain.{pull_into, pullupblock}
use nix_mark_iv.Block.Moves.{blen-write, balloc-write, room-write, contents-write, contents_shift}

-- What a call that pulls n bytes into `bp` gives.
abbrev pub Pulled : Block → List Block → ℕ → Option (List Block) → Type 0
Pulled bp next n r =
    (b : Block) × (rest : List Block) × (r ≡ some (b ∷ rest))
    × (contents (b ∷ rest) ≡ bp.bytes ++ contents next)
    × (blen b ≡ blen bp + n)
    × (balloc b ≡ balloc bp)

-- A round that used up the second block leaves the rest to be pulled.
Pulled-write :
    (bp nbp : Block) (next : List Block) (n : ℕ) {r : Option (List Block)}
    → blen nbp ≤ n
    → n ≤ bp.room
    → Pulled (write nbp.bytes bp) next (n - blen nbp) r
    → Pulled bp (nbp ∷ next) n r
Pulled-write bp nbp next n h room (b, rest, e, c, l, m) = (
  b,
  rest,
  e,
  c ∙ contents-write nbp.bytes bp next,
  ground (arith, blen-write nbp.bytes bp),
  ground (arith, balloc-write nbp.bytes bp),
)

pull_into-Pulled :
    (bp : Block) (next : List Block) (n : ℕ)
    → 0 < n
    → n ≤ blocklen next
    → n ≤ bp.room
    → Pulled bp next n (pull_into bp next n)
unfolding pull_into
pull_into-Pulled bp [] n pos h room = absurd (omega arith)
pull_into-Pulled bp (nbp ∷ next) n pos h room = elim (Bool-cases (ltb n (blen nbp))) [
  | inl less ↦ rw less (
    write (take n nbp.bytes) bp,
    advance n nbp ∷ next,
    refl,
    contents_shift n bp nbp next,
    ground (arith, blen-write (take n nbp.bytes) bp, length-take n nbp.bytes),
    ground (arith, balloc-write (take n nbp.bytes) bp, length-take n nbp.bytes),
  )
  | inr more ↦ elim (Bool-cases (n - blen nbp == 0)) [
    | inl done ↦
        rw (more, done)
          (
            write nbp.bytes bp,
            next,
            refl,
            contents-write nbp.bytes bp next,
            ground (arith, blen-write nbp.bytes bp),
            ground (arith, balloc-write nbp.bytes bp),
          )
    | inr left ↦
        rw (more, left)
          (Pulled-write bp nbp next n (ground arith) room (
            pull_into-Pulled (write nbp.bytes bp) next (n - blen nbp) (ground arith) (ground arith)
              (ground (arith, room-write nbp.bytes bp))))
  ]
]

pull_into_short :
    (bp : Block) (next : List Block) (n : ℕ) → blocklen next < n → pull_into bp next n ≡ none
unfolding pull_into
pull_into_short bp [] n h = refl
pull_into_short bp (nbp ∷ next) n h =
    ground (arith, pull_into_short (write nbp.bytes bp) next (n - blen nbp))

module _ (a : Allocator) (bp : Block) (next : List Block) (n : ℕ) where
  -- A chain with at least n bytes comes back with the same data, the first n bytes in its first
  -- block, and that block's buffer is the old first one or a new one: nothing was written past it.
  pub pullupblock_lem :
      n ≤ blocklen (bp ∷ next)
      → (b : Block) × (rest : List Block) × (pullupblock a bp next n ≡ some (b ∷ rest))
        × (contents (b ∷ rest) ≡ contents (bp ∷ next))
        × (n ≤ blen b)
        × ((balloc b ≡ balloc bp) ⊎ (balloc b ≡ balloc (a.alloc n)))
  unfolding pullupblock
  pullupblock_lem h = elim (Bool-cases (leb n (blen bp))) [
    | inl enough ↦ rw enough (bp, next, refl, refl, ground arith, inl refl)
    | inr short ↦ elim (Bool-cases (ltb (blen bp + bp.room) n)) [
      | inl full ↦
          let (b, rest, e, c, l, m) =
            pull_into-Pulled (a.alloc n) (bp ∷ next) (n - blen (a.alloc n)) (ground (arith, empty))
              (ground (arith, empty)) (ground (arith, empty, a.alloc_room n)) in
          rw (short, full)
            (
              b,
              rest,
              e,
              c ∙ ap (λ xs. xs ++ contents (bp ∷ next)) (a.alloc_empty n),
              ground (arith, empty),
              inr m,
            )
      | inr fits ↦
          let (b, rest, e, c, l, m) =
            pull_into-Pulled bp next (n - blen bp) (ground arith) (ground arith) (ground arith) in
          rw (short, fits) (b, rest, e, c, ground arith, inl m)
    ]
  ]
    where
      empty : blen (a.alloc n) ≡ 0
      empty = ap length (a.alloc_empty n)

  -- A chain with fewer than n bytes gives nil.
  pullupblock_short : blocklen (bp ∷ next) < n → pullupblock a bp next n ≡ none
  unfolding pullupblock
  pullupblock_short h = ground (
    arith,
    pull_into_short (a.alloc n) (bp ∷ next) (n - blen (a.alloc n)),
    pull_into_short bp next (n - blen bp),
    ap length (a.alloc_empty n),
  )

-- A first block with n bytes stays as it is.
pub pullupblock_enough :
    (a : Allocator) (bp : Block) (next : List Block) (n : ℕ)
    → n ≤ blen bp
    → pullupblock a bp next n ≡ some (bp ∷ next)
unfolding pullupblock
pullupblock_enough a bp next n h = let e : leb n (blen bp) ≡ true = ground arith in rw e refl
