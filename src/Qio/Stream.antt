-- ===== src/Qio/Stream.antt =====
-- A queue as a stream of bytes: what the interrupt-level routines take from it and add to it.
use nix_mark_iv.Prelude.{
  take_all, nil_of_length, ℕ, ◌-◌, ◌≤◌, ◌<◌, ◌≡◌, refl, sym, ap, ◌∙◌, List, [], ◌∷◌, ◌++◌, Option,
  none, some, arith, length, inl, inr, false, drop, min, List-cases,
}
use nix_mark_iv.Prelude.{take-append-drop, length-append, length-take, drop-nil}
use nix_mark_iv.Block.{Block, blen, balloc, blocklen, advance, contents}
use nix_mark_iv.Block.Moves.{length-contents, contents-append}
use nix_mark_iv.Block.Trim.{drop_inside, drop_beyond, take_inside}
use nix_mark_iv.Qio.{Queue, restart, feed, qaddlist, unlink}
use nix_mark_iv.Qio.Interrupt.{discard, qdiscard, strip, consume, qconsume}

-- The bytes that a queue holds.
abbrev pub stream : Queue → List ℕ
stream q = contents q.blocks

pub blocks-restart : (q : Queue) → (restart q).0.blocks ≡ q.blocks
unfolding restart
blocks-restart q = ground arith

pub blocks-feed : (q : Queue) → (feed q).0.blocks ≡ q.blocks
unfolding feed
blocks-feed q = ground arith

pub stream-qaddlist :
    (q : Queue) (bs : List Block) → stream (qaddlist q bs) ≡ stream q ++ contents bs
unfolding qaddlist
stream-qaddlist q bs = contents-append q.blocks bs

discard_stream :
    (bs : List Block) (left len dlen : ℕ)
    → let d = discard bs left len dlen in
      (d.sofar ≡ min left (blocklen bs)) × (contents d.blocks ≡ drop left (contents bs))
unfolding discard
discard_stream [] left len dlen = (omega arith, sym (drop-nil left))
discard_stream (b ∷ rest) left len dlen = ground (
  arith,
  discard_stream rest (left - blen b) (len - balloc b) (dlen - blen b),
  drop_inside left b rest,
  drop_beyond left b rest,
)

-- qdiscard throws away the first len bytes of the stream, or all of a shorter one, and returns
-- how many.
pub qdiscard_lem :
    (q : Queue) (len : ℕ)
    → ((qdiscard q len).ret ≡ min len (length (stream q)))
      × (stream (qdiscard q len).queue ≡ drop len (stream q))
unfolding qdiscard
qdiscard_lem q len =
    let d = discard q.blocks len q.len q.dlen in
    let (count, rest) = discard_stream q.blocks len q.len q.dlen in
    (
      count ∙ ap (min len) (sym (length-contents q.blocks)),
      ap contents (blocks-restart (record q { blocks = d.blocks; len = d.len; dlen = d.dlen }))
          ∙ rest,
    )

-- The data that qconsume copied.
abbrev pub copied : Option (List ℕ) → List ℕ
copied none = []
copied (some p) = p

strip_stream :
    (bs : List Block) (len : ℕ) (tofree : List Block)
    → contents (strip bs len tofree).blocks ≡ contents bs
unfolding strip
strip_stream [] len tofree = refl
strip_stream (b ∷ rest) len tofree =
    ground (arith, strip_stream rest (len - balloc b) (b ∷ tofree), nil_of_length b.bytes)

-- After the loop the first block, if there is one, has data.
strip_head :
    (bs : List Block) (len : ℕ) (tofree : List Block) (b : Block) (rest : List Block)
    → (strip bs len tofree).blocks ≡ b ∷ rest
    → 0 < blen b
unfolding strip
strip_head [] len tofree b rest e = absurd (cc e)
strip_head (c ∷ cs) len tofree b rest e =
    ground (arith, strip_head cs (len - balloc c) (c ∷ tofree) b rest)

stream-consume :
    (q : Queue) (bs tofree : List Block) (len : ℕ)
    → q.msg ≡ false
    → let r = consume q bs tofree len in
      (contents bs ≡ copied r.ret ++ stream r.queue) × (length (copied r.ret) ≤ len)
unfolding consume unlink
stream-consume q [] tofree len m = (refl, omega arith)
stream-consume q (b ∷ rest) tofree len m =
    let l = min (blen b) len in
    let left = record q { blocks = advance l b ∷ rest; dlen = q.dlen - l } in
    ground (
      arith,
      blocks-restart left,
      blocks-restart (unlink left (advance l b) rest),
      take-append-drop l (contents (b ∷ rest)),
      take_inside l b rest,
      drop_inside l b rest,
      take_all l b.bytes,
      length-take l b.bytes,
    )

consume_takes :
    (q : Queue) (b : Block) (rest tofree : List Block) (len : ℕ)
    → 0 < blen b
    → min len 1 ≤ length (copied (consume q (b ∷ rest) tofree len).ret)
unfolding consume
consume_takes q b rest tofree len h = ground (arith, length-take (min (blen b) len) b.bytes)

module _ (q : Queue) (len : ℕ) where
  -- After the empty blocks, the first block has data to copy, or there is none.
  qconsume_takes : min len (min 1 (length (stream q))) ≤ length (copied (qconsume q len).ret)
  unfolding qconsume
  qconsume_takes =
      let s = strip q.blocks q.len [] in
      let same = strip_stream q.blocks q.len [] in
      elim (List-cases s.blocks) [
        | inl none_left ↦ omega (arith, ap length same, ap (λ bs. length (contents bs)) none_left)
        | inr (b, rest, some_left) ↦ rw some_left (
            omega (
              arith,
              consume_takes (record q { len = s.len }) b rest s.tofree len
                  (strip_head q.blocks q.len [] b rest some_left),
            ))
      ]

  -- qconsume of a queue that is no message queue moves bytes from the front of the stream to the
  -- caller, at most len of them, and at least one if there is one and len allows it.
  pub stream-qconsume :
      q.msg ≡ false
      → let r = qconsume q len in
        (stream q ≡ copied r.ret ++ stream r.queue)
        × (length (copied r.ret) ≤ len)
        × (min len (min 1 (length (stream q))) ≤ length (copied r.ret))
  unfolding qconsume
  stream-qconsume m =
      let s = strip q.blocks q.len [] in
      let (same, short) = stream-consume (record q { len = s.len }) s.blocks s.tofree len m in
      (sym (strip_stream q.blocks q.len []) ∙ same, short, qconsume_takes)

  -- A queue of empty blocks only: qconsume returns -1 and unlinks every block, but frees none.
  pub qconsume_leaks :
      stream q ≡ []
      → let r = qconsume q len in (r.ret ≡ none) × (r.queue.blocks ≡ []) × (r.freed ≡ [])
  unfolding qconsume consume
  qconsume_leaks e =
      let s = strip q.blocks q.len [] in
      elim (List-cases s.blocks) [
        | inl none_left ↦ rw (none_left, consume) (refl, refl, refl)
        | inr (b, rest, some_left) ↦ absurd (
            omega (
              arith,
              strip_head q.blocks q.len [] b rest some_left,
              ap length (e),
              ap length (strip_stream q.blocks q.len []),
              ap (λ bs. length (contents bs)) some_left,
              length-append b.bytes (contents rest),
            ))
      ]
