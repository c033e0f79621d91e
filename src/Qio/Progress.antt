-- ===== src/Qio/Progress.antt =====
-- qread returns data whenever its first block has some.
use nix_mark_iv.Prelude.{
  ℕ, ◌≤◌, ◌≡◌, List, [], ◌∷◌, arith, length, inl, inr, List-cases, ap, min, take, length-append,
  length-take,
}
use nix_mark_iv.Block.{Block, blen, contents}
use nix_mark_iv.Block.Chain.{bl2mem}
use nix_mark_iv.Block.Trim.{bl2mem_lem}
use nix_mark_iv.Qio.{Queue, unlink}
use nix_mark_iv.Qio.Read.{finish, grab, copy_out, read_from, qread}
use nix_mark_iv.Qio.Split.{head_bytes}
use nix_mark_iv.Qio.Drain.{fetched}

-- copy_out returns what bl2mem copies.
copy_out-fetched :
    (q : Queue) (first : List Block) (len : ℕ)
    → fetched (copy_out q first len).ret ≡ take len (contents first)
unfolding copy_out finish bl2mem
copy_out-fetched q first len =
    let (bytes, left) = bl2mem first len in
    let (front, back) = bl2mem_lem first len in
    elim (List-cases left) [
      | inl e ↦ rw (e, copy_out) front
      | inr (b, rest, e) ↦ rw (e, copy_out) ground (arith, front)
    ]

copy_out-takes :
    (q : Queue) (b : Block) (more : List Block) (len : ℕ)
    → min len (blen b) ≤ length (fetched (copy_out q (b ∷ more) len).ret)
copy_out-takes q b more len = omega (
  arith,
  ap length (copy_out-fetched q (b ∷ more) len),
  length-take len (contents (b ∷ more)),
  length-append b.bytes (contents more),
)

read_from-takes :
    (q : Queue) (bs : List Block) (len : ℕ)
    → min len (length (head_bytes bs)) ≤ length (fetched (read_from q bs len).ret)
unfolding read_from
read_from-takes q [] len = omega arith
read_from-takes q (b ∷ rest) len =
    let q' = unlink q b rest in
    let (more, q'') = grab q' rest (blen b) len in
    ground (arith, copy_out-takes q' b [] len, copy_out-takes q'' b more len)

-- qread returns at least what the first block of the queue has of the len bytes asked for.
pub qread_progress :
    (q : Queue) (len : ℕ)
    → min len (length (head_bytes q.blocks)) ≤ length (fetched (qread q len).ret)
unfolding qread
qread_progress q len = read_from-takes q q.blocks len
