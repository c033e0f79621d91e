-- ===== src/Qio/Drain.antt =====
-- What qbread and qread take from the stream of a queue.
use nix_mark_iv.Prelude.{
  if◌then◌else◌, subst, Bool, ℕ, ◌+◌, ◌-◌, ◌≤◌, ◌<◌, ◌≡◌, ◌⊎◌, refl, sym, ap, ◌∙◌, List, [], ◌∷◌,
  ◌++◌, arith, length, inl, inr, false, List-cases, append_assoc, append-nil, take-append-drop,
  length-append, length-take, nil_of_length,
}
use native.Mathlib.Decide.{dec_le}
use nix_mark_iv.Block.{Block, blen, blocklen, contents}
use nix_mark_iv.Block.Chain.{bl2mem}
use nix_mark_iv.Block.Moves.{length-contents}
use nix_mark_iv.Block.Trim.{bl2mem_lem}
use nix_mark_iv.Qio.{Queue, Step, qputback, unlink}
use nix_mark_iv.Qio.Stream.{stream, blocks-restart}
use nix_mark_iv.Qio.Read.{
  Read, got, Wait, qwait, qwakeup, finish, unread, grab, copy_out, read_from, qread,
}

-- The data of a read, and the count that qread returns.
abbrev pub fetched : Read (ℕ × List ℕ) → List ℕ
fetched (got (n, p)) = p
fetched r = []

abbrev pub counted : Read (ℕ × List ℕ) → ℕ
counted (got (n, p)) = n
counted r = 0

-- A read that leaves the stream behind the data it took.
abbrev pub Reads : List ℕ → ℕ → Step (Read (ℕ × List ℕ)) → Type 0
Reads before len r =
    (before ≡ fetched r.ret ++ stream r.queue)
    × (counted r.ret ≡ length (fetched r.ret))
    × (length (fetched r.ret) ≤ len)

pub blocks-finish :
    {A : Type 0} (x : A) (q : Queue) (freed : List Block)
    → (finish x q freed).queue.blocks ≡ q.blocks
unfolding finish qwakeup
blocks-finish x q freed = blocks-restart q

pub ret-finish :
    {A : Type 0} (x : A) (q : Queue) (freed : List Block) → (finish x q freed).ret ≡ got x
unfolding finish
ret-finish x q freed = refl

pub qwait_blocks : (q : Queue) → (qwait q).1.blocks ≡ q.blocks
unfolding qwait
qwait_blocks q = split q.blocks refl
  where
    split : (bs : List Block) → q.blocks ≡ bs → (qwait q).1.blocks ≡ q.blocks
    split [] e = ground arith
    split (b ∷ rest) e = ground arith

unread-Reads : (w : Wait × Queue) (len : ℕ) → Reads (stream w.1) len (unread w)
unfolding unread
unread-Reads (Wait.at_end, q) len = (refl, refl, omega arith)
unread-Reads (w, q) len = (refl, refl, omega arith)

-- All blocks that are taken fit, or there is only one.
abbrev Fits : List Block → ℕ → Type 0
Fits first len = (blocklen first ≤ len) ⊎ ((b : Block) × (first ≡ b ∷ []))

bl2mem_all : (bs : List Block) (n : ℕ) → blocklen bs ≤ n → (bl2mem bs n).1 ≡ []
unfolding bl2mem
bl2mem_all [] n h = refl
bl2mem_all (b ∷ rest) n h = ground (arith, bl2mem_all rest (n - blen b))

bl2mem_one :
    (c : Block) (len : ℕ) (b : Block) (rest : List Block)
    → (bl2mem (c ∷ []) len).1 ≡ b ∷ rest
    → rest ≡ []
unfolding bl2mem
bl2mem_one c len b rest e = ground arith

-- So at most one block is left over.
bl2mem_left :
    (first : List Block) (len : ℕ) (b : Block) (rest : List Block)
    → Fits first len
    → (bl2mem first len).1 ≡ b ∷ rest
    → rest ≡ []
bl2mem_left first len b rest (inl h) e = cc (bl2mem_all first len h)
bl2mem_left first len b rest (inr (c, one)) e = bl2mem_one c len b rest (rw one at e)

bl2mem_splits :
    (bs : List Block) (n : ℕ) → contents bs ≡ (bl2mem bs n).0 ++ contents (bl2mem bs n).1
bl2mem_splits bs n =
    let (front, back) = bl2mem_lem bs n in rw (front, back) (sym (take-append-drop n (contents bs)))

finish-Reads :
    (before : List ℕ) (len n : ℕ) (p : List ℕ) (q : Queue) (freed : List Block)
    → before ≡ p ++ stream q
    → n ≡ length p
    → length p ≤ len
    → Reads before len (finish (n, p) q freed)
finish-Reads before len n p q freed e c h = ground (
  arith,
  blocks-finish {A = ℕ × List ℕ} (n, p) q freed,
  ret-finish {A = ℕ × List ℕ} (n, p) q freed,
)

stream-qputback : (q : Queue) (b : Block) → stream (qputback q b) ≡ b.bytes ++ stream q
unfolding qputback
stream-qputback q b = refl

Reads-else :
    (c : Bool) (before : List ℕ) (len : ℕ) (x y : Step (Read (ℕ × List ℕ)))
    → c ≡ false
    → Reads before len y
    → Reads before len (if c then x else y)
Reads-else c before len x y e h = rw e h

copy_out-Reads :
    (q : Queue) (first : List Block) (len : ℕ)
    → q.msg ≡ false
    → Fits first len
    → Reads (contents first ++ stream q) len (copy_out q first len)
unfolding copy_out
copy_out-Reads q first len m fits =
    let (bytes, left) = bl2mem first len in
    let short : length bytes ≤ len =
      omega (arith, ap length (bl2mem_lem first len).0, length-take len (contents first)) in
    let counts : blocklen first ≡ length bytes + length (contents left) = omega (
      arith,
      length-contents first,
      ap length (bl2mem_splits first len),
      length-append bytes (contents left),
    ) in
    let splits = bl2mem_splits first len in
    elim (List-cases left) [
      | inl e ↦
          rw (e, copy_out)
            (finish-Reads (contents first ++ stream q) len (blocklen first) bytes q _
              (ap (λ xs. xs ++ stream q) (splits ∙ rw e (append-nil bytes)))
              (omega (arith, counts, ap (λ bs. length (contents bs)) e)) short)
      | inr (b, rest, e) ↦
          let e' : left ≡ b ∷ [] = rw (bl2mem_left first len b rest fits e) at e in
          let moved : contents first ++ stream q ≡ bytes ++ stream (qputback q b) =
            rw (splits, e', append-nil b.bytes, stream-qputback)
              (append_assoc bytes b.bytes (stream q)) in
          rw (e', copy_out)
            (Reads-else q.msg _ _ _ _ m (
              finish-Reads (contents first ++ stream q) len (blocklen first - blen b) bytes
                (qputback q b) _ moved
                (omega (
                  arith,
                  counts,
                  ap (λ bs. blocklen bs) e',
                  ap (λ bs. length (contents bs)) e',
                  ap length (append-nil b.bytes),
                ))
                short))
    ]

stream-grab :
    (q : Queue) (bs : List Block) (n len : ℕ)
    → q.blocks ≡ bs
    → (contents bs ≡ contents (grab q bs n len).0 ++ stream (grab q bs n len).1)
      × ((grab q bs n len).1.msg ≡ q.msg)
unfolding grab unlink
stream-grab q [] n len e = (rw e, refl)
stream-grab q (b ∷ rest) n len e =
    let q' = unlink q b rest in
    let (taken, left) = grab q' rest (n + blen b) len in
    ground (
      arith,
      stream-grab q' rest (n + blen b) len refl,
      append_assoc b.bytes (contents taken) (stream left),
    )

grab_none : (q : Queue) (bs : List Block) (n len : ℕ) → len < n → (grab q bs n len).0 ≡ []
unfolding grab
grab_none q [] n len h = refl
grab_none q (b ∷ rest) n len h = ground arith

grab_fits :
    (q : Queue) (bs : List Block) (n len : ℕ) → n ≤ len → n + blocklen (grab q bs n len).0 ≤ len
unfolding grab
grab_fits q [] n len h = omega arith
grab_fits q (b ∷ rest) n len h = ground (arith, grab_fits (unlink q b rest) rest (n + blen b) len)

grab-Fits :
    (q : Queue) (b : Block) (bs : List Block) (len : ℕ) → Fits (b ∷ (grab q bs (blen b) len).0) len
grab-Fits q b bs len = elim (dec_le (blen b) len) [
  | yes h ↦ inl (grab_fits q bs (blen b) len h)
  | no h ↦ inr (b, ap (◌∷◌ b) (grab_none q bs (blen b) len (omega arith)))
]

read_from-Reads :
    (q : Queue) (bs : List Block) (len : ℕ)
    → q.blocks ≡ bs
    → q.msg ≡ false
    → Reads (contents bs) len (read_from q bs len)
unfolding read_from unlink
read_from-Reads q [] len e m =
    subst (λ bs. Reads (contents bs) len (unread (qwait q))) (qwait_blocks q ∙ e)
      (unread-Reads (qwait q) len)
read_from-Reads q (b ∷ rest) len e m =
    let q' = unlink q b rest in
    let (more, q'') = grab q' rest (blen b) len in
    let (joined, same) = stream-grab q' rest (blen b) len refl in
    ground (
      arith,
      read_from-Reads q' rest len refl m,
      copy_out-Reads q'' (b ∷ more) len (same ∙ m) (grab-Fits q' b rest len),
      copy_out-Reads q' (b ∷ []) len m (inr (b, refl)),
      joined,
      append_assoc b.bytes (contents more) (stream q''),
      append-nil b.bytes,
      nil_of_length b.bytes,
    )

-- qread of a queue that is no message queue moves bytes from the front of the stream to the caller,
-- at most len of them, and returns their count, whether it coalesces blocks or not.
pub qread_lem : (q : Queue) (len : ℕ) → q.msg ≡ false → Reads (stream q) len (qread q len)
unfolding qread
qread_lem q len m = read_from-Reads q q.blocks len refl m
