-- ===== src/Tcp/Resequence/Order.antt =====
-- addreseq keeps the queue in the order of the places of its segments.
use nix_mark_iv.Block.{Block}
use nix_mark_iv.Prelude.{
  ◌⊎◌, true, ℕ, ◌+◌, ◌^◌, ◌≤◌, ◌<◌, ◌≡◌, inl, inr, refl, ap, List, [], ◌∷◌, ◌++◌, ltb, Bool-cases,
  arith, map, subst, sym, false, ◌*◌, if◌then◌else◌,
}
use nix_mark_iv.Tcp.{Tcp, Tcpctl, Reseq, seq_lt, sub32}
use nix_mark_iv.Tcp.Resequence.{
  addreseq, qmax, bounded, Added, put_after, put_reseq, is_before_some,
}

-- How far a segment is ahead of the place n.
abbrev pub offset : ℕ → Reseq → ℕ
offset n rp = sub32 rp.seg.seq n

-- The segments are ahead of n, by less than half the numbers.
abbrev pub Near : ℕ → Reseq → Type 0
Near n rp = (rp.seg.seq < 2 ^ 32) × (offset n rp < 2 ^ 31)

seq_lt-offset :
    (n : ℕ) (r s : Reseq)
    → n < 2 ^ 32
    → Near n r
    → Near n s
    → seq_lt r.seg.seq s.seg.seq ≡ ltb (offset n r) (offset n s)
unfolding seq_lt
seq_lt-offset n r s h (a, b) (c, d) = ground arith

-- Every segment is near, and `w` places ahead of n or more.
abbrev pub From : ℕ → ℕ → List Reseq → Type 0
From n w [] = Unit {0}
From n w (r ∷ rs) = Near n r × (w ≤ offset n r) × From n w rs

abbrev pub Until : ℕ → ℕ → List Reseq → Type 0
Until n w [] = Unit {0}
Until n w (r ∷ rs) = (offset n r ≤ w) × Until n w rs

abbrev pub IsSorted : ℕ → List Reseq → Type 0
IsSorted n [] = Unit {0}
IsSorted n (r ∷ rs) = Near n r × From n (offset n r) rs × IsSorted n rs

From-weaken : (n v w : ℕ) (rs : List Reseq) → v ≤ w → From n w rs → From n v rs
From-weaken n v w [] h f = tt
From-weaken n v w (r ∷ rs) h (k, a, f) = (k, omega arith, From-weaken n v w rs h f)

abbrev pub lengths : List Reseq → ℕ
lengths [] = 0
lengths (r ∷ rs) = r.length + lengths rs

-- rp stands behind the segments that do not start after it, and before those that do.
pub record Placed (n : ℕ) (rp : Reseq) (old list : List Reseq) (rqlen : ℕ) : Type 0 where
  pub front : List Reseq
  pub back : List Reseq
  pub was : old ≡ front ++ back
  pub is : list ≡ front ++ rp ∷ back
  pub before : Until n (offset n rp) front
  pub after : From n (1 + offset n rp) back
  pub counted : rqlen ≡ lengths front

put_after-Placed :
    (n : ℕ) (rp rp1 : Reseq) (rest : List Reseq)
    → n < 2 ^ 32
    → Near n rp
    → IsSorted n (rp1 ∷ rest)
    → offset n rp1 ≤ offset n rp
    → let (rqlen, list) = put_after rp rp1 rest in Placed n rp (rp1 ∷ rest) list rqlen
unfolding put_after
put_after-Placed n rp rp1 [] h k s o = record {
  front = rp1 ∷ [];
  back = [];
  was = refl;
  is = refl;
  before = (o, tt);
  after = tt;
  counted = omega arith;
}
put_after-Placed n rp rp1 (next ∷ rest) h k (k1, f, (k2, f2, s)) o =
    let e = seq_lt-offset n rp next h k k2 in
    elim (Bool-cases (ltb (offset n rp) (offset n next))) [
      | inl before ↦
          rw (e, before)
            record {
              front = rp1 ∷ [];
              back = next ∷ rest;
              was = refl;
              is = refl;
              before = (o, tt);
              after = (
                k2,
                ground arith,
                From-weaken n (1 + offset n rp) (offset n next) rest (ground arith) f2,
              );
              counted = omega arith;
            }
      | inr after ↦
          let p = put_after-Placed n rp next rest h k (k2, f2, s) (ground arith) in
          rw (e, after)
            record {
              front = rp1 ∷ p.front;
              back = p.back;
              was = ap (◌∷◌ rp1) p.was;
              is = ap (◌∷◌ rp1) p.is;
              before = (o, p.before);
              after = p.after;
              counted = ap (λ l. rp1.length + l) p.counted;
            }
    ]

From-insert :
    (n w : ℕ) (rp : Reseq) (front back : List Reseq)
    → Near n rp
    → w ≤ offset n rp
    → From n w (front ++ back)
    → From n w (front ++ rp ∷ back)
From-insert n w rp [] back k h f = (k, h, f)
From-insert n w rp (r ∷ front) back k h (k', a, f) = (k', a, From-insert n w rp front back k h f)

IsSorted-insert :
    (n : ℕ) (rp : Reseq) (front back : List Reseq)
    → Near n rp
    → IsSorted n (front ++ back)
    → Until n (offset n rp) front
    → From n (1 + offset n rp) back
    → IsSorted n (front ++ rp ∷ back)
IsSorted-insert n rp [] back k s u f =
    (k, From-weaken n (offset n rp) (1 + offset n rp) back (omega arith) f, s)
IsSorted-insert n rp (r ∷ front) back k (k', g, s) (a, u) f =
    (k', From-insert n (offset n r) rp front back k a g, IsSorted-insert n rp front back k s u f)

Placed-IsSorted :
    (n : ℕ) (rp : Reseq) (old list : List Reseq) (rqlen : ℕ)
    → Near n rp
    → IsSorted n old
    → Placed n rp old list rqlen
    → IsSorted n list
Placed-IsSorted n rp old list rqlen k s p =
    subst (IsSorted n) (sym p.is)
      (IsSorted-insert n rp p.front p.back k (subst (IsSorted n) p.was s) p.before p.after)

-- What becomes of the queue: the list, or, where more than `most` came before the new segment,
-- nothing, and then every chain is freed.
abbrev pub Kept : ℕ → List Reseq → ℕ → Added → Type 0
Kept most list rqlen r =
    ((rqlen ≤ most) × (r.ok ≡ true) × (r.reseq ≡ list) × (r.freed ≡ []))
    ⊎ ((most < rqlen) × (r.ok ≡ false) × (r.reseq ≡ []) × (r.freed ≡ map (λ s. s.bp) list))

bounded-Kept :
    (scale late rqlen : ℕ) (list : List Reseq)
    → Kept (qmax * 2 ^ scale) list rqlen (bounded scale late (rqlen, list))
unfolding bounded
bounded-Kept scale late rqlen list = elim (Bool-cases (ltb (qmax * 2 ^ scale) rqlen)) [
  | inl over ↦ rw over (inr (ground arith, refl, refl, refl))
  | inr fits ↦ rw fits (inl (ground arith, refl, refl, refl))
]

abbrev pub Enqueued : ℕ → Reseq → List Reseq → ℕ → Added → Type 0
Enqueued n rp old most r =
    (list : List Reseq) × (rqlen : ℕ) × Placed n rp old list rqlen
    × IsSorted n list
    × Kept most list rqlen r

put_reseq-Enqueued :
    (n scale : ℕ) (rp : Reseq) (old : List Reseq)
    → n < 2 ^ 32
    → Near n rp
    → IsSorted n old
    → Enqueued n rp old (qmax * 2 ^ scale) (put_reseq scale rp old)
unfolding put_reseq
put_reseq-Enqueued n scale rp [] h k s = (
  rp ∷ [],
  0,
  record { front = []; back = []; was = refl; is = refl; before = tt; after = tt; counted = refl },
  (k, tt, tt),
  inl (omega arith, refl, refl, refl),
)
put_reseq-Enqueued n scale rp (rp1 ∷ rest) h k (k1, f, s) =
    let o = seq_lt-offset n rp rp1 h k k1 in
    elim (Bool-cases (ltb (offset n rp) (offset n rp1))) [
      | inl first ↦
          let p : Placed n rp (rp1 ∷ rest) (rp ∷ rp1 ∷ rest) 0 = record {
            front = [];
            back = rp1 ∷ rest;
            was = refl;
            is = refl;
            before = tt;
            after = (
              k1,
              ground arith,
              From-weaken n (1 + offset n rp) (offset n rp1) rest (ground arith) f,
            );
            counted = refl;
          } in
          rw (o, first)
            (
              rp ∷ rp1 ∷ rest,
              0,
              p,
              Placed-IsSorted n rp (rp1 ∷ rest) (rp ∷ rp1 ∷ rest) 0 k (k1, f, s) p,
              inl (omega arith, refl, refl, refl),
            )
      | inr after ↦
          let p = put_after-Placed n rp rp1 rest h k (k1, f, s) (ground arith) in
          let late = if is_before_some rp (rp1 ∷ rest) then 1 else 0 in
          rw (o, after)
            (
              (put_after rp rp1 rest).1,
              (put_after rp rp1 rest).0,
              p,
              Placed-IsSorted n rp (rp1 ∷ rest) (put_after rp rp1 rest).1 (put_after rp rp1 rest).0
                  k (k1, f, s) p,
              bounded-Kept scale late (put_after rp rp1 rest).0 (put_after rp rp1 rest).1,
            )
    ]

-- addreseq, of a segment ahead of n by less than half the numbers, on a queue of such segments in
-- order, puts it behind those that do not start after it and before the others, and the queue stays
-- in order; but where the data in front of it is more than the largest window, it deletes the queue and frees all its chains.
pub addreseq_lem :
    (n : ℕ) (tcb : Tcpctl) (seg : Tcp) (bp : List Block) (length : ℕ)
    → n < 2 ^ 32
    → Near n record { seg = seg; bp = bp; length = length }
    → IsSorted n tcb.reseq
    → Enqueued n
        (record { seg = seg; bp = bp; length = length })
        tcb.reseq
        (qmax * 2 ^ tcb.rcv.scale)
        (addreseq true tcb seg bp length)
unfolding addreseq
addreseq_lem n tcb seg bp length h k s =
    put_reseq-Enqueued n tcb.rcv.scale (record { seg = seg; bp = bp; length = length }) tcb.reseq h
      k s
