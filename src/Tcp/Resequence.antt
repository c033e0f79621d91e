-- ===== src/Tcp/Resequence.antt =====
-- The queue of segments that came before what precedes them: addreseq and getreseq. `got` says
-- whether malloc found memory. The lengths of the queue sum up to less than 2^31.
pub mod Order
use nix_mark_iv.Prelude.{
  ℕ, ◌+◌, ◌-◌, ◌*◌, ◌^◌, Bool, true, false, Option, none, some, List, [], ◌∷◌, map, ltb,
  if◌then◌else◌,
}
use nix_mark_iv.Block.{Block}
use nix_mark_iv.Tcp.{Tcp, Tcpctl, Reseq, seq_lt}

abbrev pub qmax : ℕ
qmax = 64 * 1024 - 1

-- The loop, from rp1 on: the lengths of the segments in front of rp, and the list with rp in it.
unfoldable pub put_after : Reseq → Reseq → List Reseq → ℕ × List Reseq
put_after rp rp1 [] = (rp1.length, rp1 ∷ rp ∷ [])
put_after rp rp1 (next ∷ rest) =
    let (rqlen, list) = put_after rp next rest in
    if seq_lt rp.seg.seq next.seg.seq
    then (rp1.length, rp1 ∷ rp ∷ next ∷ rest)
    else (rp1.length + rqlen, rp1 ∷ list)

-- rp->next != nil, for the segment behind `front` others.
unfoldable pub is_before_some : Reseq → List Reseq → Bool
is_before_some rp [] = false
is_before_some rp (rp1 ∷ rest) =
    if seq_lt rp.seg.seq rp1.seg.seq then true else is_before_some rp rest

-- What addreseq returns (`ok` for 0, and not for -1), the queue, the chains that it frees, and what it
-- adds to stats[OutOfOrder].
pub record Added : Type 0 where
  pub ok : Bool
  pub reseq : List Reseq
  pub freed : List (List Block)
  pub out_of_order : ℕ

-- A queue that got longer than the window is deleted.
unfoldable pub bounded : ℕ → ℕ → ℕ × List Reseq → Added
bounded scale late (rqlen, list) =
    if ltb (qmax * 2 ^ scale) rqlen
    then record { ok = false; reseq = []; freed = map (λ rp. rp.bp) list; out_of_order = late }
    else record { ok = true; reseq = list; freed = []; out_of_order = late }

-- rp is put in the queue.
unfoldable pub put_reseq : ℕ → Reseq → List Reseq → Added
put_reseq scale rp [] = record { ok = true; reseq = rp ∷ []; freed = []; out_of_order = 0 }
put_reseq scale rp (rp1 ∷ rest) =
    let late = if is_before_some rp (rp1 ∷ rest) then 1 else 0 in
    if seq_lt rp.seg.seq rp1.seg.seq
    then record { ok = true; reseq = rp ∷ rp1 ∷ rest; freed = []; out_of_order = late }
    else bounded scale late (put_after rp rp1 rest)

unfoldable pub addreseq : Bool → Tcpctl → Tcp → List Block → ℕ → Added
addreseq false tcb seg bp length = record {
  ok = true;
  reseq = tcb.reseq;
  freed = bp ∷ [];
  out_of_order = 0;
}
addreseq true tcb seg bp length =
    let rp : Reseq = record { seg = seg; bp = bp; length = length } in
    put_reseq tcb.rcv.scale rp tcb.reseq

-- getreseq: the segment taken off the queue, if there is one, and the queue.
unfoldable pub getreseq : Tcpctl → Option Reseq × Tcpctl
getreseq tcb = elim tcb.reseq [
  | [] ↦ (none, tcb)
  | rp ∷ rest ↦ (some rp, record tcb { reseq = rest })
]
