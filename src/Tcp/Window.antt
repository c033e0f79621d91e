-- ===== src/Tcp/Window.antt =====
-- inwindow and tcptrim: what the receive window leaves of a segment.
use nix_mark_iv.Prelude.{
  ℕ, ◌+◌, ◌-◌, ◌%◌, ◌^◌, Bool, not, ◌&&◌, ◌||◌, List, [], ◌∷◌, ltb, ◌==◌, if◌then◌else◌,
}
use nix_mark_iv.Block.{Block}
use nix_mark_iv.Block.Chain.{trimblock, pullblock}
use nix_mark_iv.Tcp.{
  Tcp, Tcpctl, has_bit, clear_bit, sub32, add32, positive, seq_within, syn_bit, fin_bit, urg_bit,
}

unfoldable pub inwindow : Tcpctl → ℕ → Bool
inwindow tcb seq = seq_within seq tcb.rcv.nxt (sub32 (add32 tcb.rcv.nxt tcb.rcv.wnd) 1)

-- The length of a segment with its flags that take a place.
abbrev pub seq_length : Tcp → ℕ → ℕ
seq_length seg length =
    let len = if has_bit syn_bit seg.flags then (length + 1) % 2 ^ 16 else length in
    if has_bit fin_bit seg.flags then (len + 1) % 2 ^ 16 else len

-- Some part of a segment of length `len` is in a window that is not closed.
unfoldable pub accepts : Tcpctl → Tcp → ℕ → Bool
accepts tcb seg len =
    let last = sub32 (add32 seg.seq len) 1 in
    inwindow tcb seg.seq
    || (not (len == 0) && (inwindow tcb last || seq_within tcb.rcv.nxt seg.seq last))

-- A segment on its way through tcptrim.
pub record Cut : Type 0 where
  pub seg : Tcp
  pub bp : List Block
  pub length : ℕ
  pub rerecv : ℕ

-- The SYN is the first of the places that were received before.
abbrev pub drop_syn : Tcp → Tcp
drop_syn seg = record seg {
  flags =
      if ltb 1 seg.urg
      then clear_bit syn_bit seg.flags
      else clear_bit urg_bit (clear_bit syn_bit seg.flags);
  seq = add32 seg.seq 1;
  urg = if ltb 1 seg.urg then seg.urg - 1 else seg.urg;
}

-- The data of `dup` places that were received before are pulled off.
unfoldable pub pull_dup : ℕ → Cut → Cut
pull_dup dup c = if dup == 0 then c else record c {
  bp = (pullblock c.bp (dup % 2 ^ 16)).1;
  length = (c.length + 2 ^ 16 - dup % 2 ^ 16) % 2 ^ 16;
  seg = record c.seg {
    seq = add32 c.seg.seq dup;
    flags = if ltb dup c.seg.urg then c.seg.flags else clear_bit urg_bit c.seg.flags;
    urg = if ltb dup c.seg.urg then c.seg.urg - dup else 0;
  };
}

-- What lies before the window, of `dupcnt` places.
unfoldable pub trim_front : ℕ → Cut → Cut
trim_front dupcnt c =
    let counted = record c { rerecv = add32 c.rerecv dupcnt } in
    if not (positive dupcnt)
    then c
    else if has_bit syn_bit c.seg.flags
    then pull_dup (dupcnt - 1) (record counted { seg = drop_syn c.seg })
    else pull_dup dupcnt counted

-- What tcptrim does: -1 with the chain freed, 0 with the segment cut, or the panic.
pub data TrimResult : Type 0 where
  refused : TrimResult
  trimmed : Cut → TrimResult
  panicked : TrimResult

-- What lies behind the window, of `excess` places.
unfoldable pub trim_back : ℕ → Cut → TrimResult
trim_back excess c =
    let left = (c.length + 2 ^ 16 - excess % 2 ^ 16) % 2 ^ 16 in
    if not (positive excess) then trimmed c else elim (trimblock c.bp 0 left) [
      | [] ↦ panicked
      | b ∷ bs ↦ trimmed (record c {
        bp = b ∷ bs;
        length = left;
        rerecv = add32 c.rerecv excess;
        seg = record c.seg { flags = clear_bit fin_bit c.seg.flags };
      })
    ]

unfoldable pub tcptrim : Tcpctl → Tcp → List Block → ℕ → TrimResult
tcptrim tcb seg bp length =
    let c : Cut = record { seg = seg; bp = bp; length = length; rerecv = tcb.rerecv } in
    let len = seq_length seg length in
    let front = trim_front (sub32 tcb.rcv.nxt seg.seq) c in
    let excess = sub32 (add32 front.seg.seq front.length) (add32 tcb.rcv.nxt tcb.rcv.wnd) in
    if tcb.rcv.wnd == 0
    then if len == 0 && seg.seq == tcb.rcv.nxt then trimmed c else refused
    else if accepts tcb seg len
    then trim_back excess front
    else refused
