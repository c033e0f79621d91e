-- ===== src/Tcp/Overlap.antt =====
-- The parts of tcptrim: when a segment overlaps the window, and how it is cut at both ends.
use native.Mathlib.Decide.{dec_le}
use nix_mark_iv.Prelude.{
  ℕ, ◌+◌, ◌-◌, ◌%◌, ◌^◌, ◌≤◌, ◌<◌, ◌≡◌, inl, inr, refl, ap, ◌∙◌, Bool, true, false, ◌&&◌, ◌||◌,
  List, ◌∷◌, length, take, drop, ltb, leb, ◌==◌, if◌then◌else◌, arith, Bool-cases, length-take,
  length-drop, sym, List-cases,
}
use nix_mark_iv.Block.{contents, blocklen}
use nix_mark_iv.Block.Chain.{trimblock}
use nix_mark_iv.Block.Moves.{length-contents}
use nix_mark_iv.Block.Trim.{trimblock_lem, pullblock_lem}
use nix_mark_iv.Tcp.{Tcp, Tcpctl, has_bit, clear_bit, sub32, add32, positive, syn_bit, fin_bit}
use nix_mark_iv.Tcp.Window.{
  inwindow, accepts, Cut, drop_syn, pull_dup, trim_front, trimmed, trim_back,
}
use nix_mark_iv.Tcp.Sequence.{at, sub32-at_ahead, sub32-at_behind, add32-at, seq_within-at}

-- Some part of `len` places from q on, or q itself where there are none, lies in the w from n on.
abbrev pub overlaps : ℕ → ℕ → ℕ → ℕ → Bool
overlaps q len n w = ltb q (n + w) && (ltb n (q + len) || leb n q)

last-at : (b p n : ℕ) → 0 < n → sub32 (add32 (at b p) n) 1 ≡ at b (p + n - 1)
last-at b p n h = omega arith

inwindow_lem :
    (b n w x : ℕ) (tcb : Tcpctl)
    → tcb.rcv.nxt ≡ at b n
    → tcb.rcv.wnd ≡ w
    → 0 < w
    → w ≤ 2 ^ 30
    → x < n + 2 ^ 31
    → n < x + 2 ^ 31
    → inwindow tcb (at b x) ≡ leb n x && ltb x (n + w)
unfolding inwindow
inwindow_lem b n w x tcb en ew pos small k l =
    rw (en, ew, last-at b n w pos) (seq_within-at b x n w pos (omega arith) k l)

pub accepts_lem :
    (b n w q len : ℕ) (tcb : Tcpctl) (seg : Tcp)
    → tcb.rcv.nxt ≡ at b n
    → tcb.rcv.wnd ≡ w
    → seg.seq ≡ at b q
    → 0 < w
    → w ≤ 2 ^ 30
    → len < 2 ^ 16
    → q < n + 2 ^ 30
    → n < q + 2 ^ 30
    → accepts tcb seg len ≡ overlaps q len n w
unfolding accepts
accepts_lem b n w q len tcb seg en ew eq pos small short k l =
    let first = inwindow_lem b n w q tcb en ew pos small (omega arith) (omega arith) in
    elim (Bool-cases (len == 0)) [
      | inl empty ↦ rw (eq, empty, first) (ground arith)
      | inr some ↦
          rw
            (
              eq,
              some,
              first,
              last-at b q len (ground arith),
              inwindow_lem b n w (q + len - 1) tcb en ew pos small (omega arith) (omega arith),
              en,
              seq_within-at b n q len (ground arith) (omega arith) (omega arith) (omega arith),
            )
            (ground arith)
    ]

-- The segment of `c` has the data xs at the places from s on.
abbrev pub Carries : ℕ → ℕ → List ℕ → Cut → Type 0
Carries b s xs c = (c.seg.seq ≡ at b s) × (c.length ≡ length xs) × (contents c.bp ≡ xs)

pub pull_dup-Carries :
    (b s dup : ℕ) (xs : List ℕ) (c : Cut)
    → Carries b s xs c
    → dup ≤ length xs
    → length xs < 2 ^ 16
    → Carries b (s + dup) (drop dup xs) (pull_dup dup c)
unfolding pull_dup
pull_dup-Carries b s dup xs c (e, l, d) h k = elim (Bool-cases (dup == 0)) [
  | inl zeroth ↦
      let z : dup ≡ 0 = ground arith in rw (zeroth, z) (e ∙ ap (at b) (omega arith), l, d)
  | inr some ↦
      let m : dup % 2 ^ 16 ≡ dup = omega arith in
      rw (some, m)
        (
          rw e (add32-at b s dup),
          omega (arith, l, length-drop dup xs),
          (pullblock_lem c.bp dup).1 ∙ ap (drop dup) d,
        )
]

module _ (d : ℕ) (c : Cut) (pos : positive d ≡ true) where
  abbrev pub counted : Cut
  counted = record c { rerecv = add32 c.rerecv d }

  pub front_syn :
      has_bit syn_bit c.seg.flags ≡ true
      → trim_front d c ≡ pull_dup (d - 1) (record counted { seg = drop_syn c.seg })
  unfolding trim_front
  front_syn h = rw (pos, h) refl

  pub front_bare : has_bit syn_bit c.seg.flags ≡ false → trim_front d c ≡ pull_dup d counted
  unfolding trim_front
  front_bare h = rw (pos, h) refl

pub no_front : (d : ℕ) (c : Cut) → positive d ≡ false → trim_front d c ≡ c
unfolding trim_front
no_front d c h = rw h refl

-- The first place of the data of a segment at q.
abbrev pub data_from : Tcp → ℕ → ℕ
data_from seg q = if has_bit syn_bit seg.flags then q + 1 else q

pub no_excess : (b p e : ℕ) → p ≤ e → e ≤ p + 2 ^ 30 → positive (sub32 (at b p) (at b e)) ≡ false
no_excess b p e h k = elim (dec_le e p) [
  | yes l ↦ rw (sub32-at_ahead b p e l (omega arith)) (ground arith)
  | no l ↦ rw (sub32-at_behind b p e (omega arith) (omega arith)) (ground arith)
]

pub cut_back :
    (excess : ℕ) (c : Cut) (xs : List ℕ)
    → positive excess ≡ true
    → c.length ≡ length xs
    → contents c.bp ≡ xs
    → length xs < 2 ^ 16
    → excess < length xs
    → (z : Cut) × (trim_back excess c ≡ trimmed z)
      × (z.seg.seq ≡ c.seg.seq)
      × (z.length ≡ length xs - excess)
      × (contents z.bp ≡ take (length xs - excess) xs)
unfolding trim_back
cut_back excess c xs pos l d short h =
    let left : (c.length + 2 ^ 16 - excess % 2 ^ 16) % 2 ^ 16 ≡ length xs - excess =
      omega (arith, l) in
    let fits : ltb (blocklen c.bp) (0 + (length xs - excess)) ≡ false =
      ground (arith, length-contents c.bp, ap length d) in
    let k : contents (trimblock c.bp 0 (length xs - excess)) ≡ take (length xs - excess) xs =
      trimblock_lem c.bp 0 (length xs - excess) ∙ rw fits (ap (take (length xs - excess)) d) in
    elim (List-cases (trimblock c.bp 0 (length xs - excess))) [
      | inl none ↦ absurd (
          omega (
            arith,
            ap length k,
            ap (λ bs. length (contents bs)) none,
            length-take (length xs - excess) xs,
          ))
      | inr (y, ys, e) ↦
          rw (pos, left, e)
            (
              record c {
                seg = record c.seg { flags = clear_bit fin_bit c.seg.flags };
                bp = y ∷ ys;
                length = (c.length + 2 ^ 16 - excess % 2 ^ 16) % 2 ^ 16;
                rerecv = add32 c.rerecv excess;
              },
              refl,
              refl,
              left,
              ap contents (sym e) ∙ k,
            )
    ]
