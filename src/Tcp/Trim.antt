-- ===== src/Tcp/Trim.antt =====
-- tcptrim leaves of a segment the places that lie in the receive window.
use native.Mathlib.Decide.{dec_le}
use nix_mark_iv.Prelude.{
  subst, ℕ, ◌+◌, ◌-◌, ◌^◌, ◌≤◌, ◌<◌, ◌≡◌, ◌⊎◌, inl, inr, refl, ap, ◌∙◌, true, false, List, length,
  take, drop, ◌==◌, if◌then◌else◌, arith, Bool-cases, length-take, length-drop, take_all, sym,
}
use nix_mark_iv.Block.{Block, contents, blocklen}
use nix_mark_iv.Block.Moves.{length-contents}
use nix_mark_iv.Tcp.{Tcp, Tcpctl, has_bit, sub32, add32, positive, syn_bit}
use nix_mark_iv.Tcp.Window.{
  seq_length, accepts, Cut, drop_syn, pull_dup, trim_front, TrimResult, refused, trimmed, trim_back,
  tcptrim,
}
use nix_mark_iv.Tcp.Sequence.{at, sub32-at_ahead, add32-at}
use nix_mark_iv.Tcp.Overlap.{
  overlaps, accepts_lem, Carries, pull_dup-Carries, front_syn, front_bare, no_front, data_from,
  no_excess, cut_back,
}

module _ (b n q : ℕ) (xs : List ℕ) (c : Cut) (eq : c.seg.seq ≡ at b q) (l : c.length ≡ length xs)
    (d : contents c.bp ≡ xs) (short : length xs < 2 ^ 16) where
  trim_front-Carries :
      q < n
      → n < q + 2 ^ 30
      → n ≤ data_from c.seg q + length xs
      → Carries b n (drop (n - data_from c.seg q) xs) (trim_front (n - q) c)
  trim_front-Carries before near reach = elim (Bool-cases (has_bit syn_bit c.seg.flags)) [
    | inl syn ↦
        let e : data_from c.seg q ≡ q + 1 = ground arith in
        let k =
          pull_dup-Carries b (q + 1) (n - q - 1) xs
            (record c { rerecv = add32 c.rerecv (n - q); seg = drop_syn c.seg })
            (rw eq (add32-at b q 1), l, d) (omega (arith, reach, e)) short in
        subst (λ m. Carries b n (drop m xs) (trim_front (n - q) c)) (omega (arith, e))
          (subst (λ z. Carries b n (drop (n - q - 1) xs) z) (sym (front_syn (n - q) c pos syn))
            (subst
              (λ m. Carries b m (drop (n - q - 1) xs) (
                pull_dup (n - q - 1)
                  (record c { rerecv = add32 c.rerecv (n - q); seg = drop_syn c.seg })))
              (omega arith) k))
    | inr bare ↦
        let e : data_from c.seg q ≡ q = ground arith in
        let k =
          pull_dup-Carries b q (n - q) xs (record c { rerecv = add32 c.rerecv (n - q) }) (eq, l, d)
            (omega (arith, reach, e)) short in
        subst (λ m. Carries b n (drop m xs) (trim_front (n - q) c)) (omega (arith, e))
          (subst (λ z. Carries b n (drop (n - q) xs) z) (sym (front_bare (n - q) c pos bare))
            (subst
              (λ m.
                Carries b m (drop (n - q) xs)
                  (pull_dup (n - q) (record c { rerecv = add32 c.rerecv (n - q) })))
              (omega arith) k))
  ]
    where
      pos : positive (n - q) ≡ true
      pos = ground arith

  trim_back-Carries :
      (w : ℕ)
      → q < n + w
      → w ≤ 2 ^ 30
      → n ≤ q
      → (z : Cut) × (trim_back (sub32 (add32 c.seg.seq c.length) (add32 (at b n) w)) c ≡ trimmed z)
        × Carries b q (take (n + w - q) xs) z
  unfolding trim_back
  trim_back-Carries w inside small after = elim (dec_le (q + length xs) (n + w)) [
    | yes fits ↦
        let p : positive (sub32 (add32 c.seg.seq c.length) (add32 (at b n) w)) ≡ false =
          rw (eq, l, add32-at b q (length xs), add32-at b n w)
            (no_excess b (q + length xs) (n + w) fits (omega arith)) in
        rw p (
          c,
          refl,
          (
            eq,
            rw (take_all (n + w - q) xs (omega arith)) l,
            rw (take_all (n + w - q) xs (omega arith)) d,
          ),
        )
    | no over ↦
        let x = q + length xs - (n + w) in
        let p : sub32 (add32 c.seg.seq c.length) (add32 (at b n) w) ≡ x =
          rw (eq, l, add32-at b q (length xs), add32-at b n w)
            (sub32-at_ahead b (q + length xs) (n + w) (omega arith) (omega arith)) in
        let (z, e, s, m, k) = cut_back x c xs (ground arith) l d short (omega arith) in
        let left : length xs - x ≡ n + w - q = omega arith in
        (
          z,
          ap (λ y. trim_back y c) p ∙ e,
          (s ∙ eq, omega (arith, m, length-take (n + w - q) xs), k ∙ ap (λ y. take y xs) left),
        )
  ]

-- Of the segment whose first place is q, with the data xs, the window of the w places from n on
-- leaves the data in it, and the number of its first place.
abbrev pub Trims : ℕ → ℕ → ℕ → ℕ → List ℕ → Tcp → TrimResult → Type 0
Trims b n w q xs seg r =
    let s = data_from seg q in
    (c : Cut) × (r ≡ trimmed c) × Carries b (n + (s - n)) (take (w - (s - n)) (drop (n - s) xs)) c

module _ (b n w q : ℕ) (tcb : Tcpctl) (seg : Tcp) (bp : List Block) (en : tcb.rcv.nxt ≡ at b n)
    (ew : tcb.rcv.wnd ≡ w) (eq : seg.seq ≡ at b q) (small : w ≤ 2 ^ 30) (near : q < n + 2 ^ 30)
    (near' : n < q + 2 ^ 30) (short : blocklen bp + 2 < 2 ^ 16)
    (once : (has_bit syn_bit seg.flags ≡ false) ⊎ (q < n)) where
  abbrev len : ℕ
  len = seq_length seg (blocklen bp)

  abbrev whole : Cut
  whole = record { seg = seg; bp = bp; length = blocklen bp; rerecv = tcb.rerecv }

  abbrev front : Cut
  front = trim_front (sub32 tcb.rcv.nxt seg.seq) whole

  open_window :
      0 < w
      → tcptrim tcb seg bp (blocklen bp) ≡ (
          if accepts tcb seg len
          then trim_back
              (sub32 (add32 front.seg.seq front.length) (add32 tcb.rcv.nxt tcb.rcv.wnd))
              front
          else refused)
  unfolding tcptrim
  open_window pos = let z : (tcb.rcv.wnd == 0) ≡ false = ground (arith, ew) in rw z refl

  len-bound :
      (data_from seg q + blocklen bp ≤ q + len) × (q + len ≤ data_from seg q + blocklen bp + 1)
  len-bound = ground arith

  data_from-bound : (q ≤ data_from seg q) × (data_from seg q ≤ q + 1)
  data_from-bound = ground arith

  front-Carries :
      n ≤ data_from seg q + blocklen bp
      → Carries b (n + (data_from seg q - n)) (drop (n - data_from seg q) (contents bp)) front
  front-Carries reach = elim (dec_le n q) [
    | yes after ↦
        let d : data_from seg q ≡ q = elim once [
          | inl bare ↦ ground arith
          | inr before ↦ absurd (omega arith)
        ] in
        let p : positive (sub32 tcb.rcv.nxt seg.seq) ≡ false = rw (en, eq) (no_dup after) in
        let z : n - data_from seg q ≡ 0 = omega (arith, d) in
        subst
          (λ y. Carries b (n + (data_from seg q - n)) (drop (n - data_from seg q) (contents bp)) y)
          (sym (no_front (sub32 tcb.rcv.nxt seg.seq) whole p))
          (eq ∙ ap (at b) (omega (arith, d)), rw z (sym (length-contents bp)), rw z refl)
    | no before ↦
        let k =
          trim_front-Carries b n q (contents bp) whole eq (sym (length-contents bp)) refl
            (omega (arith, length-contents bp)) (omega arith) (omega arith)
            (omega (arith, length-contents bp)) in
        let m : sub32 tcb.rcv.nxt seg.seq ≡ n - q =
          rw (en, eq) (sub32-at_ahead b n q (omega arith) (omega arith)) in
        subst
          (λ y.
            Carries b (n + (data_from seg q - n)) (drop (n - data_from seg q) (contents bp))
              (trim_front y whole))
          (sym m)
          (subst
            (λ y. Carries b y (drop (n - data_from seg q) (contents bp)) (trim_front (n - q) whole))
            (omega (arith, data_from-bound)) k)
  ]
    where
      no_dup : n ≤ q → positive (sub32 (at b n) (at b q)) ≡ false
      no_dup after = no_excess b n q after (omega arith)

  -- A segment that is no new SYN, within 2^30 places of an open window of at most 2^30 places, is
  -- refused by tcptrim if none of its places lies in the window, and otherwise it is left with
  -- exactly the data that lies there, with the number of the first place of it.
  pub tcptrim_lem :
      0 < w
      → ((overlaps q len n w ≡ true)
          × Trims b n w q (contents bp) seg (tcptrim tcb seg bp (blocklen bp)))
        ⊎ ((overlaps q len n w ≡ false) × (tcptrim tcb seg bp (blocklen bp) ≡ refused))
  tcptrim_lem pos =
      let s = data_from seg q in
      let a =
        accepts_lem b n w q len tcb seg en ew eq pos small
          (omega (arith, len-bound, data_from-bound)) near near' in
      elim (Bool-cases (overlaps q len n w)) [
        | inr apart ↦ inr (apart, open_window pos ∙ rw (a, apart) refl)
        | inl over ↦
            let reach : n ≤ s + blocklen bp = ground (arith, len-bound, over) in
            let (fs, fl, fd) = front-Carries reach in
            let (c, e, k) =
              trim_back-Carries b n (n + (s - n)) (drop (n - s) (contents bp)) front fs fl fd
                (omega (arith, length-drop (n - s) (contents bp), length-contents bp)) w
                (ground (arith, over, data_from-bound)) small (omega arith) in
            let window : add32 tcb.rcv.nxt tcb.rcv.wnd ≡ add32 (at b n) w = rw (en, ew) refl in
            let e' =
              ap (λ y. trim_back (sub32 (add32 front.seg.seq front.length) y) front) window ∙ e in
            let m : n + w - (n + (s - n)) ≡ w - (s - n) = omega arith in
            inl (
              over,
              (
                c,
                open_window pos ∙ rw (a, over) e',
                subst (λ m. Carries b (n + (s - n)) (take m (drop (n - s) (contents bp))) c) m k,
              ),
            )
      ]
