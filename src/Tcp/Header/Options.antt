-- ===== src/Tcp/Header/Options.antt =====
-- parse_options reads the options that `options` writes.
use nix_mark_iv.Prelude.{
  ℕ, zero, suc, ◌+◌, ◌-◌, ◌*◌, ◌/◌, ◌%◌, ◌^◌, ◌≤◌, ◌<◌, ◌≡◌, ◌⊎◌, inl, inr, refl, ◌∙◌, true, false,
  List, ◌∷◌, ◌++◌, length, ltb, leb, ◌==◌, if◌then◌else◌, Bool-cases, arith,
}
use nix_mark_iv.Tcp.{Tcp, has_bit, syn_bit}
use nix_mark_iv.Tcp.Header.{hnputs, options, take_option, parse_options}

parse_end : (fuel : ℕ) (opt : List ℕ) (s : Tcp) → parse_options fuel 0 opt s ≡ s
unfolding parse_options
parse_end zero opt s = refl
parse_end (suc fuel) opt s = refl

parse_pad :
    (fuel n : ℕ) (t : List ℕ) (s : Tcp)
    → 0 < n
    → parse_options (suc fuel) n (1 ∷ t) s ≡ parse_options fuel (n - 1) t s
unfolding parse_options
parse_pad fuel n t s h = let z : (n == 0) ≡ false = ground arith in rw z refl

parse_mss :
    (fuel n m : ℕ) (t : List ℕ) (s : Tcp)
    → m < 2 ^ 16
    → 4 ≤ n
    → parse_options (suc fuel) n (2 ∷ 4 ∷ hnputs m ++ t) s
      ≡ parse_options fuel (n - 4) t (record s { mss = m })
unfolding parse_options take_option
parse_mss fuel n m t s h k =
    let z : (n == 0) ≡ false = ground arith in
    let l : ltb n 4 ≡ false = ground arith in
    let v : m / 256 % 256 * 256 + m % 256 ≡ m = omega arith in rw (z, l, v) refl

parse_ws :
    (fuel n w : ℕ) (t : List ℕ) (s : Tcp)
    → w ≤ 14
    → 3 ≤ n
    → parse_options (suc fuel) n (3 ∷ 3 ∷ w ∷ t) s
      ≡ parse_options fuel (n - 3) t (record s { ws = 256 + w })
unfolding parse_options take_option
parse_ws fuel n w t s h k =
    let z : (n == 0) ≡ false = ground arith in
    let l : ltb n 3 ≡ false = ground arith in
    let v : leb w 14 ≡ true = ground arith in rw (z, l, v) refl

-- The options that a header of the segment carries.
abbrev pub with_options : Tcp → Tcp → Tcp
with_options seg s =
    if has_bit syn_bit seg.flags then record s { mss = seg.mss; ws = seg.ws } else s

fill : (s : Tcp) (m w : ℕ) → s.mss ≡ m → s.ws ≡ w → s ≡ record s { mss = m; ws = w }
fill s m w em ew = λ i. record s { mss = em i; ws = ew i }

pub parse_options_lem :
    (seg s : Tcp) (t : List ℕ)
    → seg.mss < 2 ^ 16
    → (seg.ws ≡ 0) ⊎ ((256 ≤ seg.ws) × (seg.ws ≤ 256 + 14))
    → s.mss ≡ 0
    → s.ws ≡ 0
    → parse_options (length (options seg)) (length (options seg)) (options seg ++ t) s
      ≡ with_options seg s
unfolding options
parse_options_lem seg s t hm hw em ew = elim (Bool-cases (has_bit syn_bit seg.flags)) [
  | inr bare ↦ rw bare (parse_end 0 t s)
  | inl syn ↦
      let w = seg.ws % 256 in
      elim (Bool-cases (seg.mss == 0)) [
        | inl nomss ↦
            let z : seg.mss ≡ 0 = ground arith in
            elim hw [
              | inl nows ↦ rw (syn, z, nows) (parse_end 0 t s ∙ fill s 0 0 em ew)
              | inr (lo, hi) ↦
                  let some : (seg.ws == 0) ≡ false = ground arith in
                  let v : 256 + w ≡ seg.ws = omega arith in
                  rw (syn, z, some)
                    (parse_ws 3 4 w (1 ∷ t) s (omega arith) (omega arith)
                      ∙ parse_pad 2 1 t (record s { ws = 256 + w }) (omega arith)
                      ∙ parse_end 2 t (record s { ws = 256 + w })
                      ∙ λ i. record s { mss = em i; ws = v i })
            ]
        | inr mss ↦ elim hw [
          | inl nows ↦
              rw (syn, mss, nows)
                (parse_mss 3 4 seg.mss t s hm (omega arith)
                  ∙ parse_end 3 t (record s { mss = seg.mss })
                  ∙ λ i. record s { mss = seg.mss; ws = ew i })
          | inr (lo, hi) ↦
              let some : (seg.ws == 0) ≡ false = ground arith in
              let v : 256 + w ≡ seg.ws = omega arith in
              rw (syn, mss, some)
                (parse_mss 7 8 seg.mss (3 ∷ 3 ∷ w ∷ 1 ∷ t) s hm (omega arith)
                  ∙ parse_ws 6 4 w (1 ∷ t) (record s { mss = seg.mss }) (omega arith) (omega arith)
                  ∙ parse_pad 5 1 t (record s { mss = seg.mss; ws = 256 + w }) (omega arith)
                  ∙ parse_end 5 t (record s { mss = seg.mss; ws = 256 + w })
                  ∙ λ i. record s { mss = seg.mss; ws = v i })
        ]
      ]
]
