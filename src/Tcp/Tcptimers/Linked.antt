-- ===== src/Tcp/Tcptimers/Linked.antt =====
-- The list has exactly the timers that are on, so no routine on it panics.
use nix_mark_iv.Prelude.{
  ◌⊎◌, ℕ, ◌^◌, ◌<◌, ◌≡◌, refl, sym, ap, ◌∙◌, Bool, true, false, not, ◌&&◌, some, List, [], ◌∷◌,
  ◌==◌, if◌then◌else◌, inl, inr, Bool-cases, ==_iff, arith, subst,
}
use nix_mark_iv.Tcp.Tcptimers.{
  Power, on, off, is_on, Tcptimer, Timers, set_timer, is_chained, unchain, timerstate, tcpgo,
  tcphalt,
}

abbrev pub Unique : List ℕ → Type 0
Unique [] = Unit {0}
Unique (x ∷ xs) = (is_chained x xs ≡ false) × Unique xs

pub record Linked (p : Timers) : Type 0 where
  pub unique : Unique p.timers
  pub agree : (t : ℕ) → is_chained t p.timers ≡ is_on (p.at t).power
  pub counts : (t : ℕ) → (is_on (p.at t).power ≡ false) ⊎ (0 < (p.at t).count)
  pub small : (t : ℕ) → ((p.at t).start < 2 ^ 32) × ((p.at t).count < 2 ^ 32)

is_chained-unchain :
    (u t : ℕ) (xs : List ℕ)
    → Unique xs
    → is_chained u (unchain t xs) ≡ is_chained u xs && not (u == t)
unfolding is_chained unchain
is_chained-unchain u t [] s = refl
is_chained-unchain u t (x ∷ xs) (n, s) = elim (Bool-cases (t == x)) [
  | inl found ↦ elim (Bool-cases (u == x)) [
    | inl here ↦
        let f : is_chained u xs ≡ false = ap (λ y. is_chained y xs) ((==_iff u x).0 here) ∙ n in
        ground (arith, f)
    | inr there ↦ rw found (ground arith)
  ]
  | inr other ↦ rw other (ground (arith, is_chained-unchain u t xs s))
]

pub Unique-unchain : (t : ℕ) (xs : List ℕ) → Unique xs → Unique (unchain t xs)
unfolding is_chained unchain
Unique-unchain t [] s = tt
Unique-unchain t (x ∷ xs) (n, s) = elim (Bool-cases (t == x)) [
  | inl found ↦ rw found s
  | inr other ↦ rw other (is_chained-unchain x t xs s ∙ rw n refl, Unique-unchain t xs s)
]

pub set_self : (t : ℕ) (v : Tcptimer) (f : ℕ → Tcptimer) → set_timer t v f t ≡ v
unfolding set_timer
set_self t v f = let e : (t == t) ≡ true = ground arith in rw e refl

pub set_other :
    (t u : ℕ) (v : Tcptimer) (f : ℕ → Tcptimer) → (u == t) ≡ false → set_timer t v f u ≡ f u
unfolding set_timer
set_other t u v f e = rw e refl

-- One timer is set, and the list changes for it alone.
pub set-Linked :
    (t : ℕ) (v : Tcptimer) (p : Timers) (ts : List ℕ)
    → Linked p
    → Unique ts
    → ((u : ℕ) → is_chained u ts ≡ (if u == t then is_on v.power else is_chained u p.timers))
    → (is_on v.power ≡ false) ⊎ (0 < v.count)
    → (v.start < 2 ^ 32) × (v.count < 2 ^ 32)
    → Linked (record { at = set_timer t v p.at; timers = ts })
unfolding set_timer
set-Linked t v p ts l s e c b = record {
  unique = s;
  agree = λ u. elim (Bool-cases (u == t)) [
    | inl same ↦ e u ∙ rw same refl
    | inr other ↦ e u ∙ rw other (l.agree u)
  ];
  counts =
      λ u. elim (Bool-cases (u == t)) [ inl same ↦ rw same c | inr other ↦ rw other (l.counts u) ];
  small =
      λ u. elim (Bool-cases (u == t)) [ inl same ↦ rw same b | inr other ↦ rw other (l.small u) ];
}

pub kept_for :
    (u t : ℕ) (ts : List ℕ) (b : Bool)
    → is_chained t ts ≡ b
    → is_chained u ts ≡ (if u == t then b else is_chained u ts)
kept_for u t ts b e = elim (Bool-cases (u == t)) [
  | inl here ↦ let f = ap (λ x. is_chained x ts) ((==_iff u t).0 here) ∙ e in rw here f
  | inr there ↦ rw there refl
]

chained_for :
    (u t : ℕ) (ts : List ℕ) (b : Bool)
    → b ≡ true
    → is_chained u (t ∷ ts) ≡ (if u == t then b else is_chained u ts)
unfolding is_chained
chained_for u t ts b e = elim (Bool-cases (u == t)) [
  | inl here ↦ rw here (sym e)
  | inr there ↦ rw there refl
]

pub unchained_for :
    (u t : ℕ) (ts : List ℕ) (b : Bool)
    → b ≡ false
    → Unique ts
    → is_chained u (unchain t ts) ≡ (if u == t then b else is_chained u ts)
unchained_for u t ts b e s = is_chained-unchain u t ts s ∙ ground arith

-- timerstate with the timers after it, where it does not panic.
pub timerstate-Linked :
    (t : ℕ) (s : Power) (p : Timers)
    → Linked p
    → (is_on s ≡ false) ⊎ (0 < (p.at t).count)
    → (q : Timers) × (timerstate t s p ≡ some q)
      × Linked q
      × (q.at ≡ set_timer t (record (p.at t) { power = s }) p.at)
unfolding timerstate
timerstate-Linked t s p l c =
    let v = record (p.at t) { power = s } in
    elim (Bool-cases (is_on s)) [
      | inl starts ↦ elim (Bool-cases (is_on (p.at t).power)) [
        | inl runs ↦
            rw (starts, runs)
              (
                record { at = set_timer t v p.at; timers = p.timers },
                refl,
                set-Linked t v p p.timers l l.unique
                    (λ u. kept_for u t p.timers (is_on s) (l.agree t ∙ runs ∙ sym starts)) c
                    (l.small t),
                refl,
              )
        | inr rests ↦
            let free : is_chained t p.timers ≡ false = l.agree t ∙ rests in
            rw (starts, rests, free)
              (
                record { at = set_timer t v p.at; timers = t ∷ p.timers },
                refl,
                set-Linked t v p (t ∷ p.timers) l (free, l.unique)
                    (λ u. chained_for u t p.timers (is_on s) starts) c (l.small t),
                refl,
              )
      ]
      | inr stops ↦ elim (Bool-cases (is_on (p.at t).power)) [
        | inl runs ↦
            rw (stops, runs)
              (
                record { at = set_timer t v p.at; timers = unchain t p.timers },
                refl,
                set-Linked t v p (unchain t p.timers) l (Unique-unchain t p.timers l.unique)
                    (λ u. unchained_for u t p.timers (is_on s) stops l.unique) c (l.small t),
                refl,
              )
        | inr rests ↦
            rw (stops, rests)
              (
                record { at = set_timer t v p.at; timers = p.timers },
                refl,
                set-Linked t v p p.timers l l.unique
                    (λ u. kept_for u t p.timers (is_on s) (l.agree t ∙ rests ∙ sym stops)) c
                    (l.small t),
                refl,
              )
      ]
    ]

-- Where the list has exactly the timers that are on, none twice, tcpgo and tcphalt do not panic, and
-- leave it so; tcpgo starts the timer anew, and tcphalt stops it.
pub tcpgo-Linked :
    (t : ℕ) (p : Timers)
    → Linked p
    → (q : Timers) × (tcpgo t p ≡ some q)
      × Linked q
      × (((p.at t).start ≡ 0)
          ⊎ (q.at t ≡ record { power = on; start = (p.at t).start; count = (p.at t).start }))
unfolding tcpgo
tcpgo-Linked t p l = elim (Bool-cases ((p.at t).start == 0)) [
  | inl never ↦ rw never (p, refl, l, inl (ground arith))
  | inr starts ↦
      let v = record (p.at t) { count = (p.at t).start } in
      let p' : Timers = record p { at = set_timer t v p.at } in
      let pos : 0 < (p.at t).start = ground arith in
      let l' : Linked p' =
        set-Linked t v p p.timers l l.unique
          (λ u. kept_for u t p.timers (is_on v.power) (l.agree t)) (inr pos)
          ((l.small t).0, (l.small t).0) in
      let (q, e, k, f) =
        timerstate-Linked t on p' l'
          (inr (subst (λ x. 0 < x.count) (sym (set_self t v p.at)) pos)) in
      rw starts (
        q,
        e,
        k,
        inr (
            ap (λ g. g t) f
            ∙ set_self t (record (p'.at t) { power = on }) p'.at
            ∙ ap (λ x. record { power = on; start = x.start; count = x.count })
                (set_self t v p.at)),
      )
]

pub tcphalt-Linked :
    (t : ℕ) (p : Timers)
    → Linked p
    → (q : Timers) × (tcphalt t p ≡ some q) × Linked q × (is_on (q.at t).power ≡ false)
unfolding tcphalt
tcphalt-Linked t p l =
    let (q, e, k, f) = timerstate-Linked t off p l (inl refl) in
    (
      q,
      e,
      k,
      ap (λ g. is_on (g t).power) f
          ∙ ap (λ x. is_on x.power) (set_self t (record (p.at t) { power = off }) p.at),
    )
