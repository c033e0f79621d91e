-- ===== src/Tcp/Tcptimers/Ready.antt =====
-- The timers that a tick makes ready, and the loop that calls their routines.
use nix_mark_iv.Tcp.{sub32}
use nix_mark_iv.Prelude.{
  ℕ, ◌+◌, ◌≤◌, ◌≡◌, ◌⊎◌, refl, sym, ap, subst, ◌∙◌, Bool, true, false, not, ◌&&◌, ◌||◌, some, List,
  [], ◌∷◌, length, ◌==◌, inl, inr, Bool-cases, Option-cases, ==_iff, arith,
}
use nix_mark_iv.Tcp.Tcptimers.{
  Timers, is_on, is_done, is_chained, timerstate, count_down, tick_from, call_ready, done,
  set_timer,
}
use nix_mark_iv.Tcp.Tcptimers.Linked.{Unique}
use nix_mark_iv.Tcp.Tcptimers.Countdown.{tick_from-step}

count_down-ready :
    (t : ℕ) (p q : Timers) (timeo ready : List ℕ)
    → count_down t p timeo ≡ some (q, ready)
    → (ready ≡ timeo) ⊎ (ready ≡ t ∷ timeo)
unfolding count_down
count_down-ready t p q timeo ready e = elim (Bool-cases (not (is_on (p.at t).power))) [
  | inl rests ↦ inl (ground arith)
  | inr runs ↦ elim (Bool-cases (sub32 (p.at t).count 1 == 0)) [
    | inr more ↦ inl (ground arith)
    | inl last ↦
        let p' = record p {
          at = set_timer t (record (p.at t) { count = sub32 (p.at t).count 1 }) p.at;
        } in
        elim (Option-cases (timerstate t done p')) [
          | inl fails ↦ absurd (ground arith)
          | inr (r, ends) ↦ inr (ground arith)
        ]
  ]
]

not_more :
    (t u : ℕ) (timeo ts : List ℕ)
    → is_chained t ts ≡ false
    → is_chained u ts ≡ true
    → is_chained u timeo ≡ false
    → is_chained u (t ∷ timeo) ≡ false
unfolding is_chained
not_more t u timeo ts n c d = elim (Bool-cases (u == t)) [
  | inl same ↦
      let k : is_chained u ts ≡ false = ap (λ x. is_chained x ts) ((==_iff u t).0 same) ∙ n in
      absurd (cc (c, k))
  | inr apart ↦ rw apart d
]

-- The timers that are ready are ready once, and no more than there are timers.
pub tick_from-Unique :
    (ts : List ℕ) (p q : Timers) (timeo ready : List ℕ)
    → tick_from ts p timeo ≡ some (q, ready)
    → Unique ts
    → Unique timeo
    → ((u : ℕ) → is_chained u ts ≡ true → is_chained u timeo ≡ false)
    → Unique ready × length ready ≤ length timeo + length ts
unfolding tick_from is_chained
tick_from-Unique [] p q timeo ready e s o d =
    let same : timeo ≡ ready = ground arith in
    subst (λ r. Unique r × length r ≤ length timeo + 0) same (o, omega arith)
tick_from-Unique (t ∷ ts) p q timeo ready e (n, s) o d =
    elim (Option-cases (count_down t p timeo)) [
      | inl fails ↦ absurd (ground arith)
      | inr ((p1, r1), one) ↦
          let rest = sym (tick_from-step t ts p p1 timeo r1 one) ∙ e in
          elim (count_down-ready t p p1 timeo r1 one) [
            | inl same ↦
                let (a, b) =
                  tick_from-Unique ts p1 q r1 ready rest s (subst Unique (sym same) o)
                    (λ u c. ap (is_chained u) same ∙ d u (ground arith)) in
                (a, omega (arith, b, ap length same))
            | inr more ↦
                let fresh : Unique (t ∷ timeo) = (d t (ground arith), o) in
                let (a, b) =
                  tick_from-Unique ts p1 q r1 ready rest s (subst Unique (sym more) fresh) (λ u c.
                    ap (is_chained u) more ∙ not_more t u timeo ts n c (d u (ground arith))) in
                (a, omega (arith, b, ap length more))
          ]
    ]

abbrev pub is_first : ℕ → List ℕ → Bool
is_first u [] = false
is_first u (x ∷ xs) = u == x

called_bool :
    (e x r f : Bool)
    → (e ≡ true → f ≡ true)
    → x ≡ x && (r && f)
    → e || x ≡ (e || x) && ((e || r) && f)
called_bool true x r f h i = sym (h refl)
called_bool false x r f h i = i

passed_bool : (e x r f : Bool) → x ≡ x && (r && f) → x ≡ x && ((e || r) && f)
passed_bool e false r f i = refl
passed_bool true true true f i = i
passed_bool true true false f i = absurd (cc i)
passed_bool false true r f i = i

module _ (func : ℕ → Bool) (act : ℕ → Timers → Timers) where
  func_of : (u t : ℕ) → (u == t) ≡ true → func u ≡ func t
  func_of u t e = ap func ((==_iff u t).0 e)

  -- A routine is only called if it is that of a timer that is ready.
  pub call_ready-only :
      (u : ℕ) (rs : List ℕ) (p : Timers)
      → let called = (call_ready func act rs p).0 in
        is_chained u called ≡ is_chained u called && (is_chained u rs && func u)
  unfolding call_ready is_chained
  call_ready-only u [] p = refl
  call_ready-only u (t ∷ rs) p = elim (Bool-cases (is_done (p.at t).power && func t)) [
    | inl calls ↦
        let ih = call_ready-only u rs (act t p) in
        let has : func t ≡ true = ground arith in
        rw calls (
          called_bool (u == t) (is_chained u (call_ready func act rs (act t p)).0) (is_chained u rs)
            (func u) (λ e. func_of u t e ∙ has) ih)
    | inr passes ↦
        let ih = call_ready-only u rs p in
        rw passes (
          passed_bool (u == t) (is_chained u (call_ready func act rs p).0) (is_chained u rs)
            (func u) ih)
  ]

  call_ready-fresh :
      (t : ℕ) (rs : List ℕ) (p : Timers)
      → is_chained t rs ≡ false
      → is_chained t (call_ready func act rs p).0 ≡ false
  call_ready-fresh t rs p n = let only = call_ready-only t rs p in ground (arith, only, n)

  pub call_ready-Unique :
      (rs : List ℕ) (p : Timers) → Unique rs → Unique (call_ready func act rs p).0
  unfolding call_ready
  call_ready-Unique [] p s = tt
  call_ready-Unique (t ∷ rs) p (n, s) = elim (Bool-cases (is_done (p.at t).power && func t)) [
    | inl calls ↦ rw calls (call_ready-fresh t rs (act t p) n, call_ready-Unique rs (act t p) s)
    | inr passes ↦ rw passes (call_ready-Unique rs p s)
  ]

  module _ (u : ℕ)
      (spares : (t : ℕ) (q : Timers)
        → (u == t) ≡ false
        → is_done (q.at u).power ≡ true
        → is_done ((act t q).at u).power ≡ true) where
    pub call_ready-all :
        (rs : List ℕ) (p : Timers)
        → Unique rs
        → (is_chained u rs ≡ true → is_done (p.at u).power ≡ true)
        → is_chained u (call_ready func act rs p).0 ≡ is_chained u rs && func u
    unfolding call_ready is_chained
    call_ready-all [] p s d = refl
    call_ready-all (t ∷ rs) p (n, s) d = elim (Bool-cases (u == t)) [
      | inl same ↦
          let is_done_t : is_done (p.at t).power ≡ true =
            ap (λ x. is_done (p.at x).power) (sym ((==_iff u t).0 same)) ∙ d (ground arith) in
          let f = func_of u t same in
          elim (Bool-cases (func t)) [
            | inl has ↦
                rw (same, is_done_t, f, has)
                  (ap (λ e. e || is_chained u (call_ready func act rs (act t p)).0) same)
            | inr lacks ↦
                let only = call_ready-only u rs p in
                rw (same, is_done_t, f, lacks) (ground (arith, only, f, lacks))
          ]
      | inr apart ↦ elim (Bool-cases (is_done (p.at t).power && func t)) [
        | inl calls ↦
            rw (apart, calls)
              (ap (λ e. e || is_chained u (call_ready func act rs (act t p)).0) apart
                ∙ call_ready-all rs (act t p) s (λ c. spares t p apart (d (ground (arith, c)))))
        | inr passes ↦ rw (apart, passes) (call_ready-all rs p s (λ c. d (ground (arith, c))))
      ]
    ]

  module _ (u : ℕ)
      (stops : (t : ℕ) (q : Timers)
        → (u == t) ≡ false
        → is_done ((act t q).at u).power ≡ false) where
    call_ready-stopped :
        (rs : List ℕ) (p : Timers)
        → is_done (p.at u).power ≡ false
        → is_chained u (call_ready func act rs p).0 ≡ false
    unfolding call_ready is_chained
    call_ready-stopped [] p d = refl
    call_ready-stopped (t ∷ rs) p d = elim (Bool-cases (is_done (p.at t).power && func t)) [
      | inr passes ↦ rw passes (call_ready-stopped rs p d)
      | inl calls ↦ elim (Bool-cases (u == t)) [
        | inl same ↦
            let k = ap (λ x. is_done (p.at x).power) ((==_iff u t).0 same) in
            absurd (ground (arith, k, d, calls))
        | inr apart ↦ rw calls (
            ap (λ e. e || is_chained u (call_ready func act rs (act t p)).0) apart
            ∙ call_ready-stopped rs (act t p) (stops t p apart))
      ]
    ]

    pub call_ready-first :
        (rs : List ℕ) (p : Timers)
        → Unique rs
        → let called = (call_ready func act rs p).0 in is_chained u called ≡ is_first u called
    unfolding call_ready is_chained
    call_ready-first [] p s = refl
    call_ready-first (t ∷ rs) p (n, s) = elim (Bool-cases (is_done (p.at t).power && func t)) [
      | inr passes ↦ rw passes (call_ready-first rs p s)
      | inl calls ↦ elim (Bool-cases (u == t)) [
        | inl same ↦
            let gone : is_chained u rs ≡ false =
              ap (λ x. is_chained x rs) ((==_iff u t).0 same) ∙ n in
            let fresh = call_ready-fresh u rs (act t p) gone in rw calls (ground (arith, fresh))
        | inr apart ↦
            let none_left = call_ready-stopped rs (act t p) (stops t p apart) in
            rw calls (ground (arith, none_left))
      ]
    ]
