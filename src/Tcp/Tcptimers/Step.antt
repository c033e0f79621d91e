-- ===== src/Tcp/Tcptimers/Step.antt =====
-- What a tick does to one timer.
use nix_mark_iv.Prelude.{
  ℕ, ◌-◌, ◌^◌, ◌<◌, ◌≡◌, refl, sym, ap, ◌∙◌, Bool, true, false, ◌&&◌, ◌||◌, Option, some, List, ◌∷◌,
  ◌==◌, if◌then◌else◌, inl, inr, Bool-cases, ==_iff, arith,
}
use nix_mark_iv.Tcp.{sub32}
use nix_mark_iv.Tcp.Tcptimers.{
  done, is_on, Tcptimer, Timers, set_timer, is_chained, unchain, timerstate, count_down,
}
use nix_mark_iv.Tcp.Tcptimers.Linked.{
  Linked, set_self, set-Linked, kept_for, Unique-unchain, unchained_for,
}

-- A timer a tick later.
abbrev pub later : Tcptimer → Tcptimer
later t =
    if is_on t.power
    then if t.count == 1
      then record t { power = done; count = 0 }
      else record t { count = t.count - 1 }
    else t

abbrev pub is_due : Tcptimer → Bool
is_due t = is_on t.power && t.count == 1

-- What a run over some of the timers makes of them.
pub record Ticked (p : Timers) (timeo : List ℕ) (among : ℕ → Bool) (o : Option (Timers × List ℕ))
    : Type 0 where
  pub left : Timers
  pub ready : List ℕ
  pub is : o ≡ some (left, ready)
  pub linked : Linked left
  pub counted : (u : ℕ) → left.at u ≡ (if among u then later (p.at u) else p.at u)
  pub due : (u : ℕ) → is_chained u ready ≡ is_chained u timeo || (among u && is_due (p.at u))

later_more :
    (x : Tcptimer)
    → is_on x.power ≡ true
    → (x.count == 1) ≡ false
    → later x ≡ record x { count = x.count - 1 }
later_more x h k = rw (h, k) refl

later_done :
    (x : Tcptimer)
    → is_on x.power ≡ true
    → (x.count == 1) ≡ true
    → later x ≡ record x { power = done; count = 0 }
later_done x h k = rw (h, k) refl

module _ (t : ℕ) (f : ℕ → Tcptimer) where
  set_is :
      (v : Tcptimer) (h : Tcptimer → Tcptimer)
      → v ≡ h (f t)
      → (u : ℕ) → set_timer t v f u ≡ (if u == t then h (f u) else f u)
  unfolding set_timer
  set_is v h e u = elim (Bool-cases (u == t)) [
    | inl here ↦ let same = (==_iff u t).0 here in rw here (e ∙ ap (λ x. h (f x)) (sym same))
    | inr there ↦ rw there refl
  ]

  set_twice : (v w : Tcptimer) (u : ℕ) → set_timer t w (set_timer t v f) u ≡ set_timer t w f u
  unfolding set_timer
  set_twice v w u = elim (Bool-cases (u == t)) [
    | inl here ↦ rw here refl
    | inr there ↦ rw there refl
  ]

  none_due :
      (b : Tcptimer → Bool) (x : Bool) → b (f t) ≡ false → (u : ℕ) → x ≡ x || (u == t && b (f u))
  none_due b x e u = elim (Bool-cases (u == t)) [
    | inl here ↦
        let k : b (f u) ≡ false = ap (λ y. b (f y)) ((==_iff u t).0 here) ∙ e in ground arith
    | inr there ↦ ground arith
  ]

  one_due :
      (b : Tcptimer → Bool) (x : Bool)
      → b (f t) ≡ true
      → (u : ℕ) → u == t || x ≡ x || (u == t && b (f u))
  one_due b x e u = elim (Bool-cases (u == t)) [
    | inl here ↦
        let k : b (f u) ≡ true = ap (λ y. b (f y)) ((==_iff u t).0 here) ∙ e in ground arith
    | inr there ↦ ground arith
  ]

timerstate-done :
    (t : ℕ) (p : Timers)
    → is_on (p.at t).power ≡ true
    → timerstate t done p
      ≡ some (record {
        at = set_timer t (record (p.at t) { power = done }) p.at;
        timers = unchain t p.timers;
      })
unfolding timerstate
timerstate-done t p h = rw h refl

module _ (t : ℕ) (p : Timers) (timeo : List ℕ) (l : Linked p) (runs : is_on (p.at t).power ≡ true)
    (more : (sub32 (p.at t).count 1 == 0) ≡ false) where
  counting : Ticked p timeo (λ u. u == t) (count_down t p timeo)
  unfolding count_down
  counting =
      let c = (p.at t).count in
      let v = record (p.at t) { count = sub32 c 1 } in
      let pos : 0 < c = elim (l.counts t) [ inl rests ↦ absurd (ground arith) | inr h ↦ h ] in
      let small : c < 2 ^ 32 = (l.small t).1 in
      let left : sub32 c 1 ≡ c - 1 = omega arith in
      let some_left : 0 < c - 1 = ground (arith, more) in
      let one : (c == 1) ≡ false = ground arith in
      rw (runs, more)
        record {
          left = record p { at = set_timer t v p.at };
          ready = timeo;
          is = refl;
          linked =
              set-Linked t v p p.timers l l.unique
                (λ u. kept_for u t p.timers (is_on v.power) (l.agree t))
                (inr (omega (arith, left, some_left))) ((l.small t).0, omega (arith, left));
          counted =
              set_is t p.at v later
                (ap (λ m. record (p.at t) { count = m }) left ∙ sym (later_more (p.at t) runs one));
          due = λ u. none_due t p.at is_due (is_chained u timeo) (ground (arith, runs, one)) u;
        }

module _ (t : ℕ) (p : Timers) (timeo : List ℕ) (l : Linked p) (runs : is_on (p.at t).power ≡ true)
    (last : (sub32 (p.at t).count 1 == 0) ≡ true) where
  abbrev counted_down : Tcptimer
  counted_down = record (p.at t) { count = sub32 (p.at t).count 1 }

  abbrev running : Timers
  running = record p { at = set_timer t counted_down p.at }

  ended : Tcptimer
  ended = record (p.at t) { power = done; count = 0 }

  at_end : set_timer t (record (running.at t) { power = done }) running.at ≡ set_timer t ended p.at
  unfolding ended
  at_end =
      ap (λ x. set_timer t (record x { power = done }) running.at) (set_self t counted_down p.at)
      ∙ ap (λ n. set_timer t (record (p.at t) { power = done; count = n }) running.at)
          ((==_iff (sub32 (p.at t).count 1) 0).0 last)
      ∙ λ i. λ u. set_twice t p.at counted_down ended u i

  ending : Ticked p timeo (λ u. u == t) (count_down t p timeo)
  unfolding count_down ended is_chained
  ending =
      let c = (p.at t).count in
      let pos : 0 < c = elim (l.counts t) [ inl rests ↦ absurd (ground arith) | inr h ↦ h ] in
      let small : c < 2 ^ 32 = (l.small t).1 in
      let zero : sub32 c 1 ≡ 0 = (==_iff (sub32 c 1) 0).0 last in
      let one : (c == 1) ≡ true = ground (arith, zero) in
      let still : is_on (running.at t).power ≡ true =
        ap (λ x. is_on x.power) (set_self t counted_down p.at) ∙ runs in
      let e = timerstate-done t running still in
      rw (runs, last, e)
        record {
          left = record { at = set_timer t ended p.at; timers = unchain t p.timers };
          ready = t ∷ timeo;
          is = ap (λ g. some (record { at = g; timers = unchain t p.timers }, t ∷ timeo)) at_end;
          linked =
              set-Linked t ended p (unchain t p.timers) l (Unique-unchain t p.timers l.unique)
                (λ u. unchained_for u t p.timers false refl l.unique) (inl refl)
                ((l.small t).0, omega arith);
          counted = set_is t p.at ended later (sym (later_done (p.at t) runs one));
          due = λ u. one_due t p.at is_due (is_chained u timeo) (ground (arith, runs, one)) u;
        }

pub count_down-Ticked :
    (t : ℕ) (p : Timers) (timeo : List ℕ)
    → Linked p
    → is_on (p.at t).power ≡ true
    → Ticked p timeo (λ u. u == t) (count_down t p timeo)
count_down-Ticked t p timeo l runs = elim (Bool-cases (sub32 (p.at t).count 1 == 0)) [
  | inl last ↦ ending t p timeo l runs last
  | inr more ↦ counting t p timeo l runs more
]
