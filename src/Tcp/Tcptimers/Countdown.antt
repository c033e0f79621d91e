-- ===== src/Tcp/Tcptimers/Countdown.antt =====
-- A tick counts down every timer that is on, and takes out exactly those that reach 0.
use nix_mark_iv.Prelude.{
  ℕ, ◌≤◌, ◌≡◌, refl, sym, ap, ◌∙◌, true, false, some, List, [], ◌∷◌, length, ltb, ◌==◌, inl, inr,
  Bool-cases, ==_iff, arith,
}
use nix_mark_iv.Tcp.Tcptimers.{is_on, Timers, is_chained, count_down, tick_from, tick}
use nix_mark_iv.Tcp.Tcptimers.Linked.{Unique, Linked}
use nix_mark_iv.Tcp.Tcptimers.Step.{later, Ticked, count_down-Ticked}

pub tick_from-step :
    (t : ℕ) (ts : List ℕ) (p q : Timers) (timeo ready : List ℕ)
    → count_down t p timeo ≡ some (q, ready)
    → tick_from (t ∷ ts) p timeo ≡ tick_from ts q ready
unfolding tick_from
tick_from-step t ts p q timeo ready e = rw (tick_from, e) refl

-- The timers of `ts` are on, and none is twice in it.
tick_from-Ticked :
    (ts : List ℕ) (p : Timers) (timeo : List ℕ)
    → Linked p
    → Unique ts
    → ((u : ℕ) → is_chained u ts ≡ true → is_on (p.at u).power ≡ true)
    → Ticked p timeo (λ u. is_chained u ts) (tick_from ts p timeo)
unfolding tick_from is_chained
tick_from-Ticked [] p timeo l s o = record {
  left = p;
  ready = timeo;
  is = refl;
  linked = l;
  counted = λ u. refl;
  due = λ u. ground arith;
}
tick_from-Ticked (t ∷ ts) p timeo l (n, s) o =
    let c = count_down-Ticked t p timeo l (o t (ground arith)) in
    let r =
      tick_from-Ticked ts c.left c.ready c.linked s
        (λ u e. ap (λ x. is_on x.power) (kept c u (apart u e)) ∙ o u (ground (arith, e))) in
    record {
      left = r.left;
      ready = r.ready;
      is = tick_from-step t ts p c.left timeo c.ready c.is ∙ r.is;
      linked = r.linked;
      counted = λ u. elim (Bool-cases (u == t)) [
        | inl here ↦
            let k : c.left.at u ≡ later (p.at u) = c.counted u ∙ rw here refl in
            r.counted u ∙ rw (gone u here, here) k
        | inr there ↦ r.counted u ∙ rw (there, kept c u there) refl
      ];
      due = λ u. elim (Bool-cases (u == t)) [
        | inl here ↦ r.due u ∙ rw (gone u here, c.due u, here) (ground arith)
        | inr there ↦ r.due u ∙ rw (kept c u there, c.due u, there) (ground arith)
      ];
    }
  where
    gone : (u : ℕ) → (u == t) ≡ true → is_chained u ts ≡ false
    gone u here = ap (λ x. is_chained x ts) ((==_iff u t).0 here) ∙ n

    apart : (u : ℕ) → is_chained u ts ≡ true → (u == t) ≡ false
    apart u e = elim (Bool-cases (u == t)) [
      | inl here ↦ let k = gone u here in ground (arith, k, e)
      | inr there ↦ there
    ]

    kept :
        (c : Ticked p timeo (λ u. u == t) (count_down t p timeo)) (u : ℕ)
        → (u == t) ≡ false
        → c.left.at u ≡ p.at u
    kept c u there = c.counted u ∙ rw there refl

-- Where the list has exactly the timers that are on, none twice and at most 10001, and the counts of
-- those are not 0, the first loop does not panic and leaves it so: each timer that is on has one tick
-- less, each that had one left is done and out of the list, exactly those are ready, and no other
-- timer changes.
pub tick_lem :
    (p : Timers)
    → Linked p
    → length p.timers ≤ 10001
    → Ticked p [] (λ u. is_on (p.at u).power) (tick p)
unfolding tick
tick_lem p l few =
    let fits : ltb 10001 (length p.timers) ≡ false = ground arith in
    let r = tick_from-Ticked p.timers p [] l l.unique (λ u e. sym (l.agree u) ∙ e) in
    rw fits record {
      left = r.left;
      ready = r.ready;
      is = r.is;
      linked = r.linked;
      counted = λ u. r.counted u ∙ rw (l.agree u) refl;
      due = λ u. r.due u ∙ rw (l.agree u) refl;
    }
