-- ===== src/WaitQueue/Holds.antt =====
-- A linked queue of processes holds a list of them: enqueueing and dequeueing keep the links sound.
use nix_mark_iv.Prelude.{
  subst, ℕ, ◌≡◌, ◌≢◌, refl, sym, ◌∙◌, List, [], ◌∷◌, ◌++◌, Option, none, some, arith,
}
use nix_mark_iv.WaitQueue.{
  ProcState, Procs, WaitQueue, set_entry, link, new_head, enqueue, dequeue, make_ready,
}

-- No entry of the list is `p`, and no entry comes twice.
abbrev pub Avoids : ℕ → List ℕ → Type 0
Avoids p [] = Unit {0}
Avoids p (x ∷ xs) = (x ≢ p) × Avoids p xs

abbrev pub Distinct : List ℕ → Type 0
Distinct [] = Unit {0}
Distinct (x ∷ xs) = Avoids x xs × Distinct xs

-- The links from `h` on run through the list and end there, at `t`.
abbrev pub Chain : (ℕ → Option ℕ) → Option ℕ → List ℕ → Type 0
Chain next h [] = h ≡ none
Chain next h (x ∷ xs) = (h ≡ some x) × Chain next (next x) xs

abbrev pub last : List ℕ → Option ℕ
last [] = none
last (x ∷ []) = some x
last (x ∷ y ∷ ys) = last (y ∷ ys)

pub record Holds (q : WaitQueue) (ps : Procs) (xs : List ℕ) : Type 0 where
  pub chain : Chain ps.qnext q.head xs
  pub ends : q.tail ≡ last xs
  pub distinct : Distinct xs

set_entry_self {ℓ} : {A : Type ℓ} (f : ℕ → A) (p : ℕ) (v : A) → set_entry f p v p ≡ v
set_entry_self f p v = ground arith

set_entry_ne {ℓ} :
    {A : Type ℓ} (f : ℕ → A) (p : ℕ) (v : A) (j : ℕ) → j ≢ p → set_entry f p v j ≡ f j
set_entry_ne f p v j h = ground arith

last_ne : (x : ℕ) (xs : List ℕ) (p : ℕ) → Avoids x xs → last xs ≡ some p → x ≢ p
last_ne x [] p a e = cc
last_ne x (y ∷ []) p a e = ground arith
last_ne x (y ∷ z ∷ zs) p a e = last_ne x (z ∷ zs) p a.1 e

last-cons : (x : ℕ) (xs : List ℕ) → (p : ℕ) × (last (x ∷ xs) ≡ some p)
last-cons x [] = (x, refl)
last-cons x (y ∷ ys) = last-cons y ys

last-snoc : (xs : List ℕ) (up : ℕ) → last (xs ++ up ∷ []) ≡ some up
last-snoc [] up = refl
last-snoc (x ∷ []) up = refl
last-snoc (x ∷ y ∷ ys) up = last-snoc (y ∷ ys) up

Avoids-snoc : (x : ℕ) (xs : List ℕ) (up : ℕ) → Avoids x xs → up ≢ x → Avoids x (xs ++ up ∷ [])
Avoids-snoc x [] up a h = (h, tt)
Avoids-snoc x (y ∷ ys) up (h, a) g = (h, Avoids-snoc x ys up a g)

Distinct-snoc : (xs : List ℕ) (up : ℕ) → Avoids up xs → Distinct xs → Distinct (xs ++ up ∷ [])
Distinct-snoc [] up a d = (tt, tt)
Distinct-snoc (x ∷ xs) up (h, a) (b, d) =
    (Avoids-snoc x xs up b (λ e. h (sym e)), Distinct-snoc xs up a d)

-- What the new link leaves alone: a process before the last one.
link_ne :
    (next : ℕ → Option ℕ) (t : Option ℕ) (up x : ℕ)
    → ((p : ℕ) → t ≡ some p → x ≢ p)
    → x ≢ up
    → link t up next x ≡ next x
unfolding link
link_ne next none up x h g = set_entry_ne next up none x g
link_ne next (some p) up x h g =
    set_entry_ne (set_entry next p (some up)) up none x g
    ∙ set_entry_ne next p (some up) x (h p refl)

Chain-link :
    (next : ℕ → Option ℕ) (h : Option ℕ) (x : ℕ) (xs : List ℕ) (up : ℕ)
    → Avoids up (x ∷ xs)
    → Distinct (x ∷ xs)
    → Chain next h (x ∷ xs)
    → Chain (link (last (x ∷ xs)) up next) h (x ∷ xs ++ up ∷ [])
unfolding link
Chain-link next h x [] up (ne, a) d (e, c) = (
  e,
  (
    set_entry_ne (set_entry next x (some up)) up none x ne ∙ set_entry_self next x (some up),
    set_entry_self (set_entry next x (some up)) up none,
  ),
)
Chain-link next h x (y ∷ ys) up (ne, a) (b, d) (e, c) =
    let same = link_ne next (last (y ∷ ys)) up x (λ p t. last_ne x (y ∷ ys) p b t) ne in
    (e, rw same (Chain-link next (next x) y ys up a d c))

-- In a sound queue, a process that does not wait yet is put behind those that do, in the state it
-- waits in.
pub enqueue-Holds :
    (up : ℕ) (st : ProcState) (q : WaitQueue) (ps : Procs) (xs : List ℕ)
    → Holds q ps xs
    → Avoids up xs
    → let (q', ps') = enqueue up st (q, ps) in Holds q' ps' (xs ++ up ∷ [])
unfolding enqueue new_head link
enqueue-Holds up st q ps [] h a = record {
  chain = (rw (h.ends, new_head) refl, rw (h.ends, link) (set_entry_self ps.qnext up none));
  ends = refl;
  distinct = (tt, tt);
}
enqueue-Holds up st q ps (x ∷ xs) h a =
    let (p, t) = last-cons x xs in
    let linked = Chain-link ps.qnext q.head x xs up a h.distinct h.chain in
    record {
      chain = (
        rw (h.ends ∙ t, new_head) h.chain.0,
        subst (λ t. Chain (link t up ps.qnext) (link t up ps.qnext x) (xs ++ up ∷ [])) (sym h.ends)
            linked.1,
      );
      ends = sym (last-snoc (x ∷ xs) up);
      distinct = Distinct-snoc (x ∷ xs) up a h.distinct;
    }

-- In a sound queue, the process at the head is taken off, and the others stay.
pub dequeue-Holds :
    (p : ℕ) (q : WaitQueue) (ps : Procs) (xs : List ℕ)
    → Holds q ps (p ∷ xs)
    → Holds (dequeue p (q, ps)) ps xs
unfolding dequeue
dequeue-Holds p q ps [] h =
    rw (h.chain.1, dequeue) (record { chain = refl; ends = refl; distinct = tt })
dequeue-Holds p q ps (x ∷ xs) h =
    rw (h.chain.1.0, dequeue)
      (record { chain = (refl, h.chain.1.1); ends = h.ends; distinct = h.distinct.1 })

-- The head of a queue is the first of the list that it holds.
pub Holds-head :
    (q : WaitQueue) (ps : Procs) (xs : List ℕ)
    → Holds q ps xs
    → q.head ≡ elim xs [ [] ↦ none | x ∷ _ ↦ some x ]
Holds-head q ps [] h = h.chain
Holds-head q ps (x ∷ xs) h = h.chain.0

-- Making a process ready does not touch the links.
pub make_ready-Holds :
    (p : ℕ) (q : WaitQueue) (ps : Procs) (xs : List ℕ)
    → Holds q ps xs
    → Holds q (make_ready p ps) xs
unfolding make_ready
make_ready-Holds p q ps xs h = record { chain = h.chain; ends = h.ends; distinct = h.distinct }
