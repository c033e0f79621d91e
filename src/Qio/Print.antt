-- ===== src/Qio/Print.antt =====
-- qiwrite, the write of kernel prints, which gives up rather than wait.
use nix_mark_iv.Prelude.{
  take-nil, subst, ℕ, zero, suc, ◌+◌, ◌-◌, ◌≤◌, ◌<◌, ◌≡◌, ◌⊎◌, refl, sym, ap, ◌∙◌, Bool, true,
  Bool-cases, inl, inr, List, [], ◌∷◌, ◌++◌, length, take, drop, min, arith, append_assoc,
  append-nil, length-drop, ltb, leb, ◌==◌, ◌||◌,
}
use nix_mark_iv.Block.{Block, write, contents}
use nix_mark_iv.Block.Moves.{bytes-write}
use nix_mark_iv.Block.Chain.{maxatomic}
use nix_mark_iv.Alloc.{Ialloc, iallocb}
use nix_mark_iv.Qio.{Queue, feed, qaddlist}
use nix_mark_iv.Qio.Write.{qiwrite, print_limit, Printed}
use nix_mark_iv.Qio.Stream.{stream, blocks-feed, stream-qaddlist}

-- The queue after a round of qiwrite that queued the bytes `p`.
abbrev added : Queue → Block → List ℕ → Queue
added q b p = (feed (qaddlist q (write p b ∷ []))).0

stream-added :
    (q : Queue) (b : Block) (p : List ℕ) → b.bytes ≡ [] → stream (added q b p) ≡ stream q ++ p
stream-added q b p e =
    ap contents (blocks-feed (qaddlist q (write p b ∷ [])))
    ∙ stream-qaddlist q (write p b ∷ [])
    ∙ ap (λ xs. stream q ++ xs) (append-nil _ ∙ bytes-write p b ∙ ap (λ xs. xs ++ p) e)

added-msg : (q : Queue) (b : Block) (p : List ℕ) → (added q b p).msg ≡ q.msg
unfolding feed qaddlist
added-msg q b p = ground arith

-- Why qiwrite stops early.
abbrev pub Stops : Queue → Printed → Type 0
Stops q r = (q.msg ≡ true) ⊎ ((print_limit ≤ r.queue.dlen) ⊎ (r.ialloc.limit < r.ialloc.bytes))

-- What qiwrite does with the bytes `p`.
abbrev pub Prints : Queue → List ℕ → Printed → Type 0
Prints q p r =
    (stream r.queue ≡ stream q ++ take r.sofar p)
    × (r.sofar ≤ length p)
    × ((r.sofar ≡ length p) ⊎ Stops q r)

take-plus : (n k : ℕ) (p : List ℕ) → take n p ++ take k (drop n p) ≡ take (n + k) p
take-plus zero k p = ap (λ m. take m p) (omega arith)
take-plus (suc n) k [] = take-nil k ∙ sym (take-nil (suc n + k))
take-plus (suc n) k (x ∷ xs) =
    let e : suc (n + k) ≡ suc n + k = omega arith in
    ap (◌∷◌ x) (take-plus n k xs) ∙ ap (λ m. take m (x ∷ xs)) e

-- A round and what the rounds after it do.
Prints-more :
    (q q' : Queue) (n : ℕ) (p : List ℕ) (r r' : Printed)
    → stream q' ≡ stream q ++ take n p
    → q'.msg ≡ q.msg
    → n ≤ length p
    → Prints q' (drop n p) r
    → r'.sofar ≡ n + r.sofar
    → r'.queue ≡ r.queue
    → r'.ialloc ≡ r.ialloc
    → Prints q p r'
Prints-more q q' n p r r' e m l (same, short, why) sofar queue ialloc = (
  ap stream queue
      ∙ same
      ∙ ap (λ xs. xs ++ take r.sofar (drop n p)) e
      ∙ append_assoc (stream q) (take n p) (take r.sofar (drop n p))
      ∙ ap (λ xs. stream q ++ xs) (take-plus n r.sofar p ∙ ap (λ k. take k p) (sym sofar)),
  omega (arith, length-drop n p),
  elim why [
    | inl all ↦ inl (omega (arith, length-drop n p))
    | inr (inl msg) ↦ inr (inl (sym m ∙ msg))
    | inr (inr (inl full)) ↦ inr (inr (inl (subst (λ t. print_limit ≤ t.dlen) (sym queue) full)))
    | inr (inr (inr over)) ↦ inr (inr (inr (subst (λ t. t.limit < t.bytes) (sym ialloc) over)))
  ],
)

-- qiwrite, with a round for each byte and one more and given empty blocks, appends to the stream the
-- first bytes, as many as it returns. It returns less than all of them only for a message queue, on
-- reaching the limit of kernel prints, or when the allowance of iallocb is used up.
pub qiwrite_lem :
    (made : ℕ → Block) (fuel : ℕ) (woken : Bool) (q : Queue) (s : Ialloc) (p : List ℕ)
    → ((n : ℕ) → (made n).bytes ≡ [])
    → length p < fuel
    → Prints q p (qiwrite made fuel woken q s p)
unfolding qiwrite iallocb
qiwrite_lem made zero woken q s p h l = absurd (omega arith)
qiwrite_lem made (suc fuel) woken q s p h l = elim (Bool-cases (ltb s.limit s.bytes)) [
  | inl over ↦
      rw (over, qiwrite) (sym (append-nil (stream q)), omega arith, inr (inr (inr (ground arith))))
  | inr under ↦ elim (Bool-cases (leb print_limit q.dlen)) [
    | inl full ↦
        rw (under, qiwrite, full)
          (sym (append-nil (stream q)), omega arith, inr (inr (inl (ground arith))))
    | inr fits ↦
        let n = min (length p) maxatomic in
        let b = record (made n) { intr = true } in
        let q' = added q b (take n p) in
        let queued = stream-added q b (take n p) (h n) in
        elim (Bool-cases (length p - n == 0 || q.msg)) [
          | inl last ↦
              rw (under, qiwrite, fits, last)
                (
                  queued,
                  omega arith,
                  elim (Bool-cases (length p - n == 0)) [
                    | inl done ↦ inl (ground arith)
                    | inr part ↦ inr (inl (ground arith))
                  ],
                )
          | inr more ↦
              let woken' = woken || (feed (qaddlist q (write (take n p) b ∷ []))).1 in
              let r = qiwrite made fuel woken' q' (iallocb (made n) s).1 (drop n p) in
              let rest =
                qiwrite_lem made fuel woken' q' (iallocb (made n) s).1 (drop n p) h
                  (ground (arith, length-drop n p)) in
              rw (under, qiwrite, fits, more)
                (Prints-more q q' n p r (record r { sofar = n + r.sofar }) queued
                  (added-msg q b (take n p)) (omega arith) rest refl refl refl)
        ]
  ]
]
