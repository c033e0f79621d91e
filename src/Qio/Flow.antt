-- ===== src/Qio/Flow.antt =====
-- qwrite among other processes, which take what it writes out of the queue.
use nix_mark_iv.Prelude.{
  ℕ, ◌+◌, ◌≡◌, refl, sym, ap, subst, ◌∙◌, Bool, true, false, ◌&&◌, Option, none, some, List, [],
  ◌∷◌, ◌++◌, length, take, if◌then◌else◌, inl, inr, Bool-cases, append_assoc, append-nil, arith,
}
use nix_mark_iv.Block.{Block, Allocator, blen, contents}
use nix_mark_iv.Block.Moves.{contents-append}
use nix_mark_iv.Block.Chain.{maxatomic}
use nix_mark_iv.Qio.{Queue}
use nix_mark_iv.Qio.Stream.{stream}
use nix_mark_iv.Qio.Write.{
  Written, wrote, refused, sleeps, qbwrite, qwrite_blocks, WriteOutcome, complete, failed, cut_off,
  Pause, WriteEnd, write_all, qwrite,
}
use nix_mark_iv.Qio.Fill.{Takes, qbwrite-Takes, qbwrite_wrote, taken_stream, qwrite_blocks_lem}

-- A queue that blocks its writers; it may be closed.
pub record Blocks (q : Queue) : Type 0 where
  pub queues : q.bypass ≡ false
  pub blocks : q.noblock ≡ false

-- What others do: bytes leave the queue at its front and are seen, and none are added. They may
-- close the queue, if it keeps its bytes. An interrupt of the writer is by a signal.
pub record Drains {ℓ} {E : Type ℓ} (meanwhile : E → Bool → Queue → Pause E) (seen : E → List ℕ)
    (signalled : E → Bool) : Type ℓ where
  pub keeps : (e : E) (w : Bool) (q : Queue) → Blocks q → Blocks (meanwhile e w q).queue
  pub flows :
      (e : E) (w : Bool) (q : Queue)
      → let m = meanwhile e w q in seen m.rest ++ stream m.queue ≡ seen e ++ stream q
  pub tells :
      (e : E) (w : Bool) (q : Queue)
      → let m = meanwhile e w q in m.interrupted ≡ true → signalled m.rest ≡ true

-- Why a write ended so, with `left` not written.
abbrev pub Reason {ℓ} :
    {E : Type ℓ} {A : Type 0} → (E → Bool) → WriteOutcome → Queue → E → List A → Type 0
Reason signalled complete q e left = left ≡ []
Reason signalled (failed x) q e left = (q.closed ≡ true) × (q.err ≡ x)
Reason signalled cut_off q e left = signalled e ≡ true

module _ {ℓ} {E : Type ℓ} (meanwhile : E → Bool → Queue → Pause E) where
  refused_end :
      (e : E) (q : Queue) (b : Block) (bs : List Block)
      → Blocks q
      → q.closed ≡ true
      → write_all meanwhile e q (b ∷ bs) ≡ record { ended = failed q.err; queue = q; rest = e }
  unfolding write_all qbwrite
  refused_end e q b bs k c = rw (k.queues, c) refl

  -- write_all behind a call of qbwrite that left `q` and returned `r`.
  abbrev after_write : E → List Block → Queue → Written → WriteEnd E
  after_write e bs q r =
      let w = sleeps r in
      let m = meanwhile e w q in
      let next = write_all meanwhile m.rest m.queue bs in
      elim r [
        | refused x ↦ record { ended = failed x; queue = q; rest = e }
        | _ ↦
            if w && m.interrupted
            then record { ended = cut_off; queue = m.queue; rest = m.rest }
            else next
      ]

  next_end :
      (e : E) (q : Queue) (b : Block) (bs : List Block) (n : ℕ) (w : Bool)
      → (qbwrite q b).ret ≡ wrote n w
      → let m = meanwhile e w (qbwrite q b).queue in
        write_all meanwhile e q (b ∷ bs) ≡ (
          if w && m.interrupted
          then record { ended = cut_off; queue = m.queue; rest = m.rest }
          else write_all meanwhile m.rest m.queue bs)
  unfolding write_all
  next_end e q b bs n w r = ap (after_write e bs (qbwrite q b).queue) r

  module _ (seen : E → List ℕ) (signalled : E → Bool)
      (others : Drains meanwhile seen signalled) where
    -- The blocks in front were written: what was seen and what is left in the queue follow each
    -- other as before, and the data of those blocks follows them.
    record Wrote (e : E) (q : Queue) (bs : List Block) (r : WriteEnd E) : Type ℓ where
      pub front : List Block
      pub back : List Block
      pub parts : bs ≡ front ++ back
      pub flow : seen r.rest ++ stream r.queue ≡ (seen e ++ stream q) ++ contents front
      pub reason : Reason signalled r.ended r.queue r.rest back

    taken :
        (e : E) (w : Bool) (q : Queue) (b : Block)
        → Takes q
        → let m = meanwhile e w (qbwrite q b).queue in
          seen m.rest ++ stream m.queue ≡ (seen e ++ stream q) ++ b.bytes
    taken e w q b t =
        others.flows e w (qbwrite q b).queue
        ∙ ap (λ xs. seen e ++ xs) (taken_stream q b t)
        ∙ sym (append_assoc (seen e) (stream q) b.bytes)

    write_all-Wrote :
        (bs : List Block) (e : E) (q : Queue) → Blocks q → Wrote e q bs (write_all meanwhile e q bs)
    unfolding write_all
    write_all-Wrote [] e q k = record {
      front = [];
      back = [];
      parts = refl;
      flow = sym (append-nil (seen e ++ stream q));
      reason = refl;
    }
    write_all-Wrote (b ∷ bs) e q k = elim (Bool-cases q.closed) [
      | inl c ↦ subst (Wrote e q (b ∷ bs)) (sym (refused_end e q b bs k c)) (record {
        front = [];
        back = b ∷ bs;
        parts = refl;
        flow = sym (append-nil (seen e ++ stream q));
        reason = (c, refl);
      })
      | inr c ↦
          let t : Takes q = record { opened = c; queues = k.queues; blocks = k.blocks } in
          let (w, ret) = qbwrite_wrote q b t in
          let m = meanwhile e w (qbwrite q b).queue in
          let still = qbwrite-Takes q b t in
          let k' : Blocks (qbwrite q b).queue = record {
            queues = still.queues;
            blocks = still.blocks;
          } in
          let ih = write_all-Wrote bs m.rest m.queue (others.keeps e w (qbwrite q b).queue k') in
          subst (Wrote e q (b ∷ bs)) (sym (next_end e q b bs (blen b) w ret))
            (elim (Bool-cases (w && m.interrupted)) [
              | inl cut ↦ rw cut (record {
                front = b ∷ [];
                back = bs;
                parts = refl;
                flow =
                    taken e w q b t
                    ∙ ap (λ xs. (seen e ++ stream q) ++ xs) (sym (append-nil b.bytes));
                reason = others.tells e w (qbwrite q b).queue (ground arith);
              })
              | inr on ↦ rw on (record {
                front = b ∷ ih.front;
                back = ih.back;
                parts = ap (λ xs. b ∷ xs) ih.parts;
                flow =
                    ih.flow
                    ∙ ap (λ xs. xs ++ contents ih.front) (taken e w q b t)
                    ∙ append_assoc (seen e ++ stream q) b.bytes (contents ih.front);
                reason = ih.reason;
              })
            ])
    ]

-- What qwrite of `n` bytes returns.
abbrev pub count_of : ℕ → WriteOutcome → Option ℕ
count_of n complete = some n
count_of n x = none

-- What a call of qwrite for `p`, which is to write `bytes` of it, has done: those written are in the
-- stream, behind what was there, and the call has ended for a reason.
pub record Flowed {ℓ} {E : Type ℓ} (seen : E → List ℕ) (signalled : E → Bool) (e : E) (q : Queue)
    (p bytes : List ℕ) (o : Option ℕ × WriteEnd E) : Type ℓ where
  pub written : List ℕ
  pub left : List ℕ
  pub parts : bytes ≡ written ++ left
  pub flow : seen o.1.rest ++ stream o.1.queue ≡ (seen e ++ stream q) ++ written
  pub returns : o.0 ≡ count_of (length p) o.1.ended
  pub reason : Reason signalled o.1.ended o.1.queue o.1.rest left

Reason-contents {ℓ} :
    {E : Type ℓ} (signalled : E → Bool) (x : WriteOutcome) (q : Queue) (e : E) (back : List Block)
    → Reason signalled x q e back
    → Reason signalled x q e (contents back)
Reason-contents signalled complete q e back h = ap contents h
Reason-contents signalled (failed x) q e back h = h
Reason-contents signalled cut_off q e back h = h

count_agrees : (n : ℕ) (x : WriteOutcome) → elim x [ complete ↦ some n | _ ↦ none ] ≡ count_of n x
count_agrees n complete = refl
count_agrees n (failed x) = refl
count_agrees n cut_off = refl

-- qwrite on a queue that blocks its writers, where the steps of others between its pieces and in its
-- sleeps only take bytes from the front of the queue, or close it and keep its bytes. The bytes that
-- were taken and those in the queue are as before with, behind them, what qwrite wrote: a front part
-- of its bytes, or of the first Maxatomic of them for a message. Unless the queue was closed, whose
-- error is then raised, or a signal came in a sleep, that is all of these, and qwrite returns the
-- length asked for, also for a message of which it wrote less.
pub qwrite_lem {ℓ} :
    {E : Type ℓ} (a : Allocator) (meanwhile : E → Bool → Queue → Pause E) (seen : E → List ℕ)
    (signalled : E → Bool) (e : E) (q : Queue) (p : List ℕ)
    → Drains meanwhile seen signalled
    → Blocks q
    → Flowed seen signalled e q p (if q.msg then take maxatomic p else p) (qwrite a meanwhile e q p)
unfolding qwrite
qwrite_lem a meanwhile seen signalled e q p others k =
    let bs = qwrite_blocks a q.msg (length p + 1) p in
    let r = write_all meanwhile e q bs in
    let w = write_all-Wrote meanwhile seen signalled others bs e q k in
    record {
      written = contents w.front;
      left = contents w.back;
      parts =
          sym (qwrite_blocks_lem a q.msg (length p + 1) p (omega arith))
          ∙ ap contents w.parts
          ∙ contents-append w.front w.back;
      flow = w.flow;
      returns = count_agrees (length p) r.ended;
      reason = Reason-contents signalled r.ended r.queue r.rest w.back w.reason;
    }
