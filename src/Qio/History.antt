-- ===== src/Qio/History.antt =====
-- The life of a queue of bytes: any sequence of calls by producers and consumers.
use nix_mark_iv.Prelude.{
  ℕ, ◌≡◌, sym, ap, ◌∙◌, false, ◌&&◌, ◌||◌, List, [], ◌∷◌, ◌++◌, take, append_assoc,
  take-append-drop, leb, if◌then◌else◌,
}
use nix_mark_iv.Block.{Block, Allocator, contents}
use nix_mark_iv.Alloc.{Ialloc}
use nix_mark_iv.Qio.{Queue, IsValid}
use nix_mark_iv.Qio.Interrupt.{qdiscard, qconsume, qpass, qproduce}
use nix_mark_iv.Qio.Read.{qbread, qread}
use nix_mark_iv.Qio.Write.{qbwrite}
use nix_mark_iv.Qio.Stream.{stream, copied, qdiscard_lem, stream-qconsume}
use nix_mark_iv.Qio.Feed.{accepted, stream-qpass, stream-qproduce}
use nix_mark_iv.Qio.Fill.{stream-qbwrite}
use nix_mark_iv.Qio.Drain.{fetched, qread_lem}
use nix_mark_iv.Qio.Split.{block_data, qbread_lem}
use nix_mark_iv.Qio.Counters.{qpass-IsValid, qproduce-IsValid, qdiscard-IsValid, qconsume-IsValid}
use nix_mark_iv.Qio.Users.{qread-IsValid, qbread-IsValid, qbwrite-IsValid}
use nix_mark_iv.Qio.Kinds.{
  qpass-msg, qproduce-msg, qdiscard-msg, qconsume-msg, qread-msg, qbread-msg, qbwrite-msg,
}

-- A queue, the bytes that it accepted from producers, and those that left it to consumers or were
-- thrown away by qdiscard, in the order in which that happened.
pub record History : Type 0 where
  pub queue : Queue
  pub given : List ℕ
  pub taken : List ℕ

abbrev gives : History → Queue → List ℕ → History
gives h q p = record { queue = q; given = h.given ++ p; taken = h.taken }

abbrev takes : History → Queue → List ℕ → History
takes h q p = record { queue = q; given = h.given; taken = h.taken ++ p }

-- What is accepted of a chain by qpass, and of a block by qbwrite.
abbrev pub passed : Queue → Block → List Block → List ℕ
passed q b rest = if leb q.limit q.len || q.closed then [] else contents (b ∷ rest)

abbrev pub written : Queue → Block → List ℕ
written q b = if q.bypass || (q.closed || (leb q.limit q.len && q.noblock)) then [] else b.bytes

-- The calls, by whoever makes them.
pub data Call (a : Allocator) (h : History) : History → Type 0 where
  passes :
      (b : Block) (rest : List Block)
      → Call a h (gives h (qpass h.queue b rest).queue (passed h.queue b rest))
  produces :
      (made : Block) (s : Ialloc) (p : List ℕ)
      → made.bytes ≡ []
      → Call a h
          (let r = (qproduce h.queue made s p).0 in gives h r.queue (take (accepted r.ret) p))
  writes : (b : Block) → Call a h (gives h (qbwrite h.queue b).queue (written h.queue b))
  reads : (len : ℕ) → Call a h (let r = qread h.queue len in takes h r.queue (fetched r.ret))
  breads : (len : ℕ) → Call a h (let r = qbread a h.queue len in takes h r.queue (block_data r.ret))
  consumes : (len : ℕ) → Call a h (let r = qconsume h.queue len in takes h r.queue (copied r.ret))
  discards : (len : ℕ) → Call a h (takes h (qdiscard h.queue len).queue (take len (stream h.queue)))

pub data Calls (a : Allocator) (h : History) : History → Type 0 where
  here : Calls a h h
  next : {t u : History} → Calls a h t → Call a t u → Calls a h u

-- The queue is a stream with right counters, and what left it and what it holds is what it accepted,
-- in that order.
pub record IsFifo (h : History) : Type 0 where
  pub bytes : h.queue.msg ≡ false
  pub valid : IsValid h.queue
  pub order : h.given ≡ h.taken ++ stream h.queue

gives-IsFifo :
    (h : History) (q : Queue) (p : List ℕ)
    → IsFifo h
    → q.msg ≡ h.queue.msg
    → IsValid q
    → stream q ≡ stream h.queue ++ p
    → IsFifo (gives h q p)
gives-IsFifo h q p f m v e = record {
  bytes = m ∙ f.bytes;
  valid = v;
  order =
      ap (λ xs. xs ++ p) f.order
      ∙ append_assoc h.taken (stream h.queue) p
      ∙ ap (λ xs. h.taken ++ xs) (sym e);
}

takes-IsFifo :
    (h : History) (q : Queue) (p : List ℕ)
    → IsFifo h
    → q.msg ≡ h.queue.msg
    → IsValid q
    → stream h.queue ≡ p ++ stream q
    → IsFifo (takes h q p)
takes-IsFifo h q p f m v e = record {
  bytes = m ∙ f.bytes;
  valid = v;
  order = f.order ∙ ap (λ xs. h.taken ++ xs) e ∙ sym (append_assoc h.taken p (stream q));
}

Call-IsFifo : {a : Allocator} {h t : History} → Call a h t → IsFifo h → IsFifo t
Call-IsFifo {a} {h} (passes b rest) f =
    let q = h.queue in
    gives-IsFifo h _ _ f (qpass-msg q b rest) (qpass-IsValid q f.valid b rest)
      (stream-qpass q b rest).0
Call-IsFifo {a} {h} (produces made s p e) f =
    let q = h.queue in
    gives-IsFifo h _ _ f (qproduce-msg q made s p) (qproduce-IsValid q f.valid made s p)
      (stream-qproduce q made s p e).0
Call-IsFifo {a} {h} (writes b) f =
    let q = h.queue in
    gives-IsFifo h _ _ f (qbwrite-msg q b) (qbwrite-IsValid q b f.valid) (stream-qbwrite q b)
Call-IsFifo {a} {h} (reads len) f =
    let q = h.queue in
    takes-IsFifo h _ _ f (qread-msg q len) (qread-IsValid q len f.valid) (qread_lem q len f.bytes).0
Call-IsFifo {a} {h} (breads len) f =
    let q = h.queue in
    takes-IsFifo h _ _ f (qbread-msg a q len) (qbread-IsValid a q len f.valid)
      (qbread_lem a q len f.bytes).0
Call-IsFifo {a} {h} (consumes len) f =
    let q = h.queue in
    takes-IsFifo h _ _ f (qconsume-msg q len) (qconsume-IsValid q f.valid len)
      (stream-qconsume q len f.bytes).0
Call-IsFifo {a} {h} (discards len) f =
    let q = h.queue in
    takes-IsFifo h _ _ f (qdiscard-msg q len) (qdiscard-IsValid q f.valid len) (
      sym (take-append-drop len (stream q))
      ∙ ap (λ xs. take len (stream q) ++ xs) (sym (qdiscard_lem q len).1))

-- In every sequence of calls of qpass, qproduce, qbwrite, qread, qbread, qconsume and qdiscard on a
-- queue of bytes, the bytes that left the queue followed by those that it holds are the bytes that
-- it accepted, in the order of acceptance: none is lost, doubled or reordered; and len and dlen are
-- what is queued.
pub Calls-IsFifo : {a : Allocator} {h t : History} → IsFifo h → Calls a h t → IsFifo t
Calls-IsFifo f here = f
Calls-IsFifo f (next r c) = Call-IsFifo c (Calls-IsFifo f r)
