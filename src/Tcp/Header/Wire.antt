-- ===== src/Tcp/Header/Wire.antt =====
-- ntohtcp4 reads what htontcp4 wrote.
use nix_mark_iv.Block.Build.{padblock_lem}
use nix_mark_iv.Block.{blen, write, contents, Allocator, blocklen}
use nix_mark_iv.Block.Pullup.{pullupblock_enough}
use nix_mark_iv.Prelude.{
  [], drop, ap, get_or, ℕ, zero, suc, ◌+◌, ◌-◌, ◌*◌, ◌/◌, ◌%◌, ◌^◌, ◌≤◌, ◌<◌, ◌≡◌, ◌⊎◌, inl, inr,
  refl, ◌∙◌, false, List, ◌∷◌, ◌++◌, length, ltb, ◌==◌, Bool-cases, arith, length-append, some,
  Bool, Option, drop_all,
}
use nix_mark_iv.Tcp.{Block, Tcp, has_bit, syn_bit}
use nix_mark_iv.Tcp.Header.{
  parsed, Allocator, read_options, ntohtcp4, bytes_of, parse_fixed, header, Tcp4hdr, options,
  parse_options, room_for, scale_of, Sender, htontcp4, put_front, fill_packet, checksum,
}
use nix_mark_iv.Tcp.Header.Options.{with_options, parse_options_lem}

short : (v : ℕ) → v < 2 ^ 16 → v / 256 % 256 * 256 + v % 256 ≡ v
short v h = omega arith

long :
    (v : ℕ)
    → v < 2 ^ 32
    → v / 2 ^ 24 % 256 * 2 ^ 24 + v / 65536 % 256 * 65536 + v / 256 % 256 * 256 + v % 256 ≡ v
long v h = omega arith

options-length : (seg : Tcp) → (length (options seg) ≤ 8) × (length (options seg) % 4 ≡ 0)
unfolding options
options-length seg = elim (Bool-cases (has_bit syn_bit seg.flags)) [
  | inr bare ↦ rw bare (omega arith, omega arith)
  | inl syn ↦ elim (Bool-cases (seg.mss == 0)) [
    | inl nomss ↦ elim (Bool-cases (seg.ws == 0)) [
      | inl nows ↦ rw (syn, nomss, nows) (omega arith, omega arith)
      | inr ws ↦ rw (syn, nomss, ws) (omega arith, omega arith)
    ]
    | inr mss ↦ elim (Bool-cases (seg.ws == 0)) [
      | inl nows ↦ rw (syn, mss, nows) (omega arith, omega arith)
      | inr ws ↦ rw (syn, mss, ws) (omega arith, omega arith)
    ]
  ]
]

-- The numbers of a segment and of a prototype header fit into their fields.
pub record Fits (seg : Tcp) (ph : Tcp4hdr) (scale : ℕ) : Type 0 where
  pub seq : seg.seq < 2 ^ 32
  pub ack : seg.ack < 2 ^ 32
  pub flags : seg.flags < 256
  pub urg : seg.urg < 2 ^ 16
  pub wnd : seg.wnd / 2 ^ scale < 2 ^ 16
  pub mss : seg.mss < 2 ^ 16
  pub ws : (seg.ws ≡ 0) ⊎ ((256 ≤ seg.ws) × (seg.ws ≤ 256 + 14))
  pub source : ph.tcpsport < 2 ^ 16
  pub dest : ph.tcpdport < 2 ^ 16
  pub total : ph.length < 2 ^ 16

-- The segment as it is read: the ports and the length are those of the header.
abbrev pub on_wire : Tcp → Tcp4hdr → ℕ → Tcp
on_wire seg ph scale = with_options seg record {
  source = ph.tcpsport;
  dest = ph.tcpdport;
  seq = seg.seq;
  ack = seg.ack;
  flags = seg.flags;
  ws = 0;
  wnd = seg.wnd / 2 ^ scale;
  urg = seg.urg;
  mss = 0;
  len = (ph.length + 2 ^ 16 - (20 + length (options seg) + 20) % 2 ^ 16) % 2 ^ 16;
}

module _ (seg : Tcp) (ph : Tcp4hdr) (dlen scale csum : ℕ) (f : Fits seg ph scale) where
  abbrev h : Tcp4hdr
  h = record (header seg ph dlen scale) { tcpcksum = csum }

  abbrev hdrlen : ℕ
  hdrlen = 20 + length (options seg)

  -- What the options are added to.
  abbrev fixed : Tcp
  fixed = record {
    source = ph.tcpsport;
    dest = ph.tcpdport;
    seq = seg.seq;
    ack = seg.ack;
    flags = seg.flags;
    ws = 0;
    wnd = seg.wnd / 2 ^ scale;
    urg = seg.urg;
    mss = 0;
    len = (ph.length + 2 ^ 16 - (20 + length (options seg) + 20) % 2 ^ 16) % 2 ^ 16;
  }

  parse_fixed_lem : (t : List ℕ) → parse_fixed (bytes_of h ++ t) hdrlen ≡ fixed
  unfolding parse_fixed header
  parse_fixed_lem t =
      let w : seg.wnd / 2 ^ scale % 2 ^ 16 ≡ seg.wnd / 2 ^ scale = omega (arith, f.wnd) in
      let g : (hdrlen * 1024 + seg.flags) % 2 ^ 16 % 256 ≡ seg.flags =
        omega (arith, options-length seg, f.flags) in
      let e : seg.wnd / 2 ^ scale % 2 ^ 16 / 256 % 256 * 256 + seg.wnd / 2 ^ scale % 2 ^ 16 % 256
          ≡ seg.wnd / 2 ^ scale =
        rw w (short (seg.wnd / 2 ^ scale) f.wnd) in
      λ i. record {
        source = short ph.tcpsport f.source i;
        dest = short ph.tcpdport f.dest i;
        seq = long seg.seq f.seq i;
        ack = long seg.ack f.ack i;
        flags = g i;
        ws = 0;
        wnd = e i;
        urg = short seg.urg f.urg i;
        mss = 0;
        len =
            (short ph.length f.total i + 2 ^ 16 - (20 + length (options seg) + 20) % 2 ^ 16)
            % 2 ^ 16;
      }

  hdrlen-byte : (t : List ℕ) → get_or (bytes_of h ++ t) 32 0 / 16 * 4 ≡ hdrlen
  unfolding header
  hdrlen-byte t = omega (arith, options-length seg, f.flags)

  -- A block that starts with the header.
  ntohtcp4-written :
      (a : Allocator) (b : Block) (next : List Block) (t : List ℕ)
      → b.bytes ≡ bytes_of h ++ options seg ++ t
      → ntohtcp4 a b next ≡ parsed hdrlen (on_wire seg ph scale) (b ∷ next)
  unfolding ntohtcp4 read_options
  ntohtcp4-written a b next t e =
      let l : blen b ≡ 40 + length (options seg) + length t =
        omega (arith, ap length e, length-append (options seg) t) in
      let first = pullupblock_enough a b next 40 (omega (arith, l)) in
      let second = pullupblock_enough a b next (hdrlen + 20) (omega (arith, l)) in
      let small : ltb hdrlen 20 ≡ false = ground arith in
      let roomy : ltb (blen b + b.room) (hdrlen + 20) ≡ false = ground (arith, l) in
      let len : hdrlen - 20 ≡ length (options seg) = omega arith in
      let hd : get_or b.bytes 32 0 / 16 * 4 ≡ hdrlen = rw e (hdrlen-byte (options seg ++ t)) in
      rw (first, ntohtcp4, hd, small, second, read_options, hd, roomy)
        (ap (λ s. parsed hdrlen s (b ∷ next))
          (ap (λ ys. parse_options (hdrlen - 20) (hdrlen - 20) (drop 40 ys) (parse_fixed ys hdrlen))
              e
            ∙ ap
                (λ n.
                  parse_options n n (options seg ++ t)
                    (parse_fixed (bytes_of h ++ options seg ++ t) hdrlen))
                len
            ∙ ap (parse_options (length (options seg)) (length (options seg)) (options seg ++ t))
                (parse_fixed_lem (options seg ++ t))
            ∙ parse_options_lem seg fixed t f.mss f.ws refl refl))

behind :
    (hs os ds cs : List ℕ) (n : ℕ)
    → length hs + length os ≡ n
    → drop n ((hs ++ os ++ ds) ++ cs) ≡ ds ++ cs
behind [] [] ds cs n e = let z : n ≡ 0 = omega arith in rw z refl
behind [] (o ∷ os) ds cs zero e = absurd (omega arith)
behind [] (o ∷ os) ds cs (suc n) e = behind [] os ds cs n (omega arith)
behind (h ∷ hs) os ds cs zero e = absurd (omega arith)
behind (h ∷ hs) os ds cs (suc n) e = behind hs os ds cs n (omega arith)

-- There is room for n bytes of headers in front of the data, or the block of the data is the only one.
abbrev pub Roomy : List Block → ℕ → Type 0
Roomy [] n = Unit {0}
Roomy (b ∷ next) n = (n ≤ length b.hdr) ⊎ (next ≡ [])

room_for-lem :
    (a : Allocator) (pkt : List Block) (n : ℕ)
    → Roomy pkt n
    → (b : Block) × (next : List Block) × (room_for a pkt n ≡ some (b ∷ next))
      × (n ≤ blen b)
      × (drop n b.bytes ++ contents next ≡ contents pkt)
unfolding room_for write
room_for-lem a [] n r =
    let e = ap (λ xs. xs ++ a.fresh n) (a.alloc_empty (n + 64)) in
    let l = a.length-fresh n in
    (
      write (a.fresh n) (a.alloc (n + 64)),
      [],
      refl,
      omega (arith, ap length e, l),
      ap (λ xs. drop n xs ++ []) e ∙ ap (λ xs. xs ++ []) (drop_all n (a.fresh n) (omega arith)),
    )
room_for-lem a (b ∷ next) n r =
    let (c, e, l, d, m) = padblock_lem a b next n r in
    (c, next, e, omega (arith, l), ap (λ xs. xs ++ contents next) d)

module _ (a : Allocator) (little : Bool) (odd_at : Block → ℕ → Bool) (seg : Tcp) (pkt : List Block)
    (ph : Tcp4hdr) (tcb : Option Sender) where
  abbrev dlen : ℕ
  dlen = blocklen pkt

  -- The checksum is that of the packet with the field as the prototype has it.
  abbrev csum_of : Block → List Block → ℕ
  csum_of b next =
      checksum little odd_at tcb (20 + length (options seg) + dlen)
        (put_front (bytes_of (header seg ph dlen (scale_of tcb)) ++ options seg) b ∷ next)

  fill_packet_lem :
      (b : Block) (next : List Block)
      → (c : Block) × (fill_packet little odd_at seg ph tcb dlen (b ∷ next) ≡ c ∷ next)
        × (c.bytes
            ≡ bytes_of (record (header seg ph dlen (scale_of tcb)) { tcpcksum = csum_of b next })
              ++ options seg
              ++ drop (20 + length (options seg) + 20) b.bytes)
  unfolding fill_packet put_front
  fill_packet_lem b next =
      let h = header seg ph dlen (scale_of tcb) in
      let n : length (bytes_of h ++ options seg) ≡ 20 + length (options seg) + 20 = omega arith in
      (
        record b { bytes = _ },
        refl,
        ap (λ k. bytes_of (record h { tcpcksum = csum_of b next }) ++ options seg ++ drop k b.bytes)
            n,
      )

  made :
      (b : Block) (next : List Block)
      → room_for a pkt (20 + length (options seg) + 20) ≡ some (b ∷ next)
      → (c : Block) → fill_packet little odd_at seg ph tcb dlen (b ∷ next) ≡ c ∷ next
      → htontcp4 a little odd_at seg pkt ph tcb ≡ some (c ∷ next)
  unfolding htontcp4
  made b next e c e' = rw (htontcp4, e) (ap some e')

  -- Of a segment whose numbers fit their fields, with data that has room for a header, htontcp4
  -- makes a packet; ntohtcp4 reads from it the same segment, with the window as it was scaled,
  -- the options only with a SYN, and the length that the header of IP says, and behind the header
  -- is the data.
  pub ntohtcp4-htontcp4 :
      Fits seg ph (scale_of tcb)
      → Roomy pkt (20 + length (options seg) + 20)
      → (b : Block) × (next : List Block) × (htontcp4 a little odd_at seg pkt ph tcb
          ≡ some (b ∷ next))
        × (ntohtcp4 a b next
            ≡ parsed (20 + length (options seg)) (on_wire seg ph (scale_of tcb)) (b ∷ next))
        × (drop (20 + length (options seg) + 20) (contents (b ∷ next)) ≡ contents pkt)
  ntohtcp4-htontcp4 f r =
      let n = 20 + length (options seg) + 20 in
      let (b, next, e, l, d) = room_for-lem a pkt n r in
      let (c, e', t) = fill_packet_lem b next in
      (
        c,
        next,
        made b next e c e',
        ntohtcp4-written seg ph dlen (scale_of tcb) (csum_of b next) f a c next (drop n b.bytes) t,
        ap (λ ys. drop n (ys ++ contents next)) t
            ∙ behind
                (bytes_of
                  (record (header seg ph dlen (scale_of tcb)) { tcpcksum = csum_of b next }))
                (options seg) (drop n b.bytes) (contents next) n (omega arith)
            ∙ d,
      )
