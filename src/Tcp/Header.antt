-- ===== src/Tcp/Header.antt =====
-- The header of a segment in a packet of IP version 4: htontcp4 and ntohtcp4. Numbers of 16 and 32 bits
-- are in network byte order (hnputs, hnputl, nhgets and nhgetl of port/netif.c).
pub mod Options
pub mod Wire
use nix_mark_iv.Prelude.{
  ℕ, zero, suc, ◌+◌, ◌-◌, ◌*◌, ◌/◌, ◌%◌, ◌^◌, Bool, true, false, not, ◌&&◌, ◌||◌, Option, none,
  some, List, [], ◌∷◌, ◌++◌, length, drop, replicate, get_or, ltb, leb, ◌==◌, if◌then◌else◌,
}
use nix_mark_iv.Block.{Block, Allocator, blen, blocklen, write}
use nix_mark_iv.Block.Chain.{padblock, pullupblock}
use nix_mark_iv.Checksum.{ptclcsum}
use nix_mark_iv.Tcp.{Tcp, has_bit, syn_bit}

abbrev pub hnputs : ℕ → List ℕ
hnputs v = v / 256 % 256 ∷ v % 256 ∷ []

abbrev pub hnputl : ℕ → List ℕ
hnputl v = v / 2 ^ 24 % 256 ∷ v / 65536 % 256 ∷ v / 256 % 256 ∷ v % 256 ∷ []

abbrev pub nhgets : List ℕ → ℕ → ℕ
nhgets xs i = get_or xs i 0 * 256 + get_or xs (i + 1) 0

abbrev pub nhgetl : List ℕ → ℕ → ℕ
nhgetl xs i =
    get_or xs i 0 * 2 ^ 24
    + get_or xs (i + 1) 0 * 65536
    + get_or xs (i + 2) 0 * 256
    + get_or xs (i + 3) 0

-- The pseudo header and the header of TCP, as the numbers that its fields hold.
pub record Tcp4hdr : Type 0 where
  pub vihl : ℕ
  pub tos : ℕ
  pub length : ℕ
  pub id : ℕ
  pub frag : ℕ
  pub unused : ℕ
  pub proto : ℕ
  pub tcplen : ℕ
  pub tcpsrc : ℕ
  pub tcpdst : ℕ
  pub tcpsport : ℕ
  pub tcpdport : ℕ
  pub tcpseq : ℕ
  pub tcpack : ℕ
  pub tcpflag : ℕ
  pub tcpwin : ℕ
  pub tcpcksum : ℕ
  pub tcpurg : ℕ

-- The 40 bytes before the options.
abbrev pub bytes_of : Tcp4hdr → List ℕ
bytes_of h =
    h.vihl ∷ h.tos ∷ hnputs h.length
    ++ hnputs h.id
    ++ hnputs h.frag
    ++ h.unused ∷ h.proto ∷ hnputs h.tcplen
    ++ hnputl h.tcpsrc
    ++ hnputl h.tcpdst
    ++ hnputs h.tcpsport
    ++ hnputs h.tcpdport
    ++ hnputl h.tcpseq
    ++ hnputl h.tcpack
    ++ hnputs h.tcpflag
    ++ hnputs h.tcpwin
    ++ hnputs h.tcpcksum
    ++ hnputs h.tcpurg

-- TCP4_PKT, TCP4_HDRSIZE, HaveWS
abbrev pub tcp4_pkt : ℕ
tcp4_pkt = 20

abbrev pub tcp4_hdrsize : ℕ
tcp4_hdrsize = 20

abbrev pub have_ws : ℕ
have_ws = 256

-- The options of a SYN, and the pad to a multiple of 4 bytes.
unfoldable pub options : Tcp → List ℕ
options seg =
    let mss = if seg.mss == 0 then [] else 2 ∷ 4 ∷ hnputs seg.mss in
    let ws = if seg.ws == 0 then [] else 3 ∷ 3 ∷ seg.ws % 256 ∷ [] in
    let pad = (4 - length (mss ++ ws) % 4) % 4 in
    if has_bit syn_bit seg.flags then mss ++ ws ++ replicate pad 1 else []

-- The header that htontcp4 makes of the segment, of the prototype ph and of the scale of the window.
unfoldable pub header : Tcp → Tcp4hdr → ℕ → ℕ → Tcp4hdr
header seg ph dlen scale =
    let hdrlen = tcp4_hdrsize + length (options seg) in
    record ph {
      tcplen = (hdrlen + dlen) % 2 ^ 16;
      tcpseq = seg.seq;
      tcpack = seg.ack;
      tcpflag = (hdrlen * 1024 + seg.flags) % 2 ^ 16;
      tcpwin = seg.wnd / 2 ^ scale % 2 ^ 16;
      tcpurg = seg.urg;
    }

-- Bytes are written at the start of the data of a block.
unfoldable pub put_front : List ℕ → Block → Block
put_front xs b = record b { bytes = xs ++ drop (length xs) b.bytes }

-- The part of the conversation that htontcp4 reads, where there is one.
pub record Sender : Type 0 where
  pub scale : ℕ
  pub nochecksum : Bool

abbrev pub scale_of : Option Sender → ℕ
scale_of none = 0
scale_of (some c) = c.scale

-- The checksum of a packet: `little` and `odd_at` are those of ptclcsum.
unfoldable pub checksum : Bool → (Block → ℕ → Bool) → Option Sender → ℕ → List Block → ℕ
checksum little odd_at tcb len pkt = elim tcb [
  | none ↦ ptclcsum little odd_at pkt 8 (len + 12)
  | some c ↦ if c.nochecksum then 0 else ptclcsum little odd_at pkt 8 (len + 12)
]

-- The room in front of the data, or a new block for a segment without data. `none` is the panic of padblock.
unfoldable pub room_for : Allocator → List Block → ℕ → Option (List Block)
room_for a [] n = some (write (a.fresh n) (a.alloc (n + 64)) ∷ [])
room_for a (b ∷ next) n = padblock a b next n

unfoldable pub fill_packet :
    Bool → (Block → ℕ → Bool) → Tcp → Tcp4hdr → Option Sender → ℕ → List Block → List Block
fill_packet little odd_at seg ph tcb dlen [] = []
fill_packet little odd_at seg ph tcb dlen (b ∷ next) =
    let h = header seg ph dlen (scale_of tcb) in
    let b' = put_front (bytes_of h ++ options seg) b in
    let csum =
      checksum little odd_at tcb (tcp4_hdrsize + length (options seg) + dlen) (b' ∷ next) in
    put_front (bytes_of (record h { tcpcksum = csum })) b' ∷ next

unfoldable pub htontcp4 :
    Allocator
    → Bool
    → (Block → ℕ → Bool)
    → Tcp
    → List Block
    → Tcp4hdr
    → Option Sender
    → Option (List Block)
htontcp4 a little odd_at seg pkt ph tcb =
    elim (room_for a pkt (tcp4_hdrsize + length (options seg) + tcp4_pkt)) [
      | none ↦ none
      | some bs ↦ some (fill_packet little odd_at seg ph tcb (blocklen pkt) bs)
    ]

-- One option of `optlen` bytes.
unfoldable pub take_option : List ℕ → ℕ → Tcp → Tcp
take_option opt optlen seg =
    if get_or opt 0 0 == 2
    then if optlen == 4 then record seg { mss = nhgets opt 2 } else seg
    else if get_or opt 0 0 == 3 && optlen == 3 && leb (get_or opt 2 0) 14
    then record seg { ws = have_ws + get_or opt 2 0 }
    else seg

-- The loop over the options: each round uses up at least one of the n bytes.
unfoldable pub parse_options : ℕ → ℕ → List ℕ → Tcp → Tcp
parse_options zero n opt seg = seg
parse_options (suc fuel) n opt seg =
    let optlen = get_or opt 1 0 in
    let next = parse_options fuel (n - 1) (drop 1 opt) seg in
    let rest = parse_options fuel (n - optlen) (drop optlen opt) (take_option opt optlen seg) in
    if n == 0 || get_or opt 0 0 == 0
    then seg
    else if get_or opt 0 0 == 1
    then next
    else if ltb optlen 2 || ltb n optlen
    then seg
    else rest

-- The fields up to the options.
unfoldable pub parse_fixed : List ℕ → ℕ → Tcp
parse_fixed h hdrlen = record {
  source = nhgets h 20;
  dest = nhgets h 22;
  seq = nhgetl h 24;
  ack = nhgetl h 28;
  flags = get_or h 33 0;
  ws = 0;
  wnd = nhgets h 34;
  urg = nhgets h 38;
  mss = 0;
  len = (nhgets h 2 + 2 ^ 16 - (hdrlen + tcp4_pkt) % 2 ^ 16) % 2 ^ 16;
}

-- -1, or the length of the header with the segment and the chain. The second call of pullupblock may
-- put a new block in the place of the one that the header was read from, and the options are then
-- read from the old one: `stale`.
pub data Parsed : Type 0 where
  bad : Parsed
  stale : Parsed
  parsed : ℕ → Tcp → List Block → Parsed

unfoldable pub read_options : Tcp → ℕ → Block → Option (List Block) → Parsed
read_options seg hdrlen old none = bad
read_options seg hdrlen old (some []) = bad
read_options seg hdrlen old (some (b ∷ next)) =
    let n = hdrlen - tcp4_hdrsize in
    if ltb (blen old + old.room) (hdrlen + tcp4_pkt)
    then stale
    else parsed hdrlen (parse_options n n (drop 40 b.bytes) seg) (b ∷ next)

unfoldable pub ntohtcp4 : Allocator → Block → List Block → Parsed
ntohtcp4 a bp next = elim (pullupblock a bp next (tcp4_pkt + tcp4_hdrsize)) [
  | none ↦ bad
  | some [] ↦ bad
  | some (b ∷ rest) ↦
      let hdrlen = get_or b.bytes 32 0 / 16 * 4 in
      let seg = parse_fixed b.bytes hdrlen in
      if ltb hdrlen tcp4_hdrsize
      then bad
      else read_options seg hdrlen b (pullupblock a b rest (hdrlen + tcp4_pkt))
]
