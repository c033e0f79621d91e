-- ===== src/Tcp.antt =====
-- The protocol TCP of ip/tcp.c: the numbers of a segment and of a conversation, and the comparison
-- of sequence numbers. A ulong and an int have 32 bits, a ushort has 16; the sign of an int is its
-- highest bit. The flags of a segment are the bits of a byte.
pub mod Sequence
pub mod Window
pub mod Overlap
pub mod Trim
pub mod Resequence
pub mod Header
pub mod Output
pub mod Tcptimers
pub mod States
pub mod Ack
pub mod Timeout
use nix_mark_iv.Prelude.{
  ℕ, ◌+◌, ◌-◌, ◌/◌, ◌%◌, ◌^◌, List, Bool, true, false, not, ◌&&◌, ◌||◌, ltb, leb, ◌==◌,
  if◌then◌else◌,
}
use nix_mark_iv.Block.{Block}

-- The control information of one packet.
pub record Tcp : Type 0 where
  pub source : ℕ
  pub dest : ℕ
  pub seq : ℕ
  pub ack : ℕ
  pub flags : ℕ
  pub ws : ℕ
  pub wnd : ℕ
  pub urg : ℕ
  pub mss : ℕ
  pub len : ℕ

abbrev pub urg_bit : ℕ
urg_bit = 0x20

abbrev pub ack_bit : ℕ
ack_bit = 0x10

abbrev pub psh_bit : ℕ
psh_bit = 0x08

abbrev pub rst_bit : ℕ
rst_bit = 0x04

abbrev pub syn_bit : ℕ
syn_bit = 0x02

abbrev pub fin_bit : ℕ
fin_bit = 0x01

-- A segment that waits for what comes before it.
pub record Reseq : Type 0 where
  pub seg : Tcp
  pub bp : List Block
  pub length : ℕ

pub data State : Type 0 where
  closed : State
  listen : State
  syn_sent : State
  syn_received : State
  established : State
  finwait1 : State
  finwait2 : State
  close_wait : State
  closing : State
  last_ack : State
  time_wait : State

-- What is sent: una is the first place not acknowledged, nxt the next one, ptr the next to send.
pub record Snd : Type 0 where
  pub una : ℕ
  pub nxt : ℕ
  pub ptr : ℕ
  pub wnd : ℕ
  pub urg : ℕ
  pub wl2 : ℕ
  pub scale : ℕ
  pub dupacks : ℕ
  pub recovery : Bool
  pub rxt : ℕ

-- What is received: nxt is the next place, wnd the window from there on.
pub record Rcv : Type 0 where
  pub nxt : ℕ
  pub wnd : ℕ
  pub urg : ℕ
  pub blocked : Bool
  pub una : ℕ
  pub scale : ℕ

-- The fields that the routines here use. `srtt` and `mdev`, which the code keeps above 0, are sums
-- that stay below 2^31.
pub record Tcpctl : Type 0 where
  pub state : State
  pub flags : ℕ
  pub snd : Snd
  pub rcv : Rcv
  pub iss : ℕ
  pub irs : ℕ
  pub cwind : ℕ
  pub scale : ℕ
  pub ssthresh : ℕ
  pub resent : ℕ
  pub mss : ℕ
  pub rerecv : ℕ
  pub window : ℕ
  pub backoff : ℕ
  pub backedoff : ℕ
  pub reseq : List Reseq
  pub rttseq : ℕ
  pub srtt : ℕ
  pub mdev : ℕ
  pub flgcnt : ℕ

-- Bits of the flags of a conversation.
abbrev pub force : ℕ
force = 1

abbrev pub retran : ℕ
retran = 4

abbrev pub synack : ℕ
synack = 16

-- flags & bit, flags &= ~bit, flags |= bit
abbrev pub has_bit : ℕ → ℕ → Bool
has_bit bit flags = flags / bit % 2 == 1

abbrev pub clear_bit : ℕ → ℕ → ℕ
clear_bit bit flags = if has_bit bit flags then flags - bit else flags

abbrev pub set_bit : ℕ → ℕ → ℕ
set_bit bit flags = if has_bit bit flags then flags else flags + bit

-- x - y and x + y of ulongs
abbrev pub sub32 : ℕ → ℕ → ℕ
sub32 x y = (x + 2 ^ 32 - y) % 2 ^ 32

abbrev pub add32 : ℕ → ℕ → ℕ
add32 x y = (x + y) % 2 ^ 32

-- d > 0 of an int
abbrev pub positive : ℕ → Bool
positive d = ltb 0 d && ltb d (2 ^ 31)

unfoldable pub seq_within : ℕ → ℕ → ℕ → Bool
seq_within x low high = if leb low high then leb low x && leb x high else leb low x || leb x high

unfoldable pub seq_lt : ℕ → ℕ → Bool
seq_lt x y = leb (2 ^ 31) (sub32 x y)

unfoldable pub seq_le : ℕ → ℕ → Bool
seq_le x y = sub32 x y == 0 || leb (2 ^ 31) (sub32 x y)

unfoldable pub seq_gt : ℕ → ℕ → Bool
seq_gt x y = positive (sub32 x y)

unfoldable pub seq_ge : ℕ → ℕ → Bool
seq_ge x y = ltb (sub32 x y) (2 ^ 31)
