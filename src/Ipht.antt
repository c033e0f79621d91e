-- ===== src/Ipht.antt =====
-- The table of conversations of ip/ipaux.c, by which the protocols find the conversation of a
-- packet: iphash, iphtadd, iphtrem and iphtlook, with struct Iphash and struct Ipht of ip/ip.h. An
-- address is its list of bytes, a conversation is named by a number in place of its address in
-- memory, and the lock makes each routine one step. A shift of a byte or a port keeps 32 bits, and
-- the remainder is that of an unsigned number.
pub mod Buckets
pub mod Refine
use nix_mark_iv.Prelude.{
  ℕ, zero, suc, ◌+◌, ◌*◌, ◌%◌, ◌^◌, Bool, true, false, not, ◌&&◌, Option, none, some, List, [], ◌∷◌,
  ◌==◌, if◌then◌else◌, get_or, replicate,
}
use Prim.Native.Nat.{bit_xor}

-- ipcmp(a, b) == 0
unfoldable pub ip_same : List ℕ → List ℕ → Bool
ip_same [] [] = true
ip_same [] (y ∷ ys) = false
ip_same (x ∷ xs) [] = false
ip_same (x ∷ xs) (y ∷ ys) = x == y && ip_same xs ys

-- The fields of struct Conv that the table reads.
pub record Conv : Type 0 where
  pub ident : ℕ
  pub laddr : List ℕ
  pub lport : ℕ
  pub raddr : List ℕ
  pub rport : ℕ

pub data Match : Type 0 where
  match_any match_exact match_pa match_port match_addr : Match

pub record Iphash : Type 0 where
  pub conv : Conv
  pub kind : Match

unfoldable pub iphash : List ℕ → ℕ → List ℕ → ℕ → ℕ
iphash sa sp da dp =
    let s = get_or sa 15 0 * 2 ^ 24 % 2 ^ 32 in
    let d = get_or da 15 0 * 2 ^ 8 in bit_xor (bit_xor (bit_xor s (sp * 2 ^ 16 % 2 ^ 32)) d) dp % 64

abbrev pub hash_of : Conv → ℕ
hash_of c = iphash c.raddr c.rport c.laddr c.lport

-- IPnoaddr, which ip/ip.h only declares, is a parameter.
module _ (ip_noaddr : List ℕ) where
  -- The kind that iphtadd gives a conversation.
  unfoldable pub kind_of : Conv → Match
  kind_of c =
      if not (ip_same c.raddr ip_noaddr)
      then match_exact
      else if not (ip_same c.laddr ip_noaddr)
      then if c.lport == 0 then match_addr else match_pa
      else if c.lport == 0
      then match_any
      else match_port

-- tab: the chains by hash value.
abbrev pub Ipht : Type 0
Ipht = ℕ → List Iphash

abbrev pub set_chain : Ipht → ℕ → List Iphash → Ipht
set_chain ht h chain k = if k == h then chain else ht k

unfoldable pub iphtadd : List ℕ → Ipht → Conv → Ipht
iphtadd ip_noaddr ht c =
    set_chain ht (hash_of c) (record { conv = c; kind = kind_of ip_noaddr c } ∷ ht (hash_of c))

unfoldable pub unlink_conv : ℕ → List Iphash → List Iphash
unlink_conv ident [] = []
unlink_conv ident (h ∷ hs) =
    let rest = h ∷ unlink_conv ident hs in if h.conv.ident == ident then hs else rest

unfoldable pub iphtrem : Ipht → Conv → Ipht
iphtrem ht c = set_chain ht (hash_of c) (unlink_conv c.ident (ht (hash_of c)))

abbrev pub is_exact : Match → Bool
is_exact match_exact = true
is_exact m = false

abbrev pub is_pa : Match → Bool
is_pa match_pa = true
is_pa m = false

abbrev pub is_port : Match → Bool
is_port match_port = true
is_port m = false

abbrev pub is_addr : Match → Bool
is_addr match_addr = true
is_addr m = false

abbrev pub is_any : Match → Bool
is_any match_any = true
is_any m = false

-- One of the loops of iphtlook: the first entry of a chain that passes a test.
unfoldable pub first_match : (Iphash → Bool) → List Iphash → Option Conv
first_match test [] = none
first_match test (h ∷ hs) = let rest = first_match test hs in if test h then some h.conv else rest

abbrev pub or_else : Option Conv → Option Conv → Option Conv
or_else none o = o
or_else (some c) o = some c

unfoldable pub iphtlook : List ℕ → Ipht → List ℕ → ℕ → List ℕ → ℕ → Option Conv
iphtlook ip_noaddr ht sa sp da dp =
    let exact = λ (h : Iphash).
      is_exact h.kind
      && (sp == h.conv.rport
          && (dp == h.conv.lport && (ip_same sa h.conv.raddr && ip_same da h.conv.laddr))) in
    let pa = λ (h : Iphash). is_pa h.kind && (dp == h.conv.lport && ip_same da h.conv.laddr) in
    let port = λ (h : Iphash). is_port h.kind && dp == h.conv.lport in
    let addr = λ (h : Iphash). is_addr h.kind && ip_same da h.conv.laddr in
    let any = λ (h : Iphash). is_any h.kind in
    or_else (first_match exact (ht (iphash sa sp da dp))) (
      or_else (first_match pa (ht (iphash ip_noaddr 0 da dp))) (
        or_else (first_match port (ht (iphash ip_noaddr 0 ip_noaddr dp))) (
          or_else (first_match addr (ht (iphash ip_noaddr 0 da 0)))
            (first_match any (ht (iphash ip_noaddr 0 ip_noaddr 0))))))
