-- ===== src/Tests/Network.antt =====
-- A checksum over three blocks, and a table of four conversations.
use nix_mark_iv.Prelude.{sym, ap, ◌+◌}
use nix_mark_iv.Prelude.{
  ℕ, ◌%◌, ◌-◌, ◌≡◌, refl, Bool, true, false, List, [], ◌∷◌, ◌++◌, replicate, arith, ◌==◌,
}
use nix_mark_iv.Block.{Block}
use nix_mark_iv.Checksum.{ptclbsum, ptclcsum}
use nix_mark_iv.Checksum.Sums.{ones}
use nix_mark_iv.Checksum.Chain.{ptclcsum_lem}
use nix_mark_iv.Checksum.Verify.{with_field, ptclcsum-verifies}
use nix_mark_iv.Ipht.{Conv, Ipht, iphtadd, iphtrem, iphtlook}
use nix_mark_iv.Ipht.Buckets.{Holds, iphtadd-Holds, iphtrem-Holds}
use nix_mark_iv.Ipht.Refine.{look, iphtlook_lem}
use nix_mark_iv.Ipht.{ip_same}
use nix_mark_iv.Ipht.Refine.{Announced}
use nix_mark_iv.Checksum.{
  skip_blocks, csum_at, over_blocks, add_piece, ptclbsum, sums, by_16, by_2, add_word, join, fold,
}
use nix_mark_iv.Tests.{block}

abbrev datagram : List ℕ
datagram = 0x45 ∷ 0x00 ∷ 0xff ∷ 0x28 ∷ 0x12 ∷ []

-- The address of the second block's data is odd.
abbrev odd_at : Block → ℕ → Bool
odd_at b i = (i + 1) % 2 == 0

abbrev chain : List Block
chain = block (1 ∷ 2 ∷ 3 ∷ []) ∷ block (4 ∷ 250 ∷ []) ∷ block (6 ∷ []) ∷ []

ptclcsum_lem_example : ptclcsum true odd_at chain 1 4 ≡ 65535 - ones 1789
ptclcsum_lem_example =
    ptclcsum_lem true odd_at chain 1 4
      (omega arith, (omega arith, (omega arith, (omega arith, (omega arith, (omega arith, tt))))))
      (omega arith) (omega arith)

-- The field at place 2 gets the sum, and the receiver's blocks are cut elsewhere.
filled : ptclcsum true odd_at (block (1 ∷ 2 ∷ []) ∷ block (0 ∷ 0 ∷ 5 ∷ []) ∷ []) 0 5 ≡ 63997
unfolding ptclcsum skip_blocks csum_at over_blocks add_piece ptclbsum sums by_16 by_2 add_word join
    fold
filled = refl

ptclcsum-verifies_example :
    ptclcsum false odd_at (block (1 ∷ 2 ∷ 249 ∷ []) ∷ block (253 ∷ 5 ∷ []) ∷ []) 0 5 ≡ 0
ptclcsum-verifies_example =
    ptclcsum-verifies true false odd_at odd_at (block (1 ∷ 2 ∷ []) ∷ block (0 ∷ 0 ∷ 5 ∷ []) ∷ [])
      (block (1 ∷ 2 ∷ 249 ∷ []) ∷ block (253 ∷ 5 ∷ []) ∷ []) (1 ∷ 2 ∷ []) (5 ∷ []) refl
      (omega arith, (omega arith, (omega arith, (omega arith, (omega arith, tt)))))
      (omega arith, (omega arith, (omega arith, (omega arith, (omega arith, tt))))) (omega arith)
      refl (ap (λ c. with_field (1 ∷ 2 ∷ []) c (5 ∷ [])) (sym filled))

abbrev ip_noaddr : List ℕ
ip_noaddr = replicate 16 0

abbrev near : List ℕ
near = replicate 10 0 ++ 255 ∷ 255 ∷ 10 ∷ 0 ∷ 0 ∷ 1 ∷ []

abbrev far : List ℕ
far = replicate 10 0 ++ 255 ∷ 255 ∷ 10 ∷ 0 ∷ 0 ∷ 9 ∷ []

-- A connection, and conversations announced at a port and at anything.
abbrev conn : Conv
conn = record { ident = 1; laddr = near; lport = 80; raddr = far; rport = 4000 }

abbrev at_port : Conv
at_port = record { ident = 2; laddr = ip_noaddr; lport = 80; raddr = ip_noaddr; rport = 0 }

abbrev at_any : Conv
at_any = record { ident = 3; laddr = ip_noaddr; lport = 0; raddr = ip_noaddr; rport = 0 }

abbrev empty : Ipht
empty = λ k. []

abbrev table : Ipht
table = iphtadd ip_noaddr (iphtadd ip_noaddr (iphtadd ip_noaddr empty at_any) at_port) conn

-- The table holds what was added.
table-Holds : Holds ip_noaddr table (conn ∷ at_port ∷ at_any ∷ [])
table-Holds =
    iphtadd-Holds _ _ _ conn
      (iphtadd-Holds _ _ _ at_port (iphtadd-Holds _ empty [] at_any (record { each = λ k. refl })))

all-Announced : Announced ip_noaddr (conn ∷ at_port ∷ at_any ∷ [])
unfolding ip_same
all-Announced = (λ e. absurd (cc e), (λ e. refl, (λ e. refl, tt)))

iphtlook_lem_example :
    iphtlook ip_noaddr table far 4001 near 80
    ≡ look ip_noaddr (conn ∷ at_port ∷ at_any ∷ []) far 4001 near 80
iphtlook_lem_example =
    iphtlook_lem ip_noaddr table (conn ∷ at_port ∷ at_any ∷ []) far 4001 near 80 table-Holds
      all-Announced

iphtrem-Holds_example : Holds ip_noaddr (iphtrem table at_port) (conn ∷ at_any ∷ [])
iphtrem-Holds_example =
    iphtrem-Holds ip_noaddr table (conn ∷ at_port ∷ at_any ∷ []) at_port table-Holds
      (λ e. absurd (omega arith), (λ e. refl, (λ e. absurd (omega arith), tt)))
