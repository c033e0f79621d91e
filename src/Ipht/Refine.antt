-- ===== src/Ipht/Refine.antt =====
-- iphtlook finds what a search of all conversations finds.
use nix_mark_iv.Prelude.{
  ap, refl, ◌∙◌, map, true, false, ℕ, ◌≡◌, Bool, not, ◌&&◌, Option, none, some, inl, inr, List, [],
  ◌∷◌, ◌==◌, if◌then◌else◌, Bool-cases, arith,
}
use nix_mark_iv.Ipht.{
  Ipht, iphtlook, is_any, is_addr, is_port, is_pa, ip_same, Conv, Iphash, iphash, hash_of, kind_of,
  first_match, or_else, is_exact,
}
use nix_mark_iv.Ipht.Buckets.{Holds, entry, bucket}

abbrev pub find : (Conv → Bool) → List Conv → Option Conv
find test [] = none
find test (c ∷ cs) = let rest = find test cs in if test c then some c else rest

ip_same_sound : (a b : List ℕ) → ip_same a b ≡ true → a ≡ b
unfolding ip_same
ip_same_sound [] [] h = refl
ip_same_sound [] (y ∷ ys) h = absurd (cc h)
ip_same_sound (x ∷ xs) [] h = absurd (cc h)
ip_same_sound (x ∷ xs) (y ∷ ys) h = elim (Bool-cases (x == y)) [
  | inl e ↦
      let same : x ≡ y = ground arith in
      let rest = ip_same_sound xs ys (ground arith) in cc (same, rest)
  | inr e ↦ absurd (ground arith)
]

module _ (ip_noaddr : List ℕ) where
  -- The five ways to fit a packet, as the comment at iphtlook lists them.
  abbrev pub connected : Conv → Bool
  connected c = not (ip_same c.raddr ip_noaddr)

  abbrev pub has_addr : Conv → Bool
  has_addr c = not (ip_same c.laddr ip_noaddr)

  abbrev pub has_port : Conv → Bool
  has_port c = not (c.lport == 0)

  abbrev pub fits_all : List ℕ → ℕ → List ℕ → ℕ → Conv → Bool
  fits_all sa sp da dp c =
      connected c
      && (ip_same sa c.raddr && (sp == c.rport && (ip_same da c.laddr && dp == c.lport)))

  abbrev pub fits_local : List ℕ → ℕ → Conv → Bool
  fits_local da dp c =
      not (connected c) && (has_addr c && (has_port c && (ip_same da c.laddr && dp == c.lport)))

  abbrev pub fits_port : ℕ → Conv → Bool
  fits_port dp c = not (connected c) && (not (has_addr c) && (has_port c && dp == c.lport))

  abbrev pub fits_addr : List ℕ → Conv → Bool
  fits_addr da c = not (connected c) && (has_addr c && (not (has_port c) && ip_same da c.laddr))

  abbrev pub fits_any : Conv → Bool
  fits_any c = not (connected c) && (not (has_addr c) && not (has_port c))

  -- The conversation that a packet from `sa`!`sp` to `da`!`dp` belongs to: the last added one that
  -- fits in the first of the ways in which any fits.
  abbrev pub look : List Conv → List ℕ → ℕ → List ℕ → ℕ → Option Conv
  look cs sa sp da dp = or_else (find (fits_all sa sp da dp) cs) (
      or_else (find (fits_local da dp) cs)
        (or_else (find (fits_port dp) cs) (or_else (find (fits_addr da) cs) (find fits_any cs))))

  -- A conversation that is not connected has no remote port.
  abbrev pub Announced : List Conv → Type 0
  Announced [] = Unit {0}
  Announced (c ∷ cs) = ((connected c ≡ false) → (c.rport ≡ 0)) × Announced cs

  first_match-bucket :
      (test : Iphash → Bool) (p : Conv → Bool) (k : ℕ) (cs : List Conv)
      → ((c : Conv)
          → ((connected c ≡ false) → (c.rport ≡ 0))
          → (test (entry ip_noaddr c) ≡ p c) × ((p c ≡ true) → (hash_of c ≡ k)))
      → Announced cs
      → first_match test (map (entry ip_noaddr) (bucket k cs)) ≡ find p cs
  unfolding first_match
  first_match-bucket test p k [] h a = refl
  first_match-bucket test p k (c ∷ cs) h (b, a) =
      let (same, place) = h c b in
      let rest = first_match-bucket test p k cs h a in
      elim (Bool-cases (p c)) [
        | inl fits ↦
            let here : (hash_of c == k) ≡ true = (let e = place fits in ground arith) in
            rw (here, same, fits) refl
        | inr not_it ↦ elim (Bool-cases (hash_of c == k)) [
          | inl here ↦ rw (here, same, not_it) rest
          | inr away ↦ rw (away, not_it) rest
        ]
      ]

  module _ (sa : List ℕ) (sp : ℕ) (da : List ℕ) (dp : ℕ) (c : Conv)
      (b : (connected c ≡ false) → (c.rport ≡ 0)) where
    all_fits :
        (is_exact (kind_of ip_noaddr c)
            && (sp == c.rport && (dp == c.lport && (ip_same sa c.raddr && ip_same da c.laddr)))
          ≡ fits_all sa sp da dp c)
        × ((fits_all sa sp da dp c ≡ true) → (hash_of c ≡ iphash sa sp da dp))
    unfolding kind_of
    all_fits = (
      ground arith,
      λ e.
          let ra = ip_same_sound sa c.raddr (ground arith) in
          let la = ip_same_sound da c.laddr (ground arith) in
          let p : sp ≡ c.rport = ground arith in
          let q : dp ≡ c.lport = ground arith in rw (ra, la, p, q) refl,
    )

    -- A conversation that is not connected is hashed without a remote address and port.
    announced_at : connected c ≡ false → (hash_of c ≡ iphash ip_noaddr 0 c.laddr c.lport)
    announced_at e =
        let ra = ip_same_sound c.raddr ip_noaddr (ground arith) in let rp = b e in rw (ra, rp) refl

    local_fits :
        (is_pa (kind_of ip_noaddr c) && (dp == c.lport && ip_same da c.laddr) ≡ fits_local da dp c)
        × ((fits_local da dp c ≡ true) → (hash_of c ≡ iphash ip_noaddr 0 da dp))
    unfolding kind_of
    local_fits = (
      ground arith,
      λ e.
          let la = ip_same_sound da c.laddr (ground arith) in
          let q : dp ≡ c.lport = ground arith in rw (la, q) (announced_at (ground arith)),
    )

    port_fits :
        (is_port (kind_of ip_noaddr c) && dp == c.lport ≡ fits_port dp c)
        × ((fits_port dp c ≡ true) → (hash_of c ≡ iphash ip_noaddr 0 ip_noaddr dp))
    unfolding kind_of
    port_fits = (
      ground arith,
      λ e.
          let la = ip_same_sound c.laddr ip_noaddr (ground arith) in
          let q : dp ≡ c.lport = ground arith in announced_at (ground arith) ∙ rw (la, q) refl,
    )

    addr_fits :
        (is_addr (kind_of ip_noaddr c) && ip_same da c.laddr ≡ fits_addr da c)
        × ((fits_addr da c ≡ true) → (hash_of c ≡ iphash ip_noaddr 0 da 0))
    unfolding kind_of
    addr_fits = (
      ground arith,
      λ e.
          let la = ip_same_sound da c.laddr (ground arith) in
          let q : c.lport ≡ 0 = ground arith in announced_at (ground arith) ∙ rw (la, q) refl,
    )

    any_fits :
        (is_any (kind_of ip_noaddr c) ≡ fits_any c)
        × ((fits_any c ≡ true) → (hash_of c ≡ iphash ip_noaddr 0 ip_noaddr 0))
    unfolding kind_of
    any_fits = (
      ground arith,
      λ e.
          let la = ip_same_sound c.laddr ip_noaddr (ground arith) in
          let q : c.lport ≡ 0 = ground arith in announced_at (ground arith) ∙ rw (la, q) refl,
    )

  -- iphtlook on a table that holds a list of conversations, where one that is not connected has no
  -- remote port, returns what the search of the whole list does: the connection of the packet, else
  -- one announced at its local address and port, else at its port, at its address, at anything; among
  -- several the one added last.
  pub iphtlook_lem :
      (ht : Ipht) (cs : List Conv) (sa : List ℕ) (sp : ℕ) (da : List ℕ) (dp : ℕ)
      → Holds ip_noaddr ht cs
      → Announced cs
      → iphtlook ip_noaddr ht sa sp da dp ≡ look cs sa sp da dp
  unfolding iphtlook
  iphtlook_lem ht cs sa sp da dp h a =
      let search =
        λ (test : Iphash → Bool) (p : Conv → Bool) (k : ℕ)
            (f : (c : Conv)
              → ((connected c ≡ false) → (c.rport ≡ 0))
              → (test (entry ip_noaddr c) ≡ p c) × ((p c ≡ true) → (hash_of c ≡ k))).
          ap (first_match test) (h.each k) ∙ first_match-bucket test p k cs f a in
      rw
        (
          search _ _ _ (all_fits sa sp da dp),
          search _ _ _ (local_fits sa sp da dp),
          search _ _ _ (port_fits sa sp da dp),
          search _ _ _ (addr_fits sa sp da dp),
          search _ _ _ (any_fits sa sp da dp),
        )
        refl
