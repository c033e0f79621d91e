-- ===== src/Ipht/Buckets.antt =====
-- What the table holds, as one list: the conversations of each hash value, the last added first, and
-- what iphtadd and iphtrem do to that list.
use nix_mark_iv.Prelude.{
  ℕ, ◌≡◌, ◌≢◌, ◌⊎◌, refl, sym, ap, ◌∙◌, true, false, inl, inr, List, [], ◌∷◌, ◌==◌, if◌then◌else◌,
  Bool-cases, arith, map,
}
use nix_mark_iv.Ipht.{
  Conv, Iphash, hash_of, kind_of, Ipht, set_chain, iphtadd, unlink_conv, iphtrem,
}

-- The conversations with a hash value.
abbrev pub bucket : ℕ → List Conv → List Conv
bucket k [] = []
bucket k (c ∷ cs) = let rest = bucket k cs in if hash_of c == k then c ∷ rest else rest

-- The list without the first conversation of this name.
abbrev pub without : ℕ → List Conv → List Conv
without ident [] = []
without ident (c ∷ cs) = let rest = c ∷ without ident cs in if c.ident == ident then cs else rest

-- A conversation of this name has this hash value.
abbrev pub Hashed : ℕ → ℕ → List Conv → Type 0
Hashed ident k [] = Unit {0}
Hashed ident k (c ∷ cs) = ((c.ident ≡ ident) → (hash_of c ≡ k)) × Hashed ident k cs

bucket-without :
    (ident k j : ℕ) (cs : List Conv)
    → Hashed ident k cs
    → j ≢ k
    → bucket j (without ident cs) ≡ bucket j cs
bucket-without ident k j [] h ne = refl
bucket-without ident k j (c ∷ cs) (a, h) ne = elim (Bool-cases (c.ident == ident)) [
  | inl found ↦
      let here = a (ground arith) in
      let e : (hash_of c == j) ≡ false = ground arith in rw (found, e) refl
  | inr other ↦ let e = bucket-without ident k j cs h ne in rw (other, e) refl
]

module _ (ip_noaddr : List ℕ) where
  abbrev pub entry : Conv → Iphash
  entry c = record { conv = c; kind = kind_of ip_noaddr c }

  -- Each chain of the table holds the conversations of the list that have its hash value.
  pub record Holds (ht : Ipht) (cs : List Conv) : Type 0 where
    pub each : (k : ℕ) → ht k ≡ map entry (bucket k cs)

  -- iphtadd to a table that holds a list of conversations leaves one that holds the list with the
  -- new conversation in front.
  pub iphtadd-Holds :
      (ht : Ipht) (cs : List Conv) (c : Conv)
      → Holds ht cs
      → Holds (iphtadd ip_noaddr ht c) (c ∷ cs)
  unfolding iphtadd
  iphtadd-Holds ht cs c h = record { each = λ k. split k (Bool-cases (k == hash_of c)) }
    where
      split :
          (k : ℕ)
          → ((k == hash_of c) ≡ true) ⊎ ((k == hash_of c) ≡ false)
          → set_chain ht (hash_of c) (entry c ∷ ht (hash_of c)) k ≡ map entry (bucket k (c ∷ cs))
      split k (inl e) =
          let same : k ≡ hash_of c = ground arith in
          let e' : (hash_of c == k) ≡ true = ground arith in
          rw (e, e') (ap (◌∷◌ (entry c)) (ap ht (sym same) ∙ h.each k))
      split k (inr e) = let e' : (hash_of c == k) ≡ false = ground arith in rw (e, e') (h.each k)

  unlink_conv-bucket :
      (ident k : ℕ) (cs : List Conv)
      → Hashed ident k cs
      → unlink_conv ident (map entry (bucket k cs)) ≡ map entry (bucket k (without ident cs))
  unfolding unlink_conv
  unlink_conv-bucket ident k [] h = refl
  unlink_conv-bucket ident k (c ∷ cs) (a, h) = elim (Bool-cases (c.ident == ident)) [
    | inl found ↦
        let e : (hash_of c == k) ≡ true = (let e' = a (ground arith) in ground arith) in
        rw (found, e, found) refl
    | inr other ↦ elim (Bool-cases (hash_of c == k)) [
      | inl here ↦ rw (other, here, other) (ap (◌∷◌ (entry c)) (unlink_conv-bucket ident k cs h))
      | inr away ↦ rw (other, away) (unlink_conv-bucket ident k cs h)
    ]
  ]

  -- iphtrem takes out of a table the last added conversation of the name, where those of that name
  -- have the hash value of the conversation given.
  pub iphtrem-Holds :
      (ht : Ipht) (cs : List Conv) (c : Conv)
      → Holds ht cs
      → Hashed c.ident (hash_of c) cs
      → Holds (iphtrem ht c) (without c.ident cs)
  unfolding iphtrem
  iphtrem-Holds ht cs c h a = record { each = λ k. split k (Bool-cases (k == hash_of c)) }
    where
      split :
          (k : ℕ)
          → ((k == hash_of c) ≡ true) ⊎ ((k == hash_of c) ≡ false)
          → set_chain ht (hash_of c) (unlink_conv c.ident (ht (hash_of c))) k
            ≡ map entry (bucket k (without c.ident cs))
      split k (inl e) =
          let same : k ≡ hash_of c = ground arith in
          rw e (
            ap (unlink_conv c.ident) (h.each (hash_of c))
            ∙ unlink_conv-bucket c.ident (hash_of c) cs a
            ∙ ap (λ j. map entry (bucket j (without c.ident cs))) (sym same))
      split k (inr e) =
          let ne : k ≢ hash_of c = ground arith in
          rw e (h.each k ∙ ap (map entry) (sym (bucket-without c.ident (hash_of c) k cs a ne)))
