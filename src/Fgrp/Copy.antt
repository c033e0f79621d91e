-- ===== src/Fgrp/Copy.antt =====
-- dupfgrp of port/pgrp.c: a copy of the table that answers alike.
use nix_mark_iv.Prelude.{
  length-replicate, ◌-◌, length-take, ℕ, ◌+◌, ◌≤◌, ◌<◌, ◌%◌, ◌≡◌, sym, ap, ◌∙◌, subst, Option, none,
  some, ◌++◌, length, get_or, take, replicate, arith, Bool-cases, inl, inr, length-append,
}
use nix_mark_iv.Prelude.{◌==◌}
use nix_mark_iv.Fgrp.Entries.{get_or_beyond, get_or-pad, get_or-take}
use nix_mark_iv.Fgrp.Table.{IsValid}
use nix_mark_iv.Fgrp.{quantized, leb, true, dupfgrp, Fgrp, deltafd, lookup}

quantized_lem :
    (m n : ℕ)
    → m < n
    → n % deltafd ≡ 0
    → (m < quantized (m + 1)) × ((quantized (m + 1)) % deltafd ≡ 0)
quantized_lem m n h e = elim (Bool-cases ((m + 1) % deltafd == 0)) [
  | inl a ↦ ground arith
  | inr b ↦ ground arith
]

copied :
    (f : Fgrp)
    → IsValid f
    → (i : ℕ) → (k : ℕ) → get_or (take (f.maxfd + 1) f.fd ++ replicate k none) i none ≡ lookup f i
copied f v i k = get_or-pad (take (f.maxfd + 1) f.fd) k i none ∙ elim (Bool-cases (leb i f.maxfd)) [
  | inl low ↦ get_or-take (f.maxfd + 1) f.fd i none (ground arith)
  | inr high ↦
      get_or_beyond (take (f.maxfd + 1) f.fd) i none
        (let h = length-take (f.maxfd + 1) f.fd in ground arith)
      ∙ sym (v.clear i (ground arith))
]

copied_length :
    (f : Fgrp)
    → IsValid f
    → (n : ℕ) → f.maxfd + 1 ≤ n
    → length (take (f.maxfd + 1) f.fd ++ replicate (n - (f.maxfd + 1)) none) ≡ n
copied_length f v n h =
    length-append (take (f.maxfd + 1) f.fd) (replicate (n - (f.maxfd + 1)) none)
    ∙ omega (
      arith,
      length-take (f.maxfd + 1) f.fd,
      length-replicate {A = Option ℕ} (n - (f.maxfd + 1)) none,
      v.sized,
      v.inside,
    )

-- Where there is memory, the table that dupfgrp makes of a valid one is valid, and answers as the
-- one it copies at every descriptor.
pub dupfgrp_lem :
    (f f' : Fgrp)
    → IsValid f
    → dupfgrp true f ≡ some f'
    → (i : ℕ) → (IsValid f') × (lookup f' i ≡ lookup f i)
unfolding dupfgrp
dupfgrp_lem f f' v e i =
    let (above, stepped) = quantized_lem f.maxfd f.nfd v.inside v.stepped in
    subst (λ t. (IsValid t) × (lookup t i ≡ lookup f i))
      (ap (λ o. elim o [ none ↦ f | some t ↦ t ]) e)
      (
        record {
          sized = copied_length f v (quantized (f.maxfd + 1)) (omega arith);
          inside = above;
          stepped = stepped;
          clear = λ j high. copied f v j (quantized (f.maxfd + 1) - (f.maxfd + 1)) ∙ v.clear j high;
        },
        copied f v i (quantized (f.maxfd + 1) - (f.maxfd + 1)),
      )
