-- ===== src/Fgrp/Entries.antt =====
-- Lists read with a default and set at an index, as the array of struct Fgrp of port/portdat.h is.
use nix_mark_iv.Prelude.{
  ℕ, zero, suc, ◌≤◌, ◌<◌, ◌≡◌, ◌≢◌, refl, sym, ap, ◌∙◌, List, [], ◌∷◌, ◌++◌, length, get_or, set,
  take, replicate, arith, Bool-cases, inl, inr,
}
use nix_mark_iv.Prelude.{◌==◌, if◌then◌else◌}

module _ {ℓ} {A : Type ℓ} where
  pub get_or-set_self :
      (xs : List A) (i : ℕ) (v d : A) → i < length xs → get_or (set xs i v) i d ≡ v
  get_or-set_self [] i v d h = elim h [ ]
  get_or-set_self (x ∷ xs) zero v d h = refl
  get_or-set_self (x ∷ xs) (suc i) v d h = get_or-set_self xs i v d (omega arith)

  pub get_or-set_ne :
      (xs : List A) (i j : ℕ) (v d : A) → i ≢ j → get_or (set xs i v) j d ≡ get_or xs j d
  get_or-set_ne [] i j v d h = refl
  get_or-set_ne (x ∷ xs) zero zero v d h = absurd (h refl)
  get_or-set_ne (x ∷ xs) zero (suc j) v d h = refl
  get_or-set_ne (x ∷ xs) (suc i) zero v d h = refl
  get_or-set_ne (x ∷ xs) (suc i) (suc j) v d h = get_or-set_ne xs i j v d (λ e. h (ap suc e))

  pub get_or-set_nil :
      (xs : List A) (i j : ℕ) (d : A) → get_or xs j d ≡ d → get_or (set xs i d) j d ≡ d
  get_or-set_nil [] i j d h = h
  get_or-set_nil (x ∷ xs) zero zero d h = refl
  get_or-set_nil (x ∷ xs) zero (suc j) d h = h
  get_or-set_nil (x ∷ xs) (suc i) zero d h = h
  get_or-set_nil (x ∷ xs) (suc i) (suc j) d h = get_or-set_nil xs i j d h

  pub get_or-set_d : (xs : List A) (i : ℕ) (d : A) → get_or (set xs i d) i d ≡ d
  get_or-set_d [] i d = refl
  get_or-set_d (x ∷ xs) zero d = refl
  get_or-set_d (x ∷ xs) (suc i) d = get_or-set_d xs i d

  pub get_or_beyond : (xs : List A) (i : ℕ) (d : A) → length xs ≤ i → get_or xs i d ≡ d
  get_or_beyond [] i d h = refl
  get_or_beyond (x ∷ xs) zero d h = elim h [ ]
  get_or_beyond (x ∷ xs) (suc i) d h = get_or_beyond xs i d (omega arith)

  -- Entries of nil at the end of a table read as the entries beyond it.
  pub get_or-pad :
      (xs : List A) (n i : ℕ) (d : A) → get_or (xs ++ replicate n d) i d ≡ get_or xs i d
  get_or-pad [] zero i d = refl
  get_or-pad [] (suc n) zero d = refl
  get_or-pad [] (suc n) (suc i) d = get_or-pad [] n i d
  get_or-pad (x ∷ xs) n zero d = refl
  get_or-pad (x ∷ xs) n (suc i) d = get_or-pad xs n i d

  pub get_or-take :
      (n : ℕ) (xs : List A) (i : ℕ) (d : A) → i < n → get_or (take n xs) i d ≡ get_or xs i d
  get_or-take zero xs i d h = elim h [ ]
  get_or-take (suc n) [] i d h = refl
  get_or-take (suc n) (x ∷ xs) zero d h = refl
  get_or-take (suc n) (x ∷ xs) (suc i) d h = get_or-take n xs i d (omega arith)

pub get_or-set {ℓ} :
    {A : Type ℓ} (xs : List A) (i j : ℕ) (v d : A)
    → i < length xs
    → get_or (set xs i v) j d ≡ (if j == i then v else get_or xs j d)
get_or-set xs i j v d h = elim (Bool-cases (j == i)) [
  | inl same ↦
      let e : j ≡ i = ground arith in
      ap (λ k. get_or (set xs i v) k d) e
      ∙ get_or-set_self xs i v d h
      ∙ sym (ap (λ b. if b then v else get_or xs j d) same)
  | inr other ↦
      get_or-set_ne xs i j v d (ground arith) ∙ sym (ap (λ b. if b then v else get_or xs j d) other)
]
