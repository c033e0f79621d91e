-- ===== src/Timer/Delete.antt =====
-- tdel takes a timer out of its list, keeps the order, and undoes tadd.
use nix_mark_iv.Prelude.{
  ℕ, ◌≡◌, ◌≢◌, ◌⊎◌, refl, sym, ap, ◌∙◌, subst, some, inl, inr, List, [], ◌∷◌, arith, ◌==◌,
  Bool-cases,
}
use nix_mark_iv.Timer.{Timer, insert, remove, head_when, tdel, tadd}
use nix_mark_iv.Timer.Insert.{From, IsSorted, tadd-cases, schedule-keeps}

-- No timer of the list has this name.
abbrev pub Lacks : ℕ → List Timer → Type 0
Lacks ident [] = Unit {0}
Lacks ident (t ∷ ts) = (t.ident ≢ ident) × Lacks ident ts

remove-insert :
    (nt : Timer) (ts : List Timer) → Lacks nt.ident ts → remove nt.ident (insert nt ts) ≡ ts
unfolding remove insert
remove-insert nt [] l = ground arith
remove-insert nt (t ∷ ts) (ne, l) = ground (arith, remove-insert nt ts l)

pub tdel-remove : (ident : ℕ) (ts : List Timer) → (tdel ident ts).1 ≡ remove ident ts
unfolding tdel remove
tdel-remove ident [] = refl
tdel-remove ident (t ∷ ts) = ground arith

-- tdel of a timer that tadd has just linked to a list without a timer of its name gives back the
-- list.
tdel-tadd :
    (ticks : ℕ → ℕ) (now mach : ℕ) (ts : List Timer) (nt : Timer) (when : ℕ) (us : List Timer)
    → Lacks nt.ident ts
    → tadd ticks now mach ts nt ≡ some (when, us)
    → (tdel nt.ident us).1 ≡ ts
tdel-tadd ticks now mach ts nt when us l e =
    let (new, made, w, u) = tadd-cases ticks now mach ts nt when us e in
    let linked : Timer = record new { tt = some mach } in
    let same = (schedule-keeps ticks now ts nt nt.tmode new made).0 in
    tdel-remove nt.ident us
    ∙ ap (remove nt.ident) u
    ∙ ap (λ i. remove i (insert linked ts)) (sym same)
    ∙ remove-insert linked ts (subst (λ i. Lacks i ts) (sym same) l)

pub From-remove : (w ident : ℕ) (ts : List Timer) → From w ts → From w (remove ident ts)
unfolding remove
From-remove w ident [] f = tt
From-remove w ident (t ∷ ts) (a, f) = ground (arith, From-remove w ident ts f)

pub remove-IsSorted : (ident : ℕ) (ts : List Timer) → IsSorted ts → IsSorted (remove ident ts)
unfolding remove
remove-IsSorted ident [] s = tt
remove-IsSorted ident (t ∷ ts) (f, s) = elim (Bool-cases (t.ident == ident)) [
  | inl found ↦ rw found s
  | inr other ↦ rw other (From-remove t.twhen ident ts f, remove-IsSorted ident ts s)
]

pub tdel-IsSorted : (ident : ℕ) (ts : List Timer) → IsSorted ts → IsSorted (tdel ident ts).1
tdel-IsSorted ident ts s = subst IsSorted (sym (tdel-remove ident ts)) (remove-IsSorted ident ts s)

-- The time that tdel returns is that of the new head, or 0 where the head stays or nothing is left;
-- and the new head is not before the old one.
pub head_when-tdel :
    (ident : ℕ) (t : Timer) (ts : List Timer)
    → IsSorted (t ∷ ts)
    → let (when, us) = tdel ident (t ∷ ts) in
      ((when ≡ head_when us) ⊎ ((when ≡ 0) × (head_when us ≡ t.twhen))) × From t.twhen us
unfolding tdel remove
head_when-tdel ident t ts (f, s) = elim (Bool-cases (t.ident == ident)) [
  | inl found ↦ rw found (inl refl, f)
  | inr other ↦ rw other (inr (refl, refl), (omega arith, From-remove t.twhen ident ts f))
]
