-- ===== src/Paykit/InputSelection/Best.antt =====
-- The best sum of a bounded number of values, against every choice of values.
use fog.Prelude.{
  ℕ, zero, suc, ◌+◌, ◌-◌, ◌≤◌, ◌<◌, ◌≡◌, refl, ap, max, Bool, true, false, List, [], ◌∷◌, leb,
  leb→le, leb→lt, Bool-cases, inl, inr, arith,
}
use fog.Prelude.Lists.{length}

abbrev pub sum : List ℕ → ℕ
sum [] = 0
sum (v ∷ vs) = v + sum vs

-- A choice says for each value whether it is taken.
abbrev pub picked : List Bool → List ℕ → ℕ
picked (true ∷ mask) (v ∷ vs) = v + picked mask vs
picked (false ∷ mask) (v ∷ vs) = picked mask vs
picked (b ∷ mask) [] = 0
picked [] vs = 0

abbrev pub taken : List Bool → ℕ
taken [] = 0
taken (true ∷ mask) = suc (taken mask)
taken (false ∷ mask) = taken mask

-- The positions that are taken, counted from `idx`.
abbrev pub positions : ℕ → List Bool → List ℕ
positions idx [] = []
positions idx (true ∷ mask) = idx ∷ positions (idx + 1) mask
positions idx (false ∷ mask) = positions (idx + 1) mask

unfoldable pub best : List ℕ → ℕ → ℕ
best [] j = 0
best (v ∷ vs) zero = 0
best (v ∷ vs) (suc j) = max (v + best vs j) (best vs (suc j))

pub best-zero : (vs : List ℕ) → best vs 0 ≡ 0
unfolding best
best-zero [] = refl
best-zero (v ∷ vs) = refl

pub best-le-sum : (vs : List ℕ) (j : ℕ) → best vs j ≤ sum vs
unfolding best
best-le-sum [] j = omega arith
best-le-sum (v ∷ vs) zero = omega arith
best-le-sum (v ∷ vs) (suc j) = omega (arith, best-le-sum vs j, best-le-sum vs (suc j))

-- No choice of at most `j` values is worth more.
pub picked-le-best :
    (mask : List Bool) (vs : List ℕ) (j : ℕ) → taken mask ≤ j → picked mask vs ≤ best vs j
unfolding best
picked-le-best [] vs j h = omega arith
picked-le-best (true ∷ mask) [] j h = omega arith
picked-le-best (false ∷ mask) [] j h = omega arith
picked-le-best (true ∷ mask) (v ∷ vs) zero h = absurd (omega arith)
picked-le-best (false ∷ mask) (v ∷ vs) zero h =
    omega (arith, picked-le-best mask vs 0 h, best-zero vs)
picked-le-best (true ∷ mask) (v ∷ vs) (suc j) h =
    omega (arith, picked-le-best mask vs j (omega arith))
picked-le-best (false ∷ mask) (v ∷ vs) (suc j) h = omega (arith, picked-le-best mask vs (suc j) h)

-- A choice that is worth as much, and takes a choice for each value.
abbrev pub IsChoice : List ℕ → ℕ → ℕ → List Bool → Type 0
IsChoice vs j total mask = (length mask ≡ length vs) × (taken mask ≤ j) × (picked mask vs ≡ total)

nothing : (vs : List ℕ) (j : ℕ) → (mask : List Bool) × IsChoice vs j 0 mask
nothing [] j = ([], (refl, omega arith, refl))
nothing (v ∷ vs) j = let (mask, (l, t, p)) = nothing vs j in (false ∷ mask, (ap suc l, t, p))

pub best-attained : (vs : List ℕ) (j : ℕ) → (mask : List Bool) × IsChoice vs j (best vs j) mask
unfolding best
best-attained [] j = ([], (refl, omega arith, refl))
best-attained (v ∷ vs) zero = nothing (v ∷ vs) zero
best-attained (v ∷ vs) (suc j) = elim (Bool-cases (leb (best vs (suc j)) (v + best vs j))) [
  | inl e ↦
      let (mask, (l, t, p)) = best-attained vs j in
      (
        true ∷ mask,
        (ap suc l, omega (arith, t), omega (arith, p, leb→le (best vs (suc j)) (v + best vs j) e)),
      )
  | inr e ↦
      let (mask, (l, t, p)) = best-attained vs (suc j) in
      (false ∷ mask, (ap suc l, t, omega (arith, p, leb→lt (best vs (suc j)) (v + best vs j) e)))
]

suc_sub : (j : ℕ) → suc j - 1 ≡ j
suc_sub j = omega arith

pub best-cons :
    (v : ℕ) (vs : List ℕ) (j : ℕ) → 0 < j → best (v ∷ vs) j ≡ max (v + best vs (j - 1)) (best vs j)
unfolding best
best-cons v vs zero h = elim h [ ]
best-cons v vs (suc j) h = rw (suc_sub j) refl
