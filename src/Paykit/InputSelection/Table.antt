-- ===== src/Paykit/InputSelection/Table.antt =====
-- The table of `input_selection_heuristic` holds the best sums.
use fog.Prelude.{ℕ, zero, suc, ◌+◌, ◌≤◌, ◌<◌, ◌≡◌, refl, ap, max, List, [], ◌∷◌, arith}
use fog.Prelude.Lists.{length, replicate, length-replicate}
use fog.Prelude.Words.{u64_mod, add64, add64-no_wrap}
use fog.Paykit.InputSelection.{sum64, entry, fill, first_row, dp_table}
use fog.Paykit.InputSelection.Best.{sum, best, best-le-sum}

pub sum64-sum : (vs : List ℕ) → sum vs < u64_mod → sum64 vs ≡ sum vs
unfolding sum64
sum64-sum [] h = refl
sum64-sum (v ∷ vs) h = rw (sum64-sum vs (omega (arith, h))) (add64-no_wrap v (sum vs) h)

entry-replicate : (n j : ℕ) → entry (replicate n 0) j ≡ 0
entry-replicate zero j = refl
entry-replicate (suc n) zero = refl
entry-replicate (suc n) (suc j) = entry-replicate n j

entry-fill :
    (v : ℕ) (row : List ℕ) (j : ℕ)
    → j + 1 < length row
    → entry (fill v row) j ≡ max (add64 v (entry row j)) (entry row (suc j))
unfolding fill
entry-fill v [] j h = absurd (omega arith)
entry-fill v (a ∷ []) j h = absurd (omega arith)
entry-fill v (a ∷ b ∷ row) zero h = refl
entry-fill v (a ∷ b ∷ row) (suc j) h = entry-fill v (b ∷ row) j (omega arith)

length-fill : (v a : ℕ) (row : List ℕ) → length (fill v (a ∷ row)) ≡ length row
unfolding fill
length-fill v a [] = refl
length-fill v a (b ∷ row) = ap suc (length-fill v b row)

fill-length : (v n : ℕ) (row : List ℕ) → length row ≡ suc n → length (fill v row) ≡ n
fill-length v n [] h = absurd (omega (arith, h))
fill-length v n (a ∷ row) h = omega (arith, h, length-fill v a row)

pub length-first_row :
    (limit : ℕ) (vs : List ℕ) → length (first_row (dp_table limit vs)) ≡ suc limit
unfolding dp_table
length-first_row limit [] = length-replicate (suc limit) 0
length-first_row limit (v ∷ vs) = ap suc (fill-length v limit _ (length-first_row limit vs))

-- The entries of the first row, where the sum of all values does not wrap.
pub entry-best :
    (limit : ℕ) (vs : List ℕ) (j : ℕ)
    → j ≤ limit
    → sum vs < u64_mod
    → entry (first_row (dp_table limit vs)) j ≡ best vs j
unfolding dp_table best
entry-best limit [] j h s = entry-replicate (suc limit) j
entry-best limit (v ∷ vs) zero h s = refl
entry-best limit (v ∷ vs) (suc j) h s =
    rw
      (
        entry-fill v (first_row (dp_table limit vs)) j
            (omega (arith, h, length-first_row limit vs)),
        entry-best limit vs j (omega (arith, h)) (omega (arith, s)),
        entry-best limit vs (suc j) h (omega (arith, s)),
        add64-no_wrap v (best vs j) (omega (arith, s, best-le-sum vs j)),
      )
      refl
