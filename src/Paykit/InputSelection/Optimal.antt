-- ===== src/Paykit/InputSelection/Optimal.antt =====
-- fog/sample-paykit/src/cached_tx_data/mod.rs: what `input_selection_heuristic` returns.
use fog.Prelude.{
  ℕ, ◌-◌, ◌≤◌, ◌<◌, ◌≡◌, refl, ap, min, max, Bool, false, Option, some, List, [], ◌⊎◌, inl, inr,
  ltb, ltb→lt, ltb→le, Bool-cases, arith,
}
use fog.Prelude.Lists.{length}
use fog.Prelude.Words.{u64_mod}
use fog.Prelude.Result.{Result, ok, err}
use fog.Paykit.InputSelection.{
  InputSelectionError, insufficient_funds, wallet_compacting_needed, sum64, entry, first_row,
  dp_table, select, input_selection_heuristic,
}
use fog.Paykit.InputSelection.Best.{
  sum, picked, taken, positions, best, picked-le-best, best-attained, IsChoice,
}
use fog.Paykit.InputSelection.Table.{sum64-sum, entry-best}
use fog.Paykit.InputSelection.Greedy.{IsEnough, select-IsEnough}

-- No choice of at most `j` values is worth more than `total`.
abbrev pub IsLargest : List ℕ → ℕ → ℕ → Type 0
IsLargest vs j total = (mask : List Bool) → taken mask ≤ j → picked mask vs ≤ total

-- What may be returned, where at most `j` values can be used and `k` is the limit of the advice.
abbrev pub IsSelection : List ℕ → ℕ → ℕ → ℕ → Option (Result InputSelectionError (List ℕ)) → Type 0
IsSelection vs amount j k r =
    ((r ≡ some (err insufficient_funds)) × (sum vs < amount))
    ⊎ ((total : ℕ) × (r ≡ some (err (wallet_compacting_needed total)))
        × ((amount ≤ sum vs) × ((mask : List Bool) → taken mask ≤ j → picked mask vs < amount))
        × (IsLargest vs k total × ((mask : List Bool) × IsChoice vs k total mask)))
    ⊎ ((mask : List Bool) × (r ≡ some (ok (positions 0 mask)))
        × (length mask ≡ length vs)
        × (taken mask ≤ j)
        × (amount ≤ picked mask vs))

-- The greedy loop has found a choice.
chosen :
    (limit : ℕ) (vs : List ℕ) (amount requested : ℕ)
    → ltb (sum64 vs) amount ≡ false
    → ltb (entry (first_row (dp_table limit vs)) (min requested limit)) amount ≡ false
    → ((mask : List Bool) × IsEnough amount (min requested limit) vs 0 [] mask
        × (select amount (min requested limit) 0 vs (dp_table limit vs) 0 []
            ≡ some (positions 0 mask)))
    → IsSelection vs amount
        (min requested limit)
        (max (min requested limit) 3)
        (input_selection_heuristic limit vs amount requested)
unfolding input_selection_heuristic
chosen limit vs amount requested e f (mask, (ml, mt, mp), run) =
    inr (inr (mask, rw (e, f, run) refl, ml, omega (arith, mt), omega (arith, mp)))

-- Whatever the outputs, the amount and the number of inputs asked for, if the values together are
-- below 2^64 and a transaction may have three inputs or more: no assertion fails. The funds are
-- called insufficient exactly when all outputs are worth less than the amount. Compacting is asked
-- for exactly when they are worth enough but no choice within the limit is, and the advice is then
-- the largest sum of so many outputs, or of three if that is more. Otherwise the result is the
-- increasing list of the positions of a choice within the limit that is worth the amount.
pub input_selection_heuristic-IsSelection :
    (limit : ℕ) (vs : List ℕ) (amount requested : ℕ)
    → 3 ≤ limit
    → sum vs < u64_mod
    → IsSelection vs amount
        (min requested limit)
        (max (min requested limit) 3)
        (input_selection_heuristic limit vs amount requested)
unfolding input_selection_heuristic
input_selection_heuristic-IsSelection limit vs amount requested three small =
    let j = min requested limit in
    let k = max j 3 in
    let none_used : j - 0 ≡ j = omega arith in
    let row_j = entry-best limit vs j (omega arith) small in
    let row_k = entry-best limit vs k (omega (arith, three)) small in
    elim (Bool-cases (ltb (sum vs) amount)) [
      | inl e ↦ inl (rw (sum64-sum vs small, e) refl, ltb→lt (sum vs) amount e)
      | inr e ↦ elim (Bool-cases (ltb (best vs j) amount)) [
        | inl f ↦ inr (
            inl (
              best vs k,
              rw (sum64-sum vs small, e, row_j, f, row_k) refl,
              (
                ltb→le (sum vs) amount e,
                λ mask t. omega (arith, ltb→lt (best vs j) amount f, picked-le-best mask vs j t),
              ),
              (λ mask t. picked-le-best mask vs k t, best-attained vs k),
            ))
        | inr f ↦ chosen limit vs amount requested (rw (sum64-sum vs small) e) (rw row_j f) (
            select-IsEnough limit amount j (omega arith) 0 vs 0 [] (omega (arith, small))
              (omega arith) (omega (arith, ap (best vs) none_used, ltb→le (best vs j) amount f)))
      ]
    ]
