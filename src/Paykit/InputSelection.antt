-- ===== src/Paykit/InputSelection.antt =====
-- fog/sample-paykit/src/cached_tx_data/mod.rs, `input_selection_heuristic`: which outputs a payment
-- spends. `MAX_INPUTS` is a constant of mc_transaction_core, an argument here. `none` is the panic of
-- an assertion.
pub mod Best
pub mod Table
pub mod Greedy
pub mod Optimal
use fog.Prelude.{
  ℕ, zero, suc, ◌+◌, ◌-◌, min, max, Option, none, some, List, [], ◌∷◌, ◌++◌, ltb, leb, not, ◌&&◌,
  if◌then◌else◌,
}
use fog.Prelude.Lists.{length, replicate}
use fog.Prelude.Words.{add64}
use fog.Prelude.Result.{Result, ok, err}

pub data InputSelectionError : Type 0 where
  insufficient_funds : InputSelectionError
  wallet_compacting_needed : ℕ → InputSelectionError

-- `iter().sum::<u64>()`
unfoldable pub sum64 : List ℕ → ℕ
sum64 [] = 0
sum64 (v ∷ vs) = add64 v (sum64 vs)

-- An entry of a row; the code stays within the row, whose length is MAX_INPUTS + 1.
abbrev pub entry : List ℕ → ℕ → ℕ
entry [] j = 0
entry (a ∷ row) zero = a
entry (a ∷ row) (suc j) = entry row j

-- The inner loop: the entries after the first, from the row below.
unfoldable pub fill : ℕ → List ℕ → List ℕ
fill v [] = []
fill v (a ∷ []) = []
fill v (a ∷ b ∷ row) = max (add64 v a) b ∷ fill v (b ∷ row)

-- The first row of the table; the table has one row more than there are values.
abbrev pub first_row : List (List ℕ) → List ℕ
first_row [] = []
first_row (row ∷ rows) = row

-- The outer loop, from the last row up.
unfoldable pub dp_table : ℕ → List ℕ → List (List ℕ)
dp_table max_row [] = replicate (suc max_row) 0 ∷ []
dp_table max_row (v ∷ vs) =
    let table = dp_table max_row vs in (0 ∷ fill v (first_row table)) ∷ table

abbrev pub rows_below : List (List ℕ) → List (List ℕ)
rows_below [] = []
rows_below (row ∷ rows) = rows

-- The greedy loop over the values from `idx` on and the rows from `idx` on.
unfoldable pub select : ℕ → ℕ → ℕ → List ℕ → List (List ℕ) → ℕ → List ℕ → Option (List ℕ)
select amount max_inputs idx [] table value result =
    if leb (length result) max_inputs && leb amount value then some result else none
select amount max_inputs idx (v ∷ vs) table value result =
    let include = leb amount (
      add64 (add64 value v)
        (entry (first_row (rows_below table)) (max_inputs - length result - 1))) in
    let rest =
      select amount max_inputs (idx + 1) vs (rows_below table)
        (if include then add64 value v else value)
        (if include then result ++ (idx ∷ []) else result) in
    if leb amount value
    then if leb (length result) max_inputs then some result else none
    else if ltb (length result) max_inputs
    then rest
    else none

abbrev pub selected : Option (List ℕ) → Option (Result InputSelectionError (List ℕ))
selected none = none
selected (some result) = some (ok result)

unfoldable pub input_selection_heuristic :
    ℕ → List ℕ → ℕ → ℕ → Option (Result InputSelectionError (List ℕ))
input_selection_heuristic max_inputs_limit tx_values amount requested =
    let max_inputs = min requested max_inputs_limit in
    let table = dp_table max_inputs_limit tx_values in
    if ltb (sum64 tx_values) amount
    then some (err insufficient_funds)
    else if ltb (entry (first_row table) max_inputs) amount
    then some (err (wallet_compacting_needed (entry (first_row table) (max max_inputs 3))))
    else selected (select amount max_inputs 0 tx_values table 0 [])
