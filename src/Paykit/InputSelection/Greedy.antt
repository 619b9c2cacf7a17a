-- ===== src/Paykit/InputSelection/Greedy.antt =====
-- The greedy loop of `input_selection_heuristic`.
use fog.Prelude.{
  ℕ, suc, ◌+◌, ◌-◌, ◌≤◌, ◌<◌, ◌≡◌, refl, ap, ◌∙◌, Bool, true, false, Option, some, List, [], ◌∷◌,
  ◌++◌, ltb, leb, leb→le, leb→lt, le→leb, lt→ltb, ltb→lt, ltb→le, Bool-cases, inl, inr,
  if◌then◌else◌, arith,
}
use mathlib.Core.List.{append-nil, append_assoc}
use fog.Prelude.Lists.{length, length-append}
use fog.Prelude.Words.{u64_mod, add64-no_wrap}
use fog.Paykit.InputSelection.{entry, first_row, dp_table, select}
use fog.Paykit.InputSelection.Best.{
  sum, picked, taken, positions, best, best-zero, best-le-sum, best-cons,
}
use fog.Paykit.InputSelection.Table.{entry-best}

-- A choice among the values that are left that reaches the amount within the limit.
abbrev pub IsEnough : ℕ → ℕ → List ℕ → ℕ → List ℕ → List Bool → Type 0
IsEnough amount max_inputs vs value result mask =
    (length mask ≡ length vs)
    × (length result + taken mask ≤ max_inputs)
    × (amount ≤ value + picked mask vs)

abbrev nothing : List ℕ → List Bool
nothing [] = []
nothing (v ∷ vs) = false ∷ nothing vs

length-nothing : (vs : List ℕ) → length (nothing vs) ≡ length vs
length-nothing [] = refl
length-nothing (v ∷ vs) = ap suc (length-nothing vs)

taken-nothing : (vs : List ℕ) → taken (nothing vs) ≡ 0
taken-nothing [] = refl
taken-nothing (v ∷ vs) = taken-nothing vs

positions-nothing : (idx : ℕ) (vs : List ℕ) → positions idx (nothing vs) ≡ []
positions-nothing idx [] = refl
positions-nothing idx (v ∷ vs) = positions-nothing (idx + 1) vs

module _ (limit amount max_inputs : ℕ) (within : max_inputs ≤ limit) where
  -- While the amount is not reached there is room for one more.
  room :
      (v : ℕ) (vs : List ℕ) (value : ℕ) (result : List ℕ)
      → amount ≤ value + best (v ∷ vs) (max_inputs - length result)
      → leb amount value ≡ false
      → length result < max_inputs
  room v vs value result a e = elim (Bool-cases (ltb (length result) max_inputs)) [
    | inl h ↦ ltb→lt (length result) max_inputs h
    | inr h ↦
        let full : max_inputs - length result ≡ 0 =
          omega (arith, ltb→le (length result) max_inputs h) in
        absurd (omega (arith, leb→lt amount value e, rw full at a, best-zero (v ∷ vs)))
  ]

  abbrev Reached : ℕ → List ℕ → ℕ → List ℕ → Type 0
  Reached idx vs value result =
      (mask : List Bool) × IsEnough amount max_inputs vs value result mask
      × (select amount max_inputs idx vs (dp_table limit vs) value result
          ≡ some (result ++ positions idx mask))

  -- What the code compares the amount with.
  abbrev reachable : ℕ → List ℕ → ℕ → List ℕ → ℕ
  reachable v vs value result = value + v + best vs (max_inputs - length result - 1)

  -- One round that goes on: the next state.
  abbrev next : ℕ → ℕ → List ℕ → ℕ → List ℕ → Bool → Option (List ℕ)
  next idx v vs value result include =
      select amount max_inputs (idx + 1) vs (dp_table limit vs)
        (if include then value + v else value) (if include then result ++ (idx ∷ []) else result)

  round :
      (idx v : ℕ) (vs : List ℕ) (value : ℕ) (result : List ℕ)
      → value + sum (v ∷ vs) < u64_mod
      → leb amount value ≡ false
      → length result < max_inputs
      → select amount max_inputs idx (v ∷ vs) (dp_table limit (v ∷ vs)) value result
        ≡ next idx v vs value result (leb amount (reachable v vs value result))
  unfolding select dp_table
  round idx v vs value result s e r =
      let k = max_inputs - length result - 1 in
      let row : entry (first_row (dp_table limit vs)) k ≡ best vs k =
        entry-best limit vs k (omega (arith, within)) (omega (arith, s)) in
      rw
        (
          e,
          lt→ltb (length result) max_inputs r,
          row,
          add64-no_wrap value v (omega (arith, s)),
          add64-no_wrap (value + v) (best vs k) (omega (arith, s, best-le-sum vs k)),
        )
        refl

  -- The output is taken.
  include_one :
      (idx v : ℕ) (vs : List ℕ) (value : ℕ) (result : List ℕ)
      → length result < max_inputs
      → select amount max_inputs idx (v ∷ vs) (dp_table limit (v ∷ vs)) value result
        ≡ next idx v vs value result true
      → Reached (idx + 1) vs (value + v) (result ++ (idx ∷ []))
      → Reached idx (v ∷ vs) value result
  include_one idx v vs value result r step (mask, (ml, mt, mp), run) =
      let len : length (result ++ (idx ∷ [])) ≡ length result + 1 =
        length-append result (idx ∷ []) in
      (
        true ∷ mask,
        (ap suc ml, omega (arith, mt, len), omega (arith, mp)),
        step ∙ run ∙ ap some (append_assoc result (idx ∷ []) (positions (idx + 1) mask)),
      )

  more :
      (idx v : ℕ) (vs : List ℕ) (value : ℕ) (result : List ℕ)
      → value + sum (v ∷ vs) < u64_mod
      → length result ≤ max_inputs
      → amount ≤ value + best (v ∷ vs) (max_inputs - length result)
      → leb amount value ≡ false
      → length result < max_inputs
      → ((value' : ℕ) (result' : List ℕ)
          → value' + sum vs < u64_mod
          → length result' ≤ max_inputs
          → amount ≤ value' + best vs (max_inputs - length result')
          → Reached (idx + 1) vs value' result')
      → Reached idx (v ∷ vs) value result
  more idx v vs value result s l a e r ih =
      let k = max_inputs - length result - 1 in
      let step = round idx v vs value result s e r in
      let cons = best-cons v vs (max_inputs - length result) (omega (arith, r)) in
      elim (Bool-cases (leb amount (reachable v vs value result))) [
        | inl t ↦
            let len : length (result ++ (idx ∷ [])) ≡ length result + 1 =
              length-append result (idx ∷ []) in
            let left : max_inputs - length (result ++ (idx ∷ [])) ≡ k = omega (arith, len) in
            include_one idx v vs value result r (rw t at step) (
              ih (value + v) (result ++ (idx ∷ [])) (omega (arith, s)) (omega (arith, len, r))
                (omega (arith, ap (best vs) left, leb→le amount (reachable v vs value result) t)))
        | inr t ↦
            let (mask, (ml, mt, mp), run) =
              ih value result (omega (arith, s)) l
                (omega (arith, a, cons, leb→lt amount (reachable v vs value result) t)) in
            (false ∷ mask, (ap suc ml, mt, mp), (rw t at step) ∙ run)
      ]

  pub select-IsEnough :
      (idx : ℕ) (vs : List ℕ) (value : ℕ) (result : List ℕ)
      → value + sum vs < u64_mod
      → length result ≤ max_inputs
      → amount ≤ value + best vs (max_inputs - length result)
      → (mask : List Bool) × IsEnough amount max_inputs vs value result mask
        × (select amount max_inputs idx vs (dp_table limit vs) value result
            ≡ some (result ++ positions idx mask))
  unfolding select dp_table best
  select-IsEnough idx [] value result s l a = (
    [],
    (refl, omega (arith, l), omega (arith, a)),
    rw (le→leb (length result) max_inputs l, le→leb amount value (omega (arith, a)), append-nil)
        refl,
  )
  select-IsEnough idx (v ∷ vs) value result s l a = elim (Bool-cases (leb amount value)) [
    | inl e ↦ (
      nothing (v ∷ vs),
      (
        ap suc (length-nothing vs),
        omega (arith, l, taken-nothing vs),
        omega (arith, leb→le amount value e),
      ),
      rw (e, le→leb (length result) max_inputs l, positions-nothing (idx + 1) vs, append-nil) refl,
    )
    | inr e ↦
        more idx v vs value result s l a e (room v vs value result a e)
          (select-IsEnough (idx + 1) vs)
  ]
