-- ===== src/Oram/Path.antt =====
-- The path from a node to the root, which fog/ocall_oram_storage/trusted/src/lib.rs splits at the
-- treetop.
use fog.Prelude.{
  ℕ, zero, suc, ◌*◌, ◌/◌, ◌≤◌, ◌<◌, ◌≡◌, refl, ap, inl, inr, some, List, [], ◌∷◌, ltb, ltb→lt,
  ltb→le, lt→ltb, Bool-cases, arith,
}
use fog.Prelude.Lists.{length, take, drop, All}
use fog.Oram.Storage.{position_below, nth}

-- What the documentation of `TreeIndex::parents` says: the node, its parent and so on, to the root 1.
pub data IsPath : ℕ → List ℕ → Type 0 where
  root : IsPath 1 (1 ∷ [])
  step :
      {index : ℕ} {indices : List ℕ}
      → 1 < index
      → IsPath (index / 2) indices
      → IsPath index (index ∷ indices)

pub IsPath-positive : {index : ℕ} {indices : List ℕ} → IsPath index indices → 0 < index
IsPath-positive root = omega arith
IsPath-positive (step h path) = omega (arith, h)

pub IsPath-below :
    {index : ℕ} {indices : List ℕ} → IsPath index indices → All (λ j. j ≤ index) indices
IsPath-below root = (omega arith, tt)
IsPath-below (step {index = i} {indices = xs} h path) = (omega arith, weaken xs (IsPath-below path))
  where
    weaken : (ys : List ℕ) → All (λ j. j ≤ i / 2) ys → All (λ j. j ≤ i) ys
    weaken [] a = tt
    weaken (y ∷ ys) (l, a) = (omega (arith, l), weaken ys a)

-- What the split at the treetop gives.
pub record Split (bound index : ℕ) (indices : List ℕ) : Type 0 where
  pub first : ℕ
  pub found : position_below bound indices ≡ some first
  pub within : first ≤ length indices
  pub outside : All (λ j. bound ≤ j) (take first indices)
  pub top : IsPath (nth indices first) (drop first indices)
  pub head : first ≡ 0 → index < bound
  pub deep : 0 < first → bound ≤ index
  pub last : (n : ℕ) → first ≡ suc n → nth indices n < bound * 2

pub IsPath-Split :
    {index : ℕ} {indices : List ℕ} (bound : ℕ)
    → 2 ≤ bound
    → IsPath index indices
    → Split bound index indices
unfolding position_below
IsPath-Split bound h root = record {
  first = 0;
  found = rw (lt→ltb 1 bound (omega (arith, h))) refl;
  within = omega arith;
  outside = tt;
  top = root;
  head = λ e. omega (arith, h);
  deep = λ e. absurd (omega (arith, e));
  last = λ n e. absurd (omega (arith, e));
}
IsPath-Split bound h (step {index = i} {indices = xs} l path) = elim (Bool-cases (ltb i bound)) [
  | inl e ↦ record {
    first = 0;
    found = rw e refl;
    within = omega arith;
    outside = tt;
    top = step l path;
    head = λ e'. ltb→lt i bound e;
    deep = λ e'. absurd (omega (arith, e'));
    last = λ n e'. absurd (omega (arith, e'));
  }
  | inr e ↦
      let rest = IsPath-Split bound h path in
      record {
        first = suc rest.first;
        found = rw (e, rest.found) refl;
        within = omega (arith, rest.within);
        outside = (ltb→le i bound e, rest.outside);
        top = rest.top;
        head = λ e'. absurd (omega (arith, e'));
        deep = λ e'. ltb→le i bound e;
        last = elim [
          | zero ↦ λ e'. omega (arith, rest.head (omega (arith, e')))
          | suc n ↦ λ e'. rest.last n (omega (arith, e'))
        ];
      }
]

-- There is one path from a node.
pub IsPath-unique : {index : ℕ} {xs ys : List ℕ} → IsPath index xs → IsPath index ys → xs ≡ ys
IsPath-unique root root = refl
IsPath-unique root (step h path) = absurd (omega (arith, h))
IsPath-unique (step h path) root = absurd (omega (arith, h))
IsPath-unique (step {index = i} h path) (step h' path') = ap (λ l. i ∷ l) (IsPath-unique path path')
