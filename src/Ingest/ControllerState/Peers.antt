-- ===== src/Ingest/ControllerState/Peers.antt =====
-- fog/ingest/server/src/controller_state.rs: `set_peers`.
use fog.Prelude.{
  ℕ, ◌≡◌, refl, sym, ap, ◌∙◌, Bool, true, false, not, List, [], ◌∷◌, Bool-cases, inl, inr, arith,
  ◌==◌, ==→eq,
}
use fog.Prelude.Queries.{any}
use fog.Prelude.Rows.{filter-any}
use fog.Ingest.ControllerState.{IngestControllerState, set_peers, difference, is_empty}

abbrev pub member : ℕ → List ℕ → Bool
member p ps = any (λ q. q == p) ps

is_empty_nil : (xs : List ℕ) → is_empty xs ≡ true → xs ≡ []
is_empty_nil [] h = refl
is_empty_nil (x ∷ xs) h = cc

covered :
    (p : ℕ) (xs ys : List ℕ)
    → any (λ x. not (member x ys)) xs ≡ false
    → member p xs ≡ true
    → member p ys ≡ true
unfolding any
covered p [] ys h i = cc
covered p (x ∷ xs) ys h i = elim (Bool-cases (x == p)) [
  | inl e ↦ elim (Bool-cases (member x ys)) [
    | inl m ↦ ap (λ q. member q ys) (sym (==→eq x p e)) ∙ m
    | inr m ↦ absurd (ground arith)
  ]
  | inr e ↦ covered p xs ys (ground arith) (ground arith)
]

difference-member :
    (p : ℕ) (xs ys : List ℕ)
    → is_empty (difference xs ys) ≡ true
    → member p xs ≡ true
    → member p ys ≡ true
difference-member p xs ys h =
    covered p xs ys (filter-any (λ x. not (member x ys)) xs (is_empty_nil (difference xs ys) h))

same_members : (a b : Bool) → (a ≡ true → b ≡ true) → (b ≡ true → a ≡ true) → a ≡ b
same_members true b f g = sym (f refl)
same_members false true f g = g refl
same_members false false f g = refl

-- After `set_peers` the peers are exactly those that were given, also when the call finds nothing to
-- add or to remove and leaves the set alone.
pub set_peers-member :
    (p : ℕ) (new_peers : List ℕ) (s : IngestControllerState)
    → member p (set_peers new_peers s).peers ≡ member p new_peers
unfolding set_peers
set_peers-member p new_peers s = elim (Bool-cases (is_empty (difference new_peers s.peers))) [
  | inl e ↦ elim (Bool-cases (is_empty (difference s.peers new_peers))) [
    | inl g ↦
        rw (e, g)
          (same_members (member p s.peers) (member p new_peers)
            (difference-member p s.peers new_peers g) (difference-member p new_peers s.peers e))
    | inr g ↦ rw (e, g) refl
  ]
  | inr e ↦ rw e refl
]
