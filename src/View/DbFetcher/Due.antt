-- ===== src/View/DbFetcher/Due.antt =====
-- The blocks that the loop of `load_block_data` in db_fetcher.rs has still to load.
use fog.Prelude.{
  ℕ, ◌≡◌, ◌==◌, ==→eq, eq→==, refl, sym, subst, ◌∙◌, inl, inr, true, false, none, some, List, [],
  ◌∷◌, Bool-cases,
}
use fog.Prelude.Lists.{All}
use fog.Prelude.Map.{Map, get, insert, nat_eq, get-insert, Unique, insert-Unique}
use fog.Recovery.IngressKey.{PublicKey, IngressPublicKeyRecord, covers_block_index}
use fog.View.Tracker.{BlockTracker, ask, next_block, next_blocks, next_blocks_from, moves_forward}
use fog.View.Tracker.Next.{passes, next_blocks-Asks}
use fog.View.DbFetcher.{Position, at_top, at_load, in_loop, blocked, stopped, panicked}

-- The blocks that are left in the loop can be processed, whichever order they come in.
abbrev pub Due : Map PublicKey ℕ → Map PublicKey ℕ → Type 0
Due m rest = All (λ e. moves_forward (get m e.0) e.1 ≡ true) rest × Unique rest

abbrev pub Waits : Map PublicKey ℕ → Position → Type 0
Waits m at_top = Unit
Waits m at_load = Unit
Waits m (in_loop rest has_more_work) = Due m rest
Waits m (blocked num_tx_outs rest has_more_work) = Due m rest
Waits m stopped = Unit
Waits m panicked = ⊥

All-get :
    (P : PublicKey × ℕ → Type 0) (m : Map PublicKey ℕ)
    → Unique m
    → ((k : PublicKey) (b : ℕ) → get m k ≡ some b → P (k, b))
    → All P m
unfolding get
All-get P [] u h = tt
All-get P ((j, v) ∷ m) (fresh, u) h = (
  h j v (rw (eq→== j j refl) refl),
  All-get P m u (λ k b g. h k b (elim (Bool-cases (j == k)) [
    | inr e ↦ rw e g
    | inl e ↦
        let clash : none ≡ some b =
          sym fresh ∙ subst (λ x. get m x ≡ some b) (sym (==→eq j k e)) g in
        cc
  ])),
)

not_key : (k j : ℕ) → (j == k) ≡ false → (k == j) ≡ false
not_key k j e = elim (Bool-cases (k == j)) [
  | inr f ↦ f
  | inl f ↦ let clash : false ≡ true = sym e ∙ eq→== j k (sym (==→eq k j f)) in cc
]

pub Due-insert :
    (m rest : Map PublicKey ℕ) (k : PublicKey) (b : ℕ)
    → get rest k ≡ none
    → Due m rest
    → Due (insert m k b) rest
unfolding get
Due-insert m [] k b fresh due = due
Due-insert m ((j, v) ∷ rest) k b fresh ((moves, all), (alone, u)) = elim (Bool-cases (j == k)) [
  | inl e ↦ let clash : some v ≡ none = rw e at fresh in cc
  | inr e ↦
      let (all', u') = Due-insert m rest k b (rw e at fresh) (all, u) in
      let other : get (insert m k b) j ≡ get m j = get-insert m k j b ∙ rw (not_key k j e) refl in
      ((subst (λ o. moves_forward o v ≡ true) (sym other) moves, all'), (alone, u'))
]

next_blocks_from-Unique :
    (m : Map PublicKey ℕ) (recs : List IngressPublicKeyRecord) (found : Map PublicKey ℕ)
    → Unique found
    → Unique (next_blocks_from m found recs)
unfolding next_blocks_from
next_blocks_from-Unique m [] found u = u
next_blocks_from-Unique m (r ∷ recs) found u =
    next_blocks_from-Unique m recs (ask m found r)
      (elim (Bool-cases (covers_block_index r (next_block m r))) [
        | inl e ↦ rw e (insert-Unique found r.key (next_block m r) u)
        | inr e ↦ rw e u
      ])

next_blocks-Unique :
    (t : BlockTracker) (recs : List IngressPublicKeyRecord) → Unique (next_blocks t recs)
unfolding next_blocks
next_blocks-Unique t recs = next_blocks_from-Unique t.processed_block_per_ingress_key recs [] tt

pub next_blocks-Due :
    (t : BlockTracker) (recs : List IngressPublicKeyRecord)
    → Due t.processed_block_per_ingress_key (next_blocks t recs)
next_blocks-Due t recs =
    let u = next_blocks-Unique t recs in
    (
      All-get _ (next_blocks t recs) u (λ k b g.
          passes (get t.processed_block_per_ingress_key k) b
            (next_blocks-Asks t recs k b g).is_next),
      u,
    )
