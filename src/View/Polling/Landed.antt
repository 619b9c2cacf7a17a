-- ===== src/View/Polling/Landed.antt =====
-- What a round of fog/view/protocol/src/polling.rs leaves behind of the outputs that have landed.
use fog.Prelude.{
  ℕ, zero, suc, ◌+◌, ◌≤◌, ◌<◌, ◌≡◌, refl, sym, ap, subst, ◌∙◌, ◌⊎◌, inl, inr, min, true, false,
  Option, none, some, List, [], ◌∷◌, ltb, ltb→lt, ltb→le, Bool-cases, arith,
}
use fog.Prelude.Words.{u64_mod}
use fog.Prelude.Bytes.{Bytes, bytes_eq, bytes_beq}
use fog.Prelude.Lists.{In, here, there}
use fog.Prelude.Map.{Map, get, Unique}
use fog.Prelude.Queries.{any}
use fog.KexRng.Core.{KexRngCore}
use fog.KexRng.Buffered.{VersionedKexRng, inner, peek, index}
use fog.View.Query.{QueryResponse}
use fog.View.UserRngSet.{Decryption, Progress, sort_results}
use fog.View.UserRngSet.Drain.{advances}
use fog.View.UserRngSet.Results.{Moved, AllMoved, Passed}
use fog.View.UserRngSet.Sorting.{IsFound, sort_results-get, sort_results-IsFound}
use fog.View.Polling.{keys_of, is_dead}
use fog.View.Polling.Round.{Stops, Dry, moved_by, is_dead-moved}
use fog.View.Polling.Asked.{
  Rngs, In-get, In-same, output, keys_of-In, In-keys_of, Apart, AllMoved-In,
}

-- Where a search key landed, if it did; nothing landed in the blocks below.
abbrev pub NotLanded : (Bytes → Option ℕ) → ℕ → Bytes → Type 0
NotLanded landed blocks key = (b : ℕ) → landed key ≡ some b → blocks ≤ b

-- A response to a request: every key that has landed in the blocks that it covers is found, and only
-- keys that were asked for are found.
abbrev pub IsComplete : (Bytes → Option ℕ) → List Bytes → QueryResponse → Type 0
IsComplete landed keys resp =
    ((key : Bytes) (b : ℕ)
      → In key keys
      → landed key ≡ some b
      → b < resp.highest_processed_block_count
      → (ciphertext : Bytes) × IsFound resp.tx_out_search_results key ciphertext)
    × ((key ciphertext : Bytes) → IsFound resp.tx_out_search_results key ciphertext → In key keys)

unmoved : (n : ℕ) → (0 < n → ⊥) → n ≡ 0
unmoved zero h = refl
unmoved (suc n) h = absurd (h (omega arith))

module _ (core : KexRngCore) (Stored : Bytes → Type 0) where
  Dry-In :
      (total : ℕ) (rngs : Rngs) (nonce : Bytes) (rng : VersionedKexRng)
      → Dry core Stored total rngs
      → In (nonce, rng) rngs
      → (n : ℕ) × Stops core Stored rng n
  Dry-In total [] nonce rng dry i = elim i [ ]
  Dry-In total ((k, x) ∷ rngs) nonce rng (n, m, (l, stops, dry)) (there i) =
      Dry-In m rngs nonce rng dry i
  Dry-In total ((k, x) ∷ rngs) nonce rng (n, m, (l, stops, dry)) (here e) =
      (n, subst (λ t. Stops core Stored t.1 n) e stops)

  -- A generator that is dead after a round advanced by fewer outputs than were asked for.
  few :
      (rngs : Rngs) (multiplier n s : ℕ) (nonce : Bytes) (rng rng' : VersionedKexRng)
      → Unique rngs
      → In (nonce, rng) rngs
      → multiplier ≤ 1000
      → Stops core Stored rng s
      → rng' ≡ advances core n rng
      → ((i : ℕ) → i < n → Stored (output core i rng))
      → is_dead rngs multiplier (nonce, rng') ≡ true
      → n < multiplier
  few rngs multiplier n s nonce rng rng' u i hi stops adv served dead =
      let (le, at, rest) = moved_by core Stored s n rng stops served in
      let moved = subst (λ r. index (inner r) ≡ index (inner rng) + n) (sym adv) at in
      let test =
        is_dead-moved core Stored rngs multiplier n nonce rng rng' (In-get rngs nonce rng u i) moved
          (omega (arith, hi, stops.1)) in
      omega
        (arith, ltb→lt (index (inner rng) + n) (index (inner rng) + multiplier) (sym test ∙ dead))

  module _ {BoxError R : Type 0} (d : Decryption BoxError R) (landed : Bytes → Option ℕ)
      (resp : QueryResponse) (multiplier : ℕ) (dead : List Bytes) (rngs rngs' : Rngs)
      (left : Progress BoxError R) where
    abbrev found_map : Map Bytes Bytes
    found_map = (sort_results BoxError R resp.tx_out_search_results ([], [])).0

    -- What holds of a round.
    pub record Round : Type 0 where
      pub unique : Unique rngs
      pub unique' : Unique rngs'
      pub moved : AllMoved core d found_map left rngs rngs'
      pub removed :
          (key ciphertext : Bytes)
          → get found_map key ≡ some ciphertext
          → (get left.tx_result_map key ≡ some ciphertext) ⊎ Passed core d found_map rngs rngs' key
      pub apart : Apart core rngs
      pub complete : IsComplete landed (keys_of core multiplier dead rngs) resp
      pub served :
          (key ciphertext : Bytes) → IsFound resp.tx_out_search_results key ciphertext → Stored key
      pub small : multiplier ≤ 1000
      pub total : ℕ
      pub dry : Dry core Stored total rngs

    get-IsFound :
        (key c : Bytes) → get found_map key ≡ some c → IsFound resp.tx_out_search_results key c
    unfolding get
    get-IsFound key c g =
        elim (sort_results-get BoxError R resp.tx_out_search_results ([], []) key c g) [
          | inl bad ↦ let no : none ≡ some c = bad in cc
          | inr f ↦ f
        ]

    -- How far a generator advances.
    reach :
        (nonce : Bytes) (rng : VersionedKexRng) (n : ℕ)
        → Round
        → In (nonce, rng) rngs
        → ((j : ℕ) → j < n → (c : Bytes) × (get found_map (output core j rng) ≡ some c))
        → (index (inner (advances core n rng)) ≡ index (inner rng) + n)
          × (index (inner rng) + n + 1000 < u64_mod)
    reach nonce rng n r i each =
        let (s, stops) = Dry-In r.total rngs nonce rng r.dry i in
        let (le, at, rest) = moved_by core Stored s n rng stops (λ j l.
          let (c, g) = each j l in
          r.served (output core j rng) c (get-IsFound (output core j rng) c g)) in
        (at, omega (arith, le, stops.1))

    pub index-Moved :
        (nonce : Bytes) (rng rng' : VersionedKexRng)
        → Round
        → In (nonce, rng) rngs
        → (moved : Moved core d found_map left rng rng')
        → index (inner rng') ≡ index (inner rng) + moved.0
    index-Moved nonce rng rng' r i (n, adv, gap, each) =
        subst (λ t. index (inner t) ≡ index (inner rng) + n) (sym adv)
          (reach nonce rng n r i (λ j l. let (c, g, w) = each j l in (c, g))).0

    -- A key that was passed is no generator's next one.
    passed :
        (nonce : Bytes) (rng rng' : VersionedKexRng) (n : ℕ)
        → Round
        → In (nonce, rng) rngs
        → In (nonce, rng') rngs'
        → rng' ≡ advances core n rng
        → index (inner rng) + n + 1000 < u64_mod
        → Passed core d found_map rngs rngs' (output core n rng)
        → ⊥
    passed nonce rng rng' n r i i' adv small (nonce₂, rng₂, n₂, i₂, (lt, j, j', e, each)) =
        let (at₂, small₂) = reach nonce₂ rng₂ n₂ r j each in
        let (same, from, count) =
          r.apart nonce₂ nonce rng₂ rng i₂ n (omega (arith, lt, small₂)) (omega (arith, small)) j i
            e in
        let there_is : In (nonce, advances core n₂ rng) rngs' =
          subst (λ t. In (nonce, advances core n₂ t) rngs') from
            (subst (λ t. In (t, advances core n₂ rng₂) rngs') same j') in
        let ends = In-same rngs' nonce rng' (advances core n₂ rng) r.unique' i' there_is in
        let small₃ = subst (λ t. index (inner t) + n₂ + 1000 < u64_mod) from small₂ in
        let (same', from', steps) =
          r.apart nonce nonce rng rng n n₂ (omega (arith, small)) (omega (arith, small₃)) i i
            (ap (λ t. peek (inner t)) (sym adv ∙ ends)) in
        omega (arith, count, steps, lt)

    -- The next output of a generator that was asked for all that it passed and more.
    asked_next :
        (nonce : Bytes) (rng rng' : VersionedKexRng) (n : ℕ)
        → Round
        → In (nonce, rng) rngs
        → In (nonce, rng') rngs'
        → any (bytes_beq nonce) dead ≡ false
        → n < multiplier
        → index (inner rng) + n + 1000 < u64_mod
        → rng' ≡ advances core n rng
        → get left.tx_result_map (peek (inner rng')) ≡ none
        → NotLanded landed resp.highest_processed_block_count (output core n rng)
    asked_next nonce rng rng' n r i i' alive few_steps small adv gap b at =
        elim (Bool-cases (ltb b resp.highest_processed_block_count)) [
          | inr e ↦ ltb→le b resp.highest_processed_block_count e
          | inl e ↦
              let (c, f) =
                r.complete.0 (output core n rng) b
                  (keys_of-In core multiplier n dead rngs nonce rng i alive few_steps) at
                  (ltb→lt b resp.highest_processed_block_count e) in
              let (y, g) =
                sort_results-IsFound BoxError R resp.tx_out_search_results ([], [])
                  (output core n rng) c f in
              absurd (elim (r.removed (output core n rng) y g) [
                | inl stays ↦
                    let gone =
                      subst (λ t. get left.tx_result_map (peek (inner t)) ≡ none) adv gap in
                    let clash : none ≡ some y = sym gone ∙ stays in cc
                | inr gone ↦ passed nonce rng rng' n r i i' adv small gone
              ])
        ]

    -- A generator that was dead before does not move.
    stays_put :
        (nonce : Bytes) (rng : VersionedKexRng) (c : Bytes)
        → Round
        → In (nonce, rng) rngs
        → any (bytes_beq nonce) dead ≡ true
        → get found_map (output core 0 rng) ≡ some c
        → ⊥
    stays_put nonce rng c r i was_dead g =
        let wanted = r.complete.1 (output core 0 rng) c (get-IsFound (output core 0 rng) c g) in
        let (nonce₂, rng₂, j, (k, alive, e, lt)) =
          In-keys_of core multiplier dead rngs (output core 0 rng) wanted in
        let (s, stops) = Dry-In r.total rngs nonce rng r.dry i in
        let (s₂, stops₂) = Dry-In r.total rngs nonce₂ rng₂ r.dry k in
        let (same, from, count) =
          r.apart nonce₂ nonce rng₂ rng j 0 (omega (arith, lt, r.small, stops₂.1))
            (omega (arith, stops.1)) k i e in
        let clash : false ≡ true =
          sym (subst (λ t. any (bytes_beq t) dead ≡ false) same alive) ∙ was_dead in
        cc

    abbrev WasDead : ℕ → Type 0
    WasDead new =
        (nonce : Bytes) (rng : VersionedKexRng)
        → In (nonce, rng) rngs
        → any (bytes_beq nonce) dead ≡ true
        → NotLanded landed new (peek (inner rng))

    next_output :
        (new : ℕ) (nonce : Bytes) (rng rng' : VersionedKexRng) (s : ℕ)
        → Round
        → WasDead new
        → In (nonce, rng) rngs
        → In (nonce, rng') rngs'
        → is_dead rngs multiplier (nonce, rng') ≡ true
        → Stops core Stored rng s
        → Moved core d found_map left rng rng'
        → NotLanded landed (min new resp.highest_processed_block_count) (peek (inner rng'))
    unfolding advances
    next_output new nonce rng rng' s r before i i' is_dead_now stops (n, adv, gap, each) b at =
        elim (Bool-cases (any (bytes_beq nonce) dead)) [
          | inr alive ↦
              let lt =
                few rngs multiplier n s nonce rng rng' r.unique i r.small stops adv
                  (λ j l.
                    let (c, g, w) = each j l in
                    r.served (output core j rng) c (get-IsFound (output core j rng) c g))
                  is_dead_now in
              let least =
                asked_next nonce rng rng' n r i i' alive lt
                  (reach nonce rng n r i (λ j l. let (c, g, w) = each j l in (c, g))).1 adv gap b
                  (subst (λ t. landed (peek (inner t)) ≡ some b) adv at) in
              omega (arith, least)
          | inl was ↦
              let zero_steps : n ≡ 0 =
                unmoved n (λ l. let (c, g, w) = each 0 l in stays_put nonce rng c r i was g) in
              let same : rng' ≡ rng = adv ∙ ap (λ t. advances core t rng) zero_steps in
              let least =
                before nonce rng i was b (subst (λ t. landed (peek (inner t)) ≡ some b) same at) in
              omega (arith, least)
        ]

    -- After a round: what a dead generator would give next has not landed.
    pub round-NotLanded :
        (new : ℕ) (nonce : Bytes) (rng' : VersionedKexRng)
        → Round
        → ((nonce : Bytes) (rng : VersionedKexRng)
            → In (nonce, rng) rngs
            → any (bytes_beq nonce) dead ≡ true
            → NotLanded landed new (peek (inner rng)))
        → In (nonce, rng') rngs'
        → is_dead rngs multiplier (nonce, rng') ≡ true
        → NotLanded landed (min new resp.highest_processed_block_count) (peek (inner rng'))
    round-NotLanded new nonce rng' r before i' is_dead_now =
        let (rng, (i, moved)) =
          AllMoved-In core d found_map left rngs rngs' nonce rng' r.moved i' in
        let (s, stops) = Dry-In r.total rngs nonce rng r.dry i in
        next_output new nonce rng rng' s r before i i' is_dead_now stops moved
