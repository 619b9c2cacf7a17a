-- ===== src/View/UserRngSet/Sorting.antt =====
-- The first loop of `ingest_tx_out_search_results` of user_rng_set.rs, which sorts the results, and the
-- last one, which reports those that no generator asked for.
use fog.Prelude.{
  sym, ◌≢◌, ℕ, ◌≡◌, refl, ap, subst, ◌∙◌, ◌⊎◌, inl, inr, Option, none, some, List, [], ◌∷◌, arith,
  Bool-cases,
}
use fog.Prelude.Bytes.{Bytes, bytes_eq, bytes_beq, bytes_beq_iff}
use fog.Prelude.Lists.{length, In, here, there, In-append_left, In-append_right}
use fog.Prelude.Map.{Map, get, get-insert, Unique, insert-Unique}
use fog.View.SearchResult.{
  TxOutSearchResult, TxOutSearchResultCode, try_from_u32, to_u32, found, not_found, bad_search_key,
  internal_error, rate_limited,
}
use fog.View.UserRngSet.{
  RecoveryError, sort_code, sort_results, tx_out_search_failure,
  unexpected_tx_out_search_result_code, search_key_not_found, old_maids,
}

-- A result that says `Found`, with this key and ciphertext, is in the list.
abbrev pub IsFound : List TxOutSearchResult → Bytes → Bytes → Type 0
IsFound results key ciphertext =
    In (record { search_key = key; result_code = to_u32 found; ciphertext = ciphertext }) results

try_from_u32-found : (n : ℕ) → try_from_u32 n ≡ some found → n ≡ to_u32 found
unfolding try_from_u32
try_from_u32-found n h = ground arith

-- Not one of the codes of `TxOutSearchResultCode`.
abbrev pub IsUnknown : ℕ → Type 0
IsUnknown code =
    (code ≢ to_u32 found)
    × (code ≢ to_u32 not_found)
    × (code ≢ to_u32 bad_search_key)
    × (code ≢ to_u32 internal_error)
    × (code ≢ to_u32 rate_limited)

try_from_u32-none : (n : ℕ) → IsUnknown n → try_from_u32 n ≡ none
unfolding try_from_u32
try_from_u32-none n (a, b, c, e, f) = ground (arith, a, b, c, e, f)

module _ (BoxError R : Type 0) where
  abbrev Sorted : Type 0
  Sorted = Map Bytes Bytes × List (RecoveryError BoxError R)

  sort_code-Unique :
      (c : Option TxOutSearchResultCode) (r : TxOutSearchResult) (s : Sorted)
      → Unique s.0
      → Unique (sort_code BoxError R c r s).0
  sort_code-Unique (some found) r (m, f) u = insert-Unique m r.search_key r.ciphertext u
  sort_code-Unique (some not_found) r (m, f) u = u
  sort_code-Unique (some bad_search_key) r (m, f) u = u
  sort_code-Unique (some internal_error) r (m, f) u = u
  sort_code-Unique (some rate_limited) r (m, f) u = u
  sort_code-Unique none r (m, f) u = u

  pub sort_results-Unique :
      (rs : List TxOutSearchResult) (s : Sorted)
      → Unique s.0
      → Unique (sort_results BoxError R rs s).0
  unfolding sort_results
  sort_results-Unique [] s u = u
  sort_results-Unique (r ∷ rs) s u =
      sort_results-Unique rs _ (sort_code-Unique (try_from_u32 r.result_code) r s u)

  sort_code-get :
      (c : Option TxOutSearchResultCode) (r : TxOutSearchResult) (s : Sorted) (key x : Bytes)
      → get (sort_code BoxError R c r s).0 key ≡ some x
      → (get s.0 key ≡ some x) ⊎ ((c ≡ some found) × (r.search_key ≡ key) × (r.ciphertext ≡ x))
  sort_code-get (some found) r (m, f) key x h = elim (Bool-cases (bytes_beq r.search_key key)) [
    | inl e ↦ inr (
      refl,
      (bytes_beq_iff r.search_key key).0 e,
      ground (arith, get-insert m r.search_key key r.ciphertext),
    )
    | inr e ↦ inl (ground (arith, get-insert m r.search_key key r.ciphertext))
  ]
  sort_code-get (some not_found) r (m, f) key x h = inl h
  sort_code-get (some bad_search_key) r (m, f) key x h = inl h
  sort_code-get (some internal_error) r (m, f) key x h = inl h
  sort_code-get (some rate_limited) r (m, f) key x h = inl h
  sort_code-get none r (m, f) key x h = inl h

  -- What is in the map says `Found`.
  pub sort_results-get :
      (rs : List TxOutSearchResult) (s : Sorted) (key x : Bytes)
      → get (sort_results BoxError R rs s).0 key ≡ some x
      → (get s.0 key ≡ some x) ⊎ IsFound rs key x
  unfolding sort_results
  sort_results-get [] s key x h = inl h
  sort_results-get (r ∷ rs) s key x h =
      elim (sort_results-get rs (sort_code BoxError R (try_from_u32 r.result_code) r s) key x h) [
        | inr i ↦ inr (there i)
        | inl g ↦ elim (sort_code-get (try_from_u32 r.result_code) r s key x g) [
          | inl old ↦ inl old
          | inr (c, k, v) ↦ inr (here (ground (arith, try_from_u32-found r.result_code c)))
        ]
      ]

  sort_code-keeps :
      (c : Option TxOutSearchResultCode) (r : TxOutSearchResult) (s : Sorted) (key x : Bytes)
      → get s.0 key ≡ some x
      → (y : Bytes) × (get (sort_code BoxError R c r s).0 key ≡ some y)
  sort_code-keeps (some found) r (m, f) key x h = elim (Bool-cases (bytes_beq r.search_key key)) [
    | inl e ↦ (r.ciphertext, get-insert m r.search_key key r.ciphertext ∙ rw e refl)
    | inr e ↦ (x, get-insert m r.search_key key r.ciphertext ∙ rw e h)
  ]
  sort_code-keeps (some not_found) r (m, f) key x h = (x, h)
  sort_code-keeps (some bad_search_key) r (m, f) key x h = (x, h)
  sort_code-keeps (some internal_error) r (m, f) key x h = (x, h)
  sort_code-keeps (some rate_limited) r (m, f) key x h = (x, h)
  sort_code-keeps none r (m, f) key x h = (x, h)

  sort_results-keeps :
      (rs : List TxOutSearchResult) (s : Sorted) (key x : Bytes)
      → get s.0 key ≡ some x
      → (y : Bytes) × (get (sort_results BoxError R rs s).0 key ≡ some y)
  unfolding sort_results
  sort_results-keeps [] s key x h = (x, h)
  sort_results-keeps (r ∷ rs) s key x h =
      let (y, e) = sort_code-keeps (try_from_u32 r.result_code) r s key x h in
      sort_results-keeps rs _ key y e

  sorted_first :
      (r : TxOutSearchResult) (s : Sorted)
      → get (sort_code BoxError R (some found) r s).0 r.search_key ≡ some r.ciphertext
  sorted_first r (m, f) =
      get-insert m r.search_key r.search_key r.ciphertext
      ∙ rw ((bytes_beq_iff r.search_key r.search_key).1 refl) refl

  -- A key that was found is in the map.
  pub sort_results-IsFound :
      (rs : List TxOutSearchResult) (s : Sorted) (key x : Bytes)
      → IsFound rs key x
      → (y : Bytes) × (get (sort_results BoxError R rs s).0 key ≡ some y)
  unfolding sort_results try_from_u32
  sort_results-IsFound [] s key x i = elim i [ ]
  sort_results-IsFound (r ∷ rs) s key x (there i) = sort_results-IsFound rs _ key x i
  sort_results-IsFound (r ∷ rs) s key x (here e) =
      let code : try_from_u32 r.result_code ≡ some found = ap (λ t. try_from_u32 t.result_code) e in
      let same : r.search_key ≡ key = ap (λ t. t.search_key) e in
      sort_results-keeps rs _ key r.ciphertext (
        subst
          (λ j. get (sort_code BoxError R (try_from_u32 r.result_code) r s).0 j ≡ some r.ciphertext)
          same (rw code (sorted_first r s)))

  -- The failure that a result with a failing or unknown code is reported as.
  abbrev pub IsFailure : TxOutSearchResult → RecoveryError BoxError R → Type 0
  IsFailure r e =
      ((r.result_code ≡ to_u32 bad_search_key)
        × (e ≡ tx_out_search_failure bad_search_key r.search_key))
      ⊎ ((r.result_code ≡ to_u32 internal_error)
          × (e ≡ tx_out_search_failure internal_error r.search_key))
      ⊎ ((r.result_code ≡ to_u32 rate_limited)
          × (e ≡ tx_out_search_failure rate_limited r.search_key))
      ⊎ (IsUnknown r.result_code
          × (e ≡ unexpected_tx_out_search_result_code r.result_code r.search_key))

  sort_code-IsFailure :
      (r : TxOutSearchResult) (s : Sorted) (e : RecoveryError BoxError R)
      → IsFailure r e
      → In e (sort_code BoxError R (try_from_u32 r.result_code) r s).1
  unfolding try_from_u32
  sort_code-IsFailure r (m, f) e (inl (c, s)) =
      let code : try_from_u32 r.result_code ≡ some bad_search_key = rw c refl in
      rw (code, s) (In-append_right f _ (here refl))
  sort_code-IsFailure r (m, f) e (inr (inl (c, s))) =
      let code : try_from_u32 r.result_code ≡ some internal_error = rw c refl in
      rw (code, s) (In-append_right f _ (here refl))
  sort_code-IsFailure r (m, f) e (inr (inr (inl (c, s)))) =
      let code : try_from_u32 r.result_code ≡ some rate_limited = rw c refl in
      rw (code, s) (In-append_right f _ (here refl))
  sort_code-IsFailure r (m, f) e (inr (inr (inr (c, s)))) =
      rw (try_from_u32-none r.result_code c, s) (In-append_right f _ (here refl))

  sort_code-failed :
      (c : Option TxOutSearchResultCode) (r : TxOutSearchResult) (s : Sorted)
      (e : RecoveryError BoxError R)
      → In e s.1
      → In e (sort_code BoxError R c r s).1
  sort_code-failed (some found) r (m, f) e i = i
  sort_code-failed (some not_found) r (m, f) e i = i
  sort_code-failed (some bad_search_key) r (m, f) e i = In-append_left f _ i
  sort_code-failed (some internal_error) r (m, f) e i = In-append_left f _ i
  sort_code-failed (some rate_limited) r (m, f) e i = In-append_left f _ i
  sort_code-failed none r (m, f) e i = In-append_left f _ i

  sort_results-failed :
      (rs : List TxOutSearchResult) (s : Sorted) (e : RecoveryError BoxError R)
      → In e s.1
      → In e (sort_results BoxError R rs s).1
  unfolding sort_results
  sort_results-failed [] s e i = i
  sort_results-failed (r ∷ rs) s e i =
      sort_results-failed rs _ e (sort_code-failed (try_from_u32 r.result_code) r s e i)

  -- No failing result is dropped.
  pub sort_results-IsFailure :
      (rs : List TxOutSearchResult) (s : Sorted) (r : TxOutSearchResult)
      (e : RecoveryError BoxError R)
      → In r rs
      → IsFailure r e
      → In e (sort_results BoxError R rs s).1
  unfolding sort_results
  sort_results-IsFailure [] s r e i h = elim i [ ]
  sort_results-IsFailure (x ∷ rs) s r e (there i) h = sort_results-IsFailure rs _ r e i h
  sort_results-IsFailure (x ∷ rs) s r e (here same) h =
      sort_results-failed rs _ e
        (sort_code-IsFailure x s e (subst (λ t. IsFailure t e) (sym same) h))

  pub get-old_maids :
      (m : Map Bytes Bytes) (key c : Bytes)
      → get m key ≡ some c
      → In (search_key_not_found key) (old_maids BoxError R m)
  unfolding old_maids get
  get-old_maids [] key c h = cc
  get-old_maids ((k, x) ∷ m) key c h = elim (Bool-cases (bytes_beq k key)) [
    | inl e ↦ here (ap search_key_not_found ((bytes_beq_iff k key).0 e))
    | inr e ↦ there (get-old_maids m key c (rw e at h))
  ]

  pub length-old_maids : (m : Map Bytes Bytes) → length (old_maids BoxError R m) ≡ length m
  unfolding old_maids
  length-old_maids [] = refl
  length-old_maids ((k, c) ∷ m) = omega (arith, length-old_maids m)
