-- ===== src/View/UserRngSet/Recovery.antt =====
-- What `ingest_tx_out_search_results` of user_rng_set.rs returns.
use fog.Prelude.{◌+◌, ◌≡◌, refl, ◌⊎◌, inl, inr, none, some, List, [], ◌++◌, arith}
use fog.Prelude.Bytes.{Bytes, bytes_eq}
use fog.Prelude.Lists.{length, length-append, In, In-append_left, In-append_right}
use fog.Prelude.Map.{get}
use fog.Prelude.Result.{Result, ok, err}
use fog.KexRng.Core.{KexRngCore}
use fog.View.SearchResult.{TxOutSearchResult}
use fog.View.UserRngSet.{
  UserRngSet, RecoveryError, Decryption, decrypt_tx_out_result, Progress, sort_results,
  search_key_not_found, old_maids, ingest_tx_out_search_results,
}
use fog.View.UserRngSet.Drain.{Noted}
use fog.View.UserRngSet.Results.{AllMoved, Passed, drain_all-DrainedAll}
use fog.View.UserRngSet.Sorting.{
  sort_results-Unique, sort_results-get, sort_results-IsFound, IsFailure, sort_results-IsFailure,
  get-old_maids, length-old_maids, IsFound,
}

module _ {BoxError R : Type 0} (core : KexRngCore) (d : Decryption BoxError R) where
  abbrev pub IsListed :
      Result (RecoveryError BoxError R) R → List R → List (RecoveryError BoxError R) → Type 0
  IsListed (ok txo) successes failures = In txo successes
  IsListed (err e) successes failures = In e failures

  Noted-IsListed :
      (r : Result (RecoveryError BoxError R) R) (p : Progress BoxError R)
      (more : List (RecoveryError BoxError R))
      → Noted core d r p
      → IsListed r p.successes (p.failures ++ more)
  Noted-IsListed (ok txo) p more i = i
  Noted-IsListed (err e) p more i = In-append_left p.failures more i

  -- What a call returns, where `m` and `early` are the results that say `Found`, by key, and the
  -- failures of the other results.
  pub record Ingested (results : List TxOutSearchResult) (s : UserRngSet) (successes : List R)
      (failures : List (RecoveryError BoxError R)) (s' : UserRngSet) : Type 0 where
    pub left : Progress BoxError R
    -- The keys that stayed unmatched are reported last.
    pub reported :
        (left.successes ≡ successes)
        × (failures ≡ left.failures ++ old_maids BoxError R left.tx_result_map)
    -- Every result that failed is reported.
    pub failed :
        (r : TxOutSearchResult) (e : RecoveryError BoxError R)
        → In r results
        → IsFailure BoxError R r e
        → In e failures
    -- For every key that was found there is a record, or the error of the decryption, or the report
    -- that no generator asked for it.
    pub answered :
        (key ciphertext : Bytes)
        → IsFound results key ciphertext
        → (last : Bytes) × IsFound results key last
          × (In (search_key_not_found key) failures
              ⊎ IsListed (decrypt_tx_out_result BoxError R d last) successes failures)
    -- Each key and each early failure is answered once, by a record or by an error.
    pub counted :
        length successes + length failures
        ≡ length (sort_results BoxError R results ([], [])).0
          + length (sort_results BoxError R results ([], [])).1
    -- Every generator advanced over keys with a result, up to a key that has none left.
    pub moved : AllMoved core d (sort_results BoxError R results ([], [])).0 left s.rngs s'.rngs
    -- What said `Found` was passed by a generator or stays.
    pub removed :
        (key ciphertext : Bytes)
        → get (sort_results BoxError R results ([], [])).0 key ≡ some ciphertext
        → (get left.tx_result_map key ≡ some ciphertext)
          ⊎ Passed core d (sort_results BoxError R results ([], [])).0 s.rngs s'.rngs key
    pub unchanged :
        (s'.highest_processed_block_count ≡ s.highest_processed_block_count)
        × (s'.next_start_from_user_event_id ≡ s.next_start_from_user_event_id)
    -- A record comes from a result that says `Found`.
    pub origin :
        (txo : R)
        → In txo successes
        → (key : Bytes) × (ciphertext : Bytes) × IsFound results key ciphertext
          × (decrypt_tx_out_result BoxError R d ciphertext ≡ ok txo)

  -- A call ends, whatever the results, the generators and the order of the hash maps. Every generator
  -- advances over keys that were found and stops at one that has no result left. For every key that
  -- a result says was found, with the ciphertext of one such result, there is the decrypted record, the
  -- error of its decryption, or the error that no generator asked for the key. Every result with a
  -- failing or an unknown code is reported by its error, and every record is the decryption of a
  -- result that says `Found`.
  pub ingest_tx_out_search_results-Ingested :
      (results : List TxOutSearchResult) (s : UserRngSet)
      → (successes : List R) × (failures : List (RecoveryError BoxError R)) × (s' : UserRngSet)
        × (ingest_tx_out_search_results BoxError R core d results s
            ≡ some ((successes, failures), s'))
        × Ingested results s successes failures s'
  unfolding ingest_tx_out_search_results
  ingest_tx_out_search_results-Ingested results s =
      let m = (sort_results BoxError R results ([], [])).0 in
      let early = (sort_results BoxError R results ([], [])).1 in
      let start : Progress BoxError R = record {
        tx_result_map = m;
        successes = [];
        failures = early;
      } in
      let (rngs', p, ret, a) = drain_all-DrainedAll core d s.rngs start in
      let (u, t) = a.counted (sort_results-Unique BoxError R results ([], []) tt) in
      (
        p.successes,
        p.failures ++ old_maids BoxError R p.tx_result_map,
        record s { rngs = rngs' },
        rw (ret, ingest_tx_out_search_results) refl,
        record {
          left = p;
          reported = (refl, refl);
          counted = omega (
            arith,
            t,
            length-append p.failures (old_maids BoxError R p.tx_result_map),
            length-old_maids BoxError R p.tx_result_map,
          );
          failed = λ r e i h.
              In-append_left p.failures _
                (a.keeps (err e) (sort_results-IsFailure BoxError R results ([], []) r e i h));
          answered = λ key c f.
              let (last, g) = sort_results-IsFound BoxError R results ([], []) key c f in
              let there_is : IsFound results key last =
                elim (sort_results-get BoxError R results ([], []) key last g) [
                  | inl bad ↦ let no : none ≡ some last = unfold get in bad in cc
                  | inr i ↦ i
                ] in
              (
                last,
                there_is,
                elim (a.answered key last g) [
                  | inl stays ↦ inl (
                      In-append_right p.failures _
                        (get-old_maids BoxError R p.tx_result_map key last stays))
                  | inr noted ↦
                      inr (Noted-IsListed (decrypt_tx_out_result BoxError R d last) p _ noted)
                ],
              );
          moved = a.moved;
          removed = a.removed;
          unchanged = (refl, refl);
          origin = λ txo i. elim (a.origin (ok txo) i) [
            | inl bad ↦ elim bad [ ]
            | inr (k, c, g, e) ↦ elim (sort_results-get BoxError R results ([], []) k c g) [
              | inl bad ↦ let no : none ≡ some c = unfold get in bad in cc
              | inr f ↦ (k, c, f, e)
            ]
          ];
        },
      )
