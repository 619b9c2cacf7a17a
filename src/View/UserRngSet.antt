-- ===== src/View/UserRngSet.antt =====
-- fog/view/protocol/src/user_rng_set.rs, and `decrypt_tx_out_result` of user_private.rs: the client's
-- generators, and the matching of search results with them. The crypto box, the decoding of a record
-- and the record itself are code of other crates, so they are parameters. The hash maps are lists in
-- any order.
pub mod Drain
pub mod Results
pub mod Sorting
pub mod Recovery
use fog.Prelude.{
  ℕ, zero, suc, Bool, true, false, Option, none, some, List, [], ◌∷◌, ◌++◌, if◌then◌else◌,
}
use fog.Prelude.Bytes.{Bytes, bytes_eq}
use fog.Prelude.Lists.{length}
use fog.Prelude.Map.{Map, get, insert, remove}
use fog.Prelude.Result.{Result, ok, err, ◌>>=◌, map_err}
use fog.KexRng.Core.{KexRngCore, Kex, KexRngPubkey, Error, KeyError}
use fog.KexRng.Buffered.{
  VersionedKexRng, inner, peek, versioned_advance, versioned_try_from_kex_pubkey,
}
use fog.View.SearchResult.{
  TxOutSearchResult, TxOutSearchResultCode, try_from_u32, found, not_found, bad_search_key,
  internal_error, rate_limited,
}

pub data TxOutRecoveryError (BoxError : Type 0) : Type 0 where
  prost_deserialization_failed : TxOutRecoveryError BoxError
  tx_out_record_deserialization_failed : TxOutRecoveryError BoxError
  decryption_failed : BoxError → TxOutRecoveryError BoxError
  mac_check_failed : TxOutRecoveryError BoxError
  invalid_nonce : TxOutRecoveryError BoxError
  invalid_key : KeyError → TxOutRecoveryError BoxError
  kex_rng : Error → TxOutRecoveryError BoxError
  tx_out_search_failure : TxOutSearchResultCode → Bytes → TxOutRecoveryError BoxError
  unexpected_tx_out_search_result_code : ℕ → Bytes → TxOutRecoveryError BoxError
  search_key_not_found : Bytes → TxOutRecoveryError BoxError

pub record UserRngSet : Type 0 where
  pub rngs : Map Bytes VersionedKexRng
  pub highest_processed_block_count : ℕ
  pub next_start_from_user_event_id : ℕ

unfoldable pub new : UserRngSet
new = record { rngs = []; highest_processed_block_count = 0; next_start_from_user_event_id = 0 }

-- `entry(..).or_insert(..)`
abbrev pub or_insert : Option VersionedKexRng → UserRngSet → Bytes → VersionedKexRng → UserRngSet
or_insert (some old) s nonce rng = s
or_insert none s nonce rng = record s { rngs = insert s.rngs nonce rng }

module _ (BoxError TxOutRecord : Type 0) where
  abbrev pub RecoveryError : Type 0
  RecoveryError = TxOutRecoveryError BoxError

  -- `decrypt_in_place` of the crypto box with the user's key, and `mc_util_serial::decode`.
  pub record Decryption : Type 0 where
    pub decrypt_in_place : Bytes → Result BoxError (Bool × Bytes)
    pub decode : Bytes → Option TxOutRecord

  abbrev decoded : Option TxOutRecord → Result RecoveryError TxOutRecord
  decoded none = err tx_out_record_deserialization_failed
  decoded (some txo) = ok txo

  unfoldable pub decrypt_tx_out_result : Decryption → Bytes → Result RecoveryError TxOutRecord
  decrypt_tx_out_result d payload = do
    (success, plaintext) ← map_err decryption_failed (d.decrypt_in_place payload)
    if success then decoded (d.decode plaintext) else err mac_check_failed

  -- An error leaves the set as it is.
  unfoldable pub ingest_rng_record :
      (core : KexRngCore) (k : Kex)
      → k.Private
      → KexRngPubkey
      → UserRngSet
      → Result RecoveryError UserRngSet
  ingest_rng_record core k view_key pubkey s = do
    rng ← map_err kex_rng (versioned_try_from_kex_pubkey core k pubkey view_key)
    ok (or_insert (get s.rngs pubkey.public_key) s pubkey.public_key rng)

  -- One result of the first loop, into the map or the failures.
  abbrev pub sort_code :
      Option TxOutSearchResultCode
      → TxOutSearchResult
      → Map Bytes Bytes × List RecoveryError
      → Map Bytes Bytes × List RecoveryError
  sort_code (some found) r (m, failures) = (insert m r.search_key r.ciphertext, failures)
  sort_code (some not_found) r (m, failures) = (m, failures)
  sort_code (some bad_search_key) r (m, failures) =
      (m, failures ++ (tx_out_search_failure bad_search_key r.search_key ∷ []))
  sort_code (some internal_error) r (m, failures) =
      (m, failures ++ (tx_out_search_failure internal_error r.search_key ∷ []))
  sort_code (some rate_limited) r (m, failures) =
      (m, failures ++ (tx_out_search_failure rate_limited r.search_key ∷ []))
  sort_code none r (m, failures) =
      (m, failures ++ (unexpected_tx_out_search_result_code r.result_code r.search_key ∷ []))

  unfoldable pub sort_results :
      List TxOutSearchResult
      → Map Bytes Bytes × List RecoveryError
      → Map Bytes Bytes × List RecoveryError
  sort_results [] sorted = sorted
  sort_results (r ∷ rs) sorted = sort_results rs (sort_code (try_from_u32 r.result_code) r sorted)

  -- The results not yet matched, and the two vectors.
  pub record Progress : Type 0 where
    pub tx_result_map : Map Bytes Bytes
    pub successes : List TxOutRecord
    pub failures : List RecoveryError

  abbrev pub push : Result RecoveryError TxOutRecord → Progress → Progress
  push (ok txo) p = record p { successes = p.successes ++ (txo ∷ []) }
  push (err e) p = record p { failures = p.failures ++ (e ∷ []) }

  -- One round of the inner loop, for a ciphertext that `remove` found.
  abbrev pub match_one : Decryption → Bytes → VersionedKexRng → Progress → Progress
  match_one d ciphertext rng p =
      push (decrypt_tx_out_result d ciphertext)
        (record p { tx_result_map = remove p.tx_result_map (peek (inner rng)) })

  -- The inner loop. Each round removes an entry, so the entries bound the rounds; `none` would be a
  -- loop that goes on.
  unfoldable pub drain :
      KexRngCore → Decryption → ℕ → VersionedKexRng → Progress → Option (VersionedKexRng × Progress)
  drain core d zero rng p = none
  drain core d (suc fuel) rng p = elim (get p.tx_result_map (peek (inner rng))) [
    | none ↦ some (rng, p)
    | some ciphertext ↦
        drain core d fuel (versioned_advance core rng) (match_one d ciphertext rng p)
  ]

  unfoldable pub drain_all :
      KexRngCore
      → Decryption
      → Map Bytes VersionedKexRng
      → Progress
      → Option (Map Bytes VersionedKexRng × Progress)
  drain_all core d [] p = some ([], p)
  drain_all core d ((nonce, rng) ∷ rngs) p =
      elim (drain core d (suc (length p.tx_result_map)) rng p) [
        | none ↦ none
        | some (rng', p') ↦ elim (drain_all core d rngs p') [
          | none ↦ none
          | some (rngs', p'') ↦ some ((nonce, rng') ∷ rngs', p'')
        ]
      ]

  unfoldable pub old_maids : Map Bytes Bytes → List RecoveryError
  old_maids [] = []
  old_maids ((search_key, ciphertext) ∷ m) = search_key_not_found search_key ∷ old_maids m

  unfoldable pub ingest_tx_out_search_results :
      KexRngCore
      → Decryption
      → List TxOutSearchResult
      → UserRngSet
      → Option ((List TxOutRecord × List RecoveryError) × UserRngSet)
  ingest_tx_out_search_results core d results s =
      let (m, failures) = sort_results results ([], []) in
      elim (drain_all core d s.rngs
        (record { tx_result_map = m; successes = []; failures = failures })) [
          | none ↦ none
          | some (rngs, p) ↦
              some
                ((p.successes, p.failures ++ old_maids p.tx_result_map), record s { rngs = rngs })
        ]
