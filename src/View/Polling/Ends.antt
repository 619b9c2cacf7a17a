-- ===== src/View/Polling/Ends.antt =====
-- The poll of fog/view/protocol/src/polling.rs comes to its end.
use fog.Prelude.{
  ℕ, min, map, zero, suc, ◌+◌, ◌≤◌, ◌<◌, ◌≡◌, refl, ◌⊎◌, inl, inr, Option, none, some, List, [],
  ◌∷◌, ◌++◌, leb, leb→lt, Bool-cases, arith,
}
use fog.Prelude.Bytes.{Bytes, bytes_eq}
use fog.Prelude.Lists.{length}
use fog.Prelude.Map.{Map, get, Unique, insert-Unique}
use fog.Prelude.Result.{Result, ok, err, Holds, of_Holds, Result-cases}
use fog.KexRng.Core.{KexRngCore, Kex, KexRngPubkey}
use fog.KexRng.Buffered.{VersionedKexRng, versioned_try_from_kex_pubkey}
use fog.Recovery.Sql.Events.{RngRecord}
use fog.View.Query.{QueryResponse}
use fog.View.UserRngSet.{
  UserRngSet, RecoveryError, Decryption, sort_results, ingest_rng_record, or_insert,
}
use fog.View.UserRngSet.Sorting.{IsFound, sort_results-get}
use fog.View.UserRngSet.Recovery.{ingest_tx_out_search_results-Ingested, Ingested}
use fog.View.Polling.{
  FogViewConnection, Poll, Polled, PollingError, rounds, poll, take_response, first_poll,
  finish_poll, send_request, search_keys, recorded, ingest_rng_records, dead_rngs, next_multiplier,
  no_events, tx_out_recovery, conn,
}
use fog.View.Polling.Round.{Dry, AllMoved-Unique, round-Further, next_multiplier-range}

module _ {BoxError TxOutRecord : Type 0} (DecodeError : Type 0) (core : KexRngCore) (k : Kex)
    (d : Decryption BoxError TxOutRecord) (c : FogViewConnection) where
  abbrev pub Going : Type 0
  Going = Poll BoxError DecodeError TxOutRecord core k d c

  abbrev pub rngs_of : Going → Map Bytes VersionedKexRng
  rngs_of p = p.polled.user_rng_set.rngs

  or_insert-Unique :
      (o : Option VersionedKexRng) (s : UserRngSet) (nonce : Bytes) (rng : VersionedKexRng)
      → Unique s.rngs
      → Unique (or_insert o s nonce rng).rngs
  or_insert-Unique (some old) s nonce rng u = u
  or_insert-Unique none s nonce rng u = insert-Unique s.rngs nonce rng u

  -- What an insertion keeps, the loop over the rng records keeps.
  module _ (Kept : UserRngSet → Type 0)
      (keeps : (o : Option VersionedKexRng) (s : UserRngSet) (nonce : Bytes) (rng : VersionedKexRng)
        → Kept s
        → Kept (or_insert o s nonce rng)) where
    ingest_rng_record_keeps :
        (upriv : k.Private) (pubkey : KexRngPubkey) (s : UserRngSet)
        → Kept s
        → Holds Kept (ingest_rng_record BoxError TxOutRecord core k upriv pubkey s)
    unfolding ingest_rng_record
    ingest_rng_record_keeps upriv pubkey s h =
        elim (Result-cases (versioned_try_from_kex_pubkey core k pubkey upriv)) [
          | inl (rng, e) ↦ rw e (keeps (get s.rngs pubkey.public_key) s pubkey.public_key rng h)
          | inr (x, e) ↦ rw e tt
        ]

    recorded_keeps :
        (r : Result (RecoveryError BoxError TxOutRecord) UserRngSet) (s : UserRngSet)
        → Holds Kept r
        → Kept s
        → Kept (recorded BoxError DecodeError TxOutRecord core k d c r s)
    recorded_keeps (ok s') s h u = h
    recorded_keeps (err e) s h u = u

    pub ingest_rng_records_keep :
        (upriv : k.Private) (rs : List RngRecord) (s : UserRngSet)
        (errs : List (PollingError BoxError DecodeError TxOutRecord core k d c))
        → Kept s
        → Kept (ingest_rng_records BoxError DecodeError TxOutRecord core k d c upriv rs (s, errs)).0
    unfolding ingest_rng_records
    ingest_rng_records_keep upriv [] s errs h = h
    ingest_rng_records_keep upriv (r ∷ rs) s errs h =
        let result = ingest_rng_record BoxError TxOutRecord core k upriv r.pubkey s in
        ingest_rng_records_keep upriv rs
          (recorded BoxError DecodeError TxOutRecord core k d c result s) _
          (recorded_keeps result s (ingest_rng_record_keeps upriv r.pubkey s h) h)

  pub records-Unique :
      (upriv : k.Private) (rs : List RngRecord) (s : UserRngSet)
      (errs : List (PollingError BoxError DecodeError TxOutRecord core k d c))
      → Unique s.rngs
      → Unique
          (ingest_rng_records BoxError DecodeError TxOutRecord core k d c upriv rs (s, errs)).0.rngs
  records-Unique = ingest_rng_records_keep (λ s. Unique s.rngs) or_insert-Unique

  -- The generators of the client after the first response.
  abbrev pub first_rngs : k.Private → UserRngSet → QueryResponse → Map Bytes VersionedKexRng
  first_rngs upriv s resp =
      (ingest_rng_records BoxError DecodeError TxOutRecord core k d c upriv resp.rng_records
        (s, [])).0.rngs

  -- The variables after a response.
  abbrev pub received :
      Going
      → QueryResponse
      → List TxOutRecord
      → List (RecoveryError BoxError TxOutRecord)
      → UserRngSet
      → c.State
      → Going
  received p resp records errs s' connection = record {
    polled = record {
      records = p.polled.records ++ records;
      errs = p.polled.errs ++ map tx_out_recovery errs;
      user_rng_set = s';
      connection = connection;
    };
    new_highest_processed_block_count =
        min p.new_highest_processed_block_count resp.highest_processed_block_count;
    request_multiplier = next_multiplier p.request_multiplier;
    dead_rng_set = dead_rngs (rngs_of p) p.request_multiplier s'.rngs;
  }

  pub take_response-Ingested :
      (p : Going) (resp : QueryResponse) (connection : c.State)
      → (records : List TxOutRecord) × (errs : List (RecoveryError BoxError TxOutRecord))
        × (s' : UserRngSet) × (take_response BoxError DecodeError TxOutRecord core k d c p resp
              connection
            ≡ some (received p resp records errs s' connection))
        × Ingested core d resp.tx_out_search_results p.polled.user_rng_set records errs s'
  unfolding take_response
  take_response-Ingested p resp connection =
      let (records, errs, s', run, ingested) =
        ingest_tx_out_search_results-Ingested core d resp.tx_out_search_results
          p.polled.user_rng_set in
      (records, errs, s', rw (run, take_response) refl, ingested)

  module _ (Stored : Bytes → Type 0) where
    abbrev pub IsServed : QueryResponse → Type 0
    IsServed resp =
        (key ciphertext : Bytes) → IsFound resp.tx_out_search_results key ciphertext → Stored key

    -- Whatever it is asked, the server finds only keys that are stored.
    abbrev pub Serves : Type 0
    Serves =
        (start_from_user_event_id start_from_block_index : ℕ) (search_keys : List Bytes)
        (connection : c.State)
        → Holds IsServed
            (c.request start_from_user_event_id start_from_block_index search_keys connection).0

    -- What a response leaves to do.
    abbrev Left : Going → ℕ → Going → Type 0
    Left p total p' =
        ((0 < p'.request_multiplier) × (p'.request_multiplier ≤ 1000))
        × Unique (rngs_of p')
        × (total' : ℕ) × (total' ≤ total)
        × Dry core Stored total' (rngs_of p')
        × ((length p'.dead_rng_set ≡ length (rngs_of p')) ⊎ (total' < total))

    took :
        (p : Going) (total : ℕ) (resp : QueryResponse) (connection : c.State)
        → 0 < p.request_multiplier
        → p.request_multiplier ≤ 1000
        → Unique (rngs_of p)
        → Dry core Stored total (rngs_of p)
        → ((key ciphertext : Bytes)
            → IsFound resp.tx_out_search_results key ciphertext
            → Stored key)
        → (p' : Going) × (take_response BoxError DecodeError TxOutRecord core k d c p resp
              connection
            ≡ some p')
          × Left p total p'
    unfolding get
    took p total resp connection lo hi u dry stored =
        let (records, errs, s', run, ingested) = take_response-Ingested p resp connection in
        let m = (sort_results BoxError TxOutRecord resp.tx_out_search_results ([], [])).0 in
        let (total', le, dry', outcome) =
          round-Further core Stored d p.request_multiplier m ingested.left (rngs_of p) s'.rngs total
            lo hi
            (λ key x g.
              elim (sort_results-get BoxError TxOutRecord resp.tx_out_search_results ([], []) key x
                g) [ inl bad ↦ let no : none ≡ some x = bad in cc | inr f ↦ stored key x f ])
            u ingested.moved dry in
        (
          received p resp records errs s' connection,
          run,
          (
            next_multiplier-range p.request_multiplier lo hi,
            AllMoved-Unique core d m ingested.left (rngs_of p) s'.rngs ingested.moved u,
            total',
            le,
            dry',
            outcome,
          ),
        )

    still :
        {dead alive dead' alive' : ℕ} (total total' fuel : ℕ)
        → dead < alive
        → (total + 2 ≤ suc fuel) ⊎ ((dead ≡ alive) × (1 ≤ suc fuel))
        → (dead' ≡ alive') ⊎ (total' < total)
        → (total' + 2 ≤ fuel) ⊎ ((dead' ≡ alive') × (1 ≤ fuel))
    still total total' fuel lt (inr (e, h)) outcome = absurd (omega (arith, e, lt))
    still total total' fuel lt (inl h) (inl e) = inr (e, omega (arith, h))
    still total total' fuel lt (inl h) (inr l) = inl (omega (arith, h, l))

    abbrev failed_poll : Going → c.Error → Polled BoxError DecodeError TxOutRecord core k d c
    failed_poll p x = record p.polled {
      errs = p.polled.errs ++ (conn x ∷ []);
      connection = (send_request BoxError DecodeError TxOutRecord core k d c p).1;
    }

    -- With two rounds more than the outputs that the server has, the loop ends.
    rounds-end :
        (fuel : ℕ) (p : Going) (total : ℕ)
        → Serves
        → (0 < p.request_multiplier) × (p.request_multiplier ≤ 1000)
        → Unique (rngs_of p)
        → Dry core Stored total (rngs_of p)
        → (total + 2 ≤ fuel) ⊎ ((length p.dead_rng_set ≡ length (rngs_of p)) × (1 ≤ fuel))
        → (polled : Polled BoxError DecodeError TxOutRecord core k d c) × (rounds BoxError
              DecodeError TxOutRecord core k d c fuel p
            ≡ some polled)
    unfolding rounds
    rounds-end zero p total serves range u dry enough =
        absurd (elim enough [ inl h ↦ omega (arith, h) | inr (e, h) ↦ omega (arith, h) ])
    rounds-end (suc fuel) p total serves (lo, hi) u dry enough =
        elim (Bool-cases (leb (length (rngs_of p)) (length p.dead_rng_set))) [
          | inl e ↦ (finish_poll BoxError DecodeError TxOutRecord core k d c p, rw (e, rounds) refl)
          | inr e ↦
              elim (Result-cases (send_request BoxError DecodeError TxOutRecord core k d c p).0) [
                | inr (x, f) ↦ (failed_poll p x, rw (e, f, rounds) refl)
                | inl (resp, f) ↦
                    let (p', run, (range', u', total', le, dry', outcome)) =
                      took p total resp
                        (send_request BoxError DecodeError TxOutRecord core k d c p).1 lo hi u dry
                        (of_Holds IsServed
                          (serves no_events p.polled.user_rng_set.highest_processed_block_count
                            (search_keys BoxError DecodeError TxOutRecord core k d c p)
                            p.polled.connection)
                          f) in
                    let (polled, rest) =
                      rounds-end fuel p' total' serves range' u' dry'
                        (still total total' fuel (leb→lt _ _ e) enough outcome) in
                    (polled, rw (e, f, run, rounds) rest)
              ]
        ]

    -- A poll returns, whatever the server answers and whatever its state, if it finds only keys that
    -- are stored and each generator of the client, the new ones too, comes to an output that is not.
    -- `total` is how far they can advance together, and two rounds more are enough.
    pub poll-ends :
        (fuel : ℕ) (upriv : k.Private) (s : UserRngSet) (connection : c.State) (total : ℕ)
        → Serves
        → Unique s.rngs
        → Holds
            (λ resp. Dry core Stored total (first_rngs upriv s resp))
            (c.request s.next_start_from_user_event_id s.highest_processed_block_count []
              connection).0
        → total + 2 ≤ fuel
        → (polled : Polled BoxError DecodeError TxOutRecord core k d c) × (poll BoxError DecodeError
              TxOutRecord core k d c fuel upriv s connection
            ≡ some polled)
    unfolding poll first_poll
    poll-ends fuel upriv s connection total serves u dry enough =
        let answer =
          c.request s.next_start_from_user_event_id s.highest_processed_block_count [] connection in
        elim (Result-cases answer.0) [
          | inr (x, f) ↦ (
            record { records = []; errs = conn x ∷ []; user_rng_set = s; connection = answer.1 },
            rw (f, poll) refl,
          )
          | inl (resp, f) ↦
              let p =
                first_poll BoxError DecodeError TxOutRecord core k d c upriv s resp answer.1 in
              let (polled, run) =
                rounds-end fuel p total serves (omega arith, omega arith)
                  (records-Unique upriv resp.rng_records s [] u)
                  (of_Holds (λ r. Dry core Stored total (first_rngs upriv s r)) dry f)
                  (inl enough) in
              elim (Bool-cases (
                leb p.new_highest_processed_block_count
                  p.polled.user_rng_set.highest_processed_block_count)) [
                    | inl e ↦ (record p.polled { records = []; errs = [] }, rw (f, e, poll) refl)
                    | inr e ↦ (polled, rw (f, e, poll) run)
                  ]
        ]
