-- ===== src/View/Polling.antt =====
-- fog/view/protocol/src/polling.rs: the client's poll of a view server. What answers `request` is a
-- parameter with a state of its own; an event id is the 64 bits of an `i64`.
pub mod Round
pub mod Ends
pub mod Asked
pub mod Landed
pub mod Sound
pub mod Complete
use fog.Prelude.{
  ℕ, zero, suc, ◌-◌, ◌^◌, min, Bool, true, Option, none, some, List, [], ◌∷◌, ◌++◌, map, ltb, leb,
  if◌then◌else◌,
}
use fog.Prelude.Words.{add64, mul64}
use fog.Prelude.Bytes.{Bytes, bytes_eq, bytes_beq}
use fog.Prelude.Lists.{length}
use fog.Prelude.Map.{Map, get}
use fog.Prelude.Queries.{any, filter}
use fog.Prelude.Result.{Result, ok, err}
use fog.KexRng.Core.{KexRngCore, Kex, KeyError}
use fog.KexRng.Buffered.{VersionedKexRng, inner, index, take_outputs}
use fog.Recovery.Sql.Events.{RngRecord}
use fog.View.Query.{QueryResponse}
use fog.View.UserRngSet.{
  UserRngSet, RecoveryError, Decryption, ingest_rng_record, ingest_tx_out_search_results,
}

-- `i64::MAX`
abbrev no_events : ℕ
no_events = 2 ^ 63 - 1

-- trait FogViewConnection, with the state of the connection and of what is behind it.
pub record FogViewConnection : Type 1 where
  pub State : Type 0
  pub Error : Type 0
  pub request : ℕ → ℕ → List Bytes → State → Result Error QueryResponse × State

pub data TxOutPollingError (ConnError DecodeError Recovery : Type 0) : Type 0 where
  conn : ConnError → TxOutPollingError ConnError DecodeError Recovery
  tx_out_recovery : Recovery → TxOutPollingError ConnError DecodeError Recovery
  prost_decode : DecodeError → TxOutPollingError ConnError DecodeError Recovery
  key_error : KeyError → TxOutPollingError ConnError DecodeError Recovery

-- The outputs that the generators that are not dead would give next.
abbrev pub keys_of : KexRngCore → ℕ → List Bytes → Map Bytes VersionedKexRng → List Bytes
keys_of core multiplier dead [] = []
keys_of core multiplier dead ((nonce, rng) ∷ rngs) =
    (if any (bytes_beq nonce) dead then [] else take_outputs core multiplier (inner rng))
    ++ keys_of core multiplier dead rngs

-- Whether a generator advanced by fewer outputs than were asked for.
unfoldable pub is_dead : Map Bytes VersionedKexRng → ℕ → Bytes × VersionedKexRng → Bool
is_dead old_rngs multiplier (nonce, rng) = elim (get old_rngs nonce) [
  | none ↦ true
  | some old ↦ ltb (index (inner rng)) (add64 (index (inner old)) multiplier)
]

unfoldable pub dead_rngs : Map Bytes VersionedKexRng → ℕ → Map Bytes VersionedKexRng → List Bytes
dead_rngs old_rngs multiplier rngs = map (λ e. e.0) (filter (is_dead old_rngs multiplier) rngs)

unfoldable pub next_multiplier : ℕ → ℕ
next_multiplier multiplier =
    let doubled = mul64 multiplier 2 in if leb 1000 doubled then 1000 else doubled

module _ (BoxError DecodeError TxOutRecord : Type 0) (core : KexRngCore) (k : Kex)
    (d : Decryption BoxError TxOutRecord) (c : FogViewConnection) where
  abbrev pub PollingError : Type 0
  PollingError = TxOutPollingError c.Error DecodeError (RecoveryError BoxError TxOutRecord)

  -- What `poll` returns, with the set that it changes and the state of the connection.
  pub record Polled : Type 0 where
    pub records : List TxOutRecord
    pub errs : List PollingError
    pub user_rng_set : UserRngSet
    pub connection : c.State

  -- The variables of the loop.
  pub record Poll : Type 0 where
    pub polled : Polled
    pub new_highest_processed_block_count : ℕ
    pub request_multiplier : ℕ
    pub dead_rng_set : List Bytes

  abbrev pub recorded :
      Result (RecoveryError BoxError TxOutRecord) UserRngSet → UserRngSet → UserRngSet
  recorded (ok s') s = s'
  recorded (err e) s = s

  abbrev failed : Result (RecoveryError BoxError TxOutRecord) UserRngSet → List PollingError
  failed (ok s') = []
  failed (err e) = tx_out_recovery e ∷ []

  -- The loop over the rng records.
  unfoldable pub ingest_rng_records :
      k.Private → List RngRecord → UserRngSet × List PollingError → UserRngSet × List PollingError
  ingest_rng_records upriv [] (s, errs) = (s, errs)
  ingest_rng_records upriv (r ∷ rs) (s, errs) =
      let result = ingest_rng_record BoxError TxOutRecord core k upriv r.pubkey s in
      ingest_rng_records upriv rs (recorded result s, errs ++ failed result)

  -- The search keys of a round.
  abbrev pub search_keys : Poll → List Bytes
  search_keys p = keys_of core p.request_multiplier p.dead_rng_set p.polled.user_rng_set.rngs

  -- What a round does with a response.
  unfoldable pub take_response : Poll → QueryResponse → c.State → Option Poll
  take_response p resp connection =
      elim (ingest_tx_out_search_results BoxError TxOutRecord core d resp.tx_out_search_results
        p.polled.user_rng_set) [
          | none ↦ none
          | some ((results, errs), s') ↦ some (record {
            polled = record {
              records = p.polled.records ++ results;
              errs = p.polled.errs ++ map tx_out_recovery errs;
              user_rng_set = s';
              connection = connection;
            };
            new_highest_processed_block_count =
                min p.new_highest_processed_block_count resp.highest_processed_block_count;
            request_multiplier = next_multiplier p.request_multiplier;
            dead_rng_set = dead_rngs p.polled.user_rng_set.rngs p.request_multiplier s'.rngs;
          })
        ]

  -- The request of a round, and what it changes in the connection.
  abbrev pub send_request : Poll → Result c.Error QueryResponse × c.State
  send_request p =
      c.request no_events p.polled.user_rng_set.highest_processed_block_count (search_keys p)
        p.polled.connection

  -- After the loop: the count is not set back.
  unfoldable pub finish_poll : Poll → Polled
  finish_poll p =
      let s = p.polled.user_rng_set in
      let count = p.new_highest_processed_block_count in
      record p.polled {
        user_rng_set =
            if ltb s.highest_processed_block_count count
            then record s { highest_processed_block_count = count }
            else s;
      }

  -- The loop, with fuel for its rounds; `none` would be a loop that goes on.
  unfoldable pub rounds : ℕ → Poll → Option Polled
  rounds zero p = none
  rounds (suc fuel) p =
      if leb (length p.polled.user_rng_set.rngs) (length p.dead_rng_set)
      then some (finish_poll p)
      else let (answer, connection) = send_request p in
        elim answer [
          | err e ↦
              some
                (record p.polled { errs = p.polled.errs ++ (conn e ∷ []); connection = connection })
          | ok resp ↦ elim (take_response p resp connection) [
            | none ↦ none
            | some p' ↦ rounds fuel p'
          ]
        ]

  -- The variables before the first round.
  unfoldable pub first_poll : k.Private → UserRngSet → QueryResponse → c.State → Poll
  first_poll upriv s resp connection =
      let (s', errs) = ingest_rng_records upriv resp.rng_records (s, []) in
      record {
        polled = record {
          records = [];
          errs = errs;
          user_rng_set = record s' {
            next_start_from_user_event_id = resp.next_start_from_user_event_id;
          };
          connection = connection;
        };
        new_highest_processed_block_count = resp.highest_processed_block_count;
        request_multiplier = 2;
        dead_rng_set = [];
      }

  unfoldable pub poll : ℕ → k.Private → UserRngSet → c.State → Option Polled
  poll fuel upriv s connection =
      let (answer, connection') =
        c.request s.next_start_from_user_event_id s.highest_processed_block_count [] connection in
      elim answer [
        | err e ↦ some (record {
          records = [];
          errs = conn e ∷ [];
          user_rng_set = s;
          connection = connection';
        })
        | ok resp ↦
            let p = first_poll upriv s resp connection' in
            let rest = rounds fuel p in
            if leb p.new_highest_processed_block_count
              p.polled.user_rng_set.highest_processed_block_count
            then some (record p.polled { records = []; errs = [] })
            else rest
      ]
