-- ===== src/Lib.antt =====
-- Fog: private recovery of transactions for MobileCoin users.
--
-- An ingest server scans each block with an ingress key. Its enclave finds the user of every output,
-- encrypts the output and files it under the next output of a generator that the user can run too.
-- The records go through the recovery database to view servers, whose enclaves keep them in oblivious
-- maps, and the user's phone matches the answers with its own copies of the generators. The files:
--   * Recovery/IngressKey: fog/recovery_db_iface/src/types.rs, the rules of an ingress key (which
--     blocks it covers, which one it needs next) and of an ingestable range.
--   * Recovery/BlockRange: `BlockRange` of fog/fog_types/src/common.rs.
--   * Recovery/Sql: fog/sql_recovery_db, one function for each operation of `SqlRecoveryDb`. The
--     tables are lists of rows (`Db`), a failing transaction is an error and leaves them as they
--     were, and the UNIQUE and REFERENCES constraints of the migration are tests of the insertions.
--     A report id that is longer than its VARCHAR(64) column is an error, unless only spaces are cut off.
--     BIGINT columns hold the 64 bits of a number and are compared as signed ones. The ids that
--     BIGSERIAL columns take, the clock, the protobuf encoding (Recovery/Sql/Wire) and the
--     attestation report are arguments. Columns are named as in src/models.rs. An operation whose
--     name is also a row's or an event's has `_op` behind it.
--   * View/Tracker: fog/view/server/src/block_tracker.rs, which blocks the view server loads next and
--     up to where it has everything. Its loop adds one to the count in each round and stops at the
--     highest known count; its fuel is one more than the distance to it.
--   * View/DbFetcher: fog/view/server/src/db_fetcher.rs, the thread that loads blocks for the tracker of
--     View/Tracker, and the thread that takes them, as a step relation. A push and the update of the
--     tracker before it are one step, since the other thread does not see the tracker.
--   * View/TxOutStore: fog/view/enclave/impl/src/e_tx_out_store.rs, the padded records in the map.
--   * View/SearchResult and View/UserRngSet: fog/fog_types/src/view.rs and fog/view/protocol/src, how
--     a client matches search results with its generators. The loop that drains a generator runs on
--     fuel, one more than the results left, of which each round takes one away.
--   * KexRng: fog/kex_rng/src, the generator itself, how the two sides build it and how it is stored.
--   * Ingest/RngStore: fog/ingest/enclave/impl/src/rng_store.rs, the counters of the generators.
--   * Ingest/ControllerState: fog/ingest/server/src/controller_state.rs, the mode of an ingest server.
--   * Ingest/Activation: of fog/ingest/server/src/controller.rs, `activate` after the checks of the
--     peers, and `publish_report`, on the database of Recovery/Sql.
--   * View/Query and View/Polling: fog/fog_types/src/view.rs and fog/view/protocol/src/polling.rs, the
--     client's poll of a view server. Its rounds run on fuel: two rounds more than the outputs that the
--     generators can advance by before an output that is not stored are enough.
--   * Paykit: fog/sample-paykit/src/cached_tx_data. CachedTxData is the cache of the client's outputs
--     with the polls and the balance, KeyImages the answers of the key image server
--     (fog/ledger/connection/src/key_image.rs), InputSelection the choice of inputs. An assertion that
--     fails and a panic are `none`.
--   * Oram: fog/ocall_oram_storage. Storage is the enclave's side and Untrusted the other; ExtraMeta
--     is what stands behind the metadata of a block.
--   * Oblivious: what is used of the oblivious maps of another repository, as operations and laws.
--   * Prelude: numbers, tests, lists, maps, results, words, bytes, queries. Examples: runs and tests.
--
-- u64 arithmetic wraps, since the release profile has overflow checks off; where a theorem needs a
-- number not to wrap it says so. Hash functions, curves, encryption and oblivious maps are parameters
-- with laws. Not modelled: the rest of the ingest controller, the other threads of the servers, gRPC,
-- attestation, files, the ledger service, bindings and test tools; the connection pool and the
-- retries of the database; two database transactions at the same time.
pub mod Prelude
pub mod Recovery
pub mod View
pub mod KexRng
pub mod Oblivious
pub mod Ingest
pub mod Paykit
pub mod Oram
pub mod Examples
