-- ===== src/Ingest/ControllerState.antt =====
-- fog/ingest/server/src/controller_state.rs: the mode of an ingest server, and what may change in
-- which mode. A peer's URI is read as a number and a `BTreeSet` of them as a list without order.
pub mod Active
pub mod Peers
use fog.Prelude.{
  ℕ, Bool, true, false, not, ◌||◌, Option, none, some, List, [], ◌∷◌, ltb, ◌==◌, if◌then◌else◌,
}
use fog.Prelude.Words.{add64}
use fog.Prelude.Queries.{any, filter}
use fog.Prelude.Result.{Result, ok, err}

pub data IngestMode : Type 0 where
  idle active : IngestMode

pub record IngestControllerState : Type 0 where
  pub mode : IngestMode
  pub next_block_index : ℕ
  pub pubkey_expiry_window : ℕ
  pub ingest_invocation_id : Option ℕ
  pub peers : List ℕ

pub data StateChangeError : Type 0 where
  cannot_set_next_block_index : IngestMode → StateChangeError
  cannot_reduce_pubkey_expiry : IngestMode → ℕ → ℕ → StateChangeError

-- The two values that are read of the configuration are arguments.
unfoldable pub new : List ℕ → ℕ → IngestControllerState
new config_peers config_pubkey_expiry_window = record {
  mode = idle;
  next_block_index = 0;
  pubkey_expiry_window = config_pubkey_expiry_window;
  ingest_invocation_id = none;
  peers = config_peers;
}

abbrev pub is_idle_mode : IngestMode → Bool
is_idle_mode idle = true
is_idle_mode active = false

unfoldable pub is_idle : IngestControllerState → Bool
is_idle s = is_idle_mode s.mode

unfoldable pub is_active : IngestControllerState → Bool
is_active s = not (is_idle_mode s.mode)

unfoldable pub set_mode : IngestMode → IngestControllerState → IngestControllerState
set_mode mode s = record s { mode = mode }

unfoldable pub set_active : IngestControllerState → IngestControllerState
set_active s = set_mode active s

unfoldable pub set_idle : IngestControllerState → IngestControllerState
set_idle s = set_mode idle s

-- `none` is the panic of the assertion.
unfoldable pub increment_next_block_index : IngestControllerState → Option IngestControllerState
increment_next_block_index s =
    if not (is_idle s)
    then some (record s { next_block_index = add64 s.next_block_index 1 })
    else none

unfoldable pub set_next_block_index :
    ℕ → IngestControllerState → Result StateChangeError (Unit {0}) × IngestControllerState
set_next_block_index new_val s =
    if is_idle_mode s.mode
    then (ok tt, record s { next_block_index = new_val })
    else (err (cannot_set_next_block_index s.mode), s)

unfoldable pub set_pubkey_expiry_window :
    ℕ → IngestControllerState → Result StateChangeError (Unit {0}) × IngestControllerState
set_pubkey_expiry_window val s =
    if is_idle_mode s.mode
    then (ok tt, record s { pubkey_expiry_window = val })
    else if ltb val s.pubkey_expiry_window
    then (err (cannot_reduce_pubkey_expiry s.mode s.pubkey_expiry_window val), s)
    else (ok tt, record s { pubkey_expiry_window = val })

unfoldable pub set_ingest_invocation_id : Option ℕ → IngestControllerState → IngestControllerState
set_ingest_invocation_id val s = record s { ingest_invocation_id = val }

-- `BTreeSet::difference`
abbrev pub difference : List ℕ → List ℕ → List ℕ
difference xs ys = filter (λ x. not (any (λ y. y == x) ys)) xs

abbrev pub is_empty : List ℕ → Bool
is_empty [] = true
is_empty (x ∷ xs) = false

unfoldable pub set_peers : List ℕ → IngestControllerState → IngestControllerState
set_peers new_peers s =
    if not (is_empty (difference new_peers s.peers))
      || not (is_empty (difference s.peers new_peers))
    then record s { peers = new_peers }
    else s

-- The protobuf object, in which an id that is not set is 0.
pub record IngestSummary : Type 0 where
  pub mode : IngestMode
  pub next_block_index : ℕ
  pub pubkey_expiry_window : ℕ
  pub ingest_invocation_id : ℕ
  pub peers : List ℕ

abbrev pub id_or_zero : Option ℕ → ℕ
id_or_zero none = 0
id_or_zero (some iid) = iid

unfoldable pub get_ingest_summary : IngestControllerState → IngestSummary
get_ingest_summary s = record {
  mode = s.mode;
  next_block_index = s.next_block_index;
  pubkey_expiry_window = s.pubkey_expiry_window;
  ingest_invocation_id = id_or_zero s.ingest_invocation_id;
  peers = s.peers;
}
