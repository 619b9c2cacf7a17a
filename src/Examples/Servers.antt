-- ===== src/Examples/Servers.antt =====
-- Runs of fog/ingest/server/src/controller_state.rs and of an activation.
use fog.Prelude.{ℕ, ◌≡◌, refl, false, some, none, [], ◌∷◌, arith}
use fog.Prelude.Queries.{any, filter, max_of}
use fog.Recovery.Sql.Keys.{get_ingress_key_status, get_last_scanned_block_index}
use fog.Recovery.Sql.Blocks.{at_key_and_block}
use fog.Ingest.ControllerState.{
  IngestControllerState, idle, active, set_peers, increment_next_block_index, is_idle,
  set_pubkey_expiry_window,
}
use fog.Ingest.ControllerState.Active.{Steps, start, windowed, incremented, IsRun, Steps-IsRun}
use fog.Ingest.ControllerState.Peers.{member, set_peers-member}
use fog.Ingest.Activation.{activate_key, find_start_block}
use fog.Ingest.Activation.Start.{find_start_block-Unscanned}
use fog.Ingest.Activation.Ready.{IsReady, activate_key-IsReady}
use fog.Examples.Databases.{small_db, bytes_wire}

abbrev state_in : ℕ → IngestControllerState
state_in b = record {
  mode = active;
  next_block_index = b;
  pubkey_expiry_window = 10;
  ingest_invocation_id = none;
  peers = 1 ∷ 2 ∷ [];
}

abbrev waiting : IngestControllerState
waiting = record (state_in 0) { mode = idle }

-- The window cannot be reduced while the server is active.
two_calls : Steps (state_in 7) (state_in 8) 1
unfolding set_pubkey_expiry_window increment_next_block_index is_idle
two_calls = incremented (windowed 5 start) refl

Steps-IsRun_example : IsRun (state_in 7) (state_in 8) 1
Steps-IsRun_example = Steps-IsRun refl two_calls

set_peers-member_example : member 3 (set_peers (2 ∷ 3 ∷ []) waiting).peers ≡ member 3 (2 ∷ 3 ∷ [])
set_peers-member_example = set_peers-member 3 (2 ∷ 3 ∷ []) waiting

find_start_block-Unscanned_example : any (at_key_and_block 5 14) small_db.ingested_blocks ≡ false
unfolding find_start_block get_ingress_key_status get_last_scanned_block_index filter max_of
find_start_block-Unscanned_example =
    find_start_block-Unscanned 5 3 small_db (omega arith, tt) 13 14 small_db refl (omega arith)

activate_key-IsReady_example :
    IsReady 5 small_db (activate_key bytes_wire 1 (8 ∷ []) (some (4 ∷ 2 ∷ [])) 5 3 waiting small_db)
activate_key-IsReady_example =
    activate_key-IsReady bytes_wire 1 (8 ∷ []) (some (4 ∷ 2 ∷ [])) 5 3 small_db waiting refl
      (omega arith, tt)
