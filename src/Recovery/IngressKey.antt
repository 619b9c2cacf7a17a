-- ===== src/Recovery/IngressKey.antt =====
-- fog/recovery_db_iface/src/types.rs: ingress key records and ingestable ranges. A
-- `CompressedRistrettoPublic` is 32 bytes that are only compared for equality; it is read as a number.
pub mod Ranges
use fog.Prelude.{ℕ, Bool, true, false, not, ◌&&◌, ◌||◌, Option, none, some, leb, ltb, if◌then◌else◌}
use fog.Prelude.Words.{add64}

abbrev pub PublicKey : Type 0
PublicKey = ℕ

pub record IngressPublicKeyStatus : Type 0 where
  pub start_block : ℕ
  pub pubkey_expiry : ℕ
  pub retired : Bool
  pub lost : Bool

pub record IngressPublicKeyRecord : Type 0 where
  pub key : PublicKey
  pub status : IngressPublicKeyStatus
  pub last_scanned_block : Option ℕ

-- `last_scanned_block.map(|idx| block_index <= idx).unwrap_or(false)`
abbrev pub at_most_last : Option ℕ → ℕ → Bool
at_most_last none block_index = false
at_most_last (some idx) block_index = leb block_index idx

unfoldable pub covers_block_index : IngressPublicKeyRecord → ℕ → Bool
covers_block_index r block_index =
    if r.status.lost
    then leb r.status.start_block block_index && at_most_last r.last_scanned_block block_index
    else leb r.status.start_block block_index
      && (not r.status.retired || ltb block_index r.status.pubkey_expiry)

-- `last_scanned_block.map(|x| x + 1).unwrap_or(start_block)`
abbrev pub candidate : Option ℕ → ℕ → ℕ
candidate none start_block = start_block
candidate (some x) start_block = add64 x 1

unfoldable pub next_needed_block_index : IngressPublicKeyRecord → Option ℕ
next_needed_block_index r =
    let c = candidate r.last_scanned_block r.status.start_block in
    if covers_block_index r c then some c else none

pub record IngestableRange : Type 0 where
  pub id : ℕ
  pub start_block : ℕ
  pub decommissioned : Bool
  pub last_ingested_block : Option ℕ

abbrev reaches : Option ℕ → ℕ → Bool
reaches none block = false
reaches (some last_ingested_block) block = leb block last_ingested_block

unfoldable pub can_provide_block : IngestableRange → ℕ → Bool
can_provide_block r block =
    if ltb block r.start_block
    then false
    else if r.decommissioned
    then reaches r.last_ingested_block block
    else true
