-- ===== src/Recovery/Sql/Unambiguous.antt =====
-- fog/sql_recovery_db/src/lib.rs: the lookups that expect one row at most.
use fog.Prelude.{
  ℕ, ◌≡◌, refl, true, false, Option, none, some, List, [], ◌∷◌, map, Bool-cases, inl, inr, arith,
}
use fog.Prelude.Queries.{any, filter}
use fog.Prelude.Rows.{Distinct, filter-empty}
use fog.Prelude.Result.{ok, err, ◌>>=◌}
use fog.Recovery.IngressKey.{PublicKey, IngressPublicKeyStatus}
use fog.Recovery.Sql.Wire.{Wire}
use fog.Recovery.Sql.Tables.{IngressKey, IngestedBlock, Db, Error, decode, block_conflict}
use fog.Recovery.Sql.Keys.{is_key, status_of, only_status, get_ingress_key_status}
use fog.Recovery.Sql.Blocks.{
  ETxOutRecord, at_key_and_block, only_row, read, records_of, get_invocation_id_by_block_and_key,
  get_tx_outs_by_block_and_key,
}
use fog.Recovery.Sql.Consistency.{key_conflict}
use fog.Recovery.Sql.History.{Reach, Reach-IsConsistent}

no_other_key :
    (key : PublicKey) (r : IngressKey) (rows : List IngressKey)
    → is_key key r ≡ true
    → any (λ s. key_conflict s r) rows ≡ false
    → any (is_key key) rows ≡ false
unfolding any
no_other_key key r [] e h = refl
no_other_key key r (s ∷ rows) e h = ground (arith, no_other_key key r rows e)

no_other_block :
    (key : PublicKey) (b : ℕ) (r : IngestedBlock) (rows : List IngestedBlock)
    → at_key_and_block key b r ≡ true
    → any (λ s. block_conflict s r) rows ≡ false
    → any (at_key_and_block key b) rows ≡ false
unfolding any
no_other_block key b r [] e h = refl
no_other_block key b r (s ∷ rows) e h = ground (arith, no_other_block key b r rows e)

one_status :
    (key : PublicKey) (rows : List IngressKey)
    → Distinct key_conflict rows
    → (st : Option IngressPublicKeyStatus) × (only_status key (filter (is_key key) rows) ≡ ok st)
unfolding filter
one_status key [] d = (none, refl)
one_status key (r ∷ rows) d = elim (Bool-cases (is_key key r)) [
  | inl e ↦ (
    some (status_of r),
    rw (e, filter-empty (is_key key) rows (no_other_key key r rows e d.0)) refl,
  )
  | inr e ↦ rw e (one_status key rows d.1)
]

one_block :
    (key : PublicKey) (b : ℕ) (rows : List IngestedBlock)
    → Distinct block_conflict rows
    → (iid : Option ℕ) × (only_row b
          (map (λ r. r.ingest_invocation_id) (filter (at_key_and_block key b) rows))
        ≡ ok iid)
unfolding filter
one_block key b [] d = (none, refl)
one_block key b (r ∷ rows) d = elim (Bool-cases (at_key_and_block key b r)) [
  | inl e ↦ (
    some r.ingest_invocation_id,
    rw (e, filter-empty (at_key_and_block key b) rows (no_other_block key b r rows e d.0)) refl,
  )
  | inr e ↦ rw e (one_block key b rows d.1)
]

one_row :
    (key : PublicKey) (b : ℕ) (rows : List IngestedBlock)
    → Distinct block_conflict rows
    → (row : Option IngestedBlock) × (only_row b (filter (at_key_and_block key b) rows) ≡ ok row)
unfolding filter
one_row key b [] d = (none, refl)
one_row key b (r ∷ rows) d = elim (Bool-cases (at_key_and_block key b r)) [
  | inl e ↦ (
    some r,
    rw (e, filter-empty (at_key_and_block key b) rows (no_other_block key b r rows e d.0)) refl,
  )
  | inr e ↦ rw e (one_row key b rows d.1)
]

read-decode :
    {A : Type 0} (o : Option A) (e : Error) → (read o >>= λ a. ok (some a)) ≡ err e → e ≡ decode
read-decode none e h = cc
read-decode (some a) e h = cc

records_of-decode :
    (w : Wire (List ETxOutRecord)) (row : Option IngestedBlock) (e : Error)
    → records_of w row ≡ err e
    → e ≡ decode
records_of-decode w none e h = cc
records_of-decode w (some b) e h = read-decode (w.decode b.proto_ingested_block_data) e h

-- In every database that the operations reach from the empty one, `get_ingress_key_status` and
-- `get_invocation_id_by_block_and_key` do not fail, and `get_tx_outs_by_block_and_key` fails only when
-- the stored bytes of the block cannot be decoded: these three never report a schema violation.
pub Reach_unambiguous :
    {VerificationReport : Type 0} (v : Wire VerificationReport) {w : Wire (List ETxOutRecord)}
    {db : Db} (key : PublicKey) (b : ℕ)
    → Reach v w db
    → ((st : Option IngressPublicKeyStatus) × (get_ingress_key_status key db ≡ ok st))
      × ((iid : Option ℕ) × (get_invocation_id_by_block_and_key key b db ≡ ok iid))
      × ((e : Error) → get_tx_outs_by_block_and_key w key b db ≡ err e → e ≡ decode)
unfolding get_ingress_key_status get_invocation_id_by_block_and_key get_tx_outs_by_block_and_key
Reach_unambiguous v {w = w} {db = db} key b r =
    let c = Reach-IsConsistent v r in
    let (row, found) = one_row key b db.ingested_blocks c.blocks in
    (
      one_status key db.ingress_keys c.keys,
      one_block key b db.ingested_blocks c.blocks,
      λ e h. records_of-decode w row e (rw found at h),
    )
