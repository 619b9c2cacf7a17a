-- ===== src/Ingest/Activation/Ready.antt =====
-- fog/ingest/server/src/controller.rs: the state that an activation leaves.
use fog.Prelude.{
  ℕ, ◌≤◌, ◌≡◌, refl, ap, sym, subst, true, false, ◌&&◌, Option, ◌⊎◌, inl, inr, ltb, Bool-cases,
}
use fog.Prelude.Bytes.{Bytes}
use fog.Prelude.Lists.{All}
use fog.Prelude.Queries.{any}
use fog.Prelude.Result.{Result, ok, err}
use fog.Recovery.IngressKey.{PublicKey, IngressPublicKeyStatus}
use fog.Recovery.Sql.Wire.{Wire}
use fog.Recovery.Sql.Tables.{Db}
use fog.Recovery.Sql.Blocks.{at_key_and_block}
use fog.Ingest.ControllerState.{
  IngestControllerState, idle, active, is_idle_mode, is_active, set_active, set_mode,
  set_next_block_index,
}
use fog.Ingest.Activation.{
  ActivateError, key_already_retired, find_start_block, publish_report, finish, activate_key,
}
use fog.Ingest.Activation.Start.{IsSmall, find_start_block-Unscanned}

-- An error in the idle mode, or the active mode and a next block that the key has not scanned.
abbrev pub IsReady :
    PublicKey → Db → Result ActivateError (Unit {0}) × IngestControllerState × Db → Type 0
IsReady key db (result, s, db') =
    ((e : ActivateError) × (result ≡ err e) × (s.mode ≡ idle))
    ⊎ ((result ≡ ok tt)
        × (s.mode ≡ active)
        × ((c : ℕ)
            → s.next_block_index ≤ c
            → any (at_key_and_block key c) db.ingested_blocks ≡ false))

set_next-idle :
    (b : ℕ) (s : IngestControllerState)
    → s.mode ≡ idle
    → (set_next_block_index b s).1 ≡ record s { next_block_index = b }
unfolding set_next_block_index
set_next-idle b s h = let i : is_idle_mode s.mode ≡ true = ap is_idle_mode h in rw i refl

module _ {VerificationReport : Type 0} (v : Wire VerificationReport) (id : ℕ) (report_id : Bytes)
    (ias_report : Option VerificationReport) (key : PublicKey) (n : ℕ) (db : Db) where
  finish-IsReady :
      (b : ℕ) (s : IngestControllerState) (published : IngressPublicKeyStatus × Db)
      → s.mode ≡ idle
      → ((c : ℕ) → s.next_block_index ≤ c → any (at_key_and_block key c) db.ingested_blocks ≡ false)
      → IsReady key db (finish v id report_id ias_report key b s published)
  unfolding set_active set_mode
  finish-IsReady b s (st, db1) i u = elim (Bool-cases (st.retired && ltb st.pubkey_expiry b)) [
    | inl e ↦ rw e (inl (key_already_retired key, refl, i))
    | inr e ↦ rw e (inr (refl, refl, u))
  ]

  after_publish :
      (b : ℕ) (s : IngestControllerState) (db1 : Db)
      (r : Result ActivateError (IngressPublicKeyStatus × Db))
      → s.mode ≡ idle
      → ((c : ℕ) → s.next_block_index ≤ c → any (at_key_and_block key c) db.ingested_blocks ≡ false)
      → IsReady key db (elim r [
        | err e ↦ (err e, s, db1)
        | ok published ↦ finish v id report_id ias_report key b s published
      ])
  after_publish b s db1 (ok published) i u = finish-IsReady b s published i u
  after_publish b s db1 (err e) i u = inl (e, refl, i)

  after_start :
      (s : IngestControllerState) (r : Result ActivateError (ℕ × Db))
      → s.mode ≡ idle
      → ((b c : ℕ) (db' : Db)
          → r ≡ ok (b, db')
          → b ≤ c
          → any (at_key_and_block key c) db.ingested_blocks ≡ false)
      → IsReady key db (elim r [
        | err e ↦ (err e, s, db)
        | ok found ↦
            let s1 = (set_next_block_index found.0 s).1 in
            elim (publish_report v id report_id ias_report key s1 found.1) [
              | err e ↦ (err e, s1, found.1)
              | ok published ↦ finish v id report_id ias_report key found.0 s1 published
            ]
      ])
  after_start s (err e) i u = inl (e, refl, i)
  after_start s (ok (b, db1)) i u =
      subst
        (λ s1. IsReady key db (elim (publish_report v id report_id ias_report key s1 db1) [
          | err e ↦ (err e, s1, db1)
          | ok published ↦ finish v id report_id ias_report key b s1 published
        ]))
        (sym (set_next-idle b s i))
        (after_publish b (record s { next_block_index = b }) db1
          (publish_report v id report_id ias_report key (record s { next_block_index = b }) db1) i
          (λ c le. u b c db1 refl le))

  -- For a server that is idle and a database whose block numbers are below 2^63 - 1: activating a
  -- key either fails and leaves the server idle, or it makes the server active, and no block from
  -- its next block index on was recorded with the key before.
  pub activate_key-IsReady :
      (s : IngestControllerState)
      → s.mode ≡ idle
      → All IsSmall db.ingested_blocks
      → IsReady key db (activate_key v id report_id ias_report key n s db)
  unfolding activate_key is_active
  activate_key-IsReady s i small =
      let not_active : is_idle_mode s.mode ≡ true = ap is_idle_mode i in
      rw not_active
        (after_start s (find_start_block key n db) i (find_start_block-Unscanned key n db small))
