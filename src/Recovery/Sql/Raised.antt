-- ===== src/Recovery/Sql/Raised.antt =====
-- fog/sql_recovery_db/src/lib.rs, `set_report`: the rows that its update and its insertion leave.
use fog.Prelude.{
  some, ℕ, ◌<◌, ◌^◌, Bool, true, false, not, List, [], ◌∷◌, ◌≡◌, ◌≢◌, refl, ap, ◌++◌, ltb, ltb→lt,
  ltb→le, max, ◌&&◌, Bool-cases, inl, inr, arith, if◌then◌else◌, ==→eq, ◌∙◌, sym,
}
use fog.Prelude.Bytes.{Bytes, bytes_beq_iff}
use fog.Prelude.Lists.{In, here, In-append_right}
use fog.Prelude.Result.{ok}
use fog.Prelude.Queries.{any, bigint_lt, bigint_lt_small, filter, update}
use fog.Prelude.Rows.{
  filter-and, filter-update, update-none, filter-head, any_none, filter-any, In-update,
}
use fog.Recovery.IngressKey.{PublicKey}
use fog.Recovery.Sql.Keys.{is_key, status_of, get_ingress_key_status}
use fog.Recovery.Sql.Reports.{
  can_raise, raise, updated_status, is_report, overwrite, report_refers, upsert_row, upsert_report,
}
use fog.Recovery.Sql.Tables.{IngressKey, Report, Db, varchar}

-- The row after the report: an expiry that only rises, and not at all when the key is retired.
abbrev pub raised : ℕ → IngressKey → IngressKey
raised n r = record r {
  pubkey_expiry = if r.retired then r.pubkey_expiry else max r.pubkey_expiry n;
}

abbrev pub raised_db : PublicKey → ℕ → Db → Db
raised_db key n db = record db { ingress_keys = update (can_raise key n) (raise n) db.ingress_keys }

raise-if :
    (b : Bool) (n : ℕ) (row : IngressKey)
    → (if b then raise n row else row)
      ≡ record row { pubkey_expiry = if b then n else row.pubkey_expiry }
raise-if true n row = refl
raise-if false n row = refl

expiry-raised :
    (retired : Bool) (old n : ℕ)
    → old < 2 ^ 63
    → n < 2 ^ 63
    → (if not retired && bigint_lt old n then n else old) ≡ (if retired then old else max old n)
expiry-raised true old n h k = refl
expiry-raised false old n h k = rw (bigint_lt_small old n h k) (elim (Bool-cases (ltb old n)) [
  | inl l ↦ rw l (omega (arith, ltb→lt old n l))
  | inr l ↦ rw l (omega (arith, ltb→le old n l))
])

module _ (key : PublicKey) (n : ℕ) (small : n < 2 ^ 63) where
  -- One row under the condition of the update.
  raise-raised :
      (row : IngressKey)
      → row.pubkey_expiry < 2 ^ 63
      → is_key key row ≡ true
      → update (can_raise key n) (raise n) (row ∷ []) ≡ raised n row ∷ []
  unfolding update
  raise-raised row small_row own = rw own (
      ap (λ r. r ∷ [])
        (raise-if (not row.retired && bigint_lt row.pubkey_expiry n) n row
          ∙ ap (λ m. record row { pubkey_expiry = m })
              (expiry-raised row.retired row.pubkey_expiry n small_row small)))

  pub raised-own :
      (db : Db) (row : IngressKey)
      → row.pubkey_expiry < 2 ^ 63
      → filter (is_key key) db.ingress_keys ≡ row ∷ []
      → filter (is_key key) (raised_db key n db).ingress_keys ≡ raised n row ∷ []
  raised-own db row small_row one =
      rw (filter-update (is_key key) (can_raise key n) (raise n) db.ingress_keys (λ r. refl), one)
        (raise-raised row small_row (filter-head (is_key key) db.ingress_keys row [] one))

  pub raised-other :
      (db : Db) (other : PublicKey)
      → other ≢ key
      → filter (is_key other) (raised_db key n db).ingress_keys
        ≡ filter (is_key other) db.ingress_keys
  raised-other db other ne =
      rw (filter-update (is_key other) (can_raise key n) (raise n) db.ingress_keys (λ r. refl)) (
        update-none (can_raise key n) (raise n) (filter (is_key other) db.ingress_keys) (
          any_none (is_key other) (can_raise key n) db.ingress_keys (λ r h.
            ground (arith, ==→eq r.ingress_public_key other, ==→eq r.ingress_public_key key))))

  -- The status that the operation goes on with.
  pub updated-raised :
      (db : Db) (row : IngressKey)
      → row.pubkey_expiry < 2 ^ 63
      → filter (is_key key) db.ingress_keys ≡ row ∷ []
      → updated_status key
          (raised_db key n db)
          (update (λ _. true) (raise n) (filter (can_raise key n) db.ingress_keys))
        ≡ ok (status_of (raised n row))
  unfolding update filter get_ingress_key_status
  updated-raised db row small_row one =
      elim (Bool-cases (not row.retired && bigint_lt row.pubkey_expiry n)) [
        | inl e ↦
            rw
              (
                filter-and (is_key key) (λ r. not r.retired && bigint_lt r.pubkey_expiry n)
                    db.ingress_keys,
                one,
                e,
              )
              (ap (λ m. ok (status_of (record row { pubkey_expiry = m })))
                (sym (ap (λ b. if b then n else row.pubkey_expiry) e)
                  ∙ expiry-raised row.retired row.pubkey_expiry n small_row small))
        | inr e ↦
            rw
              (
                filter-and (is_key key) (λ r. not r.retired && bigint_lt r.pubkey_expiry n)
                    db.ingress_keys,
                one,
                e,
                raised-own db row small_row one,
              )
              refl
      ]

  pub retired-db :
      (db : Db) (row : IngressKey)
      → filter (is_key key) db.ingress_keys ≡ row ∷ []
      → row.retired ≡ true
      → raised_db key n db ≡ db
  unfolding filter
  retired-db db row one r =
      ap (λ rows. record db { ingress_keys = rows })
        (update-none (can_raise key n) (raise n) db.ingress_keys (
          filter-any (can_raise key n) db.ingress_keys (
            rw
              (
                filter-and (is_key key) (λ r'. not r'.retired && bigint_lt r'.pubkey_expiry n)
                    db.ingress_keys,
                one,
                r,
              )
              refl)))

  upsert_row-Stored :
      (new : Report) (db : Db)
      → report_refers new db ≡ true
      → (rows : List Report) × (upsert_row new db ≡ ok (record db { reports = rows }))
        × (r : Report) × In r rows
        × (is_report new.fog_report_id r ≡ true)
        × (r.report ≡ new.report)
        × (r.ingress_public_key ≡ new.ingress_public_key)
        × (r.pubkey_expiry ≡ new.pubkey_expiry)
  unfolding upsert_row
  upsert_row-Stored new db refs = elim (Bool-cases (any (is_report new.fog_report_id) db.reports)) [
    | inl e ↦
        let (y, q, i) = In-update (is_report new.fog_report_id) (overwrite new) db.reports e in
        (
          update (is_report new.fog_report_id) (overwrite new) db.reports,
          rw (refs, e) refl,
          overwrite new y,
          i,
          q,
          refl,
          refl,
          refl,
        )
    | inr e ↦ (
      db.reports ++ (new ∷ []),
      rw (refs, e) refl,
      new,
      In-append_right db.reports (new ∷ []) (here refl),
      (bytes_beq_iff new.fog_report_id new.fog_report_id).1 refl,
      refl,
      refl,
      refl,
    )
  ]

  pub upsert-Stored :
      (new : Report) (stored : Bytes) (db : Db)
      → varchar 64 new.fog_report_id ≡ some stored
      → report_refers new db ≡ true
      → (rows : List Report) × (upsert_report new db ≡ ok (record db { reports = rows }))
        × (r : Report) × In r rows
        × (is_report stored r ≡ true)
        × (r.report ≡ new.report)
        × (r.ingress_public_key ≡ new.ingress_public_key)
        × (r.pubkey_expiry ≡ new.pubkey_expiry)
  unfolding upsert_report
  upsert-Stored new stored db fits refs =
      let (rows, run, r, i, named, bytes, key', expiry) =
        upsert_row-Stored (record new { fog_report_id = stored }) db refs in
      (rows, rw (fits, upsert_report) run, r, i, named, bytes, key', expiry)
