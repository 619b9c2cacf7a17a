-- ===== src/Ingest/Activation/Start.antt =====
-- fog/ingest/server/src/controller.rs: where a server starts to scan when it is activated.
use fog.Prelude.{
  ℕ, ◌+◌, ◌^◌, ◌≤◌, ◌<◌, ◌≡◌, refl, sym, subst, Bool, true, false, Option, none, some, List, [],
  ◌∷◌, Bool-cases, inl, inr, ltb, ltb→lt, ltb→le, max, arith, ◌==◌,
}
use fog.Prelude.Lists.{All}
use fog.Prelude.Queries.{any, filter, max_of, bigint_max, bigint_lt_small}
use fog.Prelude.Result.{Result, ok, err, ◌>>=◌, map_err}
use fog.Recovery.IngressKey.{PublicKey, IngressPublicKeyStatus, candidate}
use fog.Recovery.Sql.Tables.{Db, Error, IngestedBlock}
use fog.Recovery.Sql.Keys.{
  get_ingress_key_status, get_last_scanned_block_index, new_ingress_key, scanned_with,
}
use fog.Recovery.Sql.Blocks.{get_highest_known_block_index, at_key_and_block}
use fog.Ingest.Activation.{database, count_of, created, start_of, find_start_block}

abbrev pub IsSmall : IngestedBlock → Type 0
IsSmall r = r.block_number + 1 < 2 ^ 63

abbrev AtMost : ℕ → List IngestedBlock → Type 0
AtMost m = All (λ r. r.block_number ≤ m)

AtMost-le : (m k : ℕ) (rows : List IngestedBlock) → m ≤ k → AtMost m rows → AtMost k rows
AtMost-le m k [] h a = tt
AtMost-le m k (r ∷ rows) h a = (omega (arith, h, a.0), AtMost-le m k rows h a.1)

-- What the maximum of the column says of the rows.
abbrev Bound : List IngestedBlock → Option ℕ → Type 0
Bound rows none = rows ≡ []
Bound rows (some m) = (m + 1 < 2 ^ 63) × AtMost m rows

max_step-Bound :
    (r : IngestedBlock) (rows : List IngestedBlock) (o : Option ℕ)
    → IsSmall r
    → Bound rows o
    → Bound
        (r ∷ rows)
        (elim o [ none ↦ some r.block_number | some m ↦ some (bigint_max r.block_number m) ])
max_step-Bound r rows none s h = (s, (omega arith, subst (AtMost r.block_number) (sym h) tt))
max_step-Bound r rows (some m) s (small, a) =
    let lt = bigint_lt_small r.block_number m (omega (arith, s)) (omega (arith, small)) in
    elim (Bool-cases (ltb r.block_number m)) [
      | inl e ↦
          let largest : bigint_max r.block_number m ≡ m = rw (lt, e) refl in
          subst (λ k. Bound (r ∷ rows) (some k)) (sym largest)
            (small, (omega (arith, ltb→lt r.block_number m e), a))
      | inr e ↦
          let largest : bigint_max r.block_number m ≡ r.block_number = rw (lt, e) refl in
          subst (λ k. Bound (r ∷ rows) (some k)) (sym largest)
            (s, (omega arith, AtMost-le m r.block_number rows (ltb→le r.block_number m e) a))
    ]

max_of-Bound :
    (rows : List IngestedBlock) → All IsSmall rows → Bound rows (max_of (λ r. r.block_number) rows)
unfolding max_of
max_of-Bound [] s = refl
max_of-Bound (r ∷ rows) s =
    max_step-Bound r rows (max_of (λ r'. r'.block_number) rows) s.0 (max_of-Bound rows s.1)

AtMost-any :
    (m b : ℕ) (rows : List IngestedBlock)
    → AtMost m rows
    → m < b
    → any (λ r. r.block_number == b) rows ≡ false
unfolding any
AtMost-any m b [] a h = refl
AtMost-any m b (r ∷ rows) a h = ground (arith, AtMost-any m b rows a.1 h, a.0)

Bound-any :
    (rows : List IngestedBlock) (o : Option ℕ) (start b : ℕ)
    → Bound rows o
    → candidate o start ≤ b
    → any (λ r. r.block_number == b) rows ≡ false
unfolding any
Bound-any rows none start b h le =
    subst (λ rs. any (λ r. r.block_number == b) rs ≡ false) (sym h) refl
Bound-any rows (some m) start b h le = AtMost-any m b rows h.1 (omega (arith, h.0, le))

All-filter :
    (p : IngestedBlock → Bool) (rows : List IngestedBlock)
    → All IsSmall rows
    → All IsSmall (filter p rows)
unfolding filter
All-filter p [] s = tt
All-filter p (r ∷ rows) s = ground (arith, All-filter p rows s.1)

any-of_key :
    (key : PublicKey) (b : ℕ) (rows : List IngestedBlock)
    → any (λ r. r.block_number == b) (filter (scanned_with key) rows) ≡ false
    → any (at_key_and_block key b) rows ≡ false
unfolding any filter
any-of_key key b [] h = refl
any-of_key key b (r ∷ rows) h = ground (arith, any-of_key key b rows)

any-of_all :
    (key : PublicKey) (b : ℕ) (rows : List IngestedBlock)
    → any (λ r. r.block_number == b) rows ≡ false
    → any (at_key_and_block key b) rows ≡ false
unfolding any
any-of_all key b [] h = refl
any-of_all key b (r ∷ rows) h = ground (arith, any-of_all key b rows)

created-start :
    (start b : ℕ) (made : Bool × Db) (db' : Db) → created start made ≡ ok (b, db') → start ≡ b
created-start start b (true, db) db' h = cc
created-start start b (false, db) db' h = cc

module _ (key : PublicKey) (n : ℕ) (db : Db) (small : All IsSmall db.ingested_blocks) where
  start_of-Unscanned :
      (st : Option IngressPublicKeyStatus) (b c : ℕ) (db' : Db)
      → start_of key n db st ≡ ok (b, db')
      → b ≤ c
      → any (at_key_and_block key c) db.ingested_blocks ≡ false
  unfolding get_last_scanned_block_index get_highest_known_block_index
  start_of-Unscanned (some status) b c db' h le =
      let rows = filter (scanned_with key) db.ingested_blocks in
      let e : candidate (get_last_scanned_block_index key db) status.start_block ≡ b = cc in
      any-of_key key c db.ingested_blocks (
        Bound-any rows (max_of (λ r. r.block_number) rows) status.start_block c
          (max_of-Bound rows (All-filter (scanned_with key) db.ingested_blocks small))
          (omega (arith, e, le)))
  start_of-Unscanned none b c db' h le = any-of_all key c db.ingested_blocks (
      Bound-any db.ingested_blocks (get_highest_known_block_index db) 0 c
        (max_of-Bound db.ingested_blocks small)
        (omega (
          arith,
          created-start (max n (count_of (get_highest_known_block_index db))) b
              (new_ingress_key key (max n (count_of (get_highest_known_block_index db))) db) db' h,
          le,
        )))

  after_status :
      (r : Result Error (Option IngressPublicKeyStatus)) (b c : ℕ) (db' : Db)
      → (map_err database r >>= start_of key n db) ≡ ok (b, db')
      → b ≤ c
      → any (at_key_and_block key c) db.ingested_blocks ≡ false
  after_status (ok st) b c db' h le = start_of-Unscanned st b c db' h le
  after_status (err e) b c db' h le = cc

  -- When the block numbers of the database are below 2^63 - 1 and a start block is found for a key,
  -- no block from it on was recorded with that key before.
  pub find_start_block-Unscanned :
      (b c : ℕ) (db' : Db)
      → find_start_block key n db ≡ ok (b, db')
      → b ≤ c
      → any (at_key_and_block key c) db.ingested_blocks ≡ false
  unfolding find_start_block
  find_start_block-Unscanned b c db' h le =
      after_status (get_ingress_key_status key db) b c db' h le
