-- ===== src/Recovery/Sql/Constraints.antt =====
-- The constraints of the migration's up.sql and what its rows have to do with each other.
use fog.Prelude.{
  ℕ, ◌≡◌, ◌≢◌, Bool, true, false, Option, some, none, List, [], ◌∷◌, inl, inr, Bool-cases, arith,
}
use fog.Prelude.Bytes.{Bytes, bytes_beq, bytes_beq_iff}
use fog.Prelude.Lists.{All}
use fog.Prelude.Queries.{any}
use fog.Prelude.Rows.{Distinct}
use fog.Recovery.Sql.Wire.{Wire}
use fog.Recovery.Sql.Blocks.{ETxOutRecord}
use fog.Recovery.Sql.Tables.{Db, same, block_conflict}
use fog.Recovery.Sql.Consistency.{key_conflict, egress_conflict, row_conflict, report_conflict}
use fog.Recovery.Sql.Links.{AreLinked, Reach-AreLinked}
use fog.Recovery.Sql.History.{Reach, Reach-IsConsistent}

-- The relation holds between every row and every later one.
abbrev pub Pairwise {ℓ} : {A : Type ℓ} → (A → A → Type 0) → List A → Type 0
Pairwise R [] = Unit
Pairwise R (x ∷ xs) = All (R x) xs × Pairwise R xs

-- Two rows do not have the same value in a nullable column.
abbrev pub Differ {ℓ} : {A : Type ℓ} → (A → Option ℕ) → A → A → Type 0
Differ column x y = (n : ℕ) → column x ≡ some n → column y ≢ some n

pub record ObeysConstraints (db : Db) : Type 0 where
  pub ingress_keys : Pairwise (λ x y. x.ingress_public_key ≢ y.ingress_public_key) db.ingress_keys
  pub egress_keys :
      Pairwise (λ x y. x.egress_public_key ≢ y.egress_public_key) db.ingest_invocations
  pub blocks_of_invocations :
      Pairwise
        (λ x y. x.ingest_invocation_id ≡ y.ingest_invocation_id → x.block_number ≢ y.block_number)
        db.ingested_blocks
  pub blocks_of_keys :
      Pairwise
        (λ x y. x.ingress_public_key ≡ y.ingress_public_key → x.block_number ≢ y.block_number)
        db.ingested_blocks
  pub announced : Pairwise (Differ (λ r. r.event.new_ingest_invocation_id)) db.user_events
  pub decommissioned :
      Pairwise (Differ (λ r. r.event.decommission_ingest_invocation_id)) db.user_events
  pub missed :
      Pairwise
        (λ x y.
          (n : ℕ)
          → x.event.missing_blocks_start ≡ some n
          → y.event.missing_blocks_start ≡ some n
          → Differ (λ r. r.event.missing_blocks_end) x y)
        db.user_events
  pub links : AreLinked db
  pub report_ids : Pairwise (λ x y. x.fog_report_id ≢ y.fog_report_id) db.reports

any-All {ℓ} :
    {A : Type ℓ} (p : A → Bool) (R : A → Type 0) (xs : List A)
    → ((y : A) → p y ≡ false → R y)
    → any p xs ≡ false
    → All R xs
unfolding any
any-All p R [] f h = tt
any-All p R (x ∷ xs) f h = elim (Bool-cases (p x)) [
  | inl e ↦ let clash : true ≡ false = rw e at h in cc
  | inr e ↦ (f x e, any-All p R xs f (rw e at h))
]

Distinct-Pairwise {ℓ} :
    {A : Type ℓ} (c : A → A → Bool) (R : A → A → Type 0) (xs : List A)
    → ((x y : A) → c y x ≡ false → R x y)
    → Distinct c xs
    → Pairwise R xs
Distinct-Pairwise c R [] f d = tt
Distinct-Pairwise c R (x ∷ xs) f (h, d) =
    (any-All (λ y. c y x) (R x) xs (f x) h, Distinct-Pairwise c R xs f d)

bytes_differ : (a b : Bytes) → bytes_beq a b ≡ false → a ≢ b
bytes_differ a b h e = let t = (bytes_beq_iff a b).1 e in cc

same-some : (o o' : Option ℕ) (n : ℕ) → o ≡ some n → o' ≡ some n → same o o' ≡ true
same-some none o' n e f = cc
same-some (some a) none n e f = cc
same-some (some a) (some b) n e f = ground (arith, e, f)

-- In every database that the operations reach from the empty one, no two rows break a UNIQUE
-- constraint of the migration: every ingress key, egress key and report id stands once, no two
-- blocks of an ingress key or of an invocation have the same number, no invocation is announced or
-- decommissioned by two events, and no two events have the same range of missed blocks. Every
-- invocation's ingress key has a row, and every block has the ingress key of an invocation with the
-- id that it was recorded under.
pub Reach-ObeysConstraints :
    {VerificationReport : Type 0} (v : Wire VerificationReport) {w : Wire (List ETxOutRecord)}
    {db : Db}
    → Reach v w db
    → ObeysConstraints db
Reach-ObeysConstraints v {db = db} r =
    let c = Reach-IsConsistent v r in
    record {
      ingress_keys =
          Distinct-Pairwise key_conflict _ db.ingress_keys (λ x y h e. ground (arith, h, e)) c.keys;
      egress_keys =
          Distinct-Pairwise egress_conflict _ db.ingest_invocations
            (λ x y h. bytes_differ x.egress_public_key y.egress_public_key h) c.invocations;
      blocks_of_invocations =
          Distinct-Pairwise block_conflict _ db.ingested_blocks
            (λ x y h e f. ground (arith, h, e, f)) c.blocks;
      blocks_of_keys =
          Distinct-Pairwise block_conflict _ db.ingested_blocks
            (λ x y h e f. ground (arith, h, e, f)) c.blocks;
      announced =
          Distinct-Pairwise row_conflict _ db.user_events
            (λ x y h n e f.
              let t =
                same-some x.event.new_ingest_invocation_id y.event.new_ingest_invocation_id n e f in
              let clash : true ≡ false = rw t at h in cc)
            c.events;
      decommissioned =
          Distinct-Pairwise row_conflict _ db.user_events
            (λ x y h n e f.
              let t =
                same-some x.event.decommission_ingest_invocation_id
                  y.event.decommission_ingest_invocation_id n e f in
              ground (arith, h, t))
            c.events;
      missed =
          Distinct-Pairwise row_conflict _ db.user_events
            (λ x y h m a b n e f.
              let s = same-some x.event.missing_blocks_start y.event.missing_blocks_start m a b in
              let t = same-some x.event.missing_blocks_end y.event.missing_blocks_end n e f in
              ground (arith, h, s, t))
            c.events;
      links = Reach-AreLinked v r;
      report_ids =
          Distinct-Pairwise report_conflict _ db.reports
            (λ x y h. bytes_differ x.fog_report_id y.fog_report_id h) c.all_reports;
    }
