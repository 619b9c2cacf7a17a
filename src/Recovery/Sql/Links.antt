-- ===== src/Recovery/Sql/Links.antt =====
-- How the rows of the tables of fog/sql_recovery_db refer to each other.
use fog.Prelude.{
  ℕ, ◌≡◌, refl, sym, ap, ◌∙◌, Bool, true, false, some, ◌==◌, ==→eq, ◌&&◌, List, [], ◌∷◌, ◌++◌, inl,
  inr, Bool-cases, Option-cases, if◌then◌else◌,
}
use fog.Prelude.Bytes.{bytes_beq}
use fog.Prelude.Lists.{All, In, here, there, In-append_left}
use fog.Prelude.Result.{ok, Holds}
use fog.Prelude.Queries.{any, filter, update}
use fog.Recovery.IngressKey.{PublicKey}
use fog.Recovery.Sql.Wire.{Wire}
use fog.Recovery.Sql.Invocations.{is_invocation}
use fog.Recovery.Sql.Blocks.{ETxOutRecord, ingress_key_of}
use fog.Recovery.Sql.Reports.{is_report, report_refers, upsert_row, upsert_report, remove_report}
use fog.Recovery.Sql.Keeps.{IsKept}
use fog.Recovery.Sql.History.{Reach, start, then_step, Step_keeps}
use fog.Recovery.Sql.Tables.{
  IngressKey, IngestInvocation, IngestedBlock, NewUserEvent, Report, Db, refers, has_key,
  block_conflict, event_conflict, insert_ingest_invocation, insert_ingested_block,
  insert_user_event, varchar,
}

-- The ingress key has a row.
abbrev pub HasKey : List IngressKey → IngestInvocation → Type 0
HasKey rows i = (k : IngressKey) × (In k rows × (k.ingress_public_key ≡ i.ingress_public_key))

-- The invocation that recorded the block has a row, with the block's ingress key.
abbrev pub HasInvocation : List IngestInvocation → IngestedBlock → Type 0
HasInvocation rows b =
    (i : IngestInvocation) × (In i rows
      × (i.id ≡ b.ingest_invocation_id)
      × (i.ingress_public_key ≡ b.ingress_public_key))

abbrev pub AreLinked : Db → Type 0
AreLinked db =
    All (HasKey db.ingress_keys) db.ingest_invocations
    × All (HasInvocation db.ingest_invocations) db.ingested_blocks

module _ {ℓ} {A : Type ℓ} where
  All-mono : {P Q : A → Type 0} (xs : List A) → ((x : A) → P x → Q x) → All P xs → All Q xs
  All-mono [] f a = tt
  All-mono (x ∷ xs) f (h, a) = (f x h, All-mono xs f a)

  All-append : (P : A → Type 0) (xs : List A) (x : A) → All P xs → P x → All P (xs ++ (x ∷ []))
  All-append P [] x a h = (h, tt)
  All-append P (y ∷ xs) x (g, a) h = (g, All-append P xs x a h)

  All-update :
      {P : A → Type 0} (p : A → Bool) (f : A → A) (xs : List A)
      → ((x : A) → P x → P (f x))
      → All P xs
      → All P (update p f xs)
  unfolding update
  All-update p f [] k a = tt
  All-update p f (x ∷ xs) k (h, a) = elim (Bool-cases (p x)) [
    | inl e ↦ (rw e (k x h), All-update p f xs k a)
    | inr e ↦ (rw e h, All-update p f xs k a)
  ]

  In-updated :
      (p : A → Bool) (f : A → A) (xs : List A) (x : A)
      → In x xs
      → In (if p x then f x else x) (update p f xs)
  unfolding update
  In-updated p f [] x i = elim i [ ]
  In-updated p f (y ∷ xs) x (here e) = here (ap (λ t. if p t then f t else t) e)
  In-updated p f (y ∷ xs) x (there i) = there (In-updated p f xs x i)

  any-In : (p : A → Bool) (xs : List A) → any p xs ≡ true → (x : A) × (In x xs × (p x ≡ true))
  unfolding any
  any-In p [] h = cc
  any-In p (x ∷ xs) h = elim (Bool-cases (p x)) [
    | inl e ↦ (x, (here refl, e))
    | inr e ↦ let (y, (i, g)) = any-In p xs (rw e at h) in (y, (there i, g))
  ]

key_kept :
    (b : Bool) (f : IngressKey → IngressKey) (k : IngressKey)
    → (f k).ingress_public_key ≡ k.ingress_public_key
    → (if b then f k else k).ingress_public_key ≡ k.ingress_public_key
key_kept true f k h = h
key_kept false f k h = refl

invocation_kept :
    (b : Bool) (f : IngestInvocation → IngestInvocation) (i : IngestInvocation)
    → (f i).id ≡ i.id
    → (f i).ingress_public_key ≡ i.ingress_public_key
    → ((if b then f i else i).id ≡ i.id)
      × ((if b then f i else i).ingress_public_key ≡ i.ingress_public_key)
invocation_kept true f i h k = (h, k)
invocation_kept false f i h k = (refl, refl)

-- The key that `add_block_data` looks up is that of the invocation.
ingress_key_of-In :
    (id : ℕ) (rows : List IngestInvocation) (key : PublicKey)
    → ingress_key_of (filter (is_invocation id) rows) ≡ ok key
    → (i : IngestInvocation) × (In i rows × (i.id ≡ id) × (i.ingress_public_key ≡ key))
unfolding filter
ingress_key_of-In id [] key h = cc
ingress_key_of-In id (r ∷ rows) key h = elim (Bool-cases (is_invocation id r)) [
  | inl e ↦
      let same : ok r.ingress_public_key ≡ ok key = rw e at h in
      (r, (here refl, ==→eq r.id id e, cc))
  | inr e ↦ let (i, (j, s, t)) = ingress_key_of-In id rows key (rw e at h) in (i, (there j, s, t))
]

upsert_row-AreLinked : (new : Report) (db : Db) → AreLinked db → Holds AreLinked (upsert_row new db)
unfolding upsert_row
upsert_row-AreLinked new db c = elim (Bool-cases (report_refers new db)) [
  | inr g ↦ rw g tt
  | inl g ↦ rw g (elim (Bool-cases (any (is_report new.fog_report_id) db.reports)) [
    | inl e ↦ rw e c
    | inr e ↦ rw e c
  ])
]

upsert-AreLinked : (new : Report) (db : Db) → AreLinked db → Holds AreLinked (upsert_report new db)
unfolding upsert_report
upsert-AreLinked new db c = elim (Option-cases (varchar 64 new.fog_report_id)) [
  | inl e ↦ rw (e, upsert_report) tt
  | inr (s, e) ↦
      rw (e, upsert_report) (upsert_row-AreLinked (record new { fog_report_id = s }) db c)
]

insert_invocation-AreLinked :
    (new : IngestInvocation) (db : Db)
    → AreLinked db
    → Holds AreLinked (insert_ingest_invocation new db)
insert_invocation-AreLinked new db (known, belong) =
    elim (Bool-cases
      (any (λ r. bytes_beq r.egress_public_key new.egress_public_key) db.ingest_invocations)) [
        | inl e ↦ rw e tt
        | inr e ↦ rw e (elim (Bool-cases (has_key new.ingress_public_key db.ingress_keys)) [
          | inr g ↦ rw g tt
          | inl g ↦
              let (k, (i, h)) =
                any-In (λ r. r.ingress_public_key == new.ingress_public_key) db.ingress_keys g in
              rw g (
                All-append (HasKey db.ingress_keys) db.ingest_invocations new known
                    (k, (i, ==→eq _ _ h)),
                All-mono db.ingested_blocks
                    (λ b (x, (j, s, t)). (x, (In-append_left db.ingest_invocations _ j, s, t)))
                    belong,
              )
        ])
      ]

insert_block-AreLinked :
    (new : IngestedBlock) (db : Db)
    → ingress_key_of (filter (is_invocation new.ingest_invocation_id) db.ingest_invocations)
      ≡ ok new.ingress_public_key
    → AreLinked db
    → Holds AreLinked (insert_ingested_block new db)
insert_block-AreLinked new db found (known, belong) =
    elim (Bool-cases (any (block_conflict new) db.ingested_blocks)) [
      | inl e ↦ rw e tt
      | inr e ↦
          rw e
            (elim (Bool-cases (
              refers (some new.ingest_invocation_id) db.ingest_invocations
              && has_key new.ingress_public_key db.ingress_keys)) [
                | inr g ↦ rw g tt
                | inl g ↦ rw g (
                  known,
                  All-append (HasInvocation db.ingest_invocations) db.ingested_blocks new belong (
                      ingress_key_of-In new.ingest_invocation_id db.ingest_invocations
                        new.ingress_public_key found),
                )
              ])
    ]

insert_event-AreLinked :
    (id : ℕ) (new : NewUserEvent) (db : Db)
    → AreLinked db
    → Holds AreLinked (insert_user_event id new db)
insert_event-AreLinked id new db c =
    elim (Bool-cases (any (λ r. event_conflict new r.event) db.user_events)) [
      | inl e ↦ rw e tt
      | inr e ↦
          rw e
            (elim (Bool-cases (
              refers new.new_ingest_invocation_id db.ingest_invocations
              && refers new.decommission_ingest_invocation_id db.ingest_invocations)) [
                | inl g ↦ rw g c
                | inr g ↦ rw g tt
              ])
    ]

AreLinked-IsKept : IsKept AreLinked
unfolding remove_report
AreLinked-IsKept = record {
  add_key = λ {db} (known, belong) new e. (
    All-mono db.ingest_invocations (λ i (k, (j, h)). (k, (In-append_left db.ingress_keys _ j, h)))
        known,
    belong,
  );
  update_keys = λ {db} (known, belong) p f same. (
    All-mono db.ingest_invocations
        (λ i (k, (j, h)). (
          (if p k then f k else k),
          (In-updated p f db.ingress_keys k j, key_kept (p k) f k (same k) ∙ h),
        ))
        known,
    belong,
  );
  insert_invocation = λ {db} c new. insert_invocation-AreLinked new db c;
  update_invocations = λ {db} (known, belong) p f same. (
    All-update p f db.ingest_invocations (λ i (k, (j, h)). (k, (j, h ∙ sym (same i).2))) known,
    All-mono db.ingested_blocks
        (λ b (i, (j, s, t)).
          let (s', t') = invocation_kept (p i) f i (same i).1 (same i).2 in
          ((if p i then f i else i), (In-updated p f db.ingest_invocations i j, s' ∙ s, t' ∙ t)))
        belong,
  );
  insert_block = λ {db} c new found. insert_block-AreLinked new db found c;
  insert_event = λ {db} c id new. insert_event-AreLinked id new db c;
  upsert = λ {db} c new. upsert-AreLinked new db c;
  remove = λ c report_id. c;
}

pub Reach-AreLinked :
    {VerificationReport : Type 0} (v : Wire VerificationReport) {w : Wire (List ETxOutRecord)}
    {db : Db}
    → Reach v w db
    → AreLinked db
Reach-AreLinked v start = (tt, tt)
Reach-AreLinked v (then_step r s) = Step_keeps v AreLinked AreLinked-IsKept s (Reach-AreLinked v r)
