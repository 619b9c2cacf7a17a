-- ===== src/View/Tracker/Next.antt =====
-- What `next_blocks` of block_tracker.rs asks for, and that it can be processed.
use fog.Prelude.{
  ℕ, ◌≡◌, ◌≢◌, refl, ◌∙◌, sym, subst, ◌⊎◌, inl, inr, true, Option, none, some, List, [], ◌∷◌, arith,
  Bool-cases, if◌then◌else◌, ◌==◌, ==→eq, eq→==,
}
use fog.Prelude.Words.{add64}
use fog.Prelude.Lists.{In, here, there}
use fog.Prelude.Map.{Map, get, insert, nat_eq, get-insert}
use fog.Recovery.IngressKey.{PublicKey, IngressPublicKeyRecord, covers_block_index}
use fog.View.Tracker.{
  BlockTracker, candidate, ask, next_block, next_blocks_from, next_blocks, block_processed,
  moves_forward,
}

-- `b` is the successor of the block that was last processed with key `k`, or the start block.
abbrev pub IsNext : Map PublicKey ℕ → PublicKey → ℕ → ℕ → Type 0
IsNext m k start b =
    ((n : ℕ) × (get m k ≡ some n) × (b ≡ add64 n 1)) ⊎ ((get m k ≡ none) × (b ≡ start))

candidate-IsNext :
    (o : Option ℕ) (start : ℕ)
    → ((n : ℕ) × (o ≡ some n) × (candidate o start ≡ add64 n 1))
      ⊎ ((o ≡ none) × (candidate o start ≡ start))
candidate-IsNext none start = inr (refl, refl)
candidate-IsNext (some n) start = inl (n, refl, refl)

-- A listed record asks for block `b` of key `k`.
pub record Asks (m : Map PublicKey ℕ) (recs : List IngressPublicKeyRecord) (k : PublicKey) (b : ℕ)
    : Type 0 where
  pub rec : IngressPublicKeyRecord
  pub listed : In rec recs
  pub is_key : rec.key ≡ k
  pub covered : covers_block_index rec b ≡ true
  pub is_next : IsNext m k rec.status.start_block b

Asks-there :
    {m : Map PublicKey ℕ} {recs : List IngressPublicKeyRecord} {r : IngressPublicKeyRecord}
    {k : PublicKey} {b : ℕ}
    → Asks m recs k b
    → Asks m (r ∷ recs) k b
Asks-there a = record {
  rec = a.rec;
  listed = there a.listed;
  is_key = a.is_key;
  covered = a.covered;
  is_next = a.is_next;
}

Asks-here :
    (m : Map PublicKey ℕ) (recs : List IngressPublicKeyRecord) (r : IngressPublicKeyRecord)
    (k : PublicKey) (b : ℕ)
    → covers_block_index r (next_block m r) ≡ true
    → r.key ≡ k
    → next_block m r ≡ b
    → Asks m (r ∷ recs) k b
Asks-here m recs r k b c e e' = record {
  rec = r;
  listed = here refl;
  is_key = e;
  covered = rw e' at c;
  is_next =
      subst (λ j. IsNext m j r.status.start_block b) e
        (subst (λ x. IsNext m r.key r.status.start_block x) e'
          (candidate-IsNext (get m r.key) r.status.start_block));
}

get-ask :
    (m found : Map PublicKey ℕ) (r : IngressPublicKeyRecord) (k : PublicKey) (b : ℕ)
    → get (ask m found r) k ≡ some b
    → (get found k ≡ some b)
      ⊎ ((covers_block_index r (next_block m r) ≡ true) × (r.key ≡ k) × (next_block m r ≡ b))
get-ask m found r k b h = elim (Bool-cases (covers_block_index r (next_block m r))) [
  | inr e ↦ inl (rw e at h)
  | inl e ↦
      let h' : get (insert found r.key (next_block m r)) k ≡ some b = rw e at h in
      get-ask_covered e (sym (get-insert found r.key k (next_block m r)) ∙ h')
]
  where
    get-ask_covered :
        covers_block_index r (next_block m r) ≡ true
        → (if r.key == k then some (next_block m r) else get found k) ≡ some b
        → (get found k ≡ some b)
          ⊎ ((covers_block_index r (next_block m r) ≡ true) × (r.key ≡ k) × (next_block m r ≡ b))
    get-ask_covered e h = elim (Bool-cases (r.key == k)) [
      | inl e' ↦ inr (e, ==→eq _ _ e', ground arith)
      | inr e' ↦ inl (ground arith)
    ]

next_blocks_from_sound :
    (m : Map PublicKey ℕ) (recs : List IngressPublicKeyRecord) (found : Map PublicKey ℕ)
    (k : PublicKey) (b : ℕ)
    → get (next_blocks_from m found recs) k ≡ some b
    → (get found k ≡ some b) ⊎ Asks m recs k b
unfolding next_blocks_from
next_blocks_from_sound m [] found k b h = inl h
next_blocks_from_sound m (r ∷ recs) found k b h =
    elim (next_blocks_from_sound m recs (ask m found r) k b h) [
      | inr a ↦ inr (Asks-there a)
      | inl e ↦ elim (get-ask m found r k b e) [
        | inl old ↦ inl old
        | inr (c, e', n) ↦ inr (Asks-here m recs r k b c e' n)
      ]
    ]

-- What is found for a key stays found, whatever records follow.
next_blocks_from-keeps :
    (m : Map PublicKey ℕ) (recs : List IngressPublicKeyRecord) (found : Map PublicKey ℕ)
    (k : PublicKey)
    → get found k ≢ none
    → get (next_blocks_from m found recs) k ≢ none
unfolding next_blocks_from
next_blocks_from-keeps m [] found k h = h
next_blocks_from-keeps m (r ∷ recs) found k h =
    next_blocks_from-keeps m recs (ask m found r) k
      (ground (arith, h, get-insert found r.key k (next_block m r)))

next_blocks_from_complete :
    (m : Map PublicKey ℕ) (recs : List IngressPublicKeyRecord) (found : Map PublicKey ℕ)
    (r : IngressPublicKeyRecord)
    → In r recs
    → covers_block_index r (next_block m r) ≡ true
    → get (next_blocks_from m found recs) r.key ≢ none
unfolding next_blocks_from
next_blocks_from_complete m [] found r i c = elim i [ ]
next_blocks_from_complete m (x ∷ recs) found r (there i) c =
    next_blocks_from_complete m recs (ask m found x) r i c
next_blocks_from_complete m (x ∷ recs) found r (here e) c =
    next_blocks_from-keeps m recs (ask m found x) r.key (
      subst (λ y. get (ask m found y) r.key ≢ none) (sym e)
        (rw c (ground (arith, get-insert found r.key r.key (next_block m r)))))

pub passes :
    {start : ℕ} (o : Option ℕ) (b : ℕ)
    → ((n : ℕ) × (o ≡ some n) × (b ≡ add64 n 1)) ⊎ ((o ≡ none) × (b ≡ start))
    → moves_forward o b ≡ true
passes none b h = refl
passes (some n) b (inl (m, e, e')) = ground arith
passes (some n) b (inr (e, e')) = cc

module _ (t : BlockTracker) (recs : List IngressPublicKeyRecord) (k : PublicKey) where
  -- A block that `next_blocks` gives for a key is asked for by a listed record of that key: the record
  -- covers it, and it is the successor of the block last processed with the key, or the record's start
  -- block if there is none.
  pub next_blocks-Asks :
      (b : ℕ)
      → get (next_blocks t recs) k ≡ some b
      → Asks t.processed_block_per_ingress_key recs k b
  unfolding next_blocks get
  next_blocks-Asks b h =
      elim (next_blocks_from_sound t.processed_block_per_ingress_key recs [] k b h) [
        | inl e ↦ let bad : none ≡ some b = e in cc
        | inr a ↦ a
      ]

is_next-successor :
    {start : ℕ} (o : Option ℕ) (b b' : ℕ)
    → o ≡ some b
    → ((n : ℕ) × (o ≡ some n) × (b' ≡ add64 n 1)) ⊎ ((o ≡ none) × (b' ≡ start))
    → b' ≡ add64 b 1
is_next-successor none b b' e h = cc
is_next-successor (some m) b b' e (inl (n, e', s)) = ground (arith, e, e', s)
is_next-successor (some m) b b' e (inr (e', s)) = cc

next_after :
    (t : BlockTracker) (recs : List IngressPublicKeyRecord) (k : PublicKey) (b b' : ℕ)
    → get t.processed_block_per_ingress_key k ≡ some b
    → get (next_blocks t recs) k ≡ some b'
    → b' ≡ add64 b 1
next_after t recs k b b' e h =
    is_next-successor (get t.processed_block_per_ingress_key k) b b' e
      (next_blocks-Asks t recs k b' h).is_next

module _ (t : BlockTracker) (recs : List IngressPublicKeyRecord) (k : PublicKey) where
  -- The block that `next_blocks` gives for a key passes the assertion of `block_processed`, which then
  -- changes the entry of this key alone. Whatever records are listed afterwards, `next_blocks` gives
  -- the successor of the block for the key, modulo 2^64, or nothing.
  pub block_processed-next_blocks :
      (b : ℕ)
      → get (next_blocks t recs) k ≡ some b
      → (t' : BlockTracker) × (block_processed t k b ≡ some t')
        × (get t'.processed_block_per_ingress_key k ≡ some b)
        × ((j : PublicKey)
            → j ≢ k
            → get t'.processed_block_per_ingress_key j ≡ get t.processed_block_per_ingress_key j)
        × (t'.last_highest_processed_block_count ≡ t.last_highest_processed_block_count)
        × ((later : List IngressPublicKeyRecord) (b' : ℕ)
            → get (next_blocks t' later) k ≡ some b'
            → b' ≡ add64 b 1)
  unfolding block_processed
  block_processed-next_blocks b h =
      let m = t.processed_block_per_ingress_key in
      let t' : BlockTracker = record t { processed_block_per_ingress_key = insert m k b } in
      (
        record t { processed_block_per_ingress_key = insert m k b },
        rw (passes (get m k) b (next_blocks-Asks t recs k b h).is_next),
        simp (get-insert, eq→== k k refl),
        λ j ne. simp get-insert (ground arith),
        refl,
        λ later b' h'. next_after t' later k b b' (simp (get-insert, eq→== k k refl)) h',
      )

-- Every listed record that covers its next block is answered for its key.
pub next_blocks_complete :
    (t : BlockTracker) (recs : List IngressPublicKeyRecord) (r : IngressPublicKeyRecord)
    → In r recs
    → covers_block_index r (next_block t.processed_block_per_ingress_key r) ≡ true
    → get (next_blocks t recs) r.key ≢ none
unfolding next_blocks
next_blocks_complete t recs r i c =
    next_blocks_from_complete t.processed_block_per_ingress_key recs [] r i c
