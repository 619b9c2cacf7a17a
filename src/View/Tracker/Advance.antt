-- ===== src/View/Tracker/Advance.antt =====
-- What `highest_fully_processed_block_count` of block_tracker.rs returns.
use fog.Prelude.{
  ℕ, zero, suc, ◌+◌, ◌-◌, ◌≤◌, max, ◌<◌, ◌≡◌, refl, inl, inr, subst, ap, ◌∙◌, true, false, Option,
  none, some, List, [], ◌∷◌, arith, ltb, Bool-cases, Option-cases,
}
use native.Mathlib.Decide.{dec_lt}
use fog.Prelude.Words.{add64, u64_mod}
use fog.Prelude.Lists.{All, In, here, there}
use fog.Prelude.Map.{Map, get, nat_eq}
use fog.Recovery.IngressKey.{PublicKey, IngressPublicKeyRecord, covers_block_index}
use fog.View.Tracker.{
  BlockTracker, blocking, advance, is_behind, highest_known_block_count,
  highest_fully_processed_block_count, with_last,
}

-- The record does not have to provide block `b`, or block `b` was loaded with its key.
abbrev pub IsLoaded : Map PublicKey ℕ → ℕ → IngressPublicKeyRecord → Type 0
IsLoaded m b rec = covers_block_index rec b ≡ true → (n : ℕ) × (get m rec.key ≡ some n) × (b ≤ n)

-- The record has to provide block `b`, and it is in the list, and no block from `b` on was loaded.
pub record Blocks (m : Map PublicKey ℕ) (b : ℕ) (recs : List IngressPublicKeyRecord)
    (rec : IngressPublicKeyRecord) : Type 0 where
  pub listed : In rec recs
  pub covered : covers_block_index rec b ≡ true
  pub missing : (n : ℕ) → get m rec.key ≡ some n → n < b

not_behind : (o : Option ℕ) (b : ℕ) → is_behind o b ≡ false → (n : ℕ) × (o ≡ some n) × (b ≤ n)
not_behind none b h = cc
not_behind (some n) b h = (n, refl, ground arith)

behind : (o : Option ℕ) (b : ℕ) → is_behind o b ≡ true → (n : ℕ) → o ≡ some n → n < b
behind none b h n e = cc
behind (some k) b h n e = ground arith

blocking-none :
    (m : Map PublicKey ℕ) (b : ℕ) (recs : List IngressPublicKeyRecord)
    → blocking m b recs ≡ none
    → All (IsLoaded m b) recs
unfolding blocking
blocking-none m b [] h = tt
blocking-none m b (rec ∷ recs) h = elim (Bool-cases (covers_block_index rec b)) [
  | inr e ↦ (λ c. cc, blocking-none m b recs (ground arith))
  | inl e ↦ elim (Bool-cases (is_behind (get m rec.key) b)) [
    | inl late ↦ let bad : some rec ≡ none = ground arith in cc
    | inr e' ↦ (λ c. not_behind _ b e', blocking-none m b recs (ground arith))
  ]
]

Blocks-there :
    {m : Map PublicKey ℕ} {b : ℕ} {recs : List IngressPublicKeyRecord}
    {r rec : IngressPublicKeyRecord}
    → Blocks m b recs rec
    → Blocks m b (r ∷ recs) rec
Blocks-there h = record { listed = there h.listed; covered = h.covered; missing = h.missing }

blocking-some :
    (m : Map PublicKey ℕ) (b : ℕ) (recs : List IngressPublicKeyRecord)
    (rec : IngressPublicKeyRecord)
    → blocking m b recs ≡ some rec
    → Blocks m b recs rec
unfolding blocking
blocking-some m b [] rec h = cc
blocking-some m b (r ∷ recs) rec h = elim (Bool-cases (covers_block_index r b)) [
  | inr e ↦ Blocks-there (blocking-some m b recs rec (ground arith))
  | inl e ↦ elim (Bool-cases (is_behind (get m r.key) b)) [
    | inr e' ↦ Blocks-there (blocking-some m b recs rec (ground arith))
    | inl late ↦
        let hit : r ≡ rec = ground arith in
        subst (Blocks m b (r ∷ recs)) hit
          (record { listed = here refl; covered = e; missing = behind _ b late })
  ]
]

-- Why the loop stopped at `r`.
abbrev pub Stop :
    Map PublicKey ℕ → List IngressPublicKeyRecord → ℕ → ℕ → Option IngressPublicKeyRecord → Type 0
Stop m recs known r none = known ≤ r
Stop m recs known r (some rec) = Blocks m r recs rec

pub record Advanced (m : Map PublicKey ℕ) (recs : List IngressPublicKeyRecord) (known last : ℕ)
    (result : Option (ℕ × Option IngressPublicKeyRecord)) : Type 0 where
  pub count : ℕ
  pub reason : Option IngressPublicKeyRecord
  pub returns : result ≡ some (count, reason)
  pub grows : last ≤ count
  pub within : count ≤ max last known
  pub loaded : (b : ℕ) → last ≤ b → b < count → All (IsLoaded m b) recs
  pub stops : Stop m recs known count reason

-- One round that advances, before the rounds that follow it.
Advanced-step :
    (m : Map PublicKey ℕ) (recs : List IngressPublicKeyRecord) (known last : ℕ)
    {next rest : Option (ℕ × Option IngressPublicKeyRecord)}
    → add64 last 1 ≡ last + 1
    → last < known
    → next ≡ rest
    → All (IsLoaded m last) recs
    → Advanced m recs known (add64 last 1) rest
    → Advanced m recs known last next
Advanced-step m recs known last e lt e' now a = record {
  count = a.count;
  reason = a.reason;
  returns = e' ∙ a.returns;
  grows = omega (arith, a.grows);
  within = omega (arith, a.within);
  loaded = λ b p q. elim (dec_lt last b) [
    | yes h ↦ a.loaded b (omega arith) q
    | no h ↦ subst (λ c. All (IsLoaded m c) recs) (omega arith) now
  ];
  stops = a.stops;
}

advance-Advanced :
    (fuel : ℕ) (m : Map PublicKey ℕ) (recs : List IngressPublicKeyRecord) (known last : ℕ)
    → known - last < fuel
    → known + 1 < u64_mod
    → last + 1 < u64_mod
    → Advanced m recs known last (advance fuel m recs known last)
unfolding advance
advance-Advanced zero m recs known last f k l = absurd (omega arith)
advance-Advanced (suc fuel) m recs known last f k l = elim (Bool-cases (ltb known (add64 last 1))) [
  | inl e ↦ record {
    count = last;
    reason = none;
    returns = ground arith;
    grows = omega arith;
    within = omega arith;
    loaded = λ b p q. absurd (omega arith);
    stops = ground arith;
  }
  | inr e ↦ elim (Option-cases (blocking m last recs)) [
    | inr (rec, e') ↦ record {
      count = last;
      reason = some rec;
      returns = ground arith;
      grows = omega arith;
      within = omega arith;
      loaded = λ b p q. absurd (omega arith);
      stops = blocking-some m last recs rec e';
    }
    | inl e' ↦
        Advanced-step m recs known last (ground arith) (ground arith) (ground arith)
          (blocking-none m last recs e')
          (advance-Advanced fuel m recs known (add64 last 1) (ground arith) k (ground arith))
  ]
]

-- For a tracker whose counts are below 2^64 - 1 the loop ends. It changes nothing but the count `r`
-- that it returns, which is not below the previous one, nor above both it and the highest known count. Each block from the previous count up to
-- `r` was loaded with every ingress key that has to provide it. With no reason given, `r` reaches the
-- highest known count; the reason is a listed record that has to provide block `r` and has loaded no
-- block from `r` on.
pub highest_fully_processed_block_count-Advanced :
    (t : BlockTracker) (recs : List IngressPublicKeyRecord)
    → highest_known_block_count t + 1 < u64_mod
    → t.last_highest_processed_block_count + 1 < u64_mod
    → (r : ℕ) × (reason : Option IngressPublicKeyRecord) × (highest_fully_processed_block_count t
          recs
        ≡ some (record t { last_highest_processed_block_count = r }, r, reason))
      × (t.last_highest_processed_block_count ≤ r)
      × (r ≤ max t.last_highest_processed_block_count (highest_known_block_count t))
      × ((b : ℕ)
          → t.last_highest_processed_block_count ≤ b
          → b < r
          → All (IsLoaded t.processed_block_per_ingress_key b) recs)
      × Stop t.processed_block_per_ingress_key recs (highest_known_block_count t) r reason
unfolding highest_fully_processed_block_count
highest_fully_processed_block_count-Advanced t recs k l =
    let a =
      advance-Advanced (suc (highest_known_block_count t - t.last_highest_processed_block_count))
        t.processed_block_per_ingress_key recs (highest_known_block_count t)
        t.last_highest_processed_block_count (omega arith) k l in
    (a.count, a.reason, ap (with_last t) a.returns, a.grows, a.within, a.loaded, a.stops)
