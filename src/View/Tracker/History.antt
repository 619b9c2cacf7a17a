-- ===== src/View/Tracker/History.antt =====
-- Histories of a tracker of block_tracker.rs, with the blocks that were loaded.
use fog.Prelude.{
  ℕ, ◌+◌, ◌<◌, ◌≤◌, ◌≡◌, sym, subst, ◌∙◌, ap, inl, inr, eq_of_some, true, Option, none, some, List,
  [], ◌∷◌, arith, ◌==◌, Bool-cases, ==→eq,
}
use native.Mathlib.Decide.{dec_lt}
use fog.Prelude.Words.{u64_mod}
use fog.Prelude.Lists.{All}
use fog.Prelude.Map.{Map, get, insert, nat_eq, get-insert}
use fog.Recovery.IngressKey.{PublicKey, IngressPublicKeyRecord}
use fog.View.Tracker.{
  BlockTracker, new, next_blocks, block_processed, moves_forward, highest_count,
  highest_known_block_count, highest_fully_processed_block_count,
}
use fog.View.Tracker.Advance.{IsLoaded, highest_fully_processed_block_count-Advanced}

-- A block of a key that was loaded.
abbrev pub Load : Type 0
Load = PublicKey × ℕ

-- The calls on a new tracker, with the ingress keys `recs`, and the blocks that were loaded: blocks that
-- `next_blocks` asks for are processed, and the count is taken. Block indices stay below 2^64 - 2.
pub data Reach (recs : List IngressPublicKeyRecord) : BlockTracker → List Load → Type 0 where
  start : Reach recs new []
  process :
      {t t' : BlockTracker} {loads : List Load} (k : PublicKey) (b : ℕ)
      → Reach recs t loads
      → b + 2 < u64_mod
      → get (next_blocks t recs) k ≡ some b
      → block_processed t k b ≡ some t'
      → Reach recs t' ((k, b) ∷ loads)
  recount :
      {t t' : BlockTracker} {loads : List Load} (r : ℕ) (reason : Option IngressPublicKeyRecord)
      → Reach recs t loads
      → highest_fully_processed_block_count t recs ≡ some (t', r, reason)
      → Reach recs t' loads

abbrev pub Small : Map PublicKey ℕ → Type 0
Small = All (λ entry. entry.1 + 2 < u64_mod)

-- For every block below the count, the tracker has reached it with all the keys that have to provide it.
pub record IsComplete (recs : List IngressPublicKeyRecord) (t : BlockTracker) : Type 0 where
  pub small : Small t.processed_block_per_ingress_key
  pub room : t.last_highest_processed_block_count + 1 < u64_mod
  pub loaded :
      (b : ℕ)
      → b < t.last_highest_processed_block_count
      → All (IsLoaded t.processed_block_per_ingress_key b) recs

Small-insert :
    (m : Map PublicKey ℕ) (k : PublicKey) (b : ℕ) → b + 2 < u64_mod → Small m → Small (insert m k b)
unfolding insert
Small-insert [] k b h s = (h, tt)
Small-insert ((j, v) ∷ m) k b h s = ground (arith, Small-insert m k b h s.1)

pub Small-count : (m : Map PublicKey ℕ) → Small m → highest_count m + 1 < u64_mod
unfolding highest_count
Small-count [] s = omega arith
Small-count ((j, v) ∷ m) s = omega (arith, Small-count m s.1)

pub Small-get :
    (m : Map PublicKey ℕ) (k : PublicKey) (n : ℕ) → Small m → get m k ≡ some n → n + 2 < u64_mod
unfolding get
Small-get [] k n s h = cc
Small-get ((j, v) ∷ m) k n s h = ground (arith, Small-get m k n s.1)

-- A write that does not lower a key's block keeps every block loaded.
IsLoaded-insert :
    (m : Map PublicKey ℕ) (k : PublicKey) (b c : ℕ) (rec : IngressPublicKeyRecord)
    → ((n : ℕ) → get m k ≡ some n → n ≤ b)
    → IsLoaded m c rec
    → IsLoaded (insert m k b) c rec
IsLoaded-insert m k b c rec grows l cov =
    let (n, e, le) = l cov in
    elim (Bool-cases (k == rec.key)) [
      | inl hit ↦ (
        b,
        rw (get-insert m k rec.key b, hit),
        omega (arith, grows n (rw (==→eq k rec.key hit) e)),
      )
      | inr miss ↦ (n, rw (get-insert m k rec.key b, miss) e, le)
    ]

All-insert :
    (m : Map PublicKey ℕ) (k : PublicKey) (b c : ℕ) (recs : List IngressPublicKeyRecord)
    → ((n : ℕ) → get m k ≡ some n → n ≤ b)
    → All (IsLoaded m c) recs
    → All (IsLoaded (insert m k b) c) recs
All-insert m k b c [] grows a = tt
All-insert m k b c (rec ∷ recs) grows a =
    (IsLoaded-insert m k b c rec grows a.0, All-insert m k b c recs grows a.1)

forward-le :
    (o : Option ℕ) (b : ℕ)
    → ((n : ℕ) → o ≡ some n → n + 2 < u64_mod)
    → moves_forward o b ≡ true
    → (n : ℕ) → o ≡ some n
    → n ≤ b
forward-le none b s h n e = cc
forward-le (some k) b s h n e = ground (arith, s n e)

block_processed-IsComplete :
    {recs : List IngressPublicKeyRecord} {t t' : BlockTracker} (k : PublicKey) (b : ℕ)
    → b + 2 < u64_mod
    → block_processed t k b ≡ some t'
    → IsComplete recs t
    → IsComplete recs t'
unfolding block_processed
block_processed-IsComplete {recs} {t} {t'} k b h e v =
    elim (Bool-cases (moves_forward (get t.processed_block_per_ingress_key k) b)) [
      | inr miss ↦ let bad : none ≡ some t' = rw miss at e in cc
      | inl hit ↦
          let m = t.processed_block_per_ingress_key in
          let grows : ((n : ℕ) → get m k ≡ some n → n ≤ b) =
            forward-le (get m k) b (λ n. Small-get m k n v.small) hit in
          let same : some (record t { processed_block_per_ingress_key = insert m k b }) ≡ some t' =
            rw hit at e in
          subst (IsComplete recs) (eq_of_some same) (record {
            small = Small-insert m k b h v.small;
            room = v.room;
            loaded = λ c lt. All-insert m k b c recs grows (v.loaded c lt);
          })
    ]

recount-IsComplete :
    {recs : List IngressPublicKeyRecord} {t t' : BlockTracker} (r : ℕ)
    (reason : Option IngressPublicKeyRecord)
    → highest_fully_processed_block_count t recs ≡ some (t', r, reason)
    → IsComplete recs t
    → IsComplete recs t'
unfolding highest_known_block_count
recount-IsComplete {recs} {t} {t'} r reason e v =
    let m = t.processed_block_per_ingress_key in
    let a = highest_fully_processed_block_count-Advanced t recs (Small-count m v.small) v.room in
    let same : (record t { last_highest_processed_block_count = a.0 }, a.0, a.1) ≡ (t', r, reason) =
      eq_of_some (sym a.2 ∙ e) in
    subst (IsComplete recs)
      (ap (λ (x : BlockTracker × ℕ × Option IngressPublicKeyRecord). x.0) same)
      (record {
        small = v.small;
        room = omega (arith, a.4, v.room, Small-count m v.small);
        loaded = λ b lt. elim (dec_lt b t.last_highest_processed_block_count) [
          | yes h ↦ v.loaded b h
          | no h ↦ a.5 b (omega arith) lt
        ];
      })

pub Reach-IsComplete :
    {recs : List IngressPublicKeyRecord} {t : BlockTracker} {loads : List Load}
    → Reach recs t loads
    → IsComplete recs t
unfolding new
Reach-IsComplete start = record {
  small = tt;
  room = omega arith;
  loaded = λ b h. absurd (omega arith);
}
Reach-IsComplete (process k b r h g e) = block_processed-IsComplete k b h e (Reach-IsComplete r)
Reach-IsComplete (recount n reason r e) = recount-IsComplete n reason e (Reach-IsComplete r)
