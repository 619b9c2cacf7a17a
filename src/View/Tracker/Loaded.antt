-- ===== src/View/Tracker/Loaded.antt =====
-- Which blocks were loaded when the tracker of block_tracker.rs counts them.
use fog.Prelude.{
  ℕ, ◌<◌, ◌≤◌, ◌≡◌, sym, subst, ◌∙◌, ap, inl, inr, eq_of_some, true, Option, some, List, [], ◌∷◌,
  arith, ◌==◌, Bool-cases, ==→eq, ==→ne,
}
use fog.Prelude.Words.{add64-no_wrap}
use fog.Prelude.Lists.{All, In, here, there}
use fog.Prelude.Map.{Map, get, nat_eq}
use fog.Recovery.IngressKey.{PublicKey, IngressPublicKeyRecord, covers_block_index}
use fog.Recovery.IngressKey.Ranges.{covers_block_index-range}
use fog.View.Tracker.Next.{IsNext, next_blocks-Asks, block_processed-next_blocks}
use fog.View.Tracker.{
  BlockTracker, new, next_blocks, block_processed, highest_known_block_count,
  highest_fully_processed_block_count,
}
use fog.View.Tracker.Advance.{IsLoaded, highest_fully_processed_block_count-Advanced}
use fog.View.Tracker.History.{
  Load, Reach, start, process, recount, Small, Small-get, Small-count, IsComplete, Reach-IsComplete,
}

-- No key has two records.
abbrev pub HasOneRecord : List IngressPublicKeyRecord → Type 0
HasOneRecord recs =
    (rec rec' : IngressPublicKeyRecord)
    → In rec recs
    → In rec' recs
    → rec.key ≡ rec'.key
    → rec ≡ rec'

-- Every block of a record from its start block up to the last one of its key was loaded.
abbrev Logged : List IngressPublicKeyRecord → Map PublicKey ℕ → List Load → Type 0
Logged recs m loads =
    (rec : IngressPublicKeyRecord) (n b : ℕ)
    → In rec recs
    → get m rec.key ≡ some n
    → rec.status.start_block ≤ b
    → b ≤ n
    → In (rec.key, b) loads

logged_own :
    (recs : List IngressPublicKeyRecord) (m : Map PublicKey ℕ) (loads : List Load)
    (rec : IngressPublicKeyRecord) (b c : ℕ)
    → Small m
    → Logged recs m loads
    → In rec recs
    → IsNext m rec.key rec.status.start_block b
    → rec.status.start_block ≤ c
    → c ≤ b
    → In (rec.key, c) ((rec.key, b) ∷ loads)
logged_own recs m loads rec b c small logged i next from to = elim (Bool-cases (b == c)) [
  | inl e ↦ here (ap (λ x. (rec.key, x)) (==→eq b c e))
  | inr e ↦ there (elim next [
    | inl (n, g, s) ↦ logged rec n c i g from (
        omega (
          arith,
          to,
          s,
          add64-no_wrap n 1 (omega (arith, Small-get m rec.key n small g)),
          ==→ne b c e,
        ))
    | inr (g, s) ↦ absurd (==→ne b c e (omega (arith, from, to, s)))
  ])
]

process-Logged :
    (recs : List IngressPublicKeyRecord) (t t' : BlockTracker) (loads : List Load) (k : PublicKey)
    (b : ℕ)
    → HasOneRecord recs
    → Small t.processed_block_per_ingress_key
    → get (next_blocks t recs) k ≡ some b
    → block_processed t k b ≡ some t'
    → Logged recs t.processed_block_per_ingress_key loads
    → Logged recs t'.processed_block_per_ingress_key ((k, b) ∷ loads)
process-Logged recs t t' loads k b one small g e logged rec n c i =
    let m = t.processed_block_per_ingress_key in
    let (t₁, run, own, others, same, later) = block_processed-next_blocks t recs k b g in
    let ends : t₁ ≡ t' = eq_of_some (sym run ∙ e) in
    let asks = next_blocks-Asks t recs k b g in
    elim (Bool-cases (k == rec.key)) [
      | inl hit ↦ λ h from to.
          let is : k ≡ rec.key = ==→eq k rec.key hit in
          let r : asks.rec ≡ rec = one asks.rec rec asks.listed i (asks.is_key ∙ is) in
          let at : get t'.processed_block_per_ingress_key rec.key ≡ some b =
            subst (λ x. get x.processed_block_per_ingress_key rec.key ≡ some b) ends
              (subst (λ j. get t₁.processed_block_per_ingress_key j ≡ some b) is own) in
          let last : b ≡ n = eq_of_some (sym at ∙ h) in
          let next : IsNext m rec.key rec.status.start_block b =
            subst (λ j. IsNext m j rec.status.start_block b) is
              (subst (λ x. IsNext m k x.status.start_block b) r asks.is_next) in
          subst (λ j. In (rec.key, c) ((j, b) ∷ loads)) (sym is)
            (logged_own recs m loads rec b c small logged i next from (omega (arith, to, last)))
      | inr miss ↦ λ h from to.
          let old : get m rec.key ≡ some n =
            sym (others rec.key (λ x. ==→ne k rec.key miss (sym x)))
            ∙ subst (λ x. get x.processed_block_per_ingress_key rec.key ≡ some n) (sym ends) h in
          there (logged rec n c i old from to)
    ]

recount-map :
    (recs : List IngressPublicKeyRecord) (t t' : BlockTracker) (r : ℕ)
    (reason : Option IngressPublicKeyRecord)
    → IsComplete recs t
    → highest_fully_processed_block_count t recs ≡ some (t', r, reason)
    → t.processed_block_per_ingress_key ≡ t'.processed_block_per_ingress_key
unfolding highest_known_block_count
recount-map recs t t' r reason v e =
    let a =
      highest_fully_processed_block_count-Advanced t recs
        (Small-count t.processed_block_per_ingress_key v.small) v.room in
    let same : (record t { last_highest_processed_block_count = a.0 }, a.0, a.1) ≡ (t', r, reason) =
      eq_of_some (sym a.2 ∙ e) in
    ap
      (λ (x : BlockTracker × ℕ × Option IngressPublicKeyRecord).
        x.0.processed_block_per_ingress_key)
      same

Reach-Logged :
    {recs : List IngressPublicKeyRecord} {t : BlockTracker} {loads : List Load}
    → HasOneRecord recs
    → Reach recs t loads
    → Logged recs t.processed_block_per_ingress_key loads
unfolding new get
Reach-Logged one start = λ rec n b i h from to. cc
Reach-Logged {recs} one (process {t} {t'} {loads} k b r h g e) =
    process-Logged recs t t' loads k b one (Reach-IsComplete r).small g e (Reach-Logged one r)
Reach-Logged {recs} one (recount {t} {t'} {loads} n reason r e) =
    subst (λ m. Logged recs m loads) (recount-map recs t t' n reason (Reach-IsComplete r) e)
      (Reach-Logged one r)

All-at {ℓ κ} : {A : Type ℓ} (P : A → Type κ) (xs : List A) (x : A) → All P xs → In x xs → P x
All-at P [] x a i = elim i [ ]
All-at P (y ∷ xs) x (h, a) (here e) = subst P e h
All-at P (y ∷ xs) x (h, a) (there i) = All-at P xs x a i

-- In every history of a new tracker, with fixed ingress keys of one record each, in which only blocks
-- are processed that `next_blocks` asks for, with indices below 2^64 - 2: each block below the count
-- that the tracker holds was loaded with every key whose record covers it.
pub Reach-loaded :
    (recs : List IngressPublicKeyRecord) (t : BlockTracker) (loads : List Load)
    (rec : IngressPublicKeyRecord) (b : ℕ)
    → HasOneRecord recs
    → Reach recs t loads
    → b < t.last_highest_processed_block_count
    → In rec recs
    → covers_block_index rec b ≡ true
    → In (rec.key, b) loads
Reach-loaded recs t loads rec b one r lt i covers =
    let (n, g, le) =
      All-at (IsLoaded t.processed_block_per_ingress_key b) recs rec
        ((Reach-IsComplete r).loaded b lt) i covers in
    Reach-Logged one r rec n b i g ((covers_block_index-range rec b).0 covers).0 le
