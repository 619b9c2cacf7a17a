-- ===== src/View/Polling/Sound.antt =====
-- What holds before every round of the poll of fog/view/protocol/src/polling.rs.
use fog.Prelude.{
  ℕ, ◌≤◌, ◌<◌, ◌≡◌, refl, sym, subst, ap, inl, inr, Bool, true, false, Option, none, some, List, [],
  ◌∷◌, map, Bool-cases, arith,
}
use fog.Prelude.Bytes.{Bytes, bytes_eq, bytes_beq, bytes_beq_iff}
use fog.Prelude.Lists.{In, here, there, length}
use fog.Prelude.Map.{get, Unique}
use fog.Prelude.Queries.{any, filter}
use fog.KexRng.Core.{KexRngCore, Kex}
use fog.KexRng.Buffered.{VersionedKexRng, peek, inner}
use fog.View.Query.{QueryResponse}
use fog.View.UserRngSet.{Decryption, sort_results}
use fog.View.UserRngSet.Sorting.{IsFound, sort_results-get}
use fog.View.Polling.{FogViewConnection, take_response, search_keys, dead_rngs, is_dead}
use fog.View.Polling.Round.{Dry, round-Further, AllMoved-Unique, next_multiplier-range}
use fog.View.Polling.Asked.{Rngs, In-same, Apart, AllMoved-Apart}
use fog.View.Polling.Landed.{NotLanded, IsComplete, Round, index-Moved, round-NotLanded}
use fog.View.Polling.Ends.{Going, received, take_response-Ingested}

module _ {ℓ} {A : Type ℓ} (q : Bytes × A → Bool) where
  abbrev pub names : List (Bytes × A) → List Bytes
  names xs = map (λ e. e.0) (filter q xs)

  length-names : (xs : List (Bytes × A)) → length (names xs) ≤ length xs
  unfolding filter
  length-names [] = omega arith
  length-names (x ∷ xs) = elim (Bool-cases (q x)) [
    | inl e ↦ rw e (omega (arith, length-names xs))
    | inr e ↦ rw e (omega (arith, length-names xs))
  ]

  -- As many names as entries are the names of all.
  pub all_named :
      (xs : List (Bytes × A)) (e : Bytes × A)
      → length xs ≤ length (names xs)
      → In e xs
      → any (bytes_beq e.0) (names xs) ≡ true
  unfolding filter any
  all_named [] e l i = elim i [ ]
  all_named (x ∷ xs) e l i = elim (Bool-cases (q x)) [
    | inr f ↦ absurd (omega (arith, rw f at l, length-names xs))
    | inl f ↦ elim i [
      | here s ↦ rw (f, (bytes_beq_iff e.0 x.0).1 (ap (λ t. t.0) (sym s))) refl
      | there j ↦
          let rest = all_named xs e (omega (arith, rw f at l)) j in
          rw f (elim (Bool-cases (bytes_beq e.0 x.0)) [ inl g ↦ rw g refl | inr g ↦ rw g rest ])
    ]
  ]

  named-In :
      (xs : List (Bytes × A)) (nonce : Bytes)
      → any (bytes_beq nonce) (names xs) ≡ true
      → (a : A) × (In (nonce, a) xs × (q (nonce, a) ≡ true))
  unfolding filter any
  named-In [] nonce h = cc
  named-In (x ∷ xs) nonce h = elim (Bool-cases (q x)) [
    | inr f ↦ let (a, (i, t)) = named-In xs nonce (rw f at h) in (a, (there i, t))
    | inl f ↦ elim (Bool-cases (bytes_beq nonce x.0)) [
      | inl g ↦
          let same : nonce ≡ x.0 = (bytes_beq_iff nonce x.0).0 g in
          (x.1, (here (ap (λ t. (t, x.1)) (sym same)), subst (λ t. q (t, x.1) ≡ true) (sym same) f))
      | inr g ↦ let (a, (i, t)) = named-In xs nonce (rw g at rw f at h) in (a, (there i, t))
    ]
  ]

pub names-none {ℓ} : {A : Type ℓ} (xs : List (Bytes × A)) → names (λ e. false) xs ≡ []
unfolding filter
names-none [] = refl
names-none (x ∷ xs) = names-none xs

module _ {BoxError TxOutRecord : Type 0} (DecodeError : Type 0) (core : KexRngCore) (k : Kex)
    (d : Decryption BoxError TxOutRecord) (c : FogViewConnection) (Stored : Bytes → Type 0)
    (landed : Bytes → Option ℕ) where
  abbrev pub Goes : Type 0
  Goes = Going DecodeError core k d c

  abbrev pub Answers : List Bytes → QueryResponse → Type 0
  Answers keys resp =
      IsComplete landed keys resp
      × ((key ciphertext : Bytes) → IsFound resp.tx_out_search_results key ciphertext → Stored key)

  -- What holds before every round.
  pub record Sound (p : Goes) : Type 0 where
    pub range : (0 < p.request_multiplier) × (p.request_multiplier ≤ 1000)
    pub unique : Unique p.polled.user_rng_set.rngs
    pub apart : Apart core p.polled.user_rng_set.rngs
    pub total : ℕ
    pub dry : Dry core Stored total p.polled.user_rng_set.rngs
    pub test : Bytes × VersionedKexRng → Bool
    pub dead : p.dead_rng_set ≡ names test p.polled.user_rng_set.rngs
    pub was_dead :
        (nonce : Bytes) (rng : VersionedKexRng)
        → In (nonce, rng) p.polled.user_rng_set.rngs
        → any (bytes_beq nonce) p.dead_rng_set ≡ true
        → NotLanded landed p.new_highest_processed_block_count (peek (inner rng))

  now_dead :
      (test : Bytes × VersionedKexRng → Bool) (rngs : Rngs) (nonce : Bytes) (rng : VersionedKexRng)
      → Unique rngs
      → In (nonce, rng) rngs
      → any (bytes_beq nonce) (names test rngs) ≡ true
      → test (nonce, rng) ≡ true
  now_dead test rngs nonce rng u i h =
      let (rng', (j, t)) = named-In test rngs nonce h in
      subst (λ x. test (nonce, x) ≡ true) (In-same rngs nonce rng' rng u j i) t

  pub round-Sound :
      (p : Goes) (resp : QueryResponse) (connection : c.State)
      → Sound p
      → Answers (search_keys BoxError DecodeError TxOutRecord core k d c p) resp
      → (p' : Goes) × (take_response BoxError DecodeError TxOutRecord core k d c p resp connection
          ≡ some p')
        × (p'.polled.user_rng_set.highest_processed_block_count
            ≡ p.polled.user_rng_set.highest_processed_block_count)
        × Sound p'
  unfolding dead_rngs get
  round-Sound p resp connection s (complete, served) =
      let (records, errs, s', run, ingested) =
        take_response-Ingested DecodeError core k d c p resp connection in
      let m = (sort_results BoxError TxOutRecord resp.tx_out_search_results ([], [])).0 in
      let rngs = p.polled.user_rng_set.rngs in
      let u' = AllMoved-Unique core d m ingested.left rngs s'.rngs ingested.moved s.unique in
      let r : Round core Stored d landed resp p.request_multiplier p.dead_rng_set rngs s'.rngs
          ingested.left =
        record {
          unique = s.unique;
          unique' = u';
          moved = ingested.moved;
          removed = ingested.removed;
          apart = s.apart;
          complete = complete;
          served = served;
          small = s.range.1;
          total = s.total;
          dry = s.dry;
        } in
      let (total', le, dry', outcome) =
        round-Further core Stored d p.request_multiplier m ingested.left rngs s'.rngs s.total
          s.range.0 s.range.1
          (λ key x g.
            elim (sort_results-get BoxError TxOutRecord resp.tx_out_search_results ([], []) key x
              g) [ inl bad ↦ let no : none ≡ some x = bad in cc | inr f ↦ served key x f ])
          s.unique ingested.moved s.dry in
      (
        received DecodeError core k d c p resp records errs s' connection,
        run,
        ingested.unchanged.0,
        record {
          range = next_multiplier-range p.request_multiplier s.range.0 s.range.1;
          unique = u';
          apart =
              AllMoved-Apart core d m ingested.left rngs s'.rngs ingested.moved u'
                (λ nonce y x i moved.
                  index-Moved core Stored d landed resp p.request_multiplier p.dead_rng_set rngs
                    s'.rngs ingested.left nonce y x r i moved)
                s.apart;
          total = total';
          dry = dry';
          test = is_dead rngs p.request_multiplier;
          dead = refl;
          was_dead = λ nonce rng i h.
              round-NotLanded core Stored d landed resp p.request_multiplier p.dead_rng_set rngs
                s'.rngs ingested.left p.new_highest_processed_block_count nonce rng r s.was_dead i
                (now_dead (is_dead rngs p.request_multiplier) s'.rngs nonce rng u' i h);
        },
      )
