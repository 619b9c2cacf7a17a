-- ===== src/View/Polling/Complete.antt =====
-- When the poll of fog/view/protocol/src/polling.rs raises the block count, nothing was missed.
use fog.Prelude.{
  ◌⊎◌, ltb→lt, ℕ, zero, suc, ◌+◌, ◌≤◌, ◌<◌, ◌≡◌, refl, sym, subst, ◌∙◌, inl, inr, true, false,
  Option, none, some, eq_of_some, List, [], ltb, leb, leb→le, Bool-cases, arith,
}
use fog.Prelude.Bytes.{Bytes, bytes_eq, bytes_beq}
use fog.Prelude.Lists.{In, length}
use fog.Prelude.Map.{Unique}
use fog.Prelude.Queries.{any}
use fog.Prelude.Result.{Holds, of_Holds, Holds-mono, Result-cases}
use fog.KexRng.Core.{KexRngCore, Kex}
use fog.KexRng.Buffered.{VersionedKexRng, peek, inner}
use fog.View.UserRngSet.{UserRngSet, Decryption, or_insert}
use fog.View.Polling.{
  FogViewConnection, Polled, rounds, poll, first_poll, finish_poll, send_request, search_keys,
  no_events,
}
use fog.View.Polling.Round.{Dry}
use fog.View.Polling.Asked.{Apart}
use fog.View.Polling.Landed.{NotLanded}
use fog.View.Polling.Sound.{names-none, all_named, Goes, Answers, Sound, round-Sound}
use fog.View.Polling.Ends.{ingest_rng_records_keep, records-Unique, first_rngs, poll-ends}

or_insert-count :
    (blocks : ℕ) (o : Option VersionedKexRng) (s : UserRngSet) (nonce : Bytes)
    (rng : VersionedKexRng)
    → s.highest_processed_block_count ≡ blocks
    → (or_insert o s nonce rng).highest_processed_block_count ≡ blocks
or_insert-count blocks (some old) s nonce rng h = h
or_insert-count blocks none s nonce rng h = h

module _ {BoxError TxOutRecord : Type 0} (DecodeError : Type 0) (core : KexRngCore) (k : Kex)
    (d : Decryption BoxError TxOutRecord) (c : FogViewConnection) (Stored : Bytes → Type 0)
    (landed : Bytes → Option ℕ) where
  -- Every answer of the server is complete, whatever it is asked and whatever its state.
  abbrev pub IsHonest : Type 0
  IsHonest =
      (start_from_user_event_id start_from_block_index : ℕ) (search_keys : List Bytes)
      (connection : c.State)
      → Holds (Answers DecodeError core k d c Stored landed search_keys)
          (c.request start_from_user_event_id start_from_block_index search_keys connection).0

  -- The block count stays, or it is raised and no generator's next output has landed in the blocks
  -- that it covers.
  abbrev pub IsUpToDate : ℕ → Polled BoxError DecodeError TxOutRecord core k d c → Type 0
  IsUpToDate before polled =
      (polled.user_rng_set.highest_processed_block_count ≡ before)
      ⊎ ((before < polled.user_rng_set.highest_processed_block_count)
          × ((nonce : Bytes) (rng : VersionedKexRng)
              → In (nonce, rng) polled.user_rng_set.rngs
              → NotLanded landed polled.user_rng_set.highest_processed_block_count
                  (peek (inner rng))))

  finish_poll-IsUpToDate :
      (before : ℕ) (p : Goes DecodeError core k d c Stored landed)
      → Sound DecodeError core k d c Stored landed p
      → p.polled.user_rng_set.highest_processed_block_count ≡ before
      → leb (length p.polled.user_rng_set.rngs) (length p.dead_rng_set) ≡ true
      → IsUpToDate before (finish_poll BoxError DecodeError TxOutRecord core k d c p)
  unfolding finish_poll
  finish_poll-IsUpToDate before p s same all =
      let rngs = p.polled.user_rng_set.rngs in
      elim (Bool-cases (
        ltb p.polled.user_rng_set.highest_processed_block_count
          p.new_highest_processed_block_count)) [
            | inr e ↦ rw e (inl same)
            | inl e ↦ rw e (
                inr (
                  omega (
                    arith,
                    same,
                    ltb→lt p.polled.user_rng_set.highest_processed_block_count
                        p.new_highest_processed_block_count e,
                  ),
                  λ nonce rng i. s.was_dead nonce rng i (
                      subst (λ x. any (bytes_beq nonce) x ≡ true) (sym s.dead)
                        (all_named s.test rngs (nonce, rng)
                          (subst (λ x. length rngs ≤ length x) s.dead
                            (leb→le (length rngs) (length p.dead_rng_set) all))
                          i)),
                ))
          ]

  rounds-IsUpToDate :
      (fuel before : ℕ) (p : Goes DecodeError core k d c Stored landed)
      (polled : Polled BoxError DecodeError TxOutRecord core k d c)
      → IsHonest
      → Sound DecodeError core k d c Stored landed p
      → p.polled.user_rng_set.highest_processed_block_count ≡ before
      → rounds BoxError DecodeError TxOutRecord core k d c fuel p ≡ some polled
      → IsUpToDate before polled
  unfolding rounds
  rounds-IsUpToDate zero before p polled honest s same run = cc
  rounds-IsUpToDate (suc fuel) before p polled honest s same run =
      let sent = send_request BoxError DecodeError TxOutRecord core k d c p in
      elim (Bool-cases (leb (length p.polled.user_rng_set.rngs) (length p.dead_rng_set))) [
        | inl e ↦
            subst (IsUpToDate before) (eq_of_some (rw (e, rounds) at run))
              (finish_poll-IsUpToDate before p s same e)
        | inr e ↦ elim (Result-cases sent.0) [
          | inr (x, f) ↦
              subst (IsUpToDate before) (eq_of_some (rw (e, f, rounds) at run)) (inl same)
          | inl (resp, f) ↦
              let answers =
                of_Holds
                  (Answers DecodeError core k d c Stored landed
                    (search_keys BoxError DecodeError TxOutRecord core k d c p))
                  (honest no_events p.polled.user_rng_set.highest_processed_block_count
                    (search_keys BoxError DecodeError TxOutRecord core k d c p) p.polled.connection)
                  f in
              let (p', took, count, s') =
                round-Sound DecodeError core k d c Stored landed p resp sent.1 s answers in
              rounds-IsUpToDate fuel before p' polled honest s' (count ∙ same)
                (rw (e, f, took, rounds) at run)
        ]
      ]

  poll_ended :
      (fuel : ℕ) (upriv : k.Private) (s : UserRngSet) (connection : c.State)
      (polled : Polled BoxError DecodeError TxOutRecord core k d c)
      → IsHonest
      → Unique s.rngs
      → Holds
          (λ resp.
            (total : ℕ) × Dry core Stored total (first_rngs DecodeError core k d c upriv s resp)
            × Apart core (first_rngs DecodeError core k d c upriv s resp))
          (c.request s.next_start_from_user_event_id s.highest_processed_block_count []
            connection).0
      → poll BoxError DecodeError TxOutRecord core k d c fuel upriv s connection ≡ some polled
      → IsUpToDate s.highest_processed_block_count polled
  unfolding poll first_poll any
  poll_ended fuel upriv s connection polled honest u first run =
      let answer =
        c.request s.next_start_from_user_event_id s.highest_processed_block_count [] connection in
      elim (Result-cases answer.0) [
        | inr (x, f) ↦
            subst (IsUpToDate s.highest_processed_block_count) (eq_of_some (rw (f, poll) at run))
              (inl refl)
        | inl (resp, f) ↦
            let p = first_poll BoxError DecodeError TxOutRecord core k d c upriv s resp answer.1 in
            let (total, dry, apart) = of_Holds _ first f in
            let same =
              ingest_rng_records_keep DecodeError core k d c
                (λ t. t.highest_processed_block_count ≡ s.highest_processed_block_count)
                (or_insert-count s.highest_processed_block_count) upriv resp.rng_records s []
                refl in
            elim (Bool-cases (
              leb p.new_highest_processed_block_count
                p.polled.user_rng_set.highest_processed_block_count)) [
                  | inl e ↦
                      subst (IsUpToDate s.highest_processed_block_count)
                        (eq_of_some (rw (f, e, poll) at run)) (inl same)
                  | inr e ↦
                      rounds-IsUpToDate fuel s.highest_processed_block_count p polled honest
                        (record {
                          range = (omega arith, omega arith);
                          unique =
                              records-Unique DecodeError core k d c upriv resp.rng_records s [] u;
                          apart = apart;
                          total = total;
                          dry = dry;
                          test = λ e. false;
                          dead = sym (names-none p.polled.user_rng_set.rngs);
                          was_dead = λ nonce rng i h. let clash : false ≡ true = h in cc;
                        })
                        same (rw (f, e, poll) at run)
                ]
      ]

  -- A poll returns. It leaves the block count, or raises it, and then no generator's next output has
  -- landed in the blocks that the new count covers. The server may answer with an error, but its other
  -- answers are complete and hold only stored keys that were asked for; after the first answer the
  -- generators have no output in common, and each comes to an output that is not stored. `total` is how
  -- far they can advance together, and two rounds more are enough.
  pub poll-IsUpToDate :
      (fuel : ℕ) (upriv : k.Private) (s : UserRngSet) (connection : c.State) (total : ℕ)
      → IsHonest
      → Unique s.rngs
      → Holds
          (λ resp.
            Dry core Stored total (first_rngs DecodeError core k d c upriv s resp)
            × Apart core (first_rngs DecodeError core k d c upriv s resp))
          (c.request s.next_start_from_user_event_id s.highest_processed_block_count []
            connection).0
      → total + 2 ≤ fuel
      → (polled : Polled BoxError DecodeError TxOutRecord core k d c) × (poll BoxError DecodeError
            TxOutRecord core k d c fuel upriv s connection
          ≡ some polled)
        × IsUpToDate s.highest_processed_block_count polled
  poll-IsUpToDate fuel upriv s connection total honest u first enough =
      let answer =
        (c.request s.next_start_from_user_event_id s.highest_processed_block_count []
          connection).0 in
      let (polled, run) =
        poll-ends DecodeError core k d c Stored fuel upriv s connection total
          (λ e b keys n. Holds-mono (c.request e b keys n).0 (λ resp h. h.1) (honest e b keys n)) u
          (Holds-mono answer (λ resp h. h.0) first) enough in
      (
        polled,
        run,
        poll_ended fuel upriv s connection polled honest u
            (Holds-mono answer (λ resp h. (total, h.0, h.1)) first) run,
      )
