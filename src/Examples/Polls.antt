-- ===== src/Examples/Polls.antt =====
-- A poll of a view server that knows one output for the client. The pseudorandom function writes the
-- counter before the secret.
use fog.Prelude.{
  ℕ, subst, zero, ◌<◌, none, suc, ◌+◌, ◌≡◌, refl, ap, sym, ◌∙◌, inl, inr, Bool, true, false, Option,
  some, List, [], ◌∷◌, if◌then◌else◌, Bool-cases, arith,
}
use fog.Prelude.Words.{u64_mod, add64-no_wrap}
use fog.Prelude.Bytes.{Bytes, bytes_eq, bytes_beq, bytes_beq_iff}
use fog.Prelude.Lists.{In, here, there}
use fog.Prelude.Map.{get, insert, remove}
use fog.Prelude.Queries.{any, filter}
use fog.Prelude.Result.{Result, ok}
use fog.KexRng.Core.{KexRngCore}
use fog.KexRng.Buffered.{
  VersionedKexRng, inner, index, from_secret, try_from_kex_pubkey, versioned_try_from_kex_pubkey,
  v0, advance, versioned_advance, take_outputs, next,
}
use fog.View.Query.{QueryResponse}
use fog.View.SearchResult.{TxOutSearchResult, try_from_u32}
use fog.View.UserRngSet.{
  UserRngSet, Decryption, ingest_rng_record, ingest_tx_out_search_results, drain, drain_all,
  sort_results, old_maids, decrypt_tx_out_result,
}
use fog.View.UserRngSet.Sorting.{IsFound}
use fog.View.Polling.{
  FogViewConnection, Polled, poll, rounds, take_response, first_poll, finish_poll,
  ingest_rng_records, dead_rngs, is_dead, next_multiplier,
}
use fog.View.UserRngSet.Drain.{advances}
use fog.View.Polling.Asked.{output, Apart}
use fog.View.Polling.Landed.{IsComplete}
use fog.View.Polling.Ends.{poll-ends}
use fog.View.Polling.Complete.{IsUpToDate, poll-IsUpToDate}
use fog.Examples.Models.{number_kex}

abbrev counting : KexRngCore
counting = record { output_size = 2; version_id = 0; prf = λ secret counter. counter ∷ secret }

abbrev first_output : Bytes
first_output = 0 ∷ 15 ∷ []

abbrev hit : TxOutSearchResult
hit = record { search_key = first_output; result_code = 1; ciphertext = 1 ∷ 44 ∷ [] }

abbrev results_for : Bool → List TxOutSearchResult
results_for true = hit ∷ []
results_for false = []

abbrev response : List Bytes → QueryResponse
response keys = record {
  highest_processed_block_count = 10;
  highest_processed_block_signature_timestamp = 0;
  next_start_from_user_event_id = 7;
  missed_block_ranges = [];
  rng_records =
      record {
        ingest_invocation_id = 1;
        pubkey = record { public_key = 5 ∷ []; version = 0 };
        start_block = 0;
      }
      ∷ [];
  decommissioned_ingest_invocations = [];
  tx_out_search_results = results_for (any (bytes_beq first_output) keys);
  last_known_block_count = 10;
  last_known_block_cumulative_txo_count = 1;
}

-- The state counts the requests.
abbrev server : FogViewConnection
server = record {
  State = ℕ;
  Error = ℕ;
  request = λ start_event start_block keys n. (ok (response keys), n + 1);
}

abbrev open_box : Bytes → Result ℕ (Bool × Bytes)
open_box b = ok (true, b)

abbrev decryption : Decryption ℕ Bytes
decryption = record { decrypt_in_place = open_box; decode = λ b. some b }

abbrev new_client : UserRngSet
new_client = record {
  rngs = [];
  highest_processed_block_count = 0;
  next_start_from_user_event_id = 0;
}

poll_test :
    poll ℕ ℕ Bytes counting number_kex decryption server 3 3 new_client 0
    ≡ some (record {
      records = (1 ∷ 44 ∷ []) ∷ [];
      errs = [];
      user_rng_set = record {
        rngs = (5 ∷ [], v0 (record { secret = 15 ∷ []; counter = 1; buffer = 1 ∷ 15 ∷ [] })) ∷ [];
        highest_processed_block_count = 10;
        next_start_from_user_event_id = 7;
      };
      connection = 2;
    })
unfolding poll rounds take_response first_poll finish_poll ingest_rng_records dead_rngs is_dead
    next_multiplier ingest_rng_record ingest_tx_out_search_results drain_all drain sort_results
    old_maids decrypt_tx_out_result try_from_u32 versioned_advance advance get insert any filter
    take_outputs next remove versioned_try_from_kex_pubkey try_from_kex_pubkey from_secret
poll_test = refl

abbrev IsStored : Bytes → Type 0
IsStored key = key ≡ first_output

results_for-IsStored :
    (b : Bool) (key ciphertext : Bytes) → IsFound (results_for b) key ciphertext → IsStored key
results_for-IsStored true key ciphertext (here e) = ap (λ r. r.search_key) (sym e)
results_for-IsStored true key ciphertext (there i) = elim i [ ]
results_for-IsStored false key ciphertext i = elim i [ ]

second_missing : IsStored (1 ∷ 15 ∷ []) → ⊥
second_missing e = let clash : false ≡ true = (bytes_beq_iff (1 ∷ 15 ∷ []) first_output).1 e in cc

poll-ends_example :
    (polled : Polled ℕ ℕ Bytes counting number_kex decryption server) × (poll ℕ ℕ Bytes counting
        number_kex decryption server 3 3 new_client 0
      ≡ some polled)
unfolding ingest_rng_records ingest_rng_record versioned_try_from_kex_pubkey try_from_kex_pubkey
    from_secret get insert advances versioned_advance advance
poll-ends_example =
    poll-ends ℕ counting number_kex decryption server IsStored 3 3 new_client 0 1
      (λ e b keys n key c i. results_for-IsStored (any (bytes_beq first_output) keys) key c i) tt
      (1, 0, (omega arith, (second_missing, omega arith), tt)) (omega arith)

-- The output that the server knows landed in block 4.
abbrev landed : Bytes → Option ℕ
landed key = if bytes_beq first_output key then some 4 else none

any-In : (key : Bytes) (keys : List Bytes) → In key keys → any (bytes_beq key) keys ≡ true
unfolding any
any-In key [] i = elim i [ ]
any-In key (x ∷ keys) (here e) = rw ((bytes_beq_iff key x).1 (sym e)) refl
any-In key (x ∷ keys) (there i) = elim (Bool-cases (bytes_beq key x)) [
  | inl e ↦ rw e refl
  | inr e ↦ rw e (any-In key keys i)
]

In-any : (key : Bytes) (keys : List Bytes) → any (bytes_beq key) keys ≡ true → In key keys
unfolding any
In-any key [] h = cc
In-any key (x ∷ keys) h = elim (Bool-cases (bytes_beq key x)) [
  | inl e ↦ here (sym ((bytes_beq_iff key x).0 e))
  | inr e ↦ there (In-any key keys (rw e at h))
]

landed-first_output : (key : Bytes) (b : ℕ) → landed key ≡ some b → first_output ≡ key
landed-first_output key b h = elim (Bool-cases (bytes_beq first_output key)) [
  | inl e ↦ (bytes_beq_iff first_output key).0 e
  | inr e ↦ let clash = rw e at h in cc
]

response-IsComplete : (keys : List Bytes) → IsComplete landed keys (response keys)
response-IsComplete keys = (
  λ key b i at low.
      let same = landed-first_output key b at in
      let asked = any-In first_output keys (subst (λ k. In k keys) (sym same) i) in
      (
        1 ∷ 44 ∷ [],
        rw asked (
            here (
              ap (λ k. record { search_key = k; result_code = 1; ciphertext = 1 ∷ 44 ∷ [] }) same)),
      ),
  λ key ciphertext found. elim (Bool-cases (any (bytes_beq first_output) keys)) [
    | inr e ↦ elim (rw e at found) [ ]
    | inl e ↦
        let same : key ≡ first_output = results_for-IsStored true key ciphertext (rw e at found) in
        subst (λ k. In k keys) (sym same) (In-any first_output keys e)
  ],
)

-- The outputs of the client's generator count up.
output_counts :
    (n counter : ℕ)
    → counter + n < u64_mod
    → output counting n
        (v0 (record { secret = 15 ∷ []; counter = counter; buffer = counter ∷ 15 ∷ [] }))
      ≡ (counter + n) ∷ 15 ∷ []
unfolding advances versioned_advance advance
output_counts zero counter small = let e : counter + 0 ≡ counter = omega arith in rw e refl
output_counts (suc n) counter small =
    let e = add64-no_wrap counter 1 (omega (arith, small)) in
    let f : counter + suc n ≡ counter + 1 + n = omega arith in
    rw (e, f) (output_counts n (counter + 1) (omega (arith, small)))

abbrev rng : VersionedKexRng
rng = v0 (record { secret = 15 ∷ []; counter = 0; buffer = 0 ∷ 15 ∷ [] })

same_count :
    (i j : ℕ) → i < u64_mod → j < u64_mod → output counting i rng ≡ output counting j rng → i ≡ j
same_count i j lt lt' e =
    let both : (0 + i) ∷ 15 ∷ [] ≡ (0 + j) ∷ 15 ∷ [] =
      sym (output_counts i 0 (omega (arith, lt))) ∙ e ∙ output_counts j 0 (omega (arith, lt')) in
    let heads : 0 + i ≡ 0 + j = cc in omega (arith, heads)

alone-Apart : Apart counting ((5 ∷ [], rng) ∷ [])
alone-Apart nonce nonce' x x' i j lt lt' (there p) q e = elim p [ ]
alone-Apart nonce nonce' x x' i j lt lt' (here p) (there q) e = elim q [ ]
alone-Apart nonce nonce' x x' i j lt lt' (here p) (here q) e = (
  sym (ap (λ t. t.0) p) ∙ ap (λ t. t.0) q,
  sym (ap (λ t. t.1) p) ∙ ap (λ t. t.1) q,
  same_count i j (omega (arith, subst (λ t. index (inner t.1) + i < u64_mod) (sym p) lt))
      (omega (arith, subst (λ t. index (inner t.1) + j < u64_mod) (sym q) lt'))
      (ap (λ t. output counting i t.1) p ∙ e ∙ ap (λ t. output counting j t.1) (sym q)),
)

poll-IsUpToDate_example :
    (polled : Polled ℕ ℕ Bytes counting number_kex decryption server) × (poll ℕ ℕ Bytes counting
        number_kex decryption server 3 3 new_client 0
      ≡ some polled)
    × IsUpToDate ℕ counting number_kex decryption server IsStored landed 0 polled
unfolding ingest_rng_records ingest_rng_record versioned_try_from_kex_pubkey try_from_kex_pubkey
    from_secret get insert advances versioned_advance advance
poll-IsUpToDate_example =
    poll-IsUpToDate ℕ counting number_kex decryption server IsStored landed 3 3 new_client 0 1
      (λ e b keys n. (
        response-IsComplete keys,
        λ key c i. results_for-IsStored (any (bytes_beq first_output) keys) key c i,
      ))
      tt ((1, 0, (omega arith, (second_missing, omega arith), tt)), alone-Apart) (omega arith)
