-- ===== src/Examples/Generators.antt =====
-- Runs of buffered.rs and rng_store.rs, with the models of the key exchange and of the hash.
use fog.Prelude.{◌%◌, ◌≡◌, refl, Bool, some, List, [], ◌∷◌, arith}
use fog.Prelude.Words.{u64_mod}
use fog.Prelude.Bytes.{Bytes, bytes_eq, to_le_bytes, from_le_bytes}
use fog.Prelude.Lists.{length}
use fog.Prelude.Map.{get, insert}
use fog.Prelude.Result.{ok}
use fog.KexRng.Core.{StoredRng, prf}
use fog.KexRng.Buffered.{
  BufferedKexRng, v0, from_secret, from_public_key, new_from_static_static, take_outputs,
  versioned_try_from_kex_pubkey, versioned_to_stored, versioned_of_stored, of_stored,
}
use fog.KexRng.Sequence.{
  outputs_from, advance_by, take_outputs-advance_by, versioned_try_from_kex_pubkey-agrees,
}
use fog.KexRng.Stored.{versioned_of_stored-versioned_to_stored, versioned_of_stored-ok}
use fog.Ingest.RngStore.{RngStore, new, next_rng_output}
use fog.Ingest.RngStore.Counters.{IsSecret, count, next_rng_output-Draws}
use fog.Ingest.RngStore.History.{draw_all, outputs_of, draw_all-outputs_from, draw_all-take_outputs}
use fog.Examples.Models.{list_map, list_map_laws, number_kex, number_kex_laws, core}

abbrev alice : Bytes
alice = 15 ∷ []

abbrev bob : Bytes
bob = 21 ∷ []

take_outputs-advance_by_example :
    ((advance_by core 2 (from_secret core alice)).counter ≡ 2 % u64_mod)
    × (take_outputs core 3 (advance_by core 2 (from_secret core alice))
        ≡ outputs_from core alice 2 3)
take_outputs-advance_by_example = take_outputs-advance_by core alice 2 3

versioned_try_from_kex_pubkey-agrees_example :
    versioned_try_from_kex_pubkey core number_kex (new_from_static_static core number_kex 3 5).0 5
    ≡ ok (v0 (new_from_static_static core number_kex 3 5).1)
versioned_try_from_kex_pubkey-agrees_example =
    (versioned_try_from_kex_pubkey-agrees core number_kex number_kex_laws 3 5).0

abbrev stored : BufferedKexRng
stored = record {
  secret = alice;
  counter = 7;
  buffer = 1 ∷ 2 ∷ 3 ∷ 4 ∷ 5 ∷ 6 ∷ 7 ∷ 8 ∷ 9 ∷ 10 ∷ 11 ∷ 12 ∷ 13 ∷ 14 ∷ 15 ∷ 16 ∷ [];
}

versioned_of_stored-versioned_to_stored_example :
    versioned_of_stored core number_kex (versioned_to_stored core number_kex (v0 stored))
    ≡ ok (v0 stored)
versioned_of_stored-versioned_to_stored_example =
    versioned_of_stored-versioned_to_stored core number_kex stored refl refl

abbrev stored_form : StoredRng
stored_form = record { secret = stored.secret; buffer = stored.buffer; counter = 7; version = 0 }

versioned_of_stored-ok_example : versioned_to_stored core number_kex (v0 stored) ≡ stored_form
unfolding versioned_of_stored of_stored
versioned_of_stored-ok_example = (versioned_of_stored-ok core number_kex stored_form stored refl).3

-- Two users in turn, and a counter for each.
abbrev two_users : List Bytes
two_users = alice ∷ bob ∷ alice ∷ []

IsSecret-alice : IsSecret alice
IsSecret-alice = (omega arith, λ e. cc)

IsSecret-bob : IsSecret bob
IsSecret-bob = (omega arith, λ e. cc)

abbrev empty_store : RngStore list_map
empty_store = record { omap = some []; desired_capacity = 4 }

next_rng_output-Draws_example :
    (overflowed : Bool) × (output : Bytes) × (s' : RngStore list_map) × (next_rng_output list_map
        core alice empty_store
      ≡ some ((overflowed, output), s'))
next_rng_output-Draws_example =
    let a = next_rng_output-Draws list_map list_map_laws core alice empty_store [] refl in
    (a.0, a.1, a.2, a.4)

draw_all-outputs_from_example :
    outputs_of alice (draw_all list_map core two_users empty_store)
    ≡ outputs_from core alice
        (count list_map empty_store alice)
        (length (outputs_of alice (draw_all list_map core two_users empty_store)))
unfolding count get
draw_all-outputs_from_example =
    draw_all-outputs_from list_map list_map_laws core alice IsSecret-alice two_users
      (IsSecret-alice, (IsSecret-bob, (IsSecret-alice, tt))) empty_store [] refl (omega arith)

-- With alice's public key 5 and the enclave's private key 3 the shared secret is alice's.
draw_all-take_outputs_example :
    (rng : BufferedKexRng) × (versioned_try_from_kex_pubkey core number_kex
        (from_public_key core number_kex 3)
        5
      ≡ ok (v0 rng))
    × (outputs_of alice (draw_all list_map core two_users (new list_map 4))
        ≡ take_outputs core
            (length (outputs_of alice (draw_all list_map core two_users (new list_map 4))))
            rng)
draw_all-take_outputs_example =
    draw_all-take_outputs list_map list_map_laws core number_kex number_kex_laws 3 5 two_users 4
      IsSecret-alice (IsSecret-alice, (IsSecret-bob, (IsSecret-alice, tt)))

-- The third draw is alice's second.
draw_all_test :
    outputs_of alice (draw_all list_map core two_users empty_store)
    ≡ core.prf alice 0 ∷ core.prf alice 1 ∷ []
unfolding draw_all next_rng_output get insert prf to_le_bytes from_le_bytes
draw_all_test = refl
