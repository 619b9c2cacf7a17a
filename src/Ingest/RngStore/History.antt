-- ===== src/Ingest/RngStore/History.antt =====
-- Histories of rng_store.rs, and the generator of a client beside them.
use fog.Prelude.{
  ℕ, zero, suc, ◌+◌, ◌%◌, ◌<◌, ◌≡◌, refl, sym, ap, subst, ◌∙◌, inl, inr, Bool, true, false, none,
  some, List, [], ◌∷◌, arith, if◌then◌else◌, Bool-cases,
}
use fog.Prelude.Words.{u64_mod, add64}
use fog.Prelude.Bytes.{Bytes, bytes_beq, bytes_beq_iff}
use fog.Prelude.Lists.{All, length}
use fog.Prelude.Result.{ok}
use fog.Oblivious.{ObliviousMap, ObliviousMapLaws}
use fog.KexRng.Core.{KexRngCore, Kex, KexLaws}
use fog.KexRng.Buffered.{
  BufferedKexRng, v0, from_public_key, from_secret, take_outputs, new_from_static_static,
  versioned_try_from_kex_pubkey,
}
use fog.KexRng.Sequence.{
  outputs_from, take_outputs-advance_by, versioned_try_from_kex_pubkey-agrees,
}
use fog.Ingest.RngStore.{RngStore, flip_first, new, next_rng_output}
use fog.Ingest.RngStore.Counters.{IsSecret, count, count_in, next_rng_output-Draws}

-- The users whose outputs are drawn one after another, each with its output, up to the first
-- overflow, after which the enclave clears the store.
unfoldable pub draw_all :
    (o : ObliviousMap) (core : KexRngCore) → List Bytes → RngStore o → List (Bytes × Bytes)
draw_all o core [] s = []
draw_all o core (u ∷ us) s = elim (next_rng_output o core u s) [
  | none ↦ []
  | some ((overflowed, output), s') ↦
      let rest = draw_all o core us s' in if overflowed then [] else (u, output) ∷ rest
]

-- The outputs of one user.
abbrev pub outputs_of : Bytes → List (Bytes × Bytes) → List Bytes
outputs_of j [] = []
outputs_of j ((u, output) ∷ rest) =
    if bytes_beq u j then output ∷ outputs_of j rest else outputs_of j rest

outputs_from-mod :
    (core : KexRngCore) (secret : Bytes) (n i j : ℕ)
    → i % u64_mod ≡ j % u64_mod
    → outputs_from core secret i n ≡ outputs_from core secret j n
outputs_from-mod core secret zero i j e = refl
outputs_from-mod core secret (suc n) i j e =
    rw (e, outputs_from-mod core secret n (i + 1) (j + 1) (omega arith))

module _ (core : KexRngCore) (j : Bytes) where
  -- `outs` is what the user's generator gives from output `i` on.
  abbrev Follows : ℕ → List (Bytes × Bytes) → Type 0
  Follows i outs = outputs_of j outs ≡ outputs_from core j i (length (outputs_of j outs))

  Follows-cons :
      (c c' : ℕ) (u output : Bytes) (outs : List (Bytes × Bytes))
      → c < u64_mod
      → (u ≡ j → output ≡ core.prf j c)
      → c' ≡ (if bytes_beq u j then add64 c 1 else c)
      → Follows c' outs
      → Follows c ((u, output) ∷ outs)
  Follows-cons c c' u output outs lt now step rest = elim (Bool-cases (bytes_beq u j)) [
    | inr e ↦ rw e (subst (λ x. Follows x outs) (rw e at step) rest)
    | inl e ↦
        let outs_j = outputs_of j outs in
        let head : output ≡ core.prf j (c % u64_mod) =
          now ((bytes_beq_iff u j).0 e) ∙ ap (core.prf j) (omega arith) in
        let next : c' ≡ add64 c 1 = rw e at step in
        let tail : outs_j ≡ outputs_from core j (c + 1) (length outs_j) =
          rest ∙ outputs_from-mod core j (length outs_j) c' (c + 1) (omega arith) in
        rw e (cc (head, tail))
  ]

count_step :
    (u j : Bytes) (f : Bytes → ℕ) (n : ℕ)
    → n ≡ (if bytes_beq u j then add64 (f u) 1 else f j)
    → n ≡ (if bytes_beq u j then add64 (f j) 1 else f j)
count_step u j f n h = elim (Bool-cases (bytes_beq u j)) [
  | inr e ↦ rw e (rw e at h)
  | inl e ↦ rw e (subst (λ x. n ≡ add64 (f x) 1) ((bytes_beq_iff u j).0 e) (rw e at h))
]

count_step-lt : (b : Bool) (c n : ℕ) → c < u64_mod → n ≡ (if b then add64 c 1 else c) → n < u64_mod
count_step-lt true c n h e = omega arith
count_step-lt false c n h e = omega arith

module _ (o : ObliviousMap) (laws : ObliviousMapLaws o) (core : KexRngCore) where
  -- Whatever users are served in whatever order up to the first overflow, the outputs of each user are
  -- the values of the function at consecutive counters, modulo 2^64, from the user's counter on.
  pub draw_all-outputs_from :
      (j : Bytes)
      → IsSecret j
      → (us : List Bytes) → All IsSecret us
      → (s : RngStore o) (m : o.Map) → s.omap ≡ some m
      → count o s j < u64_mod
      → Follows core j (count o s j) (draw_all o core us s)
  unfolding draw_all
  draw_all-outputs_from j jv [] av s m e lt = refl
  draw_all-outputs_from j jv (u ∷ us) av s m e lt =
      let (overflowed, output, s', m', ret, e', draws) =
        next_rng_output-Draws o laws core u s m e in
      elim (Bool-cases overflowed) [
        | inl over ↦ rw (ret, over, draw_all) refl
        | inr fits ↦
            let d = draws av.0 fits in
            let step = count_step u j (count o s) (count o s' j) (d.counts j jv) in
            rw (ret, fits, draw_all)
              (Follows-cons core j (count o s j) (count o s' j) u output (draw_all o core us s') lt
                (λ same. d.drawn ∙ ap (λ x. core.prf x (count o s x)) same) step
                (draw_all-outputs_from j jv us av.1 s' m' e'
                  (count_step-lt (bytes_beq u j) (count o s j) (count o s' j) lt step)))
      ]

module _ (o : ObliviousMap) (laws : ObliviousMapLaws o) (core : KexRngCore) (k : Kex)
    (klaws : KexLaws k) where
  open k use {Private, to_public, key_exchange}

  -- A client builds its generator from the public half of the enclave's egress key. Whatever users a
  -- new store serves in whatever order up to the first overflow, the outputs for this client are those
  -- that the client's generator gives, in the same order and with none left out.
  pub draw_all-take_outputs :
      (server client : Private) (us : List Bytes) (desired_capacity : ℕ)
      → let secret = key_exchange server (to_public client) in
        let outs = outputs_of secret (draw_all o core us (new o desired_capacity)) in
        IsSecret secret
        → All IsSecret us
        → (rng : BufferedKexRng) × (versioned_try_from_kex_pubkey core k
              (from_public_key core k (to_public server))
              client
            ≡ ok (v0 rng))
          × (outs ≡ take_outputs core (length outs) rng)
  unfolding new_from_static_static new count
  draw_all-take_outputs server client us desired_capacity v av =
      let secret = key_exchange server (to_public client) in
      let s = new o desired_capacity in
      let fresh : count o s secret ≡ 0 =
        ap count_in (laws.lookup-create desired_capacity (flip_first secret)) in
      let outs = outputs_of secret (draw_all o core us s) in
      let follows : outs ≡ outputs_from core secret 0 (length outs) =
        draw_all-outputs_from o laws core secret v us av s (o.create desired_capacity) refl
          (omega arith)
        ∙ ap (λ i. outputs_from core secret i (length outs)) fresh in
      (
        from_secret core secret,
        (versioned_try_from_kex_pubkey-agrees core k klaws server client).0,
        follows ∙ sym (take_outputs-advance_by core secret 0 (length outs)).1,
      )
