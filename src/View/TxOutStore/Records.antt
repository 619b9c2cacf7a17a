-- ===== src/View/TxOutStore/Records.antt =====
-- What `find_record` of e_tx_out_store.rs returns after `add_record`.
use fog.Prelude.{
  ℕ, zero, suc, ◌-◌, ◌<◌, ◌≤◌, ◌≡◌, ◌≢◌, refl, sym, ap, ◌∙◌, inl, inr, false, Option, none, some,
  ◌∷◌, ◌++◌, arith, ltb, ◌==◌, Bool-cases, eq→==, ==→ne, subst, ltb→lt, ltb→le, ==→eq,
}
use fog.Prelude.Bytes.{Bytes, bytes_beq, bytes_beq_iff}
use fog.Prelude.Lists.{length, take, replicate, take-append}
use fog.Prelude.Result.{Result, ok, err}
use fog.Oblivious.{
  ObliviousMap, ObliviousMapLaws, Code, found, not_found, overflow, invalid_key, IsValidKey, hit,
  value_or,
}
use fog.View.SearchResult.{TxOutSearchResult, TxOutSearchResultCode, to_u32}
use fog.View.TxOutStore.{
  ETxOutStore, AddRecordsError, key_wrong_size, value_too_large, key_rejected, map_overflow,
  key_size, value_size, encode, decode, add_record, write_record, find_record, result_code,
  add_result,
}

decode-encode : (c : Bytes) → length c ≤ value_size - 1 → decode (encode c) ≡ c
unfolding encode
decode-encode c h =
    ap (λ n. take n (c ++ replicate (value_size - 1 - length c) 0)) (omega arith)
    ∙ take-append c (replicate (value_size - 1 - length c) 0)

take-replicate : (n m : ℕ) (a : ℕ) → n ≤ m → take n (replicate m a) ≡ replicate n a
take-replicate zero m a h = refl
take-replicate (suc n) zero a h = absurd (omega arith)
take-replicate (suc n) (suc m) a h = ap (λ t. a ∷ t) (take-replicate n m a (omega arith))

-- The result for a stored value, or for a miss when the last stored ciphertext has `n` bytes.
abbrev pub answer : Bytes → Option Bytes → ℕ → TxOutSearchResult
answer k (some value) n = record {
  search_key = k;
  result_code = to_u32 TxOutSearchResultCode.found;
  ciphertext = decode value;
}
answer k none n = record {
  search_key = k;
  result_code = to_u32 TxOutSearchResultCode.not_found;
  ciphertext = replicate n 0;
}

abbrev miss : ℕ → Bytes
miss size_byte = size_byte ∷ replicate (value_size - 1) 0

answer_lem :
    (k : Bytes) (v : Option Bytes) (size_byte : ℕ)
    → record {
      search_key = k;
      result_code = to_u32 (result_code (hit v));
      ciphertext = decode (value_or v (miss size_byte));
    }
      ≡ answer k v (value_size - 1 - size_byte)
answer_lem k (some value) n = refl
answer_lem k none n =
    ap
      (λ c. record {
        search_key = k;
        result_code = to_u32 TxOutSearchResultCode.not_found;
        ciphertext = c;
      })
      (take-replicate (value_size - 1 - n) (value_size - 1) 0 (omega arith))

bytes_beq-ne : (k j : Bytes) → j ≢ k → bytes_beq k j ≡ false
bytes_beq-ne k j h = elim (Bool-cases (bytes_beq k j)) [
  | inl e ↦ absurd (h (sym ((bytes_beq_iff k j).0 e)))
  | inr e ↦ e
]

module _ (o : ObliviousMap) (laws : ObliviousMapLaws o) where
  find_record-answer :
      (s : ETxOutStore o) (k : Bytes)
      → length k ≡ key_size
      → IsValidKey k
      → find_record o s k
        ≡ answer k (o.lookup s.omap k) (value_size - 1 - s.last_ciphertext_size_byte)
  unfolding find_record
  find_record-answer s k e v =
      simp
        (eq→== (length k) key_size e, laws.read-valid s.omap k (miss s.last_ciphertext_size_byte) v)
        (answer_lem k (o.lookup s.omap k) s.last_ciphertext_size_byte)

  add_record-write :
      (s : ETxOutStore o) (k c : Bytes)
      → length k ≡ key_size
      → length c ≤ value_size - 1
      → add_record o s k c ≡ write_record o s k c
  unfolding add_record
  add_record-write s k c e h = ground arith

  add_result-ok : (m : o.Map) (c : Code) → add_result o m c ≡ ok tt → c ≢ overflow
  add_result-ok m found h e = cc
  add_result-ok m not_found h e = cc
  add_result-ok m overflow h e = cc
  add_result-ok m invalid_key h e = cc

  -- After a record was added without an error, a search for its key finds its ciphertext. A search for
  -- another key answers as before if it was there, and if it was not it answers with as many zeroes as
  -- the new ciphertext has bytes.
  pub find_record-add_record :
      (s : ETxOutStore o) (k c : Bytes)
      → length k ≡ key_size
      → IsValidKey k
      → length c ≤ value_size - 1
      → (add_record o s k c).0 ≡ ok tt
      → let s' = (add_record o s k c).1 in
        (find_record o s' k ≡ record {
          search_key = k;
          result_code = to_u32 TxOutSearchResultCode.found;
          ciphertext = c;
        })
        × ((j : Bytes)
            → length j ≡ key_size
            → IsValidKey j
            → j ≢ k
            → find_record o s' j ≡ answer j (o.lookup s.omap j) (length c))
  unfolding write_record
  find_record-add_record s k c e v h done =
      let written = add_record-write s k c e h in
      let w : (write_record o s k c).0 ≡ ok tt = subst (λ r. r.0 ≡ ok tt) written done in
      let ne =
        add_result-ok (o.vartime_write s.omap k (encode c)).1
          (o.vartime_write s.omap k (encode c)).0 w in
      let size : value_size - 1 - (value_size - 1 - length c) ≡ length c = omega arith in
      rw written (
        find_record-answer (write_record o s k c).1 k e v
            ∙ simp (
              laws.lookup-write s.omap k (encode c) k v ne,
              (bytes_beq_iff k k).1 refl,
              decode-encode c h,
            ),
        λ j ej vj nj.
            find_record-answer (write_record o s k c).1 j ej vj
            ∙ simp (laws.lookup-write s.omap k (encode c) j v ne, size, bytes_beq-ne k j nj),
      )

  pub data AddOutcome (s : ETxOutStore o) (k c : Bytes)
      (r : Result AddRecordsError (Unit {0}) × ETxOutStore o) : Type 0 where
    key_size_wrong : length k ≢ key_size → r ≡ (err key_wrong_size, s) → AddOutcome s k c r
    too_large : value_size - 1 < length c → r ≡ (err value_too_large, s) → AddOutcome s k c r
    rejected :
        length k ≡ key_size
        → length c ≤ value_size - 1
        → k ≡ replicate (length k) 0
        → r.0 ≡ err key_rejected
        → r.1.omap ≡ s.omap
        → AddOutcome s k c r
    added :
        length k ≡ key_size
        → length c ≤ value_size - 1
        → IsValidKey k
        → r.0 ≡ ok tt
        → find_record o r.1 k ≡ record {
          search_key = k;
          result_code = to_u32 TxOutSearchResultCode.found;
          ciphertext = c;
        }
        → ((j : Bytes) → j ≢ k → o.lookup r.1.omap j ≡ o.lookup s.omap j)
        → AddOutcome s k c r
    overflowed :
        (a b : ℕ)
        → length k ≡ key_size
        → length c ≤ value_size - 1
        → IsValidKey k
        → o.lookup s.omap k ≡ none
        → r.0 ≡ err (map_overflow a b)
        → AddOutcome s k c r

  hit_ok : (m : o.Map) (v : Option Bytes) → add_result o m (hit v) ≡ ok tt
  hit_ok m none = refl
  hit_ok m (some v) = refl

  write_record-AddOutcome :
      (s : ETxOutStore o) (k c : Bytes)
      → length k ≡ key_size
      → length c ≤ value_size - 1
      → AddOutcome s k c (write_record o s k c)
  unfolding write_record
  write_record-AddOutcome s k c e h =
      let m = (o.vartime_write s.omap k (encode c)).1 in
      elim (Bool-cases (bytes_beq k (replicate (length k) 0))) [
        | inl z ↦
            let zeroes = (bytes_beq_iff k (replicate (length k) 0)).0 z in
            let w = laws.write-invalid s.omap k (encode c) zeroes in
            rejected e h zeroes (rw w) (rw w)
        | inr nz ↦
            let valid : IsValidKey k =
              λ z. let t = (bytes_beq_iff k (replicate (length k) 0)).1 z in cc in
            elim (laws.write-code s.omap k (encode c) valid) [
              | inl code ↦
                  let done : (write_record o s k c).0 ≡ ok tt =
                    ap (add_result o m) code ∙ hit_ok m (o.lookup s.omap k) in
                  let same = add_record-write s k c e h in
                  let ne = add_result-ok m (o.vartime_write s.omap k (encode c)).0 done in
                  added e h valid done
                    (subst
                      (λ r. find_record o r.1 k ≡ record {
                        search_key = k;
                        result_code = to_u32 TxOutSearchResultCode.found;
                        ciphertext = c;
                      })
                      same
                      (find_record-add_record s k c e valid h
                        (subst (λ r. r.0 ≡ ok tt) (sym same) done)).0)
                    (λ j nj.
                      laws.lookup-write s.omap k (encode c) j valid ne
                      ∙ rw (bytes_beq-ne k j nj) refl)
              | inr (code, new_key) ↦
                  overflowed (o.len m) (o.capacity m) e h valid new_key (ap (add_result o m) code)
            ]
      ]

  -- What `add_record` does on every input. A key or a ciphertext of a wrong size is refused and
  -- nothing changes. Of right sizes, the key of all zeroes is rejected and the map is as before; any
  -- other is added without an error, so that a search for it finds the ciphertext and the map holds
  -- what it held for all other keys, unless the key is new and the map overflows.
  pub add_record-AddOutcome :
      (s : ETxOutStore o) (k c : Bytes) → AddOutcome s k c (add_record o s k c)
  add_record-AddOutcome s k c = elim (Bool-cases (length k == key_size)) [
    | inr e ↦ key_size_wrong (==→ne (length k) key_size e) (unfold add_record in rw e refl)
    | inl e ↦ elim (Bool-cases (ltb (value_size - 1) (length c))) [
      | inl large ↦ too_large (ltb→lt _ _ large) (unfold add_record in rw (e, large) refl)
      | inr fits ↦
          rw (add_record-write s k c (==→eq (length k) key_size e) (ltb→le _ _ fits))
            (write_record-AddOutcome s k c (==→eq (length k) key_size e) (ltb→le _ _ fits))
    ]
  ]
