-- ===== src/View/DbFetcher/Order.antt =====
-- In which order the blocks of a key leave the fetcher of db_fetcher.rs.
use fog.Prelude.{
  ◌≢◌, ◌&&◌, not, ℕ, ◌≡◌, ◌==◌, ==→eq, refl, sym, subst, ap, inl, inr, Bool, true, Option, none,
  some, List, [], ◌∷◌, ◌++◌, if◌then◌else◌, Bool-cases,
}
use fog.Prelude.Words.{add64}
use fog.Prelude.Map.{Map, get, insert, nat_eq, get-insert}
use fog.Prelude.Result.{Result, ok, err}
use fog.Recovery.IngressKey.{PublicKey, IngressPublicKeyRecord}
use fog.Recovery.Sql.Blocks.{ETxOutRecord}
use fog.View.Tracker.{new, block_processed, moves_forward}
use fog.View.DbFetcher.Due.{Waits, Due-insert, next_blocks-Due}
use fog.View.DbFetcher.{
  FetchedRecords, DbFetcherSharedState, in_loop, panicked, Threads, Step, Reach, initially, next,
  start, load_ingress_keys, begin_round, load_block, begin_load_block_data, count_queued,
  end_load_block_data, take_fetched_records, reset_num_queued_records, stop, round_begins,
  load_begins, block_loads, queue_has_room, load_ends, records_are_taken, number_is_reset,
  stop_is_requested,
}

-- The blocks of a key, in the order of the list.
abbrev pub blocks_of : PublicKey → List FetchedRecords → List ℕ
blocks_of key [] = []
blocks_of key (r ∷ rs) =
    if r.ingress_key == key then r.block_index ∷ blocks_of key rs else blocks_of key rs

-- Block after block without a gap, up to the last one that was processed.
pub data IsRun : List ℕ → Option ℕ → Type 0 where
  nothing : IsRun [] none
  first : (b : ℕ) → IsRun (b ∷ []) (some b)
  after :
      {bs : List ℕ} (n : ℕ) → IsRun bs (some n) → IsRun (bs ++ (add64 n 1 ∷ [])) (some (add64 n 1))

IsRun-append :
    (bs : List ℕ) (o : Option ℕ) (b : ℕ)
    → IsRun bs o
    → moves_forward o b ≡ true
    → IsRun (bs ++ (b ∷ [])) (some b)
IsRun-append bs none b nothing h = first b
IsRun-append bs (some n) b r h =
    subst (λ c. IsRun (bs ++ (c ∷ [])) (some c)) (sym (==→eq b (add64 n 1) h)) (after n r)

blocks_of-append :
    (key : PublicKey) (rs : List FetchedRecords) (r : FetchedRecords)
    → blocks_of key (rs ++ (r ∷ [])) ≡ (
        if r.ingress_key == key then blocks_of key rs ++ (r.block_index ∷ []) else blocks_of key rs)
blocks_of-append key [] r = refl
blocks_of-append key (x ∷ rs) r =
    let rest = blocks_of-append key rs r in
    elim (Bool-cases (x.ingress_key == key)) [
      | inr e ↦ rw e rest
      | inl e ↦ rw e (elim (Bool-cases (r.ingress_key == key)) [
        | inl f ↦ rw f (ap (λ bs. x.block_index ∷ bs) (rw f at rest))
        | inr f ↦ rw f (ap (λ bs. x.block_index ∷ bs) (rw f at rest))
      ])
    ]

-- What holds of the threads at every time.
pub record IsInOrder (w : Threads) : Type 0 where
  pub runs :
      (key : PublicKey)
      → IsRun
          (blocks_of key (w.taken ++ w.fetcher.shared_state.fetched_records))
          (get w.fetcher.block_tracker.processed_block_per_ingress_key key)
  due : Waits w.fetcher.block_tracker.processed_block_per_ingress_key w.fetcher.position

append_nil {ℓ} : {A : Type ℓ} (xs : List A) → xs ++ [] ≡ xs
append_nil [] = refl
append_nil (x ∷ xs) = ap (λ l. x ∷ l) (append_nil xs)

append_assoc {ℓ} : {A : Type ℓ} (xs ys zs : List A) → xs ++ (ys ++ zs) ≡ (xs ++ ys) ++ zs
append_assoc [] ys zs = refl
append_assoc (x ∷ xs) ys zs = ap (λ l. x ∷ l) (append_assoc xs ys zs)

-- A block that is pushed and marked.
pushed-IsRun :
    (m : Map PublicKey ℕ) (old : List FetchedRecords) (r : FetchedRecords)
    → moves_forward (get m r.ingress_key) r.block_index ≡ true
    → ((key : PublicKey) → IsRun (blocks_of key old) (get m key))
    → (key : PublicKey)
    → IsRun (blocks_of key (old ++ (r ∷ []))) (get (insert m r.ingress_key r.block_index) key)
pushed-IsRun m old r h runs key = elim (Bool-cases (r.ingress_key == key)) [
  | inl e ↦
      let same = ==→eq r.ingress_key key e in
      rw (blocks_of-append key old r, get-insert m r.ingress_key key r.block_index, e)
        (IsRun-append (blocks_of key old) (get m key) r.block_index (runs key)
          (subst (λ k. moves_forward (get m k) r.block_index ≡ true) same h))
  | inr e ↦
      rw (blocks_of-append key old r, get-insert m r.ingress_key key r.block_index, e) (runs key)
]

end_load_block_data-IsInOrder :
    (w : Threads) (more : Bool)
    → IsInOrder w
    → IsInOrder (record w { fetcher = end_load_block_data more w.fetcher })
unfolding end_load_block_data
end_load_block_data-IsInOrder w more v = elim (Bool-cases (more && not w.fetcher.stop_requested)) [
  | inl e ↦ record { runs = v.runs; due = rw e tt }
  | inr e ↦ record { runs = v.runs; due = rw e tt }
]

take_fetched_records-IsInOrder :
    (w : Threads)
    → IsInOrder w
    → IsInOrder (record {
      fetcher = (take_fetched_records w.fetcher).1;
      taken = w.taken ++ (take_fetched_records w.fetcher).0;
      in_reset = true;
    })
unfolding take_fetched_records
take_fetched_records-IsInOrder w v = record {
  runs = λ key.
      subst
        (λ l.
          IsRun (blocks_of key l) (get w.fetcher.block_tracker.processed_block_per_ingress_key key))
        (sym (append_nil (w.taken ++ w.fetcher.shared_state.fetched_records))) (v.runs key);
  due = v.due;
}

module _ {E : Type 0} where
  load_block-IsInOrder :
      (w : Threads) (answer : Result E (Option (List ETxOutRecord))) (k : PublicKey) (b : ℕ)
      (rest : Map PublicKey ℕ) (more : Bool)
      → w.fetcher.position ≡ in_loop ((k, b) ∷ rest) more
      → IsInOrder w
      → IsInOrder (record w { fetcher = load_block answer k b rest more w.fetcher })
  unfolding load_block block_processed
  load_block-IsInOrder w (err e) k b rest more p v =
      let ((moves, all), (alone, u)) =
        subst (Waits w.fetcher.block_tracker.processed_block_per_ingress_key) p v.due in
      record { runs = v.runs; due = (all, u) }
  load_block-IsInOrder w (ok none) k b rest more p v =
      let ((moves, all), (alone, u)) =
        subst (Waits w.fetcher.block_tracker.processed_block_per_ingress_key) p v.due in
      record { runs = v.runs; due = (all, u) }
  load_block-IsInOrder w (ok (some tx_outs)) k b rest more p v =
      let m = w.fetcher.block_tracker.processed_block_per_ingress_key in
      let ((moves, all), (alone, u)) = subst (Waits m) p v.due in
      rw moves (record {
        runs = λ key.
            subst (λ l. IsRun (blocks_of key l) (get (insert m k b) key))
              (sym (append_assoc w.taken w.fetcher.shared_state.fetched_records _))
              (pushed-IsRun m (w.taken ++ w.fetcher.shared_state.fetched_records)
                (record { ingress_key = k; block_index = b; records = tx_outs }) moves v.runs key);
        due = Due-insert m rest k b alone (all, u);
      })

  load_ingress_keys-fetched :
      (answer : Result E (List IngressPublicKeyRecord)) (s : DbFetcherSharedState)
      → (load_ingress_keys answer s).fetched_records ≡ s.fetched_records
  unfolding load_ingress_keys
  load_ingress_keys-fetched (ok records) s = refl
  load_ingress_keys-fetched (err e) s = refl

  begin_round-IsInOrder :
      (w : Threads) (answer : Result E (List IngressPublicKeyRecord))
      → IsInOrder w
      → IsInOrder (record w { fetcher = begin_round answer w.fetcher })
  unfolding begin_round
  begin_round-IsInOrder w answer v = elim (Bool-cases w.fetcher.stop_requested) [
    | inl e ↦ rw e (record { runs = v.runs; due = tt })
    | inr e ↦ rw e (record {
      runs = λ key.
          subst
            (λ l.
              IsRun (blocks_of key (w.taken ++ l))
                (get w.fetcher.block_tracker.processed_block_per_ingress_key key))
            (sym (load_ingress_keys-fetched answer w.fetcher.shared_state)) (v.runs key);
      due = tt;
    })
  ]

  Step-IsInOrder : {w w' : Threads} → Step E w w' → IsInOrder w → IsInOrder w'
  unfolding begin_load_block_data count_queued reset_num_queued_records stop
  Step-IsInOrder {w} {w'} (round_begins answer p) v = begin_round-IsInOrder w answer v
  Step-IsInOrder {w} {w'} (load_begins p) v = record {
    runs = v.runs;
    due = next_blocks-Due w.fetcher.block_tracker w.fetcher.shared_state.ingress_keys;
  }
  Step-IsInOrder {w} {w'} (block_loads answer k b p) v = load_block-IsInOrder w answer k b _ _ p v
  Step-IsInOrder {w} {w'} (queue_has_room n p h) v = record {
    runs = v.runs;
    due = subst (Waits w.fetcher.block_tracker.processed_block_per_ingress_key) p v.due;
  }
  Step-IsInOrder {w} {w'} (load_ends p) v = end_load_block_data-IsInOrder w _ v
  Step-IsInOrder {w} {w'} (records_are_taken h) v = take_fetched_records-IsInOrder w v
  Step-IsInOrder {w} {w'} (number_is_reset h) v = record { runs = v.runs; due = v.due }
  Step-IsInOrder {w} {w'} stop_is_requested v = record { runs = v.runs; due = v.due }

Reach-IsInOrder : {E : Type 0} (w : Threads) → Reach E w → IsInOrder w
unfolding start new get
Reach-IsInOrder w initially = record { runs = λ key. nothing; due = tt }
Reach-IsInOrder w (next r s) = Step-IsInOrder s (Reach-IsInOrder _ r)

-- However the two threads interleave and whatever the database answers, the blocks that were taken and
-- then those that are queued are, for every key, in steps of one (modulo 2^64) up to the last block
-- that the tracker has for the key, and the thread has not panicked.
pub Reach-IsRun :
    (E : Type 0) (w : Threads)
    → Reach E w
    → ((key : PublicKey)
        → IsRun
            (blocks_of key (w.taken ++ w.fetcher.shared_state.fetched_records))
            (get w.fetcher.block_tracker.processed_block_per_ingress_key key))
      × (w.fetcher.position ≢ panicked)
Reach-IsRun E w r =
    let v = Reach-IsInOrder w r in
    (v.runs, λ p. subst (Waits w.fetcher.block_tracker.processed_block_per_ingress_key) p v.due)
