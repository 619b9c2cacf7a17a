-- ===== src/Paykit/CachedTxData.antt =====
-- fog/sample-paykit/src/cached_tx_data/mod.rs: the client's outputs, when they were spent, and the
-- balance. The view key scan of a record is a parameter; so is the answer of the key image server.
-- `none` is a panic. Logs are left out.
pub mod Cache
pub mod Ledger
pub mod Steps
pub mod Answers
pub mod PollFog
pub mod Reached
use fog.Prelude.{
  ℕ, zero, suc, ◌+◌, ◌-◌, ◌%◌, min, max, Bool, true, false, not, Option, none, some, List, [], ◌∷◌,
  ◌++◌, map, ltb, leb, ◌==◌, if◌then◌else◌,
}
use fog.Prelude.Words.{u64_mod, add64}
use fog.Prelude.Map.{Eq, nat_eq, Map, get, insert}
use fog.Prelude.Result.{Result, ok, err}
use fog.View.Query.{TxOutRecord}
use fog.View.UserRngSet.{UserRngSet}
use fog.Paykit.InputSelection.{InputSelectionError, input_selection_heuristic}
use fog.Paykit.KeyImages.{KeyImageResult, CheckKeyImagesResponse, KeyImageQueryError, status}

-- `BlockCount::MAX`
abbrev pub block_count_max : ℕ
block_count_max = u64_mod - 1

-- `BTreeMap::insert`, without the value that it returns
unfoldable pub insert_ordered {ℓ} : {V : Type ℓ} → Map ℕ V → ℕ → V → Map ℕ V
insert_ordered [] k v = (k, v) ∷ []
insert_ordered ((j, w) ∷ m) k v =
    let rest = insert_ordered m k v in
    if j == k then (j, v) ∷ m else if ltb k j then (k, v) ∷ (j, w) ∷ m else (j, w) ∷ rest

-- `BTreeMap::values`
abbrev pub values {ℓ} : {V : Type ℓ} → Map ℕ V → List V
values [] = []
values ((k, v) ∷ m) = v ∷ values m

-- `filter` with a test that may panic
unfoldable pub filter_some {ℓ} : {A : Type ℓ} → (A → Option Bool) → List A → Option (List A)
filter_some p [] = some []
filter_some p (x ∷ xs) =
    let rest = filter_some p xs in
    elim (p x) [
      | none ↦ none
      | some b ↦ elim rest [ none ↦ none | some ys ↦ some (if b then x ∷ ys else ys) ]
    ]

-- `available[idx]`
abbrev pub at {ℓ} : {A : Type ℓ} → List A → ℕ → Option A
at [] n = none
at (x ∷ xs) zero = some x
at (x ∷ xs) (suc n) = at xs n

unfoldable pub at_all {ℓ} : {A : Type ℓ} → List A → List ℕ → Option (List A)
at_all xs [] = some []
at_all xs (n ∷ ns) =
    let rest = at_all xs ns in
    elim (at xs n) [ none ↦ none | some x ↦ elim rest [ none ↦ none | some ys ↦ some (x ∷ ys) ] ]

pub data KeyImageStatus : Type 0 where
  spent_at : ℕ → KeyImageStatus
  not_spent : ℕ → KeyImageStatus

-- What a result says of an output that is not known to be spent.
abbrev pub status_from : ℕ → ℕ → Result KeyImageQueryError (Option ℕ) → KeyImageStatus
status_from num_blocks as_of (err e) = not_spent as_of
status_from num_blocks as_of (ok (some n)) = spent_at n
status_from num_blocks as_of (ok none) = not_spent (max as_of num_blocks)

-- An error is logged; a result for an output that is known to be spent is a panic.
abbrev pub new_status :
    ℕ → KeyImageStatus → Result KeyImageQueryError (Option ℕ) → Option KeyImageStatus
new_status num_blocks old (err e) = some old
new_status num_blocks (spent_at n) (ok answer) = none
new_status num_blocks (not_spent as_of) (ok answer) =
    some (status_from num_blocks as_of (ok answer))

abbrev pub completeness_with : ℕ → KeyImageStatus → ℕ
completeness_with prev_min (spent_at n) = prev_min
completeness_with prev_min (not_spent as_of) = min prev_min as_of

module _ (TxOut KeyImage : Type 0) where
  pub record OwnedTxOut : Type 0 where
    pub global_index : ℕ
    pub block_index : ℕ
    pub tx_out : TxOut
    pub value : ℕ
    pub key_image : KeyImage
    pub status : KeyImageStatus

  pub record CachedTxData : Type 0 where
    pub rng_set : UserRngSet
    pub owned_tx_outs : Map ℕ OwnedTxOut
    pub key_image_data_completeness : ℕ
    pub latest_global_txo_count : ℕ

  unfoldable pub completeness : List OwnedTxOut → ℕ → ℕ
  completeness [] prev_min = prev_min
  completeness (txo ∷ txos) prev_min = completeness txos (completeness_with prev_min txo.status)

  -- The output, its value and its key image, where the record belongs to the account.
  abbrev pub Scan : Type 0 → Type 0
  Scan MatchError = TxOutRecord → Result MatchError (TxOut × ℕ × KeyImage)

  abbrev pub owned_tx_out : TxOutRecord → TxOut × ℕ × KeyImage → OwnedTxOut
  owned_tx_out rec (tx_out, value, key_image) = record {
    global_index = rec.tx_out_global_index;
    block_index = rec.block_index;
    tx_out = tx_out;
    value = value;
    key_image = key_image;
    status = not_spent (add64 rec.block_index 1);
  }

  unfoldable pub new : CachedTxData
  new = record {
    rng_set = fog.View.UserRngSet.new;
    owned_tx_outs = [];
    key_image_data_completeness = block_count_max;
    latest_global_txo_count = 0;
  }

  unfoldable pub get_num_blocks : CachedTxData → ℕ
  get_num_blocks s = min s.rng_set.highest_processed_block_count s.key_image_data_completeness

  -- The two assertions about an output that is not spent.
  abbrev pub unspent_as_of : CachedTxData → OwnedTxOut → ℕ → Option Bool
  unspent_as_of s txo as_of =
      if ltb txo.block_index as_of
      then if leb s.key_image_data_completeness as_of then some true else none
      else none

  abbrev pub never_spent : CachedTxData → OwnedTxOut → KeyImageStatus → Option Bool
  never_spent s txo (spent_at n) = some false
  never_spent s txo (not_spent as_of) = unspent_as_of s txo as_of

  unfoldable pub get_unspent_txos : CachedTxData → Option (List OwnedTxOut)
  get_unspent_txos s =
      let num_blocks = get_num_blocks s in
      let txos =
        filter_some
          (λ txo.
            if ltb txo.block_index num_blocks then never_spent s txo txo.status else some false)
          (values s.owned_tx_outs) in
      if leb num_blocks s.key_image_data_completeness then txos else none

  abbrev pub unspent_at : CachedTxData → ℕ → OwnedTxOut → KeyImageStatus → Option Bool
  unspent_at s num_blocks txo (spent_at n) =
      if ltb txo.block_index n then some (leb num_blocks n) else none
  unspent_at s num_blocks txo (not_spent as_of) = unspent_as_of s txo as_of

  unfoldable pub sum_values : List OwnedTxOut → ℕ → ℕ
  sum_values [] running_balance = running_balance
  sum_values (txo ∷ txos) running_balance = sum_values txos (add64 running_balance txo.value)

  unfoldable pub get_balance : CachedTxData → Option (ℕ × ℕ)
  get_balance s =
      let num_blocks = get_num_blocks s in
      let txos =
        filter_some
          (λ txo.
            if ltb txo.block_index num_blocks
            then unspent_at s num_blocks txo txo.status
            else some false)
          (values s.owned_tx_outs) in
      if leb num_blocks s.key_image_data_completeness
      then elim txos [ none ↦ none | some counted ↦ some (sum_values counted 0, num_blocks) ]
      else none

  abbrev chosen_txos :
      List OwnedTxOut
      → Option (Result InputSelectionError (List ℕ))
      → Option (Result InputSelectionError (List OwnedTxOut))
  chosen_txos available none = none
  chosen_txos available (some (err e)) = some (err e)
  chosen_txos available (some (ok selected)) = elim (at_all available selected) [
    | none ↦ none
    | some txos ↦ some (ok txos)
  ]

  unfoldable pub get_transaction_inputs :
      ℕ → CachedTxData → ℕ → ℕ → Option (Result InputSelectionError (List OwnedTxOut))
  get_transaction_inputs max_inputs_limit s amount max_inputs = elim (get_unspent_txos s) [
    | none ↦ none
    | some available ↦ chosen_txos available (
        input_selection_heuristic max_inputs_limit (map (λ txo. txo.value) available) amount
          max_inputs)
  ]

  -- One record that belongs to the account. Its status is never `SpentAt` here.
  abbrev pub own : CachedTxData → OwnedTxOut → ℕ → CachedTxData
  own s txo as_of = record s {
    owned_tx_outs = insert_ordered s.owned_tx_outs txo.global_index txo;
    key_image_data_completeness = min s.key_image_data_completeness as_of;
  }

  unfoldable pub consume_new_txo_records :
      {MatchError : Type 0}
      → Scan MatchError
      → List TxOutRecord
      → CachedTxData
      → List MatchError
      → CachedTxData × List MatchError
  consume_new_txo_records scan [] s errors = (s, errors)
  consume_new_txo_records scan (rec ∷ recs) s errors = elim (scan rec) [
    | ok found ↦
        consume_new_txo_records scan recs (own s (owned_tx_out rec found) (add64 rec.block_index 1))
          errors
    | err e ↦ consume_new_txo_records scan recs s (errors ++ (e ∷ []))
  ]

  -- What `poll_fog_for_txos` does with the records and the set that its poll returns.
  unfoldable pub take_txos :
      {MatchError : Type 0}
      → Scan MatchError
      → List TxOutRecord
      → UserRngSet
      → CachedTxData
      → CachedTxData
  take_txos scan records rng_set s =
      (consume_new_txo_records scan records (record s { rng_set = rng_set }) []).0

module _ (TxOut KeyImage : Type 0) ⦃eq : Eq KeyImage⦄ where
  -- The map from key images to global indices and the list of key images to ask about.
  abbrev pub Asked : Type 0
  Asked = Map KeyImage ℕ × List KeyImage

  abbrev ask_one : (OwnedTxOut TxOut KeyImage) → KeyImageStatus → Asked → Asked
  ask_one txo (spent_at n) asked = asked
  ask_one txo (not_spent as_of) (m, key_images) = (
    insert m txo.key_image txo.global_index,
    elim (get m txo.key_image) [
      | none ↦ key_images ++ (txo.key_image ∷ [])
      | some prev ↦ key_images
    ],
  )

  unfoldable pub key_images_to_ask : List (OwnedTxOut TxOut KeyImage) → Asked → Asked
  key_images_to_ask [] asked = asked
  key_images_to_ask (txo ∷ txos) asked = key_images_to_ask txos (ask_one txo txo.status asked)

  -- The key images that a poll asks about.
  abbrev pub images_of : CachedTxData TxOut KeyImage → List KeyImage
  images_of s = (key_images_to_ask (values s.owned_tx_outs) ([], [])).1

  -- The output at the index, which `expect` says is there.
  abbrev pub update_status :
      ℕ
      → Result KeyImageQueryError (Option ℕ)
      → Map ℕ (OwnedTxOut TxOut KeyImage)
      → ℕ
      → Option (OwnedTxOut TxOut KeyImage)
      → Option (Map ℕ (OwnedTxOut TxOut KeyImage))
  update_status num_blocks answer txos global_index none = none
  update_status num_blocks answer txos global_index (some txo) =
      elim (new_status num_blocks txo.status answer) [
        | none ↦ none
        | some new ↦ some (insert txos global_index (record txo { status = new }))
      ]

  -- One result of the response.
  unfoldable pub take_result :
      Map KeyImage ℕ
      → ℕ
      → KeyImageResult KeyImage
      → Map ℕ (OwnedTxOut TxOut KeyImage)
      → Option (Map ℕ (OwnedTxOut TxOut KeyImage))
  take_result asked num_blocks r txos = elim (get asked r.key_image) [
    | none ↦ some txos
    | some global_index ↦
        update_status num_blocks (status KeyImage r) txos global_index (get txos global_index)
  ]

  unfoldable pub take_results :
      Map KeyImage ℕ
      → ℕ
      → List (KeyImageResult KeyImage)
      → Map ℕ (OwnedTxOut TxOut KeyImage)
      → Option (Map ℕ (OwnedTxOut TxOut KeyImage))
  take_results asked num_blocks [] txos = some txos
  take_results asked num_blocks (r ∷ rs) txos = elim (take_result asked num_blocks r txos) [
    | none ↦ none
    | some txos' ↦ take_results asked num_blocks rs txos'
  ]

  abbrev pub completed :
      CachedTxData TxOut KeyImage
      → ℕ
      → Option (Map ℕ (OwnedTxOut TxOut KeyImage))
      → Option (CachedTxData TxOut KeyImage)
  completed s global_txo_count none = none
  completed s global_txo_count (some txos) = some (record s {
    owned_tx_outs = txos;
    key_image_data_completeness = completeness TxOut KeyImage (values txos) block_count_max;
    latest_global_txo_count = max s.latest_global_txo_count global_txo_count;
  })

  unfoldable pub take_answer {ℓ} :
      {LedgerError : Type ℓ}
      → CachedTxData TxOut KeyImage
      → Map KeyImage ℕ
      → Result LedgerError (CheckKeyImagesResponse KeyImage)
      → Option (Result LedgerError (CachedTxData TxOut KeyImage))
  take_answer s asked (err e) = some (err e)
  take_answer s asked (ok response) =
      elim (completed s response.global_txo_count
        (take_results asked response.num_blocks response.results s.owned_tx_outs)) [
          | none ↦ none
          | some s' ↦ some (ok s')
        ]

  -- What is asked, and what is done with the answer.
  unfoldable pub poll_fog_for_key_images {ℓ} :
      {LedgerError : Type ℓ}
      → (List KeyImage → Result LedgerError (CheckKeyImagesResponse KeyImage))
      → CachedTxData TxOut KeyImage
      → Option (Result LedgerError (CachedTxData TxOut KeyImage))
  poll_fog_for_key_images check_key_images s =
      let (asked, key_images) = key_images_to_ask (values s.owned_tx_outs) ([], []) in
      take_answer s asked (check_key_images key_images)
