-- ===== src/Paykit/CachedTxData/Answers.antt =====
-- `poll_fog_for_key_images` of fog/sample-paykit/src/cached_tx_data/mod.rs.
use fog.Prelude.{
  ℕ, ◌≤◌, ◌≡◌, ◌≢◌, refl, sym, ap, subst, ◌∙◌, max, ◌⊎◌, inl, inr, Option, none, some, List, [],
  ◌∷◌, Bool-cases, Option-cases, ◌==◌, ==→eq, eq_of_some, arith,
}
use fog.Prelude.Lists.{All}
use fog.Prelude.Map.{Eq, nat_eq, Map, get, insert, get-insert}
use fog.Prelude.Result.{Result, ok, err, Result-cases, Holds}
use fog.Paykit.KeyImages.{KeyImageResult, CheckKeyImagesResponse, KeyImageQueryError, status}
use fog.Paykit.CachedTxData.{
  OwnedTxOut, CachedTxData, KeyImageStatus, spent_at, not_spent, block_count_max, values, Asked,
  ask_one, key_images_to_ask, images_of, status_from, new_status, update_status, take_result,
  take_results, completeness, take_answer, poll_fog_for_key_images,
}
use fog.Paykit.CachedTxData.Cache.{
  Ordered, All-map, values-insert, values-get, insert-Ordered, values-Ordered,
}
use fog.Paykit.CachedTxData.Ledger.{IsUnspentBelow, Knows, IsKnown, IsConsistent}
use fog.Paykit.CachedTxData.Steps.{IsKnown-mono, completeness-IsKnown}

new_status-some :
    (blocks as_of : ℕ) (answer : Result KeyImageQueryError (Option ℕ))
    → new_status blocks (not_spent as_of) answer ≡ some (status_from blocks as_of answer)
new_status-some blocks as_of (err x) = refl
new_status-some blocks as_of (ok a) = refl

-- No two results are about the same key image.
abbrev pub Once : {KeyImage : Type 0} → List (KeyImageResult KeyImage) → Type 0
Once [] = Unit
Once (r ∷ rs) = All (λ r'. r'.key_image ≢ r.key_image) rs × Once rs

module _ {KeyImage : Type 0} (spent : KeyImage → Option ℕ) where
  -- What a result says is so in the ledger of so many blocks.
  abbrev pub IsTrue : ℕ → KeyImageResult KeyImage → Type 0
  IsTrue blocks r =
      ((b : ℕ) → status KeyImage r ≡ ok (some b) → spent r.key_image ≡ some b)
      × (status KeyImage r ≡ ok none → IsUnspentBelow spent blocks r.key_image)

  abbrev pub IsHonest : CheckKeyImagesResponse KeyImage → Type 0
  IsHonest resp = All (IsTrue resp.num_blocks) resp.results × Once resp.results

module _ {TxOut KeyImage : Type 0} ⦃eq : Eq KeyImage⦄ (spent : KeyImage → Option ℕ) where
  -- The output at the index has the key image, and it is not known to be spent.
  abbrev Waits : Map ℕ (OwnedTxOut TxOut KeyImage) → KeyImage → ℕ → Type 0
  Waits txos key_image global_index =
      (txo : OwnedTxOut TxOut KeyImage) × (as_of : ℕ) × ((get txos global_index ≡ some txo)
        × (txo.key_image ≡ key_image)
        × (txo.global_index ≡ global_index)
        × (txo.status ≡ not_spent as_of))

  abbrev AllWait : Map ℕ (OwnedTxOut TxOut KeyImage) → Map KeyImage ℕ → Type 0
  AllWait txos asked =
      (key_image : KeyImage) (global_index : ℕ)
      → get asked key_image ≡ some global_index
      → Waits txos key_image global_index

  ask_one-AllWait :
      (txos : Map ℕ (OwnedTxOut TxOut KeyImage)) (txo : OwnedTxOut TxOut KeyImage)
      (old : KeyImageStatus) (asked : Asked TxOut KeyImage)
      → txo.status ≡ old
      → get txos txo.global_index ≡ some txo
      → AllWait txos asked.0
      → AllWait txos (ask_one TxOut KeyImage txo old asked).0
  ask_one-AllWait txos txo (spent_at n) asked e g w key_image gi h = w key_image gi h
  ask_one-AllWait txos txo (not_spent as_of) (m, images) e g w key_image gi h =
      let step = sym (get-insert m txo.key_image key_image txo.global_index) ∙ h in
      elim (Bool-cases (eq.beq txo.key_image key_image)) [
        | inl f ↦
            let same : txo.global_index ≡ gi = eq_of_some (rw f at step) in
            (
              txo,
              as_of,
              (
                subst (λ i. get txos i ≡ some txo) same g,
                (eq.beq_iff txo.key_image key_image).0 f,
                same,
                e,
              ),
            )
        | inr f ↦ w key_image gi (rw f at step)
      ]

  -- Every index that a key image is asked for has an output that is not known to be spent.
  ask-AllWait :
      (txos : Map ℕ (OwnedTxOut TxOut KeyImage)) (xs : List (OwnedTxOut TxOut KeyImage))
      (asked : Asked TxOut KeyImage)
      → All (λ txo. (0 ≤ txo.global_index) × (get txos txo.global_index ≡ some txo)) xs
      → AllWait txos asked.0
      → AllWait txos (key_images_to_ask TxOut KeyImage xs asked).0
  unfolding key_images_to_ask
  ask-AllWait txos [] asked g w = w
  ask-AllWait txos (x ∷ xs) asked ((l, g), gs) w =
      ask-AllWait txos xs _ gs (ask_one-AllWait txos x x.status asked refl g w)

  -- What holds between two results.
  abbrev Going :
      Map KeyImage ℕ → List (KeyImageResult KeyImage) → Map ℕ (OwnedTxOut TxOut KeyImage) → Type 0
  Going asked rs txos =
      Ordered 0 txos
      × All (IsKnown spent 0) (values txos)
      × All (λ r. (gi : ℕ) → get asked r.key_image ≡ some gi → Waits txos r.key_image gi) rs

  -- Another output keeps waiting.
  Waits-insert :
      (txos : Map ℕ (OwnedTxOut TxOut KeyImage)) (old new : OwnedTxOut TxOut KeyImage) (gi gi' : ℕ)
      (key_image : KeyImage)
      → get txos gi ≡ some old
      → key_image ≢ old.key_image
      → Waits txos key_image gi'
      → Waits (insert txos gi new) key_image gi'
  Waits-insert txos old new gi gi' key_image g ne (txo, as_of, (g', k, i, e)) =
      elim (Bool-cases (gi == gi')) [
        | inl f ↦
            let same : old ≡ txo =
              eq_of_some (sym g ∙ subst (λ j. get txos j ≡ some txo) (sym (==→eq gi gi' f)) g') in
            absurd (ne (sym k ∙ ap (λ t. t.key_image) (sym same)))
        | inr f ↦ (txo, as_of, (get-insert txos gi gi' new ∙ rw f g', k, i, e))
      ]

  -- The status that a true result gives is so.
  new_status-Knows :
      (blocks as_of : ℕ) (txo : OwnedTxOut TxOut KeyImage) (r : KeyImageResult KeyImage)
      (answer : Result KeyImageQueryError (Option ℕ))
      → status KeyImage r ≡ answer
      → txo.key_image ≡ r.key_image
      → IsTrue spent blocks r
      → Knows spent 0 txo (not_spent as_of)
      → Knows spent 0 txo (status_from blocks as_of answer)
  new_status-Knows blocks as_of txo r (err x) e k t h = h
  new_status-Knows blocks as_of txo r (ok (some b)) e k (t, u) h = ap spent k ∙ t b e
  new_status-Knows blocks as_of txo r (ok none) e k (t, u) (l, v, i) = (
    omega arith,
    λ b e'. omega (arith, v b e', u e b (ap spent (sym k) ∙ e')),
    elim i [ inl j ↦ inl (omega (arith, j)) | inr j ↦ inr j ],
  )

  updated :
      (txos : Map ℕ (OwnedTxOut TxOut KeyImage)) (blocks as_of gi : ℕ)
      (txo : OwnedTxOut TxOut KeyImage) (answer : Result KeyImageQueryError (Option ℕ))
      → txo.status ≡ not_spent as_of
      → update_status TxOut KeyImage blocks answer txos gi (some txo)
        ≡ some (insert txos gi (record txo { status = status_from blocks as_of answer }))
  updated txos blocks as_of gi txo answer e =
      let new : new_status blocks txo.status answer ≡ some (status_from blocks as_of answer) =
        ap (λ st. new_status blocks st answer) e ∙ new_status-some blocks as_of answer in
      rw (new, update_status) refl

  -- A true result about an output that waits.
  taken :
      (asked : Map KeyImage ℕ) (blocks gi : ℕ) (r : KeyImageResult KeyImage)
      (rs : List (KeyImageResult KeyImage)) (txos : Map ℕ (OwnedTxOut TxOut KeyImage))
      → get asked r.key_image ≡ some gi
      → IsTrue spent blocks r
      → All (λ r'. r'.key_image ≢ r.key_image) rs
      → Waits txos r.key_image gi
      → Going asked rs txos
      → (txos' : Map ℕ (OwnedTxOut TxOut KeyImage)) × (take_result TxOut KeyImage asked blocks r
            txos
          ≡ some txos')
        × Going asked rs txos'
  unfolding take_result
  taken asked blocks gi r rs txos a t once (txo, as_of, (g, k, i, e)) (o, known, waits) =
      let (later, known_txo) = values-get (IsKnown spent 0) txos gi txo g known in
      let new = status_from blocks as_of (status KeyImage r) in
      let txo' : OwnedTxOut TxOut KeyImage = record txo { status = new } in
      (
        insert txos gi txo',
        rw (a, g, take_result) (updated txos blocks as_of gi txo (status KeyImage r) e),
        (
          insert-Ordered 0 txos gi txo txo' g i o,
          values-insert (IsKnown spent 0) txos gi txo'
              (
                later,
                new_status-Knows blocks as_of txo r (status KeyImage r) refl k t
                    (subst (λ x. Knows spent 0 txo x) e known_txo),
              )
              known,
          others rs once waits,
        ),
      )
    where
      others :
          (xs : List (KeyImageResult KeyImage))
          → All (λ r'. r'.key_image ≢ r.key_image) xs
          → All (λ r'. (j : ℕ) → get asked r'.key_image ≡ some j → Waits txos r'.key_image j) xs
          → All
              (λ r'.
                (j : ℕ)
                → get asked r'.key_image ≡ some j
                → Waits
                    (insert txos gi
                      (record txo { status = status_from blocks as_of (status KeyImage r) }))
                    r'.key_image
                    j)
              xs
      others [] h w = tt
      others (x ∷ xs) (ne, h) (w, ws) = (
        λ j b. Waits-insert txos txo _ gi j x.key_image g (λ s. ne (s ∙ k)) (w j b),
        others xs h ws,
      )

  unasked :
      (asked : Map KeyImage ℕ) (blocks : ℕ) (r : KeyImageResult KeyImage)
      (txos : Map ℕ (OwnedTxOut TxOut KeyImage))
      → get asked r.key_image ≡ none
      → take_result TxOut KeyImage asked blocks r txos ≡ some txos
  unfolding take_result
  unasked asked blocks r txos e = rw (e, take_result) refl

  every :
      (rs : List (KeyImageResult KeyImage)) (asked : Map KeyImage ℕ)
      (txos : Map ℕ (OwnedTxOut TxOut KeyImage))
      → AllWait txos asked
      → All (λ r. (gi : ℕ) → get asked r.key_image ≡ some gi → Waits txos r.key_image gi) rs
  every [] asked txos w = tt
  every (r ∷ rs) asked txos w = (w r.key_image, every rs asked txos w)

  -- With true results, no two about the same key image, no assertion fails.
  take_results-Going :
      (asked : Map KeyImage ℕ) (blocks : ℕ) (rs : List (KeyImageResult KeyImage))
      (txos : Map ℕ (OwnedTxOut TxOut KeyImage))
      → All (IsTrue spent blocks) rs
      → Once rs
      → Going asked rs txos
      → (txos' : Map ℕ (OwnedTxOut TxOut KeyImage)) × (take_results TxOut KeyImage asked blocks rs
            txos
          ≡ some txos')
        × Going asked [] txos'
  unfolding take_results
  take_results-Going asked blocks [] txos t once g = (txos, refl, g)
  take_results-Going asked blocks (r ∷ rs) txos (t, ts) (ne, once) (o, known, (w, ws)) =
      elim (Option-cases (get asked r.key_image)) [
        | inl e ↦
            let (txos', run, g) = take_results-Going asked blocks rs txos ts once (o, known, ws) in
            (txos', rw (unasked asked blocks r txos e, take_results) run, g)
        | inr (gi, e) ↦
            let (txos', one, g) = taken asked blocks gi r rs txos e t ne (w gi e) (o, known, ws) in
            let (txos'', run, g') = take_results-Going asked blocks rs txos' ts once g in
            (txos'', rw (one, take_results) run, g')
      ]

  answered {ℓ} :
      (LedgerError : Type ℓ) (s : CachedTxData TxOut KeyImage)
      (resp : CheckKeyImagesResponse KeyImage) (asked : Map KeyImage ℕ)
      → ((txos' : Map ℕ (OwnedTxOut TxOut KeyImage)) × (take_results TxOut KeyImage asked
              resp.num_blocks resp.results s.owned_tx_outs
            ≡ some txos')
          × Going asked [] txos')
      → (s' : CachedTxData TxOut KeyImage) × (take_answer TxOut KeyImage {LedgerError = LedgerError}
            s asked
            (ok resp)
          ≡ some (ok s'))
        × IsConsistent spent s'
  unfolding take_answer
  answered LedgerError s resp asked (txos', run, (o, known, u)) =
      let (le, known') = completeness-IsKnown spent (values txos') block_count_max known in
      let s' : CachedTxData TxOut KeyImage = record s {
        owned_tx_outs = txos';
        key_image_data_completeness = completeness TxOut KeyImage (values txos') block_count_max;
        latest_global_txo_count = max s.latest_global_txo_count resp.global_txo_count;
      } in
      (s', rw (run, take_answer) refl, (le, o, known'))

  -- An honest answer is taken, and the cache stays consistent.
  pub poll_fog_for_key_images-IsConsistent {ℓ} :
      {LedgerError : Type ℓ}
      (check : List KeyImage → Result LedgerError (CheckKeyImagesResponse KeyImage))
      (s : CachedTxData TxOut KeyImage)
      → Holds (IsHonest spent) (check (images_of TxOut KeyImage s))
      → IsConsistent spent s
      → ((s' : CachedTxData TxOut KeyImage) × (poll_fog_for_key_images TxOut KeyImage check s
            ≡ some (ok s'))
          × IsConsistent spent s')
        ⊎ ((e : LedgerError) × (poll_fog_for_key_images TxOut KeyImage check s ≡ some (err e)))
  unfolding poll_fog_for_key_images get take_answer
  poll_fog_for_key_images-IsConsistent {LedgerError} check s honest (m, o, known) =
      let asked = key_images_to_ask TxOut KeyImage (values s.owned_tx_outs) ([], []) in
      elim (Result-cases (check asked.1)) [
        | inl (resp, e) ↦
            let (true_all, once) = subst (λ r. Holds (IsHonest spent) r) e honest in
            let waits =
              ask-AllWait s.owned_tx_outs (values s.owned_tx_outs) ([], [])
                (values-Ordered 0 s.owned_tx_outs o) (λ k gi h. cc) in
            let (s', run, i) = answered LedgerError s resp asked.0 (
              take_results-Going asked.0 resp.num_blocks resp.results s.owned_tx_outs true_all once
                (
                  o,
                  All-map _ (IsKnown spent 0) (values s.owned_tx_outs)
                      (λ txo k.
                        IsKnown-mono spent s.key_image_data_completeness 0 txo (omega arith) k)
                      known,
                  every resp.results asked.0 s.owned_tx_outs waits,
                )) in
            inl (s', rw e run, i)
        | inr (x, e) ↦ inr (x, rw (e, take_answer) refl)
      ]
