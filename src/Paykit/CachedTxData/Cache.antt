-- ===== src/Paykit/CachedTxData/Cache.antt =====
-- fog/sample-paykit/src/cached_tx_data/mod.rs: the map of the outputs stays ordered by global index.
use fog.Prelude.{
  ℕ, ◌+◌, ◌≤◌, ◌<◌, ◌≡◌, refl, Bool, inl, inr, subst, Option, none, some, List, [], ◌∷◌, ltb, ◌==◌,
  ltb→lt, ltb→le, ==→eq, eq→==, Bool-cases, arith,
}
use fog.Prelude.Lists.{All}
use fog.Prelude.Map.{nat_eq, Map, get, insert}
use fog.Prelude.Queries.{filter}
use fog.Paykit.CachedTxData.{OwnedTxOut, insert_ordered, values, filter_some}

pub filter_some-filter {ℓ} :
    {A : Type ℓ} (p : A → Option Bool) (q : A → Bool) (xs : List A)
    → All (λ x. p x ≡ some (q x)) xs
    → filter_some p xs ≡ some (filter q xs)
unfolding filter_some filter
filter_some-filter p q [] h = refl
filter_some-filter p q (x ∷ xs) (h, hs) = rw (h, filter_some-filter p q xs hs, filter_some) refl

pub All-map {ℓ κ μ} :
    {A : Type ℓ} (P : A → Type κ) (Q : A → Type μ) (xs : List A)
    → ((x : A) → P x → Q x)
    → All P xs
    → All Q xs
All-map P Q [] f a = tt
All-map P Q (x ∷ xs) f (h, a) = (f x h, All-map P Q xs f a)

module _ {ℓ} {V : Type ℓ} where
  pub values-insert_ordered {κ} :
      (P : V → Type κ) (m : Map ℕ V) (k : ℕ) (v : V)
      → P v
      → All P (values m)
      → All P (values (insert_ordered m k v))
  unfolding insert_ordered
  values-insert_ordered P [] k v h a = (h, tt)
  values-insert_ordered P ((j, w) ∷ m) k v h (w_ok, a) = elim (Bool-cases (j == k)) [
    | inl e ↦ rw e (h, a)
    | inr e ↦ elim (Bool-cases (ltb k j)) [
      | inl f ↦ rw (e, f) (h, (w_ok, a))
      | inr f ↦ rw (e, f) (w_ok, values-insert_ordered P m k v h a)
    ]
  ]

  pub values-insert {κ} :
      (P : V → Type κ) (m : Map ℕ V) (k : ℕ) (v : V)
      → P v
      → All P (values m)
      → All P (values (insert m k v))
  unfolding insert
  values-insert P [] k v h a = (h, tt)
  values-insert P ((j, w) ∷ m) k v h (w_ok, a) = elim (Bool-cases (j == k)) [
    | inl e ↦ rw e (h, a)
    | inr e ↦ rw e (w_ok, values-insert P m k v h a)
  ]

  pub values-get {κ} :
      (P : V → Type κ) (m : Map ℕ V) (k : ℕ) (v : V) → get m k ≡ some v → All P (values m) → P v
  unfolding get
  values-get P [] k v e a = cc
  values-get P ((j, w) ∷ m) k v e (w_ok, a) = elim (Bool-cases (j == k)) [
    | inl f ↦ let same : w ≡ v = (let e' = rw f at e in cc) in subst P same w_ok
    | inr f ↦ values-get P m k v (rw f at e) a
  ]

module _ {TxOut KeyImage : Type 0} where
  -- The keys are the global indices, in order from `lo` on.
  abbrev pub Ordered : ℕ → Map ℕ (OwnedTxOut TxOut KeyImage) → Type 0
  Ordered lo [] = Unit
  Ordered lo ((k, txo) ∷ m) = (lo ≤ k) × (txo.global_index ≡ k) × Ordered (k + 1) m

  get-Ordered :
      (lo : ℕ) (m : Map ℕ (OwnedTxOut TxOut KeyImage)) (k : ℕ)
      → Ordered lo m
      → k < lo
      → get m k ≡ none
  unfolding get
  get-Ordered lo [] k o h = refl
  get-Ordered lo ((j, w) ∷ m) k (l, g, o) h =
      ground (arith, get-Ordered (j + 1) m k o (omega (arith, l, h)))

  pub insert_ordered-Ordered :
      (lo : ℕ) (m : Map ℕ (OwnedTxOut TxOut KeyImage)) (k : ℕ) (txo : OwnedTxOut TxOut KeyImage)
      → lo ≤ k
      → txo.global_index ≡ k
      → Ordered lo m
      → Ordered lo (insert_ordered m k txo)
  unfolding insert_ordered
  insert_ordered-Ordered lo [] k txo l g o = (l, g, tt)
  insert_ordered-Ordered lo ((j, w) ∷ m) k txo l g (lj, gj, o) = elim (Bool-cases (j == k)) [
    | inl e ↦ rw e (lj, omega (arith, g, ==→eq j k e), o)
    | inr e ↦ elim (Bool-cases (ltb k j)) [
      | inl f ↦ rw (e, f) (l, g, (omega (arith, ltb→lt k j f), gj, o))
      | inr f ↦
          rw (e, f)
            (lj, gj, insert_ordered-Ordered (j + 1) m k txo (ground (arith, ltb→le k j f)) g o)
    ]
  ]

  pub insert-Ordered :
      (lo : ℕ) (m : Map ℕ (OwnedTxOut TxOut KeyImage)) (k : ℕ) (old txo : OwnedTxOut TxOut KeyImage)
      → get m k ≡ some old
      → txo.global_index ≡ k
      → Ordered lo m
      → Ordered lo (insert m k txo)
  unfolding insert get
  insert-Ordered lo [] k old txo e g o = cc
  insert-Ordered lo ((j, w) ∷ m) k old txo e g (lj, gj, o) = elim (Bool-cases (j == k)) [
    | inl f ↦ rw f (lj, omega (arith, g, ==→eq j k f), o)
    | inr f ↦ rw f (lj, gj, insert-Ordered (j + 1) m k old txo (rw f at e) g o)
  ]

  -- Every output is found at its global index.
  pub values-Ordered :
      (lo : ℕ) (m : Map ℕ (OwnedTxOut TxOut KeyImage))
      → Ordered lo m
      → All (λ txo. (lo ≤ txo.global_index) × (get m txo.global_index ≡ some txo)) (values m)
  unfolding get
  values-Ordered lo [] o = tt
  values-Ordered lo ((j, w) ∷ m) (l, g, o) = (
    (omega (arith, l, g), rw (eq→== j w.global_index (omega (arith, g))) refl),
    All-map _ _ (values m) (λ txo (l', e). (omega (arith, l, l'), ground (arith, e, l')))
        (values-Ordered (j + 1) m o),
  )
