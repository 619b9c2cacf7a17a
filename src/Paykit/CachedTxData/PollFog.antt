-- ===== src/Paykit/CachedTxData/PollFog.antt =====
-- fog/sample-paykit/src/cached_tx_data/mod.rs: `poll_fog_for_txos` and `poll_fog` over the client's
-- poll of the view server.
use fog.Prelude.{ℕ, Option, none, some, List}
use fog.Prelude.Map.{Eq}
use fog.Prelude.Result.{Result, ok, err}
use fog.KexRng.Core.{KexRngCore, Kex}
use fog.View.Query.{TxOutRecord}
use fog.View.UserRngSet.{Decryption}
use fog.View.Polling.{FogViewConnection, poll}
use fog.Paykit.KeyImages.{CheckKeyImagesResponse}
use fog.Paykit.CachedTxData.{CachedTxData, Scan, take_txos, poll_fog_for_key_images}

module _ {BoxError TxOut KeyImage MatchError : Type 0} (DecodeError : Type 0) (core : KexRngCore)
    (k : Kex) (d : Decryption BoxError TxOutRecord) (view : FogViewConnection)
    (scan : Scan TxOut KeyImage MatchError) where
  -- `fuel` is that of the rounds of the poll. It always returns `Ok`.
  unfoldable pub poll_fog_for_txos :
      ℕ
      → k.Private
      → view.State
      → CachedTxData TxOut KeyImage
      → Option (CachedTxData TxOut KeyImage × view.State)
  poll_fog_for_txos fuel upriv connection s =
      elim (poll BoxError DecodeError TxOutRecord core k d view fuel upriv s.rng_set connection) [
        | none ↦ none
        | some polled ↦
            some (
              take_txos TxOut KeyImage scan polled.records polled.user_rng_set s,
              polled.connection,
            )
      ]

  -- What is left of a `&mut self` whose second poll returned an error is the first poll's.
  abbrev pub after_key_images {ℓ} :
      {LedgerError : Type ℓ}
      → CachedTxData TxOut KeyImage
      → Option (Result LedgerError (CachedTxData TxOut KeyImage))
      → Option (Result LedgerError (Unit {0}) × CachedTxData TxOut KeyImage)
  after_key_images polled none = none
  after_key_images polled (some (err e)) = some (err e, polled)
  after_key_images polled (some (ok s')) = some (ok tt, s')

  unfoldable pub poll_fog {ℓ} :
      {LedgerError : Type ℓ}
      → ⦃eq : Eq KeyImage⦄ → ℕ
      → k.Private
      → view.State
      → (List KeyImage → Result LedgerError (CheckKeyImagesResponse KeyImage))
      → CachedTxData TxOut KeyImage
      → Option (Result LedgerError (Unit {0}) × CachedTxData TxOut KeyImage)
  poll_fog fuel upriv connection check_key_images s =
      elim (poll_fog_for_txos fuel upriv connection s) [
        | none ↦ none
        | some (polled, connection') ↦
            after_key_images polled (poll_fog_for_key_images TxOut KeyImage check_key_images polled)
      ]
