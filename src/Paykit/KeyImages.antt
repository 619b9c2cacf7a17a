-- ===== src/Paykit/KeyImages.antt =====
-- fog/fog_types/src/ledger.rs and fog/ledger/connection/src/key_image.rs: what the key image server
-- answers.
use fog.Prelude.{ℕ, Option, none, some, List, ◌==◌, if◌then◌else◌}
use fog.Prelude.Result.{Result, ok, err}

pub data KeyImageResultCode : Type 0 where
  spent not_spent key_image_error : KeyImageResultCode

-- `code as u32`
abbrev pub code_to_u32 : KeyImageResultCode → ℕ
code_to_u32 spent = 1
code_to_u32 not_spent = 2
code_to_u32 key_image_error = 3

pub data KeyImageQueryError : Type 0 where
  key_image_error : KeyImageQueryError
  unknown_status : ℕ → KeyImageQueryError

module _ (KeyImage : Type 0) where
  pub record KeyImageResult : Type 0 where
    pub key_image : KeyImage
    pub spent_at : ℕ
    pub timestamp : ℕ
    pub timestamp_result_code : ℕ
    pub key_image_result_code : ℕ

  pub record CheckKeyImagesResponse : Type 0 where
    pub num_blocks : ℕ
    pub global_txo_count : ℕ
    pub results : List KeyImageResult

  -- `KeyImageResultExtension::status`
  unfoldable pub status : KeyImageResult → Result KeyImageQueryError (Option ℕ)
  status r =
      if r.key_image_result_code == code_to_u32 KeyImageResultCode.spent
      then ok (some r.spent_at)
      else if r.key_image_result_code == code_to_u32 KeyImageResultCode.not_spent
      then ok none
      else if r.key_image_result_code == code_to_u32 KeyImageResultCode.key_image_error
      then err KeyImageQueryError.key_image_error
      else err (unknown_status r.key_image_result_code)
