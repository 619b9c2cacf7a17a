-- ===== src/View/SearchResult.antt =====
-- `TxOutSearchResult` and its codes, of fog/fog_types/src/view.rs.
use fog.Prelude.{ℕ, ◌==◌, if◌then◌else◌, Option, none, some}
use fog.Prelude.Bytes.{Bytes}

pub data TxOutSearchResultCode : Type 0 where
  found not_found bad_search_key internal_error rate_limited : TxOutSearchResultCode

-- `code as u32`
abbrev pub to_u32 : TxOutSearchResultCode → ℕ
to_u32 found = 1
to_u32 not_found = 2
to_u32 bad_search_key = 3
to_u32 internal_error = 4
to_u32 rate_limited = 5

-- `none` is the error.
unfoldable pub try_from_u32 : ℕ → Option TxOutSearchResultCode
try_from_u32 src =
    if src == to_u32 found
    then some found
    else if src == to_u32 not_found
    then some not_found
    else if src == to_u32 bad_search_key
    then some bad_search_key
    else if src == to_u32 internal_error
    then some internal_error
    else if src == to_u32 rate_limited
    then some rate_limited
    else none

pub record TxOutSearchResult : Type 0 where
  pub search_key : Bytes
  pub result_code : ℕ
  pub ciphertext : Bytes
