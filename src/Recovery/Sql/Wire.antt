-- ===== src/Recovery/Sql/Wire.antt =====
-- The protobuf encoding of a message, which the crate prost provides: both ways may fail, and what
-- was encoded decodes to the same message.
use fog.Prelude.{◌≡◌, Option, some}
use fog.Prelude.Bytes.{Bytes}

pub record Wire (A : Type 0) : Type 0 where
  pub encode : A → Option Bytes
  pub decode : Bytes → Option A

pub record WireLaws {A : Type 0} (w : Wire A) : Type 0 where
  pub decode-encode : (a : A) (bytes : Bytes) → w.encode a ≡ some bytes → w.decode bytes ≡ some a
