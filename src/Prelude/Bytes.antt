-- ===== src/Prelude/Bytes.antt =====
-- Byte strings as lists of numbers below 256, and the bytes of a machine word.
use Prim.Native.Nat.{ℕ, zero, suc, ◌+◌, ◌*◌, ◌/◌, ◌%◌, ◌^◌, ◌<◌}
use mathlib.Core.Path.{◌≡◌, refl}
use mathlib.Core.Logic.{◌↔◌}
use mathlib.Core.Bool.{Bool, true, false, ◌&&◌}
use mathlib.Core.List.{List, [], ◌∷◌}
use native.Mathlib.Omega.{arith}
use fog.Prelude.Tests.{◌==◌ as nat_beq}
use fog.Prelude.Map.{Eq}
use fog.Prelude.Lists.{length}

abbrev pub Bytes : Type 0
Bytes = List ℕ

abbrev pub bytes_beq : Bytes → Bytes → Bool
bytes_beq [] [] = true
bytes_beq [] (b ∷ bs) = false
bytes_beq (a ∷ as') [] = false
bytes_beq (a ∷ as') (b ∷ bs) = nat_beq a b && bytes_beq as' bs

pub bytes_beq_iff : (a b : Bytes) → (bytes_beq a b ≡ true) ↔ (a ≡ b)
bytes_beq_iff [] [] = (λ _. refl, λ _. refl)
bytes_beq_iff [] (b ∷ bs) = (λ h. cc, λ h. cc)
bytes_beq_iff (a ∷ as') [] = (λ h. cc, λ h. cc)
bytes_beq_iff (a ∷ as') (b ∷ bs) =
    (λ h. ground (arith, bytes_beq_iff as' bs), λ h. ground (arith, bytes_beq_iff as' bs))

instance abbrev pub bytes_eq : Eq Bytes
bytes_eq = record { beq = bytes_beq; beq_iff = bytes_beq_iff }

-- `n.to_le_bytes()` of a word of `w` bytes
unfoldable pub to_le_bytes : ℕ → ℕ → Bytes
to_le_bytes zero n = []
to_le_bytes (suc w) n = (n % 256) ∷ to_le_bytes w (n / 256)

unfoldable pub from_le_bytes : Bytes → ℕ
from_le_bytes [] = 0
from_le_bytes (b ∷ bs) = b + 256 * from_le_bytes bs

pub length-to_le_bytes : (w n : ℕ) → length (to_le_bytes w n) ≡ w
unfolding to_le_bytes
length-to_le_bytes zero n = refl
length-to_le_bytes (suc w) n = omega (arith, length-to_le_bytes w (n / 256))

-- Reading the bytes back gives the word.
pub from_le_bytes-to_le_bytes : (n : ℕ) → n < 2 ^ 64 → from_le_bytes (to_le_bytes 8 n) ≡ n
unfolding to_le_bytes from_le_bytes
from_le_bytes-to_le_bytes n h = omega arith
