-- ===== src/Prelude/Int.antt =====
-- Signed integers over the native numbers, and the conversions between Go's and C's integers.
use Prim.Native.Nat.{ℕ, zero, suc, ◌-◌, ◌/◌, ◌%◌, ◌^◌, ◌<◌}
use mathlib.Core.Path.{◌≡◌}
use mathlib.Core.Logic.{◌↔◌}
use native.Mathlib.Omega.{arith}
use go_libiec.Prelude.Tests.{ltb, if◌then◌else◌}

-- `negsuc n` is -(n + 1).
pub data ℤ : Type 0 where
  pos : ℕ → ℤ
  negsuc : ℕ → ℤ

abbrev pub opposite : ℕ → ℤ
opposite zero = pos 0
opposite (suc n) = negsuc n

-- Division as in Go: the quotient is rounded towards zero.
abbrev pub div_trunc : ℤ → ℕ → ℤ
div_trunc (pos n) k = pos (n / k)
div_trunc (negsuc n) k = opposite (suc n / k)

-- The low 8 and 32 bits of an integer, as a pattern.
abbrev pub low8 : ℤ → ℕ
low8 (pos n) = n % 2 ^ 8
low8 (negsuc n) = 2 ^ 8 - 1 - n % 2 ^ 8

abbrev pub low32 : ℤ → ℕ
low32 (pos n) = n % 2 ^ 32
low32 (negsuc n) = 2 ^ 32 - 1 - n % 2 ^ 32

abbrev pub low64 : ℤ → ℕ
low64 (pos n) = n % 2 ^ 64
low64 (negsuc n) = 2 ^ 64 - 1 - n % 2 ^ 64

-- The number that a pattern stands for as an `int32_t`.
abbrev pub signed32 : ℕ → ℤ
signed32 w = if ltb w (2 ^ 31) then pos w else negsuc (2 ^ 32 - w - 1)

-- The ranges of a `uint32_t` and of an `int32_t`.
abbrev pub FitsUint32 : ℤ → Type 0
FitsUint32 (pos n) = n < 2 ^ 32
FitsUint32 (negsuc n) = ⊥

abbrev pub FitsUint64 : ℤ → Type 0
FitsUint64 (pos n) = n < 2 ^ 64
FitsUint64 (negsuc n) = ⊥

abbrev pub FitsInt32 : ℤ → Type 0
FitsInt32 (pos n) = n < 2 ^ 31
FitsInt32 (negsuc n) = n < 2 ^ 31

-- A conversion keeps a number exactly when the number is in the range.
pub low32_iff : (z : ℤ) → (pos (low32 z) ≡ z) ↔ FitsUint32 z
low32_iff (pos n) = ground arith
low32_iff (negsuc n) = ((λ h. cc), λ h. elim h [ ])

pub low64_iff : (z : ℤ) → (pos (low64 z) ≡ z) ↔ FitsUint64 z
low64_iff (pos n) = ground arith
low64_iff (negsuc n) = ((λ h. cc), λ h. elim h [ ])

pub signed32-low32_iff : (z : ℤ) → (signed32 (low32 z) ≡ z) ↔ FitsInt32 z
signed32-low32_iff (pos n) = ground arith
signed32-low32_iff (negsuc n) = ground arith
