-- ===== src/Common/Words.antt =====
-- C's machine words: unsigned values wrap modulo a power of two; `int` values are signed.
use Prim.Native.Nat.{ℕ, ◌-◌, ◌%◌}
use mathlib.Core.Bool.{Bool, true, false}
use openappsec_attachment.Common.Tests.{ltb, ◌==◌}

-- Conversions to `uint8_t`, `uint16_t`, `uint32_t` and `uint64_t`.
abbrev pub u8 : ℕ → ℕ
u8 n = n % 256

abbrev pub u16 : ℕ → ℕ
u16 n = n % 65536

abbrev pub u32 : ℕ → ℕ
u32 n = n % 4294967296

abbrev pub u64 : ℕ → ℕ
u64 n = n % 18446744073709551616

-- An `int`: `negsuc n` is -(n + 1).
pub data ℤ : Type 0 where
  pos : ℕ → ℤ
  negsuc : ℕ → ℤ

-- `k < z` for a `k` that is not negative.
abbrev pub gtb_ℤ : ℤ → ℕ → Bool
gtb_ℤ (pos n) k = ltb k n
gtb_ℤ (negsuc n) k = false

-- `(uint16_t)z`.
abbrev pub u16_of_ℤ : ℤ → ℕ
u16_of_ℤ (pos n) = n % 65536
u16_of_ℤ (negsuc n) = 65535 - n % 65536

abbrev pub eqb_ℤ : ℤ → ℤ → Bool
eqb_ℤ (pos a) (pos b) = a == b
eqb_ℤ (negsuc a) (negsuc b) = a == b
eqb_ℤ _ _ = false

abbrev pub ltb_ℤ : ℤ → ℤ → Bool
ltb_ℤ (pos a) (pos b) = ltb a b
ltb_ℤ (negsuc a) (negsuc b) = ltb b a
ltb_ℤ (negsuc a) (pos b) = true
ltb_ℤ (pos a) (negsuc b) = false
