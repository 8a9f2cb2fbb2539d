-- ===== src/Prelude/Int.antt =====
-- Signed integers over the native numbers, and the two's complement conversions of the language.
use Prim.Native.Nat.{ℕ, suc, ◌+◌, ◌-◌, ◌*◌, ◌%◌, ◌≤◌, ◌<◌}
use mathlib.Core.Path.{◌≡◌, refl}
use mathlib.Core.Bool.{Bool}
use native.Mathlib.Omega.{arith}
use advanced_imessage_go.Prelude.Tests.{ltb, leb, if◌then◌else◌}

-- `negsuc n` is -(n + 1).
pub data ℤ : Type 0 where
  pos : ℕ → ℤ
  negsuc : ℕ → ℤ

abbrev pub pos_part : ℤ → ℕ
pos_part (pos n) = n
pos_part (negsuc n) = 0

abbrev pub neg_part : ℤ → ℕ
neg_part (pos n) = 0
neg_part (negsuc n) = suc n

-- a - b, as an integer.
abbrev pub sub_ℕ : ℕ → ℕ → ℤ
sub_ℕ a b = if leb b a then pos (a - b) else negsuc (b - a - 1)

infix 50 ◌≤ℤ◌
abbrev pub ◌≤ℤ◌ : ℤ → ℤ → Type 0
a ≤ℤ b = pos_part a + neg_part b ≤ pos_part b + neg_part a

abbrev pub ltb_ℤ : ℤ → ℤ → Bool
ltb_ℤ a b = ltb (pos_part a + neg_part b) (pos_part b + neg_part a)

abbrev pub leb_ℤ : ℤ → ℤ → Bool
leb_ℤ a b = leb (pos_part a + neg_part b) (pos_part b + neg_part a)

-- The residue of an integer modulo `m`: the bit pattern of a word of `m` values.
abbrev pub residue : ℕ → ℤ → ℕ
residue m (pos n) = n % m
residue m (negsuc n) = m - 1 - n % m

-- The signed reading of a bit pattern `u`, where `h` is half of the number of patterns.
abbrev pub signed : ℕ → ℕ → ℤ
signed h u = if ltb u h then pos u else negsuc (2 * h - u - 1)

abbrev pub half32 : ℕ
half32 = 2147483648

abbrev pub half64 : ℕ
half64 = 9223372036854775808

-- `int32(x)` and the value of an `int64` expression.
unfoldable pub int32 : ℤ → ℤ
int32 a = signed half32 (residue 4294967296 a)

unfoldable pub int64 : ℤ → ℤ
int64 a = signed half64 (residue 18446744073709551616 a)

abbrev pub InInt32 : ℤ → Type 0
InInt32 a = (pos_part a < half32) × (neg_part a ≤ half32)

abbrev pub InInt64 : ℤ → Type 0
InInt64 a = (pos_part a < half64) × (neg_part a ≤ half64)

pub int32_id : (a : ℤ) → InInt32 a → int32 a ≡ a
unfolding int32
int32_id (pos n) h = ground arith
int32_id (negsuc n) h = ground arith

pub int64_id : (a : ℤ) → InInt64 a → int64 a ≡ a
unfolding int64
int64_id (pos n) h = ground arith
int64_id (negsuc n) h = ground arith

pub int64-InInt64 : (a : ℤ) → InInt64 (int64 a)
unfolding int64
int64-InInt64 (pos n) = ground arith
int64-InInt64 (negsuc n) = ground arith

int32_wraps : int32 (pos 4294967295) ≡ negsuc 0
unfolding int32
int32_wraps = refl

infixl 65 ◌+ℤ◌
unfoldable pub ◌+ℤ◌ : ℤ → ℤ → ℤ
a +ℤ b = sub_ℕ (pos_part a + pos_part b) (neg_part a + neg_part b)

pub +ℤ_parts :
    (a b : ℤ)
    → pos_part (a +ℤ b) + neg_part a + neg_part b ≡ neg_part (a +ℤ b) + pos_part a + pos_part b
unfolding ◌+ℤ◌
+ℤ_parts a b = ground arith

-- A multiple, as an integer.
unfoldable pub scale : ℕ → ℤ → ℤ
scale k a = sub_ℕ (k * pos_part a) (k * neg_part a)
