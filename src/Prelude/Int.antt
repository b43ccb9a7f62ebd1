-- ===== src/Prelude/Int.antt =====
-- Signed integers over the native numbers, under the library's names (its ℤ stands on the unary ℕ),
-- and the machine integers of the program: `as i64`, wrapping products, `div_euclid`.
use Prim.Native.Nat.{ℕ, suc, ◌+◌, ◌-◌, ◌*◌, ◌/◌, ◌%◌, ◌^◌, ◌≤◌, ◌<◌}
use mathlib.Core.Path.{◌≡◌}
use mathlib.Core.Logic.{◌↔◌}
use mathlib.Core.Bool.{Bool, true, ◌&&◌}
use native.Mathlib.Omega.{arith}
use crypto_lakehouse.Prelude.Tests.{ltb, leb, nat_beq, if◌then◌else◌}
use crypto_lakehouse.Prelude.Equal.{Eq}

-- `negsuc n` is -(n + 1).
pub data ℤ : Type 0 where
  pos : ℕ → ℤ
  negsuc : ℕ → ℤ

abbrev pub pos_part : ℤ → ℕ
pos_part (pos n) = n
pos_part (negsuc n) = 0

abbrev pub neg_part : ℤ → ℕ
neg_part (pos n) = 0
neg_part (negsuc n) = suc n

infix 50 ◌≤ℤ◌
abbrev pub ◌≤ℤ◌ : ℤ → ℤ → Type 0
a ≤ℤ b = pos_part a + neg_part b ≤ pos_part b + neg_part a

abbrev pub leb_ℤ : ℤ → ℤ → Bool
leb_ℤ a b = leb (pos_part a + neg_part b) (pos_part b + neg_part a)

abbrev pub ltb_ℤ : ℤ → ℤ → Bool
ltb_ℤ a b = ltb (pos_part a + neg_part b) (pos_part b + neg_part a)

abbrev pub int_beq : ℤ → ℤ → Bool
int_beq a b = nat_beq (pos_part a) (pos_part b) && nat_beq (neg_part a) (neg_part b)

pub int_beq_iff : (a b : ℤ) → (int_beq a b ≡ true) ↔ (a ≡ b)
int_beq_iff a b = ground arith

instance abbrev pub int_eq : Eq ℤ
int_eq = record { equals = int_beq; decides = int_beq_iff }

pub leb_ℤ_iff : (a b : ℤ) → (leb_ℤ a b ≡ true) ↔ (a ≤ℤ b)
leb_ℤ_iff a b = ground arith

abbrev pub min_ℤ : ℤ → ℤ → ℤ
min_ℤ a b = if leb_ℤ a b then a else b

abbrev pub max_ℤ : ℤ → ℤ → ℤ
max_ℤ a b = if leb_ℤ a b then b else a

abbrev pub u64_mod : ℕ
u64_mod = 2 ^ 64

-- A sum in `usize` or `u64`; the release build wraps.
unfoldable pub add_u64 : ℕ → ℕ → ℕ
add_u64 a b = (a + b) % u64_mod

-- `x as i64` for a `u64`: the bit pattern is kept.
unfoldable pub as_i64 : ℕ → ℤ
as_i64 x = let y = x % u64_mod in if ltb y (2 ^ 63) then pos y else negsuc (u64_mod - 1 - y)

-- The `i64` with the low 64 bits of an integer.
unfoldable pub wrap_i64 : ℤ → ℤ
unfolding as_i64
wrap_i64 (pos n) = as_i64 n
wrap_i64 (negsuc n) = as_i64 (u64_mod - 1 - n % u64_mod)

-- A product with a positive constant.
abbrev pub scale_ℤ : ℕ → ℤ → ℤ
scale_ℤ k (pos n) = pos (n * k)
scale_ℤ k (negsuc n) = negsuc (n * k + (k - 1))

-- `div_euclid` by a positive constant rounds down.
abbrev pub div_euclid : ℤ → ℕ → ℤ
div_euclid (pos n) d = pos (n / d)
div_euclid (negsuc n) d = negsuc (n / d)

-- The range of an `i64`.
abbrev pub is_i64 : ℤ → Bool
is_i64 a = ltb (pos_part a) (2 ^ 63) && leb (neg_part a) (2 ^ 63)

-- On `u64` values the cast loses nothing.
pub as_i64-injective : (x y : ℕ) → x < u64_mod → y < u64_mod → as_i64 x ≡ as_i64 y → x ≡ y
unfolding as_i64
as_i64-injective x y hx hy e = ground arith

pub as_i64-pos : (x : ℕ) → x < 2 ^ 63 → as_i64 x ≡ pos x
unfolding as_i64
as_i64-pos x h = ground arith

pub as_i64-is_i64 : (x : ℕ) → is_i64 (as_i64 x) ≡ true
unfolding as_i64
as_i64-is_i64 x = ground arith

pub wrap_i64-is_i64 : (a : ℤ) → is_i64 (wrap_i64 a) ≡ true
unfolding wrap_i64
wrap_i64-is_i64 (pos n) = as_i64-is_i64 n
wrap_i64-is_i64 (negsuc n) = as_i64-is_i64 (u64_mod - 1 - n % u64_mod)

-- The difference of two natural numbers.
abbrev pub diff : ℕ → ℕ → ℤ
diff a b = if leb b a then pos (a - b) else negsuc (b - a - 1)

infixl 60 ◌+ℤ◌ ◌-ℤ◌
abbrev pub ◌+ℤ◌ : ℤ → ℤ → ℤ
a +ℤ b = diff (pos_part a + pos_part b) (neg_part a + neg_part b)

abbrev pub ◌-ℤ◌ : ℤ → ℤ → ℤ
a -ℤ b = diff (pos_part a + neg_part b) (neg_part a + pos_part b)
