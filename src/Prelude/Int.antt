-- ===== src/Prelude/Int.antt =====
-- Go's signed integers: ℤ over the native numbers, with the wrap-around of int64 written out.
use leaderberry.Prelude.Tests.{ltb, leb, ◌==◌, if◌then◌else◌}
use Prim.Native.Nat.{ℕ, zero, suc, ◌+◌, ◌-◌, ◌*◌, ◌/◌, ◌%◌, ◌≤◌, ◌<◌}
use mathlib.Core.Path.{◌≡◌}
use mathlib.Core.Logic.{◌↔◌}
use mathlib.Core.Bool.{Bool, true, ◌&&◌}
use native.Mathlib.Omega.{arith}

-- `negsuc n` is -(n + 1).
pub data ℤ : Type 0 where
  pos : ℕ → ℤ
  negsuc : ℕ → ℤ

abbrev pub pos_part : ℤ → ℕ
pos_part (pos n) = n
pos_part (negsuc n) = 0

abbrev pub neg_part : ℤ → ℕ
neg_part (pos n) = 0
neg_part (negsuc n) = suc n

-- a - b, as an integer.
abbrev pub sub_ℕ : ℕ → ℕ → ℤ
sub_ℕ a b = if leb b a then pos (a - b) else negsuc (b - a - 1)

infixl 65 ◌+ℤ◌ ◌-ℤ◌
infix 50 ◌≤ℤ◌ ◌<ℤ◌
unfoldable pub ◌+ℤ◌ : ℤ → ℤ → ℤ
a +ℤ b = sub_ℕ (pos_part a + pos_part b) (neg_part a + neg_part b)

unfoldable pub ◌-ℤ◌ : ℤ → ℤ → ℤ
a -ℤ b = sub_ℕ (pos_part a + neg_part b) (neg_part a + pos_part b)

abbrev pub ◌≤ℤ◌ : ℤ → ℤ → Type 0
a ≤ℤ b = pos_part a + neg_part b ≤ pos_part b + neg_part a

abbrev pub ◌<ℤ◌ : ℤ → ℤ → Type 0
a <ℤ b = pos_part a + neg_part b < pos_part b + neg_part a

abbrev pub ltb_ℤ : ℤ → ℤ → Bool
ltb_ℤ a b = ltb (pos_part a + neg_part b) (pos_part b + neg_part a)

abbrev pub leb_ℤ : ℤ → ℤ → Bool
leb_ℤ a b = leb (pos_part a + neg_part b) (pos_part b + neg_part a)

abbrev pub eqb_ℤ : ℤ → ℤ → Bool
eqb_ℤ a b = pos_part a == pos_part b && neg_part a == neg_part b

pub eqb_ℤ_iff : (a b : ℤ) → (eqb_ℤ a b ≡ true) ↔ (a ≡ b)
eqb_ℤ_iff a b = ground arith

pub eqb_ℤ_refl : (a : ℤ) → eqb_ℤ a a ≡ true
eqb_ℤ_refl a = ground arith

-- Go's division of a signed number by a positive one truncates towards 0.
abbrev pub quot_ℤ : ℤ → ℕ → ℤ
quot_ℤ (pos n) d = pos (n / d)
quot_ℤ (negsuc n) d = sub_ℕ 0 (suc n / d)

-- An int64 operation keeps the low 64 bits of the exact result, read as two's complement.
abbrev pub max_int64 : ℤ
max_int64 = pos 9223372036854775807

abbrev pub min_int64 : ℤ
min_int64 = negsuc 9223372036854775807

abbrev signed64 : ℕ → ℤ
signed64 w = if ltb w 9223372036854775808 then pos w else negsuc (18446744073709551615 - w)

unfoldable pub wrap64 : ℤ → ℤ
wrap64 (pos n) = signed64 (n % 18446744073709551616)
wrap64 (negsuc n) = signed64 (18446744073709551615 - n % 18446744073709551616)

-- In range nothing wraps.
pub wrap64_lem : (a : ℤ) → min_int64 ≤ℤ a → a ≤ℤ max_int64 → wrap64 a ≡ a
unfolding wrap64
wrap64_lem (pos n) h k = ground arith
wrap64_lem (negsuc n) h k = ground arith

pub +ℤ_pos : (a b : ℕ) → pos a +ℤ pos b ≡ pos (a + b)
unfolding ◌+ℤ◌
+ℤ_pos a b = ground arith

-- One lemma for each operation lets `omega` work with the operations shut, at any depth.
pub +ℤ_parts :
    (a b : ℤ)
    → pos_part (a +ℤ b) + neg_part a + neg_part b ≡ neg_part (a +ℤ b) + pos_part a + pos_part b
unfolding ◌+ℤ◌
+ℤ_parts a b = ground arith

pub -ℤ_parts :
    (a b : ℤ)
    → pos_part (a -ℤ b) + neg_part a + pos_part b ≡ neg_part (a -ℤ b) + pos_part a + neg_part b
unfolding ◌-ℤ◌
-ℤ_parts a b = ground arith

pub eq_of_parts : (a b : ℤ) → pos_part a + neg_part b ≡ pos_part b + neg_part a → a ≡ b
eq_of_parts a b h = ground arith

pub eq-pos_of_positive : (a : ℤ) → pos 0 <ℤ a → a ≡ pos (pos_part a)
eq-pos_of_positive a h = ground arith

pub eq-pos_of_nonneg : (a : ℤ) → pos 0 ≤ℤ a → a ≡ pos (pos_part a)
eq-pos_of_nonneg a h = ground arith

pub ruleset int_laws = (arith, +ℤ_parts, -ℤ_parts, eq_of_parts)

-- int64 addition and subtraction.
unfoldable pub add64 : ℤ → ℤ → ℤ
add64 a b = wrap64 (a +ℤ b)

unfoldable pub sub64 : ℤ → ℤ → ℤ
sub64 a b = wrap64 (a -ℤ b)

pub add64_lem : (a b : ℤ) → min_int64 ≤ℤ a +ℤ b → a +ℤ b ≤ℤ max_int64 → add64 a b ≡ a +ℤ b
unfolding add64
add64_lem a b h k = wrap64_lem (a +ℤ b) h k

pub sub64_lem : (a b : ℤ) → min_int64 ≤ℤ a -ℤ b → a -ℤ b ≤ℤ max_int64 → sub64 a b ≡ a -ℤ b
unfolding sub64
sub64_lem a b h k = wrap64_lem (a -ℤ b) h k

pub add64_pos : (a b : ℕ) → a + b ≤ 9223372036854775807 → add64 (pos a) (pos b) ≡ pos (a + b)
unfolding add64 ◌+ℤ◌ wrap64
add64_pos a b h = ground arith

-- The overflow tests of the source, `t > m - p`, on values that are not negative.
pub ltb_ℤ-sub64 :
    (m p t : ℕ)
    → m ≤ 9223372036854775807
    → p ≤ 9223372036854775807
    → ltb_ℤ (sub64 (pos m) (pos p)) (pos t) ≡ ltb m (t + p)
ltb_ℤ-sub64 m p t h k =
    rw (sub64_lem (pos m) (pos p) (omega int_laws) (omega int_laws))
      (lem (pos m -ℤ pos p) (omega int_laws))
  where
    lem : (z : ℤ) → pos_part z + p ≡ neg_part z + m → ltb_ℤ z (pos t) ≡ ltb m (t + p)
    lem z e = ground arith

infixl 70 ◌*ℤ◌
unfoldable pub ◌*ℤ◌ : ℤ → ℤ → ℤ
a *ℤ b =
    sub_ℕ (pos_part a * pos_part b + neg_part a * neg_part b)
      (pos_part a * neg_part b + neg_part a * pos_part b)

-- int64 multiplication.
unfoldable pub mul64 : ℤ → ℤ → ℤ
mul64 a b = wrap64 (a *ℤ b)

pub mul64_pos : (a b : ℕ) → a * b ≤ 9223372036854775807 → mul64 (pos a) (pos b) ≡ pos (a * b)
unfolding mul64 ◌*ℤ◌ wrap64
mul64_pos a b h = ground arith

pub mul_mono : (k a b : ℕ) → a ≤ b → a * k ≤ b * k
mul_mono zero a b h = omega arith
mul_mono (suc k) a b h = omega (arith, mul_mono k a b h)
