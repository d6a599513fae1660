-- ===== src/Prelude/Bits.antt =====
-- The bits of a machine word: `w & (1 << b) != 0` and `w | (1 << b)`, for a `b` below the word's width.
use leaderberry.Prelude.Tests.{◌==◌, if◌then◌else◌, Bool-cases}
use leaderberry.Prelude.Lists.{get_or, set, replicate, length, length-set}
use Prim.Native.Nat.{ℕ, zero, suc, ◌+◌, ◌-◌, ◌*◌, ◌/◌, ◌%◌, ◌<◌}
use mathlib.Core.Path.{◌≡◌, refl, ap, ◌∙◌}
use mathlib.Core.Bool.{Bool, false, ◌&&◌, ◌||◌}
use mathlib.Core.Logic.{inl, inr}
use mathlib.Core.List.{List, [], ◌∷◌}
use native.Mathlib.Omega.{arith}

unfoldable pub test_bit : ℕ → ℕ → Bool
test_bit w zero = w % 2 == 1
test_bit w (suc b) = test_bit (w / 2) b

unfoldable pub with_bit : ℕ → ℕ → ℕ
with_bit w zero = w - w % 2 + 1
with_bit w (suc b) = with_bit (w / 2) b * 2 + w % 2

-- Exactly the bit that is set changes.
pub test_bit-with_bit : (w b c : ℕ) → test_bit (with_bit w b) c ≡ (b == c || test_bit w c)
unfolding test_bit with_bit
test_bit-with_bit w zero zero = ground arith
test_bit-with_bit w zero (suc c) =
    let halved : (w - w % 2 + 1) / 2 ≡ w / 2 = omega arith in
    ap (λ n. test_bit n c) halved ∙ ground arith
test_bit-with_bit w (suc b) zero = ground arith
test_bit-with_bit w (suc b) (suc c) =
    let halved : (with_bit (w / 2) b * 2 + w % 2) / 2 ≡ with_bit (w / 2) b = omega arith in
    ap (λ n. test_bit n c) halved ∙ (test_bit-with_bit (w / 2) b c ∙ ground arith)

pub test_bit_zero : (b : ℕ) → test_bit 0 b ≡ false
unfolding test_bit
test_bit_zero zero = refl
test_bit_zero (suc b) = test_bit_zero b

get_or-set :
    (xs : List ℕ) (i j v : ℕ)
    → i < length xs
    → get_or (set xs i v) j 0 ≡ (if i == j then v else get_or xs j 0)
get_or-set [] i j v h = absurd (omega arith)
get_or-set (x ∷ xs) zero zero v h = ground arith
get_or-set (x ∷ xs) zero (suc j) v h = ground arith
get_or-set (x ∷ xs) (suc i) zero v h = ground arith
get_or-set (x ∷ xs) (suc i) (suc j) v h = ground (arith, get_or-set xs i j v (omega arith))

same_place : (i j : ℕ) → (i == j) ≡ (i / 64 == j / 64 && i % 64 == j % 64)
same_place i j = ground arith

-- The bit of an index in a bitmap of 64-bit words.
unfoldable pub bit_of : List ℕ → ℕ → Bool
bit_of ws i = test_bit (get_or ws (i / 64) 0) (i % 64)

unfoldable pub mark_bit : List ℕ → ℕ → List ℕ
mark_bit ws i = set ws (i / 64) (with_bit (get_or ws (i / 64) 0) (i % 64))

pub length-mark_bit : (ws : List ℕ) (i : ℕ) → length (mark_bit ws i) ≡ length ws
unfolding mark_bit
length-mark_bit ws i = length-set ws (i / 64) (with_bit (get_or ws (i / 64) 0) (i % 64))

pub bit_of-mark_bit :
    (ws : List ℕ) (i j : ℕ)
    → i / 64 < length ws
    → bit_of (mark_bit ws i) j ≡ (i == j || bit_of ws j)
unfolding bit_of mark_bit
bit_of-mark_bit ws i j l =
    rw (get_or-set ws (i / 64) (j / 64) (with_bit (get_or ws (i / 64) 0) (i % 64)) l)
      (elim (Bool-cases (i / 64 == j / 64)) [
        | inl e ↦
            let same : i / 64 ≡ j / 64 = ground (arith, e) in
            let word = get_or ws (i / 64) 0 in
            rw e (
              test_bit-with_bit word (i % 64) (j % 64)
              ∙ ground (arith, e, same_place i j, ap (λ n. test_bit (get_or ws n 0) (j % 64)) same))
        | inr e ↦ rw e (ground (arith, e, same_place i j))
      ])

get_or-replicate : (n j : ℕ) → get_or (replicate {A = ℕ} n 0) j 0 ≡ 0
get_or-replicate zero j = refl
get_or-replicate (suc n) zero = refl
get_or-replicate (suc n) (suc j) = get_or-replicate n j

pub bit_of-replicate : (n j : ℕ) → bit_of (replicate n 0) j ≡ false
unfolding bit_of
bit_of-replicate n j =
    ap (λ w. test_bit w (j % 64)) (get_or-replicate n (j / 64)) ∙ test_bit_zero (j % 64)
