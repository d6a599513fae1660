-- ===== src/Prelude/ByteStrings.antt =====
-- Byte sequences: Go's []byte and string, with `bytes.Equal`, the order of strings, and hex.
use leaderberry.Prelude.Tests.{ltb, ◌==◌, if◌then◌else◌}
use Prim.Native.Nat.{ℕ, ◌+◌, ◌/◌, ◌%◌}
use mathlib.Core.Path.{◌≡◌, refl}
use mathlib.Core.Bool.{Bool, true, false, ◌&&◌, ◌||◌}
use mathlib.Core.List.{List, [], ◌∷◌}
use native.Mathlib.Omega.{arith}

abbrev pub Bytes : Type 0
Bytes = List ℕ

unfoldable pub bytes_eq : Bytes → Bytes → Bool
bytes_eq [] [] = true
bytes_eq [] (b ∷ bs) = false
bytes_eq (a ∷ as') [] = false
bytes_eq (a ∷ as') (b ∷ bs) = a == b && bytes_eq as' bs

pub bytes_eq_sound : (a b : Bytes) → bytes_eq a b ≡ true → a ≡ b
unfolding bytes_eq
bytes_eq_sound [] [] h = refl
bytes_eq_sound [] (b ∷ bs) h = ground arith
bytes_eq_sound (a ∷ as') [] h = ground arith
bytes_eq_sound (a ∷ as') (b ∷ bs) h = ground (arith, bytes_eq_sound as' bs)

pub bytes_eq_refl : (a : Bytes) → bytes_eq a a ≡ true
unfolding bytes_eq
bytes_eq_refl [] = refl
bytes_eq_refl (a ∷ as') = ground (arith, bytes_eq_refl as')

-- The order of Go's strings: bytewise, a proper prefix first.
unfoldable pub bytes_lt : Bytes → Bytes → Bool
bytes_lt a [] = false
bytes_lt [] (b ∷ bs) = true
bytes_lt (a ∷ as') (b ∷ bs) = ltb a b || (a == b && bytes_lt as' bs)

abbrev hex_digit : ℕ → ℕ
hex_digit n = if ltb n 10 then n + 48 else n + 87

-- `hex.EncodeToString`: two digits for each byte.
unfoldable pub hex_encode : Bytes → Bytes
hex_encode [] = []
hex_encode (b ∷ bs) = hex_digit (b / 16) ∷ hex_digit (b % 16) ∷ hex_encode bs

pub hex_encode-injective : (a b : Bytes) → hex_encode a ≡ hex_encode b → a ≡ b
unfolding hex_encode
hex_encode-injective [] [] h = refl
hex_encode-injective [] (b ∷ bs) h = ground arith
hex_encode-injective (a ∷ as') [] h = ground arith
hex_encode-injective (a ∷ as') (b ∷ bs) h = ground (arith, hex_encode-injective as' bs)

-- The text "nil".
abbrev pub nil_key : Bytes
nil_key = 110 ∷ 105 ∷ 108 ∷ []

pub hex_encode-ne-nil_key : (a : Bytes) → hex_encode a ≡ nil_key → ⊥
unfolding hex_encode
hex_encode-ne-nil_key [] h = ground arith
hex_encode-ne-nil_key (a ∷ []) h = ground arith
hex_encode-ne-nil_key (a ∷ b ∷ r) h = ground arith

pub bytes_lt_irrefl : (a : Bytes) → bytes_lt a a ≡ false
unfolding bytes_lt
bytes_lt_irrefl [] = refl
bytes_lt_irrefl (a ∷ as') = ground (arith, bytes_lt_irrefl as')

pub bytes_lt_trans :
    (a b c : Bytes) → bytes_lt a b ≡ true → bytes_lt b c ≡ true → bytes_lt a c ≡ true
unfolding bytes_lt
bytes_lt_trans a b [] h k = cc
bytes_lt_trans a [] (c ∷ cs) h k = cc
bytes_lt_trans [] (b ∷ bs) (c ∷ cs) h k = refl
bytes_lt_trans (a ∷ as') (b ∷ bs) (c ∷ cs) h k = ground (arith, bytes_lt_trans as' bs cs)

pub bytes_lt_connex : (a b : Bytes) → bytes_lt a b ≡ false → bytes_lt b a ≡ false → a ≡ b
unfolding bytes_lt
bytes_lt_connex [] [] h k = refl
bytes_lt_connex [] (b ∷ bs) h k = cc
bytes_lt_connex (a ∷ as') [] h k = cc
bytes_lt_connex (a ∷ as') (b ∷ bs) h k = ground (arith, bytes_lt_connex as' bs)
