-- ===== src/Types/Hash.antt =====
-- types/hash.go, and CopyHash of types/block.go. A byte slice is a list of bytes, and nil is the
-- empty slice, which no code here tells apart from it. A deep copy is a new value.
use leaderberry.Prelude.{
  ◌≡◌, refl, Bool, true, Option, none, some, [], ◌∷◌, arith, ℕ, Bytes, bytes_eq, bytes_eq_sound,
  bytes_eq_refl, length, replicate, ltb, ◌==◌, if◌then◌else◌, ◌&&◌,
}

pub record Hash : Type 0 where
  pub data' : Bytes

pub record Signature : Type 0 where
  pub data' : Bytes

pub record PublicKey : Type 0 where
  pub data' : Bytes

abbrev pub hash_size : ℕ
hash_size = 32

abbrev pub signature_size : ℕ
signature_size = 64

abbrev pub public_key_size : ℕ
public_key_size = 32

-- `none` is the size error.
unfoldable pub new_hash : Bytes → Option Hash
new_hash bs = if length bs == hash_size then some (record { data' = bs }) else none

unfoldable pub new_signature : Bytes → Option Signature
new_signature bs = if length bs == signature_size then some (record { data' = bs }) else none

unfoldable pub new_public_key : Bytes → Option PublicKey
new_public_key bs = if length bs == public_key_size then some (record { data' = bs }) else none

unfoldable pub hash_empty : Hash
hash_empty = record { data' = replicate 32 0 }

unfoldable pub all_zero : Bytes → Bool
all_zero [] = true
all_zero (b ∷ bs) = b == 0 && all_zero bs

unfoldable pub is_hash_empty : Option Hash → Bool
is_hash_empty none = true
is_hash_empty (some h) = all_zero h.data'

abbrev pub hash_equal : Hash → Hash → Bool
hash_equal a b = bytes_eq a.data' b.data'

pub hash_equal_sound : (a b : Hash) → hash_equal a b ≡ true → a ≡ b
hash_equal_sound a b h = ground (arith, bytes_eq_sound a.data' b.data')

pub hash_equal_refl : (a : Hash) → hash_equal a a ≡ true
hash_equal_refl a = bytes_eq_refl a.data'

-- `make` and `copy`, which the code calls on a slice that is not empty.
unfoldable pub copy_bytes : Bytes → Bytes
copy_bytes bs = if ltb 0 (length bs) then bs else []

pub copy_bytes_lem : (bs : Bytes) → copy_bytes bs ≡ bs
unfolding copy_bytes
copy_bytes_lem [] = refl
copy_bytes_lem (b ∷ bs) = ground arith

unfoldable pub copy_hash : Option Hash → Option Hash
copy_hash none = none
copy_hash (some h) = some (record { data' = copy_bytes h.data' })

pub copy_hash_lem : (h : Option Hash) → copy_hash h ≡ h
unfolding copy_hash
copy_hash_lem none = refl
copy_hash_lem (some h) = ground (arith, copy_bytes_lem h.data')

unfoldable pub copy_signature : Signature → Signature
copy_signature s = record { data' = copy_bytes s.data' }

pub copy_signature_lem : (s : Signature) → copy_signature s ≡ s
unfolding copy_signature
copy_signature_lem s = ground (arith, copy_bytes_lem s.data')

unfoldable pub copy_public_key : PublicKey → PublicKey
copy_public_key k = record { data' = copy_bytes k.data' }

pub copy_public_key_lem : (k : PublicKey) → copy_public_key k ≡ k
unfolding copy_public_key
copy_public_key_lem k = ground (arith, copy_bytes_lem k.data')
