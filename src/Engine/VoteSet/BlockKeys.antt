-- ===== src/Engine/VoteSet/BlockKeys.antt =====
-- The keys that blockHashKey of engine/vote_tracker.go gives to block hashes.
use leaderberry.Prelude.{
  ◌≡◌, refl, true, false, Option, none, some, hex_encode-injective, hex_encode-ne-nil_key, nat_key,
  bytes_key, arith, inl, inr, ◌⊎◌, Bool-cases,
}
use leaderberry.Types.Hash.{Hash, is_hash_empty, hash_equal_refl}
use leaderberry.Types.Commit.{is_for}
use leaderberry.Engine.VoteSet.{block_hash_key}

-- Two hashes with one key are both empty, or equal.
pub block_hash_key_lem :
    (a b : Option Hash)
    → block_hash_key a ≡ block_hash_key b
    → ((is_hash_empty a ≡ true) × (is_hash_empty b ≡ true)) ⊎ (a ≡ b)
unfolding block_hash_key is_hash_empty
block_hash_key_lem none none e = inr refl
block_hash_key_lem none (some b) e = elim (Bool-cases (is_hash_empty (some b))) [
  | inl q ↦ inl (refl, q)
  | inr q ↦ absurd (hex_encode-ne-nil_key b.data' (ground (arith, e, q)))
]
block_hash_key_lem (some a) none e = elim (Bool-cases (is_hash_empty (some a))) [
  | inl q ↦ inl (q, refl)
  | inr q ↦ absurd (hex_encode-ne-nil_key a.data' (ground (arith, e, q)))
]
block_hash_key_lem (some a) (some b) e = elim (Bool-cases (is_hash_empty (some a))) [
  | inl p ↦ elim (Bool-cases (is_hash_empty (some b))) [
    | inl q ↦ inl (p, q)
    | inr q ↦ absurd (hex_encode-ne-nil_key b.data' (ground (arith, e, p, q)))
  ]
  | inr p ↦ elim (Bool-cases (is_hash_empty (some b))) [
    | inl q ↦ absurd (hex_encode-ne-nil_key a.data' (ground (arith, e, p, q)))
    | inr q ↦ inr (ground (arith, e, p, q, hex_encode-injective a.data' b.data'))
  ]
]

-- A vote for the key of a hash that is not empty is a vote for that hash.
pub vote_for_hash :
    (h : Option Hash) (hash : Hash)
    → is_hash_empty (some hash) ≡ false
    → block_hash_key h ≡ block_hash_key (some hash)
    → is_for hash h ≡ true
vote_for_hash h hash full e = elim (block_hash_key_lem h (some hash) e) [
  | inl (_, q) ↦ absurd (ground (arith, full, q))
  | inr q ↦ rw q (ground (arith, full, hash_equal_refl hash))
]
