-- ===== src/Tests/BlockParts.antt =====
-- Part sets at work, with a checksum in the place of SHA-256.
use leaderberry.Prelude.{
  ◌≡◌, refl, ◌⊎◌, ℕ, ◌+◌, ◌*◌, ◌%◌, Option, none, some, List, [], ◌∷◌, ◌++◌, replicate, Bytes,
  bytes_eq, arith, bit_of, mark_bit, test_bit, with_bit,
}
use leaderberry.Types.Hash.{Hash, new_hash}
use leaderberry.Types.BlockParts.{
  BlockPart, BlockPartSetHeader, PartSet, new_part_set_from_header, get_data, has_part_unlocked,
  next_level, merkle_loop, compute_merkle_root, climb, verify_merkle_proof, assemble_data,
  place_part, add_part, get_part, missing_parts, missing_parts_from,
}
use leaderberry.Types.BlockParts.Merkle.{HasHashSize, Collision}
use leaderberry.Types.BlockParts.Adding.{IsSound, add_parts, add_parts_total}
use leaderberry.Types.BlockParts.Agreeing.{get_data_agree}

abbrev checksum : ℕ → Bytes → ℕ
checksum acc [] = acc
checksum acc (b ∷ bs) = checksum ((acc * 31 + b + 7) % 251) bs

abbrev digest : Bytes → Bytes
digest bs = checksum 1 bs ∷ replicate 31 0

digest-HasHashSize : (bs : Bytes) → HasHashSize (digest bs)
digest-HasHashSize bs = refl

abbrev leaf : Bytes → Hash
leaf bs = record { data' = digest bs }

abbrev data_0 : Bytes
data_0 = 1 ∷ 2 ∷ []

abbrev data_1 : Bytes
data_1 = 3 ∷ []

abbrev both_leaves : Bytes
both_leaves = digest data_0 ++ digest data_1

abbrev two_parts : BlockPartSetHeader
two_parts = record { total = 2; hash = leaf both_leaves }

abbrev part_0 : BlockPart
part_0 = record {
  index = 0;
  bytes = data_0;
  proof_path = leaf data_1 ∷ [];
  proof_root = two_parts.hash;
}

abbrev part_1 : BlockPart
part_1 = record {
  index = 1;
  bytes = data_1;
  proof_path = leaf data_0 ∷ [];
  proof_root = two_parts.hash;
}

-- Not a part of the data: the two leaves of the tree, with the empty path of their parent.
abbrev forged_0 : BlockPart
forged_0 = record { index = 0; bytes = both_leaves; proof_path = []; proof_root = two_parts.hash }

abbrev in_order : List (Option BlockPart)
in_order = some part_0 ∷ some part_1 ∷ []

abbrev out_of_order : List (Option BlockPart)
out_of_order = some part_1 ∷ none ∷ some part_1 ∷ some part_0 ∷ []

abbrev all_data : Bytes
all_data = 1 ∷ 2 ∷ 3 ∷ []

abbrev complete : PartSet
complete = record {
  total = 2;
  hash = two_parts.hash;
  parts = some part_0 ∷ some part_1 ∷ [];
  parts_bits = 3 ∷ [];
  parts_count = 2;
  data' = some all_data;
}

-- The last run: a part whose bytes are two hashes of the tree is taken, and the set is complete without
-- data from then on.
added_lem :
    (add_parts digest (new_part_set_from_header two_parts) in_order ≡ some complete)
    × ((add_parts digest (new_part_set_from_header two_parts) out_of_order ≡ some complete)
        × (add_parts digest (new_part_set_from_header two_parts) (some forged_0 ∷ in_order)
            ≡ some (record complete { parts = some forged_0 ∷ some part_1 ∷ []; data' = none })))
unfolding new_part_set_from_header has_part_unlocked next_level merkle_loop compute_merkle_root
    climb verify_merkle_proof assemble_data place_part add_part new_hash bytes_eq bit_of mark_bit
    test_bit with_bit
added_lem = (refl, (refl, refl))

get_data_lem : get_data complete ≡ (none, all_data)
unfolding get_data
get_data_lem = refl

missing_parts_lem : (missing_parts complete ≡ []) × (get_part complete 2 ≡ none)
unfolding missing_parts missing_parts_from has_part_unlocked get_part bit_of test_bit
missing_parts_lem = (refl, refl)

add_parts_total_example :
    (ps : PartSet) × ((add_parts digest (new_part_set_from_header two_parts) out_of_order ≡ some ps)
      × (IsSound digest ps × ((ps.hash ≡ two_parts.hash) × (ps.total ≡ two_parts.total))))
add_parts_total_example =
    add_parts_total digest digest-HasHashSize two_parts out_of_order (omega arith)

get_data_agree_example : (all_data ≡ all_data) ⊎ Collision digest
get_data_agree_example =
    get_data_agree digest digest-HasHashSize two_parts in_order out_of_order complete complete
      all_data all_data (omega arith) added_lem.0 added_lem.1.0 get_data_lem get_data_lem
