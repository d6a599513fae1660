-- ===== src/Types/BlockParts.antt =====
-- The parts in which a block travels: types/block_parts.go. `sha256` is Sum256 of crypto/sha256. A set is
-- its state under the mutex; a panic is `none`. A deep copy is a new value, and MustNewHash of a digest
-- keeps it, since a digest has the size of a hash.
pub mod Merkle
pub mod Filling
pub mod Adding
pub mod Agreeing
use leaderberry.Prelude.{
  ℕ, zero, suc, ◌+◌, ◌*◌, ◌/◌, ◌%◌, Bool, true, false, Option, none, some, List, [], ◌∷◌, ◌++◌, map,
  ltb, leb, ◌==◌, if◌then◌else◌, Bytes, get_or, set, replicate, length, bit_of, mark_bit,
}
use leaderberry.Types.Hash.{Hash, hash_equal, hash_empty, new_hash}

abbrev pub block_part_size : ℕ
block_part_size = 65536

abbrev pub max_block_parts : ℕ
max_block_parts = 1024

pub record BlockPart : Type 0 where
  pub index : ℕ  -- uint16
  pub bytes : Bytes
  pub proof_path : List Hash
  pub proof_root : Hash

pub record BlockPartSetHeader : Type 0 where
  pub total : ℕ  -- uint16
  pub hash : Hash

pub record PartSet : Type 0 where
  pub total : ℕ  -- uint16
  pub hash : Hash
  pub parts : List (Option BlockPart)
  pub parts_bits : List ℕ  -- uint64
  pub parts_count : ℕ  -- uint16
  pub data' : Option Bytes

pub data PartError : Type 0 where
  nil_part invalid_index part_too_large already_has invalid_proof hash_mismatch not_complete :
      PartError
  assembly_failed : PartError

-- `none` is ErrTooManyParts.
unfoldable pub new_part_set_from_header : BlockPartSetHeader → Option PartSet
new_part_set_from_header header =
    if ltb max_block_parts header.total
    then none
    else some (record {
      total = header.total;
      hash = header.hash;
      parts = replicate header.total none;
      parts_bits = replicate ((header.total + 63) / 64) 0;
      parts_count = 0;
      data' = none;
    })

abbrev pub is_complete : PartSet → Bool
is_complete ps = ps.parts_count == ps.total

unfoldable pub has_part_unlocked : PartSet → ℕ → Bool
has_part_unlocked ps index = if leb ps.total index then false else bit_of ps.parts_bits index

unfoldable pub get_part : PartSet → ℕ → Option BlockPart
get_part ps index = if leb ps.total index then none else get_or ps.parts index none

-- The loop of MissingParts, for the `n` indices from `i` on.
unfoldable pub missing_parts_from : PartSet → ℕ → ℕ → List ℕ
missing_parts_from ps i zero = []
missing_parts_from ps i (suc n) =
    let rest = missing_parts_from ps (suc i) n in if has_part_unlocked ps i then rest else i ∷ rest

unfoldable pub missing_parts : PartSet → List ℕ
missing_parts ps = missing_parts_from ps 0 ps.total

abbrev pub cons_part : BlockPart → Option (List BlockPart) → Option (List BlockPart)
cons_part p none = none
cons_part p (some rest) = some (p ∷ rest)

-- The parts, each of which the code dereferences.
abbrev pub all_parts : List (Option BlockPart) → Option (List BlockPart)
all_parts [] = some []
all_parts (none ∷ ps) = none
all_parts (some p ∷ ps) = cons_part p (all_parts ps)

abbrev pub join_bytes : List BlockPart → Bytes
join_bytes [] = []
join_bytes (p ∷ ps) = p.bytes ++ join_bytes ps

abbrev pub assembled : Option Bytes → Option PartError × Bytes
assembled none = (some assembly_failed, [])
assembled (some d) = (none, d)

unfoldable pub get_data : PartSet → Option PartError × Bytes
get_data ps = if ps.parts_count == ps.total then assembled ps.data' else (some not_complete, [])

-- The set with the part, before it is assembled.
unfoldable pub place_part : PartSet → BlockPart → PartSet
place_part ps part = record ps {
  parts = set ps.parts part.index (some part);
  parts_bits = mark_bit ps.parts_bits part.index;
  parts_count = (ps.parts_count + 1) % 65536;
}

-- MustNewHash panics on a size other than a hash's.
abbrev pub must_new_hash : Option Bytes → Option Hash
must_new_hash none = none
must_new_hash (some bs) = new_hash bs

module _ (sha256 : Bytes → Bytes) where
  -- One level of the tree: an odd one out is hashed with itself.
  unfoldable pub next_level : List Bytes → List Bytes
  next_level [] = []
  next_level (x ∷ []) = sha256 (x ++ x) ∷ []
  next_level (x ∷ y ∷ rest) = sha256 (x ++ y) ∷ next_level rest

  -- The loop of computeMerkleRoot, on fuel.
  unfoldable pub merkle_loop : ℕ → List Bytes → Option Bytes
  merkle_loop n [] = none
  merkle_loop n (x ∷ []) = some x
  merkle_loop zero (x ∷ y ∷ rest) = none
  merkle_loop (suc n) (x ∷ y ∷ rest) = merkle_loop n (next_level (x ∷ y ∷ rest))

  unfoldable pub compute_merkle_root : List Bytes → Option Hash
  compute_merkle_root [] = some hash_empty
  compute_merkle_root (x ∷ rest) = must_new_hash (merkle_loop (length (x ∷ rest)) (x ∷ rest))

  -- The loop of verifyMerkleProof.
  unfoldable pub climb : Hash → ℕ → List Hash → Hash
  climb current idx [] = current
  climb current idx (sibling ∷ path) =
      climb
        (record {
          data' = sha256 (
              if idx % 2 == 0
              then current.data' ++ sibling.data'
              else sibling.data' ++ current.data');
        })
        (idx / 2) path

  unfoldable pub verify_merkle_proof : Hash → ℕ → List Hash → Hash → Bool
  verify_merkle_proof part_hash index [] root = hash_equal part_hash root
  verify_merkle_proof part_hash index (sibling ∷ path) root =
      hash_equal (climb part_hash index (sibling ∷ path)) root

  abbrev pub part_hashes : List BlockPart → List Bytes
  part_hashes ps = map (λ p. sha256 p.bytes) ps

  abbrev pub checked_data :
      PartSet → List BlockPart → Option Hash → Option (Option PartError × PartSet)
  checked_data ps parts none = none
  checked_data ps parts (some computed) =
      if hash_equal computed ps.hash
      then some (none, record ps { data' = some (join_bytes parts) })
      else some (some hash_mismatch, record ps { data' = none })

  abbrev pub assemble_parts :
      PartSet → Option (List BlockPart) → Option (Option PartError × PartSet)
  assemble_parts ps none = none
  assemble_parts ps (some parts) = checked_data ps parts (compute_merkle_root (part_hashes parts))

  unfoldable pub assemble_data : PartSet → Option (Option PartError × PartSet)
  assemble_data ps = assemble_parts ps (all_parts ps.parts)

  abbrev pub store_part : PartSet → Option (Option PartError × PartSet)
  store_part ps = if ps.parts_count == ps.total then assemble_data ps else some (none, ps)

  unfoldable pub add_part : PartSet → Option BlockPart → Option (Option PartError × PartSet)
  add_part ps none = some (some nil_part, ps)
  add_part ps (some part) =
      if leb ps.total part.index
      then some (some invalid_index, ps)
      else if ltb block_part_size (length part.bytes)
      then some (some part_too_large, ps)
      else if has_part_unlocked ps part.index
      then some (some already_has, ps)
      else if verify_merkle_proof (record { data' = sha256 part.bytes }) part.index part.proof_path
          ps.hash
      then store_part (place_part ps part)
      else some (some invalid_proof, ps)
