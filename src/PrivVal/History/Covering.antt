-- ===== src/PrivVal/History/Covering.antt =====
-- The last sign state covers every signature released: each was for an earlier height, round and step,
-- or for the same and the same sign bytes.
use leaderberry.Prelude.{
  ◌≡◌, ◌∙◌, ◌⊎◌, inl, inr, Option, none, some, List, [], ◌∷◌, pos, Bytes, length, All, All-map,
  arith,
}
use leaderberry.Types.Hash.{Hash, new_hash}
use leaderberry.PrivVal.LastSign.{LastSignState, Precedes}
use leaderberry.PrivVal.FilePv.{
  Signing, StateFile, to_file, from_file, load_hash, hash_data, hash_bytes, read_state,
}
use leaderberry.PrivVal.History.{Release}

-- What the proofs ask of SHA-256 and JSON: a sum has 32 bytes, and a state file is read back as it was
-- written.
pub record Laws {Block : Type 0} (k : Signing Block) : Type 0 where
  pub sum_size : (bs : Bytes) → length (k.sha256 bs) ≡ 32
  pub decode-encode : (file : StateFile) → k.decode (k.encode file) ≡ some file

-- The parts of a state that decide what may be signed.
pub record SameKey (a b : LastSignState) : Type 0 where
  pub same_height : a.height ≡ b.height
  pub same_round : a.round ≡ b.round
  pub same_step : a.step ≡ b.step
  pub same_bytes : a.sign_bytes_hash ≡ b.sign_bytes_hash
  pub same_none : b.block_hash ≡ none → a.block_hash ≡ none

from_file_inversion :
    (file : StateFile) (lss : LastSignState)
    → from_file file ≡ some lss
    → (lss.height ≡ file.height)
      × (lss.round ≡ file.round)
      × (lss.step ≡ file.step)
      × (load_hash file.block_hash ≡ some lss.block_hash)
      × (load_hash file.sign_bytes_hash ≡ some lss.sign_bytes_hash)
unfolding from_file
from_file_inversion file lss e = ground arith

module _ {Block : Type 0} (k : Signing Block) where
  read_inversion :
      Laws k
      → (file : StateFile) (lss : LastSignState) → read_state k (k.encode file) ≡ some lss
      → (lss.height ≡ file.height)
        × (lss.round ≡ file.round)
        × (lss.step ≡ file.step)
        × (load_hash file.block_hash ≡ some lss.block_hash)
        × (load_hash file.sign_bytes_hash ≡ some lss.sign_bytes_hash)
  unfolding read_state
  read_inversion laws file lss e =
      from_file_inversion file lss (ground (arith, e, laws.decode-encode file))

  abbrev pub Covered : LastSignState → Release → Type 0
  Covered lss r =
      Precedes r.height r.round r.step lss.height lss.round lss.step
      ⊎ (r.height ≡ lss.height)
        × (r.round ≡ lss.round)
        × (r.step ≡ lss.step)
        × (lss.sign_bytes_hash ≡ some (hash_bytes k r.bytes))

  abbrev pub Covers : LastSignState → List Release → Type 0
  Covers lss = All (Covered lss)

  abbrev pub SameHrs : Release → Release → Type 0
  SameHrs a b = (a.height ≡ b.height) × (a.round ≡ b.round) × (a.step ≡ b.step)

  -- No two releases for one height, round and step have different sign bytes.
  abbrev pub Consistent : List Release → Type 0
  Consistent [] = Unit
  Consistent (r ∷ rs) =
      All (λ x. SameHrs r x → hash_bytes k r.bytes ≡ hash_bytes k x.bytes) rs × Consistent rs

  -- The state carries the hash of its sign bytes, or is one under which nothing can be signed again.
  abbrev pub IsHashed : LastSignState → Type 0
  IsHashed lss =
      ((bs : Bytes) × (lss.sign_bytes_hash ≡ some (hash_bytes k bs)))
      ⊎ (lss.sign_bytes_hash ≡ none) × (lss.step ≡ pos 0) × (lss.block_hash ≡ none)

  pub Covers-SameKey :
      (a b : LastSignState) (log : List Release) → SameKey a b → Covers b log → Covers a log
  Covers-SameKey a b log s = All-map (Covered b) (Covered a) log (λ r c. ground arith)

  pub IsHashed-SameKey : (a b : LastSignState) → SameKey a b → IsHashed b → IsHashed a
  IsHashed-SameKey a b s (inl (bs, e)) = inl (bs, s.same_bytes ∙ e)
  IsHashed-SameKey a b s (inr (e, z, n)) = inr (ground arith, ground arith, s.same_none n)

  -- The hash of sign bytes that is read back is the one that was written.
  load_hash-hash_data :
      Laws k
      → (h h' : Option Hash) → ((bs : Bytes) × (h ≡ some (hash_bytes k bs))) ⊎ (h ≡ none)
      → load_hash (hash_data h) ≡ some h'
      → h' ≡ h
  unfolding load_hash hash_bytes new_hash
  load_hash-hash_data laws h h' (inl (bs, e)) q = ground (arith, laws.sum_size bs)
  load_hash-hash_data laws h h' (inr e) q = ground arith

  pub read_back :
      Laws k
      → (lss lss' : LastSignState) → IsHashed lss
      → read_state k (k.encode (to_file lss)) ≡ some lss'
      → SameKey lss' lss
  read_back laws lss lss' h e =
      let (a, b, c, d, f) = read_inversion laws (to_file lss) lss' e in
      unfold to_file in
      record {
        same_height = a;
        same_round = b;
        same_step = c;
        same_bytes = load_hash-hash_data laws lss.sign_bytes_hash _ hashed f;
        same_none = λ n. load_hash-hash_data laws lss.block_hash _ (inr n) d ∙ n;
      }
    where
      hashed :
          ((bs : Bytes) × (lss.sign_bytes_hash ≡ some (hash_bytes k bs)))
          ⊎ (lss.sign_bytes_hash ≡ none)
      hashed = elim h [ inl p ↦ inl p | inr (n, _, _) ↦ inr n ]
