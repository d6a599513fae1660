-- ===== src/Types/Vote.antt =====
-- The votes of types/vote.go and types/generated/vote.go, with their sign bytes and signatures.
-- Ed25519 (crypto/ed25519) and the Cramberry encoding are not under the repository: both are
-- functions of the record `Crypto`, which every definition that uses them takes as an argument.
-- An error of the encoder, on which VoteSignBytes panics, is left out.
use leaderberry.Prelude.{
  ◌≡◌, refl, Bool, true, false, Option, [], ◌++◌, List, not, arith, ℕ, ℤ, pos, Bytes, length, ◌==◌,
  if◌then◌else◌,
}
use leaderberry.Types.Hash.{
  Hash, Signature, PublicKey, is_hash_empty, copy_hash, copy_hash_lem, copy_bytes, copy_bytes_lem,
  public_key_size, signature_size,
}
use leaderberry.Types.Account.{AccountName, copy_account_name, copy_account_name_lem}

-- VoteType is an int32; the three constants.
abbrev pub vote_type_unknown : ℤ
vote_type_unknown = pos 0

abbrev pub vote_type_prevote : ℤ
vote_type_prevote = pos 1

abbrev pub vote_type_precommit : ℤ
vote_type_precommit = pos 2

pub record Vote : Type 0 where
  pub type' : ℤ
  pub height : ℤ
  pub round : ℤ
  pub block_hash : Option Hash
  pub timestamp : ℤ
  pub validator : AccountName
  pub validator_index : ℕ  -- uint16
  pub signature : Signature

pub record CommitSig : Type 0 where
  pub validator_index : ℕ  -- uint16
  pub signature : Signature
  pub timestamp : ℤ
  pub block_hash : Option Hash

pub record Commit : Type 0 where
  pub height : ℤ
  pub round : ℤ
  pub block_hash : Hash
  pub signatures : List CommitSig

-- ed25519.Verify on a key, a message and a signature, and Vote.MarshalCramberry.
pub record Crypto : Type 0 where
  pub ed25519_verify : Bytes → Bytes → Bytes → Bool
  pub marshal_vote : Vote → Bytes

unfoldable pub copy_vote : Vote → Vote
copy_vote v = record {
  type' = v.type';
  height = v.height;
  round = v.round;
  block_hash = copy_hash v.block_hash;
  timestamp = v.timestamp;
  validator = copy_account_name v.validator;
  validator_index = v.validator_index;
  signature = record { data' = copy_bytes v.signature.data' };
}

pub copy_vote_lem : (v : Vote) → copy_vote v ≡ v
unfolding copy_vote
copy_vote_lem v = ground (
  arith,
  copy_hash_lem v.block_hash,
  copy_account_name_lem v.validator,
  copy_bytes_lem v.signature.data',
)

unfoldable pub is_nil_vote : Vote → Bool
is_nil_vote v = is_hash_empty v.block_hash

module _ (c : Crypto) where
  unfoldable pub vote_sign_bytes : Bytes → Vote → Bytes
  vote_sign_bytes chain_id v =
      chain_id ++ c.marshal_vote (record v { signature = record { data' = [] } })

  -- The signature is not part of what is signed.
  pub vote_sign_bytes_unsigned :
      (chain_id : Bytes) (v : Vote) (s : Signature)
      → vote_sign_bytes chain_id (record v { signature = s }) ≡ vote_sign_bytes chain_id v
  unfolding vote_sign_bytes
  vote_sign_bytes_unsigned chain_id v s = refl

  -- VerifySignature of types/account.go.
  unfoldable pub verify_signature : PublicKey → Bytes → Signature → Bool
  verify_signature key message sig =
      if not (length key.data' == public_key_size)
      then false
      else if not (length sig.data' == signature_size)
      then false
      else c.ed25519_verify key.data' message sig.data'

  -- VerifyVoteSignature, where `true` is the nil error.
  unfoldable pub verify_vote_signature : Bytes → Vote → PublicKey → Bool
  verify_vote_signature chain_id vote key =
      if length vote.signature.data' == 0
      then false
      else if not (length key.data' == public_key_size)
      then false
      else c.ed25519_verify key.data' (vote_sign_bytes chain_id vote) vote.signature.data'

  -- What the vote set accepts, the commit check accepts.
  pub verify_signature-verify_vote_signature :
      (chain_id : Bytes) (v : Vote) (key : PublicKey)
      → verify_signature key (vote_sign_bytes chain_id v) v.signature ≡ true
      → verify_vote_signature chain_id v key ≡ true
  unfolding verify_signature verify_vote_signature
  verify_signature-verify_vote_signature chain_id v key h = ground arith

  pub verify_signature-length :
      (key : PublicKey) (message : Bytes) (sig : Signature)
      → verify_signature key message sig ≡ true
      → length sig.data' ≡ signature_size
  unfolding verify_signature
  verify_signature-length key message sig h = ground arith
