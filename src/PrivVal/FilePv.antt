-- ===== src/PrivVal/FilePv.antt =====
-- privval/file_pv.go: the state file and the signing methods of FilePV. Left out are the key file,
-- the lock file and the permissions of files. A block is its type only: `Signing` has the encoding
-- of its header. SHA-256, the signing of Ed25519, the Cramberry encoding and JSON are not under the
-- repository, and are functions of `Signing`.
use leaderberry.Prelude.{
  Bool, true, false, not, Option, none, some, List, [], ◌++◌, ℤ, eqb_ℤ, ltb, if◌then◌else◌, length,
  Bytes,
}
use leaderberry.Types.Hash.{
  Hash, Signature, hash_equal, new_hash, new_signature, copy_hash, copy_signature,
}
use leaderberry.Types.Account.{AccountName}
use leaderberry.Types.Vote.{Vote, Crypto, vote_sign_bytes}
use leaderberry.PrivVal.LastSign.{
  LastSignState, empty_state, step_proposal, SignError, double_sign, check_hrs, vote_step,
}

-- The proposal of types/generated/proposal.go.
pub record Proposal (Block : Type 0) : Type 0 where
  pub height : ℤ
  pub round : ℤ
  pub timestamp : ℤ
  pub block : Block
  pub pol_round : ℤ
  pub pol_votes : List Vote
  pub proposer : AccountName
  pub signature : Signature

-- The contents of the state file, FilePVState.
pub record StateFile : Type 0 where
  pub height : ℤ
  pub round : ℤ
  pub step : ℤ
  pub signature : Bytes
  pub block_hash : Bytes
  pub sign_bytes_hash : Bytes
  pub timestamp : ℤ

-- sha256.Sum256 and ed25519.Sign, the encodings of a proposal and of a block's header, and
-- json.Marshal and json.Unmarshal on the state file.
pub record Signing (Block : Type 0) : Type 0 where
  pub crypto : Crypto
  pub sha256 : Bytes → Bytes
  pub ed25519_sign : Bytes → Bytes → Bytes
  pub marshal_proposal : Proposal Block → Bytes
  pub marshal_header : Block → Bytes
  pub encode : StateFile → Bytes
  pub decode : Bytes → Option StateFile

-- `disk` is the state file, `none` if there is none.
pub record FilePv : Type 0 where
  pub priv_key : Bytes
  pub last_sign_state : LastSignState
  pub disk : Option Bytes

-- What happens to one saveState: it succeeds, it fails before the rename, or after it.
pub data Saving : Type 0 where
  saved lost late : Saving

-- The result of a signing method: the signature that it sets, the error, or a panic.
pub data Answer : Type 0 where
  signed : Signature → Answer
  refused : SignError → Answer
  panicked : Answer

abbrev pub hash_data : Option Hash → Bytes
hash_data none = []
hash_data (some h) = h.data'

unfoldable pub to_file : LastSignState → StateFile
to_file lss = record {
  height = lss.height;
  round = lss.round;
  step = lss.step;
  signature = lss.signature.data';
  block_hash = hash_data lss.block_hash;
  sign_bytes_hash = hash_data lss.sign_bytes_hash;
  timestamp = lss.timestamp;
}

infixl 5 ◌>>=◌
abbrev ◌>>=◌ {ℓ κ} : {A : Type ℓ} {B : Type κ} → Option A → (A → Option B) → Option B
none >>= f = none
some a >>= f = f a

-- An empty slice leaves the zero value; `none` is the size error.
unfoldable pub load_signature : Bytes → Option Signature
load_signature bs = if ltb 0 (length bs) then new_signature bs else some (record { data' = [] })

unfoldable pub load_hash : Bytes → Option (Option Hash)
load_hash bs = if ltb 0 (length bs) then (new_hash bs >>= λ h. some (some h)) else some none

unfoldable pub from_file : StateFile → Option LastSignState
from_file file = do
  sig ← load_signature file.signature
  hash ← load_hash file.block_hash
  bytes_hash ← load_hash file.sign_bytes_hash
  some (record {
    height = file.height;
    round = file.round;
    step = file.step;
    signature = sig;
    block_hash = hash;
    sign_bytes_hash = bytes_hash;
    timestamp = file.timestamp;
  })

module _ {Block : Type 0} (k : Signing Block) where
  -- types.HashBytes, and MustNewHash of a SHA-256 sum, whose 32 bytes it takes as they are.
  unfoldable pub hash_bytes : Bytes → Hash
  hash_bytes bs = record { data' = k.sha256 bs }

  -- BlockHash of types/block.go on a block that is not nil.
  unfoldable pub block_hash : Block → Hash
  block_hash b = hash_bytes (k.marshal_header b)

  unfoldable pub proposal_sign_bytes : Bytes → Proposal Block → Bytes
  proposal_sign_bytes chain_id p =
      chain_id ++ k.marshal_proposal (record p { signature = record { data' = [] } })

  -- The new state of the file, and whether saveState returned nil.
  unfoldable pub save_state : FilePv → Saving → FilePv × Bool
  save_state pv saved = (record pv { disk = some (k.encode (to_file pv.last_sign_state)) }, true)
  save_state pv lost = (pv, false)
  save_state pv late = (record pv { disk = some (k.encode (to_file pv.last_sign_state)) }, false)

  unfoldable pub read_state : Bytes → Option LastSignState
  read_state bs = do file ← k.decode bs; from_file file

  abbrev pub load_from : FilePv → Option LastSignState → FilePv × Bool
  load_from pv none = (pv, false)
  load_from pv (some lss) = (record pv { last_sign_state = lss }, true)

  unfoldable pub load_state_strict : FilePv → FilePv × Bool
  load_state_strict pv = elim pv.disk [
    | none ↦ (pv, false)
    | some bs ↦ load_from pv (read_state bs)
  ]

  unfoldable pub load_state : FilePv → Saving → FilePv × Bool
  load_state pv saving = elim pv.disk [
    | none ↦ save_state (record pv { last_sign_state = empty_state }) saving
    | some bs ↦ load_from pv (read_state bs)
  ]

  unfoldable pub same_hash : Option Hash → Option Hash → Bool
  same_hash none none = true
  same_hash none (some b) = false
  same_hash (some a) none = false
  same_hash (some a) (some b) = hash_equal a b

  unfoldable pub is_same_vote : LastSignState → Bytes → Vote → Bool
  is_same_vote lss chain_id vote = elim lss.sign_bytes_hash [
    | some h ↦ hash_equal h (hash_bytes (vote_sign_bytes k.crypto chain_id vote))
    | none ↦
        if not (eqb_ℤ lss.timestamp vote.timestamp)
        then false
        else same_hash lss.block_hash vote.block_hash
  ]

  abbrev stored_equal : Option Hash → Hash → Bool
  stored_equal none h = false
  stored_equal (some a) h = hash_equal a h

  unfoldable pub is_same_proposal : LastSignState → Bytes → Proposal Block → Bool
  is_same_proposal lss chain_id p = elim lss.sign_bytes_hash [
    | some h ↦ hash_equal h (hash_bytes (proposal_sign_bytes chain_id p))
    | none ↦
        if not (eqb_ℤ lss.timestamp p.timestamp)
        then false
        else stored_equal lss.block_hash (block_hash p.block)
  ]

  -- The new state in memory, the attempt to save it, and the rollback with a panic.
  unfoldable pub persist : FilePv → LastSignState → Saving → FilePv × Answer
  persist pv lss saving =
      let (after, done) = save_state (record pv { last_sign_state = lss }) saving in
      if done
      then (after, signed lss.signature)
      else (record after { last_sign_state = pv.last_sign_state }, panicked)

  -- From ed25519.Sign on; a signature of another size is the panic of MustNewSignature.
  unfoldable pub sign_bytes :
      FilePv → Bytes → (Signature → LastSignState) → Saving → FilePv × Answer
  sign_bytes pv bytes next saving = elim (new_signature (k.ed25519_sign pv.priv_key bytes)) [
    | none ↦ (pv, panicked)
    | some sig ↦ persist pv (next sig) saving
  ]

  unfoldable pub vote_state : Bytes → Vote → ℤ → Signature → LastSignState
  vote_state chain_id vote step sig = record {
    height = vote.height;
    round = vote.round;
    step = step;
    signature = sig;
    block_hash = copy_hash vote.block_hash;
    sign_bytes_hash = some (hash_bytes (vote_sign_bytes k.crypto chain_id vote));
    timestamp = vote.timestamp;
  }

  unfoldable pub proposal_state : Bytes → Proposal Block → Signature → LastSignState
  proposal_state chain_id p sig = record {
    height = p.height;
    round = p.round;
    step = step_proposal;
    signature = sig;
    block_hash = some (block_hash p.block);
    sign_bytes_hash = some (hash_bytes (proposal_sign_bytes chain_id p));
    timestamp = p.timestamp;
  }

  -- What follows CheckHRS: `same` tells the last signed message, `next` is the state to sign under.
  unfoldable pub decide_sign :
      FilePv
      → Option SignError
      → Bool
      → Bytes
      → (Signature → LastSignState)
      → Saving
      → FilePv × Answer
  decide_sign pv none same bytes next saving = sign_bytes pv bytes next saving
  decide_sign pv (some double_sign) same bytes next saving =
      if same
      then (pv, signed (copy_signature pv.last_sign_state.signature))
      else (pv, refused double_sign)
  decide_sign pv (some e) same bytes next saving = (pv, refused e)

  unfoldable pub sign_vote : FilePv → Bytes → Vote → Saving → FilePv × Answer
  sign_vote pv chain_id vote saving = elim (vote_step vote.type') [
    | none ↦ (pv, panicked)
    | some step ↦
        decide_sign pv (check_hrs pv.last_sign_state vote.height vote.round step)
          (is_same_vote pv.last_sign_state chain_id vote) (vote_sign_bytes k.crypto chain_id vote)
          (vote_state chain_id vote step) saving
  ]

  unfoldable pub sign_proposal : FilePv → Bytes → Proposal Block → Saving → FilePv × Answer
  sign_proposal pv chain_id p saving =
      decide_sign pv (check_hrs pv.last_sign_state p.height p.round step_proposal)
        (is_same_proposal pv.last_sign_state chain_id p) (proposal_sign_bytes chain_id p)
        (proposal_state chain_id p) saving

  -- `false` is the error of saveState.
  unfoldable pub reset : FilePv → Saving → FilePv × Bool
  reset pv saving =
      let (after, done) = save_state (record pv { last_sign_state = empty_state }) saving in
      if done then (after, true) else (record after { last_sign_state = pv.last_sign_state }, false)
