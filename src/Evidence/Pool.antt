-- ===== src/Evidence/Pool.antt =====
-- evidence/pool.go: the votes seen, the evidence that two of them make, and the evidence that waits for
-- a block. The order in which Go goes through a map is that of the list. Times are nanoseconds.
-- fmt, SHA-256 and the Cramberry encoding are not under the repository: they are functions of `Outside`.
pub mod Pending
pub mod Marked
use leaderberry.Prelude.{
  ℕ, zero, suc, ◌+◌, ◌/◌, ◌≡◌, refl, Bool, true, false, not, ◌&&◌, ◌||◌, Option, none, some, List,
  [], ◌∷◌, ◌++◌, ℤ, pos, negsuc, add64, sub64, ◌-ℤ◌, ltb_ℤ, leb_ℤ, eqb_ℤ, leb, ◌==◌, if◌then◌else◌,
  length, take, Bytes, bytes_eq, lookup, insert, bytes_key, is_some, keep_if, max_int64, min_int64,
}
use leaderberry.Types.Hash.{Hash, hash_equal, copy_bytes}
use leaderberry.Types.Account.{account_name_string}
use leaderberry.Types.Vote.{Vote, Crypto, copy_vote, verify_vote_signature}
use leaderberry.Types.Validator.{ValidatorSet, NamedValidator, get_by_name}

pub record DuplicateVoteEvidence : Type 0 where
  pub vote_a : Vote
  pub vote_b : Vote
  pub total_voting_power : ℤ
  pub validator_power : ℤ
  pub timestamp : ℤ

pub record Evidence : Type 0 where
  pub type' : ℤ
  pub height : ℤ
  pub time : ℤ
  pub data' : Bytes

-- The formats of voteKey and evidenceKey, the scan of a height in a key, SHA-256 and
-- DuplicateVoteEvidence.MarshalCramberry, whose error is left out.
pub record Outside : Type 0 where
  pub crypto : Crypto
  pub format_vote_key : Bytes → ℤ → ℤ → ℤ → Bytes
  pub format_evidence_key : ℤ → ℤ → ℤ → Bytes → Bytes
  pub scan_height : Bytes → Option ℤ
  pub sha256 : Bytes → Bytes
  pub marshal_duplicate : DuplicateVoteEvidence → Bytes

pub record Config : Type 0 where
  pub max_age : ℤ
  pub max_age_blocks : ℤ
  pub max_bytes : ℤ

pub record Pool : Type 0 where
  pub config : Config
  pub pending : List Evidence
  pub committed : List (Bytes × Bool)  -- the set, with `true` for each key
  pub seen_votes : List (Bytes × Vote)
  pub current_height : ℤ
  pub current_time : ℤ

pub data EvidenceError : Type 0 where
  invalid_evidence duplicate_evidence evidence_expired invalid_vote_height invalid_vote_round
        invalid_vote_type invalid_validator same_block_hash vote_pool_full nil_vote
        nil_validator_set invalid_vote_signature invalid_signature_a invalid_signature_b
        created_invalid pending_full :
      EvidenceError

abbrev pub max_seen_votes : ℕ
max_seen_votes = 100000

abbrev pub vote_protection_window : ℤ
vote_protection_window = pos 1000

abbrev pub max_pending_evidence : ℕ
max_pending_evidence = 10000

abbrev pub evidence_type_duplicate_vote : ℤ
evidence_type_duplicate_vote = pos 1

unfoldable pub copy_evidence : Evidence → Evidence
copy_evidence ev = record ev { data' = copy_bytes ev.data' }

unfoldable pub new_pool : Config → Pool
new_pool config = record {
  config = config;
  pending = [];
  committed = [];
  seen_votes = [];
  current_height = pos 0;
  current_time = negsuc 62135596799999999999;
}

-- Time.Sub, which stops at the ends of an int64.
unfoldable pub time_sub : ℤ → ℤ → ℤ
time_sub t u =
    let d = t -ℤ u in
    if ltb_ℤ max_int64 d then max_int64 else if ltb_ℤ d min_int64 then min_int64 else d

unfoldable pub is_expired : Pool → Evidence → Bool
is_expired p ev =
    if ltb_ℤ p.config.max_age_blocks (sub64 p.current_height ev.height)
    then true
    else ltb_ℤ p.config.max_age (time_sub p.current_time ev.time)

-- The test by which pruneExpired deletes keys and votes of a height.
unfoldable pub is_past : Pool → ℤ → Bool
is_past p height =
    ltb_ℤ height p.current_height && ltb_ℤ p.config.max_age_blocks (sub64 p.current_height height)

abbrev pub past_height : Pool → Option ℤ → Bool
past_height p none = false
past_height p (some height) = is_past p height

-- int64(24 + len(ev.Data)).
unfoldable pub evidence_size : Evidence → ℤ
evidence_size ev = pos (24 + length ev.data')

unfoldable pub take_pending : ℤ → ℤ → List Evidence → List Evidence
take_pending max_bytes size [] = []
take_pending max_bytes size (ev ∷ evs) =
    let rest = take_pending max_bytes (add64 size (evidence_size ev)) evs in
    if ltb_ℤ max_bytes (add64 size (evidence_size ev)) then [] else copy_evidence ev ∷ rest

unfoldable pub pending_evidence : Pool → ℤ → List Evidence
pending_evidence p max_bytes =
    take_pending (if leb_ℤ max_bytes (pos 0) then p.config.max_bytes else max_bytes) (pos 0)
      p.pending

module _ (o : Outside) where
  unfoldable pub evidence_key : Evidence → Bytes
  evidence_key ev = o.format_evidence_key ev.type' ev.height ev.time (take 8 (o.sha256 ev.data'))

  unfoldable pub has_key : Bytes → List Evidence → Bool
  has_key key [] = false
  has_key key (ev ∷ evs) = bytes_eq (evidence_key ev) key || has_key key evs

  unfoldable pub prune_expired : Pool → Pool
  prune_expired p = record p {
    pending = keep_if (λ ev. not (is_expired p ev)) p.pending;
    committed = keep_if (λ e. not (past_height p (o.scan_height e.0))) p.committed;
    seen_votes = keep_if (λ e. not (is_past p e.1.height)) p.seen_votes;
  }

  unfoldable pub update : Pool → ℤ → ℤ → Pool
  update p height block_time =
      prune_expired (record p { current_height = height; current_time = block_time })

  -- `none` is the nil error.
  unfoldable pub add_evidence : Pool → Option Evidence → Pool × Option EvidenceError
  add_evidence p none = (p, some invalid_evidence)
  add_evidence p (some ev) =
      if length ev.data' == 0
      then (p, some invalid_evidence)
      else if leb max_pending_evidence (length p.pending)
      then (p, some pending_full)
      else if is_some (lookup (evidence_key ev) p.committed)
      then (p, some duplicate_evidence)
      else if has_key (evidence_key ev) p.pending
      then (p, some duplicate_evidence)
      else if is_expired p ev
      then (p, some evidence_expired)
      else (record p { pending = p.pending ++ copy_evidence ev ∷ [] }, none)

  unfoldable pub mark_keys : List Evidence → List (Bytes × Bool) → List (Bytes × Bool)
  mark_keys [] m = m
  mark_keys (ev ∷ evs) m = mark_keys evs (insert (evidence_key ev) true m)

  unfoldable pub mark_committed : Pool → List Evidence → Pool
  mark_committed p evs = record p {
    committed = mark_keys evs p.committed;
    pending = keep_if (λ ev. not (has_key (evidence_key ev) evs)) p.pending;
  }
