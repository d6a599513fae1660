-- ===== src/Tests/Evidence.antt =====
-- Tests of the evidence pool: a validator that votes for two blocks, and evidence that waits.
use leaderberry.Prelude.{
  ◌≡◌, refl, true, false, Option, some, none, All, [], ◌∷◌, ℤ, pos, negsuc, arith, Bytes, length,
  lookup, bytes_key, bytes_eq, ◌+◌, ◌≤◌, List, insert, sub64, get_elem?, wrap64, ◌-ℤ◌,
}
use leaderberry.Types.Vote.{Vote, verify_vote_signature}
use leaderberry.Types.Validator.{get_by_name, copy_validator}
use leaderberry.Types.Account.{account_name_string}
use leaderberry.Types.Hash.{copy_public_key, copy_bytes}
use leaderberry.Evidence.CheckVote
use leaderberry.Evidence.Pool.{
  Outside, Config, Evidence, DuplicateVoteEvidence, duplicate_evidence, new_pool, evidence_key,
  has_key, add_evidence, mark_committed, update, prune_expired, mark_keys, is_expired,
  copy_evidence, time_sub,
}
use leaderberry.Evidence.CheckVote.{CheckResult, found, nothing, votes_for_same_block, check_vote}
use leaderberry.Evidence.CheckVote.Tracking.{IsInjectiveFormat, IsSigned, Tracked}
use leaderberry.Evidence.CheckVote.Finding.{Convicts, check_vote-finds}
use leaderberry.Evidence.Pool.Pending.{
  IsClean, Change, change, adds, commits, updates, changes, changes-IsClean,
}
use leaderberry.Evidence.Pool.Marked.{Spares, mark_committed-add_evidence}
use leaderberry.Tests.Inputs.{letter_crypto, chain, block_x, block_y, precommit, two_validators}
use leaderberry.Tests.Signing.{put_int}

put_int-injective : (a b : ℤ) (x y : Bytes) → put_int a x ≡ put_int b y → (a ≡ b) × (x ≡ y)
put_int-injective (pos a) (pos b) x y e = ground (arith, e)
put_int-injective (pos a) (negsuc b) x y e = ground (arith, e)
put_int-injective (negsuc a) (pos b) x y e = ground (arith, e)
put_int-injective (negsuc a) (negsuc b) x y e = ground (arith, e)

-- The second of two numbers, which is not negative.
abbrev second_number : Bytes → Option ℤ
second_number bs = elim (get_elem? bs 3) [ none ↦ none | some n ↦ some (pos n) ]

abbrev pub numbers : Outside
numbers = record {
  crypto = letter_crypto;
  format_vote_key =
      λ name height round vote_type. put_int height (put_int round (put_int vote_type name));
  format_evidence_key =
      λ evidence_type height time sum. put_int evidence_type (put_int height (put_int time sum));
  scan_height = second_number;
  sha256 = λ bs. bs;
  marshal_duplicate = λ dve. 7 ∷ [];
}

numbers-IsInjectiveFormat : IsInjectiveFormat numbers
numbers-IsInjectiveFormat n m h h' r r' t t' e =
    let (eh, e1) = put_int-injective h h' _ _ e in
    let (er, e2) = put_int-injective r r' _ _ e1 in
    let (et, en) = put_int-injective t t' n m e2 in (en, eh, er, et)

abbrev config : Config
config = record { max_age = pos 1000; max_age_blocks = pos 10; max_bytes = pos 100 }

abbrev vote_x : Vote
vote_x = precommit 97 0 (some block_x)

abbrev vote_y : Vote
vote_y = precommit 97 0 (some block_y)

nothing_seen : Tracked numbers chain two_validators (new_pool config)
unfolding new_pool
nothing_seen = tt

vote_x_lem :
    (check_vote numbers (new_pool config) (pos 0) (some vote_x) (some two_validators) chain).1
    ≡ nothing
unfolding check_vote get_by_name lookup bytes_eq account_name_string CheckVote.check_signed
    verify_vote_signature copy_validator copy_public_key copy_bytes CheckVote.check_known new_pool
    CheckVote.track_new CheckVote.track
vote_x_lem = refl

differ : votes_for_same_block vote_x vote_y ≡ false
unfolding votes_for_same_block CheckVote.same_block bytes_eq
differ = refl

vote_y-IsSigned : IsSigned numbers chain two_validators vote_y
unfolding get_by_name lookup bytes_eq account_name_string verify_vote_signature copy_validator
    copy_public_key copy_bytes
vote_y-IsSigned = (_, refl, refl)

check_vote-finds_example :
    (dve : DuplicateVoteEvidence) × (check_vote numbers
        (check_vote numbers (new_pool config) (pos 0) (some vote_x) (some two_validators) chain).0
        (pos 1)
        (some vote_y)
        (some two_validators)
        chain
      ≡ (
        (check_vote numbers (new_pool config) (pos 0) (some vote_x) (some two_validators) chain).0,
        found dve,
      ))
    × Convicts numbers chain two_validators vote_x vote_y dve
check_vote-finds_example =
    check_vote-finds numbers chain two_validators (new_pool config) (pos 0) (pos 1) vote_x vote_y
      numbers-IsInjectiveFormat refl nothing_seen vote_x_lem (refl, refl, refl, refl) differ
      vote_y-IsSigned

abbrev piece : Evidence
piece = record { type' = pos 1; height = pos 5; time = pos 0; data' = 1 ∷ 2 ∷ [] }

changes-IsClean_example : IsClean numbers (
    changes numbers
      (new_pool config)
      (updates (pos 6) (pos 10) ∷ adds (some piece) ∷ commits (piece ∷ []) ∷ []))
changes-IsClean_example =
    changes-IsClean numbers config
      (updates (pos 6) (pos 10) ∷ adds (some piece) ∷ commits (piece ∷ []) ∷ [])

piece_key : has_key numbers (evidence_key numbers piece) (piece ∷ []) ≡ true
unfolding has_key evidence_key bytes_eq
piece_key = refl

-- Other evidence is committed, and the pool goes on to a later height that prunes nothing of height 5.
abbrev later : List Change
later =
    adds (some piece)
    ∷ commits (record piece { height = pos 6 } ∷ [])
    ∷ updates (pos 12) (pos 10)
    ∷ []

later-Spares : All (Spares numbers (new_pool config).config (evidence_key numbers piece)) later
unfolding new_pool evidence_key sub64 wrap64 ◌-ℤ◌
later-Spares = (tt, (tt, (refl, tt)))

room :
    length (changes numbers (mark_committed numbers (new_pool config) (piece ∷ [])) later).pending
      + 1
    ≤ 10000
unfolding mark_committed new_pool changes change update prune_expired add_evidence has_key
    evidence_key bytes_eq mark_keys insert lookup is_expired copy_evidence copy_bytes sub64 time_sub
room = omega arith

mark_committed-add_evidence_example :
    add_evidence numbers
      (changes numbers (mark_committed numbers (new_pool config) (piece ∷ [])) later)
      (some piece)
    ≡ (
      changes numbers (mark_committed numbers (new_pool config) (piece ∷ [])) later,
      some duplicate_evidence,
    )
mark_committed-add_evidence_example =
    mark_committed-add_evidence numbers (new_pool config) (piece ∷ []) later piece piece_key
      later-Spares refl room
