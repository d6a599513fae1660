-- ===== src/Engine/HeightVoteSet/History.antt =====
-- Any sequence of calls of a height vote set, as the engine makes them under its mutex.
use leaderberry.Prelude.{
  ℕ, suc, ◌+◌, ◌%◌, ◌<◌, ◌≡◌, refl, true, Option, List, [], ◌∷◌, ℤ, eqb_ℤ, arith, Bytes, All,
  Bool-cases, inl, inr, int_key,
}
use leaderberry.Types.Hash.{Hash}
use leaderberry.Types.Vote.{Vote, Crypto, vote_type_prevote, vote_type_precommit}
use leaderberry.Types.Validator.{ValidatorSet}
use leaderberry.Types.Validator.Member.{WellFormed}
use leaderberry.Engine.VoteSet
use leaderberry.Engine.VoteSet.{VoteSet, Result, err, stale_vote_set, is_stale}
use leaderberry.Engine.HeightVoteSet.{
  HeightVoteSet, new_height_vote_set, put_prevotes, put_precommits, dispatch_vote, set_peer_maj23,
  reset, add_vote, add_vote_for_replay,
}
use leaderberry.Engine.HeightVoteSet.Rounds.{
  IsOurs, IsSound, new_height_vote_set-IsSound, reset-IsSound, add_vote-IsSound,
  add_vote_for_replay-IsSound, set_peer_maj23-IsSound,
}

pub data Call : Type 0 where
  adds : ℤ → Vote → Call
  replays : Vote → Call
  claims : Bytes → ℤ → ℤ → Option Hash → Call
  resets : ℤ → ValidatorSet → Call

module _ (c : Crypto) where
  unfoldable pub step : HeightVoteSet → Call → HeightVoteSet
  step hvs (adds now vote) = (add_vote c hvs now vote).0
  step hvs (replays vote) = (add_vote_for_replay c hvs vote).0
  step hvs (claims peer_id round vote_type hash) = set_peer_maj23 hvs peer_id round vote_type hash
  step hvs (resets height vals) = reset hvs height vals

  unfoldable pub run : HeightVoteSet → List Call → HeightVoteSet
  run hvs [] = hvs
  run hvs (call ∷ calls) = run (step hvs call) calls

-- A Reset is called with a well-formed validator set.
abbrev pub IsValidCall : Call → Type 0
IsValidCall (adds now vote) = Unit {0}
IsValidCall (replays vote) = Unit {0}
IsValidCall (claims peer_id round vote_type hash) = Unit {0}
IsValidCall (resets height vals) = WellFormed vals

abbrev pub count_resets : List Call → ℕ
count_resets [] = 0
count_resets (adds now vote ∷ calls) = count_resets calls
count_resets (replays vote ∷ calls) = count_resets calls
count_resets (claims peer_id round vote_type hash ∷ calls) = count_resets calls
count_resets (resets height vals ∷ calls) = suc (count_resets calls)

step-IsSound :
    (c : Crypto) (hvs : HeightVoteSet) (call : Call)
    → IsSound c hvs
    → IsValidCall call
    → IsSound c (step c hvs call)
unfolding step
step-IsSound c hvs (adds now vote) w v = add_vote-IsSound c hvs w now vote
step-IsSound c hvs (replays vote) w v = add_vote_for_replay-IsSound c hvs w vote
step-IsSound c hvs (claims peer_id round vote_type hash) w v =
    set_peer_maj23-IsSound c hvs w peer_id round vote_type hash
step-IsSound c hvs (resets height vals) w v = reset-IsSound c hvs height vals v

run-IsSound :
    (c : Crypto) (hvs : HeightVoteSet) (calls : List Call)
    → IsSound c hvs
    → All IsValidCall calls
    → IsSound c (run c hvs calls)
unfolding run
run-IsSound c hvs [] w v = w
run-IsSound c hvs (call ∷ calls) w v =
    run-IsSound c (step c hvs call) calls (step-IsSound c hvs call w v.0) v.1

-- After any calls on a new height vote set, with well-formed validator sets throughout, every vote set
-- that it holds, prevotes and precommits, is for its chain, height and round, has counted the votes that
-- it holds right, and is current.
pub run_new-IsSound :
    (c : Crypto) (chain_id : Bytes) (height : ℤ) (vals : ValidatorSet) (calls : List Call)
    → WellFormed vals
    → All IsValidCall calls
    → IsSound c (run c (new_height_vote_set chain_id height vals) calls)
run_new-IsSound c chain_id height vals calls w =
    run-IsSound c (new_height_vote_set chain_id height vals) calls
      (new_height_vote_set-IsSound c chain_id height vals w)

dispatch_vote-generation :
    (add : VoteSet → VoteSet × Result) (hvs : HeightVoteSet) (vote : Vote)
    → (dispatch_vote add hvs vote).0.generation ≡ hvs.generation
unfolding dispatch_vote put_prevotes put_precommits
dispatch_vote-generation add hvs vote = elim (Bool-cases (eqb_ℤ vote.height hvs.height)) [
  | inr e ↦ rw e
  | inl e ↦ rw e (elim (Bool-cases (eqb_ℤ vote.type' vote_type_prevote)) [
    | inl e ↦ rw e
    | inr e ↦
        rw e
          (elim (Bool-cases (eqb_ℤ vote.type' vote_type_precommit)) [ inl e ↦ rw e | inr e ↦ rw e ])
  ])
]

set_peer_maj23-generation :
    (hvs : HeightVoteSet) (peer_id : Bytes) (round vote_type : ℤ) (hash : Option Hash)
    → (set_peer_maj23 hvs peer_id round vote_type hash).generation ≡ hvs.generation
unfolding set_peer_maj23
set_peer_maj23-generation hvs peer_id round vote_type hash = ground arith

-- A Reset adds one to the generation, which wraps at 2^64, and no other call changes it.
abbrev resets_of : Call → ℕ
resets_of (adds now vote) = 0
resets_of (replays vote) = 0
resets_of (claims peer_id round vote_type hash) = 0
resets_of (resets height vals) = 1

step-generation :
    (c : Crypto) (hvs : HeightVoteSet) (call : Call)
    → hvs.generation < 18446744073709551616
    → (step c hvs call).generation ≡ (hvs.generation + resets_of call) % 18446744073709551616
unfolding step add_vote add_vote_for_replay reset
step-generation c hvs (adds now vote) h =
    omega (
      arith,
      dispatch_vote-generation (λ vs. VoteSet.add_vote c vs hvs.generation now vote) hvs vote,
    )
step-generation c hvs (replays vote) h = omega (
  arith,
  dispatch_vote-generation (λ vs. VoteSet.add_vote_for_replay c vs hvs.generation vote) hvs vote,
)
step-generation c hvs (claims peer_id round vote_type hash) h =
    omega (arith, set_peer_maj23-generation hvs peer_id round vote_type hash)
step-generation c hvs (resets height vals) h = refl

count_resets-cons :
    (call : Call) (calls : List Call)
    → count_resets (call ∷ calls) ≡ resets_of call + count_resets calls
count_resets-cons (adds now vote) calls = omega arith
count_resets-cons (replays vote) calls = omega arith
count_resets-cons (claims peer_id round vote_type hash) calls = omega arith
count_resets-cons (resets height vals) calls = omega arith

pub run-generation :
    (c : Crypto) (hvs : HeightVoteSet) (calls : List Call)
    → hvs.generation < 18446744073709551616
    → (run c hvs calls).generation ≡ (hvs.generation + count_resets calls) % 18446744073709551616
unfolding run
run-generation c hvs [] h = omega arith
run-generation c hvs (call ∷ calls) h = omega (
  arith,
  step-generation c hvs call h,
  run-generation c (step c hvs call) calls (omega (arith, step-generation c hvs call h)),
  count_resets-cons call calls,
)

is_stale_after :
    (vs : VoteSet) (generation : ℕ)
    → vs.has_parent ≡ true
    → (vs.my_generation ≡ generation → ⊥)
    → is_stale vs generation ≡ true
unfolding is_stale
is_stale_after vs generation p h = ground arith

-- A vote set obtained from a height vote set, prevotes or precommits of any round: after any later calls
-- among which there is a Reset, and fewer than 2^64 of them, AddVote on it answers that it is stale and
-- changes nothing.
pub add_vote-stale :
    (c : Crypto) (hvs : HeightVoteSet) (calls : List Call) (round vote_type : ℤ) (vs : VoteSet)
    (now : ℤ) (vote : Vote)
    → IsOurs c hvs round vote_type vs
    → hvs.generation < 18446744073709551616
    → 0 < count_resets calls
    → count_resets calls < 18446744073709551616
    → VoteSet.add_vote c vs (run c hvs calls).generation now vote ≡ (vs, err stale_vote_set)
add_vote-stale c hvs calls round vote_type vs now vote o g some_reset few =
    unfold VoteSet.add_vote in
    rw (
      is_stale_after vs (run c hvs calls).generation o.linked
        (λ e. omega (arith, e, o.current, run-generation c hvs calls g)))
