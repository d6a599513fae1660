-- ===== src/Engine/State/Machine/Agreement.antt =====
-- Two nodes that run engine/state.go: what the blocks that they have applied at one height have in common.
use leaderberry.Prelude.{
  ℕ, ◌*◌, ◌<◌, ◌≡◌, subst, ◌&&◌, Option, some, List, ℤ, All-get_elem?, get_elem?,
}
use leaderberry.Types.Vote.{Commit}
use leaderberry.Types.Validator.{ValidatorSet}
use leaderberry.Types.Validator.Tally.{tally, total}
use leaderberry.Types.Validator.Member.{WellFormed}
use leaderberry.Types.Commit.Signers.{is_signer, verify_commit_overlap}
use leaderberry.PrivVal.FilePv.{block_hash}
use leaderberry.Evidence.Pool.{Pool}
use leaderberry.Engine.State.{Env, State, Action, applies, done, initial_state}
use leaderberry.Engine.State.Machine.{Event, started}
use leaderberry.Engine.State.Machine.Outcomes.{Every}
use leaderberry.Engine.State.Machine.Invariant.{HasTypedUpdates, Inv, IsCertified}
use leaderberry.Engine.State.Machine.Reaching.{started-Inv}

-- A state in which a node is after Start, from a well-formed validator set, and some events.
abbrev pub IsReached : {Block World : Type 0} → Env Block World → State Block World → Type 0
IsReached {Block} {World} e s =
    (n : ℕ) × (events : List (Event Block)) × (world : World) × (vals : ValidatorSet) × (height : ℤ)
    × (last : Option Commit) × (pool : Option Pool) × WellFormed vals
    × (started e n events (initial_state e world vals height last pool) ≡ done s)

IsReached-Inv :
    {Block World : Type 0} (e : Env Block World) (s : State Block World)
    → HasTypedUpdates e
    → IsReached e s
    → Inv e s
IsReached-Inv e s typed (n, events, world, vals, height, last, pool, w, q) =
    subst (Every (Inv e)) q (started-Inv e typed n events world vals height last pool w)

-- An action of a node that is reached is certified.
IsReached-IsCertified :
    {Block World : Type 0} (e : Env Block World) (s : State Block World) (i : ℕ) (a : Action Block)
    → HasTypedUpdates e
    → IsReached e s
    → get_elem? s.actions i ≡ some a
    → IsCertified e a
IsReached-IsCertified e s i a typed r at =
    All-get_elem? (IsCertified e) s.actions i a (IsReached-Inv e s typed r).certified at

-- Two nodes of one chain, each started with a well-formed validator set and an executor whose powers are
-- int64 values, that have each taken any proposals, votes and timeouts, and have each applied a block at
-- some height under the same validators: the validators that have signed both commits, the one for the one
-- block and the other for the other, have more than a third of the total power.
pub applied_overlap :
    {Block World Block' World' : Type 0} (e : Env Block World) (f : Env Block' World')
    (s : State Block World) (t : State Block' World') (i j : ℕ) (height height' : ℤ)
    (vals : ValidatorSet) (b : Block) (b' : Block') (c c' : Commit)
    → e.chain_id ≡ f.chain_id
    → e.signing.crypto ≡ f.signing.crypto
    → HasTypedUpdates e
    → HasTypedUpdates f
    → IsReached e s
    → IsReached f t
    → get_elem? s.actions i ≡ some (applies height vals b c)
    → get_elem? t.actions j ≡ some (applies height' vals b' c')
    → total vals.validators
      < 3
        * tally
            (λ k.
              is_signer e.signing.crypto e.chain_id vals (block_hash e.signing b) c c.signatures k
              && is_signer e.signing.crypto e.chain_id vals
                  (block_hash f.signing b')
                  c'
                  c'.signatures
                  k)
            vals.validators
applied_overlap e f s t i j height height' vals b b' c c' same_chain same_crypto te tf rs rt at
      at' =
    let (w, ok) = IsReached-IsCertified e s i _ te rs at in
    let (_, ok') = IsReached-IsCertified f t j _ tf rt at' in
    verify_commit_overlap e.signing.crypto e.chain_id vals (block_hash e.signing b)
      (block_hash f.signing b') c c' height height' w ok (rw (same_chain, same_crypto) ok')
