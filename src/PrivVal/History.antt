-- ===== src/PrivVal/History.antt =====
-- The life of a validator: its process signs, panics, and is started again on the state file.
-- `released` lists what it has given signatures for.
pub mod Covering
pub mod Requests
pub mod NoDoubleSign
use leaderberry.Prelude.{
  ◌≡◌, ℕ, Bool, true, false, Option, none, some, List, [], ◌∷◌, ℤ, pos, Bytes, if◌then◌else◌,
}
use leaderberry.Types.Hash.{Signature}
use leaderberry.Types.Vote.{Vote, vote_sign_bytes}
use leaderberry.PrivVal.LastSign.{LastSignState, empty_state, vote_step, step_proposal}
use leaderberry.PrivVal.FilePv.{
  FilePv, Signing, Proposal, Saving, Answer, signed, refused, panicked, sign_vote, sign_proposal,
  load_state, load_state_strict, proposal_sign_bytes,
}

pub record Release : Type 0 where
  pub height : ℤ
  pub round : ℤ
  pub step : ℤ
  pub bytes : Bytes
  pub signature : Signature

pub record World : Type 0 where
  pub pv : FilePv
  pub running : Bool
  pub released : List Release

-- The calls of the engine, and the two ways in which a process starts.
pub data Event (Block : Type 0) : Type 0 where
  votes : Bytes → Vote → Saving → Event Block
  proposes : Bytes → Proposal Block → Saving → Event Block
  starts : Saving → Event Block
  starts_strict : Event Block

-- A panic ends the process.
unfoldable pub after_answer : World → ℤ → ℤ → ℤ → Bytes → FilePv × Answer → World
after_answer w height round step bytes (pv, signed sig) = record w {
  pv = pv;
  released =
      record { height = height; round = round; step = step; bytes = bytes; signature = sig }
      ∷ w.released;
}
after_answer w height round step bytes (pv, refused e) = record w { pv = pv }
after_answer w height round step bytes (pv, panicked) = record w { pv = pv; running = false }

abbrev pub after_start : World → FilePv × Bool → World
after_start w (pv, done) = record w { pv = pv; running = done }

abbrev pub step_or_zero : Option ℤ → ℤ
step_or_zero none = pos 0
step_or_zero (some s) = s

module _ {Block : Type 0} (k : Signing Block) where
  unfoldable pub step : World → Event Block → World
  step w (votes chain_id vote saving) =
      if w.running
      then after_answer w vote.height vote.round (step_or_zero (vote_step vote.type'))
          (vote_sign_bytes k.crypto chain_id vote) (sign_vote k w.pv chain_id vote saving)
      else w
  step w (proposes chain_id p saving) =
      if w.running
      then after_answer w p.height p.round step_proposal (proposal_sign_bytes k chain_id p)
          (sign_proposal k w.pv chain_id p saving)
      else w
  step w (starts saving) = if w.running then w else after_start w (load_state k w.pv saving)
  step w starts_strict = if w.running then w else after_start w (load_state_strict k w.pv)

  unfoldable pub run : World → List (Event Block) → World
  run w [] = w
  run w (e ∷ es) = run (step w e) es

-- A validator that was never started.
abbrev pub new_world : Bytes → World
new_world key = record {
  pv = record { priv_key = key; last_sign_state = empty_state; disk = none };
  running = false;
  released = [];
}
