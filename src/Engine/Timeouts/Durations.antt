-- ===== src/Engine/Timeouts/Durations.antt =====
-- The durations that engine/timeout.go computes from a valid configuration.
use leaderberry.Prelude.{
  ℕ, ◌+◌, ◌*◌, ◌≤◌, ◌≡◌, none, ℤ, pos, negsuc, pos_part, ◌≤ℤ◌, ◌<ℤ◌, add64_pos, mul64_pos, mul_mono,
  arith,
}
use leaderberry.Engine.State.{
  RoundStep, new_height, new_round, propose, prevote, prevote_wait, precommit, precommit_wait,
  commit,
}
use leaderberry.Engine.Timeouts.{
  TimeoutConfig, clamped_round, grown, calculate_duration, validate, Config, validate_basic,
}

-- The largest delta, about ten days, of which ten thousand fit into a duration with the base.
abbrev pub max_delta : ℤ
max_delta = pos 922337173685477

abbrev pub HasSmallDeltas : TimeoutConfig → Type 0
HasSmallDeltas tc =
    (tc.propose_delta ≤ℤ max_delta)
    × (tc.prevote_delta ≤ℤ max_delta)
    × (tc.precommit_delta ≤ℤ max_delta)

abbrev pub rounds : ℤ → ℕ
rounds round = pos_part (clamped_round round)

rounds_bounded : (round : ℤ) → (rounds round ≤ 10000) × (clamped_round round ≡ pos (rounds round))
rounds_bounded round = (ground arith, ground arith)

rounds_mono : (a b : ℤ) → a ≤ℤ b → rounds a ≤ rounds b
rounds_mono a b h = ground arith

-- Neither the product nor the sum wraps.
pub grown_lem :
    (base delta : ℕ) (round : ℤ)
    → base ≤ 300000000000
    → delta ≤ 922337173685477
    → grown (pos base) (pos delta) round ≡ pos (base + rounds round * delta)
unfolding grown
grown_lem base delta round hb hd =
    let (few, is) = rounds_bounded round in
    let fits = mul_mono delta (rounds round) 10000 few in
    ground (arith, is, fits, mul64_pos (rounds round) delta, add64_pos base (rounds round * delta))

abbrev IsChecked : ℤ → Type 0
IsChecked base = (pos 0 <ℤ base) × (base ≤ℤ pos 300000000000)

abbrev pub Rises : ℤ → ℤ → Type 0
Rises x y = (pos 0 <ℤ x) × (x ≤ℤ y)

grown-Rises :
    (base delta a b : ℤ)
    → IsChecked base
    → pos 0 ≤ℤ delta
    → delta ≤ℤ max_delta
    → a ≤ℤ b
    → Rises (grown base delta a) (grown base delta b)
grown-Rises (negsuc m) delta a b c hn hd h = absurd (omega (arith, c.0))
grown-Rises (pos m) (negsuc n) a b c hn hd h = absurd (omega arith)
grown-Rises (pos m) (pos n) a b c hn hd h =
    let more = mul_mono n (rounds a) (rounds b) (rounds_mono a b h) in
    rw
      (
        grown_lem m n a (omega (arith, c.1)) (omega (arith, hd)),
        grown_lem m n b (omega (arith, c.1)) (omega (arith, hd)),
      )
      (omega (arith, c.0), omega (arith, more))

validate_sound :
    (tc : TimeoutConfig)
    → validate tc ≡ none
    → IsChecked tc.propose
      × IsChecked tc.prevote
      × IsChecked tc.precommit
      × IsChecked tc.commit
      × (pos 0 ≤ℤ tc.propose_delta)
      × (pos 0 ≤ℤ tc.prevote_delta)
      × (pos 0 ≤ℤ tc.precommit_delta)
unfolding validate
validate_sound tc e = (
  ground arith,
  ground arith,
  ground arith,
  ground arith,
  ground arith,
  ground arith,
  ground arith,
)

validate_basic-validate : (cfg : Config) → validate_basic cfg ≡ none → validate cfg.timeouts ≡ none
unfolding validate_basic
validate_basic-validate cfg e = ground arith

-- With a configuration that ValidateBasic accepts and deltas of at most about ten days, every
-- timeout, at any step and round, is positive, and that of a later round is not shorter: nothing wraps.
pub calculate_duration-Rises :
    (cfg : Config) (step : RoundStep) (a b : ℤ)
    → validate_basic cfg ≡ none
    → HasSmallDeltas cfg.timeouts
    → a ≤ℤ b
    → Rises (calculate_duration cfg.timeouts step a) (calculate_duration cfg.timeouts step b)
unfolding calculate_duration
calculate_duration-Rises cfg step a b e small h = by_step step
  where
    known :
        IsChecked cfg.timeouts.propose
        × IsChecked cfg.timeouts.prevote
        × IsChecked cfg.timeouts.precommit
        × IsChecked cfg.timeouts.commit
        × (pos 0 ≤ℤ cfg.timeouts.propose_delta)
        × (pos 0 ≤ℤ cfg.timeouts.prevote_delta)
        × (pos 0 ≤ℤ cfg.timeouts.precommit_delta)
    known = validate_sound cfg.timeouts (validate_basic-validate cfg e)

    by_step :
        (step : RoundStep)
        → Rises (calculate_duration cfg.timeouts step a) (calculate_duration cfg.timeouts step b)
    by_step propose = let (p, v, c, k, dp, dv, dc) = known in grown-Rises _ _ a b p dp small.0 h
    by_step prevote_wait =
        let (p, v, c, k, dp, dv, dc) = known in grown-Rises _ _ a b v dv small.1 h
    by_step precommit_wait =
        let (p, v, c, k, dp, dv, dc) = known in grown-Rises _ _ a b c dc small.2 h
    by_step commit = (known.3.0, omega arith)
    by_step new_height = (omega arith, omega arith)
    by_step new_round = (omega arith, omega arith)
    by_step prevote = (omega arith, omega arith)
    by_step precommit = (omega arith, omega arith)
