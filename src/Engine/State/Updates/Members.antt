-- ===== src/Engine/State/Updates/Members.antt =====
-- Which validators applyValidatorUpdates of engine/state.go passes on to NewValidatorSet.
use leaderberry.Prelude.{ℕ, ◌*◌, ◌/◌, ℤ, sub_ℕ, bytes_key}
use leaderberry.Engine.State.Updates.Powers.{Updates}

-- The cost of joining: nine eighths of the total power, rounded down, below zero.
abbrev pub joining_cost : ℕ → ℤ
joining_cost t = sub_ℕ 0 (9 * t / 8)
