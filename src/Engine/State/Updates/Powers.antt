-- ===== src/Engine/State/Updates/Powers.antt =====
-- The powers of the validators in applyValidatorUpdates of engine/state.go.
use leaderberry.Prelude.{
  max_int64, ℕ, ◌≤◌, ◌≡◌, refl, subst, Bool, Option, none, some, List, [], ◌∷◌, map, ℤ, pos, ◌≤ℤ◌,
  arith, All, All-keep_if, Bytes, bytes_eq, bytes_lt, insert, lookup, bytes_key, Bool-cases, inl,
  inr, eqb_ℤ, length, ◌==◌, eq-pos_of_positive, is_some,
}
use leaderberry.Types.Account.{account_name_string}
use leaderberry.Types.Validator.{NamedValidator, ValidatorSet, new_validator_set}
use leaderberry.Types.Validator
use leaderberry.Types.Validator.Tally.{total, tally}
use leaderberry.Types.Validator.Member.{WellFormed, IsPositive}
use leaderberry.Types.Validator.Build.{IsInt64Power, new_validator_set-WellFormed}
use leaderberry.Types.Validator.Rotation.Copies.{with_incremented_priority-WellFormed}
use leaderberry.Engine.State.{ValidatorUpdate}
use leaderberry.Engine.State.Updates.{
  current_validators, updated, apply_updates, penalize, insert_by_name, sort_by_name,
  updated_validators, made, apply_validator_updates,
}

module _ (P : ℤ → Type 0) where
  abbrev pub Has : NamedValidator → Type 0
  Has v = P v.voting_power

  abbrev pub Updates : ValidatorUpdate → Type 0
  Updates u = P u.voting_power

  abbrev pub Values : List (Bytes × NamedValidator) → Type 0
  Values m = All (λ e. Has e.1) m

  insert-Values :
      (name : Bytes) (v : NamedValidator) (m : List (Bytes × NamedValidator))
      → Has v
      → Values m
      → Values (insert name v m)
  unfolding insert
  insert-Values name v [] h t = (h, tt)
  insert-Values name v ((k, w) ∷ m) h t = elim (Bool-cases (bytes_eq k name)) [
    | inl e ↦ rw e (h, t.1)
    | inr e ↦ rw e (t.0, insert-Values name v m h t.1)
  ]

  pub current_validators-Values :
      (vs : List NamedValidator) (m : List (Bytes × NamedValidator))
      → All Has vs
      → Values m
      → Values (current_validators vs m)
  unfolding current_validators
  current_validators-Values [] m h t = t
  current_validators-Values (v ∷ vs) m h t =
      current_validators-Values vs _ h.1 (insert-Values _ v m h.0 t)

  updated-Has : (o : Option NamedValidator) (u : ValidatorUpdate) → Updates u → Has (updated o u)
  unfolding updated
  updated-Has none u h = h
  updated-Has (some v) u h = h

  pub apply_updates-Values :
      (us : List ValidatorUpdate) (m : List (Bytes × NamedValidator)) (fresh : List (Bytes × Bool))
      → All Updates us
      → Values m
      → Values (apply_updates us (m, fresh)).0
  unfolding apply_updates
  apply_updates-Values [] m fresh h t = t
  apply_updates-Values (u ∷ us) m fresh h t = elim (Bool-cases (eqb_ℤ u.voting_power (pos 0))) [
    | inl e ↦ rw (e, apply_updates) (apply_updates-Values us _ fresh h.1 (All-keep_if _ _ m t))
    | inr e ↦
        rw (e, apply_updates)
          (apply_updates-Values us _ _ h.1 (insert-Values _ _ m (updated-Has (lookup _ m) u h.0) t))
  ]

  penalize-All :
      (fresh : List (Bytes × Bool)) (cost : ℤ) (m : List (Bytes × NamedValidator))
      → Values m
      → All Has (map (penalize fresh cost) m)
  unfolding penalize
  penalize-All fresh cost [] t = tt
  penalize-All fresh cost ((name, v) ∷ m) t = elim (Bool-cases (is_some (lookup name fresh))) [
    | inl e ↦ rw e (t.0, penalize-All fresh cost m t.1)
    | inr e ↦ rw e (t.0, penalize-All fresh cost m t.1)
  ]

  insert_by_name-All :
      (v : NamedValidator) (vs : List NamedValidator)
      → Has v
      → All Has vs
      → All Has (insert_by_name v vs)
  unfolding insert_by_name
  insert_by_name-All v [] h t = (h, tt)
  insert_by_name-All v (w ∷ ws) h t =
      elim (Bool-cases (bytes_lt (account_name_string w.name) (account_name_string v.name))) [
        | inl e ↦ rw e (t.0, insert_by_name-All v ws h t.1)
        | inr e ↦ rw e (h, t)
      ]

  sort_by_name-All : (vs : List NamedValidator) → All Has vs → All Has (sort_by_name vs)
  unfolding sort_by_name
  sort_by_name-All [] t = tt
  sort_by_name-All (v ∷ vs) t = insert_by_name-All v (sort_by_name vs) t.0 (sort_by_name-All vs t.1)

-- An int64 power, of which only the upper bound matters.
abbrev Small : ℤ → Type 0
Small power = power ≤ℤ max_int64

abbrev pub IsTyped : NamedValidator → Type 0
IsTyped v = v.voting_power ≤ℤ max_int64

abbrev pub IsTypedUpdate : ValidatorUpdate → Type 0
IsTypedUpdate u = u.voting_power ≤ℤ max_int64

some-All : (vs : List NamedValidator) → All IsTyped vs → All IsInt64Power (map some vs)
some-All [] t = tt
some-All (v ∷ vs) t = (t.0, some-All vs t.1)

-- The powers of a well-formed set are int64 values.
members-IsTyped :
    (t : ℕ) (vs : List NamedValidator)
    → total vs ≤ t
    → t ≤ 1152921504606846976
    → All IsPositive vs
    → All IsTyped vs
unfolding total tally
members-IsTyped t [] h b p = tt
members-IsTyped t (v ∷ vs) h b p = (
  ground (arith, eq-pos_of_positive v.voting_power p.0),
  members-IsTyped t vs (omega arith) b p.1,
)

updated_validators-All :
    (set : ValidatorSet) (us : List ValidatorUpdate)
    → WellFormed set
    → All IsTypedUpdate us
    → All IsTyped (updated_validators set us)
unfolding updated_validators
updated_validators-All set us w h =
    let current =
      current_validators-Values Small set.validators []
        (members-IsTyped (total set.validators) set.validators (omega arith) w.bounded w.positive)
        tt in
    sort_by_name-All Small _
      (penalize-All Small _ _ _ (apply_updates-Values Small us _ [] h current))

made-WellFormed :
    (r : Validator.Result ValidatorSet) (next : ValidatorSet)
    → ((set : ValidatorSet) → r ≡ Validator.ok set → WellFormed set)
    → made r ≡ some next
    → WellFormed next
made-WellFormed (Validator.ok set) next h e =
    subst (λ (o : Option ValidatorSet). elim o [ none ↦ Unit | some x ↦ WellFormed x ]) e
      (with_incremented_priority-WellFormed set (pos 1) (h set refl)).0
made-WellFormed (Validator.err x) next h e = cc

-- From a well-formed set and updates whose powers are int64 values, a set that applyValidatorUpdates
-- returns is well formed.
pub apply_validator_updates-WellFormed :
    (set next : ValidatorSet) (us : List ValidatorUpdate)
    → WellFormed set
    → All IsTypedUpdate us
    → apply_validator_updates set us ≡ some next
    → WellFormed next
unfolding apply_validator_updates
apply_validator_updates-WellFormed set next us w h e =
    elim (Bool-cases (length (updated_validators set us) == 0)) [
      | inl q ↦ absurd (ground (arith, e, q))
      | inr q ↦
          made-WellFormed (new_validator_set (map some (updated_validators set us))) next
            (λ r f.
              (new_validator_set-WellFormed _ r (some-All _ (updated_validators-All set us w h))
                f).0)
            (ground (arith, e, q))
    ]
