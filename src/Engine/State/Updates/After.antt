-- ===== src/Engine/State/Updates/After.antt =====
-- What the updates of applyValidatorUpdates in engine/state.go make of the validator of one name.
use leaderberry.Prelude.{
  ◌≡◌, refl, sym, ap, ◌∙◌, Bool, true, false, not, ◌||◌, Option, none, some, List, [], ◌∷◌, ℤ, pos,
  eqb_ℤ, if◌then◌else◌, Bytes, bytes_eq, lookup, bytes_key, is_some, arith, Bool-cases, inl, inr,
  subst,
}
use leaderberry.Types.Account.{account_name_string}
use leaderberry.Types.Validator.{NamedValidator}
use leaderberry.Engine.State.{ValidatorUpdate}
use leaderberry.Engine.State.Updates.{updated, apply_updates}
use leaderberry.Engine.State.Updates.Fates.{
  last_update, removes, priority_or, fate, entry, fate_other, fate_removed, fate_put,
  apply_updates-fate,
}

-- The penalty of a validator that is marked as new.
abbrev pub with_cost : ℤ → Option NamedValidator → Bool → Option NamedValidator
with_cost cost none f = none
with_cost cost (some v) f = some (if f then record v { proposer_priority = cost } else v)

-- Power and key are those of the last update. The priority stays, unless the validator is new or was removed
-- on the way.
abbrev pub IsUpdated :
    ℤ → Option NamedValidator → Bool → ValidatorUpdate → Option NamedValidator → Type 0
IsUpdated cost old fresh u after =
    (v : NamedValidator) × (after ≡ some v)
    × (v.public_key ≡ u.public_key)
    × (v.voting_power ≡ u.voting_power)
    × (v.proposer_priority ≡ (if fresh then cost else priority_or cost old))

abbrev pub AfterUpdate :
    Bool → ℤ → Option NamedValidator → Bool → ValidatorUpdate → Option NamedValidator → Type 0
AfterUpdate true cost old fresh u after = after ≡ none
AfterUpdate false cost old fresh u after = IsUpdated cost old fresh u after

-- The validator of a name before and after, by the last update of the name, if any, and whether a removal is
-- among them: without an update it stays, and an update without power removes it.
abbrev pub IsAfter :
    ℤ → Option NamedValidator → Bool → Option ValidatorUpdate → Option NamedValidator → Type 0
IsAfter cost old removed none after = after ≡ old
IsAfter cost old removed (some u) after =
    AfterUpdate (eqb_ℤ u.voting_power (pos 0)) cost old removed u after

-- The same in the midst of the pass, where the validator may be marked.
abbrev IsFate :
    ℤ
    → Option NamedValidator
    → Bool
    → Bool
    → Option ValidatorUpdate
    → Option NamedValidator
    → Type 0
IsFate cost old f removed none after = after ≡ with_cost cost old f
IsFate cost old f removed (some u) after =
    AfterUpdate (eqb_ℤ u.voting_power (pos 0)) cost old (f || removed) u after

abbrev later : Option ValidatorUpdate → Option ValidatorUpdate → Option ValidatorUpdate
later rest first = if is_some rest then rest else first

later-none : (x : Option ValidatorUpdate) → later x none ≡ x
later-none none = refl
later-none (some u) = refl

removed-IsFate :
    (cost : ℤ) (old after : Option NamedValidator) (f removed : Bool) (x : Option ValidatorUpdate)
    (u : ValidatorUpdate)
    → eqb_ℤ u.voting_power (pos 0) ≡ true
    → IsFate cost none f removed x after
    → IsFate cost old f true (later x (some u)) after
removed-IsFate cost old after f removed none u z h = rw z h
removed-IsFate cost old after f removed (some w) u z h =
    elim (Bool-cases (eqb_ℤ w.voting_power (pos 0))) [
      | inl y ↦ rw y (subst (λ b. AfterUpdate b cost none (f || removed) w after) y h)
      | inr y ↦
          let (v, is, key, power, priority) =
            subst (λ b. AfterUpdate b cost none (f || removed) w after) y h in
          rw y (v, is, key, power, ground (arith, priority))
    ]

priority_lem :
    (cost : ℤ) (old : Option NamedValidator) (u : ValidatorUpdate) (f removed : Bool)
    → (if (f || not (is_some old)) || removed
        then cost
        else priority_or cost (some (updated old u)))
      ≡ (if f || removed then cost else priority_or cost old)
unfolding updated
priority_lem cost none u true removed = refl
priority_lem cost none u false true = refl
priority_lem cost none u false false = refl
priority_lem cost (some o) u true removed = refl
priority_lem cost (some o) u false removed = refl

put-IsFate :
    (cost : ℤ) (old after : Option NamedValidator) (f removed : Bool) (x : Option ValidatorUpdate)
    (u : ValidatorUpdate)
    → eqb_ℤ u.voting_power (pos 0) ≡ false
    → (x ≡ none → removed ≡ false)
    → IsFate cost (some (updated old u)) (f || not (is_some old)) removed x after
    → IsFate cost old f removed (later x (some u)) after
unfolding updated
put-IsFate cost none after true removed none u z n h =
    rw z (record (updated none u) { proposer_priority = cost }, h, refl, refl, refl)
put-IsFate cost none after false removed none u z n h =
    rw (z, n refl) (record (updated none u) { proposer_priority = cost }, h, refl, refl, refl)
put-IsFate cost (some o) after true removed none u z n h =
    rw z (record (updated (some o) u) { proposer_priority = cost }, h, refl, refl, refl)
put-IsFate cost (some o) after false removed none u z n h =
    rw (z, n refl) (updated (some o) u, h, refl, refl, refl)
put-IsFate cost old after f removed (some w) u z n h =
    elim (Bool-cases (eqb_ℤ w.voting_power (pos 0))) [
      | inl y ↦ rw y (
          subst
            (λ b.
              AfterUpdate b cost (some (updated old u)) ((f || not (is_some old)) || removed) w
                after)
            y h)
      | inr y ↦
          let (v, is, key, power, priority) =
            subst
              (λ b.
                AfterUpdate b cost (some (updated old u)) ((f || not (is_some old)) || removed) w
                  after)
              y h in
          rw y (v, is, key, power, priority ∙ priority_lem cost old u f removed)
    ]

last_none :
    (name : Bytes) (us : List ValidatorUpdate)
    → last_update name us ≡ none
    → removes name us ≡ false
last_none name [] q = refl
last_none name (u ∷ us) q = ground (arith, q, last_none name us)

fate_lem :
    (cost : ℤ) (name : Bytes) (us : List ValidatorUpdate) (o : Option NamedValidator) (f : Bool)
    → IsFate cost o f
        (removes name us)
        (last_update name us)
        (with_cost cost (fate name us o f).0 (fate name us o f).1)
fate_lem cost name [] o f = refl
fate_lem cost name (u ∷ us) o f = elim (Bool-cases (bytes_eq (account_name_string u.name) name)) [
  | inr e ↦
      rw (fate_other name u us o f e, e, later-none (last_update name us))
        (fate_lem cost name us o f)
  | inl e ↦ elim (Bool-cases (eqb_ℤ u.voting_power (pos 0))) [
    | inl z ↦
        rw (fate_removed name u us o f e z, e, z)
          (removed-IsFate cost o _ f _ (last_update name us) u z (fate_lem cost name us none f))
    | inr z ↦
        rw (fate_put name u us o f e z, e, z)
          (put-IsFate cost o _ f _ (last_update name us) u z (last_none name us)
            (fate_lem cost name us (some (updated o u)) (f || not (is_some o))))
  ]
]

IsFate-IsAfter :
    (cost : ℤ) (old after : Option NamedValidator) (removed : Bool) (x : Option ValidatorUpdate)
    → IsFate cost old false removed x after
    → IsAfter cost old removed x after
IsFate-IsAfter cost none after removed none h = h
IsFate-IsAfter cost (some v) after removed none h = h
IsFate-IsAfter cost old after removed (some u) h = h

-- What the pass makes of the validator of a name, with the penalty.
pub apply_updates-IsAfter :
    (cost : ℤ) (name : Bytes) (us : List ValidatorUpdate) (m : List (Bytes × NamedValidator))
    → IsAfter cost (lookup name m) (removes name us) (last_update name us) (
        with_cost cost
          (lookup name (apply_updates us (m, [])).0)
          (is_some (lookup name (apply_updates us (m, [])).1)))
apply_updates-IsAfter cost name us m =
    let is : entry name (apply_updates us (m, [])) ≡ fate name us (lookup name m) false =
      unfold lookup in apply_updates-fate name us m [] in
    subst (λ o. IsAfter cost (lookup name m) (removes name us) (last_update name us) o)
      (sym (ap (λ (r : Option NamedValidator × Bool). with_cost cost r.0 r.1) is))
      (IsFate-IsAfter cost (lookup name m) _ (removes name us) (last_update name us)
        (fate_lem cost name us (lookup name m) false))
