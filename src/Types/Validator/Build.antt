-- ===== src/Types/Validator/Build.antt =====
-- NewValidatorSet builds a well-formed set.
use leaderberry.Prelude.{
  ℕ, suc, ◌≤◌, ◌<◌, ◌+◌, ◌%◌, ◌≡◌, refl, Option, none, some, List, [], ◌∷◌, ◌++◌, pos, ◌<ℤ◌, ◌≤ℤ◌,
  max_int64, add64_pos, sub64, ltb_ℤ, ltb_ℤ-sub64, leb_ℤ, arith, length, get_elem?,
  get_elem?-append_one, length-append, lookup, insert, lookup-insert, nat_key, bytes_key,
  bytes_eq_refl, bytes_eq_sound, eq_of_parts, All, All-append_one, ◌==◌, if◌then◌else◌, is_some, ap,
  subst,
}
use leaderberry.Types.Account.{account_name_string, is_account_name_empty}
use leaderberry.Types.Validator.{
  NamedValidator, ValidatorSet, Result, ok, err, indexed_copy, copy_validator_lem, append_validator,
  add_validators, no_validators, finish, new_validator_set, size, max_total_voting_power, map_ok,
  empty_validator_name, invalid_voting_power, duplicate_validator, total_power_overflow,
}
use leaderberry.Types.Validator.Tally.{power, tally, total}
use leaderberry.Types.Validator.Center.{SameMembers-finish}
use leaderberry.Types.Validator.Member.{
  Partial, WellFormed, IsPositive, SameMembers-length, WellFormed-SameMembers,
}

total-append_one :
    (vs : List NamedValidator) (v : NamedValidator) → total (vs ++ v ∷ []) ≡ total vs + power v
unfolding total tally
total-append_one [] v = omega arith
total-append_one (w ∷ ws) v = omega (arith, total-append_one ws v)

abbrev pub IsInt64Power : Option NamedValidator → Type 0
IsInt64Power none = Unit {0}
IsInt64Power (some v) = v.voting_power ≤ℤ max_int64

no_validators-Partial : Partial no_validators
unfolding lookup total tally
no_validators-Partial = record {
  by_index_lem = λ i. ground arith;
  by_name_lem = λ i v e. cc;
  index_lem = λ i v e. cc;
  positive = tt;
  total_lem = refl;
  bounded = omega arith;
  count = omega arith;
}

indexed_copy-name : (i : ℕ) (v : NamedValidator) → (indexed_copy i v).name ≡ v.name
unfolding indexed_copy
indexed_copy-name i v = ap (λ (w : NamedValidator). w.name) (copy_validator_lem v)

indexed_copy-power : (i : ℕ) (v : NamedValidator) → (indexed_copy i v).voting_power ≡ v.voting_power
unfolding indexed_copy
indexed_copy-power i v = ap (λ (w : NamedValidator). w.voting_power) (copy_validator_lem v)

indexed_copy-index : (i : ℕ) (v : NamedValidator) → (indexed_copy i v).index ≡ i % 65536
unfolding indexed_copy
indexed_copy-index i v = refl

ok_eq : {r q : ValidatorSet} → ok r ≡ ok q → r ≡ q
ok_eq e = cc

-- A validator that passes the checks of the loop keeps what is built well formed.
append_validator-Partial :
    (vs : ValidatorSet) (v : NamedValidator)
    → Partial vs
    → length vs.validators < 65535
    → pos 0 <ℤ v.voting_power
    → lookup (account_name_string v.name) vs.by_name ≡ none
    → total vs.validators + power v ≤ 1152921504606846976
    → Partial (append_validator (length vs.validators) vs v)
unfolding append_validator
append_validator-Partial vs v w room positive fresh fits =
    let n = length vs.validators in
    let c = indexed_copy n v in
    record {
      by_index_lem = λ i. ground (
        arith,
        length-append vs.validators (c ∷ []),
        lookup-insert (n % 65536) i n vs.by_index,
        w.by_index_lem i,
      );
      by_name_lem = λ i u e. names i u e (get_elem?-append_one vs.validators c i);
      index_lem = λ i u e. ground (
        arith,
        e,
        get_elem?-append_one vs.validators c i,
        w.index_lem i u,
        indexed_copy-index n v,
      );
      positive =
          All-append_one IsPositive vs.validators c w.positive
            (ground (arith, indexed_copy-power n v));
      total_lem = ground (
        arith,
        w.total_lem,
        total-append_one vs.validators c,
        indexed_copy-power n v,
        eq_of_parts v.voting_power (pos (power v)),
        add64_pos (total vs.validators) (power v),
      );
      bounded = ground (arith, total-append_one vs.validators c, indexed_copy-power n v);
      count = ground (arith, length-append vs.validators (c ∷ []));
    }
  where
    names :
        (i : ℕ) (u : NamedValidator)
        → get_elem? (vs.validators ++ indexed_copy (length vs.validators) v ∷ []) i ≡ some u
        → get_elem? (vs.validators ++ indexed_copy (length vs.validators) v ∷ []) i ≡ (
            if length vs.validators == i
            then some (indexed_copy (length vs.validators) v)
            else get_elem? vs.validators i)
        → lookup
            (account_name_string u.name)
            (insert (account_name_string v.name) (length vs.validators) vs.by_name)
          ≡ some i
    names i u e f = ground (
      arith,
      lookup-insert (account_name_string v.name) (account_name_string u.name) (length vs.validators)
          vs.by_name,
      w.by_name_lem i u,
      bytes_eq_sound (account_name_string v.name) (account_name_string u.name),
      bytes_eq_refl (account_name_string v.name),
      indexed_copy-name (length vs.validators) v,
    )

append_at :
    (i : ℕ) (vs : ValidatorSet) (v : NamedValidator)
    → length vs.validators ≡ i
    → Partial vs
    → i < 65535
    → pos 0 <ℤ v.voting_power
    → lookup (account_name_string v.name) vs.by_name ≡ none
    → total vs.validators + power v ≤ 1152921504606846976
    → Partial (append_validator i vs v) × (length (append_validator i vs v).validators ≡ suc i)
unfolding append_validator
append_at i vs v e w room positive fresh fits = (
  subst (λ (j : ℕ). Partial (append_validator j vs v)) e
      (append_validator-Partial vs v w (omega arith) positive fresh fits),
  omega (arith, length-append vs.validators (indexed_copy i v ∷ [])),
)

-- What the checks of the loop have established when it goes on.
checks_passed :
    (vs : ValidatorSet) (v : NamedValidator) (rest : Result ValidatorSet) {r : ValidatorSet}
    → Partial vs
    → v.voting_power ≤ℤ max_int64
    → (if is_account_name_empty v.name
        then err empty_validator_name
        else if leb_ℤ v.voting_power (pos 0)
        then err invalid_voting_power
        else if is_some (lookup (account_name_string v.name) vs.by_name)
        then err duplicate_validator
        else if ltb_ℤ (sub64 max_total_voting_power v.voting_power) vs.total_power
        then err total_power_overflow
        else rest)
      ≡ ok r
    → (pos 0 <ℤ v.voting_power)
      × (lookup (account_name_string v.name) vs.by_name ≡ none)
      × (total vs.validators + power v ≤ 1152921504606846976)
      × (rest ≡ ok r)
checks_passed vs v rest w small e = ground (
  arith,
  w.total_lem,
  eq_of_parts v.voting_power (pos (power v)),
  ltb_ℤ-sub64 1152921504606846976 (power v) (total vs.validators),
)

-- The loop: from a well-formed part it ends in a well-formed whole, or with an error.
add_validators-Partial :
    (i : ℕ) (vs : ValidatorSet) (vals : List (Option NamedValidator)) {r : ValidatorSet}
    → length vs.validators ≡ i
    → Partial vs
    → i + length vals ≤ 65535
    → All IsInt64Power vals
    → add_validators i vs vals ≡ ok r
    → Partial r × (length r.validators ≡ i + length vals)
unfolding add_validators
add_validators-Partial i vs [] n w room ints e =
    let same : vs ≡ _ = ok_eq e in
    (
      subst Partial same w,
      subst (λ (x : ValidatorSet). length x.validators ≡ i + 0) same (omega arith),
    )
add_validators-Partial i vs (none ∷ rest) n w room ints e = cc
add_validators-Partial i vs (some v ∷ rest) n w room ints e =
    let (positive, fresh, fits, e') =
      checks_passed vs v (add_validators (suc i) (append_validator i vs v) rest) w ints.0 e in
    let (w', n') = append_at i vs v n w (omega arith) positive fresh fits in
    let (w'', n'') =
      add_validators-Partial (suc i) (append_validator i vs v) rest n' w' (omega arith) ints.1 e' in
    (w'', omega arith)

total_occupied : (vs : List NamedValidator) → 0 < length vs → All IsPositive vs → 0 < total vs
unfolding total tally
total_occupied [] h w = elim h [ ]
total_occupied (v ∷ vs) h w = ground arith

finish-WellFormed :
    (vs : ValidatorSet) → Partial vs → 0 < length vs.validators → WellFormed (finish vs)
unfolding finish
finish-WellFormed vs w n =
    WellFormed-SameMembers vs (finish vs)
      (record { partial = w; occupied = total_occupied vs.validators n w.positive })
      (SameMembers-finish vs) refl refl refl

map_ok-eq-ok :
    (f : ValidatorSet → ValidatorSet) (m : Result ValidatorSet) {r : ValidatorSet}
    → map_ok f m ≡ ok r
    → (b : ValidatorSet) × (m ≡ ok b) × (f b ≡ r)
map_ok-eq-ok f (ok b) e = (b, refl, ok_eq e)
map_ok-eq-ok f (err x) e = cc

-- From validators whose powers are int64 values, a set that NewValidatorSet returns is well formed:
-- indices and names find their validators, the powers are positive and add up, without overflow, to
-- TotalPower, at most 2^60.
pub new_validator_set-WellFormed :
    (vals : List (Option NamedValidator)) (r : ValidatorSet)
    → All IsInt64Power vals
    → new_validator_set vals ≡ ok r
    → WellFormed r × (size r ≡ length vals)
unfolding new_validator_set size
new_validator_set-WellFormed vals r ints e =
    let (some_given, few, e') = guards in
    let (b, built, finished) = map_ok-eq-ok finish (add_validators 0 no_validators vals) e' in
    let (w, n) =
      add_validators-Partial 0 no_validators vals refl no_validators-Partial (omega arith) ints
        built in
    (
      subst WellFormed finished (finish-WellFormed b w (omega arith)),
      omega (
        arith,
        ap (λ (x : ValidatorSet). length x.validators) finished,
        SameMembers-length b.validators (finish b).validators (SameMembers-finish b),
      ),
    )
  where
    guards :
        (0 < length vals)
        × (length vals ≤ 65535)
        × (map_ok finish (add_validators 0 no_validators vals) ≡ ok r)
    guards = ground arith
