-- ===== src/Types/Validator/Member.antt =====
-- What makes a validator set well formed, and that changes of priority alone keep it so.
use leaderberry.Prelude.{
  ℕ, zero, suc, ◌≤◌, ◌<◌, Bool, ◌≡◌, refl, none, some, List, [], ◌∷◌, pos, ◌<ℤ◌, arith, length,
  get_elem?, get_elem?-lt, set, lookup, nat_key, bytes_key, map, All, ltb, if◌then◌else◌,
  Option-cases, inl, inr,
}
use leaderberry.Types.Account.{account_name_string}
use leaderberry.Types.Validator.{NamedValidator, ValidatorSet, get_by_index, copy_validator_lem}
use leaderberry.Types.Validator.Tally.{tally, total, everyone}

abbrev pub IsPositive : NamedValidator → Type 0
IsPositive v = pos 0 <ℤ v.voting_power

-- Index `i` names the validator at position `i`, a name the validator that bears it, and the total
-- power is the sum of the powers, which are positive and sum to at most 2^60.
pub record Partial (vs : ValidatorSet) : Type 0 where
  pub by_index_lem :
      (i : ℕ) → lookup i vs.by_index ≡ (if ltb i (length vs.validators) then some i else none)
  pub by_name_lem :
      (i : ℕ) (v : NamedValidator)
      → get_elem? vs.validators i ≡ some v
      → lookup (account_name_string v.name) vs.by_name ≡ some i
  pub index_lem : (i : ℕ) (v : NamedValidator) → get_elem? vs.validators i ≡ some v → v.index ≡ i
  pub positive : All IsPositive vs.validators
  pub total_lem : vs.total_power ≡ pos (total vs.validators)
  pub bounded : total vs.validators ≤ 1152921504606846976
  pub count : length vs.validators ≤ 65535

-- The same of a set that has validators.
pub record WellFormed (vs : ValidatorSet) : Type 0 where
  pub partial : Partial vs
  pub open partial use *
  pub occupied : 0 < total vs.validators

-- The lookups of a well-formed set read the slice.
pub get_by_index_lem :
    (vs : ValidatorSet) (i : ℕ) → WellFormed vs → get_by_index vs i ≡ get_elem? vs.validators i
unfolding get_by_index
get_by_index_lem vs i w = elim (Option-cases (get_elem? vs.validators i)) [
  | inl e ↦ ground (arith, w.by_index_lem i, e)
  | inr (v, e) ↦
      ground (arith, w.by_index_lem i, e, get_elem?-lt vs.validators i v e, copy_validator_lem v)
]

-- All but the priority.
abbrev pub SameMember : NamedValidator → NamedValidator → Type 0
SameMember v w =
    (v.name ≡ w.name)
    × (v.index ≡ w.index)
    × (v.public_key ≡ w.public_key)
    × (v.voting_power ≡ w.voting_power)

abbrev pub SameMembers : List NamedValidator → List NamedValidator → Type 0
SameMembers [] [] = Unit
SameMembers [] (w ∷ ws) = ⊥
SameMembers (v ∷ vs) [] = ⊥
SameMembers (v ∷ vs) (w ∷ ws) = SameMember v w × SameMembers vs ws

pub SameMembers-refl : (vs : List NamedValidator) → SameMembers vs vs
SameMembers-refl [] = tt
SameMembers-refl (v ∷ vs) = ((refl, refl, refl, refl), SameMembers-refl vs)

pub SameMembers-trans :
    (us vs ws : List NamedValidator) → SameMembers us vs → SameMembers vs ws → SameMembers us ws
SameMembers-trans [] [] [] h k = tt
SameMembers-trans [] [] (w ∷ ws) h k = elim k [ ]
SameMembers-trans [] (v ∷ vs) ws h k = elim h [ ]
SameMembers-trans (u ∷ us) [] ws h k = elim h [ ]
SameMembers-trans (u ∷ us) (v ∷ vs) [] h k = elim k [ ]
SameMembers-trans (u ∷ us) (v ∷ vs) (w ∷ ws) h k =
    (ground arith, SameMembers-trans us vs ws h.1 k.1)

pub SameMembers-map :
    (f : NamedValidator → NamedValidator) (vs : List NamedValidator)
    → ((v : NamedValidator) → SameMember v (f v))
    → SameMembers vs (map f vs)
SameMembers-map f [] h = tt
SameMembers-map f (v ∷ vs) h = (h v, SameMembers-map f vs h)

pub SameMembers-set :
    (vs : List NamedValidator) (i : ℕ) (v w : NamedValidator)
    → get_elem? vs i ≡ some v
    → SameMember v w
    → SameMembers vs (set vs i w)
SameMembers-set [] i v w e h = tt
SameMembers-set (x ∷ xs) zero v w e h = (ground arith, SameMembers-refl xs)
SameMembers-set (x ∷ xs) (suc i) v w e h = ((refl, refl, refl, refl), SameMembers-set xs i v w e h)

pub SameMembers-length : (vs ws : List NamedValidator) → SameMembers vs ws → length vs ≡ length ws
SameMembers-length [] [] h = refl
SameMembers-length [] (w ∷ ws) h = elim h [ ]
SameMembers-length (v ∷ vs) [] h = elim h [ ]
SameMembers-length (v ∷ vs) (w ∷ ws) h = omega (arith, SameMembers-length vs ws h.1)

SameMembers-get_elem? :
    (vs ws : List NamedValidator) (i : ℕ) (w : NamedValidator)
    → SameMembers vs ws
    → get_elem? ws i ≡ some w
    → (v : NamedValidator) × (get_elem? vs i ≡ some v) × SameMember v w
SameMembers-get_elem? [] [] i w h e = cc
SameMembers-get_elem? [] (y ∷ ys) i w h e = elim h [ ]
SameMembers-get_elem? (x ∷ xs) [] i w h e = elim h [ ]
SameMembers-get_elem? (x ∷ xs) (y ∷ ys) zero w h e = (x, refl, ground arith)
SameMembers-get_elem? (x ∷ xs) (y ∷ ys) (suc i) w h e = SameMembers-get_elem? xs ys i w h.1 e

pub SameMembers-tally :
    (p : ℕ → Bool) (vs ws : List NamedValidator) → SameMembers vs ws → tally p vs ≡ tally p ws
unfolding tally
SameMembers-tally p [] [] h = refl
SameMembers-tally p [] (w ∷ ws) h = elim h [ ]
SameMembers-tally p (v ∷ vs) [] h = elim h [ ]
SameMembers-tally p (v ∷ vs) (w ∷ ws) h =
    ground (arith, SameMembers-tally (λ i. p (suc i)) vs ws h.1)

pub SameMembers-IsPositive :
    (vs ws : List NamedValidator) → SameMembers vs ws → All IsPositive vs → All IsPositive ws
SameMembers-IsPositive [] [] h k = tt
SameMembers-IsPositive [] (w ∷ ws) h k = elim h [ ]
SameMembers-IsPositive (v ∷ vs) [] h k = elim h [ ]
SameMembers-IsPositive (v ∷ vs) (w ∷ ws) h k = (ground arith, SameMembers-IsPositive vs ws h.1 k.1)

-- A set with other priorities, or another proposer, is as well formed.
pub WellFormed-SameMembers :
    (vs ws : ValidatorSet)
    → WellFormed vs
    → SameMembers vs.validators ws.validators
    → vs.total_power ≡ ws.total_power
    → vs.by_name ≡ ws.by_name
    → vs.by_index ≡ ws.by_index
    → WellFormed ws
unfolding total
WellFormed-SameMembers vs ws w s t n x =
    let len = SameMembers-length vs.validators ws.validators s in
    let sum = SameMembers-tally everyone vs.validators ws.validators s in
    record {
      partial = record {
        by_index_lem = λ i. ground (arith, w.by_index_lem i);
        by_name_lem = λ i v e.
            let (u, eu, same) = SameMembers-get_elem? vs.validators ws.validators i v s e in
            ground (arith, w.by_name_lem i u eu);
        index_lem = λ i v e.
            let (u, eu, same) = SameMembers-get_elem? vs.validators ws.validators i v s e in
            ground (arith, w.index_lem i u eu);
        positive = SameMembers-IsPositive vs.validators ws.validators s w.positive;
        total_lem = ground (arith, w.total_lem);
        bounded = ground (arith, w.bounded);
        count = ground (arith, w.count);
      };
      occupied = ground (arith, w.occupied);
    }
