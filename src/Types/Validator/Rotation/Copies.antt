-- ===== src/Types/Validator/Rotation/Copies.antt =====
-- Copy and WithIncrementedPriority of types/validator.go.
use leaderberry.Prelude.{
  ℕ, zero, suc, ◌+◌, ◌≡◌, ◌≢◌, refl, sym, ◌∙◌, ap, subst, ◌&&◌, some, List, [], ◌∷◌, ℤ, map, arith,
  ltb, leb, if◌then◌else◌, length, get_elem?, Bytes, bytes_eq_iff, lookup, insert, lookup-insert,
  lookup-insert_self, nat_key, bytes_key,
}
use leaderberry.Types.Account.{account_name_string}
use leaderberry.Types.Validator.{NamedValidator, ValidatorSet, copy_validator, copy_validator_lem}
use leaderberry.Types.Validator.Member.{WellFormed, SameMembers}
use leaderberry.Types.Validator.Rotation.{
  names_from, indices_from, copy, with_incremented_priority, increment_proposer_priority,
}
use leaderberry.Types.Validator.Rotation.Best.{BestAt}
use leaderberry.Types.Validator.Rotation.Rounds.{increment_proposer_priority-WellFormed}

map-copy_validator : (vs : List NamedValidator) → map copy_validator vs ≡ vs
map-copy_validator [] = refl
map-copy_validator (v ∷ vs) = rw (copy_validator_lem v, map-copy_validator vs) refl

lookup-indices_from :
    (i k : ℕ) (vs : List NamedValidator) (m : List (ℕ × ℕ))
    → ((j : ℕ) (v : NamedValidator) → get_elem? vs j ≡ some v → v.index ≡ k + j)
    → lookup i (indices_from k vs m)
      ≡ (if leb k i && ltb i (k + length vs) then some i else lookup i m)
unfolding indices_from
lookup-indices_from i k [] m h = ground arith
lookup-indices_from i k (v ∷ vs) m h =
    lookup-indices_from i (suc k) vs (insert v.index k m) (λ j u e. omega (arith, h (suc j) u e))
    ∙ ground (arith, lookup-insert v.index i k m, h 0 v refl)

lookup-names_from_other :
    (name : Bytes) (k : ℕ) (vs : List NamedValidator) (m : List (Bytes × ℕ))
    → ((j : ℕ) (v : NamedValidator) → get_elem? vs j ≡ some v → account_name_string v.name ≢ name)
    → lookup name (names_from k vs m) ≡ lookup name m
unfolding names_from
lookup-names_from_other name k [] m h = refl
lookup-names_from_other name k (v ∷ vs) m h =
    lookup-names_from_other name (suc k) vs (insert (account_name_string v.name) k m)
      (λ j u e. h (suc j) u e)
    ∙ ground (
      arith,
      lookup-insert (account_name_string v.name) name k m,
      h 0 v refl,
      bytes_eq_iff (account_name_string v.name) name,
    )

lookup-names_from :
    (j k : ℕ) (v : NamedValidator) (vs : List NamedValidator) (m : List (Bytes × ℕ))
    → get_elem? vs j ≡ some v
    → ((i : ℕ) (u : NamedValidator)
        → get_elem? vs i ≡ some u
        → account_name_string u.name ≡ account_name_string v.name
        → i ≡ j)
    → lookup (account_name_string v.name) (names_from k vs m) ≡ some (k + j)
unfolding names_from
lookup-names_from j k v [] m e h = cc
lookup-names_from zero k v (x ∷ vs) m e h =
    let same : x ≡ v = cc in
    let first : lookup (account_name_string v.name) (insert (account_name_string x.name) k m)
        ≡ some (k + 0) =
      rw same (lookup-insert_self (account_name_string v.name) k m ∙ ground arith) in
    lookup-names_from_other (account_name_string v.name) (suc k) vs
      (insert (account_name_string x.name) k m) (λ i u f q. absurd (omega (arith, h (suc i) u f q)))
    ∙ first
lookup-names_from (suc j) k v (x ∷ vs) m e h =
    lookup-names_from j (suc k) v vs (insert (account_name_string x.name) k m) e
      (λ i u f q. omega (arith, h (suc i) u f q))
    ∙ ap some (omega arith)

same_place :
    (vs : ValidatorSet) (i j : ℕ) (u v : NamedValidator)
    → WellFormed vs
    → get_elem? vs.validators i ≡ some u
    → get_elem? vs.validators j ≡ some v
    → account_name_string u.name ≡ account_name_string v.name
    → i ≡ j
same_place vs i j u v w ei ej q =
    let both : some i ≡ some j =
      sym (w.by_name_lem i u ei) ∙ (ap (λ n. lookup n vs.by_name) q ∙ w.by_name_lem j v ej) in
    cc

pub copy-validators : (vs : ValidatorSet) → (copy vs).validators ≡ vs.validators
unfolding copy
copy-validators vs = map-copy_validator vs.validators

-- Copy of a well-formed set is well formed.
pub copy-WellFormed : (vs : ValidatorSet) → WellFormed vs → WellFormed (copy vs)
unfolding copy
copy-WellFormed vs w = rw (map-copy_validator vs.validators) (record {
  partial = record {
    by_index_lem = λ i.
        lookup-indices_from i 0 vs.validators [] (λ j v e. omega (arith, w.index_lem j v e))
        ∙ unfold lookup in ground arith;
    by_name_lem = λ i v e.
        lookup-names_from i 0 v vs.validators [] e (λ j u f q. same_place vs j i u v w f e q)
        ∙ ground arith;
    index_lem = w.index_lem;
    positive = w.positive;
    total_lem = w.total_lem;
    bounded = w.bounded;
    count = w.count;
  };
  occupied = w.occupied;
})

-- Of a well-formed set, WithIncrementedPriority makes a well-formed set with the same members, whose
-- priorities alone differ, and whose proposer is a member to whom getProposer prefers no other.
pub with_incremented_priority-WellFormed :
    (vs : ValidatorSet) (times : ℤ)
    → WellFormed vs
    → WellFormed (with_incremented_priority vs times)
      × SameMembers vs.validators (with_incremented_priority vs times).validators
      × ((p : ℕ) × ((with_incremented_priority vs times).proposer ≡ some p)
          × BestAt (with_incremented_priority vs times).validators p)
unfolding with_incremented_priority
with_incremented_priority-WellFormed vs times w =
    let (after, same, best) =
      increment_proposer_priority-WellFormed (copy vs) times (copy-WellFormed vs w) in
    (
      after,
      subst (λ l. SameMembers l (increment_proposer_priority (copy vs) times).validators)
          (copy-validators vs) same,
      best,
    )
