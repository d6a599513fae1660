-- ===== src/Types/Validator/Tally.antt =====
-- The voting power of a set of validators, given by a test on their indices: the abstract view
-- that the vote counts of the engine and of the commit check are compared with.
use leaderberry.Prelude.{
  ℕ, zero, suc, ◌+◌, ◌≤◌, ◌≡◌, Bool, true, false, ◌&&◌, List, [], ◌∷◌, some, arith, pos_part,
  if◌then◌else◌, get_elem?, ◌==◌,
}
use leaderberry.Types.Validator.{NamedValidator}

abbrev pub power : NamedValidator → ℕ
power v = pos_part v.voting_power

unfoldable pub tally : (ℕ → Bool) → List NamedValidator → ℕ
tally p [] = 0
tally p (v ∷ vs) = (if p 0 then power v else 0) + tally (λ i. p (suc i)) vs

abbrev pub everyone : ℕ → Bool
everyone i = true

unfoldable pub total : List NamedValidator → ℕ
unfolding tally
total vs = tally everyone vs

pub tally-le-total : (p : ℕ → Bool) (vs : List NamedValidator) → tally p vs ≤ total vs
unfolding tally total
tally-le-total p [] = omega arith
tally-le-total p (v ∷ vs) = ground (arith, tally-le-total (λ i. p (suc i)) vs)

pub tally_mono :
    (p q : ℕ → Bool) (vs : List NamedValidator)
    → ((i : ℕ) → p i ≡ true → q i ≡ true)
    → tally p vs ≤ tally q vs
unfolding tally
tally_mono p q [] h = omega arith
tally_mono p q (v ∷ vs) h =
    ground (arith, h 0, tally_mono (λ i. p (suc i)) (λ i. q (suc i)) vs (λ i. h (suc i)))

-- Two sets of validators overlap in at least what they have too much.
pub tally_overlap :
    (p q : ℕ → Bool) (vs : List NamedValidator)
    → tally p vs + tally q vs ≤ total vs + tally (λ i. p i && q i) vs
unfolding tally total
tally_overlap p q [] = omega arith
tally_overlap p q (v ∷ vs) = ground (arith, tally_overlap (λ i. p (suc i)) (λ i. q (suc i)) vs)

pub tally_none :
    (p : ℕ → Bool) (vs : List NamedValidator) → ((i : ℕ) → p i ≡ false) → tally p vs ≡ 0
unfolding tally
tally_none p [] h = omega arith
tally_none p (v ∷ vs) h = ground (arith, h 0, tally_none (λ i. p (suc i)) vs (λ i. h (suc i)))

pub tally_eq :
    (p q : ℕ → Bool) (vs : List NamedValidator) → ((i : ℕ) → p i ≡ q i) → tally p vs ≡ tally q vs
unfolding tally
tally_eq p q [] h = omega arith
tally_eq p q (v ∷ vs) h =
    ground (arith, h 0, tally_eq (λ i. p (suc i)) (λ i. q (suc i)) vs (λ i. h (suc i)))

-- A validator that joins brings its power.
pub tally_join :
    (p q : ℕ → Bool) (vs : List NamedValidator) (k : ℕ) (v : NamedValidator)
    → get_elem? vs k ≡ some v
    → p k ≡ false
    → ((i : ℕ) → q i ≡ (if k == i then true else p i))
    → tally q vs ≡ tally p vs + power v
unfolding tally
tally_join p q [] k v e f h = ground arith
tally_join p q (w ∷ vs) zero v e f h =
    ground
      (arith, h 0, tally_eq (λ i. q (suc i)) (λ i. p (suc i)) vs (λ i. ground (arith, h (suc i))))
tally_join p q (w ∷ vs) (suc k) v e f h = ground (
  arith,
  h 0,
  tally_join (λ i. p (suc i)) (λ i. q (suc i)) vs k v e f (λ i. ground (arith, h (suc i))),
)

pub power-le-total :
    (vs : List NamedValidator) (i : ℕ) (v : NamedValidator)
    → get_elem? vs i ≡ some v
    → power v ≤ total vs
unfolding total tally
power-le-total [] i v e = ground arith
power-le-total (w ∷ vs) zero v e = ground arith
power-le-total (w ∷ vs) (suc i) v e = omega (arith, power-le-total vs i v e)
