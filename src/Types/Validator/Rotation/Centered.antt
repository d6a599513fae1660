-- ===== src/Types/Validator/Rotation/Centered.antt =====
-- centerPriorities of types/validator.go on priorities that are far from the ends of an int64.
use leaderberry.Prelude.{
  ℕ, zero, suc, ◌+◌, ◌*◌, ◌/◌, ◌≤◌, ◌<◌, ◌≡◌, refl, sym, ap, ◌∙◌, subst, false, ◌&&◌, some, List,
  [], ◌∷◌, ℤ, pos, negsuc, pos_part, neg_part, ◌-ℤ◌, ◌+ℤ◌, add64, sub64, add64_lem, sub64_lem,
  ltb_ℤ, eqb_ℤ, arith, All, get_elem?, map, min_int64, max_int64, length, quot_ℤ,
}
use native.Mathlib.Nat.{div-lt_iff_lt-mul}
use leaderberry.Types.Validator.{
  NamedValidator, preferred, priority_sum, average_priority, shift_priority, center_priorities,
}
use leaderberry.Types.Validator.Rotation.Best.{IsBest}
use leaderberry.Types.Validator.Rotation.Exact.{Within}

-- 2^46.
abbrev pub far : ℕ
far = 70368744177664

abbrev IsMean : ℕ → ℤ → Type 0
IsMean k a = (pos_part a ≤ k * 70368744177664) × (neg_part a ≤ k * 70368744177664)

abbrev pub shifted : ℤ → NamedValidator → NamedValidator
shifted a v = record v { proposer_priority = v.proposer_priority -ℤ a }

step_lem :
    (k : ℕ) (sum p : ℤ)
    → k + 1 ≤ 65535
    → IsMean k sum
    → (pos_part p ≤ far) × (neg_part p ≤ far)
    → ((ltb_ℤ (pos 0) p && ltb_ℤ (sub64 max_int64 p) sum) ≡ false)
      × ((ltb_ℤ p (pos 0) && ltb_ℤ sum (sub64 min_int64 p)) ≡ false)
      × IsMean (suc k) (add64 sum p)
unfolding ◌+ℤ◌ ◌-ℤ◌
step_lem k sum (pos p) h b w =
    let room = sub64_lem max_int64 (pos p) (ground (arith, w)) (ground (arith, w)) in
    let all = add64_lem sum (pos p) (ground (arith, h, b, w)) (ground (arith, h, b, w)) in
    (
      rw room (ground (arith, h, b, w)),
      ground arith,
      rw all (ground (arith, h, b, w), ground (arith, h, b, w)),
    )
step_lem k sum (negsuc p) h b w =
    let room = sub64_lem min_int64 (negsuc p) (ground (arith, w)) (ground (arith, w)) in
    let all = add64_lem sum (negsuc p) (ground (arith, h, b, w)) (ground (arith, h, b, w)) in
    (
      ground arith,
      rw room (ground (arith, h, b, w)),
      rw all (ground (arith, h, b, w), ground (arith, h, b, w)),
    )

priority_sum_lem :
    (k : ℕ) (sum : ℤ) (vs : List NamedValidator)
    → k + length vs ≤ 65535
    → IsMean k sum
    → All (Within far) vs
    → (r : ℤ) × (priority_sum sum vs ≡ some r) × IsMean (k + length vs) r
unfolding priority_sum
priority_sum_lem k sum [] h b a = (sum, refl, (omega (arith, b), omega (arith, b)))
priority_sum_lem k sum (v ∷ vs) h b (w, a) =
    let p = v.proposer_priority in
    let next = step_lem k sum p (omega (arith, h)) b w in
    let (r, is, c) = priority_sum_lem (suc k) (add64 sum p) vs (omega (arith, h)) next.2 a in
    (r, rw (next.0, next.1) is, (omega (arith, c), omega (arith, c)))

quotient-le : (n d : ℕ) → 0 < d → n ≤ d * 70368744177664 → n / d ≤ 70368744177664
quotient-le n d h b =
    omega
      (arith, (div-lt_iff_lt-mul {k = d} {x = n} {y = 70368744177665} h).1 (omega (arith, h, b)))

quot_ℤ-bound :
    (r : ℤ) (d : ℕ)
    → 0 < d
    → IsMean d r
    → (pos_part (quot_ℤ r d) ≤ far) × (neg_part (quot_ℤ r d) ≤ far)
quot_ℤ-bound (pos n) d h b = (quotient-le n d h b.0, omega arith)
quot_ℤ-bound (negsuc n) d h b =
    let q = quotient-le (suc n) d h b.1 in (ground (arith, q), ground (arith, q))

mean_lem :
    (vs : List NamedValidator) (r : ℤ)
    → priority_sum (pos 0) vs ≡ some r
    → average_priority vs ≡ quot_ℤ r (length vs)
unfolding average_priority
mean_lem vs r e = rw (e, average_priority) refl

average_lem :
    (vs : List NamedValidator)
    → 0 < length vs
    → length vs ≤ 65535
    → All (Within far) vs
    → (pos_part (average_priority vs) ≤ far) × (neg_part (average_priority vs) ≤ far)
average_lem vs h l a =
    let (r, is, b) =
      priority_sum_lem 0 (pos 0) vs (omega (arith, l)) (omega arith, omega arith) a in
    let mean : average_priority vs ≡ quot_ℤ r (length vs) = mean_lem vs r is in
    subst (λ z. (pos_part z ≤ far) × (neg_part z ≤ far)) (sym mean)
      (quot_ℤ-bound r (length vs) h (omega (arith, b), omega (arith, b)))

shift_exact :
    (a : ℤ) (vs : List NamedValidator)
    → (pos_part a ≤ far) × (neg_part a ≤ far)
    → All (Within far) vs
    → map (shift_priority a) vs ≡ map (shifted a) vs
unfolding shift_priority ◌-ℤ◌
shift_exact a [] b w = refl
shift_exact a (v ∷ vs) b (h, w) =
    let here = sub64_lem v.proposer_priority a (ground (arith, b, h)) (ground (arith, b, h)) in
    let first : shift_priority a v ≡ shifted a v =
      ap (λ p. record v { proposer_priority = p }) here in
    let rest = shift_exact a vs b w in cc

-- Centering takes the same number off every priority.
pub center_exact :
    (vs : List NamedValidator)
    → 0 < length vs
    → length vs ≤ 65535
    → All (Within far) vs
    → center_priorities vs ≡ map (shifted (average_priority vs)) vs
unfolding center_priorities
center_exact vs h l a = shift_exact (average_priority vs) vs (average_lem vs h l a) a

ltb-shifted : (p q a : ℤ) → ltb_ℤ (p -ℤ a) (q -ℤ a) ≡ ltb_ℤ p q
unfolding ◌-ℤ◌
ltb-shifted p q a = ground arith

eqb-shifted : (p q a : ℤ) → eqb_ℤ (p -ℤ a) (q -ℤ a) ≡ eqb_ℤ p q
unfolding ◌-ℤ◌
eqb-shifted p q a = ground arith

preferred-shifted :
    (a : ℤ) (u v : NamedValidator) → preferred (shifted a u) (shifted a v) ≡ preferred u v
unfolding preferred
preferred-shifted a u v =
    rw
      (
        ltb-shifted v.proposer_priority u.proposer_priority a,
        eqb-shifted u.proposer_priority v.proposer_priority a,
      )
      refl

IsBest-shifted :
    (a : ℤ) (v : NamedValidator) (vs : List NamedValidator)
    → IsBest (shifted a v) (map (shifted a) vs)
    → IsBest v vs
IsBest-shifted a v [] h = tt
IsBest-shifted a v (u ∷ us) h = (sym (preferred-shifted a u v) ∙ h.0, IsBest-shifted a v us h.1)

get_elem?-shifted :
    (a : ℤ) (vs : List NamedValidator) (p : ℕ) (v : NamedValidator)
    → get_elem? (map (shifted a) vs) p ≡ some v
    → (u : NamedValidator) × (get_elem? vs p ≡ some u) × (v ≡ shifted a u)
get_elem?-shifted a [] p v e = cc
get_elem?-shifted a (x ∷ vs) zero v e = (x, refl, cc)
get_elem?-shifted a (x ∷ vs) (suc p) v e = get_elem?-shifted a vs p v e

-- The best of the shifted validators, and that of the others.
pub BestAt-shifted :
    (a : ℤ) (vs : List NamedValidator) (p : ℕ) (v : NamedValidator)
    → get_elem? (map (shifted a) vs) p ≡ some v
    → IsBest v (map (shifted a) vs)
    → (u : NamedValidator) × (get_elem? vs p ≡ some u) × IsBest u vs × (v ≡ shifted a u)
BestAt-shifted a vs p v e h =
    let (u, there, is) = get_elem?-shifted a vs p v e in
    (u, there, IsBest-shifted a u vs (subst (λ x. IsBest x (map (shifted a) vs)) is h), is)
