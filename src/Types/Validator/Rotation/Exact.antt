-- ===== src/Types/Validator/Rotation/Exact.antt =====
-- The rotation of proposers in types/validator.go, compared with one on integers without bounds.
use leaderberry.Prelude.{
  ℕ, zero, suc, ◌+◌, ◌*◌, ◌≤◌, ◌<◌, ◌≡◌, refl, ap, ◌∙◌, subst, false, Option, none, some, List, [],
  ◌∷◌, ℤ, pos, pos_part, neg_part, ◌+ℤ◌, ◌-ℤ◌, ◌<ℤ◌, add64, sub64, add64_lem, sub64_lem, ltb_ℤ,
  arith, All, All-get_elem?, Option-cases, inl, inr, get_elem?, set, map, length, length-set,
  length-map,
}
use native.Mathlib.Nat.{suc-mul}
use leaderberry.Types.Validator.{NamedValidator, get_proposer}
use leaderberry.Types.Validator.Rotation.{
  raised, raise, lowered, lower, charge, rotate_once, rotate, max_priority, min_priority,
}

abbrev exact_raise : NamedValidator → NamedValidator
exact_raise v = record v { proposer_priority = v.proposer_priority +ℤ v.voting_power }

abbrev exact_lower : ℤ → NamedValidator → NamedValidator
exact_lower total v = record v { proposer_priority = v.proposer_priority -ℤ total }

abbrev pays : ℤ → List NamedValidator → Option ℕ → List NamedValidator
pays total vals none = vals
pays total vals (some p) = elim (get_elem? vals p) [
  | none ↦ vals
  | some v ↦ set vals p (exact_lower total v)
]

-- A turn: everyone gains its power, and the one preferred pays the total.
abbrev turn : ℤ → List NamedValidator → List NamedValidator
turn total vals = let up = map exact_raise vals in pays total up (get_proposer up)

abbrev pub turns : ℤ → ℕ → List NamedValidator → List NamedValidator
turns total zero vals = vals
turns total (suc n) vals = turns total n (turn total vals)

-- A priority between -m and m, and a power up to the total.
abbrev pub Within : ℕ → NamedValidator → Type 0
Within m v = (pos_part v.proposer_priority ≤ m) × (neg_part v.proposer_priority ≤ m)

abbrev pub Fits : ℕ → NamedValidator → Type 0
Fits t v = (pos 0 <ℤ v.voting_power) × (pos_part v.voting_power ≤ t)

abbrev Risen : ℕ → ℕ → NamedValidator → Type 0
Risen m t v = (pos_part v.proposer_priority ≤ m + t) × (neg_part v.proposer_priority ≤ m)

raised_exact :
    (m t : ℕ) (v : NamedValidator)
    → m + t ≤ 1152921504606846976
    → Within m v
    → Fits t v
    → raised v ≡ v.proposer_priority +ℤ v.voting_power
unfolding raised ◌+ℤ◌ ◌-ℤ◌
raised_exact m t v h b f =
    let p = v.proposer_priority in
    let w = v.voting_power in
    let sum = add64_lem p w (ground (arith, h, b, f)) (ground (arith, h, b, f)) in
    let room = sub64_lem max_priority w (ground (arith, h, b, f)) (ground (arith, h, b, f)) in
    let enough : ltb_ℤ (sub64 max_priority w) p ≡ false = rw room (ground (arith, h, b, f)) in
    let below : ltb_ℤ max_priority (add64 p w) ≡ false = rw sum (ground (arith, h, b, f)) in
    ground (arith, enough, below, sum)

lowered_exact :
    (m t : ℕ) (v : NamedValidator)
    → m + t ≤ 1152921504606846976
    → 0 < t
    → Risen m t v
    → lowered (pos t) v ≡ v.proposer_priority -ℤ pos t
unfolding lowered ◌+ℤ◌ ◌-ℤ◌
lowered_exact m t v h o b =
    let p = v.proposer_priority in
    let rest = sub64_lem p (pos t) (ground (arith, h, b)) (ground (arith, h, b)) in
    let floor = add64_lem min_priority (pos t) (ground (arith, h, b)) (ground (arith, h, b)) in
    let enough : ltb_ℤ p (add64 min_priority (pos t)) ≡ false = rw floor (ground (arith, h, b)) in
    let above : ltb_ℤ (sub64 p (pos t)) min_priority ≡ false = rw rest (ground (arith, h, b)) in
    ground (arith, enough, above, rest)

exact_raise-Risen :
    (m t : ℕ) (v : NamedValidator) → Within m v → Fits t v → Risen m t (exact_raise v)
unfolding ◌+ℤ◌
exact_raise-Risen m t v b f = ground (arith, b, f)

exact_lower-Within :
    (m t : ℕ) (v : NamedValidator) → Risen m t v → Within (m + t) (exact_lower (pos t) v)
unfolding ◌-ℤ◌
exact_lower-Within m t v b = ground (arith, b)

All-set :
    (P : NamedValidator → Type 0) (vs : List NamedValidator) (i : ℕ) (v : NamedValidator)
    → P v
    → All P vs
    → All P (set vs i v)
All-set P [] i v h t = tt
All-set P (x ∷ vs) zero v h t = (h, t.1)
All-set P (x ∷ vs) (suc i) v h t = (t.0, All-set P vs i v h t.1)

-- The bounds before a turn, and after the first half of it.
abbrev pub Ready : ℕ → ℕ → NamedValidator → Type 0
Ready m t v = Within m v × Fits t v

abbrev Up : ℕ → ℕ → NamedValidator → Type 0
Up m t v = Risen m t v × Fits t v

map-raise :
    (m t : ℕ) (vs : List NamedValidator)
    → m + t ≤ 1152921504606846976
    → All (Ready m t) vs
    → (map raise vs ≡ map exact_raise vs) × All (Up m t) (map exact_raise vs)
map-raise m t [] h a = (refl, tt)
map-raise m t (v ∷ vs) h ((b, f), a) =
    let (same, up) = map-raise m t vs h a in
    let first : raise v ≡ exact_raise v =
      unfold raise in ap (λ p. record v { proposer_priority = p }) (raised_exact m t v h b f) in
    (cc, ((exact_raise-Risen m t v b f, f), up))

Up-Ready : (m t : ℕ) (vs : List NamedValidator) → All (Up m t) vs → All (Ready (m + t) t) vs
Up-Ready m t [] a = tt
Up-Ready m t (v ∷ vs) ((b, f), a) = (((omega (arith, b), omega (arith, b)), f), Up-Ready m t vs a)

charge_exact :
    (m t : ℕ) (vs : List NamedValidator) (p : Option ℕ)
    → m + t ≤ 1152921504606846976
    → 0 < t
    → All (Up m t) vs
    → (charge (pos t) vs p ≡ pays (pos t) vs p) × All (Ready (m + t) t) (pays (pos t) vs p)
unfolding charge
charge_exact m t vs none h o a = (refl, Up-Ready m t vs a)
charge_exact m t vs (some p) h o a = elim (Option-cases (get_elem? vs p)) [
  | inl e ↦ rw (e, charge, pays) (refl, Up-Ready m t vs a)
  | inr (v, e) ↦
      let (b, f) = All-get_elem? (Up m t) vs p v a e in
      let paid : lower (pos t) v ≡ exact_lower (pos t) v =
        unfold lower in ap (λ n. record v { proposer_priority = n }) (lowered_exact m t v h o b) in
      rw (e, charge, pays)
        (
          ap (set vs p) paid,
          All-set (Ready (m + t) t) vs p _ (exact_lower-Within m t v b, f) (Up-Ready m t vs a),
        )
]

turn_exact :
    (m t : ℕ) (vs : List NamedValidator)
    → m + t ≤ 1152921504606846976
    → 0 < t
    → All (Ready m t) vs
    → (rotate_once (pos t) vs ≡ turn (pos t) vs) × All (Ready (m + t) t) (turn (pos t) vs)
unfolding rotate_once
turn_exact m t vs h o a =
    let (same, up) = map-raise m t vs h a in
    let (paid, ready) =
      charge_exact m t (map exact_raise vs) (get_proposer (map exact_raise vs)) h o up in
    (ap (λ l. charge (pos t) l (get_proposer l)) same ∙ paid, ready)

-- While no priority can reach the bounds, the rounds are the turns.
pub rotate_exact :
    (n m t : ℕ) (vs : List NamedValidator)
    → m + n * t ≤ 1152921504606846976
    → 0 < t
    → All (Ready m t) vs
    → (rotate (pos t) n vs ≡ turns (pos t) n vs) × All (Ready (m + n * t) t) (turns (pos t) n vs)
unfolding rotate
rotate_exact zero m t vs h o a =
    (refl, subst (λ k. All (Ready k t) vs) (let z : m ≡ m + 0 * t = omega arith in z) a)
rotate_exact (suc n) m t vs h o a =
    let (same, ready) = turn_exact m t vs (omega (arith, h, suc-mul n t)) o a in
    let (rest, done) =
      rotate_exact n (m + t) t (turn (pos t) vs) (omega (arith, h, suc-mul n t)) o ready in
    (
      ap (rotate (pos t) n) same ∙ rest,
      subst (λ k. All (Ready k t) (turns (pos t) n (turn (pos t) vs)))
          (let z : (m + t) + n * t ≡ m + suc n * t = omega (arith, suc-mul n t) in z) done,
    )

pays-length : (t : ℤ) (vs : List NamedValidator) (p : Option ℕ) → length (pays t vs p) ≡ length vs
pays-length t vs none = refl
pays-length t vs (some p) = elim (Option-cases (get_elem? vs p)) [
  | inl e ↦ rw (e, pays) refl
  | inr (v, e) ↦ rw (e, pays) (length-set vs p (exact_lower t v))
]

pub turns-length : (t : ℤ) (n : ℕ) (vs : List NamedValidator) → length (turns t n vs) ≡ length vs
turns-length t zero vs = refl
turns-length t (suc n) vs =
    turns-length t n (turn t vs)
    ∙ (pays-length t (map exact_raise vs) (get_proposer (map exact_raise vs))
        ∙ length-map vs exact_raise)
