-- ===== src/Types/Validator/Rotation/Best.antt =====
-- getProposer returns the best validator of the list.
use leaderberry.Prelude.{
  ℕ, suc, ◌<◌, ◌≡◌, refl, true, false, some, List, [], ◌∷◌, ◌++◌, eqb_ℤ_iff, arith, bytes_lt_irrefl,
  bytes_lt_trans, All, length, get_elem?, if◌then◌else◌, Bool-cases, inl, inr, ap, sym, subst,
  length-append, get_elem?-append_one, get_elem?-lt, All-append_one,
}
use leaderberry.Types.Account.{account_name_string}
use leaderberry.Types.Validator.{NamedValidator, preferred, proposer_from, get_proposer}

preferred_irrefl : (v : NamedValidator) → preferred v v ≡ false
unfolding preferred
preferred_irrefl v = ground (arith, bytes_lt_irrefl (account_name_string v.name))

preferred_trans :
    (u v w : NamedValidator) → preferred u v ≡ true → preferred v w ≡ true → preferred u w ≡ true
unfolding preferred
preferred_trans u v w h k = ground (
  arith,
  eqb_ℤ_iff u.proposer_priority v.proposer_priority,
  eqb_ℤ_iff v.proposer_priority w.proposer_priority,
  bytes_lt_trans (account_name_string u.name) (account_name_string v.name)
      (account_name_string w.name),
)

-- Nobody in the list is preferred to `v`.
abbrev pub IsBest : NamedValidator → List NamedValidator → Type 0
IsBest v = All (λ u. preferred u v ≡ false)

IsBest-better :
    (b v : NamedValidator) (vs : List NamedValidator)
    → preferred v b ≡ true
    → IsBest b vs
    → IsBest v vs
IsBest-better b v [] p h = tt
IsBest-better b v (u ∷ us) p h =
    (ground (arith, h.0, p, preferred_trans u v b), IsBest-better b v us p h.1)

-- The validator at `p` is the best of the list.
abbrev pub BestAt : List NamedValidator → ℕ → Type 0
BestAt vs p = (v : NamedValidator) × (get_elem? vs p ≡ some v) × IsBest v vs

append_one_lem :
    (xs : List NamedValidator) (x : NamedValidator) (ys : List NamedValidator)
    → (xs ++ x ∷ []) ++ ys ≡ xs ++ x ∷ ys
append_one_lem [] x ys = refl
append_one_lem (z ∷ zs) x ys = ap (λ l. z ∷ l) (append_one_lem zs x ys)

append_nil : (xs : List NamedValidator) → xs ++ [] ≡ xs
append_nil [] = refl
append_nil (z ∷ zs) = ap (λ l. z ∷ l) (append_nil zs)

length-append_one :
    (xs : List NamedValidator) (x : NamedValidator) → length (xs ++ x ∷ []) ≡ suc (length xs)
length-append_one xs x = omega (arith, length-append xs (x ∷ []))

-- The best of the validators seen, once `v` is among them.
better_seen :
    (seen : List NamedValidator) (p : ℕ) (best v : NamedValidator)
    → get_elem? seen p ≡ some best
    → IsBest best seen
    → (get_elem? (seen ++ v ∷ []) (if preferred v best then length seen else p)
        ≡ some (if preferred v best then v else best))
      × IsBest (if preferred v best then v else best) (seen ++ v ∷ [])
better_seen seen p best v e h = elim (Bool-cases (preferred v best)) [
  | inl t ↦ rw t (
    ground (arith, get_elem?-append_one seen v (length seen)),
    All-append_one _ seen v (IsBest-better best v seen t h) (preferred_irrefl v),
  )
  | inr f ↦ rw f (
    ground (arith, get_elem?-append_one seen v p, get_elem?-lt seen p best e),
    All-append_one _ seen v h f,
  )
]

-- The loop, past the validators `seen`, of which `best` at `p` is the best.
proposer_from-best :
    (seen : List NamedValidator) (p : ℕ) (best : NamedValidator) (vs : List NamedValidator)
    → get_elem? seen p ≡ some best
    → IsBest best seen
    → BestAt (seen ++ vs) (proposer_from (length seen) p best vs)
unfolding proposer_from
proposer_from-best seen p best [] e h =
    subst (λ xs. BestAt xs p) (sym (append_nil seen)) (best, e, h)
proposer_from-best seen p best (v ∷ vs) e h =
    let (e', h') = better_seen seen p best v e h in
    let p' = if preferred v best then length seen else p in
    let best' = if preferred v best then v else best in
    subst (λ xs. BestAt xs (proposer_from (suc (length seen)) p' best' vs))
      (append_one_lem seen v vs)
      (subst (λ n. BestAt ((seen ++ v ∷ []) ++ vs) (proposer_from n p' best' vs))
        (length-append_one seen v) (proposer_from-best (seen ++ v ∷ []) p' best' vs e' h'))

pub get_proposer_lem :
    (vs : List NamedValidator) → 0 < length vs → (p : ℕ) × (get_proposer vs ≡ some p) × BestAt vs p
unfolding get_proposer
get_proposer_lem [] h = elim h [ ]
get_proposer_lem (v ∷ vs) h =
    (_, refl, proposer_from-best (v ∷ []) 0 v vs refl (preferred_irrefl v, tt))
