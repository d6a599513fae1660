-- ===== src/Engine/State/Updates/Sorting.antt =====
-- The slice that applyValidatorUpdates of engine/state.go makes of its map: each name once, sorted.
use leaderberry.Prelude.{
  ℕ, ◌+◌, ◌≡◌, refl, sym, ap, ◌∙◌, Bool, true, false, Option, none, some, List, [], ◌∷◌, ℤ, pos,
  map, if◌then◌else◌, Bytes, bytes_eq, bytes_eq_iff, bytes_eq_refl, bytes_lt, bytes_lt_trans,
  bytes_lt_connex, lookup, bytes_key, is_some, arith, Bool-cases, inl, inr, All, All-map, add64,
  add64_pos, eq-pos_of_nonneg, ◌≤ℤ◌, ◌≤◌,
}
use leaderberry.Types.Account.{account_name_string}
use leaderberry.Types.Validator.{NamedValidator}
use leaderberry.Types.Validator.Tally.{tally, total, power}
use leaderberry.Engine.State.Updates.{penalize, insert_by_name, sort_by_name, sum_power}
use leaderberry.Engine.State.Updates.Powers.{Values}
use leaderberry.Engine.State.Updates.Fates.{named}
use leaderberry.Engine.State.Updates.After.{with_cost}
use leaderberry.Engine.State.Updates.Keyed.{IsKeyed}

-- No name twice.
abbrev IsOnce : List NamedValidator → Type 0
IsOnce [] = Unit
IsOnce (v ∷ vs) = (named (account_name_string v.name) vs ≡ none) × IsOnce vs

penalize-name :
    (fresh : List (Bytes × Bool)) (cost : ℤ) (k : Bytes) (v : NamedValidator)
    → account_name_string (penalize fresh cost (k, v)).name ≡ account_name_string v.name
unfolding penalize
penalize-name fresh cost k v = elim (Bool-cases (is_some (lookup k fresh))) [
  | inl e ↦ rw e refl
  | inr e ↦ rw e refl
]

-- Names that rise strictly.
abbrev pub IsSorted : List NamedValidator → Type 0
IsSorted [] = Unit
IsSorted (v ∷ vs) =
    All (λ w. bytes_lt (account_name_string v.name) (account_name_string w.name) ≡ true) vs
    × IsSorted vs

insert_by_name-All :
    (P : NamedValidator → Type 0) (v : NamedValidator) (ws : List NamedValidator)
    → P v
    → All P ws
    → All P (insert_by_name v ws)
unfolding insert_by_name
insert_by_name-All P v [] h t = (h, tt)
insert_by_name-All P v (w ∷ ws) h t =
    elim (Bool-cases (bytes_lt (account_name_string w.name) (account_name_string v.name))) [
      | inl e ↦ rw e (t.0, insert_by_name-All P v ws h t.1)
      | inr e ↦ rw e (h, t)
    ]

insert_by_name-IsSorted :
    (v : NamedValidator) (ws : List NamedValidator)
    → named (account_name_string v.name) ws ≡ none
    → IsSorted ws
    → IsSorted (insert_by_name v ws)
unfolding insert_by_name
insert_by_name-IsSorted v [] n s = (tt, tt)
insert_by_name-IsSorted v (w ∷ ws) n s =
    let a = account_name_string v.name in
    let b = account_name_string w.name in
    elim (Bool-cases (bytes_lt b a)) [
      | inl e ↦
          rw e
            (insert_by_name-All _ v ws e s.0, insert_by_name-IsSorted v ws (ground (arith, n)) s.1)
      | inr e ↦
          let below : bytes_lt a b ≡ true = ground (
            arith,
            n,
            e,
            bytes_lt_connex a b,
            (bytes_eq_iff b a).1,
            ap (bytes_eq b),
            bytes_eq_refl b,
          ) in
          rw e (
            (
              below,
              All-map _ _ ws (λ x h. bytes_lt_trans a b (account_name_string x.name) below h) s.0,
            ),
            s,
          )
    ]

named-insert_by_name :
    (name : Bytes) (v : NamedValidator) (ws : List NamedValidator)
    → named (account_name_string v.name) ws ≡ none
    → named name (insert_by_name v ws) ≡ named name (v ∷ ws)
unfolding insert_by_name
named-insert_by_name name v [] n = refl
named-insert_by_name name v (w ∷ ws) n =
    let a = account_name_string v.name in
    let b = account_name_string w.name in
    let apart : bytes_eq b a ≡ false = ground (arith, n) in
    elim (Bool-cases (bytes_lt b a)) [
      | inl e ↦ rw e (
          rw (named-insert_by_name name v ws (ground (arith, n))) (
            ground (
              arith,
              apart,
              (bytes_eq_iff b a).1,
              (bytes_eq_iff a name).0,
              (bytes_eq_iff b name).0,
            )))
      | inr e ↦ rw e refl
    ]

sort_by_name-named :
    (vs : List NamedValidator) (name : Bytes)
    → IsOnce vs
    → named name (sort_by_name vs) ≡ named name vs
unfolding sort_by_name
sort_by_name-named [] name o = refl
sort_by_name-named (v ∷ vs) name o =
    named-insert_by_name name v (sort_by_name vs)
      (sort_by_name-named vs (account_name_string v.name) o.1 ∙ o.0)
    ∙ ap
        (λ r.
          if is_some r
          then r
          else if bytes_eq (account_name_string v.name) name
          then some v
          else none)
        (sort_by_name-named vs name o.1)

sort_by_name-IsSorted : (vs : List NamedValidator) → IsOnce vs → IsSorted (sort_by_name vs)
unfolding sort_by_name
sort_by_name-IsSorted [] o = tt
sort_by_name-IsSorted (v ∷ vs) o =
    insert_by_name-IsSorted v (sort_by_name vs)
      (sort_by_name-named vs (account_name_string v.name) o.1 ∙ o.0) (sort_by_name-IsSorted vs o.1)

or_none : (o : Option NamedValidator) → (if is_some o then o else none) ≡ o
or_none none = refl
or_none (some v) = refl

named-penalize :
    (fresh : List (Bytes × Bool)) (cost : ℤ) (name : Bytes) (m : List (Bytes × NamedValidator))
    → IsKeyed m
    → named name (map (penalize fresh cost) m)
      ≡ with_cost cost (lookup name m) (is_some (lookup name fresh))
unfolding lookup
named-penalize fresh cost name [] w = refl
named-penalize fresh cost name ((k, v) ∷ m) (h, once, w) =
    let rest = map (penalize fresh cost) m in
    let ih = named-penalize fresh cost name m w in
    elim (Bool-cases (bytes_eq k name)) [
      | inl q ↦
          let same : k ≡ name = (bytes_eq_iff k name).0 q in
          let no_more : named name rest ≡ none =
            ih
            ∙ ap (λ o. with_cost cost o (is_some (lookup {V = Bool} name fresh)))
                (ap (λ n. lookup {V = NamedValidator} n m) (sym same) ∙ once) in
          let here : bytes_eq (account_name_string (penalize fresh cost (k, v)).name) name ≡ true =
            (bytes_eq_iff _ _).1 (penalize-name fresh cost k v ∙ (h ∙ same)) in
          rw (no_more, here, q)
            (unfold penalize in
              ap
                (λ n.
                  some
                    (if is_some (lookup n fresh) then record v { proposer_priority = cost } else v))
                same)
      | inr q ↦
          let other : bytes_eq (account_name_string (penalize fresh cost (k, v)).name) name
              ≡ false =
            ap (λ n. bytes_eq n name) (penalize-name fresh cost k v ∙ h) ∙ q in
          rw (other, q, ih) (or_none _)
    ]

penalize-IsOnce :
    (fresh : List (Bytes × Bool)) (cost : ℤ) (m : List (Bytes × NamedValidator))
    → IsKeyed m
    → IsOnce (map (penalize fresh cost) m)
penalize-IsOnce fresh cost [] w = tt
penalize-IsOnce fresh cost ((k, v) ∷ m) (h, once, w) = (
  named-penalize fresh cost _ m w
      ∙ ap
          (λ o. with_cost cost o (
            is_some
              (lookup {V = Bool} (account_name_string (penalize fresh cost (k, v)).name) fresh)))
          (ap (λ n. lookup {V = NamedValidator} n m) (penalize-name fresh cost k v ∙ h) ∙ once),
  penalize-IsOnce fresh cost m w,
)

-- The slice of a keyed map: sorted, and with the validators of the map.
pub slice_lem :
    (fresh : List (Bytes × Bool)) (cost : ℤ) (m : List (Bytes × NamedValidator)) (name : Bytes)
    → IsKeyed m
    → IsSorted (sort_by_name (map (penalize fresh cost) m))
      × (named name (sort_by_name (map (penalize fresh cost) m))
          ≡ with_cost cost (lookup name m) (is_some (lookup name fresh)))
slice_lem fresh cost m name w =
    let once = penalize-IsOnce fresh cost m w in
    (
      sort_by_name-IsSorted _ once,
      sort_by_name-named _ name once ∙ named-penalize fresh cost name m w,
    )

insert_by_name-total :
    (v : NamedValidator) (ws : List NamedValidator)
    → total (insert_by_name v ws) ≡ power v + total ws
unfolding insert_by_name total tally
insert_by_name-total v [] = refl
insert_by_name-total v (w ∷ ws) =
    elim (Bool-cases (bytes_lt (account_name_string w.name) (account_name_string v.name))) [
      | inl e ↦ rw e (omega (arith, insert_by_name-total v ws))
      | inr e ↦ rw e refl
    ]

penalize-power :
    (fresh : List (Bytes × Bool)) (cost : ℤ) (k : Bytes) (v : NamedValidator)
    → power (penalize fresh cost (k, v)) ≡ power v
unfolding penalize
penalize-power fresh cost k v = elim (Bool-cases (is_some (lookup k fresh))) [
  | inl e ↦ rw e refl
  | inr e ↦ rw e refl
]

abbrev pub map_total : List (Bytes × NamedValidator) → ℕ
map_total [] = 0
map_total ((k, v) ∷ m) = power v + map_total m

pub slice-total :
    (fresh : List (Bytes × Bool)) (cost : ℤ) (m : List (Bytes × NamedValidator))
    → total (sort_by_name (map (penalize fresh cost) m)) ≡ map_total m
unfolding sort_by_name
slice-total fresh cost [] = unfold total tally in refl
slice-total fresh cost ((k, v) ∷ m) =
    insert_by_name-total (penalize fresh cost (k, v)) _
    ∙ omega (arith, penalize-power fresh cost k v, slice-total fresh cost m)

-- The sum of the powers, none of which is negative, does not wrap around while it is an int64.
pub sum_power-map_total :
    (s : ℕ) (m : List (Bytes × NamedValidator))
    → Values (λ p. pos 0 ≤ℤ p) m
    → s + map_total m ≤ 9223372036854775807
    → sum_power (pos s) m ≡ pos (s + map_total m)
unfolding sum_power
sum_power-map_total s [] h l = ap pos (omega arith)
sum_power-map_total s ((k, v) ∷ m) h l =
    let positive : v.voting_power ≡ pos (power v) = eq-pos_of_nonneg v.voting_power h.0 in
    ap (λ z. sum_power z m) (ap (add64 (pos s)) positive ∙ add64_pos s (power v) (omega (arith, l)))
    ∙ (sum_power-map_total (s + power v) m h.1 (omega (arith, l)) ∙ ap pos (omega arith))
