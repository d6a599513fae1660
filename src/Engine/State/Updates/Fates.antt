-- ===== src/Engine/State/Updates/Fates.antt =====
-- What the first pass of applyValidatorUpdates in engine/state.go does to the entry of one name.
use leaderberry.Prelude.{
  ◌≡◌, refl, sym, ap, ◌∙◌, Bool, true, false, not, ◌&&◌, ◌||◌, Option, none, some, List, [], ◌∷◌, ℤ,
  pos, eqb_ℤ, if◌then◌else◌, Bytes, bytes_eq, bytes_eq_iff, lookup, lookup-insert, insert,
  bytes_key, is_some, arith, Bool-cases, inl, inr,
}
use leaderberry.Types.Account.{account_name_string}
use leaderberry.Types.Validator.{NamedValidator}
use leaderberry.Engine.State.{ValidatorUpdate}
use leaderberry.Engine.State.Updates.{delete, updated, apply_updates}

-- The last update of a name, and whether one of them has no power.
abbrev pub last_update : Bytes → List ValidatorUpdate → Option ValidatorUpdate
last_update name [] = none
last_update name (u ∷ us) =
    let rest = last_update name us in
    if is_some rest
    then rest
    else if bytes_eq (account_name_string u.name) name
    then some u
    else none

abbrev pub removes : Bytes → List ValidatorUpdate → Bool
removes name [] = false
removes name (u ∷ us) =
    (bytes_eq (account_name_string u.name) name && eqb_ℤ u.voting_power (pos 0)) || removes name us

-- The last validator of a name.
abbrev pub named : Bytes → List NamedValidator → Option NamedValidator
named name [] = none
named name (v ∷ vs) =
    let rest = named name vs in
    if is_some rest
    then rest
    else if bytes_eq (account_name_string v.name) name
    then some v
    else none

abbrev pub priority_or : ℤ → Option NamedValidator → ℤ
priority_or cost none = cost
priority_or cost (some v) = v.proposer_priority

abbrev pub fate :
    Bytes → List ValidatorUpdate → Option NamedValidator → Bool → Option NamedValidator × Bool
fate name [] o f = (o, f)
fate name (u ∷ us) o f =
    if bytes_eq (account_name_string u.name) name
    then (if eqb_ℤ u.voting_power (pos 0)
        then fate name us none f
        else fate name us (some (updated o u)) (f || not (is_some o)))
    else fate name us o f

lookup-delete :
    (name gone : Bytes) (m : List (Bytes × NamedValidator))
    → lookup name (delete gone m) ≡ (if bytes_eq gone name then none else lookup name m)
unfolding lookup
lookup-delete name gone [] = ground arith
lookup-delete name gone ((k, v) ∷ m) = ground (
  arith,
  lookup-delete name gone m,
  (bytes_eq_iff k gone).0,
  (bytes_eq_iff k gone).1,
  (bytes_eq_iff gone name).0,
  (bytes_eq_iff gone name).1,
  (bytes_eq_iff k name).0,
  (bytes_eq_iff k name).1,
)

pairwise :
    {A B C : Type 0} (f : A → B → C) {a a' : A} {b b' : B} → a ≡ a' → b ≡ b' → f a b ≡ f a' b'
pairwise f p q = cc

module _ (name : Bytes) (u : ValidatorUpdate) (us : List ValidatorUpdate) where
  pub fate_other :
      (o : Option NamedValidator) (f : Bool)
      → bytes_eq (account_name_string u.name) name ≡ false
      → fate name (u ∷ us) o f ≡ fate name us o f
  fate_other o f e = rw e refl

  pub fate_removed :
      (o : Option NamedValidator) (f : Bool)
      → bytes_eq (account_name_string u.name) name ≡ true
      → eqb_ℤ u.voting_power (pos 0) ≡ true
      → fate name (u ∷ us) o f ≡ fate name us none f
  fate_removed o f e z = rw (e, z) refl

  pub fate_put :
      (o : Option NamedValidator) (f : Bool)
      → bytes_eq (account_name_string u.name) name ≡ true
      → eqb_ℤ u.voting_power (pos 0) ≡ false
      → fate name (u ∷ us) o f ≡ fate name us (some (updated o u)) (f || not (is_some o))
  fate_put o f e z = rw (e, z) refl

abbrev after_put :
    ValidatorUpdate
    → List (Bytes × NamedValidator)
    → List (Bytes × Bool)
    → List (Bytes × NamedValidator) × List (Bytes × Bool)
after_put u m fresh =
    let k = account_name_string u.name in
    (
      insert k (updated (lookup k m) u) m,
      if is_some (lookup k m) then fresh else insert k true fresh,
    )

apply_removed :
    (u : ValidatorUpdate) (us : List ValidatorUpdate) (m : List (Bytes × NamedValidator))
    (fresh : List (Bytes × Bool))
    → eqb_ℤ u.voting_power (pos 0) ≡ true
    → apply_updates (u ∷ us) (m, fresh)
      ≡ apply_updates us (delete (account_name_string u.name) m, fresh)
unfolding apply_updates
apply_removed u us m fresh z = rw z refl

apply_put :
    (u : ValidatorUpdate) (us : List ValidatorUpdate) (m : List (Bytes × NamedValidator))
    (fresh : List (Bytes × Bool))
    → eqb_ℤ u.voting_power (pos 0) ≡ false
    → apply_updates (u ∷ us) (m, fresh) ≡ apply_updates us (after_put u m fresh)
unfolding apply_updates
apply_put u us m fresh z = rw z refl

-- The entry of a name, and whether it is marked as new.
abbrev pub entry :
    Bytes → List (Bytes × NamedValidator) × List (Bytes × Bool) → Option NamedValidator × Bool
entry name r = (lookup name r.0, is_some (lookup name r.1))

module _ (name : Bytes) (u : ValidatorUpdate) (m : List (Bytes × NamedValidator))
    (fresh : List (Bytes × Bool)) where
  entry-put_same :
      bytes_eq (account_name_string u.name) name ≡ true
      → entry name (after_put u m fresh) ≡ (
        some (updated (lookup name m) u),
        is_some (lookup name fresh) || not (is_some (lookup name m)),
      )
  entry-put_same e =
      let k = account_name_string u.name in
      let same : k ≡ name = (bytes_eq_iff k name).0 e in
      let there : is_some (lookup k m) ≡ is_some (lookup name m) =
        ap (λ n. is_some (lookup {V = NamedValidator} n m)) same in
      let put : lookup name (insert k (updated (lookup k m) u) m)
          ≡ some (updated (lookup name m) u) =
        ground (arith, lookup-insert k name (updated (lookup k m) u) m, e)
        ∙ ap (λ n. some (updated (lookup n m) u)) same in
      let marked : is_some
            (lookup name (if is_some (lookup k m) then fresh else insert k true fresh))
          ≡ (is_some (lookup name fresh) || not (is_some (lookup name m))) =
        elim (Bool-cases (is_some (lookup k m))) [
          | inl q ↦ rw q (ground (arith, q, there))
          | inr q ↦ rw q (ground (arith, q, there, lookup-insert k name true fresh, e))
        ] in
      pairwise (λ o b. (o, b)) put marked

  entry-put_other :
      bytes_eq (account_name_string u.name) name ≡ false
      → entry name (after_put u m fresh) ≡ entry name (m, fresh)
  entry-put_other e =
      let k = account_name_string u.name in
      let stays : lookup name (insert k (updated (lookup k m) u) m) ≡ lookup name m =
        ground (arith, lookup-insert k name (updated (lookup k m) u) m, e) in
      let unmarked : is_some
            (lookup name (if is_some (lookup k m) then fresh else insert k true fresh))
          ≡ is_some (lookup name fresh) =
        elim (Bool-cases (is_some (lookup k m))) [
          | inl q ↦ rw q refl
          | inr q ↦ rw q (ground (arith, lookup-insert k name true fresh, e))
        ] in
      pairwise (λ o b. (o, b)) stays unmarked

-- The pass, seen from one name.
pub apply_updates-fate :
    (name : Bytes) (us : List ValidatorUpdate) (m : List (Bytes × NamedValidator))
    (fresh : List (Bytes × Bool))
    → entry name (apply_updates us (m, fresh))
      ≡ fate name us (lookup name m) (is_some (lookup name fresh))
apply_updates-fate name [] m fresh = unfold apply_updates in refl
apply_updates-fate name (u ∷ us) m fresh =
    let k = account_name_string u.name in
    let now = is_some (lookup {V = Bool} name fresh) in
    let o = lookup {V = NamedValidator} name m in
    elim (Bool-cases (eqb_ℤ u.voting_power (pos 0))) [
      | inl z ↦
          let left =
            ap (entry name) (apply_removed u us m fresh z)
            ∙ apply_updates-fate name us (delete k m) fresh in
          elim (Bool-cases (bytes_eq k name)) [
            | inl e ↦
                let gone : lookup name (delete k m) ≡ none =
                  ground (arith, lookup-delete name k m, e) in
                left ∙ (ap (λ x. fate name us x now) gone ∙ sym (fate_removed name u us o now e z))
            | inr e ↦
                let stays : lookup name (delete k m) ≡ o =
                  ground (arith, lookup-delete name k m, e) in
                left ∙ (ap (λ x. fate name us x now) stays ∙ sym (fate_other name u us o now e))
          ]
      | inr z ↦
          let next = after_put u m fresh in
          let left =
            ap (entry name) (apply_put u us m fresh z) ∙ apply_updates-fate name us next.0 next.1 in
          elim (Bool-cases (bytes_eq k name)) [
            | inl e ↦
                left
                ∙ (ap (λ x. fate name us x.0 x.1) (entry-put_same name u m fresh e)
                    ∙ sym (fate_put name u us o now e z))
            | inr e ↦
                left
                ∙ (ap (λ x. fate name us x.0 x.1) (entry-put_other name u m fresh e)
                    ∙ sym (fate_other name u us o now e))
          ]
    ]
