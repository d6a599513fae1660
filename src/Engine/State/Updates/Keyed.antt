-- ===== src/Engine/State/Updates/Keyed.antt =====
-- The map of applyValidatorUpdates in engine/state.go: every validator under its name.
use leaderberry.Prelude.{
  ◌≡◌, refl, ◌∙◌, subst, Bool, none, List, [], ◌∷◌, pos, if◌then◌else◌, Bytes, bytes_eq,
  bytes_eq_iff, lookup, lookup-insert, insert, bytes_key, keep_if, is_some, arith, Bool-cases, inl,
  inr, eqb_ℤ,
}
use leaderberry.Types.Account.{account_name_string}
use leaderberry.Types.Validator.{NamedValidator}
use leaderberry.Engine.State.{ValidatorUpdate}
use leaderberry.Engine.State.Updates.{current_validators, updated, apply_updates}
use leaderberry.Engine.State.Updates.Fates.{named}

-- Every entry has its validator's name as the key, and no key twice.
abbrev pub IsKeyed : List (Bytes × NamedValidator) → Type 0
IsKeyed [] = Unit
IsKeyed ((k, v) ∷ m) = (account_name_string v.name ≡ k) × (lookup k m ≡ none) × IsKeyed m

insert-IsKeyed :
    (name : Bytes) (v : NamedValidator) (m : List (Bytes × NamedValidator))
    → account_name_string v.name ≡ name
    → IsKeyed m
    → IsKeyed (insert name v m)
unfolding insert lookup
insert-IsKeyed name v [] e w = (e, refl, tt)
insert-IsKeyed name v ((k, x) ∷ m) e (h, once, w) = elim (Bool-cases (bytes_eq k name)) [
  | inl q ↦ rw q (e, subst (λ n. lookup n m ≡ none) ((bytes_eq_iff k name).0 q) once, w)
  | inr q ↦ rw q (
    h,
    ground (
      arith,
      lookup-insert name k v m,
      once,
      q,
      (bytes_eq_iff name k).0,
      (bytes_eq_iff k name).1,
    ),
    insert-IsKeyed name v m e w,
  )
]

lookup-keep_if :
    (name : Bytes) (test : Bytes × NamedValidator → Bool) (m : List (Bytes × NamedValidator))
    → lookup name m ≡ none
    → lookup name (keep_if test m) ≡ none
unfolding lookup
lookup-keep_if name test [] e = refl
lookup-keep_if name test ((k, v) ∷ m) e = ground (arith, lookup-keep_if name test m, e)

keep_if-IsKeyed :
    (test : Bytes × NamedValidator → Bool) (m : List (Bytes × NamedValidator))
    → IsKeyed m
    → IsKeyed (keep_if test m)
keep_if-IsKeyed test [] w = tt
keep_if-IsKeyed test ((k, v) ∷ m) (h, once, w) = elim (Bool-cases (test (k, v))) [
  | inl q ↦ rw q (h, lookup-keep_if k test m once, keep_if-IsKeyed test m w)
  | inr q ↦ rw q (keep_if-IsKeyed test m w)
]

pub current_validators-IsKeyed :
    (vs : List NamedValidator) (m : List (Bytes × NamedValidator))
    → IsKeyed m
    → IsKeyed (current_validators vs m)
unfolding current_validators
current_validators-IsKeyed [] m w = w
current_validators-IsKeyed (v ∷ vs) m w =
    current_validators-IsKeyed vs _ (insert-IsKeyed _ v m refl w)

-- The last validator of a name is the one that stays.
pub lookup-current_validators :
    (name : Bytes) (vs : List NamedValidator) (m : List (Bytes × NamedValidator))
    → lookup name (current_validators vs m)
      ≡ (if is_some (named name vs) then named name vs else lookup name m)
unfolding current_validators
lookup-current_validators name [] m = refl
lookup-current_validators name (v ∷ vs) m =
    let k = account_name_string v.name in
    lookup-current_validators name vs (insert k v m) ∙ ground (arith, lookup-insert k name v m)

updated-name :
    (name : Bytes) (m : List (Bytes × NamedValidator)) (u : ValidatorUpdate)
    → IsKeyed m
    → account_name_string u.name ≡ name
    → account_name_string (updated (lookup name m) u).name ≡ name
unfolding updated lookup
updated-name name [] u w e = e
updated-name name ((k, v) ∷ m) u (h, once, w) e = elim (Bool-cases (bytes_eq k name)) [
  | inl q ↦ rw q (h ∙ (bytes_eq_iff k name).0 q)
  | inr q ↦ rw q (updated-name name m u w e)
]

pub apply_updates-IsKeyed :
    (us : List ValidatorUpdate) (m : List (Bytes × NamedValidator)) (fresh : List (Bytes × Bool))
    → IsKeyed m
    → IsKeyed (apply_updates us (m, fresh)).0
unfolding apply_updates
apply_updates-IsKeyed [] m fresh w = w
apply_updates-IsKeyed (u ∷ us) m fresh w = elim (Bool-cases (eqb_ℤ u.voting_power (pos 0))) [
  | inl z ↦ rw (z, apply_updates) (apply_updates-IsKeyed us _ fresh (keep_if-IsKeyed _ m w))
  | inr z ↦
      rw (z, apply_updates)
        (apply_updates-IsKeyed us _ _ (insert-IsKeyed _ _ m (updated-name _ m u w refl) w))
]
