-- ===== src/Engine/State/Machine/Outcomes.antt =====
-- What holds of a method of engine/state.go however it ends: `Every` of the state it returns, `Ends` that
-- it returns or panics.
use leaderberry.Prelude.{◌≡◌, refl, Bool, true, false, Option, none, some, if◌then◌else◌}
use leaderberry.Engine.State.{Outcome, done, panicked, out_of_fuel, ◌>>=◌}

module _ {ℓ} {A : Type ℓ} where
  abbrev pub Every {κ} : (A → Type κ) → Outcome A → Type κ
  Every P (done a) = P a
  Every P panicked = Unit
  Every P out_of_fuel = Unit

  -- The same, and that the method has returned or panicked.
  abbrev pub Settles : (A → Type 0) → Outcome A → Type 0
  Settles P (done a) = P a
  Settles P panicked = Unit
  Settles P out_of_fuel = ⊥

  abbrev pub Ends : Outcome A → Type 0
  Ends = Settles (λ a. Unit {0})

  pub Settles-weaken : (P : A → Type 0) (o : Outcome A) → Settles P o → Ends o
  Settles-weaken P (done a) h = tt
  Settles-weaken P panicked h = tt
  Settles-weaken P out_of_fuel h = elim h [ ]

module _ {ℓ μ} {A : Type ℓ} {B : Type μ} where
  pub Every-bind {κ ν} :
      (P : A → Type κ) (Q : B → Type ν) (o : Outcome A) (f : A → Outcome B)
      → Every P o
      → ((a : A) → P a → Every Q (f a))
      → Every Q (o >>= f)
  Every-bind P Q (done a) f h k = k a h
  Every-bind P Q panicked f h k = tt
  Every-bind P Q out_of_fuel f h k = tt

  pub Settles-bind :
      (P : A → Type 0) (Q : B → Type 0) (o : Outcome A) (f : A → Outcome B)
      → Settles P o
      → ((a : A) → P a → Settles Q (f a))
      → Settles Q (o >>= f)
  Settles-bind P Q (done a) f h k = k a h
  Settles-bind P Q panicked f h k = tt
  Settles-bind P Q out_of_fuel f h k = elim h [ ]

-- What holds of both branches holds of the test, which each branch knows.
module _ {ℓ κ} {A : Type ℓ} (P : A → Type κ) where
  pub if-both : (b : Bool) (x y : A) → (b ≡ true → P x) → (b ≡ false → P y) → P (if b then x else y)
  if-both true x y h k = h refl
  if-both false x y h k = k refl

  pub Bool-both :
      (b : Bool) (x y : A)
      → (b ≡ true → P x)
      → (b ≡ false → P y)
      → P (elim b [ true ↦ x | false ↦ y ])
  Bool-both true x y h k = h refl
  Bool-both false x y h k = k refl

  pub Option-both {μ} :
      {B : Type μ} (o : Option B) (x : A) (f : B → A)
      → (o ≡ none → P x)
      → ((b : B) → o ≡ some b → P (f b))
      → P (elim o [ none ↦ x | some b ↦ f b ])
  Option-both none x f h k = h refl
  Option-both (some b) x f h k = k b refl
