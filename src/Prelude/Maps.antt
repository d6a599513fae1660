-- ===== src/Prelude/Maps.antt =====
-- Go's maps as association lists, over any key type with a Boolean equality.
use Prim.Native.Nat.{ℕ}
use mathlib.Core.Path.{◌≡◌, refl, subst}
use mathlib.Core.Logic.{◌↔◌, inl, inr}
use mathlib.Core.Bool.{Bool, true}
use mathlib.Core.Option.{Option, none, some}
use mathlib.Core.List.{List, [], ◌∷◌}
use native.Mathlib.Omega.{arith}
use leaderberry.Prelude.Tests.{◌==◌ as nat_beq, ==_iff, if◌then◌else◌, Bool-cases}
use leaderberry.Prelude.Lists.{All, All-map}
use leaderberry.Prelude.Int.{ℤ, eqb_ℤ, eqb_ℤ_iff}
use leaderberry.Prelude.ByteStrings.{Bytes, bytes_eq, bytes_eq_sound, bytes_eq_refl}

pub record Eq {ℓ} (A : Type ℓ) : Type ℓ where
  pub beq : A → A → Bool
  pub beq_iff : (a b : A) → (beq a b ≡ true) ↔ (a ≡ b)

instance abbrev pub nat_key : Eq ℕ
nat_key = record { beq = nat_beq; beq_iff = ==_iff }

instance abbrev pub int_key : Eq ℤ
int_key = record { beq = eqb_ℤ; beq_iff = eqb_ℤ_iff }

pub bytes_eq_iff : (a b : Bytes) → (bytes_eq a b ≡ true) ↔ (a ≡ b)
bytes_eq_iff a b = (bytes_eq_sound a b, λ e. ground (arith, bytes_eq_refl a))

instance abbrev pub bytes_key : Eq Bytes
bytes_key = record { beq = bytes_eq; beq_iff = bytes_eq_iff }

pub beq_refl {ℓ} : {K : Type ℓ} ⦃e : Eq K⦄ (k : K) → e.beq k k ≡ true
beq_refl ⦃e⦄ k = (e.beq_iff k k).1 refl

module _ {ℓ κ} {K : Type ℓ} {V : Type κ} ⦃e : Eq K⦄ where
  unfoldable pub lookup : K → List (K × V) → Option V
  lookup k [] = none
  lookup k ((j, v) ∷ m) = if e.beq j k then some v else lookup k m

  -- A new key goes to the end; an old one keeps its place.
  unfoldable pub insert : K → V → List (K × V) → List (K × V)
  insert k v [] = (k, v) ∷ []
  insert k v ((j, w) ∷ m) = if e.beq j k then (k, v) ∷ m else (j, w) ∷ insert k v m

  pub lookup-insert :
      (k j : K) (v : V) (m : List (K × V))
      → lookup j (insert k v m) ≡ (if e.beq k j then some v else lookup j m)
  unfolding lookup insert
  lookup-insert k j v [] = refl
  lookup-insert k j v ((i, w) ∷ m) = ground (
    arith,
    (e.beq_iff i k).0,
    (e.beq_iff i k).1,
    (e.beq_iff k j).0,
    (e.beq_iff k j).1,
    (e.beq_iff i j).0,
    (e.beq_iff i j).1,
    lookup-insert k j v m,
  )

  pub lookup-insert_self : (k : K) (v : V) (m : List (K × V)) → lookup k (insert k v m) ≡ some v
  lookup-insert_self k v m = ground (arith, lookup-insert k k v m, beq_refl k)

  -- No key stands twice, as in every map that `insert` builds.
  abbrev pub DistinctKeys : List (K × V) → Type κ
  DistinctKeys [] = Unit
  DistinctKeys ((k, v) ∷ m) = (lookup k m ≡ none) × DistinctKeys m

  pub insert-DistinctKeys :
      (k : K) (v : V) (m : List (K × V)) → DistinctKeys m → DistinctKeys (insert k v m)
  unfolding insert
  insert-DistinctKeys k v [] d = (unfold lookup in refl, tt)
  insert-DistinctKeys k v ((j, w) ∷ m) d = elim (Bool-cases (e.beq j k)) [
    | inl q ↦ rw q (subst (λ (x : K). lookup x m ≡ none) ((e.beq_iff j k).0 q) d.0, d.1)
    | inr q ↦ rw q (
      ground (arith, lookup-insert k j v m, (e.beq_iff k j).0, (e.beq_iff j k).1, d.0),
      insert-DistinctKeys k v m d.1,
    )
  ]

  -- Every entry of such a map is the one that its key finds.
  pub lookup-entries : (m : List (K × V)) → DistinctKeys m → All (λ e. lookup e.0 m ≡ some e.1) m
  lookup-entries [] d = tt
  lookup-entries ((k, v) ∷ m) d =
      (unfold lookup in rw (beq_refl k) refl, All-map _ _ m later (lookup-entries m d.1))
    where
      later : (x : K × V) → lookup x.0 m ≡ some x.1 → lookup x.0 ((k, v) ∷ m) ≡ some x.1
      later x h = unfold lookup in ground (arith, h, d.0, (e.beq_iff k x.0).0)
