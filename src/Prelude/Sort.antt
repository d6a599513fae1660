-- ===== src/Prelude/Sort.antt =====
-- `sort.Slice` by a number that every element carries, as an insertion sort.
use Prim.Native.Nat.{ℕ, suc, ◌≤◌}
use mathlib.Core.Logic.{◌≢◌, inl, inr}
use mathlib.Core.List.{List, [], ◌∷◌}
use native.Mathlib.Omega.{arith}
use leaderberry.Prelude.Tests.{leb, if◌then◌else◌, Bool-cases}
use leaderberry.Prelude.Lists.{All}

module _ {ℓ} {A : Type ℓ} (key : A → ℕ) where
  unfoldable pub insert_by : A → List A → List A
  insert_by a [] = a ∷ []
  insert_by a (x ∷ xs) = if leb (key a) (key x) then a ∷ x ∷ xs else x ∷ insert_by a xs

  unfoldable pub sort_by : List A → List A
  sort_by [] = []
  sort_by (x ∷ xs) = insert_by x (sort_by xs)

  -- Keys that rise strictly, from `lo` on.
  abbrev pub Ascending : ℕ → List A → Type 0
  Ascending lo [] = Unit
  Ascending lo (x ∷ xs) = (lo ≤ key x) × Ascending (suc (key x)) xs

  abbrev pub NotAmong : ℕ → List A → Type 0
  NotAmong k [] = Unit
  NotAmong k (x ∷ xs) = (key x ≢ k) × NotAmong k xs

  abbrev pub DistinctBy : List A → Type 0
  DistinctBy [] = Unit
  DistinctBy (x ∷ xs) = NotAmong (key x) xs × DistinctBy xs

  insert_by-Ascending :
      (lo : ℕ) (a : A) (xs : List A)
      → lo ≤ key a
      → Ascending lo xs
      → NotAmong (key a) xs
      → Ascending lo (insert_by a xs)
  unfolding insert_by
  insert_by-Ascending lo a [] h s n = (h, tt)
  insert_by-Ascending lo a (x ∷ xs) h s n = elim (Bool-cases (leb (key a) (key x))) [
    | inl e ↦ rw e (h, (ground (arith, n.0), s.1))
    | inr e ↦ rw e (s.0, insert_by-Ascending (suc (key x)) a xs (ground arith) s.1 n.1)
  ]

  insert_by-NotAmong :
      (k : ℕ) (a : A) (xs : List A) → key a ≢ k → NotAmong k xs → NotAmong k (insert_by a xs)
  unfolding insert_by
  insert_by-NotAmong k a [] h n = (h, tt)
  insert_by-NotAmong k a (x ∷ xs) h n = elim (Bool-cases (leb (key a) (key x))) [
    | inl e ↦ rw e (h, n)
    | inr e ↦ rw e (n.0, insert_by-NotAmong k a xs h n.1)
  ]

  sort_by-NotAmong : (k : ℕ) (xs : List A) → NotAmong k xs → NotAmong k (sort_by xs)
  unfolding sort_by
  sort_by-NotAmong k [] n = tt
  sort_by-NotAmong k (x ∷ xs) n =
      insert_by-NotAmong k x (sort_by xs) n.0 (sort_by-NotAmong k xs n.1)

  -- Distinct keys come out in strictly rising order.
  pub sort_by-Ascending : (xs : List A) → DistinctBy xs → Ascending 0 (sort_by xs)
  unfolding sort_by
  sort_by-Ascending [] d = tt
  sort_by-Ascending (x ∷ xs) d =
      insert_by-Ascending 0 x (sort_by xs) (omega arith) (sort_by-Ascending xs d.1)
        (sort_by-NotAmong (key x) xs d.0)

  insert_by-All {κ} :
      (P : A → Type κ) (a : A) (xs : List A) → P a → All P xs → All P (insert_by a xs)
  unfolding insert_by
  insert_by-All P a [] h n = (h, tt)
  insert_by-All P a (x ∷ xs) h n = elim (Bool-cases (leb (key a) (key x))) [
    | inl e ↦ rw e (h, n)
    | inr e ↦ rw e (n.0, insert_by-All P a xs h n.1)
  ]

  pub sort_by-All {κ} : (P : A → Type κ) (xs : List A) → All P xs → All P (sort_by xs)
  unfolding sort_by
  sort_by-All P [] n = tt
  sort_by-All P (x ∷ xs) n = insert_by-All P x (sort_by xs) n.0 (sort_by-All P xs n.1)
