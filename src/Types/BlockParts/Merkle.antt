-- ===== src/Types/BlockParts/Merkle.antt =====
-- The Merkle root of types/block_parts.go, and collisions of the hash function.
use leaderberry.Prelude.{
  ◌≡◌, refl, ap, ◌∙◌, ◌≢◌, ◌⊎◌, inl, inr, ℕ, zero, suc, ◌≤◌, Bool-cases, ◌==◌, Option, none, some,
  List, [], ◌∷◌, ◌++◌, length, All, Bytes, bytes_eq, bytes_eq_sound, bytes_eq_refl, arith,
}
use leaderberry.Types.Hash.{Hash, hash_size, new_hash}
use leaderberry.Types.BlockParts.{next_level, merkle_loop, must_new_hash, compute_merkle_root}

abbrev pub HasHashSize : Bytes → Type 0
HasHashSize bs = length bs ≡ hash_size

append_split : (a b c d : Bytes) → length a ≡ length c → a ++ b ≡ c ++ d → (a ≡ c) × (b ≡ d)
append_split [] b [] d l e = (refl, e)
append_split [] b (y ∷ c) d l e = absurd (omega arith)
append_split (x ∷ a) b [] d l e = absurd (omega arith)
append_split (x ∷ a) b (y ∷ c) d l e =
    let tails : a ++ b ≡ c ++ d = cc in
    let heads : x ≡ y = cc in let rest = append_split a b c d (omega arith) tails in (cc, rest.1)

must_new_hash_inversion :
    (r : Option Bytes) (h : Hash) → must_new_hash r ≡ some h → r ≡ some h.data'
unfolding new_hash
must_new_hash_inversion none h e = cc
must_new_hash_inversion (some bs) h e = elim (Bool-cases (length bs == hash_size)) [
  | inl t ↦ ground (arith, t, e)
  | inr t ↦ ground (arith, t, e)
]

module _ (sha256 : Bytes → Bytes) where
  -- Two inputs with one digest.
  abbrev pub Collision : Type 0
  Collision = (x : Bytes) × ((y : Bytes) × ((x ≢ y) × (sha256 x ≡ sha256 y)))

  pub sha256_agree : (a b : Bytes) → sha256 a ≡ sha256 b → (a ≡ b) ⊎ Collision
  sha256_agree a b e = elim (Bool-cases (bytes_eq a b)) [
    | inl t ↦ inl (bytes_eq_sound a b t)
    | inr f ↦ inr (a, (b, ((λ q. ground (arith, f, bytes_eq_refl a, ap (bytes_eq a) q)), e)))
  ]

  pair_agree :
      (a b c d : Bytes)
      → HasHashSize a
      → HasHashSize c
      → sha256 (a ++ b) ≡ sha256 (c ++ d)
      → ((a ≡ c) × (b ≡ d)) ⊎ Collision
  pair_agree a b c d l m e = elim (sha256_agree (a ++ b) (c ++ d) e) [
    | inl q ↦ inl (append_split a b c d (omega arith) q)
    | inr k ↦ inr k
  ]

  next_level_agree :
      (xs ys : List Bytes)
      → length xs ≡ length ys
      → All HasHashSize xs
      → All HasHashSize ys
      → next_level sha256 xs ≡ next_level sha256 ys
      → (xs ≡ ys) ⊎ Collision
  unfolding next_level
  next_level_agree [] [] l h k e = inl refl
  next_level_agree [] (y ∷ ys) l h k e = absurd (omega arith)
  next_level_agree (x ∷ xs) [] l h k e = absurd (omega arith)
  next_level_agree (x ∷ []) (y ∷ []) l h k e = elim (pair_agree x x y y h.0 k.0 cc) [
    | inl q ↦ inl (ap (λ z. z ∷ []) q.0)
    | inr c ↦ inr c
  ]
  next_level_agree (x ∷ []) (y ∷ y' ∷ ys) l h k e = absurd (omega arith)
  next_level_agree (x ∷ x' ∷ xs) (y ∷ []) l h k e = absurd (omega arith)
  next_level_agree (x ∷ x' ∷ xs) (y ∷ y' ∷ ys) l h k e = elim (pair_agree x x' y y' h.0 k.0 cc) [
    | inl q ↦ elim (next_level_agree xs ys (omega arith) h.1.1 k.1.1 cc) [
      | inl r ↦ inl cc
      | inr c ↦ inr c
    ]
    | inr c ↦ inr c
  ]

  next_level-length : (xs : List Bytes) → length (next_level sha256 xs) ≤ length xs
  unfolding next_level
  next_level-length [] = omega arith
  next_level-length (x ∷ []) = omega arith
  next_level-length (x ∷ y ∷ ys) = omega (arith, next_level-length ys)

  next_level_same :
      (xs ys : List Bytes)
      → length xs ≡ length ys
      → length (next_level sha256 xs) ≡ length (next_level sha256 ys)
  unfolding next_level
  next_level_same [] [] l = refl
  next_level_same [] (y ∷ ys) l = absurd (omega arith)
  next_level_same (x ∷ xs) [] l = absurd (omega arith)
  next_level_same (x ∷ []) (y ∷ []) l = refl
  next_level_same (x ∷ []) (y ∷ y' ∷ ys) l = absurd (omega arith)
  next_level_same (x ∷ x' ∷ xs) (y ∷ []) l = absurd (omega arith)
  next_level_same (x ∷ x' ∷ xs) (y ∷ y' ∷ ys) l = ap suc (next_level_same xs ys (omega arith))

  module _ (sized : (bs : Bytes) → HasHashSize (sha256 bs)) where
    next_level-sized : (xs : List Bytes) → All HasHashSize (next_level sha256 xs)
    unfolding next_level
    next_level-sized [] = tt
    next_level-sized (x ∷ []) = (sized (x ++ x), tt)
    next_level-sized (x ∷ y ∷ rest) = (sized (x ++ y), next_level-sized rest)

    -- With fuel for the length, the loop ends with a hash.
    merkle_loop_total :
        (n : ℕ) (x : Bytes) (xs : List Bytes)
        → length xs ≤ n
        → All HasHashSize (x ∷ xs)
        → (h : Bytes) × ((merkle_loop sha256 n (x ∷ xs) ≡ some h) × HasHashSize h)
    unfolding merkle_loop next_level
    merkle_loop_total n x [] l h = (x, (refl, h.0))
    merkle_loop_total zero x (y ∷ ys) l h = absurd (omega arith)
    merkle_loop_total (suc n) x (y ∷ ys) l h =
        merkle_loop_total n (sha256 (x ++ y)) (next_level sha256 ys)
          (omega (arith, next_level-length ys)) (sized (x ++ y), next_level-sized ys)

    merkle_loop_agree :
        (n : ℕ) (xs ys : List Bytes) (h : Bytes)
        → length xs ≡ length ys
        → All HasHashSize xs
        → All HasHashSize ys
        → merkle_loop sha256 n xs ≡ some h
        → merkle_loop sha256 n ys ≡ some h
        → (xs ≡ ys) ⊎ Collision
    unfolding merkle_loop
    merkle_loop_agree n [] ys h l a b e f = cc
    merkle_loop_agree n (x ∷ xs) [] h l a b e f = cc
    merkle_loop_agree n (x ∷ []) (y ∷ []) h l a b e f = inl cc
    merkle_loop_agree n (x ∷ []) (y ∷ y' ∷ ys) h l a b e f = absurd (omega arith)
    merkle_loop_agree n (x ∷ x' ∷ xs) (y ∷ []) h l a b e f = absurd (omega arith)
    merkle_loop_agree zero (x ∷ x' ∷ xs) (y ∷ y' ∷ ys) h l a b e f = cc
    merkle_loop_agree (suc n) (x ∷ x' ∷ xs) (y ∷ y' ∷ ys) h l a b e f =
        let up = next_level sha256 (x ∷ x' ∷ xs) in
        let vp = next_level sha256 (y ∷ y' ∷ ys) in
        elim (merkle_loop_agree n up vp h (next_level_same (x ∷ x' ∷ xs) (y ∷ y' ∷ ys) l)
          (next_level-sized (x ∷ x' ∷ xs)) (next_level-sized (y ∷ y' ∷ ys)) e f) [
            | inl q ↦ next_level_agree (x ∷ x' ∷ xs) (y ∷ y' ∷ ys) l a b q
            | inr c ↦ inr c
          ]

    pub compute_merkle_root_total :
        (xs : List Bytes)
        → All HasHashSize xs
        → (h : Hash) × (compute_merkle_root sha256 xs ≡ some h)
    unfolding compute_merkle_root new_hash
    compute_merkle_root_total [] a = (_, refl)
    compute_merkle_root_total (x ∷ xs) a =
        let r = merkle_loop_total (length (x ∷ xs)) x xs (omega arith) a in
        (record { data' = r.0 }, rw r.1.0 (ground (arith, r.1.1)))

    pub compute_merkle_root_agree :
        (xs ys : List Bytes) (h : Hash)
        → length xs ≡ length ys
        → All HasHashSize xs
        → All HasHashSize ys
        → compute_merkle_root sha256 xs ≡ some h
        → compute_merkle_root sha256 ys ≡ some h
        → (xs ≡ ys) ⊎ Collision
    unfolding compute_merkle_root
    compute_merkle_root_agree [] [] h l a b e f = inl refl
    compute_merkle_root_agree [] (y ∷ ys) h l a b e f = absurd (omega arith)
    compute_merkle_root_agree (x ∷ xs) [] h l a b e f = absurd (omega arith)
    compute_merkle_root_agree (x ∷ xs) (y ∷ ys) h l a b e f =
        merkle_loop_agree (length (x ∷ xs)) (x ∷ xs) (y ∷ ys) h.data' l a b
          (must_new_hash_inversion _ h e)
          (ap (λ n. merkle_loop sha256 n (y ∷ ys)) l ∙ must_new_hash_inversion _ h f)
