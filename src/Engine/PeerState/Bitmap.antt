-- ===== src/Engine/PeerState/Bitmap.antt =====
-- The vote bitmap of engine/peer_state.go is a set of the indices below its size, and counts them.
use leaderberry.Prelude.{
  ℕ, zero, suc, ◌+◌, ◌*◌, ◌/◌, ◌%◌, ◌≤◌, ◌<◌, ◌≡◌, refl, ap, ◌∙◌, Bool, false, ◌&&◌, ◌||◌, Option,
  none, some, List, [], ◌∷◌, ltb, leb, ◌==◌, ==_iff, if◌then◌else◌, get_or, set, length, length-set,
  length-replicate, with_bit, bit_of, mark_bit, bit_of-mark_bit, bit_of-replicate, test_bit_zero,
  arith, inl, inr, Bool-cases,
}
use leaderberry.Types.Validator.{ValidatorSet, size}
use leaderberry.Engine.PeerState.{
  VoteBitmap, new_vote_bitmap, has_unlocked, set_vote, has, missing_from, missing,
}

abbrev pub count_below : (ℕ → Bool) → ℕ → ℕ
count_below p zero = 0
count_below p (suc n) = (if p n then 1 else 0) + count_below p n

count_below_eq :
    (p q : ℕ → Bool) (n : ℕ) → ((i : ℕ) → i < n → p i ≡ q i) → count_below p n ≡ count_below q n
count_below_eq p q zero h = refl
count_below_eq p q (suc n) h =
    ground (arith, h n (omega arith), count_below_eq p q n (λ i l. h i (omega arith)))

count_below_join :
    (p q : ℕ → Bool) (k n : ℕ)
    → k < n
    → p k ≡ false
    → ((i : ℕ) → q i ≡ (k == i || p i))
    → count_below q n ≡ count_below p n + 1
count_below_join p q k zero l f h = absurd (omega arith)
count_below_join p q k (suc n) l f h = elim (Bool-cases (k == n)) [
  | inl e ↦ ground (arith, e, h n, f, count_below_eq p q n (λ i l'. ground (arith, h i, e)))
  | inr e ↦ ground (arith, e, h n, count_below_join p q k n (ground (arith, e)) f h)
]

-- The words reach for every index, indices are uint16 values, and `count` is the number of bits set.
pub record IsSized (vb : VoteBitmap) : Type 0 where
  pub reached : vb.num_vals ≤ 64 * length vb.bits
  pub small : vb.num_vals ≤ 65536
  pub counted : vb.count ≡ count_below (has_unlocked vb) vb.num_vals

-- The bits after the word of an index has been written.
has_unlocked-written :
    (vb : VoteBitmap) (count i j : ℕ)
    → i / 64 < length vb.bits
    → has_unlocked
        (record vb {
          bits = set vb.bits (i / 64) (with_bit (get_or vb.bits (i / 64) 0) (i % 64));
          count = count;
        })
        j
      ≡ (i == j || has_unlocked vb j)
unfolding has_unlocked bit_of mark_bit
has_unlocked-written vb count i j l = bit_of-mark_bit vb.bits i j l

module _ (vb : VoteBitmap) (w : IsSized vb) where
  reaches : (i : ℕ) → i < vb.num_vals → i / 64 < length vb.bits
  reaches i l = omega (arith, w.reached)

  -- Set on an index marks exactly that index, if it is below the size.
  pub has-set_vote : (i j : ℕ) → has (set_vote vb i) j ≡ (has vb j || (i == j && ltb i vb.num_vals))
  unfolding set_vote has
  has-set_vote i j = elim (Bool-cases (leb vb.num_vals i)) [
    | inl e ↦ rw e (ground (arith, e))
    | inr e ↦ rw e (elim (Bool-cases (has_unlocked vb i)) [
      | inl f ↦ rw f (elim (Bool-cases (i == j)) [
        | inl q ↦ ground (arith, e, f, q, ap (has_unlocked vb) ((==_iff i j).0 q))
        | inr q ↦ ground (arith, q)
      ])
      | inr f ↦ rw f (
          ground
            (arith, e, has_unlocked-written vb (vb.count + 1) i j (reaches i (ground (arith, e)))))
    ])
  ]

  pub set_vote-IsSized : (i : ℕ) → IsSized (set_vote vb i)
  unfolding set_vote
  set_vote-IsSized i = elim (Bool-cases (leb vb.num_vals i)) [
    | inl e ↦ rw e w
    | inr e ↦ rw e (elim (Bool-cases (has_unlocked vb i)) [
      | inl f ↦ rw f w
      | inr f ↦ rw f (record {
        reached = omega (
          arith,
          w.reached,
          length-set vb.bits (i / 64) (with_bit (get_or vb.bits (i / 64) 0) (i % 64)),
        );
        small = w.small;
        counted = omega (
          arith,
          w.counted,
          count_below_join (has_unlocked vb) _ i vb.num_vals (ground (arith, e)) f
              (λ j. has_unlocked-written vb (vb.count + 1) i j (reaches i (ground (arith, e)))),
        );
      })
    ])
  ]

new_vote_bitmap-has_unlocked :
    (vals : Option ValidatorSet) (j : ℕ) → has_unlocked (new_vote_bitmap vals) j ≡ false
unfolding new_vote_bitmap has_unlocked bit_of
new_vote_bitmap-has_unlocked none j = test_bit_zero (j % 64)
new_vote_bitmap-has_unlocked (some vals) j = bit_of-replicate ((size vals + 63) / 64) j

count_below_none : (p : ℕ → Bool) (n : ℕ) → ((i : ℕ) → p i ≡ false) → count_below p n ≡ 0
count_below_none p zero h = refl
count_below_none p (suc n) h = ground (arith, h n, count_below_none p n h)

pub new_vote_bitmap-IsSized :
    (vals : ValidatorSet) → size vals ≤ 65535 → IsSized (new_vote_bitmap (some vals))
new_vote_bitmap-IsSized vals h = record {
  reached =
      unfold new_vote_bitmap in omega (arith, length-replicate {A = ℕ} ((size vals + 63) / 64) 0);
  small = unfold new_vote_bitmap in omega arith;
  counted =
      let empty =
        count_below_none (has_unlocked (new_vote_bitmap (some vals)))
          (new_vote_bitmap (some vals)).num_vals (new_vote_bitmap-has_unlocked (some vals)) in
      unfold new_vote_bitmap in omega (arith, empty);
}

-- The marks of a list of indices, set one after the other.
abbrev pub set_all : VoteBitmap → List ℕ → VoteBitmap
set_all vb [] = vb
set_all vb (i ∷ is) = set_all (set_vote vb i) is

abbrev pub contains : List ℕ → ℕ → Bool
contains [] j = false
contains (i ∷ is) j = i == j || contains is j

set_vote-num_vals : (vb : VoteBitmap) (i : ℕ) → (set_vote vb i).num_vals ≡ vb.num_vals
unfolding set_vote
set_vote-num_vals vb i = ground arith

has-set_all :
    (vb : VoteBitmap) (is : List ℕ) (j : ℕ)
    → IsSized vb
    → has (set_all vb is) j ≡ (has vb j || (contains is j && ltb j vb.num_vals))
has-set_all vb [] j w = ground arith
has-set_all vb (i ∷ is) j w =
    has-set_all (set_vote vb i) is j (set_vote-IsSized vb w i)
    ∙ ground (arith, has-set_vote vb w i j, set_vote-num_vals vb i, ==_iff i j)

pub set_all-IsSized : (vb : VoteBitmap) (is : List ℕ) → IsSized vb → IsSized (set_all vb is)
set_all-IsSized vb [] w = w
set_all-IsSized vb (i ∷ is) w = set_all-IsSized (set_vote vb i) is (set_vote-IsSized vb w i)

missing_from-length :
    (vb : VoteBitmap) (i n : ℕ)
    → i + n ≤ 65536
    → length (missing_from vb i n) + count_below (has_unlocked vb) (i + n)
      ≡ n + count_below (has_unlocked vb) i
unfolding missing_from
missing_from-length vb i zero h =
    let here : i + 0 ≡ i = omega arith in omega (arith, ap (count_below (has_unlocked vb)) here)
missing_from-length vb i (suc n) h =
    let next : i + suc n ≡ suc i + n = omega arith in
    let same : i % 65536 ≡ i = omega arith in
    ground (
      arith,
      missing_from-length vb (suc i) n (omega arith),
      ap (count_below (has_unlocked vb)) next,
      ap (has_unlocked vb) same,
    )

missing-count : (vb : VoteBitmap) → IsSized vb → length (missing vb) + vb.count ≡ vb.num_vals
unfolding missing
missing-count vb w =
    let zero_and : 0 + vb.num_vals ≡ vb.num_vals = omega arith in
    omega (
      arith,
      missing_from-length vb 0 vb.num_vals (omega (arith, w.small)),
      ap (count_below (has_unlocked vb)) zero_and,
      w.counted,
    )

set_all-num_vals : (vb : VoteBitmap) (is : List ℕ) → (set_all vb is).num_vals ≡ vb.num_vals
set_all-num_vals vb [] = refl
set_all-num_vals vb (i ∷ is) = set_all-num_vals (set_vote vb i) is ∙ set_vote-num_vals vb i

-- After any calls of Set on a new bitmap for a validator set of at most 65535 validators, Has answers true
-- exactly for the indices that were given and are below the size of the set, and Missing lists as many
-- indices as the size less Count.
pub set_all-contains :
    (vals : ValidatorSet) (is : List ℕ) (j : ℕ)
    → size vals ≤ 65535
    → let vb = set_all (new_vote_bitmap (some vals)) is in
      (has vb j ≡ (contains is j && ltb j (size vals)))
      × (length (missing vb) + vb.count ≡ size vals)
set_all-contains vals is j h =
    let w = new_vote_bitmap-IsSized vals h in
    let new = new_vote_bitmap (some vals) in
    let nothing_yet : has new j ≡ false =
      unfold has in ground (arith, new_vote_bitmap-has_unlocked (some vals) j) in
    let same : new.num_vals ≡ size vals = unfold new_vote_bitmap in refl in
    (
      has-set_all new is j w ∙ ground (arith, same, nothing_yet),
      missing-count (set_all new is) (set_all-IsSized new is w) ∙ (set_all-num_vals new is ∙ same),
    )
