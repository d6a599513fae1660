-- ===== src/Engine/State/Voting/Locks.antt =====
-- When a node that is locked on a block prevotes for another one, in engine/state.go.
use leaderberry.Prelude.{
  ◌≡◌, refl, ap, sym, ◌∙◌, subst, true, Option, none, some, pos, negsuc, ◌↔◌, ◌≢◌, false,
  if◌then◌else◌, Bool, ◌≤ℤ◌, ◌<ℤ◌, arith, ◌⊎◌, inl, inr, Bool-cases,
}
use leaderberry.Types.Hash.{Hash, hash_equal, hash_equal_sound, hash_equal_refl}
use leaderberry.Types.Validator.Member.{WellFormed}
use leaderberry.PrivVal.FilePv.{Proposal, block_hash}
use leaderberry.Engine.State.{Env, State}
use leaderberry.Engine.State.Proposing.Accepting.{IsPol, validate_pol-IsPol, IsPol-validate_pol}
use leaderberry.Engine.State.Machine.Invariant.{IsProposed}
use leaderberry.Engine.State.Voting.{can_unlock, decide_prevote, unlock}

some_eq : {A : Type 0} {x y : A} → some x ≡ some y → x ≡ y
some_eq e = cc

hash_equal_ne : (a b : Hash) → hash_equal a b ≡ false → a ≢ b
hash_equal_ne a b h e = ground (arith, h, hash_equal_refl a, ap (hash_equal a) e)

ne-hash_equal : (a b : Hash) → a ≢ b → hash_equal a b ≡ false
ne-hash_equal a b h = elim (Bool-cases (hash_equal a b)) [
  | inl t ↦ absurd (h (hash_equal_sound a b t))
  | inr f ↦ f
]

-- The branches of the decision, by its two tests.
branch :
    {S : Type 0} (same open' : Bool) (s cleared after : S) (old new hash : Hash)
    → ◌≡◌ {A = S × Option Hash}
        (if same then (s, some old) else if open' then (cleared, some new) else (s, none))
        (after, some hash)
    → ((same ≡ true) × (hash ≡ old) × (after ≡ s))
      ⊎ ((same ≡ false) × (open' ≡ true) × (hash ≡ new) × (after ≡ cleared))
branch true open' s cleared after old new hash q =
    inl (refl, sym (some_eq (ap (λ x. x.1) q)), sym (ap (λ x. x.0) q))
branch false true s cleared after old new hash q =
    inr (refl, refl, sym (some_eq (ap (λ x. x.1) q)), sym (ap (λ x. x.0) q))
branch false false s cleared after old new hash q = let chosen = ap (λ x. x.1) q in cc

module _ {Block World : Type 0} (e : Env Block World) where
  -- A proposal whose votes show a quorum of prevotes for its block in a round after the lock.
  abbrev pub HasPol : State Block World → Proposal Block → Type 0
  HasPol s p =
      (pos 0 ≤ℤ p.pol_round)
      × (s.locked_round <ℤ p.pol_round)
      × (p.pol_round <ℤ p.round)
      × IsPol e s.validator_set p

  can_unlock-HasPol :
      (s : State Block World) (o : Option (Proposal Block))
      → WellFormed s.validator_set
      → can_unlock e s o ≡ true
      → (p : Proposal Block) × (o ≡ some p) × HasPol s p
  unfolding can_unlock
  can_unlock-HasPol s none w q = cc
  can_unlock-HasPol s (some p) w q =
      let pol = validate_pol-IsPol e s.validator_set p w (ground (arith, q)) in
      (p, refl, (ground (arith, q), ground (arith, q), ground (arith, q), pol))

  HasPol-can_unlock :
      (s : State Block World) (p : Proposal Block)
      → WellFormed s.validator_set
      → HasPol s p
      → can_unlock e s (some p) ≡ true
  unfolding can_unlock
  HasPol-can_unlock s p w (a, b, c, pol) =
      ground (arith, a, b, c, IsPol-validate_pol e s.validator_set p w pol)

  -- The prevote for the locked block, which the proposed one is, with the lock kept.
  abbrev pub KeepsTo : State Block World → Block → Option Block → State Block World → Hash → Type 0
  KeepsTo s locked proposed after hash =
      (b : Block) × (proposed ≡ some b)
      × (block_hash e.signing b ≡ block_hash e.signing locked)
      × (hash ≡ block_hash e.signing locked)
      × (after ≡ s)

  -- The prevote for the block of the proposal, another than the locked one, with the lock cleared.
  abbrev pub GoesOver : State Block World → Block → State Block World → Hash → Type 0
  GoesOver s locked after hash =
      (p : Proposal Block) × (s.proposal ≡ some p)
      × (block_hash e.signing p.block ≢ block_hash e.signing locked)
      × HasPol s p
      × (hash ≡ block_hash e.signing p.block)
      × (after ≡ record s { locked_round = negsuc 0; locked_block = none })

  decided :
      (s after : State Block World) (locked : Block) (proposed : Option Block) (hash : Hash)
      → WellFormed s.validator_set
      → IsProposed e s.proposal proposed
      → decide_prevote e s (some locked) proposed ≡ (after, some hash)
      → KeepsTo s locked proposed after hash ⊎ GoesOver s locked after hash
  unfolding decide_prevote
  decided s after locked none hash w same q = let chosen = ap (λ x. x.1) q in cc
  decided s after locked (some b) hash w same q =
      elim (branch (hash_equal (block_hash e.signing b) (block_hash e.signing locked))
        (can_unlock e s s.proposal) s (unlock e s) after (block_hash e.signing locked)
        (block_hash e.signing b) hash q) [
          | inl (x, names, kept) ↦ inl (b, refl, hash_equal_sound _ _ x, names, kept)
          | inr (x, y, names, cleared) ↦
              let (p, is, pol) = can_unlock-HasPol s s.proposal w y in
              let same_block : block_hash e.signing b ≡ block_hash e.signing p.block =
                ap (block_hash e.signing) (
                  sym (subst (λ (o : Option (Proposal Block)). IsProposed e o (some b)) is same)) in
              inr (
                p,
                is,
                subst (λ h. h ≢ block_hash e.signing locked) same_block (hash_equal_ne _ _ x),
                pol,
                names ∙ same_block,
                cleared,
              )
        ]

  decides :
      (s after : State Block World) (locked : Block) (proposed : Option Block) (hash : Hash)
      → WellFormed s.validator_set
      → IsProposed e s.proposal proposed
      → KeepsTo s locked proposed after hash ⊎ GoesOver s locked after hash
      → decide_prevote e s (some locked) proposed ≡ (after, some hash)
  unfolding decide_prevote
  decides s after locked proposed hash w same (inl (b, is, equal, names, kept)) =
      let equal_lem : hash_equal (block_hash e.signing b) (block_hash e.signing locked) ≡ true =
        ap (λ h. hash_equal h (block_hash e.signing locked)) equal ∙ hash_equal_refl _ in
      rw (is, equal_lem, names, kept) refl
  decides s after locked none hash w same (inr (p, is, differ, pol, names, cleared)) =
      elim (subst (λ (o : Option (Proposal Block)). IsProposed e o none) is same) [ ]
  decides s after locked (some b) hash w same (inr (p, is, differ, pol, names, cleared)) =
      let same_block : block_hash e.signing p.block ≡ block_hash e.signing b =
        ap (block_hash e.signing)
          (subst (λ (o : Option (Proposal Block)). IsProposed e o (some b)) is same) in
      let differ_lem : hash_equal (block_hash e.signing b) (block_hash e.signing locked) ≡ false =
        ne-hash_equal _ _ (subst (λ h. h ≢ block_hash e.signing locked) same_block differ) in
      let opens : can_unlock e s s.proposal ≡ true =
        ap (can_unlock e s) is ∙ HasPol-can_unlock s p w pol in
      rw (differ_lem, opens, names, cleared, same_block) refl

  pub decide_prevote_locked :
      (s after : State Block World) (locked : Block) (proposed : Option Block) (hash : Hash)
      → WellFormed s.validator_set
      → IsProposed e s.proposal proposed
      → (decide_prevote e s (some locked) proposed ≡ (after, some hash))
        ↔ (KeepsTo s locked proposed after hash ⊎ GoesOver s locked after hash)
  decide_prevote_locked s after locked proposed hash w same =
      (decided s after locked proposed hash w same, decides s after locked proposed hash w same)
