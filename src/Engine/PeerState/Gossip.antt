-- ===== src/Engine/PeerState/Gossip.antt =====
-- Which votes a node takes a peer to need, by engine/peer_state.go, after a vote was marked.
use leaderberry.Prelude.{
  ℕ, ◌<◌, ◌≡◌, refl, sym, ◌∙◌, ap, Bool, true, false, not, ◌&&◌, ◌||◌, ℤ, eqb_ℤ, eqb_ℤ_iff, ◌==◌,
  if◌then◌else◌, arith, Bool-cases, inl, inr,
}
use leaderberry.Types.Vote.{Vote, vote_type_prevote, vote_type_precommit}
use leaderberry.Engine.PeerState.{
  VoteBitmap, PeerState, PeerRoundState, wants, wants_at, has, set_vote, mark_vote, set_has_vote,
  needs_vote,
}
use leaderberry.Engine.PeerState.Bitmap.{IsSized, has-set_vote}

-- Two votes of one validator, at one height and round and of one type.
abbrev pub same_slot : Vote → Vote → Bool
same_slot a b =
    eqb_ℤ a.height b.height
    && (eqb_ℤ a.round b.round && (eqb_ℤ a.type' b.type' && a.validator_index == b.validator_index))

has-set_vote_in :
    (vb : VoteBitmap) (i j : ℕ)
    → IsSized vb
    → i < vb.num_vals
    → not (has (set_vote vb i) j) ≡ (not (has vb j) && not (i == j))
has-set_vote_in vb i j w l = ground (arith, has-set_vote vb w i j)

abbrev same_kind : Vote → Vote → Bool
same_kind a b = eqb_ℤ a.type' b.type' && a.validator_index == b.validator_index

module _ (prs : PeerRoundState) (vote other : Vote) (wp : IsSized prs.prevotes)
    (wc : IsSized prs.precommits) (lp : vote.validator_index < prs.prevotes.num_vals)
    (lc : vote.validator_index < prs.precommits.num_vals) where
  wants-mark_prevote :
      eqb_ℤ vote.type' vote_type_prevote ≡ true
      → wants (mark_vote prs vote) other ≡ (wants prs other && not (same_kind vote other))
  wants-mark_prevote e =
      ground
        (arith, e, has-set_vote_in prs.prevotes vote.validator_index other.validator_index wp lp)

  wants-mark_precommit :
      eqb_ℤ vote.type' vote_type_prevote ≡ false
      → eqb_ℤ vote.type' vote_type_precommit ≡ true
      → wants (mark_vote prs vote) other ≡ (wants prs other && not (same_kind vote other))
  wants-mark_precommit e f =
      ground (
        arith,
        e,
        f,
        has-set_vote_in prs.precommits vote.validator_index other.validator_index wc lc,
      )

  wants-mark_other :
      eqb_ℤ vote.type' vote_type_prevote ≡ false
      → eqb_ℤ vote.type' vote_type_precommit ≡ false
      → wants (mark_vote prs vote) other ≡ (wants prs other && not (same_kind vote other))
  wants-mark_other e f = ground (arith, e, f)

  wants-mark_vote :
      wants (mark_vote prs vote) other ≡ (wants prs other && not (same_kind vote other))
  wants-mark_vote = elim (Bool-cases (eqb_ℤ vote.type' vote_type_prevote)) [
    | inl e ↦ wants-mark_prevote e
    | inr e ↦ elim (Bool-cases (eqb_ℤ vote.type' vote_type_precommit)) [
      | inl f ↦ wants-mark_precommit e f
      | inr f ↦ wants-mark_other e f
    ]
  ]

set_has_vote-prs :
    (now : ℤ) (ps : PeerState) (vote : Vote)
    → (set_has_vote now ps vote).prs ≡ (
        if eqb_ℤ vote.height ps.prs.height && eqb_ℤ vote.round ps.prs.round
        then mark_vote ps.prs vote
        else ps.prs)
unfolding set_has_vote
set_has_vote-prs now ps vote = ground arith

mark_vote-round :
    (prs : PeerRoundState) (vote : Vote)
    → ((mark_vote prs vote).height ≡ prs.height) × ((mark_vote prs vote).round ≡ prs.round)
mark_vote-round prs vote = (ground arith, ground arith)

eqb_ℤ_sym : (a b : ℤ) → eqb_ℤ a b ≡ eqb_ℤ b a
eqb_ℤ_sym a b = ground arith

guarded_here :
    (u v x k : Bool)
    → (if not u || not v then false else (x && not k))
      ≡ ((if not u || not v then false else x) && not (u && (v && k)))
guarded_here true true x k = refl
guarded_here true false x k = refl
guarded_here false v x k = refl

guarded_elsewhere :
    (u v x k a b : Bool)
    → (u ≡ true → v ≡ true → a && b ≡ false)
    → (if not u || not v then false else x)
      ≡ ((if not u || not v then false else x) && not (a && (b && k)))
guarded_elsewhere true true x k a b h = ground (arith, h refl refl)
guarded_elsewhere true false x k a b h = refl
guarded_elsewhere false v x k a b h = refl

module _ (vote other : Vote) (height round : ℤ) (x : Bool) where
  marked_here :
      (eqb_ℤ vote.height height && eqb_ℤ vote.round round) ≡ true
      → wants_at height round (x && not (same_kind vote other)) other
        ≡ (wants_at height round x other && not (same_slot vote other))
  marked_here h =
      let is_height : vote.height ≡ height = ground (arith, h, eqb_ℤ_iff vote.height height) in
      let is_round : vote.round ≡ round = ground (arith, h, eqb_ℤ_iff vote.round round) in
      guarded_here (eqb_ℤ other.height height) (eqb_ℤ other.round round) x (same_kind vote other)
      ∙ (ap
            (λ u.
              wants_at height round x other
              && not (u && (eqb_ℤ other.round round && same_kind vote other)))
            (eqb_ℤ_sym other.height height ∙ ap (λ z. eqb_ℤ z other.height) (sym is_height))
          ∙ ap
              (λ v.
                wants_at height round x other
                && not (eqb_ℤ vote.height other.height && (v && same_kind vote other)))
              (eqb_ℤ_sym other.round round ∙ ap (λ z. eqb_ℤ z other.round) (sym is_round)))

  marked_elsewhere :
      (eqb_ℤ vote.height height && eqb_ℤ vote.round round) ≡ false
      → wants_at height round x other
        ≡ (wants_at height round x other && not (same_slot vote other))
  marked_elsewhere h =
      guarded_elsewhere (eqb_ℤ other.height height) (eqb_ℤ other.round round) x
        (same_kind vote other) (eqb_ℤ vote.height other.height) (eqb_ℤ vote.round other.round)
        λ p q.
          ap (λ z. eqb_ℤ vote.height z && eqb_ℤ vote.round other.round)
            ((eqb_ℤ_iff other.height height).0 p)
          ∙ (ap (λ z. eqb_ℤ vote.height height && eqb_ℤ vote.round z)
                ((eqb_ℤ_iff other.round round).0 q)
              ∙ h)

-- After SetHasVote with a vote whose index is below the size of the bitmaps, NeedsVote answers true for
-- the votes for which it did, but for those at the height, the round, the type and the index of that vote.
pub needs_vote-set_has_vote :
    (now : ℤ) (ps : PeerState) (vote other : Vote)
    → IsSized ps.prs.prevotes
    → IsSized ps.prs.precommits
    → vote.validator_index < ps.prs.prevotes.num_vals
    → vote.validator_index < ps.prs.precommits.num_vals
    → needs_vote (set_has_vote now ps vote) other
      ≡ (needs_vote ps other && not (same_slot vote other))
unfolding needs_vote set_has_vote
needs_vote-set_has_vote now ps vote other wp wc lp lc =
    ap (λ prs. wants_at prs.height prs.round (wants prs other) other) (set_has_vote-prs now ps vote)
    ∙ (elim (Bool-cases (eqb_ℤ vote.height ps.prs.height && eqb_ℤ vote.round ps.prs.round)) [
      | inl e ↦
          let (h, r) = mark_vote-round ps.prs vote in
          rw (e, h, r, wants-mark_vote ps.prs vote other wp wc lp lc)
            (marked_here vote other ps.prs.height ps.prs.round (wants ps.prs other) e)
      | inr e ↦ rw e (marked_elsewhere vote other ps.prs.height ps.prs.round (wants ps.prs other) e)
    ])
