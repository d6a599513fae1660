-- ===== src/PrivVal/History/NoDoubleSign.antt =====
-- No double sign: over any life of a validator, through failed writes, panics and restarts.
use leaderberry.Prelude.{
  ◌≡◌, zero, suc, get_elem?, All-get_elem?, refl, sym, ◌∙◌, ap, subst, ℕ, inl, inr, true, false,
  Option, none, some, List, [], ◌∷◌, ℤ, pos, Bytes, arith, Bool-cases, Option-cases,
}
use leaderberry.Types.Hash.{Hash, hash_equal_sound}
use leaderberry.Types.Vote.{Vote, vote_sign_bytes}
use leaderberry.PrivVal.LastSign.{
  LastSignState, empty_state, check_hrs-none, vote_step, step_proposal,
}
use leaderberry.PrivVal.FilePv.{
  Signing, Proposal, Saving, saved, lost, late, to_file, hash_bytes, read_state, save_state,
  sign_vote, sign_proposal, is_same_vote, is_same_proposal, vote_state, proposal_state, load_state,
  load_state_strict, load_from, proposal_sign_bytes,
}
use leaderberry.PrivVal.History.{
  Release, World, Event, votes, proposes, starts, starts_strict, after_answer, after_start,
  step_or_zero, step, run, new_world,
}
use leaderberry.PrivVal.History.Covering.{
  Laws, SameKey, Covers, SameHrs, Consistent, IsHashed, IsHashed-SameKey, read_back,
}
use leaderberry.PrivVal.History.Requests.{Safe, crashed, decide_sign-Safe, SameKey-refl}

module _ {Block : Type 0} (k : Signing Block) (laws : Laws k) where
  -- The hash that is kept decides whether a vote is the one signed last; a state without one has the
  -- step of a proposal, and is at no vote.
  same_vote :
      (lss : LastSignState) (chain_id : Bytes) (vote : Vote) (stp : ℤ)
      → IsHashed k lss
      → (lss.step ≡ pos 0 → lss.step ≡ stp → ⊥)
      → lss.step ≡ stp
      → is_same_vote k lss chain_id vote ≡ true
      → lss.sign_bytes_hash ≡ some (hash_bytes k (vote_sign_bytes k.crypto chain_id vote))
  unfolding is_same_vote
  same_vote lss chain_id vote stp (inl (bs, e)) no_step at same =
      e ∙ ap some (hash_equal_sound _ _ (ground (arith, e, same)))
  same_vote lss chain_id vote stp (inr (e, z, n)) no_step at same = absurd (no_step z at)

  same_proposal :
      (lss : LastSignState) (chain_id : Bytes) (p : Proposal Block)
      → IsHashed k lss
      → is_same_proposal k lss chain_id p ≡ true
      → lss.sign_bytes_hash ≡ some (hash_bytes k (proposal_sign_bytes k chain_id p))
  unfolding is_same_proposal
  same_proposal lss chain_id p (inl (bs, e)) same =
      e ∙ ap some (hash_equal_sound _ _ (ground (arith, e, same)))
  same_proposal lss chain_id p (inr (e, z, n)) same = absurd (ground (arith, e, n, same))

  memory-IsHashed : (w : World) (s : Safe k w) → w.running ≡ true → IsHashed k w.pv.last_sign_state
  memory-IsHashed w s up = IsHashed-SameKey k w.pv.last_sign_state s.current (s.memory up) s.hashed

  vote_step-nonzero : (t stp : ℤ) → vote_step t ≡ some stp → (z : ℤ) → z ≡ pos 0 → z ≡ stp → ⊥
  unfolding vote_step
  vote_step-nonzero t stp e z a b = ground arith

  sign_vote-Safe :
      (w : World) (chain_id : Bytes) (vote : Vote) (saving : Saving)
      → Safe k w
      → w.running ≡ true
      → Safe k (
          after_answer w vote.height vote.round
            (step_or_zero (vote_step vote.type'))
            (vote_sign_bytes k.crypto chain_id vote)
            (sign_vote k w.pv chain_id vote saving))
  unfolding sign_vote
  sign_vote-Safe w chain_id vote saving s up = elim (Option-cases (vote_step vote.type')) [
    | inl e ↦ rw (e, sign_vote) (unfold after_answer in crashed k laws w s)
    | inr (stp, e) ↦
        rw (e, sign_vote)
          (decide_sign-Safe k laws w s up vote.height vote.round stp
            (vote_sign_bytes k.crypto chain_id vote) (vote_state k chain_id vote stp)
            (λ sig. unfold vote_state in (refl, refl, refl)) (λ sig. unfold vote_state in refl) _ _
            saving (check_hrs-none w.pv.last_sign_state vote.height vote.round stp).0.0
            (λ c same.
              let at = (check_hrs-none w.pv.last_sign_state vote.height vote.round stp).1.0 c in
              (
                at,
                same_vote w.pv.last_sign_state chain_id vote stp (memory-IsHashed w s up)
                    (vote_step-nonzero vote.type' stp e w.pv.last_sign_state.step) at.2 same,
              )))
  ]

  sign_proposal-Safe :
      (w : World) (chain_id : Bytes) (p : Proposal Block) (saving : Saving)
      → Safe k w
      → w.running ≡ true
      → Safe k (
          after_answer w p.height p.round step_proposal
            (proposal_sign_bytes k chain_id p)
            (sign_proposal k w.pv chain_id p saving))
  unfolding sign_proposal
  sign_proposal-Safe w chain_id p saving s up =
      decide_sign-Safe k laws w s up p.height p.round step_proposal
        (proposal_sign_bytes k chain_id p) (proposal_state k chain_id p)
        (λ sig. unfold proposal_state in (refl, refl, refl)) (λ sig. unfold proposal_state in refl)
        _ _ saving (check_hrs-none w.pv.last_sign_state p.height p.round step_proposal).0.0
        (λ c same. (
          (check_hrs-none w.pv.last_sign_state p.height p.round step_proposal).1.0 c,
          same_proposal w.pv.last_sign_state chain_id p (memory-IsHashed w s up) same,
        ))

  -- A start on a state file, which loads or does not.
  load_from-Safe :
      (w : World) (bs : Bytes) (o : Option LastSignState)
      → Safe k w
      → w.running ≡ false
      → w.pv.disk ≡ some bs
      → read_state k bs ≡ o
      → Safe k (after_start w (load_from k w.pv o))
  load_from-Safe w bs none s down there e = record {
    current = s.current;
    covers = s.covers;
    hashed = s.hashed;
    consistent = s.consistent;
    memory = λ f. cc;
    on_disk = s.on_disk;
    untouched = λ f. ((s.untouched f).0, refl);
  }
  load_from-Safe w bs (some l) s down there e = record {
    current = s.current;
    covers = s.covers;
    hashed = s.hashed;
    consistent = s.consistent;
    memory = λ f. s.on_disk bs l there e;
    on_disk = s.on_disk;
    untouched = λ f. absurd (ground (arith, f, there));
  }

  empty_on_disk :
      (bs : Bytes) (l : LastSignState)
      → some (k.encode (to_file empty_state)) ≡ some bs
      → read_state k bs ≡ some l
      → SameKey l empty_state
  empty_on_disk bs l e r =
      read_back k laws empty_state l (inr (refl, refl, refl)) (ground (arith, e, r))

  -- A start without a state file: nothing has been released yet.
  save_empty-Safe :
      (w : World) (saving : Saving)
      → Safe k w
      → w.pv.disk ≡ none
      → Safe k
          (after_start w (save_state k (record (w.pv) { last_sign_state = empty_state }) saving))
  unfolding save_state
  save_empty-Safe w saved s e = record {
    current = empty_state;
    covers = subst (Covers k empty_state) (sym (s.untouched e).0) tt;
    hashed = inr (refl, refl, refl);
    consistent = s.consistent;
    memory = λ f. SameKey-refl empty_state;
    on_disk = empty_on_disk;
    untouched = λ f. cc;
  }
  save_empty-Safe w lost s e = record {
    current = s.current;
    covers = s.covers;
    hashed = s.hashed;
    consistent = s.consistent;
    memory = λ f. cc;
    on_disk = s.on_disk;
    untouched = λ f. ((s.untouched e).0, refl);
  }
  save_empty-Safe w late s e = record {
    current = empty_state;
    covers = subst (Covers k empty_state) (sym (s.untouched e).0) tt;
    hashed = inr (refl, refl, refl);
    consistent = s.consistent;
    memory = λ f. cc;
    on_disk = empty_on_disk;
    untouched = λ f. cc;
  }

  start-Safe :
      (w : World) (saving : Saving)
      → Safe k w
      → w.running ≡ false
      → Safe k (after_start w (load_state k w.pv saving))
  unfolding load_state
  start-Safe w saving s down = elim (Option-cases w.pv.disk) [
    | inl e ↦ rw (e, load_state) (save_empty-Safe w saving s e)
    | inr (bs, e) ↦ rw (e, load_state) (load_from-Safe w bs _ s down e refl)
  ]

  start_strict-Safe :
      (w : World) → Safe k w → w.running ≡ false → Safe k (after_start w (load_state_strict k w.pv))
  unfolding load_state_strict
  start_strict-Safe w s down = elim (Option-cases w.pv.disk) [
    | inl e ↦ rw (e, load_state_strict) (crashed k laws w s)
    | inr (bs, e) ↦ rw (e, load_state_strict) (load_from-Safe w bs _ s down e refl)
  ]

  step-Safe : (w : World) (e : Event Block) → Safe k w → Safe k (step k w e)
  unfolding step
  step-Safe w (votes chain_id vote saving) s = elim (Bool-cases w.running) [
    | inl up ↦ simp up (sign_vote-Safe w chain_id vote saving s up)
    | inr down ↦ simp down s
  ]
  step-Safe w (proposes chain_id p saving) s = elim (Bool-cases w.running) [
    | inl up ↦ simp up (sign_proposal-Safe w chain_id p saving s up)
    | inr down ↦ simp down s
  ]
  step-Safe w (starts saving) s = elim (Bool-cases w.running) [
    | inl up ↦ simp up s
    | inr down ↦ simp down (start-Safe w saving s down)
  ]
  step-Safe w starts_strict s = elim (Bool-cases w.running) [
    | inl up ↦ simp up s
    | inr down ↦ simp down (start_strict-Safe w s down)
  ]

  run-Safe : (w : World) (es : List (Event Block)) → Safe k w → Safe k (run k w es)
  unfolding run
  run-Safe w [] s = s
  run-Safe w (e ∷ es) s = run-Safe (step k w e) es (step-Safe w e s)

  new_world-Safe : (key : Bytes) → Safe k (new_world key)
  new_world-Safe key = record {
    current = empty_state;
    covers = tt;
    hashed = inr (refl, refl, refl);
    consistent = tt;
    memory = λ e. cc;
    on_disk = λ bs l e r. cc;
    untouched = λ e. (refl, refl);
  }

  Consistent-get_elem? :
      (log : List Release) (i j : ℕ) (a b : Release)
      → Consistent k log
      → get_elem? log i ≡ some a
      → get_elem? log j ≡ some b
      → SameHrs k a b
      → hash_bytes k a.bytes ≡ hash_bytes k b.bytes
  Consistent-get_elem? [] i j a b c e f h = cc
  Consistent-get_elem? (x ∷ xs) zero zero a b c e f h = ground (arith, e, f)
  Consistent-get_elem? (x ∷ xs) zero (suc j) a b c e f h =
      ground (arith, e, All-get_elem? _ xs j b c.0 f (ground (arith, e, h)))
  Consistent-get_elem? (x ∷ xs) (suc i) zero a b c e f h =
      ground (arith, f, All-get_elem? _ xs i a c.0 e (ground (arith, f, h)))
  Consistent-get_elem? (x ∷ xs) (suc i) (suc j) a b c e f h =
      Consistent-get_elem? xs i j a b c.1 e f h

-- Over any life of a validator that begins without a state file (votes and proposals to sign for any
-- chains, writes of the state that fail before or after the rename, panics, and restarts of either kind on
-- the file), any two signatures that it released for one height, round and step are for sign bytes with the
-- same SHA-256 sum.
pub no_double_sign :
    {Block : Type 0} (k : Signing Block) (key : Bytes) (es : List (Event Block)) (i j : ℕ)
    (a b : Release)
    → Laws k
    → get_elem? (run k (new_world key) es).released i ≡ some a
    → get_elem? (run k (new_world key) es).released j ≡ some b
    → a.height ≡ b.height
    → a.round ≡ b.round
    → a.step ≡ b.step
    → k.sha256 a.bytes ≡ k.sha256 b.bytes
unfolding hash_bytes
no_double_sign k key es i j a b laws e f h r s =
    ap (λ (x : Hash). x.data')
      (Consistent-get_elem? k laws (run k (new_world key) es).released i j a b
        (run-Safe k laws (new_world key) es (new_world-Safe k laws key)).consistent e f (h, r, s))
