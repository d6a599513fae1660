-- ===== src/Evidence/Pool/Marked.antt =====
-- The keys of committed evidence in evidence/pool.go, between one MarkCommitted and the next pruning of them.
use leaderberry.Prelude.{
  ℕ, ◌+◌, ◌≤◌, ◌≡◌, refl, ap, ◌∙◌, Bool, true, false, not, Option, none, some, List, [], ◌∷◌, ℤ,
  arith, leb, ◌==◌, length, Bytes, bytes_eq, bytes_eq_iff, lookup, bytes_key, keep_if, All,
  Bool-cases, ltb_ℤ, sub64, ◌&&◌, inl, inr,
}
use leaderberry.Evidence.Pool.{
  Pool, Config, Outside, Evidence, duplicate_evidence, is_past, past_height, evidence_key, has_key,
  prune_expired, update, add_evidence, mark_committed, max_pending_evidence,
}
use leaderberry.Evidence.Pool.Pending.{
  Change, adds, commits, updates, change, changes, lookup-mark_keys,
}

-- The committed keys that pruning keeps for a key whose height is not past.
lookup-kept :
    (key : Bytes) (test : Bytes × Bool → Bool) (m : List (Bytes × Bool))
    → ((b : Bool) → test (key, b) ≡ true)
    → lookup key m ≡ some true
    → lookup key (keep_if test m) ≡ some true
unfolding lookup
lookup-kept key test [] t h = h
lookup-kept key test ((k, b) ∷ m) t h = elim (Bool-cases (bytes_eq k key)) [
  | inl e ↦
      let kept : test (k, b) ≡ true = ap (λ n. test (n, b)) ((bytes_eq_iff k key).0 e) ∙ t b in
      rw (kept, e) (ground (arith, h, e))
  | inr e ↦ elim (Bool-cases (test (k, b))) [
    | inl f ↦ rw (f, e) (lookup-kept key test m t (ground (arith, h, e)))
    | inr f ↦ rw f (lookup-kept key test m t (ground (arith, h, e)))
  ]
]

add_evidence-committed :
    (o : Outside) (p : Pool) (ev : Option Evidence)
    → (add_evidence o p ev).0.committed ≡ p.committed
unfolding add_evidence
add_evidence-committed o p none = refl
add_evidence-committed o p (some ev) = ground arith

add_evidence-config :
    (o : Outside) (p : Pool) (ev : Option Evidence) → (add_evidence o p ev).0.config ≡ p.config
unfolding add_evidence
add_evidence-config o p none = refl
add_evidence-config o p (some ev) = ground arith

-- Whether pruning at a height drops the keys of the height scanned.
abbrev pub prunes : Config → Option ℤ → ℤ → Bool
prunes config none height = false
prunes config (some h) height = ltb_ℤ h height && ltb_ℤ config.max_age_blocks (sub64 height h)

prunes_lem :
    (p : Pool) (o : Option ℤ) (height block_time : ℤ)
    → past_height (record p { current_height = height; current_time = block_time }) o
      ≡ prunes p.config o height
unfolding is_past
prunes_lem p none height block_time = refl
prunes_lem p (some h) height block_time = refl

module _ (o : Outside) (config : Config) (key : Bytes) where
  -- The call is not an Update to a height at which the key is pruned.
  abbrev pub Spares : Change → Type 0
  Spares (adds ev) = Unit
  Spares (commits evs) = Unit
  Spares (updates height block_time) = prunes config (o.scan_height key) height ≡ false

  abbrev IsMarked : Pool → Type 0
  IsMarked p = (p.config ≡ config) × (lookup key p.committed ≡ some true)

  change-IsMarked : (p : Pool) (c : Change) → Spares c → IsMarked p → IsMarked (change o p c)
  unfolding change mark_committed update prune_expired
  change-IsMarked p (adds ev) s (same, m) =
      (add_evidence-config o p ev ∙ same, ap (lookup key) (add_evidence-committed o p ev) ∙ m)
  change-IsMarked p (commits evs) s (same, m) =
      (same, ground (arith, lookup-mark_keys o key evs p.committed, m))
  change-IsMarked p (updates height block_time) s (same, m) = (
    same,
    lookup-kept key _ p.committed
        (λ b. ap not (
          prunes_lem p (o.scan_height key) height block_time
          ∙ (ap (λ k. prunes k (o.scan_height key) height) same ∙ s)))
        m,
  )

  changes-IsMarked :
      (p : Pool) (cs : List Change) → All Spares cs → IsMarked p → IsMarked (changes o p cs)
  unfolding changes
  changes-IsMarked p [] s m = m
  changes-IsMarked p (c ∷ cs) s m =
      changes-IsMarked (change o p c) cs s.1 (change-IsMarked p c s.0 m)

-- Evidence that MarkCommitted has marked is not taken again: after any later calls of AddEvidence,
-- MarkCommitted and Update among which no Update goes to a height at which the key of the evidence is pruned,
-- AddEvidence answers that it is a duplicate, if it has data and the pool has room, and leaves the pool as
-- it was.
pub mark_committed-add_evidence :
    (o : Outside) (p : Pool) (evs : List Evidence) (cs : List Change) (ev : Evidence)
    → has_key o (evidence_key o ev) evs ≡ true
    → All (Spares o p.config (evidence_key o ev)) cs
    → (length ev.data' == 0) ≡ false
    → length (changes o (mark_committed o p evs) cs).pending + 1 ≤ 10000
    → add_evidence o (changes o (mark_committed o p evs) cs) (some ev)
      ≡ (changes o (mark_committed o p evs) cs, some duplicate_evidence)
unfolding add_evidence
mark_committed-add_evidence o p evs cs ev h spared full room =
    let now = mark_committed o p evs in
    let marked : lookup (evidence_key o ev) now.committed ≡ some true =
      unfold mark_committed in
      ground (arith, lookup-mark_keys o (evidence_key o ev) evs p.committed, h) in
    let same : now.config ≡ p.config = unfold mark_committed in refl in
    let taken = (changes-IsMarked o p.config (evidence_key o ev) now cs spared (same, marked)).1 in
    rw (full, roomy (length (changes o now cs).pending) room, taken) refl
  where
    roomy : (n : ℕ) → n + 1 ≤ 10000 → leb max_pending_evidence n ≡ false
    roomy n k = ground arith
