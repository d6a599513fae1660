-- ===== src/Evidence/Pool/Pending.antt =====
-- The evidence that waits for a block: none twice, none committed, at most 10,000.
use leaderberry.Prelude.{
  ◌+◌, ◌≤◌, ◌≡◌, refl, Bool, true, false, not, Option, none, some, List, [], ◌∷◌, ◌++◌, ℤ, arith,
  leb, ◌==◌, if◌then◌else◌, length, length-append, Bytes, bytes_eq, bytes_eq_iff, lookup, insert,
  lookup-insert, bytes_key, keep_if, All, All-keep_if, All-append_one, All-map, Bool-cases,
  Option-cases, inl, inr,
}
use leaderberry.Types.Hash.{copy_bytes_lem}
use leaderberry.Evidence.Pool.{
  Pool, Config, Outside, Evidence, copy_evidence, new_pool, is_expired, evidence_key, has_key,
  prune_expired, update, add_evidence, mark_keys, mark_committed, max_pending_evidence,
}

copy_evidence_lem : (ev : Evidence) → copy_evidence ev ≡ ev
unfolding copy_evidence
copy_evidence_lem ev = ground (arith, copy_bytes_lem ev.data')

module _ (o : Outside) where
  -- No two of the list have one key.
  abbrev pub NoTwice : List Evidence → Type 0
  NoTwice [] = Unit
  NoTwice (ev ∷ evs) = (has_key o (evidence_key o ev) evs ≡ false) × NoTwice evs

  abbrev pub IsNew : List (Bytes × Bool) → Evidence → Type 0
  IsNew committed ev = lookup (evidence_key o ev) committed ≡ none

  pub record IsClean (p : Pool) : Type 0 where
    pub no_twice : NoTwice p.pending
    pub not_committed : All (IsNew p.committed) p.pending
    pub few : length p.pending ≤ 10000

  has_key-append_one :
      (key : Bytes) (evs : List Evidence) (ev : Evidence)
      → has_key o key evs ≡ false
      → bytes_eq (evidence_key o ev) key ≡ false
      → has_key o key (evs ++ ev ∷ []) ≡ false
  unfolding has_key
  has_key-append_one key [] ev h k = ground arith
  has_key-append_one key (x ∷ evs) ev h k = ground (arith, has_key-append_one key evs ev, h, k)

  NoTwice-append_one :
      (evs : List Evidence) (ev : Evidence)
      → NoTwice evs
      → has_key o (evidence_key o ev) evs ≡ false
      → NoTwice (evs ++ ev ∷ [])
  unfolding has_key
  NoTwice-append_one [] ev h k = (refl, tt)
  NoTwice-append_one (x ∷ evs) ev h k = (
    has_key-append_one (evidence_key o x) evs ev h.0 (
        ground (
          arith,
          k,
          (bytes_eq_iff (evidence_key o ev) (evidence_key o x)).0,
          (bytes_eq_iff (evidence_key o x) (evidence_key o ev)).1,
        )),
    NoTwice-append_one evs ev h.1 (ground (arith, k)),
  )

  has_key-keep_if :
      (key : Bytes) (test : Evidence → Bool) (evs : List Evidence)
      → has_key o key evs ≡ false
      → has_key o key (keep_if test evs) ≡ false
  unfolding has_key
  has_key-keep_if key test [] h = h
  has_key-keep_if key test (x ∷ evs) h = ground (arith, has_key-keep_if key test evs, h)

  NoTwice-keep_if :
      (test : Evidence → Bool) (evs : List Evidence) → NoTwice evs → NoTwice (keep_if test evs)
  NoTwice-keep_if test [] h = tt
  NoTwice-keep_if test (x ∷ evs) h = elim (Bool-cases (test x)) [
    | inl e ↦ rw e (has_key-keep_if (evidence_key o x) test evs h.0, NoTwice-keep_if test evs h.1)
    | inr e ↦ rw e (NoTwice-keep_if test evs h.1)
  ]

  length-keep_if :
      (test : Evidence → Bool) (evs : List Evidence) → length (keep_if test evs) ≤ length evs
  length-keep_if test [] = omega arith
  length-keep_if test (x ∷ evs) = ground (arith, length-keep_if test evs)

  lookup-keep_if :
      (key : Bytes) (test : Bytes × Bool → Bool) (m : List (Bytes × Bool))
      → lookup key m ≡ none
      → lookup key (keep_if test m) ≡ none
  unfolding lookup
  lookup-keep_if key test [] h = h
  lookup-keep_if key test ((k, b) ∷ m) h = ground (arith, lookup-keep_if key test m, h)

  pub lookup-mark_keys :
      (key : Bytes) (evs : List Evidence) (m : List (Bytes × Bool))
      → lookup key (mark_keys o evs m) ≡ (if has_key o key evs then some true else lookup key m)
  unfolding mark_keys has_key
  lookup-mark_keys key [] m = refl
  lookup-mark_keys key (ev ∷ evs) m = ground (
    arith,
    lookup-mark_keys key evs (insert (evidence_key o ev) true m),
    lookup-insert (evidence_key o ev) key true m,
  )

  new_pool-IsClean : (config : Config) → IsClean (new_pool config)
  unfolding new_pool
  new_pool-IsClean config = record { no_twice = tt; not_committed = tt; few = omega arith }

  appended-IsClean :
      (p : Pool) (ev : Evidence)
      → IsClean p
      → has_key o (evidence_key o ev) p.pending ≡ false
      → IsNew p.committed ev
      → length p.pending + 1 ≤ 10000
      → IsClean (record p { pending = p.pending ++ copy_evidence ev ∷ [] })
  appended-IsClean p ev w h n room = rw (copy_evidence_lem ev) (record {
    no_twice = NoTwice-append_one p.pending ev w.no_twice h;
    not_committed = All-append_one (IsNew p.committed) p.pending ev w.not_committed n;
    few = omega (arith, room, length-append p.pending (ev ∷ []));
  })

  pub add_evidence-IsClean :
      (p : Pool) (ev : Option Evidence) → IsClean p → IsClean (add_evidence o p ev).0
  unfolding add_evidence
  add_evidence-IsClean p none w = w
  add_evidence-IsClean p (some ev) w = elim (Bool-cases (length ev.data' == 0)) [
    | inl e ↦ rw e w
    | inr e ↦ rw e (elim (Bool-cases (leb max_pending_evidence (length p.pending))) [
      | inl f ↦ rw f w
      | inr f ↦ rw f (elim (Option-cases (lookup (evidence_key o ev) p.committed)) [
        | inr (b, g) ↦ rw g w
        | inl g ↦ rw g (elim (Bool-cases (has_key o (evidence_key o ev) p.pending)) [
          | inl h ↦ rw h w
          | inr h ↦ rw h (elim (Bool-cases (is_expired p ev)) [
            | inl x ↦ rw x w
            | inr x ↦ rw x (appended-IsClean p ev w h g (ground (arith, f)))
          ])
        ])
      ])
    ])
  ]

  kept-IsNew :
      (evs pending : List Evidence) (committed : List (Bytes × Bool))
      → All (IsNew committed) pending
      → All
          (IsNew (mark_keys o evs committed))
          (keep_if (λ ev. not (has_key o (evidence_key o ev) evs)) pending)
  kept-IsNew evs [] committed h = tt
  kept-IsNew evs (x ∷ pending) committed h = elim (Bool-cases (has_key o (evidence_key o x) evs)) [
    | inl e ↦ rw e (kept-IsNew evs pending committed h.1)
    | inr e ↦ rw e (
      ground (arith, lookup-mark_keys (evidence_key o x) evs committed, e, h.0),
      kept-IsNew evs pending committed h.1,
    )
  ]

  pub mark_committed-IsClean :
      (p : Pool) (evs : List Evidence) → IsClean p → IsClean (mark_committed o p evs)
  unfolding mark_committed
  mark_committed-IsClean p evs w = record {
    no_twice = NoTwice-keep_if _ p.pending w.no_twice;
    not_committed = kept-IsNew evs p.pending p.committed w.not_committed;
    few =
        omega
          (arith, w.few, length-keep_if (λ ev. not (has_key o (evidence_key o ev) evs)) p.pending);
  }

  pub update-IsClean :
      (p : Pool) (height block_time : ℤ) → IsClean p → IsClean (update o p height block_time)
  unfolding update prune_expired
  update-IsClean p height block_time w = record {
    no_twice = NoTwice-keep_if _ p.pending w.no_twice;
    not_committed = All-keep_if _ _ p.pending (
        All-map (IsNew p.committed) _ p.pending
          (λ ev n. lookup-keep_if (evidence_key o ev) _ p.committed n) w.not_committed);
    few = omega (
      arith,
      w.few,
      length-keep_if
          (λ ev.
            not (is_expired (record p { current_height = height; current_time = block_time }) ev))
          p.pending,
    );
  }

-- The calls of a pool that change what waits.
pub data Change : Type 0 where
  adds : Option Evidence → Change
  commits : List Evidence → Change
  updates : ℤ → ℤ → Change

module _ (o : Outside) where
  unfoldable pub change : Pool → Change → Pool
  change p (adds ev) = (add_evidence o p ev).0
  change p (commits evs) = mark_committed o p evs
  change p (updates height block_time) = update o p height block_time

  unfoldable pub changes : Pool → List Change → Pool
  changes p [] = p
  changes p (c ∷ cs) = changes (change p c) cs

change-IsClean : (o : Outside) (p : Pool) (c : Change) → IsClean o p → IsClean o (change o p c)
unfolding change
change-IsClean o p (adds ev) w = add_evidence-IsClean o p ev w
change-IsClean o p (commits evs) w = mark_committed-IsClean o p evs w
change-IsClean o p (updates height block_time) w = update-IsClean o p height block_time w

changes-keep :
    (o : Outside) (p : Pool) (cs : List Change) → IsClean o p → IsClean o (changes o p cs)
unfolding changes
changes-keep o p [] w = w
changes-keep o p (c ∷ cs) w = changes-keep o (change o p c) cs (change-IsClean o p c w)

-- After any calls of AddEvidence, MarkCommitted and Update on a new pool, no two pieces of pending evidence
-- have one key, none has a committed key, and at most 10,000 are pending.
pub changes-IsClean :
    (o : Outside) (config : Config) (cs : List Change) → IsClean o (changes o (new_pool config) cs)
changes-IsClean o config cs = changes-keep o (new_pool config) cs (new_pool-IsClean o config)
