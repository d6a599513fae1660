-- ===== src/Types/BlockParts/Adding.antt =====
-- AddPart of types/block_parts.go: what a part set holds after it, and its data.
use leaderberry.Prelude.{
  ◌≡◌, refl, sym, ap, ◌∙◌, ◌⊎◌, inl, inr, ℕ, zero, suc, ◌+◌, ◌/◌, ◌≤◌, ◌<◌, Bool-cases, ◌==◌,
  ==_iff, leb, ltb, false, Option, none, some, List, [], ◌∷◌, length, length-set, length-replicate,
  get_or, set, replicate, is_some, All, Bytes, bit_of, bit_of-replicate, arith,
}
use leaderberry.Types.Hash.{hash_equal, hash_equal_sound}
use leaderberry.Types.BlockParts.{
  BlockPart, BlockPartSetHeader, PartSet, PartError, nil_part, invalid_index, part_too_large,
  already_has, invalid_proof, hash_mismatch, max_block_parts, new_part_set_from_header,
  has_part_unlocked, all_parts, join_bytes, compute_merkle_root, part_hashes, assemble_data,
  store_part, place_part, add_part, verify_merkle_proof, block_part_size,
}
use leaderberry.Types.BlockParts.Merkle.{HasHashSize, compute_merkle_root_total}
use leaderberry.Types.BlockParts.Filling.{
  present, present-le, present-set, all_parts_total, present_all, IsFilled, place_part-IsFilled,
  with_data-IsFilled,
}

module _ (sha256 : Bytes → Bytes) where
  -- The data are those of all the parts, whose hashes have the set's Merkle root.
  pub record Assembled (ps : PartSet) : Type 0 where
    pub all : List BlockPart
    pub held : all_parts ps.parts ≡ some all
    pub joined : ps.data' ≡ some (join_bytes all)
    pub rooted : compute_merkle_root sha256 (part_hashes sha256 all) ≡ some ps.hash

  pub record IsSound (ps : PartSet) : Type 0 where
    pub filled : IsFilled ps
    pub kept : (ps.data' ≡ none) ⊎ Assembled ps

  -- A return with a sound set of the same header.
  abbrev pub Answers : PartSet → Option (Option PartError × PartSet) → Type 0
  Answers ps o =
      (r : Option PartError × PartSet) × ((o ≡ some r)
        × (IsSound r.1 × ((r.1.hash ≡ ps.hash) × (r.1.total ≡ ps.total))))

  unchanged : (ps : PartSet) (e : PartError) → IsSound ps → Answers ps (some (some e, ps))
  unchanged ps e w = ((some e, ps), (refl, (w, (refl, refl))))

  place_part-IsUnassembled :
      (ps : PartSet) (p : BlockPart)
      → IsSound ps
      → p.index < ps.total
      → bit_of ps.parts_bits p.index ≡ false
      → (place_part ps p).data' ≡ none
  unfolding place_part
  place_part-IsUnassembled ps p w l e = elim w.kept [
    | inl n ↦ n
    | inr a ↦
        let f = w.filled in
        let more =
          present-set ps.parts p.index p (omega (arith, f.sized)) (sym (f.marked p.index l) ∙ e) in
        absurd (
          omega (
            arith,
            more,
            present-le (set ps.parts p.index (some p)),
            length-set ps.parts p.index (some p),
            (present_all ps.parts a.all a.held).0,
          ))
  ]

  module _ (sized : (bs : Bytes) → HasHashSize (sha256 bs)) where
    pub part_hashes-sized : (qs : List BlockPart) → All HasHashSize (part_hashes sha256 qs)
    part_hashes-sized [] = tt
    part_hashes-sized (q ∷ qs) = (sized q.bytes, part_hashes-sized qs)

    -- A full set is assembled, or its data are dropped.
    assemble_data-IsSound :
        (ps : PartSet)
        → IsFilled ps
        → ps.parts_count ≡ ps.total
        → Answers ps (assemble_data sha256 ps)
    unfolding assemble_data
    assemble_data-IsSound ps w e =
        let qs = all_parts_total ps.parts (sym w.counted ∙ (e ∙ sym w.sized)) in
        let root =
          compute_merkle_root_total sha256 sized (part_hashes sha256 qs.0)
            (part_hashes-sized qs.0) in
        rw qs.1 (
          rw root.1 (elim (Bool-cases (hash_equal root.0 ps.hash)) [
            | inl t ↦ rw t (
              (none, record ps { data' = some (join_bytes qs.0) }),
              (
                refl,
                (
                  record {
                    filled = with_data-IsFilled ps (some (join_bytes qs.0)) w;
                    kept = inr (record {
                      all = qs.0;
                      held = qs.1;
                      joined = refl;
                      rooted = root.1 ∙ ap some (hash_equal_sound root.0 ps.hash t);
                    });
                  },
                  (refl, refl),
                ),
              ),
            )
            | inr t ↦ rw t (
              (some hash_mismatch, record ps { data' = none }),
              (
                refl,
                (record { filled = with_data-IsFilled ps none w; kept = inl refl }, (refl, refl)),
              ),
            )
          ]))

    store_part-IsSound :
        (ps : PartSet) → IsFilled ps → ps.data' ≡ none → Answers ps (store_part sha256 ps)
    store_part-IsSound ps w n = elim (Bool-cases (ps.parts_count == ps.total)) [
      | inl t ↦ rw t (assemble_data-IsSound ps w ((==_iff ps.parts_count ps.total).0 t))
      | inr t ↦ rw t ((none, ps), (refl, (record { filled = w; kept = inl n }, (refl, refl))))
    ]

    placed-IsSound :
        (ps : PartSet) (p : BlockPart)
        → IsSound ps
        → p.index < ps.total
        → bit_of ps.parts_bits p.index ≡ false
        → Answers ps (store_part sha256 (place_part ps p))
    unfolding place_part
    placed-IsSound ps p w l e =
        store_part-IsSound (place_part ps p) (place_part-IsFilled ps p w.filled l e)
          (place_part-IsUnassembled ps p w l e)

    -- AddPart returns, and keeps a sound set sound and its header.
    add_part-IsSound :
        (ps : PartSet) (part : Option BlockPart) → IsSound ps → Answers ps (add_part sha256 ps part)
    unfolding add_part has_part_unlocked
    add_part-IsSound ps none w = unchanged ps nil_part w
    add_part-IsSound ps (some p) w = elim (Bool-cases (leb ps.total p.index)) [
      | inl t ↦ rw t (unchanged ps invalid_index w)
      | inr t ↦ rw t (elim (Bool-cases (ltb block_part_size (length p.bytes))) [
        | inl u ↦ rw u (unchanged ps part_too_large w)
        | inr u ↦ rw u (elim (Bool-cases (bit_of ps.parts_bits p.index)) [
          | inl v ↦ rw v (unchanged ps already_has w)
          | inr v ↦
              rw v
                (elim (Bool-cases (
                  verify_merkle_proof sha256 (record { data' = sha256 p.bytes }) p.index
                    p.proof_path ps.hash)) [
                      | inl x ↦ rw x (placed-IsSound ps p w (ground (arith, t)) v)
                      | inr x ↦ rw x (unchanged ps invalid_proof w)
                    ])
        ])
      ])
    ]

-- The set that a call leaves, if it returns.
abbrev pub set_after : Option (Option PartError × PartSet) → Option PartSet
set_after none = none
set_after (some r) = some r.1

abbrev add_next : (Bytes → Bytes) → Option PartSet → Option BlockPart → Option PartSet
add_next sha256 none part = none
add_next sha256 (some ps) part = set_after (add_part sha256 ps part)

-- The set after calls of AddPart, one after the other, with whatever each answers.
abbrev pub add_parts : (Bytes → Bytes) → Option PartSet → List (Option BlockPart) → Option PartSet
add_parts sha256 o [] = o
add_parts sha256 o (part ∷ rest) = add_parts sha256 (add_next sha256 o part) rest

module _ (sha256 : Bytes → Bytes) (sized : (bs : Bytes) → HasHashSize (sha256 bs)) where
  add_parts-IsSound :
      (ps : PartSet) (parts : List (Option BlockPart))
      → IsSound sha256 ps
      → (ps' : PartSet) × ((add_parts sha256 (some ps) parts ≡ some ps')
          × (IsSound sha256 ps' × ((ps'.hash ≡ ps.hash) × (ps'.total ≡ ps.total))))
  add_parts-IsSound ps [] w = (ps, (refl, (w, (refl, refl))))
  add_parts-IsSound ps (part ∷ rest) w =
      let now = add_part-IsSound sha256 sized ps part w in
      let later = add_parts-IsSound now.0.1 rest now.1.1.0 in
      (
        later.0,
        (
          ap (λ o. add_parts sha256 (set_after o) rest) now.1.0 ∙ later.1.0,
          (later.1.1.0, (later.1.1.1.0 ∙ now.1.1.1.0, later.1.1.1.1 ∙ now.1.1.1.1)),
        ),
      )

  present-replicate : (n : ℕ) → present (replicate n none) ≡ 0
  present-replicate zero = refl
  present-replicate (suc n) = present-replicate n

  get_or-replicate : (n i : ℕ) → get_or (replicate {A = Option BlockPart} n none) i none ≡ none
  get_or-replicate zero i = refl
  get_or-replicate (suc n) zero = refl
  get_or-replicate (suc n) (suc i) = get_or-replicate n i

  -- With digests of 32 bytes: from a header of at most 1024 parts, a part set is made, and any calls of
  -- AddPart return and leave a set with that header whose bitmap marks exactly the parts that it holds, whose
  -- count is their number, and whose data, if it has any, are those of all its parts, whose hashes have the
  -- header's Merkle root.
  pub add_parts_total :
      (header : BlockPartSetHeader) (parts : List (Option BlockPart))
      → header.total ≤ max_block_parts
      → (ps : PartSet) × ((add_parts sha256 (new_part_set_from_header header) parts ≡ some ps)
          × (IsSound sha256 ps × ((ps.hash ≡ header.hash) × (ps.total ≡ header.total))))
  unfolding new_part_set_from_header
  add_parts_total header parts l =
      let few : ltb max_block_parts header.total ≡ false = ground arith in
      rw few (
        add_parts-IsSound _ parts (record {
          filled = record {
            sized = length-replicate {A = Option BlockPart} header.total none;
            small = l;
            reached = omega (arith, length-replicate {A = ℕ} ((header.total + 63) / 64) 0);
            marked = λ i k.
                bit_of-replicate ((header.total + 63) / 64) i
                ∙ sym (ap is_some (get_or-replicate header.total i));
            counted = sym (present-replicate header.total);
          };
          kept = inl refl;
        }))
