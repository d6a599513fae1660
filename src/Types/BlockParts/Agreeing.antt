-- ===== src/Types/BlockParts/Agreeing.antt =====
-- GetData of types/block_parts.go, on two nodes.
use leaderberry.Prelude.{
  ◌≡◌, refl, sym, ap, ◌∙◌, ◌⊎◌, inl, inr, ◌≤◌, ◌==◌, if◌then◌else◌, Bool, true, false, Option, none,
  some, List, [], ◌∷◌, length, length-map, Bytes, arith,
}
use leaderberry.Types.BlockParts.{
  BlockPart, BlockPartSetHeader, PartSet, not_complete, max_block_parts, new_part_set_from_header,
  join_bytes, part_hashes, get_data, assembled,
}
use leaderberry.Types.BlockParts.Merkle.{
  HasHashSize, Collision, sha256_agree, compute_merkle_root_agree,
}
use leaderberry.Types.BlockParts.Filling.{present_all}
use leaderberry.Types.BlockParts.Adding.{IsSound, add_parts, add_parts_total, part_hashes-sized}

assembled_inversion : (o : Option Bytes) (d : Bytes) → assembled o ≡ (none, d) → o ≡ some d
assembled_inversion none d e = let ends = ap (λ x. x.0) e in cc
assembled_inversion (some x) d e = let same = ap (λ y. y.1) e in ap some same

guarded_inversion :
    (b : Bool) (o : Option Bytes) (d : Bytes)
    → (if b then assembled o else (some not_complete, [])) ≡ (none, d)
    → o ≡ some d
guarded_inversion true o d e = assembled_inversion o d e
guarded_inversion false o d e = let ends = ap (λ x. x.0) e in cc

get_data_inversion : (ps : PartSet) (d : Bytes) → get_data ps ≡ (none, d) → ps.data' ≡ some d
unfolding get_data
get_data_inversion ps d e = guarded_inversion (ps.parts_count == ps.total) ps.data' d e

module _ (sha256 : Bytes → Bytes) (sized : (bs : Bytes) → HasHashSize (sha256 bs)) where
  part_hashes_agree :
      (ps qs : List BlockPart)
      → part_hashes sha256 ps ≡ part_hashes sha256 qs
      → (join_bytes ps ≡ join_bytes qs) ⊎ Collision sha256
  part_hashes_agree [] [] e = inl refl
  part_hashes_agree [] (q ∷ qs) e = absurd (omega (arith, ap length e))
  part_hashes_agree (p ∷ ps) [] e = absurd (omega (arith, ap length e))
  part_hashes_agree (p ∷ ps) (q ∷ qs) e = elim (sha256_agree sha256 p.bytes q.bytes cc) [
    | inl s ↦ elim (part_hashes_agree ps qs cc) [ inl r ↦ inl cc | inr c ↦ inr c ]
    | inr c ↦ inr c
  ]

  sound_agree :
      (ps qs : PartSet) (d d' : Bytes)
      → IsSound sha256 ps
      → IsSound sha256 qs
      → ps.hash ≡ qs.hash
      → ps.total ≡ qs.total
      → ps.data' ≡ some d
      → qs.data' ≡ some d'
      → (d ≡ d') ⊎ Collision sha256
  sound_agree ps qs d d' v w h t e f = elim v.kept [
    | inl n ↦ cc
    | inr a ↦ elim w.kept [
      | inl n ↦ cc
      | inr b ↦
          let first = (present_all ps.parts a.all a.held).1 ∙ v.filled.sized in
          let second = (present_all qs.parts b.all b.held).1 ∙ w.filled.sized in
          let same = length-map a.all _ ∙ (first ∙ (t ∙ (sym second ∙ sym (length-map b.all _)))) in
          elim (compute_merkle_root_agree sha256 sized (part_hashes sha256 a.all)
            (part_hashes sha256 b.all) qs.hash same (part_hashes-sized sha256 sized a.all)
            (part_hashes-sized sha256 sized b.all) (a.rooted ∙ ap some h) b.rooted) [
              | inl r ↦ elim (part_hashes_agree a.all b.all r) [
                | inl j ↦ inl (let joined = a.joined in let joined' = b.joined in cc)
                | inr c ↦ inr c
              ]
              | inr c ↦ inr c
            ]
    ]
  ]

  -- With digests of 32 bytes: of two part sets made from one header of at most 1024 parts, each after any
  -- calls of AddPart with any parts, if GetData returns data of both, they are the same data, or there are
  -- two byte sequences with one digest.
  pub get_data_agree :
      (header : BlockPartSetHeader) (parts parts' : List (Option BlockPart)) (ps qs : PartSet)
      (d d' : Bytes)
      → header.total ≤ max_block_parts
      → add_parts sha256 (new_part_set_from_header header) parts ≡ some ps
      → add_parts sha256 (new_part_set_from_header header) parts' ≡ some qs
      → get_data ps ≡ (none, d)
      → get_data qs ≡ (none, d')
      → (d ≡ d') ⊎ Collision sha256
  get_data_agree header parts parts' ps qs d d' l e f g g' =
      let x = add_parts_total sha256 sized header parts l in
      let y = add_parts_total sha256 sized header parts' l in
      let here : x.0 ≡ ps = let made = x.1.0 in cc in
      let there : y.0 ≡ qs = let made = y.1.0 in cc in
      sound_agree x.0 y.0 d d' x.1.1.0 y.1.1.0 (x.1.1.1.0 ∙ sym y.1.1.1.0)
        (x.1.1.1.1 ∙ sym y.1.1.1.1) (get_data_inversion x.0 d (ap get_data here ∙ g))
        (get_data_inversion y.0 d' (ap get_data there ∙ g'))
