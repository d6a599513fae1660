-- ===== src/Types/BlockParts/Filling.antt =====
-- The bitmap and the count of a part set of types/block_parts.go, and the parts that it holds.
use leaderberry.Prelude.{
  ◌≡◌, refl, sym, ap, ◌∙◌, ℕ, zero, suc, ◌*◌, ◌≤◌, ◌<◌, ◌==◌, ◌||◌, false, Option, none, some, List,
  [], ◌∷◌, length, length-set, get_or, set, is_some, Bytes, bit_of, bit_of-mark_bit,
  length-mark_bit, arith,
}
use leaderberry.Types.BlockParts.{
  BlockPart, PartSet, max_block_parts, all_parts, cons_part, place_part,
}

abbrev pub present : List (Option BlockPart) → ℕ
present [] = 0
present (none ∷ ps) = present ps
present (some p ∷ ps) = suc (present ps)

pub present-le : (ps : List (Option BlockPart)) → present ps ≤ length ps
present-le [] = omega arith
present-le (none ∷ ps) = omega (arith, present-le ps)
present-le (some p ∷ ps) = omega (arith, present-le ps)

pub present-set :
    (ps : List (Option BlockPart)) (i : ℕ) (p : BlockPart)
    → i < length ps
    → is_some (get_or ps i none) ≡ false
    → present (set ps i (some p)) ≡ suc (present ps)
present-set [] i p l e = absurd (omega arith)
present-set (none ∷ ps) zero p l e = refl
present-set (some q ∷ ps) zero p l e = ground arith
present-set (none ∷ ps) (suc i) p l e = present-set ps i p (omega arith) e
present-set (some q ∷ ps) (suc i) p l e = ap suc (present-set ps i p (omega arith) e)

is_some-set :
    (ps : List (Option BlockPart)) (i j : ℕ) (p : BlockPart)
    → i < length ps
    → is_some (get_or (set ps i (some p)) j none) ≡ (i == j || is_some (get_or ps j none))
is_some-set [] i j p l = absurd (omega arith)
is_some-set (x ∷ ps) zero zero p l = ground arith
is_some-set (x ∷ ps) zero (suc j) p l = ground arith
is_some-set (x ∷ ps) (suc i) zero p l = ground arith
is_some-set (x ∷ ps) (suc i) (suc j) p l = ground (arith, is_some-set ps i j p (omega arith))

pub all_parts_total :
    (ps : List (Option BlockPart))
    → present ps ≡ length ps
    → (qs : List BlockPart) × (all_parts ps ≡ some qs)
all_parts_total [] e = ([], refl)
all_parts_total (none ∷ ps) e = absurd (omega (arith, present-le ps))
all_parts_total (some p ∷ ps) e =
    let rest = all_parts_total ps (omega arith) in (p ∷ rest.0, ap (cons_part p) rest.1)

cons_part_inversion :
    (p : BlockPart) (r : Option (List BlockPart)) (qs : List BlockPart)
    → cons_part p r ≡ some qs
    → (rest : List BlockPart) × ((r ≡ some rest) × (p ∷ rest ≡ qs))
cons_part_inversion p none qs e = cc
cons_part_inversion p (some rest) qs e = (rest, (refl, cc))

pub present_all :
    (ps : List (Option BlockPart)) (qs : List BlockPart)
    → all_parts ps ≡ some qs
    → (present ps ≡ length ps) × (length qs ≡ length ps)
present_all [] qs e = (refl, ap length (let same : qs ≡ [] = cc in same))
present_all (none ∷ ps) qs e = cc
present_all (some p ∷ ps) qs e =
    let r = cons_part_inversion p (all_parts ps) qs e in
    let ih = present_all ps r.0 r.1.0 in (ap suc ih.0, ap length (sym r.1.1) ∙ ap suc ih.1)

-- The bitmap marks exactly the parts that the set holds, and the count is their number.
pub record IsFilled (ps : PartSet) : Type 0 where
  pub sized : length ps.parts ≡ ps.total
  pub small : ps.total ≤ max_block_parts
  pub reached : ps.total ≤ 64 * length ps.parts_bits
  pub marked : (i : ℕ) → i < ps.total → bit_of ps.parts_bits i ≡ is_some (get_or ps.parts i none)
  pub counted : ps.parts_count ≡ present ps.parts

pub place_part-IsFilled :
    (ps : PartSet) (p : BlockPart)
    → IsFilled ps
    → p.index < ps.total
    → bit_of ps.parts_bits p.index ≡ false
    → IsFilled (place_part ps p)
unfolding place_part
place_part-IsFilled ps p w l e =
    let inside : p.index < length ps.parts = omega (arith, w.sized) in
    let empty : is_some (get_or ps.parts p.index none) ≡ false = sym (w.marked p.index l) ∙ e in
    let more = present-set ps.parts p.index p inside empty in
    record {
      sized = length-set ps.parts p.index (some p) ∙ w.sized;
      small = w.small;
      reached = omega (arith, w.reached, length-mark_bit ps.parts_bits p.index);
      marked = λ i k.
          bit_of-mark_bit ps.parts_bits p.index i (omega (arith, w.reached))
          ∙ (ap (λ b. p.index == i || b) (w.marked i k)
              ∙ sym (is_some-set ps.parts p.index i p inside));
      counted = omega (arith, w.counted, more, present-le ps.parts, w.sized, w.small);
    }

pub with_data-IsFilled :
    (ps : PartSet) (d : Option Bytes) → IsFilled ps → IsFilled (record ps { data' = d })
with_data-IsFilled ps d w = record {
  sized = w.sized;
  small = w.small;
  reached = w.reached;
  marked = w.marked;
  counted = w.counted;
}
