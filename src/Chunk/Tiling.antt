-- ===== src/Chunk/Tiling.antt =====
-- The chunks that the loop over a group sees are the file cut into pieces.
use native.Mathlib.Nat.{mul-le-mul_right}
use cloudreve.Prelude.{
  ℕ, zero, suc, ◌+◌, ◌-◌, ◌*◌, ◌^◌, ◌≤◌, ◌<◌, ◌≡◌, refl, Bool, true, false, List, [], ◌∷◌, ℤ, pos,
  suc_ℤ, ltb, lt→ltb, le→ltb, ◌==◌, if◌then◌else◌, arith, Bool-cases, to_int64_small, inl, inr, ap,
  sym, ◌∙◌,
}
use cloudreve.Chunk
use cloudreve.Chunk.{ChunkGroup, Backoff, new_chunk_group, start, next, number_of_chunks}
use cloudreve.Chunk.Cover.{
  Covers, IsGroup, spans, start-eq, length_of_last, length_of_other, few, number_of_chunks-Covers,
  empty-Covers, offset_small,
}

abbrev pub smaller : ℕ → ℕ → ℕ
smaller a b = if ltb a b then a else b

-- The pieces follow one another from `a` up to `size`, and each is as long as `k` and what is left
-- allow.
unfoldable pub Tiles : ℕ → ℕ → ℕ → List (ℤ × ℤ) → Type 0
Tiles a size k [] = a ≡ size
Tiles a size k ((offset, length) ∷ rest) =
    (offset ≡ pos a)
    × (length ≡ pos (smaller (size - a) k))
    × Tiles (a + smaller (size - a) k) size k rest

unfoldable pub count : List (ℤ × ℤ) → ℕ
count [] = 0
count (x ∷ rest) = count rest + 1

-- Where the chunk `i` starts, or the end of the file.
abbrev offset_of : ChunkGroup → ℕ → ℕ
offset_of c i = if ltb i c.chunk_num then i * c.chunk_size else c.size

smaller_left : (a b : ℕ) → a ≤ b → smaller a b ≡ a
smaller_left a b h = ground arith

smaller_right : (a b : ℕ) → b ≤ a → smaller a b ≡ b
smaller_right a b h = ground arith

module _ (c : ChunkGroup) (h : IsGroup c) (i : ℕ) (at : c.current_index ≡ pos i)
    (lt : i < c.chunk_num) where
  abbrev piece : ℕ
  piece = smaller (c.size - i * c.chunk_size) c.chunk_size

  length-eq : Chunk.length c ≡ pos piece
  length-eq =
      let step : (i + 1) * c.chunk_size ≡ i * c.chunk_size + c.chunk_size = grind arith in
      let k = few c h i at lt in
      elim (Bool-cases (ltb (i + 1) c.chunk_num)) [
        | inl other ↦
            let next_one : i + 1 ≤ c.chunk_num - 1 = ground arith in
            let le = mul-le-mul_right c.chunk_size next_one in
            rw (smaller_right (c.size - i * c.chunk_size) c.chunk_size (omega arith))
              (length_of_other c h i at lt (ground arith))
        | inr last ↦
            let e : i + 1 ≡ c.chunk_num = ground arith in
            let whole : c.chunk_num * c.chunk_size ≡ (i + 1) * c.chunk_size =
              ap (λ n. n * c.chunk_size) (sym e) in
            rw (smaller_left (c.size - i * c.chunk_size) c.chunk_size (omega arith))
              (length_of_last c h i at lt e)
      ]

  offset_after : i * c.chunk_size + piece ≡ offset_of c (i + 1)
  offset_after =
      let step : (i + 1) * c.chunk_size ≡ i * c.chunk_size + c.chunk_size = grind arith in
      let k = few c h i at lt in
      let small = offset_small c h i at lt in
      elim (Bool-cases (ltb (i + 1) c.chunk_num)) [
        | inl other ↦
            let next_one : i + 1 ≤ c.chunk_num - 1 = ground arith in
            let le = mul-le-mul_right c.chunk_size next_one in
            rw (other, smaller_right (c.size - i * c.chunk_size) c.chunk_size (omega arith))
              (omega arith)
        | inr last ↦
            let e : i + 1 ≡ c.chunk_num = ground arith in
            let whole : c.chunk_num * c.chunk_size ≡ (i + 1) * c.chunk_size =
              ap (λ n. n * c.chunk_size) (sym e) in
            rw (last, smaller_left (c.size - i * c.chunk_size) c.chunk_size (omega arith))
              (omega arith)
      ]

few_chunks : (c : ChunkGroup) → IsGroup c → c.chunk_num < 2 ^ 63
unfolding Covers
few_chunks c h = h.covers.1

module _ (c : ChunkGroup) (h : IsGroup c) (i : ℕ) (at : suc_ℤ c.current_index ≡ pos i) where
  next_found : (next c).0 ≡ ltb i c.chunk_num
  unfolding next
  next_found = rw (at, to_int64_small c.chunk_num (few_chunks c h)) refl

  next_is_i : (next c).1.current_index ≡ pos i
  unfolding next
  next_is_i = at

next-IsGroup : (c : ChunkGroup) → IsGroup c → IsGroup (next c).1
unfolding next
next-IsGroup c h = record { small = h.small; covers = h.covers }

spans_more :
    (rounds : ℕ) (c : ChunkGroup)
    → (next c).0 ≡ true
    → spans (suc rounds) c ≡ (start (next c).1, Chunk.length (next c).1) ∷ spans rounds (next c).1
unfolding spans
spans_more rounds c h = rw (spans, h) refl

spans_end : (rounds : ℕ) (c : ChunkGroup) → (next c).0 ≡ false → spans (suc rounds) c ≡ []
unfolding spans
spans_end rounds c h = rw (spans, h) refl

suc_at : (c : ChunkGroup) (i : ℕ) → c.current_index ≡ pos i → suc_ℤ c.current_index ≡ pos (i + 1)
suc_at c i at = rw at (ap pos (omega arith))

-- What a step of the loop adds.
Tiles-step :
    (c : ChunkGroup)
    → IsGroup c
    → (i : ℕ) → c.current_index ≡ pos i
    → i < c.chunk_num
    → (rest : List (ℤ × ℤ)) → Tiles (offset_of c (i + 1)) c.size c.chunk_size rest
    → Tiles (offset_of c i) c.size c.chunk_size ((start c, Chunk.length c) ∷ rest)
unfolding Tiles
Tiles-step c h i at lt rest tiles =
    rw (lt→ltb i c.chunk_num lt)
      (start-eq c h i at lt, length-eq c h i at lt, rw (offset_after c h i at lt) tiles)

pub spans-Tiles :
    (rounds : ℕ) (c : ChunkGroup)
    → IsGroup c
    → (i : ℕ) → suc_ℤ c.current_index ≡ pos i
    → i ≤ c.chunk_num
    → c.chunk_num ≤ i + rounds
    → Tiles (offset_of c i) c.size c.chunk_size (spans rounds c)
unfolding Tiles spans next
spans-Tiles zero c h i at le enough = rw (le→ltb i c.chunk_num (omega arith)) refl
spans-Tiles (suc rounds) c h i at le enough = elim (Bool-cases (ltb i c.chunk_num)) [
  | inl more ↦
      let lt : i < c.chunk_num = ground arith in
      let same : (next c).1.chunk_num ≡ c.chunk_num = refl in
      let after =
        spans-Tiles rounds (next c).1 (next-IsGroup c h) (i + 1) (suc_at (next c).1 i at)
          (omega arith) (omega arith) in
      rw (spans_more rounds c (next_found c h i at ∙ more))
        (Tiles-step (next c).1 (next-IsGroup c h) i at lt (spans rounds (next c).1) after)
  | inr none_left ↦ rw (spans_end rounds c (next_found c h i at ∙ none_left), none_left) refl
]

spans-count :
    (rounds : ℕ) (c : ChunkGroup)
    → IsGroup c
    → (i : ℕ) → suc_ℤ c.current_index ≡ pos i
    → i ≤ c.chunk_num
    → c.chunk_num ≤ i + rounds
    → count (spans rounds c) + i ≡ c.chunk_num
unfolding count spans next
spans-count zero c h i at le enough = omega arith
spans-count (suc rounds) c h i at le enough = elim (Bool-cases (ltb i c.chunk_num)) [
  | inl more ↦
      let lt : i < c.chunk_num = ground arith in
      let same : (next c).1.chunk_num ≡ c.chunk_num = refl in
      let after =
        spans-count rounds (next c).1 (next-IsGroup c h) (i + 1) (suc_at (next c).1 i at)
          (omega arith) (omega arith) in
      rw (spans_more rounds c (next_found c h i at ∙ more)) (omega arith)
  | inr none_left ↦
      let end : c.chunk_num ≤ i = ground arith in
      rw (spans_end rounds c (next_found c h i at ∙ none_left)) (omega arith)
]

new_chunk_group-IsGroup :
    (size : ℕ) (seekable : Bool) (chunk_size : ℕ) (b : Backoff) (use_buffer : Bool)
    → size < 2 ^ 63
    → IsGroup (new_chunk_group size seekable chunk_size b use_buffer)
unfolding new_chunk_group
new_chunk_group-IsGroup zero seekable chunk_size b use_buffer h = record {
  small = h;
  covers = empty-Covers (if chunk_size == 0 then 0 else chunk_size);
}
new_chunk_group-IsGroup (suc n) seekable chunk_size b use_buffer h = record {
  small = h;
  covers =
      number_of_chunks-Covers (suc n) (if chunk_size == 0 then suc n else chunk_size) h
        (omega arith) (ground arith);
}

from_start :
    {a : ℕ} (size k : ℕ) (pieces : List (ℤ × ℤ))
    → a ≡ 0
    → Tiles a size k pieces
    → Tiles 0 size k pieces
from_start size k pieces e tiles = rw (sym e) tiles

-- The loop over the chunks of a file of less than 2^63 bytes, with a round for each chunk at least,
-- sees as many chunks as the group counts, and they follow one another from the start of the file
-- to its end, each of the chunk size but for the last, which is what is left.
pub new_chunk_group-Tiles :
    (size : ℕ) (seekable : Bool) (chunk_size : ℕ) (b : Backoff) (use_buffer : Bool) (rounds : ℕ)
    → size < 2 ^ 63
    → (new_chunk_group size seekable chunk_size b use_buffer).chunk_num ≤ rounds
    → let c = new_chunk_group size seekable chunk_size b use_buffer in
      (count (spans rounds c) ≡ c.chunk_num)
      × Tiles 0 size (if chunk_size == 0 then size else chunk_size) (spans rounds c)
unfolding new_chunk_group Covers
new_chunk_group-Tiles size seekable chunk_size b use_buffer rounds h enough =
    let c = new_chunk_group size seekable chunk_size b use_buffer in
    let group : IsGroup c = new_chunk_group-IsGroup size seekable chunk_size b use_buffer h in
    let some_chunk : 0 < c.chunk_num = group.covers.0 in
    let starts : offset_of c 0 ≡ 0 = rw (lt→ltb 0 c.chunk_num some_chunk) (omega arith) in
    let counted = spans-count rounds c group 0 refl (omega arith) (omega arith) in
    (
      omega arith,
      from_start c.size c.chunk_size (spans rounds c) starts
          (spans-Tiles rounds c group 0 refl (omega arith) (omega arith)),
    )
