-- ===== src/Chunk/Cover.antt =====
-- The chunks of a group cover the file, one after the other, with nothing left over.
use native.Mathlib.Nat.{mod-lt, div-add-mod, mul-le-mul_right}
use cloudreve.Prelude.{
  ℕ, zero, suc, ◌+◌, ◌-◌, ◌*◌, ◌/◌, ◌%◌, ◌^◌, ◌≤◌, ◌<◌, ◌≡◌, true, false, List, [], ◌∷◌, ℤ, pos,
  ◌==◌, arith, Bool-cases, inl, inr,
}
use cloudreve.Chunk
use cloudreve.Prelude.{to_int64_small, to_int64_eq, u64, to_int64}
use cloudreve.Chunk.{ChunkGroup, Backoff, new_chunk_group, start, next, is_last, number_of_chunks}

-- The offsets and lengths that `for group.Next() { … }` sees, in `rounds` rounds at most.
unfoldable pub spans : ℕ → ChunkGroup → List (ℤ × ℤ)
unfolding next start
spans zero c = []
spans (suc rounds) c = elim (next c).0 [
  | true ↦ (start (next c).1, Chunk.length (next c).1) ∷ spans rounds (next c).1
  | false ↦ []
]

-- What the number of chunks is, by quotient and remainder.
unfoldable pub Covers : ℕ → ℕ → ℕ → Type 0
Covers size k n = (0 < n) × (n < 2 ^ 63) × ((n - 1) * k ≤ size) × (size ≤ n * k)

positive_factor : (q k : ℕ) → 0 < q * k → 0 < q
positive_factor zero k h = omega arith
positive_factor (suc q) k h = omega arith

covers_up :
    (size k q r : ℕ)
    → q * k + r ≡ size
    → r < k
    → 0 < r
    → size < 2 ^ 63
    → Covers size k ((q + 1) % u64)
unfolding Covers
covers_up size k q r e lt nonzero small =
    let le : q ≤ q * k = grind arith in
    let step : (q + 1) * k ≡ q * k + k = grind arith in
    let small_q : (q + 1) % u64 ≡ q + 1 = omega arith in
    let back : q + 1 - 1 ≡ q = omega arith in
    rw (small_q, back) (omega arith, omega arith, omega arith, omega arith)

covers_exactly : (size k q : ℕ) → q * k ≡ size → 0 < k → 0 < size → size < 2 ^ 63 → Covers size k q
unfolding Covers
covers_exactly size k q e pos_k nonzero small =
    let le : q ≤ q * k = grind arith in
    let some : 0 < q = positive_factor q k (omega arith) in
    let before : q - 1 ≤ q = omega arith in
    let smaller = mul-le-mul_right k before in (some, omega arith, omega arith, omega arith)

pub number_of_chunks-Covers :
    (size k : ℕ) → size < 2 ^ 63 → 0 < size → 0 < k → Covers size k (number_of_chunks size k)
number_of_chunks-Covers size k small nonzero pos_k =
    let lt : size % k < k = mod-lt size pos_k in
    let parts : k * (size / k) + size % k ≡ size = div-add-mod size k in
    let e : (size / k) * k + size % k ≡ size = grind arith in
    let nz : (size == 0) ≡ false = ground arith in
    elim (Bool-cases (size % k == 0)) [
      | inl z ↦ rw (nz, z) (covers_exactly size k (size / k) (ground arith) pos_k nonzero small)
      | inr z ↦ rw (nz, z) (covers_up size k (size / k) (size % k) e lt (ground arith) small)
    ]

pub empty-Covers : (k : ℕ) → Covers 0 k 1
unfolding Covers
empty-Covers k = (omega arith, omega arith, omega arith, omega arith)

-- A group whose chunks cover the file.
pub record IsGroup (c : ChunkGroup) : Type 0 where
  pub small : c.size < 2 ^ 63
  pub covers : Covers c.size c.chunk_size c.chunk_num

module _ (c : ChunkGroup) (h : IsGroup c) (i : ℕ) (at : c.current_index ≡ pos i)
    (lt : i < c.chunk_num) where
  pub few :
      (c.chunk_num < 2 ^ 63)
      × ((c.chunk_num - 1) * c.chunk_size ≤ c.size)
      × (c.size ≤ c.chunk_num * c.chunk_size)
  unfolding Covers
  few = let k = h.covers in (k.1, k.2, k.3)

  pub offset_small : i * c.chunk_size ≤ c.size
  offset_small =
      let some_chunk : i ≤ c.chunk_num - 1 = omega arith in
      let le : i * c.chunk_size ≤ (c.chunk_num - 1) * c.chunk_size =
        mul-le-mul_right c.chunk_size some_chunk in
      let k = few.1 in omega arith

  pub start-eq : start c ≡ pos (i * c.chunk_size)
  unfolding start
  start-eq =
      let small = h.small in
      let le = offset_small in
      let k = few.0 in
      let wrap_index : i % u64 ≡ i = omega arith in
      let wrap : i * c.chunk_size % u64 ≡ i * c.chunk_size = omega arith in
      rw (at, wrap_index, wrap) (to_int64_small (i * c.chunk_size) (omega arith))

  last_index : to_int64 ((c.chunk_num + u64 - 1) % u64) ≡ pos (c.chunk_num - 1)
  last_index =
      let k = few.0 in
      let wrap : (c.chunk_num + u64 - 1) % u64 ≡ c.chunk_num - 1 = omega arith in
      rw wrap (to_int64_small (c.chunk_num - 1) (omega arith))

  is_last-eq : is_last c ≡ (i + 1 == c.chunk_num)
  unfolding is_last
  is_last-eq = rw (at, last_index) (ground arith)

  pub length_of_last : i + 1 ≡ c.chunk_num → Chunk.length c ≡ pos (c.size - i * c.chunk_size)
  unfolding Chunk.length
  length_of_last e =
      let small = h.small in
      let le = offset_small in
      let k = few.0 in
      let last : (i + 1 == c.chunk_num) ≡ true = ground arith in
      let before : (c.chunk_num + u64 - 1) % u64 ≡ i = omega arith in
      let swap : c.chunk_size * i ≡ i * c.chunk_size = grind arith in
      rw (is_last-eq, last, before, swap)
        (to_int64_eq ((c.size + u64 - i * c.chunk_size % u64) % u64) (c.size - i * c.chunk_size)
          (omega arith) (omega arith))

  pub length_of_other : i + 1 < c.chunk_num → Chunk.length c ≡ pos c.chunk_size
  unfolding Chunk.length
  length_of_other e =
      let small = h.small in
      let k = few in
      let other : (i + 1 == c.chunk_num) ≡ false = ground arith in
      let once : 1 ≤ c.chunk_num - 1 = omega arith in
      let le = mul-le-mul_right c.chunk_size once in
      rw (is_last-eq, other) (to_int64_small c.chunk_size (omega arith))
