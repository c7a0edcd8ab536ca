-- ===== src/Chunk.antt =====
-- pkg/filesystem/chunk/chunk.go and pkg/filesystem/chunk/backoff/backoff.go: a file in chunks, and
-- the retries of one chunk. Sizes are uint64, indices and offsets int and int64.
pub mod Cover
pub mod Tiling
mod Tests
use cloudreve.Prelude.{
  ℕ, zero, suc, ◌+◌, ◌-◌, ◌*◌, ◌/◌, ◌%◌, ◌^◌, ◌≡◌, refl, Bool, true, false, not, ◌&&◌, ◌||◌, Option,
  none, some, ℤ, pos, negsuc, suc_ℤ, u64, to_uint64, to_int64, eq_ℤ, less, ltb, ◌==◌, if◌then◌else◌,
}

-- ConstantBackoff
pub record Backoff : Type 0 where
  pub max : ℕ
  pub tried : ℕ

unfoldable pub try_again : Backoff → Bool × Backoff
try_again b = (not (ltb b.max (b.tried + 1)), record b { tried = b.tried + 1 })

abbrev pub reset : Backoff → Backoff
reset b = record b { tried = 0 }

pub record ChunkGroup : Type 0 where
  pub size : ℕ
  pub seekable : Bool
  pub chunk_size : ℕ
  pub backoff : Backoff
  pub enable_retry_buffer : Bool
  pub current_index : ℤ
  pub chunk_num : ℕ
  -- the number of bytes in the temp file of the retry buffer, if there is one
  pub buffer_temp : Option ℕ

-- `Size / chunkSize`, rounded up, and 1 for an empty file
abbrev number_of_chunks : ℕ → ℕ → ℕ
number_of_chunks size chunk_size =
    if size == 0
    then 1
    else if size % chunk_size == 0
    then size / chunk_size
    else (size / chunk_size + 1) % u64

unfoldable pub new_chunk_group : ℕ → Bool → ℕ → Backoff → Bool → ChunkGroup
new_chunk_group size seekable chunk_size backoff use_buffer =
    let actual = if chunk_size == 0 then size else chunk_size in
    record {
      size = size;
      seekable = seekable;
      chunk_size = actual;
      backoff = backoff;
      enable_retry_buffer = use_buffer;
      current_index = negsuc 0;
      chunk_num = number_of_chunks size actual;
      buffer_temp = none;
    }

-- Start, Next, IsLast and Length
unfoldable pub start : ChunkGroup → ℤ
start c = to_int64 (to_uint64 c.current_index * c.chunk_size % u64)

unfoldable pub next : ChunkGroup → Bool × ChunkGroup
next c =
    let i = suc_ℤ c.current_index in
    (less i (to_int64 c.chunk_num), record c { current_index = i; backoff = reset c.backoff })

unfoldable pub is_last : ChunkGroup → Bool
is_last c = eq_ℤ c.current_index (to_int64 ((c.chunk_num + u64 - 1) % u64))

unfoldable pub length : ChunkGroup → ℤ
unfolding is_last
length c = to_int64 (
    if is_last c
    then (c.size + u64 - c.chunk_size * ((c.chunk_num + u64 - 1) % u64) % u64) % u64
    else c.chunk_size)
