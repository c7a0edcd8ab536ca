-- ===== src/Chunk/Tests.antt =====
-- The chunk loop on files of a few bytes.
use cloudreve.Prelude.{◌≡◌, refl, true, false, pos, [], ◌∷◌, arith}
use cloudreve.Chunk.{Backoff, new_chunk_group, next, start, length, is_last}
use cloudreve.Chunk.Tiling.{Tiles, count, new_chunk_group-Tiles}
use cloudreve.Chunk.Cover.{spans}

abbrev twice : Backoff
twice = record { max = 2; tried = 0 }

ten_by_four :
    spans 5 (new_chunk_group 10 true 4 twice false)
    ≡ (pos 0, pos 4) ∷ (pos 4, pos 4) ∷ (pos 8, pos 2) ∷ []
unfolding spans new_chunk_group next start length is_last
ten_by_four = refl

empty_file : spans 5 (new_chunk_group 0 true 4 twice false) ≡ (pos 0, pos 0) ∷ []
unfolding spans new_chunk_group next start length is_last
empty_file = refl

new_chunk_group-Tiles_example :
    (count (spans 3 (new_chunk_group 10 true 4 twice false)) ≡ 3)
    × Tiles 0 10 4 (spans 3 (new_chunk_group 10 true 4 twice false))
unfolding new_chunk_group
new_chunk_group-Tiles_example =
    new_chunk_group-Tiles 10 true 4 twice false 3 (omega arith) (omega arith)
