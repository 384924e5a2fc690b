-- ===== src/TextChunker/Numbers.antt =====
-- src/vector/TextChunker.cpp: the numbers of the chunks.
use Prim.Native.Nat.{max}
use fileagent_server.Base.{
  ℕ, suc, ◌+◌, ◌/◌, ◌^◌, ◌≤◌, ◌<◌, ◌≡◌, ◌≢◌, ◌∙◌, refl, List, [], ◌∷◌, some, length, arith,
}
use fileagent_server.Base.Bytes.{Bytes}
use fileagent_server.Base.Int.{ℤ, pos, int_of, int_of-small}
use fileagent_server.TextChunker.{Chunk, chunk_by_size, used_size, used_overlap}
use fileagent_server.TextChunker.BySize.{Tiles, last, more, chunk_by_size-Tiles}

-- The chunks are numbered one after the other, from `idx`.
abbrev pub Numbered : ℕ → List Chunk → Type 0
Numbered idx [] = Unit
Numbered idx (c ∷ cs) = (c.index ≡ pos idx) × Numbered (suc idx) cs

-- The same of the counter as it is.
abbrev pub Counted : ℕ → List Chunk → Type 0
Counted idx [] = Unit
Counted idx (c ∷ cs) = (c.index ≡ int_of idx) × Counted (suc idx) cs

pub Counted-Numbered :
    (idx : ℕ) (cs : List Chunk) → idx + length cs ≤ 2 ^ 31 → Counted idx cs → Numbered idx cs
Counted-Numbered idx [] h c = tt
Counted-Numbered idx (d ∷ cs) h c = (
  c.0 ∙ int_of-small idx (omega (arith, h)),
  Counted-Numbered (suc idx) cs (omega (arith, h)) c.1,
)

module _ (text source_file : Bytes) (file_id : ℤ) (limit lap : ℕ) where
  Tiles-Counted :
      {start idx : ℕ} {cs : List Chunk}
      → Tiles text source_file file_id limit lap start idx cs
      → Counted idx cs
  Tiles-Counted (last h k) = (refl, tt)
  Tiles-Counted (more end next h k b e t) = (refl, Tiles-Counted t)

  -- There are no more chunks than bytes, since each begins after the one before it.
  pub length-Tiles :
      {start idx : ℕ} {cs : List Chunk}
      → Tiles text source_file file_id limit lap start idx cs
      → start + length cs ≤ length text
  length-Tiles (last h k) = omega arith
  length-Tiles (more end next h k b e t) = omega (arith, length-Tiles t)

-- For an overlap of at most half the chunk size and a text below 2^31 bytes the loop ends, and the
-- chunks tile the text and are numbered from 0 one after the other. The overlap that results is never
-- less than a quarter of the chunk size, and a chunk may be one byte longer than the chunk size.
pub chunk_by_size-Numbered :
    (text source_file : Bytes) (file_id : ℤ) (chunk_size overlap : ℕ)
    → text ≢ []
    → length text < 2 ^ 31
    → used_overlap (used_size chunk_size) overlap ≤ used_size chunk_size / 2
    → (cs : List Chunk) × (chunk_by_size text source_file file_id chunk_size overlap ≡ some cs)
      × Tiles text source_file file_id
          (used_size chunk_size + 1)
          (max (used_overlap (used_size chunk_size) overlap) (used_size chunk_size / 4))
          0
          0
          cs
      × Numbered 0 cs
chunk_by_size-Numbered text source_file file_id chunk_size overlap some_text small half =
    let (cs, e, t) =
      chunk_by_size-Tiles text source_file file_id chunk_size overlap some_text (omega arith)
        half in
    let count = length-Tiles text source_file file_id _ _ t in
    (
      cs,
      e,
      t,
      Counted-Numbered 0 cs (omega (arith, count, small))
          (Tiles-Counted text source_file file_id _ _ t),
    )
