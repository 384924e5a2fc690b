-- ===== src/TextChunker/BySize.antt =====
-- src/vector/TextChunker.cpp: `chunkBySize` as a whole. The chunks are windows on the text, each of
-- which begins a fixed number of bytes before the end of the one before it.
use Prim.Native.Nat.{max}
use fileagent_server.Base.{
  ℕ, zero, suc, ◌+◌, ◌-◌, ◌/◌, ◌^◌, ◌≤◌, ◌<◌, ◌≡◌, ◌≢◌, inl, inr, refl, false, List, [], ◌∷◌, some,
  leb, length, arith, Bool-cases, leb→le, take, drop, take_all, length-drop, is_empty,
}
use fileagent_server.Base.Bytes.{Bytes}
use fileagent_server.Base.Int.{ℤ}
use fileagent_server.TextChunker.{
  Chunk, chunk_end, next_start, word, sub_word, size_loop, chunk_by_size, used_size, used_overlap,
  make_chunk,
}
use fileagent_server.TextChunker.Window.{Fits, chunk_end_bounds, next_start_lem}

-- `Tiles … start idx cs`: the chunks `cs` are windows on the text from `start` to its end, of at most
-- `limit` bytes, numbered from `idx`; each begins `lap` bytes before the end of the one before it.
pub data Tiles (text source_file : Bytes) (file_id : ℤ) (limit lap : ℕ)
    : ℕ → ℕ → List Chunk → Type 0 where
  last :
      {start idx : ℕ}
      → start < length text
      → length text ≤ start + limit
      → Tiles text source_file file_id limit lap start idx
          (make_chunk source_file file_id (drop start text) idx ∷ [])
  more :
      {start idx : ℕ} {cs : List Chunk} (end next : ℕ)
      → start + lap < end
      → end < length text
      → end ≤ start + limit
      → next + lap ≡ end
      → Tiles text source_file file_id limit lap next (suc idx) cs
      → Tiles text source_file file_id limit lap start idx
          (make_chunk source_file file_id (take (end - start) (drop start text)) idx ∷ cs)

length-pos {ℓ} : {A : Type ℓ} (xs : List A) → xs ≢ [] → 0 < length xs
length-pos [] h = absurd (h refl)
length-pos (x ∷ xs) h = omega arith

module _ (text source_file : Bytes) (file_id : ℤ) where
  -- The last round of the loop, and any other.
  size_loop-last :
      (chunk_size overlap fuel start idx : ℕ)
      → start < length text
      → length text < word
      → chunk_end text chunk_size start ≡ length text
      → size_loop text source_file file_id (suc fuel) chunk_size overlap start idx
        ≡ some (make_chunk source_file file_id (drop start text) idx ∷ [])
  unfolding size_loop
  size_loop-last chunk_size overlap fuel start idx h w e =
      let whole : take (sub_word (length text) start) (drop start text) ≡ drop start text =
        take_all (sub_word (length text) start) (drop start text)
          (omega (arith, length-drop start text)) in
      ground (arith, whole)

  size_loop-more :
      (chunk_size overlap fuel start idx : ℕ) (cs : List Chunk)
      → start < chunk_end text chunk_size start
      → chunk_end text chunk_size start < length text
      → length text < word
      → size_loop text source_file file_id fuel chunk_size overlap
          (next_start chunk_size overlap (chunk_end text chunk_size start))
          (suc idx)
        ≡ some cs
      → size_loop text source_file file_id (suc fuel) chunk_size overlap start idx
        ≡ some (
            make_chunk source_file file_id
              (take (chunk_end text chunk_size start - start) (drop start text))
              idx
            ∷ cs)
  unfolding size_loop
  size_loop-more chunk_size overlap fuel start idx cs h k w e =
      let end = chunk_end text chunk_size start in
      let plain : sub_word end start ≡ end - start = omega arith in ground (arith, plain)

  -- With enough fuel the loop ends, and its chunks tile the rest of the text.
  size_loop-Tiles :
      (chunk_size overlap : ℕ) (fuel start idx : ℕ)
      → Fits (length text) chunk_size overlap
      → start < length text
      → length text - start < fuel
      → (cs : List Chunk) × (size_loop text source_file file_id fuel chunk_size overlap start idx
          ≡ some cs)
        × Tiles text source_file file_id
            (chunk_size + 1)
            (max overlap (chunk_size / 4))
            start
            idx
            cs
  size_loop-Tiles chunk_size overlap zero start idx fits h f = absurd (omega arith)
  size_loop-Tiles chunk_size overlap (suc fuel) start idx fits h f =
      let lap = max overlap (chunk_size / 4) in
      let end = chunk_end text chunk_size start in
      let b = chunk_end_bounds text chunk_size overlap start fits h in
      elim (Bool-cases (leb (length text) end)) [
        | inl done ↦
            let e : end ≡ length text = ground arith in
            (
              _,
              size_loop-last chunk_size overlap fuel start idx h (omega arith) e,
              last h (omega arith),
            )
        | inr left ↦
            let before : end < length text = ground arith in
            let ahead : start + lap < end = b.3 before in
            let next = next_start_lem (length text) chunk_size overlap end fits (omega arith) b.1 in
            let (cs, e, t) =
              size_loop-Tiles chunk_size overlap fuel (next_start chunk_size overlap end) (suc idx)
                fits (omega (arith, next)) (omega (arith, next)) in
            (
              _,
              size_loop-more chunk_size overlap fuel start idx cs b.0 before (omega arith) e,
              more end (next_start chunk_size overlap end) ahead before (omega arith) next t,
            )
      ]

  -- For an overlap of at most half the chunk size the loop ends, and the chunks tile the text. The
  -- overlap that results is never less than a quarter of the chunk size, and a chunk may be one byte
  -- longer than the chunk size.
  pub chunk_by_size-Tiles :
      (chunk_size overlap : ℕ)
      → text ≢ []
      → length text < 2 ^ 63
      → used_overlap (used_size chunk_size) overlap ≤ used_size chunk_size / 2
      → (cs : List Chunk) × (chunk_by_size text source_file file_id chunk_size overlap ≡ some cs)
        × Tiles text source_file file_id
            (used_size chunk_size + 1)
            (max (used_overlap (used_size chunk_size) overlap) (used_size chunk_size / 4))
            0
            0
            cs
  unfolding chunk_by_size
  chunk_by_size-Tiles chunk_size overlap some_text small half =
      let size = used_size chunk_size in
      let lap = used_overlap size overlap in
      let positive : 0 < size = ground arith in
      let nonempty : 0 < length text = length-pos text some_text in
      let filled : is_empty text ≡ false = ground arith in
      elim (Bool-cases (leb (length text) size)) [
        | inl short ↦ (
          _,
          rw (filled, short) refl,
          last nonempty (omega (arith, leb→le (length text) size short)),
        )
        | inr long ↦
            let (cs, e, t) =
              size_loop-Tiles size lap (suc (length text)) 0 0
                (record { positive = positive; half = half; longer = ground arith; small = small })
                nonempty (omega arith) in
            (cs, rw (filled, long, e) refl, t)
      ]
