-- ===== src/TextChunker/Stitch.antt =====
-- src/vector/TextChunker.cpp: what the chunks of `chunkBySize` hold.
use Prim.Native.Nat.{max}
use fileagent_server.Base.{
  ℕ, zero, suc, ◌+◌, ◌-◌, ◌/◌, ◌^◌, ◌≤◌, ◌<◌, ◌≡◌, ◌≢◌, ◌∙◌, sym, ap, refl, List, [], ◌∷◌, ◌++◌,
  some, length, arith, take, drop, take-append-drop, drop-drop, length-take, length-drop, All,
  append-nil,
}
use fileagent_server.Base.Bytes.{Bytes}
use fileagent_server.Base.Int.{ℤ}
use fileagent_server.TextChunker.{Chunk, chunk_by_size, used_size, used_overlap}
use fileagent_server.TextChunker.BySize.{Tiles, last, more, chunk_by_size-Tiles}

-- The text of the chunks when the overlap is cut from all but the first.
abbrev pub stitch_tail : ℕ → List Chunk → Bytes
stitch_tail lap [] = []
stitch_tail lap (c ∷ cs) = drop lap c.content ++ stitch_tail lap cs

abbrev pub stitch : ℕ → List Chunk → Bytes
stitch lap [] = []
stitch lap (c ∷ cs) = c.content ++ stitch_tail lap cs

drop-append {ℓ} :
    {A : Type ℓ} (n : ℕ) (xs ys : List A) → n ≤ length xs → drop n (xs ++ ys) ≡ drop n xs ++ ys
drop-append zero xs ys h = refl
drop-append (suc n) [] ys h = absurd (omega arith)
drop-append (suc n) (x ∷ xs) ys h = drop-append n xs ys (omega arith)

-- A window and what follows it.
window-rest :
    (text : Bytes) (start end : ℕ)
    → start ≤ end
    → take (end - start) (drop start text) ++ drop end text ≡ drop start text
window-rest text start end h =
    let e : start + (end - start) ≡ end = omega arith in
    ap (λ k. take (end - start) (drop start text) ++ drop k text) (sym e)
    ∙ ap (◌++◌ (take (end - start) (drop start text))) (sym (drop-drop (end - start) start text))
    ∙ take-append-drop (end - start) (drop start text)

length-window :
    (text : Bytes) (start end : ℕ)
    → end ≤ length text
    → length (take (end - start) (drop start text)) ≡ end - start
length-window text start end h =
    omega (arith, length-take (end - start) (drop start text), length-drop start text)

module _ (text source_file : Bytes) (file_id : ℤ) (limit lap : ℕ) where
  stitch_tail-Tiles :
      {start idx : ℕ} {cs : List Chunk}
      → Tiles text source_file file_id limit lap start idx cs
      → stitch_tail lap cs ≡ drop (start + lap) text
  stitch_tail-Tiles (last {start = start} h k) = append-nil _ ∙ drop-drop lap start text
  stitch_tail-Tiles (more {start = start} {cs = cs} end next h k b e t) =
      let window = take (end - start) (drop start text) in
      rw (stitch_tail-Tiles t, e)
        (sym (
            drop-append lap window (drop end text)
              (omega (arith, length-window text start end (omega arith))))
          ∙ ap (drop lap) (window-rest text start end (omega arith))
          ∙ drop-drop lap start text)

  stitch-Tiles :
      {start idx : ℕ} {cs : List Chunk}
      → Tiles text source_file file_id limit lap start idx cs
      → stitch lap cs ≡ drop start text
  stitch-Tiles (last {start = start} h k) = append-nil (drop start text)
  stitch-Tiles (more {start = start} {cs = cs} end next h k b e t) =
      rw (stitch_tail-Tiles t, e) (window-rest text start end (omega arith))

  -- The number of bytes of each chunk.
  pub Tiles-bounds :
      {start idx : ℕ} {cs : List Chunk}
      → Tiles text source_file file_id limit lap start idx cs
      → All (λ c. (0 < length c.content) × (length c.content ≤ limit)) cs
  Tiles-bounds (last {start = start} h k) = omega (arith, length-drop start text)
  Tiles-bounds (more {start = start} end next h k b e t) = (
    (omega (arith, length-window text start end), omega (arith, length-window text start end)),
    Tiles-bounds t,
  )

module _ (text source_file : Bytes) (file_id : ℤ) where
  -- Nothing of the text is lost or changed: the chunks, the overlap cut from all but the first, are
  -- the text again. No chunk is empty, and none is longer than the chunk size and one byte.
  pub stitch-chunk_by_size :
      (chunk_size overlap : ℕ)
      → text ≢ []
      → length text < 2 ^ 63
      → used_overlap (used_size chunk_size) overlap ≤ used_size chunk_size / 2
      → (cs : List Chunk) × (chunk_by_size text source_file file_id chunk_size overlap ≡ some cs)
        × (stitch (max (used_overlap (used_size chunk_size) overlap) (used_size chunk_size / 4)) cs
            ≡ text)
        × All (λ c. (0 < length c.content) × (length c.content ≤ used_size chunk_size + 1)) cs
  stitch-chunk_by_size chunk_size overlap some_text small half =
      let (cs, e, t) =
        chunk_by_size-Tiles text source_file file_id chunk_size overlap some_text small half in
      (
        cs,
        e,
        stitch-Tiles text source_file file_id _ _ t,
        Tiles-bounds text source_file file_id _ _ t,
      )
