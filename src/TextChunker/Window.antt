-- ===== src/TextChunker/Window.antt =====
-- src/vector/TextChunker.cpp: the arithmetic of one window of `chunkBySize`.
use Prim.Native.Nat.{max}
use fileagent_server.Base.{
  ℕ, suc, ◌+◌, ◌/◌, ◌^◌, ◌≤◌, ◌<◌, min, ◌≡◌, inl, inr, [], ◌∷◌, some, length, arith, Option-cases,
}
use fileagent_server.Base.Bytes.{Bytes}
use fileagent_server.TextChunker.{rfind_from, chunk_end, next_start, newline, add_word}

-- What `chunkBySize` has established when its loop starts: the text is longer than one chunk, no
-- size is near 2^64, and the overlap is at most half a chunk.
pub record Fits (size chunk_size overlap : ℕ) : Type 0 where
  pub positive : 0 < chunk_size
  pub half : overlap ≤ chunk_size / 2
  pub longer : chunk_size < size
  pub small : size < 2 ^ 63

pub rfind_from_bounds :
    (c last i : ℕ) (s : Bytes) (p : ℕ)
    → rfind_from c last i s ≡ some p
    → (i ≤ p) × (p ≤ last) × (p < i + length s)
unfolding rfind_from
rfind_from_bounds c last i [] p h = absurd (cc)
rfind_from_bounds c last i (b ∷ s) p h = ground (arith, rfind_from_bounds c last (suc i) s p)

module _ (text : Bytes) (chunk_size overlap start : ℕ)
    (fits : Fits (length text) chunk_size overlap) (inside : start < length text) where
  -- The window is not empty, ends within the text, is at most one byte longer than `chunk_size`, and
  -- if text is left, more than half of `chunk_size` long.
  pub chunk_end_bounds :
      (start < chunk_end text chunk_size start)
      × (chunk_end text chunk_size start ≤ length text)
      × (chunk_end text chunk_size start ≤ start + chunk_size + 1)
      × (chunk_end text chunk_size start < length text
          → start + max overlap (chunk_size / 4) < chunk_end text chunk_size start)
  unfolding chunk_end
  chunk_end_bounds =
      elim (Option-cases
        (rfind_from newline (min (add_word start chunk_size) (length text)) 0 text)) [
          | inl e ↦ rw (e, chunk_end) (ground arith)
          | inr (p, e) ↦
              rw (e, chunk_end)
                (ground (
                  arith,
                  rfind_from_bounds newline (min (add_word start chunk_size) (length text)) 0 text p
                      e,
                ))
        ]

-- The next window starts `max overlap (chunk_size / 4)` bytes before the end of this one.
pub next_start_lem :
    (size chunk_size overlap end : ℕ)
    → Fits size chunk_size overlap
    → max overlap (chunk_size / 4) < end
    → end ≤ size
    → next_start chunk_size overlap end + max overlap (chunk_size / 4) ≡ end
unfolding next_start
next_start_lem size chunk_size overlap end fits h k = ground arith
