-- ===== src/TextChunker/Content.antt =====
-- src/vector/TextChunker.cpp: what the chunks of `chunkByParagraph` hold.
use fileagent_server.Base.{
  ℕ, suc, ◌≤◌, ◌≡◌, ◌∙◌, ap, refl, List, [], ◌∷◌, ◌++◌, some, length, arith, All, false, ltb, leb,
  map, Bool-cases, append_assoc, append-nil, inl, inr,
}
use fileagent_server.Base.Bytes.{Bytes}
use fileagent_server.Base.Int.{ℤ}
use fileagent_server.TextChunker.{
  Chunk, used_limit, make_chunk, flushes, merge, paragraphs, chunk_by_paragraph,
}
use fileagent_server.TextChunker.Merge.{merge_join_flush, merge_join}
use fileagent_server.TextChunker.Paragraphs.{joined, strip, strip-paragraphs}

abbrev pub contents : List Chunk → List Bytes
contents = map (λ c. c.content)

module _ (source_file : Bytes) (file_id : ℤ) (limit : ℕ) where
  -- Paragraphs that fit are only put together.
  joined-merge :
      (ps : List Bytes) (idx : ℕ) (cur : Bytes)
      → All (λ p. length p ≤ limit) ps
      → (cs : List Chunk) × (merge source_file file_id limit ps idx cur ≡ some cs)
        × (joined (contents cs) ≡ cur ++ joined ps)
  joined-merge [] idx [] h = unfold merge in ([], refl, refl)
  joined-merge [] idx (b ∷ cur) h = unfold merge in (_, refl, refl)
  joined-merge (para ∷ ps) idx cur h =
      let fits : ltb limit (length para) ≡ false = ground arith in
      elim (Bool-cases (flushes limit cur para)) [
        | inl flushed ↦
            let (rest, e, j) = joined-merge ps (suc idx) para h.1 in
            (
              _,
              merge_join_flush source_file file_id limit para ps idx cur rest fits flushed e,
              ap (◌++◌ cur) j,
            )
        | inr kept ↦
            let (rest, e, j) = joined-merge ps idx (cur ++ para) h.1 in
            (
              rest,
              merge_join source_file file_id limit para ps idx cur rest fits kept e,
              j ∙ append_assoc cur para (joined ps),
            )
      ]

-- Of a text with no paragraph above the limit, the chunks hold every byte but newlines, in order.
pub strip-chunk_by_paragraph :
    (text source_file : Bytes) (file_id : ℤ) (max_chunk_size : ℕ)
    → All (λ p. length p ≤ used_limit max_chunk_size) (paragraphs text)
    → (cs : List Chunk) × (chunk_by_paragraph source_file file_id text max_chunk_size ≡ some cs)
      × (strip (joined (contents cs)) ≡ strip text)
unfolding chunk_by_paragraph
strip-chunk_by_paragraph [] source_file file_id max_chunk_size h = ([], refl, refl)
strip-chunk_by_paragraph (b ∷ text) source_file file_id max_chunk_size h =
    elim (Bool-cases (leb (length (b ∷ text)) (used_limit max_chunk_size))) [
      | inl short ↦ (
        make_chunk source_file file_id (b ∷ text) 0 ∷ [],
        rw short refl,
        ap strip (append-nil (b ∷ text)),
      )
      | inr long ↦
          let (cs, e, j) =
            joined-merge source_file file_id (used_limit max_chunk_size) (paragraphs (b ∷ text)) 0
              [] h in
          (cs, rw (long, e) refl, ap strip j ∙ strip-paragraphs (b ∷ text))
    ]
