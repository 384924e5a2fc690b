-- ===== src/TextChunker/ByParagraph.antt =====
-- src/vector/TextChunker.cpp: `chunkByParagraph` returns for every text, and numbers and bounds its
-- chunks.
use fileagent_server.Base.{
  ℕ, suc, ◌+◌, ◌/◌, ◌^◌, ◌≤◌, ◌<◌, ◌≡◌, ◌≢◌, ◌⊎◌, ap, subst, refl, List, [], ◌∷◌, ◌++◌, Option,
  some, length, arith, All, All-append, true, false, ltb, leb, Bool-cases, length-append, inl, inr,
}
use fileagent_server.Base.Bytes.{Bytes}
use fileagent_server.Base.Int.{ℤ, int_of-small}
use fileagent_server.TextChunker.{
  Chunk, chunk_by_size, used_size, used_limit, make_chunk, flushes, merge, renumber, paragraphs,
  chunk_by_paragraph,
}
use fileagent_server.TextChunker.Merge.{
  merge_split_flush, merge_split, merge_join_flush, merge_join,
}
use fileagent_server.TextChunker.BySize.{chunk_by_size-Tiles}
use fileagent_server.TextChunker.Numbers.{Numbered, Counted, Counted-Numbered, length-Tiles}
use fileagent_server.TextChunker.Paragraphs.{joined, length-paragraphs-le, length-joined-paragraphs}
use fileagent_server.TextChunker.Stitch.{Tiles-bounds}

abbrev pub Bounded : ℕ → List Chunk → Type 0
Bounded limit = All (λ c. (0 < length c.content) × (length c.content ≤ limit + 1))

Counted-append :
    (idx : ℕ) (cs ds : List Chunk)
    → Counted idx cs
    → Counted (idx + length cs) ds
    → Counted idx (cs ++ ds)
Counted-append idx [] ds h k = let e : idx + 0 ≡ idx = omega arith in rw e at k
Counted-append idx (c ∷ cs) ds h k =
    let e : idx + suc (length cs) ≡ suc idx + length cs = omega arith in
    (h.0, Counted-append (suc idx) cs ds h.1 (rw e at k))

renumber-Counted : (idx : ℕ) (cs : List Chunk) → Counted idx (renumber idx cs)
unfolding renumber
renumber-Counted idx [] = tt
renumber-Counted idx (c ∷ cs) = (refl, renumber-Counted (suc idx) cs)

length-renumber : (idx : ℕ) (cs : List Chunk) → length (renumber idx cs) ≡ length cs
unfolding renumber
length-renumber idx [] = refl
length-renumber idx (c ∷ cs) = ap suc (length-renumber (suc idx) cs)

renumber-Bounded :
    (limit idx : ℕ) (cs : List Chunk) → Bounded limit cs → Bounded limit (renumber idx cs)
unfolding renumber
renumber-Bounded limit idx [] h = tt
renumber-Bounded limit idx (c ∷ cs) h = (h.0, renumber-Bounded limit (suc idx) cs h.1)

ne_nil : (s : Bytes) {n : ℕ} → n < length s → s ≢ []
ne_nil [] h = elim h [ ]
ne_nil (b ∷ s) h = λ e. cc

module _ (source_file : Bytes) (file_id : ℤ) (limit : ℕ) (positive : 0 < limit) where
  -- What `merge` promises of the chunks that it makes from `idx` on.
  -- They are at most `most`.
  abbrev Good : ℕ → ℕ → Option (List Chunk) → Type 0
  Good idx most r =
      (cs : List Chunk) × (r ≡ some cs) × Counted idx cs × Bounded limit cs × (length cs ≤ most)

  -- The chunks of an oversized paragraph.
  split_para :
      (para : Bytes)
      → limit < length para
      → length para < 2 ^ 63
      → (subs : List Chunk) × (chunk_by_size para source_file file_id limit (limit / 5) ≡ some subs)
        × Bounded limit subs
        × (length subs ≤ length para)
  split_para para big small =
      let used : used_size limit ≡ limit = ground arith in
      let (subs, e, t) =
        chunk_by_size-Tiles para source_file file_id limit (limit / 5) (ne_nil para big) small
          (ground arith) in
      let b = Tiles-bounds para source_file file_id _ _ t in
      let count = length-Tiles para source_file file_id _ _ t in
      (subs, e, subst (λ n. Bounded n subs) used b, omega (arith, count))

  -- After a flush there is nothing pending; without one what is pending has room for the paragraph,
  -- or there is none.
  flushes-cases :
      (cur para : Bytes)
      → length cur ≤ limit
      → ((flushes limit cur para ≡ true) × (0 < length cur))
        ⊎ ((flushes limit cur para ≡ false) × ((cur ≡ []) ⊎ (length cur + length para ≤ limit)))
  unfolding flushes
  flushes-cases [] para k = inr (ground arith, inl refl)
  flushes-cases (b ∷ cur) para k = ground arith

  renumber-Good :
      (idx : ℕ) (subs rest : List Chunk)
      → Bounded limit subs
      → Counted (idx + length subs) rest
      → Bounded limit rest
      → Counted idx (renumber idx subs ++ rest) × Bounded limit (renumber idx subs ++ rest)
  renumber-Good idx subs rest b n b' = (
    Counted-append idx (renumber idx subs) rest (renumber-Counted idx subs)
        (rw (length-renumber idx subs) n),
    All-append _ (renumber idx subs) rest (renumber-Bounded limit idx subs b) b',
  )

  merge-Good :
      (ps : List Bytes) (idx : ℕ) (cur : Bytes)
      → All (λ p. length p < 2 ^ 63) ps
      → length cur ≤ limit
      → Good idx (length cur + length (joined ps)) (merge source_file file_id limit ps idx cur)
  merge-Good [] idx [] h k = unfold merge in ([], refl, tt, tt, omega arith)
  merge-Good [] idx (b ∷ cur) h k =
      unfold merge in (_, refl, (refl, tt), ((omega arith, omega arith), tt), omega arith)
  merge-Good (para ∷ ps) idx cur h k = elim (Bool-cases (ltb limit (length para))) [
    | inl big ↦
        let (subs, e, b, count) = split_para para (ground arith) h.0 in
        elim (flushes-cases cur para k) [
          | inl (flushed, filled) ↦
              let (rest, e', n, b', most) =
                merge-Good ps (suc idx + length subs) [] h.1 (omega arith) in
              let split = renumber-Good (suc idx) subs rest b n b' in
              (
                _,
                merge_split_flush source_file file_id limit para ps idx cur subs rest big flushed e
                    e',
                (refl, split.0),
                ((filled, omega arith), split.1),
                omega (
                  arith,
                  count,
                  most,
                  filled,
                  length-append (renumber (suc idx) subs) rest,
                  length-renumber (suc idx) subs,
                  length-append para (joined ps),
                ),
              )
          | inr (kept, room) ↦
              let (rest, e', n, b', most) =
                merge-Good ps (idx + length subs) [] h.1 (omega arith) in
              let none_pending : cur ≡ [] = ground arith in
              let split = renumber-Good idx subs rest b n b' in
              (
                _,
                merge_split source_file file_id limit para ps idx cur subs rest big kept
                    none_pending e e',
                split.0,
                split.1,
                omega (
                  arith,
                  count,
                  most,
                  length-append (renumber idx subs) rest,
                  length-renumber idx subs,
                  length-append para (joined ps),
                ),
              )
        ]
    | inr fits ↦ elim (flushes-cases cur para k) [
      | inl (flushed, filled) ↦
          let (rest, e, n, b, most) = merge-Good ps (suc idx) para h.1 (ground arith) in
          (
            _,
            merge_join_flush source_file file_id limit para ps idx cur rest fits flushed e,
            (refl, n),
            ((filled, omega arith), b),
            omega (arith, most, filled, length-append para (joined ps)),
          )
      | inr (kept, room) ↦
          let (rest, e, n, b, most) =
            merge-Good ps idx (cur ++ para) h.1 (ground (arith, length-append cur para)) in
          (
            rest,
            merge_join source_file file_id limit para ps idx cur rest fits kept e,
            n,
            b,
            omega (arith, most, length-append cur para, length-append para (joined ps)),
          )
    ]
  ]

All-weaken :
    {P Q : Bytes → Type 0} → ((p : Bytes) → P p → Q p) → (ps : List Bytes) → All P ps → All Q ps
All-weaken f [] h = tt
All-weaken f (p ∷ ps) h = (f p h.0, All-weaken f ps h.1)

-- `chunkByParagraph` returns for every text below 2^31 - 1 bytes. Its chunks are numbered from 0 one
-- after the other; none is empty, and none is longer than the limit and one byte.
pub chunk_by_paragraph-Good :
    (text source_file : Bytes) (file_id : ℤ) (max_chunk_size : ℕ)
    → length text + 1 < 2 ^ 31
    → (cs : List Chunk) × (chunk_by_paragraph source_file file_id text max_chunk_size ≡ some cs)
      × Numbered 0 cs
      × Bounded (used_limit max_chunk_size) cs
unfolding chunk_by_paragraph
chunk_by_paragraph-Good [] source_file file_id max_chunk_size small = ([], refl, tt, tt)
chunk_by_paragraph-Good (b ∷ text) source_file file_id max_chunk_size small =
    let limit = used_limit max_chunk_size in
    elim (Bool-cases (leb (length (b ∷ text)) limit)) [
      | inl short ↦ (
        make_chunk source_file file_id (b ∷ text) 0 ∷ [],
        rw short refl,
        (int_of-small 0 (omega arith), tt),
        ((omega arith, ground arith), tt),
      )
      | inr long ↦
          let (cs, e, n, g, most) =
            merge-Good source_file file_id limit (ground arith) (paragraphs (b ∷ text)) 0 []
              (All-weaken (λ p h. omega arith) (paragraphs (b ∷ text))
                (length-paragraphs-le (b ∷ text)))
              (omega arith) in
          (
            cs,
            rw (long, e) refl,
            Counted-Numbered 0 cs (omega (arith, most, small, length-joined-paragraphs (b ∷ text)))
                n,
            g,
          )
    ]
