-- ===== src/TextChunker/Merge.antt =====
-- src/vector/TextChunker.cpp: the four ways through one round of the loop over the paragraphs.
use fileagent_server.Base.{
  ℕ, suc, ◌+◌, ◌/◌, ◌≡◌, List, [], ◌∷◌, ◌++◌, some, length, arith, true, false, ltb,
}
use fileagent_server.Base.Bytes.{Bytes}
use fileagent_server.Base.Int.{ℤ}
use fileagent_server.TextChunker.{Chunk, chunk_by_size, make_chunk, flushes, merge, renumber}

module _ (source_file : Bytes) (file_id : ℤ) (limit : ℕ) (para : Bytes) (ps : List Bytes) (idx : ℕ)
    (cur : Bytes) where
  pub merge_split_flush :
      (subs rest : List Chunk)
      → ltb limit (length para) ≡ true
      → flushes limit cur para ≡ true
      → chunk_by_size para source_file file_id limit (limit / 5) ≡ some subs
      → merge source_file file_id limit ps (suc idx + length subs) [] ≡ some rest
      → merge source_file file_id limit (para ∷ ps) idx cur
        ≡ some (make_chunk source_file file_id cur idx ∷ (renumber (suc idx) subs ++ rest))
  unfolding merge
  merge_split_flush subs rest big flushed e e' = ground arith

  pub merge_split :
      (subs rest : List Chunk)
      → ltb limit (length para) ≡ true
      → flushes limit cur para ≡ false
      → cur ≡ []
      → chunk_by_size para source_file file_id limit (limit / 5) ≡ some subs
      → merge source_file file_id limit ps (idx + length subs) [] ≡ some rest
      → merge source_file file_id limit (para ∷ ps) idx cur ≡ some (renumber idx subs ++ rest)
  unfolding merge
  merge_split subs rest big kept empty e e' = ground arith

  pub merge_join_flush :
      (rest : List Chunk)
      → ltb limit (length para) ≡ false
      → flushes limit cur para ≡ true
      → merge source_file file_id limit ps (suc idx) para ≡ some rest
      → merge source_file file_id limit (para ∷ ps) idx cur
        ≡ some (make_chunk source_file file_id cur idx ∷ rest)
  unfolding merge
  merge_join_flush rest fits flushed e = ground arith

  pub merge_join :
      (rest : List Chunk)
      → ltb limit (length para) ≡ false
      → flushes limit cur para ≡ false
      → merge source_file file_id limit ps idx (cur ++ para) ≡ some rest
      → merge source_file file_id limit (para ∷ ps) idx cur ≡ some rest
  unfolding merge
  merge_join rest fits kept e = ground arith
