-- ===== src/VectorStore.antt =====
-- src/vector/VectorStore.cpp: the index of chunks. `F` is the type of floating-point numbers; the
-- cosine of two embeddings and the order that `std::sort` leaves are parameters.
pub mod Removal
mod Tests
use fileagent_server.Base.{
  ℕ, Bool, true, false, not, ◌||◌, List, [], ◌∷◌, ◌++◌, if◌then◌else◌, length, is_empty, take,
}
use fileagent_server.Base.Bytes.{Bytes}
use fileagent_server.Base.Int.{ℤ, pos_part, eq_ℤ}

module _ (F : Type 0) where
  pub record Document : Type 0 where
    pub chunk_id : Bytes
    pub file_id : ℤ
    pub filename : Bytes
    pub content : Bytes
    pub chunk_index : ℤ
    pub embedding : List F

  pub record SearchResult : Type 0 where
    pub file_id : ℤ
    pub filename : Bytes
    pub content : Bytes
    pub score : F
    pub chunk_index : ℤ

module _ {F : Type 0} where
  unfoldable pub add_document : Document F → List (Document F) → List (Document F)
  add_document doc index = index ++ doc ∷ []

  unfoldable pub add_documents : List (Document F) → List (Document F) → List (Document F)
  add_documents docs index = index ++ docs

  unfoldable pub remove_by_file_id : ℤ → List (Document F) → List (Document F)
  remove_by_file_id file_id [] = []
  remove_by_file_id file_id (d ∷ index) =
      let rest = remove_by_file_id file_id index in
      if eq_ℤ d.file_id file_id then rest else d ∷ rest

  unfoldable pub size : List (Document F) → ℕ
  size index = length index

  unfoldable pub clear : List (Document F) → List (Document F)
  clear index = []

  unfoldable pub results_of : List (Document F × F) → List (SearchResult F)
  results_of [] = []
  results_of ((d, score) ∷ scored) =
      record {
        file_id = d.file_id;
        filename = d.filename;
        content = d.content;
        score = score;
        chunk_index = d.chunk_index;
      }
      ∷ results_of scored

  module _ (cosine_similarity : List F → List F → F) where
    -- The loop over the documents, which leaves out those without an embedding.
    unfoldable pub score_all : List F → List (Document F) → List (Document F × F)
    score_all query [] = []
    score_all query (d ∷ index) =
        let rest = score_all query index in
        if is_empty d.embedding then rest else (d, cosine_similarity query d.embedding) ∷ rest

    unfoldable pub search :
        (List (Document F × F) → List (Document F × F))
        → List F
        → ℤ
        → List (Document F)
        → List (SearchResult F)
    search sort query top_k index =
        if is_empty index || is_empty query
        then []
        else results_of (take (pos_part top_k) (sort (score_all query index)))
