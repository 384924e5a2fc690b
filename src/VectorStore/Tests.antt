-- ===== src/VectorStore/Tests.antt =====
-- Runs of the index, with numbers in place of floating-point ones.
use fileagent_server.Base.{ℕ, ◌*◌, ◌≡◌, ◌≢◌, refl, List, [], ◌∷◌, All}
use fileagent_server.Base.Bytes.{codes}
use fileagent_server.Base.Int.{ℤ, pos}
use fileagent_server.VectorStore.{
  Document, add_document, remove_by_file_id, score_all, results_of, search,
}
use fileagent_server.VectorStore.Removal.{search-remove_by_file_id}

abbrev score : List ℕ → List ℕ → ℕ
score [] v = 0
score (a ∷ u) [] = 0
score (a ∷ u) (b ∷ v) = a * b

abbrev doc : ℤ → ℕ → Document ℕ
doc id x = record {
  chunk_id = codes "i";
  file_id = id;
  filename = codes "f";
  content = codes "c";
  chunk_index = pos 0;
  embedding = x ∷ [];
}

abbrev index : List (Document ℕ)
index = add_document (doc (pos 2) 5) (add_document (doc (pos 1) 3) [])

abbrev same_order : List (Document ℕ × ℕ) → List (Document ℕ × ℕ)
same_order xs = xs

one_left :
    search score same_order (2 ∷ []) (pos 5) (remove_by_file_id (pos 1) index)
    ≡ record {
      file_id = pos 2;
      filename = codes "f";
      content = codes "c";
      score = 10;
      chunk_index = pos 0;
    }
      ∷ []
unfolding search score_all results_of remove_by_file_id add_document
one_left = refl

search-remove_by_file_id_example :
    All
      (λ r. r.file_id ≢ pos 1)
      (search score same_order (2 ∷ []) (pos 5) (remove_by_file_id (pos 1) index))
search-remove_by_file_id_example =
    search-remove_by_file_id score (pos 1) same_order (2 ∷ []) (pos 5) index (λ P xs h. h)
