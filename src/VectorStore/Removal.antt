-- ===== src/VectorStore/Removal.antt =====
-- src/vector/VectorStore.cpp: what is removed is not found.
use fileagent_server.Base.{
  ◌≢◌, arith, ◌||◌, List, [], ◌∷◌, take, All, zero, suc, ℕ, Bool-cases, inl, inr, is_empty,
}
use fileagent_server.Base.Int.{ℤ, pos_part, eq_ℤ, eq_ℤ_iff}
use fileagent_server.VectorStore.{Document, remove_by_file_id, score_all, results_of, search}

-- What a sort, which moves elements about, keeps.
abbrev pub KeepsAll : {A : Type 0} → (List A → List A) → Type 1
KeepsAll {A} sort = (P : A → Type 0) (xs : List A) → All P xs → All P (sort xs)

All-take : {A : Type 0} (P : A → Type 0) (n : ℕ) (xs : List A) → All P xs → All P (take n xs)
All-take P zero xs h = tt
All-take P (suc n) [] h = tt
All-take P (suc n) (x ∷ xs) h = (h.0, All-take P n xs h.1)

module _ {F : Type 0} (cosine_similarity : List F → List F → F) (file_id : ℤ) where
  others-remove_by_file_id :
      (index : List (Document F)) → All (λ d. d.file_id ≢ file_id) (remove_by_file_id file_id index)
  unfolding remove_by_file_id
  others-remove_by_file_id [] = tt
  others-remove_by_file_id (d ∷ index) = elim (Bool-cases (eq_ℤ d.file_id file_id)) [
    | inl e ↦ rw e (others-remove_by_file_id index)
    | inr e ↦ rw e (
      λ same. ground (arith, eq_ℤ_iff d.file_id file_id, same, e),
      others-remove_by_file_id index,
    )
  ]

  score_all-others :
      (query : List F) (index : List (Document F))
      → All (λ d. d.file_id ≢ file_id) index
      → All (λ s. s.0.file_id ≢ file_id) (score_all cosine_similarity query index)
  unfolding score_all
  score_all-others query [] h = tt
  score_all-others query (d ∷ index) h = elim (Bool-cases (is_empty d.embedding)) [
    | inl e ↦ rw e (score_all-others query index h.1)
    | inr e ↦ rw e (h.0, score_all-others query index h.1)
  ]

  results_of-others :
      (scored : List (Document F × F))
      → All (λ s. s.0.file_id ≢ file_id) scored
      → All (λ r. r.file_id ≢ file_id) (results_of scored)
  unfolding results_of
  results_of-others [] h = tt
  results_of-others ((d, s) ∷ scored) h = (h.0, results_of-others scored h.1)

  -- After the documents of a file were removed, no search finds one, whatever the scores are and
  -- however the sort orders them, if it only moves them about.
  pub search-remove_by_file_id :
      (sort : List (Document F × F) → List (Document F × F)) (query : List F) (top_k : ℤ)
      (index : List (Document F))
      → KeepsAll sort
      → All
          (λ r. r.file_id ≢ file_id)
          (search cosine_similarity sort query top_k (remove_by_file_id file_id index))
  unfolding search
  search-remove_by_file_id sort query top_k index keeps =
      let left = remove_by_file_id file_id index in
      elim (Bool-cases (is_empty left || is_empty query)) [
        | inl e ↦ rw e tt
        | inr e ↦ rw e (
            results_of-others _ (
              All-take _ (pos_part top_k) _
                (keeps _ _ (score_all-others query left (others-remove_by_file_id index)))))
      ]
