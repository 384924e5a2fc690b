-- ===== src/ChunkUpload/Cleanup.antt =====
-- src/service/ChunkUploadService.cpp: which sessions a round of `cleanupLoop` erases.
use fileagent_server.Base.{
  ℕ, ◌+◌, ◌≡◌, ◌∙◌, refl, sym, ap, arith, Bool, false, List, [], ◌∷◌, Option, none, some, ltb, ◌||◌,
  if◌then◌else◌, Bool-cases, inl, inr,
}
use fileagent_server.Base.Bytes.{Bytes, bytes_eq, bytes_eq_iff, bytes_key}
use fileagent_server.Base.Assoc.{lookup, erase, lookup-erase}
use fileagent_server.ChunkUpload.{
  ChunkUploadSession, Sessions, get_session, expired_ids, erase_all, cleanup,
}

abbrev member : Bytes → List Bytes → Bool
member id [] = false
member id (j ∷ js) = bytes_eq j id || member id js

-- Each id has one session, as in every map.
abbrev pub Apart : Sessions → Type 0
Apart [] = Unit
Apart ((id, s) ∷ sessions) = (lookup id sessions ≡ none) × Apart sessions

-- What is left of an entry of the map.
abbrev pub unexpired : ℕ → ℕ → Option ChunkUploadSession → Option ChunkUploadSession
unexpired max_age now none = none
unexpired max_age now (some s) = if ltb (s.created_at + max_age) now then none else some s

lookup-erase_all :
    (id : Bytes) (ids : List Bytes) (sessions : Sessions)
    → lookup id (erase_all ids sessions) ≡ (if member id ids then none else lookup id sessions)
unfolding erase_all
lookup-erase_all id [] sessions = refl
lookup-erase_all id (j ∷ js) sessions =
    let rest = lookup-erase_all id js (erase j sessions) in
    let one = lookup-erase j id sessions in ground (arith, rest, one)

expired_ids-unknown :
    (max_age now : ℕ) (id : Bytes) (sessions : Sessions)
    → lookup id sessions ≡ none
    → member id (expired_ids max_age now sessions) ≡ false
unfolding expired_ids lookup
expired_ids-unknown max_age now id [] n = refl
expired_ids-unknown max_age now id ((j, s) ∷ sessions) n =
    let rest = expired_ids-unknown max_age now id sessions in ground (arith, rest, n)

expired_ids-unexpired :
    (max_age now : ℕ) (id : Bytes) (sessions : Sessions)
    → Apart sessions
    → (if member id (expired_ids max_age now sessions) then none else lookup id sessions)
      ≡ unexpired max_age now (lookup id sessions)
unfolding expired_ids lookup
expired_ids-unexpired max_age now id [] h = refl
expired_ids-unexpired max_age now id ((j, s) ∷ sessions) h = elim (Bool-cases (bytes_eq j id)) [
  | inl e ↦
      let unknown =
        expired_ids-unknown max_age now id sessions
          (ap (λ k. lookup k sessions) (sym ((bytes_eq_iff j id).0 e)) ∙ h.0) in
      ground (arith, unknown, e)
  | inr e ↦ let rest = expired_ids-unexpired max_age now id sessions h.1 in ground (arith, rest, e)
]

-- A round of the cleaning erases exactly the sessions that are older than the limit.
pub get_session-cleanup :
    (max_age now : ℕ) (id : Bytes) (sessions : Sessions)
    → Apart sessions
    → get_session id (cleanup max_age now sessions)
      ≡ unexpired max_age now (get_session id sessions)
unfolding get_session cleanup
get_session-cleanup max_age now id sessions h =
    lookup-erase_all id (expired_ids max_age now sessions) sessions
    ∙ expired_ids-unexpired max_age now id sessions h
