-- ===== src/FileService/Known.antt =====
-- src/service/FileService.cpp: reads, and the creation of a file whose hash is there, change nothing in
-- the database.
use fileagent_server.Base.{
  ◌≡◌, ◌∙◌, refl, sym, ap, true, Option, none, some, is_empty, Bool-cases, inl, inr,
}
use fileagent_server.Base.Bytes.{Bytes, codes, bytes_key}
use fileagent_server.Base.Int.{ℤ, pos, leb_ℤ, int_key}
use fileagent_server.Base.Outcome.{Outcome, returned, thrown, M, bind}
use fileagent_server.CacheInterface.{CacheInterface, IsLawful}
use fileagent_server.Dao.Files.{find_by_id, find_by_hash}
use fileagent_server.Database.{Mysql}
use fileagent_server.Models.{FileRecord, ServiceResult, failed}
use fileagent_server.StringUtil.{trim_copy}
use fileagent_server.FileService.{
  FileStore, validate_record, normalized, put_by_id, put_by_hash, unless_there, create_valid,
  create, kept, unless_cached, get_file_by_id, get_file_by_hash,
}
use fileagent_server.FileService.Answers.{answer, answer-get_file_by_id}
use fileagent_server.FileService.Coherence.{IsCoherent}

module _ {S : Type 0} (db : Mysql S) (ById : CacheInterface ℤ FileRecord)
    (ByHash : CacheInterface Bytes FileRecord) where
  unless_cached-server :
      (load : M (FileStore db ById ByHash) (ServiceResult FileRecord)) (o : Option FileRecord)
      (s : FileStore db ById ByHash)
      → (load s).1.server ≡ s.server
      → (unless_cached db ById ByHash load o s).1.server ≡ s.server
  unless_cached-server load none s h = h
  unless_cached-server load (some r) s h = refl

  kept_by_id-server :
      (o : Outcome (Option FileRecord)) (s : FileStore db ById ByHash)
      → (bind (kept db ById ByHash (put_by_id db ById ByHash)) (o, s)).1.server ≡ s.server
  kept_by_id-server thrown s = refl
  kept_by_id-server (returned none) s = refl
  kept_by_id-server (returned (some r)) s = refl

  kept_by_hash-server :
      (o : Outcome (Option FileRecord)) (s : FileStore db ById ByHash)
      → (bind (kept db ById ByHash (put_by_hash db ById ByHash)) (o, s)).1.server ≡ s.server
  kept_by_hash-server thrown s = refl
  kept_by_hash-server (returned none) s = refl
  kept_by_hash-server (returned (some r)) s = refl

  pub get_file_by_id-server :
      (id : ℤ) (s : FileStore db ById ByHash)
      → (get_file_by_id db ById ByHash id s).1.server ≡ s.server
  unfolding get_file_by_id
  get_file_by_id-server id s = elim (Bool-cases (leb_ℤ id (pos 0))) [
    | inl p ↦ rw p refl
    | inr p ↦ rw p (
        unless_cached-server _ (ById.get id s.by_id).0 _
          (kept_by_id-server (find_by_id db id s.server) _))
  ]

  pub get_file_by_hash-server :
      (hash : Bytes) (s : FileStore db ById ByHash)
      → (get_file_by_hash db ById ByHash hash s).1.server ≡ s.server
  unfolding get_file_by_hash
  get_file_by_hash-server hash s = elim (Bool-cases (is_empty (trim_copy hash))) [
    | inl p ↦ rw p refl
    | inr p ↦ rw p (
        unless_cached-server _ (ByHash.get (trim_copy hash) s.by_hash).0 _
          (kept_by_hash-server (find_by_hash db (trim_copy hash) s.server) _))
  ]

  create_valid-known :
      (new existing : FileRecord) (o : Option Bytes) (s : FileStore db ById ByHash)
      → find_by_hash db new.file_hash s.server ≡ returned (some existing)
      → (create_valid db ById ByHash new o s).1 ≡ s
  create_valid-known new existing (some message) s h = refl
  create_valid-known new existing none s h =
      ap (λ o. (bind (unless_there db ById ByHash new) (o, s)).1) h

  -- A file whose hash is there is not created again.
  pub create-known :
      (new existing : FileRecord) (s : FileStore db ById ByHash)
      → find_by_hash db (trim_copy new.file_hash) s.server ≡ returned (some existing)
      → (create db ById ByHash new s).1 ≡ s
  unfolding create normalized
  create-known new existing s h =
      create_valid-known (normalized new) existing (validate_record (normalized new)) s h

  refused :
      (id : ℤ) (s : FileStore db ById ByHash)
      → leb_ℤ id (pos 0) ≡ true
      → (get_file_by_id db ById ByHash id s).0 ≡ returned (failed (codes "file id is invalid"))
  unfolding get_file_by_id
  refused id s p = rw p refl

  module _ (byId : IsLawful ById) (byHash : IsLawful ByHash) where
    -- What is answered by its id is in the table.
    pub get_file_by_id-found :
        (id : ℤ) (result : ServiceResult FileRecord) (r : FileRecord) (s : FileStore db ById ByHash)
        → IsCoherent db ById ByHash byId byHash s
        → (get_file_by_id db ById ByHash id s).0 ≡ returned result
        → result.value ≡ some r
        → find_by_id db id s.server ≡ returned (some r)
    get_file_by_id-found id result r s c e f = elim (Bool-cases (leb_ℤ id (pos 0))) [
      | inl p ↦ absurd (cc (sym (refused id s p) ∙ e, f))
      | inr p ↦
          sym (answer-get_file_by_id db ById ByHash byId byHash id s c p)
          ∙ ap (answer db ById ByHash byId byHash) e
          ∙ ap returned f
    ]
