-- ===== src/FileService/Stale.antt =====
-- src/service/FileService.cpp: what the caches still hold after the database has changed.
use fileagent_server.Base.{◌≡◌, ◌∙◌, refl, false, none, some, is_empty}
use fileagent_server.Base.Bytes.{Bytes, codes, bytes_key}
use fileagent_server.Base.Int.{ℤ, pos, leb_ℤ, int_key}
use fileagent_server.Base.Outcome.{returned}
use fileagent_server.CacheInterface.{CacheInterface, IsLawful}
use fileagent_server.Database.{Mysql}
use fileagent_server.Models.{FileRecord, succeed}
use fileagent_server.StringUtil.{trim_copy}
use fileagent_server.FileService.{
  FileStore, get_file_by_id, get_file_by_hash, set_status, remove_file,
}

module _ {S : Type 0} (db : Mysql S) (ById : CacheInterface ℤ FileRecord)
    (ByHash : CacheInterface Bytes FileRecord) (byId : IsLawful ById)
    (byHash : IsLawful ByHash) where
  -- A record that is cached under its id is answered as it was, with its old status, right after the
  -- status was changed in the database.
  pub get_file_by_id-set_status :
      (id status : ℤ) (r : FileRecord) (s : FileStore db ById ByHash)
      → byId.IsValid s.by_id
      → leb_ℤ id (pos 0) ≡ false
      → byId.peek id s.by_id ≡ some r
      → (get_file_by_id db ById ByHash id (set_status db ById ByHash id status s).1).0
        ≡ returned (succeed r (codes "cache hit"))
  unfolding get_file_by_id set_status
  get_file_by_id-set_status id status r s v p h =
      let hit = byId.get_answer id s.by_id v ∙ h in rw (p, hit) refl

  -- A record that is cached under its hash, and whose id is not cached, is still answered under its
  -- hash right after the file was removed.
  pub get_file_by_hash-remove_file :
      (id : ℤ) (hash : Bytes) (r : FileRecord) (s : FileStore db ById ByHash)
      → byId.IsValid s.by_id
      → byHash.IsValid s.by_hash
      → leb_ℤ id (pos 0) ≡ false
      → is_empty (trim_copy hash) ≡ false
      → byId.peek id s.by_id ≡ none
      → byHash.peek (trim_copy hash) s.by_hash ≡ some r
      → (get_file_by_hash db ById ByHash hash (remove_file db ById ByHash id s).1).0
        ≡ returned (succeed r (codes "cache hit"))
  unfolding get_file_by_hash remove_file
  get_file_by_hash-remove_file id hash r s v w p q miss h =
      let absent = byId.get_answer id s.by_id v ∙ miss in
      let hit = byHash.get_answer (trim_copy hash) s.by_hash w ∙ h in rw (p, q, absent, hit) refl
