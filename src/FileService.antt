-- ===== src/FileService.antt =====
-- src/service/FileService.cpp, over the table of files and the two file caches of CacheManager.
pub mod Coherence
pub mod Rows
pub mod Answers
pub mod Stale
pub mod Known
mod Tests
use fileagent_server.Base.{
  Bool, true, false, not, ◌||◌, List, [], ◌∷◌, Option, none, some, if◌then◌else◌, is_empty,
}
use fileagent_server.Base.Bytes.{Bytes, codes}
use fileagent_server.Base.Int.{ℤ, pos, leb_ℤ, ltb_ℤ}
use fileagent_server.Base.Outcome.{
  Outcome, returned, thrown, M, pure, bind, ◌>>=◌, ◌>>◌, tries, changes,
}
use fileagent_server.CacheInterface.{CacheInterface}
use fileagent_server.Dao.Files.{
  create_file, find_by_id, find_by_hash, list_by_user_id, update_status, remove_by_id,
}
use fileagent_server.Database.{Mysql}
use fileagent_server.Models.{
  FileRecord, ServiceResult, succeed, failed, ServiceStatus, status_ok, status_fail,
  ServiceListResult, succeed_list, failed_list,
}
use fileagent_server.StringUtil.{trim_copy}

-- The message of the first failure, if any.
unfoldable pub validate_record : FileRecord → Option Bytes
validate_record r =
    if leb_ℤ r.user_id (pos 0)
    then some (codes "user id is invalid")
    else if is_empty r.filename
    then some (codes "filename is empty")
    else if is_empty r.file_hash
    then some (codes "file hash is empty")
    else if is_empty r.storage_path
    then some (codes "storage path is empty")
    else if ltb_ℤ r.file_size (pos 0)
    then some (codes "file size is invalid")
    else none

unfoldable pub normalized : FileRecord → FileRecord
normalized r = record r {
  filename = trim_copy r.filename;
  file_hash = trim_copy r.file_hash;
  storage_path = trim_copy r.storage_path;
}

module _ {S : Type 0} (db : Mysql S) (ById : CacheInterface ℤ FileRecord)
    (ByHash : CacheInterface Bytes FileRecord) where
  -- The database, and the caches by id and by hash.
  pub record FileStore : Type 0 where
    pub server : S
    pub by_id : ById.State
    pub by_hash : ByHash.State

  abbrev get_by_id : ℤ → M FileStore (Option FileRecord)
  get_by_id id s = (returned (ById.get id s.by_id).0, record s { by_id = (ById.get id s.by_id).1 })

  abbrev get_by_hash : Bytes → M FileStore (Option FileRecord)
  get_by_hash hash s =
      (returned (ByHash.get hash s.by_hash).0, record s { by_hash = (ByHash.get hash s.by_hash).1 })

  abbrev put_by_id : FileRecord → M FileStore (Unit {0})
  put_by_id r = changes (λ s. record s { by_id = ById.put r.id r s.by_id })

  abbrev put_by_hash : FileRecord → M FileStore (Unit {0})
  put_by_hash r = changes (λ s. record s { by_hash = ByHash.put r.file_hash r s.by_hash })

  abbrev on_server : (S → Bool × S) → M FileStore Bool
  on_server f s = (returned (f s.server).0, record s { server = (f s.server).1 })

  -- The end of `createFile`.
  abbrev reloaded : Option FileRecord → M FileStore (ServiceResult FileRecord)
  reloaded none = pure (failed (codes "file created but cannot be reloaded"))
  reloaded (some r) = put_by_id r >> put_by_hash r >> pure (succeed r (codes "create file success"))

  abbrev created : Bytes → Bool → M FileStore (ServiceResult FileRecord)
  created hash false = pure (failed (codes "failed to create file"))
  created hash true = tries (λ s. find_by_hash db hash s.server) >>= reloaded

  abbrev unless_there : FileRecord → Option FileRecord → M FileStore (ServiceResult FileRecord)
  unless_there r (some existing) = pure (succeed existing (codes "file already exists"))
  unless_there r none = on_server (create_file db r) >>= created r.file_hash

  abbrev create_valid : FileRecord → Option Bytes → M FileStore (ServiceResult FileRecord)
  create_valid r (some message) = pure (failed message)
  create_valid r none = tries (λ s. find_by_hash db r.file_hash s.server) >>= unless_there r

  unfoldable pub create : FileRecord → M FileStore (ServiceResult FileRecord)
  create r = create_valid (normalized r) (validate_record (normalized r))

  -- What follows a read of the database: a record that was found is cached.
  abbrev kept :
      (FileRecord → M FileStore (Unit {0}))
      → Option FileRecord
      → M FileStore (ServiceResult FileRecord)
  kept put none = pure (failed (codes "file not found"))
  kept put (some r) = put r >> pure (succeed r (codes "query success"))

  abbrev unless_cached :
      M FileStore (ServiceResult FileRecord)
      → Option FileRecord
      → M FileStore (ServiceResult FileRecord)
  unless_cached load (some r) = pure (succeed r (codes "cache hit"))
  unless_cached load none = load

  unfoldable pub get_file_by_id : ℤ → M FileStore (ServiceResult FileRecord)
  get_file_by_id file_id =
      if leb_ℤ file_id (pos 0)
      then pure (failed (codes "file id is invalid"))
      else get_by_id file_id
        >>= unless_cached (tries (λ s. find_by_id db file_id s.server) >>= kept put_by_id)

  unfoldable pub get_file_by_hash : Bytes → M FileStore (ServiceResult FileRecord)
  get_file_by_hash file_hash =
      let hash = trim_copy file_hash in
      if is_empty hash
      then pure (failed (codes "file hash is empty"))
      else get_by_hash hash
        >>= unless_cached (tries (λ s. find_by_hash db hash s.server) >>= kept put_by_hash)

  unfoldable pub list_user_files : ℤ → ℤ → ℤ → M FileStore (ServiceListResult FileRecord)
  list_user_files user_id limit offset =
      if leb_ℤ user_id (pos 0)
      then pure (failed_list (codes "user id is invalid"))
      else if leb_ℤ limit (pos 0) || ltb_ℤ (pos 100) limit
      then pure (failed_list (codes "limit must be between 1 and 100"))
      else if ltb_ℤ offset (pos 0)
      then pure (failed_list (codes "offset is invalid"))
      else tries (λ s. list_by_user_id db user_id limit offset s.server) >>= λ files.
          pure (succeed_list files (codes "query success"))

  abbrev status_of : Bytes → Bytes → Bool → M FileStore ServiceStatus
  status_of bad good done = pure (if done then status_ok good else status_fail bad)

  unfoldable pub set_status : ℤ → ℤ → M FileStore ServiceStatus
  set_status file_id status =
      if leb_ℤ file_id (pos 0)
      then pure (status_fail (codes "file id is invalid"))
      else on_server (update_status db file_id status)
        >>= status_of (codes "failed to update file status") (codes "update status success")

  abbrev forget_hash : Option FileRecord → M FileStore (Unit {0})
  forget_hash none = pure tt
  forget_hash (some r) =
      changes (λ s. record s { by_hash = (ByHash.remove r.file_hash s.by_hash).1 })

  unfoldable pub remove_file : ℤ → M FileStore ServiceStatus
  remove_file file_id =
      if leb_ℤ file_id (pos 0)
      then pure (status_fail (codes "file id is invalid"))
      else get_by_id file_id
        >>= forget_hash
        >> changes (λ s. record s { by_id = (ById.remove file_id s.by_id).1 })
        >> on_server (remove_by_id db file_id)
        >>= status_of (codes "failed to remove file") (codes "remove file success")
