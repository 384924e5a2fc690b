-- ===== src/FileService/Coherence.antt =====
-- src/service/FileService.cpp: what it is for the caches to agree with the table of files.
use fileagent_server.Base.{◌≡◌, sym, subst, some, inl, inr}
use fileagent_server.Base.Bytes.{Bytes, bytes_key}
use fileagent_server.Base.Int.{ℤ, int_key}
use fileagent_server.Base.Outcome.{returned}
use fileagent_server.CacheInterface.{CacheInterface, IsLawful}
use fileagent_server.Dao.Files.{find_by_id, find_by_hash}
use fileagent_server.Database.{Mysql}
use fileagent_server.Models.{FileRecord}
use fileagent_server.FileService.{FileStore}

module _ {S : Type 0} (db : Mysql S) (ById : CacheInterface ℤ FileRecord)
    (ByHash : CacheInterface Bytes FileRecord) (byId : IsLawful ById)
    (byHash : IsLawful ByHash) where
  abbrev Store : Type 0
  Store = FileStore db ById ByHash

  -- Whatever a cache holds under a key, the table holds under that key.
  pub record IsCoherent (s : FileStore db ById ByHash) : Type 0 where
    pub id_IsValid : byId.IsValid s.by_id
    pub hash_IsValid : byHash.IsValid s.by_hash
    pub same_by_id :
        (id : ℤ) (r : FileRecord)
        → byId.peek id s.by_id ≡ some r
        → find_by_id db id s.server ≡ returned (some r)
    pub same_by_hash :
        (hash : Bytes) (r : FileRecord)
        → byHash.peek hash s.by_hash ≡ some r
        → find_by_hash db hash s.server ≡ returned (some r)

  pub put_by_id-IsCoherent :
      (r : FileRecord) (s : FileStore db ById ByHash)
      → find_by_id db r.id s.server ≡ returned (some r)
      → IsCoherent s
      → IsCoherent (record s { by_id = ById.put r.id r s.by_id })
  put_by_id-IsCoherent r s there c = record {
    id_IsValid = byId.put-IsValid r.id r s.by_id c.id_IsValid;
    hash_IsValid = c.hash_IsValid;
    same_by_id = λ j w h. elim (byId.peek-put r.id j r w s.by_id c.id_IsValid h) [
      | inl old ↦ c.same_by_id j w old
      | inr (key, value) ↦
          subst (λ x. find_by_id db x s.server ≡ returned (some w)) (sym key)
            (subst (λ x. find_by_id db r.id s.server ≡ returned (some x)) (sym value) there)
    ];
    same_by_hash = c.same_by_hash;
  }
