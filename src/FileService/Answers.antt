-- ===== src/FileService/Answers.antt =====
-- src/service/FileService.cpp: while the caches agree with the table, they do not show.
use fileagent_server.Base.{◌≡◌, ◌∙◌, refl, sym, false, Option, none, some, is_empty}
use fileagent_server.Base.Bytes.{Bytes, codes, bytes_key}
use fileagent_server.Base.Int.{ℤ, pos, leb_ℤ, int_key}
use fileagent_server.Base.Outcome.{Outcome, returned, thrown, M, pure, bind}
use fileagent_server.CacheInterface.{CacheInterface, IsLawful}
use fileagent_server.Dao.Files.{find_by_id, find_by_hash}
use fileagent_server.Database.{Mysql}
use fileagent_server.Models.{FileRecord, ServiceResult, succeed}
use fileagent_server.StringUtil.{trim_copy}
use fileagent_server.FileService.{
  FileStore, put_by_id, put_by_hash, kept, unless_cached, get_file_by_id, get_file_by_hash,
}
use fileagent_server.FileService.Coherence.{IsCoherent}

module _ {S : Type 0} (db : Mysql S) (ById : CacheInterface ℤ FileRecord)
    (ByHash : CacheInterface Bytes FileRecord) (byId : IsLawful ById)
    (byHash : IsLawful ByHash) where
  -- What the service answers of a read of the table.
  abbrev pub answer : Outcome (ServiceResult FileRecord) → Outcome (Option FileRecord)
  answer thrown = thrown
  answer (returned r) = returned r.value

  answer-stored :
      (r : FileRecord) (x : Outcome (Unit {0}) × FileStore db ById ByHash)
      → x.0 ≡ returned tt
      → answer (bind (λ _. pure (succeed r (codes "query success"))) x).0 ≡ returned (some r)
  answer-stored r (returned u, s) h = refl
  answer-stored r (thrown, s) h = absurd (cc h)

  answer-kept :
      (put : FileRecord → M (FileStore db ById ByHash) (Unit {0})) (o : Outcome (Option FileRecord))
      (s : FileStore db ById ByHash)
      → ((r : FileRecord) → (put r s).0 ≡ returned tt)
      → answer (bind (kept db ById ByHash put) (o, s)).0 ≡ o
  answer-kept put thrown s h = refl
  answer-kept put (returned none) s h = refl
  answer-kept put (returned (some r)) s h = answer-stored r (put r s) (h r)

  answer-unless_cached :
      (load : M (FileStore db ById ByHash) (ServiceResult FileRecord)) (o : Option FileRecord)
      (found : Outcome (Option FileRecord)) (s : FileStore db ById ByHash)
      → answer (load s).0 ≡ found
      → ((r : FileRecord) → o ≡ some r → found ≡ returned (some r))
      → answer (unless_cached db ById ByHash load o s).0 ≡ found
  answer-unless_cached load none found s l h = l
  answer-unless_cached load (some r) found s l h = sym (h r refl)

  pub answer-get_file_by_id :
      (id : ℤ) (s : FileStore db ById ByHash)
      → IsCoherent db ById ByHash byId byHash s
      → leb_ℤ id (pos 0) ≡ false
      → answer (get_file_by_id db ById ByHash id s).0 ≡ find_by_id db id s.server
  unfolding get_file_by_id
  answer-get_file_by_id id s c p = rw p (
      answer-unless_cached _ (ById.get id s.by_id).0 (find_by_id db id s.server) _
        (answer-kept (put_by_id db ById ByHash) (find_by_id db id s.server) _ (λ r. refl))
        (λ r e. c.same_by_id id r (sym (byId.get_answer id s.by_id c.id_IsValid) ∙ e)))

  -- The caches do not show: where they hold only what the table holds, a file is answered by its id,
  -- if that is positive, or by its hash, if that is not blank, exactly as the table has it.
  pub answer-get_file :
      (id : ℤ) (hash : Bytes) (s : FileStore db ById ByHash)
      → IsCoherent db ById ByHash byId byHash s
      → leb_ℤ id (pos 0) ≡ false
      → is_empty (trim_copy hash) ≡ false
      → (answer (get_file_by_id db ById ByHash id s).0 ≡ find_by_id db id s.server)
        × (answer (get_file_by_hash db ById ByHash hash s).0
            ≡ find_by_hash db (trim_copy hash) s.server)
  unfolding get_file_by_hash
  answer-get_file id hash s c p q = (
    answer-get_file_by_id id s c p,
    rw q (
        answer-unless_cached _ (ByHash.get (trim_copy hash) s.by_hash).0
          (find_by_hash db (trim_copy hash) s.server) _
          (answer-kept (put_by_hash db ById ByHash) (find_by_hash db (trim_copy hash) s.server) _
            (λ r. refl))
          (λ r e.
            c.same_by_hash (trim_copy hash) r
              (sym (byHash.get_answer (trim_copy hash) s.by_hash c.hash_IsValid) ∙ e))),
  )
