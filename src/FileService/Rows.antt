-- ===== src/FileService/Rows.antt =====
-- src/service/FileService.cpp: what the caches of files hold.
use fileagent_server.Base.{
  ◌≡◌, ◌∙◌, refl, sym, ap, subst, Bool, true, false, Option, none, some, is_empty, Bool-cases, inl,
  inr,
}
use fileagent_server.Base.Bytes.{Bytes, bytes_key}
use fileagent_server.Base.Int.{ℤ, pos, leb_ℤ, int_key}
use fileagent_server.Base.Outcome.{Outcome, returned, thrown, M, bind}
use fileagent_server.CacheInterface.{CacheInterface, IsLawful}
use fileagent_server.Dao.Files.{create_file, find_by_id, find_by_hash}
use fileagent_server.Database.{Mysql}
use fileagent_server.Models.{FileRecord, ServiceResult}
use fileagent_server.StringUtil.{trim_copy}
use fileagent_server.FileService.{
  FileStore, validate_record, normalized, put_by_id, put_by_hash, reloaded, created, unless_there,
  create_valid, create, kept, unless_cached, get_file_by_id, get_file_by_hash,
}

-- What the table of files promises, where `Holds` says that a row is in the table: a row that a query
-- finds is there, and the statement that inserts a row changes none of the others.
pub record IsTable {S : Type 0} (db : Mysql S) (Holds : S → FileRecord → Type 0) : Type 0 where
  pub found_by_id :
      (id : ℤ) (r : FileRecord) (st : S) → find_by_id db id st ≡ returned (some r) → Holds st r
  pub found_by_hash :
      (hash : Bytes) (r : FileRecord) (st : S)
      → find_by_hash db hash st ≡ returned (some r)
      → Holds st r
  pub keeps : (r new : FileRecord) (st : S) → Holds st r → Holds (create_file db new st).1 r

module _ {S : Type 0} (db : Mysql S) (ById : CacheInterface ℤ FileRecord)
    (ByHash : CacheInterface Bytes FileRecord) (Holds : S → FileRecord → Type 0)
    (byId : IsLawful ById) (byHash : IsLawful ByHash) where
  abbrev Store : Type 0
  Store = FileStore db ById ByHash

  -- Whatever a cache holds is a row of the table, under its own key.
  pub record HoldsRows (s : FileStore db ById ByHash) : Type 0 where
    pub id_IsValid : byId.IsValid s.by_id
    pub hash_IsValid : byHash.IsValid s.by_hash
    pub same_by_id :
        (id : ℤ) (r : FileRecord) → byId.peek id s.by_id ≡ some r → Holds s.server r × (r.id ≡ id)
    pub same_by_hash :
        (hash : Bytes) (r : FileRecord)
        → byHash.peek hash s.by_hash ≡ some r
        → Holds s.server r × (r.file_hash ≡ hash)

  got_id-HoldsRows :
      (id : ℤ) (s : FileStore db ById ByHash)
      → HoldsRows s
      → HoldsRows (record s { by_id = (ById.get id s.by_id).1 })
  got_id-HoldsRows id s c = record {
    id_IsValid = byId.get-IsValid id s.by_id c.id_IsValid;
    hash_IsValid = c.hash_IsValid;
    same_by_id = λ j r h. c.same_by_id j r (sym (byId.peek-get id j s.by_id c.id_IsValid) ∙ h);
    same_by_hash = c.same_by_hash;
  }

  got_hash-HoldsRows :
      (hash : Bytes) (s : FileStore db ById ByHash)
      → HoldsRows s
      → HoldsRows (record s { by_hash = (ByHash.get hash s.by_hash).1 })
  got_hash-HoldsRows hash s c = record {
    id_IsValid = c.id_IsValid;
    hash_IsValid = byHash.get-IsValid hash s.by_hash c.hash_IsValid;
    same_by_id = c.same_by_id;
    same_by_hash =
        λ j r h. c.same_by_hash j r (sym (byHash.peek-get hash j s.by_hash c.hash_IsValid) ∙ h);
  }

  put_by_id-HoldsRows :
      (r : FileRecord) (s : FileStore db ById ByHash)
      → Holds s.server r
      → HoldsRows s
      → HoldsRows (record s { by_id = ById.put r.id r s.by_id })
  put_by_id-HoldsRows r s there c = record {
    id_IsValid = byId.put-IsValid r.id r s.by_id c.id_IsValid;
    hash_IsValid = c.hash_IsValid;
    same_by_id = λ j w h. elim (byId.peek-put r.id j r w s.by_id c.id_IsValid h) [
      | inl old ↦ c.same_by_id j w old
      | inr (key, value) ↦
          (subst (Holds s.server) (sym value) there, ap (λ x. x.id) value ∙ sym key)
    ];
    same_by_hash = c.same_by_hash;
  }

  put_by_hash-HoldsRows :
      (r : FileRecord) (s : FileStore db ById ByHash)
      → Holds s.server r
      → HoldsRows s
      → HoldsRows (record s { by_hash = ByHash.put r.file_hash r s.by_hash })
  put_by_hash-HoldsRows r s there c = record {
    id_IsValid = c.id_IsValid;
    hash_IsValid = byHash.put-IsValid r.file_hash r s.by_hash c.hash_IsValid;
    same_by_id = c.same_by_id;
    same_by_hash = λ j w h. elim (byHash.peek-put r.file_hash j r w s.by_hash c.hash_IsValid h) [
      | inl old ↦ c.same_by_hash j w old
      | inr (key, value) ↦
          (subst (Holds s.server) (sym value) there, ap (λ x. x.file_hash) value ∙ sym key)
    ];
  }

  module _ (table : IsTable db Holds) where
    grown-HoldsRows :
        (new : FileRecord) (s : FileStore db ById ByHash)
        → HoldsRows s
        → HoldsRows (record s { server = (create_file db new s.server).1 })
    grown-HoldsRows new s c = record {
      id_IsValid = c.id_IsValid;
      hash_IsValid = c.hash_IsValid;
      same_by_id =
          λ j r h. (table.keeps r new s.server (c.same_by_id j r h).0, (c.same_by_id j r h).1);
      same_by_hash =
          λ j r h. (table.keeps r new s.server (c.same_by_hash j r h).0, (c.same_by_hash j r h).1);
    }

    unless_cached-HoldsRows :
        (load : M (FileStore db ById ByHash) (ServiceResult FileRecord)) (o : Option FileRecord)
        (s : FileStore db ById ByHash)
        → HoldsRows s
        → HoldsRows (load s).1
        → HoldsRows (unless_cached db ById ByHash load o s).1
    unless_cached-HoldsRows load none s c l = l
    unless_cached-HoldsRows load (some r) s c l = c

    loaded_by_id :
        (id : ℤ) (s : FileStore db ById ByHash) (o : Outcome (Option FileRecord))
        → find_by_id db id s.server ≡ o
        → HoldsRows s
        → HoldsRows (bind (kept db ById ByHash (put_by_id db ById ByHash)) (o, s)).1
    loaded_by_id id s thrown e c = c
    loaded_by_id id s (returned none) e c = c
    loaded_by_id id s (returned (some r)) e c =
        put_by_id-HoldsRows r s (table.found_by_id id r s.server e) c

    loaded_by_hash :
        (hash : Bytes) (s : FileStore db ById ByHash) (o : Outcome (Option FileRecord))
        → find_by_hash db hash s.server ≡ o
        → HoldsRows s
        → HoldsRows (bind (kept db ById ByHash (put_by_hash db ById ByHash)) (o, s)).1
    loaded_by_hash hash s thrown e c = c
    loaded_by_hash hash s (returned none) e c = c
    loaded_by_hash hash s (returned (some r)) e c =
        put_by_hash-HoldsRows r s (table.found_by_hash hash r s.server e) c

    get_file_by_id-HoldsRows :
        (id : ℤ) (s : FileStore db ById ByHash)
        → HoldsRows s
        → HoldsRows (get_file_by_id db ById ByHash id s).1
    unfolding get_file_by_id
    get_file_by_id-HoldsRows id s c = elim (Bool-cases (leb_ℤ id (pos 0))) [
      | inl p ↦ rw p c
      | inr p ↦
          let got = got_id-HoldsRows id s c in
          rw p (
            unless_cached-HoldsRows _ (ById.get id s.by_id).0 _ got
              (loaded_by_id id _ (find_by_id db id s.server) refl got))
    ]

    get_file_by_hash-HoldsRows :
        (hash : Bytes) (s : FileStore db ById ByHash)
        → HoldsRows s
        → HoldsRows (get_file_by_hash db ById ByHash hash s).1
    unfolding get_file_by_hash
    get_file_by_hash-HoldsRows hash s c = elim (Bool-cases (is_empty (trim_copy hash))) [
      | inl p ↦ rw p c
      | inr p ↦
          let key = trim_copy hash in
          let got = got_hash-HoldsRows key s c in
          rw p (
            unless_cached-HoldsRows _ (ByHash.get key s.by_hash).0 _ got
              (loaded_by_hash key _ (find_by_hash db key s.server) refl got))
    ]

    reloaded-HoldsRows :
        (hash : Bytes) (s : FileStore db ById ByHash) (o : Outcome (Option FileRecord))
        → find_by_hash db hash s.server ≡ o
        → HoldsRows s
        → HoldsRows (bind (reloaded db ById ByHash) (o, s)).1
    reloaded-HoldsRows hash s thrown e c = c
    reloaded-HoldsRows hash s (returned none) e c = c
    reloaded-HoldsRows hash s (returned (some r)) e c =
        put_by_hash-HoldsRows r _ (table.found_by_hash hash r s.server e)
          (put_by_id-HoldsRows r s (table.found_by_hash hash r s.server e) c)

    created-HoldsRows :
        (hash : Bytes) (done : Bool) (s : FileStore db ById ByHash)
        → HoldsRows s
        → HoldsRows (created db ById ByHash hash done s).1
    created-HoldsRows hash false s c = c
    created-HoldsRows hash true s c =
        reloaded-HoldsRows hash s (find_by_hash db hash s.server) refl c

    unless_there-HoldsRows :
        (new : FileRecord) (s : FileStore db ById ByHash) (o : Outcome (Option FileRecord))
        → HoldsRows s
        → HoldsRows (bind (unless_there db ById ByHash new) (o, s)).1
    unless_there-HoldsRows new s thrown c = c
    unless_there-HoldsRows new s (returned (some r)) c = c
    unless_there-HoldsRows new s (returned none) c =
        created-HoldsRows new.file_hash (create_file db new s.server).0 _ (grown-HoldsRows new s c)

    create_valid-HoldsRows :
        (new : FileRecord) (o : Option Bytes) (s : FileStore db ById ByHash)
        → HoldsRows s
        → HoldsRows (create_valid db ById ByHash new o s).1
    create_valid-HoldsRows new (some m) s c = c
    create_valid-HoldsRows new none s c =
        unless_there-HoldsRows new s (find_by_hash db new.file_hash s.server) c

    create-HoldsRows :
        (new : FileRecord) (s : FileStore db ById ByHash)
        → HoldsRows s
        → HoldsRows (create db ById ByHash new s).1
    unfolding create
    create-HoldsRows new s c =
        create_valid-HoldsRows (normalized new) (validate_record (normalized new)) s c

    -- Where a row that a query finds is in the table, and the insertion of a file changes no other row:
    -- if the caches hold only rows of the table, each under its own id or hash, this stays so when
    -- a file is created, or looked for by its id or its hash, whatever the answer is.
    pub services-HoldsRows :
        (new : FileRecord) (id : ℤ) (hash : Bytes) (s : FileStore db ById ByHash)
        → HoldsRows s
        → HoldsRows (create db ById ByHash new s).1
          × HoldsRows (get_file_by_id db ById ByHash id s).1
          × HoldsRows (get_file_by_hash db ById ByHash hash s).1
    services-HoldsRows new id hash s c = (
      create-HoldsRows new s c,
      get_file_by_id-HoldsRows id s c,
      get_file_by_hash-HoldsRows hash s c,
    )
