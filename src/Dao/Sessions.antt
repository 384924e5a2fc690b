-- ===== src/Dao/Sessions.antt =====
-- src/dao/SessionDao.cpp, over the session cache of CacheManager.
use fileagent_server.Base.{Bool, ◌++◌, Option, none, some}
use fileagent_server.Base.Bytes.{Bytes, codes}
use fileagent_server.Base.Int.{ℤ, pos}
use fileagent_server.Base.Number.{to_string}
use fileagent_server.Base.Outcome.{Outcome, returned, M, pure, ◌>>=◌, tries}
use fileagent_server.CacheInterface.{CacheInterface}
use fileagent_server.Dao.Rows.{make_session_record, make_found}
use fileagent_server.Database.{Mysql, escape, first_row, run_update}
use fileagent_server.Models.{SessionRecord}

module _ {S : Type 0} (db : Mysql S) where
  unfoldable pub insert_sql : ℤ → Bytes → Bytes → Bytes
  insert_sql user_id token expires_at =
      codes "INSERT INTO sessions (user_id, session_token, expires_at) VALUES ("
      ++ (to_string user_id
          ++ (codes ", '"
              ++ (escape db token ++ (codes "', '" ++ (escape db expires_at ++ codes "')")))))

  unfoldable pub by_token_sql : Bytes → Bytes
  by_token_sql token =
      codes
        "SELECT id, user_id, session_token, expires_at, created_at FROM sessions WHERE session_token = '"
      ++ (escape db token ++ codes "' AND expires_at > NOW() LIMIT 1")

  unfoldable pub delete_sql : Bytes → Bytes
  delete_sql token =
      codes "DELETE FROM sessions WHERE session_token = '" ++ (escape db token ++ codes "'")

  unfoldable pub find_session : Bytes → S → Outcome (Option SessionRecord)
  find_session token st = make_found make_session_record (first_row db (by_token_sql token) st)

  module _ (C : CacheInterface Bytes SessionRecord) where
    -- The database and the session cache.
    pub record SessionStore : Type 0 where
      pub server : S
      pub cache : C.State

    unfoldable pub create_session : ℤ → Bytes → Bytes → SessionStore → Bool × SessionStore
    create_session user_id token expires_at s =
        let (done, st) = run_update db (insert_sql user_id token expires_at) s.server in
        (done, record s { server = st })

    abbrev pub cache_get : Bytes → M SessionStore (Option SessionRecord)
    cache_get token s =
        (returned (C.get token s.cache).0, record s { cache = (C.get token s.cache).1 })

    abbrev pub remember : Option SessionRecord → M SessionStore (Option SessionRecord)
    remember none s = (returned none, s)
    remember (some r) s = (returned (some r), record s { cache = C.put r.session_token r s.cache })

    -- What follows the question to the cache.
    abbrev pub search_unless : Bytes → Option SessionRecord → M SessionStore (Option SessionRecord)
    search_unless token (some r) = pure (some r)
    search_unless token none = tries (λ s. find_session token s.server) >>= remember

    unfoldable pub find_by_token : Bytes → M SessionStore (Option SessionRecord)
    find_by_token token = cache_get token >>= search_unless token

    unfoldable pub delete_by_token : Bytes → SessionStore → Bool × SessionStore
    delete_by_token token s =
        let (done, st) = run_update db (delete_sql token) s.server in
        (done, record { server = st; cache = (C.remove token s.cache).1 })

    unfoldable pub delete_by_user_id : ℤ → SessionStore → Bool × SessionStore
    delete_by_user_id user_id s =
        let (done, st) =
          run_update db (codes "DELETE FROM sessions WHERE user_id = " ++ to_string user_id)
            s.server in
        (done, record s { server = st })

    -- The number of deleted sessions is not known, so that 0 is returned in any case.
    unfoldable pub delete_expired_sessions : SessionStore → ℤ × SessionStore
    delete_expired_sessions s =
        let (done, st) =
          run_update db (codes "DELETE FROM sessions WHERE expires_at <= NOW()") s.server in
        (pos 0, record s { server = st })
