-- ===== src/Dao/Logout.antt =====
-- src/dao/SessionDao.cpp: what becomes of a session after the calls that end sessions.
mod Tests
use fileagent_server.Base.{
  ◌≡◌, ◌∙◌, refl, sym, ap, arith, Bool, true, false, List, [], ◌∷◌, Option, none, some, same,
  if◌then◌else◌, Bool-cases, inl, inr, same_refl,
}
use fileagent_server.Base.Bytes.{Bytes, codes, c_str, bytes_key, bytes_eq_refl}
use fileagent_server.Base.Int.{ℤ, pos}
use fileagent_server.Base.Outcome.{Outcome, returned, thrown, M, pure, bind, ◌>>=◌, tries}
use fileagent_server.CacheInterface.{CacheInterface, IsLawful}
use fileagent_server.Dao.Sessions.{
  SessionStore, remember, search_unless, by_token_sql, delete_sql, find_session, find_by_token,
  delete_by_token, delete_by_user_id, delete_expired_sessions,
}
use fileagent_server.Database.{Mysql, Row, query, next, first_row, run_update, update}
use fileagent_server.Models.{SessionRecord}

-- Where a DELETE of a token is executed, a SELECT for it that follows has no rows.
abbrev pub DeletesSessions : {S : Type 0} → Mysql S → Type 0
DeletesSessions {S = S} db =
    (token : Bytes) (st : S)
    → (db.execute (c_str (delete_sql db token)) st).0 ≡ true
    → db.select (c_str (by_token_sql db token)) (db.execute (c_str (delete_sql db token)) st).1
      ≡ some []

module _ {S : Type 0} (db : Mysql S) where
  no_row : (sql : Bytes) (st : S) → db.select (c_str sql) st ≡ some [] → first_row db sql st ≡ none
  unfolding first_row query next
  no_row sql st h = rw h (ground arith)

  -- A statement that succeeds was executed.
  executed :
      (sql : Bytes) (st : S)
      → (run_update db sql st).0 ≡ true
      → (run_update db sql st ≡ db.execute (c_str sql) st)
  unfolding run_update update
  executed sql st h = ground arith

  module _ (deletes : DeletesSessions db) where
    find_session-deleted :
        (token : Bytes) (st : S)
        → (run_update db (delete_sql db token) st).0 ≡ true
        → find_session db token (run_update db (delete_sql db token) st).1 ≡ returned none
    unfolding find_session
    find_session-deleted token st h =
        let run = executed (delete_sql db token) st h in
        let gone = deletes token st (sym (ap (λ x. x.0) run) ∙ h) in
        rw
          (run, no_row (by_token_sql db token) (db.execute (c_str (delete_sql db token)) st).1 gone)
          refl

module _ {S : Type 0} (db : Mysql S) (C : CacheInterface Bytes SessionRecord) (P : C.State → Type 0)
    (get-P : (token : Bytes) (s : C.State) → P s → P (C.get token s).1)
    (put-P : (token : Bytes) (r : SessionRecord) (s : C.State) → P s → P (C.put token r s)) where
  -- A search changes nothing but the cache, and of that keeps what `get` and `put` keep.
  abbrev pub Kept : SessionStore db C → SessionStore db C → Type 0
  Kept s s' = (s'.server ≡ s.server) × P s'.cache

  remembered :
      (s : SessionStore db C) (o : Outcome (Option SessionRecord))
      → P s.cache
      → Kept s (bind (remember db C) (o, s)).1
  remembered s thrown v = (refl, v)
  remembered s (returned none) v = (refl, v)
  remembered s (returned (some r)) v = (refl, put-P r.session_token r s.cache v)

  searched :
      (token : Bytes) (cached : Option SessionRecord) (s : SessionStore db C)
      → P s.cache
      → Kept s (search_unless db C token cached s).1
  searched token (some r) s v = (refl, v)
  searched token none s v = remembered s (find_session db token s.server) v

  pub find_by_token-Kept :
      (token : Bytes) (s : SessionStore db C) → P s.cache → Kept s (find_by_token db C token s).1
  unfolding find_by_token
  find_by_token-Kept token s v = searched token (C.get token s.cache).0 _ (get-P token s.cache v)

module _ {S : Type 0} (db : Mysql S) (C : CacheInterface Bytes SessionRecord)
    (lawful : IsLawful C) where
  -- A session that is cached is still found after all the sessions of its user were deleted, and after
  -- the expired sessions were deleted, whatever these statements did.
  pub find_by_token-cached :
      (token : Bytes) (user_id : ℤ) (r : SessionRecord) (s : SessionStore db C)
      → lawful.IsValid s.cache
      → lawful.peek token s.cache ≡ some r
      → ((find_by_token db C token (delete_by_user_id db C user_id s).1).0 ≡ returned (some r))
        × ((find_by_token db C token (delete_expired_sessions db C s).1).0 ≡ returned (some r))
  unfolding find_by_token delete_by_user_id delete_expired_sessions
  find_by_token-cached token user_id r s v h =
      let hit = lawful.get_answer token s.cache v ∙ h in (rw hit refl, rw hit refl)

  -- Where the server deletes what it is told to, a session that was deleted by its token with success
  -- is not found by it, in the cache or in the database.
  pub find_by_token-delete_by_token :
      DeletesSessions db
      → (token : Bytes) (s : SessionStore db C) → lawful.IsValid s.cache
      → (delete_by_token db C token s).0 ≡ true
      → (find_by_token db C token (delete_by_token db C token s).1).0 ≡ returned none
  unfolding find_by_token delete_by_token
  find_by_token-delete_by_token deletes token s v h =
      let left = lawful.remove-IsValid token s.cache v in
      let missing =
        lawful.get_answer token (C.remove token s.cache).1 left
        ∙ lawful.peek-remove token token s.cache v
        ∙ ap (λ b. if b then none else lawful.peek token s.cache) (bytes_eq_refl token) in
      rw (missing, find_session-deleted db deletes token s.server h) refl
