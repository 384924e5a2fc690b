-- ===== src/Dao/Login.antt =====
-- src/dao/SessionDao.cpp: a session that was created.
use fileagent_server.Base.{◌≡◌, ◌∙◌, refl, true, none, some}
use fileagent_server.Base.Bytes.{Bytes, bytes_key}
use fileagent_server.Base.Int.{ℤ}
use fileagent_server.Base.Outcome.{returned}
use fileagent_server.CacheInterface.{CacheInterface, IsLawful}
use fileagent_server.Dao.Sessions.{
  SessionStore, insert_sql, find_session, find_by_token, create_session,
}
use fileagent_server.Database.{Mysql, run_update}
use fileagent_server.Models.{SessionRecord}

-- Where the INSERT of a session is executed, the SELECT for its token that follows finds it, if
-- the user is one whose id `IsId`; `expires_at` is a time that lies ahead.
abbrev pub FindsCreated : {S : Type 0} → Mysql S → (ℤ → Type 0) → Bytes → Type 0
FindsCreated {S = S} db IsId expires_at =
    (user_id : ℤ) (token : Bytes) (st : S)
    → IsId user_id
    → (run_update db (insert_sql db user_id token expires_at) st).0 ≡ true
    → (r : SessionRecord) × (find_session db token
          (run_update db (insert_sql db user_id token expires_at) st).1
        ≡ returned (some r))
      × (r.user_id ≡ user_id)

module _ {S : Type 0} (db : Mysql S) (C : CacheInterface Bytes SessionRecord) (lawful : IsLawful C)
    (IsId : ℤ → Type 0) (expires_at : Bytes) where
  -- A session that was created, under a token that is not cached, is found.
  pub find_by_token-create_session :
      FindsCreated db IsId expires_at
      → (user_id : ℤ) (token : Bytes) (s : SessionStore db C) → IsId user_id
      → lawful.IsValid s.cache
      → lawful.peek token s.cache ≡ none
      → (create_session db C user_id token expires_at s).0 ≡ true
      → (r : SessionRecord) × ((find_by_token db C token
            (create_session db C user_id token expires_at s).1).0
          ≡ returned (some r))
        × (r.user_id ≡ user_id)
  unfolding find_by_token create_session
  find_by_token-create_session finds user_id token s is_id v fresh done =
      let (r, found, same) = finds user_id token s.server is_id done in
      let miss = lawful.get_answer token s.cache v ∙ fresh in (r, rw (miss, found) refl, same)
