-- ===== src/ShareService.antt =====
-- src/service/ShareService.cpp. The random bytes of the token are an argument, and so is what
-- strftime prints of the time that is so many hours from now.
use fileagent_server.Base.{Bool, [], Option, none, some, if◌then◌else◌}
use fileagent_server.Base.Bytes.{Bytes, codes}
use fileagent_server.Base.Int.{ℤ, pos, eq_ℤ, leb_ℤ, ltb_ℤ}
use fileagent_server.Base.Outcome.{returned, M, pure, ◌>>=◌, tries}
use fileagent_server.Dao.Files.{find_by_id}
use fileagent_server.Dao.Shares.{create_share}
use fileagent_server.Database.{Mysql}
use fileagent_server.Hash.{generate_token}
use fileagent_server.Models.{FileRecord, ServiceResult, succeed, failed}

module _ {S : Type 0} (db : Mysql S) (random : Bytes) (hours_from_now : ℤ → Bytes) where
  abbrev pub expires_at : ℤ → Bytes
  expires_at expire_hours = if ltb_ℤ (pos 0) expire_hours then hours_from_now expire_hours else []

  abbrev inserted : Bool → ServiceResult Bytes
  inserted done =
      if done
      then succeed (generate_token random) (codes "share created")
      else failed (codes "failed to create share")

  -- `createShare` after the search for the file.
  abbrev pub share_found : ℤ → ℤ → ℤ → Option FileRecord → M S (ServiceResult Bytes)
  share_found user_id file_id expire_hours none st =
      (returned (failed (codes "file not found")), st)
  share_found user_id file_id expire_hours (some file) st =
      let (done, st') =
        create_share db file_id user_id (generate_token random) (expires_at expire_hours) st in
      if eq_ℤ file.user_id user_id
      then (returned (inserted done), st')
      else (returned (failed (codes "file does not belong to user")), st)

  unfoldable pub create : ℤ → ℤ → ℤ → M S (ServiceResult Bytes)
  create user_id file_id expire_hours =
      if leb_ℤ file_id (pos 0)
      then pure (failed (codes "invalid file id"))
      else tries (find_by_id db file_id) >>= share_found user_id file_id expire_hours
