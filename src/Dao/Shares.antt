-- ===== src/Dao/Shares.antt =====
-- src/dao/ShareDao.cpp
use fileagent_server.Base.{Bool, List, ◌++◌, Option, is_empty, if◌then◌else◌}
use fileagent_server.Base.Bytes.{Bytes, codes}
use fileagent_server.Base.Int.{ℤ}
use fileagent_server.Base.Number.{to_string}
use fileagent_server.Base.Outcome.{Outcome}
use fileagent_server.Database.{Mysql, escape, first_row, all_rows, run_update}
use fileagent_server.Dao.Rows.{make_share_record, make_found, make_all}
use fileagent_server.Models.{ShareRecord}

abbrev columns : Bytes
columns =
    codes "SELECT id, file_id, user_id, share_token, expires_at, created_at FROM shares WHERE "

module _ {S : Type 0} (db : Mysql S) where
  abbrev insert_lasting : ℤ → ℤ → Bytes → Bytes
  insert_lasting file_id user_id token =
      codes "INSERT INTO shares (file_id, user_id, share_token) VALUES ("
      ++ (to_string file_id
          ++ (codes ", "
              ++ (to_string user_id ++ (codes ", '" ++ (escape db token ++ codes "')")))))

  abbrev insert_expiring : ℤ → ℤ → Bytes → Bytes → Bytes
  insert_expiring file_id user_id token expires_at =
      codes "INSERT INTO shares (file_id, user_id, share_token, expires_at) VALUES ("
      ++ (to_string file_id
          ++ (codes ", "
              ++ (to_string user_id
                  ++ (codes ", '"
                      ++ (escape db token
                          ++ (codes "', '" ++ (escape db expires_at ++ codes "')")))))))

  unfoldable pub insert_sql : ℤ → ℤ → Bytes → Bytes → Bytes
  insert_sql file_id user_id token expires_at =
      if is_empty expires_at
      then insert_lasting file_id user_id token
      else insert_expiring file_id user_id token expires_at

  unfoldable pub create_share : ℤ → ℤ → Bytes → Bytes → S → Bool × S
  create_share file_id user_id token expires_at st =
      run_update db (insert_sql file_id user_id token expires_at) st

  unfoldable pub by_token_sql : Bytes → Bytes
  by_token_sql token =
      columns
      ++ (codes "share_token = '"
          ++ (escape db token ++ codes "' AND (expires_at IS NULL OR expires_at > NOW()) LIMIT 1"))

  unfoldable pub find_by_token : Bytes → S → Outcome (Option ShareRecord)
  find_by_token token st = make_found make_share_record (first_row db (by_token_sql token) st)

  unfoldable pub delete_sql : Bytes → Bytes
  delete_sql token =
      codes "DELETE FROM shares WHERE share_token = '" ++ (escape db token ++ codes "'")

  unfoldable pub delete_by_token : Bytes → S → Bool × S
  delete_by_token token st = run_update db (delete_sql token) st

  unfoldable pub list_by_user_id : ℤ → S → Outcome (List ShareRecord)
  list_by_user_id user_id st = make_all make_share_record (
      all_rows db
        (columns ++ (codes "user_id = " ++ (to_string user_id ++ codes " ORDER BY id DESC"))) st)
