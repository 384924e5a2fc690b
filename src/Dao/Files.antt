-- ===== src/Dao/Files.antt =====
-- src/dao/FileDao.cpp
use fileagent_server.Base.{Bool, List, ◌++◌, Option}
use fileagent_server.Base.Bytes.{Bytes, codes}
use fileagent_server.Base.Int.{ℤ}
use fileagent_server.Base.Number.{to_string}
use fileagent_server.Base.Outcome.{Outcome}
use fileagent_server.Database.{Mysql, escape, first_row, all_rows, run_update}
use fileagent_server.Dao.Rows.{make_file_record, make_found, make_all}
use fileagent_server.Models.{FileRecord}

abbrev pub columns : Bytes
columns =
    codes
      "SELECT id, user_id, filename, file_hash, file_size, storage_path, status, summary, tags, created_at FROM files WHERE "

module _ {S : Type 0} (db : Mysql S) where
  unfoldable pub insert_sql : FileRecord → Bytes
  insert_sql r =
      codes
        "INSERT INTO files (user_id, filename, file_hash, file_size, storage_path, status) VALUES ("
      ++ (to_string r.user_id
          ++ (codes ", '"
              ++ (escape db r.filename
                  ++ (codes "', '"
                      ++ (escape db r.file_hash
                          ++ (codes "', "
                              ++ (to_string r.file_size
                                  ++ (codes ", '"
                                      ++ (escape db r.storage_path
                                          ++ (codes "', "
                                              ++ (to_string r.status ++ codes ")")))))))))))

  unfoldable pub create_file : FileRecord → S → Bool × S
  create_file r st = run_update db (insert_sql r) st

  unfoldable pub find_by_id : ℤ → S → Outcome (Option FileRecord)
  find_by_id id st =
      make_found make_file_record
        (first_row db (columns ++ (codes "id = " ++ (to_string id ++ codes " LIMIT 1"))) st)

  unfoldable pub by_hash_sql : Bytes → Bytes
  by_hash_sql file_hash =
      columns ++ (codes "file_hash = '" ++ (escape db file_hash ++ codes "' LIMIT 1"))

  unfoldable pub find_by_hash : Bytes → S → Outcome (Option FileRecord)
  find_by_hash file_hash st = make_found make_file_record (first_row db (by_hash_sql file_hash) st)

  unfoldable pub list_by_user_id : ℤ → ℤ → ℤ → S → Outcome (List FileRecord)
  list_by_user_id user_id limit offset st = make_all make_file_record (
      all_rows db
        (columns
          ++ (codes "user_id = "
              ++ (to_string user_id
                  ++ (codes " ORDER BY id DESC LIMIT "
                      ++ (to_string limit ++ (codes " OFFSET " ++ to_string offset))))))
        st)

  unfoldable pub update_status : ℤ → ℤ → S → Bool × S
  update_status id status st =
      run_update db
        (codes "UPDATE files SET status = "
          ++ (to_string status ++ (codes " WHERE id = " ++ to_string id)))
        st

  unfoldable pub remove_by_id : ℤ → S → Bool × S
  remove_by_id id st = run_update db (codes "DELETE FROM files WHERE id = " ++ to_string id) st

  unfoldable pub update_meta_sql : ℤ → Bytes → Bytes → Bytes
  update_meta_sql id summary tags =
      codes "UPDATE files SET summary = '"
      ++ (escape db summary
          ++ (codes "', tags = '" ++ (escape db tags ++ (codes "' WHERE id = " ++ to_string id))))

  unfoldable pub update_file_meta : ℤ → Bytes → Bytes → S → Bool × S
  update_file_meta id summary tags st = run_update db (update_meta_sql id summary tags) st
