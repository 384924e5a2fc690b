-- ===== src/Dao/Users.antt =====
-- src/dao/UserDao.cpp, and what `findByUsername` uses of src/db/PreparedStatement.cpp.
use fileagent_server.Base.{
  ℕ, Bool, true, ◌&&◌, List, [], ◌∷◌, ◌++◌, Option, none, some, leb, length, get_elem?,
  if◌then◌else◌,
}
use fileagent_server.Base.Bytes.{Bytes, codes, c_str, bytes_eq}
use fileagent_server.Base.Int.{ℤ, pos}
use fileagent_server.Base.Number.{to_string, stoi, stoll}
use fileagent_server.Base.Outcome.{Outcome, returned, or_throw}
use fileagent_server.Database.{
  Mysql, Row, MysqlConn, escape, first_row, all_rows, run_update, value,
}
use fileagent_server.Dao.Rows.{make_user_record, make_found, make_all, long_or_zero, ◌>>=◌}
use fileagent_server.Models.{UserRecord}

abbrev columns : Bytes
columns =
    codes
      "SELECT id, username, password, email, status, is_admin, created_at, updated_at FROM users "

-- The buffers of `prepare` hold 1024 bytes for each column.
abbrev fits_buffers : Row → Bool
fits_buffers [] = true
fits_buffers (none ∷ row) = fits_buffers row
fits_buffers (some text ∷ row) = leb (length text) 1024 && fits_buffers row

-- `PreparedStatement::fetch`, which fails where a text is cut.
abbrev fetch : Option Row → Option Row
fetch none = none
fetch (some row) = if fits_buffers row then some row else none

-- `PreparedStatement::getString`
abbrev get_string : ℕ → Row → Bytes
get_string i row = elim (get_elem? row i) [ none ↦ [] | some none ↦ [] | some (some text) ↦ text ]

-- `PreparedStatement::getInt64`, of a buffer with text.
abbrev get_int64 : ℕ → Row → Outcome ℤ
get_int64 i row = elim (get_elem? row i) [
  | none ↦ returned (pos 0)
  | some none ↦ returned (pos 0)
  | some (some text) ↦ or_throw (stoll (c_str text))
]

unfoldable pub make_prepared_user : Row → Outcome UserRecord
make_prepared_user row = do
  id ← get_int64 0 row
  status ← or_throw (stoi (get_string 4 row))
  returned record {
    id = id;
    username = get_string 1 row;
    password = get_string 2 row;
    email = get_string 3 row;
    status = status;
    is_admin = bytes_eq (get_string 5 row) (codes "1");
    created_at = get_string 6 row;
    updated_at = get_string 7 row;
  }

abbrev by_username_sql : Bytes
by_username_sql = columns ++ codes "WHERE username = ? LIMIT 1"

abbrev prepared_user : Option Row → Outcome (Option UserRecord)
prepared_user none = returned none
prepared_user (some row) = make_prepared_user row >>= λ user. returned (some user)

-- `findByUsername`; `execute` is what the client library has of a statement with one text: the first
-- row of its result, if the statement could be prepared and executed and has one.
unfoldable pub find_by_username :
    {S : Type 0}
    → Mysql S
    → (Bytes → Bytes → S → Option Row)
    → Bytes
    → S
    → Outcome (Option UserRecord)
find_by_username db execute username st =
    if db.connected st
    then prepared_user (fetch (execute by_username_sql username st))
    else returned none

module _ {S : Type 0} (db : Mysql S) where
  unfoldable pub insert_sql : Bytes → Bytes → Bytes → Bytes
  insert_sql username password email =
      codes "INSERT INTO users (username, password, email, status) VALUES ('"
      ++ (escape db username
          ++ (codes "', '"
              ++ (escape db password ++ (codes "', '" ++ (escape db email ++ codes "', 1)")))))

  unfoldable pub create_user : Bytes → Bytes → Bytes → S → Bool × S
  create_user username password email st = run_update db (insert_sql username password email) st

  unfoldable pub find_by_id : ℤ → S → Outcome (Option UserRecord)
  find_by_id id st =
      make_found make_user_record
        (first_row db (columns ++ (codes "WHERE id = " ++ (to_string id ++ codes " LIMIT 1"))) st)

  unfoldable pub update_status : ℤ → ℤ → S → Bool × S
  update_status id status st =
      run_update db
        (codes "UPDATE users SET status = "
          ++ (to_string status ++ (codes ", updated_at = NOW() WHERE id = " ++ to_string id)))
        st

  unfoldable pub update_password_sql : ℤ → Bytes → Bytes
  update_password_sql id password =
      codes "UPDATE users SET password = '"
      ++ (escape db password ++ (codes "', updated_at = NOW() WHERE id = " ++ to_string id))

  unfoldable pub update_password : ℤ → Bytes → S → Bool × S
  update_password id password st = run_update db (update_password_sql id password) st

  unfoldable pub list_all : ℤ → ℤ → S → Outcome (List UserRecord)
  list_all limit offset st = make_all make_user_record (
      all_rows db
        (columns
          ++ (codes "ORDER BY id ASC LIMIT "
              ++ (to_string limit ++ (codes " OFFSET " ++ to_string offset))))
        st)

  abbrev count_at : Option MysqlConn → Outcome ℤ
  count_at none = returned (pos 0)
  count_at (some c) = long_or_zero (value (pos 0) c)

  unfoldable pub count_all : S → Outcome ℤ
  count_all st = count_at (first_row db (codes "SELECT COUNT(*) FROM users") st)
