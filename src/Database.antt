-- ===== src/Database.antt =====
-- src/db/MysqlConn.cpp and MysqlConn.h. The client library of MySQL is the record `Mysql`, over any
-- state `S` of the server; a connection of ConnectionPool is there or not.
pub mod Literals
use fileagent_server.Base.{
  ℕ, Bool, true, false, List, [], ◌∷◌, Option, none, some, get_elem?, is_empty, if◌then◌else◌, leb,
}
use fileagent_server.Base.Bytes.{Bytes, c_str}
use fileagent_server.Base.Int.{ℤ, pos, negsuc}

-- A row of a result; a column that is NULL has no text.
abbrev pub Row : Type 0
Row = List (Option Bytes)

pub record Mysql (S : Type 0) : Type 0 where
  -- Whether ConnectionPool::getConnection gives a connection.
  pub connected : S → Bool
  -- mysql_real_escape_string
  pub real_escape_string : Bytes → Bytes
  -- mysql_query and mysql_store_result of a SELECT, where there is a result.
  pub select : Bytes → S → Option (List Row)
  -- mysql_query of any other statement, which may fail.
  pub execute : Bytes → S → Bool × S

-- `result_`, as the rows that are left, and `row_`.
pub record MysqlConn : Type 0 where
  pub result : Option (List Row)
  pub row : Option Row

abbrev pub new_connection : MysqlConn
new_connection = record { result = none; row = none }

module _ {S : Type 0} (db : Mysql S) where
  unfoldable pub escape : Bytes → Bytes
  escape text = if is_empty text then text else db.real_escape_string text

  unfoldable pub update : Bytes → S → Bool × S
  update sql st = db.execute (c_str sql) st

  abbrev stored : Option (List Row) → Bool × MysqlConn
  stored none = (false, new_connection)
  stored (some rows) = (true, record { result = some rows; row = none })

  -- `freeResult` comes first, so that the connection's own state does not matter.
  unfoldable pub query : Bytes → S → Bool × MysqlConn
  query sql st = stored (db.select (c_str sql) st)

abbrev fetched : List Row → Bool × MysqlConn
fetched [] = (false, record { result = some []; row = none })
fetched (r ∷ rows) = (true, record { result = some rows; row = some r })

abbrev advanced : Option (List Row) → MysqlConn → Bool × MysqlConn
advanced none c = (false, c)
advanced (some rows) c = fetched rows

unfoldable pub next : MysqlConn → Bool × MysqlConn
next c = advanced c.result c

abbrev column : ℤ → Option Row → Option Bytes
column i none = none
column (negsuc i) (some row) = none
column (pos i) (some row) = elim (get_elem? row i) [
  | none ↦ none
  | some none ↦ none
  | some (some text) ↦ some (c_str text)
]

-- `value`, as the text up to its first zero byte.
unfoldable pub value : ℤ → MysqlConn → Option Bytes
value i c = column i c.row

module _ {S : Type 0} (db : Mysql S) where
  -- `if (!connection) ...; if (!connection->query(sql) || !connection->next()) ...`: a connection that
  -- stands at the first row, if there is one.
  unfoldable pub first_row : Bytes → S → Option MysqlConn
  unfolding next
  first_row sql st =
      let (ok, c) = query db sql st in
      let (found, at) = next c in
      if db.connected st then (if ok then (if found then some at else none) else none) else none

  -- `while (connection->next())`: the connection at each of its rows, one after the other.
  unfoldable pub at_rows : List Row → List MysqlConn
  at_rows [] = []
  at_rows (r ∷ rows) = record { result = some rows; row = some r } ∷ at_rows rows

  abbrev rows_of : Option (List Row) → List MysqlConn
  rows_of none = []
  rows_of (some rows) = at_rows rows

  unfoldable pub all_rows : Bytes → S → List MysqlConn
  all_rows sql st =
      let (ok, c) = query db sql st in
      if db.connected st then (if ok then rows_of c.result else []) else []

  -- `if (!connection) return false; return connection->update(sql);`
  unfoldable pub run_update : Bytes → S → Bool × S
  run_update sql st = if db.connected st then update db sql st else (false, st)
