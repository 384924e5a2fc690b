-- ===== src/Dao/Rows.antt =====
-- The records that src/dao makes of the rows of its queries: `makeUserRecord`, `makeSessionRecord`,
-- `makeShareRecord` and `makeFileRecord`. A number that cannot be read is an exception.
use fileagent_server.Base.{Bool, false, List, [], ◌∷◌, Option, none, some}
use fileagent_server.Base.Bytes.{Bytes, codes, bytes_eq}
use fileagent_server.Base.Int.{ℤ, pos}
use fileagent_server.Base.Number.{stoi, stoll}
use fileagent_server.Base.Outcome.{Outcome, returned, thrown, or_throw}
use fileagent_server.Database.{MysqlConn, value}
use fileagent_server.Models.{UserRecord, SessionRecord, ShareRecord, FileRecord}

-- `value(i) != nullptr ? std::stoll(value(i)) : 0`, and the like.
abbrev pub long_or_zero : Option Bytes → Outcome ℤ
long_or_zero none = returned (pos 0)
long_or_zero (some s) = or_throw (stoll s)

abbrev pub int_or_zero : Option Bytes → Outcome ℤ
int_or_zero none = returned (pos 0)
int_or_zero (some s) = or_throw (stoi s)

abbrev pub text_or_empty : Option Bytes → Bytes
text_or_empty none = []
text_or_empty (some s) = s

abbrev pub is_one : Option Bytes → Bool
is_one none = false
is_one (some s) = bytes_eq s (codes "1")

-- What follows a conversion, if it does not throw.
infixl 5 ◌>>=◌
abbrev pub ◌>>=◌ : {A B : Type 0} → Outcome A → (A → Outcome B) → Outcome B
returned a >>= f = f a
thrown >>= f = thrown

unfoldable pub make_user_record : MysqlConn → Outcome UserRecord
make_user_record c = do
  id ← long_or_zero (value (pos 0) c)
  status ← int_or_zero (value (pos 4) c)
  returned record {
    id = id;
    username = text_or_empty (value (pos 1) c);
    password = text_or_empty (value (pos 2) c);
    email = text_or_empty (value (pos 3) c);
    status = status;
    is_admin = is_one (value (pos 5) c);
    created_at = text_or_empty (value (pos 6) c);
    updated_at = text_or_empty (value (pos 7) c);
  }

unfoldable pub make_session_record : MysqlConn → Outcome SessionRecord
make_session_record c = do
  id ← long_or_zero (value (pos 0) c)
  user_id ← long_or_zero (value (pos 1) c)
  returned record {
    id = id;
    user_id = user_id;
    session_token = text_or_empty (value (pos 2) c);
    expires_at = text_or_empty (value (pos 3) c);
    created_at = text_or_empty (value (pos 4) c);
  }

unfoldable pub make_share_record : MysqlConn → Outcome ShareRecord
make_share_record c = do
  id ← long_or_zero (value (pos 0) c)
  file_id ← long_or_zero (value (pos 1) c)
  user_id ← long_or_zero (value (pos 2) c)
  returned record {
    id = id;
    file_id = file_id;
    user_id = user_id;
    share_token = text_or_empty (value (pos 3) c);
    expires_at = text_or_empty (value (pos 4) c);
    created_at = text_or_empty (value (pos 5) c);
  }

unfoldable pub make_file_record : MysqlConn → Outcome FileRecord
make_file_record c = do
  id ← long_or_zero (value (pos 0) c)
  user_id ← long_or_zero (value (pos 1) c)
  file_size ← long_or_zero (value (pos 4) c)
  status ← int_or_zero (value (pos 6) c)
  returned record {
    id = id;
    user_id = user_id;
    filename = text_or_empty (value (pos 2) c);
    file_hash = text_or_empty (value (pos 3) c);
    file_size = file_size;
    storage_path = text_or_empty (value (pos 5) c);
    status = status;
    summary = text_or_empty (value (pos 7) c);
    tags = text_or_empty (value (pos 8) c);
    created_at = text_or_empty (value (pos 9) c);
  }

-- `while (connection->next()) records.push_back(make(connection));`
unfoldable pub make_all : {A : Type 0} → (MysqlConn → Outcome A) → List MysqlConn → Outcome (List A)
make_all make [] = returned []
make_all make (c ∷ cs) = make c >>= λ a. make_all make cs >>= λ rest. returned (a ∷ rest)

-- `return make(connection);`, where a row was found.
abbrev pub make_found :
    {A : Type 0} → (MysqlConn → Outcome A) → Option MysqlConn → Outcome (Option A)
make_found make none = returned none
make_found make (some c) = make c >>= λ a. returned (some a)
